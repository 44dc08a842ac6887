-- ===== src/Gateway/SessionCache/Tests.antt =====
-- A cache of one response.
use domino_jc_project.Prelude.{ℕ, ◌≡◌, none, find_key, put_key}
use domino_jc_project.Gateway.SessionCache.{SessionCache, get, put, new_session_cache}
use domino_jc_project.Gateway.SessionCache.Bounds.{
  is_first, new_session_cache-IsCache, put-IsCache, get-put,
}

abbrev empty : SessionCache ℕ
empty = new_session_cache 1

abbrev one : SessionCache ℕ
one = put "c:1" 7 empty

-- The second response takes the place of the first.
get-put_example : get "c:1" (put "c:2" 8 one) ≡ none
unfolding get put new_session_cache put_key find_key is_first
get-put_example =
    get-put "c:2" "c:1" 8 one (put-IsCache "c:1" 7 empty (new_session_cache-IsCache 1))
