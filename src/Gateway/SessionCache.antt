-- ===== src/Gateway/SessionCache.antt =====
-- pkg/gateway/session_cache.go: the responses kept for mutations that a client repeats. A key is made of a
-- client and a sequence number before it comes here.
pub mod Bounds
pub mod Tests
use domino_jc_project.Prelude.{
  ℕ, zero, suc, ◌+◌, ◌-◌, ◌≤◌, ◌<◌, String, ◌≡◌, ◌≢◌, refl, sym, ap, subst, ◌∙◌, Bool, true, false,
  not, ◌&&◌, ◌||◌, Option, none, some, List, [], ◌∷◌, ◌++◌, ltb, leb, ◌==◌, if◌then◌else◌, length,
  length-append, StringMap, find_key, put_key, delete_key, find_key-put_key, find_key-delete_key,
  str_eq, eq_iff, arith, Bool-cases, Option-cases, inl, inr, ◌⊎◌,
}

pub record SessionCache (V : Type 0) : Type 0 where
  pub capacity : ℕ
  pub order : List String
  pub entries : StringMap V

module _ {V : Type 0} where
  -- A capacity of 0 stands for any that is not positive.
  unfoldable pub new_session_cache : ℕ → SessionCache V
  new_session_cache capacity = record {
    capacity = if capacity == 0 then 10000 else capacity;
    order = [];
    entries = [];
  }

  unfoldable pub get : String → SessionCache V → Option V
  unfolding find_key
  get key c = find_key key c.entries

  -- The first key goes once there are more than the capacity.
  unfoldable pub evict : SessionCache V → SessionCache V
  unfolding delete_key
  evict c = elim c.order [
    | [] ↦ c
    | oldest ∷ order ↦
        if ltb c.capacity (length c.order)
        then record c { order = order; entries = delete_key oldest c.entries }
        else c
  ]

  unfoldable pub make_room : String → SessionCache V → SessionCache V
  unfolding evict find_key
  make_room key c = elim (find_key key c.entries) [
    | some _ ↦ c
    | none ↦ evict (record c { order = c.order ++ key ∷ [] })
  ]

  unfoldable pub put : String → V → SessionCache V → SessionCache V
  unfolding make_room put_key
  put key v c = let c' = make_room key c in record c' { entries = put_key key v c'.entries }
