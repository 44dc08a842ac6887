-- ===== src/Ws/Nested.antt =====
-- The maps of maps of pkg/ws/hub.go: a value for a session and a player.
use domino_jc_project.Prelude.{
  ◌≡◌, String, str_eq, ◌&&◌, Option, none, some, [], ◌∷◌, StringMap, find_key, put_key, delete_key,
  find_key-put_key, find_key-delete_key, if◌then◌else◌, arith, Bool-cases, inl, inr, eq_iff,
}

abbrev pub Nested : Type 0 → Type 0
Nested V = StringMap (StringMap V)

module _ {V : Type 0} where
  -- `m[session]`, which is empty for a missing key.
  unfoldable pub inner : String → Nested V → StringMap V
  unfolding find_key
  inner session m = elim (find_key session m) [ none ↦ [] | some players ↦ players ]

  unfoldable pub find_in : String → String → Nested V → Option V
  unfolding inner find_key
  find_in session player m = find_key player (inner session m)

  -- `m[session][player] = v`, with the inner map made where there is none.
  unfoldable pub put_in : String → String → V → Nested V → Nested V
  unfolding inner put_key
  put_in session player v m = put_key session (put_key player v (inner session m)) m

  put_or_delete : String → StringMap V → Nested V → Nested V
  unfolding put_key delete_key
  put_or_delete session [] m = delete_key session m
  put_or_delete session (e ∷ players) m = put_key session (e ∷ players) m

  -- `delete(m[session], player)`, and the inner map goes once it is empty.
  unfoldable pub delete_in : String → String → Nested V → Nested V
  unfolding inner delete_key put_or_delete
  delete_in session player m = put_or_delete session (delete_key player (inner session m)) m

  inner-put_key :
      (s t : String) (players : StringMap V) (m : Nested V)
      → inner t (put_key s players m) ≡ (if str_eq s t then players else inner t m)
  unfolding inner
  inner-put_key s t players m = elim (Bool-cases (str_eq s t)) [
    | inl e ↦ rw (inner, find_key-put_key s t players m, e)
    | inr e ↦ rw (inner, find_key-put_key s t players m, e)
  ]

  inner-put_or_delete :
      (s t : String) (players : StringMap V) (m : Nested V)
      → inner t (put_or_delete s players m) ≡ (if str_eq s t then players else inner t m)
  unfolding inner put_or_delete
  inner-put_or_delete s t [] m = elim (Bool-cases (str_eq s t)) [
    | inl e ↦ rw (inner, put_or_delete, find_key-delete_key s t m, e)
    | inr e ↦ rw (inner, put_or_delete, find_key-delete_key s t m, e)
  ]
  inner-put_or_delete s t (e ∷ players) m = inner-put_key s t (e ∷ players) m

  pub find_in-put_in :
      (s t p q : String) (v : V) (m : Nested V)
      → find_in t q (put_in s p v m) ≡ (if str_eq s t && str_eq p q then some v else find_in t q m)
  unfolding find_in put_in
  find_in-put_in s t p q v m = elim (Bool-cases (str_eq s t)) [
    | inl e ↦
        rw (inner-put_key s t (put_key p v (inner s m)) m, e, find_key-put_key p q v (inner s m))
          (ground (arith, eq_iff s t, e))
    | inr e ↦ rw (inner-put_key s t (put_key p v (inner s m)) m, e)
  ]

  pub find_in-delete_in :
      (s t p q : String) (m : Nested V)
      → find_in t q (delete_in s p m) ≡ (if str_eq s t && str_eq p q then none else find_in t q m)
  unfolding find_in delete_in
  find_in-delete_in s t p q m = elim (Bool-cases (str_eq s t)) [
    | inl e ↦
        rw
          (
            inner-put_or_delete s t (delete_key p (inner s m)) m,
            e,
            find_key-delete_key p q (inner s m),
          )
          (ground (arith, eq_iff s t, e))
    | inr e ↦ rw (inner-put_or_delete s t (delete_key p (inner s m)) m, e)
  ]
