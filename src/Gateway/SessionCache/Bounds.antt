-- ===== src/Gateway/SessionCache/Bounds.antt =====
-- The cache stays within its capacity, and what it still answers.
use domino_jc_project.Prelude.{
  ℕ, zero, ◌+◌, ◌≤◌, ◌<◌, String, ◌≡◌, refl, sym, ap, subst, ◌∙◌, Bool, true, false, not, ◌&&◌,
  ◌||◌, Option, none, some, List, [], ◌∷◌, ◌++◌, ltb, ◌==◌, if◌then◌else◌, length, length-append,
  find_key, put_key, delete_key, find_key-put_key, find_key-delete_key, str_eq, eq_iff, arith,
  Bool-cases, Option-cases, inl, inr,
}
use domino_jc_project.Gateway.SessionCache.{
  SessionCache, new_session_cache, get, evict, make_room, put,
}

unfoldable pub is_in : String → List String → Bool
is_in key [] = false
is_in key (k ∷ ks) = str_eq k key || is_in key ks

unfoldable pub is_first : String → List String → Bool
is_first key [] = false
is_first key (k ∷ ks) = str_eq k key

unfoldable pub IsDistinct : List String → Type 0
IsDistinct [] = Unit
IsDistinct (k ∷ ks) = (is_in k ks ≡ false) × IsDistinct ks

abbrev pub is_some {ℓ} : {A : Type ℓ} → Option A → Bool
is_some none = false
is_some (some _) = true

is_in-append :
    (key : String) (ks : List String) (k : String)
    → is_in key (ks ++ k ∷ []) ≡ (is_in key ks || str_eq k key)
unfolding is_in
is_in-append key [] k = ground arith
is_in-append key (x ∷ ks) k = ground (arith, is_in-append key ks k)

IsDistinct-append :
    (ks : List String) (k : String) → is_in k ks ≡ false → IsDistinct ks → IsDistinct (ks ++ k ∷ [])
unfolding is_in IsDistinct
IsDistinct-append [] k h d = (refl, tt)
IsDistinct-append (x ∷ ks) k h (new, d) = (
  ground (arith, is_in-append x ks k, eq_iff k x, eq_iff x k, h, new),
  IsDistinct-append ks k (ground (arith, h)) d,
)

module _ {V : Type 0} where
  -- Every key has its place in the order once, and there are at most as many as the capacity.
  pub record IsCache (c : SessionCache V) : Type 0 where
    pub positive : zero < c.capacity
    pub bound : length c.order ≤ c.capacity
    pub distinct : IsDistinct c.order
    pub keys : (key : String) → is_in key c.order ≡ is_some (get key c)

  pub new_session_cache-IsCache : (capacity : ℕ) → IsCache (new_session_cache {V = V} capacity)
  unfolding new_session_cache get is_in IsDistinct find_key
  new_session_cache-IsCache capacity = record {
    positive = ground arith;
    bound = omega arith;
    distinct = tt;
    keys = λ key. refl;
  }

  -- What `put` does to the order and the entries, by the way it goes.
  data PutCase (key : String) (v : V) (c r : SessionCache V) : Type 0 where
    known :
        is_some (get key c) ≡ true
        → r ≡ record c { entries = put_key key v c.entries }
        → PutCase key v c r
    kept :
        get key c ≡ none
        → length c.order < c.capacity
        → r ≡ record c { order = c.order ++ key ∷ []; entries = put_key key v c.entries }
        → PutCase key v c r
    evicted :
        (oldest : String) (rest : List String)
        → get key c ≡ none
        → c.order ≡ oldest ∷ rest
        → length c.order ≡ c.capacity
        → r ≡ record c {
          order = rest ++ key ∷ [];
          entries = put_key key v (delete_key oldest c.entries);
        }
        → PutCase key v c r

  abbrev with_entry : String → V → SessionCache V → SessionCache V
  with_entry key v c = record c { entries = put_key key v c.entries }

  evict-PutCase :
      (key : String) (v : V) (c : SessionCache V) (order : List String)
      → c.order ≡ order
      → get key c ≡ none
      → IsCache c
      → PutCase key v c (with_entry key v (evict (record c { order = order ++ key ∷ [] })))
  unfolding evict get
  evict-PutCase key v c [] same e cache =
      let positive = cache.positive in
      let few : ltb c.capacity (length (key ∷ [])) ≡ false = ground (arith, positive) in
      PutCase.kept e (rw same positive) (
        rw (few, evict)
          (ap (λ o. record c { order = o ++ key ∷ []; entries = put_key key v c.entries })
            (sym same)))
  evict-PutCase key v c (oldest ∷ rest) same e cache =
      let bound : length (oldest ∷ rest) ≤ c.capacity =
        subst (λ o. length o ≤ c.capacity) same cache.bound in
      let size = length-append rest (key ∷ []) in
      elim (Bool-cases (ltb c.capacity (length (oldest ∷ (rest ++ key ∷ []))))) [
        | inl over ↦
            let full : length (oldest ∷ rest) ≡ c.capacity = ground (arith, size) in
            PutCase.evicted oldest rest e same (rw same full) (rw (over, evict))
        | inr over ↦
            let room : length (oldest ∷ rest) < c.capacity = ground (arith, size) in
            PutCase.kept e (rw same room) (
              rw (over, evict)
                (ap (λ o. record c { order = o ++ key ∷ []; entries = put_key key v c.entries })
                  (sym same)))
      ]

  put-PutCase :
      (key : String) (v : V) (c : SessionCache V) → IsCache c → PutCase key v c (put key v c)
  unfolding put make_room get
  put-PutCase key v c cache = elim (Option-cases (find_key key c.entries)) [
    | inr (w, e) ↦ PutCase.known (rw e refl) (rw (e, put, make_room) refl)
    | inl e ↦ rw (e, put, make_room) (evict-PutCase key v c c.order refl e cache)
  ]

  pub put-grows :
      (key : String) (v : V) (c : SessionCache V)
      → IsCache c
      → length (put key v c).order ≤ length c.order + 1
  put-grows key v c cache = elim (put-PutCase key v c cache) [
    | known there q ↦ rw q (omega arith)
    | kept new room q ↦ rw q (omega (arith, length-append c.order (key ∷ [])))
    | evicted oldest rest new same full q ↦
        rw q (omega (arith, length-append rest (key ∷ []), ap length same))
  ]

  pub put-capacity :
      (key : String) (v : V) (c : SessionCache V) → IsCache c → (put key v c).capacity ≡ c.capacity
  put-capacity key v c cache = elim (put-PutCase key v c cache) [
    | known there q ↦ rw q refl
    | kept new room q ↦ rw q refl
    | evicted oldest rest new same full q ↦ rw q refl
  ]

  -- Storing a response keeps the cache within its capacity and the order in step with the entries.
  pub put-IsCache : (key : String) (v : V) (c : SessionCache V) → IsCache c → IsCache (put key v c)
  unfolding get is_in IsDistinct
  put-IsCache key v c cache = elim (put-PutCase key v c cache) [
    | known there q ↦ rw q (record {
      positive = cache.positive;
      bound = cache.bound;
      distinct = cache.distinct;
      keys = λ j.
          ground (arith, there, cache.keys j, find_key-put_key key j v c.entries, eq_iff key j);
    })
    | kept new room q ↦
        let size = length-append c.order (key ∷ []) in
        rw q (record {
          positive = cache.positive;
          bound = omega arith;
          distinct = IsDistinct-append c.order key (cache.keys key ∙ ap is_some new) cache.distinct;
          keys = λ j. ground (
            arith,
            cache.keys j,
            is_in-append j c.order key,
            find_key-put_key key j v c.entries,
            eq_iff key j,
          );
        })
    | evicted oldest rest new same full q ↦
        let size = length-append rest (key ∷ []) in
        let bound : length (oldest ∷ rest) ≡ c.capacity = ap length (sym same) ∙ full in
        let (gone, distinct) = subst IsDistinct same cache.distinct in
        let absent : is_in key (oldest ∷ rest) ≡ false =
          ap (is_in key) (sym same) ∙ cache.keys key ∙ ap is_some new in
        let fresh : is_in key rest ≡ false = ground (arith, absent) in
        rw q (record {
          positive = cache.positive;
          bound = omega arith;
          distinct = IsDistinct-append rest key fresh distinct;
          keys = λ j.
              let before : is_in j (oldest ∷ rest) ≡ is_some (find_key j c.entries) =
                ap (is_in j) (sym same) ∙ cache.keys j in
              let moved : str_eq oldest j ≡ true → is_in j rest ≡ false =
                λ h. subst (λ i. is_in i rest ≡ false) ((eq_iff oldest j).0 h) gone in
              ground (
                arith,
                before,
                moved,
                is_in-append j rest key,
                find_key-put_key key j v (delete_key oldest c.entries),
                find_key-delete_key oldest j c.entries,
              );
        })
  ]

  -- A response that was stored is found, and any other key answers as before, except the oldest one where
  -- a new key comes into a full cache.
  pub get-put :
      (key j : String) (v : V) (c : SessionCache V)
      → IsCache c
      → get j (put key v c) ≡ (
          if str_eq key j
          then some v
          else if not (is_some (get key c)) && length c.order == c.capacity && is_first j c.order
          then none
          else get j c)
  unfolding get is_first
  get-put key j v c cache = elim (put-PutCase key v c cache) [
    | known there q ↦ rw q (ground (arith, there, find_key-put_key key j v c.entries))
    | kept new room q ↦ rw q (ground (arith, new, room, find_key-put_key key j v c.entries))
    | evicted oldest rest new same full q ↦
        let first : is_first j c.order ≡ str_eq oldest j = ap (is_first j) same in
        rw q (
          ground (
            arith,
            new,
            full,
            first,
            find_key-put_key key j v (delete_key oldest c.entries),
            find_key-delete_key oldest j c.entries,
          ))
  ]
