-- ===== src/Prelude/Maps.antt =====
-- Go's maps as association lists with one entry for a key.
use Prim.Native.Nat.{ℕ}
use Prim.Native.String.{String}
use mathlib.Core.Path.{◌≡◌, refl}
use mathlib.Core.Option.{Option, none, some}
use mathlib.Core.List.{List, [], ◌∷◌}
use native.Mathlib.Omega.{arith}
use text.Mathlib.Text.{◌==◌ as str_eq}
use text.Mathlib.TextEquality.{eq_iff}
use domino_jc_project.Prelude.Tests.{if◌then◌else◌}

abbrev pub StringMap {ℓ} : Type ℓ → Type ℓ
StringMap V = List (String × V)

module _ {ℓ} {V : Type ℓ} where
  -- `v, ok := m[key]`
  unfoldable pub find_key : String → StringMap V → Option V
  find_key key [] = none
  find_key key ((k, v) ∷ m) = if str_eq k key then some v else find_key key m

  -- `m[key] = v`
  unfoldable pub put_key : String → V → StringMap V → StringMap V
  put_key key v [] = (key, v) ∷ []
  put_key key v ((k, w) ∷ m) = if str_eq k key then (k, v) ∷ m else (k, w) ∷ put_key key v m

  -- `delete(m, key)`
  unfoldable pub delete_key : String → StringMap V → StringMap V
  delete_key key [] = []
  delete_key key ((k, w) ∷ m) =
      let rest = delete_key key m in if str_eq k key then rest else (k, w) ∷ rest

  pub find_key-put_key :
      (key j : String) (v : V) (m : StringMap V)
      → find_key j (put_key key v m) ≡ (if str_eq key j then some v else find_key j m)
  unfolding find_key put_key
  find_key-put_key key j v [] = refl
  find_key-put_key key j v ((k, w) ∷ m) =
      ground (arith, eq_iff key j, eq_iff k key, eq_iff k j, find_key-put_key key j v m)

  pub find_key-delete_key :
      (key j : String) (m : StringMap V)
      → find_key j (delete_key key m) ≡ (if str_eq key j then none else find_key j m)
  unfolding find_key delete_key
  find_key-delete_key key j [] = ground arith
  find_key-delete_key key j ((k, w) ∷ m) =
      ground (arith, eq_iff key j, eq_iff k key, eq_iff k j, find_key-delete_key key j m)

-- `m[key]` of a map to numbers, which is 0 for a missing key.
abbrev pub number_at : String → StringMap ℕ → ℕ
number_at key m = elim (find_key key m) [ none ↦ 0 | some v ↦ v ]
