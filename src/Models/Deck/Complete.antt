-- ===== src/Models/Deck/Complete.antt =====
-- The double-six set is complete and its ids are distinct.
use domino_jc_project.Prelude.{
  ℕ, zero, suc, ◌+◌, ◌≤◌, ◌≡◌, refl, Bool, true, ◌&&◌, List, [], ◌∷◌, arith, length, leb, leb→le,
  ◌==◌, pos, eqb_ℤ, &&-split, if◌then◌else◌, Bool-cases, inl, inr,
}
use domino_jc_project.Models.Tile.{DominoTile, new_tile}
use domino_jc_project.Models.Conserve.{count_id}
use domino_jc_project.Models.Deck.{standard_double_six_deck}

-- How many tiles of the set show `i` left and `j` right.
pub count_pair : ℕ → ℕ → List DominoTile → ℕ
count_pair i j [] = 0
count_pair i j (t ∷ ts) =
    (if eqb_ℤ t.value_left (pos i) && eqb_ℤ t.value_right (pos j) then 1 else 0) + count_pair i j ts

-- A test of every number up to a bound.
up_to : (ℕ → Bool) → ℕ → Bool
up_to test zero = test 0
up_to test (suc k) = up_to test k && test (suc k)

up_to_sound : (test : ℕ → Bool) (k i : ℕ) → i ≤ k → up_to test k ≡ true → test i ≡ true
unfolding up_to
up_to_sound test zero zero le h = h
up_to_sound test zero (suc i) le h = absurd (omega arith)
up_to_sound test (suc k) i le h =
    let (before, here) = &&-split (up_to test k) (test (suc k)) h in
    elim (Bool-cases (leb i k)) [
      | inl small ↦ up_to_sound test k i (leb→le i k small) before
      | inr large ↦ let same : i ≡ suc k = ground arith in rw same here
    ]

cell_is_right : ℕ → ℕ → Bool
unfolding count_pair
cell_is_right i j =
    if leb i j
    then ((count_pair i j standard_double_six_deck == 1)
        && (count_id (new_tile (pos i) (pos j)).id standard_double_six_deck == 1))
    else (count_pair i j standard_double_six_deck == 0)

row_is_right : ℕ → Bool
unfolding up_to cell_is_right
row_is_right i = up_to (cell_is_right i) 6

deck_table : up_to row_is_right 6 ≡ true
unfolding row_is_right standard_double_six_deck count_id
deck_table = refl

cell : (i j : ℕ) → i ≤ 6 → j ≤ 6 → cell_is_right i j ≡ true
unfolding row_is_right
cell i j hi hj = up_to_sound (cell_is_right i) 6 j hj (up_to_sound row_is_right 6 i hi deck_table)

deck_length : length standard_double_six_deck ≡ 28
unfolding standard_double_six_deck
deck_length = refl

-- The set has 28 tiles; each pair of values up to six is on one tile, the smaller value left; and the id
-- of that tile is the id of no other.
pub standard_double_six_deck_complete :
    (i j : ℕ)
    → i ≤ j
    → j ≤ 6
    → (length standard_double_six_deck ≡ 28)
      × (count_pair i j standard_double_six_deck ≡ 1)
      × (count_id (new_tile (pos i) (pos j)).id standard_double_six_deck ≡ 1)
unfolding cell_is_right
standard_double_six_deck_complete i j le hj =
    let c = cell i j (omega arith) hj in (deck_length, ground arith, ground arith)
