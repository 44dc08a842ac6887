-- ===== src/Models/Deck.antt =====
-- pkg/models/game_methods.go: the double-six set, the two shuffles and the deal.
pub mod Shuffle
pub mod Complete
pub mod Deal
use domino_jc_project.Prelude.{
  ℕ, zero, suc, ◌+◌, ◌-◌, ◌*◌, ◌%◌, String, ◌≤◌, Bool, true, false, ◌&&◌, Option, none, some, List,
  [], ◌∷◌, ◌++◌, ℤ, pos, ltb, leb, if◌then◌else◌, length, get_elem?, set, take, drop,
}
use domino_jc_project.Models.Tile.{DominoTile, PlayerHand, new_tile}
use domino_jc_project.Models.Session.{
  GameSession, Result, ok, err, not_enough_tiles, random_source_failed, index_out_of_range,
}

-- The inner loop at row `i`, with `rounds` values of `j` left.
deck_row : ℕ → ℕ → ℕ → List DominoTile
deck_row zero i j = []
deck_row (suc rounds) i j = new_tile (pos i) (pos j) ∷ deck_row rounds i (j + 1)

deck_rows : ℕ → ℕ → List DominoTile
unfolding deck_row
deck_rows zero i = []
deck_rows (suc rounds) i = deck_row (7 - i) i i ++ deck_rows rounds (i + 1)

unfoldable pub standard_double_six_deck : List DominoTile
unfolding deck_rows new_tile
standard_double_six_deck = deck_rows 7 0

unfoldable pub generate_standard_deck : GameSession → GameSession
generate_standard_deck s = record s { boneyard = standard_double_six_deck }

-- `a[i], a[j] = a[j], a[i]`, which panics out of range.
unfoldable pub swap : ℕ → ℕ → List DominoTile → Option (List DominoTile)
swap i j xs = elim (get_elem? xs i) [
  | none ↦ none
  | some a ↦ elim (get_elem? xs j) [ none ↦ none | some b ↦ some (set (set xs i b) j a) ]
]

-- The loop `for i := rounds; i > 0; i--`. `draw i` is the number that the random source gives at that
-- round for the bound `i + 1`, or none where it fails.
unfoldable pub shuffle_loop :
    (ℕ → Option ℕ) → ℕ → List DominoTile → List DominoTile × Result (Unit {0})
unfolding swap
shuffle_loop draw zero xs = (xs, ok tt)
shuffle_loop draw (suc i) xs = elim (draw (suc i)) [
  | none ↦ (xs, err random_source_failed)
  | some j ↦ elim (swap (suc i) j xs) [
    | none ↦ (xs, err index_out_of_range)
    | some ys ↦ shuffle_loop draw i ys
  ]
]

-- `ShuffleBoneyard`, with crypto/rand as the parameter `draw`.
unfoldable pub shuffle_boneyard : (ℕ → Option ℕ) → GameSession → GameSession × Result (Unit {0})
unfolding shuffle_loop
shuffle_boneyard draw s =
    let (pool, r) = shuffle_loop draw (length s.boneyard - 1) s.boneyard in
    (record s { boneyard = pool }, r)

-- `ShuffleBoneyardDeterministic`. `intn seed n i` is what a math/rand generator of that seed gives for
-- the bound `i + 1` in the shuffle of `n` tiles; it cannot fail.
unfoldable pub shuffle_boneyard_deterministic :
    (ℕ → ℕ → ℕ → ℕ) → ℕ → GameSession → GameSession × Result (Unit {0})
unfolding shuffle_loop
shuffle_boneyard_deterministic intn seed s =
    let (pool, r) =
      shuffle_loop (λ i. some (intn seed (length s.boneyard) i)) (length s.boneyard - 1)
        s.boneyard in
    (record s { boneyard = pool }, r)

-- The loop of `DealHands`: the hands, what is left, and whether no slice was out of range.
unfoldable pub deal_loop :
    ℕ → List PlayerHand → List DominoTile → List PlayerHand × List DominoTile × Bool
deal_loop n [] pool = ([], pool, true)
deal_loop n (h ∷ hs) pool =
    let (dealt, left, done) = deal_loop n hs (drop n pool) in
    if leb n (length pool)
    then (record h { tiles = take n pool } ∷ dealt, left, done)
    else (h ∷ hs, pool, false)

-- `len(s.Players) * tilesPerPlayer` as an int of 64 bits; a product that wraps to below 0 asks for nothing.
unfoldable pub total_needed : ℕ → ℕ → ℕ
total_needed players n =
    let product = players * n % 18446744073709551616 in
    if ltb product 9223372036854775808 then product else 0

-- The number of tiles is not negative where the program deals.
unfoldable pub deal_hands : ℕ → GameSession → GameSession × Result (Unit {0})
unfolding deal_loop total_needed
deal_hands n s =
    let (dealt, left, done) = deal_loop n s.hands s.boneyard in
    if ltb (length s.boneyard) (total_needed (length s.players) n)
    then (s, err (not_enough_tiles n (length s.players)))
    else (
      record s { hands = dealt; boneyard = left },
      if done then ok tt else err index_out_of_range,
    )
