-- ===== src/Models/Deck/Shuffle.antt =====
-- The set is complete, and a shuffle keeps it.
use domino_jc_project.Prelude.{
  ℕ, zero, suc, ◌+◌, ◌-◌, ◌≤◌, ◌<◌, ◌≡◌, refl, ap, ◌∙◌, Option, some, List, [], ◌∷◌, arith, length,
  get_elem?, set, Option-cases, inl, inr, length-set, get_elem?-lt, ◌⊎◌,
}
use domino_jc_project.Models.Tile.{DominoTile}
use domino_jc_project.Models.Session.{GameSession, ok}
use domino_jc_project.Models.Deck.{
  swap, shuffle_loop, shuffle_boneyard, shuffle_boneyard_deterministic,
}

-- The sum of a weight over a list. Lists with the same sum for every weight hold the same elements.
pub tally : (DominoTile → ℕ) → List DominoTile → ℕ
tally f [] = 0
tally f (t ∷ ts) = f t + tally f ts

tally-set :
    (f : DominoTile → ℕ) (xs : List DominoTile) (i : ℕ) (v w : DominoTile)
    → get_elem? xs i ≡ some w
    → tally f (set xs i v) + f w ≡ tally f xs + f v
unfolding tally
tally-set f [] i v w e = absurd (cc e)
tally-set f (x ∷ xs) zero v w e = let same : x ≡ w = ground arith in omega (arith, ap f same)
tally-set f (x ∷ xs) (suc i) v w e = omega (arith, tally-set f xs i v w e)

-- Whatever a write at `i` puts there, a read at `j` of an equal value still gives it.
get-set_same :
    (xs : List DominoTile) (i j : ℕ) (b : DominoTile)
    → get_elem? xs j ≡ some b
    → get_elem? (set xs i b) j ≡ some b
get-set_same [] i j b e = absurd (cc e)
get-set_same (x ∷ xs) zero zero b e = refl
get-set_same (x ∷ xs) zero (suc j) b e = e
get-set_same (x ∷ xs) (suc i) zero b e = e
get-set_same (x ∷ xs) (suc i) (suc j) b e = get-set_same xs i j b e

tally-swap :
    (f : DominoTile → ℕ) (i j : ℕ) (xs ys : List DominoTile)
    → swap i j xs ≡ some ys
    → tally f ys ≡ tally f xs
unfolding swap
tally-swap f i j xs ys e = elim (Option-cases (get_elem? xs i)) [
  | inl n ↦ absurd (cc (rw (n, swap) at e))
  | inr (a, p) ↦ elim (Option-cases (get_elem? xs j)) [
    | inl n ↦ absurd (cc (rw (p, n, swap) at e))
    | inr (b, q) ↦
        let same : set (set xs i b) j a ≡ ys = cc (rw (p, q, swap) at e) in
        omega (
          arith,
          ap (tally f) same,
          tally-set f xs i b a p,
          tally-set f (set xs i b) j a b (get-set_same xs i j b q),
        )
  ]
]

pub tally-shuffle_loop :
    (draw : ℕ → Option ℕ) (f : DominoTile → ℕ) (i : ℕ) (xs : List DominoTile)
    → tally f (shuffle_loop draw i xs).0 ≡ tally f xs
unfolding shuffle_loop
tally-shuffle_loop draw f zero xs = refl
tally-shuffle_loop draw f (suc i) xs = elim (Option-cases (draw (suc i))) [
  | inl n ↦ rw (n, shuffle_loop)
  | inr (j, e) ↦ elim (Option-cases (swap (suc i) j xs)) [
    | inl n ↦ rw (e, n, shuffle_loop)
    | inr (ys, q) ↦
        rw (e, q, shuffle_loop) (tally-shuffle_loop draw f i ys ∙ tally-swap f (suc i) j xs ys q)
  ]
]

swap-total :
    (i j : ℕ) (xs : List DominoTile)
    → i < length xs
    → j < length xs
    → (ys : List DominoTile) × (swap i j xs ≡ some ys) × (length ys ≡ length xs)
unfolding swap
swap-total i j xs h k =
    let (a, p) = get_elem?-lt xs i h in
    let (b, q) = get_elem?-lt xs j k in
    (set (set xs i b) j a, rw (p, q, swap), length-set (set xs i b) j a ∙ length-set xs i b)

-- Every draw is what its bound allows.
abbrev pub InBounds : (ℕ → Option ℕ) → ℕ → Type 0
InBounds draw zero = Unit
InBounds draw (suc i) = ((j : ℕ) × (draw (suc i) ≡ some j) × (j ≤ suc i)) × InBounds draw i

shuffle_loop-total :
    (draw : ℕ → Option ℕ) (i : ℕ) (xs : List DominoTile)
    → InBounds draw i
    → (i ≡ 0) ⊎ (i < length xs)
    → (shuffle_loop draw i xs).1 ≡ ok tt
unfolding shuffle_loop
shuffle_loop-total draw zero xs b h = refl
shuffle_loop-total draw (suc i) xs ((j, e, le), b) h =
    let (ys, q, l) = swap-total (suc i) j xs (omega arith) (omega arith) in
    rw (e, q, shuffle_loop) (shuffle_loop-total draw i ys b (omega arith))

all-InBounds : (g : ℕ → ℕ) → ((i : ℕ) → g i ≤ i) → (i : ℕ) → InBounds (λ k. some (g k)) i
all-InBounds g below zero = tt
all-InBounds g below (suc i) = ((g (suc i), refl, below (suc i)), all-InBounds g below i)

-- A shuffle keeps the sum of every weight over the boneyard, so the tiles in it, also where the source
-- fails half-way.
pub shuffle_boneyard-tally :
    (draw : ℕ → Option ℕ) (s : GameSession) (f : DominoTile → ℕ)
    → tally f (shuffle_boneyard draw s).0.boneyard ≡ tally f s.boneyard
unfolding shuffle_boneyard
shuffle_boneyard-tally draw s f = tally-shuffle_loop draw f (length s.boneyard - 1) s.boneyard

-- A shuffle whose draws are within their bounds succeeds.
pub shuffle_boneyard-total :
    (draw : ℕ → Option ℕ) (s : GameSession)
    → InBounds draw (length s.boneyard - 1)
    → (shuffle_boneyard draw s).1 ≡ ok tt
unfolding shuffle_boneyard
shuffle_boneyard-total draw s b =
    shuffle_loop-total draw (length s.boneyard - 1) s.boneyard b (ground arith)

-- The deterministic shuffle succeeds for every seed if its generator stays below the bound that it is
-- given, and keeps the sum of every weight over the boneyard.
pub shuffle_boneyard_deterministic_lem :
    (intn : ℕ → ℕ → ℕ → ℕ) (seed : ℕ) (s : GameSession) (f : DominoTile → ℕ)
    → ((n i : ℕ) → intn seed n i ≤ i)
    → ((shuffle_boneyard_deterministic intn seed s).1 ≡ ok tt)
      × (tally f (shuffle_boneyard_deterministic intn seed s).0.boneyard ≡ tally f s.boneyard)
unfolding shuffle_boneyard_deterministic
shuffle_boneyard_deterministic_lem intn seed s f below =
    let n = length s.boneyard in
    let draw = λ (i : ℕ). some (intn seed n i) in
    (
      shuffle_loop-total draw (n - 1) s.boneyard (all-InBounds (intn seed n) (below n) (n - 1))
          (ground arith),
      tally-shuffle_loop draw f (n - 1) s.boneyard,
    )
