-- ===== src/Models/Deck/Deal.antt =====
-- The deal gives every hand its tiles off the top of the boneyard, in order.
use domino_jc_project.Prelude.{
  ℕ, ◌*◌, ◌≤◌, ◌<◌, ◌%◌, ◌≡◌, refl, ap, ◌∙◌, true, false, List, [], ◌∷◌, ◌++◌, arith, All, length,
  take, drop, leb, ltb, length-take, length-drop, take-append-drop,
}
use mathlib.Core.List.{append_assoc}
use domino_jc_project.Models.Tile.{DominoTile, PlayerHand}
use domino_jc_project.Models.Session.{GameSession, ok}
use domino_jc_project.Models.Deck.{deal_loop, total_needed, deal_hands}

-- The tiles of all hands, one hand after the other.
unfoldable pub all_tiles : List PlayerHand → List DominoTile
all_tiles [] = []
all_tiles (h ∷ hs) = h.tiles ++ all_tiles hs

deal_loop-enough :
    (n : ℕ) (hs : List PlayerHand) (pool : List DominoTile)
    → length hs * n ≤ length pool
    → ((deal_loop n hs pool).2 ≡ true)
      × (all_tiles (deal_loop n hs pool).0 ++ (deal_loop n hs pool).1 ≡ pool)
      × All (λ h. length h.tiles ≡ n) (deal_loop n hs pool).0
unfolding deal_loop all_tiles
deal_loop-enough n [] pool e = (refl, refl, tt)
deal_loop-enough n (h ∷ hs) pool e =
    let room : n ≤ length pool = grind arith in
    let fits : leb n (length pool) ≡ true = ground arith in
    let rest = deal_loop-enough n hs (drop n pool) (grind (arith, length-drop n pool)) in
    rw (fits, deal_loop)
      (
        rest.0,
        append_assoc (take n pool) _ _ ∙ ap (◌++◌ (take n pool)) rest.1 ∙ take-append-drop n pool,
        (omega (arith, length-take n pool), rest.2),
      )

total_needed-small :
    (players n : ℕ) → players * n < 9223372036854775808 → total_needed players n ≡ players * n
unfolding total_needed
total_needed-small players n h =
    let small : players * n % 18446744073709551616 ≡ players * n = omega arith in
    let fits : ltb (players * n) 9223372036854775808 ≡ true = ground arith in
    rw (total_needed, small, fits) refl

-- With a hand for each player and enough tiles, fewer than an int counts, the deal succeeds: every hand has `n` tiles, and the hands
-- one after the other, followed by what is left, are the boneyard as it was.
pub deal_hands-exact :
    (n : ℕ) (s : GameSession)
    → length s.hands ≡ length s.players
    → length s.players * n ≤ length s.boneyard
    → length s.boneyard < 9223372036854775808
    → ((deal_hands n s).1 ≡ ok tt)
      × (all_tiles (deal_hands n s).0.hands ++ (deal_hands n s).0.boneyard ≡ s.boneyard)
      × All (λ h. length h.tiles ≡ n) (deal_hands n s).0.hands
unfolding deal_hands
deal_hands-exact n s e enough fits =
    let total = total_needed-small (length s.players) n (omega (arith, enough, fits)) in
    let room : ltb (length s.boneyard) (total_needed (length s.players) n) ≡ false =
      ground (arith, total) in
    let dealt = deal_loop-enough n s.hands s.boneyard (rw e enough) in
    rw (room, deal_hands) (rw dealt.0 refl, dealt.1, dealt.2)
