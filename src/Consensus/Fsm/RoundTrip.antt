-- ===== src/Consensus/Fsm/RoundTrip.antt =====
-- Reading back the bytes of a snapshot.
use domino_jc_project.Prelude.{
  ℕ, ◌+◌, ◌*◌, ◌/◌, ◌%◌, ◌<◌, ◌≡◌, refl, sym, ap, ◌∙◌, String, false, none, some, List, [], ◌∷◌,
  ◌++◌, ℤ, pos, negsuc, ltb, length, length-append, take, drop, StringMap, find_key, put_key, arith,
  Bool-cases, Option-cases, inl, inr, All, str_eq,
}
use mathlib.Core.List.{append_assoc, append-nil}
use domino_jc_project.Consensus.Node.{Bytes}
use domino_jc_project.Consensus.Fsm.{
  MatchState, Text, put_uint16, put_uint32, to_uint32, of_uint32, encode_match, encode_matches,
  encode_local_fsm_snapshot, get_uint16, get_uint32, io_read_full, decode_match, decode_matches,
  decode_local_fsm_snapshot, check_header, fsm_snapshot_magic, fsm_snapshot_version,
}

get_uint16-put_uint16 :
    (n : ℕ) (rest : Bytes) → n < 65536 → get_uint16 (put_uint16 n ++ rest) ≡ some (n, rest)
unfolding get_uint16 put_uint16
get_uint16-put_uint16 n rest h =
    let whole : n / 256 % 256 * 256 + n % 256 ≡ n = omega arith in rw whole

get_uint32-put_uint32 :
    (n : ℕ) (rest : Bytes) → n < 4294967296 → get_uint32 (put_uint32 n ++ rest) ≡ some (n, rest)
unfolding get_uint32 put_uint32
get_uint32-put_uint32 n rest h =
    let whole : n / 16777216 % 256 * 16777216
          + n / 65536 % 256 * 65536
          + n / 256 % 256 * 256
          + n % 256
        ≡ n =
      omega arith in
    rw whole

-- A counter that fits in 32 bits.
abbrev pub IsInt32 : ℤ → Type 0
IsInt32 (pos n) = n < 2147483648
IsInt32 (negsuc n) = n < 2147483648

of_uint32-to_uint32 :
    (c : ℤ) → IsInt32 c → (to_uint32 c < 4294967296) × (of_uint32 (to_uint32 c) ≡ c)
unfolding of_uint32 to_uint32
of_uint32-to_uint32 (pos n) h = ground arith
of_uint32-to_uint32 (negsuc n) h = ground arith

length_prefix :
    {A : Type 0} (xs ys : List A)
    → (take (length xs) (xs ++ ys) ≡ xs) × (drop (length xs) (xs ++ ys) ≡ ys)
length_prefix [] ys = (refl, refl)
length_prefix (x ∷ xs) ys = let (a, b) = length_prefix xs ys in (ap (◌∷◌ x) a, b)

io_read_full-length : (xs ys : Bytes) → io_read_full (length xs) (xs ++ ys) ≡ some (xs, ys)
unfolding io_read_full
io_read_full-length xs ys =
    let (a, b) = length_prefix xs ys in
    let enough : ltb (length (xs ++ ys)) (length xs) ≡ false =
      ground (arith, length-append xs ys) in
    rw (enough, a, b)

header_length :
    (a b : ℕ) (rest : Bytes)
    → ltb (length (put_uint32 a ++ (fsm_snapshot_version ∷ (put_uint32 b ++ rest)))) 9 ≡ false
unfolding put_uint32
header_length a b rest = ground arith

append_five :
    (a b c d e f : Bytes) → (a ++ b ++ c ++ d ++ e) ++ f ≡ a ++ (b ++ (c ++ (d ++ (e ++ f))))
append_five a b c d e f =
    append_assoc (a ++ b ++ c ++ d) e f
    ∙ append_assoc (a ++ b ++ c) d (e ++ f)
    ∙ append_assoc (a ++ b) c (d ++ (e ++ f))
    ∙ append_assoc a b (c ++ (d ++ (e ++ f)))

-- A match whose counter has 32 bits and whose texts come back from their bytes.
pub record IsStorable (text : Text) (id : String) (state : MatchState) : Type 0 where
  pub key : text.string_of (text.bytes_of id) ≡ id
  pub status : text.string_of (text.bytes_of state.status) ≡ state.status
  pub counter : IsInt32 state.counter

module _ (text : Text) where
  encode_match-some :
      (id : String) (state : MatchState) (bs : Bytes)
      → encode_match text id state ≡ some bs
      → (length (text.bytes_of id) < 65536)
        × (length (text.bytes_of state.status) < 65536)
        × (bs
            ≡ put_uint16 (length (text.bytes_of id))
              ++ text.bytes_of id
              ++ put_uint32 (to_uint32 state.counter)
              ++ put_uint16 (length (text.bytes_of state.status))
              ++ text.bytes_of state.status)
  unfolding encode_match
  encode_match-some id state bs h = ground (arith, h)

  decode_match-encode_match :
      (id : String) (state : MatchState) (bs rest : Bytes)
      → IsStorable text id state
      → encode_match text id state ≡ some bs
      → decode_match text (bs ++ rest) ≡ some ((id, state), rest)
  unfolding decode_match
  decode_match-encode_match id state bs rest good h =
      let idb = text.bytes_of id in
      let sb = text.bytes_of state.status in
      let u = to_uint32 state.counter in
      let (short_id, short_status, shape) = encode_match-some id state bs h in
      let (fits, back) = of_uint32-to_uint32 state.counter good.counter in
      let tail2 = put_uint16 (length sb) ++ (sb ++ rest) in
      let tail1 = put_uint32 u ++ tail2 in
      let all : bs ++ rest ≡ put_uint16 (length idb) ++ (idb ++ tail1) =
        ap (λ b. b ++ rest) shape
        ∙ append_five (put_uint16 (length idb)) idb (put_uint32 u) (put_uint16 (length sb)) sb
            rest in
      let e1 = get_uint16-put_uint16 (length idb) (idb ++ tail1) short_id in
      let e2 = io_read_full-length idb tail1 in
      let e3 = get_uint32-put_uint32 u tail2 fits in
      let e4 = get_uint16-put_uint16 (length sb) (sb ++ rest) short_status in
      let e5 = io_read_full-length sb rest in
      rw (all, e1, e2, e3, e4, e5, good.key, good.status, back, decode_match)

  -- The keys that are still to come are new, and distinct.
  unfoldable pub AreNew : StringMap MatchState → StringMap MatchState → Type 0
  AreNew seen [] = Unit
  AreNew seen ((id, s) ∷ ms) = (find_key id seen ≡ none) × AreNew (seen ++ (id, s) ∷ []) ms

  put_key-new :
      (id : String) (s : MatchState) (ms : StringMap MatchState)
      → find_key id ms ≡ none
      → put_key id s ms ≡ ms ++ (id, s) ∷ []
  unfolding put_key find_key
  put_key-new id s [] h = refl
  put_key-new id s ((k, w) ∷ ms) h = elim (Bool-cases (str_eq k id)) [
    | inl e ↦ absurd (ground (arith, e, h))
    | inr e ↦
        let rest : find_key id ms ≡ none = ground (arith, e, h) in
        rw (e, put_key) (ap (◌∷◌ (k, w)) (put_key-new id s ms rest))
  ]

  decode_matches-encode_matches :
      (seen ms : StringMap MatchState) (bs : Bytes)
      → AreNew seen ms
      → All (λ p. IsStorable text p.0 p.1) ms
      → encode_matches text ms ≡ some bs
      → decode_matches text (length ms) bs seen ≡ some (seen ++ ms)
  unfolding decode_matches encode_matches AreNew
  decode_matches-encode_matches seen [] bs new good h = ap some (sym (append-nil seen))
  decode_matches-encode_matches seen ((id, s) ∷ ms) bs (new, news) (good, goods) h =
      elim (Option-cases (encode_match text id s)) [
        | inl e ↦ absurd (ground (arith, rw (e, encode_matches) at h))
        | inr (b, e) ↦ elim (Option-cases (encode_matches text ms)) [
          | inl f ↦ absurd (ground (arith, rw (e, f, encode_matches) at h))
          | inr (rest, f) ↦
              let same : b ++ rest ≡ bs = ground (arith, rw (e, f, encode_matches) at h) in
              let read = decode_match-encode_match id s b rest good e in
              let later =
                decode_matches-encode_matches (seen ++ (id, s) ∷ []) ms rest news goods f in
              rw (sym same, read, put_key-new id s seen new, decode_matches)
                (later ∙ ap some (append_assoc seen ((id, s) ∷ []) ms))
        ]
      ]

  decode_local_fsm_snapshot_body :
      (count : ℕ) (rest : Bytes)
      → count < 4294967296
      → decode_local_fsm_snapshot text
          (put_uint32 fsm_snapshot_magic ++ (fsm_snapshot_version ∷ (put_uint32 count ++ rest)))
        ≡ decode_matches text count rest []
  unfolding decode_local_fsm_snapshot check_header
  decode_local_fsm_snapshot_body count rest small =
      let body = fsm_snapshot_version ∷ (put_uint32 count ++ rest) in
      let first = get_uint32-put_uint32 fsm_snapshot_magic body (omega arith) in
      let second = get_uint32-put_uint32 count rest small in
      let size : ltb (length (put_uint32 fsm_snapshot_magic ++ body)) 9 ≡ false =
        header_length fsm_snapshot_magic count rest in
      rw (size, first, second, decode_local_fsm_snapshot)

  -- If a snapshot of fewer than 2 ^ 32 matches is written, their ids are distinct, their counters have 32
  -- bits and their texts come back from their bytes, then reading it gives the matches back.
  pub decode_local_fsm_snapshot-encode_local_fsm_snapshot :
      (ms : StringMap MatchState) (bs : Bytes)
      → AreNew [] ms
      → All (λ p. IsStorable text p.0 p.1) ms
      → length ms < 4294967296
      → encode_local_fsm_snapshot text ms ≡ some bs
      → decode_local_fsm_snapshot text bs ≡ some ms
  unfolding encode_local_fsm_snapshot decode_local_fsm_snapshot check_header put_uint32
  decode_local_fsm_snapshot-encode_local_fsm_snapshot ms bs new good few h =
      elim (Option-cases (encode_matches text ms)) [
        | inl e ↦ absurd (ground (arith, rw (e, encode_local_fsm_snapshot) at h))
        | inr (rest, e) ↦
            let count = length ms % 4294967296 in
            let shape : put_uint32 fsm_snapshot_magic
                  ++ (fsm_snapshot_version ∷ (put_uint32 count ++ rest))
                ≡ bs =
              ground (arith, rw (e, encode_local_fsm_snapshot) at h) in
            let whole : count ≡ length ms = omega arith in
            let header = get_uint32-put_uint32 count rest (omega arith) in
            let read = decode_matches-encode_matches [] ms rest new good e in
            rw (sym shape, decode_local_fsm_snapshot_body count rest (omega arith), whole) read
      ]
