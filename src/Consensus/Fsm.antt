-- ===== src/Consensus/Fsm.antt =====
-- pkg/consensus/fsm.go: the match state machine that counts turns, and the bytes of its snapshot. A map is
-- an association list: its order is the order in which `range` visits it.
pub mod RoundTrip
pub mod Tests
use domino_jc_project.Prelude.{
  ℕ, zero, suc, ◌+◌, ◌-◌, ◌*◌, ◌/◌, ◌%◌, String, Bool, true, false, not, ◌||◌, Option, none, some,
  List, [], ◌∷◌, ◌++◌, ℤ, pos, negsuc, ltb, leb, ◌==◌, if◌then◌else◌, length, take, drop, StringMap,
  find_key, put_key, ◌+ℤ◌,
}
use domino_jc_project.Consensus.Node.{Bytes}
use domino_jc_project.Consensus.Command.{
  Json, Op, start_match, apply_turn, debug_noop, Command, Decoded, ok, err, decode_command,
}

pub record MatchState : Type 0 where
  pub counter : ℤ
  pub status : String

-- What `Apply` returns: an error, or the result with its operation and match.
pub data FsmResult : Type 0 where
  undecodable match_not_found unknown_op : FsmResult
  applied : (op : Op) → (match_id : String) → (turn : Bool) → FsmResult

module _ (json : Json) where
  apply_command : Command → StringMap MatchState → FsmResult × StringMap MatchState
  unfolding put_key find_key ◌+ℤ◌
  apply_command cmd matches = elim cmd.op [
    | start_match ↦ (
      applied start_match cmd.match_id false,
      put_key cmd.match_id (record { counter = pos 0; status = "active" }) matches,
    )
    | apply_turn ↦ elim (find_key cmd.match_id matches) [
      | none ↦ (match_not_found, matches)
      | some s ↦ (
        applied apply_turn cmd.match_id true,
        put_key cmd.match_id (record s { counter = s.counter +ℤ pos 1 }) matches,
      )
    ]
    | debug_noop ↦ (applied debug_noop "" false, matches)
    | _ ↦ (unknown_op, matches)
  ]

  -- `LocalGameFSM.Apply`. A counter is an `int`, which a match does not fill.
  unfoldable pub apply : Bytes → StringMap MatchState → FsmResult × StringMap MatchState
  unfolding apply_command decode_command
  apply log_entry matches = elim (decode_command json log_entry) [
    | err e ↦ (undecodable, matches)
    | ok cmd ↦ apply_command cmd matches
  ]

abbrev pub is_apply_error : FsmResult → Bool
is_apply_error (applied _ _ _) = false
is_apply_error _ = true

module _ (json : Json) where
  -- `none` at the first entry that fails.
  unfoldable pub replay_from : List Bytes → StringMap MatchState → Option (StringMap MatchState)
  unfolding apply
  replay_from [] matches = some matches
  replay_from (e ∷ es) matches =
      let (result, matches') = apply json e matches in
      if is_apply_error result then none else replay_from es matches'

  unfoldable pub replay_commands : List Bytes → Option (StringMap MatchState)
  unfolding replay_from
  replay_commands entries = replay_from entries []

-- Go's conversions between a string and its bytes.
pub record Text : Type 0 where
  pub bytes_of : String → Bytes
  pub string_of : Bytes → String

-- binary.Write, big-endian
unfoldable pub put_uint16 : ℕ → Bytes
put_uint16 n = n / 256 % 256 ∷ n % 256 ∷ []

unfoldable pub put_uint32 : ℕ → Bytes
put_uint32 n = n / 16777216 % 256 ∷ n / 65536 % 256 ∷ n / 256 % 256 ∷ n % 256 ∷ []

-- `uint32(int32(c))`
unfoldable pub to_uint32 : ℤ → ℕ
to_uint32 (pos n) = n % 4294967296
to_uint32 (negsuc n) = 4294967295 - n % 4294967296

-- `int(int32(u))` for a `u` below 2 ^ 32
unfoldable pub of_uint32 : ℕ → ℤ
of_uint32 u = if ltb u 2147483648 then pos u else negsuc (4294967295 - u)

abbrev pub fsm_snapshot_magic : ℕ
fsm_snapshot_magic = 1195791181

abbrev pub fsm_snapshot_version : ℕ
fsm_snapshot_version = 1

module _ (text : Text) where
  -- One round of the loop of `encodeLocalFSMSnapshot`.
  unfoldable pub encode_match : String → MatchState → Option Bytes
  unfolding put_uint16 put_uint32 to_uint32
  encode_match id state =
      if ltb 65535 (length (text.bytes_of id)) || ltb 65535 (length (text.bytes_of state.status))
      then none
      else some (
          put_uint16 (length (text.bytes_of id))
          ++ text.bytes_of id
          ++ put_uint32 (to_uint32 state.counter)
          ++ put_uint16 (length (text.bytes_of state.status))
          ++ text.bytes_of state.status)

  unfoldable pub encode_matches : StringMap MatchState → Option Bytes
  unfolding encode_match
  encode_matches [] = some []
  encode_matches ((id, state) ∷ matches) = elim (encode_match id state) [
    | none ↦ none
    | some bs ↦ elim (encode_matches matches) [ none ↦ none | some rest ↦ some (bs ++ rest) ]
  ]

  unfoldable pub encode_local_fsm_snapshot : StringMap MatchState → Option Bytes
  unfolding encode_matches
  encode_local_fsm_snapshot matches = elim (encode_matches matches) [
    | none ↦ none
    | some rest ↦ some (
        put_uint32 fsm_snapshot_magic
        ++ (fsm_snapshot_version ∷ (put_uint32 (length matches % 4294967296) ++ rest)))
  ]

-- Reads from what is left of a snapshot; `none` at its end.
unfoldable pub get_uint16 : Bytes → Option (ℕ × Bytes)
get_uint16 (a ∷ b ∷ rest) = some (a * 256 + b, rest)
get_uint16 _ = none

unfoldable pub get_uint32 : Bytes → Option (ℕ × Bytes)
get_uint32 (a ∷ b ∷ c ∷ d ∷ rest) = some (a * 16777216 + b * 65536 + c * 256 + d, rest)
get_uint32 _ = none

unfoldable pub io_read_full : ℕ → Bytes → Option (Bytes × Bytes)
io_read_full n bs = if ltb (length bs) n then none else some (take n bs, drop n bs)

infixl 5 ◌>>=◌
abbrev ◌>>=◌ : {A B : Type 0} → Option A → (A → Option B) → Option B
none >>= f = none
some a >>= f = f a

module _ (text : Text) where
  -- One round of the loop of `decodeLocalFSMSnapshot`.
  unfoldable pub decode_match : Bytes → Option ((String × MatchState) × Bytes)
  unfolding get_uint16 get_uint32 io_read_full of_uint32
  decode_match bs = do
    (id_len, bs) ← get_uint16 bs
    (id_bytes, bs) ← io_read_full id_len bs
    (counter, bs) ← get_uint32 bs
    (status_len, bs) ← get_uint16 bs
    (status_bytes, bs) ← io_read_full status_len bs
    some (
      (
        text.string_of id_bytes,
        record { counter = of_uint32 counter; status = text.string_of status_bytes },
      ),
      bs,
    )

  -- The loop, with the rounds that are left and the map so far.
  unfoldable pub decode_matches : ℕ → Bytes → StringMap MatchState → Option (StringMap MatchState)
  unfolding decode_match put_key
  decode_matches zero bs matches = some matches
  decode_matches (suc rounds) bs matches = elim (decode_match bs) [
    | none ↦ none
    | some ((id, state), rest) ↦ decode_matches rounds rest (put_key id state matches)
  ]

  check_header : ℕ → Bytes → Option Bytes
  check_header magic [] = none
  check_header magic (version ∷ bs) =
      if not (magic == fsm_snapshot_magic) || not (version == fsm_snapshot_version)
      then none
      else some bs

  unfoldable pub decode_local_fsm_snapshot : Bytes → Option (StringMap MatchState)
  unfolding get_uint32 check_header decode_matches
  decode_local_fsm_snapshot snapshot = if ltb (length snapshot) 9 then none else do
    (magic, bs) ← get_uint32 snapshot
    bs ← check_header magic bs
    (count, bs) ← get_uint32 bs
    decode_matches count bs []
