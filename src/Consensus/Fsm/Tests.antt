-- ===== src/Consensus/Fsm/Tests.antt =====
-- A snapshot of two matches, byte by byte.
use domino_jc_project.Prelude.{
  ◌≡◌, refl, some, [], ◌∷◌, arith, pos, negsuc, StringMap, if◌then◌else◌, ◌==◌, str_eq, find_key,
}
use domino_jc_project.Consensus.Node.{Bytes}
use domino_jc_project.Consensus.Fsm.{
  MatchState, Text, encode_local_fsm_snapshot, decode_local_fsm_snapshot,
}
use domino_jc_project.Consensus.Fsm.RoundTrip.{
  AreNew, decode_local_fsm_snapshot-encode_local_fsm_snapshot,
}

-- One-byte texts.
abbrev text : Text
text = record {
  bytes_of = λ s. (if str_eq s "m" then 109 else 97) ∷ [];
  string_of = λ b. elim b [ [] ↦ "" | c ∷ _ ↦ if c == 109 then "m" else "a" ];
}

abbrev matches : StringMap MatchState
matches =
    ("m", record { counter = pos 3; status = "a" })
    ∷ ("a", record { counter = negsuc 0; status = "m" })
    ∷ []

abbrev image : Bytes
image =
    71 ∷ 70 ∷ 83 ∷ 77 ∷ 1 ∷ 0 ∷ 0 ∷ 0 ∷ 2 ∷ 0 ∷ 1 ∷ 109 ∷ 0 ∷ 0 ∷ 0 ∷ 3 ∷ 0 ∷ 1 ∷ 97 ∷ 0 ∷ 1 ∷ 97
    ∷ 255 ∷ 255 ∷ 255 ∷ 255 ∷ 0 ∷ 1 ∷ 109 ∷ []

written_image : encode_local_fsm_snapshot text matches ≡ some image
unfolding encode_local_fsm_snapshot
written_image = refl

distinct_matches : AreNew text [] matches
unfolding AreNew find_key
distinct_matches = (refl, (refl, tt))

decode_local_fsm_snapshot-encode_local_fsm_snapshot_example :
    decode_local_fsm_snapshot text image ≡ some matches
decode_local_fsm_snapshot-encode_local_fsm_snapshot_example =
    decode_local_fsm_snapshot-encode_local_fsm_snapshot text matches image distinct_matches
      (
        record { key = refl; status = refl; counter = omega arith },
        (record { key = refl; status = refl; counter = omega arith }, tt),
      )
      (omega arith) written_image
