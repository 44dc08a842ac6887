-- ===== src/Gateway/Carried.antt =====
-- A turn that is written as a command, and which turns of a player a log reads back from it.
use domino_jc_project.Prelude.{
  ℕ, String, str_eq, str_eq→eq, ◌≡◌, refl, ap, sym, ◌∙◌, subst, Bool, true, false, ◌||◌, not, some,
  List, [], ◌∷◌, ◌⊎◌, inl, inr, All, Bool-cases,
}
use mathlib.Core.List.{append-nil}
use domino_jc_project.Models.Turn.{TurnAction}
use domino_jc_project.Consensus.Node.{Bytes, LogEntry}
use domino_jc_project.Consensus.Command.{
  Json, Command, apply_turn, ApplyTurnPayload, Decoded, ok, err, decode_command,
  decode_apply_turn_payload, has_bytes, named, is_non_match_op, to_turn_action, DecodeError,
  require, missing_payload, missing_kind, missing_player_id, missing_op, missing_match_id,
  op_is_empty, ◌>>◌,
}
use domino_jc_project.Engine.Fsm.{Codec}
use domino_jc_project.Engine.LogTurns.{log_turns, decoded_turns, command_turns, payload_turns}
use domino_jc_project.Gateway.Cluster.{Writer}

-- What is written is read back.
pub record IsReadBack (w : Writer) (json : Json) : Type 0 where
  pub command :
      (c : Command) (b : Bytes) → w.write_command c ≡ some b → json.read_command b ≡ some c
  pub turn :
      (p : ApplyTurnPayload) (b : Bytes)
      → w.write_apply_turn p ≡ some b
      → json.read_apply_turn b ≡ some p

-- Of the player `p`, in whatever match.
abbrev pub AreOf : String → List TurnAction → Type 0
AreOf p ts = All (λ (t : TurnAction). t.player_id ≡ p) ts

-- What is decoded, if it is.
abbrev Passes : {A : Type 0} → (A → Type 0) → Decoded A → Type 0
Passes P (ok a) = P a
Passes P (err e) = Unit

require-Passes :
    {A : Type 0} (P : A → Type 0) (b : Bool) (e : DecodeError) (k : Decoded A)
    → Passes P k
    → Passes P (require b e >> k)
require-Passes P true e k h = h
require-Passes P false e k h = tt

decode_apply_turn_payload-Passes :
    (json : Json) (p : ApplyTurnPayload) (raw : Bytes)
    → json.read_apply_turn raw ≡ some p
    → Passes (λ q. q ≡ p) (decode_apply_turn_payload json raw)
unfolding decode_apply_turn_payload
decode_apply_turn_payload-Passes json p raw e = rw e (
    require-Passes (λ q. q ≡ p) (has_bytes raw) missing_payload _
      (require-Passes (λ q. q ≡ p) (named p.kind) missing_kind
        (require (named p.player_id) missing_player_id >> ok p)
        (require-Passes (λ q. q ≡ p) (named p.player_id) missing_player_id (ok p) refl)))

decode_command-Passes :
    (json : Json) (cmd : Command) (b : Bytes)
    → json.read_command b ≡ some cmd
    → Passes (λ x. x ≡ cmd) (decode_command json b)
unfolding decode_command
decode_command-Passes json cmd b e = rw e (
    require-Passes (λ x. x ≡ cmd) (not (op_is_empty cmd.op)) missing_op
      (require (named cmd.match_id || is_non_match_op cmd.op) missing_match_id >> ok cmd)
      (require-Passes (λ x. x ≡ cmd) (named cmd.match_id || is_non_match_op cmd.op) missing_match_id
        (ok cmd) refl))

module _ {F : Type 0} (c : Codec F) where
  payload_turns-AreOf :
      (p : ApplyTurnPayload) (d : Decoded ApplyTurnPayload)
      → Passes (λ q. q ≡ p) d
      → AreOf p.player_id (payload_turns c d)
  unfolding payload_turns to_turn_action
  payload_turns-AreOf p (ok q) e = (ap (λ (r : ApplyTurnPayload). r.player_id) e, tt)
  payload_turns-AreOf p (err x) e = tt

  decoded_turns-AreOf :
      (id q : String) (cmd : Command) (d : Decoded Command)
      → Passes (λ x. x ≡ cmd) d
      → AreOf q (command_turns c id cmd)
      → AreOf q (decoded_turns c id d)
  unfolding decoded_turns
  decoded_turns-AreOf id q cmd (ok x) e h = subst (λ y. AreOf q (command_turns c id y)) (sym e) h
  decoded_turns-AreOf id q cmd (err x) e h = tt

module _ {F : Type 0} (w : Writer) (c : Codec F) (back : IsReadBack w c.json) where
  command_turns-AreOf :
      (id s : String) (p : ApplyTurnPayload) (raw : Bytes)
      → w.write_apply_turn p ≡ some raw
      → AreOf p.player_id
          (command_turns c id (record { op = apply_turn; match_id = s; payload = raw }))
  unfolding command_turns
  command_turns-AreOf id s p raw e = elim (Bool-cases (str_eq s id)) [
    | inr q ↦ rw q tt
    | inl q ↦ rw q (
        payload_turns-AreOf c p (decode_apply_turn_payload c.json raw)
          (decode_apply_turn_payload-Passes c.json p raw (back.turn p raw e)))
  ]

  command_turns-other :
      (id s : String) (raw : Bytes)
      → str_eq s id ≡ false
      → command_turns c id (record { op = apply_turn; match_id = s; payload = raw }) ≡ []
  unfolding command_turns
  command_turns-other id s raw e = rw e refl

  decoded_turns-other :
      (id s : String) (raw : Bytes) (d : Decoded Command)
      → str_eq s id ≡ false
      → Passes (λ x. x ≡ record { op = apply_turn; match_id = s; payload = raw }) d
      → decoded_turns c id d ≡ []
  unfolding decoded_turns command_turns
  decoded_turns-other id s raw (err x) e h = refl
  decoded_turns-other id s raw (ok x) e h =
      ap (command_turns c id) h ∙ command_turns-other id s raw e

  abbrev pub entry : ℕ → ℕ → Bytes → LogEntry
  entry index term command = record { index = index; term = term; command = command }

  -- Wherever the command comes to stand in the log, the turns it carries are the player's, in the session.
  abbrev pub IsOwn : String → String → Bytes → Type 0
  IsOwn s q command =
      (index term : ℕ) (id : String)
      → AreOf q (log_turns c id (entry index term command ∷ []))
        × ((s ≡ id) ⊎ (log_turns c id (entry index term command ∷ []) ≡ []))

  pub encoded-IsOwn :
      (s : String) (p : ApplyTurnPayload) (raw command : Bytes)
      → w.write_apply_turn p ≡ some raw
      → w.write_command (record { op = apply_turn; match_id = s; payload = raw }) ≡ some command
      → IsOwn s p.player_id command
  unfolding log_turns
  encoded-IsOwn s p raw command e k index term id =
      let read = decode_command-Passes c.json cmd command (back.command cmd command k) in
      rw (append-nil (decoded_turns c id (decode_command c.json command))) (
        decoded_turns-AreOf c id p.player_id cmd (decode_command c.json command) read
            (command_turns-AreOf id s p raw e),
        whose (Bool-cases (str_eq s id)) read,
      )
    where
      cmd : Command
      cmd = record { op = apply_turn; match_id = s; payload = raw }

      whose :
          (str_eq s id ≡ true) ⊎ (str_eq s id ≡ false)
          → Passes (λ x. x ≡ cmd) (decode_command c.json command)
          → (s ≡ id) ⊎ (decoded_turns c id (decode_command c.json command) ≡ [])
      whose (inl q) read = inl (str_eq→eq s id q)
      whose (inr q) read = inr (decoded_turns-other id s raw (decode_command c.json command) q read)
