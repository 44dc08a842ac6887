-- ===== src/Gateway/Fill.antt =====
-- pkg/gateway/match_gateway.go: POST /debug/fill-log. The deadline is the number of rounds before it.
use domino_jc_project.Prelude.{
  ℕ, zero, suc, ◌+◌, String, str_eq, Bool, true, false, not, Option, none, some, ◌⊎◌, inl, inr,
  if◌then◌else◌,
}
use Prim.Native.String.{◌++◌ as str_append}
use domino_jc_project.Consensus.Node.{Bytes}
use domino_jc_project.Consensus.Command.{debug_noop}
use domino_jc_project.Consensus.Wait.{WaitError}
use domino_jc_project.Gateway.Cluster.{Raw, apply_error, Cluster, encode_command_with_payload}
use domino_jc_project.Gateway.Reply.{
  filled, Inbound, Outside, MatchGateway, answer, forward_fill_log_to_leader, write_proposal_error,
}
use domino_jc_project.Gateway.Handle.{itoa, Handled, refuse, moved}

module _ {F A : Type 0} (x : Outside) (cluster : Cluster F A) where
  abbrev fill_answer : MatchGateway F A → ℕ → Bool → ℕ → String → Handled F A
  fill_answer g status ok proposed text = (
    answer status (
        filled (record {
          ok = ok;
          proposed = proposed;
          snapshot_index = if ok then cluster.snapshot_index g.cluster else 0;
          uncompacted_entries = if ok then cluster.uncompacted_log_entries g.cluster else 0;
          node_id = cluster.node_id g.cluster;
          error = text;
        })),
    g,
  )

  abbrev noop_proposed :
      ℕ → (MatchGateway F A → Handled F A) → WaitError ⊎ Raw F → MatchGateway F A → Handled F A
  noop_proposed proposed next (inl e) g = (write_proposal_error x cluster e, g)
  noop_proposed proposed next (inr (apply_error text)) g = fill_answer g 500 false proposed text
  noop_proposed proposed next (inr r) g = next g

  abbrev fill_encoded :
      ℕ → MatchGateway F A → (MatchGateway F A → Handled F A) → Option Bytes → Handled F A
  fill_encoded proposed g next none =
      fill_answer g 500 false proposed "failed to encode debug noop entry"
  fill_encoded proposed g next (some command) =
      moved g (noop_proposed proposed next) (cluster.propose_and_wait command g.cluster)

  -- `left` entries are wanted and `rounds` come before the deadline.
  unfoldable pub fill_log : ℕ → ℕ → ℕ → MatchGateway F A → Handled F A
  unfolding encode_command_with_payload write_proposal_error itoa
  fill_log zero rounds proposed g = fill_answer g 200 true proposed ""
  fill_log (suc left) zero proposed g =
      fill_answer g 504 false proposed
        (str_append "timed out after proposing " (str_append (itoa proposed) " entries"))
  fill_log (suc left) (suc rounds) proposed g =
      fill_encoded proposed g (λ g'. fill_log left rounds (proposed + 1) g')
        (encode_command_with_payload x.writer debug_noop "_cluster"
          (x.writer.write_debug_noop (str_append "debug-fill-" (itoa (proposed + 1)))))

  unfoldable pub handle_fill_log : ℕ → Inbound → MatchGateway F A → Handled F A
  unfolding fill_log forward_fill_log_to_leader
  handle_fill_log rounds r g =
      if not (str_eq r.method "POST")
      then refuse 405 "method not allowed" g
      else if not g.has_raft
      then (
        answer 503 (
            filled (record {
              ok = false;
              proposed = 0;
              snapshot_index = 0;
              uncompacted_entries = 0;
              node_id = "";
              error = "raft node is not configured";
            })),
        g,
      )
      else if not (cluster.is_leader g.cluster)
      then (forward_fill_log_to_leader x cluster g r, g)
      else fill_log 50 rounds 0 g
