-- ===== src/Gateway/Node.antt =====
-- The cluster behind the gateway of one process: the node of pkg/consensus whose state machine runs the game
-- manager of pkg/engine. What the node meets during each call is a list of schedules, one for each call.
use domino_jc_project.Prelude.{String, true, Option, none, List, [], ◌∷◌, ◌⊎◌, inl, inr}
use domino_jc_project.Models.Session.{GameSession}
use domino_jc_project.Consensus.Node.{
  RaftNode, ApplyOutcome, configured, executed, is_leader, uncompacted_log_entries,
}
use domino_jc_project.Consensus.Apply.{Machine}
use domino_jc_project.Consensus.Events.{Event}
use domino_jc_project.Consensus.Wait.{
  Answer, WaitError, leader_endpoint, propose_and_wait, ensure_linearizable_read,
}
use domino_jc_project.Engine.Manager.{Services, World, get_session}
use domino_jc_project.Engine.Fsm.{ManagedResult, result}
use domino_jc_project.Gateway.Cluster.{Raw, apply_error, confirmed, nil_result, Cluster}

-- A call of either kind sees the events of its own schedule.
pub record Schedule : Type 0 where
  pub looks : List (List Event)
  pub events : List Event
  pub answers : String → Answer

abbrev pub deaf : Schedule
deaf = record {
  looks = [];
  events = [];
  answers = λ p. record { before = []; meanwhile = []; reply = none };
}

pub record Process (F W B D : Type 0) : Type 0 where
  pub node : RaftNode (World F W B) (ManagedResult F) D
  pub schedules : List Schedule

abbrev pub first_of : List Schedule → Schedule
first_of [] = deaf
first_of (s ∷ ss) = s

abbrev others_of : List Schedule → List Schedule
others_of [] = []
others_of (s ∷ ss) = ss

module _ {F : Type 0} (text : ApplyOutcome (ManagedResult F) → String) where
  -- `IsApplyError` and `AsApplyResult` of what was recorded for an entry.
  unfoldable pub raw_of : ApplyOutcome (ManagedResult F) → Raw F
  raw_of (configured true) = nil_result
  raw_of (executed (result r)) = confirmed r
  raw_of o = apply_error (text o)

  abbrev pub raw_or_error : WaitError ⊎ ApplyOutcome (ManagedResult F) → WaitError ⊎ Raw F
  unfolding raw_of
  raw_or_error (inl e) = inl e
  raw_or_error (inr o) = inr (raw_of o)

module _ {F W B D : Type 0} where
  abbrev pub stepped :
      {R : Type 0}
      → Process F W B D
      → R × RaftNode (World F W B) (ManagedResult F) D
      → R × Process F W B D
  stepped p (r, n) = (r, record { node = n; schedules = others_of p.schedules })

  abbrev pub served :
      Process F W B D → Option GameSession × World F W B → Option GameSession × Process F W B D
  served p (o, world) = (o, record p { node = record p.node { fsm = world } })

module _ {F W B D : Type 0} (services : Services F W B)
    (m : Machine (World F W B) (ManagedResult F) D)
    (text : ApplyOutcome (ManagedResult F) → String) where
  abbrev pub answered :
      (WaitError ⊎ ApplyOutcome (ManagedResult F)) × Process F W B D
      → (WaitError ⊎ Raw F) × Process F W B D
  answered (r, p) = (raw_or_error text r, p)

  unfoldable pub process_cluster : Cluster F (Process F W B D)
  process_cluster = record {
    node_id = λ p. p.node.node_id;
    is_leader = λ p. is_leader p.node.state;
    leader_endpoint = λ p. leader_endpoint p.node;
    propose_and_wait = λ command p.
        let s = first_of p.schedules in
        answered (stepped p (propose_and_wait m command s.looks s.events p.node));
    ensure_linearizable_read = λ p.
        let s = first_of p.schedules in
        stepped p (ensure_linearizable_read m s.answers s.events s.looks p.node);
    get_session = λ id p. served p (get_session services id p.node.fsm);
    snapshot_index = λ p. p.node.snapshot_index;
    uncompacted_log_entries = λ p. uncompacted_log_entries p.node;
  }
