-- ===== src/Gateway/Once.antt =====
-- A mutation that was answered is not proposed again.
use domino_jc_project.Prelude.{
  ℕ, suc, ◌+◌, ◌≤◌, ◌<◌, String, str_eq, str_eq→eq, ◌≡◌, ◌≢◌, refl, ap, sym, subst, ◌∙◌, Bool, true,
  false, Option, none, some, List, [], ◌∷◌, ◌⊎◌, inl, inr, length, ◌==◌, Bool-cases, arith,
  false≢true, str_eq_refl,
}
use domino_jc_project.Consensus.Command.{ApplyTurnPayload}
use domino_jc_project.Consensus.Node.{Bytes}
use domino_jc_project.Consensus.Wait.{
  WaitError, redirected, commit_timed_out, apply_timed_out, read_timed_out, leadership_lost,
  lost_during_verification, quorum_not_confirmed,
}
use domino_jc_project.Engine.Fsm.{ApplyResult}
use domino_jc_project.Gateway.Cluster.{Raw, apply_error, confirmed, nil_result, Cluster}
use domino_jc_project.Gateway.SessionCache.{SessionCache, get, put}
use domino_jc_project.Gateway.SessionCache.Bounds.{
  IsCache, put-IsCache, get-put, put-grows, put-capacity,
}
use domino_jc_project.Gateway.Reply.{
  Body, MatchMutateRequest, MatchMutateResponse, Response, mutated, Outside, MatchGateway, answer,
  write_proposal_error,
}
use domino_jc_project.Gateway.Handle.{Handled}
use domino_jc_project.Gateway.Mutate.{
  key_of, looked_up, apply_action, turn_proposed, propose_bytes, masked, process_local_mutate,
}

module _ {F A : Type 0} (x : Outside) (cluster : Cluster F A) where
  -- The three ways of a mutation: a kept answer, no answer to keep, or a new answer that is kept.
  pub data MutateCase (req : MatchMutateRequest) (g : MatchGateway F A) (o : Handled F A)
      : Type 0 where
    replayed :
        (v : MatchMutateResponse F)
        → get (key_of req) g.cache ≡ some v
        → o ≡ (answer 200 (mutated (record v { idempotent_replay = true })), g)
        → MutateCase req g o
    unkept : o.0.status ≢ 200 → o.1.cache ≡ g.cache → MutateCase req g o
    stored :
        (v : MatchMutateResponse F)
        → get (key_of req) g.cache ≡ none
        → o.0 ≡ answer 200 (mutated v)
        → o.1.cache ≡ put (key_of req) v g.cache
        → MutateCase req g o

  pub write_proposal_error-status :
      (e : WaitError) → (write_proposal_error x cluster e).status ≢ 200
  unfolding write_proposal_error
  write_proposal_error-status (redirected e) = omega arith
  write_proposal_error-status (commit_timed_out i) = omega arith
  write_proposal_error-status (apply_timed_out i) = omega arith
  write_proposal_error-status (read_timed_out i) = omega arith
  write_proposal_error-status leadership_lost = omega arith
  write_proposal_error-status lost_during_verification = omega arith
  write_proposal_error-status quorum_not_confirmed = omega arith

  masked-MutateCase :
      (req : MatchMutateRequest) (g : MatchGateway F A) (a : A) (r : Option (ApplyResult F))
      → get (key_of req) g.cache ≡ none
      → MutateCase req g (masked x cluster req (record g { cluster = a }) r)
  masked-MutateCase req g a none e = unkept (omega arith) refl
  masked-MutateCase req g a (some r) e = stored _ e refl refl

  turn_proposed-MutateCase :
      (req : MatchMutateRequest) (g : MatchGateway F A) (a : A) (r : WaitError ⊎ Raw F)
      → get (key_of req) g.cache ≡ none
      → MutateCase req g (turn_proposed x cluster req (record g { cluster = a }) r)
  turn_proposed-MutateCase req g a (inl e) h = unkept (write_proposal_error-status e) refl
  turn_proposed-MutateCase req g a (inr (apply_error text)) h = unkept (omega arith) refl
  turn_proposed-MutateCase req g a (inr nil_result) h = unkept (omega arith) refl
  turn_proposed-MutateCase req g a (inr (confirmed r)) h = masked-MutateCase req g a _ h

  propose_bytes-MutateCase :
      (req : MatchMutateRequest) (g : MatchGateway F A) (o : Option Bytes)
      → get (key_of req) g.cache ≡ none
      → MutateCase req g (propose_bytes x cluster (λ r g'. turn_proposed x cluster req g' r) g o)
  propose_bytes-MutateCase req g none h = unkept (omega arith) refl
  propose_bytes-MutateCase req g (some command) h =
      turn_proposed-MutateCase req g (cluster.propose_and_wait command g.cluster).1
        (cluster.propose_and_wait command g.cluster).0 h

  apply_action-MutateCase :
      (req : MatchMutateRequest) (g : MatchGateway F A) (d : String ⊎ ApplyTurnPayload)
      → get (key_of req) g.cache ≡ none
      → MutateCase req g (apply_action x cluster req g d)
  apply_action-MutateCase req g (inl e) h = unkept (omega arith) refl
  apply_action-MutateCase req g (inr p) h = propose_bytes-MutateCase req g _ h

  looked_up-MutateCase :
      (req : MatchMutateRequest) (g : MatchGateway F A) (o : Option (MatchMutateResponse F))
      → get (key_of req) g.cache ≡ o
      → MutateCase req g (looked_up x cluster req g o)
  looked_up-MutateCase req g none h = apply_action-MutateCase req g _ h
  looked_up-MutateCase req g (some v) h = replayed v h refl

  pub process_local_mutate-MutateCase :
      (req : MatchMutateRequest) (g : MatchGateway F A)
      → MutateCase req g (process_local_mutate x cluster req g)
  unfolding process_local_mutate
  process_local_mutate-MutateCase req g = looked_up-MutateCase req g (get (key_of req) g.cache) refl

  -- One mutation after the other, for what they leave.
  unfoldable pub mutate_all : List MatchMutateRequest → MatchGateway F A → MatchGateway F A
  mutate_all [] g = g
  mutate_all (req ∷ reqs) g = mutate_all reqs (process_local_mutate x cluster req g).1

  -- There is room for the answers of `n` more mutations.
  abbrev pub HasRoom : ℕ → MatchGateway F A → Type 0
  HasRoom n g = IsCache g.cache × (length g.cache.order + n ≤ g.cache.capacity)

  put-HasRoom :
      (key : String) (v : MatchMutateResponse F) (g g' : MatchGateway F A) (n : ℕ)
      → HasRoom (suc n) g
      → g'.cache ≡ put key v g.cache
      → HasRoom n g'
  put-HasRoom key v g g' n (cache, room) e = rw e (
    put-IsCache key v g.cache cache,
    omega (arith, put-grows key v g.cache cache, put-capacity key v g.cache cache),
  )

  mutate-HasRoom :
      (req : MatchMutateRequest) (g : MatchGateway F A) (n : ℕ)
      → HasRoom (suc n) g
      → HasRoom n (process_local_mutate x cluster req g).1
  mutate-HasRoom req g n h = elim (process_local_mutate-MutateCase req g) [
    | replayed v there e ↦ rw e (h.0, omega (arith, h.1))
    | unkept status e ↦ rw e (h.0, omega (arith, h.1))
    | stored v new answered e ↦
        put-HasRoom (key_of req) v g (process_local_mutate x cluster req g).1 n h e
  ]

  -- What was kept stays, for other keys.
  get-put-other :
      (key j : String) (v w : MatchMutateResponse F) (c : SessionCache (MatchMutateResponse F))
      → IsCache c
      → length c.order < c.capacity
      → get key c ≡ none
      → get j c ≡ some w
      → get j (put key v c) ≡ some w
  get-put-other key j v w c cache room new there =
      get-put key j v c cache ∙ elim (Bool-cases (str_eq key j)) [
        | inl e ↦
            let clash : get key c ≡ some w =
              subst (λ i. get i c ≡ some w) (sym (str_eq→eq key j e)) there in
            absurd (ground (arith, new, clash))
        | inr e ↦
            let free : (length c.order == c.capacity) ≡ false = ground arith in
            rw (e, free, new) there
      ]

  mutate-keeps :
      (req : MatchMutateRequest) (j : String) (w : MatchMutateResponse F) (g : MatchGateway F A)
      (n : ℕ)
      → HasRoom (suc n) g
      → get j g.cache ≡ some w
      → get j (process_local_mutate x cluster req g).1.cache ≡ some w
  mutate-keeps req j w g n (cache, room) there = elim (process_local_mutate-MutateCase req g) [
    | replayed v kept e ↦ rw e there
    | unkept status e ↦ rw e there
    | stored v new answered e ↦
        rw e (get-put-other (key_of req) j v w g.cache cache (omega arith) new there)
  ]

  mutate_all-keeps :
      (reqs : List MatchMutateRequest) (j : String) (w : MatchMutateResponse F)
      (g : MatchGateway F A)
      → HasRoom (length reqs) g
      → get j g.cache ≡ some w
      → get j (mutate_all reqs g).cache ≡ some w
  unfolding mutate_all
  mutate_all-keeps [] j w g h there = there
  mutate_all-keeps (req ∷ reqs) j w g h there =
      mutate_all-keeps reqs j w _ (mutate-HasRoom req g (length reqs) h)
        (mutate-keeps req j w g (length reqs) h there)

  abbrev answer_in : Body F → Option (MatchMutateResponse F)
  answer_in (mutated v) = some v
  answer_in _ = none

  -- A new answer is kept.
  fresh-kept :
      (req : MatchMutateRequest) (g : MatchGateway F A) (v : MatchMutateResponse F) (n : ℕ)
      → HasRoom (suc n) g
      → (process_local_mutate x cluster req g).0 ≡ answer 200 (mutated v)
      → v.idempotent_replay ≡ false
      → get (key_of req) (process_local_mutate x cluster req g).1.cache ≡ some v
  fresh-kept req g v n (cache, room) answered own = elim (process_local_mutate-MutateCase req g) [
    | replayed u there e ↦
        let same : some (record u { idempotent_replay = true }) ≡ some v =
          ap (λ (o : Handled F A). answer_in o.0.body) (sym e)
          ∙ ap (λ (r : Response F). answer_in r.body) answered in
        absurd (false≢true (sym own ∙ sym (some_inj same)))
    | unkept status e ↦ absurd (status (ap (λ (r : Response F). r.status) answered))
    | stored u new given e ↦
        let same : some u ≡ some v =
          ap (λ (r : Response F). answer_in r.body) (sym given ∙ answered) in
        rw e
          (get-put (key_of req) (key_of req) u g.cache cache ∙ rw (str_eq_refl (key_of req)) same)
  ]
    where
      some_inj :
          {u v : MatchMutateResponse F}
          → some u ≡ some v
          → u.idempotent_replay ≡ v.idempotent_replay
      some_inj e = ap (λ o. elim o as (λ z. Bool) [ none ↦ false | some u ↦ u.idempotent_replay ]) e

  replay :
      (req : MatchMutateRequest) (g : MatchGateway F A) (v : MatchMutateResponse F)
      → get (key_of req) g.cache ≡ some v
      → process_local_mutate x cluster req g
        ≡ (answer 200 (mutated (record v { idempotent_replay = true })), g)
  unfolding process_local_mutate
  replay req g v there = ap (looked_up x cluster req g) there

  -- A mutation that was answered with a result of its own is not proposed again: when the client repeats it,
  -- after as many other mutations as the cache had room for, the node and the gateway stay as they are, and
  -- the answer is the one that was given, marked as a replay.
  pub process_local_mutate_once :
      (req : MatchMutateRequest) (reqs : List MatchMutateRequest) (g : MatchGateway F A)
      (v : MatchMutateResponse F)
      → HasRoom (suc (length reqs)) g
      → (process_local_mutate x cluster req g).0 ≡ answer 200 (mutated v)
      → v.idempotent_replay ≡ false
      → process_local_mutate x cluster req
          (mutate_all reqs (process_local_mutate x cluster req g).1)
        ≡ (
          answer 200 (mutated (record v { idempotent_replay = true })),
          mutate_all reqs (process_local_mutate x cluster req g).1,
        )
  process_local_mutate_once req reqs g v room answered own = replay req _ v (
      mutate_all-keeps reqs (key_of req) v _ (mutate-HasRoom req g (length reqs) room)
        (fresh-kept req g v (length reqs) room answered own))
