-- ===== src/Engine/Settle.antt =====
-- What follows a turn: at most two saves and the events; the sessions stay as the turn left them.
use domino_jc_project.Prelude.{
  ◌≡◌, refl, ap, ◌∙◌, sym, String, str_eq, Bool, true, false, Option, none, some, find_key,
  find_key-put_key, eq_iff, arith, Bool-cases, inl, inr, if◌then◌else◌,
}
use domino_jc_project.Models.Session.{GameSession, Result, ok, err}
use domino_jc_project.Models.Evaluate.{MatchOutcome}
use domino_jc_project.Models.Turn.{TurnAction, TurnResult, process_game_turn}
use domino_jc_project.Models.Ending.{Reports, process_game_turn-Reports, is_some}
use domino_jc_project.Engine.Manager.{
  Services, World, Outcome, done, failed, EngineError, save_failed, completion_not_saved,
  lookup_session, write_session, persist_state, turn_failed,
}
use domino_jc_project.Engine.Lifecycle.{
  lock_session, finalize_match, publish_turn_events, settle_turn, process_turn, turned, turn_found,
  persist_if, finalize_if_ended, finalize_saved, publish_final, published, should_persist_session,
}

pub lock_session-locked : (s : GameSession) → s.mutations_locked ≡ true → lock_session s ≡ s
unfolding lock_session
lock_session-locked s e = rw (e, lock_session)

-- The worlds hold the same sessions and have published the same.
pub record Keeps {F W B : Type 0} (w w' : World F W B) : Type 0 where
  pub sessions : (j : String) → find_key j w'.manager.sessions ≡ find_key j w.manager.sessions
  pub game_engine : w'.manager.game_engine ≡ w.manager.game_engine
  pub bus : w'.bus ≡ w.bus

module _ {F W B : Type 0} where
  pub find_key-write_session :
      (id j : String) (s : GameSession) (w : World F W B)
      → find_key j (write_session id s w).manager.sessions
        ≡ (if str_eq id j then some s else find_key j w.manager.sessions)
  unfolding write_session
  find_key-write_session id j s w = find_key-put_key id j s w.manager.sessions

module _ {F W B : Type 0} (x : Services F W B) where
  -- Some save failed.
  abbrev pub HasFailed : Type 0
  HasFailed = (s : GameSession) × (store : W) × ((x.save_session s store).0 ≡ false)

  pub data SaveCase (s : GameSession) (w : World F W B) (r : Outcome (Unit {0}) × World F W B)
      : Type 0 where
    saved : (store : W) → r ≡ (done tt, record w { store = store }) → SaveCase s w r
    unsaved :
        (store : W)
        → HasFailed
        → r ≡ (failed save_failed, record w { store = store })
        → SaveCase s w r

  pub persist_state-SaveCase :
      (s : GameSession) (w : World F W B) → SaveCase s w (persist_state x s w)
  unfolding persist_state
  persist_state-SaveCase s w = elim (Bool-cases (x.save_session s w.store).0) [
    | inl e ↦ saved (x.save_session s w.store).1 (rw (e, persist_state))
    | inr e ↦ unsaved (x.save_session s w.store).1 (s, w.store, e) (rw (e, persist_state))
  ]

  persist_if-SaveCase :
      (needed : Bool) (s : GameSession) (w : World F W B) → SaveCase s w (persist_if x needed s w)
  unfolding persist_if
  persist_if-SaveCase true s w = persist_state-SaveCase s w
  persist_if-SaveCase false s w = saved w.store refl

  pub data SettleCase (s : GameSession) (r : TurnResult) (w : World F W B)
      (res : Outcome TurnResult × World F W B) : Type 0 where
    unsettled :
        (e : EngineError) (w' : World F W B)
        → HasFailed
        → Keeps w w'
        → res ≡ (failed e, w')
        → SettleCase s r w res
    settled :
        (w' : World F W B)
        → Keeps w w'
        → res ≡ (done r, publish_turn_events x s r w')
        → SettleCase s r w res

  Keeps-refl : (w : World F W B) (store : W) → Keeps w (record w { store = store })
  Keeps-refl w store = record { sessions = λ j. refl; game_engine = refl; bus = refl }

  Keeps-write_session :
      (id : String) (s : GameSession) (w : World F W B) (store : W)
      → find_key id w.manager.sessions ≡ some s
      → Keeps w (record (write_session id s w) { store = store })
  unfolding write_session
  Keeps-write_session id s w store h = record {
    sessions = λ j. ground (arith, find_key-put_key id j s w.manager.sessions, eq_iff id j, h);
    game_engine = refl;
    bus = refl;
  }

  data FinalCase (w : World F W B) (r : Outcome (Unit {0}) × World F W B) : Type 0 where
    fine : (w' : World F W B) → Keeps w w' → r ≡ (done tt, w') → FinalCase w r
    broken :
        (e : EngineError) (w' : World F W B)
        → HasFailed
        → Keeps w w'
        → r ≡ (failed e, w')
        → FinalCase w r

  finalize_match-FinalCase :
      (id : String) (s : GameSession) (o : MatchOutcome) (w : World F W B)
      → find_key id w.manager.sessions ≡ some s
      → s.mutations_locked ≡ true
      → FinalCase w (finalize_match x id s (some o) w)
  unfolding finalize_match write_session
  finalize_match-FinalCase id s o w h l =
      let store = (x.save_session s w.store).1 in
      elim (Bool-cases (x.save_session s w.store).0) [
        | inl e ↦
            rw (lock_session-locked s l, e, finalize_match)
              (fine _ (Keeps-write_session id s w store h) refl)
        | inr e ↦
            rw (lock_session-locked s l, e, finalize_match)
              (broken (completion_not_saved id) _ (s, w.store, e)
                (Keeps-write_session id s w store h) refl)
      ]

  finalize_if_ended-FinalCase :
      (id : String) (s : GameSession) (r : TurnResult) (w : World F W B)
      → find_key id w.manager.sessions ≡ some s
      → (ended : Bool) → r.match_ended ≡ ended
      → (o : Option MatchOutcome) → r.outcome ≡ o
      → ended ≡ is_some o
      → s.mutations_locked ≡ is_some o
      → FinalCase w (finalize_if_ended x id s r w)
  unfolding finalize_if_ended
  finalize_if_ended-FinalCase id s r w h false p o q f l =
      rw (p, finalize_if_ended) (fine w (Keeps-refl w w.store) refl)
  finalize_if_ended-FinalCase id s r w h true p none q f l = absurd (cc f)
  finalize_if_ended-FinalCase id s r w h true p (some o) q f l =
      rw (p, q, finalize_if_ended) (finalize_match-FinalCase id s o w h l)

  published-same :
      (s : GameSession) (r : TurnResult) → r.match_ended ≡ s.mutations_locked → published x s r ≡ s
  unfolding published
  published-same s r e = elim (Bool-cases r.match_ended) [
    | inl f ↦ rw (f, published) (lock_session-locked s (sym e ∙ f))
    | inr f ↦ rw (f, published)
  ]

  Keeps-trans : (a b c : World F W B) → Keeps a b → Keeps b c → Keeps a c
  Keeps-trans a b c p q = record {
    sessions = λ j. q.sessions j ∙ p.sessions j;
    game_engine = q.game_engine ∙ p.game_engine;
    bus = q.bus ∙ p.bus;
  }

  publish_final-same :
      (s : GameSession) (r : TurnResult) (w : World F W B)
      → published x s r ≡ s
      → publish_final x s r (done tt, w) ≡ (done r, publish_turn_events x s r w)
  unfolding publish_final
  publish_final-same s r w q = ap (λ t. (done r, publish_turn_events x t r w)) q

  finalize_saved-SettleCase :
      (id : String) (s : GameSession) (r : TurnResult) (w : World F W B)
      → find_key id w.manager.sessions ≡ some s
      → Reports s r
      → SettleCase s r w (finalize_saved x id s r (done tt, w))
  unfolding finalize_saved
  finalize_saved-SettleCase id s r w h reports =
      let same = published-same s r (reports.flagged ∙ sym reports.locked) in
      elim (finalize_if_ended-FinalCase id s r w h r.match_ended refl r.outcome refl reports.flagged
        reports.locked) [
          | broken e w' bad k f ↦ rw f (unsettled e w' bad k refl)
          | fine w' k f ↦ rw f (settled w' k (publish_final-same s r w' same))
        ]

  settled-later :
      (s : GameSession) (r : TurnResult) (w w' : World F W B)
      (res : Outcome TurnResult × World F W B)
      → Keeps w w'
      → SettleCase s r w' res
      → SettleCase s r w res
  settled-later s r w w' res k (unsettled e w'' bad l q) =
      unsettled e w'' bad (Keeps-trans w w' w'' k l) q
  settled-later s r w w' res k (settled w'' l q) = settled w'' (Keeps-trans w w' w'' k l) q

  pub settle_turn-SettleCase :
      (id : String) (s : GameSession) (r : TurnResult) (w : World F W B)
      → find_key id w.manager.sessions ≡ some s
      → Reports s r
      → SettleCase s r w (settle_turn x id s r w)
  unfolding settle_turn finalize_saved
  settle_turn-SettleCase id s r w h reports =
      elim (persist_if-SaveCase (should_persist_session s r) s w) [
        | unsaved store bad q ↦ rw q (unsettled save_failed _ bad (Keeps-refl w store) refl)
        | saved store q ↦
            let w' : World F W B = record w { store = store } in
            rw q (
              settled-later s r w w' _ (Keeps-refl w store)
                (finalize_saved-SettleCase id s r w' h reports))
      ]

  pub lookup_session-loaded :
      (id : String) (s : GameSession) (w : World F W B)
      → find_key id w.manager.sessions ≡ some s
      → lookup_session x id w ≡ (done s, w)
  unfolding lookup_session
  lookup_session-loaded id s w h = rw (h, lookup_session)

  -- A turn of a session that is loaded.
  pub data ProcessCase (id : String) (s : GameSession) (a : TurnAction) (w : World F W B)
      (res : Outcome TurnResult × World F W B) : Type 0 where
    refused :
        (e : _)
        → (process_game_turn s a).1 ≡ err e
        → res ≡ (failed (turn_failed e), write_session id (process_game_turn s a).0 w)
        → ProcessCase id s a w res
    played :
        (r : TurnResult)
        → (process_game_turn s a).1 ≡ ok r
        → SettleCase (process_game_turn s a).0 r (write_session id (process_game_turn s a).0 w) res
        → ProcessCase id s a w res

  turned-ProcessCase :
      (id : String) (s : GameSession) (a : TurnAction) (w : World F W B) (r : Result TurnResult)
      → (process_game_turn s a).1 ≡ r
      → ProcessCase id s a w (turned x id ((process_game_turn s a).0, r) w)
  unfolding turned
  turned-ProcessCase id s a w (err e) q = refused e q refl
  turned-ProcessCase id s a w (ok r) q =
      let s' = (process_game_turn s a).0 in
      played r q (
        settle_turn-SettleCase id s' r (write_session id s' w)
          (ground (arith, find_key-write_session id id s' w, eq_iff id id))
          (process_game_turn-Reports s a r q))

  pub process_turn-ProcessCase :
      (id : String) (s : GameSession) (a : TurnAction) (w : World F W B)
      → find_key id w.manager.sessions ≡ some s
      → ProcessCase id s a w (process_turn x id a w)
  unfolding process_turn turn_found
  process_turn-ProcessCase id s a w h =
      rw (lookup_session-loaded id s w h)
        (turned-ProcessCase id s a w (process_game_turn s a).1 refl)
