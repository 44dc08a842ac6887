-- ===== src/Broker/Tests.antt =====
-- The theorems about the broker at concrete brokers.
use domino_jc_project.Prelude.{
  ℕ, ◌≡◌, ◌≢◌, refl, String, true, false, none, some, [], ◌∷◌, find_key, eq_iff, false≢true,
}
use domino_jc_project.Broker.State.{
  Event, InMemoryBroker, new_in_memory_broker, subscribe, publish, stamp, targets_of, close,
  context_ends,
}
use domino_jc_project.Broker.Deliver.{contains, AreDifferent, Delivers, publish-Delivers}
use domino_jc_project.Broker.Panic.{context_ends-close}

abbrev started : Event ℕ
started = record { topic = "match"; payload = 7; timestamp = 1 }

match≢nil : ◌≢◌ {A = String} "match" ""
match≢nil e = false≢true ((eq_iff "match" "").1 e)

-- Two subscribers of one topic, the first with a full buffer.
abbrev shared : InMemoryBroker ℕ
shared = record {
  subscribers = ("match", 0 ∷ 1 ∷ []) ∷ [];
  channels =
      record { buffer = started ∷ []; is_closed = false; is_watched = true }
      ∷ record { buffer = []; is_closed = false; is_watched = true }
      ∷ [];
  buffer_size = 1;
  retention = some [];
  logged = none;
  closed = false;
}

publish-Delivers_example :
    (b' : InMemoryBroker ℕ) × (publish (λ n. false) 9 started shared ≡ some (none, b'))
    × Delivers (stamp 9 started) (targets_of "match" shared) [] shared b'
publish-Delivers_example =
    publish-Delivers 9 started shared [] match≢nil refl refl
      (unfold find_key in unfold AreDifferent in unfold contains in (refl, (refl, tt)))
      (unfold find_key in ((_, refl, refl), ((_, refl, refl), tt)))

context_ends-close_example :
    (b' : InMemoryBroker ℕ) × (close (subscribe "match" (new_in_memory_broker [])).1 ≡ some b')
    × (context_ends "match" 0 b' ≡ none)
context_ends-close_example =
    unfold new_in_memory_broker in
    context_ends-close "match" (new_in_memory_broker []) match≢nil refl refl
