-- ===== src/Broker/Panic.antt =====
-- A panic of the broker: a channel that is closed twice.
use domino_jc_project.Prelude.{
  String, str_eq-ne, ◌≡◌, ◌≢◌, refl, ap, ◌∙◌, true, false, none, some, List, [], ◌∷◌, ◌++◌,
  find_key, put_key, length, get_elem?-end, set,
}
use domino_jc_project.Broker.State.{
  Channel, InMemoryBroker, subscribe, remove_subscriber, close_channel, unwatch, put_channel,
  context_ends, close_all, close_topics, close,
}

module _ {P : Type 0} where
  set-end :
      (cs : List (Channel P)) (c d : Channel P) → set (cs ++ c ∷ []) (length cs) d ≡ cs ++ d ∷ []
  set-end [] c d = refl
  set-end (e ∷ cs) c d = ap (◌∷◌ e) (set-end cs c d)

  abbrev fresh_channel : Channel P
  fresh_channel = record { buffer = []; is_closed = false; is_watched = true }

  abbrev closed_channel : Channel P
  closed_channel = record fresh_channel { is_closed = true }

  -- The broker with its first subscriber.
  abbrev with_first : String → InMemoryBroker P → InMemoryBroker P
  with_first topic b = record b {
    channels = b.channels ++ fresh_channel ∷ [];
    subscribers = (topic, length b.channels ∷ []) ∷ [];
  }

  subscribe-first :
      (topic : String) (b : InMemoryBroker P)
      → topic ≢ ""
      → b.subscribers ≡ []
      → subscribe topic b ≡ (some (length b.channels), with_first topic b)
  unfolding subscribe find_key put_key
  subscribe-first topic b ne e = rw (str_eq-ne topic "" ne, e, subscribe)

  -- The broker once it is closed.
  abbrev shut : InMemoryBroker P → InMemoryBroker P
  shut b = record b {
    channels = b.channels ++ closed_channel ∷ [];
    subscribers = [];
    closed = true;
  }

  close-first :
      (topic : String) (b : InMemoryBroker P)
      → b.closed ≡ false
      → close (with_first topic b) ≡ some (shut b)
  unfolding close close_topics close_all close_channel put_channel
  close-first topic b e = rw (
    e,
    get_elem?-end b.channels fresh_channel,
    set-end b.channels fresh_channel closed_channel,
    close_topics,
    close_all,
    close_channel,
  )

  context_ends-shut :
      (topic : String) (b : InMemoryBroker P)
      → context_ends topic (length b.channels) (shut b) ≡ none
  unfolding context_ends unwatch put_channel remove_subscriber close_channel
  context_ends-shut topic b = rw (
    get_elem?-end b.channels closed_channel,
    context_ends,
    unwatch,
    set-end b.channels closed_channel (record closed_channel { is_watched = false }),
    close_channel,
    get_elem?-end b.channels (record closed_channel { is_watched = false }),
  )

  -- If an open broker without subscribers takes one, is closed, and then the context of the subscriber ends,
  -- the program panics, since the channel is closed a second time.
  pub context_ends-close :
      (topic : String) (b : InMemoryBroker P)
      → topic ≢ ""
      → b.closed ≡ false
      → b.subscribers ≡ []
      → (b' : InMemoryBroker P) × (close (subscribe topic b).1 ≡ some b')
        × (context_ends topic (length b.channels) b' ≡ none)
  context_ends-close topic b ne e f = (
    shut b,
    ap (λ r. close r.1) (subscribe-first topic b ne f) ∙ close-first topic b e,
    context_ends-shut topic b,
  )
