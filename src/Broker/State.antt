-- ===== src/Broker/State.antt =====
-- pkg/broker/event_broker.go and drop_retention.go: the broker's state and operations. A channel is known by
-- its place in a store that only grows, since the broker and the goroutine that waits for a subscriber's
-- context share it. `none` is a panic. Clock readings are arguments; a drop keeps no time of its own.
use domino_jc_project.Prelude.{
  ℕ, suc, ◌+◌, ◌==◌, ltb, String, str_eq, Bool, true, false, Option, none, some, List, [], ◌∷◌,
  ◌++◌, ℤ, pos, StringMap, find_key, put_key, delete_key, length, get_elem?, set, if◌then◌else◌,
}

pub record Event (P : Type 0) : Type 0 where
  pub topic : String
  pub payload : P
  pub timestamp : ℕ

pub data DropReason : Type 0 where
  subscriber_buffer_full : DropReason

pub record DroppedEventRecord (P : Type 0) : Type 0 where
  pub event : Event P
  pub reason : DropReason

-- A channel with what is in its buffer. `is_watched` tells that the goroutine which closes it when the
-- subscriber's context ends has not run.
pub record Channel (P : Type 0) : Type 0 where
  pub buffer : List (Event P)
  pub is_closed : Bool
  pub is_watched : Bool

-- `retention` is `none` for a nil buffer, `logged` for a nil logger and else what was logged.
pub record InMemoryBroker (P : Type 0) : Type 0 where
  pub subscribers : StringMap (List ℕ)
  pub channels : List (Channel P)
  pub buffer_size : ℕ
  pub retention : Option (List (DroppedEventRecord P))
  pub logged : Option (List (DroppedEventRecord P))
  pub closed : Bool

pub data BrokerError : Type 0 where
  empty_topic broker_closed context_done : BrokerError

pub data BrokerOption (P : Type 0) : Type 0 where
  with_subscriber_buffer : ℤ → BrokerOption P
  with_dropped_event_retention : Option (List (DroppedEventRecord P)) → BrokerOption P
  with_dropped_events_logger : BrokerOption P

-- `append` through a slice that may be nil.
abbrev append_kept : {A : Type 0} → A → Option (List A) → Option (List A)
append_kept a none = none
append_kept a (some kept) = some (kept ++ a ∷ [])

-- The first place that is `i` goes.
unfoldable pub remove_first : ℕ → List ℕ → List ℕ
remove_first i [] = []
remove_first i (k ∷ ks) = if k == i then ks else k ∷ remove_first i ks

abbrev put_or_delete : String → List ℕ → StringMap (List ℕ) → StringMap (List ℕ)
unfolding put_key delete_key
put_or_delete topic [] m = delete_key topic m
put_or_delete topic (i ∷ is) m = put_key topic (i ∷ is) m

module _ {P : Type 0} where
  unfoldable pub apply_option : BrokerOption P → InMemoryBroker P → InMemoryBroker P
  apply_option (with_subscriber_buffer (pos (suc n))) b = record b { buffer_size = suc n }
  apply_option (with_subscriber_buffer _) b = b
  apply_option (with_dropped_event_retention kept) b = record b { retention = kept }
  apply_option with_dropped_events_logger b = record b { logged = some [] }

  unfoldable pub apply_options : List (BrokerOption P) → InMemoryBroker P → InMemoryBroker P
  unfolding apply_option
  apply_options [] b = b
  apply_options (o ∷ opts) b = apply_options opts (apply_option o b)

  unfoldable pub new_in_memory_broker : List (BrokerOption P) → InMemoryBroker P
  unfolding apply_options
  new_in_memory_broker opts = apply_options opts (record {
    subscribers = [];
    channels = [];
    buffer_size = 64;
    retention = some [];
    logged = none;
    closed = false;
  })

  unfoldable pub log_dropped_event : Event P → DropReason → InMemoryBroker P → InMemoryBroker P
  log_dropped_event event reason b =
      let dropped : DroppedEventRecord P = record { event = event; reason = reason } in
      record b {
        retention = append_kept dropped b.retention;
        logged = append_kept dropped b.logged;
      }

  unfoldable pub put_channel : ℕ → Channel P → InMemoryBroker P → InMemoryBroker P
  put_channel i c b = record b { channels = set b.channels i c }

  -- The cases `sub.ch <- event` and `default` of the `select`. A send on a closed channel panics.
  unfoldable pub offer_to : ℕ → Event P → Channel P → InMemoryBroker P → Option (InMemoryBroker P)
  unfolding put_channel log_dropped_event
  offer_to i event c b =
      if c.is_closed
      then none
      else some (
          if ltb (length c.buffer) b.buffer_size
          then put_channel i (record c { buffer = c.buffer ++ event ∷ [] }) b
          else log_dropped_event event subscriber_buffer_full b)

  unfoldable pub offer : ℕ → Event P → InMemoryBroker P → Option (InMemoryBroker P)
  unfolding offer_to
  offer i event b = elim (get_elem? b.channels i) [ none ↦ none | some c ↦ offer_to i event c b ]

  -- The loop of `Publish`. `stops k` tells that the `select` of round `k` takes the case of a context that
  -- is done, as it may if the context is done.
  unfoldable pub deliver :
      (ℕ → Bool)
      → Event P
      → ℕ
      → List ℕ
      → InMemoryBroker P
      → Option (Option BrokerError × InMemoryBroker P)
  unfolding offer
  deliver stops event k [] b = some (none, b)
  deliver stops event k (i ∷ targets) b =
      if stops k
      then some (some context_done, b)
      else elim (offer i event b) [ none ↦ none | some b' ↦ deliver stops event (k + 1) targets b' ]

  unfoldable pub stamp : ℕ → Event P → Event P
  stamp now event = if event.timestamp == 0 then record event { timestamp = now } else event

  abbrev pub targets_of : String → InMemoryBroker P → List ℕ
  targets_of topic b = elim (find_key topic b.subscribers) [ none ↦ [] | some is ↦ is ]

  unfoldable pub publish :
      (ℕ → Bool) → ℕ → Event P → InMemoryBroker P → Option (Option BrokerError × InMemoryBroker P)
  unfolding deliver stamp
  publish stops now event b =
      if str_eq event.topic ""
      then some (some empty_topic, b)
      else if b.closed
      then some (some broker_closed, b)
      else deliver stops (stamp now event) 0 (targets_of event.topic b) b

  -- A closed broker is not refused. The place of the new channel comes back.
  unfoldable pub subscribe : String → InMemoryBroker P → Option ℕ × InMemoryBroker P
  unfolding put_key
  subscribe topic b = if str_eq topic "" then (none, b) else (
    some (length b.channels),
    record b {
      channels = b.channels ++ record { buffer = []; is_closed = false; is_watched = true } ∷ [];
      subscribers = put_key topic (targets_of topic b ++ length b.channels ∷ []) b.subscribers;
    },
  )

  unfoldable pub remove_subscriber : String → ℕ → InMemoryBroker P → InMemoryBroker P
  unfolding remove_first put_or_delete
  remove_subscriber topic i b = record b {
    subscribers = put_or_delete topic (remove_first i (targets_of topic b)) b.subscribers;
  }

  -- `close(ch)`, which panics on a closed channel.
  unfoldable pub close_channel : ℕ → InMemoryBroker P → Option (InMemoryBroker P)
  unfolding put_channel
  close_channel i b = elim (get_elem? b.channels i) [
    | none ↦ none
    | some c ↦ if c.is_closed then none else some (put_channel i (record c { is_closed = true }) b)
  ]

  unfoldable pub unwatch : ℕ → InMemoryBroker P → InMemoryBroker P
  unfolding put_channel
  unwatch i b = elim (get_elem? b.channels i) [
    | none ↦ b
    | some c ↦ put_channel i (record c { is_watched = false }) b
  ]

  abbrev pub watched : Option (Channel P) → Bool
  watched none = false
  watched (some c) = c.is_watched

  -- What the goroutine of a subscriber does when its context ends, once.
  unfoldable pub context_ends : String → ℕ → InMemoryBroker P → Option (InMemoryBroker P)
  unfolding remove_subscriber close_channel unwatch
  context_ends topic i b =
      if watched (get_elem? b.channels i)
      then close_channel i (remove_subscriber topic i (unwatch i b))
      else some b

  -- The inner loop of `Close`.
  unfoldable pub close_all : List ℕ → InMemoryBroker P → Option (InMemoryBroker P)
  unfolding close_channel
  close_all [] b = some b
  close_all (i ∷ is) b = elim (close_channel i b) [ none ↦ none | some b' ↦ close_all is b' ]

  unfoldable pub close_topics : StringMap (List ℕ) → InMemoryBroker P → Option (InMemoryBroker P)
  unfolding close_all
  close_topics [] b = some (record b { subscribers = [] })
  close_topics ((topic, is) ∷ m) b = elim (close_all is b) [
    | none ↦ none
    | some b' ↦ close_topics m b'
  ]

  -- Only the first call does anything.
  unfoldable pub close : InMemoryBroker P → Option (InMemoryBroker P)
  unfolding close_topics
  close b = if b.closed then some b else close_topics b.subscribers (record b { closed = true })

  -- A subscriber takes the first event of its buffer.
  unfoldable pub receive : ℕ → InMemoryBroker P → InMemoryBroker P
  unfolding put_channel
  receive i b = elim (get_elem? b.channels i) [
    | none ↦ b
    | some c ↦ elim c.buffer [ [] ↦ b | _ ∷ rest ↦ put_channel i (record c { buffer = rest }) b ]
  ]

  unfoldable pub dropped_retention_records : InMemoryBroker P → List (DroppedEventRecord P)
  dropped_retention_records b = elim b.retention [ none ↦ [] | some kept ↦ kept ]
