-- ===== src/Broker/Deliver.antt =====
-- What a publication delivers to each subscriber, and what it records as dropped.
use domino_jc_project.Prelude.{
  ℕ, ◌+◌, ltb, ◌==◌, ◌≡◌, ◌≢◌, refl, sym, ap, ◌∙◌, str_eq, str_eq-ne, Bool, true, false, none, some,
  List, [], ◌∷◌, ◌++◌, length, get_elem?, get_elem?-same, get_elem?-set_other, if◌then◌else◌, arith,
  All, Bool-cases, inl, inr, subst,
}
use mathlib.Core.List.{append_assoc, append-nil}
use domino_jc_project.Broker.State.{
  Event, Channel, DroppedEventRecord, InMemoryBroker, subscriber_buffer_full, log_dropped_event,
  put_channel, offer_to, offer, deliver, stamp, targets_of, publish,
}

if-false {ℓ} : {A : Type ℓ} (c : Bool) (x y : A) → c ≡ false → (if c then x else y) ≡ y
if-false true x y e = absurd (cc e)
if-false false x y e = refl

regroup {ℓ} : {A : Type ℓ} (ks ms rs : List A) → (ks ++ (ms ++ [])) ++ rs ≡ ks ++ (ms ++ rs)
regroup ks ms rs = ap (λ l. (ks ++ l) ++ rs) (append-nil ms) ∙ append_assoc ks ms rs

unfoldable pub contains : ℕ → List ℕ → Bool
contains j [] = false
contains j (i ∷ is) = if i == j then true else contains j is

unfoldable pub AreDifferent : List ℕ → Type 0
unfolding contains
AreDifferent [] = Unit
AreDifferent (i ∷ is) = (contains i is ≡ false) × AreDifferent is

module _ {P : Type 0} where
  -- A channel that is offered an event takes it at the end of its buffer, where there is room.
  unfoldable pub taken : Event P → ℕ → Channel P → Channel P
  taken event size c =
      if ltb (length c.buffer) size then record c { buffer = c.buffer ++ event ∷ [] } else c

  -- Where there is none, the drop is recorded, with the event.
  unfoldable pub missed_at : Event P → ℕ → Channel P → List (DroppedEventRecord P)
  missed_at event size c =
      if ltb (length c.buffer) size
      then []
      else record { event = event; reason = subscriber_buffer_full } ∷ []

  -- The records for all subscribers, in their order.
  unfoldable pub missed : Event P → ℕ → List (Channel P) → List ℕ → List (DroppedEventRecord P)
  unfolding missed_at
  missed event size cs [] = []
  missed event size cs (i ∷ is) =
      (elim (get_elem? cs i) [ none ↦ [] | some c ↦ missed_at event size c ])
      ++ missed event size cs is

  is_closed-taken :
      (event : Event P) (size : ℕ) (c : Channel P) → (taken event size c).is_closed ≡ c.is_closed
  unfolding taken
  is_closed-taken event size c = elim (Bool-cases (ltb (length c.buffer) size)) [
    | inl e ↦ rw (e, taken) refl
    | inr e ↦ rw (e, taken) refl
  ]

  -- The subscriber at place `i` has an open channel.
  abbrev pub IsOpen : InMemoryBroker P → ℕ → Type 0
  IsOpen b i = (c : Channel P) × (get_elem? b.channels i ≡ some c) × (c.is_closed ≡ false)

  -- What the delivery of an event to the subscribers `is` did, if `kept` was recorded before: each of them has
  -- the event once more at the end of its buffer if that had room, every other channel is as it was, and
  -- for each of them without room one record of the event is new, in their order.
  pub record Delivers (event : Event P) (is : List ℕ) (kept : List (DroppedEventRecord P))
      (b b' : InMemoryBroker P) : Type 0 where
    pub channel :
        (j : ℕ) (c : Channel P)
        → get_elem? b.channels j ≡ some c
        → get_elem? b'.channels j ≡ some (if contains j is then taken event b.buffer_size c else c)
    pub retention : b'.retention ≡ some (kept ++ missed event b.buffer_size b.channels is)
    pub buffer_size : b'.buffer_size ≡ b.buffer_size
    pub subscribers : b'.subscribers ≡ b.subscribers
    pub closed : b'.closed ≡ b.closed

  stored-Delivers :
      (event : Event P) (i : ℕ) (b : InMemoryBroker P) (ks : List (DroppedEventRecord P))
      (c : Channel P)
      → get_elem? b.channels i ≡ some c
      → b.retention ≡ some ks
      → ltb (length c.buffer) b.buffer_size ≡ true
      → Delivers event
          (i ∷ [])
          ks
          b
          (put_channel i (record c { buffer = c.buffer ++ event ∷ [] }) b)
  unfolding put_channel contains taken missed missed_at
  stored-Delivers event i b ks c h r e = record {
    channel = λ j d g. elim (Bool-cases (i == j)) [
      | inl q ↦
          let there : i ≡ j = ground arith in
          let same : c ≡ d = ground (arith, there, h, g) in
          rw (q, sym same, sym there, e) (get_elem?-same b.channels i _ c h)
      | inr q ↦
          let other : i ≢ j = ground arith in rw q (get_elem?-set_other b.channels i j _ other ∙ g)
    ];
    retention = rw (h, e) (r ∙ ap some (sym (append-nil ks)));
    buffer_size = refl;
    subscribers = refl;
    closed = refl;
  }

  dropped-Delivers :
      (event : Event P) (i : ℕ) (b : InMemoryBroker P) (ks : List (DroppedEventRecord P))
      (c : Channel P)
      → get_elem? b.channels i ≡ some c
      → b.retention ≡ some ks
      → ltb (length c.buffer) b.buffer_size ≡ false
      → Delivers event (i ∷ []) ks b (log_dropped_event event subscriber_buffer_full b)
  unfolding log_dropped_event contains taken missed missed_at
  dropped-Delivers event i b ks c h r e = record {
    channel = λ j d g. elim (Bool-cases (i == j)) [
      | inl q ↦
          let there : i ≡ j = ground arith in
          let same : c ≡ d = ground (arith, there, h, g) in
          rw (q, sym same, e) (g ∙ ap some (sym same))
      | inr q ↦ rw q g
    ];
    retention = rw (r, h, e) refl;
    buffer_size = refl;
    subscribers = refl;
    closed = refl;
  }

  offer-Delivers :
      (event : Event P) (i : ℕ) (b : InMemoryBroker P) (ks : List (DroppedEventRecord P))
      → IsOpen b i
      → b.retention ≡ some ks
      → (b' : InMemoryBroker P) × (offer i event b ≡ some b') × Delivers event (i ∷ []) ks b b'
  unfolding offer offer_to
  offer-Delivers event i b ks (c, h, o) r =
      elim (Bool-cases (ltb (length c.buffer) b.buffer_size)) [
        | inl e ↦ (_, rw (h, o, e, offer, offer_to) refl, stored-Delivers event i b ks c h r e)
        | inr e ↦ (_, rw (h, o, e, offer, offer_to) refl, dropped-Delivers event i b ks c h r e)
      ]

  -- What the first delivery leaves for the others.
  Delivers-IsOpen :
      (event : Event P) (is js : List ℕ) (ks : List (DroppedEventRecord P))
      (b b' : InMemoryBroker P)
      → Delivers event js ks b b'
      → All (IsOpen b) is
      → All (IsOpen b') is
  Delivers-IsOpen event [] js ks b b' d h = tt
  Delivers-IsOpen event (i ∷ is) js ks b b' d ((c, at, o), more) = (
    (
      _,
      d.channel i c at,
      elim (Bool-cases (contains i js)) [
        | inl e ↦ rw e (is_closed-taken event b.buffer_size c ∙ o)
        | inr e ↦ rw e o
      ],
    ),
    Delivers-IsOpen event is js ks b b' d more,
  )

  missed-later :
      (event : Event P) (i : ℕ) (is : List ℕ) (ks : List (DroppedEventRecord P))
      (b b' : InMemoryBroker P)
      → Delivers event (i ∷ []) ks b b'
      → contains i is ≡ false
      → All (IsOpen b) is
      → missed event b'.buffer_size b'.channels is ≡ missed event b.buffer_size b.channels is
  unfolding missed contains
  missed-later event i [] ks b b' d new ready = refl
  missed-later event i (k ∷ is) ks b b' d new ((c, at, o), more) = elim (Bool-cases (k == i)) [
    | inl e ↦ absurd (cc (rw e at new))
    | inr e ↦
        let apart : (i == k) ≡ false = ground arith in
        let there : get_elem? b'.channels k ≡ some c = rw apart at (d.channel k c at) in
        let rest = missed-later event i is ks b b' d (rw e at new) more in
        rw (at, there, d.buffer_size) (ap (λ l. missed_at event b.buffer_size c ++ l) rest)
  ]

  Delivers-both :
      (event : Event P) (i : ℕ) (is : List ℕ) (ks : List (DroppedEventRecord P))
      (a b c : InMemoryBroker P)
      → Delivers event (i ∷ []) ks a b
      → Delivers event is (ks ++ missed event a.buffer_size a.channels (i ∷ [])) b c
      → contains i is ≡ false
      → All (IsOpen a) is
      → Delivers event (i ∷ is) ks a c
  unfolding contains missed
  Delivers-both event i is ks a b c p q new ready = record {
    channel = λ j d g.
        let first = p.channel j d g in
        elim (Bool-cases (i == j)) [
          | inl e ↦
              let there : i ≡ j = ground arith in
              let out : contains j is ≡ false = subst (λ k. contains k is ≡ false) there new in
              rw e (rw out at (q.channel j _ (rw e at first)))
          | inr e ↦ rw e (rw p.buffer_size at (q.channel j d (rw e at first)))
        ];
    retention =
        q.retention
        ∙ ap some (
            ap (λ l. (ks ++ missed event a.buffer_size a.channels (i ∷ [])) ++ l)
              (missed-later event i is ks a b p new ready)
            ∙ regroup ks
                (elim (get_elem? a.channels i) [
                  | none ↦ []
                  | some d ↦ missed_at event a.buffer_size d
                ])
                (missed event a.buffer_size a.channels is));
    buffer_size = q.buffer_size ∙ p.buffer_size;
    subscribers = q.subscribers ∙ p.subscribers;
    closed = q.closed ∙ p.closed;
  }

  nobody-Delivers :
      (event : Event P) (b : InMemoryBroker P) (ks : List (DroppedEventRecord P))
      → b.retention ≡ some ks
      → Delivers event [] ks b b
  unfolding contains missed
  nobody-Delivers event b ks r = record {
    channel = λ j c g. g;
    retention = r ∙ ap some (sym (append-nil ks));
    buffer_size = refl;
    subscribers = refl;
    closed = refl;
  }

  deliver-Delivers :
      (event : Event P) (k : ℕ) (is : List ℕ) (b : InMemoryBroker P)
      (ks : List (DroppedEventRecord P))
      → AreDifferent is
      → All (IsOpen b) is
      → b.retention ≡ some ks
      → (b' : InMemoryBroker P) × (deliver (λ n. false) event k is b ≡ some (none, b'))
        × Delivers event is ks b b'
  unfolding deliver AreDifferent
  deliver-Delivers event k [] b ks apart ready r = (b, refl, nobody-Delivers event b ks r)
  deliver-Delivers event k (i ∷ is) b ks (new, apart) (here, more) r =
      let (b1, q, d) = offer-Delivers event i b ks here r in
      let (b2, q2, d2) =
        deliver-Delivers event (k + 1) is b1 (ks ++ missed event b.buffer_size b.channels (i ∷ []))
          apart (Delivers-IsOpen event is (i ∷ []) ks b b1 d more) d.retention in
      (b2, rw q q2, Delivers-both event i is ks b b1 b2 d d2 new more)

  publish-deliver :
      (stops : ℕ → Bool) (now : ℕ) (event : Event P) (b : InMemoryBroker P)
      → event.topic ≢ ""
      → b.closed ≡ false
      → publish stops now event b ≡ deliver stops (stamp now event) 0 (targets_of event.topic b) b
  unfolding publish
  publish-deliver stops now event b named live =
      if-false (str_eq event.topic "") _ _ (str_eq-ne event.topic "" named)
      ∙ if-false b.closed _ _ live

  -- A publication under a topic to an open broker that keeps drops, whose subscribers of the topic have
  -- different open channels, succeeds if its context is not done. Each of those subscribers has the stamped
  -- event once more at the end of its buffer, if that had room, and no other buffer changes; for each of
  -- them without room there is one new record with that event, in their order, and no other record.
  pub publish-Delivers :
      (now : ℕ) (event : Event P) (b : InMemoryBroker P) (ks : List (DroppedEventRecord P))
      → event.topic ≢ ""
      → b.closed ≡ false
      → b.retention ≡ some ks
      → AreDifferent (targets_of event.topic b)
      → All (IsOpen b) (targets_of event.topic b)
      → (b' : InMemoryBroker P) × (publish (λ n. false) now event b ≡ some (none, b'))
        × Delivers (stamp now event) (targets_of event.topic b) ks b b'
  publish-Delivers now event b ks named live r apart ready =
      let (b', q, d) =
        deliver-Delivers (stamp now event) 0 (targets_of event.topic b) b ks apart ready r in
      (b', publish-deliver (λ n. false) now event b named live ∙ q, d)
