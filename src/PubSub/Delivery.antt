-- ===== src/PubSub/Delivery.antt =====
-- What the subscribers of pkg/pubsub/pubsub.go get to see.
use kubemate.Base.{
  ℕ, ◌+◌, ◌≤◌, ◌<◌, ◌^◌, ◌≡◌, refl, ◌≢◌, ◌∙◌, inl, inr, Bool, true, false, Option, none, some, List,
  [], ◌∷◌, ◌++◌, arith, any, map, select, not, sym, length, nat_eq, if◌then◌else◌, Option-cases,
  Bool-cases, All, String,
}
use mathlib.Core.List.{append-nil, append_assoc}
use kubemate.PubSub.{
  PubSub, Watcher, Event, Selector, ObjectMeta, subscribe, send_event, receive, receive_at, stop,
  matches, publish, serve, late_ids, push, take_event,
}

abbrev pub has : ℕ → List ℕ → Bool
has id = any (nat_eq id)

has-append_left : (id : ℕ) (ks ls : List ℕ) → has id (ks ++ ls) ≡ false → has id ks ≡ false
has-append_left id [] ls h = refl
has-append_left id (k ∷ ks) ls h = ground (arith, has-append_left id ks ls)

has-append_right : (id : ℕ) (ks ls : List ℕ) → has id ls ≡ true → has id (ks ++ ls) ≡ true
has-append_right id [] ls h = h
has-append_right id (k ∷ ks) ls h = ground (arith, has-append_right id ks ls)

has-select :
    (id k : ℕ) (ks : List ℕ) → k ≢ id → has id (select (λ x. not (nat_eq x k)) ks) ≡ has id ks
has-select id k [] ne = refl
has-select id k (x ∷ ks) ne = ground (arith, has-select id k ks ne)

module _ {Obj : Type 0} where
  abbrev pub buffer : Option (List (Event Obj)) → List (Event Obj)
  buffer none = []
  buffer (some b) = b

  -- What the watcher was sent: what its reader took, then what waits in the channel.
  abbrev pub seen : Watcher Obj → List (Event Obj)
  seen w = w.received ++ buffer w.ch

  abbrev pub find : ℕ → List (Watcher Obj) → Option (Watcher Obj)
  find id [] = none
  find id (w ∷ ws) = let rest = find id ws in if nat_eq w.id id then some w else rest

  -- A watcher that is not late has the event behind all that it was sent before.
  push-seen :
      (evt : Event Obj) (ready : Bool) (w : Watcher Obj) (c : Option (List (Event Obj)))
      → (push evt ready w c).1 ≡ false
      → seen (push evt ready w c).0 ≡ (w.received ++ buffer c) ++ evt ∷ []
  unfolding push
  push-seen evt ready w none h = cc
  push-seen evt ready w (some []) h = rw append-nil refl
  push-seen evt ready w (some (e ∷ buf)) h = ground (
    arith,
    append_assoc w.received (e ∷ buf) (evt ∷ []),
    append_assoc w.received (e ∷ []) (buf ++ evt ∷ []),
  )

  push-id :
      (evt : Event Obj) (ready : Bool) (w : Watcher Obj) (c : Option (List (Event Obj)))
      → ((push evt ready w c).0.id ≡ w.id) × ((push evt ready w c).0.filter ≡ w.filter)
  unfolding push
  push-id evt ready w none = (refl, refl)
  push-id evt ready w (some []) = (refl, refl)
  push-id evt ready w (some (e ∷ buf)) = (ground arith, ground arith)

  -- The watcher `o` is `w` after it was sent `events` as well.
  abbrev pub Sent : List (Event Obj) → Watcher Obj → Option (Watcher Obj) → Type 0
  Sent events w o =
      (w' : Watcher Obj) × (o ≡ some w') × (w'.filter ≡ w.filter) × (seen w' ≡ seen w ++ events)

  -- A reader's step moves an event from the channel to what it has read.
  take_event-seen :
      (w : Watcher Obj) (c : Option (List (Event Obj)))
      → w.ch ≡ c
      → (seen (take_event w c) ≡ seen w)
        × ((take_event w c).filter ≡ w.filter)
        × ((take_event w c).id ≡ w.id)
  unfolding take_event
  take_event-seen w none h = (refl, refl, refl)
  take_event-seen w (some []) h = (refl, refl, refl)
  take_event-seen w (some (e ∷ buf)) h = (rw h (append_assoc w.received (e ∷ []) buf), refl, refl)

  receive_at-Sent :
      (k : ℕ) (w : Watcher Obj)
      → ((receive_at k w).filter ≡ w.filter) × (seen (receive_at k w) ≡ seen w ++ [])
  unfolding receive_at
  receive_at-Sent k w = (
    ground (arith, take_event-seen w w.ch),
    ground (arith, take_event-seen w w.ch, append-nil (seen w)),
  )

  receive_at-id : (k : ℕ) (w : Watcher Obj) → (receive_at k w).id ≡ w.id
  unfolding receive_at
  receive_at-id k w = ground (arith, take_event-seen w w.ch)

  find-select :
      (id k : ℕ) (ws : List (Watcher Obj))
      → k ≢ id
      → find id (select (λ x. not (nat_eq x.id k)) ws) ≡ find id ws
  find-select id k [] ne = refl
  find-select id k (x ∷ ws) ne = ground (arith, find-select id k ws ne)

  -- A change of each watcher that keeps the ids keeps the places of the watchers.
  find-map :
      (f : Watcher Obj → Watcher Obj) (id : ℕ) (ws : List (Watcher Obj)) (w : Watcher Obj)
      → ((x : Watcher Obj) → (f x).id ≡ x.id)
      → find id ws ≡ some w
      → find id (map f ws) ≡ some (f w)
  find-map f id [] w keep h = cc
  find-map f id (x ∷ ws) w keep h = ground (arith, keep x, find-map f id ws w keep)

module _ {Obj : Type 0} (accessor : Obj → Option ObjectMeta) (type_of : Obj → String) where
  abbrev pub events_for : Selector → Event Obj → List (Event Obj)
  events_for f evt = if matches accessor type_of f evt then evt ∷ [] else []

  serve-id :
      (evt : Event Obj) (m : ObjectMeta) (ready : ℕ → Bool) (w : Watcher Obj)
      → ((serve accessor type_of evt m ready w).0.id ≡ w.id)
        × ((serve accessor type_of evt m ready w).0.filter ≡ w.filter)
  unfolding serve send_event
  serve-id evt m ready w = (
    ground (arith, push-id evt (ready w.id) w w.ch),
    ground (arith, push-id evt (ready w.id) w w.ch),
  )

  serve-seen :
      (evt : Event Obj) (m : ObjectMeta) (ready : ℕ → Bool) (w : Watcher Obj)
      → accessor evt.object ≡ some m
      → (serve accessor type_of evt m ready w).1 ≡ false
      → seen (serve accessor type_of evt m ready w).0 ≡ seen w ++ events_for w.filter evt
  unfolding serve send_event matches
  serve-seen evt m ready w hm h =
      ground (arith, push-seen evt (ready w.id) w w.ch, append-nil (seen w))

  -- A watcher that is not among the late ones was served in time.
  late_ids-has :
      (evt : Event Obj) (m : ObjectMeta) (ready : ℕ → Bool) (id : ℕ) (ws : List (Watcher Obj))
      (w : Watcher Obj)
      → find id ws ≡ some w
      → has id (late_ids accessor type_of evt m ready ws) ≡ false
      → (serve accessor type_of evt m ready w).1 ≡ false
  unfolding late_ids
  late_ids-has evt m ready id [] w h k = cc
  late_ids-has evt m ready id (x ∷ ws) w h k = ground (arith, late_ids-has evt m ready id ws w)

  publish-Sent :
      (s : PubSub Obj) (evt : Event Obj) (ready : ℕ → Bool) (id : ℕ) (w : Watcher Obj)
      → find id s.watchers ≡ some w
      → has id (publish accessor type_of s evt ready).kicked ≡ false
      → Sent (events_for w.filter evt) w (find id (publish accessor type_of s evt ready).watchers)
  unfolding publish matches
  publish-Sent s evt ready id w h k = elim (Option-cases (accessor evt.object)) [
    | inl e ↦ (w, rw (e, publish) h, refl, rw (e, matches) (sym (append-nil (seen w))))
    | inr (m, e) ↦
        let f : Watcher Obj → Watcher Obj = λ x. (serve accessor type_of evt m ready x).0 in
        let in_time : (serve accessor type_of evt m ready w).1 ≡ false =
          late_ids-has evt m ready id s.watchers w h (
            has-append_left id (late_ids accessor type_of evt m ready s.watchers) s.kicked
              (rw (e, publish) at k)) in
        (
          f w,
          rw (e, publish) (find-map f id s.watchers w (λ x. (serve-id evt m ready x).0) h),
          (serve-id evt m ready w).1,
          serve-seen evt m ready w e in_time,
        )
  ]

-- What happens to a bus: calls of its methods, and reads from the channels.
pub data Op (Obj : Type 0) : Type 0 where
  subscribes : Selector → Op Obj
  publishes : Event Obj → (ℕ → Bool) → Op Obj
  receives : ℕ → Op Obj
  stops : ℕ → Op Obj

abbrev pub NotStop : {Obj : Type 0} → ℕ → Op Obj → Type 0
NotStop id (stops k) = k ≢ id
NotStop id _ = Unit

module _ {Obj : Type 0} (accessor : Obj → Option ObjectMeta) (type_of : Obj → String) where
  abbrev pub step : PubSub Obj → Op Obj → PubSub Obj
  step s (subscribes f) = subscribe s f
  step s (publishes evt ready) = publish accessor type_of s evt ready
  step s (receives k) = receive s k
  step s (stops k) = stop s k

  abbrev pub run : PubSub Obj → List (Op Obj) → PubSub Obj
  run s [] = s
  run s (op ∷ ops) = run (step s op) ops

  -- The events among the operations that a filter lets through, in order.
  abbrev pub published : Selector → List (Op Obj) → List (Event Obj)
  published f [] = []
  published f (publishes evt ready ∷ ops) = events_for accessor type_of f evt ++ published f ops
  published f (_ ∷ ops) = published f ops

  step-kicked :
      (s : PubSub Obj) (op : Op Obj) (id : ℕ)
      → NotStop id op
      → has id s.kicked ≡ true
      → has id (step s op).kicked ≡ true
  unfolding subscribe publish receive stop
  step-kicked s (subscribes f) id ok h = h
  step-kicked s (publishes evt ready) id ok h = elim (Option-cases (accessor evt.object)) [
    | inl e ↦ rw (e, publish) h
    | inr (m, e) ↦
        rw (e, publish)
          (has-append_right id (late_ids accessor type_of evt m ready s.watchers) s.kicked h)
  ]
  step-kicked s (receives k) id ok h = h
  step-kicked s (stops k) id ok h = rw (has-select id k s.kicked ok) h

  run-kicked :
      (s : PubSub Obj) (ops : List (Op Obj)) (id : ℕ)
      → All (NotStop id) ops
      → has id s.kicked ≡ true
      → has id (run s ops).kicked ≡ true
  run-kicked s [] id ok h = h
  run-kicked s (op ∷ ops) id ok h = run-kicked (step s op) ops id ok.1 (step-kicked s op id ok.0 h)

  step-seq :
      (s : PubSub Obj) (op : Op Obj)
      → s.seq + 1 < 2 ^ 64
      → (s.seq ≤ (step s op).seq) × ((step s op).seq ≤ s.seq + 1)
  unfolding subscribe publish receive stop
  step-seq s (subscribes f) h = ground arith
  step-seq s (publishes evt ready) h = ground arith
  step-seq s (receives k) h = ground arith
  step-seq s (stops k) h = ground arith

  step-Sent :
      (s : PubSub Obj) (op : Op Obj) (id : ℕ) (w : Watcher Obj)
      → id ≤ s.seq
      → s.seq + 1 < 2 ^ 64
      → find id s.watchers ≡ some w
      → NotStop id op
      → has id (step s op).kicked ≡ false
      → Sent (published w.filter (op ∷ [])) w (find id (step s op).watchers)
  unfolding subscribe receive stop
  step-Sent s (subscribes f) id w old room h ok k =
      (w, ground arith, refl, sym (append-nil (seen w)))
  step-Sent s (publishes evt ready) id w old room h ok k =
      rw (append-nil (events_for accessor type_of w.filter evt))
        (publish-Sent accessor type_of s evt ready id w h k)
  step-Sent s (receives k) id w old room h ok kk = (
    receive_at k w,
    find-map (receive_at k) id s.watchers w (receive_at-id k) h,
    (receive_at-Sent k w).0,
    (receive_at-Sent k w).1,
  )
  step-Sent s (stops k) id w old room h ok kk =
      (w, rw (find-select id k s.watchers ok) h, refl, sym (append-nil (seen w)))

  published-cons :
      (f : Selector) (op : Op Obj) (ops : List (Op Obj))
      → published f (op ∷ ops) ≡ published f (op ∷ []) ++ published f ops
  published-cons f (subscribes g) ops = refl
  published-cons f (publishes evt ready) ops =
      ground (arith, append-nil (events_for accessor type_of f evt))
  published-cons f (receives k) ops = refl
  published-cons f (stops k) ops = refl

  not_yet_kicked :
      (s : PubSub Obj) (op : Op Obj) (ops : List (Op Obj)) (id : ℕ)
      → All (NotStop id) ops
      → has id (run (step s op) ops).kicked ≡ false
      → has id (step s op).kicked ≡ false
  not_yet_kicked s op ops id ok h = elim (Bool-cases (has id (step s op).kicked)) [
    | inl e ↦ cc (run-kicked (step s op) ops id ok e)
    | inr e ↦ e
  ]

  -- A subscriber that is neither stopped nor late is sent, in the order of publication, each event
  -- that passes its filter and nothing else: in any run of calls and reads that the sequence number
  -- can count, what it has read and what waits in its channel grow by exactly those events.
  pub run-Sent :
      (s : PubSub Obj) (ops : List (Op Obj)) (id : ℕ) (w : Watcher Obj)
      → id ≤ s.seq
      → s.seq + length ops < 2 ^ 64
      → find id s.watchers ≡ some w
      → All (NotStop id) ops
      → has id (run s ops).kicked ≡ false
      → Sent (published w.filter ops) w (find id (run s ops).watchers)
  run-Sent s [] id w old room h ok k = (w, h, refl, sym (append-nil (seen w)))
  run-Sent s (op ∷ ops) id w old room h ok k =
      let (w1, h1, f1, s1) =
        step-Sent s op id w old (omega arith) h ok.0 (not_yet_kicked s op ops id ok.1 k) in
      let grows : (s.seq ≤ (step s op).seq) × ((step s op).seq ≤ s.seq + 1) =
        step-seq s op (omega arith) in
      let (w2, h2, f2, s2) = run-Sent (step s op) ops id w1 (omega arith) (omega arith) h1 ok.1 k in
      (
        w2,
        h2,
        f2 ∙ f1,
        ground (
          arith,
          published-cons w.filter op ops,
          append_assoc (seen w) (published w.filter (op ∷ [])) (published w.filter ops),
        ),
      )
