-- ===== src/PubSub.antt =====
-- pkg/pubsub/pubsub.go: the event bus behind the watches of the stores.
-- The object type, `meta.Accessor` and `reflect.TypeOf` are parameters. A watcher also records what
-- its reader has taken from the channel (`received`), and the bus the watchers for which
-- `go w.Stop()` was started and has not run yet (`kicked`).
pub mod Delivery
pub mod Examples
use kubemate.Base.{
  ℕ, ◌+◌, ◌%◌, ◌^◌, String, ◌≡◌, Bool, true, false, ◌&&◌, not, Option, none, some, List, [], ◌∷◌,
  ◌++◌, length, map, select, ltb, nat_eq, ◌==◌, if◌then◌else◌,
}

-- watch.EventType, as far as the bus tells the values apart.
pub data EventType : Type 0 where
  added modified deleted error : EventType

-- What the filter reads of the object's metadata.
pub record ObjectMeta : Type 0 where
  pub name : String
  pub namespace : String

pub record Event (Obj : Type 0) : Type 0 where
  pub type : EventType
  pub object : Obj

-- `type` is the type of the example object, if one is given.
pub record Selector : Type 0 where
  pub type : Option String
  pub namespace : String
  pub name : String

-- `ch` is none once the watcher was stopped; else it holds the buffered events, oldest first.
pub record Watcher (Obj : Type 0) : Type 0 where
  pub id : ℕ
  pub filter : Selector
  pub ch : Option (List (Event Obj))
  pub received : List (Event Obj)

pub record PubSub (Obj : Type 0) : Type 0 where
  pub watchers : List (Watcher Obj)
  pub seq : ℕ
  pub kicked : List ℕ

-- The capacity that `make(chan Event, 10)` gives each channel.
abbrev pub capacity : ℕ
capacity = 10

-- `seq++` on an int64, as its bit pattern.
abbrev pub next_seq : ℕ → ℕ
next_seq n = (n + 1) % 2 ^ 64

pub new : {Obj : Type 0} → PubSub Obj
new = record { watchers = []; seq = 0; kicked = [] }

-- The new watcher's id is the new sequence number.
unfoldable pub subscribe : {Obj : Type 0} → PubSub Obj → Selector → PubSub Obj
subscribe s filter = record s {
  seq = next_seq s.seq;
  watchers =
      record { id = next_seq s.seq; filter = filter; ch = some []; received = [] } ∷ s.watchers;
}

is_error : EventType → Bool
is_error error = true
is_error _ = false

other_type : Option String → String → Bool
other_type none t = false
other_type (some u) t = not (u == t)

unfoldable pub is_subscribed : Selector → EventType → ObjectMeta → String → Bool
unfolding is_error other_type
is_subscribed s evt_type m obj_type =
    if is_error evt_type
    then true
    else if other_type s.type obj_type
    then false
    else if not (s.name == "") && not (s.name == m.name)
    then false
    else if not (s.namespace == "") && not (s.namespace == m.namespace)
    then false
    else true

module _ {Obj : Type 0} where
  -- What the select in `sendEvent` does. `ready` says whether the reader takes an event from the
  -- full channel within 20 seconds; the flag says whether the watcher is to be stopped.
  push : Event Obj → Bool → Watcher Obj → Option (List (Event Obj)) → Watcher Obj × Bool
  push evt ready w none = (w, true)
  push evt ready w (some []) = (record w { ch = some (evt ∷ []) }, false)
  push evt ready w (some (e ∷ buf)) =
      if ltb (length (e ∷ buf)) capacity
      then (record w { ch = some ((e ∷ buf) ++ evt ∷ []) }, false)
      else if ready
      then (record w { ch = some (buf ++ evt ∷ []); received = w.received ++ e ∷ [] }, false)
      else (w, true)

  unfoldable pub send_event : Event Obj → Bool → Watcher Obj → Watcher Obj × Bool
  unfolding push
  send_event evt ready w = push evt ready w w.ch

  -- A reader takes the oldest buffered event.
  take_event : Watcher Obj → Option (List (Event Obj)) → Watcher Obj
  take_event w none = w
  take_event w (some []) = w
  take_event w (some (e ∷ buf)) = record w { ch = some buf; received = w.received ++ e ∷ [] }

  unfoldable pub receive_at : ℕ → Watcher Obj → Watcher Obj
  unfolding take_event
  receive_at id w = if nat_eq w.id id then take_event w w.ch else w

  -- A read from the channel that `ResultChan` returns.
  unfoldable pub receive : PubSub Obj → ℕ → PubSub Obj
  receive s id = record s { watchers = map (receive_at id) s.watchers }

  -- `Stop` takes the watcher out of the map and drops what is buffered. A second call does nothing.
  unfoldable pub stop : PubSub Obj → ℕ → PubSub Obj
  stop s id = record s {
    watchers = select (λ w. not (nat_eq w.id id)) s.watchers;
    kicked = select (λ k. not (nat_eq k id)) s.kicked;
  }

module _ {Obj : Type 0} (accessor : Obj → Option ObjectMeta) (type_of : Obj → String) where
  -- Whether a watcher with this filter gets the event. An object without metadata reaches nobody.
  unfoldable pub matches : Selector → Event Obj → Bool
  matches s evt = elim (accessor evt.object) [
    | none ↦ false
    | some m ↦ is_subscribed s evt.type m (type_of evt.object)
  ]

  -- One round of the loop over the watchers; `ready` says for each id whether its reader is in time.
  unfoldable pub serve : Event Obj → ObjectMeta → (ℕ → Bool) → Watcher Obj → Watcher Obj × Bool
  serve evt m ready w =
      if is_subscribed w.filter evt.type m (type_of evt.object)
      then send_event evt (ready w.id) w
      else (w, false)

  unfoldable pub late_ids : Event Obj → ObjectMeta → (ℕ → Bool) → List (Watcher Obj) → List ℕ
  late_ids evt m ready [] = []
  late_ids evt m ready (w ∷ ws) =
      let rest = late_ids evt m ready ws in if (serve evt m ready w).1 then w.id ∷ rest else rest

  unfoldable pub publish : PubSub Obj → Event Obj → (ℕ → Bool) → PubSub Obj
  publish s evt ready = elim (accessor evt.object) [
    | none ↦ s
    | some m ↦ record s {
      watchers = map (λ w. (serve evt m ready w).0) s.watchers;
      kicked = late_ids evt m ready s.watchers ++ s.kicked;
    }
  ]
