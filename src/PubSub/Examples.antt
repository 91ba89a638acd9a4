-- ===== src/PubSub/Examples.antt =====
-- Tests of pkg/pubsub/pubsub.go, and concrete cases of what its subscribers see.
use kubemate.Base.{
  String, ◌≡◌, refl, Bool, true, Option, none, some, List, [], ◌∷◌, ◌==◌, if◌then◌else◌, ℕ, arith,
}
use kubemate.PubSub.{
  late_ids, serve, send_event, receive_at, PubSub, Event, Selector, ObjectMeta, Watcher, added,
  error, new, subscribe, receive, publish, matches, is_subscribed,
}
use kubemate.PubSub.Delivery.{run-Sent, Sent, Op, publishes, receives, published, find, run}

-- Objects are their names; the empty name is an object without metadata.
abbrev names : String → Option ObjectMeta
names o = if o == "" then none else some (record { name = o; namespace = "default" })

abbrev one_type : String → String
one_type o = "Device"

abbrev only_a : Selector
only_a = record { type = some "Device"; namespace = ""; name = "a" }

abbrev event : String → Event String
event o = record { type = added; object = o }

abbrev in_time : ℕ → Bool
in_time k = true

abbrev bus : PubSub String
bus = subscribe new only_a

abbrev watcher : Watcher String
watcher = record { id = 1; filter = only_a; ch = some []; received = [] }

abbrev history : List (Op String)
history =
    publishes (event "a") in_time
    ∷ publishes (event "b") in_time
    ∷ receives 1
    ∷ publishes (record { type = error; object = "b" }) in_time
    ∷ []

published_test :
    published names one_type only_a history ≡ event "a" ∷ record { type = error; object = "b" } ∷ []
unfolding matches is_subscribed
published_test = refl

run-Sent_example :
    Sent
      (published names one_type only_a history)
      watcher
      (find 1 (run names one_type bus history).watchers)
unfolding subscribe new publish receive late_ids serve is_subscribed send_event receive_at
run-Sent_example =
    run-Sent names one_type bus history 1 watcher (omega arith) (omega arith) refl
      (tt, (tt, (tt, (tt, tt)))) refl
