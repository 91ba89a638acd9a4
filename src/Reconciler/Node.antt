-- ===== src/Reconciler/Node.antt =====
-- pkg/reconciler/device/node_reconciler.go and pkg/drain/drain.go: the hand-shake over a node's
-- annotations that drains, shuts down and uncordons a node. The server's process and the node's own
-- process run the same reconciler. What is outside the repository (the API server, kubectl's drain,
-- the shutdown command) answers by `Answers`.
pub mod View
pub mod Safety
pub mod Cycle
pub mod Examples
use kubemate.Base.{
  ℕ, suc, ◌+◌, String, ◌≡◌, Bool, true, false, Option, none, some, ◌==◌, ◌&&◌, not, if◌then◌else◌,
}
use kubemate.Base.Dict.{Dict, get, put, remove}
use kubemate.Resource.{Error, message, wrap}

abbrev pub drain_annotation : String
drain_annotation = "kubemate.mgoltzsche.github.com/drain"

abbrev pub shutdown_annotation : String
shutdown_annotation = "kubemate.mgoltzsche.github.com/shutdown"

abbrev pub uncordon_annotation : String
uncordon_annotation = "kubemate.mgoltzsche.github.com/uncordon"

abbrev pub restarted_annotation : String
restarted_annotation = "kubemate.mgoltzsche.github.com/restarted"

abbrev pub terminated_annotation : String
terminated_annotation = "kubemate.mgoltzsche.github.com/terminated"

abbrev pub Annotations : Type 0
Annotations = Dict String

-- a[k], which is empty for a key that is not there.
abbrev pub or_empty : Option String → String
or_empty none = ""
or_empty (some v) = v

unfoldable pub at : Annotations → String → String
at a k = or_empty (get k a)

pub data DeviceMode : Type 0 where
  server agent : DeviceMode

-- The part of a NodeReconciler that it decides by.
pub record NodeReconciler : Type 0 where
  pub device_name : String
  pub mode : DeviceMode
  pub reboot_id : String

-- The node in the API server, how often its pods were evicted, and how often the shutdown command
-- was called.
pub record Node : Type 0 where
  pub name : String
  pub annotations : Annotations
  pub unschedulable : Bool
  pub evictions : ℕ
  pub shutdowns : ℕ

pub data Fetched : Type 0 where
  found missing failed : Fetched

-- How the calls of one reconciliation are answered; `true` is success. `patch` is what the request of
-- a new cordon helper makes of the node's flag.
pub record Answers : Type 0 where
  pub node : Fetched
  pub device : Bool
  pub client : Bool
  pub first_update : Bool
  pub cordon : Bool
  pub patch : Bool → Bool
  pub evict : Bool
  pub last_update : Bool
  pub shutdown : Bool

-- cordonOrUncordon. The code makes the helper without saying what is wanted: `cordon` is not used.
cordon_or_uncordon : Bool → Node → Answers → Node × Option Error
cordon_or_uncordon cordon n e =
    if e.cordon
    then (record n { unschedulable = e.patch n.unschedulable }, none)
    else (n, some (message "patch"))

evict_pods : Node × Option Error → Answers → Node × Option Error
evict_pods (n, some err) e = (n, some (wrap "drain node" err))
evict_pods (n, none) e =
    if e.evict
    then (record n { evictions = n.evictions + 1 }, none)
    else (n, some (message "delete or evict pods on node"))

-- DrainNode
unfoldable pub drain_node : Node → Answers → Node × Option Error
unfolding cordon_or_uncordon evict_pods
drain_node n e = evict_pods (cordon_or_uncordon true n e) e

-- Uncordon
unfoldable pub uncordon : Node → Answers → Node × Option Error
unfolding cordon_or_uncordon
uncordon n e = cordon_or_uncordon false n e

-- r.Client.Update with the annotations `a`.
unfoldable pub update_node : Node → Annotations → Bool → Node × Option Error
update_node n a succeeds =
    if succeeds then (record n { annotations = a }, none) else (n, some (message "update node"))

-- The first and the second set of annotations that the draining server writes.
abbrev pub draining : Annotations → Annotations
draining a = put restarted_annotation "false" (put uncordon_annotation "true" a)

abbrev pub drained : Annotations → Annotations
drained a = put shutdown_annotation "true" (remove drain_annotation a)

finish_drain : Node × Option Error → Answers → Node × Option Error
finish_drain (n, some err) e = (n, some err)
finish_drain (n, none) e = update_node n (drained n.annotations) e.last_update

start_drain : Node × Option Error → Answers → Node × Option Error
unfolding finish_drain
start_drain (n, some err) e = (n, some err)
start_drain (n, none) e = finish_drain (drain_node n e) e

unfoldable pub drain_requested : Node → Answers → Node × Option Error
unfolding start_drain
drain_requested n e =
    if not e.client
    then (n, some (message "new client"))
    else start_drain (update_node n (draining n.annotations) e.first_update) e

finish_uncordon : Node × Option Error → Answers → Node × Option Error
finish_uncordon (n, some err) e = (n, some err)
finish_uncordon (n, none) e = update_node n (remove uncordon_annotation n.annotations) e.last_update

unfoldable pub node_restarted : Node → Answers → Node × Option Error
unfolding finish_uncordon
node_restarted n e =
    if not e.client then (n, some (message "new client")) else finish_uncordon (uncordon n e) e

abbrev pub terminated : NodeReconciler → Annotations → Annotations
terminated r a = put terminated_annotation r.reboot_id (remove shutdown_annotation a)

abbrev pub restarted : Annotations → Annotations
restarted a = put restarted_annotation "true" (remove terminated_annotation a)

call_shutdown : Node × Option Error → Answers → Node × Option Error
call_shutdown (n, some err) e = (n, some err)
call_shutdown (n, none) e = (
  record n { shutdowns = n.shutdowns + 1 },
  if e.shutdown then none else some (message "shutdown"),
)

-- The part of `Reconcile` that acts on the reconciler's own node only.
unfoldable pub reconcile_own : NodeReconciler → Node → Answers → Node × Option Error
unfolding call_shutdown
reconcile_own r n e =
    let a = n.annotations in
    if n.name == r.device_name && not (at a terminated_annotation == r.reboot_id)
    then (if at a shutdown_annotation == "true"
        then call_shutdown (update_node n (terminated r a) e.first_update) e
        else if at a restarted_annotation == "false" && not (at a terminated_annotation == "")
        then update_node n (restarted a) e.first_update
        else (n, none))
    else (n, none)

reconcile_as : DeviceMode → NodeReconciler → Node → Answers → Node × Option Error
reconcile_as agent r n e = reconcile_own r n e
reconcile_as server r n e =
    let a = n.annotations in
    if at a drain_annotation == "true"
    then drain_requested n e
    else if at a uncordon_annotation == "true"
        && at a restarted_annotation == "true"
        && at a terminated_annotation == ""
    then node_restarted n e
    else reconcile_own r n e

reconcile_found : NodeReconciler → Node → Answers → Node × Option Error
unfolding reconcile_as
reconcile_found r n e =
    if e.device then reconcile_as r.mode r n e else (n, some (message "get device"))

unfoldable pub reconcile : NodeReconciler → Node → Answers → Node × Option Error
unfolding reconcile_found
reconcile r n e = elim e.node [
  | found ↦ reconcile_found r n e
  | missing ↦ (n, none)
  | failed ↦ (n, some (message "get node"))
]
