-- ===== src/Reconciler/Node/Safety.antt =====
-- What holds of a node in every interleaving of reconciliations, requests and restarts of the
-- hand-shake in pkg/reconciler/device/node_reconciler.go, whatever calls fail.
use kubemate.Base.{
  ap, refl, inl, inr, ◌+◌, ◌≤◌, List, [], ◌∷◌, All, ◌≤◌, All, List, String, ℕ, ◌≡◌, ◌⊎◌, false,
  ◌==◌, eq_iff, arith,
}
use kubemate.Reconciler.Node.View.{
  View, View, view-requested, view-draining, view-drained, view-uncordoned, view-terminated,
  view-restarted,
}
use kubemate.Reconciler.Node.{
  terminated, Annotations, uncordon_annotation, agent, server, drain_annotation,
  terminated_annotation, put, DeviceMode, reconcile_found, reconcile, reconcile_as, Node,
  NodeReconciler, Answers, at, drain_node, uncordon, update_node, drain_requested, node_restarted,
  reconcile_own, draining, shutdown_annotation, restarted_annotation,
}

-- An order to shut down stands for an eviction that no shutdown has followed yet, and it comes with
-- the marks by which the node is uncordoned after its restart.
abbrev pub IsSafe : Node → Type 0
IsSafe n =
    (((at n.annotations shutdown_annotation == "true") ≡ false) × (n.shutdowns ≤ n.evictions))
    ⊎ ((at n.annotations restarted_annotation ≡ "false")
        × (at n.annotations uncordon_annotation ≡ "true")
        × (n.shutdowns + 1 ≤ n.evictions))

drain_requested-IsSafe : (n : Node) (e : Answers) → IsSafe n → IsSafe (drain_requested n e).0
unfolding drain_requested drain_node update_node
drain_requested-IsSafe n e s =
    ground (arith, view-draining n.annotations, view-drained (draining n.annotations))

node_restarted-IsSafe :
    (n : Node) (e : Answers)
    → at n.annotations restarted_annotation ≡ "true"
    → IsSafe n
    → IsSafe (node_restarted n e).0
unfolding node_restarted uncordon update_node
node_restarted-IsSafe n e done s =
    ground (arith, view-uncordoned n.annotations, eq_iff "true" "false")

order_cleared :
    (r : NodeReconciler) (a : Annotations)
    → (at (terminated r a) shutdown_annotation == "true") ≡ false
order_cleared r a = rw (ap (λ (v : View). v.shutdown) (view-terminated r a)) refl

reconcile_own-IsSafe :
    (r : NodeReconciler) (n : Node) (e : Answers) → IsSafe n → IsSafe (reconcile_own r n e).0
unfolding reconcile_own update_node
reconcile_own-IsSafe r n e (inl (a, b)) =
    ground (arith, view-terminated r n.annotations, view-restarted n.annotations)
reconcile_own-IsSafe r n e (inr (a, b, c)) = ground (
  arith,
  order_cleared r n.annotations,
  view-terminated r n.annotations,
  view-restarted n.annotations,
)

reconcile_as-IsSafe :
    (m : DeviceMode) (r : NodeReconciler) (n : Node) (e : Answers)
    → IsSafe n
    → IsSafe (reconcile_as m r n e).0
unfolding reconcile_as
reconcile_as-IsSafe agent r n e s = reconcile_own-IsSafe r n e s
reconcile_as-IsSafe server r n e s = ground (
  arith,
  drain_requested-IsSafe n e s,
  λ (h : at n.annotations restarted_annotation ≡ "true"). node_restarted-IsSafe n e h s,
  eq_iff (at n.annotations restarted_annotation) "true",
  reconcile_own-IsSafe r n e s,
)

reconcile-IsSafe :
    (r : NodeReconciler) (n : Node) (e : Answers) → IsSafe n → IsSafe (reconcile r n e).0
unfolding reconcile reconcile_found
reconcile-IsSafe r n e s = ground (arith, reconcile_as-IsSafe r.mode r n e s)

-- Any process reconciles the node, with any answers, or a drain is requested. A restart of a process
-- shows in the reconciler of the next step.
pub data Step : Node → Node → Type 0 where
  reconciles : (r : NodeReconciler) (n : Node) (e : Answers) → Step n (reconcile r n e).0
  requests :
      (n : Node) → Step n (record n { annotations = put drain_annotation "true" n.annotations })

pub data Reach (n : Node) : Node → Type 0 where
  here : Reach n n
  next : {m k : Node} → Reach n m → Step m k → Reach n k

Step-IsSafe : {n m : Node} → Step n m → IsSafe n → IsSafe m
Step-IsSafe (reconciles r n e) s = reconcile-IsSafe r n e s
Step-IsSafe (requests n) s = ground (arith, view-requested n.annotations)

-- However reconciliations of any processes, failing calls and requests follow one another: a node that
-- carries the order to shut down is marked as not restarted and as to be uncordoned, and its pods were
-- evicted more often than the shutdown command was called; without the order at least as often.
pub Reach-IsSafe : {n m : Node} → IsSafe n → Reach n m → IsSafe m
Reach-IsSafe s here = s
Reach-IsSafe s (next r st) = Step-IsSafe st (Reach-IsSafe s r)

-- The reconciliations of a run, in order.
unfoldable pub run : Node → List (NodeReconciler × Answers) → Node
run n [] = n
run n ((r, e) ∷ rs) = run (reconcile r n e).0 rs

-- A reconciler of another device, or of the process with this reboot ID.
abbrev pub OneProcess : String → String → NodeReconciler × Answers → Type 0
OneProcess name id (r, e) = ((name == r.device_name) ≡ false) ⊎ (r.reboot_id ≡ id)

-- The process has not called the shutdown command `k` times over, or has marked that it did.
abbrev Once : ℕ → String → Node → Type 0
Once k id n =
    (n.shutdowns ≡ k) ⊎ ((n.shutdowns ≡ k + 1) × (at n.annotations terminated_annotation ≡ id))

drain_requested-Once :
    (k : ℕ) (id : String) (n : Node) (e : Answers)
    → Once k id n
    → Once k id (drain_requested n e).0 × ((drain_requested n e).0.name ≡ n.name)
unfolding drain_requested drain_node update_node
drain_requested-Once k id n e s =
    ground (arith, view-draining n.annotations, view-drained (draining n.annotations))

node_restarted-Once :
    (k : ℕ) (id : String) (n : Node) (e : Answers)
    → Once k id n
    → Once k id (node_restarted n e).0 × ((node_restarted n e).0.name ≡ n.name)
unfolding node_restarted uncordon update_node
node_restarted-Once k id n e s = ground (arith, view-uncordoned n.annotations)

reconcile_own-Once :
    (k : ℕ) (id : String) (r : NodeReconciler) (n : Node) (e : Answers)
    → OneProcess n.name id (r, e)
    → Once k id n
    → Once k id (reconcile_own r n e).0 × ((reconcile_own r n e).0.name ≡ n.name)
unfolding reconcile_own update_node
reconcile_own-Once k id r n e one s = ground (
  arith,
  view-terminated r n.annotations,
  view-restarted n.annotations,
  eq_iff (at n.annotations terminated_annotation) r.reboot_id,
)

reconcile-Once :
    (k : ℕ) (id : String) (r : NodeReconciler) (n : Node) (e : Answers)
    → OneProcess n.name id (r, e)
    → Once k id n
    → Once k id (reconcile r n e).0 × ((reconcile r n e).0.name ≡ n.name)
unfolding reconcile reconcile_found reconcile_as
reconcile-Once k id r n e one s = ground (
  arith,
  drain_requested-Once k id n e s,
  node_restarted-Once k id n e s,
  reconcile_own-Once k id r n e one s,
)

run-Once :
    (k : ℕ) (id : String) (n : Node) (rs : List (NodeReconciler × Answers))
    → All (OneProcess n.name id) rs
    → Once k id n
    → Once k id (run n rs)
unfolding run
run-Once k id n [] all s = s
run-Once k id n ((r, e) ∷ rs) all s =
    let (s', same) = reconcile-Once k id r n e all.0 s in
    run-Once k id (reconcile r n e).0 rs (rw same all.1) s'

-- A process calls the shutdown command at most once: in any run in which all reconciliations of the
-- node's own device are made under one reboot ID, the command is called at most once.
pub run_shutdowns :
    (id : String) (n : Node) (rs : List (NodeReconciler × Answers))
    → All (OneProcess n.name id) rs
    → (run n rs).shutdowns ≤ n.shutdowns + 1
run_shutdowns id n rs all = omega (arith, run-Once n.shutdowns id n rs all (inl refl))
