-- ===== src/Reconciler/Node/Examples.antt =====
-- Concrete cases of the hand-shake of pkg/reconciler/device/node_reconciler.go: a device `d` whose
-- process has the reboot ID `1` before its restart and `2` after it.
use kubemate.Base.{arith, ◌+◌, ◌≤◌, refl, inl, inr, false, [], ◌∷◌}
use kubemate.Base.Dict.{get, put}
use kubemate.Reconciler.Node.{Node, NodeReconciler, server, agent, at, reconcile, drain_annotation}
use kubemate.Reconciler.Node.Safety.{
  IsSafe, here, next, reconciles, requests, Reach-IsSafe, run, run_shutdowns,
}
use kubemate.Reconciler.Node.Cycle.{success}

abbrev fresh : Node
fresh = record { name = "d"; annotations = []; unschedulable = false; evictions = 0; shutdowns = 0 }

abbrev asked : Node
asked = record {
  name = "d";
  annotations = (drain_annotation, "true") ∷ [];
  unschedulable = false;
  evictions = 0;
  shutdowns = 0;
}

abbrev master : NodeReconciler
master = record { device_name = "m"; mode = server; reboot_id = "9" }

abbrev before : NodeReconciler
before = record { device_name = "d"; mode = agent; reboot_id = "1" }

abbrev after : NodeReconciler
after = record { device_name = "d"; mode = agent; reboot_id = "2" }

fresh-IsSafe : IsSafe fresh
unfolding at get
fresh-IsSafe = inl (refl, omega arith)

abbrev told : Node
told =
    (reconcile master (record fresh { annotations = put drain_annotation "true" fresh.annotations })
      (success (λ u. u))).0

Reach-IsSafe_example : IsSafe told
Reach-IsSafe_example = Reach-IsSafe fresh-IsSafe (
    next (next here (requests fresh)) (
      reconciles master
        (record fresh { annotations = put drain_annotation "true" fresh.annotations })
        (success (λ u. u))))

run_shutdowns_example :
    (run asked (
      (master, success (λ u. u))
      ∷ (before, success (λ u. u))
      ∷ (before, success (λ u. u))
      ∷ [])).shutdowns
    ≤ 0 + 1
run_shutdowns_example =
    run_shutdowns "1" asked
      ((master, success (λ u. u)) ∷ (before, success (λ u. u)) ∷ (before, success (λ u. u)) ∷ [])
      (inl refl, (inr refl, (inr refl, tt)))
