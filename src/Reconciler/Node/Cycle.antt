-- ===== src/Reconciler/Node/Cycle.antt =====
-- The hand-shake of pkg/reconciler/device/node_reconciler.go from the request to the end.
use kubemate.Base.{Bool, true}
use kubemate.Base.Dict.{remove}
use kubemate.Reconciler.Node.View.{View}
use kubemate.Reconciler.Node.{
  Annotations, Node, NodeReconciler, Answers, found, draining, drained, terminated, restarted,
  uncordon_annotation,
}

-- Every call succeeds, and the request of a cordon helper makes `p` of the node's flag.
abbrev pub success : (Bool → Bool) → Answers
success p = record {
  node = found;
  device = true;
  client = true;
  first_update = true;
  cordon = true;
  patch = p;
  evict = true;
  last_update = true;
  shutdown = true;
}

module _ (master before after : NodeReconciler) (n : Node) where
  a1 : Annotations
  a1 = drained (draining n.annotations)

  a2 : Annotations
  a2 = terminated before a1

  a3 : Annotations
  a3 = restarted a2

  a4 : Annotations
  a4 = remove uncordon_annotation a3
