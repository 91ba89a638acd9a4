-- ===== src/Reconciler/Node/View.antt =====
-- The five annotations of pkg/reconciler/device/node_reconciler.go as a record, and what each write
-- of the reconciler does to them.
use kubemate.Base.{String, ◌≡◌, ◌==◌, arith, if◌then◌else◌}
use kubemate.Base.Dict.{put, remove, get-put, get-remove}
use kubemate.Reconciler.Node.{
  Annotations, NodeReconciler, at, draining, drained, terminated, restarted, drain_annotation,
  shutdown_annotation, uncordon_annotation, restarted_annotation, terminated_annotation,
}

pub record View : Type 0 where
  pub drain : String
  pub shutdown : String
  pub uncordon : String
  pub restart : String
  pub termination : String

abbrev pub view : Annotations → View
view a = record {
  drain = at a drain_annotation;
  shutdown = at a shutdown_annotation;
  uncordon = at a uncordon_annotation;
  restart = at a restarted_annotation;
  termination = at a terminated_annotation;
}

pub at-put : (k j v : String) (a : Annotations) → at (put k v a) j ≡ (if k == j then v else at a j)
unfolding at
at-put k j v a = ground (arith, get-put k j v a)

pub at-remove :
    (k j : String) (a : Annotations) → at (remove k a) j ≡ (if k == j then "" else at a j)
unfolding at
at-remove k j a = ground (arith, get-remove k j a)

pub view-draining :
    (a : Annotations) → view (draining a) ≡ record (view a) { uncordon = "true"; restart = "false" }
view-draining a = simp at-put

pub view-drained :
    (a : Annotations) → view (drained a) ≡ record (view a) { drain = ""; shutdown = "true" }
view-drained a = simp (at-put, at-remove)

pub view-uncordoned :
    (a : Annotations) → view (remove uncordon_annotation a) ≡ record (view a) { uncordon = "" }
view-uncordoned a = simp at-remove

pub view-terminated :
    (r : NodeReconciler) (a : Annotations)
    → view (terminated r a) ≡ record (view a) { shutdown = ""; termination = r.reboot_id }
view-terminated r a = simp (at-put, at-remove)

pub view-restarted :
    (a : Annotations) → view (restarted a) ≡ record (view a) { restart = "true"; termination = "" }
view-restarted a = simp (at-put, at-remove)

pub view-requested :
    (a : Annotations) → view (put drain_annotation "true" a) ≡ record (view a) { drain = "true" }
view-requested a = simp at-put
