-- ===== src/Ingress/Watch.antt =====
-- pkg/ingress/ingress.go: the start and the stop of the watch of the cluster's ingresses. Its goroutine
-- puts the router of the cluster's routes in place once the caches are there, which is a step of its own
-- and takes no lock.
use kubemate.Base.{ℕ, zero, suc, Bool, true, false, if◌then◌else◌}

-- `loading` counts the goroutines that have a router under way; `routes` says whether the router in place
-- is one of theirs.
pub record IngressController : Type 0 where
  pub started : Bool
  pub loading : ℕ
  pub routes : Bool

abbrev pub new_ingress_controller : IngressController
new_ingress_controller = record { started = false; loading = 0; routes = false }

unfoldable pub start : IngressController → IngressController
start s = if s.started then s else record s { started = true; loading = suc s.loading }

-- The end of one `start` of the goroutine: `s.router = r`.
unfoldable pub install : IngressController → IngressController
install s = elim s.loading [ zero ↦ s | suc n ↦ record s { loading = n; routes = true } ]

unfoldable pub stop : IngressController → IngressController
stop s = if s.started then record s { started = false; routes = false } else s
