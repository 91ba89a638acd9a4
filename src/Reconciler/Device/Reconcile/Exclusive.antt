-- ===== src/Reconciler/Device/Reconcile/Exclusive.antt =====
-- pkg/reconciler/device/device_reconciler.go: the controllers of a server and the one of an agent's node
-- do not run at the same time.
use kubemate.Runner
use kubemate.Controller
use kubemate.Ingress.Watch
use kubemate.Base.{
  arith, ℕ, String, ◌≡◌, ◌⊎◌, inl, inr, false, Option, none, some, List, [], ◌∷◌, ◌&&◌, ◌==◌, not,
  nat_eq, Bool-cases, Option-cases,
}
use kubemate.Ingress.Watch.{IngressController}
use kubemate.Controller.{Manager}
use kubemate.Controller.Managed.{
  IsManaged, start-IsManaged, stop-IsManaged, run_controller_manager-IsManaged, stop_loops,
  run_controller_manager_loops,
}
use kubemate.Resource.{Resource, Error, Outcome}
use kubemate.Storage.Interface.{StoreOps}
use kubemate.Reconciler.Node.{DeviceMode}
use kubemate.Rest.Tokens.{TokenBody}
use kubemate.Reconciler.Device.{
  DeviceBody, Settings, Library, Ended, fine, panicked, failed, is_terminating, is_server,
  ip_address, dns_reconcile,
}
use kubemate.Reconciler.Device.Plan.{
  Plan, ready, incomplete, plan, plan_args, status_message, own_address,
}
use kubemate.Reconciler.Device.Reconcile.{
  DeviceReconciler, Answers, Fetched, found, missing, failing, Result, result, panic, deferred,
  switch, after_token, after_start, after_launch, run_k3s, after_advertise, advertise, after_update,
  apply, set_up, with_dns, write_status, with_advert, at_address, in_mode, reconcile_fetched,
  reconcile, report,
}

-- Both managers run their loop once at most; the node's manager, or else the server's manager and the
-- ingress controller, are stopped.
pub record IsExclusive (m n : Manager) (i : IngressController) : Type 0 where
  pub controllers : IsManaged m
  pub node : IsManaged n
  pub one : ((m.loops ≡ 0) × (i.started ≡ false)) ⊎ (n.loops ≡ 0)

-- What happens to the reconciler, in the order in which it happens. The loops of the managers, the
-- goroutine of the ingress controller and the process have steps of their own.
pub data Event : Type 0 where
  reconciles : Answers → Event
  reports : String → String → Event
  attempts node_attempts : Controller.Attempt → Event
  installs : Event
  exits : ℕ → Event

pub stop_ingress : (i : IngressController) → (Watch.stop i).started ≡ false
unfolding Watch.stop
stop_ingress i = ground arith

install_started : (i : IngressController) → (Watch.install i).started ≡ i.started
unfolding Watch.install
install_started i = ground arith

module _ {S K : Type 0} where
  abbrev pub Exclusive : DeviceReconciler S K → Type 0
  Exclusive r = IsExclusive r.controllers r.node_controller r.ingress

  switch-IsExclusive :
      (r : DeviceReconciler S K) (b : DeviceBody) → Exclusive r → Exclusive (switch r b)
  unfolding switch
  switch-IsExclusive r b x = elim (Bool-cases (is_server b.mode && not (is_terminating b))) [
    | inl e ↦
        rw (switch, e)
          (record {
            controllers = start-IsManaged r.controllers x.controllers;
            node = stop-IsManaged r.node_controller x.node;
            one = inr (stop_loops r.node_controller x.node);
          })
    | inr e ↦ elim (Bool-cases (is_terminating b)) [
      | inl t ↦
          rw (switch, e, t)
            (record {
              controllers = stop-IsManaged r.controllers x.controllers;
              node = stop-IsManaged r.node_controller x.node;
              one = inl (stop_loops r.controllers x.controllers, stop_ingress r.ingress);
            })
      | inr t ↦
          rw (switch, e, t)
            (record {
              controllers = stop-IsManaged r.controllers x.controllers;
              node = start-IsManaged r.node_controller x.node;
              one = inl (stop_loops r.controllers x.controllers, stop_ingress r.ingress);
            })
    ]
  ]

module _ {S K : Type 0} (devices : StoreOps S DeviceBody) (tokens : StoreOps K TokenBody)
    (L : Library) (c : Settings) (no_device : Resource DeviceBody)
    (no_token : Resource TokenBody) where
  after_token-IsExclusive :
      (r : DeviceReconciler S K) (b : DeviceBody) (o : K × Option Error)
      → Exclusive r
      → Exclusive (after_token devices tokens L c no_device no_token r b o).0
  unfolding after_token
  after_token-IsExclusive r b (k, some e) x = x
  after_token-IsExclusive r b (k, none) x = switch-IsExclusive (record r { tokens = k }) b x

  after_start-IsExclusive :
      (r : DeviceReconciler S K) (q : Answers) (b : DeviceBody) (k3s : Runner.Runner)
      → Exclusive r
      → Exclusive (after_start devices tokens L c no_device no_token (record r { k3s = k3s }) q b).0
  unfolding after_start
  after_start-IsExclusive r q b k3s x = elim (Bool-cases (is_server b.mode)) [
    | inl e ↦ rw (after_start, e) (after_token-IsExclusive (record r { k3s = k3s }) b _ x)
    | inr e ↦ rw (after_start, e) (switch-IsExclusive (record r { k3s = k3s }) b x)
  ]

  after_launch-IsExclusive :
      (r : DeviceReconciler S K) (q : Answers) (b : DeviceBody) (o : Runner.Runner × Runner.Started)
      → Exclusive r
      → Exclusive (after_launch devices tokens L c no_device no_token r q b o).0
  unfolding after_launch
  after_launch-IsExclusive r q b (k3s, Runner.panicked) x = x
  after_launch-IsExclusive r q b (k3s, Runner.started) x = after_start-IsExclusive r q b k3s x
  after_launch-IsExclusive r q b (k3s, Runner.unchanged) x = after_start-IsExclusive r q b k3s x
  after_launch-IsExclusive r q b (k3s, Runner.cooling n) x = after_start-IsExclusive r q b k3s x

  run_k3s-IsExclusive :
      (r : DeviceReconciler S K) (q : Answers) (b : DeviceBody) (args : List String)
      → Exclusive r
      → Exclusive (run_k3s devices tokens L c no_device no_token r q b args).0
  unfolding run_k3s
  run_k3s-IsExclusive r q b [] x = x
  run_k3s-IsExclusive r q b (a ∷ args) x = elim (Bool-cases (is_terminating b)) [
    | inl e ↦ rw (run_k3s, e) (switch-IsExclusive (record r { k3s = Runner.stop r.k3s }) b x)
    | inr e ↦ rw (run_k3s, e) (after_launch-IsExclusive r q b _ x)
  ]

  after_advertise-IsExclusive :
      (r : DeviceReconciler S K) (q : Answers) (b : DeviceBody) (args : List String)
      (e : Option Error)
      → Exclusive r
      → Exclusive (after_advertise devices tokens L c no_device no_token r q b args e).0
  unfolding after_advertise
  after_advertise-IsExclusive r q b args (some e) x = x
  after_advertise-IsExclusive r q b args none x = run_k3s-IsExclusive r q b args x

  advertise-IsExclusive :
      (r : DeviceReconciler S K) (q : Answers) (d : Resource DeviceBody) (ip : String)
      (args : List String)
      → Exclusive r
      → Exclusive (advertise devices tokens L c no_device no_token r q d ip args).0
  unfolding advertise
  advertise-IsExclusive r q d ip args x =
      elim (Bool-cases (nat_eq d.body.generation d.body.status_generation)) [
        | inl e ↦
            rw (advertise, e)
              (after_advertise-IsExclusive (with_advert r d ip) q d.body args q.advertise x)
        | inr e ↦ rw (advertise, e) (run_k3s-IsExclusive r q d.body args x)
      ]

  after_update-IsExclusive :
      (r : DeviceReconciler S K) (q : Answers) (ip : String) (args : List String)
      (o : Outcome S DeviceBody)
      → Exclusive r
      → Exclusive (after_update devices tokens L c no_device no_token r q ip args o).0
  unfolding after_update
  after_update-IsExclusive r q ip args o x = elim (Option-cases o.err) [
    | inl e ↦
        rw (after_update, e)
          (advertise-IsExclusive (record r { devices = o.state }) q o.out ip args x)
    | inr (f, e) ↦ rw (after_update, e) x
  ]

  apply-IsExclusive :
      (r : DeviceReconciler S K) (q : Answers) (d : Resource DeviceBody) (ip : String) (p : Plan)
      → Exclusive r
      → Exclusive (apply devices tokens L c no_device no_token r q d ip p).0
  unfolding apply
  apply-IsExclusive r q d ip p x =
      elim (Bool-cases (d.body.message == status_message p && d.body.address == own_address c)) [
        | inl e ↦ rw (apply, e) (advertise-IsExclusive r q d ip (plan_args p) x)
        | inr e ↦
            rw (apply, e)
              (after_update-IsExclusive r q ip (plan_args p)
                (devices.update r.devices d.name d
                  (write_status (status_message p) (own_address c)))
                x)
      ]

  deferred-IsExclusive :
      (p : Plan) (o : DeviceReconciler S K × Result) → Exclusive o.0 → Exclusive (deferred p o).0
  deferred-IsExclusive (ready args) o x = x
  deferred-IsExclusive (incomplete e) (r, result n err) x = x
  deferred-IsExclusive (incomplete e) (r, panic) x = x

  set_up-IsExclusive :
      (r : DeviceReconciler S K) (q : Answers) (d : Resource DeviceBody) (m : DeviceMode)
      (ip : String) (e : Ended)
      → Exclusive r
      → Exclusive (set_up devices tokens L c no_device no_token r q d m ip e).0
  unfolding set_up
  set_up-IsExclusive r q d m ip panicked x = x
  set_up-IsExclusive r q d m ip (failed e) x = x
  set_up-IsExclusive r q d m ip fine x =
      deferred-IsExclusive (plan L tokens c no_token r.tokens d m (L.parse_ip ip)) _ (
        apply-IsExclusive _ q d (L.parse_ip ip)
          (plan L tokens c no_token r.tokens d m (L.parse_ip ip)) x)

  with_dns-IsExclusive :
      (r : DeviceReconciler S K) (q : Answers) (d : Resource DeviceBody) (m : DeviceMode)
      (ip : String) (o : Runner.Runner × Ended)
      → Exclusive r
      → Exclusive (with_dns devices tokens L c no_device no_token r q d m ip o).0
  unfolding with_dns
  with_dns-IsExclusive r q d m ip (dnsmasq, e) x =
      set_up-IsExclusive (record r { dnsmasq = dnsmasq }) q d m ip e x

  at_address-IsExclusive :
      (r : DeviceReconciler S K) (q : Answers) (d : Resource DeviceBody) (m : DeviceMode)
      (a : Error ⊎ String)
      → Exclusive r
      → Exclusive (at_address devices tokens L c no_device no_token r q d m a).0
  unfolding at_address
  at_address-IsExclusive r q d m (inl e) x = x
  at_address-IsExclusive r q d m (inr ip) x =
      with_dns-IsExclusive r q d m ip (dns_reconcile L r.dnsmasq q.dns (some m)) x

  in_mode-IsExclusive :
      (r : DeviceReconciler S K) (q : Answers) (d : Resource DeviceBody) (m : Option DeviceMode)
      → Exclusive r
      → Exclusive (in_mode devices tokens L c no_device no_token r q d m).0
  unfolding in_mode
  in_mode-IsExclusive r q d none x = x
  in_mode-IsExclusive r q d (some m) x = at_address-IsExclusive r q d m (ip_address q.interfaces) x

  reconcile_fetched-IsExclusive :
      (r : DeviceReconciler S K) (q : Answers) (f : Fetched)
      → Exclusive r
      → Exclusive (reconcile_fetched devices tokens L c no_device no_token r q f).0
  unfolding reconcile_fetched
  reconcile_fetched-IsExclusive r q missing x = x
  reconcile_fetched-IsExclusive r q (failing e) x = x
  reconcile_fetched-IsExclusive r q (found d) x = in_mode-IsExclusive r q d d.body.mode x

  reconcile-IsExclusive :
      (r : DeviceReconciler S K) (q : Answers)
      → Exclusive r
      → Exclusive (reconcile devices tokens L c no_device no_token r q).0
  unfolding reconcile
  reconcile-IsExclusive r q x = reconcile_fetched-IsExclusive r q q.device x

  abbrev pub step : DeviceReconciler S K → Event → DeviceReconciler S K
  step r (reconciles q) = (reconcile devices tokens L c no_device no_token r q).0
  step r (reports state msg) = report devices tokens L c no_device no_token r state msg
  step r (attempts a) = record r { controllers = Controller.run_controller_manager r.controllers a }
  step r (node_attempts a) = record r {
    node_controller = Controller.run_controller_manager r.node_controller a;
  }
  step r installs = record r { ingress = Watch.install r.ingress }
  step r (exits n) = record r { k3s = Runner.exit r.k3s n }

  abbrev pub run : DeviceReconciler S K → List Event → DeviceReconciler S K
  run r [] = r
  run r (e ∷ es) = run (step r e) es

  step-IsExclusive : (r : DeviceReconciler S K) (e : Event) → Exclusive r → Exclusive (step r e)
  unfolding report
  step-IsExclusive r (reconciles q) x = reconcile-IsExclusive r q x
  step-IsExclusive r (reports state msg) x = x
  step-IsExclusive r (attempts a) x = record {
    controllers = run_controller_manager-IsManaged r.controllers a x.controllers;
    node = x.node;
    one = rw (run_controller_manager_loops r.controllers a) x.one;
  }
  step-IsExclusive r (node_attempts a) x = record {
    controllers = x.controllers;
    node = run_controller_manager-IsManaged r.node_controller a x.node;
    one = rw (run_controller_manager_loops r.node_controller a) x.one;
  }
  step-IsExclusive r installs x = record {
    controllers = x.controllers;
    node = x.node;
    one = rw (install_started r.ingress) x.one;
  }
  step-IsExclusive r (exits n) x = x

  -- However reconciliations with any answers, reports of k3s, exits of its processes, attempts of the
  -- managers' loops and installations of the ingress router follow one another: each of both managers
  -- runs its loop once at most, and while the node's manager runs, the server's manager does not run
  -- and the ingress controller is stopped, if this is so at first.
  pub run-IsExclusive :
      (r : DeviceReconciler S K) (es : List Event) → Exclusive r → Exclusive (run r es)
  run-IsExclusive r [] x = x
  run-IsExclusive r (e ∷ es) x = run-IsExclusive (step r e) es (step-IsExclusive r e x)
