-- ===== src/Reconciler/Device/Reconcile/Settled.antt =====
-- pkg/reconciler/device/device_reconciler.go: what a reconciliation does to k3s, to a device that is
-- shut down and to an agent that cannot join.
use kubemate.Runner
use kubemate.Controller
use kubemate.Ingress.Watch.{IngressController}
use kubemate.Base.{
  ℕ, String, ◌≡◌, refl, sym, ap, subst, ◌∙◌, inl, inr, false, Option, none, some, [], ◌&&◌, ◌==◌,
  ◌*◌, nat_eq, Bool-cases, Option-cases,
}
use kubemate.Resource.{Resource, Error, Outcome}
use kubemate.Storage.Interface.{StoreOps}
use kubemate.Reconciler.Node.{DeviceMode, agent}
use kubemate.Rest.Tokens.{TokenBody}
use kubemate.Reconciler.Device.{
  DeviceBody, Settings, Library, Ended, fine, ip_address, dns_reconcile,
}
use kubemate.Reconciler.Device.Plan.Incomplete.{IsIncomplete, CannotJoin, plan-IsIncomplete}
use kubemate.Reconciler.Device.Plan.{Plan, ready, incomplete, own_address, plan}
use kubemate.Reconciler.Device.Reconcile.{
  DeviceReconciler, Answers, found, Result, result, panic, second, requeue, deferred, write_status,
  run_k3s, after_advertise, advertise, after_update, apply, set_up, with_dns, with_advert,
  at_address, in_mode, reconcile_fetched, reconcile,
}

-- What runs is as it was, and the reconciliation has returned.
pub record IsKept {S K : Type 0} (k : Runner.Runner) (m n : Controller.Manager)
    (i : IngressController) (o : DeviceReconciler S K × Result) : Type 0 where
  pub k3s : o.0.k3s ≡ k
  pub controllers : o.0.controllers ≡ m
  pub node_controller : o.0.node_controller ≡ n
  pub ingress : o.0.ingress ≡ i
  pub delay : ℕ
  pub err : Option Error
  pub returned : o.1 ≡ result delay err

panic_differs : (n : ℕ) (e : Option Error) → panic ≡ result n e → ⊥
panic_differs n e h = cc

abbrev pub Keeps : {S K : Type 0} → DeviceReconciler S K → DeviceReconciler S K × Result → Type 0
Keeps r o = IsKept r.k3s r.controllers r.node_controller r.ingress o

-- The delay that the plan asks for.
abbrev Delayed : Plan → Result → Type 0
Delayed (ready args) res = Unit
Delayed (incomplete e) res = (err : Option Error) × (res ≡ result (10 * second) err)

module _ {S K : Type 0} (devices : StoreOps S DeviceBody) (tokens : StoreOps K TokenBody)
    (L : Library) (c : Settings) (no_device : Resource DeviceBody)
    (no_token : Resource TokenBody) where
  returned-Keeps : (r : DeviceReconciler S K) (n : ℕ) (e : Option Error) → Keeps r (r, result n e)
  returned-Keeps r n e = record {
    k3s = refl;
    controllers = refl;
    node_controller = refl;
    ingress = refl;
    delay = n;
    err = e;
    returned = refl;
  }

  after_advertise-Keeps :
      (r : DeviceReconciler S K) (q : Answers) (b : DeviceBody) (e : Option Error)
      → Keeps r (after_advertise devices tokens L c no_device no_token r q b [] e)
  unfolding after_advertise run_k3s requeue
  after_advertise-Keeps r q b none = returned-Keeps r 0 none
  after_advertise-Keeps r q b (some e) = returned-Keeps r second (some e)

  advertise-Keeps :
      (r : DeviceReconciler S K) (q : Answers) (d : Resource DeviceBody) (ip : String)
      → Keeps r (advertise devices tokens L c no_device no_token r q d ip [])
  unfolding advertise run_k3s
  advertise-Keeps r q d ip = elim (Bool-cases (nat_eq d.body.generation d.body.status_generation)) [
    | inl e ↦ rw (advertise, e) (after_advertise-Keeps (with_advert r d ip) q d.body q.advertise)
    | inr e ↦ rw (advertise, e) (returned-Keeps r 0 none)
  ]

  after_update-Keeps :
      (r : DeviceReconciler S K) (q : Answers) (ip : String) (o : Outcome S DeviceBody)
      → Keeps r (after_update devices tokens L c no_device no_token r q ip [] o)
  unfolding after_update requeue
  after_update-Keeps r q ip o = elim (Option-cases o.err) [
    | inl e ↦ rw (after_update, e) (advertise-Keeps (record r { devices = o.state }) q o.out ip)
    | inr (f, e) ↦
        rw (after_update, e) (returned-Keeps (record r { devices = o.state }) second (some f))
  ]

  apply-Keeps :
      (r : DeviceReconciler S K) (q : Answers) (d : Resource DeviceBody) (ip e : String)
      → Keeps r (apply devices tokens L c no_device no_token r q d ip (incomplete e))
  unfolding apply
  apply-Keeps r q d ip e =
      elim (Bool-cases (d.body.message == e && d.body.address == own_address c)) [
        | inl f ↦ rw (apply, f) (advertise-Keeps r q d ip)
        | inr f ↦
            rw (apply, f)
              (after_update-Keeps r q ip
                (devices.update r.devices d.name d (write_status e (own_address c))))
      ]

  deferred-Keeps :
      (r : DeviceReconciler S K) (p : Plan) (o : DeviceReconciler S K × Result)
      → Keeps r o
      → Keeps r (deferred p o) × Delayed p (deferred p o).1
  deferred-Keeps r (ready args) o x = (x, tt)
  deferred-Keeps r (incomplete e) (t, result n err) x = (
    record {
      k3s = x.k3s;
      controllers = x.controllers;
      node_controller = x.node_controller;
      ingress = x.ingress;
      delay = 10 * second;
      err = err;
      returned = refl;
    },
    (err, refl),
  )
  deferred-Keeps r (incomplete e) (t, panic) x = absurd (panic_differs x.delay x.err x.returned)

  plan-Keeps :
      (r : DeviceReconciler S K) (q : Answers) (d : Resource DeviceBody) (ip : String) (p : Plan)
      → IsIncomplete p
      → Keeps r (deferred p (apply devices tokens L c no_device no_token r q d ip p))
        × Delayed p (deferred p (apply devices tokens L c no_device no_token r q d ip p)).1
  plan-Keeps r q d ip (ready args) i = elim i [ ]
  plan-Keeps r q d ip (incomplete e) i =
      deferred-Keeps r (incomplete e)
        (apply devices tokens L c no_device no_token r q d ip (incomplete e))
        (apply-Keeps r q d ip e)

  Delayed-returned :
      (p : Plan) (res : Result)
      → IsIncomplete p
      → Delayed p res
      → (err : Option Error) × (res ≡ result (10 * second) err)
  Delayed-returned (ready args) res i x = elim i [ ]
  Delayed-returned (incomplete e) res i x = x

  with_dns_fine :
      (r : DeviceReconciler S K) (q : Answers) (d : Resource DeviceBody) (m : DeviceMode)
      (ip : String) (o : Runner.Runner × Ended)
      → o.1 ≡ fine
      → with_dns devices tokens L c no_device no_token r q d m ip o
        ≡ set_up devices tokens L c no_device no_token (record r { dnsmasq = o.0 }) q d m ip fine
  unfolding with_dns
  with_dns_fine r q d m ip (dnsmasq, e) h = rw h refl

  -- A reconciliation that gets as far as the plan.
  pub reconcile-set_up :
      (r : DeviceReconciler S K) (q : Answers) (d : Resource DeviceBody) (m : DeviceMode)
      (ip : String)
      → q.device ≡ found d
      → d.body.mode ≡ some m
      → ip_address q.interfaces ≡ inr ip
      → (dns_reconcile L r.dnsmasq q.dns (some m)).1 ≡ fine
      → reconcile devices tokens L c no_device no_token r q
        ≡ set_up devices tokens L c no_device no_token
            (record r { dnsmasq = (dns_reconcile L r.dnsmasq q.dns (some m)).0 })
            q
            d
            m
            ip
            fine
  unfolding reconcile reconcile_fetched in_mode at_address
  reconcile-set_up r q d m ip f e a h =
      ap (λ x. reconcile_fetched devices tokens L c no_device no_token r q x) f
      ∙ ap (λ x. in_mode devices tokens L c no_device no_token r q d x) e
      ∙ ap (λ x. at_address devices tokens L c no_device no_token r q d m x) a
      ∙ with_dns_fine r q d m ip (dns_reconcile L r.dnsmasq q.dns (some m)) h

  -- A device that is to join a server, but whose settings do not say which server it joins or by which
  -- token, keeps what it runs, also when it is to be shut down: once the network is up and the DNS
  -- server is settled, k3s, the managers and the ingress controller stay as they were, and the device
  -- is reconciled again after ten seconds.
  pub reconcile_of_incomplete :
      (r : DeviceReconciler S K) (q : Answers) (d : Resource DeviceBody) (ip : String)
      → q.device ≡ found d
      → d.body.mode ≡ some agent
      → ip_address q.interfaces ≡ inr ip
      → (dns_reconcile L r.dnsmasq q.dns (some agent)).1 ≡ fine
      → CannotJoin L d.body
      → Keeps r (reconcile devices tokens L c no_device no_token r q)
        × ((err : Option Error) × ((reconcile devices tokens L c no_device no_token r q).1
              ≡ result (10 * second) err))
  unfolding set_up
  reconcile_of_incomplete r q d ip f e a h j =
      let i = plan-IsIncomplete L tokens c no_token r.tokens d (L.parse_ip ip) j in
      let x =
        plan-Keeps
          (record r {
            dnsmasq = (dns_reconcile L r.dnsmasq q.dns (some agent)).0;
            k3s_proxy_enabled = false;
          })
          q d (L.parse_ip ip) (plan L tokens c no_token r.tokens d agent (L.parse_ip ip)) i in
      subst (λ o. Keeps r o × ((err : Option Error) × (o.1 ≡ result (10 * second) err)))
        (sym (reconcile-set_up r q d agent ip f e a h))
        (x.0, Delayed-returned (plan L tokens c no_token r.tokens d agent (L.parse_ip ip)) _ i x.1)
