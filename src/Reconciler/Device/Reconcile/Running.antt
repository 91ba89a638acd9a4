-- ===== src/Reconciler/Device/Reconcile/Running.antt =====
-- pkg/reconciler/device/device_reconciler.go: a device whose status is up to date is shut down, or k3s is
-- started.
use kubemate.Runner
use kubemate.Base.{
  ◌<◌, ◌+◌, ℕ, String, ◌≡◌, refl, sym, ap, subst, ◌∙◌, inl, inr, true, false, none, some, List, [],
  ◌∷◌, ◌&&◌, ◌==◌, nat_eq, Bool-cases, arith, eq_refl,
}
use kubemate.Controller.Managed.{stop_loops}
use kubemate.Runner.Single.{IsSingle, stop_alone, start_of_early}
use kubemate.Resource.{Resource}
use kubemate.Storage.Interface.{StoreOps}
use kubemate.Reconciler.Node.{DeviceMode, agent}
use kubemate.Rest.Tokens.{TokenBody}
use kubemate.Reconciler.Device.{
  DeviceBody, Settings, Library, fine, is_terminating, is_server, ip_address, dns_reconcile,
}
use kubemate.Reconciler.Device.Plan.{ready, own_address, plan}
use kubemate.Reconciler.Device.Reconcile.{
  DeviceReconciler, Answers, found, done, deferred, switch, k3s_command, with_advert, after_start,
  after_launch, run_k3s, after_advertise, advertise, apply, set_up, reconcile,
}
use kubemate.Reconciler.Device.Reconcile.Exclusive.{Exclusive, stop_ingress}
use kubemate.Reconciler.Device.Reconcile.Settled.{reconcile-set_up}

-- Neither k3s nor a manager nor the ingress controller runs.
pub record IsStopped {S K : Type 0} (r : DeviceReconciler S K) : Type 0 where
  pub k3s : r.k3s.alive ≡ []
  pub controllers : r.controllers.loops ≡ 0
  pub node_controller : r.node_controller.loops ≡ 0
  pub ingress : r.ingress.started ≡ false

-- The same runs in both.
pub record IsSame {S K : Type 0} (r t : DeviceReconciler S K) : Type 0 where
  pub k3s : t.k3s ≡ r.k3s
  pub controllers : t.controllers ≡ r.controllers
  pub node_controller : t.node_controller ≡ r.node_controller
  pub ingress : t.ingress ≡ r.ingress

module _ {S K : Type 0} where
  switch-IsStopped :
      (r : DeviceReconciler S K) (b : DeviceBody)
      → is_terminating b ≡ true
      → r.k3s.alive ≡ []
      → Exclusive r
      → IsStopped (switch r b)
  unfolding switch
  switch-IsStopped r b e a x = elim (Bool-cases (is_server b.mode)) [
    | inl s ↦
        rw (switch, e, s)
          (record {
            k3s = a;
            controllers = stop_loops r.controllers x.controllers;
            node_controller = stop_loops r.node_controller x.node;
            ingress = stop_ingress r.ingress;
          })
    | inr s ↦
        rw (switch, e, s)
          (record {
            k3s = a;
            controllers = stop_loops r.controllers x.controllers;
            node_controller = stop_loops r.node_controller x.node;
            ingress = stop_ingress r.ingress;
          })
  ]

-- What a reconciliation meets where nothing is left to write: the device and its mode, an address, the
-- DNS server, the arguments of k3s, a status that is up to date, and the advertisement.
pub record IsSettled {S K : Type 0} (tokens : StoreOps K TokenBody) (L : Library) (c : Settings)
    (no_token : Resource TokenBody) (r : DeviceReconciler S K) (q : Answers)
    (d : Resource DeviceBody) (m : DeviceMode) (ip a : String) (args : List String) : Type 0 where
  pub device : q.device ≡ found d
  pub mode : d.body.mode ≡ some m
  pub address : ip_address q.interfaces ≡ inr ip
  pub dns : (dns_reconcile L r.dnsmasq q.dns (some m)).1 ≡ fine
  pub plans : plan L tokens c no_token r.tokens d m (L.parse_ip ip) ≡ ready (a ∷ args)
  pub no_message : d.body.message ≡ ""
  pub own : d.body.address ≡ own_address c
  pub advertised : q.advertise ≡ none

module _ {S K : Type 0} (devices : StoreOps S DeviceBody) (tokens : StoreOps K TokenBody)
    (L : Library) (c : Settings) (no_device : Resource DeviceBody)
    (no_token : Resource TokenBody) where
  apply_of_current :
      (r : DeviceReconciler S K) (q : Answers) (d : Resource DeviceBody) (ip : String)
      (args : List String)
      → d.body.message ≡ ""
      → d.body.address ≡ own_address c
      → apply devices tokens L c no_device no_token r q d ip (ready args)
        ≡ advertise devices tokens L c no_device no_token r q d ip args
  unfolding apply
  apply_of_current r q d ip args e f =
      let same : (d.body.message == "" && d.body.address == own_address c) ≡ true =
        rw (e, f, eq_refl (own_address c)) refl in
      rw (apply, same) refl

  -- A reconciliation of a settled device goes on to k3s.
  advertise-run_k3s :
      (r : DeviceReconciler S K) (q : Answers) (d : Resource DeviceBody) (ip : String)
      (args : List String)
      → q.advertise ≡ none
      → (t : DeviceReconciler S K) × (IsSame r t
          × (advertise devices tokens L c no_device no_token r q d ip args
              ≡ run_k3s devices tokens L c no_device no_token t q d.body args))
  unfolding advertise after_advertise
  advertise-run_k3s r q d ip args h =
      elim (Bool-cases (nat_eq d.body.generation d.body.status_generation)) [
        | inl e ↦ (
          with_advert r d ip,
          (
            record { k3s = refl; controllers = refl; node_controller = refl; ingress = refl },
            rw (advertise, e)
                (ap
                  (λ x.
                    after_advertise devices tokens L c no_device no_token (with_advert r d ip) q
                      d.body args x)
                  h),
          ),
        )
        | inr e ↦ (
          r,
          (
            record { k3s = refl; controllers = refl; node_controller = refl; ingress = refl },
            rw (advertise, e) refl,
          ),
        )
      ]

  reconcile-run_k3s :
      (r : DeviceReconciler S K) (q : Answers) (d : Resource DeviceBody) (m : DeviceMode)
      (ip a : String) (args : List String)
      → IsSettled tokens L c no_token r q d m ip a args
      → (t : DeviceReconciler S K) × (IsSame r t
          × (reconcile devices tokens L c no_device no_token r q
              ≡ run_k3s devices tokens L c no_device no_token t q d.body (a ∷ args)))
  unfolding set_up
  reconcile-run_k3s r q d m ip a args s =
      let t : DeviceReconciler S K = record r {
        dnsmasq = (dns_reconcile L r.dnsmasq q.dns (some m)).0;
        k3s_proxy_enabled = is_server (some m);
      } in
      let (u, (x, e)) = advertise-run_k3s t q d (L.parse_ip ip) (a ∷ args) s.advertised in
      (
        u,
        (
          record {
            k3s = x.k3s;
            controllers = x.controllers;
            node_controller = x.node_controller;
            ingress = x.ingress;
          },
          reconcile-set_up devices tokens L c no_device no_token r q d m ip s.device s.mode
                s.address s.dns
              ∙ ap
                  (λ p.
                    deferred p
                      (apply devices tokens L c no_device no_token t q d (L.parse_ip ip) p))
                  s.plans
              ∙ apply_of_current t q d (L.parse_ip ip) (a ∷ args) s.no_message s.own
              ∙ e,
        ),
      )

  run_k3s-IsStopped :
      (r : DeviceReconciler S K) (q : Answers) (b : DeviceBody) (a : String) (args : List String)
      → is_terminating b ≡ true
      → IsSingle r.k3s
      → Exclusive r
      → IsStopped (run_k3s devices tokens L c no_device no_token r q b (a ∷ args)).0
        × ((run_k3s devices tokens L c no_device no_token r q b (a ∷ args)).1 ≡ done)
  unfolding run_k3s
  run_k3s-IsStopped r q b a args e i x =
      rw (run_k3s, e)
        (switch-IsStopped (record r { k3s = Runner.stop r.k3s }) b e (stop_alone r.k3s i) x, refl)

  same-Exclusive : (r t : DeviceReconciler S K) → IsSame r t → Exclusive r → Exclusive t
  same-Exclusive r t s x = rw (s.controllers, s.node_controller, s.ingress) x

  -- A device that is to be shut down, if it is settled, which takes arguments of k3s, stops k3s, both
  -- managers and the ingress controller: no process of k3s is left, the managers run no loop, the
  -- ingress controller is stopped, and no other reconciliation is asked for (from a state with one
  -- process of k3s at most, which the runner holds, and without both managers at once). The DNS server
  -- is not among them.
  pub reconcile-IsStopped :
      (r : DeviceReconciler S K) (q : Answers) (d : Resource DeviceBody) (m : DeviceMode)
      (ip a : String) (args : List String)
      → IsSettled tokens L c no_token r q d m ip a args
      → is_terminating d.body ≡ true
      → IsSingle r.k3s
      → Exclusive r
      → IsStopped (reconcile devices tokens L c no_device no_token r q).0
        × ((reconcile devices tokens L c no_device no_token r q).1 ≡ done)
  reconcile-IsStopped r q d m ip a args s e i x =
      let (t, (y, f)) = reconcile-run_k3s r q d m ip a args s in
      subst (λ o. IsStopped o.0 × (o.1 ≡ done)) (sym f)
        (run_k3s-IsStopped t q d.body a args e (subst IsSingle (sym y.k3s) i)
          (same-Exclusive r t y x))

  switch_k3s : (r : DeviceReconciler S K) (b : DeviceBody) → (switch r b).k3s ≡ r.k3s
  unfolding switch
  switch_k3s r b = ground arith

  after_launch_of_cooling :
      (r : DeviceReconciler S K) (q : Answers) (b : DeviceBody) (o : Runner.Runner × Runner.Started)
      (n : ℕ)
      → is_server b.mode ≡ false
      → o.0.alive ≡ []
      → o.1 ≡ Runner.cooling n
      → ((after_launch devices tokens L c no_device no_token r q b o).0.k3s.alive ≡ [])
        × ((after_launch devices tokens L c no_device no_token r q b o).1 ≡ done)
  unfolding after_launch after_start
  after_launch_of_cooling r q b (k3s, Runner.started) n e a h = absurd cc
  after_launch_of_cooling r q b (k3s, Runner.unchanged) n e a h = absurd cc
  after_launch_of_cooling r q b (k3s, Runner.panicked) n e a h = absurd cc
  after_launch_of_cooling r q b (k3s, Runner.cooling w) n e a h =
      rw (after_start, e)
        (ap (λ (x : Runner.Runner). x.alive) (switch_k3s (record r { k3s = k3s }) b) ∙ a, refl)

  run_k3s_of_cooling :
      (r : DeviceReconciler S K) (q : Answers) (b : DeviceBody) (a : String) (args : List String)
      → is_server b.mode ≡ false
      → is_terminating b ≡ false
      → r.k3s.alive ≡ []
      → q.launch.now < r.k3s.terminated + Runner.cooldown
      → ((run_k3s devices tokens L c no_device no_token r q b (a ∷ args)).0.k3s.alive ≡ [])
        × ((run_k3s devices tokens L c no_device no_token r q b (a ∷ args)).1 ≡ done)
  unfolding run_k3s
  run_k3s_of_cooling r q b a args s e f h =
      let (alone, cooled) = start_of_early L.quote r.k3s q.launch (k3s_command (a ∷ args)) f h in
      rw (run_k3s, e)
        (after_launch_of_cooling r q b
          (Runner.start L.quote r.k3s q.launch (k3s_command (a ∷ args))) _ s alone cooled)

  -- A settled agent that is not to be shut down, whose k3s has ended and which is reconciled before the
  -- cooldown since the time that the runner noted last is over, is left without it: k3s is not running afterwards, and the
  -- reconciliation returns without asking for another one.
  pub reconcile_of_cooling :
      (r : DeviceReconciler S K) (q : Answers) (d : Resource DeviceBody) (ip a : String)
      (args : List String)
      → IsSettled tokens L c no_token r q d agent ip a args
      → is_terminating d.body ≡ false
      → r.k3s.alive ≡ []
      → q.launch.now < r.k3s.terminated + Runner.cooldown
      → ((reconcile devices tokens L c no_device no_token r q).0.k3s.alive ≡ [])
        × ((reconcile devices tokens L c no_device no_token r q).1 ≡ done)
  reconcile_of_cooling r q d ip a args s e f h =
      let (t, (y, g)) = reconcile-run_k3s r q d agent ip a args s in
      subst (λ o. (o.0.k3s.alive ≡ []) × (o.1 ≡ done)) (sym g)
        (run_k3s_of_cooling t q d.body a args (ap is_server s.mode) e
          (ap (λ (x : Runner.Runner). x.alive) y.k3s ∙ f)
          (subst (λ (x : Runner.Runner). q.launch.now < x.terminated + Runner.cooldown) (sym y.k3s)
            h))
