-- ===== src/Reconciler/Device/Reconcile.antt =====
-- pkg/reconciler/device/device_reconciler.go: one reconciliation of the device, which starts and stops
-- k3s, the controllers of a server, the one of an agent's node, and the ingress controller; and the
-- report of the state of k3s. The device that a reconciliation begins with is an answer, since the
-- client may read an older one than the store has.
pub mod Exclusive
pub mod Settled
pub mod Running
use kubemate.Runner
use kubemate.Controller
use kubemate.Ingress.Watch
use kubemate.Ingress.Watch.{IngressController}
use kubemate.Base.{
  ◌*◌, ℕ, ◌+◌, String, ◌⊎◌, inl, inr, Bool, true, false, Option, none, some, List, [], ◌∷◌, ◌==◌,
  ◌&&◌, not, nat_eq, if◌then◌else◌,
}
use Prim.Native.Char.{Char, code}
use kubemate.Base.Text.{cat, chars, text}
use kubemate.Base.Decimal.{decimal}
use kubemate.Resource.{Resource, Error, Outcome}
use kubemate.Storage.Interface.{StoreOps}
use kubemate.Reconciler.Node.{DeviceMode, server, agent}
use kubemate.Rest.Tokens.{TokenBody}
use kubemate.Reconciler.Device.Plan.{
  Plan, ready, incomplete, status_message, plan_args, own_address, reconcile_server_token, plan,
}
use kubemate.Reconciler.Device.{
  DeviceBody, NetworkInterface, Settings, Library, Failure, cooldown_error, other, Ended, fine,
  panicked, failed, DnsAnswers, is_terminating, is_server, ip_address, join_address,
  build_k3s_server_args, build_k3s_agent_args, dns_reconcile,
}

-- What was handed to DeviceDiscovery.Advertise.
pub record Advert : Type 0 where
  pub name : String
  pub address : String
  pub mode : Option DeviceMode
  pub server : String
  pub ip : String

pub record DeviceReconciler (S K : Type 0) : Type 0 where
  pub devices : S
  pub tokens : K
  pub k3s : Runner.Runner
  pub dnsmasq : Runner.Runner
  pub controllers : Controller.Manager
  pub node_controller : Controller.Manager
  pub ingress : IngressController
  pub k3s_proxy_enabled : Bool
  pub adverts : List Advert

-- How the client's read of the device ends.
pub data Fetched : Type 0 where
  found : Resource DeviceBody → Fetched
  missing : Fetched
  failing : Error → Fetched

-- How the calls of one reconciliation are answered.
pub record Answers : Type 0 where
  pub device : Fetched
  pub interfaces : Error ⊎ List NetworkInterface
  pub dns : DnsAnswers
  pub advertise : Option Error
  pub launch : Runner.Attempt
  pub token_file : Error ⊎ String

-- ctrl.Result with its delay in nanoseconds, and the error.
pub data Result : Type 0 where
  result : ℕ → Option Error → Result
  panic : Result

abbrev pub done : Result
done = result 0 none

abbrev pub second : ℕ
second = 1000000000

unfoldable pub requeue : Failure → Result
requeue (cooldown_error n) = result (n + 1000000) none
requeue (other e) = result second (some e)

-- What is deferred: the delay of a device that cannot be set up yet.
abbrev pub deferred : {A : Type 0} → Plan → A × Result → A × Result
deferred (incomplete e) (r, result n err) = (r, result (10 * second) err)
deferred _ x = x

abbrev pub k3s_command : List String → Runner.CommandSpec
k3s_command args = record { command = "/proc/self/exe"; args = args }

-- The closures by which the reconciler changes the stores.
abbrev pub write_status : String → String → Resource DeviceBody → Resource DeviceBody × Option Error
write_status msg addr d =
    (record d { body = record (d.body) { message = msg; address = addr; current = true } }, none)

module _ {S K : Type 0} where
  abbrev pub with_advert :
      DeviceReconciler S K → Resource DeviceBody → String → DeviceReconciler S K
  with_advert r d ip = record r {
    adverts =
        record {
          name = d.name;
          address = d.body.address;
          mode = d.body.mode;
          server = d.body.server_address;
          ip = ip;
        }
        ∷ r.adverts;
  }

  -- The end of a reconciliation that goes through.
  unfoldable pub switch : DeviceReconciler S K → DeviceBody → DeviceReconciler S K
  switch r b =
      if is_server b.mode && not (is_terminating b)
      then record r {
        node_controller = Controller.stop r.node_controller;
        controllers = (Controller.start r.controllers).0;
        ingress = Watch.start r.ingress;
      }
      else record r {
        controllers = Controller.stop r.controllers;
        ingress = Watch.stop r.ingress;
        node_controller =
            if is_terminating b
            then Controller.stop r.node_controller
            else (Controller.start r.node_controller).0;
      }

-- What the Reporter writes on a report of k3s.
abbrev pub write_report :
    Settings → String → String → Resource DeviceBody → Resource DeviceBody × Option Error
write_report c state msg d = (
  record d {
    body = record (d.body) {
      status_generation = d.body.generation;
      state = if is_terminating d.body then d.body.state else state;
      message = msg;
      address = cat "https://" c.device_address;
      current = true;
    };
  },
  none,
)

module _ {S K : Type 0} (devices : StoreOps S DeviceBody) (tokens : StoreOps K TokenBody)
    (L : Library) (c : Settings) (no_device : Resource DeviceBody)
    (no_token : Resource TokenBody) where
  after_token : DeviceReconciler S K → DeviceBody → K × Option Error → DeviceReconciler S K × Result
  after_token r b (k, some e) = (record r { tokens = k }, result second none)
  after_token r b (k, none) = (switch (record r { tokens = k }) b, done)

  -- What follows on the start of k3s.
  after_start : DeviceReconciler S K → Answers → DeviceBody → DeviceReconciler S K × Result
  unfolding after_token
  after_start r q b =
      if is_server b.mode
      then after_token r b (reconcile_server_token tokens c no_token r.tokens q.token_file)
      else (switch r b, done)

  -- The error of `Start` is dropped.
  after_launch :
      DeviceReconciler S K
      → Answers
      → DeviceBody
      → Runner.Runner × Runner.Started
      → DeviceReconciler S K × Result
  unfolding after_start
  after_launch r q b (k3s, Runner.panicked) = (record r { k3s = k3s }, panic)
  after_launch r q b (k3s, _) = after_start (record r { k3s = k3s }) q b

  unfoldable pub run_k3s :
      DeviceReconciler S K → Answers → DeviceBody → List String → DeviceReconciler S K × Result
  unfolding after_launch
  run_k3s r q b [] = (r, done)
  run_k3s r q b (a ∷ args) =
      if is_terminating b
      then (switch (record r { k3s = Runner.stop r.k3s }) b, done)
      else after_launch r q b (Runner.start L.quote r.k3s q.launch (k3s_command (a ∷ args)))

  after_advertise :
      DeviceReconciler S K
      → Answers
      → DeviceBody
      → List String
      → Option Error
      → DeviceReconciler S K × Result
  after_advertise r q b args (some e) = (r, requeue (other e))
  after_advertise r q b args none = run_k3s r q b args

  advertise :
      DeviceReconciler S K
      → Answers
      → Resource DeviceBody
      → String
      → List String
      → DeviceReconciler S K × Result
  unfolding after_advertise
  advertise r q d ip args =
      if nat_eq d.body.generation d.body.status_generation
      then after_advertise (with_advert r d ip) q d.body args q.advertise
      else run_k3s r q d.body args

  after_update :
      DeviceReconciler S K
      → Answers
      → String
      → List String
      → Outcome S DeviceBody
      → DeviceReconciler S K × Result
  unfolding advertise
  after_update r q ip args o =
      let r1 : DeviceReconciler S K = record r { devices = o.state } in
      elim o.err [ some e ↦ (r1, requeue (other e)) | none ↦ advertise r1 q o.out ip args ]

  unfoldable pub apply :
      DeviceReconciler S K
      → Answers
      → Resource DeviceBody
      → String
      → Plan
      → DeviceReconciler S K × Result
  unfolding after_update
  apply r q d ip p =
      let msg = status_message p in
      let addr = own_address c in
      if d.body.message == msg && d.body.address == addr
      then advertise r q d ip (plan_args p)
      else after_update r q ip (plan_args p)
          (devices.update r.devices d.name d (write_status msg addr))

  pub set_up :
      DeviceReconciler S K
      → Answers
      → Resource DeviceBody
      → DeviceMode
      → String
      → Ended
      → DeviceReconciler S K × Result
  unfolding apply
  set_up r q d m ip panicked = (r, panic)
  set_up r q d m ip (failed e) = (r, requeue e)
  set_up r q d m ip fine =
      let p = plan L tokens c no_token r.tokens d m (L.parse_ip ip) in
      deferred p (apply (record r { k3s_proxy_enabled = is_server (some m) }) q d (L.parse_ip ip) p)

  with_dns :
      DeviceReconciler S K
      → Answers
      → Resource DeviceBody
      → DeviceMode
      → String
      → Runner.Runner × Ended
      → DeviceReconciler S K × Result
  unfolding set_up
  with_dns r q d m ip (dnsmasq, e) = set_up (record r { dnsmasq = dnsmasq }) q d m ip e

  at_address :
      DeviceReconciler S K
      → Answers
      → Resource DeviceBody
      → DeviceMode
      → Error ⊎ String
      → DeviceReconciler S K × Result
  unfolding with_dns
  at_address r q d m (inl e) = (r, done)
  at_address r q d m (inr ip) = with_dns r q d m ip (dns_reconcile L r.dnsmasq q.dns (some m))

  in_mode :
      DeviceReconciler S K
      → Answers
      → Resource DeviceBody
      → Option DeviceMode
      → DeviceReconciler S K × Result
  unfolding at_address
  in_mode r q d none = (r, done)
  in_mode r q d (some m) = at_address r q d m (ip_address q.interfaces)

  reconcile_fetched : DeviceReconciler S K → Answers → Fetched → DeviceReconciler S K × Result
  unfolding in_mode
  reconcile_fetched r q missing = (r, done)
  reconcile_fetched r q (failing e) = (r, requeue (other e))
  reconcile_fetched r q (found d) = in_mode r q d d.body.mode

  unfoldable pub reconcile : DeviceReconciler S K → Answers → DeviceReconciler S K × Result
  unfolding reconcile_fetched
  reconcile r q = reconcile_fetched r q q.device

  -- The Reporter of k3s: an error of the update is logged.
  unfoldable pub report : DeviceReconciler S K → String → String → DeviceReconciler S K
  report r state msg = record r {
    devices = (devices.update r.devices c.device_name no_device (write_report c state msg)).state;
  }
