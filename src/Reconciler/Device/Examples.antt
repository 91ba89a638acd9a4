-- ===== src/Reconciler/Device/Examples.antt =====
-- Concrete cases of what was proved of pkg/reconciler/device/device_reconciler.go.
use kubemate.Runner
use kubemate.Controller
use kubemate.Ingress.Watch
use kubemate.Base.{
  arith, ℕ, ◌*◌, String, ◌≡◌, refl, inr, true, false, Option, none, some, List, [], ◌∷◌,
}
use kubemate.Controller.Managed.{idle}
use kubemate.Runner.Single.{one_process}
use kubemate.Base.Dict.{get}
use kubemate.Resource.{Resource, ResourceType, Error}
use kubemate.Storage.InMemory.{Store, get_item}
use kubemate.Storage.Fixtures.{env}
use kubemate.Storage.Interface.{StoreOps}
use kubemate.Storage.Interface.Memory.{memory}
use kubemate.PubSub
use kubemate.Reconciler.Node.{server, agent}
use kubemate.Rest.Tokens.{TokenBody, token_of}
use kubemate.Reconciler.Device.{
  build_k3s_agent_args, join_address, DeviceBody, NetworkInterface, Settings, Library, ip_address,
  dns_reconcile, is_access_point,
}
use kubemate.Reconciler.Device.Plan.{plan, own_address}
use kubemate.Reconciler.Device.Plan.Incomplete.{no_token_name}
use kubemate.Reconciler.Device.Reconcile.{
  DeviceReconciler, Answers, Fetched, found, missing, result, done, second, reconcile, run_k3s,
  switch,
}
use kubemate.Reconciler.Device.Reconcile.Exclusive.{
  Event, reconciles, reports, installs, exits, Exclusive, run, run-IsExclusive,
}
use kubemate.Reconciler.Device.Reconcile.Settled.{Keeps, reconcile_of_incomplete}
use kubemate.Reconciler.Device.Reconcile.Running.{
  IsSettled, IsStopped, reconcile-IsStopped, reconcile_of_cooling,
}

abbrev no_body : DeviceBody
no_body = record {
  generation = 0;
  mode = none;
  server_address = "";
  join_token_name = "";
  status_generation = 0;
  state = "";
  message = "";
  address = "";
  current = false;
}

abbrev joining : DeviceBody
joining = record no_body {
  generation = 1;
  mode = some agent;
  server_address = "s";
  join_token_name = "t";
  address = "https://d";
}

abbrev a_type : {B : Type 0} → B → ResourceType B
a_type b = record {
  group_resource = "things";
  go_type = "*Thing";
  zero_body = b;
  clear_status = λ x. x;
  object_kind = none;
}

abbrev thing : {B : Type 0} → String → B → Resource B
thing name b = record {
  api_version = "";
  kind = "";
  meta = record {
    name = name;
    namespace = "";
    generate_name = "";
    resource_version = "1";
    creation_timestamp = none;
  };
  body = b;
}

abbrev holding : {B : Type 0} → String → B → Store B
holding name b = record { items = (name, thing name b) ∷ []; pubsub = PubSub.new; seq = 1 }

abbrev library : Library
library = record { quote = λ w. w; parse_ip = λ a. a; hostname = λ a. inr a }

abbrev settings : Settings
settings = record {
  device_name = "d";
  device_address = "d.local";
  external_port = 443;
  data_dir = "/data";
  docker = false;
  kubelet_args = [];
}

abbrev link : NetworkInterface
link = record { name = "eth0"; wifi_mode = ""; up = true; index = 2; ip4 = "10.0.0.2" }

abbrev launch_of : ℕ → Runner.Attempt
launch_of n = record { now = 2 * second; later = 2 * second; launch = Runner.launched n }

abbrev answers : Fetched → Answers
answers f = record {
  device = f;
  interfaces = inr (link ∷ []);
  dns = record {
    interfaces = inr (link ∷ []);
    config = some "/dnsmasq.conf";
    launch = launch_of 20;
    reload = true;
  };
  advertise = none;
  launch = launch_of 10;
  token_file = inr "secret\n";
}

abbrev start_of : DeviceBody → Runner.Runner → DeviceReconciler (Store DeviceBody) (Store TokenBody)
start_of b k = record {
  devices = holding "d" b;
  tokens = holding "t" (token_of "abc");
  k3s = k;
  dnsmasq = Runner.new;
  controllers = Controller.new;
  node_controller = Controller.new;
  ingress = Watch.new_ingress_controller;
  k3s_proxy_enabled = false;
  adverts = [];
}

abbrev device_ops : StoreOps (Store DeviceBody) DeviceBody
device_ops = memory (a_type no_body) env

abbrev token_ops : StoreOps (Store TokenBody) TokenBody
token_ops = memory (a_type (token_of "")) env

start-Exclusive : (b : DeviceBody) (k : Runner.Runner) → Exclusive (start_of b k)
start-Exclusive b k = record {
  controllers = idle refl refl tt tt;
  node = idle refl refl tt tt;
  one = inr refl;
}

-- The device is an agent and becomes a server.
abbrev a_day : List Event
a_day =
    reconciles (answers (found (thing "d" joining)))
    ∷ exits 10
    ∷ reports "exited" ""
    ∷ reconciles (answers (found (thing "d" (record joining { mode = some server }))))
    ∷ installs
    ∷ reconciles (answers missing)
    ∷ []

run-IsExclusive_example : Exclusive (
    run device_ops token_ops library settings
      (thing "" no_body)
      (thing "" (token_of ""))
      (start_of joining Runner.new)
      a_day)
run-IsExclusive_example =
    run-IsExclusive device_ops token_ops library settings (thing "" no_body)
      (thing "" (token_of "")) (start_of joining Runner.new) a_day
      (start-Exclusive joining Runner.new)

abbrev nameless : DeviceBody
nameless = record joining { join_token_name = ""; state = "terminating" }

abbrev running : Runner.Runner
running = record Runner.new {
  proc = some (record { pid = 9; cmd = record { command = "k3s"; args = [] } });
  alive = 9 ∷ [];
}

reconcile_of_incomplete_example :
    Keeps (start_of nameless running) (
      reconcile device_ops token_ops library settings
        (thing "" no_body)
        (thing "" (token_of ""))
        (start_of nameless running)
        (answers (found (thing "d" nameless))))
    × ((err : Option Error) × ((reconcile device_ops token_ops library settings
            (thing "" no_body)
            (thing "" (token_of ""))
            (start_of nameless running)
            (answers (found (thing "d" nameless)))).1
          ≡ result (10 * second) err))
unfolding ip_address dns_reconcile is_access_point Runner.stop
reconcile_of_incomplete_example =
    reconcile_of_incomplete device_ops token_ops library settings (thing "" no_body)
      (thing "" (token_of "")) (start_of nameless running) (answers (found (thing "d" nameless)))
      (thing "d" nameless) "10.0.0.2" refl refl refl refl (no_token_name refl)

abbrev k3s_args : List String
k3s_args =
    "--node-external-ip=10.0.0.2" ∷ "--data-dir=/data" ∷ "--server=https://s:6443" ∷ "--token=abc"
    ∷ []

settled :
    (b : DeviceBody) (k : Runner.Runner)
    → b.mode ≡ some agent
    → b.server_address ≡ "s"
    → b.join_token_name ≡ "t"
    → b.message ≡ ""
    → b.address ≡ "https://d"
    → IsSettled token_ops library settings
        (thing "" (token_of ""))
        (start_of b k)
        (answers (found (thing "d" b)))
        (thing "d" b)
        agent
        "10.0.0.2"
        "agent"
        k3s_args
unfolding ip_address dns_reconcile is_access_point Runner.stop plan join_address
    build_k3s_agent_args own_address get_item get
settled b k e f g h i = record {
  device = refl;
  mode = e;
  address = refl;
  dns = refl;
  plans = rw (f, g, i) refl;
  no_message = h;
  own = i;
  advertised = refl;
}

reconcile-IsStopped_example :
    IsStopped
      (reconcile device_ops token_ops library settings
        (thing "" no_body)
        (thing "" (token_of ""))
        (start_of (record joining { state = "terminating" }) running)
        (answers (found (thing "d" (record joining { state = "terminating" }))))).0
    × ((reconcile device_ops token_ops library settings
          (thing "" no_body)
          (thing "" (token_of ""))
          (start_of (record joining { state = "terminating" }) running)
          (answers (found (thing "d" (record joining { state = "terminating" }))))).1
        ≡ done)
reconcile-IsStopped_example =
    reconcile-IsStopped device_ops token_ops library settings (thing "" no_body)
      (thing "" (token_of "")) (start_of (record joining { state = "terminating" }) running)
      (answers (found (thing "d" (record joining { state = "terminating" }))))
      (thing "d" (record joining { state = "terminating" })) agent "10.0.0.2" "agent" k3s_args
      (settled (record joining { state = "terminating" }) running refl refl refl refl refl) refl
      (one_process _ refl refl) (start-Exclusive (record joining { state = "terminating" }) running)

-- The process 9 has ended 0.8 s before.
abbrev ended : Runner.Runner
ended = record Runner.new { terminated = 1200000000 }

reconcile_of_cooling_example :
    ((reconcile device_ops token_ops library settings
        (thing "" no_body)
        (thing "" (token_of ""))
        (start_of joining ended)
        (answers (found (thing "d" joining)))).0.k3s.alive
      ≡ [])
    × ((reconcile device_ops token_ops library settings
          (thing "" no_body)
          (thing "" (token_of ""))
          (start_of joining ended)
          (answers (found (thing "d" joining)))).1
        ≡ done)
unfolding Runner.start
reconcile_of_cooling_example =
    reconcile_of_cooling device_ops token_ops library settings (thing "" no_body)
      (thing "" (token_of "")) (start_of joining ended) (answers (found (thing "d" joining)))
      (thing "d" joining) "10.0.0.2" "agent" k3s_args
      (settled joining ended refl refl refl refl refl) refl refl (omega arith)

-- An agent runs k3s and the manager of its node.
agent_runs :
    let r =
      run device_ops token_ops library settings
        (thing "" no_body)
        (thing "" (token_of ""))
        (start_of joining Runner.new)
        (reconciles (answers (found (thing "d" joining))) ∷ []) in
    (r.k3s.alive ≡ 10 ∷ []) × (r.node_controller.loops ≡ 1)
unfolding reconcile ip_address dns_reconcile is_access_point plan join_address own_address
    build_k3s_agent_args run_k3s switch get_item get Runner.start Runner.stop Controller.start
agent_runs = (refl, refl)
