-- ===== src/Reconciler/Device.antt =====
-- pkg/reconciler/device/device_reconciler.go and device_reconciler_dns.go: what the device's reconciler
-- reads, and the parts of it that decide: the node's IP, the arguments of k3s, the DNS server's process.
-- `strconv.Quote`, `net.ParseIP` and `url.Parse` are parameters.
pub mod Plan
pub mod Reconcile
pub mod Examples
use Prim.Native.String
use kubemate.Runner
use kubemate.Base.{
  ℕ, ◌+◌, String, ◌⊎◌, inl, inr, Bool, true, false, Option, none, some, List, [], ◌∷◌, ◌++◌, ◌==◌,
  ◌&&◌, ◌||◌, not, ltb, map, if◌then◌else◌,
}
use kubemate.Base.Text.{cat}
use kubemate.Resource.{Resource, Error, message, wrap}
use kubemate.Storage.Interface.{StoreOps}
use kubemate.Reconciler.Node.{DeviceMode, server, agent}
use kubemate.Rest.Tokens.{TokenBody}

-- The part of a Device that its reconciler reads and writes. The mode is none where it is neither of
-- the two; a state is its text.
pub record DeviceBody : Type 0 where
  pub generation : ℕ
  pub mode : Option DeviceMode
  pub server_address : String
  pub join_token_name : String
  pub status_generation : ℕ
  pub state : String
  pub message : String
  pub address : String
  pub current : Bool

abbrev pub is_terminating : DeviceBody → Bool
is_terminating b = b.state == "terminating"

abbrev pub is_server : Option DeviceMode → Bool
is_server none = false
is_server (some server) = true
is_server (some agent) = false

pub record NetworkInterface : Type 0 where
  pub name : String
  pub wifi_mode : String
  pub up : Bool
  pub index : ℕ
  pub ip4 : String

pub record Settings : Type 0 where
  pub device_name : String
  pub device_address : String
  pub external_port : ℕ
  pub data_dir : String
  pub docker : Bool
  pub kubelet_args : List String

-- The code outside: strconv.Quote, the text of net.ParseIP's result, and the host name that url.Parse
-- finds or the text of its error.
pub record Library : Type 0 where
  pub quote : String → String
  pub parse_ip : String → String
  pub hostname : String → String ⊎ String

-- An error with a CooldownError in it, and any other.
pub data Failure : Type 0 where
  cooldown_error : ℕ → Failure
  other : Error → Failure

abbrev is_candidate : ℕ → NetworkInterface → Bool
is_candidate idx i = i.up && not (i.ip4 == "") && ltb i.index idx

lowest_ip : ℕ → String → List NetworkInterface → String
lowest_ip idx ip [] = ip
lowest_ip idx ip (i ∷ is) =
    let better = is_candidate idx i in
    lowest_ip (if better then i.index else idx) (if better then i.ip4 else ip) is

-- ipAddress, before the address is parsed.
unfoldable pub ip_address : Error ⊎ List NetworkInterface → Error ⊎ String
unfolding lowest_ip
ip_address (inl e) = inl (wrap "detect ip address" e)
ip_address (inr is) =
    let ip = lowest_ip 9999999 "" is in
    if ip == "" then inl (message "all network links appear to be down") else inr ip

-- isAccessPoint: whether there is an access point, and the interface and the address to serve on.
access_point : String → String → List NetworkInterface → Bool × (String × String)
access_point name ip [] = (false, (name, ip))
access_point name ip (i ∷ is) =
    let linked = not (i.ip4 == "") in
    let first = linked && i.up && name == "" in
    let rest = access_point (if first then i.name else name) (if first then i.ip4 else ip) is in
    if linked && i.wifi_mode == "accesspoint" then (true, (i.name, i.ip4)) else rest

unfoldable pub is_access_point : List NetworkInterface → Bool × (String × String)
unfolding access_point
is_access_point is = access_point "" "" is

module _ (L : Library) where
  unfoldable pub join_address : String → String ⊎ String
  join_address a = elim (L.hostname a) [
    | inl e ↦ inl (cat "invalid server address " (cat (L.quote a) (cat " specified: " e)))
    | inr h ↦ inr (cat "https://" (cat h ":6443"))
  ]

module _ {K : Type 0} (tokens : StoreOps K TokenBody) (c : Settings)
    (empty : Resource TokenBody) where
  abbrev pub token_args : Option Error → Resource TokenBody → List String
  token_args (some e) t = []
  token_args none t = cat "--token=" t.body.token ∷ []

  abbrev pub common_args : List String
  common_args =
      (if c.docker then "--docker" ∷ [] else []) ++ map (cat "--kubelet-arg=") c.kubelet_args

  -- A server goes on without a token that is not there.
  unfoldable pub build_k3s_server_args : K → String → String → List String
  build_k3s_server_args k name ip =
      let got = tokens.get k name empty in
      "server"
      ∷ cat "--node-external-ip=" ip
      ∷ "--disable-cloud-controller"
      ∷ "--disable-helm-controller"
      ∷ "--disable=servicelb,traefik"
      ∷ "--kube-apiserver-arg=--token-auth-file=/etc/kubemate/tokens"
      ∷ cat "--data-dir=" c.data_dir
      ∷ (token_args got.err got.out ++ common_args)

  -- An agent has no arguments at all without its token.
  unfoldable pub build_k3s_agent_args : K → String → String → String → List String
  build_k3s_agent_args k join token_name ip =
      let got = tokens.get k token_name empty in
      elim got.err [
        | some e ↦ []
        | none ↦
            "agent"
            ∷ cat "--node-external-ip=" ip
            ∷ cat "--data-dir=" c.data_dir
            ∷ cat "--server=" join
            ∷ cat "--token=" got.out.body.token
            ∷ common_args
      ]

-- How a call ends that may panic.
pub data Ended : Type 0 where
  fine panicked : Ended
  failed : Failure → Ended

-- How what the DNS server's reconciliation asks for is answered: the interfaces, the path of the
-- configuration that was written, the launch, and whether the signal was sent.
pub record DnsAnswers : Type 0 where
  pub interfaces : Error ⊎ List NetworkInterface
  pub config : Option String
  pub launch : Runner.Attempt
  pub reload : Bool

abbrev pub dnsmasq_command : String → Runner.CommandSpec
dnsmasq_command path = record {
  command = "dnsmasq";
  args = "-C" ∷ path ∷ "-zk" ∷ "--log-facility=-" ∷ [];
}

abbrev reloaded : Option Bool → Ended
reloaded none = panicked
reloaded (some true) = fine
reloaded (some false) = failed (other (message "signal"))

after_start : DnsAnswers → Runner.Runner × Runner.Started → Runner.Runner × Ended
after_start q (r, Runner.started) = (r, fine)
after_start q (r, Runner.unchanged) = (r, reloaded (Runner.signal_reload r q.reload))
after_start q (r, Runner.panicked) = (r, panicked)
after_start q (r, Runner.cooling n) = (r, failed (cooldown_error n))

-- deviceDnsServerReconciler.Reconcile
unfoldable pub dns_reconcile :
    Library → Runner.Runner → DnsAnswers → Option DeviceMode → Runner.Runner × Ended
unfolding after_start
dns_reconcile L r q mode = elim q.interfaces [
  | inl e ↦ (r, failed (other (wrap "check access point mode" e)))
  | inr is ↦
      if is_server mode || (is_access_point is).0
      then elim q.config [
        | none ↦ (r, failed (other (message "config")))
        | some path ↦ after_start q (Runner.start L.quote r q.launch (dnsmasq_command path))
      ]
      else (Runner.stop r, fine)
]
