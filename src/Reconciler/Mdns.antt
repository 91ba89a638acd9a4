-- ===== src/Reconciler/Mdns.antt =====
-- pkg/reconciler/app/mdns_service_reconciler.go: services of the cluster announced over mDNS. What the
-- API server and the kernel answer and which calls of the package dnssd succeed are arguments. A
-- responder is known by a number. The texts of the log are left out.
pub mod Tracked
pub mod Addresses
pub mod Examples
use Prim.Native.Char.{Char, code}
use Prim.Native.Nat.{bit_or}
use Prim.Native.String
use kubemate.Base.{
  ℕ, ◌+◌, ◌-◌, ◌^◌, String, Bool, true, false, ◌⊎◌, inl, inr, Option, none, some, List, [], ◌∷◌,
  ◌==◌, ◌&&◌, ◌||◌, not, nat_eq, select, map, if◌then◌else◌,
}
use kubemate.Base.Text.{chars, text}
use kubemate.Base.Dict.{Dict, get, put, remove, keys}
use kubemate.Resource.{Error, message, wrap}

abbrev pub annotation_mdns_service : String
annotation_mdns_service = "kubemate.mgoltzsche.github.com/mdns-service"

abbrev pub annotation_mdns_name : String
annotation_mdns_name = "kubemate.mgoltzsche.github.com/mdns-name"

-- The node ports of a service by the order of its ports.
pub record Service : Type 0 where
  pub name : String
  pub annotations : Dict String
  pub is_node_port : Bool
  pub ports : List ℕ

-- An address of an interface: whether it is an IPNet of version 4, of a special kind (loopback,
-- unspecified, multicast or link-local), and its address and mask as numbers of 32 bits.
pub record Address : Type 0 where
  pub is_v4 : Bool
  pub is_special : Bool
  pub ip : ℕ
  pub mask : ℕ

-- The addresses are none where the kernel does not tell them.
pub record Interface : Type 0 where
  pub name : String
  pub addrs : Option (List Address)

-- dnssd.Config
pub record Config : Type 0 where
  pub name : String
  pub type : String
  pub port : ℕ
  pub ifaces : List String
  pub ips : List ℕ

-- `servers` is the map mdnsServers; `running` has the responders that were started and not cancelled.
pub record Announcer : Type 0 where
  pub device_name : String
  pub network_interfaces : List String
  pub servers : Dict ℕ
  pub running : List ℕ

-- The annotation that is missing reads as an empty text.
abbrev pub annotation : Service → String → String
annotation svc k = elim (get k svc.annotations) [ none ↦ "" | some v ↦ v ]

abbrev pub has_mdns_service_annotation : Service → Bool
has_mdns_service_annotation svc = not (annotation svc annotation_mdns_service == "")

abbrev pub is_nil : {A : Type 0} → List A → Bool
is_nil [] = true
is_nil (x ∷ xs) = false

abbrev pub is_announced_type : Service → Bool
is_announced_type svc =
    has_mdns_service_annotation svc && svc.is_node_port && not (is_nil svc.ports)

abbrev pub to_broadcast_ip : Address → ℕ
to_broadcast_ip a = bit_or a.ip (2 ^ 32 - 1 - a.mask)

abbrev pub is_usable : Address → Bool
is_usable a = a.is_v4 && not a.is_special && not (nat_eq (to_broadcast_ip a) a.ip)

-- The last usable address of an interface stands in the map.
pub interface_ips : String → List Address → Dict ℕ → Dict ℕ
interface_ips name [] m = m
interface_ips name (a ∷ as') m = interface_ips name as' (if is_usable a then put name a.ip m else m)

pub iface_ip_map : List Interface → Dict ℕ → Dict ℕ
unfolding interface_ips
iface_ip_map [] m = m
iface_ip_map (i ∷ is) m =
    iface_ip_map is (elim i.addrs [ none ↦ m | some as' ↦ interface_ips i.name as' m ])

pub ips_of : Dict ℕ → List String → List ℕ
ips_of m [] = []
ips_of m (n ∷ ns) = let rest = ips_of m ns in elim (get n m) [ none ↦ rest | some ip ↦ ip ∷ rest ]

-- The kernel's interfaces are none on an error.
unfoldable pub ips_for_network_interfaces : List String → Option (List Interface) → Error ⊎ List ℕ
unfolding iface_ip_map ips_of
ips_for_network_interfaces names none = inl (message "interfaces")
ips_for_network_interfaces names (some ifaces) =
    let m = iface_ip_map ifaces [] in
    let ips = ips_of m (if is_nil names then map (λ (i : Interface). i.name) ifaces else names) in
    if is_nil ips then inl (message "no IP available") else inr ips

abbrev pub grow : Char → List (List Char) → List (List Char)
grow c [] = (c ∷ []) ∷ []
grow c (w ∷ ws) = (c ∷ w) ∷ ws

-- csvRegex.Split: a comma and the spaces after it part two words; `after` says that a comma came just
-- before, or one and spaces.
pub split_csv : Bool → List Char → List (List Char)
split_csv after [] = [] ∷ []
split_csv after (c ∷ s) =
    let comma = nat_eq (code c) b',' in
    let gap = after && nat_eq (code c) b' ' in
    let rest = split_csv (comma || gap) s in
    if comma then [] ∷ rest else if gap then rest else grow c rest

abbrev pub joined : String → String → String
joined a b = Prim.Native.String.◌++◌ a (Prim.Native.String.◌++◌ "-" b)

unfoldable pub instance_name : Announcer → Service → String
instance_name r svc =
    let name = annotation svc annotation_mdns_name in
    joined r.device_name (if name == "" then svc.name else name)

abbrev pub first_port : List ℕ → ℕ
first_port [] = 0
first_port (p ∷ ps) = p

pub configs : Announcer → Service → List ℕ → List (List Char) → List Config
unfolding instance_name
configs r svc ips [] = []
configs r svc ips (t ∷ ts) =
    let rest = configs r svc ips ts in
    if is_nil t
    then rest
    else record {
      name = instance_name r svc;
      type = text t;
      port = first_port svc.ports;
      ifaces = r.network_interfaces;
      ips = ips;
    }
      ∷ rest

unfoldable pub to_mdns_entries : Announcer → Option (List Interface) → Service → Error ⊎ List Config
unfolding split_csv configs
to_mdns_entries r ifaces svc = elim (ips_for_network_interfaces r.network_interfaces ifaces) [
  | inl e ↦ inl (wrap "failed to get IPs to advertize for mdns service" e)
  | inr ips ↦
      inr (configs r svc ips (split_csv false (chars (annotation svc annotation_mdns_service))))
]

-- How the calls of one reconciliation end: whether a responder is made, and whether it takes a service.
-- `responder` is the number of the new one, which no other has.
pub record Answers : Type 0 where
  pub interfaces : Option (List Interface)
  pub responder : Option ℕ
  pub takes : Config → Bool

all_taken : (Config → Bool) → List Config → Bool
all_taken f [] = true
all_taken f (c ∷ cs) = let rest = all_taken f cs in f c && rest

-- A responder runs once it has all services; one that has refused a service is left as it is.
advertize_service : Announcer → Answers → String → List Config → Announcer × Option Error
unfolding all_taken
advertize_service r w key svcs = elim w.responder [
  | none ↦ (r, some (message "new mdns responder"))
  | some n ↦
      if all_taken w.takes svcs
      then (record r { servers = put key n r.servers; running = n ∷ r.running }, none)
      else (r, some (message "add mdns service to responder"))
]

advertize_entries : Announcer → Answers → String → Error ⊎ List Config → Announcer × Option Error
unfolding advertize_service
advertize_entries r w key (inl e) = (r, some e)
advertize_entries r w key (inr svcs) = advertize_service r w key svcs

-- Cancelling waits for the responder's end.
unfoldable pub shutdown_mdns_server : Announcer → String → Announcer
shutdown_mdns_server r key = elim (get key r.servers) [
  | none ↦ r
  | some n ↦ record r {
    servers = remove key r.servers;
    running = select (λ m. not (nat_eq n m)) r.running;
  }
]

-- What the API server answers for the name of a service.
pub data Found : Type 0 where
  found : Service → Found
  missing : Found
  refused : Found

unfoldable pub reconcile : Announcer → Answers → String → Found → Announcer × Option Error
unfolding advertize_entries
reconcile r w key missing = (shutdown_mdns_server r key, none)
reconcile r w key refused = (r, some (message "get service"))
reconcile r w key (found svc) =
    if not (is_announced_type svc)
    then (shutdown_mdns_server r key, none)
    else elim (get key r.servers) [
      | some n ↦ (r, none)
      | none ↦ advertize_entries r w key (to_mdns_entries r w.interfaces svc)
    ]

close_all : Announcer → List String → Announcer
close_all r [] = r
close_all r (k ∷ ks) = close_all (shutdown_mdns_server r k) ks

unfoldable pub close : Announcer → Announcer
unfolding close_all
close r = close_all r (keys r.servers)

-- SetupWithManager starts over with an empty map; what runs goes on.
abbrev pub setup_with_manager : Announcer → Announcer
setup_with_manager r = record r { servers = [] }
