-- ===== src/Discovery.antt =====
-- pkg/discovery/device_discovery.go: the devices that mDNS finds, kept in an in-memory store, and the
-- advertisement of the own device. What mDNS answers is an argument, entry by entry in the order in
-- which it comes. The store is used through the rate limit of pkg/storage/refresh.go, which lets the
-- calls of a discovery through. A text that is cut is the list of its characters.
pub mod Removal
pub mod Recorded
pub mod Populated
pub mod Fields
pub mod Examples
use Prim.Native.Char.{Char, code}
use kubemate.Base.{
  ℕ, String, Bool, true, false, Option, none, some, List, [], ◌∷◌, ◌++◌, ◌==◌, ◌&&◌, not, nat_eq,
  any, is_some, if◌then◌else◌,
}
use kubemate.Base.Text.{cat, chars, text, eat}
use kubemate.Base.Dict.{Dict, get}
use kubemate.Base.Decimal.{decimal}
use kubemate.Resource.{
  Resource, ResourceType, Error, message, wrap, is_not_found, is_already_exists, Outcome, Env,
}
use kubemate.Storage.InMemory.{Store, list}
use kubemate.Storage.Interface.Memory.{memory}

abbrev pub mdns_discovery_label : String
mdns_discovery_label = "kubemate.mgoltzsche.github.com/mdns-discovery"

abbrev pub mdns_field_device_mode : List Char
mdns_field_device_mode = chars "kubemate.mgoltzsche.github.com/device-mode"

abbrev pub mdns_field_server : List Char
mdns_field_server = chars "kubemate.mgoltzsche.github.com/server"

-- A DeviceDiscovery's labels and spec.
pub record DiscoveryBody : Type 0 where
  pub labels : Dict String
  pub mode : String
  pub server : String
  pub address : String
  pub current : Bool

pub record ServiceEntry : Type 0 where
  pub host : List Char
  pub port : ℕ
  pub info_fields : List (List Char)

abbrev pub is_dot : Char → Bool
is_dot c = nat_eq (code c) 46

-- strings.TrimRight(s, ".")
pub trim_dots : List Char → List Char
trim_dots [] = []
trim_dots (c ∷ s) =
    let rest = trim_dots s in
    elim rest [ [] ↦ (if is_dot c then [] else c ∷ []) | d ∷ t ↦ c ∷ d ∷ t ]

unfoldable pub entry_name : ServiceEntry → String
unfolding trim_dots
entry_name e = text (trim_dots e.host)

abbrev pub assign : List Char → List Char
assign field = field ++ chars "="

unfoldable pub get_mdns_entry_field : List (List Char) → List Char → List Char
get_mdns_entry_field [] field = []
get_mdns_entry_field (v ∷ vs) field =
    let rest = get_mdns_entry_field vs field in
    elim (eat (assign field) v) [ some t ↦ t | none ↦ rest ]

unfoldable pub has_label : DiscoveryBody → Bool
has_label b = is_some (get mdns_discovery_label b.labels)

unfoldable pub entry_address : ServiceEntry → String
entry_address e =
    let a = cat "https://" (entry_name e) in
    if not (nat_eq e.port 443) then cat a (cat ":" (decimal e.port)) else a

-- The closure `modify`.
unfoldable pub discovered : ServiceEntry → DiscoveryBody → DiscoveryBody
discovered e b = record b {
  labels = (mdns_discovery_label, "true") ∷ [];
  address = entry_address e;
  mode = text (get_mdns_entry_field e.info_fields mdns_field_device_mode);
  server = text (get_mdns_entry_field e.info_fields mdns_field_server);
}

abbrev pub same_spec : DiscoveryBody → DiscoveryBody → Bool
same_spec a b =
    a.mode == b.mode
    && a.server == b.server
    && a.address == b.address
    && (if a.current then b.current else not b.current)

abbrev pub modify : ServiceEntry → Resource DiscoveryBody → Resource DiscoveryBody
modify e r = record r { body = discovered e r.body }

-- The closure by which Advertise sets the spec.
abbrev pub with_spec : DiscoveryBody → Resource DiscoveryBody → Resource DiscoveryBody
with_spec b r = record r { body = record b { labels = r.body.labels } }

abbrev pub is_in : List String → String → Bool
is_in names k = any (λ n. n == k) names

-- What the removal looks for: a label, and a name that was not found.
abbrev pub is_offline : List String → Resource DiscoveryBody → Bool
is_offline found d = has_label d.body && not (is_in found d.name)

-- What Advertise asks for: the service, the end of the previous server, and a new server.
pub record Responder : Type 0 where
  pub service : Option Error
  pub shutdown : Option Error
  pub server : Option Error

abbrev pub keep_first : Option Error → Option Error → Option Error
keep_first none e = e
keep_first (some e) f = some e

module _ (T : ResourceType DiscoveryBody) (env : Env) (device_name : String) where
  fresh : String → Resource DiscoveryBody
  fresh name = record {
    api_version = "";
    kind = "";
    meta = record {
      name = name;
      namespace = "";
      generate_name = "";
      resource_version = "";
      creation_timestamp = none;
    };
    body = T.zero_body;
  }

  -- An entry of a device that is known or not; an error of the store is logged.
  record_known :
      Store DiscoveryBody
      → ServiceEntry
      → Outcome (Store DiscoveryBody) DiscoveryBody
      → Store DiscoveryBody
  record_known s e got = elim got.err [
    | some f ↦
        if is_not_found f
        then ((memory T env).create s (entry_name e) (modify e got.out)).state
        else s
    | none ↦
        if same_spec got.out.body (discovered e got.out.body)
        then s
        else ((memory T env).update s (entry_name e) (modify e got.out)
            (λ r. (modify e r, none))).state
  ]

  unfoldable pub record_entry : Store DiscoveryBody → ServiceEntry → Store DiscoveryBody
  unfolding record_known fresh
  record_entry s e =
      if entry_name e == device_name
      then s
      else record_known s e ((memory T env).get s (entry_name e) (fresh (entry_name e)))

  abbrev pub record_entries : Store DiscoveryBody → List ServiceEntry → Store DiscoveryBody
  record_entries s [] = s
  record_entries s (e ∷ es) = record_entries (record_entry s e) es

  abbrev pub found_devices : List ServiceEntry → List String
  found_devices [] = device_name ∷ []
  found_devices (e ∷ es) = entry_name e ∷ found_devices es

  -- The loop that removes old devices.
  unfoldable pub remove_offline :
      List String
      → Store DiscoveryBody × Option Error
      → List (Resource DiscoveryBody)
      → Store DiscoveryBody × Option Error
  remove_offline found (s, err) [] = (s, err)
  remove_offline found (s, err) (d ∷ ds) =
      let o = (memory T env).delete s d.name d (λ r. none) in
      let off = is_offline found d in
      remove_offline found (if off then o.state else s, if off then keep_first err o.err else err)
        ds

  -- populateDevicesFromMDNS; `asked` says whether the query succeeds.
  unfoldable pub populate_devices_from_mdns :
      Store DiscoveryBody → List ServiceEntry → Bool → Store DiscoveryBody × Option Error
  populate_devices_from_mdns s es asked =
      let t = record_entries s es in
      if asked
      then remove_offline (found_devices es) (t, none) (list T t).items
      else (t, some (message "mdns lookup"))

-- The fields that Advertise announces.
abbrev pub server_field : String → List (List Char)
server_field server =
    if not (server == "") then (assign mdns_field_server ++ chars server) ∷ [] else []

unfoldable pub advertised_info : String → String → List (List Char)
advertised_info mode server =
    chars "kubemate" ∷ (assign mdns_field_device_mode ++ chars mode) ∷ server_field server

-- `srv` has the fields that the server in place announces.
pub record DeviceDiscovery : Type 0 where
  pub store : Store DiscoveryBody
  pub srv : Option (List (List Char))

module _ (T : ResourceType DiscoveryBody) (env : Env) (device_name : String) where
  write_own : DeviceDiscovery → DiscoveryBody → DeviceDiscovery × Option Error
  unfolding fresh
  write_own d b =
      let dev = fresh T env device_name device_name in
      let o = (memory T env).update d.store device_name dev (λ r. (with_spec b r, none)) in
      elim o.err [
        | none ↦ (record d { store = o.state }, none)
        | some e ↦
            let c = (memory T env).create o.state device_name (with_spec b o.out) in
            (
              record d { store = c.state },
              if is_some c.err then some (message "advertise mdns name") else none,
            )
      ]

  start_server : DeviceDiscovery → DiscoveryBody → Responder → DeviceDiscovery × Option Error
  unfolding write_own
  start_server d b q = elim q.server [
    | some e ↦ (d, some (message "advertise mdns name"))
    | none ↦ write_own (record d { srv = some (advertised_info b.mode b.server) }) b
  ]

  -- Advertise
  unfoldable pub advertise :
      DeviceDiscovery → String → DiscoveryBody → Responder → DeviceDiscovery × Option Error
  unfolding start_server
  advertise d name b q =
      if not (name == device_name)
      then (d, some (message "refusing to advertise a different device than this one via mdns"))
      else elim q.service [
        | some e ↦ (d, some (message "advertise mdns name"))
        | none ↦
            if is_some d.srv && is_some q.shutdown
            then (d, some (message "advertise mdns name"))
            else start_server d b q
      ]

-- Close, with the error of the server's shutdown.
unfoldable pub close : DeviceDiscovery → Option Error → DeviceDiscovery × Option Error
close d shutdown = elim d.srv [ none ↦ (d, none) | some info ↦ (record d { srv = none }, shutdown) ]
