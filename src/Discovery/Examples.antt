-- ===== src/Discovery/Examples.antt =====
-- Concrete cases of what was proved of pkg/discovery/device_discovery.go.
use kubemate.PubSub
use kubemate.Base.{
  String, ◌≡◌, refl, inl, inr, true, false, none, some, List, [], ◌∷◌, ◌==◌, eq_iff, arith,
  if◌then◌else◌, Bool-cases,
}
use kubemate.Base.Text.{chars, text}
use kubemate.Base.Dict.{get}
use kubemate.Resource.{Resource, ResourceType}
use kubemate.Storage.InMemory.{Store}
use kubemate.Storage.Fixtures.{env}
use kubemate.Discovery.{
  has_label, DiscoveryBody, ServiceEntry, entry_name, advertised_info, get_mdns_entry_field,
  mdns_field_device_mode, mdns_field_server, mdns_discovery_label, populate_devices_from_mdns,
}
use kubemate.Discovery.Removal.{Named, goes_away}
use kubemate.Discovery.Recorded.{Matches}
use kubemate.Discovery.Populated.{populate_own, populate_lookup, populate-Matches}
use kubemate.Discovery.Fields.{advertised_info-read}

abbrev a_spec : String → DiscoveryBody
a_spec mode = record { labels = []; mode = mode; server = ""; address = ""; current = false }

abbrev discovery_type : ResourceType DiscoveryBody
discovery_type = record {
  group_resource = "devicediscovery";
  go_type = "*DeviceDiscovery";
  zero_body = a_spec "";
  clear_status = λ b. b;
  object_kind = none;
}

abbrev device : String → DiscoveryBody → Resource DiscoveryBody
device name b = record {
  api_version = "";
  kind = "";
  meta = record {
    name = name;
    namespace = "";
    generate_name = "";
    resource_version = "1";
    creation_timestamp = none;
  };
  body = b;
}

-- The own device, and one that was discovered before.
abbrev known : Store DiscoveryBody
known = record {
  items =
      ("d", device "d" (a_spec "server"))
      ∷ (
        "old",
        device "old" (record (a_spec "agent") { labels = (mdns_discovery_label, "true") ∷ [] }),
      )
      ∷ [];
  pubsub = PubSub.new;
  seq = 1;
}

known-Named : Named known
unfolding get
known-Named k r h = elim (Bool-cases ("d" == k)) [
  | inl e ↦ ground (arith, eq_iff "d" k)
  | inr e ↦ ground (arith, eq_iff "old" k)
]

abbrev entry : String → String → ServiceEntry
entry host mode = record { host = chars host; port = 8443; info_fields = advertised_info mode "" }

-- The own device answers as well.
abbrev heard : List ServiceEntry
heard = entry "new." "agent" ∷ entry "d." "server" ∷ []

populate_own_example :
    get "d" (populate_devices_from_mdns discovery_type env "d" known heard true).0.items
    ≡ get "d" known.items
populate_own_example = populate_own discovery_type env "d" known heard true known-Named

populate_lookup_example :
    get "old" (populate_devices_from_mdns discovery_type env "d" known heard true).0.items
    ≡ (if goes_away ("d" ∷ []) known "old" then none else get "old" known.items)
unfolding entry_name
populate_lookup_example = populate_lookup discovery_type env "d" known heard "old" known-Named (
  (λ h. absurd (cc ((eq_iff "new" "old").1 h))),
  ((λ h. absurd (cc ((eq_iff "d" "old").1 h))), tt),
)

old_goes : goes_away ("d" ∷ []) known "old" ≡ true
unfolding get has_label
old_goes = refl

populate-Matches_example :
    (r : Resource DiscoveryBody) × (get
        (entry_name (entry "new." "agent"))
        (populate_devices_from_mdns discovery_type env "d" known heard true).0.items
      ≡ some r)
    × Matches (entry "new." "agent") r.body
unfolding entry_name
populate-Matches_example =
    populate-Matches discovery_type env "d" known [] (entry "d." "server" ∷ [])
      (entry "new." "agent") known-Named (λ h. cc) ((λ h. cc), tt)

advertised_info-read_example :
    (text (get_mdns_entry_field (advertised_info "agent" "https://s") mdns_field_device_mode)
      ≡ "agent")
    × (text (get_mdns_entry_field (advertised_info "agent" "https://s") mdns_field_server)
        ≡ "https://s")
advertised_info-read_example = advertised_info-read "agent" "https://s"
