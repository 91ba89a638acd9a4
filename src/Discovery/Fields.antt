-- ===== src/Discovery/Fields.antt =====
-- pkg/discovery/device_discovery.go: what a device announces is what another one reads.
use Prim.Native.Char.{Char}
use kubemate.Base.{
  String, ◌≡◌, refl, sym, ap, ◌∙◌, inl, inr, none, List, [], ◌∷◌, ◌++◌, ◌==◌, eq_iff, Bool-cases,
}
use kubemate.Base.Text.{chars, text, eat, eat-append, text-chars}
use kubemate.Discovery.{
  mdns_field_device_mode, mdns_field_server, assign, get_mdns_entry_field, server_field,
  advertised_info,
}

-- A field that comes first.
field_first :
    (field : List Char) (value : String) (vs : List (List Char))
    → text (get_mdns_entry_field ((assign field ++ chars value) ∷ vs) field) ≡ value
unfolding get_mdns_entry_field
field_first field value vs =
    rw (get_mdns_entry_field, eat-append (assign field) (chars value)) (text-chars value)

-- A field that does not begin as the one that is looked for.
field_later :
    (field v : List Char) (vs : List (List Char))
    → eat (assign field) v ≡ none
    → get_mdns_entry_field (v ∷ vs) field ≡ get_mdns_entry_field vs field
unfolding get_mdns_entry_field
field_later field v vs h = rw (get_mdns_entry_field, h) refl

other_prefix :
    (mode : String)
    → eat (assign mdns_field_server) (assign mdns_field_device_mode ++ chars mode) ≡ none
unfolding eat
other_prefix mode = refl

read_server :
    (server : String) → text (get_mdns_entry_field (server_field server) mdns_field_server) ≡ server
unfolding get_mdns_entry_field
read_server server = elim (Bool-cases (server == "")) [
  | inl e ↦ rw (server_field, e) (sym ((eq_iff server "").0 e))
  | inr e ↦ rw (server_field, e) (field_first mdns_field_server server [])
]

-- From what a device announces another one reads its mode, and the server that it joins, which is empty
-- where it is not announced.
pub advertised_info-read :
    (mode server : String)
    → (text (get_mdns_entry_field (advertised_info mode server) mdns_field_device_mode) ≡ mode)
      × (text (get_mdns_entry_field (advertised_info mode server) mdns_field_server) ≡ server)
unfolding advertised_info eat
advertised_info-read mode server =
    let own = assign mdns_field_device_mode ++ chars mode in
    (
      ap text
            (field_later mdns_field_device_mode (chars "kubemate") (own ∷ server_field server) refl)
          ∙ field_first mdns_field_device_mode mode (server_field server),
      ap text (
            field_later mdns_field_server (chars "kubemate") (own ∷ server_field server) refl
            ∙ field_later mdns_field_server own (server_field server) (other_prefix mode))
          ∙ read_server server,
    )
