-- ===== src/Discovery/Populated.antt =====
-- pkg/discovery/device_discovery.go: the store after a discovery.
use kubemate.Base.{
  subst, String, ◌≡◌, ◌≢◌, refl, sym, ap, ◌∙◌, inl, inr, Bool, true, false, Option, none, some,
  List, [], ◌∷◌, ◌++◌, ◌==◌, ◌&&◌, not, All, All-map, if◌then◌else◌, Bool-cases, Option-cases,
  arith, eq_iff, eq_refl,
}
use kubemate.Base.Dict.{get}
use kubemate.Resource.{Resource, ResourceType, Env}
use kubemate.Storage.InMemory.{Store}
use kubemate.Discovery.{
  DiscoveryBody, ServiceEntry, entry_name, is_in, has_label, record_entry, record_entries,
  found_devices, populate_devices_from_mdns,
}
use kubemate.Discovery.Removal.{Named, is_gone, goes_away, sweep_lookup}
use kubemate.Discovery.Recorded.{
  Matches, record_entry-Recorded, record_entry_elsewhere, record_entry-Named,
}

module _ (T : ResourceType DiscoveryBody) (env : Env) (device_name : String) where
  -- No entry names the key, unless it is the own device's.
  abbrev pub Unnamed : String → ServiceEntry → Type 0
  Unnamed k e = entry_name e ≡ k → k ≡ device_name

  record_entries_elsewhere :
      (s : Store DiscoveryBody) (es : List ServiceEntry) (k : String)
      → All (Unnamed k) es
      → get k (record_entries T env device_name s es).items ≡ get k s.items
  record_entries_elsewhere s [] k h = refl
  record_entries_elsewhere s (e ∷ es) k h =
      record_entries_elsewhere (record_entry T env device_name s e) es k h.1
      ∙ record_entry_elsewhere T env device_name s e k h.0

  record_entries-Named :
      (s : Store DiscoveryBody) (es : List ServiceEntry)
      → Named s
      → Named (record_entries T env device_name s es)
  record_entries-Named s [] w = w
  record_entries-Named s (e ∷ es) w =
      record_entries-Named (record_entry T env device_name s e) es
        (record_entry-Named T env device_name s e w)

  populate_asked :
      (s : Store DiscoveryBody) (es : List ServiceEntry) (k : String)
      → Named s
      → let t = record_entries T env device_name s es in
        get k (populate_devices_from_mdns T env device_name s es true).0.items
        ≡ (if goes_away (found_devices T env device_name es) t k then none else get k t.items)
  unfolding populate_devices_from_mdns
  populate_asked s es k w =
      sweep_lookup T env device_name (found_devices T env device_name es)
        (record_entries T env device_name s es) none k (record_entries-Named s es w)

  in_found :
      (es : List ServiceEntry) (k : String)
      → All (Unnamed k) es
      → is_in (found_devices T env device_name es) k ≡ is_in (device_name ∷ []) k
  in_found [] k h = refl
  in_found (e ∷ es) k h = elim (Bool-cases (entry_name e == k)) [
    | inl same ↦
        let own : k ≡ device_name = h.0 ((eq_iff (entry_name e) k).0 same) in
        let hit : (device_name == k) ≡ true = (eq_iff device_name k).1 (sym own) in
        rw (same, hit) refl
    | inr other ↦ rw other (in_found es k h.1)
  ]

  same_gone :
      (s : Store DiscoveryBody) (es : List ServiceEntry) (k : String)
      → Named s
      → All (Unnamed k) es
      → goes_away (found_devices T env device_name es) s k ≡ goes_away (device_name ∷ []) s k
  same_gone s es k w h = elim (Option-cases (get k s.items)) [
    | inl e ↦ rw (goes_away, e) refl
    | inr (r, e) ↦
        let here : is_in (found_devices T env device_name es) r.name
            ≡ is_in (device_name ∷ []) r.name =
          subst (λ n. is_in (found_devices T env device_name es) n ≡ is_in (device_name ∷ []) n)
            (sym (w k r e)) (in_found es k h) in
        rw (goes_away, e) (ap (λ b. has_label r.body && not b) here)
  ]

  -- A discovery that gets its answer treats an object that no entry of another device names as
  -- follows: it is removed if it has the label of discovered devices and is not the own device's,
  -- else it stays as it was (if every object stands under its own name).
  pub populate_lookup :
      (s : Store DiscoveryBody) (es : List ServiceEntry) (k : String)
      → Named s
      → All (Unnamed k) es
      → get k (populate_devices_from_mdns T env device_name s es true).0.items
        ≡ (if goes_away (device_name ∷ []) s k then none else get k s.items)
  populate_lookup s es k w h =
      populate_asked s es k w
      ∙ ap
          (λ (o : Option (Resource DiscoveryBody)).
            if is_gone (found_devices T env device_name es) o then none else o)
          (record_entries_elsewhere s es k h)
      ∙ ap (λ (b : Bool). if b then none else get k s.items) (same_gone s es k w h)

  own_stays :
      (s : Store DiscoveryBody) → Named s → goes_away (device_name ∷ []) s device_name ≡ false
  own_stays s w = elim (Option-cases (get device_name s.items)) [
    | inl e ↦ rw (goes_away, e) refl
    | inr (r, e) ↦
        let name : (device_name == r.name) ≡ true =
          (eq_iff device_name r.name).1 (sym (w device_name r e)) in
        rw (goes_away, e, name) (ground arith)
  ]

  entries-Unnamed : (es : List ServiceEntry) → All (Unnamed device_name) es
  entries-Unnamed [] = tt
  entries-Unnamed (e ∷ es) = ((λ h. refl), entries-Unnamed es)

  -- A discovery leaves the own device's object as it was, whatever mDNS answers, also where it names
  -- the own device, and whether or not the query fails (if every object stands under its own name).
  pub populate_own :
      (s : Store DiscoveryBody) (es : List ServiceEntry) (asked : Bool)
      → Named s
      → get device_name (populate_devices_from_mdns T env device_name s es asked).0.items
        ≡ get device_name s.items
  unfolding populate_devices_from_mdns
  populate_own s es false w = record_entries_elsewhere s es device_name (entries-Unnamed es)
  populate_own s es true w =
      populate_lookup s es device_name w (entries-Unnamed es)
      ∙ ap (λ (b : Bool). if b then none else get device_name s.items) (own_stays s w)

  found_append :
      (es fs : List ServiceEntry) (e : ServiceEntry)
      → is_in (found_devices T env device_name (es ++ e ∷ fs)) (entry_name e) ≡ true
  found_append [] fs e = rw (eq_refl (entry_name e)) refl
  found_append (f ∷ es) fs e = ground (arith, found_append es fs e)

  found_stays :
      (found : List String) (t : Store DiscoveryBody) (k : String)
      → Named t
      → is_in found k ≡ true
      → goes_away found t k ≡ false
  found_stays found t k w h = elim (Option-cases (get k t.items)) [
    | inl e ↦ rw (goes_away, e) refl
    | inr (r, e) ↦
        let here : is_in found r.name ≡ true = ap (λ n. is_in found n) (w k r e) ∙ h in
        rw (goes_away, e) (ap (λ b. has_label r.body && not b) here ∙ ground arith)
  ]

  last_entry :
      (s : Store DiscoveryBody) (before after : List ServiceEntry) (e : ServiceEntry)
      → entry_name e ≢ device_name
      → All (λ f. entry_name f ≢ entry_name e) after
      → (r : Resource DiscoveryBody) × (get
            (entry_name e)
            (record_entries T env device_name s (before ++ e ∷ after)).items
          ≡ some r)
        × Matches e r.body
  last_entry s [] after e own later =
      let x =
        record_entry-Recorded T env device_name s e
          (ground (arith, eq_iff (entry_name e) device_name, own)) in
      (
        x.object,
        record_entries_elsewhere (record_entry T env device_name s e) after (entry_name e)
              (All-map _ (Unnamed (entry_name e)) after (λ f ne same. absurd (ne same)) later)
            ∙ x.there,
        x.matches,
      )
  last_entry s (f ∷ before) after e own later =
      last_entry (record_entry T env device_name s f) before after e own later

  -- After a discovery that gets its answer, each found device but the own one has an object with the
  -- address, the mode and the server of its last entry (if every object stood under its own name).
  pub populate-Matches :
      (s : Store DiscoveryBody) (before after : List ServiceEntry) (e : ServiceEntry)
      → Named s
      → entry_name e ≢ device_name
      → All (λ f. entry_name f ≢ entry_name e) after
      → (r : Resource DiscoveryBody) × (get
            (entry_name e)
            (populate_devices_from_mdns T env device_name s (before ++ e ∷ after) true).0.items
          ≡ some r)
        × Matches e r.body
  populate-Matches s before after e w own later =
      let es = before ++ e ∷ after in
      let (r, there, fits) = last_entry s before after e own later in
      let stays =
        found_stays (found_devices T env device_name es) (record_entries T env device_name s es)
          (entry_name e) (record_entries-Named s es w) (found_append before after e) in
      (
        r,
        populate_asked s es (entry_name e) w
            ∙ ap
                (λ (b : Bool).
                  if b
                  then none
                  else get (entry_name e) (record_entries T env device_name s es).items)
                stays
            ∙ there,
        fits,
      )
