-- ===== src/Discovery/Recorded.antt =====
-- pkg/discovery/device_discovery.go: what a discovery writes of the devices that it has found.
use kubemate.Base.{
  subst, ℕ, String, ◌≡◌, ◌≢◌, refl, sym, ap, ◌∙◌, inl, inr, true, false, none, some, ◌==◌,
  Bool-cases, Option-cases, arith, eq_iff,
}
use kubemate.Base.Text.{text}
use kubemate.Base.Dict.{get}
use kubemate.Resource.{Resource, ResourceType, not_found, Outcome, Env}
use kubemate.Storage.InMemory.{Store, get_item, set_gvk, set_resource_version}
use kubemate.Storage.InMemory.Contents.{
  UpdateCases, missing, failed, outdated, stored, create_cases, update_cases,
}
use kubemate.Storage.Interface.Memory.{memory, create-body, versioned-body, closure}
use kubemate.Discovery.{
  DiscoveryBody, ServiceEntry, entry_name, entry_address, get_mdns_entry_field,
  mdns_field_device_mode, mdns_field_server, discovered, modify, same_spec, fresh, record_known,
  record_entry,
}
use kubemate.Discovery.Removal.{Named}

-- The object says what the entry says.
pub record Matches (e : ServiceEntry) (b : DiscoveryBody) : Type 0 where
  pub address : b.address ≡ entry_address e
  pub mode : b.mode ≡ text (get_mdns_entry_field e.info_fields mdns_field_device_mode)
  pub server : b.server ≡ text (get_mdns_entry_field e.info_fields mdns_field_server)

discovered-Matches : (e : ServiceEntry) (b : DiscoveryBody) → Matches e (discovered e b)
unfolding discovered
discovered-Matches e b = record { address = refl; mode = refl; server = refl }

same_spec-Matches :
    (e : ServiceEntry) (b : DiscoveryBody) → same_spec b (discovered e b) ≡ true → Matches e b
unfolding discovered
same_spec-Matches e b h =
    let m = text (get_mdns_entry_field e.info_fields mdns_field_device_mode) in
    let v = text (get_mdns_entry_field e.info_fields mdns_field_server) in
    record {
      address = (eq_iff b.address (entry_address e)).0 (ground arith);
      mode = (eq_iff b.mode m).0 (ground arith);
      server = (eq_iff b.server v).0 (ground arith);
    }

module _ {B : Type 0} (T : ResourceType B) where
  versioned-name : (n : ℕ) (r : Resource B) → (set_resource_version n (set_gvk T r)).name ≡ r.name
  unfolding set_resource_version set_gvk
  versioned-name n r = elim (Option-cases T.object_kind) [
    | inl e ↦ rw (set_gvk, e) refl
    | inr (vk, e) ↦ rw (set_gvk, e) refl
  ]

-- `t` has an object of the entry's device, named after it, and what `s` has elsewhere.
pub record Recorded (e : ServiceEntry) (s t : Store DiscoveryBody) : Type 0 where
  pub object : Resource DiscoveryBody
  pub there : get (entry_name e) t.items ≡ some object
  pub named : Named s → object.name ≡ entry_name e
  pub matches : Matches e object.body
  pub elsewhere : (k : String) → entry_name e ≢ k → get k t.items ≡ get k s.items

module _ (T : ResourceType DiscoveryBody) (env : Env) (device_name : String) where
  create-Recorded :
      (s : Store DiscoveryBody) (e : ServiceEntry) (o : Resource DiscoveryBody)
      → get (entry_name e) s.items ≡ none
      → Recorded e s ((memory T env).create s (entry_name e) (modify e o)).state
  create-Recorded s e o h = elim (create_cases T s env (entry_name e) (modify e o)) [
    | inl (h', c, n) ↦ record {
      object = ((memory T env).create s (entry_name e) (modify e o)).out;
      there = c.wrote.there;
      named = λ w. n;
      matches =
          subst (Matches e) (sym (create-body T env s (entry_name e) (modify e o) h))
            (discovered-Matches e o.body);
      elsewhere = c.wrote.elsewhere;
    }
    | inr (n, r, o') ↦ absurd (n h)
  ]

  updated-Recorded :
      (s : Store DiscoveryBody) (e : ServiceEntry) (old o : Resource DiscoveryBody)
      (u : Outcome (Store DiscoveryBody × Unit {0}) DiscoveryBody)
      → get (entry_name e) s.items ≡ some old
      → UpdateCases T s tt
          (entry_name e)
          (closure T env s (entry_name e) o (λ r. (modify e r, none)))
          u
      → Recorded e s u.state.0
  updated-Recorded s e old o u h (missing h' st er) = cc
  updated-Recorded s e old o u h (failed x err a b st er) = cc
  updated-Recorded s e old o u h (outdated x a b c st er) = absurd (c refl)
  updated-Recorded s e old o u h (stored x a b c d st out) = record {
    object = u.out;
    there = d.wrote.there;
    named = λ w.
        ap (λ (r : Resource DiscoveryBody). r.name) out
        ∙ versioned-name T _ (modify e x)
        ∙ w (entry_name e) x a;
    matches =
        subst (Matches e)
          (sym
            (ap (λ (r : Resource DiscoveryBody). r.body) out ∙ versioned-body T env _ (modify e x)))
          (discovered-Matches e x.body);
    elsewhere = d.wrote.elsewhere;
  }

  get_missing :
      (s : Store DiscoveryBody) (k : String) (o : Resource DiscoveryBody)
      → get k s.items ≡ none
      → (memory T env).get s k o
        ≡ record { state = s; out = o; err = some (not_found T.group_resource k) }
  unfolding get_item
  get_missing s k o h = rw (h, get_item) refl

  get_found :
      (s : Store DiscoveryBody) (k : String) (o r : Resource DiscoveryBody)
      → get k s.items ≡ some r
      → (memory T env).get s k o ≡ record { state = s; out = r; err = none }
  unfolding get_item
  get_found s k o r h = rw (h, get_item) refl

  found-Recorded :
      (s : Store DiscoveryBody) (e : ServiceEntry) (r : Resource DiscoveryBody)
      → get (entry_name e) s.items ≡ some r
      → Recorded e s
          (record_known T env device_name s e (record { state = s; out = r; err = none }))
  unfolding record_known
  found-Recorded s e r h = elim (Bool-cases (same_spec r.body (discovered e r.body))) [
    | inl same ↦
        rw (record_known, same)
          (record {
            object = r;
            there = h;
            named = λ w. w (entry_name e) r h;
            matches = same_spec-Matches e r.body same;
            elsewhere = λ k ne. refl;
          })
    | inr changed ↦
        rw (record_known, changed)
          (updated-Recorded s e r (modify e r) _ h (
            update_cases T s env (entry_name e) tt (modify e r)
              (closure T env s (entry_name e) (modify e r) (λ r. (modify e r, none)))))
  ]

  pub record_entry-Recorded :
      (s : Store DiscoveryBody) (e : ServiceEntry)
      → (entry_name e == device_name) ≡ false
      → Recorded e s (record_entry T env device_name s e)
  unfolding record_entry record_known
  record_entry-Recorded s e n =
      let o = fresh T env device_name (entry_name e) in
      elim (Option-cases (get (entry_name e) s.items)) [
        | inl h ↦
            rw (record_entry, n)
              (subst (λ got. Recorded e s (record_known T env device_name s e got))
                (sym (get_missing s (entry_name e) o h)) (create-Recorded s e o h))
        | inr (r, h) ↦
            rw (record_entry, n)
              (subst (λ got. Recorded e s (record_known T env device_name s e got))
                (sym (get_found s (entry_name e) o r h)) (found-Recorded s e r h))
      ]

  record_entry_own :
      (s : Store DiscoveryBody) (e : ServiceEntry)
      → (entry_name e == device_name) ≡ true
      → record_entry T env device_name s e ≡ s
  unfolding record_entry
  record_entry_own s e n = rw (record_entry, n) refl

  -- What an entry does not name stays as it is, and so does the own device.
  pub record_entry_elsewhere :
      (s : Store DiscoveryBody) (e : ServiceEntry) (k : String)
      → (entry_name e ≡ k → k ≡ device_name)
      → get k (record_entry T env device_name s e).items ≡ get k s.items
  record_entry_elsewhere s e k h = elim (Bool-cases (entry_name e == device_name)) [
    | inl own ↦ ap (λ (t : Store DiscoveryBody). get k t.items) (record_entry_own s e own)
    | inr n ↦
        (record_entry-Recorded s e n).elsewhere k
          (λ same. absurd (ground (arith, eq_iff (entry_name e) device_name, h same, same, n)))
  ]

  pub record_entry-Named :
      (s : Store DiscoveryBody) (e : ServiceEntry)
      → Named s
      → Named (record_entry T env device_name s e)
  record_entry-Named s e w k r h = elim (Bool-cases (entry_name e == device_name)) [
    | inl own ↦
        w k r (ap (λ (t : Store DiscoveryBody). get k t.items) (sym (record_entry_own s e own)) ∙ h)
    | inr n ↦
        let x = record_entry-Recorded s e n in
        elim (Bool-cases (entry_name e == k)) [
          | inl same ↦
              let at_k : entry_name e ≡ k = (eq_iff (entry_name e) k).0 same in
              let there : get k (record_entry T env device_name s e).items ≡ some x.object =
                ap (λ j. get j (record_entry T env device_name s e).items) (sym at_k) ∙ x.there in
              let one : x.object ≡ r = cc in
              ap (λ (o : Resource DiscoveryBody). o.name) (sym one) ∙ x.named w ∙ at_k
          | inr other ↦
              w k r
                (sym (x.elsewhere k (λ same. absurd (ground (arith, eq_iff (entry_name e) k)))) ∙ h)
        ]
  ]
