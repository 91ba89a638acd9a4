-- ===== src/Ingress/Endpoints.antt =====
-- pkg/ingress/ingress.go: which endpoint a backend is sent to.
use kubemate.Base.Text.{cat}
use kubemate.Base.{
  sym, ℕ, ◌<◌, String, ◌≡◌, ◌⊎◌, inl, inr, Bool, true, false, Option, none, some, List, [], ◌∷◌,
  ◌==◌, ◌||◌, nat_eq, nat_eq_iff, eq_iff, ltb, ltb→lt, Option-cases, Bool-cases,
}
use kubemate.Base.Decimal.{decimal}
use kubemate.Resource.{Error}
use kubemate.Ingress.{
  ServicePort, Service, EndpointPort, Subset, find_port, first_address, search_subsets,
  endpoint_url, parsed, not_found_endpoint,
}

-- A port among those of an endpoint that has the service port's number or its name.
pub data Matched (port : ServicePort) : List EndpointPort → ℕ → Type 0 where
  this :
      (p : EndpointPort) {ps : List EndpointPort}
      → (p.port ≡ port.number) ⊎ (p.name ≡ port.name)
      → Matched port (p ∷ ps) p.port
  later :
      (p : EndpointPort) {ps : List EndpointPort} {n : ℕ}
      → Matched port ps n
      → Matched port (p ∷ ps) n

matched_test :
    (port : ServicePort) (p : EndpointPort)
    → (nat_eq p.port port.number || p.name == port.name) ≡ true
    → (p.port ≡ port.number) ⊎ (p.name ≡ port.name)
matched_test port p h = elim (Bool-cases (nat_eq p.port port.number)) [
  | inl e ↦ inl ((nat_eq_iff p.port port.number).0 e)
  | inr e ↦ inr ((eq_iff p.name port.name).0 (rw e at h))
]

find_port-Matched :
    (port : ServicePort) (ps : List EndpointPort) (n : ℕ)
    → find_port port ps ≡ some n
    → Matched port ps n
unfolding find_port
find_port-Matched port [] n h = cc
find_port-Matched port (p ∷ ps) n h =
    elim (Bool-cases (nat_eq p.port port.number || p.name == port.name)) [
      | inl e ↦
          let same : p.port ≡ n = cc (rw (e, find_port) at h) in
          rw (sym same) (this p (matched_test port p e))
      | inr e ↦ later p (find_port-Matched port ps n (rw (e, find_port) at h))
    ]

module _ {U : Type 0} (parse : String → Option U) where
  -- The URL is that of the first address that is not empty in some subset, with a port above 0 that
  -- the subset has and that matches the service's.
  pub data Served (protocol : String) (port : ServicePort) : List Subset → U → Type 0 where
    by :
        (s : Subset) {ss : List Subset} (n : ℕ) (ip : String) (u : U)
        → Matched port s.ports n
        → 0 < n
        → first_address s.addresses ≡ some ip
        → parse (cat protocol (cat "://" (cat ip (cat ":" (decimal n))))) ≡ some u
        → Served protocol port (s ∷ ss) u
    after :
        (s : Subset) {ss : List Subset} {u : U}
        → Served protocol port ss u
        → Served protocol port (s ∷ ss) u

  parsed-url : (o : Option U) (u : U) → parsed parse o ≡ inr u → o ≡ some u
  unfolding parsed
  parsed-url none u h = cc
  parsed-url (some v) u h = cc

  search_subsets-Served :
      (protocol : String) (port : ServicePort) (ss : List Subset) (b : Bool) (u : U)
      → search_subsets parse protocol port ss b ≡ inr u
      → Served protocol port ss u
  unfolding search_subsets not_found_endpoint
  search_subsets-Served protocol port [] b u h = cc
  search_subsets-Served protocol port (s ∷ ss) b u h =
      elim (Option-cases (find_port port s.ports)) [
        | inl e ↦ after s (search_subsets-Served protocol port ss b u (rw (e, search_subsets) at h))
        | inr (n, e) ↦ elim (Bool-cases (ltb 0 n)) [
          | inr z ↦
              after s (search_subsets-Served protocol port ss b u (rw (e, z, search_subsets) at h))
          | inl z ↦ elim (Option-cases (first_address s.addresses)) [
            | inl a ↦
                after s (
                  search_subsets-Served protocol port ss true u (rw (e, z, a, search_subsets) at h))
            | inr (ip, a) ↦
                by s n ip u (find_port-Matched port s.ports n e) (ltb→lt 0 n z) a
                  (parsed-url _ u (rw (e, z, a, search_subsets) at h))
          ]
        ]
      ]

  -- A backend's URL is made of what the client says of the service: it names a ready address of one of
  -- its endpoints, and a port there that has the service port's number or its name.
  pub endpoint_url-Served :
      (endpoints : String → String → Error ⊎ List Subset) (protocol : String) (svc : Service)
      (ns : String) (ss : List Subset) (u : U)
      → endpoints ns svc.name ≡ inr ss
      → endpoint_url parse endpoints protocol svc ns ≡ inr u
      → Served protocol svc.port ss u
  unfolding endpoint_url
  endpoint_url-Served endpoints protocol svc ns ss u e h =
      search_subsets-Served protocol svc.port ss false u (rw (e, endpoint_url) at h)
