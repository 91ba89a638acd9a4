-- ===== src/Ingress/Registered.antt =====
-- pkg/ingress/ingress.go: what newRouter registers where.
use kubemate.Base.Text.{cat}
use kubemate.Base.{
  All, ◌++◌, subst, String, ◌≡◌, sym, ◌∙◌, ◌⊎◌, inl, inr, Option, none, some, List, [], ◌∷◌, ◌==◌,
  eq_iff, Option-cases, Bool-cases,
}
use kubemate.Base.Dict.{Dict, get, put, get-put_self, get-put_ne}
use kubemate.Base.Sort.{sort}
use kubemate.Resource.{Error}
use kubemate.Ingress.{
  host_route, prefix_route, exact_route, Routes, Route, Handler, HttpPath, Rule, Ingress, Service,
  PathType, exact, prefix, implementation_specific, unsupported, IngressSettings, World, add_host,
  register, add_backend, add_new, add_path, and_then, add_paths, add_rules, add_ingress,
  add_ingresses, new_router, selected, validate_ingress_backend, endpoint_url, handler, no_routes,
  settings,
}

module _ {U : Type 0} where
  -- A route with a handler is one of the ingress that has its path, on some host.
  abbrev pub IsBacked : Dict String → Route U → Type 0
  IsBacked paths (host_route h) = Unit
  IsBacked paths (prefix_route p h) =
      (host : String) × (get (cat host p) paths ≡ some h.ingress_name)
  IsBacked paths (exact_route p h) =
      (host : String) × (get (cat host p) paths ≡ some h.ingress_name)

  IsBacked-owned :
      (a b : Dict String)
      → ((hp k : String) → get hp a ≡ some k → get hp b ≡ some k)
      → (rs : List (Route U)) → All (IsBacked a) rs
      → All (IsBacked b) rs
  IsBacked-owned a b f [] x = tt
  IsBacked-owned a b f (host_route h ∷ rs) x = (tt, IsBacked-owned a b f rs x.1)
  IsBacked-owned a b f (prefix_route p h ∷ rs) ((host, e), x) =
      ((host, f (cat host p) h.ingress_name e), IsBacked-owned a b f rs x)
  IsBacked-owned a b f (exact_route p h ∷ rs) ((host, e), x) =
      ((host, f (cat host p) h.ingress_name e), IsBacked-owned a b f rs x)

  IsBacked-append :
      (a : Dict String) (rs : List (Route U)) (r : Route U)
      → All (IsBacked a) rs
      → IsBacked a r
      → All (IsBacked a) (rs ++ r ∷ [])
  IsBacked-append a [] r x y = (y, tt)
  IsBacked-append a (q ∷ rs) r x y = (x.0, IsBacked-append a rs r x.1 y)

  -- From `s` to `t` no path has changed its ingress, the routes are of those that have their paths, and hosts' routers that had no routes have none.
  pub record Grown (s t : Routes U) : Type 0 where
    pub owned : (hp k : String) → get hp s.paths ≡ some k → get hp t.paths ≡ some k
    pub bare :
        ((host : String) (m : List (Route U)) → get host s.hosts ≡ some m → m ≡ [])
        → (host : String) (m : List (Route U)) → get host t.hosts ≡ some m
        → m ≡ []
    pub backed : All (IsBacked s.paths) s.root → All (IsBacked t.paths) t.root

  Grown-refl : (s : Routes U) → Grown s s
  Grown-refl s = record { owned = λ hp k h. h; bare = λ b. b; backed = λ x. x }

  Grown-trans : {s t u : Routes U} → Grown s t → Grown t u → Grown s u
  Grown-trans a b = record {
    owned = λ hp k h. b.owned hp k (a.owned hp k h);
    bare = λ e. b.bare (a.bare e);
    backed = λ x. b.backed (a.backed x);
  }

  -- A result is an error, or it has grown.
  abbrev pub Result : Routes U → Error ⊎ Routes U → Type 0
  Result s (inl e) = Unit
  Result s (inr t) = Grown s t

  Result-trans : {s t : Routes U} (r : Error ⊎ Routes U) → Grown s t → Result t r → Result s r
  Result-trans (inl e) a b = tt
  Result-trans (inr u) a b = Grown-trans a b

  and_then-Result :
      (w : World U) (f : Routes U → Error ⊎ Routes U) (s : Routes U) (r : Error ⊎ Routes U)
      → Result s r
      → ((t : Routes U) → Result t (f t))
      → Result s (and_then w f r)
  unfolding and_then
  and_then-Result w f s (inl e) x g = tt
  and_then-Result w f s (inr t) a g = Result-trans (f t) a (g t)

  register-Grown :
      (o : Option PathType) (path : String) (h : Handler U) (s : Routes U)
      → (host : String) × (get (cat host path) s.paths ≡ some h.ingress_name)
      → Grown s (register o path h s)
  unfolding register
  register-Grown none path h s y = record {
    owned = λ hp k e. e;
    bare = λ b. b;
    backed = λ x. IsBacked-append s.paths s.root (prefix_route path h) x y;
  }
  register-Grown (some exact) path h s y = record {
    owned = λ hp k e. e;
    bare = λ b. b;
    backed = λ x. IsBacked-append s.paths s.root (exact_route path h) x y;
  }
  register-Grown (some prefix) path h s y = record {
    owned = λ hp k e. e;
    bare = λ b. b;
    backed = λ x. IsBacked-append s.paths s.root (prefix_route path h) x y;
  }
  register-Grown (some implementation_specific) path h s y = record {
    owned = λ hp k e. e;
    bare = λ b. b;
    backed = λ x. IsBacked-append s.paths s.root (prefix_route path h) x y;
  }
  register-Grown (some (unsupported t)) path h s y = Grown-refl s

  -- A host's router starts without routes.
  add_host-Grown : (host : String) (s : Routes U) → Grown s (add_host host s)
  unfolding add_host
  add_host-Grown host s = elim (Bool-cases (host == "")) [
    | inl e ↦ rw (e, add_host) (Grown-refl s)
    | inr e ↦ elim (Option-cases (get host s.hosts)) [
      | inr (m, h) ↦ rw (e, h, add_host) (Grown-refl s)
      | inl h ↦
          rw (e, h, add_host)
            (record {
              owned = λ hp k x. x;
              backed = λ x. IsBacked-append s.paths s.root (host_route host) x tt;
              bare = λ b j m x. elim (Bool-cases (host == j)) [
                | inl same ↦
                    let at_host : get host (put host [] s.hosts) ≡ some [] =
                      get-put_self host [] s.hosts in
                    cc (at_host, (eq_iff host j).0 same)
                | inr other ↦
                    b j m (sym (get-put_ne host j [] s.hosts (λ p. cc ((eq_iff host j).1 p))) ∙ x)
              ];
            })
    ]
  ]

  module _ (w : World U) where
    -- A path that is not in use is taken.
    taken :
        (hp key : String) (s : Routes U)
        → get hp s.paths ≡ none
        → Grown s (record s { paths = put hp key s.paths })
    taken hp key s free = record {
      owned = λ j k h. elim (Bool-cases (hp == j)) [
        | inl same ↦ cc (free, (eq_iff hp j).0 same)
        | inr other ↦ get-put_ne hp j key s.paths (λ p. cc ((eq_iff hp j).1 p)) ∙ h
      ];
      bare = λ b. b;
      backed = λ x.
          IsBacked-owned s.paths (put hp key s.paths)
            (λ j k h. elim (Bool-cases (hp == j)) [
              | inl same ↦ cc (free, (eq_iff hp j).0 same)
              | inr other ↦ get-put_ne hp j key s.paths (λ p. cc ((eq_iff hp j).1 p)) ∙ h
            ])
            s.root x;
    }

    add_backend-Result :
        (c : IngressSettings) (key host : String) (p : HttpPath) (svc : Service) (s : Routes U)
        (r : Error ⊎ U)
        → get (cat host p.path) s.paths ≡ some key
        → Result s (add_backend w c key p svc s r)
    unfolding add_backend handler
    add_backend-Result c key host p svc s (inl e) own = Grown-refl s
    add_backend-Result c key host p svc s (inr u) own =
        register-Grown p.path_type p.path (handler w c key p svc u) s (host, own)

    add_new-Result :
        (c : IngressSettings) (key ns host : String) (p : HttpPath) (s : Routes U)
        → get (cat host p.path) s.paths ≡ none
        → Result s (add_new w c key ns host p s)
    unfolding add_new
    add_new-Result c key ns host p s free =
        let used : Routes U = record s { paths = put (cat host p.path) key s.paths } in
        elim (Option-cases p.backend.service) [
          | inl e ↦ rw (e, add_new) (taken (cat host p.path) key s free)
          | inr (svc, e) ↦
              rw (e, add_new)
                (Result-trans
                  (add_backend w c key p svc used
                    (endpoint_url w.parse w.endpoints c.backend_protocol svc ns))
                  (taken (cat host p.path) key s free)
                  (add_backend-Result c key host p svc used
                    (endpoint_url w.parse w.endpoints c.backend_protocol svc ns)
                    (get-put_self (cat host p.path) key s.paths)))
        ]

    add_path-Result :
        (c : IngressSettings) (key ns host : String) (p : HttpPath) (s : Routes U)
        → Result s (add_path w c key ns host p s)
    unfolding add_path
    add_path-Result c key ns host p s = elim (Option-cases (validate_ingress_backend p.backend)) [
      | inr (x, e) ↦ rw (e, add_path) (Grown-refl s)
      | inl e ↦ elim (Option-cases (get (cat host p.path) s.paths)) [
        | inr (k, h) ↦ rw (e, h, add_path) tt
        | inl h ↦ rw (e, h, add_path) (add_new-Result c key ns host p s h)
      ]
    ]

    add_paths-Result :
        (c : IngressSettings) (key ns host : String) (ps : List HttpPath) (s : Routes U)
        → Result s (add_paths w c key ns host ps s)
    unfolding add_paths
    add_paths-Result c key ns host [] s = Grown-refl s
    add_paths-Result c key ns host (p ∷ ps) s =
        and_then-Result w (add_paths w c key ns host ps) s (add_path w c key ns host p s)
          (add_path-Result c key ns host p s) (add_paths-Result c key ns host ps)

    add_rules-Result :
        (c : IngressSettings) (key ns : String) (rs : List Rule) (s : Routes U)
        → Result s (add_rules w c key ns rs s)
    unfolding add_rules
    add_rules-Result c key ns [] s = Grown-refl s
    add_rules-Result c key ns (r ∷ rs) s =
        and_then-Result w (add_rules w c key ns rs) s
          (add_paths w c key ns r.host r.paths (add_host r.host s))
          (Result-trans (add_paths w c key ns r.host r.paths (add_host r.host s))
            (add_host-Grown r.host s)
            (add_paths-Result c key ns r.host r.paths (add_host r.host s)))
          (add_rules-Result c key ns rs)

    add_ingress-Result :
        (key : String) (o : Option Ingress) (s : Routes U) → Result s (add_ingress w key o s)
    unfolding add_ingress
    add_ingress-Result key none s = Grown-refl s
    add_ingress-Result key (some ing) s =
        add_rules-Result (settings w.to_lower w.parse_query ing.annotations) key ing.namespace
          ing.rules s

    add_ingresses-Result :
        (m : Dict Ingress) (ks : List String) (s : Routes U) → Result s (add_ingresses w m ks s)
    unfolding add_ingresses
    add_ingresses-Result m [] s = Grown-refl s
    add_ingresses-Result m (k ∷ ks) s =
        and_then-Result w (add_ingresses w m ks) s (add_ingress w k (get k m) s)
          (add_ingress-Result k (get k m) s) (add_ingresses-Result m ks)

    new_router-Result :
        (items : List Ingress) (class : String)
        → Result (no_routes w) (new_router w (inr items) class)
    unfolding new_router
    new_router-Result items class =
        add_ingresses-Result (selected w class items ([], [])).1
          (sort (selected w class items ([], [])).0) (no_routes w)

    -- The router of each host is left without routes: whatever the ingresses say, no path is registered
    -- on the router that was made for its host.
    pub new_router-bare :
        (items : List Ingress) (class : String) (t : Routes U) (host : String)
        (routes : List (Route U))
        → new_router w (inr items) class ≡ inr t
        → get host t.hosts ≡ some routes
        → routes ≡ []
    unfolding get
    new_router-bare items class t host routes e h =
        (subst (Result (no_routes w)) e (new_router-Result items class)).bare (λ j m x. cc) host
          routes h
