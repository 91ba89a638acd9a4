-- ===== src/Reconciler/Mdns/Tracked.antt =====
-- pkg/reconciler/app/mdns_service_reconciler.go: no responder runs that the reconciler does not know of.
use kubemate.Base.{
  All-select, All-map, ℕ, String, ◌≡◌, refl, sym, ap, ◌∙◌, ◌⊎◌, inl, inr, Bool, true, none, some,
  List, [], ◌∷◌, ◌==◌, eq_iff, not, nat_eq, any, All, if◌then◌else◌, Option-cases, Bool-cases,
  arith,
}
use kubemate.Base.Dict.{
  Dict, get, put, remove, keys, get-put_self, get-put_ne, get-remove, get-remove_ne,
}
use kubemate.Resource.{Error}
use kubemate.Reconciler.Mdns.{
  Announcer, Answers, Config, Found, found, missing, refused, is_announced_type, to_mdns_entries,
  all_taken, advertize_service, advertize_entries, shutdown_mdns_server, reconcile, close_all,
  close,
}

-- The map knows the responder of this number.
pub record IsKnown (r : Announcer) (n : ℕ) : Type 0 where
  pub key : String
  pub entry : get key r.servers ≡ some n

abbrev pub Tracked : Announcer → Type 0
Tracked r = All (IsKnown r) r.running

module _ (r : Announcer) (key : String) where
  kept-IsKnown :
      (n : ℕ) (t : Announcer)
      → t.servers ≡ remove key r.servers
      → get key r.servers ≡ some n
      → (m : ℕ) → not (nat_eq n m) ≡ true
      → IsKnown r m
      → IsKnown t m
  kept-IsKnown n t st e m other k = elim (Bool-cases (key == k.key)) [
    | inl hit ↦
        let same : key ≡ k.key = (eq_iff key k.key).0 hit in
        let number : n ≡ m = cc (same, e, k.entry) in absurd (ground arith)
    | inr miss ↦ record {
      key = k.key;
      entry =
          ap (λ d. get k.key d) st
          ∙ get-remove_ne key k.key r.servers (λ p. cc ((eq_iff key k.key).1 p))
          ∙ k.entry;
    }
  ]

  shutdown-Tracked : Tracked r → Tracked (shutdown_mdns_server r key)
  unfolding shutdown_mdns_server
  shutdown-Tracked h = elim (Option-cases (get key r.servers)) [
    | inl e ↦ rw (shutdown_mdns_server, e) h
    | inr (n, e) ↦
        rw (shutdown_mdns_server, e)
          (All-select (IsKnown r) (IsKnown _) (λ m. not (nat_eq n m)) r.running
            (kept-IsKnown n _ refl e) h)
  ]

  -- A key that is free gets a new responder.
  added-IsKnown :
      (n : ℕ) (t : Announcer)
      → t.servers ≡ put key n r.servers
      → get key r.servers ≡ none
      → (m : ℕ) → IsKnown r m
      → IsKnown t m
  added-IsKnown n t st free m k = record {
    key = k.key;
    entry =
        ap (λ d. get k.key d) st
        ∙ get-put_ne key k.key n r.servers (λ p. cc (p, free, k.entry))
        ∙ k.entry;
  }

  advertize_service-Tracked :
      (w : Answers) (svcs : List Config)
      → get key r.servers ≡ none
      → Tracked r
      → Tracked (advertize_service r w key svcs).0
  unfolding advertize_service
  advertize_service-Tracked w svcs free h = elim (Option-cases w.responder) [
    | inl e ↦ rw (advertize_service, e) h
    | inr (n, e) ↦ elim (Bool-cases (all_taken w.takes svcs)) [
      | inl fine ↦
          rw (advertize_service, e, fine)
            (
              record { key = key; entry = get-put_self key n r.servers },
              All-map (IsKnown r) (IsKnown _) r.running (added-IsKnown n _ refl free) h,
            )
      | inr bad ↦ rw (advertize_service, e, bad) h
    ]
  ]

  advertize_entries-Tracked :
      (w : Answers) (o : Error ⊎ List Config)
      → get key r.servers ≡ none
      → Tracked r
      → Tracked (advertize_entries r w key o).0
  unfolding advertize_entries
  advertize_entries-Tracked w (inl e) free h = h
  advertize_entries-Tracked w (inr svcs) free h = advertize_service-Tracked w svcs free h

  reconcile-Tracked : (w : Answers) (f : Found) → Tracked r → Tracked (reconcile r w key f).0
  unfolding reconcile
  reconcile-Tracked w missing h = shutdown-Tracked h
  reconcile-Tracked w refused h = h
  reconcile-Tracked w (found svc) h = elim (Bool-cases (is_announced_type svc)) [
    | inr n ↦ rw (reconcile, n) (shutdown-Tracked h)
    | inl y ↦ elim (Option-cases (get key r.servers)) [
      | inr (n, e) ↦ rw (reconcile, y, e) h
      | inl e ↦
          rw (reconcile, y, e)
            (advertize_entries-Tracked w (to_mdns_entries r w.interfaces svc) e h)
    ]
  ]

-- Whether a key is among the given ones.
abbrev is_among : String → List String → Bool
is_among k ks = any (λ j. j == k) ks

get-keys : (m : Dict ℕ) (k : String) (n : ℕ) → get k m ≡ some n → is_among k (keys m) ≡ true
unfolding get
get-keys [] k n e = cc
get-keys ((j, v) ∷ m) k n e = elim (Bool-cases (j == k)) [
  | inl hit ↦ rw hit refl
  | inr miss ↦ rw miss (get-keys m k n (rw miss at e))
]

shutdown_servers :
    (r : Announcer) (key k : String)
    → get k (shutdown_mdns_server r key).servers ≡ (if key == k then none else get k r.servers)
unfolding shutdown_mdns_server
shutdown_servers r key k = elim (Option-cases (get key r.servers)) [
  | inl e ↦ elim (Bool-cases (key == k)) [
    | inl hit ↦
        rw (shutdown_mdns_server, e, hit)
          (ap (λ j. get j r.servers) (sym ((eq_iff key k).0 hit)) ∙ e)
    | inr miss ↦ rw (shutdown_mdns_server, e, miss) refl
  ]
  | inr (n, e) ↦ rw (shutdown_mdns_server, e) (get-remove key k r.servers)
]

-- Every key in use is among the given ones.
abbrev Covers : List String → Announcer → Type 0
Covers ks r = (k : String) (n : ℕ) → get k r.servers ≡ some n → is_among k ks ≡ true

tail-Covers :
    (r : Announcer) (key : String) (ks : List String)
    → Covers (key ∷ ks) r
    → Covers ks (shutdown_mdns_server r key)
tail-Covers r key ks c k n e = elim (Bool-cases (key == k)) [
  | inl hit ↦
      let gone : get k (shutdown_mdns_server r key).servers ≡ none =
        shutdown_servers r key k ∙ rw hit refl in
      cc (gone, e)
  | inr miss ↦
      let same : get k (shutdown_mdns_server r key).servers ≡ get k r.servers =
        shutdown_servers r key k ∙ rw miss refl in
      let there : is_among k (key ∷ ks) ≡ true = c k n (sym same ∙ e) in rw miss at there
]

close_all-Tracked : (r : Announcer) (ks : List String) → Tracked r → Tracked (close_all r ks)
unfolding close_all
close_all-Tracked r [] h = h
close_all-Tracked r (k ∷ ks) h =
    close_all-Tracked (shutdown_mdns_server r k) ks (shutdown-Tracked r k h)

close_all_empty :
    (r : Announcer) (ks : List String)
    → Covers ks r
    → (k : String) → get k (close_all r ks).servers ≡ none
unfolding close_all
close_all_empty r [] c k = elim (Option-cases (get k r.servers)) [
  | inl e ↦ e
  | inr (n, e) ↦ cc (c k n e)
]
close_all_empty r (key ∷ ks) c k =
    close_all_empty (shutdown_mdns_server r key) ks (tail-Covers r key ks c) k

none_running :
    (r : Announcer) (ns : List ℕ)
    → ((k : String) → get k r.servers ≡ none)
    → All (IsKnown r) ns
    → ns ≡ []
none_running r [] h t = refl
none_running r (n ∷ ns) h t = cc (h t.0.key, t.0.entry)

close_running : (r : Announcer) → Tracked r → (close r).running ≡ []
unfolding close
close_running r h =
    none_running (close_all r (keys r.servers)) _
      (close_all_empty r (keys r.servers) (λ k n e. get-keys r.servers k n e))
      (close_all-Tracked r (keys r.servers) h)

-- One reconciliation: what the calls answer, the service's key, and what the API server has.
pub record Round : Type 0 where
  pub answers : Answers
  pub key : String
  pub service : Found

abbrev pub run : Announcer → List Round → Announcer
run r [] = r
run r (x ∷ xs) = run (reconcile r x.answers x.key x.service).0 xs

-- However services come, change and go, and whichever calls fail: every responder that runs is known to
-- the reconciler under the key of a service, so a close at the end cancels them all. (The manager sets
-- the reconciler up once.)
pub run-Tracked :
    (r : Announcer) (xs : List Round)
    → Tracked r
    → Tracked (run r xs) × ((close (run r xs)).running ≡ [])
run-Tracked r [] h = (h, close_running r h)
run-Tracked r (x ∷ xs) h =
    run-Tracked (reconcile r x.answers x.key x.service).0 xs
      (reconcile-Tracked r x.key x.answers x.service h)
