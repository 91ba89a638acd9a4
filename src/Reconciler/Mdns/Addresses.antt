-- ===== src/Reconciler/Mdns/Addresses.antt =====
-- pkg/reconciler/app/mdns_service_reconciler.go: which addresses are announced.
use mathlib.Core.List.{Memᴰ}
use kubemate.Base.{
  subst, All-map, ℕ, String, ◌≡◌, refl, sym, ◌∙◌, inl, inr, true, false, some, List, [], ◌∷◌, ◌==◌,
  eq_iff, map, All, if◌then◌else◌, Option-cases, Bool-cases,
}
use kubemate.Base.Dict.{Dict, get, put, get-put_self, get-put_ne}
use kubemate.Resource.{message}
use kubemate.Reconciler.Mdns.{
  Address, Interface, is_usable, is_nil, interface_ips, iface_ip_map, ips_of,
  ips_for_network_interfaces,
}

-- An interface of this name has a usable address with this number.
pub record IsOffered (ifaces : List Interface) (name : String) (ip : ℕ) : Type 0 where
  pub interface : Interface
  pub listed : Memᴰ interface ifaces
  pub named : interface.name ≡ name
  pub addresses : List Address
  pub known : interface.addrs ≡ some addresses
  pub address : Address
  pub held : Memᴰ address addresses
  pub usable : is_usable address ≡ true
  pub number : address.ip ≡ ip

module _ (P : String → ℕ → Type 0) where
  abbrev Entries : Dict ℕ → Type 0
  Entries m = (n : String) (ip : ℕ) → get n m ≡ some ip → P n ip

  put-Entries : (m : Dict ℕ) (name : String) (v : ℕ) → P name v → Entries m → Entries (put name v m)
  put-Entries m name v p h n ip e = elim (Bool-cases (name == n)) [
    | inl hit ↦
        let same : name ≡ n = (eq_iff name n).0 hit in
        let value : v ≡ ip = cc (same, get-put_self name v m, e) in rw (← same, ← value) p
    | inr miss ↦ h n ip (sym (get-put_ne name n v m (λ q. cc ((eq_iff name n).1 q))) ∙ e)
  ]

  interface_ips-Entries :
      (name : String) (as' : List Address) (m : Dict ℕ)
      → ((a : Address) → Memᴰ a as' → is_usable a ≡ true → P name a.ip)
      → Entries m
      → Entries (interface_ips name as' m)
  unfolding interface_ips
  interface_ips-Entries name [] m f h = h
  interface_ips-Entries name (a ∷ as') m f h = elim (Bool-cases (is_usable a)) [
    | inl e ↦ rw e (
        interface_ips-Entries name as' (put name a.ip m) (λ b d. f b (Memᴰ.tail d))
          (put-Entries m name a.ip (f a (Memᴰ.head refl) e) h))
    | inr e ↦ rw e (interface_ips-Entries name as' m (λ b d. f b (Memᴰ.tail d)) h)
  ]

  iface_ip_map-Entries :
      (is : List Interface) (m : Dict ℕ)
      → ((i : Interface) (as' : List Address) (a : Address)
          → Memᴰ i is
          → i.addrs ≡ some as'
          → Memᴰ a as'
          → is_usable a ≡ true
          → P i.name a.ip)
      → Entries m
      → Entries (iface_ip_map is m)
  unfolding iface_ip_map
  iface_ip_map-Entries [] m f h = h
  iface_ip_map-Entries (i ∷ is) m f h = elim (Option-cases i.addrs) [
    | inl e ↦ rw e (iface_ip_map-Entries is m (λ j as' a d. f j as' a (Memᴰ.tail d)) h)
    | inr (as', e) ↦ rw e (
        iface_ip_map-Entries is (interface_ips i.name as' m) (λ j bs a d. f j bs a (Memᴰ.tail d))
          (interface_ips-Entries i.name as' m (λ a d u. f i as' a (Memᴰ.head refl) e d u) h))
  ]

  ips_of-Entries :
      (m : Dict ℕ) (ns : List String)
      → Entries m
      → All (λ ip. (n : String) × Memᴰ n ns × P n ip) (ips_of m ns)
  unfolding ips_of
  ips_of-Entries m [] h = tt
  ips_of-Entries m (n ∷ ns) h =
      let rest = ips_of-Entries m ns h in
      let later =
        All-map (λ ip. (k : String) × Memᴰ k ns × P k ip)
          (λ ip. (k : String) × Memᴰ k (n ∷ ns) × P k ip) (ips_of m ns)
          (λ ip x. (x.0, Memᴰ.tail x.1, x.2)) rest in
      elim (Option-cases (get n m)) [
        | inl e ↦ rw (ips_of, e) later
        | inr (ip, e) ↦ rw (ips_of, e) ((n, Memᴰ.head refl, h n ip e), later)
      ]

abbrev pub wanted : List String → List Interface → List String
wanted names ifaces = if is_nil names then map (λ (i : Interface). i.name) ifaces else names

no_entry : (P : String → ℕ → Type 0) (n : String) (ip : ℕ) → get {V = ℕ} n [] ≡ some ip → P n ip
unfolding get
no_entry P n ip e = cc

unless_nil :
    (xs ips : List ℕ)
    → (if is_nil xs then inl (message "no IP available") else inr xs) ≡ inr ips
    → (xs ≡ ips) × (is_nil ips ≡ false)
unless_nil [] ips e = cc
unless_nil (x ∷ xs) ips e = let same : x ∷ xs ≡ ips = cc in (same, rw (← same) refl)

-- The addresses to announce: if any are found, each is a usable address that the kernel tells of an
-- interface with one of the wanted names (of any interface if no names are wanted); and there is one.
pub ips_for_network_interfaces-IsOffered :
    (names : List String) (ifaces : List Interface) (ips : List ℕ)
    → ips_for_network_interfaces names (some ifaces) ≡ inr ips
    → All (λ ip. (n : String) × Memᴰ n (wanted names ifaces) × IsOffered ifaces n ip) ips
      × (is_nil ips ≡ false)
unfolding ips_for_network_interfaces
ips_for_network_interfaces-IsOffered names ifaces ips e =
    let m = iface_ip_map ifaces [] in
    let all = ips_of-Entries (IsOffered ifaces) m (wanted names ifaces) (
      iface_ip_map-Entries (IsOffered ifaces) ifaces []
        (λ i as' a d k f u. record {
          interface = i;
          listed = d;
          named = refl;
          addresses = as';
          known = k;
          address = a;
          held = f;
          usable = u;
          number = refl;
        })
        (λ n ip x. no_entry (IsOffered ifaces) n ip x)) in
    let (same, some_found) = unless_nil (ips_of m (wanted names ifaces)) ips e in
    (
      subst
          (λ xs. All (λ ip. (n : String) × Memᴰ n (wanted names ifaces) × IsOffered ifaces n ip) xs)
          same all,
      some_found,
    )
