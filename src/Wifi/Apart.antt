-- ===== src/Wifi/Apart.antt =====
-- pkg/wifi and reconcileWifiNetworkInterface: an access point and a station do not run at once.
use kubemate.Runner
use kubemate.Base.{
  String, ◌≡◌, ◌⊎◌, inl, inr, Bool, true, false, Option, [], ◌==◌, ◌||◌, ◌&&◌, not, if◌then◌else◌,
  Option-cases,
}
use kubemate.Resource.{Error}
use kubemate.Runner.Single.{IsSingle, no_process}
use kubemate.Reconciler.Device.{Ended, fine, panicked, failed}
use kubemate.Wifi.{
  accesspoint, Wifi, Restart, Answers, WifiSpec, fail, andthen, check, is_access_point,
  restart_wifi_interface, start_wifi_interface, stop_wifi_interface, first_country, detect_country,
  set_wifi_iface_country, enter_access_point, prepare,
}

-- Each runner has one process at most, and there is none of the access point, or none of the station.
pub record IsApart (a s d : Runner.Runner) : Type 0 where
  pub hostapd : IsSingle a
  pub supplicant : IsSingle s
  pub dhcpcd : IsSingle d
  pub apart : (a.alive ≡ []) ⊎ ((s.alive ≡ []) × (d.alive ≡ []))

abbrev pub OnlyAccessPoint : Runner.Runner → Runner.Runner → Runner.Runner → Type 0
OnlyAccessPoint a s d = IsSingle a × ((s.alive ≡ []) × (d.alive ≡ []))

abbrev pub OnlyStation : Runner.Runner → Runner.Runner → Runner.Runner → Type 0
OnlyStation a s d = (a.alive ≡ []) × (IsSingle s × IsSingle d)

pub access_point-IsApart : (a s d : Runner.Runner) → OnlyAccessPoint a s d → IsApart a s d
access_point-IsApart a s d (x, (y, z)) = record {
  hostapd = x;
  supplicant = no_process y;
  dhcpcd = no_process z;
  apart = inr (y, z);
}

pub station-IsApart : (a s d : Runner.Runner) → OnlyStation a s d → IsApart a s d
station-IsApart a s d (x, (y, z)) = record {
  hostapd = no_process x;
  supplicant = y;
  dhcpcd = z;
  apart = inl x;
}

-- What holds of the three runners, and does not depend on the rest of the state.
module _ (P : Runner.Runner → Runner.Runner → Runner.Runner → Type 0) where
  abbrev pub Has : Wifi → Type 0
  Has w = P w.ap w.supplicant w.dhcpcd

  pub andthen-Has :
      (o : Wifi × Ended) (f : Wifi → Wifi × Ended)
      → Has o.0
      → ((w : Wifi) → Has w → Has (f w).0)
      → Has (andthen o f).0
  andthen-Has (w, fine) f x k = k w x
  andthen-Has (w, panicked) f x k = x
  andthen-Has (w, failed e) f x k = x

  pub if-Has : (b : Bool) (o u : Wifi × Ended) → Has o.0 → Has u.0 → Has (if b then o else u).0
  if-Has true o u x y = x
  if-Has false o u x y = y

  pub restart-Has : (w : Wifi) (a : Restart) → Has w → Has (restart_wifi_interface w a).0
  unfolding restart_wifi_interface
  restart-Has w a x =
      if-Has (not a.down) (w, fail "restart wifi network interface") _ x
        (if-Has (not (a.flush && a.up))
          (record w { link_up = false }, fail "restart wifi network interface") _ x
          (elim (Option-cases a.scan) [ inl f ↦ rw f x | inr (l, f) ↦ rw f x ]))

  start_wifi_interface-Has : (w : Wifi) (a : Restart) → Has w → Has (start_wifi_interface w a).0
  unfolding start_wifi_interface
  start_wifi_interface-Has w a x =
      if-Has w.wifi_iface_started (w, fine) (restart_wifi_interface w a) x (restart-Has w a x)

  pub stop_wifi_interface-Has :
      (w : Wifi) (down : Bool) → Has w → Has (stop_wifi_interface w down).0
  unfolding stop_wifi_interface
  stop_wifi_interface-Has w down x =
      if-Has w.wifi_iface_started _ (w, fine)
        (if-Has down (record w { link_up = false; wifi_iface_started = false }, fine)
          (w, fail "stop wifi interface") x x)
        x

  detect_country-Has : (w : Wifi) → Has w → Has (detect_country w).0
  unfolding detect_country
  detect_country-Has w x =
      if-Has (not w.wifi_iface_started)
        (w, fail "cannot detect wifi country while wifi interface is down") _ x
        (if-Has (w.country_code == "") _ (w, fine)
          (elim (Option-cases (first_country w.networks)) [ inl f ↦ rw f x | inr (l, f) ↦ rw f x ])
          x)

  set_wifi_iface_country-Has :
      (w : Wifi) (c : String) (put : Option Error) → Has w → Has (set_wifi_iface_country w c put).0
  unfolding set_wifi_iface_country
  set_wifi_iface_country-Has w c put x =
      if-Has (c == "") _ (record w { country_code = c }, fine)
        (andthen-Has (detect_country (record w { country_code = c })) (λ w2. (w2, check put))
          (detect_country-Has (record w { country_code = c }) x) (λ w2 y. y))
        x

  pub prepare-Has :
      (quote : String → String) (w : Wifi) (spec : WifiSpec) (q : Answers)
      → Has w
      → Has (prepare quote w spec q).0
  unfolding prepare
  prepare-Has quote w spec q x =
      andthen-Has (start_wifi_interface w q.start_restart) _
        (start_wifi_interface-Has w q.start_restart x)
        (λ w1 y.
          andthen-Has (w1, check q.networks_stored) _ y
            (λ w2 z. set_wifi_iface_country-Has w2 spec.spec_country q.country_stored z))

  pub enter_access_point-Has :
      (quote : String → String) (w : Wifi) (q : Answers) (changed : Bool)
      → Has w
      → Has (enter_access_point quote w q changed).0
  unfolding enter_access_point
  enter_access_point-Has quote w q changed x =
      if-Has (changed || not (is_access_point w.mode)) _ (w, fine)
        (andthen-Has (restart_wifi_interface w q.mode_restart) _ (restart-Has w q.mode_restart x)
          (λ w1 y.
            if-Has q.add_address (record w1 { mode = accesspoint }, fine) (w1, fail "ip") y y))
        x
