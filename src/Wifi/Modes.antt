-- ===== src/Wifi/Modes.antt =====
-- pkg/wifi and reconcileWifiNetworkInterface: an access point and a station do not run at once, and a
-- disabled interface runs neither.
use kubemate.Runner
use kubemate.Base.{
  ℕ, String, ◌≡◌, ◌⊎◌, refl, inl, inr, Bool, true, false, Option, none, some, List, [], ◌∷◌, ◌==◌,
  ◌||◌, not, All, Bool-cases,
}
use kubemate.Runner.Single.{no_process, NotLost, stop_alone, start-IsSingle, exit-IsSingle}
use kubemate.Reconciler.Device.{fine}
use kubemate.Wifi.{
  WifiMode, disabled, station, accesspoint, Wifi, Restart, Answers, WifiSpec, fail, is_access_point,
  is_station, restart_wifi_interface, stop_access_point, stop_station, start_ap, enter_access_point,
  start_access_point, start_wpa_supplicant, start_dhcpcd, enter_station, start_station, prepare,
  ap_with_password, station_with_password, with_hostapd_conf, with_interfaces_conf,
  with_supplicant_conf, reconcile_mode, reconcile_wifi_network_interface,
}
use kubemate.Wifi.Apart.{
  IsApart, OnlyAccessPoint, OnlyStation, access_point-IsApart, station-IsApart, Has, andthen-Has,
  if-Has, restart-Has, stop_wifi_interface-Has, prepare-Has, enter_access_point-Has,
}

-- What happens to the interface: a reconciliation, or the exit of a process.
pub data Event : Type 0 where
  reconciles : WifiSpec → Answers → Event
  exits : ℕ → Event

exit_none : (r : Runner.Runner) (n : ℕ) → r.alive ≡ [] → (Runner.exit r n).alive ≡ []
unfolding Runner.exit
exit_none r n e = rw e refl

stop_station-Only : (w : Wifi) → Has IsApart w → Has OnlyAccessPoint (stop_station w)
unfolding stop_station
stop_station-Only w x =
    (x.hostapd, (stop_alone w.supplicant x.supplicant, stop_alone w.dhcpcd x.dhcpcd))

stop_access_point-Has :
    (P : Runner.Runner → Runner.Runner → Runner.Runner → Type 0) (w : Wifi) (a : Restart)
    → P (Runner.stop w.ap) w.supplicant w.dhcpcd
    → Has P (stop_access_point w a)
unfolding stop_access_point
stop_access_point-Has P w a x = elim (Bool-cases (is_access_point w.mode)) [
  | inl e ↦ rw (stop_access_point, e) (restart-Has P (record w { ap = Runner.stop w.ap }) a x)
  | inr e ↦ rw (stop_access_point, e) x
]

-- A link that is up belongs to an interface that counts as started.
abbrev pub Known : Wifi → Type 0
Known w = (w.link_up ≡ false) ⊎ (w.wifi_iface_started ≡ true)

-- No process is left.
abbrev pub NoProcess : Runner.Runner → Runner.Runner → Runner.Runner → Type 0
NoProcess a s d = (a.alive ≡ []) × ((s.alive ≡ []) × (d.alive ≡ []))

module _ (quote : String → String) where
  start_ap-Only :
      (w : Wifi) (a : Runner.Attempt) (conf : String)
      → NotLost a.launch
      → Has OnlyAccessPoint w
      → Has OnlyAccessPoint (start_ap quote w a conf).0
  unfolding start_ap
  start_ap-Only w a conf kept (x, y) = (start-IsSingle quote w.ap a _ kept x, y)

  with_hostapd_conf-Only :
      (w : Wifi) (q : Answers) (changed : Bool) (c : Option (String × Bool))
      → NotLost q.ap_launch.launch
      → Has OnlyAccessPoint w
      → Has OnlyAccessPoint (with_hostapd_conf quote w q changed c).0
  unfolding with_hostapd_conf
  with_hostapd_conf-Only w q changed none kept x = x
  with_hostapd_conf-Only w q changed (some (path, new)) kept x =
      andthen-Has OnlyAccessPoint (enter_access_point quote w q (changed || new)) _
        (enter_access_point-Has OnlyAccessPoint quote w q (changed || new) x)
        (λ w1 y. start_ap-Only w1 q.ap_launch path kept y)

  with_interfaces_conf-Only :
      (w : Wifi) (q : Answers) (c : Option Bool)
      → NotLost q.ap_launch.launch
      → Has OnlyAccessPoint w
      → Has OnlyAccessPoint (with_interfaces_conf quote w q c).0
  unfolding with_interfaces_conf
  with_interfaces_conf-Only w q none kept x = x
  with_interfaces_conf-Only w q (some changed) kept x =
      with_hostapd_conf-Only w q changed q.conf kept x

  ap_with_password-Only :
      (p : Option String) (q : Answers) (w : Wifi)
      → NotLost q.ap_launch.launch
      → Has OnlyAccessPoint w
      → Has OnlyAccessPoint (ap_with_password quote p q w).0
  unfolding ap_with_password start_access_point
  ap_with_password-Only none q w kept x = x
  ap_with_password-Only (some p) q w kept x =
      if-Has OnlyAccessPoint (p == "") (w, fail "start accesspoint: no wifi password configured") _
        x (with_interfaces_conf-Only w q q.interfaces_conf kept x)

  enter_station-Only :
      (w : Wifi) (q : Answers) (changed : Bool)
      → Has OnlyStation w
      → Has OnlyStation (enter_station quote w q changed).0
  unfolding enter_station
  enter_station-Only w q changed x =
      if-Has OnlyStation (changed || not (is_station w.mode)) _ (w, fine)
        (andthen-Has OnlyStation (restart_wifi_interface w q.mode_restart) _
          (restart-Has OnlyStation w q.mode_restart x)
          (λ w1 y. (y.0, (no_process (stop_alone w1.supplicant y.1.0), y.1.1))))
        x

  -- The launches of a reconciliation lose no process.
  abbrev pub IsKept : Answers → Type 0
  IsKept q =
      NotLost q.ap_launch.launch
      × (NotLost q.station_launch.launch × NotLost q.dhcpcd_launch.launch)

  with_supplicant_conf-Only :
      (w : Wifi) (q : Answers) (c : Option (String × Bool))
      → IsKept q
      → Has OnlyStation w
      → Has OnlyStation (with_supplicant_conf quote w q c).0
  unfolding with_supplicant_conf start_wpa_supplicant start_dhcpcd
  with_supplicant_conf-Only w q none kept x = x
  with_supplicant_conf-Only w q (some (path, new)) kept x =
      andthen-Has OnlyStation (enter_station quote w q new) _ (enter_station-Only w q new x)
        (λ w1 y.
          andthen-Has OnlyStation (start_wpa_supplicant quote w1 q.station_launch path) _
            (y.0, (start-IsSingle quote w1.supplicant q.station_launch _ kept.1.0 y.1.0, y.1.1))
            (λ w2 z.
              andthen-Has OnlyStation (start_dhcpcd quote w2 q.dhcpcd_launch) _
                (z.0, (z.1.0, start-IsSingle quote w2.dhcpcd q.dhcpcd_launch _ kept.1.1 z.1.1))
                (λ w3 u. u)))

  station_with_password-Only :
      (p : Option String) (q : Answers) (w : Wifi)
      → IsKept q
      → Has OnlyStation w
      → Has OnlyStation (station_with_password quote p q w).0
  unfolding station_with_password start_station
  station_with_password-Only none q w kept x = x
  station_with_password-Only (some p) q w kept x =
      if-Has OnlyStation (w.country_code == "") (w, fail "country code not specified") _ x
        (with_supplicant_conf-Only w q q.conf kept x)

  reconcile_mode-IsApart :
      (m : WifiMode) (w : Wifi) (spec : WifiSpec) (q : Answers)
      → IsKept q
      → Has IsApart w
      → Has IsApart (reconcile_mode quote m w spec q).0
  unfolding reconcile_mode
  reconcile_mode-IsApart accesspoint w spec q kept x = access_point-IsApart _ _ _ (
      andthen-Has OnlyAccessPoint (prepare quote (stop_station w) spec q)
        (ap_with_password quote q.password q)
        (prepare-Has OnlyAccessPoint quote (stop_station w) spec q (stop_station-Only w x))
        (λ w1 y. ap_with_password-Only q.password q w1 kept.0 y))
  reconcile_mode-IsApart station w spec q kept x =
      let stopped = stop_access_point w q.stop_restart in
      station-IsApart _ _ _ (
        andthen-Has OnlyStation (prepare quote stopped spec q) _
          (prepare-Has OnlyStation quote stopped spec q (
            stop_access_point-Has OnlyStation w q.stop_restart
              (stop_alone w.ap x.hostapd, (x.supplicant, x.dhcpcd))))
          (λ w1 y.
            if-Has OnlyStation (spec.station_ssid == "")
              (w1, fail "no wifi network configured to connect to")
              (station_with_password quote q.password q w1) y
              (station_with_password-Only q.password q w1 kept y)))
  reconcile_mode-IsApart disabled w spec q kept x =
      let y = stop_station-Only w x in
      let none_left =
        stop_wifi_interface-Has NoProcess (stop_access_point (stop_station w) q.stop_restart)
          q.link_down
          (stop_access_point-Has NoProcess (stop_station w) q.stop_restart
            (stop_alone (stop_station w).ap y.0, y.1)) in
      access_point-IsApart _ _ _ (no_process none_left.0, none_left.1)

  abbrev pub step : Wifi → Event → Wifi
  step w (reconciles spec q) = (reconcile_wifi_network_interface quote w spec q).0
  step w (exits n) = record w {
    ap = Runner.exit w.ap n;
    supplicant = Runner.exit w.supplicant n;
    dhcpcd = Runner.exit w.dhcpcd n;
  }

  abbrev pub run : Wifi → List Event → Wifi
  run w [] = w
  run w (e ∷ es) = run (step w e) es

  -- The launches of an event lose no process.
  abbrev pub KeepsProcess : Event → Type 0
  KeepsProcess (reconciles spec q) = IsKept q
  KeepsProcess (exits n) = Unit

  step-IsApart : (w : Wifi) (e : Event) → KeepsProcess e → Has IsApart w → Has IsApart (step w e)
  unfolding reconcile_wifi_network_interface
  step-IsApart w (reconciles spec q) kept x = reconcile_mode-IsApart spec.wanted w spec q kept x
  step-IsApart w (exits n) kept x = record {
    hostapd = exit-IsSingle w.ap n x.hostapd;
    supplicant = exit-IsSingle w.supplicant n x.supplicant;
    dhcpcd = exit-IsSingle w.dhcpcd n x.dhcpcd;
    apart = elim x.apart [
      | inl a ↦ inl (exit_none w.ap n a)
      | inr (s, d) ↦ inr (exit_none w.supplicant n s, exit_none w.dhcpcd n d)
    ];
  }

  -- However reconciliations for changing modes and exits of processes follow one another, and
  -- whichever command, scan, file, store or launch fails (as long as no launched process is lost):
  -- hostapd, wpa_supplicant and dhcpcd run once at most, and hostapd does not run while one of the
  -- others does, if this is so at first.
  pub run-IsApart :
      (w : Wifi) (es : List Event) → All KeepsProcess es → Has IsApart w → Has IsApart (run w es)
  run-IsApart w [] kept x = x
  run-IsApart w (e ∷ es) kept x = run-IsApart (step w e) es kept.1 (step-IsApart w e kept.0 x)
