-- ===== src/Wifi.antt =====
-- pkg/wifi (wifi.go, ap.go, station.go, country.go): the access point and the station of the WiFi
-- interface, with their processes, and reconcileWifiNetworkInterface of
-- pkg/reconciler/device/networkinterface_reconciler.go, which changes between them. The commands that
-- are run, the files that are written, the scan, and the stores of the API answer by `Answers`. The
-- routes of the access point and the host's resolv.conf are left to the commands.
pub mod Scan
pub mod Apart
pub mod Modes
pub mod Examples
use kubemate.Runner
use kubemate.Base.{
  String, ◌≡◌, Bool, true, false, Option, none, some, List, [], ◌∷◌, ◌==◌, ◌&&◌, ◌||◌, not,
  if◌then◌else◌,
}
use kubemate.Resource.{Error, message}
use kubemate.Reconciler.Device.{Ended, fine, panicked, failed, Failure, cooldown_error, other}

pub data WifiMode : Type 0 where
  disabled station accesspoint : WifiMode

pub record WifiNetwork : Type 0 where
  pub mac : String
  pub ssid : String
  pub country : String

-- `wifi_iface_started` is what the code takes the interface for, `link_up` what the kernel has.
pub record Wifi : Type 0 where
  pub ap : Runner.Runner
  pub supplicant : Runner.Runner
  pub dhcpcd : Runner.Runner
  pub wifi_iface_started : Bool
  pub link_up : Bool
  pub mode : WifiMode
  pub wifi_iface : String
  pub country_code : String
  pub networks : List WifiNetwork

-- How the commands of restartWifiInterface (the link down, the addresses flushed, the link up) and the
-- scan after them end. A command that fails has changed nothing.
pub record Restart : Type 0 where
  pub down : Bool
  pub flush : Bool
  pub up : Bool
  pub scan : Option (List WifiNetwork)

-- What one reconciliation asks for, in the order of the code: the restart when an access point is
-- stopped, the one of an interface that is down, the list of networks and the country in their stores,
-- the password, the files with whether they are new, the restart for the new mode, the address, and the
-- launches.
pub record Answers : Type 0 where
  pub stop_restart : Restart
  pub start_restart : Restart
  pub networks_stored : Option Error
  pub country_stored : Option Error
  pub password : Option String
  pub interfaces_conf : Option Bool
  pub conf : Option (String × Bool)
  pub mode_restart : Restart
  pub add_address : Bool
  pub ap_launch : Runner.Attempt
  pub station_launch : Runner.Attempt
  pub dhcpcd_launch : Runner.Attempt
  pub resolv_conf : Bool
  pub link_down : Bool

-- The WifiSpec of a NetworkInterface.
pub record WifiSpec : Type 0 where
  pub wanted : WifiMode
  pub spec_country : String
  pub station_ssid : String

abbrev pub fail : String → Ended
fail m = failed (other (message m))

-- `if err != nil { return err }` between two calls.
abbrev pub andthen : Wifi × Ended → (Wifi → Wifi × Ended) → Wifi × Ended
andthen (w, fine) f = f w
andthen (w, panicked) f = (w, panicked)
andthen (w, failed e) f = (w, failed e)

abbrev pub ended_of : Runner.Started → Ended
ended_of Runner.started = fine
ended_of Runner.unchanged = fine
ended_of Runner.panicked = panicked
ended_of (Runner.cooling n) = failed (cooldown_error n)

abbrev pub check : Option Error → Ended
check none = fine
check (some e) = failed (other e)

abbrev pub is_access_point : WifiMode → Bool
is_access_point accesspoint = true
is_access_point _ = false

abbrev pub is_station : WifiMode → Bool
is_station station = true
is_station _ = false

-- The first command that fails ends the restart: from the second on the link is down, and the interface
-- counts as what it was. After the commands it counts as started, also if the scan fails.
unfoldable pub restart_wifi_interface : Wifi → Restart → Wifi × Ended
restart_wifi_interface w a =
    if not a.down
    then (w, fail "restart wifi network interface")
    else if not (a.flush && a.up)
    then (record w { link_up = false }, fail "restart wifi network interface")
    else elim a.scan [
      | none ↦ (record w { link_up = true; wifi_iface_started = true }, fail "wifi network scan")
      | some l ↦ (record w { link_up = true; wifi_iface_started = true; networks = l }, fine)
    ]

unfoldable pub start_wifi_interface : Wifi → Restart → Wifi × Ended
unfolding restart_wifi_interface
start_wifi_interface w a = if w.wifi_iface_started then (w, fine) else restart_wifi_interface w a

-- The command runs only if the interface counts as started.
unfoldable pub stop_wifi_interface : Wifi → Bool → Wifi × Ended
stop_wifi_interface w down =
    if w.wifi_iface_started
    then (if down
        then (record w { link_up = false; wifi_iface_started = false }, fine)
        else (w, fail "stop wifi interface"))
    else (w, fine)

-- An error of the restart is logged.
unfoldable pub stop_access_point : Wifi → Restart → Wifi
unfolding restart_wifi_interface
stop_access_point w a =
    let stopped : Wifi = record w { ap = Runner.stop w.ap } in
    if is_access_point w.mode
    then record ((restart_wifi_interface stopped a).0) { mode = disabled }
    else stopped

unfoldable pub stop_station : Wifi → Wifi
stop_station w = record w { supplicant = Runner.stop w.supplicant; dhcpcd = Runner.stop w.dhcpcd }

-- detectCountry
pub first_country : List WifiNetwork → Option String
first_country [] = none
first_country (n ∷ ns) =
    let rest = first_country ns in if n.country == "" then rest else some n.country

unfoldable pub detect_country : Wifi → Wifi × Ended
unfolding first_country
detect_country w =
    if not w.wifi_iface_started
    then (w, fail "cannot detect wifi country while wifi interface is down")
    else if w.country_code == ""
    then elim (first_country w.networks) [
      | none ↦ (w, fail "detect wifi country")
      | some c ↦ (record w { country_code = c }, fine)
    ]
    else (w, fine)

unfoldable pub set_wifi_iface_country : Wifi → String → Option Error → Wifi × Ended
unfolding detect_country
set_wifi_iface_country w country put =
    let w1 : Wifi = record w { country_code = country } in
    if country == "" then andthen (detect_country w1) (λ w2. (w2, check put)) else (w1, fine)

module _ (quote : String → String) where
  start_ap : Wifi → Runner.Attempt → String → Wifi × Ended
  start_ap w a conf =
      let o = Runner.start quote w.ap a (record { command = "hostapd"; args = conf ∷ [] }) in
      (record w { ap = o.0 }, ended_of o.1)

  pub enter_access_point : Wifi → Answers → Bool → Wifi × Ended
  enter_access_point w q changed =
      if changed || not (is_access_point w.mode)
      then andthen (restart_wifi_interface w q.mode_restart) (λ w1.
        if q.add_address then (record w1 { mode = accesspoint }, fine) else (w1, fail "ip"))
      else (w, fine)

  with_hostapd_conf : Wifi → Answers → Bool → Option (String × Bool) → Wifi × Ended
  unfolding start_ap enter_access_point
  with_hostapd_conf w q changed none = (w, fail "hostapd config")
  with_hostapd_conf w q changed (some (path, new)) =
      andthen (enter_access_point w q (changed || new)) (λ w1. start_ap w1 q.ap_launch path)

  with_interfaces_conf : Wifi → Answers → Option Bool → Wifi × Ended
  unfolding with_hostapd_conf
  with_interfaces_conf w q none = (w, fail "write network interface config")
  with_interfaces_conf w q (some changed) = with_hostapd_conf w q changed q.conf

  unfoldable pub start_access_point : Wifi → String → Answers → Wifi × Ended
  unfolding with_interfaces_conf
  start_access_point w password q =
      if password == ""
      then (w, fail "start accesspoint: no wifi password configured")
      else with_interfaces_conf w q q.interfaces_conf

  start_wpa_supplicant : Wifi → Runner.Attempt → String → Wifi × Ended
  start_wpa_supplicant w a conf =
      let o =
        Runner.start quote w.supplicant a
          (record { command = "wpa_supplicant"; args = "-i" ∷ w.wifi_iface ∷ "-c" ∷ conf ∷ [] }) in
      (record w { supplicant = o.0 }, ended_of o.1)

  start_dhcpcd : Wifi → Runner.Attempt → Wifi × Ended
  start_dhcpcd w a =
      let o =
        Runner.start quote w.dhcpcd a
          (record { command = "dhcpcd"; args = "-B" ∷ "--metric=204" ∷ w.wifi_iface ∷ [] }) in
      (record w { dhcpcd = o.0 }, ended_of o.1)

  enter_station : Wifi → Answers → Bool → Wifi × Ended
  enter_station w q changed =
      if changed || not (is_station w.mode)
      then andthen (restart_wifi_interface w q.mode_restart)
          (λ w1. (record w1 { supplicant = Runner.stop w1.supplicant; mode = station }, fine))
      else (w, fine)

  with_supplicant_conf : Wifi → Answers → Option (String × Bool) → Wifi × Ended
  unfolding start_wpa_supplicant start_dhcpcd enter_station
  with_supplicant_conf w q none = (w, fail "wpa_supplicant config")
  with_supplicant_conf w q (some (path, new)) = andthen (enter_station w q new) (λ w1.
      andthen (start_wpa_supplicant w1 q.station_launch path) (λ w2.
        andthen (start_dhcpcd w2 q.dhcpcd_launch)
          (λ w3. (w3, if q.resolv_conf then fine else fail "copy resolv.conf"))))

  -- The name of the network and its password go into the file that `conf` answers for.
  unfoldable pub start_station : Wifi → Answers → Wifi × Ended
  unfolding with_supplicant_conf
  start_station w q =
      if w.country_code == ""
      then (w, fail "country code not specified")
      else with_supplicant_conf w q q.conf

  -- What both modes do before they start.
  pub prepare : Wifi → WifiSpec → Answers → Wifi × Ended
  prepare w spec q = andthen (start_wifi_interface w q.start_restart) (λ w1.
      andthen (w1, check q.networks_stored)
        (λ w2. set_wifi_iface_country w2 spec.spec_country q.country_stored))

  ap_with_password : Option String → Answers → Wifi → Wifi × Ended
  ap_with_password none q w = (w, fail "no password configured")
  ap_with_password (some p) q w = start_access_point w p q

  station_with_password : Option String → Answers → Wifi → Wifi × Ended
  station_with_password none q w = (w, fail "no password configured")
  station_with_password (some p) q w = start_station w q

  reconcile_mode : WifiMode → Wifi → WifiSpec → Answers → Wifi × Ended
  unfolding prepare ap_with_password station_with_password
  reconcile_mode accesspoint w spec q =
      andthen (prepare (stop_station w) spec q) (ap_with_password q.password q)
  reconcile_mode station w spec q =
      andthen (prepare (stop_access_point w q.stop_restart) spec q) (λ w1.
        if spec.station_ssid == ""
        then (w1, fail "no wifi network configured to connect to")
        else station_with_password q.password q w1)
  reconcile_mode disabled w spec q =
      stop_wifi_interface (stop_access_point (stop_station w) q.stop_restart) q.link_down

  unfoldable pub reconcile_wifi_network_interface : Wifi → WifiSpec → Answers → Wifi × Ended
  unfolding reconcile_mode
  reconcile_wifi_network_interface w spec q = reconcile_mode spec.wanted w spec q

-- Close: the access point, once more its process, the station, and the interface.
unfoldable pub close : Wifi → Restart → Bool → Wifi × Ended
unfolding stop_wifi_interface stop_station stop_access_point
close w a down =
    let stopped = stop_access_point w a in
    stop_wifi_interface (stop_station (record stopped { ap = Runner.stop stopped.ap })) down
