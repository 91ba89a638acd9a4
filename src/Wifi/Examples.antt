-- ===== src/Wifi/Examples.antt =====
-- Concrete cases of what was proved of pkg/wifi.
use kubemate.Runner
use kubemate.Base.{ℕ, String, ◌≡◌, refl, inl, true, false, none, some, List, [], ◌∷◌}
use kubemate.Runner.Single.{no_process}
use kubemate.Wifi.{
  WifiMode, disabled, station, accesspoint, Wifi, Restart, Answers, WifiSpec,
  reconcile_wifi_network_interface, stop_station, stop_access_point, start_wifi_interface,
  set_wifi_iface_country, start_access_point, start_station, restart_wifi_interface, detect_country,
}
use kubemate.Wifi.Apart.{IsApart, Has}
use kubemate.Wifi.Modes.{Event, reconciles, exits, run, run-IsApart}

abbrev off : Wifi
off = record {
  ap = Runner.new;
  supplicant = Runner.new;
  dhcpcd = Runner.new;
  wifi_iface_started = false;
  link_up = false;
  mode = disabled;
  wifi_iface = "wlan0";
  country_code = "DE";
  networks = [];
}

abbrev restarted : Restart
restarted = record {
  down = true;
  flush = true;
  up = true;
  scan = some (record { mac = "02"; ssid = "home"; country = "DE" } ∷ []);
}

abbrev launch_of : ℕ → Runner.Attempt
launch_of n = record { now = 2000000000; later = 2000000000; launch = Runner.launched n }

abbrev answers : Answers
answers = record {
  stop_restart = restarted;
  start_restart = restarted;
  networks_stored = none;
  country_stored = none;
  password = some "secret";
  interfaces_conf = some false;
  conf = some ("/conf", true);
  mode_restart = restarted;
  add_address = true;
  ap_launch = launch_of 1;
  station_launch = launch_of 2;
  dhcpcd_launch = launch_of 3;
  resolv_conf = true;
  link_down = true;
}

abbrev want : WifiMode → WifiSpec
want m = record { wanted = m; spec_country = ""; station_ssid = "home" }

abbrev quote : String → String
quote w = w

-- An access point that ends, and a station after it.
abbrev evening : List Event
evening = reconciles (want accesspoint) answers ∷ exits 1 ∷ reconciles (want station) answers ∷ []

off-IsApart : Has IsApart off
off-IsApart = record {
  hostapd = no_process refl;
  supplicant = no_process refl;
  dhcpcd = no_process refl;
  apart = inl refl;
}

run-IsApart_example : Has IsApart (run quote off evening)
run-IsApart_example =
    run-IsApart quote off evening
      (((λ n. cc), ((λ n. cc), (λ n. cc))), (tt, (((λ n. cc), ((λ n. cc), (λ n. cc))), tt)))
      off-IsApart

abbrev on : Wifi
on = record off {
  ap = record Runner.new {
    proc = some (record { pid = 1; cmd = record { command = "hostapd"; args = [] } });
    alive = 1 ∷ [];
  };
  wifi_iface_started = true;
  link_up = true;
  mode = accesspoint;
}

evening_ends :
    ((run quote off evening).supplicant.alive ≡ 2 ∷ [])
    × ((run quote off evening).ap.alive ≡ [])
    × ((run quote off evening).country_code ≡ "DE")
unfolding reconcile_wifi_network_interface stop_station stop_access_point start_wifi_interface
    set_wifi_iface_country start_access_point start_station restart_wifi_interface detect_country
    Runner.start Runner.stop Runner.exit
evening_ends = (refl, refl, refl)
