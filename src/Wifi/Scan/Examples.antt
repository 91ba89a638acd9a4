-- ===== src/Wifi/Scan/Examples.antt =====
-- Concrete cases of what was proved of pkg/wifi/scaniw.go.
use Prim.Native.Char.{Char}
use kubemate.Base.{none, ◌≡◌, refl, some, List, [], ◌∷◌, arith}
use kubemate.Base.Text.{eat, chars}
use kubemate.Wifi.Scan.{
  FoundNetwork, parse_iw_network_scan_result, parse_lines, parse_line, index_colon, add_attribute,
}
use kubemate.Wifi.Scan.Total.{IsResult, parse-IsResult}
use kubemate.Wifi.Scan.Printed.{parse-print}
use kubemate.Wifi.Scan.Lines.{Printed, print}

abbrev home : FoundNetwork
home = record { mac = chars "02:00:00:00:00:01"; ssid = chars "my: home"; country = chars "DE" }

abbrev cafe : FoundNetwork
cafe = record { mac = chars "02:00:00:00:00:02"; ssid = chars "cafe"; country = [] }

abbrev printed : List Printed
printed =
    record {
      found = home;
      interface = chars "(on wlan0)";
      before = chars "TSF: 8136 usec (94d)" ∷ chars "freq: 5620" ∷ [];
      between = chars "DS Parameter set: channel 124" ∷ [];
      environment = some (chars "\tEnvironment: Indoor");
      after = chars "\tChannels [36 - 36] @ 23 dBm" ∷ [];
    }
    ∷ record {
      found = cafe;
      interface = chars "(on wlan0)";
      before = [];
      between = [];
      environment = none;
      after = [];
    }
    ∷ []

parse-print_example : parse_iw_network_scan_result (print printed) ≡ some (home ∷ cafe ∷ [])
unfolding eat
parse-print_example = parse-print printed (
  record {
    mac = refl;
    ssid = omega arith;
    country = refl;
    before = ((refl, refl), ((refl, refl), tt));
    between = ((refl, refl), tt);
    after = ((refl, refl), tt);
  },
  (
    record {
      mac = refl;
      ssid = omega arith;
      country = refl;
      before = tt;
      between = tt;
      after = tt;
    },
    tt,
  ),
)

abbrev odd_lines : List (List Char)
odd_lines = chars "\tSSID: lost" ∷ chars "BSS 1" ∷ [] ∷ chars "\tSSID" ∷ []

parse-IsResult_example :
    (ns : List FoundNetwork) × IsResult ns (parse_iw_network_scan_result odd_lines)
parse-IsResult_example = parse-IsResult odd_lines

-- A network with a name of one character is left out.
short_name :
    parse_iw_network_scan_result (chars "BSS 02:00:00:00:00:01(on wlan0)" ∷ chars "\tSSID: x" ∷ [])
    ≡ some []
unfolding parse_iw_network_scan_result parse_lines parse_line index_colon eat add_attribute
short_name = refl
