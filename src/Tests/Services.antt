-- ===== src/Tests/Services.antt =====
-- Bandwidth limits and the hotspot: their theorems at concrete inputs.
use rpi_network_filter.Common.{
  ℕ, ◌≡◌, refl, ◌↔◌, ◌≤◌, true, false, List, [], ◌∷◌, ◌++◌, Text, codes, length, ok,
}
use rpi_network_filter.Strings.{split}
use rpi_network_filter.Models.{BandwidthLimit, Device, Setting}
use rpi_network_filter.Db.{Db}
use rpi_network_filter.Validate.{sanitize_single_line, is_control, digit}
use rpi_network_filter.Bandwidth.{class_id}
use rpi_network_filter.Bandwidth.Classes.{class_id_lem}
use rpi_network_filter.Hotspot.{setting_or, ApSettings, hostapd_lines, hostapd_conf, ap_channel_re}
use rpi_network_filter.Hotspot.Directives.{hostapd_conf-lines}
use rpi_network_filter.Regexp.{match_string}
use rpi_network_filter.Regexp.Classes.{Only}
use rpi_network_filter.Firewall.Nftables.{unlines}
use rpi_network_filter.Http.Settings.{commit}
use rpi_network_filter.Http.Settings.Values.{overridden, commit-setting_or}
use rpi_network_filter.Tests.Data.{seeded}

abbrev last : ℕ
last = 998

abbrev fourth : ℕ
fourth = 3

class_id_lem_example :
    ((class_id last ≡ class_id fourth) ↔ (last ≡ fourth))
    × ((class_id last ≡ codes "1:999") ↔ (last ≡ 998))
class_id_lem_example = class_id_lem last fourth

abbrev tablet : Device
tablet = record {
  id = 1;
  mac_address = codes "AA:BB:CC:00:00:01";
  ip_address = codes "192.168.4.5";
  hostname = [];
  alias = [];
  first_seen = 1;
  last_seen = 2;
  is_blocked = false;
}

abbrev limit : Text → BandwidthLimit
limit mac = record {
  id = 1;
  device_mac = mac;
  download_kbps = 512;
  upload_kbps = 0;
  enabled = true;
}

abbrev known : BandwidthLimit
known = limit (codes "aa:bb:cc:00:00:01")

abbrev unknown : BandwidthLimit
unknown = limit (codes "aa:bb:cc:00:00:02")

abbrev housed : Db
housed = record seeded { devices = tablet ∷ []; devices_seq = 1 }

abbrev home : ApSettings
home = record { ap_ssid = codes "Home"; ap_password = codes "secret-88"; ap_channel = codes "11" }

abbrev home_lines : List Text
home_lines =
    hostapd_lines (sanitize_single_line home.ap_ssid) (sanitize_single_line home.ap_password)
      (sanitize_single_line home.ap_channel)

abbrev home_conf : Text
home_conf = unlines home_lines

printed : hostapd_conf home ≡ ok home_conf
unfolding hostapd_conf sanitize_single_line is_control hostapd_lines unlines ap_channel_re
    match_string digit
printed = refl

hostapd_conf-lines_example :
    (split 10 home_conf ≡ home_lines ++ [] ∷ [])
    × (8 ≤ length (sanitize_single_line home.ap_password))
    × Only digit (sanitize_single_line home.ap_channel)
hostapd_conf-lines_example = hostapd_conf-lines home home_conf printed

abbrev renamed : List Setting
renamed =
    record { key = codes "ap_ssid"; value = codes "Cabin" }
    ∷ record { key = codes "ap_channel"; value = codes "1" }
    ∷ []

commit-setting_or_example :
    setting_or (commit renamed seeded).1 (codes "ap_ssid") (codes "NetFilter")
    ≡ overridden renamed (codes "ap_ssid") (setting_or seeded (codes "ap_ssid") (codes "NetFilter"))
commit-setting_or_example = commit-setting_or renamed seeded (codes "ap_ssid") (codes "NetFilter")
