-- ===== src/Hotspot.antt =====
-- internal/services/hotspot.go: HotspotService, which writes the configuration of hostapd.
pub mod Directives
use rpi_network_filter.Common.{
  ℕ, ltb, Bool, true, false, not, Option, none, some, List, [], ◌∷◌, ◌++◌, Text, codes, text_eq,
  length, Result, ok, err, find, if◌then◌else◌,
}
use rpi_network_filter.Regexp.{Regex, class, seq, at_most, match_string}
use rpi_network_filter.Validate.{digit, sanitize_single_line}
use rpi_network_filter.Models.{Setting}
use rpi_network_filter.Db.{Db, Error, short_passphrase, invalid_channel}
use rpi_network_filter.Firewall.Nftables.{unlines}
use rpi_network_filter.Firewall.Apply.{Effect, write_file, exec, perform_all}

-- [0-9]{1,3}
unfoldable pub ap_channel_re : Regex
unfolding digit at_most
ap_channel_re = seq (class digit) (at_most 2 (class digit))

-- The value of a setting: the stored one, or its default.
unfoldable pub setting_or : Db → Text → Text → Text
unfolding text_eq
setting_or s key fallback = elim (find (λ r. text_eq r.key key) s.settings) [
  | none ↦ fallback
  | some r ↦ r.value
]

-- The settings that getSettings returns.
pub record ApSettings : Type 0 where
  pub ap_ssid : Text
  pub ap_password : Text
  pub ap_channel : Text

unfoldable pub get_settings : Db → ApSettings
unfolding setting_or
get_settings s = record {
  ap_ssid = setting_or s (codes "ap_ssid") (codes "NetFilter");
  ap_password = setting_or s (codes "ap_password") (codes "changeme123");
  ap_channel = setting_or s (codes "ap_channel") (codes "6");
}

unfoldable pub hostapd_lines : Text → Text → Text → List Text
hostapd_lines ssid pass channel =
    codes "# Generated by netfilterd — do not edit"
    ∷ codes "interface=wlan0"
    ∷ codes "driver=nl80211"
    ∷ (codes "ssid=" ++ ssid)
    ∷ codes "hw_mode=g"
    ∷ (codes "channel=" ++ channel)
    ∷ codes "wmm_enabled=0"
    ∷ codes "macaddr_acl=0"
    ∷ codes "auth_algs=1"
    ∷ codes "ignore_broadcast_ssid=0"
    ∷ codes "wpa=2"
    ∷ (codes "wpa_passphrase=" ++ pass)
    ∷ codes "wpa_key_mgmt=WPA-PSK"
    ∷ codes "rsn_pairwise=CCMP"
    ∷ []

-- The configuration, or the error of a guard.
unfoldable pub hostapd_conf : ApSettings → Result Error Text
unfolding sanitize_single_line ap_channel_re match_string hostapd_lines unlines
hostapd_conf settings =
    let ssid = sanitize_single_line settings.ap_ssid in
    let pass = sanitize_single_line settings.ap_password in
    let channel = sanitize_single_line settings.ap_channel in
    if ltb (length pass) 8
    then err short_passphrase
    else if not (match_string ap_channel_re channel)
    then err invalid_channel
    else ok (unlines (hostapd_lines ssid pass channel))

-- Apply of HotspotService, as the effects it has.
unfoldable pub apply_hotspot : Bool → (Effect → Bool) → Db → Result Error (Unit {0}) × List Effect
unfolding get_settings hostapd_conf perform_all
apply_hotspot dry_run works s = elim (hostapd_conf (get_settings s)) [
  | err e ↦ (err e, [])
  | ok conf ↦ perform_all dry_run works (
      write_file (codes "/etc/hostapd/hostapd.conf") conf
      ∷ exec (codes "systemctl" ∷ codes "restart" ∷ codes "hostapd" ∷ [])
      ∷ [])
]
