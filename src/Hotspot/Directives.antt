-- ===== src/Hotspot/Directives.antt =====
-- The directives of hostapd: what a setting can do to them.
use rpi_network_filter.Common.{
  ℕ, ◌≤◌, ◌≡◌, ◌≢◌, refl, sym, ap, ◌∙◌, inl, inr, ltb, true, not, Bool-cases, List, [], ◌∷◌, ◌++◌,
  Text, codes, length, All, All-append, All-mono, all, ok, err, arith,
}
use rpi_network_filter.Strings.{split}
use rpi_network_filter.Strings.Splitting.{split-append, split_of_lacks}
use rpi_network_filter.Validate.{is_control, digit, sanitize_single_line}
use rpi_network_filter.Validate.Names.{IsPrintable, sanitize_single_line_lem}
use rpi_network_filter.Regexp.{match_string, class}
use rpi_network_filter.Regexp.Classes.{Only}
use rpi_network_filter.Regexp.Alphabet.{match_string-Only, IsOver-at_most}
use rpi_network_filter.Db.{short_passphrase, invalid_channel}
use rpi_network_filter.Firewall.Nftables.{unlines}
use rpi_network_filter.Hotspot.{ApSettings, ap_channel_re, hostapd_lines, hostapd_conf}

abbrev Lacks : Text → Type 0
Lacks s = All (λ c. c ≢ 10) s

-- The lines of a text of lines, and what stands behind the last line feed.
split-unlines : (ls : List Text) → All Lacks ls → split 10 (unlines ls) ≡ ls ++ [] ∷ []
unfolding unlines split
split-unlines [] h = refl
split-unlines (l ∷ ls) (k, h) =
    split-append 10 l (unlines ls)
    ∙ ap (λ r. r ++ split 10 (unlines ls)) (split_of_lacks 10 l k)
    ∙ ap (λ r. l ∷ r) (split-unlines ls h)

printable-Lacks : (c : ℕ) → IsPrintable c → c ≢ 10
unfolding is_control
printable-Lacks c h = λ e. omega arith

literal : (s : Text) → all (λ c. not (is_control c)) s ≡ true → Lacks s
unfolding is_control
literal [] h = tt
literal (c ∷ s) h = (ground arith, literal s (ground arith))

prefixed :
    (s t : Text) → all (λ c. not (is_control c)) s ≡ true → All IsPrintable t → Lacks (s ++ t)
prefixed s t h k = All-append (λ c. c ≢ 10) s t (literal s h) (All-mono printable-Lacks t k)

module _ (ssid pass channel : Text) where
  lines-Lacks :
      All IsPrintable ssid
      → All IsPrintable pass
      → All IsPrintable channel
      → All Lacks (hostapd_lines ssid pass channel)
  unfolding hostapd_lines is_control
  lines-Lacks hs hp hc = (
    literal (codes "# Generated by netfilterd — do not edit") refl,
    (
      literal (codes "interface=wlan0") refl,
      (
        literal (codes "driver=nl80211") refl,
        (
          prefixed (codes "ssid=") ssid refl hs,
          (
            literal (codes "hw_mode=g") refl,
            (
              prefixed (codes "channel=") channel refl hc,
              (
                literal (codes "wmm_enabled=0") refl,
                (
                  literal (codes "macaddr_acl=0") refl,
                  (
                    literal (codes "auth_algs=1") refl,
                    (
                      literal (codes "ignore_broadcast_ssid=0") refl,
                      (
                        literal (codes "wpa=2") refl,
                        (
                          prefixed (codes "wpa_passphrase=") pass refl hp,
                          (
                            literal (codes "wpa_key_mgmt=WPA-PSK") refl,
                            (literal (codes "rsn_pairwise=CCMP") refl, tt),
                          ),
                        ),
                      ),
                    ),
                  ),
                ),
              ),
            ),
          ),
        ),
      ),
    ),
  )

channel-Only : (s : Text) → match_string ap_channel_re s ≡ true → Only digit s
unfolding ap_channel_re
channel-Only s h =
    match_string-Only digit ap_channel_re s
      (λ c e. e, IsOver-at_most digit 2 (class digit) (λ c e. e)) h

-- A configuration that Apply of HotspotService makes has exactly its fourteen directives as its
-- lines, whatever the settings hold: the network's name, the passphrase and the channel stand in
-- their own directives, without control characters, the passphrase with eight characters or more
-- and the channel with digits only.
pub hostapd_conf-lines :
    (settings : ApSettings) (conf : Text)
    → hostapd_conf settings ≡ ok conf
    → (split 10 conf
        ≡ hostapd_lines
            (sanitize_single_line settings.ap_ssid)
            (sanitize_single_line settings.ap_password)
            (sanitize_single_line settings.ap_channel)
          ++ [] ∷ [])
      × (8 ≤ length (sanitize_single_line settings.ap_password))
      × Only digit (sanitize_single_line settings.ap_channel)
unfolding hostapd_conf
hostapd_conf-lines settings conf h =
    let ssid = sanitize_single_line settings.ap_ssid in
    let pass = sanitize_single_line settings.ap_password in
    let channel = sanitize_single_line settings.ap_channel in
    elim (Bool-cases (ltb (length pass) 8)) [
      | inl e ↦ let bad : err short_passphrase ≡ ok conf = (rw e at h) in cc bad
      | inr e ↦ elim (Bool-cases (match_string ap_channel_re channel)) [
        | inr f ↦
            let h' = rw e at h in let bad : err invalid_channel ≡ ok conf = (rw f at h') in cc bad
        | inl f ↦
            let h' = rw e at h in
            let same : ok (unlines (hostapd_lines ssid pass channel)) ≡ ok conf = (rw f at h') in
            let eq : unlines (hostapd_lines ssid pass channel) ≡ conf = cc same in
            (
              ap (split 10) (sym eq)
                  ∙ split-unlines (hostapd_lines ssid pass channel) (
                      lines-Lacks ssid pass channel (printable settings.ap_ssid)
                        (printable settings.ap_password) (printable settings.ap_channel)),
              ground arith,
              channel-Only channel f,
            )
      ]
    ]
  where
    printable : (s : Text) → All IsPrintable (sanitize_single_line s)
    printable s = (sanitize_single_line_lem s []).0
