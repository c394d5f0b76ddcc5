-- ===== src/Firewall/Rules/Lines.antt =====
-- The lines that buildRuleLines pastes into the ruleset.
use rpi_network_filter.Common.{
  ℕ, ◌≡◌, refl, ◌==◌, inl, inr, Bool, true, false, not, ◌&&◌, ◌||◌, Bool-cases, Option-cases, none,
  some, List, [], ◌∷◌, ◌++◌, Text, codes, text_eq, text_eq_iff, all, All, All-append, All-keep,
  All-mono, map, arith, if◌then◌else◌,
}
use rpi_network_filter.Host.{Host, HostLaws, Ip, v4, v6, ip_text, address_char}
use rpi_network_filter.Regexp.Classes.{Only}
use rpi_network_filter.Regexp.{class, seq, exactly, char, opt}
use rpi_network_filter.Regexp.Alphabet.{
  IsOver, IsOver-exactly, IsOver-at_most, Only-append, match_string-Only,
}
use rpi_network_filter.Strings.{is_nil, to_lower, trim_space, contains_char, replace_char}
use rpi_network_filter.Strings.Characters.{Only-trim_space, Only-join, Only-replace_char}
use rpi_network_filter.Validate.{
  valid_protocol, valid_ip_or_cidr, valid_port_spec, valid_mac, mac_strict_re, port_spec_re, hex,
  digit, port_re,
}
use rpi_network_filter.Models.{FirewallRule}
use rpi_network_filter.Firewall.Rules.{
  v4_texts, part, rule_comment, rule_parts, rule_line, resolve_host_or_ip, rule_fields_ok, dest_ips,
  build_rule_lines,
}

-- No line feed.
abbrev pub line_char : ℕ → Bool
line_char c = not (c == 10)

abbrev pub IsLine : Text → Type 0
IsLine = Only line_char

hex-line_char : (c : ℕ) → hex c ≡ true → line_char c ≡ true
unfolding hex digit
hex-line_char c h = ground arith

digit-line_char : (c : ℕ) → digit c ≡ true → line_char c ≡ true
unfolding digit
digit-line_char c h = ground arith

address_char-line_char : (c : ℕ) → address_char c ≡ true → line_char c ≡ true
unfolding address_char
address_char-line_char c h = ground arith

only_one : (c d : ℕ) → line_char d ≡ true → (c == d) ≡ true → line_char c ≡ true
only_one c d k h = ground arith

pub valid_mac-IsLine : (s : Text) → valid_mac s ≡ true → IsLine (to_lower s)
unfolding valid_mac mac_strict_re char
valid_mac-IsLine s h =
    let pair = IsOver-exactly line_char 2 (class hex) hex-line_char in
    match_string-Only line_char mac_strict_re (to_lower s)
      (
        pair,
        IsOver-exactly line_char 5 (seq (char b':') (exactly 2 (class hex)))
            (λ c. only_one c b':' refl, pair),
      )
      h

port-IsOver : IsOver line_char port_re
unfolding port_re
port-IsOver = (digit-line_char, IsOver-at_most line_char 4 (class digit) digit-line_char)

pub valid_port_spec-IsLine : (s : Text) → valid_port_spec s ≡ true → IsLine s
unfolding valid_port_spec port_spec_re opt char
valid_port_spec-IsLine [] h = tt
valid_port_spec-IsLine (c ∷ s) h =
    match_string-Only line_char port_spec_re (c ∷ s)
      (port-IsOver, (tt, (λ c. only_one c b'-' refl, port-IsOver))) h

literal-IsLine : (s t : Text) → IsLine t → text_eq s t ≡ true → IsLine s
literal-IsLine s t o h = rw ((text_eq_iff s t).0 h) o

pub valid_protocol-IsLine : (s : Text) → valid_protocol s ≡ true → IsLine s
unfolding valid_protocol
valid_protocol-IsLine [] h = tt
valid_protocol-IsLine (c ∷ s) h = elim (Bool-cases (text_eq (c ∷ s) (codes "all"))) [
  | inl e ↦ literal-IsLine (c ∷ s) (codes "all") (refl, (refl, (refl, tt))) e
  | inr all ↦ elim (Bool-cases (text_eq (c ∷ s) (codes "tcp"))) [
    | inl e ↦ literal-IsLine (c ∷ s) (codes "tcp") (refl, (refl, (refl, tt))) e
    | inr tcp ↦ elim (Bool-cases (text_eq (c ∷ s) (codes "udp"))) [
      | inl e ↦ literal-IsLine (c ∷ s) (codes "udp") (refl, (refl, (refl, tt))) e
      | inr udp ↦
          literal-IsLine (c ∷ s) (codes "icmp") (refl, (refl, (refl, (refl, tt)))) (ground arith)
    ]
  ]
]

-- What the ruleset takes over from a rule without a test.
abbrev pub IsPlainRule : FirewallRule → Type 0
IsPlainRule r = IsLine r.description × IsLine r.source_ip × IsLine r.dest_ip × IsLine r.action

part-IsLine : (b : Bool) (t : Text) → (b ≡ true → IsLine t) → All IsLine (part b t)
part-IsLine true t h = (h refl, tt)
part-IsLine false t h = tt

parts-append : (us vs : List Text) → All IsLine us → All IsLine vs → All IsLine (us ++ vs)
parts-append = All-append IsLine

prefixed : (s t : Text) → IsLine s → IsLine t → IsLine (s ++ t)
prefixed = Only-append line_char

literal : (t : Text) → all line_char t ≡ true → IsLine t
literal [] h = tt
literal (c ∷ t) h = (ground arith, literal t (ground arith))

module _ (r : FirewallRule) (plain : IsPlainRule r) where
  rule_comment-IsLine : (d : Text) → IsLine (rule_comment r d)
  rule_comment-IsLine d = elim (Bool-cases (not (is_nil r.dest_ip) && not (text_eq r.dest_ip d))) [
    | inl e ↦ rw e (
        prefixed (r.description ++ codes " (" ++ r.dest_ip) (codes ")")
          (prefixed (r.description ++ codes " (") r.dest_ip
            (prefixed r.description (codes " (") plain.0 (literal (codes " (") refl)) plain.2)
          (literal (codes ")") refl))
    | inr e ↦ rw e plain.0
  ]

  protocol-IsLine :
      valid_protocol r.protocol ≡ true
      → IsLine (if text_eq r.protocol (codes "icmp") then codes "meta l4proto icmp" else r.protocol)
  protocol-IsLine v = elim (Bool-cases (text_eq r.protocol (codes "icmp"))) [
    | inl e ↦ rw e (literal (codes "meta l4proto icmp") refl)
    | inr e ↦ rw e (valid_protocol-IsLine r.protocol v)
  ]

  source-IsLine : IsLine (codes "ip saddr " ++ r.source_ip)
  source-IsLine =
      prefixed (codes "ip saddr ") r.source_ip (literal (codes "ip saddr ") refl) plain.1

  comment-IsLine :
      (d : Text)
      → IsLine (codes "comment \"" ++ replace_char b'"' b'\'' (rule_comment r d) ++ codes "\"")
  comment-IsLine d =
      prefixed (codes "comment \"" ++ replace_char b'"' b'\'' (rule_comment r d)) (codes "\"")
        (prefixed (codes "comment \"") (replace_char b'"' b'\'' (rule_comment r d))
          (literal (codes "comment \"") refl)
          (Only-replace_char line_char b'"' b'\'' (rule_comment r d) refl (rule_comment-IsLine d)))
        (literal (codes "\"") refl)

  mac-IsLine :
      (is_nil r.device_mac || valid_mac r.device_mac) ≡ true
      → not (is_nil r.device_mac) ≡ true
      → IsLine (codes "ether saddr " ++ to_lower r.device_mac)
  mac-IsLine v n =
      prefixed (codes "ether saddr ") (to_lower r.device_mac) (literal (codes "ether saddr ") refl)
        (valid_mac-IsLine r.device_mac (ground arith))

  rule_parts-IsLine :
      (d : Text)
      → IsLine d
      → valid_protocol r.protocol ≡ true
      → valid_port_spec r.dest_port ≡ true
      → (is_nil r.device_mac || valid_mac r.device_mac) ≡ true
      → All IsLine (rule_parts r d)
  unfolding rule_parts
  rule_parts-IsLine d o v p m =
      parts-append _ _
        (parts-append _ _
          (parts-append _ _
            (parts-append _ _
              (parts-append _ _
                (parts-append _ _ (part-IsLine _ _ (mac-IsLine m))
                  (part-IsLine _ _ (λ h. protocol-IsLine v)))
                (part-IsLine _ _ (λ h. source-IsLine)))
              (part-IsLine _ _
                (λ h. prefixed (codes "ip daddr ") d (literal (codes "ip daddr ") refl) o)))
            (part-IsLine _ _ (λ h.
              prefixed (codes "dport ") r.dest_port (literal (codes "dport ") refl)
                (valid_port_spec-IsLine r.dest_port p))))
          (part-IsLine _ _ (λ h. literal (codes "log prefix \"[NETFILTER-ACCEPT] \"") refl)))
        (plain.3, part-IsLine _ _ (λ h. comment-IsLine d))

  rule_line-IsLine :
      (d : Text)
      → IsLine d
      → valid_protocol r.protocol ≡ true
      → valid_port_spec r.dest_port ≡ true
      → (is_nil r.device_mac || valid_mac r.device_mac) ≡ true
      → IsLine (rule_line r d)
  unfolding rule_line
  rule_line-IsLine d o v p m =
      Only-join line_char (codes " ") (rule_parts r d) (literal (codes " ") refl)
        (rule_parts-IsLine d o v p m)

module _ (host : Host) (laws : HostLaws host) where
  v4_texts-IsLine :
      (ips : List Ip)
      → All (λ ip. All (λ c. address_char c ≡ true) (ip_text ip)) ips
      → All IsLine (v4_texts ips)
  unfolding v4_texts
  v4_texts-IsLine [] h = tt
  v4_texts-IsLine (v4 t ∷ ips) (p, h) = (All-mono address_char-line_char t p, v4_texts-IsLine ips h)
  v4_texts-IsLine (v6 t ∷ ips) (p, h) = v4_texts-IsLine ips h

  looked_up : Text → List Text
  looked_up input = elim (host.lookup_ip input) [ none ↦ [] | some ips ↦ v4_texts ips ]

  looked_up-IsLine : (input : Text) → All IsLine (looked_up input)
  unfolding looked_up
  looked_up-IsLine input = elim (Option-cases (host.lookup_ip input)) [
    | inl e ↦ rw (e, looked_up) tt
    | inr (ips, e) ↦ rw (e, looked_up) (v4_texts-IsLine ips (laws.lookup_ip_chars input ips e))
  ]

  resolve_host_or_ip-IsLine :
      (text : Text) → IsLine text → All IsLine (resolve_host_or_ip host text)
  unfolding resolve_host_or_ip looked_up
  resolve_host_or_ip-IsLine text h =
      let trimmed = Only-trim_space line_char text h in
      elim (Bool-cases (is_nil (trim_space text))) [
        | inl e ↦ rw e tt
        | inr e ↦
            rw e
              (elim (Bool-cases
                (contains_char b'/' (trim_space text) && host.parse_cidr (trim_space text))) [
                  | inl f ↦ rw f (trimmed, tt)
                  | inr f ↦ rw f (elim (Option-cases (host.parse_ip (trim_space text))) [
                    | inl g ↦ rw (g, resolve_host_or_ip) (looked_up-IsLine (trim_space text))
                    | inr (ip, g) ↦ rw (g, resolve_host_or_ip) (trimmed, tt)
                  ])
                ])
      ]

  dest_ips-IsLine : (r : FirewallRule) → IsLine r.dest_ip → All IsLine (dest_ips host r)
  unfolding dest_ips
  dest_ips-IsLine r h = elim (Bool-cases (is_nil r.dest_ip)) [
    | inl e ↦ rw e (tt, tt)
    | inr e ↦ rw e (
        All-keep IsLine (valid_ip_or_cidr host) (resolve_host_or_ip host r.dest_ip)
          (resolve_host_or_ip-IsLine r.dest_ip h))
  ]

  lines-IsLine :
      (r : FirewallRule) (ds : List Text)
      → ((d : Text) → IsLine d → IsLine (rule_line r d))
      → All IsLine ds
      → All IsLine (map (rule_line r) ds)
  lines-IsLine r [] k h = tt
  lines-IsLine r (d ∷ ds) k (o, h) = (k d o, lines-IsLine r ds k h)

  -- With a resolver that answers with printed addresses, a rule whose description, addresses and
  -- action hold no line feed adds whole lines to the ruleset: none of the lines that
  -- buildRuleLines makes of it holds a line feed, whatever its other fields are and whatever a
  -- name in it resolves to.
  pub build_rule_lines-IsLine :
      (r : FirewallRule) → IsPlainRule r → All IsLine (build_rule_lines host r)
  unfolding build_rule_lines rule_fields_ok
  build_rule_lines-IsLine r plain = elim (Bool-cases (rule_fields_ok host r)) [
    | inr e ↦ rw (e, build_rule_lines) tt
    | inl e ↦
        let protocol_ok : valid_protocol r.protocol ≡ true = ground arith in
        let port_ok : valid_port_spec r.dest_port ≡ true = ground arith in
        let mac_ok : (is_nil r.device_mac || valid_mac r.device_mac) ≡ true = ground arith in
        rw (e, build_rule_lines)
          (lines-IsLine r (dest_ips host r)
            (λ d o. rule_line-IsLine r plain d o protocol_ok port_ok mac_ok)
            (dest_ips-IsLine r plain.2))
  ]
