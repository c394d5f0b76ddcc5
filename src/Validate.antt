-- ===== src/Validate.antt =====
-- internal/services/validate.go: the tests that guard every value of a generated configuration.
pub mod Names
pub mod Domains
pub mod Addresses
use rpi_network_filter.Common.{
  ℕ, ◌==◌, leb, ltb, Bool, true, false, not, ◌||◌, ◌&&◌, none, some, [], ◌∷◌, Text, codes, text_eq,
  length, if◌then◌else◌,
}
use rpi_network_filter.Host.{Host, v4, v6}
use rpi_network_filter.Regexp.{
  Regex, class, seq, star, char, opt, exactly, at_most, match_string, within,
}
use rpi_network_filter.Strings.{to_lower, trim_space, contains_char, is_nil}

unfoldable pub digit : ℕ → Bool
digit c = within b'0' b'9' c

-- [A-Za-z0-9]
unfoldable pub alnum : ℕ → Bool
unfolding digit
alnum c = within b'A' b'Z' c || within b'a' b'z' c || digit c

-- [A-Za-z0-9 _-]
unfoldable pub name_char : ℕ → Bool
unfolding alnum
name_char c = alnum c || c == b' ' || c == b'_' || c == b'-'

-- [a-z0-9]
unfoldable pub lower_alnum : ℕ → Bool
unfolding digit
lower_alnum c = within b'a' b'z' c || digit c

-- [a-z0-9-]
unfoldable pub label_char : ℕ → Bool
unfolding lower_alnum
label_char c = lower_alnum c || c == b'-'

-- [0-9a-f]
unfoldable pub hex : ℕ → Bool
unfolding digit
hex c = digit c || within b'a' b'f' c

unfoldable pub policy_name_re : Regex
unfolding name_char at_most
policy_name_re = seq (class alnum) (at_most 63 (class name_char))

-- [a-z0-9]([a-z0-9-]*[a-z0-9])?
unfoldable pub label_re : Regex
unfolding label_char opt
label_re = seq (class lower_alnum) (opt (seq (star (class label_char)) (class lower_alnum)))

unfoldable pub domain_name_re : Regex
unfolding label_re char
domain_name_re = seq label_re (star (seq (char b'.') label_re))

-- \d{1,5}
unfoldable pub port_re : Regex
unfolding digit at_most
port_re = seq (class digit) (at_most 4 (class digit))

unfoldable pub port_spec_re : Regex
unfolding port_re opt char
port_spec_re = seq port_re (opt (seq (char b'-') port_re))

unfoldable pub mac_strict_re : Regex
unfolding hex exactly char
mac_strict_re = seq (exactly 2 (class hex)) (exactly 5 (seq (char b':') (exactly 2 (class hex))))

unfoldable pub valid_policy_name : Text → Bool
unfolding policy_name_re match_string
valid_policy_name s = match_string policy_name_re s

unfoldable pub valid_domain : Text → Bool
unfolding domain_name_re match_string
valid_domain s =
    if length s == 0 || ltb 253 (length s) then false else match_string domain_name_re s

unfoldable pub valid_port_spec : Text → Bool
unfolding port_spec_re match_string
valid_port_spec s = if is_nil s then true else match_string port_spec_re s

-- `protocolValid[s]`
unfoldable pub valid_protocol : Text → Bool
unfolding text_eq
valid_protocol s =
    is_nil s
    || text_eq s (codes "all")
    || text_eq s (codes "tcp")
    || text_eq s (codes "udp")
    || text_eq s (codes "icmp")

unfoldable pub valid_mac : Text → Bool
unfolding mac_strict_re match_string to_lower
valid_mac s = match_string mac_strict_re (to_lower s)

-- The test of the function that SanitizeSingleLine maps over a text: a rune that it drops.
unfoldable pub is_control : ℕ → Bool
is_control r = r == 10 || r == 13 || ltb r 32 || r == 127

unfoldable pub sanitize_single_line : Text → Text
unfolding is_control
sanitize_single_line [] = []
sanitize_single_line (r ∷ s) =
    let rest = sanitize_single_line s in if is_control r then rest else r ∷ rest

module _ (host : Host) where
  unfoldable pub valid_ipv4 : Text → Bool
  valid_ipv4 s = elim (host.parse_ip (trim_space s)) [
    | none ↦ false
    | some ip ↦ elim ip [ v4 t ↦ true | v6 t ↦ false ]
  ]

  unfoldable pub valid_ip_or_cidr : Text → Bool
  unfolding valid_ipv4
  valid_ip_or_cidr s =
      let t = trim_space s in
      if is_nil t then true else if contains_char b'/' t then host.parse_cidr t else valid_ipv4 t
