-- ===== src/Firewall/Nftables/Sets.antt =====
-- The elements of the sets of /etc/nftables.conf.
use rpi_network_filter.Common.{
  ◌≡◌, Bool, true, not, ◌||◌, List, Text, text_eq, All, Any, any, Unique,
}
use rpi_network_filter.Host.{Host}
use rpi_network_filter.Strings.{trim_space}
use rpi_network_filter.Validate.{valid_ipv4}
use rpi_network_filter.Models.{PolicyDomain}
use rpi_network_filter.Firewall.Nftables.{resolved_texts}

module _ (host : Host) where
  -- `ip` is a valid address, and one of some texts between blanks.
  abbrev pub IsFrom : Text → List Text → Type 0
  IsFrom ip rs = (valid_ipv4 host ip ≡ true) × Any (λ r. trim_space r ≡ ip) rs

  -- Valid addresses, each once.
  abbrev pub IsIpSet : List Text → Type 0
  IsIpSet ips = All (λ ip. valid_ipv4 host ip ≡ true) ips × Unique text_eq ips

  abbrev skip : List Text → Text → Bool
  skip seen ip = not (valid_ipv4 host ip) || any (λ e. text_eq e ip) seen

  -- Some row brings `ip`.
  abbrev pub IsResolved : Text → List PolicyDomain → Type 0
  IsResolved ip ds = Any (λ d. IsFrom ip (resolved_texts host d)) ds
