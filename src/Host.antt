-- ===== src/Host.antt =====
-- What the services take from Go's packages `net` and `encoding/json`, as a parameter: address
-- parsing, name resolution and arrays of strings as JSON. A resolver's answers come from outside
-- the program; `HostLaws` states how the documentation says addresses are printed.
use rpi_network_filter.Common.{ℕ, ◌==◌, ◌≡◌, Bool, true, ◌||◌, Option, some, List, Text, All}
use rpi_network_filter.Regexp.{within}

-- A parsed address, with its canonical text: `To4()` is not nil exactly for `v4`.
pub data Ip : Type 0 where
  v4 v6 : Text → Ip

pub record Host : Type 0 where
  -- ParseIP
  pub parse_ip : Text → Option Ip
  -- whether ParseCIDR succeeds
  pub parse_cidr : Text → Bool
  -- LookupIP
  pub lookup_ip : Text → Option (List Ip)
  -- Resolver.LookupHost
  pub lookup_host : Text → Option (List Text)
  -- Marshal of a []string, and Unmarshal into one
  pub encode_strings : List Text → Text
  pub decode_strings : Text → Option (List Text)

-- The characters of an address or a block: hexadecimal digits, `.`, `:` and `/`.
unfoldable pub address_char : ℕ → Bool
address_char c =
    within b'0' b'9' c
    || within b'a' b'f' c
    || within b'A' b'F' c
    || within b'.' b'/' c
    || c == b':'

abbrev pub ip_text : Ip → Text
ip_text (v4 t) = t
ip_text (v6 t) = t

pub record HostLaws (host : Host) : Type 0 where
  pub lookup_ip_chars :
      (s : Text) (ips : List Ip)
      → host.lookup_ip s ≡ some ips
      → All (λ ip. All (λ c. address_char c ≡ true) (ip_text ip)) ips
