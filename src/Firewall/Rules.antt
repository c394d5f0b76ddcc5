-- ===== src/Firewall/Rules.antt =====
-- internal/services/firewall.go: buildRuleLines, the nftables lines of a rule.
pub mod Lines
use rpi_network_filter.Common.{
  Bool, true, false, not, ◌&&◌, ◌||◌, none, some, List, [], ◌∷◌, ◌++◌, Text, codes, text_eq, map,
  keep, if◌then◌else◌,
}
use rpi_network_filter.Host.{Host, Ip, v4, v6}
use rpi_network_filter.Strings.{is_nil, to_lower, trim_space, contains_char, join, replace_char}
use rpi_network_filter.Validate.{valid_protocol, valid_ip_or_cidr, valid_port_spec, valid_mac}
use rpi_network_filter.Models.{FirewallRule}

-- The texts of the addresses that To4 accepts.
unfoldable pub v4_texts : List Ip → List Text
v4_texts [] = []
v4_texts (v4 t ∷ ips) = t ∷ v4_texts ips
v4_texts (v6 t ∷ ips) = v4_texts ips

-- What `parts = append(parts, …)` under a condition appends.
abbrev pub part : Bool → Text → List Text
part true t = t ∷ []
part false t = []

abbrev pub rule_comment : FirewallRule → Text → Text
rule_comment r dest_ip =
    if not (is_nil r.dest_ip) && not (text_eq r.dest_ip dest_ip)
    then r.description ++ codes " (" ++ r.dest_ip ++ codes ")"
    else r.description

-- The body of the loop over the destinations.
unfoldable pub rule_parts : FirewallRule → Text → List Text
rule_parts r dest_ip =
    let icmp = text_eq r.protocol (codes "icmp") in
    let all_protocols = text_eq r.protocol (codes "all") in
    part (not (is_nil r.device_mac)) (codes "ether saddr " ++ to_lower r.device_mac)
    ++ part (not (is_nil r.protocol) && not all_protocols)
        (if icmp then codes "meta l4proto icmp" else r.protocol)
    ++ part (not (is_nil r.source_ip)) (codes "ip saddr " ++ r.source_ip)
    ++ part (not (is_nil dest_ip)) (codes "ip daddr " ++ dest_ip)
    ++ part (not (is_nil r.dest_port) && not icmp && not all_protocols)
        (codes "dport " ++ r.dest_port)
    ++ part (text_eq r.action (codes "accept")) (codes "log prefix \"[NETFILTER-ACCEPT] \"")
    ++ r.action
      ∷ part (not (is_nil r.description))
          (codes "comment \"" ++ replace_char b'"' b'\'' (rule_comment r dest_ip) ++ codes "\"")

unfoldable pub rule_line : FirewallRule → Text → Text
unfolding rule_parts
rule_line r dest_ip = join (codes " ") (rule_parts r dest_ip)

module _ (host : Host) where
  unfoldable pub resolve_host_or_ip : Text → List Text
  unfolding v4_texts
  resolve_host_or_ip text =
      let input = trim_space text in
      if is_nil input
      then []
      else if contains_char b'/' input && host.parse_cidr input
      then input ∷ []
      else elim (host.parse_ip input) [
        | some ip ↦ input ∷ []
        | none ↦ elim (host.lookup_ip input) [ none ↦ [] | some ips ↦ v4_texts ips ]
      ]

  -- The guards at the head of buildRuleLines.
  unfoldable pub rule_fields_ok : FirewallRule → Bool
  rule_fields_ok r =
      valid_protocol r.protocol
      && (is_nil r.source_ip || valid_ip_or_cidr host r.source_ip)
      && valid_port_spec r.dest_port
      && (is_nil r.device_mac || valid_mac r.device_mac)

  -- The destinations: the empty text stands for any.
  unfoldable pub dest_ips : FirewallRule → List Text
  unfolding resolve_host_or_ip
  dest_ips r =
      if is_nil r.dest_ip
      then [] ∷ []
      else keep (valid_ip_or_cidr host) (resolve_host_or_ip r.dest_ip)

  unfoldable pub build_rule_lines : FirewallRule → List Text
  unfolding rule_fields_ok dest_ips rule_line
  build_rule_lines r = if not (rule_fields_ok r) then [] else map (rule_line r) (dest_ips r)
