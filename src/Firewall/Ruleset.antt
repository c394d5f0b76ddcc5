-- ===== src/Firewall/Ruleset.antt =====
-- internal/services/firewall.go: the tables and the hooked chains of generateConfig, and the whole
-- of its text.
pub mod Forward
pub mod Chains
use rpi_network_filter.Common.{
  ℕ, Bool, true, false, List, [], ◌∷◌, ◌++◌, Text, codes, map, if◌then◌else◌,
}
use rpi_network_filter.Config.{Config}
use rpi_network_filter.Host.{Host}
use rpi_network_filter.Strings.{is_nil, to_lower}
use rpi_network_filter.Models.{Policy, DevicePolicy, FirewallRule}
use rpi_network_filter.Firewall.{PolicySnapshot}
use rpi_network_filter.Firewall.Nftables.{
  policy_chain_name, unlines, with_commas, doh_resolver_ips, set_lines, chain_lines, rules_lines,
}

unfoldable pub concat_lines : {A : Type 0} → (A → List Text) → List A → List Text
concat_lines f [] = []
concat_lines f (x ∷ xs) = f x ++ concat_lines f xs

-- The NAT table, and the opening of the filter table.
unfoldable pub head_lines : Config → List Text
head_lines cfg =
    codes "#!/usr/sbin/nft -f"
    ∷ []
    ∷ codes "flush ruleset"
    ∷ []
    ∷ codes "table ip nat {"
    ∷ codes "    chain postrouting {"
    ∷ codes "        type nat hook postrouting priority srcnat; policy accept;"
    ∷ (codes "        oifname \"" ++ cfg.wan_interface ++ codes "\" masquerade")
    ∷ codes "    }"
    ∷ codes "}"
    ∷ []
    ∷ codes "table inet filter {"
    ∷ []

unfoldable pub doh_lines : List Text
unfolding with_commas
doh_lines =
    codes "    set doh_resolvers {"
    ∷ codes "        type ipv4_addr"
    ∷ codes "        elements = {"
    ∷ (with_commas (map (λ ip. codes "            " ++ ip) doh_resolver_ips)
        ++ codes "        }" ∷ codes "    }" ∷ [] ∷ [])

-- A line that accepts a port of a protocol from the local network.
abbrev pub lan_accept : Config → Text → Text
lan_accept cfg service =
    codes "        iifname \"" ++ cfg.lan_interface ++ codes "\" " ++ service ++ codes " accept"

unfoldable pub input_lines : Config → List Text
input_lines cfg =
    codes "    chain input {"
    ∷ codes "        type filter hook input priority filter; policy drop;"
    ∷ codes "        ct state established,related accept"
    ∷ codes "        iif lo accept"
    ∷ lan_accept cfg (codes "udp dport 53")
    ∷ lan_accept cfg (codes "udp dport 67")
    ∷ lan_accept cfg (codes "tcp dport 22")
    ∷ lan_accept cfg (codes "tcp dport 80")
    ∷ lan_accept cfg (codes "tcp dport 8443")
    ∷ codes "        iifname \"lo\" accept"
    ∷ codes "    }"
    ∷ []
    ∷ []

abbrev pub drop_line : Text → Text
drop_line mac = codes "        ether saddr " ++ to_lower mac ++ codes " drop"

unfoldable pub dispatch_entry : DevicePolicy → Text
unfolding policy_chain_name
dispatch_entry a =
    codes "            "
    ++ to_lower a.device_mac
    ++ codes " : goto "
    ++ policy_chain_name a.policy_id

-- The verdict map from addresses to chains; none without assignments.
unfoldable pub dispatch_lines : List DevicePolicy → List Text
unfolding dispatch_entry with_commas
dispatch_lines assignments =
    if is_nil assignments
    then []
    else codes "        ether saddr vmap {"
      ∷ (with_commas (map dispatch_entry assignments) ++ codes "        }" ∷ [])

unfoldable pub forward_lines : List Text → PolicySnapshot → List Text
unfolding dispatch_lines policy_chain_name to_lower
forward_lines blocked_macs snap =
    codes "    chain forward {"
    ∷ codes "        type filter hook forward priority filter; policy drop;"
    ∷ codes "        ct state established,related accept"
    ∷ (map drop_line blocked_macs
        ++ codes
            "        ip daddr @doh_resolvers tcp dport 443 log prefix \"[NETFILTER-DROP-DOH] \" drop"
          ∷ codes
              "        ip daddr @doh_resolvers udp dport 853 log prefix \"[NETFILTER-DROP-DOT] \" drop"
          ∷ (dispatch_lines snap.assignments
              ++ (codes "        jump " ++ policy_chain_name snap.default_id)
                ∷ codes "    }"
                ∷ []
                ∷ []))

module _ (host : Host) where
  unfoldable pub output_lines : List FirewallRule → List Text
  unfolding rules_lines
  output_lines rules =
      codes "    chain output {"
      ∷ codes "        type filter hook output priority filter; policy accept;"
      ∷ (rules_lines host (codes "outbound") rules ++ codes "    }" ∷ [])

  unfoldable pub config_lines : Config → List FirewallRule → List Text → PolicySnapshot → List Text
  unfolding head_lines concat_lines set_lines doh_lines input_lines chain_lines forward_lines
      output_lines
  config_lines cfg rules blocked_macs snap =
      head_lines cfg
      ++ concat_lines (set_lines host snap) snap.policies
      ++ doh_lines
      ++ input_lines cfg
      ++ concat_lines (chain_lines host rules snap) snap.policies
      ++ forward_lines blocked_macs snap
      ++ output_lines rules
      ++ codes "}" ∷ []

  unfoldable pub generate_config : Config → List FirewallRule → List Text → PolicySnapshot → Text
  unfolding config_lines unlines
  generate_config cfg rules blocked_macs snap = unlines (config_lines cfg rules blocked_macs snap)
