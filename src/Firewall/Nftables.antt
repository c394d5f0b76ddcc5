-- ===== src/Firewall/Nftables.antt =====
-- internal/services/firewall.go: generateConfig, the text of /etc/nftables.conf, as the list of its
-- lines; and internal/services/doh.go, the resolvers that it drops.
pub mod Sets
use rpi_network_filter.Common.{
  ℕ, Bool, true, false, not, ◌&&◌, ◌||◌, none, some, List, [], ◌∷◌, ◌++◌, Text, codes, text_eq, map,
  any, keep, if◌then◌else◌,
}
use rpi_network_filter.Config.{Config}
use rpi_network_filter.Host.{Host}
use rpi_network_filter.Strings.{is_nil, to_lower, trim_space}
use rpi_network_filter.Strings.Decimal.{format_int}
use rpi_network_filter.Validate.{valid_ipv4}
use rpi_network_filter.Models.{Policy, PolicyDomain, DevicePolicy, FirewallRule}
use rpi_network_filter.Firewall.{PolicySnapshot, domains_by_id}
use rpi_network_filter.Firewall.Rules.{build_rule_lines}

unfoldable pub policy_set_name : ℕ → Text
unfolding format_int
policy_set_name id = codes "pol_" ++ format_int id ++ codes "_ips"

unfoldable pub policy_chain_name : ℕ → Text
unfolding format_int
policy_chain_name id = codes "pol_" ++ format_int id ++ codes "_chain"

-- A text from its lines.
unfoldable pub unlines : List Text → Text
unlines [] = []
unlines (l ∷ ls) = l ++ 10 ∷ unlines ls

-- Lines behind each other with a comma after all but the last.
unfoldable pub with_commas : List Text → List Text
with_commas [] = []
with_commas (l ∷ []) = l ∷ []
with_commas (l ∷ m ∷ ls) = (l ++ codes ",") ∷ with_commas (m ∷ ls)

abbrev pub doh_resolver_ips : List Text
doh_resolver_ips =
    codes "1.1.1.1"
    ∷ codes "1.0.0.1"
    ∷ codes "8.8.8.8"
    ∷ codes "8.8.4.4"
    ∷ codes "9.9.9.9"
    ∷ codes "149.112.112.112"
    ∷ codes "94.140.14.14"
    ∷ codes "94.140.15.15"
    ∷ codes "208.67.222.222"
    ∷ codes "208.67.220.220"
    ∷ codes "185.228.168.9"
    ∷ codes "185.228.169.9"
    ∷ codes "76.76.2.0"
    ∷ codes "76.76.10.0"
    ∷ []

module _ (host : Host) where
  -- The inner loop: the valid addresses that are not in `seen`, behind it.
  unfoldable pub add_ips : List Text → List Text → List Text
  add_ips seen [] = seen
  add_ips seen (text ∷ rs) =
      let ip = trim_space text in
      let skip = not (valid_ipv4 host ip) || any (λ e. text_eq e ip) seen in
      add_ips (if skip then seen else seen ++ ip ∷ []) rs

  -- The addresses that a row brings: none if it is disabled or its JSON is no array of texts.
  unfoldable pub resolved_texts : PolicyDomain → List Text
  resolved_texts d =
      if not d.enabled || is_nil d.resolved_ips
      then []
      else elim (host.decode_strings d.resolved_ips) [ none ↦ [] | some rs ↦ rs ]

  unfoldable pub collect_ips : List Text → List PolicyDomain → List Text
  unfolding add_ips resolved_texts
  collect_ips seen [] = seen
  collect_ips seen (d ∷ ds) = collect_ips (add_ips seen (resolved_texts d)) ds

  -- The elements of a policy's set.
  unfoldable pub set_elements : List PolicyDomain → List Text
  unfolding collect_ips
  set_elements ds = collect_ips [] ds

  unfoldable pub set_lines : PolicySnapshot → Policy → List Text
  unfolding policy_set_name with_commas set_elements domains_by_id
  set_lines snap p =
      let ips = set_elements (domains_by_id snap.domains p.id) in
      (codes "    set " ++ policy_set_name p.id ++ codes " {")
        ∷ codes "        type ipv4_addr"
        ∷ codes "        flags timeout"
        ∷ codes "        timeout 30d"
        ∷ (if is_nil ips
            then []
            else codes "        elements = {"
              ∷ (with_commas (map (λ ip. codes "            " ++ ip ++ codes " timeout 30d") ips)
                  ++ codes "        }" ∷ []))
      ++ codes "    }" ∷ [] ∷ []

  -- The lines of the enabled rules of a direction.
  unfoldable pub rules_lines : Text → List FirewallRule → List Text
  rules_lines direction [] = []
  rules_lines direction (r ∷ rs) =
      let rest = rules_lines direction rs in
      if not r.enabled || not (text_eq r.direction direction)
      then rest
      else map (λ l. codes "        " ++ l) (build_rule_lines host r) ++ rest

  -- The end of a policy's chain, by its mode.
  unfoldable pub chain_end : List FirewallRule → ℕ → Policy → List Text
  unfolding policy_chain_name rules_lines text_eq
  chain_end rules default_id p =
      let logged =
        (codes "        ct state new log prefix \"[NETFILTER-DROP pol="
          ++ p.name
          ++ codes "] \" drop")
        ∷ codes "        drop"
        ∷ [] in
      if text_eq p.mode (codes "open")
      then codes "        accept" ∷ []
      else if p.is_default
      then rules_lines (codes "forward") rules ++ logged
      else if text_eq p.mode (codes "strict")
      then logged
      else (codes "        jump " ++ policy_chain_name default_id) ∷ []

  unfoldable pub chain_lines : List FirewallRule → PolicySnapshot → Policy → List Text
  unfolding policy_set_name policy_chain_name chain_end
  chain_lines rules snap p =
      (codes "    chain " ++ policy_chain_name p.id ++ codes " {")
      ∷ (codes "        ip daddr @"
          ++ policy_set_name p.id
          ++ codes " log prefix \"[NETFILTER-ACCEPT pol="
          ++ p.name
          ++ codes "] \" accept")
      ∷ (chain_end rules snap.default_id p ++ codes "    }" ∷ [] ∷ [])
