-- ===== src/Firewall/Ruleset/Chains.antt =====
-- internal/services/firewall.go: the chains of policies in the lines of generateConfig.
use rpi_network_filter.Common.{ℕ, ◌≡◌, ◌⊎◌, List, [], ◌∷◌, ◌++◌, Text, codes, In}
use rpi_network_filter.Config.{Config}
use rpi_network_filter.Host.{Host}
use rpi_network_filter.Strings.{to_lower}
use rpi_network_filter.Models.{Policy, FirewallRule, DevicePolicy}
use rpi_network_filter.Db.{Db}
use rpi_network_filter.Firewall.{PolicySnapshot}
use rpi_network_filter.Firewall.Nftables.{policy_chain_name, set_lines, chain_lines}
use rpi_network_filter.Firewall.Ruleset.{
  concat_lines, head_lines, doh_lines, input_lines, forward_lines, output_lines, config_lines,
}

module _ (host : Host) (cfg : Config) (rules : List FirewallRule) (macs : List Text)
    (snap : PolicySnapshot) where
  abbrev lines : List Text
  lines = config_lines host cfg rules macs snap

  -- The lines before the chains of policies.
  abbrev before : List Text
  before =
      head_lines cfg
      ++ (concat_lines (set_lines host snap) snap.policies ++ (doh_lines ++ input_lines cfg))

  abbrev chains : List Text
  chains = concat_lines (chain_lines host rules snap) snap.policies

  abbrev behind : List Text
  behind = forward_lines macs snap ++ (output_lines host rules ++ codes "}" ∷ [])

  -- The lines hold the chain of a policy with this id, from its opening line on.
  abbrev pub IsDeclared : ℕ → Type 0
  IsDeclared id =
      (p : Policy) × (pre post body : List Text) × In p snap.policies
      × (p.id ≡ id)
      × (chain_lines host rules snap p
          ≡ (codes "    chain " ++ policy_chain_name id ++ codes " {") ∷ body)
      × (config_lines host cfg rules macs snap ≡ pre ++ (chain_lines host rules snap p ++ post))

  -- A device's entry stands in the map from addresses to chains.
  abbrev pub IsDispatched : DevicePolicy → Type 0
  IsDispatched a =
      let entry =
        codes "            "
        ++ to_lower a.device_mac
        ++ codes " : goto "
        ++ policy_chain_name a.policy_id in
      In entry (config_lines host cfg rules macs snap)
      ⊎ In (entry ++ codes ",") (config_lines host cfg rules macs snap)
