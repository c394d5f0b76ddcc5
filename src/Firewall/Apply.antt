-- ===== src/Firewall/Apply.antt =====
-- internal/services/firewall.go: Apply, as the effects it has outside the database in their order,
-- and the directives of dnsmasq that it writes.
pub mod Effects
use rpi_network_filter.Common.{
  ℕ, Bool, true, false, not, ◌||◌, List, [], ◌∷◌, ◌++◌, Text, codes, map, keep, Result, ok, err,
  if◌then◌else◌,
}
use rpi_network_filter.Config.{Config}
use rpi_network_filter.Host.{Host}
use rpi_network_filter.Strings.{is_nil, to_lower, trim_space}
use rpi_network_filter.Models.{Policy, PolicyDomain}
use rpi_network_filter.Db.{Db, Error, exec_failed, write_failed}
use rpi_network_filter.Firewall.{
  PolicySnapshot, domains_by_id, list_rules, blocked_macs, load_policy_snapshot,
}
use rpi_network_filter.Firewall.Nftables.{policy_set_name, unlines}
use rpi_network_filter.Firewall.Ruleset.{generate_config, concat_lines}

-- What a service does outside the database.
pub data Effect : Type 0 where
  write_file : Text → Text → Effect
  exec : List Text → Effect

unfoldable pub nftset_line : ℕ → Text → Text
unfolding policy_set_name
nftset_line id domain = codes "nftset=/" ++ domain ++ codes "/inet#filter#" ++ policy_set_name id

-- The loop over the domains of a policy.
unfoldable pub nftset_lines : ℕ → List PolicyDomain → List Text
unfolding nftset_line to_lower trim_space
nftset_lines id [] = []
nftset_lines id (d ∷ ds) =
    let rest = nftset_lines id ds in
    let domain = to_lower (trim_space d.domain) in
    if not d.enabled || is_nil domain then rest else nftset_line id domain ∷ rest

unfoldable pub dnsmasq_nftsets : PolicySnapshot → Text
unfolding unlines concat_lines nftset_lines domains_by_id
dnsmasq_nftsets snap = unlines (
    codes "# Generated by netfilterd — do not edit"
    ∷ codes "# Maps DNS queries to per-policy nftables sets for dynamic allow-listing"
    ∷ []
    ∷ concat_lines (λ p. nftset_lines p.id (domains_by_id snap.domains p.id)) snap.policies)

-- The file that Apply loads into the kernel.
unfoldable pub nftables_conf : Host → Config → Db → Text
unfolding generate_config load_policy_snapshot
nftables_conf host cfg s =
    generate_config host cfg (list_rules s) (blocked_macs s) (load_policy_snapshot s)

-- os.WriteFile and Executor.Run as Apply uses them: with DryRun a failed write is no error, and
-- nothing is executed.
unfoldable pub perform : Bool → (Effect → Bool) → Effect → Result Error (Unit {0})
perform dry_run works (write_file path text) =
    if works (write_file path text) || dry_run then ok tt else err write_failed
perform dry_run works (exec args) = if dry_run || works (exec args) then ok tt else err exec_failed

-- Effects one behind the other, up to the first error: with those that were tried.
unfoldable pub perform_all :
    Bool → (Effect → Bool) → List Effect → Result Error (Unit {0}) × List Effect
unfolding perform
perform_all dry_run works [] = (ok tt, [])
perform_all dry_run works (e ∷ es) =
    let (result, tried) = perform_all dry_run works es in
    elim (perform dry_run works e) [ err x ↦ (err x, e ∷ []) | ok _ ↦ (result, e ∷ tried) ]

unfoldable pub apply_effects : Host → Config → Db → List Effect
unfolding nftables_conf dnsmasq_nftsets
apply_effects host cfg s =
    write_file (codes "/etc/nftables.conf") (nftables_conf host cfg s)
    ∷ exec (codes "nft" ∷ codes "-f" ∷ codes "/etc/nftables.conf" ∷ [])
    ∷ write_file (codes "/etc/dnsmasq.d/netfilter-nftsets.conf")
        (dnsmasq_nftsets (load_policy_snapshot s))
    ∷ exec (codes "systemctl" ∷ codes "reload" ∷ codes "dnsmasq" ∷ [])
    ∷ []

-- `works` tells which effects succeed.
unfoldable pub apply : Host → Config → (Effect → Bool) → Db → Result Error (Unit {0}) × List Effect
unfolding perform_all apply_effects
apply host cfg works s = perform_all cfg.dry_run works (apply_effects host cfg s)
