-- ===== src/Firewall.antt =====
-- internal/services/firewall.go: FirewallService. This file holds its statements on the tables: the
-- rules, the allow list of the default policy, and the snapshot that Apply reads.
pub mod Legacy
pub mod Rules
pub mod Nftables
pub mod Ruleset
pub mod Apply
pub mod Snapshot
pub mod ActiveSet
use rpi_network_filter.Common.{
  ℕ, ltb, ◌+◌, ◌==◌, Bool, true, false, not, ◌&&◌, ◌||◌, Option, none, some, List, [], ◌∷◌, ◌++◌,
  Text, codes, text_eq, map, Result, ok, err, any, find, keep, update_where, if◌then◌else◌,
}
use rpi_network_filter.Strings.{is_nil}
use rpi_network_filter.Validate.{valid_mac}
use rpi_network_filter.Models.{
  Policy, PolicyDomain, DevicePolicy, AllowedDomain, FirewallRule, Device,
}
use rpi_network_filter.Db.{
  Db, Action, Error, domain_required, domain_blocked, db, check, no_rows, order_by, text_lt,
}
use rpi_network_filter.Blocked.{normalize_domain, is_blocked}
use rpi_network_filter.Policy.{upsert_domain, list_policies, list_domains, list_assignments}

-- ORDER BY priority ASC, id ASC
unfoldable pub rule_before : FirewallRule → FirewallRule → Bool
rule_before a b = ltb a.priority b.priority || (a.priority == b.priority && ltb a.id b.id)

unfoldable pub list_rules : Db → List FirewallRule
unfolding rule_before
list_rules s = order_by rule_before s.firewall_rules

-- The CHECK constraints of firewall_rules.
unfoldable pub is_rule : FirewallRule → Bool
is_rule r =
    (text_eq r.direction (codes "inbound")
      || text_eq r.direction (codes "outbound")
      || text_eq r.direction (codes "forward"))
    && (text_eq r.protocol (codes "tcp")
        || text_eq r.protocol (codes "udp")
        || text_eq r.protocol (codes "icmp")
        || text_eq r.protocol (codes "all"))
    && (text_eq r.action (codes "drop")
        || text_eq r.action (codes "reject")
        || text_eq r.action (codes "accept"))

unfoldable pub create_rule : FirewallRule → Action ℕ
unfolding is_rule
create_rule r s = if not (is_rule r) then (err (db check), s) else (
  ok (s.firewall_rules_seq + 1),
  record s {
    firewall_rules =
        s.firewall_rules ++ record r { id = s.firewall_rules_seq + 1; created_at = s.now } ∷ [];
    firewall_rules_seq = s.firewall_rules_seq + 1;
  },
)

unfoldable pub update_rule : ℕ → FirewallRule → Action (Unit {0})
unfolding is_rule
update_rule id r s =
    if any (λ q. q.id == id) s.firewall_rules && not (is_rule r) then (err (db check), s) else (
      ok tt,
      record s {
        firewall_rules =
            update_where (λ q. q.id == id) (λ q. record r { id = q.id; created_at = q.created_at })
              s.firewall_rules;
      },
    )

unfoldable pub delete_rule : ℕ → Action (Unit {0})
delete_rule id s =
    (ok tt, record s { firewall_rules = keep (λ q. not (q.id == id)) s.firewall_rules })

unfoldable pub default_policy_id : Db → Result Error ℕ
default_policy_id s = elim (find (λ p. p.is_default) s.policies) [
  | none ↦ err (db no_rows)
  | some p ↦ ok p.id
]

-- The columns of an allow-list entry that the legacy interface knows.
abbrev pub allowed_domain : PolicyDomain → AllowedDomain
allowed_domain d = record {
  id = d.id;
  domain = d.domain;
  description = d.description;
  enabled = d.enabled;
  created_at = d.created_at;
}

-- JOIN policies … WHERE p.is_default = 1 ORDER BY domain
unfoldable pub list_allowed_domains : Db → List AllowedDomain
list_allowed_domains s = map allowed_domain (
    order_by (λ a b. text_lt a.domain b.domain)
      (keep (λ d. any (λ p. p.id == d.policy_id && p.is_default) s.policies)
        s.policy_allowed_domains))

unfoldable pub create_allowed_domain : AllowedDomain → Action ℕ
unfolding default_policy_id
create_allowed_domain d s =
    let domain = normalize_domain d.domain in
    if is_nil domain then (err domain_required, s) else elim (is_blocked s domain) [
      | some match ↦ (err (domain_blocked match), s)
      | none ↦ elim (default_policy_id s) [
        | err e ↦ (err e, s)
        | ok id ↦ upsert_domain id domain d.description d.enabled s
      ]
    ]

unfoldable pub update_allowed_domain : ℕ → AllowedDomain → Action (Unit {0})
update_allowed_domain id d s = (
  ok tt,
  record s {
    policy_allowed_domains =
        update_where (λ e. e.id == id)
          (λ e. record e { description = d.description; enabled = d.enabled })
          s.policy_allowed_domains;
  },
)

unfoldable pub delete_allowed_domain : ℕ → Action (Unit {0})
delete_allowed_domain id s = (
  ok tt,
  record s { policy_allowed_domains = keep (λ d. not (d.id == id)) s.policy_allowed_domains },
)

-- policySnapshot: `domains` is the map domainsByID, as a list of its entries.
pub record PolicySnapshot : Type 0 where
  pub policies : List Policy
  pub domains : List (ℕ × List PolicyDomain)
  pub assignments : List DevicePolicy
  pub default_id : ℕ

-- The id of the last default policy, 0 without one.
unfoldable pub last_default : ℕ → List Policy → ℕ
last_default id [] = id
last_default id (p ∷ ps) = last_default (if p.is_default then p.id else id) ps

unfoldable pub load_policy_snapshot : Db → PolicySnapshot
unfolding last_default
load_policy_snapshot s = record {
  policies = list_policies s;
  domains = map (λ p. (p.id, list_domains s p.id)) (list_policies s);
  assignments = list_assignments s;
  default_id = last_default 0 (list_policies s);
}

-- `domainsByID[id]`
unfoldable pub domains_by_id : List (ℕ × List PolicyDomain) → ℕ → List PolicyDomain
domains_by_id [] id = []
domains_by_id ((k, ds) ∷ entries) id =
    let rest = domains_by_id entries id in if k == id then ds else rest

-- The loop of Apply over the blocked devices.
unfoldable pub blocked_macs : Db → List Text
blocked_macs s = keep valid_mac (map (λ d. d.mac_address) (keep (λ d. d.is_blocked) s.devices))
