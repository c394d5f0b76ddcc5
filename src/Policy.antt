-- ===== src/Policy.antt =====
-- internal/services/policy.go: PolicyService. Policies, their allow lists, and the assignment of
-- devices to policies.
pub mod Invariant
pub mod Policies
pub mod Domains
pub mod Steps
pub mod Devices
pub mod Assign
pub mod Guard
use rpi_network_filter.Common.{
  ℕ, ◌+◌, ◌==◌, Bool, true, false, not, ◌&&◌, ◌||◌, Option, none, some, List, [], ◌∷◌, ◌++◌, Text,
  codes, text_eq, map, Result, ok, err, any, find, keep, update_where, if◌then◌else◌,
}
use rpi_network_filter.Host.{Host}
use rpi_network_filter.Strings.{to_lower, trim_space, is_nil}
use rpi_network_filter.Validate.{valid_policy_name}
use rpi_network_filter.Models.{Policy, PolicyDomain, DevicePolicy}
use rpi_network_filter.Db.{
  Db, Action, Error, Assignment, policy_not_found, default_policy_lock, invalid_name, invalid_mode,
  domain_required, domain_blocked, mac_required, db, unique, foreign_key, no_rows, order_by,
  text_lt,
}
use rpi_network_filter.Blocked.{normalize_domain, is_blocked}

unfoldable pub valid_mode : Text → Bool
valid_mode m =
    text_eq m (codes "permissive") || text_eq m (codes "strict") || text_eq m (codes "open")

-- ORDER BY is_default DESC, name ASC
unfoldable pub policy_before : Policy → Policy → Bool
policy_before a b =
    (a.is_default && not b.is_default)
    || (not (b.is_default && not a.is_default) && text_lt a.name b.name)

unfoldable pub list_policies : Db → List Policy
unfolding policy_before
list_policies s = order_by policy_before s.policies

unfoldable pub get_policy : Db → ℕ → Result Error Policy
get_policy s id = elim (find (λ p. p.id == id) s.policies) [
  | none ↦ err policy_not_found
  | some p ↦ ok p
]

unfoldable pub default_policy : Db → Result Error Policy
default_policy s = elim (find (λ p. p.is_default) s.policies) [
  | none ↦ err (db no_rows)
  | some p ↦ ok p
]

unfoldable pub name_taken : Db → ℕ → Text → Bool
name_taken s id name = any (λ p. not (p.id == id) && text_eq p.name name) s.policies

-- `if !validMode(p.Mode) { p.Mode = "permissive" }`
unfoldable pub mode_or_permissive : Text → Text
mode_or_permissive m = if not (valid_mode m) then codes "permissive" else m

-- The row of INSERT INTO policies: never the default policy.
unfoldable pub policy_row : Text → Policy → Db → Policy
policy_row name p s = record {
  id = s.policies_seq + 1;
  name = name;
  mode = mode_or_permissive p.mode;
  description = p.description;
  is_default = false;
  created_at = s.now;
}

unfoldable pub create_policy : Policy → Action ℕ
unfolding policy_row mode_or_permissive
create_policy p s =
    let name = trim_space p.name in
    if not (valid_policy_name name)
    then (err invalid_name, s)
    else if any (λ q. text_eq q.name name) s.policies
    then (err (db unique), s)
    else (
      ok (s.policies_seq + 1),
      record s {
        policies = s.policies ++ policy_row name p s ∷ [];
        policies_seq = s.policies_seq + 1;
      },
    )

unfoldable pub update_policy : ℕ → Policy → Action (Unit {0})
unfolding name_taken
update_policy id p s =
    let name = trim_space p.name in
    if not (valid_policy_name name)
    then (err invalid_name, s)
    else if not (valid_mode p.mode)
    then (err invalid_mode, s)
    else if any (λ q. q.id == id) s.policies && name_taken s id name
    then (err (db unique), s)
    else (
      ok tt,
      record s {
        policies =
            update_where (λ q. q.id == id)
              (λ q. record q { name = name; mode = p.mode; description = p.description })
              s.policies;
      },
    )

-- DELETE FROM policies, with the cascades to the allow list and the assignments.
unfoldable pub delete_policy_row : ℕ → Db → Db
delete_policy_row id s = record s {
  policies = keep (λ p. not (p.id == id)) s.policies;
  policy_allowed_domains = keep (λ d. not (d.policy_id == id)) s.policy_allowed_domains;
  device_policies = keep (λ a. not (a.policy_id == id)) s.device_policies;
}

unfoldable pub delete_policy : ℕ → Action (Unit {0})
unfolding delete_policy_row
delete_policy id s = elim (find (λ p. p.id == id) s.policies) [
  | none ↦ (err policy_not_found, s)
  | some p ↦ if p.is_default then (err default_policy_lock, s) else (ok tt, delete_policy_row id s)
]

unfoldable pub list_domains : Db → ℕ → List PolicyDomain
list_domains s policy_id =
    order_by (λ a b. text_lt a.domain b.domain)
      (keep (λ d. d.policy_id == policy_id) s.policy_allowed_domains)

-- Whether a row stands for the mapping that UNIQUE(policy_id, domain) identifies.
unfoldable pub is_mapping : ℕ → Text → PolicyDomain → Bool
is_mapping policy_id domain d = d.policy_id == policy_id && text_eq d.domain domain

unfoldable pub domain_row : ℕ → Text → Text → Bool → Db → PolicyDomain
domain_row policy_id domain description enabled s = record {
  id = s.policy_allowed_domains_seq + 1;
  policy_id = policy_id;
  domain = domain;
  description = description;
  enabled = enabled;
  resolved_ips = [];
  last_resolved_at = none;
  hit_count = 0;
  created_at = s.now;
}

-- DO UPDATE SET: an empty description leaves the old one.
unfoldable pub renew : Text → Bool → PolicyDomain → PolicyDomain
renew description enabled d = record d {
  description = if is_nil description then d.description else description;
  enabled = enabled;
}

-- INSERT INTO policy_allowed_domains … ON CONFLICT(policy_id, domain) DO UPDATE … RETURNING id.
-- SQLite draws an id before it finds the conflict, so that the counter advances then, too.
unfoldable pub upsert_domain : ℕ → Text → Text → Bool → Action ℕ
unfolding is_mapping domain_row renew
upsert_domain policy_id domain description enabled s =
    elim (find (is_mapping policy_id domain) s.policy_allowed_domains) [
      | some row ↦ (
        ok row.id,
        record s {
          policy_allowed_domains =
              update_where (is_mapping policy_id domain) (renew description enabled)
                s.policy_allowed_domains;
          policy_allowed_domains_seq = s.policy_allowed_domains_seq + 1;
        },
      )
      | none ↦
          if not (any (λ p. p.id == policy_id) s.policies) then (err (db foreign_key), s) else (
            ok (s.policy_allowed_domains_seq + 1),
            record s {
              policy_allowed_domains =
                  s.policy_allowed_domains
                  ++ domain_row policy_id domain description enabled s ∷ [];
              policy_allowed_domains_seq = s.policy_allowed_domains_seq + 1;
            },
          )
    ]

unfoldable pub create_domain : ℕ → PolicyDomain → Action ℕ
unfolding upsert_domain
create_domain policy_id d s =
    let domain = normalize_domain d.domain in
    if is_nil domain then (err domain_required, s) else elim (is_blocked s domain) [
      | some match ↦ (err (domain_blocked match), s)
      | none ↦ upsert_domain policy_id domain d.description d.enabled s
    ]

unfoldable pub update_domain : ℕ → Text → Bool → Action (Unit {0})
update_domain id description enabled s = (
  ok tt,
  record s {
    policy_allowed_domains =
        update_where (λ d. d.id == id)
          (λ d. record d { description = description; enabled = enabled }) s.policy_allowed_domains;
  },
)

unfoldable pub delete_domain : ℕ → Action (Unit {0})
delete_domain id s = (
  ok tt,
  record s { policy_allowed_domains = keep (λ d. not (d.id == id)) s.policy_allowed_domains },
)

-- The domains of the enabled rows, each once: SELECT DISTINCT.
unfoldable pub distinct : List Text → List Text
distinct [] = []
distinct (d ∷ ds) = let rest = distinct ds in d ∷ keep (λ e. not (text_eq e d)) rest

-- SELECT DISTINCT domain … WHERE enabled = 1
unfoldable pub enabled_names : Db → List Text
unfolding distinct
enabled_names s = distinct (map (λ d. d.domain) (keep (λ d. d.enabled) s.policy_allowed_domains))

module _ (host : Host) where
  unfoldable pub resolve_domain : Text → Db → Db
  resolve_domain text s =
      let domain = normalize_domain text in
      if is_nil domain then s else elim (host.lookup_host domain) [
        | none ↦ s
        | some ips ↦ record s {
          policy_allowed_domains =
              update_where (λ d. text_eq d.domain domain)
                (λ d. record d {
                  resolved_ips = host.encode_strings ips;
                  last_resolved_at = some s.now;
                })
                s.policy_allowed_domains;
        }
      ]

  unfoldable pub resolve_all : List Text → Db → Db
  unfolding resolve_domain
  resolve_all [] s = s
  resolve_all (d ∷ ds) s = resolve_all ds (resolve_domain d s)

  unfoldable pub refresh_all : Db → Db
  unfolding resolve_all enabled_names
  refresh_all s = resolve_all (enabled_names s) s

unfoldable pub assign_device : Text → ℕ → Action (Unit {0})
assign_device text policy_id s =
    let mac = to_lower (trim_space text) in
    if is_nil mac
    then (err mac_required, s)
    else if not (any (λ p. p.id == policy_id) s.policies)
    then (err (db foreign_key), s)
    else if any (λ a. text_eq a.device_mac mac) s.device_policies
    then (
      ok tt,
      record s {
        device_policies =
            update_where (λ a. text_eq a.device_mac mac) (λ a. record a { policy_id = policy_id })
              s.device_policies;
      },
    )
    else (
      ok tt,
      record s {
        device_policies =
            s.device_policies
            ++ record { device_mac = mac; policy_id = policy_id; assigned_at = s.now } ∷ [];
      },
    )

unfoldable pub unassign_device : Text → Action (Unit {0})
unassign_device text s = (
  ok tt,
  record s {
    device_policies = keep (λ a. not (text_eq a.device_mac (to_lower text))) s.device_policies;
  },
)

-- JOIN policies: an assignment with the name of its policy; no row without one.
unfoldable pub join_policy : List Policy → List Assignment → List DevicePolicy
join_policy policies [] = []
join_policy policies (a ∷ rows) = elim (find (λ p. p.id == a.policy_id) policies) [
  | none ↦ join_policy policies rows
  | some p ↦
      record {
        device_mac = a.device_mac;
        policy_id = a.policy_id;
        policy_name = p.name;
        assigned_at = a.assigned_at;
      }
      ∷ join_policy policies rows
]

unfoldable pub list_assignments : Db → List DevicePolicy
unfolding join_policy
list_assignments s =
    order_by (λ a b. text_lt a.device_mac b.device_mac) (join_policy s.policies s.device_policies)

-- DevicePolicy
unfoldable pub device_policy : Db → Text → Result Error Policy
unfolding default_policy
device_policy s text =
    let mac = to_lower (trim_space text) in
    elim (find (λ a. text_eq a.device_mac mac) (join_policy s.policies s.device_policies)) [
      | none ↦ default_policy s
      | some a ↦ get_policy s a.policy_id
    ]
