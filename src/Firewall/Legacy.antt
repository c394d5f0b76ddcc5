-- ===== src/Firewall/Legacy.antt =====
-- The legacy interface to the allow list of the default policy, against PolicyService.
use rpi_network_filter.Common.{
  ◌≡◌, refl, ap, inl, inr, Bool-cases, Option-cases, none, [], ok, find,
}
use rpi_network_filter.Strings.{is_nil}
use rpi_network_filter.Models.{Policy, PolicyDomain, AllowedDomain}
use rpi_network_filter.Db.{Db}
use rpi_network_filter.Blocked.{normalize_domain, is_blocked}
use rpi_network_filter.Policy.{default_policy, create_domain}
use rpi_network_filter.Firewall.{default_policy_id, create_allowed_domain}

default_policy_id-default_policy :
    (s : Db) (p : Policy) → default_policy s ≡ ok p → default_policy_id s ≡ ok p.id
unfolding default_policy default_policy_id
default_policy_id-default_policy s p h = elim (Option-cases (find (λ q. q.is_default) s.policies)) [
  | inl e ↦ let bad = rw (e, default_policy) at h in cc bad
  | inr (q, e) ↦
      let same : ok q ≡ ok p = (rw (e, default_policy) at h) in
      let eq : q ≡ p = cc same in rw (e, default_policy_id) (ap (λ r. ok r.id) eq)
]

-- The request to PolicyService that stands for one to the legacy interface.
abbrev pub request : AllowedDomain → PolicyDomain
request d = record {
  id = d.id;
  policy_id = 0;
  domain = d.domain;
  description = d.description;
  enabled = d.enabled;
  resolved_ips = [];
  last_resolved_at = none;
  hit_count = 0;
  created_at = d.created_at;
}

-- CreateAllowedDomain does what CreateDomain does for the default policy: it has the same result and
-- leaves the same tables, whatever the domain, the block list and the rows that are there.
pub create_allowed_domain-create_domain :
    (d : AllowedDomain) (s : Db) (p : Policy)
    → default_policy s ≡ ok p
    → create_allowed_domain d s ≡ create_domain p.id (request d) s
unfolding create_allowed_domain create_domain
create_allowed_domain-create_domain d s p found =
    elim (Bool-cases (is_nil (normalize_domain d.domain))) [
      | inl n ↦ rw n refl
      | inr n ↦ rw n (elim (Option-cases (is_blocked s (normalize_domain d.domain))) [
        | inr (m, b) ↦ rw (b, create_allowed_domain, create_domain) refl
        | inl b ↦
            rw (b, default_policy_id-default_policy s p found, create_allowed_domain, create_domain)
              refl
      ])
    ]
