-- ===== src/Tests/Validation.antt =====
-- Tests of the validators and of normal forms, with the theorems at such inputs.
use rpi_network_filter.Common.{
  ◌≡◌, ◌≢◌, refl, ◌↔◌, ◌⊎◌, true, false, [], ◌∷◌, codes, text_eq, All, length, ◌≤◌, ◌++◌, Any, none,
}
use rpi_network_filter.Strings.{to_lower, trim_space, trim_prefix, has_suffix}
use rpi_network_filter.Validate.{
  valid_policy_name, valid_domain, valid_port_spec, valid_protocol, valid_mac, sanitize_single_line,
}
use rpi_network_filter.Validate.Names.{
  IsPolicyName, valid_policy_name_iff, IsPrintable, sanitize_single_line_lem,
}
use rpi_network_filter.Validate.Domains.{IsDomain, valid_domain_iff}
use rpi_network_filter.Validate.Addresses.{IsMac, valid_mac_iff}
use rpi_network_filter.Blocked.{normalize_domain, is_blocked}
use rpi_network_filter.Blocked.Normal.{normalize_domain_lem}
use rpi_network_filter.Blocked.Matching.{Covers, is_blocked_iff}
use rpi_network_filter.Tests.Data.{seeded}

opened : Unit {0}
unfolding valid_policy_name valid_domain valid_port_spec valid_protocol valid_mac
    sanitize_single_line normalize_domain is_blocked text_eq trim_space trim_prefix to_lower
    has_suffix
opened = tt

-- Inputs of internal/services/validate_test.go.
names :
    (valid_policy_name (codes "Kids tablet") ≡ true)
    × (valid_policy_name (codes "-dash-start") ≡ false)
    × (valid_policy_name (codes "drop] drop") ≡ false)
unfolding opened
names = (refl, refl, refl)

domains :
    (valid_domain (codes "x.io") ≡ true)
    × (valid_domain (codes ".leading-dot") ≡ false)
    × (valid_domain (codes "foo/bar") ≡ false)
unfolding opened
domains = (refl, refl, refl)

addresses :
    (valid_mac (codes "AA:BB:CC:DD:EE:FF") ≡ true)
    × (valid_mac (codes "aa-bb-cc-dd-ee-ff") ≡ false)
    × (valid_port_spec (codes "80-443") ≡ true)
    × (valid_port_spec (codes "1-2-3") ≡ false)
unfolding opened
addresses = (refl, refl, refl, refl)

-- ValidPortSpec accepts numbers that are no ports.
out_of_range : (valid_port_spec (codes "0") ≡ true) × (valid_port_spec (codes "99999") ≡ true)
unfolding opened
out_of_range = (refl, refl)

normal_forms :
    (normalize_domain (codes " *.Tesla-CDN.com ") ≡ codes "tesla-cdn.com")
    × (normalize_domain (codes "a b.com") ≡ [])
unfolding opened
normal_forms = (refl, refl)

valid_policy_name_iff_example :
    (valid_policy_name (codes "Tesla") ≡ true) ↔ IsPolicyName (codes "Tesla")
valid_policy_name_iff_example = valid_policy_name_iff (codes "Tesla")

sanitize_single_line_lem_example :
    All IsPrintable (sanitize_single_line (10 ∷ codes "ok"))
    × ((sanitize_single_line (10 ∷ codes "ok") ≡ 10 ∷ codes "ok")
        ↔ All IsPrintable (10 ∷ codes "ok"))
    × (sanitize_single_line ((10 ∷ codes "ok") ++ codes "x")
        ≡ sanitize_single_line (10 ∷ codes "ok") ++ sanitize_single_line (codes "x"))
sanitize_single_line_lem_example = sanitize_single_line_lem (10 ∷ codes "ok") (codes "x")

valid_domain_iff_example :
    (valid_domain (codes "a.b") ≡ true)
    ↔ ((1 ≤ length (codes "a.b")) × (length (codes "a.b") ≤ 253) × IsDomain (codes "a.b"))
valid_domain_iff_example = valid_domain_iff (codes "a.b")

valid_mac_iff_example :
    (valid_mac (codes "AA:BB:CC:DD:EE:FF") ≡ true) ↔ IsMac (to_lower (codes "AA:BB:CC:DD:EE:FF"))
valid_mac_iff_example = valid_mac_iff (codes "AA:BB:CC:DD:EE:FF")

normalize_domain_lem_example :
    ((normalize_domain (codes "*.A.com") ≡ [])
      ⊎ (valid_domain (normalize_domain (codes "*.A.com")) ≡ true))
    × (normalize_domain (normalize_domain (codes "*.A.com")) ≡ normalize_domain (codes "*.A.com"))
    × ((normalize_domain (codes "*.A.com") ≡ codes "*.A.com")
        ↔ ((codes "*.A.com" ≡ []) ⊎ (valid_domain (codes "*.A.com") ≡ true)))
normalize_domain_lem_example = normalize_domain_lem (codes "*.A.com")

is_blocked_iff_example : (is_blocked seeded (codes "x.tesla-cdn.com") ≢ none) ↔ (
    (normalize_domain (codes "x.tesla-cdn.com") ≢ [])
    × Any (Covers (normalize_domain (codes "x.tesla-cdn.com"))) seeded.blocked_domains)
is_blocked_iff_example = is_blocked_iff seeded (codes "x.tesla-cdn.com")
