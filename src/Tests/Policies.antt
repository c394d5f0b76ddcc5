-- ===== src/Tests/Policies.antt =====
-- PolicyService on the seeded database, with its theorems at such inputs.
use rpi_network_filter.Common.{
  ◌≡◌, ◌≢◌, refl, ◌⊎◌, inl, inr, true, false, List, [], ◌∷◌, Text, codes, text_eq, ok, err, none,
  some, In, Any, if◌then◌else◌,
}
use rpi_network_filter.Strings.{split, to_lower, trim_space, trim_prefix, is_nil, has_suffix}
use rpi_network_filter.Validate.{valid_domain}
use rpi_network_filter.Models.{Policy, PolicyDomain}
use rpi_network_filter.Db.{BlockMatch, domain_blocked}
use rpi_network_filter.Blocked.{normalize_domain, is_blocked, first_match, row_blocks}
use rpi_network_filter.Blocked.Matching.{Covers}
use rpi_network_filter.Policy.{
  get_policy, default_policy, create_domain, device_policy, assign_device, unassign_device,
}
use rpi_network_filter.Policy.Invariant.{IsConsistent}
use rpi_network_filter.Policy.Steps.{
  Call, create, delete, create_domain_, assign, unassign, refresh, run_all, run_all-IsConsistent,
}
use rpi_network_filter.Policy.Devices.{assigned, device_policy_total}
use rpi_network_filter.Policy.Assign.{assign_device-device_policy, unassign_device-device_policy}
use rpi_network_filter.Policy.Guard.{IsListed, create_domain-blocked, create_domain_sound}
use rpi_network_filter.Tests.Data.{
  tesla, connman, seeded, seeded-IsConsistent, sample_host, validation,
}

opened : Unit {0}
unfolding validation create_domain is_blocked first_match row_blocks normalize_domain text_eq
    trim_space trim_prefix to_lower has_suffix
opened = tt

abbrev asked : Text → PolicyDomain
asked domain = record connman { domain = domain }

abbrev calls : List Call
calls =
    create tesla
    ∷ delete 1
    ∷ create_domain_ 2 (asked (codes "x.tesla-cdn.com"))
    ∷ assign (codes " 4C:FC:AA:17:37:75") 1
    ∷ refresh
    ∷ delete 2
    ∷ unassign (codes "4c:fc:aa:17:37:75")
    ∷ []

run_all-IsConsistent_example : IsConsistent (run_all sample_host calls seeded)
run_all-IsConsistent_example = run_all-IsConsistent sample_host calls seeded seeded-IsConsistent

device_policy_total_example :
    (p : Policy) × (device_policy seeded (codes "aa:bb:cc:dd:ee:ff") ≡ ok p)
    × In p seeded.policies
    × ((assigned (to_lower (trim_space (codes "aa:bb:cc:dd:ee:ff"))) seeded.device_policies
          ≡ some p.id)
        ⊎ ((assigned (to_lower (trim_space (codes "aa:bb:cc:dd:ee:ff"))) seeded.device_policies
              ≡ none)
            × (p.is_default ≡ true)))
device_policy_total_example =
    device_policy_total seeded (codes "aa:bb:cc:dd:ee:ff") seeded-IsConsistent

non_blank : is_nil (to_lower (trim_space (codes " AA "))) ≡ false
unfolding opened
non_blank = refl

assign_device-device_policy_example :
    ((assign_device (codes " AA ") 2 seeded).0 ≡ ok tt)
    × (device_policy (assign_device (codes " AA ") 2 seeded).1 (codes "aa") ≡ (
        if text_eq (to_lower (trim_space (codes " AA "))) (to_lower (trim_space (codes "aa")))
        then get_policy seeded 2
        else device_policy seeded (codes "aa")))
assign_device-device_policy_example =
    assign_device-device_policy seeded (codes " AA ") (codes "aa") 2 seeded-IsConsistent non_blank
      refl

unassign_device-device_policy_example :
    device_policy (unassign_device (codes "4C:FC:AA:17:37:75") seeded).1 (codes "4c:fc:aa:17:37:75")
    ≡ (if text_eq
          (to_lower (codes "4C:FC:AA:17:37:75"))
          (to_lower (trim_space (codes "4c:fc:aa:17:37:75")))
        then default_policy seeded
        else device_policy seeded (codes "4c:fc:aa:17:37:75"))
unassign_device-device_policy_example =
    unassign_device-device_policy seeded (codes "4C:FC:AA:17:37:75") (codes "4c:fc:aa:17:37:75")
      seeded-IsConsistent

abbrev under_cdn : PolicyDomain
under_cdn = asked (codes "x.tesla-cdn.com")

non_empty : normalize_domain under_cdn.domain ≢ []
unfolding opened
non_empty e = cc

covered : Any (Covers (normalize_domain under_cdn.domain)) seeded.blocked_domains
unfolding opened split
covered = inl (refl, λ e. cc, inr (λ e. cc, (codes "x" ∷ [], refl)))

create_domain-blocked_example :
    (m : BlockMatch) × (create_domain 2 under_cdn seeded ≡ (err (domain_blocked m), seeded))
create_domain-blocked_example = create_domain-blocked 2 under_cdn seeded non_empty covered

auth_added : (create_domain 2 (asked (codes "Auth.tesla.com")) seeded).0 ≡ ok 2
unfolding opened
auth_added = refl

create_domain_sound_example :
    (valid_domain (normalize_domain (codes "Auth.tesla.com")) ≡ true)
    × (¬ Any (Covers (normalize_domain (codes "Auth.tesla.com"))) seeded.blocked_domains)
    × Any
        (IsListed 2 2 (normalize_domain (codes "Auth.tesla.com")) true)
        (create_domain 2 (asked (codes "Auth.tesla.com")) seeded).1.policy_allowed_domains
create_domain_sound_example =
    create_domain_sound 2 (asked (codes "Auth.tesla.com")) seeded 2 auth_added
