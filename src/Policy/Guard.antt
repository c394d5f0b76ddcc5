-- ===== src/Policy/Guard.antt =====
-- The guard of the allow list: what the block list covers cannot be added.
use rpi_network_filter.Common.{
  ℕ, ◌+◌, ◌≡◌, ◌≢◌, refl, sym, ◌∙◌, inl, inr, Bool, true, false, Bool-cases, Option-cases, ◌==◌, [],
  ◌∷◌, ◌++◌, Text, text_eq_iff, none, some, Result, ok, err, Any, any, find, find-some, find-update,
  In-append_right, Any-of_In, subst, update_where, arith,
}
use rpi_network_filter.Strings.{is_nil, is_nil_iff}
use rpi_network_filter.Validate.{valid_domain}
use rpi_network_filter.Models.{PolicyDomain}
use rpi_network_filter.Db.{Db, Error, BlockMatch, domain_required, domain_blocked, db, foreign_key}
use rpi_network_filter.Blocked.{normalize_domain, is_blocked}
use rpi_network_filter.Blocked.Normal.{normalize_idem}
use rpi_network_filter.Blocked.Matching.{Covers, is_blocked_iff}
use rpi_network_filter.Policy.{is_mapping, domain_row, renew, upsert_domain, create_domain}
use rpi_network_filter.Policy.Domains.{valid_of_non_empty}

mapping_id :
    (policy_id : ℕ) (domain : Text) (d : PolicyDomain)
    → is_mapping policy_id domain d ≡ true
    → d.policy_id ≡ policy_id
unfolding is_mapping
mapping_id policy_id domain d h = ground arith

mapping_domain :
    (policy_id : ℕ) (domain : Text) (d : PolicyDomain)
    → is_mapping policy_id domain d ≡ true
    → d.domain ≡ domain
unfolding is_mapping
mapping_domain policy_id domain d h = ground (arith, text_eq_iff d.domain domain)

-- The allow list holds the domain for the policy, under the id, switched as asked.
abbrev pub IsListed : ℕ → ℕ → Text → Bool → PolicyDomain → Type 0
IsListed id policy_id domain enabled d =
    (d.id ≡ id) × (d.policy_id ≡ policy_id) × (d.domain ≡ domain) × (d.enabled ≡ enabled)

-- CreateDomain refuses a domain that a row of the block list covers, with an error that names a
-- rule, and changes nothing.
pub create_domain-blocked :
    (policy_id : ℕ) (d : PolicyDomain) (s : Db)
    → normalize_domain d.domain ≢ []
    → Any (Covers (normalize_domain d.domain)) s.blocked_domains
    → (m : BlockMatch) × (create_domain policy_id d s ≡ (err (domain_blocked m), s))
unfolding create_domain
create_domain-blocked policy_id d s valid covered =
    let domain = normalize_domain d.domain in
    let same = normalize_idem d.domain in
    let hit : is_blocked s domain ≢ none = (is_blocked_iff s domain).1 (
      λ z. valid (sym same ∙ z),
      subst (λ c. Any (Covers c) s.blocked_domains) (sym same) covered,
    ) in
    elim (Option-cases (is_blocked s domain)) [
      | inl e ↦ absurd (hit e)
      | inr (m, e) ↦ elim (Bool-cases (is_nil domain)) [
        | inl f ↦ absurd (valid ((is_nil_iff domain).0 f))
        | inr f ↦ (m, rw (f, e, create_domain) refl)
      ]
    ]

module _ (policy_id : ℕ) (domain description : Text) (enabled : Bool) (s : Db) where
  mapping : PolicyDomain → Bool
  mapping = is_mapping policy_id domain

  row' : PolicyDomain
  row' = domain_row policy_id domain description enabled s

  abbrev upserted : Result Error ℕ × Db
  upserted = upsert_domain policy_id domain description enabled s

  upsert-old :
      (row : PolicyDomain)
      → find mapping s.policy_allowed_domains ≡ some row
      → upserted ≡ (
        ok row.id,
        record s {
          policy_allowed_domains =
              update_where mapping (renew description enabled) s.policy_allowed_domains;
          policy_allowed_domains_seq = s.policy_allowed_domains_seq + 1;
        },
      )
  unfolding upsert_domain mapping
  upsert-old row e = rw (e, upsert_domain) refl

  upsert-foreign :
      find mapping s.policy_allowed_domains ≡ none
      → any (λ p. p.id == policy_id) s.policies ≡ false
      → upserted ≡ (err (db foreign_key), s)
  unfolding upsert_domain mapping
  upsert-foreign e f = rw (e, upsert_domain) (rw f refl)

  upsert-new :
      find mapping s.policy_allowed_domains ≡ none
      → any (λ p. p.id == policy_id) s.policies ≡ true
      → upserted ≡ (
        ok (s.policy_allowed_domains_seq + 1),
        record s {
          policy_allowed_domains = s.policy_allowed_domains ++ row' ∷ [];
          policy_allowed_domains_seq = s.policy_allowed_domains_seq + 1;
        },
      )
  unfolding upsert_domain mapping row'
  upsert-new e f = rw (e, upsert_domain) (rw f refl)

  old-IsListed :
      (id : ℕ) (row : PolicyDomain)
      → find mapping s.policy_allowed_domains ≡ some row
      → row.id ≡ id
      → Any
          (IsListed id policy_id domain enabled)
          (update_where mapping (renew description enabled) s.policy_allowed_domains)
  unfolding mapping renew
  old-IsListed id row e same =
      let (hit, m) = find-some mapping s.policy_allowed_domains row e in
      Any-of_In (IsListed id policy_id domain enabled)
        (update_where mapping (renew description enabled) s.policy_allowed_domains)
        (renew description enabled row)
        (find-update mapping (renew description enabled) s.policy_allowed_domains row e)
        (same, mapping_id policy_id domain row hit, mapping_domain policy_id domain row hit, refl)

  new-IsListed :
      (id : ℕ)
      → s.policy_allowed_domains_seq + 1 ≡ id
      → Any (IsListed id policy_id domain enabled) (s.policy_allowed_domains ++ row' ∷ [])
  unfolding row' domain_row
  new-IsListed id same =
      Any-of_In (IsListed id policy_id domain enabled) (s.policy_allowed_domains ++ row' ∷ []) row'
        (In-append_right row' s.policy_allowed_domains (row' ∷ []) (inl refl))
        (same, refl, refl, refl)

  upsert_domain-IsListed :
      (id : ℕ)
      → upserted.0 ≡ ok id
      → Any (IsListed id policy_id domain enabled) upserted.1.policy_allowed_domains
  upsert_domain-IsListed id h = elim (Option-cases (find mapping s.policy_allowed_domains)) [
    | inr (row, e) ↦
        let same : ok row.id ≡ ok id = (rw (upsert-old row e) at h) in
        rw (upsert-old row e) (old-IsListed id row e (cc same))
    | inl e ↦ elim (Bool-cases (any (λ p. p.id == policy_id) s.policies)) [
      | inr f ↦ let bad : err (db foreign_key) ≡ ok id = (rw (upsert-foreign e f) at h) in cc bad
      | inl f ↦
          let same : ok (s.policy_allowed_domains_seq + 1) ≡ ok id = (rw (upsert-new e f) at h) in
          rw (upsert-new e f) (new-IsListed id (cc same))
    ]
  ]

create_domain-passed :
    (policy_id : ℕ) (d : PolicyDomain) (s : Db) (id : ℕ)
    → (create_domain policy_id d s).0 ≡ ok id
    → (is_nil (normalize_domain d.domain) ≡ false)
      × (is_blocked s (normalize_domain d.domain) ≡ none)
      × (create_domain policy_id d s
          ≡ upsert_domain policy_id (normalize_domain d.domain) d.description d.enabled s)
unfolding create_domain
create_domain-passed policy_id d s id h =
    let domain = normalize_domain d.domain in
    elim (Bool-cases (is_nil domain)) [
      | inl e ↦ let bad : err domain_required ≡ ok id = (rw e at h) in cc bad
      | inr e ↦ elim (Option-cases (is_blocked s domain)) [
        | inr (m, f) ↦
            let bad : err (domain_blocked m) ≡ ok id = (rw (e, f, create_domain) at h) in cc bad
        | inl f ↦ (e, f, rw (e, f, create_domain) refl)
      ]
    ]

-- When CreateDomain succeeds, the domain has a valid normal form that no row of the block list
-- covers, and the allow list holds that form for the policy, under the id that is returned and
-- switched as the request says.
pub create_domain_sound :
    (policy_id : ℕ) (d : PolicyDomain) (s : Db) (id : ℕ)
    → (create_domain policy_id d s).0 ≡ ok id
    → (valid_domain (normalize_domain d.domain) ≡ true)
      × (¬ Any (Covers (normalize_domain d.domain)) s.blocked_domains)
      × Any
          (IsListed id policy_id (normalize_domain d.domain) d.enabled)
          (create_domain policy_id d s).1.policy_allowed_domains
create_domain_sound policy_id d s id h =
    let domain = normalize_domain d.domain in
    let (non_empty, free, same) = create_domain-passed policy_id d s id h in
    let valid = valid_of_non_empty d.domain non_empty in
    let nonnil : normalize_domain domain ≢ [] =
      λ z. cc (non_empty, (is_nil_iff domain).1 (sym (normalize_idem d.domain) ∙ z)) in
    (
      valid,
      λ covered.
          (is_blocked_iff s domain).1
            (
              nonnil,
              subst (λ c. Any (Covers c) s.blocked_domains) (sym (normalize_idem d.domain)) covered,
            )
            free,
      rw same (upsert_domain-IsListed policy_id domain d.description d.enabled s id (rw same at h)),
    )
