-- ===== src/Policy/Domains.antt =====
-- The statements on allow lists and assignments keep the tables consistent.
use rpi_network_filter.Common.{
  ℕ, ◌+◌, ◌≡◌, refl, inl, inr, Bool, true, false, not, Bool-cases, Option-cases, ◌==◌, List, [],
  ◌∷◌, ◌++◌, Text, text_eq, some, All-append, All-keep, All-update, Unique-keep, Unique-update,
  Unique-snoc, update_where, any, find, find-none, keep,
}
use rpi_network_filter.Host.{Host}
use rpi_network_filter.Strings.{to_lower, trim_space, is_nil}
use rpi_network_filter.Validate.{valid_domain}
use rpi_network_filter.Models.{Policy, PolicyDomain}
use rpi_network_filter.Db.{Db, Assignment}
use rpi_network_filter.Blocked.{normalize_domain, is_blocked}
use rpi_network_filter.Blocked.Normal.{normalize-cases}
use rpi_network_filter.Policy.{
  is_mapping, domain_row, renew, upsert_domain, create_domain, update_domain, delete_domain,
  resolve_domain, resolve_all, refresh_all, enabled_names, assign_device, unassign_device,
}
use rpi_network_filter.Policy.Invariant.{
  same_mapping, same_mac, has_policy, DomainsOk, DevicesOk, IsConsistent,
}

-- An update that keeps policies and domains.
update-DomainsOk :
    (q : PolicyDomain → Bool) (f : PolicyDomain → PolicyDomain) (ps : List Policy)
    (ds : List PolicyDomain)
    → ((d : PolicyDomain) → (f d).policy_id ≡ d.policy_id)
    → ((d : PolicyDomain) → (f d).domain ≡ d.domain)
    → DomainsOk ps ds
    → DomainsOk ps (update_where q f ds)
update-DomainsOk q f ps ds same_policy same_domain h = record {
  owned =
      All-update (λ d. has_policy ps d.policy_id ≡ true) q f ds (λ d k. rw same_policy k) h.owned;
  valid = All-update (λ d. valid_domain d.domain ≡ true) q f ds (λ d k. rw same_domain k) h.valid;
  mappings =
      Unique-update same_mapping q f ds (λ x y. rw (same_policy, same_domain))
        (λ x y. rw (same_policy, same_domain)) h.mappings;
}

domains-IsConsistent :
    (s : Db) (ds : List PolicyDomain) (seq : ℕ)
    → IsConsistent s
    → DomainsOk s.policies ds
    → IsConsistent (record s { policy_allowed_domains = ds; policy_allowed_domains_seq = seq })
domains-IsConsistent s ds seq h k = record {
  policies = h.policies;
  domains = k;
  devices = h.devices;
}

insert-DomainsOk :
    (ps : List Policy) (ds : List PolicyDomain) (d : PolicyDomain)
    → DomainsOk ps ds
    → has_policy ps d.policy_id ≡ true
    → valid_domain d.domain ≡ true
    → any (is_mapping d.policy_id d.domain) ds ≡ false
    → DomainsOk ps (ds ++ d ∷ [])
unfolding is_mapping
insert-DomainsOk ps ds d h o v new = record {
  owned = All-append (λ e. has_policy ps e.policy_id ≡ true) ds (d ∷ []) h.owned (o, tt);
  valid = All-append (λ e. valid_domain e.domain ≡ true) ds (d ∷ []) h.valid (v, tt);
  mappings = Unique-snoc same_mapping ds d h.mappings new;
}

pub upsert_domain-IsConsistent :
    (id : ℕ) (domain description : Text) (enabled : Bool) (s : Db)
    → valid_domain domain ≡ true
    → IsConsistent s
    → IsConsistent (upsert_domain id domain description enabled s).1
unfolding upsert_domain
upsert_domain-IsConsistent id domain description enabled s v h =
    elim (Option-cases (find (is_mapping id domain) s.policy_allowed_domains)) [
      | inr (row, e) ↦
          rw (e, upsert_domain)
            (domains-IsConsistent s _ (s.policy_allowed_domains_seq + 1) h (
              update-DomainsOk (is_mapping id domain) (renew description enabled) s.policies
                s.policy_allowed_domains (λ d. refl) (λ d. refl) h.domains))
      | inl e ↦ elim (Bool-cases (any (λ p. p.id == id) s.policies)) [
        | inr f ↦ rw (e, upsert_domain) (rw f h)
        | inl f ↦
            rw (e, upsert_domain)
              (rw f (
                domains-IsConsistent s _ (s.policy_allowed_domains_seq + 1) h (
                  insert-DomainsOk s.policies s.policy_allowed_domains
                    (domain_row id domain description enabled s) h.domains f v
                    (find-none (is_mapping id domain) s.policy_allowed_domains e))))
      ]
    ]

pub valid_of_non_empty :
    (d : Text) → is_nil (normalize_domain d) ≡ false → valid_domain (normalize_domain d) ≡ true
valid_of_non_empty d e = elim (normalize-cases d) [
  | inl n ↦ let bad : true ≡ false = (rw n at e) in cc bad
  | inr v ↦ v
]

pub create_domain-IsConsistent :
    (id : ℕ) (d : PolicyDomain) (s : Db) → IsConsistent s → IsConsistent (create_domain id d s).1
unfolding create_domain
create_domain-IsConsistent id d s h =
    let domain = normalize_domain d.domain in
    elim (Bool-cases (is_nil domain)) [
      | inl e ↦ rw e h
      | inr e ↦ elim (Option-cases (is_blocked s domain)) [
        | inr (match, f) ↦ rw (e, f, create_domain) h
        | inl f ↦
            rw (e, f, create_domain)
              (upsert_domain-IsConsistent id domain d.description d.enabled s
                (valid_of_non_empty d.domain e) h)
      ]
    ]

pub update_domain-IsConsistent :
    (id : ℕ) (description : Text) (enabled : Bool) (s : Db)
    → IsConsistent s
    → IsConsistent (update_domain id description enabled s).1
unfolding update_domain
update_domain-IsConsistent id description enabled s h =
    domains-IsConsistent s _ s.policy_allowed_domains_seq h (
      update-DomainsOk (λ d. d.id == id)
        (λ d. record d { description = description; enabled = enabled }) s.policies
        s.policy_allowed_domains (λ d. refl) (λ d. refl) h.domains)

pub delete_domain-IsConsistent :
    (id : ℕ) (s : Db) → IsConsistent s → IsConsistent (delete_domain id s).1
unfolding delete_domain
delete_domain-IsConsistent id s h =
    let q = λ (d : PolicyDomain). not (d.id == id) in
    let ds = s.policy_allowed_domains in
    domains-IsConsistent s (keep q ds) s.policy_allowed_domains_seq h (record {
      owned = All-keep (λ d. has_policy s.policies d.policy_id ≡ true) q ds h.domains.owned;
      valid = All-keep (λ d. valid_domain d.domain ≡ true) q ds h.domains.valid;
      mappings = Unique-keep same_mapping q ds h.domains.mappings;
    })

module _ (host : Host) where
  pub resolve_domain-IsConsistent :
      (text : Text) (s : Db) → IsConsistent s → IsConsistent (resolve_domain host text s)
  unfolding resolve_domain
  resolve_domain-IsConsistent text s h =
      let domain = normalize_domain text in
      elim (Bool-cases (is_nil domain)) [
        | inl e ↦ rw e h
        | inr e ↦ elim (Option-cases (host.lookup_host domain)) [
          | inl f ↦ rw (e, f, resolve_domain) h
          | inr (ips, f) ↦
              rw (e, f, resolve_domain)
                (domains-IsConsistent s _ s.policy_allowed_domains_seq h (
                  update-DomainsOk (λ d. text_eq d.domain domain)
                    (λ d. record d {
                      resolved_ips = host.encode_strings ips;
                      last_resolved_at = some s.now;
                    })
                    s.policies s.policy_allowed_domains (λ d. refl) (λ d. refl) h.domains))
        ]
      ]

  resolve_all-IsConsistent :
      (ds : List Text) (s : Db) → IsConsistent s → IsConsistent (resolve_all host ds s)
  unfolding resolve_all
  resolve_all-IsConsistent [] s h = h
  resolve_all-IsConsistent (d ∷ ds) s h =
      resolve_all-IsConsistent ds (resolve_domain host d s) (resolve_domain-IsConsistent d s h)

  pub refresh_all-IsConsistent : (s : Db) → IsConsistent s → IsConsistent (refresh_all host s)
  unfolding refresh_all
  refresh_all-IsConsistent s h = resolve_all-IsConsistent (enabled_names s) s h

devices-IsConsistent :
    (s : Db) (rows : List Assignment)
    → IsConsistent s
    → DevicesOk s.policies rows
    → IsConsistent (record s { device_policies = rows })
devices-IsConsistent s rows h k = record { policies = h.policies; domains = h.domains; devices = k }

pub assign_device-IsConsistent :
    (text : Text) (id : ℕ) (s : Db) → IsConsistent s → IsConsistent (assign_device text id s).1
unfolding assign_device
assign_device-IsConsistent text id s h =
    let mac = to_lower (trim_space text) in
    let rows = s.device_policies in
    let q = λ (a : Assignment). text_eq a.device_mac mac in
    let f = λ (a : Assignment). record a { policy_id = id } in
    elim (Bool-cases (is_nil mac)) [
      | inl e ↦ rw e h
      | inr e ↦ elim (Bool-cases (any (λ p. p.id == id) s.policies)) [
        | inr g ↦ rw (e, g) h
        | inl g ↦ elim (Bool-cases (any q rows)) [
          | inl k ↦
              rw (e, g, k)
                (devices-IsConsistent s (update_where q f rows) h (record {
                  owned =
                      All-update (λ a. has_policy s.policies a.policy_id ≡ true) q f rows (λ a _. g)
                        h.devices.owned;
                  macs = Unique-update same_mac q f rows (λ x y. refl) (λ x y. refl) h.devices.macs;
                }))
          | inr k ↦
              rw (e, g, k)
                (devices-IsConsistent s (rows ++ _ ∷ []) h (record {
                  owned =
                      All-append (λ a. has_policy s.policies a.policy_id ≡ true) rows (_ ∷ [])
                        h.devices.owned (g, tt);
                  macs = Unique-snoc same_mac rows _ h.devices.macs k;
                }))
        ]
      ]
    ]

pub unassign_device-IsConsistent :
    (text : Text) (s : Db) → IsConsistent s → IsConsistent (unassign_device text s).1
unfolding unassign_device
unassign_device-IsConsistent text s h =
    let q = λ (a : Assignment). not (text_eq a.device_mac (to_lower text)) in
    devices-IsConsistent s (keep q s.device_policies) h (record {
      owned =
          All-keep (λ a. has_policy s.policies a.policy_id ≡ true) q s.device_policies
            h.devices.owned;
      macs = Unique-keep same_mac q s.device_policies h.devices.macs;
    })
