-- ===== src/Http/Router/Consistent/Services.antt =====
-- The services' methods keep the tables of policies consistent: those that change them, and those
-- that leave them as they are.
use rpi_network_filter.Common.{
  ◌+◌, ℕ, ◌≡◌, refl, ltb, [], ◌∷◌, inl, inr, Bool, not, ◌&&◌, Bool-cases, ◌==◌, Option,
  Option-cases, List, Text, codes, text_eq, any, find, if◌then◌else◌,
}
use rpi_network_filter.Strings.{is_nil, split}
use rpi_network_filter.Models.{AllowedDomain, FirewallRule, BlockedDomain, BandwidthLimit, Setting}
use rpi_network_filter.Db.{Db, Action}
use rpi_network_filter.Blocked.{
  normalize_domain, is_blocked, insert_blocked, create_blocked, update_blocked, delete_blocked,
}
use rpi_network_filter.Policy.Invariant.{IsConsistent}
use rpi_network_filter.Policy.{update_domain, delete_domain}
use rpi_network_filter.Policy.Domains.{
  upsert_domain-IsConsistent, valid_of_non_empty, update_domain-IsConsistent,
  delete_domain-IsConsistent,
}
use rpi_network_filter.Firewall.{
  is_rule, create_rule, update_rule, delete_rule, default_policy_id, create_allowed_domain,
  update_allowed_domain, delete_allowed_domain,
}
use rpi_network_filter.Dns.{
  is_entry, add_entry, create_entry, delete_entry, insert_or_ignore, insert_all, import_domains,
  line_domains, scan_lines,
}
use rpi_network_filter.Common.{◌∙◌, drop}
use rpi_network_filter.Network.{
  parse_arp, file_lines, parse_dhcp_leases, Found, upsert_device, upsert_all, scan, update_device,
}
use rpi_network_filter.Bandwidth.{create_limit, update_limit, delete_limit}
use rpi_network_filter.Auth.{
  Bcrypt, validate_session, logout, reset_password, generate_token, create_session, login,
}
use rpi_network_filter.Http.Settings.{commit}
use rpi_network_filter.Firewall.Apply.Effects.{Result-cases}
use rpi_network_filter.Http.Router.Consistent.{ActionKeeps}

-- The tables that PolicyService keeps are the same.
abbrev pub SamePolicies : Db → Db → Type 0
SamePolicies s s' =
    (s'.policies ≡ s.policies)
    × (s'.policies_seq ≡ s.policies_seq)
    × (s'.policy_allowed_domains ≡ s.policy_allowed_domains)
    × (s'.device_policies ≡ s.device_policies)

pub SamePolicies-IsConsistent : (s s' : Db) → SamePolicies s s' → IsConsistent s → IsConsistent s'
SamePolicies-IsConsistent s s' (ps, seq, ds, rows) c = record {
  policies = rw (ps, seq) c.policies;
  domains = rw (ps, ds) c.domains;
  devices = rw (ps, rows) c.devices;
}

pub create_allowed_domain-IsConsistent :
    (d : AllowedDomain) (s : Db) → IsConsistent s → IsConsistent (create_allowed_domain d s).1
unfolding create_allowed_domain
create_allowed_domain-IsConsistent d s c = elim (Bool-cases (is_nil (normalize_domain d.domain))) [
  | inl e ↦ rw e c
  | inr e ↦ elim (Option-cases (is_blocked s (normalize_domain d.domain))) [
    | inr (match, f) ↦ rw (e, f, create_allowed_domain) c
    | inl f ↦
        rw (e, f, create_allowed_domain)
          (elim (Result-cases (default_policy_id s)) [
            | inr (x, g) ↦ rw (g, create_allowed_domain) c
            | inl (id, g) ↦
                rw (g, create_allowed_domain)
                  (upsert_domain-IsConsistent id (normalize_domain d.domain) d.description d.enabled
                    s (valid_of_non_empty d.domain e) c)
          ])
  ]
]

pub update_allowed_domain-IsConsistent :
    (id : ℕ) (d : AllowedDomain) (s : Db)
    → IsConsistent s
    → IsConsistent (update_allowed_domain id d s).1
unfolding update_allowed_domain update_domain
update_allowed_domain-IsConsistent id d s c =
    update_domain-IsConsistent id d.description d.enabled s c

pub delete_allowed_domain-IsConsistent :
    (id : ℕ) (s : Db) → IsConsistent s → IsConsistent (delete_allowed_domain id s).1
unfolding delete_allowed_domain delete_domain
delete_allowed_domain-IsConsistent id s c = delete_domain-IsConsistent id s c

-- A method that leaves those tables as they are.
abbrev pub ActionFrames : {A : Type 0} → Action A → Type 0
ActionFrames action = (s : Db) → SamePolicies s (action s).1

pub frame : {A : Type 0} → (action : Action A) → ActionFrames action → ActionKeeps action
frame action f = record { kept = λ s c. SamePolicies-IsConsistent s (action s).1 (f s) c }

pub create_rule-frame : (r : FirewallRule) → ActionFrames (create_rule r)
unfolding create_rule
create_rule-frame r s = elim (Bool-cases (not (is_rule r))) [
  | inl e ↦ rw e (refl, refl, refl, refl)
  | inr e ↦ rw e (refl, refl, refl, refl)
]

pub update_rule-frame : (id : ℕ) (r : FirewallRule) → ActionFrames (update_rule id r)
unfolding update_rule
update_rule-frame id r s =
    elim (Bool-cases (any (λ q. q.id == id) s.firewall_rules && not (is_rule r))) [
      | inl e ↦ rw e (refl, refl, refl, refl)
      | inr e ↦ rw e (refl, refl, refl, refl)
    ]

pub delete_rule-frame : (id : ℕ) → ActionFrames (delete_rule id)
unfolding delete_rule
delete_rule-frame id s = (refl, refl, refl, refl)

insert_blocked-frame :
    (domain kind reason : Text) (enabled : Bool)
    → ActionFrames (insert_blocked domain kind reason enabled)
unfolding insert_blocked
insert_blocked-frame domain kind reason enabled s =
    elim (Bool-cases (any (λ b. text_eq b.domain domain) s.blocked_domains)) [
      | inl e ↦ rw e (refl, refl, refl, refl)
      | inr e ↦ rw e (refl, refl, refl, refl)
    ]

pub create_blocked-frame : (d : BlockedDomain) → ActionFrames (create_blocked d)
unfolding create_blocked
create_blocked-frame d s =
    let kind = if is_nil d.match_type then codes "suffix" else d.match_type in
    elim (Bool-cases (is_nil (normalize_domain d.domain))) [
      | inl e ↦ rw e (refl, refl, refl, refl)
      | inr e ↦
          rw e
            (elim (Bool-cases
              (not (text_eq kind (codes "exact")) && not (text_eq kind (codes "suffix")))) [
                | inl f ↦ rw f (refl, refl, refl, refl)
                | inr f ↦
                    rw f
                      (insert_blocked-frame (normalize_domain d.domain) kind d.reason d.enabled s)
              ])
    ]

pub update_blocked-frame : (id : ℕ) (d : BlockedDomain) → ActionFrames (update_blocked id d)
unfolding update_blocked
update_blocked-frame id d s = (refl, refl, refl, refl)

pub delete_blocked-frame : (id : ℕ) → ActionFrames (delete_blocked id)
unfolding delete_blocked
delete_blocked-frame id s = (refl, refl, refl, refl)

pub create_entry-frame : (domain category : Text) → ActionFrames (create_entry domain category)
unfolding create_entry add_entry
create_entry-frame domain category s = elim (Bool-cases (is_nil (normalize_domain domain))) [
  | inl e ↦ rw e (refl, refl, refl, refl)
  | inr e ↦ rw e (elim (Bool-cases (any (is_entry (normalize_domain domain)) s.dns_blocklist)) [
    | inl f ↦ rw f (refl, refl, refl, refl)
    | inr f ↦ rw f (refl, refl, refl, refl)
  ])
]

pub delete_entry-frame : (id : ℕ) → ActionFrames (delete_entry id)
unfolding delete_entry
delete_entry-frame id s = (refl, refl, refl, refl)

insert_all-frame :
    (category : Text) (ds : List Text) (s : Db) → SamePolicies s (insert_all category ds s)
unfolding insert_all insert_or_ignore add_entry
insert_all-frame category [] s = (refl, refl, refl, refl)
insert_all-frame category (d ∷ ds) s = elim (Bool-cases (any (is_entry d) s.dns_blocklist)) [
  | inl e ↦
      let advanced = record s { dns_blocklist_seq = s.dns_blocklist_seq + 1 } in
      rw (e, insert_all) (insert_all-frame category ds advanced)
  | inr e ↦ rw (e, insert_all) (insert_all-frame category ds (add_entry d category s))
]

pub import_domains-frame : (text category : Text) → ActionFrames (import_domains text category)
unfolding import_domains
import_domains-frame text category s =
    insert_all-frame (if is_nil category then codes "imported" else category)
      (line_domains (scan_lines (split 10 text))) s

pub update_device-frame :
    (mac alias : Text) (blocked : Bool) → ActionFrames (update_device mac alias blocked)
unfolding update_device
update_device-frame mac alias blocked s = (refl, refl, refl, refl)

pub create_limit-frame : (last : ℕ) (l : BandwidthLimit) → ActionFrames (create_limit last l)
unfolding create_limit
create_limit-frame last l s =
    elim (Bool-cases (any (λ b. text_eq b.device_mac l.device_mac) s.bandwidth_limits)) [
      | inl e ↦ rw e (refl, refl, refl, refl)
      | inr e ↦ rw e (refl, refl, refl, refl)
    ]

pub update_limit-frame : (id : ℕ) (l : BandwidthLimit) → ActionFrames (update_limit id l)
unfolding update_limit
update_limit-frame id l s = (refl, refl, refl, refl)

pub delete_limit-frame : (id : ℕ) → ActionFrames (delete_limit id)
unfolding delete_limit
delete_limit-frame id s = (refl, refl, refl, refl)

pub commit-frame : (rs : List Setting) → ActionFrames (commit rs)
unfolding commit
commit-frame rs s = (refl, refl, refl, refl)

pub logout-frame : (token : Text) → ActionFrames (logout token)
unfolding logout
logout-frame token s = (refl, refl, refl, refl)

pub validate_session-frame : (token : Text) → ActionFrames (validate_session token)
unfolding validate_session
validate_session-frame token s =
    elim (Option-cases (find (λ x. text_eq x.token token) s.sessions)) [
      | inl e ↦ rw (e, validate_session) (refl, refl, refl, refl)
      | inr (x, e) ↦ elim (Option-cases (find (λ u. u.id == x.user_id) s.users)) [
        | inl f ↦ rw (e, validate_session) (rw (f, validate_session) (refl, refl, refl, refl))
        | inr (u, f) ↦
            rw (e, validate_session)
              (rw (f, validate_session)
                (elim (Bool-cases (ltb x.expires_at s.now)) [
                  | inl e ↦ rw e (refl, refl, refl, refl)
                  | inr e ↦ rw e (refl, refl, refl, refl)
                ]))
      ]
    ]

module _ (bcrypt : Bcrypt) where
  pub reset_password-frame :
      (salt : ℕ) (name password : Text) → ActionFrames (reset_password bcrypt salt name password)
  unfolding reset_password
  reset_password-frame salt name password s = elim (Option-cases (bcrypt.generate salt password)) [
    | inl e ↦ rw (e, reset_password) (refl, refl, refl, refl)
    | inr (hash, e) ↦
        rw (e, reset_password)
          (elim (Bool-cases (not (any (λ u. text_eq u.username name) s.users))) [
            | inl e ↦ rw e (refl, refl, refl, refl)
            | inr e ↦ rw e (refl, refl, refl, refl)
          ])
  ]

  create_session-frame : (token : Text) (id : ℕ) → ActionFrames (create_session bcrypt token id)
  unfolding create_session
  create_session-frame token id s =
      elim (Bool-cases (any (λ x. text_eq x.token token) s.sessions)) [
        | inl e ↦ rw e (refl, refl, refl, refl)
        | inr e ↦ rw e (refl, refl, refl, refl)
      ]

  pub login-frame :
      (random : Option (List ℕ)) (name password : Text)
      → ActionFrames (login bcrypt random name password)
  unfolding login
  login-frame random name password s =
      elim (Option-cases (find (λ u. text_eq u.username name) s.users)) [
        | inl e ↦ rw (e, login) (refl, refl, refl, refl)
        | inr (u, e) ↦
            rw (e, login)
              (elim (Bool-cases (bcrypt.compare u.password_hash password)) [
                | inr g ↦ rw g (refl, refl, refl, refl)
                | inl g ↦ rw g (elim (Option-cases (generate_token random)) [
                  | inl f ↦ rw (f, login) (refl, refl, refl, refl)
                  | inr (token, f) ↦ rw (f, login) (create_session-frame token u.id s)
                ])
              ])
      ]

upsert_device-frame : (f : Found) (s : Db) → SamePolicies s (upsert_device f s)
unfolding upsert_device
upsert_device-frame f s = elim (Bool-cases (any (λ d. text_eq d.mac_address f.mac) s.devices)) [
  | inl e ↦ rw e (refl, refl, refl, refl)
  | inr e ↦ rw e (refl, refl, refl, refl)
]

upsert_all-frame : (fs : List Found) (s : Db) → SamePolicies s (upsert_all fs s)
unfolding upsert_all
upsert_all-frame [] s = (refl, refl, refl, refl)
upsert_all-frame (f ∷ fs) s =
    let (a, b, c, d) = upsert_device-frame f s in
    let (a', b', c', d') = upsert_all-frame fs (upsert_device f s) in
    (a' ∙ a, b' ∙ b, c' ∙ c, d' ∙ d)

pub scan-frame :
    (lan : Text) (leases arp : Option Text) (s : Db) → SamePolicies s (scan lan leases arp s)
unfolding scan
scan-frame lan leases arp s =
    upsert_all-frame
      (parse_arp lan (drop 1 (file_lines arp)) (parse_dhcp_leases (file_lines leases) [])) s
