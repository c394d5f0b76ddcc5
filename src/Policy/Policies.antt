-- ===== src/Policy/Policies.antt =====
-- CreatePolicy, Update and Delete keep the tables consistent.
use rpi_network_filter.Common.{
  ℕ, ◌+◌, ◌≤◌, ◌≡◌, refl, sym, ap, subst, ◌∙◌, ◌⊎◌, inl, inr, Bool, true, false, not, Bool-cases,
  Option-cases, ◌==◌, ◌&&◌, List, [], ◌∷◌, ◌++◌, Text, text_eq, text_eq_sym, none, some, All,
  All-mono, All-append, All-keep, All-keep_test, Option, All-update, Unique, Unique-keep,
  Unique-update, Unique-snoc, update_where, update_where_none, any, any-append, any-update,
  any-keep, any_false→All, find, keep, count_where-append, count_where-update, count_where-keep,
  arith,
}
use rpi_network_filter.Strings.{trim_space}
use rpi_network_filter.Validate.{valid_policy_name}
use rpi_network_filter.Models.{Policy}
use rpi_network_filter.Db.{Db}
use rpi_network_filter.Policy.{
  valid_mode, mode_or_permissive, policy_row, name_taken, create_policy, update_policy,
  delete_policy_row, delete_policy,
}
use rpi_network_filter.Policy.Invariant.{
  same_id, same_name, same_mapping, same_mac, has_policy, PoliciesOk, IsConsistent, DomainsOk-mono,
  DevicesOk-mono,
}

-- A fresh id is that of no row.
fresh :
    (seq : ℕ) (ps : List Policy)
    → All (λ p. p.id ≤ seq) ps
    → any (λ p. p.id == (seq + 1)) ps ≡ false
fresh seq [] h = refl
fresh seq (p ∷ ps) (e, h) = ground (arith, fresh seq ps h)

mode_or_permissive-valid : (m : Text) → valid_mode (mode_or_permissive m) ≡ true
unfolding mode_or_permissive valid_mode text_eq
mode_or_permissive-valid m = elim (Bool-cases (valid_mode m)) [ inl e ↦ rw e e | inr e ↦ rw e refl ]

insert-PoliciesOk :
    (ps : List Policy) (seq : ℕ) (p : Policy)
    → PoliciesOk ps seq
    → p.id ≡ seq + 1
    → p.is_default ≡ false
    → valid_policy_name p.name ≡ true
    → valid_mode p.mode ≡ true
    → any (λ q. text_eq q.name p.name) ps ≡ false
    → PoliciesOk (ps ++ p ∷ []) (seq + 1)
insert-PoliciesOk ps seq p h e d n m taken = record {
  one_default = ground (arith, count_where-append (λ q. q.is_default) ps (p ∷ []), h.one_default);
  ids = Unique-snoc same_id ps p h.ids (rw e (fresh seq ps h.seen));
  seen =
      All-append (λ q. q.id ≤ seq + 1) ps (p ∷ []) (All-mono (λ q k. omega arith) ps h.seen)
        (omega arith, tt);
  names = Unique-snoc same_name ps p h.names taken;
  named = All-append (λ q. valid_policy_name q.name ≡ true) ps (p ∷ []) h.named (n, tt);
  modes = All-append (λ q. valid_mode q.mode ≡ true) ps (p ∷ []) h.modes (m, tt);
}

has_policy-append :
    (ps qs : List Policy) (id : ℕ) → has_policy ps id ≡ true → has_policy (ps ++ qs) id ≡ true
has_policy-append ps qs id h = ground (arith, any-append (λ p. p.id == id) ps qs)

pub create_policy-IsConsistent :
    (p : Policy) (s : Db) → IsConsistent s → IsConsistent (create_policy p s).1
unfolding create_policy
create_policy-IsConsistent p s h =
    let name = trim_space p.name in
    let row = policy_row name p s in
    elim (Bool-cases (valid_policy_name name)) [
      | inr e ↦ rw e h
      | inl e ↦ elim (Bool-cases (any (λ q. text_eq q.name name) s.policies)) [
        | inl f ↦ rw (e, f) h
        | inr f ↦
            rw (e, f)
              (record {
                policies =
                    insert-PoliciesOk s.policies s.policies_seq row h.policies refl refl e
                      (mode_or_permissive-valid p.mode) f;
                domains = DomainsOk-mono (has_policy-append s.policies (row ∷ [])) h.domains;
                devices = DevicesOk-mono (has_policy-append s.policies (row ∷ [])) h.devices;
              })
      ]
    ]

same_id_gone :
    (id : ℕ) (p : Policy) (ps : List Policy)
    → any (same_id p) ps ≡ false
    → (p.id == id) ≡ true
    → any (λ q. q.id == id) ps ≡ false
same_id_gone id p [] h k = refl
same_id_gone id p (q ∷ qs) h k = ground (arith, same_id_gone id p qs)

module _ (id : ℕ) (f : Policy → Policy) (name : Text)
    (renamed : (q : Policy) → (f q).name ≡ name) where
  any-rename :
      (x : Text) (ps : List Policy)
      → text_eq x name ≡ false
      → any (λ q. text_eq x q.name) ps ≡ false
      → any (λ q. text_eq x q.name) (update_where (λ q. q.id == id) f ps) ≡ false
  any-rename x [] e h = refl
  any-rename x (p ∷ ps) e h = elim (Bool-cases (p.id == id)) [
    | inl k ↦ rw (k, renamed, e) (any-rename x ps e (ground arith))
    | inr k ↦ rw k (ground (arith, any-rename x ps e))
  ]

  -- The other rows do not have the name.
  free-name :
      (ps : List Policy)
      → any (λ q. not (q.id == id) && text_eq q.name name) ps ≡ false
      → any (λ q. q.id == id) ps ≡ false
      → any (λ q. text_eq name q.name) ps ≡ false
  free-name [] h k = refl
  free-name (p ∷ ps) h k = ground (arith, text_eq_sym p.name name, free-name ps)

  update-names :
      (ps : List Policy)
      → Unique same_id ps
      → Unique same_name ps
      → any (λ q. not (q.id == id) && text_eq q.name name) ps ≡ false
      → Unique same_name (update_where (λ q. q.id == id) f ps)
  update-names [] ids names free = tt
  update-names (p ∷ ps) (i, ids) (n, names) free = elim (Bool-cases (p.id == id)) [
    | inl k ↦
        let none_other : any (λ q. q.id == id) ps ≡ false = same_id_gone id p ps i k in
        rw (k, update_where_none (λ q. q.id == id) f ps none_other, renamed)
          (free-name ps (ground arith) none_other, names)
    | inr k ↦ rw k (any-rename p.name ps (ground arith) n, update-names ps ids names (ground arith))
  ]

rename : Text → Policy → Policy → Policy
rename name p q = record q { name = name; mode = p.mode; description = p.description }

has_policy-update :
    (id : ℕ) (name : Text) (p : Policy) (ps : List Policy) (j : ℕ)
    → has_policy ps j ≡ true
    → has_policy (update_where (λ q. q.id == id) (rename name p) ps) j ≡ true
unfolding rename
has_policy-update id name p ps j h =
    any-update (λ q. q.id == j) (λ q. q.id == id) (rename name p) ps (λ x. refl) ∙ h

update-PoliciesOk :
    (id : ℕ) (name : Text) (p : Policy) (ps : List Policy) (seq : ℕ)
    → PoliciesOk ps seq
    → valid_policy_name name ≡ true
    → valid_mode p.mode ≡ true
    → any (λ q. not (q.id == id) && text_eq q.name name) ps ≡ false
    → PoliciesOk (update_where (λ q. q.id == id) (rename name p) ps) seq
unfolding rename
update-PoliciesOk id name p ps seq h n m free =
    let at = λ (q : Policy). q.id == id in
    let f = rename name p in
    record {
      one_default = count_where-update (λ q. q.is_default) at f ps (λ x. refl) ∙ h.one_default;
      ids = Unique-update same_id at f ps (λ x y. refl) (λ x y. refl) h.ids;
      seen = All-update (λ q. q.id ≤ seq) at f ps (λ x k. k) h.seen;
      names = update-names id f name (λ q. refl) ps h.ids h.names free;
      named = All-update (λ q. valid_policy_name q.name ≡ true) at f ps (λ x k. n) h.named;
      modes = All-update (λ q. valid_mode q.mode ≡ true) at f ps (λ x k. m) h.modes;
    }

-- An update of no row changes no row.
update_nothing :
    (id : ℕ) (name : Text) (p : Policy) (s : Db)
    → has_policy s.policies id ≡ false
    → update_where (λ q. q.id == id) (rename name p) s.policies ≡ s.policies
update_nothing id name p s h = update_where_none (λ q. q.id == id) (rename name p) s.policies h

renamed-IsConsistent :
    (id : ℕ) (name : Text) (p : Policy) (s : Db)
    → PoliciesOk (update_where (λ q. q.id == id) (rename name p) s.policies) s.policies_seq
    → IsConsistent s
    → IsConsistent
        (record s { policies = update_where (λ q. q.id == id) (rename name p) s.policies })
renamed-IsConsistent id name p s ok_ h = record {
  policies = ok_;
  domains = DomainsOk-mono (has_policy-update id name p s.policies) h.domains;
  devices = DevicesOk-mono (has_policy-update id name p s.policies) h.devices;
}

pub update_policy-IsConsistent :
    (id : ℕ) (p : Policy) (s : Db) → IsConsistent s → IsConsistent (update_policy id p s).1
unfolding update_policy rename
update_policy-IsConsistent id p s h =
    let name = trim_space p.name in
    elim (Bool-cases (valid_policy_name name)) [
      | inr e ↦ rw e h
      | inl e ↦ elim (Bool-cases (valid_mode p.mode)) [
        | inr f ↦ rw (e, f) h
        | inl f ↦ elim (Bool-cases (has_policy s.policies id)) [
          | inr g ↦
              let whole : PoliciesOk (update_where (λ q. q.id == id) (rename name p) s.policies)
                  s.policies_seq =
                subst (λ ps. PoliciesOk ps s.policies_seq) (sym (update_nothing id name p s g))
                  h.policies in
              rw (e, f, g) (renamed-IsConsistent id name p s whole h)
          | inl g ↦ elim (Bool-cases (name_taken s id name)) [
            | inl k ↦ rw (e, f, g, k) h
            | inr k ↦
                rw (e, f, g, k)
                  (renamed-IsConsistent id name p s
                    (update-PoliciesOk id name p s.policies s.policies_seq h.policies e f
                      (unfold name_taken in k))
                    h)
          ]
        ]
      ]
    ]

abbrev found_default : Option Policy → Bool
found_default none = false
found_default (some p) = p.is_default

-- A row of a unique id.
at_id :
    (id : ℕ) (p : Policy) (ps : List Policy)
    → Unique same_id ps
    → find (λ q. q.id == id) ps ≡ some p
    → p.is_default ≡ false
    → All (λ q. (not (q.id == id) ≡ true) ⊎ (q.is_default ≡ false)) ps
at_id id p [] u e d = tt
at_id id p (q ∷ qs) (n, u) e d = elim (Bool-cases (q.id == id)) [
  | inl k ↦
      let same : some q ≡ some p = (rw k at e) in
      (
        inr (ap {B = Bool} found_default same ∙ d),
        All-mono (λ r g. inl (ap not g)) qs
            (any_false→All (λ r. r.id == id) qs (same_id_gone id q qs n k)),
      )
  | inr k ↦ (inl (rw k refl), at_id id p qs u (rw k at e) d)
]

-- A policy with another id stays.
has_policy-keep :
    (id j : ℕ) (ps : List Policy)
    → (j == id) ≡ false
    → has_policy (keep (λ p. not (p.id == id)) ps) j ≡ has_policy ps j
has_policy-keep id j ps ne =
    any-keep (λ p. p.id == j) (λ p. not (p.id == id)) ps (λ p e. ground arith)

owner-stays :
    (id j : ℕ) (ps : List Policy)
    → (has_policy ps j ≡ true) × (not (j == id) ≡ true)
    → has_policy (keep (λ p. not (p.id == id)) ps) j ≡ true
owner-stays id j ps (h, e) = has_policy-keep id j ps (ground arith) ∙ h

delete-IsConsistent :
    (id : ℕ) (p : Policy) (s : Db)
    → find (λ q. q.id == id) s.policies ≡ some p
    → p.is_default ≡ false
    → IsConsistent s
    → IsConsistent (delete_policy_row id s)
unfolding delete_policy_row
delete-IsConsistent id p s found d h = record {
  policies = record {
    one_default =
        count_where-keep (λ q. q.is_default) (λ q. not (q.id == id)) s.policies
          (at_id id p s.policies h.policies.ids found d)
        ∙ h.policies.one_default;
    ids = Unique-keep same_id (λ q. not (q.id == id)) s.policies h.policies.ids;
    seen = All-keep (λ q. q.id ≤ s.policies_seq) (λ q. not (q.id == id)) s.policies h.policies.seen;
    names = Unique-keep same_name (λ q. not (q.id == id)) s.policies h.policies.names;
    named = All-keep _ (λ q. not (q.id == id)) s.policies h.policies.named;
    modes = All-keep _ (λ q. not (q.id == id)) s.policies h.policies.modes;
  };
  domains = record {
    owned =
        All-mono (λ d. owner-stays id d.policy_id s.policies)
          (keep (λ d. not (d.policy_id == id)) s.policy_allowed_domains)
          (All-keep_test _ (λ d. not (d.policy_id == id)) s.policy_allowed_domains h.domains.owned);
    valid = All-keep _ (λ d. not (d.policy_id == id)) s.policy_allowed_domains h.domains.valid;
    mappings = Unique-keep same_mapping _ s.policy_allowed_domains h.domains.mappings;
  };
  devices = record {
    owned =
        All-mono (λ a. owner-stays id a.policy_id s.policies)
          (keep (λ a. not (a.policy_id == id)) s.device_policies)
          (All-keep_test _ (λ a. not (a.policy_id == id)) s.device_policies h.devices.owned);
    macs = Unique-keep same_mac _ s.device_policies h.devices.macs;
  };
}

pub delete_policy-IsConsistent :
    (id : ℕ) (s : Db) → IsConsistent s → IsConsistent (delete_policy id s).1
unfolding delete_policy
delete_policy-IsConsistent id s h = elim (Option-cases (find (λ p. p.id == id) s.policies)) [
  | inl e ↦ rw (e, delete_policy) h
  | inr (p, e) ↦ elim (Bool-cases p.is_default) [
    | inl d ↦ rw (e, delete_policy) (rw d h)
    | inr d ↦ rw (e, delete_policy) (rw d (delete-IsConsistent id p s e d h))
  ]
]
