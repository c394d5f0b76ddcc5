-- ===== src/Policy/Devices.antt =====
-- The policy in force for a device.
use rpi_network_filter.Common.{
  ℕ, ◌≡◌, refl, sym, ap, ◌∙◌, ◌⊎◌, inl, inr, true, false, Bool-cases, Option-cases, ◌==◌, List, [],
  ◌∷◌, Text, text_eq, Option, none, some, Result, ok, All, In, find, count_where, ==_iff, find-some,
  find-none, arith, if◌then◌else◌,
}
use rpi_network_filter.Strings.{to_lower, trim_space}
use rpi_network_filter.Models.{Policy, DevicePolicy}
use rpi_network_filter.Db.{Db, Error, Assignment}
use rpi_network_filter.Policy.{get_policy, default_policy, join_policy, device_policy}
use rpi_network_filter.Policy.Invariant.{has_policy, IsConsistent}

-- The policy that a normalised address is assigned to.
unfoldable pub assigned : Text → List Assignment → Option ℕ
assigned mac [] = none
assigned mac (a ∷ rows) =
    let rest = assigned mac rows in if text_eq a.device_mac mac then some a.policy_id else rest

-- The policy in force: the assigned one, or the default.
unfoldable pub in_force : Db → Option ℕ → Result Error Policy
in_force s none = default_policy s
in_force s (some id) = get_policy s id

abbrev joined_id : Option DevicePolicy → Option ℕ
joined_id none = none
joined_id (some a) = some a.policy_id

joined-eq-assigned :
    (ps : List Policy) (mac : Text) (rows : List Assignment)
    → All (λ a. has_policy ps a.policy_id ≡ true) rows
    → joined_id (find (λ a. text_eq a.device_mac mac) (join_policy ps rows)) ≡ assigned mac rows
unfolding join_policy assigned
joined-eq-assigned ps mac [] h = refl
joined-eq-assigned ps mac (a ∷ rows) (o, h) =
    elim (Option-cases (find (λ p. p.id == a.policy_id) ps)) [
      | inl e ↦ let bad : true ≡ false = sym o ∙ find-none (λ p. p.id == a.policy_id) ps e in cc bad
      | inr (p, e) ↦ elim (Bool-cases (text_eq a.device_mac mac)) [
        | inl f ↦ rw (e, join_policy) (rw f refl)
        | inr f ↦ rw (e, join_policy) (rw f (joined-eq-assigned ps mac rows h))
      ]
    ]

device_policy-joined :
    (s : Db) (text : Text)
    → device_policy s text
      ≡ in_force s (
          joined_id (
            find
              (λ a. text_eq a.device_mac (to_lower (trim_space text)))
              (join_policy s.policies s.device_policies)))
unfolding device_policy in_force
device_policy-joined s text =
    elim (Option-cases (
      find (λ a. text_eq a.device_mac (to_lower (trim_space text)))
        (join_policy s.policies s.device_policies))) [
          | inl e ↦ rw (e, device_policy)
          | inr (a, e) ↦ rw (e, device_policy)
        ]

pub device_policy-eq :
    (s : Db) (text : Text)
    → IsConsistent s
    → device_policy s text ≡ in_force s (assigned (to_lower (trim_space text)) s.device_policies)
device_policy-eq s text h =
    device_policy-joined s text
    ∙ ap (in_force s) (
        joined-eq-assigned s.policies (to_lower (trim_space text)) s.device_policies
          h.devices.owned)

default-found :
    (ps : List Policy)
    → count_where (λ p. p.is_default) ps ≡ 1
    → (p : Policy) × (find (λ q. q.is_default) ps ≡ some p) × In p ps × (p.is_default ≡ true)
default-found [] h = absurd (omega arith)
default-found (p ∷ ps) h = elim (Bool-cases p.is_default) [
  | inl e ↦ (p, rw e refl, inl refl, e)
  | inr e ↦ let (q, f, m, d) = default-found ps (ground arith) in (q, rw e f, inr m, d)
]

get-found :
    (s : Db) (id : ℕ)
    → has_policy s.policies id ≡ true
    → (p : Policy) × (get_policy s id ≡ ok p) × In p s.policies × (p.id ≡ id)
unfolding get_policy
get-found s id h = elim (Option-cases (find (λ p. p.id == id) s.policies)) [
  | inl e ↦ let bad : true ≡ false = sym h ∙ find-none (λ p. p.id == id) s.policies e in cc bad
  | inr (p, e) ↦
      let (same, m) = find-some (λ p. p.id == id) s.policies p e in
      (p, rw (e, get_policy), m, (==_iff p.id id).0 same)
]

assigned-owned :
    (ps : List Policy) (mac : Text) (rows : List Assignment) (id : ℕ)
    → All (λ a. has_policy ps a.policy_id ≡ true) rows
    → assigned mac rows ≡ some id
    → has_policy ps id ≡ true
unfolding assigned
assigned-owned ps mac [] id h e = cc
assigned-owned ps mac (a ∷ rows) id (o, h) e = elim (Bool-cases (text_eq a.device_mac mac)) [
  | inl f ↦
      let same : some a.policy_id ≡ some id = (rw f at e) in
      let eq : a.policy_id ≡ id = cc same in rw eq at o
  | inr f ↦ assigned-owned ps mac rows id h (rw f at e)
]

in_force-none :
    (s : Db) (p : Policy) → find (λ q. q.is_default) s.policies ≡ some p → in_force s none ≡ ok p
unfolding in_force default_policy
in_force-none s p f = rw (f, default_policy) refl

pub in_force-some : (s : Db) (id : ℕ) → in_force s (some id) ≡ get_policy s id
unfolding in_force
in_force-some s id = refl

-- On consistent tables every device has a policy: DevicePolicy returns a policy of the table, which
-- is the one that the device's row names, or the default policy for a device without a row.
pub device_policy_total :
    (s : Db) (text : Text)
    → IsConsistent s
    → (p : Policy) × (device_policy s text ≡ ok p)
      × In p s.policies
      × ((assigned (to_lower (trim_space text)) s.device_policies ≡ some p.id)
          ⊎ ((assigned (to_lower (trim_space text)) s.device_policies ≡ none)
              × (p.is_default ≡ true)))
device_policy_total s text h =
    let mac = to_lower (trim_space text) in
    elim (Option-cases (assigned mac s.device_policies)) [
      | inl e ↦
          let (p, f, m, d) = default-found s.policies h.policies.one_default in
          (p, device_policy-eq s text h ∙ ap (in_force s) e ∙ in_force-none s p f, m, inr (e, d))
      | inr (id, e) ↦
          let (p, f, m, same) =
            get-found s id (assigned-owned s.policies mac s.device_policies id h.devices.owned e) in
          (
            p,
            device_policy-eq s text h ∙ ap (in_force s) e ∙ in_force-some s id ∙ f,
            m,
            inl (e ∙ ap some (sym same)),
          )
    ]
