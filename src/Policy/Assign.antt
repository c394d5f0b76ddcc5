-- ===== src/Policy/Assign.antt =====
-- What AssignDevice and UnassignDevice change: the policy in force for that device alone.
use rpi_network_filter.Common.{
  ℕ, ◌≡◌, refl, sym, ap, ◌∙◌, inl, inr, true, false, not, Bool-cases, ◌==◌, List, [], ◌∷◌, ◌++◌,
  Text, text_eq, text_eq_iff, Option, none, some, ok, err, any, find, keep, update_where, arith,
  if◌then◌else◌,
}
use rpi_network_filter.Strings.{to_lower, trim_space, is_nil}
use rpi_network_filter.Db.{Db, Assignment, policy_not_found, db, no_rows}
use rpi_network_filter.Policy.{
  get_policy, default_policy, assign_device, unassign_device, device_policy,
}
use rpi_network_filter.Policy.Domains.{assign_device-IsConsistent, unassign_device-IsConsistent}
use rpi_network_filter.Policy.Invariant.{has_policy, IsConsistent}
use rpi_network_filter.Policy.Devices.{assigned, in_force, device_policy-eq, in_force-some}

module _ (m j : Text) (id : ℕ) where
  reassign : List Assignment → List Assignment
  reassign rows = update_where (λ a. text_eq a.device_mac m) (λ a. record a { policy_id = id }) rows

  assigned-update_ne :
      (rows : List Assignment) → text_eq m j ≡ false → assigned j (reassign rows) ≡ assigned j rows
  unfolding assigned reassign
  assigned-update_ne [] e = refl
  assigned-update_ne (a ∷ rows) e = ground (
    arith,
    text_eq_iff a.device_mac m,
    text_eq_iff a.device_mac j,
    text_eq_iff m j,
    assigned-update_ne rows e,
  )

  assigned-update_self :
      (rows : List Assignment)
      → text_eq m j ≡ true
      → any (λ a. text_eq a.device_mac m) rows ≡ true
      → assigned j (reassign rows) ≡ some id
  unfolding assigned reassign
  assigned-update_self [] e h = cc
  assigned-update_self (a ∷ rows) e h = ground (
    arith,
    text_eq_iff a.device_mac m,
    text_eq_iff a.device_mac j,
    text_eq_iff m j,
    assigned-update_self rows e,
  )

  assigned-update :
      (rows : List Assignment)
      → any (λ a. text_eq a.device_mac m) rows ≡ true
      → assigned j (reassign rows) ≡ (if text_eq m j then some id else assigned j rows)
  assigned-update rows h = elim (Bool-cases (text_eq m j)) [
    | inl e ↦ rw e (assigned-update_self rows e h)
    | inr e ↦ rw e (assigned-update_ne rows e)
  ]

assigned-snoc :
    (m j : Text) (a : Assignment) (rows : List Assignment)
    → a.device_mac ≡ m
    → any (λ b. text_eq b.device_mac m) rows ≡ false
    → assigned j (rows ++ a ∷ []) ≡ (if text_eq m j then some a.policy_id else assigned j rows)
unfolding assigned
assigned-snoc m j a [] e h = rw e refl
assigned-snoc m j a (b ∷ rows) e h = ground (
  arith,
  text_eq_iff b.device_mac m,
  text_eq_iff b.device_mac j,
  text_eq_iff m j,
  assigned-snoc m j a rows e,
)

assigned-keep :
    (m j : Text) (rows : List Assignment)
    → assigned j (keep (λ a. not (text_eq a.device_mac m)) rows)
      ≡ (if text_eq m j then none else assigned j rows)
unfolding assigned
assigned-keep m j [] = ground arith
assigned-keep m j (b ∷ rows) = ground (
  arith,
  text_eq_iff b.device_mac m,
  text_eq_iff b.device_mac j,
  text_eq_iff m j,
  assigned-keep m j rows,
)

in_force-same : (s t : Db) (o : Option ℕ) → s.policies ≡ t.policies → in_force s o ≡ in_force t o
unfolding in_force default_policy get_policy
in_force-same s t none e =
    ap (λ ps. elim (find (λ p. p.is_default) ps) [ none ↦ err (db no_rows) | some p ↦ ok p ]) e
in_force-same s t (some id) e =
    ap (λ ps. elim (find (λ p. p.id == id) ps) [ none ↦ err policy_not_found | some p ↦ ok p ]) e

assign_device-rows :
    (s : Db) (text other : Text) (id : ℕ)
    → is_nil (to_lower (trim_space text)) ≡ false
    → has_policy s.policies id ≡ true
    → ((assign_device text id s).0 ≡ ok tt)
      × ((assign_device text id s).1.policies ≡ s.policies)
      × (assigned other (assign_device text id s).1.device_policies ≡ (
          if text_eq (to_lower (trim_space text)) other
          then some id
          else assigned other s.device_policies))
unfolding assign_device
assign_device-rows s text other id e f =
    let mac = to_lower (trim_space text) in
    elim (Bool-cases (any (λ a. text_eq a.device_mac mac) s.device_policies)) [
      | inl k ↦
          rw (e, f, k)
            (refl, refl, unfold reassign in assigned-update mac other id s.device_policies k)
      | inr k ↦
          rw (e, f, k)
            (
              refl,
              refl,
              assigned-snoc mac other
                  (record { device_mac = mac; policy_id = id; assigned_at = s.now })
                  s.device_policies refl k,
            )
    ]

-- On consistent tables, AssignDevice with an address that is not blank and an existing policy
-- succeeds, and makes that policy the one in force for the device; every other device has the
-- policy that it had. Addresses are compared trimmed and in lower case.
pub assign_device-device_policy :
    (s : Db) (text other : Text) (id : ℕ)
    → IsConsistent s
    → is_nil (to_lower (trim_space text)) ≡ false
    → has_policy s.policies id ≡ true
    → ((assign_device text id s).0 ≡ ok tt)
      × (device_policy (assign_device text id s).1 other ≡ (
          if text_eq (to_lower (trim_space text)) (to_lower (trim_space other))
          then get_policy s id
          else device_policy s other))
assign_device-device_policy s text other id h e f =
    let mac = to_lower (trim_space other) in
    let (done, same, rows) = assign_device-rows s text mac id e f in
    let t = (assign_device text id s).1 in
    let whole : device_policy t other
        ≡ in_force s (
            if text_eq (to_lower (trim_space text)) mac
            then some id
            else assigned mac s.device_policies) =
      device_policy-eq t other (assign_device-IsConsistent text id s h)
      ∙ ap (in_force t) rows
      ∙ in_force-same t s _ same in
    (
      done,
      elim (Bool-cases (text_eq (to_lower (trim_space text)) mac)) [
        | inl k ↦ rw k (whole ∙ rw k (in_force-some s id))
        | inr k ↦ rw k (whole ∙ rw k (sym (device_policy-eq s other h)))
      ],
    )

unassign_device-rows :
    (s : Db) (text other : Text)
    → ((unassign_device text s).1.policies ≡ s.policies)
      × (assigned other (unassign_device text s).1.device_policies
          ≡ (if text_eq (to_lower text) other then none else assigned other s.device_policies))
unfolding unassign_device
unassign_device-rows s text other = (refl, assigned-keep (to_lower text) other s.device_policies)

in_force-default : (s : Db) → in_force s none ≡ default_policy s
unfolding in_force
in_force-default s = refl

-- On consistent tables, behind UnassignDevice every device has the policy that it had, but for a
-- device whose address, in lower case and without the blanks around it, is the given one in lower
-- case with the blanks around it: that device has the default policy. An address is thus to be given
-- without blanks around it.
pub unassign_device-device_policy :
    (s : Db) (text other : Text)
    → IsConsistent s
    → device_policy (unassign_device text s).1 other ≡ (
        if text_eq (to_lower text) (to_lower (trim_space other))
        then default_policy s
        else device_policy s other)
unassign_device-device_policy s text other h =
    let mac = to_lower (trim_space other) in
    let t = (unassign_device text s).1 in
    let whole : device_policy t other
        ≡ in_force s
            (if text_eq (to_lower text) mac then none else assigned mac s.device_policies) =
      device_policy-eq t other (unassign_device-IsConsistent text s h)
      ∙ ap (in_force t) (unassign_device-rows s text mac).1
      ∙ in_force-same t s _ (unassign_device-rows s text mac).0 in
    elim (Bool-cases (text_eq (to_lower text) mac)) [
      | inl k ↦ rw k (whole ∙ rw k (in_force-default s))
      | inr k ↦ rw k (whole ∙ rw k (sym (device_policy-eq s other h)))
    ]
