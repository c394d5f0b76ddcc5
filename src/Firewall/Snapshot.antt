-- ===== src/Firewall/Snapshot.antt =====
-- internal/services/firewall.go: the policies that the snapshot of Apply refers to.
use rpi_network_filter.Common.{
  ℕ, ◌≡◌, refl, sym, ap, subst, ◌∙◌, ◌⊎◌, inl, inr, true, false, ◌==◌, ==_iff, Bool-cases,
  Option-cases, List, [], ◌∷◌, any, find, find-some, count_where, All, All-mono, In, arith,
  if◌then◌else◌,
}
use rpi_network_filter.Models.{Policy}
use rpi_network_filter.Db.{Db, Assignment, text_lt}
use rpi_network_filter.Db.Sorting.{any-order_by, All-order_by}
use rpi_network_filter.Policy.{join_policy, list_policies, list_assignments, policy_before}
use rpi_network_filter.Policy.Invariant.{IsConsistent, has_policy}
use rpi_network_filter.Firewall.{last_default, load_policy_snapshot}

has_of_In : (ps : List Policy) (p : Policy) → In p ps → has_policy ps p.id ≡ true
has_of_In [] p m = absurd m
has_of_In (q ∷ ps) p (inl e) = let same = ap (λ r. r.id) e in ground arith
has_of_In (q ∷ ps) p (inr m) = ground (arith, has_of_In ps p m)

join_policy-owned :
    (ps : List Policy) (rows : List Assignment)
    → All (λ a. has_policy ps a.policy_id ≡ true) (join_policy ps rows)
unfolding join_policy
join_policy-owned ps [] = tt
join_policy-owned ps (a ∷ rows) = elim (Option-cases (find (λ p. p.id == a.policy_id) ps)) [
  | inl e ↦ rw (e, join_policy) (join_policy-owned ps rows)
  | inr (p, e) ↦
      let (same, m) = find-some (λ p. p.id == a.policy_id) ps p e in
      let owned : has_policy ps a.policy_id ≡ true =
        (let eq : p.id ≡ a.policy_id = (==_iff p.id a.policy_id).0 same in
          ap (has_policy ps) (sym eq) ∙ has_of_In ps p m) in
      rw (e, join_policy) (owned, join_policy-owned ps rows)
]

-- Behind a policy, the last default is the one behind what that policy leaves.
last_default-step :
    (id k : ℕ) (p : Policy) (ps : List Policy)
    → (if p.is_default then p.id else id) ≡ k
    → last_default id (p ∷ ps) ≡ last_default k ps
unfolding last_default
last_default-step id k p ps e = ap (λ i. last_default i ps) e

has-cons :
    (p : Policy) (ps : List Policy) (id : ℕ)
    → (id ≡ p.id) ⊎ (has_policy ps id ≡ true)
    → has_policy (p ∷ ps) id ≡ true
has-cons p ps id (inl e) = ground arith
has-cons p ps id (inr e) = ground arith

last_default-nil : (id : ℕ) → last_default id [] ≡ id
unfolding last_default
last_default-nil id = refl

-- `k` is a policy's id, or the initial `id`, and there is no default policy.
abbrev DefaultId : ℕ → List Policy → ℕ → Type 0
DefaultId id ps k = (has_policy ps k ≡ true) ⊎ ((k ≡ id) × (any (λ p. p.is_default) ps ≡ false))

DefaultId-default :
    (id k : ℕ) (p : Policy) (ps : List Policy) → DefaultId p.id ps k → DefaultId id (p ∷ ps) k
DefaultId-default id k p ps (inl h) = inl (has-cons p ps k (inr h))
DefaultId-default id k p ps (inr (h, _)) = inl (has-cons p ps k (inl h))

DefaultId-other :
    (id k : ℕ) (p : Policy) (ps : List Policy)
    → p.is_default ≡ false
    → DefaultId id ps k
    → DefaultId id (p ∷ ps) k
DefaultId-other id k p ps e (inl h) = inl (has-cons p ps k (inr h))
DefaultId-other id k p ps e (inr (h, n)) = inr (h, ground arith)

last_default-DefaultId : (id : ℕ) (ps : List Policy) → DefaultId id ps (last_default id ps)
last_default-DefaultId id [] = inr (last_default-nil id, refl)
last_default-DefaultId id (p ∷ ps) = elim (Bool-cases p.is_default) [
  | inl e ↦
      subst (DefaultId id (p ∷ ps)) (sym (last_default-step id p.id p ps (rw e refl)))
        (DefaultId-default id (last_default p.id ps) p ps (last_default-DefaultId p.id ps))
  | inr e ↦
      subst (DefaultId id (p ∷ ps)) (sym (last_default-step id id p ps (rw e refl)))
        (DefaultId-other id (last_default id ps) p ps e (last_default-DefaultId id ps))
]

any_of_count :
    (ps : List Policy) → count_where (λ p. p.is_default) ps ≡ 1 → any (λ p. p.is_default) ps ≡ true
any_of_count [] h = absurd (omega arith)
any_of_count (p ∷ ps) h = elim (Bool-cases p.is_default) [
  | inl e ↦ ground arith
  | inr e ↦ let rest = any_of_count ps (ground arith) in ground arith
]

-- A policy of the list has the id.
abbrev pub HasPolicy : List Policy → ℕ → Type 0
HasPolicy ps id = (p : Policy) × In p ps × (p.id ≡ id)

owner : (ps : List Policy) (id : ℕ) → has_policy ps id ≡ true → HasPolicy ps id
owner [] id h = absurd (cc h)
owner (p ∷ ps) id h = elim (Bool-cases (p.id == id)) [
  | inl e ↦ (p, inl refl, (==_iff p.id id).0 e)
  | inr e ↦ let (q, m, same) = owner ps id (ground arith) in (q, inr m, same)
]

module _ (s : Db) (h : IsConsistent s) where
  has-listed : (id : ℕ) → has_policy (list_policies s) id ≡ has_policy s.policies id
  unfolding list_policies
  has-listed id = any-order_by policy_before (λ p. p.id == id) s.policies

  default-listed : has_policy (list_policies s) (last_default 0 (list_policies s)) ≡ true
  unfolding list_policies
  default-listed = elim (last_default-DefaultId 0 (list_policies s)) [
    | inl k ↦ k
    | inr (_, n) ↦
        let listed = any-order_by policy_before (λ p. p.is_default) s.policies in
        let some_default = any_of_count s.policies h.policies.one_default in
        let bad : true ≡ false = sym (listed ∙ some_default) ∙ n in cc bad
  ]

  assignments-listed :
      All (λ a. has_policy (list_policies s) a.policy_id ≡ true) (list_assignments s)
  unfolding list_assignments
  assignments-listed =
      All-order_by (λ a b. text_lt a.device_mac b.device_mac)
        (λ a. has_policy (list_policies s) a.policy_id ≡ true)
        (join_policy s.policies s.device_policies)
        (All-mono (λ a o. has-listed a.policy_id ∙ o) (join_policy s.policies s.device_policies)
          (join_policy-owned s.policies s.device_policies))

  -- The snapshot lists a policy for each assignment, and the default policy.
  pub load_policy_snapshot-HasPolicy :
      All
        (λ a. HasPolicy (load_policy_snapshot s).policies a.policy_id)
        (load_policy_snapshot s).assignments
      × HasPolicy (load_policy_snapshot s).policies (load_policy_snapshot s).default_id
  unfolding load_policy_snapshot
  load_policy_snapshot-HasPolicy = (
    All-mono (λ a. owner (list_policies s) a.policy_id) (list_assignments s) assignments-listed,
    owner (list_policies s) (last_default 0 (list_policies s)) default-listed,
  )
