-- ===== src/Regexp/Language.antt =====
-- The texts that an expression denotes, and that the matcher accepts exactly those.
use rpi_network_filter.Common.{
  ℕ, ◌≡◌, refl, sym, ap, ◌↔◌, ◌⊎◌, inl, inr, ◌∙◌, subst, true, Bool-cases, [], ◌∷◌, ◌++◌, Text,
  arith, if◌then◌else◌,
}
use rpi_network_filter.Regexp.{
  Regex, empty, eps, class, seq, alt, star, join, either, nullable, deriv, match_string,
}

pub data StarOf (P : Text → Type 0) : Text → Type 0 where
  done : {s : Text} → s ≡ [] → StarOf P s
  more : {s : Text} (u v : Text) → s ≡ u ++ v → P u → StarOf P v → StarOf P s

abbrev pub SeqOf : (Text → Type 0) → (Text → Type 0) → Text → Type 0
SeqOf P Q s = (u : Text) × (v : Text) × (s ≡ u ++ v) × P u × Q v

abbrev pub Lang : Regex → Text → Type 0
Lang empty s = ⊥
Lang eps s = s ≡ []
Lang (class p) s = (c : ℕ) × (s ≡ c ∷ []) × (p c ≡ true)
Lang (seq a b) s = SeqOf (Lang a) (Lang b) s
Lang (alt a b) s = Lang a s ⊎ Lang b s
Lang (star a) s = StarOf (Lang a) s

join_iff : (a b : Regex) (s : Text) → Lang (join a b) s ↔ Lang (seq a b) s
unfolding join
join_iff empty b s = (λ h. absurd h, λ h. absurd h.3)
join_iff _ b s = (λ h. h, λ h. h)

either_iff : (a b : Regex) (s : Text) → Lang (either a b) s ↔ Lang (alt a b) s
unfolding either
either_iff empty b s = (λ h. inr h, elim [ inl h ↦ absurd h | inr h ↦ h ])
either_iff _ b s = (λ h. h, λ h. h)

nil_of_append_nil : (u v : Text) → [] ≡ u ++ v → (u ≡ []) × (v ≡ [])
nil_of_append_nil [] v h = (refl, sym h)
nil_of_append_nil (c ∷ u) v h = cc

nullable→Lang : (r : Regex) → nullable r ≡ true → Lang r []
unfolding nullable
nullable→Lang empty h = cc
nullable→Lang eps h = refl
nullable→Lang (class p) h = cc
nullable→Lang (seq a b) h =
    ([], [], refl, nullable→Lang a (ground arith), nullable→Lang b (ground arith))
nullable→Lang (alt a b) h = elim (Bool-cases (nullable a)) [
  | inl e ↦ inl (nullable→Lang a e)
  | inr e ↦ inr (nullable→Lang b (ground arith))
]
nullable→Lang (star a) h = done refl

Lang→nullable : (r : Regex) → Lang r [] → nullable r ≡ true
unfolding nullable
Lang→nullable empty h = absurd h
Lang→nullable eps h = refl
Lang→nullable (class p) (c, e, _) = cc
Lang→nullable (seq a b) (u, v, e, ha, hb) =
    let (eu, ev) = nil_of_append_nil u v e in
    ground (arith, Lang→nullable a (rw eu at ha), Lang→nullable b (rw ev at hb))
Lang→nullable (alt a b) (inl h) = ground (arith, Lang→nullable a h)
Lang→nullable (alt a b) (inr h) = ground (arith, Lang→nullable b h)
Lang→nullable (star a) h = refl

deriv→Lang : (r : Regex) (c : ℕ) (s : Text) → Lang (deriv c r) s → Lang r (c ∷ s)
unfolding deriv
deriv→Lang empty c s h = absurd h
deriv→Lang eps c s h = absurd h
deriv→Lang (class p) c s h = elim (Bool-cases (p c)) [
  | inl e ↦ let g : Lang eps s = (rw e at h) in (c, ap (λ r. c ∷ r) g, e)
  | inr e ↦ let g : ⊥ = (rw e at h) in absurd g
]
deriv→Lang (seq a b) c s h = elim ((either_iff _ _ s).0 h) [
  | inl k ↦
      let (u, v, e, ha, hb) = (join_iff _ _ s).0 k in
      (c ∷ u, v, ap (λ r. c ∷ r) e, deriv→Lang a c u ha, hb)
  | inr k ↦ elim (Bool-cases (nullable a)) [
    | inl e ↦
        let g : Lang (deriv c b) s = (rw e at k) in
        ([], c ∷ s, refl, nullable→Lang a e, deriv→Lang b c s g)
    | inr e ↦ let g : ⊥ = (rw e at k) in absurd g
  ]
]
deriv→Lang (alt a b) c s h = elim ((either_iff _ _ s).0 h) [
  | inl k ↦ inl (deriv→Lang a c s k)
  | inr k ↦ inr (deriv→Lang b c s k)
]
deriv→Lang (star a) c s h =
    let (u, v, e, ha, hs) = (join_iff _ _ s).0 h in
    more (c ∷ u) v (ap (λ r. c ∷ r) e) (deriv→Lang a c u ha) hs

star_head :
    (P : Text → Type 0) (c : ℕ) (s : Text) {t : Text}
    → StarOf P t
    → t ≡ c ∷ s
    → (u : Text) × (v : Text) × (s ≡ u ++ v) × P (c ∷ u) × StarOf P v
star_head P c s (done e) q = cc
star_head P c s (more [] v e p st) q = star_head P c s st (sym e ∙ q)
star_head P c s (more (d ∷ u) v e p st) q = (u, v, cc, subst (λ x. P (x ∷ u)) (cc) p, st)

Lang→deriv : (r : Regex) (c : ℕ) (s : Text) → Lang r (c ∷ s) → Lang (deriv c r) s
unfolding deriv
Lang→deriv empty c s h = absurd h
Lang→deriv eps c s h = cc
Lang→deriv (class p) c s (d, e, h) =
    let g : p c ≡ true = subst (λ x. p x ≡ true) (cc) h in rw g (cc)
Lang→deriv (seq a b) c s ([], v, e, ha, hb) =
    let n : nullable a ≡ true = Lang→nullable a ha in
    (either_iff (join (deriv c a) b) (if nullable a then deriv c b else empty) s).1
      (inr (rw n (Lang→deriv b c s (rw (← e) at hb))))
Lang→deriv (seq a b) c s (d ∷ u, v, e, ha, hb) =
    let g : Lang a (c ∷ u) = subst (λ x. Lang a (x ∷ u)) (cc) ha in
    (either_iff _ _ s).1 (inl ((join_iff _ _ s).1 (u, v, cc, Lang→deriv a c u g, hb)))
Lang→deriv (alt a b) c s (inl h) = (either_iff _ _ s).1 (inl (Lang→deriv a c s h))
Lang→deriv (alt a b) c s (inr h) = (either_iff _ _ s).1 (inr (Lang→deriv b c s h))
Lang→deriv (star a) c s h =
    let (u, v, e, ha, hs) = star_head (Lang a) c s h refl in
    (join_iff _ _ s).1 (u, v, e, Lang→deriv a c u ha, hs)

match_string→Lang : (r : Regex) (s : Text) → match_string r s ≡ true → Lang r s
unfolding match_string
match_string→Lang r [] h = nullable→Lang r h
match_string→Lang r (c ∷ s) h = deriv→Lang r c s (match_string→Lang (deriv c r) s h)

Lang→match_string : (r : Regex) (s : Text) → Lang r s → match_string r s ≡ true
unfolding match_string
Lang→match_string r [] h = Lang→nullable r h
Lang→match_string r (c ∷ s) h = Lang→match_string (deriv c r) s (Lang→deriv r c s h)

-- The matcher accepts exactly the texts that the expression denotes.
pub match_string_iff : (r : Regex) (s : Text) → (match_string r s ≡ true) ↔ Lang r s
match_string_iff r s = (match_string→Lang r s, Lang→match_string r s)
