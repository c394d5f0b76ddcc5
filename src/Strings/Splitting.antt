-- ===== src/Strings/Splitting.antt =====
-- `Split` and `Join` at one character, and what `HasSuffix` says of the parts.
use mathlib.Core.List.{append_assoc, append-nil}
use rpi_network_filter.Common.{
  ℕ, ◌≡◌, ◌≢◌, refl, sym, ap, All, ◌∙◌, ◌↔◌, inl, inr, true, ==_iff, Bool-cases, ◌==◌, List, [],
  ◌∷◌, ◌++◌, Text, text_eq, text_eq_iff, arith,
}
use rpi_network_filter.Strings.{has_suffix, split, join, tail_parts}

-- A split text has a first part.
pub split_cons : (sep : ℕ) (s : Text) → (p : Text) × (ps : List Text) × (split sep s ≡ p ∷ ps)
unfolding split
split_cons sep [] = ([], [], refl)
split_cons sep (c ∷ s) =
    let (p, ps, e) = split_cons sep s in
    elim (Bool-cases (c == sep)) [
      | inl t ↦ ([], split sep s, rw t)
      | inr t ↦ (c ∷ p, ps, rw (t, e))
    ]

pub split-append : (sep : ℕ) (u s : Text) → split sep (u ++ sep ∷ s) ≡ split sep u ++ split sep s
unfolding split
split-append sep [] s = ground arith
split-append sep (c ∷ u) s = elim (Bool-cases (c == sep)) [
  | inl t ↦ rw (t, split-append sep u s)
  | inr t ↦ let (p, ps, e) = split_cons sep u in rw (t, split-append sep u s, e)
]

join-cons_head :
    (sep : Text) (c : ℕ) (p : Text) (ps : List Text)
    → join sep ((c ∷ p) ∷ ps) ≡ c ∷ join sep (p ∷ ps)
unfolding join
join-cons_head sep c p [] = refl
join-cons_head sep c p (q ∷ ps) = refl

pub join-split : (sep : ℕ) (s : Text) → join (sep ∷ []) (split sep s) ≡ s
unfolding split join
join-split sep [] = refl
join-split sep (c ∷ s) =
    let (p, ps, e) = split_cons sep s in
    let back : join (sep ∷ []) (p ∷ ps) ≡ s = rw (← e) (join-split sep s) in
    elim (Bool-cases (c == sep)) [
      | inl t ↦ rw (t, e, back, (==_iff c sep).0 t)
      | inr t ↦ rw (t, e) (join-cons_head (sep ∷ []) c p ps ∙ ap (λ r. c ∷ r) back)
    ]

pub join-append :
    (sep : Text) (p : Text) (ps qs : List Text) (q : Text)
    → join sep ((p ∷ ps) ++ q ∷ qs) ≡ join sep (p ∷ ps) ++ (sep ++ join sep (q ∷ qs))
unfolding join
join-append sep p [] qs q = refl
join-append sep p (r ∷ ps) qs q = rw (join-append sep r ps qs q) (simp append_assoc)

has_suffix→ : (s t : Text) → has_suffix s t ≡ true → (u : Text) × (s ≡ u ++ t)
unfolding has_suffix
has_suffix→ [] t h = ([], (text_eq_iff [] t).0 h)
has_suffix→ (c ∷ s) t h = elim (Bool-cases (text_eq (c ∷ s) t)) [
  | inl e ↦ ([], (text_eq_iff (c ∷ s) t).0 e)
  | inr e ↦ let (u, k) = has_suffix→ s t (ground arith) in (c ∷ u, ap (λ r. c ∷ r) k)
]

→has_suffix : (u t : Text) → has_suffix (u ++ t) t ≡ true
unfolding has_suffix
→has_suffix [] [] = (text_eq_iff [] []).1 refl
→has_suffix [] (c ∷ t) = ground (arith, text_eq_iff (c ∷ t) (c ∷ t))
→has_suffix (c ∷ u) t = ground (arith, →has_suffix u t)

pub has_suffix_iff : (s t : Text) → (has_suffix s t ≡ true) ↔ ((u : Text) × (s ≡ u ++ t))
has_suffix_iff s t = (has_suffix→ s t, λ h. rw (h.1) (→has_suffix h.0 t))

-- A text without the separator is its only part.
pub split_of_lacks : (sep : ℕ) (s : Text) → All (λ c. c ≢ sep) s → split sep s ≡ s ∷ []
unfolding split
split_of_lacks sep [] h = refl
split_of_lacks sep (c ∷ s) (p, h) = elim (Bool-cases (c == sep)) [
  | inl e ↦ absurd (p ((==_iff c sep).0 e))
  | inr e ↦ rw (e, split_of_lacks sep s h)
]

pub join-eq-tail_parts :
    (sep : ℕ) (p : Text) (ps : List Text) → join (sep ∷ []) (p ∷ ps) ≡ p ++ tail_parts sep ps
unfolding join tail_parts
join-eq-tail_parts sep p [] = sym (append-nil p)
join-eq-tail_parts sep p (q ∷ qs) = ap (λ r. p ++ sep ∷ r) (join-eq-tail_parts sep q qs)

-- A text is split behind its first part, where that lacks the separator.
pub split_first :
    (sep : ℕ) (l : Text) (y v : Text) {s u x : Text} {c : ℕ}
    → All (λ d. d ≢ sep) l
    → s ≡ u ++ v
    → u ≡ x ++ y
    → x ≡ c ∷ []
    → (c == sep) ≡ true
    → split sep (l ++ s) ≡ l ∷ split sep (y ++ v)
split_first sep l y v lacks e f g h =
    ap (λ t. split sep (l ++ t))
      (e ∙ ap (λ t. t ++ v) (f ∙ ap (λ t. t ++ y) g) ∙ ap (λ d. d ∷ (y ++ v)) ((==_iff _ sep).0 h))
    ∙ split-append sep l (y ++ v)
    ∙ ap (λ t. t ++ split sep (y ++ v)) (split_of_lacks sep l lacks)
