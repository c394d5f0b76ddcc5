-- ===== src/Validate/Domains.antt =====
-- Domain names: ValidDomain accepts a text exactly if its parts between dots are labels.
use rpi_network_filter.Common.{
  ℕ, ◌≤◌, ◌≡◌, ◌≢◌, refl, sym, ap, ◌∙◌, ◌↔◌, ◌⊎◌, inl, inr, true, List, [], ◌∷◌, ◌++◌, Text, All,
  All-append, All-mono, length, arith,
}
use mathlib.Core.List.{append-nil}
use rpi_network_filter.Regexp.{char, seq, opt}
use rpi_network_filter.Regexp.Language.{Lang, StarOf, done, more, match_string_iff}
use rpi_network_filter.Regexp.Classes.{Only, Lang-star_class}
use rpi_network_filter.Strings.{split, join, tail_parts}
use rpi_network_filter.Strings.Splitting.{
  join-split, split_cons, split_of_lacks, split_first, join-eq-tail_parts,
}
use rpi_network_filter.Validate.{lower_alnum, label_char, label_re, domain_name_re, valid_domain}

abbrev First : Text → Type 0
First [] = ⊥
First (c ∷ s) = lower_alnum c ≡ true

abbrev Last : Text → Type 0
Last [] = ⊥
Last (c ∷ []) = lower_alnum c ≡ true
Last (c ∷ d ∷ s) = Last (d ∷ s)

-- A label: lower-case letters, digits and hyphens, with a letter or digit at both ends.
abbrev pub IsLabel : Text → Type 0
IsLabel s = First s × Last s × Only label_char s

Last-snoc : (c : ℕ) (w : Text) (d : ℕ) → lower_alnum d ≡ true → Last (c ∷ w ++ d ∷ [])
Last-snoc c [] d h = h
Last-snoc c (e ∷ w) d h = Last-snoc e w d h

label_char_of : (c : ℕ) → lower_alnum c ≡ true → label_char c ≡ true
unfolding label_char
label_char_of c h = ground arith

label→ : (s : Text) → Lang label_re s → IsLabel s
unfolding label_re opt
label→ s (u, v, e, (c, f, h), inl k) = rw (e, f, k) (h, h, (label_char_of c h, tt))
label→ s (u, v, e, (c, f, h), inr (w, x, g, only, (d, k, hd))) =
    rw (e, f, g, k)
      (
        h,
        Last-snoc c w d hd,
        (
          label_char_of c h,
          All-append _ w (d ∷ []) ((Lang-star_class label_char w).0 only) (label_char_of d hd, tt),
        ),
      )

snoc :
    (d : ℕ) (s : Text)
    → Last (d ∷ s)
    → Only label_char (d ∷ s)
    → (w : Text) × (x : ℕ) × (d ∷ s ≡ w ++ x ∷ []) × Only label_char w × (lower_alnum x ≡ true)
snoc d [] h only = ([], d, refl, tt, h)
snoc d (e ∷ s) h (p, only) =
    let (w, x, q, ow, hx) = snoc e s h only in (d ∷ w, x, ap (λ r. d ∷ r) q, (p, ow), hx)

→label : (s : Text) → IsLabel s → Lang label_re s
unfolding label_re opt
→label [] (h, _, _) = absurd h
→label (c ∷ []) (h, _, _) = (c ∷ [], [], refl, (c, refl, h), inl refl)
→label (c ∷ d ∷ s) (h, l, (_, only)) =
    let (w, x, q, ow, hx) = snoc d s l only in
    (
      c ∷ [],
      d ∷ s,
      refl,
      (c, refl, h),
      inr (w, x ∷ [], q, (Lang-star_class label_char w).1 ow, (x, refl, hx)),
    )

-- The parts of `s` between dots are labels.
abbrev pub IsDomain : Text → Type 0
IsDomain s = All IsLabel (split b'.' s)

label_char-ne-dot : (c : ℕ) → label_char c ≡ true → c ≢ b'.'
unfolding label_char lower_alnum
label_char-ne-dot c h = ground arith

pub split_of_label : (s : Text) → Only label_char s → split b'.' s ≡ s ∷ []
split_of_label s h = split_of_lacks b'.' s (All-mono label_char-ne-dot s h)

labels→ :
    (l : Text) {r : Text}
    → IsLabel l
    → StarOf (Lang (seq (char b'.') label_re)) r
    → IsDomain (l ++ r)
unfolding char
labels→ l h (done e) = rw (e, append-nil, split_of_label l h.2) (h, tt)
labels→ l h (more u v e (x, y, f, (c, g, at_dot), hy) st) =
    rw (split_first b'.' l y v (All-mono label_char-ne-dot l h.2) e f g at_dot)
      (h, labels→ y (label→ y hy) st)

tail_parts-star :
    (ps : List Text)
    → All IsLabel ps
    → StarOf (Lang (seq (char b'.') label_re)) (tail_parts b'.' ps)
unfolding tail_parts char
tail_parts-star [] h = done refl
tail_parts-star (q ∷ qs) (p, h) =
    more (b'.' ∷ q) (tail_parts b'.' qs) refl (b'.' ∷ [], q, refl, (b'.', refl, refl), →label q p)
      (tail_parts-star qs h)

domain→ : (s : Text) → Lang domain_name_re s → IsDomain s
unfolding domain_name_re
domain→ s (u, v, e, h, st) = rw e (labels→ u (label→ u h) st)

→domain : (s : Text) → IsDomain s → Lang domain_name_re s
unfolding domain_name_re
→domain s h =
    let (p, ps, e) = split_cons b'.' s in
    let labels : All IsLabel (p ∷ ps) = (rw e at h) in
    let whole : s ≡ p ++ tail_parts b'.' ps =
      sym (join-split b'.' s) ∙ ap (join (b'.' ∷ [])) e ∙ join-eq-tail_parts b'.' p ps in
    (p, tail_parts b'.' ps, whole, →label p labels.0, tail_parts-star ps labels.1)

-- ValidDomain accepts exactly the texts of 1 to 253 characters whose parts between dots are labels:
-- not empty, of lower-case letters, digits and hyphens, with no hyphen at either end.
pub valid_domain_iff :
    (s : Text) → (valid_domain s ≡ true) ↔ ((1 ≤ length s) × (length s ≤ 253) × IsDomain s)
unfolding valid_domain
valid_domain_iff s = (
  λ h. (
    ground arith,
    ground arith,
    domain→ s ((match_string_iff domain_name_re s).0 (ground arith)),
  ),
  λ h. let m = (match_string_iff domain_name_re s).1 (→domain s h.2) in ground (arith, h.0, h.1),
)

-- A character of a domain name.
abbrev pub IsDomainChar : ℕ → Type 0
IsDomainChar c = (label_char c ≡ true) ⊎ (c ≡ b'.')

IsDomain-chars : (ps : List Text) → All IsLabel ps → All IsDomainChar (join (b'.' ∷ []) ps)
unfolding join
IsDomain-chars [] h = tt
IsDomain-chars (p ∷ []) (h, _) = All-mono (λ c k. inl k) p h.2
IsDomain-chars (p ∷ q ∷ ps) (h, hs) =
    All-append IsDomainChar p (b'.' ∷ join (b'.' ∷ []) (q ∷ ps)) (All-mono (λ c k. inl k) p h.2)
      (inr refl, IsDomain-chars (q ∷ ps) hs)

pub valid_domain-chars : (s : Text) → valid_domain s ≡ true → All IsDomainChar s
valid_domain-chars s h =
    rw (join-split b'.' s) at (IsDomain-chars (split b'.' s) ((valid_domain_iff s).0 h).2)
