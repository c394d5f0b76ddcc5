-- ===== src/Blocked/Normal.antt =====
-- Normal forms of domains: NormalizeDomain.
use rpi_network_filter.Common.{
  ℕ, ◌≡◌, refl, ap, ◌↔◌, ◌⊎◌, inl, inr, true, false, Bool-cases, ◌==◌, [], ◌∷◌, Text, codes, All,
  All-mono, arith,
}
use rpi_network_filter.Strings.{
  lower, is_space, to_lower, trim_left, trim_right, trim_space, has_prefix, trim_prefix,
}
use rpi_network_filter.Validate.{label_char, lower_alnum, digit, valid_domain}
use rpi_network_filter.Validate.Domains.{IsDomainChar, valid_domain-chars}
use rpi_network_filter.Blocked.{normalize_domain}

-- What the characters of a domain are not.
record IsFixed (c : ℕ) : Type 0 where
  spaceless : is_space c ≡ false
  lowered : lower c ≡ c
  starless : (c == b'*') ≡ false

IsDomainChar-IsFixed : (c : ℕ) → IsDomainChar c → IsFixed c
unfolding is_space lower label_char lower_alnum digit
IsDomainChar-IsFixed c h = ground arith

to_lower_fixed : (s : Text) → All IsFixed s → to_lower s ≡ s
unfolding to_lower
to_lower_fixed [] h = refl
to_lower_fixed (c ∷ s) (f, h) = rw (f.lowered, to_lower_fixed s h)

trim_left_fixed : (s : Text) → All IsFixed s → trim_left s ≡ s
unfolding trim_left
trim_left_fixed [] h = refl
trim_left_fixed (c ∷ s) (f, h) = rw (f.spaceless)

trim_right_fixed : (s : Text) → All IsFixed s → trim_right s ≡ s
unfolding trim_right
trim_right_fixed [] h = refl
trim_right_fixed (c ∷ s) (f, h) = rw (f.spaceless) (ap (λ t. c ∷ t) (trim_right_fixed s h))

trim_prefix_fixed : (s : Text) → All IsFixed s → trim_prefix s (codes "*.") ≡ s
unfolding trim_prefix has_prefix
trim_prefix_fixed [] h = refl
trim_prefix_fixed (c ∷ s) (f, h) = rw (f.starless)

valid_domain-nil : valid_domain [] ≡ false
unfolding valid_domain
valid_domain-nil = refl

normalize_of_valid : (d : Text) → valid_domain d ≡ true → normalize_domain d ≡ d
unfolding normalize_domain trim_space
normalize_of_valid d h =
    let fixed = All-mono IsDomainChar-IsFixed d (valid_domain-chars d h) in
    rw (
      trim_left_fixed d fixed,
      trim_right_fixed d fixed,
      to_lower_fixed d fixed,
      trim_prefix_fixed d fixed,
      h,
    )

pub normalize-cases :
    (d : Text) → (normalize_domain d ≡ []) ⊎ (valid_domain (normalize_domain d) ≡ true)
unfolding normalize_domain
normalize-cases d =
    let d' = trim_prefix (to_lower (trim_space d)) (codes "*.") in
    elim (Bool-cases (valid_domain d')) [ inl e ↦ inr (rw (e, e)) | inr e ↦ inl (rw e) ]

normalize_nil : normalize_domain [] ≡ []
unfolding normalize_domain trim_space to_lower trim_prefix trim_left trim_right has_prefix
normalize_nil = rw valid_domain-nil

pub normalize_idem : (d : Text) → normalize_domain (normalize_domain d) ≡ normalize_domain d
normalize_idem d = elim (normalize-cases d) [
  | inl e ↦ rw e normalize_nil
  | inr v ↦ normalize_of_valid _ v
]

normalize_fixed : (d : Text) → (d ≡ []) ⊎ (valid_domain d ≡ true) → normalize_domain d ≡ d
normalize_fixed d (inl e) = rw e normalize_nil
normalize_fixed d (inr v) = normalize_of_valid d v

-- NormalizeDomain returns the empty text or a text that ValidDomain accepts; a second call changes
-- nothing; and the texts that it leaves alone are exactly those two kinds.
pub normalize_domain_lem :
    (d : Text)
    → ((normalize_domain d ≡ []) ⊎ (valid_domain (normalize_domain d) ≡ true))
      × (normalize_domain (normalize_domain d) ≡ normalize_domain d)
      × ((normalize_domain d ≡ d) ↔ ((d ≡ []) ⊎ (valid_domain d ≡ true)))
normalize_domain_lem d =
    (normalize-cases d, normalize_idem d, (λ e. rw e at (normalize-cases d), normalize_fixed d))
