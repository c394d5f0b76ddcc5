-- ===== src/Validate/Names.antt =====
-- Policy names and single-line values: what passes and what is taken out.
use rpi_network_filter.Common.{
  ℕ, ◌≤◌, ◌≡◌, ◌≢◌, refl, ap, ◌↔◌, true, false, Bool-cases, inl, inr, [], ◌∷◌, ◌++◌, Text, All,
  length, arith,
}
use rpi_network_filter.Regexp.Language.{Lang, match_string_iff}
use rpi_network_filter.Regexp.Classes.{Only, Lang-at_most_class}
use rpi_network_filter.Validate.{
  alnum, name_char, policy_name_re, valid_policy_name, is_control, sanitize_single_line,
}

-- A name: an alphanumeric character, then at most 63 letters, digits, spaces, `_` or `-`.
abbrev pub IsPolicyName : Text → Type 0
IsPolicyName [] = ⊥
IsPolicyName (c ∷ s) = (alnum c ≡ true) × Only name_char s × (length s ≤ 63)

policy_name→ : (s : Text) → Lang policy_name_re s → IsPolicyName s
unfolding policy_name_re
policy_name→ s (u, v, e, (c, f, h), k) =
    let (only, len) = (Lang-at_most_class name_char 63 v).0 k in rw (e, f) (h, only, len)

→policy_name : (s : Text) → IsPolicyName s → Lang policy_name_re s
unfolding policy_name_re
→policy_name [] h = absurd h
→policy_name (c ∷ s) (h, only, len) =
    (c ∷ [], s, refl, (c, refl, h), (Lang-at_most_class name_char 63 s).1 (only, len))

-- ValidPolicyName accepts exactly the texts of 1 to 64 characters that begin with a letter or a
-- digit and go on with letters, digits, spaces, underscores and hyphens.
pub valid_policy_name_iff : (s : Text) → (valid_policy_name s ≡ true) ↔ IsPolicyName s
unfolding valid_policy_name
valid_policy_name_iff s = (
  λ h. policy_name→ s ((match_string_iff policy_name_re s).0 h),
  λ h. (match_string_iff policy_name_re s).1 (→policy_name s h),
)

-- A character that SanitizeSingleLine keeps.
abbrev pub IsPrintable : ℕ → Type 0
IsPrintable r = (32 ≤ r) × (r ≢ 127)

IsPrintable-iff : (r : ℕ) → (is_control r ≡ false) ↔ IsPrintable r
unfolding is_control
IsPrintable-iff r = ground arith

sanitize-IsPrintable : (s : Text) → All IsPrintable (sanitize_single_line s)
unfolding sanitize_single_line
sanitize-IsPrintable [] = tt
sanitize-IsPrintable (r ∷ s) = elim (Bool-cases (is_control r)) [
  | inl e ↦ rw e (sanitize-IsPrintable s)
  | inr e ↦ rw e ((IsPrintable-iff r).0 e, sanitize-IsPrintable s)
]

sanitize_fixed : (s : Text) → All IsPrintable s → sanitize_single_line s ≡ s
unfolding sanitize_single_line
sanitize_fixed [] h = refl
sanitize_fixed (r ∷ s) (p, h) = rw ((IsPrintable-iff r).1 p) (ap (λ t. r ∷ t) (sanitize_fixed s h))

sanitize-append :
    (s t : Text) → sanitize_single_line (s ++ t) ≡ sanitize_single_line s ++ sanitize_single_line t
unfolding sanitize_single_line
sanitize-append [] t = refl
sanitize-append (r ∷ s) t = elim (Bool-cases (is_control r)) [
  | inl e ↦ rw e (sanitize-append s t)
  | inr e ↦ rw e (ap (λ x. r ∷ x) (sanitize-append s t))
]

-- What SanitizeSingleLine returns holds no control character; a text is returned as it is exactly
-- if it holds none; and a text is sanitised part by part, so that nothing else is taken out.
pub sanitize_single_line_lem :
    (s t : Text)
    → All IsPrintable (sanitize_single_line s)
      × ((sanitize_single_line s ≡ s) ↔ All IsPrintable s)
      × (sanitize_single_line (s ++ t) ≡ sanitize_single_line s ++ sanitize_single_line t)
sanitize_single_line_lem s t = (
  sanitize-IsPrintable s,
  (λ e. rw e at (sanitize-IsPrintable s), sanitize_fixed s),
  sanitize-append s t,
)
