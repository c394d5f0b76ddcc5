-- ===== src/Regexp/Classes.antt =====
-- What the repetitions of a character class denote.
use rpi_network_filter.Common.{
  ℕ, zero, suc, ◌≤◌, ◌≡◌, refl, ap, ◌↔◌, inl, inr, true, Bool, [], ◌∷◌, Text, All, length, arith,
}
use rpi_network_filter.Regexp.{class, star, exactly, at_most}
use rpi_network_filter.Regexp.Language.{Lang, StarOf, done, more}

-- Every character passes the test.
abbrev pub Only : (ℕ → Bool) → Text → Type 0
Only p = All (λ c. p c ≡ true)

module _ (p : ℕ → Bool) where
  star→Only : {s : Text} → StarOf (Lang (class p)) s → Only p s
  star→Only (done e) = rw e tt
  star→Only (more u v e (c, f, h) st) = rw (e, f) (h, star→Only st)

  Only→star : (s : Text) → Only p s → StarOf (Lang (class p)) s
  Only→star [] h = done refl
  Only→star (c ∷ s) (h, t) = more (c ∷ []) s refl (c, refl, h) (Only→star s t)

  pub Lang-star_class : (s : Text) → Lang (star (class p)) s ↔ Only p s
  Lang-star_class s = (λ h. star→Only h, Only→star s)

  exactly→ : (n : ℕ) (s : Text) → Lang (exactly n (class p)) s → Only p s × (length s ≡ n)
  unfolding exactly
  exactly→ zero s h = rw h (tt, refl)
  exactly→ (suc n) s (u, v, e, (c, f, h), k) =
      let (only, len) = exactly→ n v k in rw (e, f) ((h, only), ap suc len)

  →exactly : (n : ℕ) (s : Text) → Only p s → length s ≡ n → Lang (exactly n (class p)) s
  unfolding exactly
  →exactly zero [] h e = refl
  →exactly zero (c ∷ s) h e = absurd (omega arith)
  →exactly (suc n) [] h e = absurd (omega arith)
  →exactly (suc n) (c ∷ s) (h, t) e = (c ∷ [], s, refl, (c, refl, h), →exactly n s t (omega arith))

  pub Lang-exactly_class :
      (n : ℕ) (s : Text) → Lang (exactly n (class p)) s ↔ (Only p s × (length s ≡ n))
  Lang-exactly_class n s = (exactly→ n s, λ h. →exactly n s h.0 h.1)

  at_most→ : (n : ℕ) (s : Text) → Lang (at_most n (class p)) s → Only p s × (length s ≤ n)
  unfolding at_most
  at_most→ zero s h = rw h (tt, omega arith)
  at_most→ (suc n) s (inl h) = rw h (tt, omega arith)
  at_most→ (suc n) s (inr (u, v, e, (c, f, h), k)) =
      let (only, len) = at_most→ n v k in rw (e, f) ((h, only), omega arith)

  →at_most : (n : ℕ) (s : Text) → Only p s → length s ≤ n → Lang (at_most n (class p)) s
  unfolding at_most
  →at_most zero [] h e = refl
  →at_most zero (c ∷ s) h e = absurd (omega arith)
  →at_most (suc n) [] h e = inl refl
  →at_most (suc n) (c ∷ s) (h, t) e =
      inr (c ∷ [], s, refl, (c, refl, h), →at_most n s t (omega arith))

  pub Lang-at_most_class :
      (n : ℕ) (s : Text) → Lang (at_most n (class p)) s ↔ (Only p s × (length s ≤ n))
  Lang-at_most_class n s = (at_most→ n s, λ h. →at_most n s h.0 h.1)
