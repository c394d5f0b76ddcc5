-- ===== src/Strings/Decimal.antt =====
-- The verb %d of package fmt on natural numbers: decimal digits without leading zeros.
use rpi_network_filter.Common.{
  ℕ, zero, suc, ◌+◌, ◌-◌, ◌*◌, ◌/◌, ◌%◌, ◌<◌, ◌≡◌, sym, ap, ◌∙◌, ltb, Bool-cases, inl, inr, [], ◌∷◌,
  Text, arith, if◌then◌else◌,
}

-- The digits of `n` before `out`; as many rounds as there are digits are enough, so `suc n` are.
unfoldable pub digits : ℕ → ℕ → Text → Text
digits zero n out = out
digits (suc rounds) n out =
    let rest = digits rounds (n / 10) ((b'0' + n % 10) ∷ out) in
    if ltb n 10 then (b'0' + n) ∷ out else rest

unfoldable pub format_int : ℕ → Text
unfolding digits
format_int n = digits (suc n) n []

-- The number that digits stand for, behind those read already.
abbrev pub read_digits : ℕ → Text → ℕ
read_digits n [] = n
read_digits n (c ∷ s) = read_digits (n * 10 + (c - b'0')) s

read_digits-digits :
    (rounds n : ℕ) (out : Text)
    → n < rounds
    → read_digits 0 (digits rounds n out) ≡ read_digits n out
unfolding digits
read_digits-digits zero n out h = absurd (omega arith)
read_digits-digits (suc rounds) n out h = elim (Bool-cases (ltb n 10)) [
  | inl e ↦ rw e (ap (λ k. read_digits k out) (omega arith))
  | inr e ↦
      let high : n / 10 < rounds = ground arith in
      let back : n / 10 * 10 + (b'0' + n % 10 - b'0') ≡ n = omega arith in
      rw e (
        read_digits-digits rounds (n / 10) ((b'0' + n % 10) ∷ out) high
        ∙ ap (λ k. read_digits k out) back)
]

-- The digits of a number stand for it.
pub read_digits-format_int : (n : ℕ) → read_digits 0 (format_int n) ≡ n
unfolding format_int
read_digits-format_int n = read_digits-digits (suc n) n [] (omega arith)

-- Numbers with the same digits are equal.
pub format_int-injective : (m n : ℕ) → format_int m ≡ format_int n → m ≡ n
format_int-injective m n h =
    sym (read_digits-format_int m) ∙ ap (read_digits 0) h ∙ read_digits-format_int n
