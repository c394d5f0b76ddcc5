-- ===== src/Regexp.antt =====
-- Go's `regexp` for the patterns of internal/services/validate.go: whole-text matching of a regular
-- expression (`^…$`) by derivatives. `Language` relates the matcher to the meaning of an expression.
pub mod Language
pub mod Classes
pub mod Alphabet
pub mod Submatch
use rpi_network_filter.Common.{
  ℕ, zero, suc, ◌==◌, leb, Bool, true, false, ◌&&◌, ◌||◌, [], ◌∷◌, Text, if◌then◌else◌,
}

pub data Regex : Type 0 where
  empty eps : Regex
  class : (ℕ → Bool) → Regex
  seq alt : Regex → Regex → Regex
  star : Regex → Regex

-- Sequence and alternative without the empty set, which keeps derivatives small.
unfoldable pub join : Regex → Regex → Regex
join empty b = empty
join a b = seq a b

unfoldable pub either : Regex → Regex → Regex
either empty b = b
either a b = alt a b

unfoldable pub nullable : Regex → Bool
nullable empty = false
nullable eps = true
nullable (class p) = false
nullable (seq a b) = nullable a && nullable b
nullable (alt a b) = nullable a || nullable b
nullable (star a) = true

-- What may follow the character `c`.
unfoldable pub deriv : ℕ → Regex → Regex
unfolding join either nullable
deriv c empty = empty
deriv c eps = empty
deriv c (class p) = if p c then eps else empty
deriv c (seq a b) =
    let rest = deriv c b in either (join (deriv c a) b) (if nullable a then rest else empty)
deriv c (alt a b) = either (deriv c a) (deriv c b)
deriv c (star a) = join (deriv c a) (star a)

-- `MatchString` of `^r$`.
unfoldable pub match_string : Regex → Text → Bool
unfolding nullable deriv
match_string r [] = nullable r
match_string r (c ∷ s) = match_string (deriv c r) s

-- `c`, `r?`, `r{n}`, `r{0,n}` and `[lo-hi]`.
unfoldable pub char : ℕ → Regex
char c = class (λ d. d == c)

unfoldable pub opt : Regex → Regex
opt r = alt eps r

unfoldable pub exactly : ℕ → Regex → Regex
exactly zero r = eps
exactly (suc n) r = seq r (exactly n r)

unfoldable pub at_most : ℕ → Regex → Regex
at_most zero r = eps
at_most (suc n) r = alt eps (seq r (at_most n r))

abbrev pub within : ℕ → ℕ → ℕ → Bool
within lo hi c = leb lo c && leb c hi
