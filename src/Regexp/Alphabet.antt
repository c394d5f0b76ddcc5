-- ===== src/Regexp/Alphabet.antt =====
-- The characters of the texts that an expression matches.
use rpi_network_filter.Common.{ℕ, zero, suc, ◌≡◌, inl, inr, true, Bool, ◌++◌, Text, All-append}
use rpi_network_filter.Regexp.{
  Regex, empty, eps, class, seq, alt, star, match_string, exactly, at_most,
}
use rpi_network_filter.Regexp.Language.{Lang, StarOf, done, more, match_string_iff}
use rpi_network_filter.Regexp.Classes.{Only}

module _ (f : ℕ → Bool) where
  -- Every class of an expression passes the test.
  abbrev pub IsOver : Regex → Type 0
  IsOver empty = Unit
  IsOver eps = Unit
  IsOver (class p) = (c : ℕ) → p c ≡ true → f c ≡ true
  IsOver (seq a b) = IsOver a × IsOver b
  IsOver (alt a b) = IsOver a × IsOver b
  IsOver (star a) = IsOver a

  pub IsOver-exactly : (n : ℕ) (r : Regex) → IsOver r → IsOver (exactly n r)
  unfolding exactly
  IsOver-exactly zero r o = tt
  IsOver-exactly (suc n) r o = (o, IsOver-exactly n r o)

  pub IsOver-at_most : (n : ℕ) (r : Regex) → IsOver r → IsOver (at_most n r)
  unfolding at_most
  IsOver-at_most zero r o = tt
  IsOver-at_most (suc n) r o = (tt, (o, IsOver-at_most n r o))

  pub Only-append : (u v : Text) → Only f u → Only f v → Only f (u ++ v)
  Only-append = All-append (λ c. f c ≡ true)

  star-Only :
      (P : Text → Type 0) (h : (s : Text) → P s → Only f s) {s : Text} → StarOf P s → Only f s
  star-Only P h (done e) = rw e tt
  star-Only P h (more u v e p st) = rw e (Only-append u v (h u p) (star-Only P h st))

  Lang-Only : (r : Regex) (s : Text) → IsOver r → Lang r s → Only f s
  Lang-Only empty s o h = absurd h
  Lang-Only eps s o h = rw h tt
  Lang-Only (class p) s o (c, e, h) = rw e (o c h, tt)
  Lang-Only (seq a b) s (oa, ob) (u, v, e, ha, hb) =
      rw e (Only-append u v (Lang-Only a u oa ha) (Lang-Only b v ob hb))
  Lang-Only (alt a b) s (oa, ob) (inl h) = Lang-Only a s oa h
  Lang-Only (alt a b) s (oa, ob) (inr h) = Lang-Only b s ob h
  Lang-Only (star a) s o h = star-Only (Lang a) (λ t. Lang-Only a t o) h

  -- A text that an expression matches consists of characters of its classes.
  pub match_string-Only : (r : Regex) (s : Text) → IsOver r → match_string r s ≡ true → Only f s
  match_string-Only r s o h = Lang-Only r s o ((match_string_iff r s).0 h)
