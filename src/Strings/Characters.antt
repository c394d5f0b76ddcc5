-- ===== src/Strings/Characters.antt =====
-- Operations on texts that bring no new characters.
use rpi_network_filter.Common.{
  ℕ, ◌≡◌, ◌==◌, inl, inr, Bool, true, ◌&&◌, Bool-cases, List, [], ◌∷◌, ◌++◌, Text, All,
}
use rpi_network_filter.Regexp.Classes.{Only}
use rpi_network_filter.Regexp.Alphabet.{Only-append}
use rpi_network_filter.Strings.{
  is_space, trim_left, trim_right, trim_space, is_nil, join, replace_char,
}

module _ (f : ℕ → Bool) where
  Only-trim_left : (s : Text) → Only f s → Only f (trim_left s)
  unfolding trim_left
  Only-trim_left [] h = tt
  Only-trim_left (c ∷ s) (p, h) = elim (Bool-cases (is_space c)) [
    | inl e ↦ rw e (Only-trim_left s h)
    | inr e ↦ rw e (p, h)
  ]

  Only-trim_right : (s : Text) → Only f s → Only f (trim_right s)
  unfolding trim_right
  Only-trim_right [] h = tt
  Only-trim_right (c ∷ s) (p, h) = elim (Bool-cases (is_space c && is_nil (trim_right s))) [
    | inl e ↦ rw e tt
    | inr e ↦ rw e (p, Only-trim_right s h)
  ]

  pub Only-trim_space : (s : Text) → Only f s → Only f (trim_space s)
  unfolding trim_space
  Only-trim_space s h = Only-trim_right (trim_left s) (Only-trim_left s h)

  pub Only-join :
      (sep : Text) (ps : List Text) → Only f sep → All (Only f) ps → Only f (join sep ps)
  unfolding join
  Only-join sep [] o h = tt
  Only-join sep (p ∷ []) o (hp, h) = hp
  Only-join sep (p ∷ q ∷ ps) o (hp, h) =
      Only-append f p (sep ++ join sep (q ∷ ps)) hp
        (Only-append f sep (join sep (q ∷ ps)) o (Only-join sep (q ∷ ps) o h))

  pub Only-replace_char : (c d : ℕ) (s : Text) → f d ≡ true → Only f s → Only f (replace_char c d s)
  unfolding replace_char
  Only-replace_char c d [] e h = tt
  Only-replace_char c d (x ∷ s) e (p, h) = elim (Bool-cases (x == c)) [
    | inl g ↦ rw g (e, Only-replace_char c d s e h)
    | inr g ↦ rw g (p, Only-replace_char c d s e h)
  ]
