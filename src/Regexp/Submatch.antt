-- ===== src/Regexp/Submatch.antt =====
-- Go's `FindStringSubmatch`: the leftmost match of a pattern, with the preferences of Perl, and the
-- texts of its groups.
use rpi_network_filter.Common.{
  ℕ, ◌-◌, ◌==◌, leb, Bool, not, ◌&&◌, ◌||◌, Option, none, some, List, [], ◌∷◌, ◌++◌, Text, length,
  take, if◌then◌else◌,
}

-- `greedy` and `lazy` repeat a character of a class, as `*` and `*?` do.
pub data Pattern : Type 0 where
  eps : Pattern
  class greedy lazy : (ℕ → Bool) → Pattern
  seq alt : Pattern → Pattern → Pattern
  group : Pattern → Pattern

-- How a match goes on: with the text that is left and the groups so far.
abbrev pub Rest : Type 0
Rest = Text → List Text → Option (List Text)

abbrev pub or_else : Option (List Text) → Option (List Text) → Option (List Text)
or_else (some a) b = some a
or_else none b = b

unfoldable pub run_class : (ℕ → Bool) → Text → List Text → Rest → Option (List Text)
run_class p [] groups k = none
run_class p (c ∷ s) groups k = if p c then k s groups else none

unfoldable pub run_greedy : (ℕ → Bool) → Text → List Text → Rest → Option (List Text)
run_greedy p [] groups k = k [] groups
run_greedy p (c ∷ s) groups k =
    let longer = run_greedy p s groups k in
    if p c then or_else longer (k (c ∷ s) groups) else k (c ∷ s) groups

unfoldable pub run_lazy : (ℕ → Bool) → Text → List Text → Rest → Option (List Text)
run_lazy p [] groups k = k [] groups
run_lazy p (c ∷ s) groups k =
    let longer = run_lazy p s groups k in
    if p c then or_else (k (c ∷ s) groups) longer else k (c ∷ s) groups

-- The part of a text before what is left of it.
abbrev pub consumed : Text → Text → Text
consumed s left = take (length s - length left) s

unfoldable pub run : Pattern → Text → List Text → Rest → Option (List Text)
unfolding run_class run_greedy run_lazy
run eps s groups k = k s groups
run (class p) s groups k = run_class p s groups k
run (greedy p) s groups k = run_greedy p s groups k
run (lazy p) s groups k = run_lazy p s groups k
run (seq a b) s groups k = run a s groups (λ t gs. run b t gs k)
run (alt a b) s groups k = or_else (run a s groups k) (run b s groups k)
run (group a) s groups k = run a s groups (λ t gs. k t (gs ++ consumed s t ∷ []))

-- The groups of the leftmost match.
unfoldable pub find_submatch : Pattern → Text → Option (List Text)
unfolding run
find_submatch r [] = run r [] [] (λ t gs. some gs)
find_submatch r (c ∷ s) =
    let later = find_submatch r s in or_else (run r (c ∷ s) [] (λ t gs. some gs)) later

unfoldable pub literal : Text → Pattern
literal [] = eps
literal (c ∷ s) = seq (class (λ d. d == c)) (literal s)

unfoldable pub opt : Pattern → Pattern
opt a = alt a eps

unfoldable pub plus : (ℕ → Bool) → Pattern
plus p = seq (class p) (greedy p)

-- `\s`, `\S`, `.` and `\d`
abbrev pub space : ℕ → Bool
space c = c == 9 || c == 10 || c == 12 || c == 13 || c == 32

abbrev pub not_space : ℕ → Bool
not_space c = not (space c)

abbrev pub dot : ℕ → Bool
dot c = not (c == 10)

abbrev pub decimal : ℕ → Bool
decimal c = leb b'0' c && leb c b'9'
