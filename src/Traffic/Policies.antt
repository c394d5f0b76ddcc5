-- ===== src/Traffic/Policies.antt =====
-- internal/services/trafficlog.go: parseNfLine reads back what generateConfig of
-- internal/services/firewall.go makes the kernel log.
use rpi_network_filter.Common.{
  ℕ, ◌==◌, ◌≡◌, refl, ap, ◌∙◌, Bool, true, false, Option, some, List, [], ◌∷◌, ◌++◌, Text, codes,
  take, length, length-append, All-append, All-mono, not, if◌then◌else◌, arith,
}
use rpi_network_filter.Strings.{contains, has_prefix}
use rpi_network_filter.Validate.{name_char, alnum, digit, valid_policy_name}
use rpi_network_filter.Validate.Names.{valid_policy_name_iff}
use rpi_network_filter.Regexp.Classes.{Only}
use rpi_network_filter.Regexp.Submatch.{
  Rest, consumed, run_class, run_greedy, run, find_submatch, literal, plus, opt, or_else,
}
use rpi_network_filter.Traffic.{TrafficEntry, TrafficLog, insert_entry}
use rpi_network_filter.Traffic.Lines.{
  policy_char, nflog_re, nflog_policy_re, first_group, nf_action, nf_policy, parse_nf_line,
}

-- A message that starts with the prefix of a policy's accepting or dropping line.
abbrev pub accepted : Text → Text → Text
accepted name rest = codes "[NETFILTER-ACCEPT pol=" ++ (name ++ (codes "] " ++ rest))

abbrev pub dropped : Text → Text → Text
dropped name rest = codes "[NETFILTER-DROP pol=" ++ (name ++ (codes "] " ++ rest))

run_greedy-Only :
    (p : ℕ → Bool) (s : Text) (d : ℕ) (t : Text) (groups : List Text) (k : Rest) (x : List Text)
    → Only p s
    → p d ≡ false
    → k (d ∷ t) groups ≡ some x
    → run_greedy p (s ++ d ∷ t) groups k ≡ some x
unfolding run_greedy
run_greedy-Only p [] d t groups k x h e f = rw e f
run_greedy-Only p (c ∷ s) d t groups k x (g, h) e f =
    rw g (rw (run_greedy-Only p s d t groups k x h e f) refl)

consumed-append : (s t : Text) → consumed (s ++ t) t ≡ s
consumed-append s t =
    ap (λ n. take n (s ++ t)) (let l = length-append s t in omega arith) ∙ front s t
  where
    front : (s t : Text) → take (length s) (s ++ t) ≡ s
    front [] t = refl
    front (c ∷ s) t = ap (λ r. c ∷ r) (front s t)

or_else-some : (x y : Option (List Text)) (a : List Text) → x ≡ some a → or_else x y ≡ some a
or_else-some x y a e = rw e refl

or_else-first :
    (x y z : Option (List Text)) (a : List Text) → x ≡ some a → or_else (or_else x y) z ≡ some a
or_else-first x y z a e = rw e refl

found_accepted :
    (c : ℕ) (name rest : Text)
    → policy_char c ≡ true
    → Only policy_char name
    → find_submatch nflog_policy_re (accepted (c ∷ name) rest) ≡ some ((c ∷ name) ∷ [])
unfolding find_submatch nflog_policy_re run run_class run_greedy literal plus opt
found_accepted c name rest e h =
    let tail = codes "] " ++ rest in
    rw e (
      or_else-first _ _ _ _ (
        run_greedy-Only policy_char name b']' (b' ' ∷ rest) [] _ _ h refl
          (ap (λ t. some (t ∷ [])) (consumed-append (c ∷ name) tail))))

found_dropped :
    (c : ℕ) (name rest : Text)
    → policy_char c ≡ true
    → Only policy_char name
    → find_submatch nflog_policy_re (dropped (c ∷ name) rest) ≡ some ((c ∷ name) ∷ [])
unfolding find_submatch nflog_policy_re run run_class run_greedy literal plus opt
found_dropped c name rest e h =
    let tail = codes "] " ++ rest in
    rw e (
      or_else-some _ _ _ (
        run_greedy-Only policy_char name b']' (b' ' ∷ rest) [] _ _ h refl
          (ap (λ t. some (t ∷ [])) (consumed-append (c ∷ name) tail))))

-- No opening bracket.
abbrev pub is_inner : ℕ → Bool
is_inner c = not (c == b'[')

contains-Only : (s needle : Text) → Only is_inner s → contains s (b'[' ∷ needle) ≡ false
unfolding contains has_prefix
contains-Only [] needle h = refl
contains-Only (c ∷ s) needle (e, h) =
    let other : (c == b'[') ≡ false = ground arith in rw other (contains-Only s needle h)

policy_accepted :
    (c : ℕ) (name rest : Text)
    → policy_char c ≡ true
    → Only policy_char name
    → Only is_inner (c ∷ name)
    → Only is_inner rest
    → (nf_action (accepted (c ∷ name) rest) ≡ codes "allowed")
      × (nf_policy (accepted (c ∷ name) rest) ≡ c ∷ name)
unfolding nf_action nf_policy first_group contains has_prefix
policy_accepted c name rest e h i k =
    let tail = (c ∷ name) ++ (codes "] " ++ rest) in
    let clean = λ (needle : Text).
      contains-Only tail needle
        (All-append (λ d. is_inner d ≡ true) (c ∷ name) (codes "] " ++ rest) i (refl, (refl, k))) in
    (
      rw (clean (codes "NETFILTER-DROP")) refl,
      rw
          (
            clean (codes "NETFILTER-DROP-DOH]"),
            clean (codes "NETFILTER-DROP-DOT]"),
            found_accepted c name rest e h,
            first_group,
          )
          refl,
    )

policy_dropped :
    (c : ℕ) (name rest : Text)
    → policy_char c ≡ true
    → Only policy_char name
    → Only is_inner (c ∷ name)
    → Only is_inner rest
    → (nf_action (dropped (c ∷ name) rest) ≡ codes "blocked")
      × (nf_policy (dropped (c ∷ name) rest) ≡ c ∷ name)
unfolding nf_action nf_policy first_group contains has_prefix
policy_dropped c name rest e h i k =
    let tail = (c ∷ name) ++ (codes "] " ++ rest) in
    let clean = λ (needle : Text).
      contains-Only tail needle
        (All-append (λ d. is_inner d ≡ true) (c ∷ name) (codes "] " ++ rest) i (refl, (refl, k))) in
    (
      refl,
      rw
          (
            clean (codes "NETFILTER-DROP-DOH]"),
            clean (codes "NETFILTER-DROP-DOT]"),
            found_dropped c name rest e h,
            first_group,
          )
          refl,
    )

abbrev pub not_blank : ℕ → Bool
not_blank c = not (c == b' ')

name_char-policy_char : (c : ℕ) → name_char c ≡ true → not_blank c ≡ true → policy_char c ≡ true
unfolding name_char alnum digit
name_char-policy_char c h k = ground arith

name_char-is_inner : (c : ℕ) → name_char c ≡ true → is_inner c ≡ true
unfolding name_char alnum digit
name_char-is_inner c h = ground arith

alnum-name_char : (c : ℕ) → alnum c ≡ true → name_char c ≡ true
unfolding name_char
alnum-name_char c h = ground arith

Only-policy_char : (s : Text) → Only name_char s → Only not_blank s → Only policy_char s
Only-policy_char [] h k = tt
Only-policy_char (c ∷ s) (e, h) (f, k) = (name_char-policy_char c e f, Only-policy_char s h k)

nf_policy-logged :
    (name rest : Text)
    → valid_policy_name name ≡ true
    → Only not_blank name
    → Only is_inner rest
    → ((nf_action (accepted name rest) ≡ codes "allowed") × (nf_policy (accepted name rest) ≡ name))
      × ((nf_action (dropped name rest) ≡ codes "blocked") × (nf_policy (dropped name rest) ≡ name))
nf_policy-logged [] rest v b k = absurd ((valid_policy_name_iff []).0 v)
nf_policy-logged (c ∷ name) rest v (f, b) k =
    let (first, more, short) = (valid_policy_name_iff (c ∷ name)).0 v in
    let begins = alnum-name_char c first in
    let e = name_char-policy_char c begins f in
    let h = Only-policy_char name more b in
    let i : Only is_inner (c ∷ name) =
      (name_char-is_inner c begins, All-mono name_char-is_inner name more) in
    (policy_accepted c name rest e h i k, policy_dropped c name rest e h i k)

-- What the kernel logs for the accepting or the dropping line of a policy's chain.
abbrev pub logged : Bool → Text → Text → Text
logged allowed name rest = if allowed then accepted name rest else dropped name rest

-- The last row of the table has these contents, and the others are those that were there.
abbrev pub IsLogged : Text → Text → Text → Text → Text → TrafficLog → TrafficLog → Type 0
IsLogged action policy src dst protocol s s' =
    (row : TrafficEntry) × (s'.query_log ≡ s.query_log ++ row ∷ [])
    × (row.action ≡ action)
    × (row.policy ≡ policy)
    × (row.src_ip ≡ src)
    × (row.dst_ip ≡ dst)
    × (row.protocol ≡ protocol)

parse_nf_line-row :
    (message src dst protocol : Text) (s : TrafficLog)
    → find_submatch nflog_re message ≡ some (src ∷ dst ∷ protocol ∷ [])
    → IsLogged (nf_action message) (nf_policy message) src dst protocol s (parse_nf_line message s)
unfolding parse_nf_line insert_entry
parse_nf_line-row message src dst protocol s e =
    rw (e, parse_nf_line) (_, refl, refl, refl, refl, refl, refl)

-- Of a message that starts with the log prefix of a policy's accepting or dropping line, whose
-- policy has a valid name without a blank, that has no opening bracket behind the prefix, and in
-- which nflogRe finds the addresses and the protocol, parseNfLine adds one row behind those of the
-- table, with the policy's name, with what was done with the packet, and with the addresses and the
-- protocol that were found.
pub parse_nf_line-logged :
    (allowed : Bool) (name rest src dst protocol : Text) (s : TrafficLog)
    → valid_policy_name name ≡ true
    → Only not_blank name
    → Only is_inner rest
    → find_submatch nflog_re (logged allowed name rest) ≡ some (src ∷ dst ∷ protocol ∷ [])
    → IsLogged
        (if allowed then codes "allowed" else codes "blocked")
        name
        src
        dst
        protocol
        s
        (parse_nf_line (logged allowed name rest) s)
parse_nf_line-logged true name rest src dst protocol s v b k e =
    let (action, policy) = (nf_policy-logged name rest v b k).0 in
    let (row, added, a, p, from, to, by) =
      parse_nf_line-row (accepted name rest) src dst protocol s e in
    (row, added, a ∙ action, p ∙ policy, from, to, by)
parse_nf_line-logged false name rest src dst protocol s v b k e =
    let (action, policy) = (nf_policy-logged name rest v b k).1 in
    let (row, added, a, p, from, to, by) =
      parse_nf_line-row (dropped name rest) src dst protocol s e in
    (row, added, a ∙ action, p ∙ policy, from, to, by)
