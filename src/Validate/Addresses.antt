-- ===== src/Validate/Addresses.antt =====
-- MAC addresses and port specifications.
use mathlib.Core.List.{append-nil}
use rpi_network_filter.Common.{
  ℕ, zero, suc, ◌≤◌, ◌≡◌, ◌≢◌, refl, sym, ap, subst, ◌∙◌, ◌↔◌, ◌⊎◌, inl, inr, true, ◌&&◌, List, [],
  ◌∷◌, ◌++◌, Text, codes, All, All-mono, length, arith,
}
use rpi_network_filter.Regexp.{class, char, seq, opt, exactly}
use rpi_network_filter.Regexp.Language.{Lang, match_string_iff}
use rpi_network_filter.Regexp.Classes.{Only, Lang-exactly_class, Lang-at_most_class}
use rpi_network_filter.Strings.{split, join, to_lower, tail_parts}
use rpi_network_filter.Strings.Splitting.{
  join-split, split_cons, split_first, split_of_lacks, join-eq-tail_parts,
}
use rpi_network_filter.Validate.{
  digit, hex, port_re, port_spec_re, mac_strict_re, valid_mac, valid_port_spec,
}

-- Two hexadecimal digits, in lower case.
abbrev pub IsOctet : Text → Type 0
IsOctet s = Only hex s × (length s ≡ 2)

hex-ne-colon : (c : ℕ) → hex c ≡ true → c ≢ b':'
unfolding hex digit
hex-ne-colon c h = ground arith

-- The parts behind colons: `(:[0-9a-f]{2}){n}`.
octets→ :
    (n : ℕ) (l s : Text)
    → IsOctet l
    → Lang (exactly n (seq (char b':') (exactly 2 (class hex)))) s
    → All IsOctet (split b':' (l ++ s)) × (length (split b':' (l ++ s)) ≡ suc n)
unfolding exactly char
octets→ zero l s h k =
    rw (k, append-nil, split_of_lacks b':' l (All-mono hex-ne-colon l h.0)) ((h, tt), refl)
octets→ (suc n) l s h (u, v, e, (x, y, f, (c, g, at_colon), hy), k) =
    let (hs, len) = octets→ n y v ((Lang-exactly_class hex 2 y).0 hy) k in
    rw (split_first b':' l y v (All-mono hex-ne-colon l h.0) e f g at_colon) ((h, hs), ap suc len)

→octets :
    (ps : List Text)
    → All IsOctet ps
    → Lang (exactly (length ps) (seq (char b':') (exactly 2 (class hex)))) (tail_parts b':' ps)
unfolding exactly char tail_parts
→octets [] h = refl
→octets (q ∷ qs) (h, hs) = (
  b':' ∷ q,
  tail_parts b':' qs,
  refl,
  (b':' ∷ [], q, refl, (b':', refl, refl), (Lang-exactly_class hex 2 q).1 h),
  →octets qs hs,
)

-- Six pairs of hexadecimal digits between colons.
abbrev pub IsMac : Text → Type 0
IsMac s = All IsOctet (split b':' s) × (length (split b':' s) ≡ 6)

mac→ : (s : Text) → Lang mac_strict_re s → IsMac s
unfolding mac_strict_re
mac→ s (u, v, e, h, k) = rw e (octets→ 5 u v ((Lang-exactly_class hex 2 u).0 h) k)

→mac : (s : Text) → IsMac s → Lang mac_strict_re s
unfolding mac_strict_re
→mac s (h, len) =
    let (p, ps, e) = split_cons b':' s in
    let octets : All IsOctet (p ∷ ps) = (rw e at h) in
    let five : length ps ≡ 5 = (let six : suc (length ps) ≡ 6 = (rw e at len) in omega arith) in
    let whole = sym (join-split b':' s) ∙ ap (join (b':' ∷ [])) e ∙ join-eq-tail_parts b':' p ps in
    (
      p,
      tail_parts b':' ps,
      whole,
      (Lang-exactly_class hex 2 p).1 octets.0,
      subst (λ n. Lang (exactly n (seq (char b':') (exactly 2 (class hex)))) (tail_parts b':' ps))
          five (→octets ps octets.1),
    )

-- ValidMAC accepts exactly the texts that are, in lower case, six pairs of hexadecimal digits
-- between colons.
pub valid_mac_iff : (s : Text) → (valid_mac s ≡ true) ↔ IsMac (to_lower s)
unfolding valid_mac
valid_mac_iff s = (
  λ h. mac→ (to_lower s) ((match_string_iff mac_strict_re (to_lower s)).0 h),
  λ h. (match_string_iff mac_strict_re (to_lower s)).1 (→mac (to_lower s) h),
)

-- One to five digits.
abbrev pub IsPort : Text → Type 0
IsPort s = Only digit s × (1 ≤ length s) × (length s ≤ 5)

digit-ne-hyphen : (c : ℕ) → digit c ≡ true → c ≢ b'-'
unfolding digit
digit-ne-hyphen c h = ground arith

port→ : (s : Text) → Lang port_re s → IsPort s
unfolding port_re
port→ s (u, v, e, (c, f, h), k) =
    let (only, len) = (Lang-at_most_class digit 4 v).0 k in
    rw (e, f) ((h, only), omega arith, omega arith)

→port : (s : Text) → IsPort s → Lang port_re s
unfolding port_re
→port [] h = absurd (omega arith)
→port (c ∷ s) ((h, only), _, len) =
    (c ∷ [], s, refl, (c, refl, h), (Lang-at_most_class digit 4 s).1 (only, omega arith))

-- A port, or two ports with a hyphen between them.
abbrev pub IsPortSpec : Text → Type 0
IsPortSpec s = All IsPort (split b'-' s) × (length (split b'-' s) ≤ 2)

port_spec→ : (s : Text) → Lang port_spec_re s → IsPortSpec s
unfolding port_spec_re opt char
port_spec→ s (u, v, e, h, inl k) =
    rw (e, k, append-nil, split_of_lacks b'-' u (All-mono digit-ne-hyphen u (port→ u h).0))
      ((port→ u h, tt), omega arith)
port_spec→ s (u, v, e, h, inr (x, y, f, (c, g, at_hyphen), hy)) =
    let hu = port→ u h in
    let p = port→ y hy in
    let one = split_of_lacks b'-' y (All-mono digit-ne-hyphen y p.0) in
    rw
      (
        e,
        split_first b'-' u y [] (All-mono digit-ne-hyphen u hu.0) (sym (append-nil v)) f g
            at_hyphen,
        append-nil,
        one,
      )
      ((hu, (p, tt)), omega arith)

→port_spec : (s : Text) → IsPortSpec s → Lang port_spec_re s
unfolding port_spec_re opt char tail_parts
→port_spec s (h, len) =
    let (p, ps, e) = split_cons b'-' s in
    let whole = sym (join-split b'-' s) ∙ ap (join (b'-' ∷ [])) e ∙ join-eq-tail_parts b'-' p ps in
    go p ps whole (rw e at h) (rw e at len)
  where
    go :
        (p : Text) (ps : List Text)
        → s ≡ p ++ tail_parts b'-' ps
        → All IsPort (p ∷ ps)
        → length (p ∷ ps) ≤ 2
        → Lang (seq port_re (opt (seq (char b'-') port_re))) s
    go p [] w k l = (p, [], w, →port p k.0, inl refl)
    go p (q ∷ []) w k l = (
      p,
      b'-' ∷ (q ++ []),
      w,
      →port p k.0,
      inr (b'-' ∷ [], q ++ [], refl, (b'-', refl, refl), rw append-nil (→port q k.1.0)),
    )
    go p (q ∷ r ∷ ps) w k l = absurd (omega arith)

-- ValidPortSpec accepts the empty text, and besides it exactly one port or two ports with a hyphen
-- between them, where a port is any one to five digits.
valid_port_spec_iff : (s : Text) → (valid_port_spec s ≡ true) ↔ ((s ≡ []) ⊎ IsPortSpec s)
unfolding valid_port_spec
valid_port_spec_iff [] = (λ h. inl refl, λ h. refl)
valid_port_spec_iff (c ∷ s) = (
  λ h. inr (port_spec→ (c ∷ s) ((match_string_iff port_spec_re (c ∷ s)).0 h)),
  λ h. elim h [
    | inl e ↦ cc
    | inr k ↦ (match_string_iff port_spec_re (c ∷ s)).1 (→port_spec (c ∷ s) k)
  ],
)

-- An accepted port need not lie between 1 and 65535.
out_of_range : valid_port_spec (codes "0") && valid_port_spec (codes "99999-0") ≡ true
unfolding valid_port_spec
out_of_range = refl
