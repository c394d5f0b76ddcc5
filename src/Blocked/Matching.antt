-- ===== src/Blocked/Matching.antt =====
-- What the block list covers: a row's domain, and all that lies under it.
use rpi_network_filter.Common.{
  ◌≡◌, ◌≢◌, refl, sym, ap, ◌∙◌, subst, keep-true, keep-false, ◌↔◌, ◌⊎◌, inl, inr, Bool, true, false,
  ◌||◌, Bool-cases, none, some, List, [], ◌∷◌, ◌++◌, Text, codes, text_eq, text_eq_iff,
  text_eq_of_eq, eq_of_text_eq, ||_iff, Any, keep,
}
use rpi_network_filter.Strings.{has_suffix, is_nil, is_nil_iff, split, join}
use rpi_network_filter.Strings.Splitting.{
  has_suffix_iff, split-append, join-split, join-append, split_cons,
}
use rpi_network_filter.Models.{BlockedDomain}
use rpi_network_filter.Db.{Db, BlockMatch}
use rpi_network_filter.Blocked.{normalize_domain, row_blocks, first_match, is_blocked}

-- The labels of `b` are the last labels of `c`: `c` is `b` or lies under it.
abbrev pub IsUnder : Text → Text → Type 0
IsUnder c b = (pre : List Text) × (split b'.' c ≡ pre ++ split b'.' b)

under→ : (c b : Text) → IsUnder c b → (c ≡ b) ⊎ (has_suffix c (b'.' ∷ b) ≡ true)
under→ c b ([], e) = inl (sym (join-split b'.' c) ∙ ap (join (b'.' ∷ [])) e ∙ join-split b'.' b)
under→ c b (p ∷ ps, e) =
    let (q, qs, f) = split_cons b'.' b in
    let whole : c ≡ join (b'.' ∷ []) (p ∷ ps) ++ (b'.' ∷ b) =
      sym (join-split b'.' c)
      ∙ ap (join (b'.' ∷ [])) (e ∙ ap (λ r. (p ∷ ps) ++ r) f)
      ∙ join-append (b'.' ∷ []) p ps qs q
      ∙ ap (λ r. join (b'.' ∷ []) (p ∷ ps) ++ (b'.' ∷ r))
          (ap (join (b'.' ∷ [])) (sym f) ∙ join-split b'.' b) in
    inr ((has_suffix_iff c (b'.' ∷ b)).1 (join (b'.' ∷ []) (p ∷ ps), whole))

→under : (c b : Text) → (c ≡ b) ⊎ (has_suffix c (b'.' ∷ b) ≡ true) → IsUnder c b
→under c b (inl e) = ([], ap (split b'.') e)
→under c b (inr h) =
    let (u, e) = (has_suffix_iff c (b'.' ∷ b)).0 h in
    (split b'.' u, ap (split b'.') e ∙ split-append b'.' u b)

-- A row covers a normalised domain: it is enabled, its own domain is valid, and the two are equal
-- or, unless the row is an exact one, the domain lies under the row's.
abbrev pub Covers : Text → BlockedDomain → Type 0
Covers c m =
    (m.enabled ≡ true)
    × (normalize_domain m.domain ≢ [])
    × ((c ≡ normalize_domain m.domain)
        ⊎ ((m.match_type ≢ codes "exact") × IsUnder c (normalize_domain m.domain)))

abbrev Blocks : Text → BlockedDomain → Type 0
Blocks c m =
    (normalize_domain m.domain ≢ [])
    × ((c ≡ normalize_domain m.domain)
        ⊎ ((m.match_type ≢ codes "exact") × IsUnder c (normalize_domain m.domain)))

module _ (c : Text) (m : BlockedDomain) where
  same : Bool
  same = text_eq c (normalize_domain m.domain)

  below : Bool
  below = has_suffix c (b'.' ∷ normalize_domain m.domain)

  row_blocks-exact :
      is_nil (normalize_domain m.domain) ≡ false
      → text_eq m.match_type (codes "exact") ≡ true
      → row_blocks c m ≡ same
  unfolding row_blocks same
  row_blocks-exact e f = rw (e, f)

  row_blocks-suffix :
      is_nil (normalize_domain m.domain) ≡ false
      → text_eq m.match_type (codes "exact") ≡ false
      → row_blocks c m ≡ same || below
  unfolding row_blocks same below
  row_blocks-suffix e f = rw (e, f)

  row_blocks-nil : is_nil (normalize_domain m.domain) ≡ true → row_blocks c m ≡ false
  unfolding row_blocks
  row_blocks-nil e = rw e

  same_iff : (same ≡ true) ↔ (c ≡ normalize_domain m.domain)
  unfolding same
  same_iff = text_eq_iff c (normalize_domain m.domain)

  below_iff :
      (same || below ≡ true)
      ↔ ((c ≡ normalize_domain m.domain) ⊎ (has_suffix c (b'.' ∷ normalize_domain m.domain) ≡ true))
  unfolding below
  below_iff = (
    λ h. elim ((||_iff same below).0 h) [ inl e ↦ inl (same_iff.0 e) | inr e ↦ inr e ],
    λ h. (||_iff same below).1 (elim h [ inl e ↦ inl (same_iff.1 e) | inr e ↦ inr e ]),
  )

  row_blocks→ : row_blocks c m ≡ true → Blocks c m
  row_blocks→ h = elim (Bool-cases (is_nil (normalize_domain m.domain))) [
    | inl e ↦ cc (row_blocks-nil e)
    | inr e ↦ (
      λ z. cc (e, (is_nil_iff (normalize_domain m.domain)).1 z),
      elim (Bool-cases (text_eq m.match_type (codes "exact"))) [
        | inl f ↦ inl (same_iff.0 (cc (row_blocks-exact e f)))
        | inr f ↦ elim (below_iff.0 (cc (row_blocks-suffix e f))) [
          | inl k ↦ inl k
          | inr k ↦ inr (
            λ z. cc (f, text_eq_of_eq m.match_type (codes "exact") z),
            →under c (normalize_domain m.domain) (inr k),
          )
        ]
      ],
    )
  ]

  →row-Blocks : Blocks c m → row_blocks c m ≡ true
  →row-Blocks (nonempty, covers) = elim (Bool-cases (is_nil (normalize_domain m.domain))) [
    | inl e ↦ absurd (nonempty ((is_nil_iff (normalize_domain m.domain)).0 e))
    | inr e ↦ elim (Bool-cases (text_eq m.match_type (codes "exact"))) [
      | inl f ↦
          row_blocks-exact e f
          ∙ same_iff.1 (elim covers [
            | inl k ↦ k
            | inr (g, k) ↦ absurd (g (eq_of_text_eq m.match_type (codes "exact") f))
          ])
      | inr f ↦
          row_blocks-suffix e f
          ∙ below_iff.1
              (elim covers [ inl k ↦ inl k | inr (g, k) ↦ under→ c (normalize_domain m.domain) k ])
    ]
  ]

first_match→ :
    (c : Text) (rows : List BlockedDomain)
    → first_match c (keep (λ d. d.enabled) rows) ≢ none
    → Any (Covers c) rows
unfolding first_match
first_match→ c [] h = absurd (h refl)
first_match→ c (m ∷ rows) h = elim (Bool-cases m.enabled) [
  | inr e ↦ inr (first_match→ c rows (rw e at h))
  | inl e ↦
      let k : first_match c (m ∷ keep (λ d. d.enabled) rows) ≢ none =
        subst (λ l. first_match c l ≢ none) (keep-true (λ d. d.enabled) m rows e) h in
      elim (Bool-cases (row_blocks c m)) [
        | inl f ↦ let b = row_blocks→ c m f in inl (e, b.0, b.1)
        | inr f ↦ inr (first_match→ c rows (rw f at k))
      ]
]

found : BlockedDomain → BlockMatch
found m = record { domain = m.domain; match_type = m.match_type; reason = m.reason }

first_match_hit :
    (c : Text) (m : BlockedDomain) (rows : List BlockedDomain)
    → row_blocks c m ≡ true
    → first_match c (m ∷ rows) ≡ some (found m)
unfolding first_match found
first_match_hit c m rows e = rw e

first_match_miss :
    (c : Text) (m : BlockedDomain) (rows : List BlockedDomain)
    → row_blocks c m ≡ false
    → first_match c (m ∷ rows) ≡ first_match c rows
unfolding first_match
first_match_miss c m rows e = rw e

→first_match :
    (c : Text) (rows : List BlockedDomain)
    → Any (Covers c) rows
    → first_match c (keep (λ d. d.enabled) rows) ≢ none
→first_match c [] h z = absurd h
→first_match c (m ∷ rows) (inl (e, h, k)) z = cc (
  z,
  ap (first_match c) (keep-true (λ d. d.enabled) m rows e),
  first_match_hit c m (keep (λ d. d.enabled) rows) (→row-Blocks c m (h, k)),
)
→first_match c (m ∷ rows) (inr h) z =
    let hits = →first_match c rows h in
    let rest = keep (λ d. d.enabled) rows in
    elim (Bool-cases m.enabled) [
      | inr e ↦ hits (sym (ap (first_match c) (keep-false (λ d. d.enabled) m rows e)) ∙ z)
      | inl e ↦
          let z' = sym (ap (first_match c) (keep-true (λ d. d.enabled) m rows e)) ∙ z in
          elim (Bool-cases (row_blocks c m)) [
            | inl f ↦ cc (z', first_match_hit c m rest f)
            | inr f ↦ hits (sym (first_match_miss c m rest f) ∙ z')
          ]
    ]

-- IsBlocked finds a match exactly if the domain has a normal form and some row covers it: an
-- enabled row with a valid domain that is equal to the normal form or, unless the row is an exact
-- one, whose labels are its last labels.
pub is_blocked_iff :
    (s : Db) (domain : Text)
    → (is_blocked s domain ≢ none)
      ↔ ((normalize_domain domain ≢ []) × Any (Covers (normalize_domain domain)) s.blocked_domains)
unfolding is_blocked
is_blocked_iff s domain = elim (Bool-cases (is_nil (normalize_domain domain))) [
  | inl e ↦ (λ h. absurd (h (rw e)), λ h. absurd (h.0 ((is_nil_iff (normalize_domain domain)).0 e)))
  | inr e ↦ (
    λ h. (
      λ z. cc (e, (is_nil_iff (normalize_domain domain)).1 z),
      first_match→ (normalize_domain domain) s.blocked_domains (rw e at h),
    ),
    λ h. rw e (→first_match (normalize_domain domain) s.blocked_domains h.1),
  )
]
