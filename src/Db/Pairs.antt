-- ===== src/Db/Pairs.antt =====
-- The tables settings and kv_store: pairs of a key and a value, one for each key.
use rpi_network_filter.Common.{
  ◌≡◌, refl, sym, ap, ◌∙◌, inl, inr, Bool, true, false, Bool-cases, List, [], ◌∷◌, ◌++◌, Text,
  text_eq, text_eq_iff, any, find, none, some, Option, update_where, if◌then◌else◌, arith,
}
use rpi_network_filter.Models.{Setting}

-- INSERT … ON CONFLICT(key) DO UPDATE SET value
unfoldable pub put_setting : Setting → List Setting → List Setting
unfolding text_eq
put_setting r rows =
    if any (λ q. text_eq q.key r.key) rows
    then update_where (λ q. text_eq q.key r.key) (λ q. record q { value = r.value }) rows
    else rows ++ r ∷ []

abbrev pub value_or : Option Setting → Text → Text
value_or none fallback = fallback
value_or (some r) fallback = r.value

-- The value of a key, or another one without a row.
abbrev pub value : List Setting → Text → Text → Text
value rows key fallback = value_or (find (λ r. text_eq r.key key) rows) fallback

module _ (r : Setting) (key fallback : Text) where
  abbrev same_key : Setting → Bool
  same_key q = text_eq q.key r.key

  abbrev change : Setting → Setting
  change q = record q { value = r.value }

  update-value :
      (rows : List Setting)
      → text_eq r.key key ≡ true
      → any same_key rows ≡ true
      → value (update_where same_key change rows) key fallback ≡ r.value
  update-value [] e h = absurd (cc h)
  update-value (q ∷ rows) e h = elim (Bool-cases (same_key q)) [
    | inl f ↦
        let named : text_eq q.key key ≡ true =
          (ap (λ k. text_eq k key) ((text_eq_iff q.key r.key).0 f) ∙ e) in
        rw f (rw named refl)
    | inr f ↦
        let other : text_eq q.key key ≡ false =
          (ap (λ k. text_eq q.key k) (sym ((text_eq_iff r.key key).0 e)) ∙ f) in
        rw f (rw other (update-value rows e (ground arith)))
  ]

  update-value_other :
      (rows : List Setting)
      → text_eq r.key key ≡ false
      → value (update_where same_key change rows) key fallback ≡ value rows key fallback
  update-value_other [] e = refl
  update-value_other (q ∷ rows) e = elim (Bool-cases (same_key q)) [
    | inl f ↦
        let other : text_eq q.key key ≡ false =
          (ap (λ k. text_eq k key) ((text_eq_iff q.key r.key).0 f) ∙ e) in
        rw f (rw other (update-value_other rows e))
    | inr f ↦ elim (Bool-cases (text_eq q.key key)) [
      | inl g ↦ rw f (rw g refl)
      | inr g ↦ rw f (rw g (update-value_other rows e))
    ]
  ]

  append-value :
      (rows : List Setting)
      → text_eq r.key key ≡ true
      → any same_key rows ≡ false
      → value (rows ++ r ∷ []) key fallback ≡ r.value
  append-value [] e h = rw e refl
  append-value (q ∷ rows) e h =
      let apart : same_key q ≡ false = ground arith in
      let other : text_eq q.key key ≡ false =
        (ap (λ k. text_eq q.key k) (sym ((text_eq_iff r.key key).0 e)) ∙ apart) in
      rw other (append-value rows e (ground arith))

  append-value_other :
      (rows : List Setting)
      → text_eq r.key key ≡ false
      → value (rows ++ r ∷ []) key fallback ≡ value rows key fallback
  append-value_other [] e = rw e refl
  append-value_other (q ∷ rows) e = elim (Bool-cases (text_eq q.key key)) [
    | inl g ↦ rw g refl
    | inr g ↦ rw g (append-value_other rows e)
  ]

  -- Behind the statement the key has the value, and the other keys have theirs.
  pub put_setting-value :
      (rows : List Setting)
      → value (put_setting r rows) key fallback
        ≡ (if text_eq r.key key then r.value else value rows key fallback)
  unfolding put_setting
  put_setting-value rows = elim (Bool-cases (any same_key rows)) [
    | inl h ↦ elim (Bool-cases (text_eq r.key key)) [
      | inl e ↦ rw (h, e) (update-value rows e h)
      | inr e ↦ rw (h, e) (update-value_other rows e)
    ]
    | inr h ↦ elim (Bool-cases (text_eq r.key key)) [
      | inl e ↦ rw (h, e) (append-value rows e h)
      | inr e ↦ rw (h, e) (append-value_other rows e)
    ]
  ]
