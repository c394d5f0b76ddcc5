-- ===== src/Common/Rows.antt =====
-- Tables as lists of rows: what INSERT, UPDATE and DELETE do to tests on all rows, to keys and to
-- counts.
use mathlib.Core.Path.{◌≡◌, refl, ap, ◌∙◌}
use mathlib.Core.Logic.{◌⊎◌, inl, inr}
use mathlib.Core.Bool.{Bool, true, false, ◌||◌}
use mathlib.Core.List.{List, [], ◌∷◌, ◌++◌}
use mathlib.Core.Option.{none, some}
use Prim.Native.Nat.{ℕ, ◌+◌}
use native.Mathlib.Omega.{arith}
use rpi_network_filter.Common.Tests.{if◌then◌else◌, Bool-cases}
use rpi_network_filter.Common.Lists.{All, In, any, keep, find, update_where}

module _ {A : Type 0} where
  -- How many rows satisfy a test: `COUNT(*) … WHERE`.
  abbrev pub count_where : (A → Bool) → List A → ℕ
  count_where p [] = 0
  count_where p (x ∷ xs) = (if p x then 1 else 0) + count_where p xs

  pub count_where-append :
      (p : A → Bool) (xs ys : List A)
      → count_where p (xs ++ ys) ≡ count_where p xs + count_where p ys
  count_where-append p [] ys = omega arith
  count_where-append p (x ∷ xs) ys = omega (arith, count_where-append p xs ys)

  pub count_where-update :
      (p q : A → Bool) (f : A → A) (xs : List A)
      → ((x : A) → p (f x) ≡ p x)
      → count_where p (update_where q f xs) ≡ count_where p xs
  count_where-update p q f [] h = refl
  count_where-update p q f (x ∷ xs) h = ground (arith, h x, count_where-update p q f xs h)

  -- A test that fails on every row that goes keeps its count.
  pub count_where-keep :
      (p q : A → Bool) (xs : List A)
      → All (λ x. (q x ≡ true) ⊎ (p x ≡ false)) xs
      → count_where p (keep q xs) ≡ count_where p xs
  count_where-keep p q [] h = refl
  count_where-keep p q (x ∷ xs) (h, hs) = ground (arith, count_where-keep p q xs hs)

  module _ (P : A → Type 0) where
    pub All-keep : (q : A → Bool) (xs : List A) → All P xs → All P (keep q xs)
    All-keep q [] h = tt
    All-keep q (x ∷ xs) (p, h) = elim (Bool-cases (q x)) [
      | inl e ↦ rw e (p, All-keep q xs h)
      | inr e ↦ rw e (All-keep q xs h)
    ]

    pub All-update :
        (q : A → Bool) (f : A → A) (xs : List A)
        → ((x : A) → P x → P (f x))
        → All P xs
        → All P (update_where q f xs)
    All-update q f [] h k = tt
    All-update q f (x ∷ xs) h (p, k) = elim (Bool-cases (q x)) [
      | inl e ↦ rw e (h x p, All-update q f xs h k)
      | inr e ↦ rw e (p, All-update q f xs h k)
    ]

    -- The rows that are left satisfy what they satisfied, and the test.
    pub All-keep_test :
        (q : A → Bool) (xs : List A) → All P xs → All (λ x. P x × (q x ≡ true)) (keep q xs)
    All-keep_test q [] h = tt
    All-keep_test q (x ∷ xs) (p, h) = elim (Bool-cases (q x)) [
      | inl e ↦ rw e ((p, e), All-keep_test q xs h)
      | inr e ↦ rw e (All-keep_test q xs h)
    ]

  pub any-append_left : (p : A → Bool) (xs ys : List A) → any p xs ≡ true → any p (xs ++ ys) ≡ true
  any-append_left p [] ys h = cc
  any-append_left p (x ∷ xs) ys h = ground (arith, any-append_left p xs ys)

  pub any-append : (p : A → Bool) (xs ys : List A) → any p (xs ++ ys) ≡ any p xs || any p ys
  any-append p [] ys = refl
  any-append p (x ∷ xs) ys = ground (arith, any-append p xs ys)

  pub any-update :
      (p q : A → Bool) (f : A → A) (xs : List A)
      → ((x : A) → p (f x) ≡ p x)
      → any p (update_where q f xs) ≡ any p xs
  any-update p q f [] h = refl
  any-update p q f (x ∷ xs) h = ground (arith, h x, any-update p q f xs h)

  -- A row that is kept can still be found.
  pub any-keep :
      (p q : A → Bool) (xs : List A)
      → ((x : A) → p x ≡ true → q x ≡ true)
      → any p (keep q xs) ≡ any p xs
  any-keep p q [] h = refl
  any-keep p q (x ∷ xs) h = ground (arith, h x, any-keep p q xs h)

  pub find-some : (p : A → Bool) (xs : List A) (x : A) → find p xs ≡ some x → (p x ≡ true) × In x xs
  find-some p [] x h = cc
  find-some p (y ∷ ys) x h = elim (Bool-cases (p y)) [
    | inl e ↦
        let same : some y ≡ some x = (rw e at h) in let eq : y ≡ x = cc same in (rw eq at e, inl eq)
    | inr e ↦ let (g, m) = find-some p ys x (rw e at h) in (g, inr m)
  ]

  -- The first row that an update reaches.
  pub find-update :
      (p : A → Bool) (f : A → A) (xs : List A) (x : A)
      → find p xs ≡ some x
      → In (f x) (update_where p f xs)
  find-update p f [] x h = cc
  find-update p f (y ∷ ys) x h = elim (Bool-cases (p y)) [
    | inl e ↦
        let same : some y ≡ some x = (rw e at h) in let eq : y ≡ x = cc same in inl (rw e (ap f eq))
    | inr e ↦ inr (find-update p f ys x (rw e at h))
  ]

  pub find-none : (p : A → Bool) (xs : List A) → find p xs ≡ none → any p xs ≡ false
  find-none p [] h = refl
  find-none p (y ∷ ys) h = elim (Bool-cases (p y)) [
    | inl e ↦ let bad : some y ≡ none = (rw e at h) in cc bad
    | inr e ↦ rw e (find-none p ys (rw e at h))
  ]

  pub none_of_any : (p : A → Bool) (xs : List A) → any p xs ≡ false → find p xs ≡ none
  none_of_any p [] h = refl
  none_of_any p (y ∷ ys) h = ground (arith, none_of_any p ys)

  -- No two rows have the same key, by a test of equal keys.
  abbrev pub Unique : (A → A → Bool) → List A → Type 0
  Unique same [] = Unit
  Unique same (x ∷ xs) = (any (same x) xs ≡ false) × Unique same xs

  pub any-false-keep : (p q : A → Bool) (xs : List A) → any p xs ≡ false → any p (keep q xs) ≡ false
  any-false-keep p q [] h = refl
  any-false-keep p q (x ∷ xs) h = ground (arith, any-false-keep p q xs)

  pub Unique-keep :
      (same : A → A → Bool) (q : A → Bool) (xs : List A) → Unique same xs → Unique same (keep q xs)
  Unique-keep same q [] h = tt
  Unique-keep same q (x ∷ xs) (n, h) = elim (Bool-cases (q x)) [
    | inl e ↦ rw e (any-false-keep (same x) q xs n, Unique-keep same q xs h)
    | inr e ↦ rw e (Unique-keep same q xs h)
  ]

  -- An update that leaves the key alone.
  pub Unique-update :
      (same : A → A → Bool) (q : A → Bool) (f : A → A) (xs : List A)
      → ((x y : A) → same x (f y) ≡ same x y)
      → ((x y : A) → same (f x) y ≡ same x y)
      → Unique same xs
      → Unique same (update_where q f xs)
  Unique-update same q f [] h k u = tt
  Unique-update same q f (x ∷ xs) h k (n, u) =
      let rest = any-update (same x) q f xs (h x) ∙ n in
      let rest' = any-update (same (f x)) q f xs (h (f x)) ∙ any_of_same x xs ∙ n in
      elim (Bool-cases (q x)) [
        | inl e ↦ rw e (rest', Unique-update same q f xs h k u)
        | inr e ↦ rw e (rest, Unique-update same q f xs h k u)
      ]
    where
      any_of_same : (x : A) (ys : List A) → any (same (f x)) ys ≡ any (same x) ys
      any_of_same x [] = refl
      any_of_same x (y ∷ ys) = ground (arith, k x y, any_of_same x ys)

  pub Unique-snoc :
      (same : A → A → Bool) (xs : List A) (y : A)
      → Unique same xs
      → any (λ x. same x y) xs ≡ false
      → Unique same (xs ++ y ∷ [])
  Unique-snoc same [] y u n = (refl, tt)
  Unique-snoc same (x ∷ xs) y (m, u) n =
      (ground (arith, any-append (same x) xs (y ∷ [])), Unique-snoc same xs y u (ground arith))

  pub update_where_none :
      (q : A → Bool) (f : A → A) (xs : List A) → any q xs ≡ false → update_where q f xs ≡ xs
  update_where_none q f [] h = refl
  update_where_none q f (x ∷ xs) h = ground (arith, update_where_none q f xs)

  pub any_false→All : (p : A → Bool) (xs : List A) → any p xs ≡ false → All (λ x. p x ≡ false) xs
  any_false→All p [] h = tt
  any_false→All p (x ∷ xs) h = (ground arith, any_false→All p xs (ground arith))

  pub All→any_false : (p : A → Bool) (xs : List A) → All (λ x. p x ≡ false) xs → any p xs ≡ false
  All→any_false p [] h = refl
  All→any_false p (x ∷ xs) (e, h) = ground (arith, All→any_false p xs h)
