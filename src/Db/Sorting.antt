-- ===== src/Db/Sorting.antt =====
-- What ORDER BY keeps: the rows, how many they are, and that keys are unique.
use rpi_network_filter.Common.{
  suc, length, ◌≡◌, refl, ap, ◌∙◌, inl, inr, Bool, false, ◌||◌, Bool-cases, List, [], ◌∷◌, any, All,
  Unique, arith,
}
use rpi_network_filter.Db.{insert_by, order_by}

module _ {A : Type 0} (before : A → A → Bool) where
  length-insert_by : (x : A) (xs : List A) → length (insert_by before x xs) ≡ suc (length xs)
  unfolding insert_by
  length-insert_by x [] = refl
  length-insert_by x (y ∷ ys) = elim (Bool-cases (before y x)) [
    | inl e ↦ rw e (ap suc (length-insert_by x ys))
    | inr e ↦ rw e refl
  ]

  pub length-order_by : (xs : List A) → length (order_by before xs) ≡ length xs
  unfolding order_by
  length-order_by [] = refl
  length-order_by (x ∷ xs) = length-insert_by x (order_by before xs) ∙ ap suc (length-order_by xs)

  any-insert_by :
      (p : A → Bool) (x : A) (xs : List A) → any p (insert_by before x xs) ≡ p x || any p xs
  unfolding insert_by
  any-insert_by p x [] = refl
  any-insert_by p x (y ∷ ys) = ground (arith, any-insert_by p x ys)

  -- A test finds a row among the sorted ones exactly if it finds one among the rows.
  pub any-order_by : (p : A → Bool) (xs : List A) → any p (order_by before xs) ≡ any p xs
  unfolding order_by
  any-order_by p [] = refl
  any-order_by p (x ∷ xs) =
      any-insert_by p x (order_by before xs) ∙ ap (λ b. p x || b) (any-order_by p xs)

  module _ (P : A → Type 0) where
    All-insert_by : (x : A) (xs : List A) → P x → All P xs → All P (insert_by before x xs)
    unfolding insert_by
    All-insert_by x [] p h = (p, tt)
    All-insert_by x (y ∷ ys) p (q, h) = elim (Bool-cases (before y x)) [
      | inl e ↦ rw e (q, All-insert_by x ys p h)
      | inr e ↦ rw e (p, (q, h))
    ]

    pub All-order_by : (xs : List A) → All P xs → All P (order_by before xs)
    unfolding order_by
    All-order_by [] h = tt
    All-order_by (x ∷ xs) (p, h) = All-insert_by x (order_by before xs) p (All-order_by xs h)

  module _ (same : A → A → Bool) (same-sym : (x y : A) → same x y ≡ same y x) where
    Unique-insert_by :
        (x : A) (xs : List A)
        → any (same x) xs ≡ false
        → Unique same xs
        → Unique same (insert_by before x xs)
    unfolding insert_by
    Unique-insert_by x [] n u = (refl, tt)
    Unique-insert_by x (y ∷ ys) n (m, u) = elim (Bool-cases (before y x)) [
      | inl e ↦
          let fresh : any (same y) (insert_by before x ys) ≡ false =
            (let at = any-insert_by (same y) x ys in let s = same-sym x y in ground arith) in
          rw e (fresh, Unique-insert_by x ys (ground arith) u)
      | inr e ↦ rw e (n, (m, u))
    ]

    pub Unique-order_by : (xs : List A) → Unique same xs → Unique same (order_by before xs)
    unfolding order_by
    Unique-order_by [] u = tt
    Unique-order_by (x ∷ xs) (n, u) =
        Unique-insert_by x (order_by before xs) (any-order_by (same x) xs ∙ n)
          (Unique-order_by xs u)
