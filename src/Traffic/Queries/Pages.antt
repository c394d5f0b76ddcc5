-- ===== src/Traffic/Queries/Pages.antt =====
-- internal/services/trafficlog.go: the pages of QueryPaginated.
use rpi_network_filter.Common.{
  ℕ, zero, suc, ◌+◌, ◌-◌, ◌*◌, ◌/◌, ◌≤◌, ◌<◌, ltb, ◌≡◌, refl, sym, ap, ◌∙◌, inl, inr, Bool-cases,
  List, [], ◌∷◌, ◌++◌, Text, length, take, drop, length-take, arith,
}
use native.Mathlib.Nat.{lt-div-mul-add}
use rpi_network_filter.Db.Sorting.{length-order_by}
use rpi_network_filter.Traffic.{TrafficEntry, TrafficLog}
use rpi_network_filter.Traffic.Queries.{
  TrafficFilter, clamp_per_page, page_count, clamp_page, newest_first, matching_rows,
  query_paginated,
}

take_same : {A : Type 0} → (m n : ℕ) (xs : List A) → m ≡ n → take m xs ≡ take n xs
take_same m n xs e = ap (λ k. take k xs) e

take_nil : {A : Type 0} → (n : ℕ) → take {A = A} n [] ≡ []
take_nil zero = refl
take_nil (suc n) = refl

take-add :
    {A : Type 0} → (m n : ℕ) (xs : List A) → take m xs ++ take n (drop m xs) ≡ take (m + n) xs
take-add zero n xs = take_same n (0 + n) xs (omega arith)
take-add (suc m) n [] = take_nil n ∙ sym (take_nil (suc m + n))
take-add (suc m) n (x ∷ xs) =
    ap (λ r. x ∷ r) (take-add m n xs) ∙ take_same (suc (m + n)) (suc m + n) (x ∷ xs) (omega arith)

take_all : {A : Type 0} → (n : ℕ) (xs : List A) → length xs ≤ n → take n xs ≡ xs
take_all zero [] h = refl
take_all zero (x ∷ xs) h = absurd (omega arith)
take_all (suc n) [] h = refl
take_all (suc n) (x ∷ xs) h = ap (λ r. x ∷ r) (take_all n xs (omega arith))

clamp_per_page-bounds : (n : ℕ) → (1 ≤ clamp_per_page n) × (clamp_per_page n ≤ 500)
unfolding clamp_per_page
clamp_per_page-bounds n = (ground arith, ground arith)

page_count-enough :
    (total per_page : ℕ) → 1 ≤ per_page → total ≤ page_count total per_page * per_page
unfolding page_count
page_count-enough total per_page h =
    let q = (total + per_page - 1) / per_page in
    let near : total + per_page - 1 < q * per_page + per_page = lt-div-mul-add (omega (arith, h)) in
    elim (Bool-cases (ltb q 1)) [
      | inl e ↦ rw e (
          let none_ : q ≡ 0 = ground arith in
          let gone = ap (λ n. n * per_page) none_ in omega (arith, near, gone))
      | inr e ↦ rw e (omega (arith, near))
    ]

page_count-positive : (total per_page : ℕ) → 1 ≤ page_count total per_page
unfolding page_count
page_count-positive total per_page = ground arith

clamp_page-bounds :
    (page pages : ℕ) → 1 ≤ pages → (1 ≤ clamp_page page pages) × (clamp_page page pages ≤ pages)
unfolding clamp_page
clamp_page-bounds page pages h = (ground arith, ground arith)

clamp_page-within : (page pages : ℕ) → 1 ≤ page → page ≤ pages → clamp_page page pages ≡ page
unfolding clamp_page
clamp_page-within page pages h k = ground arith

module _ (datetime : ℕ → Text) (f : TrafficFilter) (s : TrafficLog) where
  -- Whatever is asked for, the page that is shown is one of the pages, there is one at least, and it
  -- has at most the number of rows of a page, which is from 1 to 500.
  pub query_paginated-bounds :
      let r = query_paginated datetime f s in
      (1 ≤ r.page)
      × (r.page ≤ r.pages)
      × (1 ≤ r.per_page)
      × (r.per_page ≤ 500)
      × (length r.entries ≤ r.per_page)
  unfolding query_paginated
  query_paginated-bounds =
      let (low, high) = clamp_per_page-bounds f.per_page in
      let rows = matching_rows datetime f s in
      let pages = page_count (length rows) (clamp_per_page f.per_page) in
      let (first, last) =
        clamp_page-bounds f.page pages
          (page_count-positive (length rows) (clamp_per_page f.per_page)) in
      let size =
        length-take (clamp_per_page f.per_page)
          (drop ((clamp_page f.page pages - 1) * clamp_per_page f.per_page) (newest_first rows)) in
      (first, last, low, high, omega (arith, size))

  abbrev page_rows : ℕ → List TrafficEntry
  page_rows k = (query_paginated datetime (record f { page = k }) s).entries

  -- The rows of the first pages, one page behind the other.
  abbrev pub pages_up_to : ℕ → List TrafficEntry
  pages_up_to zero = []
  pages_up_to (suc k) = pages_up_to k ++ page_rows (suc k)

  abbrev size : ℕ
  size = clamp_per_page f.per_page

  abbrev sorted : List TrafficEntry
  sorted = newest_first (matching_rows datetime f s)

  abbrev count : ℕ
  count = page_count (length (matching_rows datetime f s)) size

  page_rows_lem : (k : ℕ) → suc k ≤ count → page_rows (suc k) ≡ take size (drop (k * size) sorted)
  unfolding query_paginated
  page_rows_lem k h =
      let at : clamp_page (suc k) count ≡ suc k = clamp_page-within (suc k) count (omega arith) h in
      let back : suc k - 1 ≡ k = omega arith in
      ap (λ n. take size (drop ((n - 1) * size) sorted)) at
      ∙ ap (λ n. take size (drop (n * size) sorted)) back

  pages_up_to-take : (k : ℕ) → k ≤ count → pages_up_to k ≡ take (k * size) sorted
  pages_up_to-take zero h = take_same 0 (0 * size) sorted (omega arith)
  pages_up_to-take (suc k) h =
      ap (λ r. r ++ page_rows (suc k)) (pages_up_to-take k (omega (arith, h)))
      ∙ ap (λ r. take (k * size) sorted ++ r) (page_rows_lem k h)
      ∙ take-add (k * size) size sorted
      ∙ take_same (k * size + size) (suc k * size) sorted (omega arith)

  -- The pages, from the first to the last, are all rows that match, the newest first: each row
  -- stands on exactly one page.
  pub pages_up_to-newest_first :
      pages_up_to (query_paginated datetime f s).pages ≡ newest_first (matching_rows datetime f s)
  unfolding query_paginated newest_first
  pages_up_to-newest_first =
      let rows = matching_rows datetime f s in
      let len : length sorted ≡ length rows = length-order_by (λ a b. ltb b.id a.id) rows in
      let enough = page_count-enough (length rows) size ((clamp_per_page-bounds f.per_page).0) in
      pages_up_to-take count (omega arith)
      ∙ take_all (count * size) sorted (omega (arith, len, enough))
