-- ===== src/Http/Pagination.antt =====
-- Pages of a list: backend-services/api/src/http/pagination.ts, and the `skip` and `take` of the queries.
use at_nova_platform.Prelude.{
  ℕ, zero, suc, ◌+◌, ◌-◌, ◌*◌, ◌/◌, ◌≤◌, ◌<◌, ◌≡◌, refl, sym, ap, ◌∙◌, List, [], ◌∷◌, ◌++◌, arith,
  length, take, drop, ltb, if◌then◌else◌, take-append-drop,
}

-- The schemas of the routes make both positive.
pub record PageRequest : Type 0 where
  pub page : ℕ
  pub page_size : ℕ

pub record PaginatedResult (T : Type 0) : Type 0 where
  pub items : List T
  pub page : ℕ
  pub page_size : ℕ
  pub total : ℕ
  pub total_pages : ℕ

-- `Math.max(1, Math.ceil(total / pageSize))`
abbrev pub pages_of : (total page_size : ℕ) → ℕ
pages_of total page_size =
    let pages = (total + page_size - 1) / page_size in if ltb 1 pages then pages else 1

pages_cover : (total page_size : ℕ) → 1 ≤ page_size → total ≤ pages_of total page_size * page_size
pages_cover total page_size h = grind arith

-- No page but the first is beyond the rows.
pub pages_tight :
    (total page_size : ℕ)
    → 1 ≤ page_size
    → 1 < pages_of total page_size
    → (pages_of total page_size - 1) * page_size < total
pages_tight total page_size h many = grind arith

suc_plus : (n m : ℕ) → suc n + m ≡ suc (n + m)
suc_plus n m = omega arith

plus_minus : (n : ℕ) → n + 1 - 1 ≡ n
plus_minus n = omega arith

next_page : (n size : ℕ) → (n + 1) * size ≡ n * size + size
next_page n size = grind arith

module _ {T : Type 0} where
  unfoldable pub build_paginated_result : List T → ℕ → PageRequest → PaginatedResult T
  build_paginated_result items total request = record {
    items = items;
    page = request.page;
    page_size = request.page_size;
    total = total;
    total_pages = pages_of total request.page_size;
  }

  -- `.skip((page - 1) * pageSize).take(pageSize)`
  abbrev pub page_slice : PageRequest → List T → List T
  page_slice request rows =
      take request.page_size (drop ((request.page - 1) * request.page_size) rows)

  -- The rows of a page and the number of all rows, as `getManyAndCount` returns them.
  abbrev pub paginate : List T → PageRequest → PaginatedResult T
  paginate rows request = build_paginated_result (page_slice request rows) (length rows) request

  -- A client's reading: the items of `count` pages from `page` on, joined.
  abbrev pub read_pages : List T → (count page page_size : ℕ) → List T
  read_pages rows zero page page_size = []
  read_pages rows (suc count) page page_size =
      (paginate rows (record { page = page; page_size = page_size })).items
      ++ read_pages rows count (page + 1) page_size

  drop_all : (n : ℕ) (xs : List T) → length xs ≤ n → drop n xs ≡ []
  drop_all zero [] h = refl
  drop_all zero (x ∷ xs) h = absurd (omega (arith, h))
  drop_all (suc n) [] h = refl
  drop_all (suc n) (x ∷ xs) h = drop_all n xs (omega (arith, h))

  drop_nil : (n : ℕ) → drop {A = T} n [] ≡ []
  drop_nil zero = refl
  drop_nil (suc n) = refl

  drop-drop : (m n : ℕ) (xs : List T) → drop m (drop n xs) ≡ drop (n + m) xs
  drop-drop m zero xs = ap (λ k. drop k xs) (omega arith)
  drop-drop m (suc n) [] = drop_nil m ∙ sym (drop_nil (suc n + m))
  drop-drop m (suc n) (x ∷ xs) = drop-drop m n xs ∙ ap (λ k. drop k (x ∷ xs)) (sym (suc_plus n m))

  -- From the page behind `done` pages on, enough pages show all that is left.
  read_pages_from :
      (rows : List T) (count done size : ℕ)
      → length rows ≤ (done + count) * size
      → read_pages rows count (done + 1) size ≡ drop (done * size) rows
  unfolding build_paginated_result
  read_pages_from rows zero done size h = sym (drop_all (done * size) rows (omega (arith, h)))
  read_pages_from rows (suc count) done size h =
      let left = drop (done * size) rows in
      rw
        (
          plus_minus done,
          read_pages_from rows count (done + 1) size (grind (arith, h)),
          next_page done size,
          ← drop-drop size (done * size) rows,
        )
        (take-append-drop size left)

  -- Reading every page that the first answer counts shows each row once, in order.
  pub read_pages-all :
      (rows : List T) (size : ℕ)
      → 1 ≤ size
      → read_pages rows (paginate rows (record { page = 1; page_size = size })).total_pages 1 size
        ≡ rows
  unfolding build_paginated_result
  read_pages-all rows size h =
      let count = pages_of (length rows) size in
      let none_done : 0 * size ≡ 0 = omega arith in
      read_pages_from rows count 0 size (omega (arith, pages_cover (length rows) size h))
      ∙ ap (λ n. drop n rows) none_done
