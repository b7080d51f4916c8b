-- ===== src/Limits/Budget.antt =====
-- The loop of `capResultBytes` (limits.ts).
use at_nova_platform.Prelude.{
  ℕ, zero, suc, ◌+◌, ◌/◌, ◌≤◌, ◌<◌, ◌≡◌, refl, ap, ◌≢◌, ◌↔◌, ◌⊎◌, inl, inr, Bool, true, false, List,
  [], ◌∷◌, none, some, arith, length, take, Bool-cases,
}
use at_nova_platform.Limits.{RowCapResult, over_budget, halve, cap_from, cap_result_bytes}

module _ {A : Type 0} where
  pub take-take : (m n : ℕ) (xs : List A) → m ≤ n → take m (take n xs) ≡ take m xs
  take-take zero n xs h = refl
  take-take (suc m) zero xs h = absurd (omega arith)
  take-take (suc m) (suc n) [] h = refl
  take-take (suc m) (suc n) (x ∷ xs) h = ap (λ t. x ∷ t) (take-take m n xs (omega arith))

  pub take-length : (xs : List A) → take (length xs) xs ≡ xs
  take-length [] = refl
  take-length (x ∷ xs) = ap (λ t. x ∷ t) (take-length xs)

  pub length-take-le : (n : ℕ) (xs : List A) → n ≤ length xs → length (take n xs) ≡ n
  length-take-le zero xs h = refl
  length-take-le (suc n) [] h = absurd (omega arith)
  length-take-le (suc n) (x ∷ xs) h = ap suc (length-take-le n xs (omega arith))

module _ {Row : Type 0} (bytes : List Row → ℕ) where
  -- A serialised prefix is no longer than the whole: what is assumed of `JSON.stringify` here.
  abbrev pub GrowsWithRows : Type 0
  GrowsWithRows =
      (rows : List Row) (m n : ℕ)
      → m ≤ n
      → n ≤ length rows
      → bytes (take m rows) ≤ bytes (take n rows)

module _ {Row : Type 0} (bytes : List Row → ℕ) (max_bytes : ℕ) where
  -- A result is a prefix of the rows, within the budget or empty, and marked when it was cut.
  pub record IsCapped (rows : List Row) (r : RowCapResult Row) : Type 0 where
    pub kept : ℕ
    pub kept-le : kept ≤ length rows
    pub is_prefix : r.rows ≡ take kept rows
    pub fits : (r.rows ≡ []) ⊎ (bytes r.rows ≤ max_bytes)
    pub marked : (r.truncated ≡ true) ↔ (kept < length rows)

  fits_of_guard :
      (kept : List Row)
      → over_budget bytes max_bytes kept ≡ false
      → (kept ≡ []) ⊎ (bytes kept ≤ max_bytes)
  fits_of_guard [] h = inl refl
  fits_of_guard (x ∷ kept) h = inr (ground arith)

  guard_true :
      (kept : List Row)
      → over_budget bytes max_bytes kept ≡ true
      → (0 < length kept) × (max_bytes < bytes kept)
  guard_true [] h = cc
  guard_true (x ∷ kept) h = (omega arith, ground arith)

  halve-take :
      (n : ℕ) (rows : List Row)
      → n ≤ length rows
      → halve bytes max_bytes (take n rows) ≡ take ((n + 1) / 2) rows
  halve-take n rows le =
      rw (length-take-le n rows le) (take-take ((n + 1) / 2) n rows (omega-half n))
    where
      omega-half : (n : ℕ) → (n + 1) / 2 ≤ n
      omega-half n = omega arith

  -- A prefix of one row that fits is not over the budget.
  two_of_guard :
      (n : ℕ) (rows : List Row)
      → n ≤ length rows
      → bytes (take 1 rows) ≤ max_bytes
      → over_budget bytes max_bytes (take n rows) ≡ true
      → 2 ≤ n
  two_of_guard zero rows le one over = cc
  two_of_guard (suc zero) rows le one over =
      absurd (omega (arith, (guard_true (take 1 rows) over).1))
  two_of_guard (suc (suc n)) rows le one over = omega arith

  -- From a prefix of `n` rows the loop ends within `n + 1` rounds.
  cap_from_total :
      (fuel n : ℕ) (rows : List Row) (cut : Bool)
      → n ≤ length rows
      → n < fuel
      → bytes (take 1 rows) ≤ max_bytes
      → ((cut ≡ true) ↔ (n < length rows))
      → (r : RowCapResult Row) × (cap_from bytes max_bytes fuel (take n rows) cut ≡ some r)
        × IsCapped rows r
  unfolding cap_from
  cap_from_total zero n rows cut le enough one mark = absurd (omega arith)
  cap_from_total (suc fuel) n rows cut le enough one mark =
      elim (Bool-cases (over_budget bytes max_bytes (take n rows))) [
        | inl over ↦
            let two = two_of_guard n rows le one over in
            let (r, e, capped) =
              cap_from_total fuel ((n + 1) / 2) rows true (omega arith) (omega arith) one
                ((λ _. omega arith), (λ _. refl)) in
            (r, rw (over, halve-take n rows le) e, capped)
        | inr under ↦ (
          record { rows = take n rows; truncated = cut },
          rw under,
          record {
            kept = n;
            kept-le = le;
            is_prefix = refl;
            fits = fits_of_guard (take n rows) under;
            marked = mark;
          },
        )
      ]

  -- If the first row alone fits the budget, the loop ends, within as many rounds as there are rows
  -- and one more. What it returns is a prefix of the rows that is empty or fits the budget, and
  -- `truncated` holds exactly when rows were dropped.
  pub cap_result_bytes-total :
      (rows : List Row)
      → bytes (take 1 rows) ≤ max_bytes
      → (r : RowCapResult Row) × (cap_result_bytes bytes max_bytes (suc (length rows)) rows
          ≡ some r)
        × IsCapped rows r
  unfolding cap_result_bytes
  cap_result_bytes-total rows one =
      let (r, e, capped) =
        cap_from_total (suc (length rows)) (length rows) rows false (omega arith) (omega arith) one
          ((λ h. cc), (λ h. absurd (omega arith))) in
      (r, rw (take-length rows) at e, capped)

  -- Every prefix that the loop visits keeps the first row, so an oversized one is never dropped.
  cap_from_stuck :
      (fuel n : ℕ) (rows : List Row) (cut : Bool)
      → ((m : ℕ) → 0 < m → m ≤ length rows → max_bytes < bytes (take m rows))
      → 0 < n
      → n ≤ length rows
      → cap_from bytes max_bytes fuel (take n rows) cut ≡ none
  unfolding cap_from
  cap_from_stuck zero n rows cut big pos le = refl
  cap_from_stuck (suc fuel) n rows cut big pos le =
      let rest : cap_from bytes max_bytes fuel (take ((n + 1) / 2) rows) true ≡ none =
        cap_from_stuck fuel ((n + 1) / 2) rows true big (omega arith) (omega arith) in
      let over : over_budget bytes max_bytes (take n rows) ≡ true =
        ground (arith, big n pos le, length-take-le n rows le) in
      rw (over, halve-take n rows le) rest

  -- If the first row alone is over the budget, no fuel is enough: the loop halves a single row to
  -- itself for ever.
  pub cap_result_bytes-diverges :
      (rows : List Row)
      → GrowsWithRows bytes
      → rows ≢ []
      → max_bytes < bytes (take 1 rows)
      → (fuel : ℕ) → cap_result_bytes bytes max_bytes fuel rows ≡ none
  unfolding cap_result_bytes
  cap_result_bytes-diverges [] grows some_row big fuel = absurd (some_row refl)
  cap_result_bytes-diverges (x ∷ rest) grows some_row big fuel =
      let rows : List Row = x ∷ rest in
      rw (take-length rows) at (
        cap_from_stuck fuel (length rows) rows false
          (λ m pos le. omega (arith, grows rows 1 m pos le)) (omega arith) (omega arith))
