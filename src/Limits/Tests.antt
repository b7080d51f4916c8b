-- ===== src/Limits/Tests.antt =====
-- Runs of `capResultBytes`, over rows that are given by the length of their JSON text.
use at_nova_platform.Prelude.{
  ℕ, zero, suc, ◌+◌, ◌≤◌, ◌≡◌, refl, true, List, [], ◌∷◌, none, some, arith, take,
}
use at_nova_platform.Limits.{RowCapResult, cap_result_bytes}
use at_nova_platform.Limits.Budget.{
  GrowsWithRows, IsCapped, cap_result_bytes-total, cap_result_bytes-diverges,
}

-- An opening bracket, then each row and the comma or bracket after it.
abbrev json_bytes : List ℕ → ℕ
json_bytes [] = 1
json_bytes (row ∷ rows) = row + 1 + json_bytes rows

json_bytes-GrowsWithRows : GrowsWithRows json_bytes
json_bytes-GrowsWithRows rows zero n le bound = json_bytes-pos (take n rows)
  where
    json_bytes-pos : (xs : List ℕ) → 1 ≤ json_bytes xs
    json_bytes-pos [] = omega arith
    json_bytes-pos (x ∷ xs) = omega arith
json_bytes-GrowsWithRows [] (suc m) (suc n) le bound = omega arith
json_bytes-GrowsWithRows (x ∷ rows) (suc m) (suc n) le bound =
    omega (arith, json_bytes-GrowsWithRows rows m n (omega arith) (omega arith))
json_bytes-GrowsWithRows rows (suc m) zero le bound = absurd (omega arith)

cut_to_fit :
    cap_result_bytes json_bytes 25 9 (10 ∷ 10 ∷ 10 ∷ 10 ∷ 10 ∷ [])
    ≡ some (record { rows = 10 ∷ 10 ∷ []; truncated = true })
unfolding cap_result_bytes
cut_to_fit = refl

cap_result_bytes-total_example :
    (r : RowCapResult ℕ) × (cap_result_bytes json_bytes 25 4 (10 ∷ 10 ∷ 10 ∷ []) ≡ some r)
    × IsCapped json_bytes 25 (10 ∷ 10 ∷ 10 ∷ []) r
cap_result_bytes-total_example =
    cap_result_bytes-total json_bytes 25 (10 ∷ 10 ∷ 10 ∷ []) (omega arith)

cap_result_bytes-diverges_example : cap_result_bytes json_bytes 25 1000 (40 ∷ 10 ∷ []) ≡ none
cap_result_bytes-diverges_example =
    cap_result_bytes-diverges json_bytes 25 (40 ∷ 10 ∷ []) json_bytes-GrowsWithRows (λ e. cc)
      (omega arith) 1000
