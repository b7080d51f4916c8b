-- ===== src/Money/Tests.antt =====
-- Tests and concrete uses of the decimals and the receipts.
use at_nova_platform.Prelude.{ℕ, ◌≡◌, refl, List, [], ◌∷◌, Option, none, some, arith}
use at_nova_platform.Prelude.Integers.{ℤ, pos, negsuc}
use at_nova_platform.Money.{
  units, ReceiptLine, subtotal, decimal_to_scaled_big_int, scaled_big_int_to_decimal,
  compute_receipt_total_cents,
}
use at_nova_platform.Money.RoundTrip.{decimal_to_scaled_big_int-scaled_big_int_to_decimal}
use at_nova_platform.Money.Receipt.{IsTotal, compute_receipt_total_cents-IsTotal}

reads_decimals :
    (decimal_to_scaled_big_int (units " 12.5 ") 2 ≡ some (pos 1250))
    × (decimal_to_scaled_big_int (units "-0.01") 2 ≡ some (negsuc 0))
    × (decimal_to_scaled_big_int (units "") 2 ≡ some (pos 0))
    × Path (Option ℤ) (decimal_to_scaled_big_int (units "1e3") 2) none
unfolding decimal_to_scaled_big_int
reads_decimals = (refl, refl, refl, refl)

-- What stands behind a second dot is dropped.
second_dot : decimal_to_scaled_big_int (units "1.2.9") 2 ≡ some (pos 120)
unfolding decimal_to_scaled_big_int
second_dot = refl

prints_decimals :
    (scaled_big_int_to_decimal (negsuc 4) 2 ≡ units "-0.05")
    × (scaled_big_int_to_decimal (pos 1234) 2 ≡ units "12.34")
    × (scaled_big_int_to_decimal (pos 7) 0 ≡ units "7")
unfolding scaled_big_int_to_decimal
prints_decimals = (refl, refl, refl)

abbrev two_lines : List ReceiptLine
two_lines =
    (record { price_cents = pos 1250; quantity = 2 })
    ∷ (record { price_cents = pos 99; quantity = 1 })
    ∷ []

totals :
    (compute_receipt_total_cents two_lines (some (units "10")) ≡ some (pos 2339))
    × (compute_receipt_total_cents two_lines none ≡ some (pos 2599))
unfolding compute_receipt_total_cents decimal_to_scaled_big_int
totals = (refl, refl)

-- Nothing in the function itself stops a discount above one hundred percent.
negative_total :
    compute_receipt_total_cents
      ((record { price_cents = pos 100; quantity = 1 }) ∷ [])
      (some (units "150"))
    ≡ some (negsuc 48)
unfolding compute_receipt_total_cents decimal_to_scaled_big_int
negative_total = refl

decimal_to_scaled_big_int-scaled_big_int_to_decimal_example :
    decimal_to_scaled_big_int (scaled_big_int_to_decimal (negsuc 1249) 2) 2 ≡ some (negsuc 1249)
decimal_to_scaled_big_int-scaled_big_int_to_decimal_example =
    decimal_to_scaled_big_int-scaled_big_int_to_decimal (negsuc 1249) 2

compute_receipt_total_cents-IsTotal_example :
    (s : ℕ) × (t : ℕ) × (subtotal two_lines ≡ pos s)
    × (compute_receipt_total_cents two_lines (some (units "10")) ≡ some (pos t))
    × IsTotal s 1000 t
unfolding decimal_to_scaled_big_int
compute_receipt_total_cents-IsTotal_example =
    compute_receipt_total_cents-IsTotal two_lines (units "10") 1000 (omega arith, (omega arith, tt))
      refl (omega arith)
