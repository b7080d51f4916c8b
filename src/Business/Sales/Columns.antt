-- ===== src/Business/Sales/Columns.antt =====
-- The columns of `sales` and `products_sold` (packages/database/src/entities/sale.entity.ts and
-- product-sold.entity.ts) with the CHECK constraints of the migration InitialNovaSchema: what an INSERT
-- of a text or a number needs. A `numeric` column rounds to its scale, halves away from zero.
use at_nova_platform.Prelude.{
  ℕ, ◌+◌, ◌^◌, Bool, true, false, not, ◌&&◌, [], ◌∷◌, ◌++◌, Option, none, some, drop, take, all,
  is_nil, leb, ltb, if◌then◌else◌,
}
use at_nova_platform.Prelude.Integers.{ℤ, pos_part, is_negative}
use at_nova_platform.Money.{
  Units, trim, is_digit, before_dot, after_dot, zeros, value, starts_negative,
  decimal_to_scaled_big_int,
}

-- `numeric(12,2)` and not negative, of a text with two decimals.
abbrev pub is_receipt_total : Option ℤ → Bool
is_receipt_total none = false
is_receipt_total (some cents) = not (is_negative cents) && ltb (pos_part cents) (10 ^ 12)

abbrev pub fits_total : Units → Bool
fits_total text = is_receipt_total (decimal_to_scaled_big_int text 2)

abbrev pub rounds_up : Units → Bool
rounds_up [] = false
rounds_up (c ∷ s) = leb b'5' c

abbrev pub to_hundredths : (whole places : Units) → ℕ
to_hundredths whole places =
    value 0 (whole ++ take 2 (places ++ zeros 2)) + (if rounds_up (drop 2 places) then 1 else 0)

-- `numeric(5,2)` from 0 to 100, of a plain decimal; a text of another form is refused.
abbrev pub fits_discount : Units → Bool
fits_discount text =
    let trimmed = trim text in
    let negative = starts_negative trimmed in
    let unsigned = if negative then drop 1 trimmed else trimmed in
    let whole = before_dot unsigned in
    let places = after_dot unsigned in
    all is_digit whole
    && all is_digit places
    && not (is_nil (whole ++ places))
    && leb (to_hundredths whole places) (if negative then 0 else 10_000)

abbrev pub fits_discount_column : Option Units → Bool
fits_discount_column none = true
fits_discount_column (some discount) = fits_discount discount

-- `integer` and positive.
abbrev pub fits_quantity : ℕ → Bool
fits_quantity n = leb 1 n && ltb n (2 ^ 31)
