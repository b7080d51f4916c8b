-- ===== src/Money/Receipt.antt =====
-- The bounds and the rounding of a receipt's total.
use at_nova_platform.Prelude.{
  ℕ, ◌+◌, ◌-◌, ◌*◌, ◌/◌, ◌≤◌, ◌<◌, ◌≡◌, refl, ap, ◌∙◌, List, [], ◌∷◌, Option, none, some, sym,
  arith, All,
}
use at_nova_platform.Prelude.Integers.{ℤ, pos, pos_part, ◌≤ℤ◌, pos_add, pos_mul, pos_sub}
use at_nova_platform.Money.{
  Units, ReceiptLine, subtotal_from, subtotal, retained_of, discounted, decimal_to_scaled_big_int,
  compute_receipt_total_cents,
}

-- The price of a line is not negative.
abbrev pub IsPriced : ReceiptLine → Type 0
IsPriced line = pos 0 ≤ℤ line.price_cents

nonneg_pos : (a : ℤ) → pos 0 ≤ℤ a → a ≡ pos (pos_part a)
nonneg_pos a h = ground arith

-- The subtotal of priced lines is a natural number.
subtotal_from-pos :
    (lines : List ReceiptLine) (n : ℕ)
    → All IsPriced lines
    → (s : ℕ) × (subtotal_from (pos n) lines ≡ pos s)
subtotal_from-pos [] n priced = (n, refl)
subtotal_from-pos (line ∷ lines) n (here, rest) =
    let p = pos_part line.price_cents in
    rw (nonneg_pos line.price_cents here, pos_mul p line.quantity, pos_add n (p * line.quantity))
      (subtotal_from-pos lines (n + p * line.quantity) rest)

-- A discount of `c` hundredths of a percent is taken off `s` and rounded half up.
abbrev pub discounted_cents : ℕ → ℕ → ℕ
discounted_cents s c = (s * (10_000 - c) + 5_000) / 10_000

retained_of-pos :
    (s c : ℕ) → c ≤ 10_000 → retained_of (pos s) (some (pos c)) ≡ some (pos (discounted_cents s c))
retained_of-pos s c h =
    rw (pos_sub 10_000 c h, pos_mul s (10_000 - c), pos_add (s * (10_000 - c)) 5_000) refl

discounted_cents_none : (s : ℕ) → discounted_cents s 0 ≡ s
discounted_cents_none s = omega arith

discounted_cents-le : (s c : ℕ) → c ≤ 10_000 → discounted_cents s c ≤ s
discounted_cents-le s c h = grind arith

discounted_cents_nearest :
    (s c : ℕ)
    → (discounted_cents s c * 10_000 ≤ s * (10_000 - c) + 5_000)
      × (s * (10_000 - c) < discounted_cents s c * 10_000 + 5_000)
discounted_cents_nearest s c = omega arith

-- What a total is for a subtotal `s` and a discount of `c` hundredths of a percent.
pub IsTotal : (s c t : ℕ) → Type 0
IsTotal s c t =
    (t ≤ s) × (t * 10_000 ≤ s * (10_000 - c) + 5_000) × (s * (10_000 - c) < t * 10_000 + 5_000)

discounted_cents-IsTotal : (s c : ℕ) → c ≤ 10_000 → IsTotal s c (discounted_cents s c)
unfolding IsTotal
discounted_cents-IsTotal s c h =
    let (low, high) = discounted_cents_nearest s c in (discounted_cents-le s c h, low, high)

amount_of : Option ℤ → ℕ
amount_of none = 0
amount_of (some a) = pos_part a

-- No text is no discount.
discounted-pos :
    (s c : ℕ) (text : Units)
    → decimal_to_scaled_big_int text 2 ≡ some (pos c)
    → c ≤ 10_000
    → discounted (pos s) (some text) ≡ some (pos (discounted_cents s c))
unfolding amount_of decimal_to_scaled_big_int
discounted-pos s c [] read h =
    let nothing : 0 ≡ c = ap amount_of read in
    rw (← nothing) (ap (λ n. some (pos n)) (sym (discounted_cents_none s)))
discounted-pos s c (u ∷ us) read h = rw read (retained_of-pos s c h)

-- For lines with prices and a discount text that reads as 0 to 100 percent, a total is computed: the
-- discounted subtotal rounded to the nearest cent, halves up, between zero and the subtotal.
pub compute_receipt_total_cents-IsTotal :
    (lines : List ReceiptLine) (text : Units) (c : ℕ)
    → All IsPriced lines
    → decimal_to_scaled_big_int text 2 ≡ some (pos c)
    → c ≤ 10_000
    → (s : ℕ) × (t : ℕ) × (subtotal lines ≡ pos s)
      × (compute_receipt_total_cents lines (some text) ≡ some (pos t))
      × IsTotal s c t
unfolding compute_receipt_total_cents
compute_receipt_total_cents-IsTotal lines text c priced read h =
    let (s, sum) = subtotal_from-pos lines 0 priced in
    (
      s,
      discounted_cents s c,
      sum,
      ap (λ total. discounted total (some text)) sum ∙ discounted-pos s c text read h,
      discounted_cents-IsTotal s c h,
    )
