-- ===== src/Money.antt =====
-- Decimal money (backend-services/api/src/lib/money.ts). A text is the list of its code units, as a
-- JavaScript string is; a thrown `Error` is `none`; a `bigint` is an integer.
mod Tests
pub mod Digits
pub mod RoundTrip
pub mod Receipt
use at_nova_platform.Prelude.{
  ℕ, zero, suc, ◌+◌, ◌-◌, ◌*◌, ◌/◌, ◌%◌, String, Bool, true, false, not, ◌&&◌, ◌||◌, List, [], ◌∷◌,
  ◌++◌, Option, none, some, length, take, drop, all, is_nil, eqb, leb, ltb, if◌then◌else◌,
}
use at_nova_platform.Prelude.Integers.{
  ℤ, pos, pos_part, neg_part, is_negative, neg_ℤ, ◌+ℤ◌, ◌-ℤ◌, ◌*ℤ◌, ◌/ℤ◌,
}
use Prim.Native.Char.{code}
use Prim.Native.String

abbrev pub Units : Type 0
Units = List ℕ

abbrev pub units : String → Units
units String.[] = []
units (String.◌∷◌ c s) = code c ∷ units s

-- What `String.trim` drops: white space and line ends.
abbrev pub is_space : ℕ → Bool
is_space c =
    (leb 9 c && leb c 13)
    || eqb c 32
    || eqb c 160
    || eqb c 0x1680
    || (leb 0x2000 c && leb c 0x200A)
    || eqb c 0x2028
    || eqb c 0x2029
    || eqb c 0x202F
    || eqb c 0x205F
    || eqb c 0x3000
    || eqb c 0xFEFF

abbrev pub trim_start : Units → Units
trim_start [] = []
trim_start (c ∷ s) = if is_space c then trim_start s else c ∷ s

abbrev pub trim_end : Units → Units
trim_end [] = []
trim_end (c ∷ s) = let rest = trim_end s in if is_nil rest && is_space c then [] else c ∷ rest

abbrev pub trim : Units → Units
trim s = trim_end (trim_start s)

abbrev pub is_digit : ℕ → Bool
is_digit c = leb b'0' c && leb c b'9'

-- `split('.')`: the text before the first dot, and what follows it.
abbrev pub before_dot : Units → Units
before_dot [] = []
before_dot (c ∷ s) = if eqb c b'.' then [] else c ∷ before_dot s

abbrev pub after_dot : Units → Units
after_dot [] = []
after_dot (c ∷ s) = if eqb c b'.' then s else after_dot s

abbrev pub zeros : ℕ → Units
zeros zero = []
zeros (suc n) = b'0' ∷ zeros n

-- `BigInt` of a text of digits, read behind `n`.
abbrev pub value : ℕ → Units → ℕ
value n [] = n
value n (c ∷ s) = value (n * 10 + (c - b'0')) s

abbrev pub starts_negative : Units → Bool
starts_negative [] = false
starts_negative (c ∷ s) = eqb c b'-'

-- Behind the sign: the second part of `split` ends at the second dot.
abbrev pub magnitude : Units → ℕ → Option ℕ
magnitude unsigned scale =
    let int_part = before_dot unsigned in
    let frac_part = before_dot (after_dot unsigned) in
    let frac_padded = take scale (frac_part ++ zeros scale) in
    if all is_digit int_part && all is_digit frac_part
    then some (value 0 ((if is_nil int_part then b'0' ∷ [] else int_part) ++ frac_padded))
    else none

abbrev pub with_sign : Bool → Option ℕ → Option ℤ
with_sign negative none = none
with_sign negative (some m) = some (if negative then neg_ℤ (pos m) else pos m)

unfoldable pub decimal_to_scaled_big_int : Units → ℕ → Option ℤ
decimal_to_scaled_big_int text scale =
    let trimmed = trim text in
    let negative = starts_negative trimmed in
    with_sign negative (magnitude (if negative then drop 1 trimmed else trimmed) scale)

-- `toString` of a natural number, each round dividing by ten, with fuel.
abbrev pub digits_from : (fuel n : ℕ) → Units → Units
digits_from zero n out = out
digits_from (suc fuel) n out = elim (ltb n 10) [
  | true ↦ (b'0' + n) ∷ out
  | false ↦ digits_from fuel (n / 10) ((b'0' + n % 10) ∷ out)
]

abbrev pub to_string : ℕ → Units
to_string n = digits_from (suc n) n []

abbrev pub pad_start : ℕ → Units → Units
pad_start width s = zeros (width - length s) ++ s

unfoldable pub scaled_big_int_to_decimal : ℤ → ℕ → Units
scaled_big_int_to_decimal amount scale =
    let digits = pad_start (scale + 1) (to_string (pos_part amount + neg_part amount)) in
    let cut = length digits - scale in
    let result = if ltb 0 scale then take cut digits ++ b'.' ∷ drop cut digits else digits in
    if is_negative amount then b'-' ∷ result else result

-- `quantity` is a positive integer by the schemas of both callers.
pub record ReceiptLine : Type 0 where
  pub price_cents : ℤ
  pub quantity : ℕ

abbrev pub subtotal_from : ℤ → List ReceiptLine → ℤ
subtotal_from sum [] = sum
subtotal_from sum (line ∷ lines) =
    subtotal_from (sum +ℤ line.price_cents *ℤ pos line.quantity) lines

abbrev pub subtotal : List ReceiptLine → ℤ
subtotal lines = subtotal_from (pos 0) lines

abbrev pub retained_of : ℤ → Option ℤ → Option ℤ
retained_of sum none = none
retained_of sum (some centi_percent) =
    some ((sum *ℤ (pos 10_000 -ℤ centi_percent) +ℤ pos 5_000) /ℤ 10_000)

-- No discount is `null` or the empty text.
abbrev pub discounted : ℤ → Option Units → Option ℤ
discounted sum none = some sum
discounted sum (some []) = some sum
discounted sum (some (c ∷ s)) = retained_of sum (decimal_to_scaled_big_int (c ∷ s) 2)

unfoldable pub compute_receipt_total_cents : List ReceiptLine → Option Units → Option ℤ
compute_receipt_total_cents lines discount_percent = discounted (subtotal lines) discount_percent
