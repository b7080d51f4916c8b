-- ===== src/Business/Sales/Create/Discount.antt =====
-- What a discount that the body's schema accepts reads as.
use at_nova_platform.Prelude.{
  ℕ, ◌+◌, ◌*◌, ◌^◌, ◌≤◌, ◌≡◌, refl, true, false, ◌&&◌, [], ◌∷◌, ◌++◌, some, length, leb, drop, take,
  all, is_nil, eqb, arith, inl, inr, Bool-cases, leb→le,
}
use at_nova_platform.Prelude.Integers.{pos}
use at_nova_platform.Money.{
  Units, is_digit, before_dot, after_dot, value, zeros, starts_negative, decimal_to_scaled_big_int,
}
use at_nova_platform.Business.Sales.Columns.{rounds_up, fits_discount}
use at_nova_platform.Money.Digits.{value-append}
use at_nova_platform.Money.RoundTrip.{is_plain, all-plain, trim-plain}
use at_nova_platform.Business.Sales.Create.{is_decimal_string, at_most_hundred}

-- Without a dot nothing follows one; around a dot stand the two parts.
after_dot_none : (s : Units) → length s ≡ length (before_dot s) → after_dot s ≡ []
after_dot_none [] h = refl
after_dot_none (c ∷ s) h = ground (arith, after_dot_none s)

plain_parts :
    (s : Units)
    → all is_digit (before_dot s) ≡ true
    → all is_digit (after_dot s) ≡ true
    → all is_plain s ≡ true
plain_parts [] hw hp = refl
plain_parts (c ∷ s) hw hp = elim (Bool-cases (eqb c b'.')) [
  | inl dot ↦ let rest : all is_plain s ≡ true = all-plain s (rw dot at hp) in ground arith
  | inr other ↦
      let whole : (is_digit c && all is_digit (before_dot s)) ≡ true = rw other at hw in
      let rest : all is_plain s ≡ true = plain_parts s (ground arith) (rw other at hp) in
      ground arith
]

-- A record of what the form says.
places_digits : (s : Units) → is_decimal_string s ≡ true → all is_digit (after_dot s) ≡ true
places_digits s h = elim (Bool-cases (eqb (length s) (length (before_dot s)))) [
  | inl whole ↦ rw (after_dot_none s (ground arith)) refl
  | inr pointed ↦ ground arith
]

short : (s : Units) → is_decimal_string s ≡ true → length (after_dot s) ≤ 2
short s h = elim (Bool-cases (eqb (length s) (length (before_dot s)))) [
  | inl whole ↦ rw (after_dot_none s (ground arith)) (omega arith)
  | inr pointed ↦ leb→le (length (after_dot s)) 2 (ground arith)
]

hundredths :
    (whole places : Units)
    → length places ≤ 2
    → value 0 (whole ++ places) ≤ 100 * 10 ^ length places
    → value 0 (whole ++ take 2 (places ++ zeros 2)) ≤ 10_000
hundredths whole [] short h =
    omega (arith, h, value-append 0 whole [], value-append 0 whole (b'0' ∷ b'0' ∷ []))
hundredths whole (a ∷ []) short h =
    omega (arith, h, value-append 0 whole (a ∷ []), value-append 0 whole (a ∷ b'0' ∷ []))
hundredths whole (a ∷ b ∷ []) short h = h
hundredths whole (a ∷ b ∷ c ∷ s) short h = absurd (omega (arith, short))

-- The whole part is not empty, so the text has no sign and reads as it stands.
starts_plain :
    (s : Units)
    → 1 ≤ length (before_dot s)
    → all is_digit (before_dot s) ≡ true
    → starts_negative s ≡ false
starts_plain [] h hs = refl
starts_plain (c ∷ s) h hs = elim (Bool-cases (eqb c b'.')) [
  | inl dot ↦ let never : 1 ≤ 0 = rw dot at h in absurd (omega arith)
  | inr other ↦
      let whole : (is_digit c && all is_digit (before_dot s)) ≡ true = rw other at hs in
      ground arith
]

before_dot_digits : (s : Units) → all is_digit s ≡ true → before_dot s ≡ s
before_dot_digits [] h = refl
before_dot_digits (c ∷ s) h = ground (arith, before_dot_digits s)

nonempty : (s : Units) → 1 ≤ length s → is_nil s ≡ false
nonempty [] h = absurd (omega (arith, h))
nonempty (c ∷ s) h = refl

nonempty_append : (s t : Units) → 1 ≤ length s → is_nil (s ++ t) ≡ false
nonempty_append [] t h = absurd (omega (arith, h))
nonempty_append (c ∷ s) t h = refl

no_third : (places : Units) → length places ≤ 2 → rounds_up (drop 2 places) ≡ false
no_third [] h = refl
no_third (a ∷ []) h = refl
no_third (a ∷ b ∷ []) h = refl
no_third (a ∷ b ∷ c ∷ s) h = absurd (omega (arith, h))

le_leb : (a b : ℕ) → a ≤ b → leb (a + 0) b ≡ true
le_leb a b h = ground arith

-- A text of the form, at most one hundred, reads as at most 10 000 hundredths.
pub accepted_discount :
    (s : Units)
    → is_decimal_string s ≡ true
    → at_most_hundred s ≡ true
    → (c : ℕ) × (c ≤ 10_000) × (decimal_to_scaled_big_int s 2 ≡ some (pos c))
unfolding decimal_to_scaled_big_int
accepted_discount s form bounded =
    let whole = before_dot s in
    let places = after_dot s in
    let hw : all is_digit whole ≡ true = ground arith in
    let long : 1 ≤ length whole = leb→le 1 (length whole) (ground arith) in
    let hp = places_digits s form in
    let c = value 0 (whole ++ take 2 (places ++ zeros 2)) in
    (
      c,
      hundredths whole places (short s form) (leb→le _ _ bounded),
      rw
          (
            trim-plain s (plain_parts s hw hp),
            starts_plain s long hw,
            before_dot_digits places hp,
            hw,
            hp,
            nonempty whole long,
          )
          refl,
    )

-- Such a text is one that the column of the discount takes.
pub accepted_discount_fits :
    (s : Units) → is_decimal_string s ≡ true → at_most_hundred s ≡ true → fits_discount s ≡ true
accepted_discount_fits s form bounded =
    let whole = before_dot s in
    let places = after_dot s in
    let hw : all is_digit whole ≡ true = ground arith in
    let long : 1 ≤ length whole = leb→le 1 (length whole) (ground arith) in
    let hp = places_digits s form in
    let within = hundredths whole places (short s form) (leb→le _ _ bounded) in
    rw
      (
        trim-plain s (plain_parts s hw hp),
        starts_plain s long hw,
        hw,
        hp,
        nonempty_append whole places long,
        no_third places (short s form),
      )
      (le_leb _ _ within)
