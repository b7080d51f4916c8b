-- ===== src/Money/Digits.antt =====
-- The digits that are printed, and their value.
use at_nova_platform.Prelude.{
  ℕ, zero, suc, ◌+◌, ◌-◌, ◌*◌, ◌/◌, ◌%◌, ◌≤◌, ◌<◌, ◌≡◌, refl, true, [], ◌∷◌, ◌++◌, arith, length,
  all, length-append,
}
use at_nova_platform.Money.{Units, is_digit, zeros, value, digits_from, to_string, pad_start}

-- Reading goes on where it stopped.
pub value-append : (n : ℕ) (s t : Units) → value n (s ++ t) ≡ value (value n s) t
value-append n [] t = refl
value-append n (c ∷ s) t = value-append (n * 10 + (c - b'0')) s t

pub value-zeros : (k : ℕ) → value 0 (zeros k) ≡ 0
value-zeros zero = refl
value-zeros (suc k) = value-zeros k

pub all-append :
    (s t : Units) → all is_digit s ≡ true → all is_digit t ≡ true → all is_digit (s ++ t) ≡ true
all-append [] t hs ht = ht
all-append (c ∷ s) t hs ht = ground (arith, all-append s t)

pub all-zeros : (k : ℕ) → all is_digit (zeros k) ≡ true
all-zeros zero = refl
all-zeros (suc k) = all-zeros k

pub length-zeros : (k : ℕ) → length (zeros k) ≡ k
length-zeros zero = refl
length-zeros (suc k) = omega (arith, length-zeros k)

-- The printed digits, put before `out`, read as `n` and go on with `out`.
pub value-digits_from :
    (fuel n : ℕ) (out : Units) → n < fuel → value 0 (digits_from fuel n out) ≡ value n out
value-digits_from zero n out h = absurd (omega (arith, h))
value-digits_from (suc fuel) n out h =
    ground (arith, value-digits_from fuel (n / 10) ((b'0' + n % 10) ∷ out))

pub all-digits_from :
    (fuel n : ℕ) (out : Units)
    → n < fuel
    → all is_digit out ≡ true
    → all is_digit (digits_from fuel n out) ≡ true
all-digits_from zero n out h hout = absurd (omega (arith, h))
all-digits_from (suc fuel) n out h hout =
    ground (arith, all-digits_from fuel (n / 10) ((b'0' + n % 10) ∷ out))

pub value-to_string : (n : ℕ) → value 0 (to_string n) ≡ n
value-to_string n = value-digits_from (suc n) n [] (omega arith)

pub value-pad_start : (width : ℕ) (s : Units) → value 0 (pad_start width s) ≡ value 0 s
value-pad_start width s =
    cc (value-append 0 (zeros (width - length s)) s, value-zeros (width - length s))

pub length-pad_start : (width : ℕ) (s : Units) → width ≤ length (pad_start width s)
length-pad_start width s =
    omega (arith, length-append (zeros (width - length s)) s, length-zeros (width - length s))

pub all-digits-pad_start : (width n : ℕ) → all is_digit (pad_start width (to_string n)) ≡ true
all-digits-pad_start width n =
    all-append (zeros (width - length (to_string n))) (to_string n)
      (all-zeros (width - length (to_string n))) (all-digits_from (suc n) n [] (omega arith) refl)
