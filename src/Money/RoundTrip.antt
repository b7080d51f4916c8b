-- ===== src/Money/RoundTrip.antt =====
-- Printing a scaled amount and reading it back.
use mathlib.Core.List.{append-nil}
use at_nova_platform.Prelude.{
  ℕ, zero, suc, ◌+◌, ◌-◌, ◌≤◌, ◌≡◌, refl, true, Bool, false, ◌||◌, [], ◌∷◌, ◌++◌, some, arith, eqb,
  ltb, length, take, drop, take-append-drop, length-drop, length-take, all, if◌then◌else◌,
  Bool-cases, inl, inr, ap, ◌∙◌,
}
use at_nova_platform.Prelude.Integers.{ℤ, pos, pos_part, neg_part, neg_ℤ, is_negative}
use at_nova_platform.Money.{
  Units, magnitude, before_dot, after_dot, trim, trim_end, is_space, is_digit, zeros, value,
  to_string, pad_start, starts_negative, decimal_to_scaled_big_int, scaled_big_int_to_decimal,
}
use at_nova_platform.Money.Digits.{
  value-to_string, value-pad_start, length-pad_start, all-digits-pad_start,
}

-- Cutting a text of digits.
all-take : (k : ℕ) (s : Units) → all is_digit s ≡ true → all is_digit (take k s) ≡ true
all-take zero s h = refl
all-take (suc k) [] h = refl
all-take (suc k) (c ∷ s) h = ground (arith, all-take k s)

all-drop : (k : ℕ) (s : Units) → all is_digit s ≡ true → all is_digit (drop k s) ≡ true
all-drop zero s h = h
all-drop (suc k) [] h = refl
all-drop (suc k) (c ∷ s) h = ground (arith, all-drop k s)

take-append : (s t : Units) → take (length s) (s ++ t) ≡ s
take-append [] t = refl
take-append (c ∷ s) t = cc (take-append s t)

-- The first dot.
before_dot-digits : (s t : Units) → all is_digit s ≡ true → before_dot (s ++ b'.' ∷ t) ≡ s
before_dot-digits [] t h = refl
before_dot-digits (c ∷ s) t h = ground (arith, before_dot-digits s t)

after_dot-digits : (s t : Units) → all is_digit s ≡ true → after_dot (s ++ b'.' ∷ t) ≡ t
after_dot-digits [] t h = refl
after_dot-digits (c ∷ s) t h = ground (arith, after_dot-digits s t)

before_dot-all : (s : Units) → all is_digit s ≡ true → before_dot s ≡ s
before_dot-all [] h = refl
before_dot-all (c ∷ s) h = ground (arith, before_dot-all s)

after_dot-all : (s : Units) → all is_digit s ≡ true → after_dot s ≡ []
after_dot-all [] h = refl
after_dot-all (c ∷ s) h = ground (arith, after_dot-all s)

-- Nothing is trimmed from digits, dots and signs.
abbrev pub is_plain : ℕ → Bool
is_plain c = is_digit c || eqb c b'.' || eqb c b'-'

plain-not_space : (c : ℕ) → is_plain c ≡ true → is_space c ≡ false
plain-not_space c h = ground arith

trim_end-plain : (s : Units) → all is_plain s ≡ true → trim_end s ≡ s
trim_end-plain [] h = refl
trim_end-plain (c ∷ s) h = ground (arith, trim_end-plain s, plain-not_space c)

pub trim-plain : (s : Units) → all is_plain s ≡ true → trim s ≡ s
trim-plain [] h = refl
trim-plain (c ∷ s) h = rw (plain-not_space c (ground arith)) (trim_end-plain (c ∷ s) h)

magnitude-pointed :
    (whole frac : Units) (scale : ℕ)
    → 1 ≤ length whole
    → length frac ≡ scale
    → all is_digit whole ≡ true
    → all is_digit frac ≡ true
    → magnitude (whole ++ b'.' ∷ frac) scale ≡ some (value 0 (whole ++ frac))
magnitude-pointed [] frac scale long fits hs hfrac = absurd (omega (arith, long))
magnitude-pointed (c ∷ s) frac scale long fits hs hfrac =
    rw
      (
        ← fits,
        before_dot-digits (c ∷ s) frac hs,
        after_dot-digits (c ∷ s) frac hs,
        before_dot-all frac hfrac,
        take-append frac (zeros (length frac)),
        hs,
        hfrac,
      )
      refl

magnitude-whole :
    (s : Units) → 1 ≤ length s → all is_digit s ≡ true → magnitude s 0 ≡ some (value 0 s)
magnitude-whole [] long hs = absurd (omega (arith, long))
magnitude-whole (c ∷ s) long hs =
    rw (before_dot-all (c ∷ s) hs, after_dot-all (c ∷ s) hs, hs, append-nil s) refl

-- The unsigned text that is printed for digits `s`.
abbrev pointed : ℕ → Units → Units
pointed scale s =
    if ltb 0 scale then take (length s - scale) s ++ b'.' ∷ drop (length s - scale) s else s

abbrev cut_at : ℕ → Units → Units
cut_at cut s = take cut s ++ b'.' ∷ drop cut s

pointed-suc : (k : ℕ) (s : Units) → pointed (suc k) s ≡ cut_at (length s - suc k) s
pointed-suc k s = ground arith

magnitude-pointed_at :
    (scale : ℕ) (s : Units)
    → scale + 1 ≤ length s
    → all is_digit s ≡ true
    → magnitude (pointed scale s) scale ≡ some (value 0 s)
magnitude-pointed_at zero s long hs = magnitude-whole s long hs
magnitude-pointed_at (suc k) s long hs =
    let cut = length s - suc k in
    rw
      (
        pointed-suc k s,
        magnitude-pointed (take cut s) (drop cut s) (suc k)
            (omega (arith, long, length-take cut s (omega arith)))
            (omega (arith, long, length-drop cut s)) (all-take cut s hs) (all-drop cut s hs),
        take-append-drop cut s,
      )
      refl

-- It has digits and at most one dot, and begins with a digit.
pub all-plain : (s : Units) → all is_digit s ≡ true → all is_plain s ≡ true
all-plain [] h = refl
all-plain (c ∷ s) h = ground (arith, all-plain s)

pub all-plain-append :
    (s t : Units) → all is_plain s ≡ true → all is_plain t ≡ true → all is_plain (s ++ t) ≡ true
all-plain-append [] t hs ht = ht
all-plain-append (c ∷ s) t hs ht = ground (arith, all-plain-append s t)

pointed-plain :
    (scale : ℕ) (s : Units) → all is_digit s ≡ true → all is_plain (pointed scale s) ≡ true
pointed-plain zero s h = all-plain s h
pointed-plain (suc k) s h =
    let cut = length s - suc k in
    rw (pointed-suc k s) (
      all-plain-append (take cut s) (b'.' ∷ drop cut s) (all-plain (take cut s) (all-take cut s h))
        (all-plain (drop cut s) (all-drop cut s h)))

cut_at-unsigned :
    (cut : ℕ) (s : Units) → 1 ≤ cut → all is_digit s ≡ true → starts_negative (cut_at cut s) ≡ false
cut_at-unsigned zero s h hs = absurd (omega (arith, h))
cut_at-unsigned (suc n) [] h hs = refl
cut_at-unsigned (suc n) (c ∷ s) h hs = ground arith

pointed-unsigned :
    (scale : ℕ) (s : Units)
    → scale + 1 ≤ length s
    → all is_digit s ≡ true
    → starts_negative (pointed scale s) ≡ false
pointed-unsigned zero [] long hs = refl
pointed-unsigned zero (c ∷ s) long hs = ground arith
pointed-unsigned (suc k) s long hs =
    rw (pointed-suc k s) (cut_at-unsigned (length s - suc k) s (omega (arith, long)) hs)

-- Both signs of what is printed for digits `s`.
decimal_to_scaled_big_int-pointed :
    (scale : ℕ) (s : Units)
    → scale + 1 ≤ length s
    → all is_digit s ≡ true
    → (decimal_to_scaled_big_int (pointed scale s) scale ≡ some (pos (value 0 s)))
      × (decimal_to_scaled_big_int (b'-' ∷ pointed scale s) scale ≡ some (neg_ℤ (pos (value 0 s))))
unfolding decimal_to_scaled_big_int
decimal_to_scaled_big_int-pointed scale s long digits =
    let plain = pointed-plain scale s digits in
    let read = magnitude-pointed_at scale s long digits in
    (
      rw (trim-plain (pointed scale s) plain, pointed-unsigned scale s long digits, read) refl,
      rw (trim-plain (b'-' ∷ pointed scale s) plain, read) refl,
    )

-- An amount that is printed with some number of decimals is read back exactly, whatever its sign.
pub decimal_to_scaled_big_int-scaled_big_int_to_decimal :
    (amount : ℤ) (scale : ℕ)
    → decimal_to_scaled_big_int (scaled_big_int_to_decimal amount scale) scale ≡ some amount
unfolding scaled_big_int_to_decimal
decimal_to_scaled_big_int-scaled_big_int_to_decimal amount scale =
    let n = pos_part amount + neg_part amount in
    let s = pad_start (scale + 1) (to_string n) in
    let (unsigned, negative) =
      decimal_to_scaled_big_int-pointed scale s (length-pad_start (scale + 1) (to_string n))
        (all-digits-pad_start (scale + 1) n) in
    let same : value 0 s ≡ n = value-pad_start (scale + 1) (to_string n) ∙ value-to_string n in
    elim (Bool-cases (is_negative amount)) [
      | inl below ↦ rw (below, negative, same) (ap (λ (z : ℤ). some z) (ground arith))
      | inr above ↦ rw (above, unsigned, same) (ap (λ (z : ℤ). some z) (ground arith))
    ]
