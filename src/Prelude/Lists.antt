-- ===== src/Prelude/Lists.antt =====
-- Lists measured by native numbers, filtered by Boolean tests, and predicates over them.
use Prim.Native.Nat.{ℕ, zero, suc, ◌+◌, ◌-◌, ◌≤◌}
use mathlib.Core.Path.{◌≡◌, refl, sym, ap, ◌∙◌}
use mathlib.Core.Bool.{Bool, true, false, ◌&&◌, ◌||◌}
use mathlib.Core.Logic.{◌⊎◌, inl, inr}
use mathlib.Core.List.{List, [], ◌∷◌, ◌++◌, map}
use mathlib.Core.Option.{Option, none, some}
use native.Mathlib.Omega.{arith}
use at_nova_platform.Prelude.Tests.{if◌then◌else◌, Bool-cases}

module _ {ℓ} {A : Type ℓ} where
  abbrev pub length : List A → ℕ
  length [] = 0
  length (x ∷ xs) = suc (length xs)

  abbrev pub take : ℕ → List A → List A
  take zero xs = []
  take (suc n) [] = []
  take (suc n) (x ∷ xs) = x ∷ take n xs

  abbrev pub drop : ℕ → List A → List A
  drop zero xs = xs
  drop (suc n) [] = []
  drop (suc n) (x ∷ xs) = drop n xs

  -- `Array.filter`, `every`, `some` and `find`.
  abbrev pub filter : (A → Bool) → List A → List A
  filter p [] = []
  filter p (x ∷ xs) = if p x then x ∷ filter p xs else filter p xs

  abbrev pub all : (A → Bool) → List A → Bool
  all p [] = true
  all p (x ∷ xs) = p x && all p xs

  abbrev pub any : (A → Bool) → List A → Bool
  any p [] = false
  any p (x ∷ xs) = p x || any p xs

  abbrev pub find : (A → Bool) → List A → Option A
  find p [] = none
  find p (x ∷ xs) = if p x then some x else find p xs

  -- A stable sort: an element goes before the first one that it may stand before.
  abbrev pub insert_by : (A → A → Bool) → A → List A → List A
  insert_by before x [] = x ∷ []
  insert_by before x (y ∷ ys) = if before x y then x ∷ y ∷ ys else y ∷ insert_by before x ys

  abbrev pub sort_by : (A → A → Bool) → List A → List A
  sort_by before [] = []
  sort_by before (x ∷ xs) = insert_by before x (sort_by before xs)

  -- `length === 0`, `value !== null` and `value ?? fallback`.
  abbrev pub is_nil : List A → Bool
  is_nil [] = true
  is_nil (x ∷ xs) = false

  abbrev pub is_some : Option A → Bool
  is_some none = false
  is_some (some a) = true

  abbrev pub get_or : Option A → A → A
  get_or none d = d
  get_or (some a) d = a

  pub take-append-drop : (k : ℕ) (xs : List A) → take k xs ++ drop k xs ≡ xs
  take-append-drop zero xs = refl
  take-append-drop (suc k) [] = refl
  take-append-drop (suc k) (x ∷ xs) = cc (take-append-drop k xs)

  pub length-drop : (k : ℕ) (xs : List A) → length (drop k xs) ≡ length xs - k
  length-drop zero xs = omega arith
  length-drop (suc k) [] = omega arith
  length-drop (suc k) (x ∷ xs) = omega (arith, length-drop k xs)

  pub length-take : (k : ℕ) (xs : List A) → k ≤ length xs → length (take k xs) ≡ k
  length-take zero xs h = refl
  length-take (suc k) [] h = absurd (omega (arith, h))
  length-take (suc k) (x ∷ xs) h = omega (arith, length-take k xs (omega (arith, h)))

  pub length-append : (xs ys : List A) → length (xs ++ ys) ≡ length xs + length ys
  length-append [] ys = omega arith
  length-append (x ∷ xs) ys = omega (arith, length-append xs ys)

  pub filter-append :
      (p : A → Bool) (xs ys : List A) → filter p (xs ++ ys) ≡ filter p xs ++ filter p ys
  filter-append p [] ys = refl
  filter-append p (x ∷ xs) ys = let rest = filter-append p xs ys in ground arith

  pub length-filter-le : (p : A → Bool) (xs : List A) → length (filter p xs) ≤ length xs
  length-filter-le p [] = omega arith
  length-filter-le p (x ∷ xs) = ground (arith, length-filter-le p xs)

-- Membership as data, and predicates that hold of every element.
module _ {A : Type 0} where
  abbrev pub In : A → List A → Type 0
  In a [] = ⊥
  In a (x ∷ xs) = (a ≡ x) ⊎ In a xs

module _ {ℓ κ} {A : Type ℓ} where
  abbrev pub All : (A → Type κ) → List A → Type κ
  All P [] = Unit
  All P (x ∷ xs) = P x × All P xs

-- What an element of a list that was built is.
module _ {A : Type 0} where
  pub In-append : (a : A) (xs ys : List A) → In a (xs ++ ys) → In a xs ⊎ In a ys
  In-append a [] ys h = inr h
  In-append a (x ∷ xs) ys (inl same) = inl (inl same)
  In-append a (x ∷ xs) ys (inr h) = elim (In-append a xs ys h) [
    | inl left ↦ inl (inr left)
    | inr right ↦ inr right
  ]

  pub In-append_left : (a : A) (xs ys : List A) → In a xs → In a (xs ++ ys)
  In-append_left a (x ∷ xs) ys (inl same) = inl same
  In-append_left a (x ∷ xs) ys (inr h) = inr (In-append_left a xs ys h)
  In-append_left a [] ys h = absurd h

  pub In-filter : (p : A → Bool) (a : A) (xs : List A) → In a (filter p xs) → In a xs × (p a ≡ true)
  In-filter p a [] h = absurd h
  In-filter p a (x ∷ xs) h = elim (Bool-cases (p x)) [
    | inl passes ↦ elim (rw passes at h) [
      | inl same ↦ (inl same, rw same passes)
      | inr later ↦ (inr (In-filter p a xs later).0, (In-filter p a xs later).1)
    ]
    | inr fails ↦
        let later : In a (filter p xs) = rw fails at h in
        (inr (In-filter p a xs later).0, (In-filter p a xs later).1)
  ]

  pub In-filter-of :
      (p : A → Bool) (a : A) (xs : List A) → In a xs → p a ≡ true → In a (filter p xs)
  In-filter-of p a [] h passes = absurd h
  In-filter-of p a (x ∷ xs) (inl same) passes = rw (← same, passes) (inl refl)
  In-filter-of p a (x ∷ xs) (inr h) passes = elim (Bool-cases (p x)) [
    | inl here ↦ rw here (inr (In-filter-of p a xs h passes))
    | inr not_here ↦ rw not_here (In-filter-of p a xs h passes)
  ]

module _ {A B : Type 0} (f : A → B) where
  pub In-map : (b : B) (xs : List A) → In b (map f xs) → (a : A) × In a xs × (b ≡ f a)
  In-map b [] h = absurd h
  In-map b (x ∷ xs) (inl same) = (x, inl refl, same)
  In-map b (x ∷ xs) (inr h) = let (a, at, e) = In-map b xs h in (a, inr at, e)

  pub In-map-of : (a : A) (xs : List A) → In a xs → In (f a) (map f xs)
  In-map-of a [] h = absurd h
  In-map-of a (x ∷ xs) (inl same) = inl (ap f same)
  In-map-of a (x ∷ xs) (inr h) = inr (In-map-of a xs h)

-- A map that keeps the names keeps the list of names.
pub map-map-same :
    {A B : Type 0} (name : A → B) (f : A → A) (xs : List A)
    → ((x : A) → name (f x) ≡ name x)
    → map name (map f xs) ≡ map name xs
map-map-same name f [] same = refl
map-map-same name f (x ∷ xs) same = cc (same x, map-map-same name f xs same)

-- Searches that hit.
module _ {A : Type 0} (p : A → Bool) where
  pub find-of-In : (x : A) (xs : List A) → In x xs → p x ≡ true → (y : A) × (find p xs ≡ some y)
  find-of-In x [] at passes = absurd at
  find-of-In x (y ∷ ys) at passes = elim (Bool-cases (p y)) [
    | inl here ↦ (y, rw here refl)
    | inr further ↦ elim at [
      | inl same ↦ let never : true ≡ false = sym passes ∙ ap p same ∙ further in cc
      | inr later ↦ let (z, found) = find-of-In x ys later passes in (z, rw further found)
    ]
  ]

  pub In-find : (x : A) (xs : List A) → find p xs ≡ some x → In x xs
  In-find x [] found = cc
  In-find x (y ∷ ys) found = elim (Bool-cases (p y)) [
    | inl here ↦
        let same : some y ≡ some x = rw here at found in let this : y ≡ x = cc in inl (sym this)
    | inr further ↦ inr (In-find x ys (rw further at found))
  ]

  pub find-last : (x : A) (xs : List A) → p x ≡ true → (y : A) × (find p (xs ++ x ∷ []) ≡ some y)
  find-last x [] passes = (x, rw passes refl)
  find-last x (y ∷ ys) passes = elim (Bool-cases (p y)) [
    | inl here ↦ (y, rw here refl)
    | inr further ↦ let (z, found) = find-last x ys passes in (z, rw further found)
  ]

  -- A map that keeps the test keeps a hit.
  pub find-map :
      (f : A → A) (xs : List A) (x : A)
      → ((a : A) → p (f a) ≡ p a)
      → find p xs ≡ some x
      → find p (map f xs) ≡ some (f x)
  find-map f [] x same found = cc
  find-map f (y ∷ ys) x same found = elim (Bool-cases (p y)) [
    | inl here ↦
        let hit : some y ≡ some x = rw here at found in
        let this : y ≡ x = cc in rw (same y, here) (ap (λ a. some (f a)) this)
    | inr further ↦ rw (same y, further) (find-map f ys x same (rw further at found))
  ]
