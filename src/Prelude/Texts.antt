-- ===== src/Prelude/Texts.antt =====
-- Sets and maps keyed by texts: `Set.has`, `Array.includes`, `new Set`, `Map.get`.
use Prim.Native.String.{String}
use mathlib.Core.Path.{◌≡◌, refl, sym}
use mathlib.Core.Logic.{◌↔◌, inl, inr}
use mathlib.Core.Bool.{Bool, true, false, not, ◌||◌, ◌&&◌}
use mathlib.Core.List.{List, [], ◌∷◌, ◌++◌, map}
use native.Mathlib.Omega.{arith}
use text.Mathlib.Text.{◌==◌}
use text.Mathlib.TextEquality.{eq_iff}
use at_nova_platform.Prelude.Tests.{if◌then◌else◌, Bool-cases}
use at_nova_platform.Prelude.Lists.{In, filter}

abbrev pub has : String → List String → Bool
has k [] = false
has k (x ∷ xs) = k == x || has k xs

abbrev pub has_duplicates : List String → Bool
has_duplicates [] = false
has_duplicates (id ∷ ids) = has id ids || has_duplicates ids

pub In-of-has : (k : String) (xs : List String) → has k xs ≡ true → In k xs
In-of-has k [] h = cc
In-of-has k (x ∷ xs) h = elim (Bool-cases (k == x)) [
  | inl same ↦ inl ((eq_iff k x).0 same)
  | inr other ↦ inr (In-of-has k xs (ground arith))
]

pub has-of-In : (k : String) (xs : List String) → In k xs → has k xs ≡ true
has-of-In k [] h = absurd h
has-of-In k (x ∷ xs) (inl same) = rw ((eq_iff k x).1 same)
has-of-In k (x ∷ xs) (inr later) = ground (arith, has-of-In k xs later)

pub has_iff : (k : String) (xs : List String) → (has k xs ≡ true) ↔ In k xs
has_iff k xs = (In-of-has k xs, has-of-In k xs)

pub has-append : (k : String) (xs ys : List String) → has k (xs ++ ys) ≡ (has k xs || has k ys)
has-append k [] ys = refl
has-append k (x ∷ xs) ys = ground (arith, has-append k xs ys)

-- `new Set(xs)`, spread back into an array: the first of equal entries is kept. The set is built
-- left to right; `insert_new` is `Set.add`.
abbrev pub insert_new : String → List String → List String
insert_new k xs = if has k xs then xs else xs ++ k ∷ []

pub has-insert_new : (x y : String) (r : List String) → has x (insert_new y r) ≡ (x == y || has x r)
has-insert_new x y r = elim (Bool-cases (has y r)) [
  | inl old ↦ ground (arith, eq_iff x y)
  | inr new ↦ ground (arith, has-append x r (y ∷ []))
]

abbrev pub add_all : List String → List String → List String
add_all seen [] = seen
add_all seen (x ∷ xs) = add_all (insert_new x seen) xs

abbrev pub unique : List String → List String
unique xs = add_all [] xs

pub has-add_all :
    (k : String) (seen xs : List String) → has k (add_all seen xs) ≡ (has k seen || has k xs)
has-add_all k seen [] = ground arith
has-add_all k seen (x ∷ xs) = elim (Bool-cases (has x seen)) [
  | inl old ↦ ground (arith, has-add_all k seen xs, eq_iff k x, has-append k seen (x ∷ []))
  | inr new ↦ ground (arith, has-add_all k (seen ++ x ∷ []) xs, has-append k seen (x ∷ []))
]

pub has-unique : (k : String) (xs : List String) → has k (unique xs) ≡ has k xs
has-unique k xs = has-add_all k [] xs

-- The names of the elements that pass a test.
module _ {A : Type 0} (name : A → String) (p : A → Bool) where
  pub has-map-filter :
      (k : String) (xs : List A)
      → has k (map name (filter p xs)) ≡ true
      → (x : A) × In x xs × (p x ≡ true) × (name x ≡ k)
  has-map-filter k [] h = cc
  has-map-filter k (x ∷ xs) h = elim (Bool-cases (p x)) [
    | inl passes ↦ elim (Bool-cases (k == name x)) [
      | inl same ↦ (x, inl refl, passes, sym ((eq_iff k (name x)).0 same))
      | inr other ↦ later (has-map-filter k xs (ground arith))
    ]
    | inr fails ↦ later (has-map-filter k xs (ground arith))
  ]
    where
      later :
          (y : A) × In y xs × (p y ≡ true) × (name y ≡ k)
          → (y : A) × In y (x ∷ xs) × (p y ≡ true) × (name y ≡ k)
      later (y, at, passes, named) = (y, inr at, passes, named)

  pub has-map-filter-of-In :
      (x : A) (xs : List A) → In x xs → p x ≡ true → has (name x) (map name (filter p xs)) ≡ true
  has-map-filter-of-In x [] at passes = absurd at
  has-map-filter-of-In x (y ∷ xs) (inl same) passes =
      rw (← same) (ground (arith, (eq_iff (name x) (name x)).1 refl))
  has-map-filter-of-In x (y ∷ xs) (inr at) passes =
      ground (arith, has-map-filter-of-In x xs at passes)

-- The names of a list that an operation has extended or thinned.
module _ {A : Type 0} (name : A → String) where
  pub has-map-append :
      (k : String) (xs : List A) (y : A)
      → has k (map name (xs ++ y ∷ [])) ≡ (has k (map name xs) || k == name y)
  has-map-append k [] y = ground arith
  has-map-append k (x ∷ xs) y = ground (arith, has-map-append k xs y)

  pub has-map-remove :
      (k gone : String) (xs : List A)
      → has k (map name (filter (λ x. not (gone == name x)) xs))
        ≡ (has k (map name xs) && not (gone == k))
  has-map-remove k gone [] = refl
  has-map-remove k gone (x ∷ xs) =
      ground
        (arith, has-map-remove k gone xs, eq_iff gone (name x), eq_iff k (name x), eq_iff gone k)

  pub has-map-of-In : (x : A) (xs : List A) → In x xs → has (name x) (map name xs) ≡ true
  has-map-of-In x [] h = absurd h
  has-map-of-In x (y ∷ xs) (inl same) = rw (← same, (eq_iff (name x) (name x)).1 refl)
  has-map-of-In x (y ∷ xs) (inr h) = ground (arith, has-map-of-In x xs h)
