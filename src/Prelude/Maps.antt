-- ===== src/Prelude/Maps.antt =====
-- A JavaScript `Map` keyed by texts: its entries in the order of first insertion.
use Prim.Native.String.{String}
use mathlib.Core.Path.{◌≡◌, refl, ap, ◌∙◌}
use mathlib.Core.List.{List, [], ◌∷◌, map}
use mathlib.Core.Logic.{inl, inr}
use mathlib.Core.Bool.{true, false}
use mathlib.Core.Option.{Option, none, some}
use native.Mathlib.Omega.{arith}
use text.Mathlib.Text.{◌==◌}
use text.Mathlib.TextEquality.{eq_iff}
use at_nova_platform.Prelude.Tests.{if◌then◌else◌, Bool-cases}
use at_nova_platform.Prelude.Lists.{In}
use at_nova_platform.Prelude.Texts.{has}

module _ {ℓ} {V : Type ℓ} where
  abbrev pub map_get : String → List (String × V) → Option V
  map_get k [] = none
  map_get k ((j, v) ∷ m) = if k == j then some v else map_get k m

  -- The value of an old key is replaced where it stands.
  abbrev pub map_set : String → V → List (String × V) → List (String × V)
  map_set k v [] = (k, v) ∷ []
  map_set k v ((j, w) ∷ m) = if k == j then (j, v) ∷ m else (j, w) ∷ map_set k v m

  abbrev pub set_all : List (String × V) → List (String × V) → List (String × V)
  set_all m [] = m
  set_all m ((k, v) ∷ entries) = set_all (map_set k v m) entries

  -- `new Map(entries)`
  abbrev pub map_of : List (String × V) → List (String × V)
  map_of entries = set_all [] entries

  pub map_get-map_set :
      (k j : String) (v : V) (m : List (String × V))
      → map_get k (map_set j v m) ≡ (if k == j then some v else map_get k m)
  map_get-map_set k j v [] = refl
  map_get-map_set k j v ((i, w) ∷ m) =
      ground (arith, eq_iff k j, eq_iff j i, eq_iff k i, map_get-map_set k j v m)

module _ {V : Type 0} where
  -- A key of the entries has one of their values; another key has the value that it had.
  pub map_get-set_all-other :
      (k : String) (m entries : List (String × V))
      → has k (map (λ (e : String × V). e.0) entries) ≡ false
      → map_get k (set_all m entries) ≡ map_get k m
  map_get-set_all-other k m [] h = refl
  map_get-set_all-other k m ((j, v) ∷ entries) h =
      rw (map_get-set_all-other k (map_set j v m) entries (ground arith), map_get-map_set k j v m)
        (ground arith)

  pub map_get-set_all :
      (k : String) (m entries : List (String × V))
      → has k (map (λ (e : String × V). e.0) entries) ≡ true
      → (v : V) × In (k, v) entries × (map_get k (set_all m entries) ≡ some v)
  map_get-set_all k m [] h = cc
  map_get-set_all k m ((j, w) ∷ entries) h =
      elim (Bool-cases (has k (map (λ (e : String × V). e.0) entries))) [
        | inl later ↦
            let (v, at, got) = map_get-set_all k (map_set j w m) entries later in (v, inr at, got)
        | inr last ↦
            let here : (k == j) ≡ true = ground arith in
            (
              w,
              inl (ap (λ (x : String). (x, w)) ((eq_iff k j).0 here)),
              (map_get-set_all-other k (map_set j w m) entries last
                  ∙ map_get-map_set k j w m
                  ∙ rw here refl),
            )
      ]
