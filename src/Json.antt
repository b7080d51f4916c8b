-- ===== src/Json.antt =====
-- The values that a JSON parse tree is made of, and their access as JavaScript does it.
use at_nova_platform.Prelude.{
  String, Bool, true, false, ◌≡◌, refl, ◌⊎◌, inl, inr, ◌==◌, Option, none, some, if◌then◌else◌,
}

-- A number is kept as its text: the validator reads none.
mutual
  pub data Json : Type 0 where
    undefined : Json
    null : Json
    bool : Bool → Json
    num : String → Json
    str : String → Json
    arr : Items → Json
    obj : Fields → Json

  pub data Items : Type 0 where
    nil : Items
    cons : Json → Items → Items

  pub data Fields : Type 0 where
    end : Fields
    field : String → Json → Fields → Fields

-- `isRecord`: arrays are objects too.
abbrev pub is_record : Json → Bool
is_record (arr items) = true
is_record (obj fields) = true
is_record _ = false

abbrev pub lookup_field : String → Fields → Json
lookup_field key end = undefined
lookup_field key (field k v fs) = if key == k then v else lookup_field key fs

-- `value[key]`, for a key that is no index and no method of arrays.
abbrev pub get : String → Json → Json
get key (obj fields) = lookup_field key fields
get key _ = undefined

-- `value !== null && value !== undefined`
abbrev pub is_present : Json → Bool
is_present undefined = false
is_present null = false
is_present _ = true

-- `typeof value === 'string' ? value : undefined`
abbrev pub as_string : Json → Option String
as_string (str s) = some s
as_string _ = none

-- A field `key: value` stands somewhere in a tree, at any depth.
mutual
  pub data Occurs (key : String) (value : Json) : Json → Type 0 where
    in_array : {xs : Items} → OccursInItems key value xs → Occurs key value (arr xs)
    in_object : {fs : Fields} → OccursInFields key value fs → Occurs key value (obj fs)

  pub data OccursInItems (key : String) (value : Json) : Items → Type 0 where
    at_head : {x : Json} {xs : Items} → Occurs key value x → OccursInItems key value (cons x xs)
    at_tail :
        {x : Json} {xs : Items} → OccursInItems key value xs → OccursInItems key value (cons x xs)

  pub data OccursInFields (key : String) (value : Json) : Fields → Type 0 where
    at_field : {fs : Fields} → OccursInFields key value (field key value fs)
    at_value :
        {k : String} {v : Json} {fs : Fields}
        → Occurs key value v
        → OccursInFields key value (field k v fs)
    at_rest :
        {k : String} {v : Json} {fs : Fields}
        → OccursInFields key value fs
        → OccursInFields key value (field k v fs)

-- Where an occurrence can be, by the shape of the tree.
module _ {key : String} {value : Json} where
  pub not-Occurs : {j : Json} → is_record j ≡ false → Occurs key value j → ⊥
  not-Occurs e (in_array h) = cc
  not-Occurs e (in_object h) = cc

  pub Occurs-arr : {xs : Items} → Occurs key value (arr xs) → OccursInItems key value xs
  Occurs-arr (in_array h) = h

  pub Occurs-obj : {fs : Fields} → Occurs key value (obj fs) → OccursInFields key value fs
  Occurs-obj (in_object h) = h

  pub not-OccursInItems-nil : OccursInItems key value nil → ⊥
  not-OccursInItems-nil h = elim h [ ]

  pub OccursInItems-cons :
      {x : Json} {xs : Items}
      → OccursInItems key value (cons x xs)
      → Occurs key value x ⊎ OccursInItems key value xs
  OccursInItems-cons (at_head h) = inl h
  OccursInItems-cons (at_tail h) = inr h

  pub not-OccursInFields-end : OccursInFields key value end → ⊥
  not-OccursInFields-end h = elim h [ ]

  pub OccursInFields-field :
      {k : String} {v : Json} {fs : Fields}
      → OccursInFields key value (field k v fs)
      → ((key ≡ k) × (value ≡ v)) ⊎ (Occurs key value v ⊎ OccursInFields key value fs)
  OccursInFields-field at_field = inl (refl, refl)
  OccursInFields-field (at_value h) = inr (inl h)
  OccursInFields-field (at_rest h) = inr (inr h)
