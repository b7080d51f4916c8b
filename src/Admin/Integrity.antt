-- ===== src/Admin/Integrity.antt =====
-- Referential integrity of the policy tables, and rules for what a successful result satisfies.
use at_nova_platform.Prelude.{
  String, ◌==◌, ◌≡◌, refl, ap, ◌⊎◌, inl, inr, Bool, true, false, not, List, [], ◌∷◌, ◌++◌, map,
  Option, none, some, arith, eq_iff, filter, has, is_nil, In, In-append, In-filter, has-map-append,
  has-map-remove, Bool-cases,
}
use at_nova_platform.Rbac.{RoleView, RoutePolicyView}
use at_nova_platform.Admin.Tables.{CapabilityRow, ViewPermissionRow, RbacDb, Pairs}
use at_nova_platform.Admin.{
  AdminError, Result, ok, err, ◌>>=◌, ◌>>◌, throw_if, or_throw, permission_names,
  require_permissions_exist, insert_pairs,
}

-- What a successful result satisfies.
abbrev pub Ensures : {A : Type 0} → (A → Type 0) → Result A → Type 0
Ensures P (ok a) = P a
Ensures P (err e) = Unit

module _ {A B : Type 0} (P : B → Type 0) where
  pub Ensures->>= :
      (m : Result A) (k : A → Result B)
      → ((a : A) → m ≡ ok a → Ensures P (k a))
      → Ensures P (m >>= k)
  Ensures->>= (ok a) k h = h a refl
  Ensures->>= (err e) k h = tt

  pub Ensures-or_throw :
      (o : Option A) (e : AdminError) (k : A → Result B)
      → ((a : A) → o ≡ some a → Ensures P (k a))
      → Ensures P (or_throw o e >>= k)
  Ensures-or_throw none e k h = tt
  Ensures-or_throw (some a) e k h = h a refl

module _ {B : Type 0} (P : B → Type 0) where
  pub Ensures-throw_if :
      (b : Bool) (e : AdminError) (k : Result B)
      → (b ≡ false → Ensures P k)
      → Ensures P (throw_if b e >> k)
  Ensures-throw_if true e k h = tt
  Ensures-throw_if false e k h = h refl

abbrev pub role_names : RbacDb → List String
role_names db = map (λ (r : RoleView). r.name) db.roles

abbrev pub capability_ids : RbacDb → List String
capability_ids db = map (λ (c : CapabilityRow). c.id) db.capabilities

-- Every row's reference is among the names.
abbrev pub Refers : {A : Type 0} → (A → String) → List A → List String → Type 0
Refers {A} f xs names = (a : A) → In a xs → has (f a) names ≡ true

abbrev pub Within : List String → List String → Type 0
Within names more = (k : String) → has k names ≡ true → has k more ≡ true

pub record IsConsistent (db : RbacDb) : Type 0 where
  pub role_of_grant : Refers (λ (row : String × String). row.0) db.role_permissions (role_names db)
  pub permission_of_grant :
      Refers (λ (row : String × String). row.1) db.role_permissions (permission_names db)
  pub capability_of_requirement :
      Refers (λ (row : String × String). row.0) db.capability_permissions (capability_ids db)
  pub permission_of_requirement :
      Refers (λ (row : String × String). row.1) db.capability_permissions (permission_names db)
  pub permission_of_route :
      (p : RoutePolicyView)
      → In p db.route_policies
      → (q : String) → p.permission_name ≡ some q
      → has q (permission_names db) ≡ true
  pub permission_of_view :
      Refers
        (λ (v : ViewPermissionRow). v.permission_name)
        db.view_permissions
        (permission_names db)
  pub role_of_user : Refers (λ (row : String × String). row.1) db.user_roles (role_names db)

module _ {A : Type 0} (f : A → String) where
  pub Refers-Within :
      (xs : List A) (names more : List String)
      → Within names more
      → Refers f xs names
      → Refers f xs more
  Refers-Within xs names more sub h a at = sub (f a) (h a at)

  pub Refers-filter :
      (p : A → Bool) (xs : List A) (names : List String)
      → Refers f xs names
      → Refers f (filter p xs) names
  Refers-filter p xs names h a at = h a (In-filter p a xs at).0

  -- The rows that do not name `gone` refer to what is left.
  pub Refers-remove :
      {B : Type 0} (name : B → String) (gone : String) (xs : List A) (ys : List B)
      → ((a : A) → In a xs → (gone == f a) ≡ false)
      → Refers f xs (map name ys)
      → Refers f xs (map name (filter (λ y. not (gone == name y)) ys))
  Refers-remove name gone xs ys apart h a at =
      rw (has-map-remove name (f a) gone ys, h a at, apart a at)

pub Within-append :
    {A : Type 0} (name : A → String) (xs : List A) (y : A)
    → Within (map name xs) (map name (xs ++ y ∷ []))
Within-append name xs y k h = rw (has-map-append name k xs y, h)

-- The rows that `insert_pairs` returns: the old ones, and one for each name.
pub insert_pairs-In :
    (key : String) (names : List String) (rows out : Pairs)
    → insert_pairs key names rows ≡ ok out
    → (row : String × String) → In row out
    → In row rows ⊎ ((row.0 ≡ key) × (has row.1 names ≡ true))
unfolding insert_pairs
insert_pairs-In key [] rows out e row at = let same : rows ≡ out = cc in inl (rw same at)
insert_pairs-In key (p ∷ ps) rows out e row at =
    elim (insert_pairs-In key ps (rows ++ (key, p) ∷ []) out (ground arith) row at) [
      | inl old ↦ elim (In-append row rows ((key, p) ∷ []) old) [
        | inl before ↦ inl before
        | inr added ↦ elim added [
          | inl same ↦ inr (ap (λ (r : String × String). r.0) same, rw (same, (eq_iff p p).1 refl))
          | inr never ↦ absurd never
        ]
      ]
      | inr new ↦ inr (new.0, rw (new.1) (ground arith))
    ]

-- After the check every name of the list is a permission's.
pub names_exist :
    (db : RbacDb) (names : List String)
    → require_permissions_exist db names ≡ ok tt
    → Within names (permission_names db)
unfolding require_permissions_exist
names_exist db names e = all_known names (ground arith)
  where
    all_known :
        (ns : List String)
        → is_nil (filter (λ name. not (has name (permission_names db))) ns) ≡ true
        → Within ns (permission_names db)
    all_known [] h k at = cc
    all_known (n ∷ ns) h k at = elim (Bool-cases (k == n)) [
      | inl same ↦ rw ((eq_iff k n).0 same) (ground arith)
      | inr other ↦ all_known ns (ground arith) k (ground arith)
    ]

-- The grants of one key are replaced: what stays and what is new still refers to what is there.
module _ (key : String) (names : List String) (rows out : Pairs) (keys values : List String)
    (inserted : insert_pairs key names rows ≡ ok out) where
  pub Refers-insert_keys :
      has key keys ≡ true
      → Refers (λ (row : String × String). row.0) rows keys
      → Refers (λ (row : String × String). row.0) out keys
  Refers-insert_keys known h row at = elim (insert_pairs-In key names rows out inserted row at) [
    | inl old ↦ h row old
    | inr new ↦ rw (new.0) known
  ]

  pub Refers-insert_values :
      Within names values
      → Refers (λ (row : String × String). row.1) rows values
      → Refers (λ (row : String × String). row.1) out values
  Refers-insert_values known h row at = elim (insert_pairs-In key names rows out inserted row at) [
    | inl old ↦ h row old
    | inr new ↦ known row.1 new.1
  ]
