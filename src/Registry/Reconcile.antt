-- ===== src/Registry/Reconcile.antt =====
-- backend-services/api/src/rbac/route-policy-reconciler.ts: the rows of the routes that the code declares.
use at_nova_platform.Prelude.{
  String, ◌==◌, ◌≡◌, refl, sym, ap, ◌∙◌, inl, inr, Bool, true, false, List, [], ◌∷◌, ◌++◌, Option,
  none, some, find, has, is_some, arith, eq_iff, Bool-cases, if◌then◌else◌,
}
use at_nova_platform.Rbac.{public, authenticated, permission, RoutePolicyView}
use at_nova_platform.Rbac.Authorize.{
  RouteAccessPolicy, public_route, authenticated_route, permission_route, other_shape, is_true,
}
use at_nova_platform.Admin.Tables.{RbacDb}
use at_nova_platform.Admin.{permission_names}

abbrev pub Rows : Type 0
Rows = List RoutePolicyView

-- `toRow`; `none` is the error for an unsupported shape.
abbrev pub to_row : RouteAccessPolicy → Option RoutePolicyView
to_row (public_route id) =
    some (record { route_id = id; kind = public; permission_name = none; audit = false })
to_row (authenticated_route id audit) =
    some (record {
      route_id = id;
      kind = authenticated;
      permission_name = none;
      audit = is_true audit;
    })
to_row (permission_route id required audit) = some (record {
  route_id = id;
  kind = permission;
  permission_name = some required;
  audit = is_true audit;
})
to_row (other_shape id) = none

abbrev pub cons_row : Option RoutePolicyView → Option Rows → Option Rows
cons_row (some row) (some rows) = some (row ∷ rows)
cons_row none rows = none
cons_row (some row) none = none

abbrev pub to_rows : List RouteAccessPolicy → Option Rows
to_rows [] = some []
to_rows (policy ∷ policies) = cons_row (to_row policy) (to_rows policies)

abbrev pub row_with : String → Rows → Option RoutePolicyView
row_with id rows = find (λ (r : RoutePolicyView). id == r.route_id) rows

abbrev pub exists_for : List String → Option String → Bool
exists_for names none = true
exists_for names (some p) = has p names

-- A row of `INSERT … ON CONFLICT DO NOTHING`: a key that is taken is skipped; a new row with an
-- unknown permission fails the statement.
abbrev pub insert_or_ignore : List String → Option Rows → RoutePolicyView → Option Rows
insert_or_ignore names none row = none
insert_or_ignore names (some rows) row =
    if is_some (row_with row.route_id rows)
    then some rows
    else if exists_for names row.permission_name
    then some (rows ++ row ∷ [])
    else none

abbrev pub insert_all : List String → Option Rows → Rows → Option Rows
insert_all names rows [] = rows
insert_all names rows (row ∷ more) = insert_all names (insert_or_ignore names rows row) more

abbrev pub with_routes : RbacDb → Option Rows → Option RbacDb
with_routes db none = none
with_routes db (some rows) = some (record db { route_policies = rows })

abbrev pub insert_rows : RbacDb → Option Rows → Option RbacDb
insert_rows db none = none
insert_rows db (some rows) =
    with_routes db (insert_all (permission_names db) (some db.route_policies) rows)

-- `none` is an error, which ends the boot with the tables as they were.
unfoldable pub reconcile_route_policies : List RouteAccessPolicy → RbacDb → Option RbacDb
reconcile_route_policies [] db = some db
reconcile_route_policies (policy ∷ policies) db = insert_rows db (to_rows (policy ∷ policies))

-- The first of two that is there.
abbrev pub or_else : Option RoutePolicyView → Option RoutePolicyView → Option RoutePolicyView
or_else none second = second
or_else (some row) second = some row

row_with-append :
    (id : String) (rows more : Rows)
    → row_with id (rows ++ more) ≡ or_else (row_with id rows) (row_with id more)
row_with-append id [] more = refl
row_with-append id (r ∷ rows) more = ground (arith, row_with-append id rows more)

insert_all-none :
    (names : List String) (rows : Rows) → Path (Option Rows) (insert_all names none rows) none
insert_all-none names [] = refl
insert_all-none names (row ∷ rows) = insert_all-none names rows

-- How a row that went through changed the table.
pub data IsInserted (names : List String) (before : Rows) (row : RoutePolicyView)
    : Rows → Type 0 where
  ignored : is_some (row_with row.route_id before) ≡ true → IsInserted names before row before
  inserted :
      is_some (row_with row.route_id before) ≡ false
      → exists_for names row.permission_name ≡ true
      → IsInserted names before row (before ++ row ∷ [])

-- The first row went through, and so did the others after it.
pub insert_all-cons :
    (names : List String) (before : Rows) (row : RoutePolicyView) (more out : Rows)
    → insert_all names (some before) (row ∷ more) ≡ some out
    → (next : Rows) × IsInserted names before row next
      × (insert_all names (some next) more ≡ some out)
insert_all-cons names before row more out went =
    elim (Bool-cases (is_some (row_with row.route_id before))) [
      | inl taken ↦ (before, ignored taken, rw taken at went)
      | inr free ↦ elim (Bool-cases (exists_for names row.permission_name)) [
        | inl known ↦ (before ++ row ∷ [], inserted free known, rw (free, known) at went)
        | inr unknown ↦
            let never : insert_all names none more ≡ some out = rw (free, unknown) at went in
            let absent = insert_all-none names more in cc
      ]
    ]

IsInserted-row_with :
    (names : List String) (before next : Rows) (row : RoutePolicyView) (id : String)
    → IsInserted names before row next
    → row_with id next ≡ or_else (row_with id before) (row_with id (row ∷ []))
IsInserted-row_with names before next row id (ignored taken) =
    elim (Bool-cases (id == row.route_id)) [
      | inl same ↦
          let here : is_some (row_with id before) ≡ true =
            rw ((eq_iff id row.route_id).0 same) taken in
          ground arith
      | inr other ↦ ground arith
    ]
IsInserted-row_with names before next row id (inserted free known) =
    row_with-append id before (row ∷ [])

or_else_assoc : (a b c : Option RoutePolicyView) → or_else (or_else a b) c ≡ or_else a (or_else b c)
or_else_assoc none b c = refl
or_else_assoc (some row) b c = refl

pub insert_all-row_with :
    (names : List String) (before rows out : Rows) (id : String)
    → insert_all names (some before) rows ≡ some out
    → row_with id out ≡ or_else (row_with id before) (row_with id rows)
insert_all-row_with names before [] out id went =
    let same : before ≡ out = cc in ground (arith, ap (row_with id) same)
insert_all-row_with names before (row ∷ rows) out id went =
    let (next, how, rest) = insert_all-cons names before row rows out went in
    insert_all-row_with names next rows out id rest
    ∙ ap (λ o. or_else o (row_with id rows)) (IsInserted-row_with names before next row id how)
    ∙ or_else_assoc (row_with id before) (row_with id (row ∷ [])) (row_with id rows)
    ∙ ap (or_else (row_with id before)) (sym (row_with-append id (row ∷ []) rows))
