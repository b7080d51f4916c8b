-- ===== src/Registry/Reconciled.antt =====
-- What the boot's reconciliation leaves behind: route-policy-reconciler.ts.
use at_nova_platform.Prelude.{
  String, ◌==◌, ◌≡◌, refl, sym, ap, ◌∙◌, inl, inr, Bool, true, false, List, [], ◌∷◌, ◌++◌, map,
  Option, none, some, has, is_some, In, In-append, all, Bool-cases, arith, eq_refl, find-of-In,
}
use at_nova_platform.Rbac.{RoutePolicyView}
use at_nova_platform.Rbac.Authorize.{
  RouteAccessPolicy, public_route, authenticated_route, permission_route, other_shape,
  declared_policy,
}
use at_nova_platform.Admin.Tables.{RbacDb}
use at_nova_platform.Admin.{permission_names, find_route}
use at_nova_platform.Admin.Integrity.{IsConsistent}
use at_nova_platform.Registry.Reconcile.{
  Rows, to_row, to_rows, cons_row, row_with, insert_all, with_routes, insert_rows, or_else,
  exists_for, IsInserted, ignored, inserted, insert_all-cons, insert_all-row_with,
  reconcile_route_policies,
}

-- The permissions that the rows name exist.
abbrev AreKnown : List String → Rows → Type 0
AreKnown names rows =
    (p : RoutePolicyView)
    → In p rows
    → (q : String) → p.permission_name ≡ some q
    → has q names ≡ true

IsInserted-AreKnown :
    (names : List String) (before next : Rows) (row : RoutePolicyView)
    → IsInserted names before row next
    → AreKnown names before
    → AreKnown names next
IsInserted-AreKnown names before next row (ignored taken) known p at q named = known p at q named
IsInserted-AreKnown names before next row (inserted free exists) known p at q named =
    elim (In-append p before (row ∷ []) at) [
      | inl old ↦ known p old q named
      | inr new ↦ elim new [
        | inl same ↦
            let needs : row.permission_name ≡ some q =
              sym (ap (λ (r : RoutePolicyView). r.permission_name) same) ∙ named in
            rw needs at exists
        | inr never ↦ absurd never
      ]
    ]

insert_all-AreKnown :
    (names : List String) (before rows out : Rows)
    → insert_all names (some before) rows ≡ some out
    → AreKnown names before
    → AreKnown names out
insert_all-AreKnown names before [] out went known =
    let same : before ≡ out = cc in rw (← same) known
insert_all-AreKnown names before (row ∷ rows) out went known =
    let (next, how, rest) = insert_all-cons names before row rows out went in
    insert_all-AreKnown names next rows out rest
      (IsInserted-AreKnown names before next row how known)

-- Rows that are all there already change nothing.
insert_all-taken :
    (names : List String) (rows table : Rows)
    → ((r : RoutePolicyView) → In r rows → is_some (row_with r.route_id table) ≡ true)
    → insert_all names (some table) rows ≡ some table
insert_all-taken names [] table taken = refl
insert_all-taken names (r ∷ rows) table taken =
    rw (taken r (inl refl)) (insert_all-taken names rows table (λ q at. taken q (inr at)))

insert_all-again :
    (names : List String) (before rows out : Rows)
    → insert_all names (some before) rows ≡ some out
    → insert_all names (some out) rows ≡ some out
insert_all-again names before rows out went = insert_all-taken names rows out λ r at.
    let (first, found) =
      find-of-In (λ (q : RoutePolicyView). r.route_id == q.route_id) r rows at
        (eq_refl r.route_id) in
    let there = insert_all-row_with names before rows out r.route_id went in
    rw (there, found) (or_else-some (row_with r.route_id before) first)
  where
    or_else-some :
        (o : Option RoutePolicyView) (row : RoutePolicyView) → is_some (or_else o (some row)) ≡ true
    or_else-some none row = refl
    or_else-some (some old) row = refl

cons_row-declared_policy :
    (policy : RouteAccessPolicy) (rest : Option Rows) (rows : Rows)
    → cons_row (to_row policy) rest ≡ some rows
    → (tail : Rows) × (rest ≡ some tail) × (rows ≡ declared_policy policy ∷ tail)
cons_row-declared_policy (public_route id) (some tail) rows went = (tail, refl, cc)
cons_row-declared_policy (authenticated_route id audit) (some tail) rows went = (tail, refl, cc)
cons_row-declared_policy (permission_route id p audit) (some tail) rows went = (tail, refl, cc)
cons_row-declared_policy (other_shape id) (some tail) rows went = cc
cons_row-declared_policy (public_route id) none rows went = cc
cons_row-declared_policy (authenticated_route id audit) none rows went = cc
cons_row-declared_policy (permission_route id p audit) none rows went = cc
cons_row-declared_policy (other_shape id) none rows went = cc

-- The rows are what the middleware takes for declared.
to_rows-declared_policy :
    (policies : List RouteAccessPolicy) (rows : Rows)
    → to_rows policies ≡ some rows
    → rows ≡ map declared_policy policies
to_rows-declared_policy [] rows went = cc
to_rows-declared_policy (policy ∷ policies) rows went =
    let (tail, before, same) = cons_row-declared_policy policy (to_rows policies) rows went in
    same ∙ ap (λ t. declared_policy policy ∷ t) (to_rows-declared_policy policies tail before)

-- What a boot that went through leaves behind.
pub record IsReconciled (policies : List RouteAccessPolicy) (before after : RbacDb) : Type 0 where
  pub bound :
      (id : String)
      → find_route id after
        ≡ or_else (find_route id before) (row_with id (map declared_policy policies))
  pub consistent : IsConsistent after
  pub again : reconcile_route_policies policies after ≡ some after

insert_rows-IsReconciled :
    (policy : RouteAccessPolicy) (policies : List RouteAccessPolicy) (before : RbacDb)
    → IsConsistent before
    → (rows : Rows) → to_rows (policy ∷ policies) ≡ some rows
    → (out : Rows)
    → insert_all (permission_names before) (some before.route_policies) rows ≡ some out
    → IsReconciled (policy ∷ policies) before (record before { route_policies = out })
unfolding reconcile_route_policies
insert_rows-IsReconciled policy policies before c rows listed out went = record {
  bound = λ id.
      insert_all-row_with (permission_names before) before.route_policies rows out id went
      ∙ ap (λ l. or_else (find_route id before) (row_with id l))
          (to_rows-declared_policy (policy ∷ policies) rows listed);
  consistent = record {
    role_of_grant = c.role_of_grant;
    permission_of_grant = c.permission_of_grant;
    capability_of_requirement = c.capability_of_requirement;
    permission_of_requirement = c.permission_of_requirement;
    permission_of_route =
        insert_all-AreKnown (permission_names before) before.route_policies rows out went
          c.permission_of_route;
    permission_of_view = c.permission_of_view;
    role_of_user = c.role_of_user;
  };
  again =
      ap (insert_rows (record before { route_policies = out })) listed
      ∙ ap (with_routes (record before { route_policies = out }))
          (insert_all-again (permission_names before) before.route_policies rows out went);
}

-- A policy with a shape of the union, which asks for a permission that exists.
abbrev pub is_declarable : List String → RouteAccessPolicy → Bool
is_declarable names (public_route id) = true
is_declarable names (authenticated_route id audit) = true
is_declarable names (permission_route id p audit) = has p names
is_declarable names (other_shape id) = false

abbrev has_known : List String → RoutePolicyView → Bool
has_known names row = exists_for names row.permission_name

declarable-row :
    (names : List String) (policy : RouteAccessPolicy)
    → is_declarable names policy ≡ true
    → (row : RoutePolicyView) × (to_row policy ≡ some row) × (has_known names row ≡ true)
declarable-row names (public_route id) h = (declared_policy (public_route id), refl, refl)
declarable-row names (authenticated_route id audit) h =
    (declared_policy (authenticated_route id audit), refl, refl)
declarable-row names (permission_route id p audit) h =
    (declared_policy (permission_route id p audit), refl, h)
declarable-row names (other_shape id) h = cc

declarable-rows :
    (names : List String) (policies : List RouteAccessPolicy)
    → all (is_declarable names) policies ≡ true
    → (rows : Rows) × (to_rows policies ≡ some rows) × (all (has_known names) rows ≡ true)
declarable-rows names [] h = ([], refl, refl)
declarable-rows names (policy ∷ policies) h =
    let (row, made, known) = declarable-row names policy (ground arith) in
    let (rows, listed, all_known) = declarable-rows names policies (ground arith) in
    (row ∷ rows, rw (made, listed) refl, rw known all_known)

insert_all-total :
    (names : List String) (before rows : Rows)
    → all (has_known names) rows ≡ true
    → (out : Rows) × (insert_all names (some before) rows ≡ some out)
insert_all-total names before [] h = (before, refl)
insert_all-total names before (row ∷ rows) h =
    elim (Bool-cases (is_some (row_with row.route_id before))) [
      | inl taken ↦
          let (out, went) = insert_all-total names before rows (ground arith) in
          (out, rw taken went)
      | inr free ↦
          let known : has_known names row ≡ true = ground arith in
          let (out, went) = insert_all-total names (before ++ row ∷ []) rows (ground arith) in
          (out, rw (free, known) went)
    ]

-- Over tables whose references are all good, policies with a supported shape that ask for permissions
-- that exist are reconciled: a route's row stays as it was, a route without one gets its first declared
-- policy, as the middleware reads it, no other row appears, the references stay good, and a second
-- reconciliation changes nothing.
pub reconcile_route_policies-IsReconciled :
    (policies : List RouteAccessPolicy) (before : RbacDb)
    → IsConsistent before
    → all (is_declarable (permission_names before)) policies ≡ true
    → (after : RbacDb) × (reconcile_route_policies policies before ≡ some after)
      × IsReconciled policies before after
unfolding reconcile_route_policies
reconcile_route_policies-IsReconciled [] before c h =
    (before, refl, record { bound = λ id. ground arith; consistent = c; again = refl })
reconcile_route_policies-IsReconciled (policy ∷ policies) before c h =
    let names = permission_names before in
    let (rows, listed, known) = declarable-rows names (policy ∷ policies) h in
    let (out, went) = insert_all-total names before.route_policies rows known in
    (
      record before { route_policies = out },
      ap (insert_rows before) listed ∙ ap (with_routes before) went,
      insert_rows-IsReconciled policy policies before c rows listed out went,
    )
