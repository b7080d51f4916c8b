-- ===== src/Admin/Bindings/Routes.antt =====
-- The rows of the table of routes after `updateRoutePolicy` of rbac-admin.service.ts.
use at_nova_platform.Prelude.{
  String, ◌==◌, ◌≡◌, refl, sym, ap, ◌∙◌, true, List, [], ◌∷◌, map, some, find, has, In, In-map,
  In-find, In-map-of, has-of-In, map-map-same, eq_iff, eq_refl, Bool-cases, inl, inr, get_or,
  if◌then◌else◌,
}
use at_nova_platform.Rbac.{RoutePolicyView}
use at_nova_platform.Admin.Tables.{RbacDb}
use at_nova_platform.Admin.{
  RbacActor, AuditEntry, mutate, find_route, assert_critical_permissions_covered,
}
use at_nova_platform.Admin.Bindings.{
  UpdateRoutePolicyBody, bound_permission, check_route_permission, update_route_policy,
}
use at_nova_platform.Admin.Integrity.{Ensures, Ensures->>=, Ensures-or_throw}

abbrev pub route_ids : List RoutePolicyView → List String
route_ids rows = map (λ (r : RoutePolicyView). r.route_id) rows

-- The route has a row, and all its rows have what the body asks for.
pub record IsRebound (id : String) (body : UpdateRoutePolicyBody) (rows : List RoutePolicyView)
    : Type 0 where
  pub there : has id (route_ids rows) ≡ true
  pub bound :
      (r : RoutePolicyView)
      → In r rows
      → r.route_id ≡ id
      → (r.kind ≡ body.kind) × (r.permission_name ≡ bound_permission body)

module _ (id : String) (body : UpdateRoutePolicyBody) (db : RbacDb) where
  abbrev rebind : RoutePolicyView → RoutePolicyView
  rebind p =
      if id == p.route_id
      then (record p {
        kind = body.kind;
        permission_name = bound_permission body;
        audit = get_or body.audit p.audit;
      })
      else p

  rebind_id : (p : RoutePolicyView) → (rebind p).route_id ≡ p.route_id
  rebind_id p = elim (Bool-cases (id == p.route_id)) [
    | inl here ↦ rw here refl
    | inr other ↦ rw other refl
  ]

  rebind_bound :
      (p : RoutePolicyView)
      → p.route_id ≡ id
      → ((rebind p).kind ≡ body.kind) × ((rebind p).permission_name ≡ bound_permission body)
  rebind_bound p same = rw (same, eq_refl id) (refl, refl)

  found-named :
      (p : RoutePolicyView) (rows : List RoutePolicyView)
      → find (λ (r : RoutePolicyView). id == r.route_id) rows ≡ some p
      → (id == p.route_id) ≡ true
  found-named p [] e = cc
  found-named p (r ∷ rows) e = elim (Bool-cases (id == r.route_id)) [
    | inl here ↦
        let same_row : some r ≡ some p = rw here at e in let same : r ≡ p = cc in rw (← same) here
    | inr other ↦ found-named p rows (rw other at e)
  ]

  rebind-IsRebound :
      (p : RoutePolicyView)
      → find_route id db ≡ some p
      → IsRebound id body (map rebind db.route_policies)
  rebind-IsRebound p found = record {
    there =
        rw (map-map-same (λ (r : RoutePolicyView). r.route_id) rebind db.route_policies rebind_id) (
          has-of-In id (route_ids db.route_policies) (
            named (
              In-map-of (λ (r : RoutePolicyView). r.route_id) p db.route_policies
                (In-find (λ (r : RoutePolicyView). id == r.route_id) p db.route_policies found))));
    bound = λ r at same.
        let (q, was, made) = In-map rebind r db.route_policies at in
        let q_id : q.route_id ≡ id =
          sym (rebind_id q) ∙ ap (λ (s : RoutePolicyView). s.route_id) (sym made) ∙ same in
        let (kind, permission) = rebind_bound q q_id in
        (
          ap (λ (s : RoutePolicyView). s.kind) made ∙ kind,
          ap (λ (s : RoutePolicyView). s.permission_name) made ∙ permission,
        );
  }
    where
      named : In p.route_id (route_ids db.route_policies) → In id (route_ids db.route_policies)
      named at =
          let same : id ≡ p.route_id =
            (eq_iff id p.route_id).0 (found-named p db.route_policies found) in
          rw same at

  update_route_policy-IsRebound :
      Ensures
        (λ (out : RbacDb × AuditEntry). IsRebound id body out.0.route_policies)
        (update_route_policy id body db)
  unfolding update_route_policy
  update_route_policy-IsRebound =
      let P = λ (out : RbacDb × AuditEntry). IsRebound id body out.0.route_policies in
      Ensures-or_throw P (find_route id db) _ _ λ p found.
        Ensures->>= P (check_route_permission body.kind (bound_permission body) db) _
          λ _ _. rebind-IsRebound p found

  pub mutate-IsRebound :
      (actor : RbacActor)
      → Ensures
          (λ (after : RbacDb). IsRebound id body after.route_policies)
          (mutate actor (update_route_policy id body) db)
  unfolding mutate
  mutate-IsRebound actor =
      let done = update_route_policy-IsRebound in
      let P = λ (after : RbacDb). IsRebound id body after.route_policies in
      Ensures->>= P (update_route_policy id body db) _ λ (out : RbacDb × AuditEntry) e.
        let kept : IsRebound id body out.0.route_policies = rw e at done in
        Ensures->>= P (assert_critical_permissions_covered out.0) _ λ _ _. kept
