-- ===== src/Admin/Bindings/Preserve.antt =====
-- Referential integrity through the operations of rbac-admin.service.ts on capabilities, routes and
-- views.
use at_nova_platform.Prelude.{
  String, ◌==◌, ◌≡◌, refl, sym, ap, ◌∙◌, ◌⊎◌, inl, inr, true, List, [], ◌∷◌, ◌++◌, map, Option,
  none, some, arith, eq_iff, any, has, is_some, get_or, if◌then◌else◌, In, In-append, In-map,
  map-map-same, Bool-cases,
}
use at_nova_platform.Rbac.{
  RoutePolicyKind, public, authenticated, permission, RoutePolicyView, ViewMode,
}
use at_nova_platform.Admin.Tables.{CapabilityRow, ViewPermissionRow, RbacDb}
use at_nova_platform.Admin.{
  ok, permission_names, require_permissions_exist, find_capability, find_route, insert_pairs,
}
use at_nova_platform.Admin.Bindings.{
  CreateCapabilityBody, UpdateCapabilityBody, UpdateRoutePolicyBody, create_capability,
  patch_capability, replace_requirements, update_capability, delete_capability, bound_permission,
  check_route_permission, update_route_policy, is_binding, upsert_view, update_view_permission, Op,
  role_create, role_update, role_delete, permission_create, permission_update, permission_delete,
  grants_set, capability_create, capability_update, capability_delete, route_update, view_update,
  work,
}
use at_nova_platform.Admin.Integrity.{
  Ensures, Ensures->>=, Ensures-or_throw, Ensures-throw_if, capability_ids, IsConsistent,
  Refers-Within, Refers-filter, Within-append, names_exist, Refers-insert_keys,
  Refers-insert_values,
}
use at_nova_platform.Admin.Preserve.{
  Keeps, After, has-find, Refers-thin, create_role-Keeps, update_role-Keeps, delete_role-Keeps,
  create_permission-Keeps, update_permission-Keeps, delete_permission-Keeps,
  set_role_permissions-Keeps,
}

has-new_name :
    {A : Type 0} (name : A → String) (xs : List A) (y : A)
    → has (name y) (map name (xs ++ y ∷ [])) ≡ true
has-new_name name [] y = rw ((eq_iff (name y) (name y)).1 refl) refl
has-new_name name (x ∷ xs) y = rw (has-new_name name xs y) (ground arith)

module _ (db : RbacDb) (c : IsConsistent db) where
  pub create_capability-Keeps : (body : CreateCapabilityBody) → Keeps (create_capability body db)
  unfolding create_capability
  create_capability-Keeps body =
      Ensures-throw_if After (is_some (find_capability body.id db)) _ _ λ fresh.
        Ensures->>= After (require_permissions_exist db body.required_permissions) _ λ _ known.
          Ensures->>= After (insert_pairs body.id body.required_permissions _) _ λ rows inserted.
            let more = Within-append (λ (d : CapabilityRow). d.id) db.capabilities _ in
            record {
              role_of_grant = c.role_of_grant;
              permission_of_grant = c.permission_of_grant;
              capability_of_requirement =
                  Refers-insert_keys body.id body.required_permissions _ rows _
                    (permission_names db) inserted
                    (has-new_name (λ (d : CapabilityRow). d.id) db.capabilities _)
                    (Refers-Within (λ (row : String × String). row.0) db.capability_permissions
                      (capability_ids db) _ more c.capability_of_requirement);
              permission_of_requirement =
                  Refers-insert_values body.id body.required_permissions _ rows (capability_ids db)
                    (permission_names db) inserted (names_exist db _ known)
                    c.permission_of_requirement;
              permission_of_route = c.permission_of_route;
              permission_of_view = c.permission_of_view;
              role_of_user = c.role_of_user;
            }

  patched_ids :
      (id : String) (body : UpdateCapabilityBody)
      → map (λ (d : CapabilityRow). d.id) (map (patch_capability id body) db.capabilities)
        ≡ capability_ids db
  unfolding patch_capability
  patched_ids id body =
      map-map-same (λ (d : CapabilityRow). d.id) _ db.capabilities (λ d. ground arith)

  patched :
      (id : String) (body : UpdateCapabilityBody)
      → IsConsistent (record db { capabilities = map (patch_capability id body) db.capabilities })
  patched id body = record {
    role_of_grant = c.role_of_grant;
    permission_of_grant = c.permission_of_grant;
    capability_of_requirement =
        λ row at. rw (patched_ids id body) (c.capability_of_requirement row at);
    permission_of_requirement = c.permission_of_requirement;
    permission_of_route = c.permission_of_route;
    permission_of_view = c.permission_of_view;
    role_of_user = c.role_of_user;
  }

  pub delete_capability-Keeps : (id : String) → Keeps (delete_capability id db)
  unfolding delete_capability
  delete_capability-Keeps id = Ensures-or_throw After (find_capability id db) _ _ λ d found.
      elim (Bool-cases d.is_system) [
        | inl built_in ↦ rw built_in tt
        | inr custom ↦ rw custom (record {
          role_of_grant = c.role_of_grant;
          permission_of_grant = c.permission_of_grant;
          capability_of_requirement =
              Refers-thin (λ (row : String × String). row.0) (λ (d : CapabilityRow). d.id) id
                db.capability_permissions db.capabilities c.capability_of_requirement;
          permission_of_requirement =
              Refers-filter (λ (row : String × String). row.1) _ db.capability_permissions _
                c.permission_of_requirement;
          permission_of_route = c.permission_of_route;
          permission_of_view = c.permission_of_view;
          role_of_user = c.role_of_user;
        })
      ]

  -- The name that the operation binds: only a route that wants a permission has one.
  abbrev chosen : RoutePolicyKind → Option String → Option String
  chosen kind name = elim kind [ permission ↦ name | _ ↦ none ]

  first_known :
      (n : String)
      → require_permissions_exist db (n ∷ []) ≡ ok tt
      → has n (permission_names db) ≡ true
  first_known n e = names_exist db (n ∷ []) e n (rw ((eq_iff n n).1 refl) refl)

  -- A binding that passed the checks names a permission that is there.
  bound_known :
      (kind : RoutePolicyKind) (name : Option String) (q : String)
      → check_route_permission kind (chosen kind name) db ≡ ok tt
      → chosen kind name ≡ some q
      → has q (permission_names db) ≡ true
  bound_known permission (some n) q e same = elim (Bool-cases (n == "")) [
    | inl empty ↦ ground arith
    | inr named ↦ let known = first_known n (rw named at e) in ground arith
  ]
  bound_known permission none q e same = cc
  bound_known public name q e same = cc
  bound_known authenticated name q e same = cc

  rebound :
      (id : String) (body : UpdateRoutePolicyBody) (r old : RoutePolicyView) (q : String)
      → check_route_permission body.kind (bound_permission body) db ≡ ok tt
      → In old db.route_policies
      → r ≡ (
          if id == old.route_id
          then (record old {
            kind = body.kind;
            permission_name = bound_permission body;
            audit = get_or body.audit old.audit;
          })
          else old)
      → r.permission_name ≡ some q
      → has q (permission_names db) ≡ true
  rebound id body r old q checked was same e = elim (Bool-cases (id == old.route_id)) [
    | inl this ↦
        bound_known body.kind body.permission_name q checked
          (sym (ap (λ (x : RoutePolicyView). x.permission_name) (rw this at same)) ∙ e)
    | inr other ↦
        c.permission_of_route old was q
          (sym (ap (λ (x : RoutePolicyView). x.permission_name) (rw other at same)) ∙ e)
  ]

  pub update_route_policy-Keeps :
      (id : String) (body : UpdateRoutePolicyBody) → Keeps (update_route_policy id body db)
  unfolding update_route_policy
  update_route_policy-Keeps id body = Ensures-or_throw After (find_route id db) _ _ λ p found.
      Ensures->>= After (check_route_permission body.kind (bound_permission body) db) _ λ _ checked.
        record {
          role_of_grant = c.role_of_grant;
          permission_of_grant = c.permission_of_grant;
          capability_of_requirement = c.capability_of_requirement;
          permission_of_requirement = c.permission_of_requirement;
          permission_of_route = λ r at q e.
              let (old, was, same) = In-map _ r db.route_policies at in
              rebound id body r old q checked was same e;
          permission_of_view = c.permission_of_view;
          role_of_user = c.role_of_user;
        }

  upserted :
      (row : ViewPermissionRow) (rows : List ViewPermissionRow) (v : ViewPermissionRow)
      → In v (upsert_view row rows)
      → (v ≡ row) ⊎ In v rows
  upserted row rows v at = elim (Bool-cases (any (is_binding row.view_name row.mode) rows)) [
    | inl known ↦
        let (old, was, same) = In-map _ v rows (rw known at at) in
        elim (Bool-cases (is_binding row.view_name row.mode old)) [
          | inl this ↦ inl (rw (same, this) refl)
          | inr other ↦ inr (rw (same, other) was)
        ]
    | inr new ↦ elim (In-append v rows (row ∷ []) (rw new at at)) [
      | inl before ↦ inr before
      | inr added ↦ elim added [ inl same ↦ inl same | inr never ↦ absurd never ]
    ]
  ]

  pub update_view_permission-Keeps :
      (view_name : String) (mode : ViewMode) (name : String)
      → Keeps (update_view_permission view_name mode name db)
  unfolding update_view_permission
  update_view_permission-Keeps view_name mode name =
      Ensures->>= After (require_permissions_exist db (name ∷ [])) _ λ _ known. record {
        role_of_grant = c.role_of_grant;
        permission_of_grant = c.permission_of_grant;
        capability_of_requirement = c.capability_of_requirement;
        permission_of_requirement = c.permission_of_requirement;
        permission_of_route = c.permission_of_route;
        permission_of_view = λ v at. elim (upserted _ db.view_permissions v at) [
          | inl new ↦ rw new (first_known name known)
          | inr old ↦ c.permission_of_view v old
        ];
        role_of_user = c.role_of_user;
      }

module _ (db : RbacDb) (c : IsConsistent db) where
  replaced :
      (id : String) (names : Option (List String))
      → has id (capability_ids db) ≡ true
      → Ensures IsConsistent (replace_requirements id names db)
  unfolding replace_requirements
  replaced id none known = c
  replaced id (some names) known =
      Ensures->>= IsConsistent (require_permissions_exist db names) _ λ _ all_known.
        Ensures->>= IsConsistent (insert_pairs id names _) _ λ rows inserted. record {
          role_of_grant = c.role_of_grant;
          permission_of_grant = c.permission_of_grant;
          capability_of_requirement =
              Refers-insert_keys id names _ rows (capability_ids db) (permission_names db) inserted
                known
                (Refers-filter (λ (row : String × String). row.0) _ db.capability_permissions _
                  c.capability_of_requirement);
          permission_of_requirement =
              Refers-insert_values id names _ rows (capability_ids db) (permission_names db)
                inserted (names_exist db names all_known)
                (Refers-filter (λ (row : String × String). row.1) _ db.capability_permissions _
                  c.permission_of_requirement);
          permission_of_route = c.permission_of_route;
          permission_of_view = c.permission_of_view;
          role_of_user = c.role_of_user;
        }

update_capability-Keeps :
    (db : RbacDb) (c : IsConsistent db) (id : String) (body : UpdateCapabilityBody)
    → Keeps (update_capability id body db)
unfolding update_capability
update_capability-Keeps db c id body = Ensures-or_throw After (find_capability id db) _ _ λ d found.
    Ensures->>= After (replace_requirements id body.required_permissions _) _ λ db' done.
      let there : has id (
            capability_ids
              (record db { capabilities = map (patch_capability id body) db.capabilities }))
          ≡ true =
        rw (patched_ids db c id body)
          (has-find (λ (d : CapabilityRow). d.id) id db.capabilities d found) in
      let kept = replaced _ (patched db c id body) id body.required_permissions there in
      rw done at kept

pub work-Keeps : (db : RbacDb) (c : IsConsistent db) (op : Op) → Keeps (work op db)
unfolding work
work-Keeps db c (role_create name d) = create_role-Keeps db c name d
work-Keeps db c (role_update name d) = update_role-Keeps db c name d
work-Keeps db c (role_delete name) = delete_role-Keeps db c name
work-Keeps db c (permission_create name d) = create_permission-Keeps db c name d
work-Keeps db c (permission_update name d) = update_permission-Keeps db c name d
work-Keeps db c (permission_delete name) = delete_permission-Keeps db c name
work-Keeps db c (grants_set role names) = set_role_permissions-Keeps db c role names
work-Keeps db c (capability_create body) = create_capability-Keeps db c body
work-Keeps db c (capability_update id body) = update_capability-Keeps db c id body
work-Keeps db c (capability_delete id) = delete_capability-Keeps db c id
work-Keeps db c (route_update id body) = update_route_policy-Keeps db c id body
work-Keeps db c (view_update view mode name) = update_view_permission-Keeps db c view mode name
