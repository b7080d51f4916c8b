-- ===== src/Admin/Bindings/Frame.antt =====
-- The tables that the operations of rbac-admin.service.ts do not write.
use at_nova_platform.Prelude.{
  String, ◌==◌, ◌≡◌, refl, ◌||◌, List, [], ◌∷◌, map, Option, none, some, any, has, is_some,
}
use at_nova_platform.Admin.Tables.{ViewPermissionRow, RbacDb}
use at_nova_platform.Rbac.{RoutePolicyView}
use at_nova_platform.Admin.{
  AuditEntry, find_role, find_permission, find_capability, find_route, requires,
  require_permissions_exist, require_role, require_permission, insert_pairs, create_role,
  update_role, delete_role, create_permission, update_permission, delete_permission,
  set_role_permissions,
}
use at_nova_platform.Admin.Bindings.{
  create_capability, patch_capability, replace_requirements, update_capability, delete_capability,
  bound_permission, check_route_permission, update_route_policy, update_view_permission, Op,
  role_create, role_update, role_delete, permission_create, permission_update, permission_delete,
  grants_set, capability_create, capability_update, capability_delete, route_update, view_update,
  work,
}
use at_nova_platform.Admin.Integrity.{Ensures, Ensures->>=, Ensures-or_throw, Ensures-throw_if}

abbrev pub Untouched : RbacDb → RbacDb → Type 0
Untouched before after =
    (after.audit_log ≡ before.audit_log)
    × (after.revision ≡ before.revision)
    × (after.user_roles ≡ before.user_roles)

module _ (db : RbacDb) where
  abbrev Same : RbacDb × AuditEntry → Type 0
  Same out = Untouched db out.0

  replace_requirements-Untouched :
      (id : String) (names : Option (List String))
      → Ensures (Untouched db) (replace_requirements id names db)
  unfolding replace_requirements
  replace_requirements-Untouched id none = (refl, refl, refl)
  replace_requirements-Untouched id (some names) =
      Ensures->>= (Untouched db) (require_permissions_exist db names) _
        λ _ _. Ensures->>= (Untouched db) (insert_pairs id names _) _ λ _ _. (refl, refl, refl)

pub work-Untouched : (db : RbacDb) (op : Op) → Ensures (Same db) (work op db)
unfolding work create_role update_role delete_role create_permission update_permission
    delete_permission set_role_permissions create_capability update_capability delete_capability
    update_route_policy update_view_permission
work-Untouched db (role_create name d) =
    Ensures-throw_if (Same db) (is_some (find_role name db)) _ _ λ _. (refl, refl, refl)
work-Untouched db (role_update name d) =
    Ensures->>= (Same db) (require_role db name) _ λ _ _. (refl, refl, refl)
work-Untouched db (role_delete name) = Ensures->>= (Same db) (require_role db name) _ λ role _.
    Ensures-throw_if (Same db) role.is_system _ _ λ _.
      Ensures-throw_if (Same db) (has name (map (λ (row : String × String). row.1) db.user_roles)) _
        _ λ _. (refl, refl, refl)
work-Untouched db (permission_create name d) =
    Ensures-throw_if (Same db) (is_some (find_permission name db)) _ _ λ _. (refl, refl, refl)
work-Untouched db (permission_update name d) =
    Ensures->>= (Same db) (require_permission db name) _ λ _ _. (refl, refl, refl)
work-Untouched db (permission_delete name) =
    Ensures->>= (Same db) (require_permission db name) _ λ p _.
      Ensures-throw_if (Same db) p.is_system _ _ λ _.
        Ensures-throw_if (Same db)
          (any (λ (r : RoutePolicyView). requires name r.permission_name) db.route_policies
            || any (λ (v : ViewPermissionRow). name == v.permission_name) db.view_permissions)
          _ _ λ _. (refl, refl, refl)
work-Untouched db (grants_set role names) = Ensures->>= (Same db) (require_role db role) _ λ _ _.
    Ensures->>= (Same db) (require_permissions_exist db names) _
      λ _ _. Ensures->>= (Same db) (insert_pairs role names _) _ λ _ _. (refl, refl, refl)
work-Untouched db (capability_create body) =
    Ensures-throw_if (Same db) (is_some (find_capability body.id db)) _ _ λ _.
      Ensures->>= (Same db) (require_permissions_exist db body.required_permissions) _ λ _ _.
        Ensures->>= (Same db) (insert_pairs body.id body.required_permissions _) _
          λ _ _. (refl, refl, refl)
work-Untouched db (capability_update id body) =
    let patched_db : RbacDb = record db {
      capabilities = map (patch_capability id body) db.capabilities;
    } in
    let kept = replace_requirements-Untouched patched_db id body.required_permissions in
    Ensures-or_throw (Same db) (find_capability id db) _ _ λ _ _.
      Ensures->>= (Same db) (replace_requirements id body.required_permissions patched_db) _
        λ _ e. rw e at kept
work-Untouched db (capability_delete id) =
    Ensures-or_throw (Same db) (find_capability id db) _ _
      λ d _. Ensures-throw_if (Same db) d.is_system _ _ λ _. (refl, refl, refl)
work-Untouched db (route_update id body) = Ensures-or_throw (Same db) (find_route id db) _ _ λ _ _.
    Ensures->>= (Same db) (check_route_permission body.kind (bound_permission body) db) _
      λ _ _. (refl, refl, refl)
work-Untouched db (view_update view mode name) =
    Ensures->>= (Same db) (require_permissions_exist db (name ∷ [])) _ λ _ _. (refl, refl, refl)
