-- ===== src/Admin/Preserve.antt =====
-- Referential integrity through the operations of rbac-admin.service.ts on roles, permissions and
-- grants.
use at_nova_platform.Prelude.{
  String, ◌==◌, ◌≡◌, refl, inl, inr, Bool, true, false, not, ◌||◌, List, [], ◌∷◌, map, Option, some,
  arith, filter, any, find, has, is_some, if◌then◌else◌, In, In-filter, map-map-same,
  has-map-remove, Bool-cases,
}
use at_nova_platform.Rbac.{RoleView, PermissionView, RoutePolicyView}
use at_nova_platform.Admin.Tables.{ViewPermissionRow, RbacDb, Pairs}
use at_nova_platform.Admin.{
  Result, AuditEntry, permission_names, require_permissions_exist, require_role, require_permission,
  find_role, find_permission, requires, role_missing, insert_pairs, create_role, update_role,
  delete_role, create_permission, update_permission, delete_permission, set_role_permissions,
}
use at_nova_platform.Admin.Integrity.{
  Ensures, Ensures->>=, Ensures-or_throw, Ensures-throw_if, role_names, Refers, Within,
  IsConsistent, Refers-filter, Refers-remove, Within-append, names_exist, Refers-insert_keys,
  Refers-insert_values,
}

abbrev pub Keeps : Result (RbacDb × AuditEntry) → Type 0
Keeps = Ensures (λ (out : RbacDb × AuditEntry). IsConsistent out.0)

abbrev pub After : RbacDb × AuditEntry → Type 0
After out = IsConsistent out.0

pub has-find :
    {A : Type 0} (name : A → String) (k : String) (xs : List A) (x : A)
    → find (λ y. k == name y) xs ≡ some x
    → has k (map name xs) ≡ true
has-find name k [] x e = cc
has-find name k (y ∷ ys) x e = elim (Bool-cases (k == name y)) [
  | inl same ↦ rw same
  | inr other ↦ ground (arith, has-find name k ys x)
]

pub not-In-of-any :
    {A : Type 0} (p : A → Bool) (a : A) (xs : List A) → any p xs ≡ false → In a xs → p a ≡ false
not-In-of-any p a [] none_passes h = absurd h
not-In-of-any p a (x ∷ xs) none_passes (inl same) = rw same (ground arith)
not-In-of-any p a (x ∷ xs) none_passes (inr h) = not-In-of-any p a xs (ground arith) h

false_of_not : (b : Bool) → not b ≡ true → b ≡ false
false_of_not true e = cc
false_of_not false e = refl

or_left : (a b : Bool) → (a || b) ≡ false → a ≡ false
or_left true b e = cc
or_left false b e = refl

or_right : (a b : Bool) → (a || b) ≡ false → b ≡ false
or_right true b e = cc
or_right false b e = e

-- What names `gone` is dropped on both sides.
pub Refers-thin :
    {A B : Type 0} (f : A → String) (name : B → String) (gone : String) (xs : List A) (ys : List B)
    → Refers f xs (map name ys)
    → Refers f
        (filter (λ x. not (gone == f x)) xs)
        (map name (filter (λ y. not (gone == name y)) ys))
Refers-thin f name gone xs ys h a at =
    let (old, differs) = In-filter (λ x. not (gone == f x)) a xs at in
    rw (has-map-remove name (f a) gone ys, h a old, false_of_not (gone == f a) differs)

module _ (db : RbacDb) (c : IsConsistent db) where
  pub create_role-Keeps : (name : String) (d : Option String) → Keeps (create_role name d db)
  unfolding create_role
  create_role-Keeps name d = Ensures-throw_if After (is_some (find_role name db)) _ _ λ fresh.
      let more = Within-append (λ (r : RoleView). r.name) db.roles _ in
      record {
        role_of_grant = λ row at. more row.0 (c.role_of_grant row at);
        permission_of_grant = c.permission_of_grant;
        capability_of_requirement = c.capability_of_requirement;
        permission_of_requirement = c.permission_of_requirement;
        permission_of_route = c.permission_of_route;
        permission_of_view = c.permission_of_view;
        role_of_user = λ row at. more row.1 (c.role_of_user row at);
      }

  update_role_names :
      (name : String) (d : Option String)
      → map
          (λ (r : RoleView). r.name)
          (map
            (λ (r : RoleView). if name == r.name then record r { description = d } else r)
            db.roles)
        ≡ role_names db
  update_role_names name d = map-map-same (λ (r : RoleView). r.name) _ db.roles (λ r. ground arith)

  pub update_role-Keeps : (name : String) (d : Option String) → Keeps (update_role name d db)
  unfolding update_role require_role
  update_role-Keeps name d = Ensures-or_throw After (find_role name db) role_missing _ λ role found.
      record {
        role_of_grant = λ row at. rw (update_role_names name d) (c.role_of_grant row at);
        permission_of_grant = c.permission_of_grant;
        capability_of_requirement = c.capability_of_requirement;
        permission_of_requirement = c.permission_of_requirement;
        permission_of_route = c.permission_of_route;
        permission_of_view = c.permission_of_view;
        role_of_user = λ row at. rw (update_role_names name d) (c.role_of_user row at);
      }

  -- No row of `rows` names `name` in its second column.
  not_second :
      (name : String) (rows : Pairs)
      → has name (map (λ (row : String × String). row.1) rows) ≡ false
      → (row : String × String) → In row rows
      → (name == row.1) ≡ false
  not_second name [] absent row at = absurd at
  not_second name (r ∷ rows) absent row (inl same) = rw same (ground arith)
  not_second name (r ∷ rows) absent row (inr at) = not_second name rows (ground arith) row at

  pub delete_role-Keeps : (name : String) → Keeps (delete_role name db)
  unfolding delete_role require_role
  delete_role-Keeps name = Ensures-or_throw After (find_role name db) role_missing _ λ role found.
      elim (Bool-cases role.is_system) [
        | inl built_in ↦ rw built_in tt
        | inr custom ↦
            elim (Bool-cases (has name (map (λ (row : String × String). row.1) db.user_roles))) [
              | inl assigned ↦ rw (custom, assigned) tt
              | inr unassigned ↦
                  rw (custom, unassigned)
                    (record {
                      role_of_grant =
                          Refers-thin (λ (row : String × String). row.0) (λ (r : RoleView). r.name)
                            name db.role_permissions db.roles c.role_of_grant;
                      permission_of_grant =
                          Refers-filter (λ (row : String × String). row.1) _ db.role_permissions _
                            c.permission_of_grant;
                      capability_of_requirement = c.capability_of_requirement;
                      permission_of_requirement = c.permission_of_requirement;
                      permission_of_route = c.permission_of_route;
                      permission_of_view = c.permission_of_view;
                      role_of_user =
                          Refers-remove (λ (row : String × String). row.1)
                            (λ (r : RoleView). r.name) name _ db.roles
                            (not_second name db.user_roles unassigned) c.role_of_user;
                    })
            ]
      ]

  -- More permissions, and all else as it was.
  more_permissions :
      (ps : List PermissionView)
      → Within (permission_names db) (map (λ (p : PermissionView). p.name) ps)
      → IsConsistent (record db { permissions = ps })
  more_permissions ps sub = record {
    role_of_grant = c.role_of_grant;
    permission_of_grant = λ row at. sub row.1 (c.permission_of_grant row at);
    capability_of_requirement = c.capability_of_requirement;
    permission_of_requirement = λ row at. sub row.1 (c.permission_of_requirement row at);
    permission_of_route = λ p at q e. sub q (c.permission_of_route p at q e);
    permission_of_view = λ v at. sub v.permission_name (c.permission_of_view v at);
    role_of_user = c.role_of_user;
  }

  pub create_permission-Keeps :
      (name : String) (d : Option String) → Keeps (create_permission name d db)
  unfolding create_permission
  create_permission-Keeps name d =
      Ensures-throw_if After (is_some (find_permission name db)) _ _ λ fresh.
        more_permissions _ (Within-append (λ (p : PermissionView). p.name) db.permissions _)

  update_permission_names :
      (name : String) (d : Option String)
      → map
          (λ (p : PermissionView). p.name)
          (map
            (λ (p : PermissionView). if name == p.name then record p { description = d } else p)
            db.permissions)
        ≡ permission_names db
  update_permission_names name d =
      map-map-same (λ (p : PermissionView). p.name) _ db.permissions (λ p. ground arith)

  pub update_permission-Keeps :
      (name : String) (d : Option String) → Keeps (update_permission name d db)
  unfolding update_permission require_permission
  update_permission-Keeps name d =
      Ensures-or_throw After (find_permission name db) _ _
        λ p found. more_permissions _ λ k h. rw (update_permission_names name d) h

  unbound_route :
      (name : String)
      → any (λ (r : RoutePolicyView). requires name r.permission_name) db.route_policies ≡ false
      → (p : RoutePolicyView) → In p db.route_policies
      → (q : String) → p.permission_name ≡ some q
      → has q (
          map
            (λ (p : PermissionView). p.name)
            (filter (λ (p : PermissionView). not (name == p.name)) db.permissions))
        ≡ true
  unbound_route name unbound p at q e =
      let other : requires name p.permission_name ≡ false =
        not-In-of-any (λ (r : RoutePolicyView). requires name r.permission_name) p db.route_policies
          unbound at in
      rw
        (
          has-map-remove (λ (p : PermissionView). p.name) q name db.permissions,
          c.permission_of_route p at q e,
        )
        (ground arith)

  pub delete_permission-Keeps : (name : String) → Keeps (delete_permission name db)
  unfolding delete_permission require_permission
  delete_permission-Keeps name = Ensures-or_throw After (find_permission name db) _ _ λ p found.
      elim (Bool-cases p.is_system) [
        | inl built_in ↦ rw built_in tt
        | inr custom ↦
            elim (Bool-cases (
              any (λ (r : RoutePolicyView). requires name r.permission_name) db.route_policies
              || any (λ (v : ViewPermissionRow). name == v.permission_name) db.view_permissions)) [
                | inl bound ↦ rw (custom, bound) tt
                | inr unbound ↦
                    rw (custom, unbound)
                      (record {
                        role_of_grant =
                            Refers-filter (λ (row : String × String). row.0) _ db.role_permissions _
                              c.role_of_grant;
                        permission_of_grant =
                            Refers-thin (λ (row : String × String). row.1)
                              (λ (q : PermissionView). q.name) name db.role_permissions
                              db.permissions c.permission_of_grant;
                        capability_of_requirement =
                            Refers-filter (λ (row : String × String). row.0) _
                              db.capability_permissions _ c.capability_of_requirement;
                        permission_of_requirement =
                            Refers-thin (λ (row : String × String). row.1)
                              (λ (q : PermissionView). q.name) name db.capability_permissions
                              db.permissions c.permission_of_requirement;
                        permission_of_route = unbound_route name (or_left _ _ unbound);
                        permission_of_view =
                            Refers-remove (λ (v : ViewPermissionRow). v.permission_name)
                              (λ (q : PermissionView). q.name) name db.view_permissions
                              db.permissions
                              (λ v at.
                                not-In-of-any (λ w. name == w.permission_name) v _
                                  (or_right _ _ unbound) at)
                              c.permission_of_view;
                        role_of_user = c.role_of_user;
                      })
              ]
      ]

  pub set_role_permissions-Keeps :
      (role_name : String) (names : List String) → Keeps (set_role_permissions role_name names db)
  unfolding set_role_permissions require_role
  set_role_permissions-Keeps role_name names =
      Ensures-or_throw After (find_role role_name db) _ _ λ role found.
        Ensures->>= After (require_permissions_exist db names) _ λ _ known.
          Ensures->>= After (insert_pairs role_name names _) _ λ rows inserted. record {
            role_of_grant =
                Refers-insert_keys role_name names _ rows (role_names db) (permission_names db)
                  inserted (has-find (λ (r : RoleView). r.name) role_name db.roles role found)
                  (Refers-filter (λ (row : String × String). row.0) _ db.role_permissions _
                    c.role_of_grant);
            permission_of_grant =
                Refers-insert_values role_name names _ rows (role_names db) (permission_names db)
                  inserted (names_exist db names known)
                  (Refers-filter (λ (row : String × String). row.1) _ db.role_permissions _
                    c.permission_of_grant);
            capability_of_requirement = c.capability_of_requirement;
            permission_of_requirement = c.permission_of_requirement;
            permission_of_route = c.permission_of_route;
            permission_of_view = c.permission_of_view;
            role_of_user = c.role_of_user;
          }
