-- ===== src/Registry/Granted.antt =====
-- `setRolePermissions` of rbac-admin.service.ts as the instance that runs it sees it: the change of the
-- tables, the refresh, and the answers of the registry that it publishes.
use at_nova_platform.Prelude.{
  String, ◌==◌, ◌≡◌, refl, ◌∙◌, List, [], ◌∷◌, any, has, arith, if◌then◌else◌,
}
use at_nova_platform.Rbac.{roles_grant_permission}
use at_nova_platform.Admin.Tables.{has_pair, RbacDb}
use at_nova_platform.Admin.{RbacActor, ok, set_role_permissions, mutate}
use at_nova_platform.Admin.Integrity.{Ensures, Ensures->>=}
use at_nova_platform.Admin.Grants.{AreGranted, mutate-AreGranted}
use at_nova_platform.Registry.{Instance, reads_of, mutate_and_refresh}
use at_nova_platform.Registry.Loaded.{load_data-roles_grant_permission}

-- The roles grant what was set for one of them, and what the table said for the others.
any-AreGranted :
    (role : String) (names : List String) (before after : RbacDb) (roles : List String) (p : String)
    → AreGranted role names before after
    → any (λ k. has_pair k p after.role_permissions) roles
      ≡ any (λ k. if k == role then has p names else has_pair k p before.role_permissions) roles
any-AreGranted role names before after [] p h = refl
any-AreGranted role names before after (k ∷ ks) p h =
    ground (arith, h k p, any-AreGranted role names before after ks p h)

-- What the refreshed registry answers.
abbrev Answers : String → List String → RbacDb → RbacDb × Instance → Type 0
Answers role names before out =
    (roles : List String) (p : String)
    → roles_grant_permission out.1.active roles p
      ≡ any (λ k. if k == role then has p names else has_pair k p before.role_permissions) roles

-- When the grants of a role were set, and the instance has refreshed, the registry that requests
-- consult gives the role exactly the permissions that were set, and every other role what its rows
-- gave it before.
pub set_role_permissions-granted :
    (actor : RbacActor) (role : String) (names : List String) (before after : RbacDb)
    (i next : Instance)
    → mutate_and_refresh actor (set_role_permissions role names) (before, i) ≡ ok (after, next)
    → (roles : List String) (p : String)
    → roles_grant_permission next.active roles p
      ≡ any (λ k. if k == role then has p names else has_pair k p before.role_permissions) roles
unfolding mutate_and_refresh
set_role_permissions-granted actor role names before after i next went =
    let sound : Ensures (Answers role names before)
        (mutate_and_refresh actor (set_role_permissions role names) (before, i)) =
      Ensures->>= (Answers role names before)
        (mutate actor (set_role_permissions role names) before) _
        λ (db : RbacDb) e roles p.
          load_data-roles_grant_permission (reads_of db) roles p
          ∙ any-AreGranted role names before db roles p
              (mutate-AreGranted role names before actor db e) in
    let answers : Answers role names before (after, next) = rw went at sound in answers
