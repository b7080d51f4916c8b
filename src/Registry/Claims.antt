-- ===== src/Registry/Claims.antt =====
-- backend-services/api/src/auth/auth-context.ts: what the claims of a verified token give a request.
use at_nova_platform.Prelude.{
  String, ◌≡◌, refl, ap, ◌∙◌, Bool, ◌&&◌, List, [], ◌∷◌, map, Option, none, some, filter, any, has,
  has-add_all, get_or, arith,
}
use at_nova_platform.Json.{Json, arr, Items, nil, cons, get, as_string}
use at_nova_platform.Rbac.{RoleView, RbacRegistry, new_registry, known_roles, permissions_for_roles}
use at_nova_platform.Rbac.Resolve.{permissions_for_roles-roles_grant_permission}
use at_nova_platform.Rbac.Authorize.{AuthContext}
use at_nova_platform.Admin.Tables.{has_pair}
use at_nova_platform.Registry.{Reads, load_data}
use at_nova_platform.Registry.Loaded.{load_data-roles_grant_permission}

abbrev pub kept : Option String → List String → List String
kept none roles = roles
kept (some role) roles = role ∷ roles

abbrev pub texts_of : Items → List String
texts_of nil = []
texts_of (cons value values) = kept (as_string value) (texts_of values)

abbrev pub texts_in : Json → List String
texts_in (arr values) = texts_of values
texts_in _ = []

-- A claim of another shape names no role.
abbrev pub extract_realm_roles : Json → List String
extract_realm_roles payload = texts_in (get "roles" (get "realm_access" payload))

-- The verifier leaves a text or nothing under `sub`.
unfoldable pub build_auth_context : RbacRegistry → Json → AuthContext
build_auth_context registry payload =
    let roles = known_roles registry (extract_realm_roles payload) in
    record {
      subject = get_or (as_string (get "sub" payload)) "";
      email = as_string (get "email" payload);
      given_name = as_string (get "given_name" payload);
      family_name = as_string (get "family_name" payload);
      roles = roles;
      permissions = permissions_for_roles registry roles;
      application_user_id = none;
    }

any-filter :
    (p q : String → Bool) (xs : List String) → any p (filter q xs) ≡ any (λ x. q x && p x) xs
any-filter p q [] = refl
any-filter p q (x ∷ xs) = ground (arith, any-filter p q xs)

any-same :
    (p q : String → Bool) (xs : List String) → ((x : String) → p x ≡ q x) → any p xs ≡ any q xs
any-same p q [] same = refl
any-same p q (x ∷ xs) same = ground (arith, same x, any-same p q xs same)

abbrev pub names_of : Reads → List String
names_of reads = map (λ (role : RoleView). role.name) reads.roles

-- With a registry that is loaded, a request holds a permission exactly when its token's realm roles name
-- a role that has a row of the roles and a row of the grants with the permission; any other role
-- of the token gives nothing.
pub build_auth_context-has_pair :
    (reads : Reads) (payload : Json) (p : String)
    → has p (build_auth_context (new_registry (load_data reads)) payload).permissions
      ≡ any
          (λ role. has role (names_of reads) && has_pair role p reads.role_permissions)
          (extract_realm_roles payload)
unfolding build_auth_context known_roles new_registry load_data
build_auth_context-has_pair reads payload p =
    let registry = new_registry (load_data reads) in
    let claimed = extract_realm_roles payload in
    let granting : String → Bool = λ role. has_pair role p reads.role_permissions in
    permissions_for_roles-roles_grant_permission registry p (known_roles registry claimed)
    ∙ load_data-roles_grant_permission reads (known_roles registry claimed) p
    ∙ any-filter granting (λ role. has role registry.role_set) claimed
    ∙ any-same (λ role. has role registry.role_set && granting role)
        (λ role. has role (names_of reads) && granting role) claimed
        (λ role. ap (λ b. b && granting role) (has-add_all role [] (names_of reads)))
