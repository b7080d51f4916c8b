-- ===== src/Registry/Tests.antt =====
-- Tests and concrete uses: the registry of an instance.
use at_nova_platform.Prelude.{
  inl, arith, ◌≡◌, refl, ap, ◌↔◌, true, false, List, [], ◌∷◌, none, some, has, In,
}
use at_nova_platform.Rbac.{low, new_registry, roles_grant_permission, capability_allowlist}
use at_nova_platform.Rbac.Authorize.{
  allowed, authorize, RouteAccessPolicy, public_route, permission_route,
}
use at_nova_platform.Admin.Tables.{CapabilityRow, RbacDb}
use at_nova_platform.Json.{Json, obj, field, end, str, arr, cons, nil, null}
use at_nova_platform.Registry.Claims.{build_auth_context, build_auth_context-has_pair}
use at_nova_platform.Admin.{set_keycloak_role_id, set_role_permissions, Result, ok, ◌>>=◌}
use at_nova_platform.Admin.Bindings.{role_create, grants_set, update_route_policy}
use at_nova_platform.Registry.Rebound.{Passes, update_route_policy-authorize}
use at_nova_platform.Admin.Guard.{mutate-IsSound}
use at_nova_platform.Admin.Tests.{
  small_db, small_db-IsConsistent, root, with_auditor, adds_role, with_grant, sets_grant,
  granted_by_op, with_route, closing, with_closed_route, closes_route,
}
use at_nova_platform.Registry.{
  Instance, Reads, reads_of, load_data, Instance, new_instance, refresh_from, poll_for_changes,
  mutate_and_refresh,
}
use at_nova_platform.Registry.Loaded.{load_data-roles_grant_permission}
use at_nova_platform.Registry.Allowed.{IsAllowed, load_data-capability_allowlist_iff}
use at_nova_platform.Registry.Steps.{System, polled, changed, started, started_torn, later}
use at_nova_platform.Registry.Fresh.{HasRegistry, poll_for_changes-registry_of, mutate-registry_of}
use at_nova_platform.Registry.Granted.{set_role_permissions-granted}
use at_nova_platform.Registry.Reconcile.{reconcile_route_policies}
use at_nova_platform.Registry.Reconciled.{IsReconciled, reconcile_route_policies-IsReconciled}

load_data-roles_grant_permission_example :
    roles_grant_permission
      (new_registry (load_data (reads_of small_db)))
      ("admin" ∷ [])
      "read-users"
    ≡ true
load_data-roles_grant_permission_example =
    load_data-roles_grant_permission (reads_of small_db) ("admin" ∷ []) "read-users"

abbrev users_read : CapabilityRow
users_read = record {
  id = "users.read";
  kind = "tool";
  mode = "read";
  risk = low;
  resource_scoped = false;
  delegated = false;
  enabled = true;
  requires_approval = false;
  is_system = false;
  description = none;
}

abbrev with_capability : Reads
with_capability = record (reads_of small_db) {
  capabilities = users_read ∷ [];
  capability_permissions = ("users.read", "read-users") ∷ [];
}

load_data-capability_allowlist_iff_example :
    (has "users.read"
        (capability_allowlist (new_registry (load_data with_capability)) ("read-users" ∷ []))
      ≡ true)
    ↔ ((c : CapabilityRow) × In c with_capability.capabilities
        × (c.id ≡ "users.read")
        × IsAllowed with_capability c ("read-users" ∷ []))
load_data-capability_allowlist_iff_example =
    load_data-capability_allowlist_iff with_capability ("read-users" ∷ []) "users.read"

-- Another instance has added a role since the start.
abbrev one_behind : System
one_behind = record {
  db = with_auditor;
  instance_ = refresh_from (reads_of small_db) new_instance;
  torn = false;
}

poll_for_changes-registry_of_example : HasRegistry with_auditor (polled one_behind)
poll_for_changes-registry_of_example =
    poll_for_changes-registry_of small_db one_behind small_db-IsConsistent
      (later started (changed root (role_create "auditor" none) adds_role)) (inl refl)

-- The start took the old tables under the revision of the new ones.
abbrev misled : Reads
misled = record (reads_of small_db) { revision_row = some 2 }

abbrev misled_instance : Instance
misled_instance = refresh_from misled new_instance

mutate-registry_of_example :
    HasRegistry with_grant
      (poll_for_changes (some (some 3)) (some (reads_of with_grant)) misled_instance)
mutate-registry_of_example =
    mutate-registry_of with_auditor
      (record { db = with_auditor; instance_ = misled_instance; torn = true }) root
      (grants_set "auditor" ("read-users" ∷ [])) with_grant
      (mutate-IsSound root (role_create "auditor" none) small_db with_auditor small_db-IsConsistent
        adds_role).consistent
      (started_torn misled (omega arith)) granted_by_op

-- The revision of a change that came after the queries of the tables: the poll keeps the old grants.
abbrev torn : Reads
torn = record (reads_of with_auditor) { revision_row = some 3 }

torn_load :
    poll_for_changes (some (some 3)) (some (reads_of with_grant)) (refresh_from torn new_instance)
    ≡ refresh_from torn new_instance
unfolding poll_for_changes new_registry load_data
torn_load = refl

refreshed :
    mutate_and_refresh root
      (set_role_permissions "auditor" ("read-users" ∷ []))
      (with_auditor, new_instance)
    ≡ ok (with_grant, refresh_from (reads_of with_grant) new_instance)
unfolding mutate_and_refresh
refreshed =
    ap (λ (r : Result RbacDb). r >>= λ db. ok (db, refresh_from (reads_of db) new_instance))
      sets_grant

set_role_permissions-granted_example :
    roles_grant_permission
      (refresh_from (reads_of with_grant) new_instance).active
      ("auditor" ∷ [])
      "read-users"
    ≡ true
set_role_permissions-granted_example =
    set_role_permissions-granted root "auditor" ("read-users" ∷ []) with_auditor with_grant
      new_instance (refresh_from (reads_of with_grant) new_instance) refreshed ("auditor" ∷ [])
      "read-users"

closed :
    mutate_and_refresh root (update_route_policy "users.list" closing) (with_route, new_instance)
    ≡ ok (with_closed_route, refresh_from (reads_of with_closed_route) new_instance)
unfolding mutate_and_refresh
closed =
    ap (λ (r : Result RbacDb). r >>= λ db. ok (db, refresh_from (reads_of db) new_instance))
      closes_route

update_route_policy-authorize_example :
    ((authorize
        (refresh_from (reads_of with_closed_route) new_instance).active
        (public_route "users.list")
        none).0
      ≡ allowed)
    ↔ Passes closing none
update_route_policy-authorize_example =
    update_route_policy-authorize root "users.list" closing with_route with_closed_route
      new_instance (refresh_from (reads_of with_closed_route) new_instance) closed
      (public_route "users.list") none refl

abbrev two_routes : List RouteAccessPolicy
two_routes = public_route "health" ∷ permission_route "users.list" "read-users" none ∷ []

-- An id from Keycloak comes without a new revision: the poll of another instance keeps the old role.
abbrev named_by_keycloak : RbacDb
named_by_keycloak = set_keycloak_role_id "auditor" (some "kc-7") with_auditor

stale_role_id :
    polled (record {
      db = named_by_keycloak;
      instance_ = refresh_from (reads_of with_auditor) new_instance;
      torn = false;
    })
    ≡ refresh_from (reads_of with_auditor) new_instance
unfolding poll_for_changes new_registry load_data
stale_role_id = refl

-- A token with a role that exists, one that does not, and a value that is no text.
abbrev claims : Json
claims = obj (
    field "sub" (str "sub-9") (
      field "realm_access"
        (obj (field "roles" (arr (cons (str "ghost") (cons (str "auditor") (cons null nil)))) end))
        end))

build_auth_context-has_pair_example :
    has "read-users"
      (build_auth_context (new_registry (load_data (reads_of with_grant))) claims).permissions
    ≡ true
build_auth_context-has_pair_example =
    build_auth_context-has_pair (reads_of with_grant) claims "read-users"

reconcile_route_policies-IsReconciled_example :
    (after : RbacDb) × (reconcile_route_policies two_routes small_db ≡ some after)
    × IsReconciled two_routes small_db after
reconcile_route_policies-IsReconciled_example =
    reconcile_route_policies-IsReconciled two_routes small_db small_db-IsConsistent refl
