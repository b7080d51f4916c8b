-- ===== src/Admin/Tables.antt =====
-- The tables of the policy: packages/database/src/entities and the constraints of the migrations.
use at_nova_platform.Prelude.{ℕ, String, ◌==◌, Bool, true, false, ◌&&◌, List, Option, any}
use at_nova_platform.Rbac.{
  RoleView, PermissionView, Risk, RoutePolicyKind, RoutePolicyView, ViewMode, read, write,
}

pub record CapabilityRow : Type 0 where
  pub id : String
  pub kind : String
  pub mode : String
  pub risk : Risk
  pub resource_scoped : Bool
  pub delegated : Bool
  pub enabled : Bool
  pub requires_approval : Bool
  pub is_system : Bool
  pub description : Option String

pub record ViewPermissionRow : Type 0 where
  pub view_name : String
  pub mode : ViewMode
  pub permission_name : String
  pub is_system : Bool

-- The `details` of an audit entry.
pub data Details : Type 0 where
  no_details : Details
  description_set : Option String → Details
  permissions_set : List String → Details
  route_bound : RoutePolicyKind → Option String → Details
  view_bound : String → Details

pub record AuditRow : Type 0 where
  pub actor_subject : String
  pub actor_user_id : Option String
  pub action : String
  pub target_type : String
  pub target_id : String
  pub details : Details

-- The rows of a table whose primary key is a pair of names.
abbrev pub Pairs : Type 0
Pairs = List (String × String)

abbrev pub has_pair : String → String → Pairs → Bool
has_pair a b rows = any (λ (row : String × String). a == row.0 && b == row.1) rows

abbrev pub same_mode : ViewMode → ViewMode → Bool
same_mode read read = true
same_mode write write = true
same_mode _ _ = false

-- `role_permissions` holds a role and a permission, `capability_permissions` a capability and a
-- permission, `user_roles` a user and a role.
pub record RbacDb : Type 0 where
  pub roles : List RoleView
  pub permissions : List PermissionView
  pub role_permissions : Pairs
  pub capabilities : List CapabilityRow
  pub capability_permissions : Pairs
  pub route_policies : List RoutePolicyView
  pub view_permissions : List ViewPermissionRow
  pub user_roles : Pairs
  pub audit_log : List AuditRow
  pub revision : ℕ
