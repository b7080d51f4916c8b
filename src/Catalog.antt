-- ===== src/Catalog.antt =====
-- The static catalog: backend-services/packages/shared/src/rbac (permissions.ts, capabilities.ts,
-- data-views.ts), and the registry that the API starts with.
pub mod Capabilities
pub mod Policy
pub mod Baseline
mod Tests
use at_nova_platform.Prelude.{String, Bool, true, false, List, [], ◌∷◌, Option, none, some, has}
use at_nova_platform.Rbac.{Risk, low, high}

abbrev pub known_permissions : List String
known_permissions =
    "read-customers" ∷ "write-customers" ∷ "create-issues" ∷ "read-issues" ∷ "write-issues"
    ∷ "read-sales" ∷ "write-sales" ∷ "read-permissions" ∷ "write-permissions" ∷ "read-actions"
    ∷ "create-actions" ∷ "write-actions" ∷ "read-sop" ∷ "write-sop" ∷ "read-users" ∷ "write-users"
    ∷ "create-agent-run" ∷ "read-agent-run" ∷ "cancel-agent-run" ∷ "read-agents" ∷ "write-agents"
    ∷ []

pub data Role : Type 0 where
  sales_user_role support_operations_user_role admin_role : Role
  customer_support_role ops_compliance_role : Role

-- `ROLES`, in order, and their names.
abbrev pub all_roles : List Role
all_roles =
    sales_user_role ∷ support_operations_user_role ∷ admin_role ∷ customer_support_role
    ∷ ops_compliance_role ∷ []

abbrev pub role_name : Role → String
role_name sales_user_role = "sales-user"
role_name support_operations_user_role = "support-operations-user"
role_name admin_role = "admin"
role_name customer_support_role = "customer-support"
role_name ops_compliance_role = "ops-compliance"

-- `ROLE_PERMISSIONS[role]`
abbrev pub role_permissions : Role → List String
role_permissions sales_user_role =
    "read-customers" ∷ "write-customers" ∷ "read-issues" ∷ "read-sales" ∷ "write-sales"
    ∷ "read-actions" ∷ "read-sop" ∷ "create-agent-run" ∷ "read-agent-run" ∷ "cancel-agent-run" ∷ []
role_permissions support_operations_user_role =
    "read-customers" ∷ "write-customers" ∷ "read-issues" ∷ "write-issues" ∷ "read-sales"
    ∷ "read-actions" ∷ "write-actions" ∷ "read-sop" ∷ "create-agent-run" ∷ "read-agent-run"
    ∷ "cancel-agent-run" ∷ []
role_permissions admin_role =
    "read-customers" ∷ "write-customers" ∷ "create-issues" ∷ "read-issues" ∷ "write-issues"
    ∷ "read-sales" ∷ "write-sales" ∷ "read-permissions" ∷ "write-permissions" ∷ "read-actions"
    ∷ "create-actions" ∷ "write-actions" ∷ "read-sop" ∷ "write-sop" ∷ "read-users" ∷ "write-users"
    ∷ "create-agent-run" ∷ "read-agent-run" ∷ "cancel-agent-run" ∷ "read-agents" ∷ "write-agents"
    ∷ []
role_permissions customer_support_role =
    "read-customers" ∷ "create-issues" ∷ "read-issues" ∷ "write-issues" ∷ "read-sales"
    ∷ "read-actions" ∷ "create-actions" ∷ "write-actions" ∷ "create-agent-run" ∷ "read-agent-run"
    ∷ "cancel-agent-run" ∷ []
role_permissions ops_compliance_role =
    "read-sop" ∷ "write-sop" ∷ "create-agent-run" ∷ "read-agent-run" ∷ "cancel-agent-run" ∷ []

-- `CapabilityDescriptor`; `none` stands for an absent flag.
pub record CatalogCapability : Type 0 where
  pub id : String
  pub kind : String
  pub mode : String
  pub required_permissions : List String
  pub risk : Risk
  pub resource_scoped : Bool
  pub delegated : Option Bool
  pub requires_approval : Option Bool
