-- ===== src/Catalog/Capabilities.antt =====
-- The capabilities of the catalog (backend-services/packages/shared/src/rbac/capabilities.ts) and the
-- views (data-views.ts).
use at_nova_platform.Prelude.{String, Bool, true, false, List, [], ◌∷◌, ◌++◌, none, some}
use at_nova_platform.Rbac.{low, high}
use at_nova_platform.Catalog.{CatalogCapability}

abbrev skill : String → String → List String → Bool → CatalogCapability
skill id mode required scoped = record {
  id = id;
  kind = "agent-skill";
  mode = mode;
  required_permissions = required;
  risk = low;
  resource_scoped = scoped;
  delegated = some true;
  requires_approval = none;
}

-- `CAPABILITY_CATALOG`, in order.
abbrev pub front_catalog : List CatalogCapability
front_catalog =
    skill "sales.report.customer" "read" ("read-sales" ∷ "read-customers" ∷ []) true
    ∷ skill "sales.products.forCustomer" "read" ("read-sales" ∷ "read-customers" ∷ []) true
    ∷ skill "sales.create" "write" ("write-sales" ∷ []) false
    ∷ skill "issues.list.pendingForCustomer" "read" ("read-issues" ∷ "read-customers" ∷ []) true
    ∷ skill "actions.next" "read" ("read-actions" ∷ []) false
    ∷ skill "actions.markCompleted" "write" ("write-actions" ∷ []) true
    ∷ skill "issues.create" "write" ("create-issues" ∷ []) false
    ∷ skill "sop.read" "read" ("read-sop" ∷ []) false
    ∷ skill "customers.search" "read" ("read-customers" ∷ []) false
    ∷ skill "customers.get" "read" ("read-customers" ∷ []) true
    ∷ skill "products.search" "read" ("read-sales" ∷ []) false
    ∷ skill "products.get" "read" ("read-sales" ∷ []) true
    ∷ skill "sales.list" "read" ("read-sales" ∷ []) false
    ∷ []

abbrev pub middle_catalog : List CatalogCapability
middle_catalog =
    skill "sales.get" "read" ("read-sales" ∷ []) true
    ∷ skill "issues.list" "read" ("read-issues" ∷ []) false
    ∷ skill "issues.get" "read" ("read-issues" ∷ []) true
    ∷ skill "actions.list" "read" ("read-actions" ∷ []) false
    ∷ skill "actions.get" "read" ("read-actions" ∷ []) true
    ∷ skill "actions.create" "write" ("create-actions" ∷ []) false
    ∷ skill "actions.addComment" "write" ("write-actions" ∷ []) true
    ∷ skill "actions.update" "write" ("write-actions" ∷ []) true
    ∷ skill "issues.update" "write" ("write-issues" ∷ []) true
    ∷ skill "sop.create" "write" ("write-sop" ∷ []) false
    ∷ skill "sop.update" "write" ("write-sop" ∷ []) true
    ∷ skill "sop.addVersion" "write" ("write-sop" ∷ []) true
    ∷ []

abbrev pub back_catalog : List CatalogCapability
back_catalog =
    (record {
      id = "data.schema.describe";
      kind = "mcp-tool";
      mode = "read";
      required_permissions = "create-agent-run" ∷ [];
      risk = low;
      resource_scoped = false;
      delegated = none;
      requires_approval = none;
    })
    ∷ (record {
      id = "data.query.select";
      kind = "mcp-tool";
      mode = "read";
      required_permissions = "create-agent-run" ∷ [];
      risk = low;
      resource_scoped = true;
      delegated = none;
      requires_approval = none;
    })
    ∷ (record {
      id = "data.analyse.read";
      kind = "agent-skill";
      mode = "read";
      required_permissions = "create-agent-run" ∷ [];
      risk = low;
      resource_scoped = true;
      delegated = some false;
      requires_approval = none;
    })
    ∷ (record {
      id = "data.act.write";
      kind = "agent-skill";
      mode = "write";
      required_permissions = "create-agent-run" ∷ [];
      risk = high;
      resource_scoped = true;
      delegated = some false;
      requires_approval = none;
    })
    ∷ []

abbrev pub capability_catalog : List CatalogCapability
capability_catalog = front_catalog ++ middle_catalog ++ back_catalog

-- `MCP_WRITE_VIEW_PERMISSIONS`
abbrev pub mcp_write_view_permissions : List (String × String)
mcp_write_view_permissions =
    ("sales", "write-sales")
    ∷ ("products_sold", "write-sales")
    ∷ ("customer_issues", "write-issues")
    ∷ ("issue_actions", "write-actions")
    ∷ ("my_assigned_actions", "write-actions")
    ∷ ("sops", "write-sop")
    ∷ ("sop_details", "write-sop")
    ∷ []
