-- ===== src/Query.antt =====
-- The query tool of the database server: backend-services/db-mcp-server/src/tools/register-tools.ts
-- (`run_select_query`), auth/authorize.ts and auth/view-access.ts, with the lookups of
-- backend-services/packages/shared/src/rbac/data-views.ts and capabilities.ts.
pub mod Boundary
mod Tests
use at_nova_platform.Prelude.{
  ℕ, suc, String, ◌==◌, Bool, true, false, not, ◌&&◌, List, [], ◌∷◌, ◌++◌, map, Option, none, some,
  length, filter, all, find, has, if◌then◌else◌,
}
use at_nova_platform.Json.{Json}
use at_nova_platform.Sql.{Checked, ok, rejected, Reason, validate_select}
use at_nova_platform.Limits.{RowCapResult, cap_result_bytes}

unfoldable pub mcp_read_view_permissions : List (String × String)
mcp_read_view_permissions =
    ("customers", "read-customers")
    ∷ ("products", "read-sales")
    ∷ ("sales", "read-sales")
    ∷ ("products_sold", "read-sales")
    ∷ ("customer_issues", "read-issues")
    ∷ ("issue_actions", "read-actions")
    ∷ ("my_assigned_actions", "read-actions")
    ∷ ("sops", "read-sop")
    ∷ ("sop_details", "read-sop")
    ∷ ("users", "read-users")
    ∷ []

abbrev pub lookup : String → List (String × String) → Option String
lookup key [] = none
lookup key (row ∷ rows) = if key == row.0 then some row.1 else lookup key rows

pub permission_for_view : String → Option String
permission_for_view view = lookup view mcp_read_view_permissions

pub accessible_views : List String → List String
accessible_views permissions =
    map (λ (row : String × String). row.0)
      (filter (λ (row : String × String). has row.1 permissions) mcp_read_view_permissions)

abbrev pub entitled_views : List String → List String
entitled_views permissions = accessible_views permissions

pub record ViewDenial : Type 0 where
  pub view : String
  pub required_permission : Option String

abbrev pub denial_of : Option String → Option ViewDenial
denial_of none = none
denial_of (some view) =
    some (record { view = view; required_permission = permission_for_view view })

pub find_forbidden_view : List String → List String → Option ViewDenial
find_forbidden_view relations entitled =
    denial_of (find (λ relation. not (has relation entitled)) relations)

-- What the gate reads of a `CapabilityDescriptor`.
pub record CapabilityDescriptor : Type 0 where
  pub id : String
  pub required_permissions : List String

pub record VerifiedSnapshot : Type 0 where
  pub run_id : String
  pub owner_subject : String
  pub permissions : List String
  pub capability_allowlist : List String

abbrev pub get_capability : List CapabilityDescriptor → String → Option CapabilityDescriptor
get_capability catalog id = find (λ (c : CapabilityDescriptor). id == c.id) catalog

abbrev pub permissions_satisfy_capability : CapabilityDescriptor → List String → Bool
permissions_satisfy_capability c permissions =
    all (λ permission. has permission permissions) c.required_permissions

pub data McpError : Type 0 where
  unknown_capability not_entitled not_allowlisted : McpError
  invalid_arguments : McpError
  sql_rejected : Reason → McpError
  view_forbidden : ViewDenial → McpError
  query_failed endless_result : McpError

pub data Outcome (A : Type 0) : Type 0 where
  returned : A → Outcome A
  thrown : McpError → Outcome A

abbrev pub check_capability :
    Option CapabilityDescriptor → VerifiedSnapshot → String → Option McpError
check_capability none s id = some unknown_capability
check_capability (some c) s id =
    if permissions_satisfy_capability c s.permissions
    then if has id s.capability_allowlist then none else some not_allowlisted
    else some not_entitled

-- `none` lets the call pass.
pub authorize_capability : List CapabilityDescriptor → VerifiedSnapshot → String → Option McpError
authorize_capability catalog s id = check_capability (get_capability catalog id) s id

pub record AuditEvent : Type 0 where
  pub allow : Bool
  pub error : Option McpError
  pub relations : List String
  pub row_count : ℕ
  pub truncated : Bool

abbrev pub denied : McpError → List String → AuditEvent
denied e relations = record {
  allow = false;
  error = some e;
  relations = relations;
  row_count = 0;
  truncated = false;
}

pub record QueryAnswer (Row : Type 0) : Type 0 where
  pub relations : List String
  pub truncated : Bool
  pub rows : List Row

pub record QueryArgs : Type 0 where
  pub sql : String
  pub params : List Json

-- The surroundings of the handler: the argument schema (zod), the parser, the runtime's `trim`,
-- `toLowerCase` and byte count, the wrapping of the statement, and the database.
pub record Surroundings (Raw Row : Type 0) : Type 0 where
  pub parse_args : Raw → Option QueryArgs
  pub parse : String → Option Json
  pub trim : String → String
  pub to_lower : String → String
  pub clamp : String → String
  pub run_select : String → List Json → Option (List Row)
  pub bytes : List Row → ℕ
  pub max_result_bytes : ℕ

module _ {Raw Row : Type 0} (env : Surroundings Raw Row) where
  -- The audit record of the answer, after the byte cap.
  abbrev pub answer :
      List String → Option (RowCapResult Row) → Outcome (QueryAnswer Row) × List AuditEvent
  answer relations none = (thrown endless_result, [])
  answer relations (some capped) = (
    returned (record { relations = relations; truncated = capped.truncated; rows = capped.rows }),
    record {
      allow = true;
      error = none;
      relations = relations;
      row_count = length capped.rows;
      truncated = capped.truncated;
    }
        ∷ [],
  )

  -- The rows that the database returned; the loop of the cap has a round for each row, and one.
  abbrev pub with_rows :
      List String → Option (List Row) → Outcome (QueryAnswer Row) × List AuditEvent
  with_rows relations none = (thrown query_failed, [])
  with_rows relations (some rows) =
      answer relations (cap_result_bytes env.bytes env.max_result_bytes (suc (length rows)) rows)

  abbrev pub unless_forbidden :
      QueryArgs → List String → Option ViewDenial → Outcome (QueryAnswer Row) × List AuditEvent
  unless_forbidden args relations (some d) =
      (thrown (view_forbidden d), denied (view_forbidden d) relations ∷ [])
  unless_forbidden args relations none =
      with_rows relations (env.run_select (env.clamp args.sql) args.params)

  abbrev pub validated :
      VerifiedSnapshot
      → QueryArgs
      → Checked (List String)
      → Outcome (QueryAnswer Row) × List AuditEvent
  validated s args (rejected reason) =
      (thrown (sql_rejected reason), denied (sql_rejected reason) [] ∷ [])
  validated s args (ok relations) =
      unless_forbidden args relations (find_forbidden_view relations (entitled_views s.permissions))

  abbrev pub with_args :
      VerifiedSnapshot → Option QueryArgs → Outcome (QueryAnswer Row) × List AuditEvent
  with_args s none = (thrown invalid_arguments, [])
  with_args s (some args) =
      validated s args (validate_select env.to_lower env.parse env.trim args.sql)

  -- A refusal of the gate is recorded by `guard`.
  abbrev pub gated :
      VerifiedSnapshot → Raw → Option McpError → Outcome (QueryAnswer Row) × List AuditEvent
  gated s raw (some e) = (thrown e, denied e [] ∷ [])
  gated s raw none = with_args s (env.parse_args raw)

  -- The handler of `run_select_query`, under `guard`.
  pub run_select_query :
      List CapabilityDescriptor
      → VerifiedSnapshot
      → Raw
      → Outcome (QueryAnswer Row) × List AuditEvent
  run_select_query catalog s raw = gated s raw (authorize_capability catalog s "data.query.select")
