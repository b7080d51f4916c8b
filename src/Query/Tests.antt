-- ===== src/Query/Tests.antt =====
-- Tests and concrete uses: one answered query and a refused one.
use at_nova_platform.Prelude.{ℕ, String, ◌≡◌, refl, true, false, List, [], ◌∷◌, none, some, length}
use at_nova_platform.Json.{Json, str, arr, obj, nil, cons, end, field}
use at_nova_platform.Sql.{
  validate_select, validate_parsed_select, walk, check_field, check_select, check_range_var,
  check_func_call, is_allowed_relation, is_forbidden_call, func_call_name, bare_name,
  forbidden_node_types, forbidden_functions, view_names,
}
use at_nova_platform.Limits.{cap_result_bytes}
use at_nova_platform.Query.{
  mcp_read_view_permissions, permission_for_view, accessible_views, find_forbidden_view,
  CapabilityDescriptor, VerifiedSnapshot, returned, thrown, view_forbidden, denied, AuditEvent,
  QueryAnswer, Surroundings, authorize_capability, run_select_query,
}
use at_nova_platform.Query.Boundary.{IsWithin, run_select_query-IsWithin}

-- The parse tree of a query on one view.
abbrev tree : String → Json
tree view = obj (
    field "stmts"
      (arr (
        cons
          (obj (
            field "stmt"
              (obj (
                field "SelectStmt"
                  (obj (
                    field "fromClause"
                      (arr (
                        cons
                          (obj (
                            field "RangeVar"
                              (obj (
                                field "schemaname" (str "mcp_read")
                                  (field "relname" (str view) end)))
                              end))
                          nil))
                      end))
                  end))
              end))
          nil))
      end)

abbrev env : Surroundings String ℕ
env = record {
  parse_args = λ raw. some (record { sql = raw; params = [] });
  parse = λ sql. some (tree sql);
  trim = λ s. s;
  to_lower = λ s. s;
  clamp = λ sql. sql;
  run_select = λ sql params. some (7 ∷ []);
  bytes = length;
  max_result_bytes = 100;
}

abbrev snapshot : VerifiedSnapshot
snapshot = record {
  run_id = "run-1";
  owner_subject = "sub-1";
  permissions = "create-agent-run" ∷ "read-sales" ∷ [];
  capability_allowlist = "data.query.select" ∷ [];
}

abbrev catalog : List CapabilityDescriptor
catalog = record { id = "data.query.select"; required_permissions = "create-agent-run" ∷ [] } ∷ []

abbrev sales_answer : QueryAnswer ℕ
sales_answer = record { relations = "sales" ∷ []; truncated = false; rows = 7 ∷ [] }

abbrev sales_log : List AuditEvent
sales_log =
    record {
      allow = true;
      error = none;
      relations = "sales" ∷ [];
      row_count = 1;
      truncated = false;
    }
    ∷ []

the_query_tool : Unit {0}
unfolding run_select_query authorize_capability find_forbidden_view accessible_views
    mcp_read_view_permissions permission_for_view cap_result_bytes validate_select
    validate_parsed_select walk check_field check_select check_range_var check_func_call
    is_allowed_relation is_forbidden_call func_call_name bare_name forbidden_node_types
    forbidden_functions view_names
the_query_tool = tt

answers : run_select_query env catalog snapshot "sales" ≡ (returned sales_answer, sales_log)
unfolding the_query_tool
answers = refl

-- A view whose permission the snapshot lacks.
refuses : run_select_query env catalog snapshot "users" ≡ (
  thrown (view_forbidden (record { view = "users"; required_permission = some "read-users" })),
  denied
        (view_forbidden (record { view = "users"; required_permission = some "read-users" }))
        ("users" ∷ [])
      ∷ [],
)
unfolding the_query_tool
refuses = refl

run_select_query-IsWithin_example : IsWithin env snapshot "sales"
run_select_query-IsWithin_example =
    run_select_query-IsWithin env snapshot catalog "sales" sales_answer sales_log answers
