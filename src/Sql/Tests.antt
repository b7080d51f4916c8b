-- ===== src/Sql/Tests.antt =====
-- Parse trees of small queries.
use at_nova_platform.Prelude.{String, ◌≡◌, refl, ◌↔◌, List, [], ◌∷◌, has, true}
use at_nova_platform.Json.{Json, null, str, arr, obj, nil, cons, Fields, end, field, Occurs}
use at_nova_platform.Sql.{
  ok, rejected, walk, check_field, check_select, check_range_var, check_func_call,
  is_allowed_relation, is_forbidden_call, func_call_name, bare_name, forbidden_node_types,
  forbidden_functions, view_names, validate_parsed_select, select_into, relation_not_allowlisted,
  forbidden_function, forbidden_statement,
}
use at_nova_platform.Sql.Walk.{Names}
use at_nova_platform.Sql.Complete.{
  IsSafeQuery, select_node, validate_parsed_select_iff, validate_parsed_select_views,
}

validator : Unit {0}
unfolding validate_parsed_select walk check_field check_select check_range_var check_func_call
    is_allowed_relation is_forbidden_call func_call_name bare_name forbidden_node_types
    forbidden_functions view_names
validator = tt

abbrev same_case : String → String
same_case s = s

abbrev statement : Fields → Json
statement fields = obj (
    field "stmts"
      (arr (cons (obj (field "stmt" (obj (field "SelectStmt" (obj fields) end)) end)) nil)) end)

abbrev range_var : String → String → Json
range_var schema relname = obj (
    field "RangeVar" (obj (field "schemaname" (str schema) (field "relname" (str relname) end)))
      end)

abbrev from_clause : Json → Fields → Fields
from_clause relation rest = field "fromClause" (arr (cons relation nil)) rest

abbrev sales_query : Json
sales_query = statement (from_clause (range_var "mcp_read" "sales") end)

abbrev call_of : String → String → Json
call_of schema name = obj (
    field "FuncCall"
      (obj (
        field "funcname"
          (arr (
            cons (obj (field "String" (obj (field "sval" (str schema) end)) end))
              (cons (obj (field "String" (obj (field "sval" (str name) end)) end)) nil)))
          end))
      end)

accepts_sales : validate_parsed_select same_case sales_query ≡ ok ("sales" ∷ [])
unfolding validator
accepts_sales = refl

rejects :
    (validate_parsed_select same_case (statement (from_clause (range_var "public" "users") end))
      ≡ rejected relation_not_allowlisted)
    × (validate_parsed_select same_case (statement (field "intoClause" (obj end) end))
        ≡ rejected select_into)
    × (validate_parsed_select same_case
          (statement (field "val" (call_of "pg_catalog" "pg_sleep") end))
        ≡ rejected forbidden_function)
    × (validate_parsed_select same_case
          (statement (field "ctes" (obj (field "InsertStmt" null end)) end))
        ≡ rejected forbidden_statement)
unfolding validator
rejects = (refl, refl, refl, refl)

-- The INTO clause of a set operation's arm that the parser does not wrap in a `SelectStmt` node.
unwrapped_into :
    validate_parsed_select same_case
      (statement (field "larg" (obj (field "intoClause" (obj end) end)) end))
    ≡ ok []
unfolding validator
unwrapped_into = refl

validate_parsed_select_iff_example :
    ((views : List String) × (validate_parsed_select same_case sales_query ≡ ok views))
    ↔ ((body : Json) × IsSafeQuery same_case sales_query body)
validate_parsed_select_iff_example = validate_parsed_select_iff same_case sales_query

validate_parsed_select_views_example :
    (body : Json) × IsSafeQuery same_case sales_query body
    × ((x : String)
        → (has x ("sales" ∷ []) ≡ true)
          ↔ ((v : Json) × Occurs "RangeVar" v (select_node same_case body) × Names x "RangeVar" v))
    × ((x : String) → has x ("sales" ∷ []) ≡ true → has x view_names ≡ true)
validate_parsed_select_views_example =
    validate_parsed_select_views same_case sales_query ("sales" ∷ []) accepts_sales
