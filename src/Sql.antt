-- ===== src/Sql.antt =====
-- backend-services/db-mcp-server/src/sql/validate-select.ts: the validator of free queries.
-- The parser (pgsql-parser), `String.trim` and `String.toLowerCase` are parameters.
pub mod Walk
pub mod Accept
pub mod Complete
mod Tests
use Prim.Native.Char.{code}
use Prim.Native.String
use mathlib.Core.List
use at_nova_platform.Prelude.{
  ℕ, String, Bool, true, false, ◌≡◌, ◌==◌, ◌&&◌, ◌||◌, Option, none, some, List, [], ◌∷◌, eqb, has,
  insert_new, if◌then◌else◌,
}
use at_nova_platform.Json.{
  Json, undefined, null, bool, num, str, arr, obj, Items, nil, cons, Fields, end, field, is_record,
  get, is_present, as_string,
}

-- `SqlValidationError.reason`
pub data Reason : Type 0 where
  empty unparsable multiple_statements not_a_select forbidden_statement : Reason
  select_into locking_clause relation_not_allowlisted forbidden_function : Reason

pub data Checked (A : Type 0) : Type 0 where
  ok : A → Checked A
  rejected : Reason → Checked A

infixl 5 ◌>>=◌ ◌>>◌
abbrev pub ◌>>=◌ : {A B : Type 0} → Checked A → (A → Checked B) → Checked B
ok a >>= k = k a
rejected r >>= k = rejected r

abbrev pub ◌>>◌ : {B : Type 0} → Checked (Unit {0}) → Checked B → Checked B
m >> k = m >>= λ _. k

-- `if (test) throw …`
abbrev pub reject_if : Bool → Reason → Checked (Unit {0})
reject_if true r = rejected r
reject_if false r = ok tt

unfoldable pub forbidden_node_types : List String
forbidden_node_types =
    "InsertStmt" ∷ "UpdateStmt" ∷ "DeleteStmt" ∷ "MergeStmt" ∷ "CreateStmt" ∷ "CreateTableAsStmt"
    ∷ "CreateSeqStmt" ∷ "CreateFunctionStmt" ∷ "CreateRoleStmt" ∷ "CreatedbStmt"
    ∷ "CreateSchemaStmt" ∷ "AlterTableStmt" ∷ "AlterRoleStmt" ∷ "AlterDatabaseStmt" ∷ "DropStmt"
    ∷ "DropRoleStmt" ∷ "DropdbStmt" ∷ "TruncateStmt" ∷ "CopyStmt" ∷ "GrantStmt" ∷ "GrantRoleStmt"
    ∷ "VariableSetStmt" ∷ "VariableShowStmt" ∷ "TransactionStmt" ∷ "LockStmt" ∷ "DoStmt"
    ∷ "ExplainStmt" ∷ "ExecuteStmt" ∷ "PrepareStmt" ∷ "RefreshMatViewStmt" ∷ "ViewStmt" ∷ "RuleStmt"
    ∷ "NotifyStmt" ∷ "ListenStmt" ∷ "CallStmt" ∷ []

unfoldable pub forbidden_functions : List String
forbidden_functions =
    "pg_sleep" ∷ "pg_sleep_for" ∷ "pg_sleep_until" ∷ "set_config" ∷ "pg_read_file"
    ∷ "pg_read_binary_file" ∷ "pg_ls_dir" ∷ "pg_stat_file" ∷ "lo_import" ∷ "lo_export" ∷ "lo_get"
    ∷ "lo_put" ∷ "dblink" ∷ "dblink_exec" ∷ "dblink_connect" ∷ "pg_terminate_backend"
    ∷ "pg_cancel_backend" ∷ "pg_reload_conf" ∷ "query_to_xml" ∷ "pg_logical_emit_message" ∷ []

abbrev pub mcp_read_schema : String
mcp_read_schema = "mcp_read"

-- The names of `MCP_READ_VIEWS` (data/views.ts), the keys of `VIEW_BY_NAME`.
unfoldable pub view_names : List String
view_names =
    "customers" ∷ "products" ∷ "sales" ∷ "products_sold" ∷ "customer_issues" ∷ "issue_actions"
    ∷ "sops" ∷ "sop_details" ∷ "users" ∷ "my_assigned_actions" ∷ []

abbrev pub is_schema : Option String → Bool
is_schema none = false
is_schema (some s) = s == mcp_read_schema

unfoldable pub is_allowed_relation : Option String → String → Bool
is_allowed_relation schema relation = is_schema schema && has relation view_names

-- `names.join('.')`
abbrev pub join_dots : List String → String
join_dots [] = ""
join_dots (name ∷ []) = name
join_dots (name ∷ n ∷ names) = String.◌++◌ name (String.◌++◌ "." (join_dots (n ∷ names)))

-- What stands behind the last dot, the whole name if there is none.
after_last_dot : String → String → String
after_last_dot kept String.[] = kept
after_last_dot kept (String.◌∷◌ c s) =
    after_last_dot (if eqb (code c) b'.' then "" else String.◌++◌ kept (String.◌∷◌ c String.[])) s

unfoldable pub bare_name : String → String
unfolding after_last_dot
bare_name name = after_last_dot "" name

-- `value ?? ''`
abbrev pub or_empty : Option String → String
or_empty none = ""
or_empty (some s) = s

module _ (to_lower : String → String) where
  -- The names that the loop of `funcCallName` pushes.
  abbrev pub func_names : Items → List String
  func_names nil = []
  func_names (cons part parts) = elim (as_string (get "sval" (get "String" part))) [
    | none ↦ func_names parts
    | some s ↦ to_lower s ∷ func_names parts
  ]

  abbrev pub dotted_parts : Json → String
  dotted_parts (arr parts) = join_dots (func_names parts)
  dotted_parts _ = ""

  unfoldable pub func_call_name : Json → String
  func_call_name call = dotted_parts (get "funcname" call)

  unfoldable pub is_forbidden_call : Json → Bool
  unfolding func_call_name
  is_forbidden_call call =
      let name = func_call_name call in
      has name forbidden_functions || has (bare_name name) forbidden_functions

  -- The three checks that `walk` makes of one field, and `relations.add`.
  unfoldable pub check_select : String → Json → Checked (Unit {0})
  check_select key value =
      if key == "SelectStmt" && is_record value
      then (do
        reject_if (is_present (get "intoClause" value)) select_into
        reject_if (is_present (get "lockingClause" value)) locking_clause)
      else ok tt

  unfoldable pub check_range_var : String → Json → List String → Checked (List String)
  check_range_var key value relations =
      let relname = or_empty (as_string (get "relname" value)) in
      if key == "RangeVar" && is_record value
      then (if is_allowed_relation (as_string (get "schemaname" value)) relname
          then ok (insert_new relname relations)
          else rejected relation_not_allowlisted)
      else ok relations

  unfoldable pub check_func_call : String → Json → Checked (Unit {0})
  check_func_call key value =
      if key == "FuncCall" && is_record value
      then reject_if (is_forbidden_call value) forbidden_function
      else ok tt

  -- One round of the loop over a record's keys, up to the recursive call.
  unfoldable pub check_field : String → Json → List String → Checked (List String)
  check_field key value relations = do
    reject_if (has key forbidden_node_types) forbidden_statement
    check_select key value
    found ← check_range_var key value relations
    check_func_call key value
    ok found

  unfoldable mutual
    pub walk : Json → List String → Checked (List String)
    walk undefined relations = ok relations
    walk null relations = ok relations
    walk (bool b) relations = ok relations
    walk (num n) relations = ok relations
    walk (str s) relations = ok relations
    walk (arr items) relations = walk_items items relations
    walk (obj fields) relations = walk_fields fields relations

    walk_items : Items → List String → Checked (List String)
    walk_items nil relations = ok relations
    walk_items (cons item items) relations = do found ← walk item relations; walk_items items found

    walk_fields : Fields → List String → Checked (List String)
    walk_fields end relations = ok relations
    walk_fields (field key value fields) relations = do
      checked ← check_field key value relations
      found ← walk value checked
      walk_fields fields found

  -- `stmtKeys.length !== 1 || stmtKeys[0] !== 'SelectStmt'`; an array's keys are indices.
  abbrev pub is_single_select : Json → Bool
  is_single_select (obj (field key value end)) = key == "SelectStmt"
  is_single_select _ = false

  -- The value of `stmts` must be an array of one record with a record `stmt`.
  abbrev pub the_statement : Json → Checked Json
  the_statement (arr (cons wrapper nil)) =
      if is_record wrapper && is_record (get "stmt" wrapper)
      then ok (get "stmt" wrapper)
      else rejected unparsable
  the_statement (arr _) = rejected multiple_statements
  the_statement _ = rejected unparsable

  unfoldable pub validate_parsed_select : Json → Checked (List String)
  validate_parsed_select parsed = do
    stmt ← the_statement (get "stmts" parsed)
    reject_if (if is_single_select stmt then false else true) not_a_select
    walk stmt []

  -- `parse` answers `none` where the parser throws; `trim` is `String.trim`.
  unfoldable pub validate_select :
      (String → Option Json) → (String → String) → String → Checked (List String)
  validate_select parse trim sql =
      if trim sql == "" then rejected empty else elim (parse (trim sql)) [
        | none ↦ rejected unparsable
        | some parsed ↦ validate_parsed_select parsed
      ]
