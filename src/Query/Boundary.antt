-- ===== src/Query/Boundary.antt =====
-- The data boundary of `run_select_query` (register-tools.ts).
use at_nova_platform.Prelude.{
  String, ◌==◌, ◌≡◌, refl, ap, inl, inr, true, List, [], ◌∷◌, Option, none, some, arith, has, In,
  eq_iff, has-map-filter, Bool-cases, Option-cases,
}
use mathlib.Core.Path.{subst}
use at_nova_platform.Json.{Json, Occurs}
use at_nova_platform.Sql.{Checked, ok, rejected, validate_select, validate_parsed_select}
use at_nova_platform.Sql.Walk.{Names}
use at_nova_platform.Sql.Complete.{
  IsSafeQuery, select_node, validate_parsed_select_views, validate_select-parsed,
}
use at_nova_platform.Query.{
  mcp_read_view_permissions, accessible_views, entitled_views, ViewDenial, denial_of,
  find_forbidden_view, CapabilityDescriptor, VerifiedSnapshot, McpError, Outcome, returned, thrown,
  AuditEvent, QueryAnswer, QueryArgs, Surroundings, validated, with_args, gated,
  authorize_capability, run_select_query,
}

-- The permission that the view wants is among those given.
pub IsReadable : List String → String → Type 0
IsReadable permissions view =
    (p : String) × In (view, p) mcp_read_view_permissions × (has p permissions ≡ true)

accessible-IsReadable :
    (permissions : List String) (view : String)
    → has view (accessible_views permissions) ≡ true
    → IsReadable permissions view
unfolding accessible_views IsReadable
accessible-IsReadable permissions view h =
    let (row, at, passes, named) =
      has-map-filter (λ (row : String × String). row.0)
        (λ (row : String × String). has row.1 permissions) view mcp_read_view_permissions h in
    (row.1, subst (λ v. In (v, row.1) mcp_read_view_permissions) named at, passes)

none_forbidden :
    (relations entitled : List String)
    → find_forbidden_view relations entitled ≡ none
    → (x : String) → has x relations ≡ true
    → has x entitled ≡ true
unfolding find_forbidden_view
none_forbidden [] entitled e x h = cc
none_forbidden (r ∷ rs) entitled e x h = elim (Bool-cases (has r entitled)) [
  | inr outside ↦
      let never : Path (Option ViewDenial) (denial_of (some r)) none = rw outside at e in cc
  | inl inside ↦ elim (Bool-cases (x == r)) [
    | inl same ↦ rw ((eq_iff x r).0 same) inside
    | inr other ↦ none_forbidden rs entitled (rw inside at e) x (ground arith)
  ]
]

module _ {Raw Row : Type 0} (env : Surroundings Raw Row) (s : VerifiedSnapshot) where
  abbrev Reply : Type 0
  Reply = Outcome (QueryAnswer Row) × List AuditEvent

  -- The statement that was run: the tree of its text, and what may occur in it.
  pub record IsWithin (raw : Raw) : Type 0 where
    pub args : QueryArgs
    pub decoded : env.parse_args raw ≡ some args
    pub tree : Json
    pub parsed : env.parse (env.trim args.sql) ≡ some tree
    pub body : Json
    pub safe : IsSafeQuery env.to_lower tree body
    pub readable :
        (x : String) (v : Json)
        → Occurs "RangeVar" v (select_node env.to_lower body)
        → Names x "RangeVar" v
        → IsReadable s.permissions x

  never :
      {C : Type 0} (e : McpError) (l log : List AuditEvent) (a : QueryAnswer Row)
      → Path Reply (thrown e, l) (returned a, log)
      → C
  never e l log a same =
      let absurdity : Path (Outcome (QueryAnswer Row)) (thrown e) (returned a) =
        ap (λ (o : Reply). o.0) same in
      cc

  tree_of :
      (sql : String) (relations : List String)
      → validate_select env.to_lower env.parse env.trim sql ≡ ok relations
      → (tree : Json) × (env.parse (env.trim sql) ≡ some tree)
        × (validate_parsed_select env.to_lower tree ≡ ok relations)
  tree_of sql relations e = validate_select-parsed env.to_lower env.parse env.trim sql relations e

  checked_relations :
      (args : QueryArgs) (relations : List String) (a : QueryAnswer Row) (log : List AuditEvent)
      → validated env s args (ok relations) ≡ (returned a, log)
      → (x : String) → has x relations ≡ true
      → has x (entitled_views s.permissions) ≡ true
  checked_relations args relations a log went =
      elim (Option-cases (find_forbidden_view relations (entitled_views s.permissions))) [
        | inl nothing ↦ none_forbidden relations (entitled_views s.permissions) nothing
        | inr (d, forbidden) ↦ never _ _ log a (rw forbidden at went)
      ]

  -- A query that was answered is one safe SELECT, and of every relation that occurs in it, at any
  -- depth, the snapshot holds the permission that the view wants.
  pub run_select_query-IsWithin :
      (catalog : List CapabilityDescriptor) (raw : Raw) (a : QueryAnswer Row)
      (log : List AuditEvent)
      → run_select_query env catalog s raw ≡ (returned a, log)
      → IsWithin raw
  unfolding run_select_query
  run_select_query-IsWithin catalog raw a log went =
      gate (authorize_capability catalog s "data.query.select") went
    where
      sql :
          (args : QueryArgs)
          → env.parse_args raw ≡ some args
          → (c : Checked (List String))
          → validate_select env.to_lower env.parse env.trim args.sql ≡ c
          → validated env s args c ≡ (returned a, log)
          → IsWithin raw
      sql args decoded (rejected reason) e same = never _ _ log a same
      sql args decoded (ok relations) e same =
          let (tree, parsed, checked) = tree_of args.sql relations e in
          let (body, safe, exact, listed) =
            validate_parsed_select_views env.to_lower tree relations checked in
          record {
            args = args;
            decoded = decoded;
            tree = tree;
            parsed = parsed;
            body = body;
            safe = safe;
            readable = λ x v at names.
                accessible-IsReadable s.permissions x
                  (checked_relations args relations a log same x ((exact x).1 (v, at, names)));
          }

      arguments :
          (o : Option QueryArgs)
          → env.parse_args raw ≡ o
          → with_args env s o ≡ (returned a, log)
          → IsWithin raw
      arguments none e same = never _ _ log a same
      arguments (some args) e same = sql args e _ refl same

      gate : (e : Option McpError) → gated env s raw e ≡ (returned a, log) → IsWithin raw
      gate (some e) same = never _ _ log a same
      gate none same = arguments (env.parse_args raw) refl same
