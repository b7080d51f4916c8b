-- ===== src/Sql/Complete.antt =====
-- The trees that `validateParsedSelect` (validate-select.ts) accepts, and the views it reports.
use at_nova_platform.Prelude.{
  String, true, ◌≡◌, refl, ap, ◌∙◌, ◌==◌, ◌&&◌, ◌↔◌, inl, inr, Option, some, List, [], has,
  insert_new, eq_iff, arith, Bool-cases, Option-cases,
}
use at_nova_platform.Json.{
  Json, undefined, null, bool, num, str, arr, obj, Items, nil, cons, Fields, end, field, is_record,
  get, Occurs, OccursInItems, OccursInFields, in_array, in_object, at_head, at_tail, at_field,
  at_value, at_rest,
}
use at_nova_platform.Sql.{
  ok, mcp_read_schema, view_names, is_allowed_relation, check_select, check_range_var,
  check_func_call, check_field, walk, walk_items, walk_fields, is_single_select, the_statement,
  validate_parsed_select, validate_select, rejected, empty, unparsable,
}
use at_nova_platform.Sql.Walk.{>>=-eq-ok, Names, IsSafeField}
use at_nova_platform.Sql.Accept.{walk-Walked}

module _ (to_lower : String → String) where
  check_select_ok :
      (key : String) (value : Json)
      → IsSafeField to_lower key value
      → check_select to_lower key value ≡ ok tt
  unfolding check_select
  check_select_ok key value safe = elim (Bool-cases (key == "SelectStmt" && is_record value)) [
    | inl test ↦
        let at_select : key ≡ "SelectStmt" = (eq_iff key "SelectStmt").0 (ground arith) in
        let is_obj : is_record value ≡ true = ground arith in
        rw (test, safe.no_into at_select is_obj, safe.no_lock at_select is_obj)
    | inr other ↦ rw other
  ]

  check_range_var_named :
      (key : String) (value : Json) (r : List String) (x : String)
      → (key == "RangeVar" && is_record value) ≡ true
      → get "relname" value ≡ str x
      → get "schemaname" value ≡ str mcp_read_schema
      → has x view_names ≡ true
      → check_range_var to_lower key value r ≡ ok (insert_new x r)
  unfolding check_range_var is_allowed_relation
  check_range_var_named key value r x test named schema known = rw (test, named, schema, known)

  check_range_var_ok :
      (key : String) (value : Json) (r : List String)
      → IsSafeField to_lower key value
      → (s : List String) × (check_range_var to_lower key value r ≡ ok s)
  unfolding check_range_var
  check_range_var_ok key value r safe = elim (Bool-cases (key == "RangeVar" && is_record value)) [
    | inl test ↦
        let at_range : key ≡ "RangeVar" = (eq_iff key "RangeVar").0 (ground arith) in
        let is_obj : is_record value ≡ true = ground arith in
        let (x, named, known) = safe.view at_range is_obj in
        (
          insert_new x r,
          check_range_var_named key value r x test named (safe.schema at_range is_obj) known,
        )
    | inr other ↦ (r, rw other)
  ]

  check_func_call_ok :
      (key : String) (value : Json)
      → IsSafeField to_lower key value
      → check_func_call to_lower key value ≡ ok tt
  unfolding check_func_call
  check_func_call_ok key value safe = elim (Bool-cases (key == "FuncCall" && is_record value)) [
    | inl test ↦ rw (test, safe.call ((eq_iff key "FuncCall").0 (ground arith)) (ground arith))
    | inr other ↦ rw other
  ]

  check_field_ok :
      (key : String) (value : Json) (r : List String)
      → IsSafeField to_lower key value
      → (s : List String) × (check_field to_lower key value r ≡ ok s)
  unfolding check_field
  check_field_ok key value r safe =
      let (s, e) = check_range_var_ok key value r safe in
      (s, rw (safe.statement, check_select_ok key value safe, e, check_func_call_ok key value safe))

  mutual
    unfolding walk

    walk_ok :
        (j : Json) (r : List String)
        → ((k : String) (v : Json) → Occurs k v j → IsSafeField to_lower k v)
        → (s : List String) × (walk to_lower j r ≡ ok s)
    walk_ok undefined r safe = (r, refl)
    walk_ok null r safe = (r, refl)
    walk_ok (bool b) r safe = (r, refl)
    walk_ok (num n) r safe = (r, refl)
    walk_ok (str t) r safe = (r, refl)
    walk_ok (arr items) r safe = walk_items_ok items r (λ k v h. safe k v (in_array h))
    walk_ok (obj fields) r safe = walk_fields_ok fields r (λ k v h. safe k v (in_object h))

    walk_items_ok :
        (xs : Items) (r : List String)
        → ((k : String) (v : Json) → OccursInItems k v xs → IsSafeField to_lower k v)
        → (s : List String) × (walk_items to_lower xs r ≡ ok s)
    walk_items_ok nil r safe = (r, refl)
    walk_items_ok (cons x xs) r safe =
        let (t, first) = walk_ok x r (λ k v h. safe k v (at_head h)) in
        let (s, rest) = walk_items_ok xs t (λ k v h. safe k v (at_tail h)) in (s, rw first rest)

    walk_fields_ok :
        (fs : Fields) (r : List String)
        → ((k : String) (v : Json) → OccursInFields k v fs → IsSafeField to_lower k v)
        → (s : List String) × (walk_fields to_lower fs r ≡ ok s)
    walk_fields_ok end r safe = (r, refl)
    walk_fields_ok (field key value fs) r safe =
        let (t, first) = check_field_ok key value r (safe key value at_field) in
        let (u, inside) = walk_ok value t (λ k v h. safe k v (at_value h)) in
        let (s, rest) = walk_fields_ok fs u (λ k v h. safe k v (at_rest h)) in
        (s, rw (first, inside) rest)

  abbrev pub select_node : Json → Json
  select_node body = obj (field "SelectStmt" body end)

  -- One statement, which is a SELECT, and every field below it safe.
  pub record IsSafeQuery (parsed body : Json) : Type 0 where
    pub wrapper : Json
    pub single : get "stmts" parsed ≡ arr (cons wrapper nil)
    pub is_select : get "stmt" wrapper ≡ select_node body
    pub safe : (k : String) (v : Json) → Occurs k v (select_node body) → IsSafeField to_lower k v

  single_select_lem :
      (j : Json) → is_single_select to_lower j ≡ true → (body : Json) × (j ≡ select_node body)
  single_select_lem (obj (field k body end)) e =
      (body, ap (λ t. obj (field t body end)) ((eq_iff k "SelectStmt").0 e))
  single_select_lem (obj (field k body (field _ _ _))) e = cc
  single_select_lem (obj end) e = cc
  single_select_lem undefined e = cc
  single_select_lem null e = cc
  single_select_lem (bool b) e = cc
  single_select_lem (num n) e = cc
  single_select_lem (str t) e = cc
  single_select_lem (arr xs) e = cc

  the_statement_lem :
      (j : Json) {stmt : Json}
      → the_statement to_lower j ≡ ok stmt
      → (wrapper : Json) × (j ≡ arr (cons wrapper nil)) × (get "stmt" wrapper ≡ stmt)
  the_statement_lem (arr (cons wrapper nil)) e = (wrapper, refl, ground arith)
  the_statement_lem (arr (cons wrapper (cons _ _))) e = cc
  the_statement_lem (arr nil) e = cc
  the_statement_lem undefined e = cc
  the_statement_lem null e = cc
  the_statement_lem (bool b) e = cc
  the_statement_lem (num n) e = cc
  the_statement_lem (str t) e = cc
  the_statement_lem (obj fs) e = cc

  record_of_get : (k : String) (w : Json) {fs : Fields} → get k w ≡ obj fs → is_record w ≡ true
  record_of_get k (obj fs) e = refl
  record_of_get k (arr xs) e = refl
  record_of_get k undefined e = cc
  record_of_get k null e = cc
  record_of_get k (bool b) e = cc
  record_of_get k (num n) e = cc
  record_of_get k (str t) e = cc

  validate_parts :
      (parsed : Json) (views : List String)
      → validate_parsed_select to_lower parsed ≡ ok views
      → (body : Json) × (wrapper : Json) × (get "stmts" parsed ≡ arr (cons wrapper nil))
        × (get "stmt" wrapper ≡ select_node body)
        × (walk to_lower (select_node body) [] ≡ ok views)
  unfolding validate_parsed_select
  validate_parts parsed views e =
      let (stmt, found, rest) = >>=-eq-ok (the_statement to_lower (get "stmts" parsed)) _ e in
      let (wrapper, single, stmt_of) = the_statement_lem (get "stmts" parsed) found in
      elim (Bool-cases (is_single_select to_lower stmt)) [
        | inl select ↦
            let (body, same) = single_select_lem stmt select in
            (body, wrapper, single, stmt_of ∙ same, rw (← same) (ground arith))
        | inr other ↦ absurd (ground arith)
      ]

  -- A query is accepted if and only if it is one SELECT statement in which, at any depth, no key of a
  -- forbidden statement occurs, no record under a key `SelectStmt` has an INTO or locking clause, every
  -- record under a key `RangeVar` names a view of the allowlist in the schema `mcp_read`, and no record
  -- under a key `FuncCall` calls a forbidden function. INTO and locking clauses of a SELECT that stands
  -- without the key `SelectStmt` are not looked at.
  pub validate_parsed_select_iff :
      (parsed : Json)
      → ((views : List String) × (validate_parsed_select to_lower parsed ≡ ok views))
        ↔ ((body : Json) × IsSafeQuery parsed body)
  unfolding validate_parsed_select
  validate_parsed_select_iff parsed = (sound, complete)
    where
      sound :
          (views : List String) × (validate_parsed_select to_lower parsed ≡ ok views)
          → (body : Json) × IsSafeQuery parsed body
      sound (views, e) =
          let (body, wrapper, single, select, walked) = validate_parts parsed views e in
          (
            body,
            record {
              wrapper = wrapper;
              single = single;
              is_select = select;
              safe = (walk-Walked to_lower (select_node body) [] views walked).safe;
            },
          )

      complete :
          (body : Json) × IsSafeQuery parsed body
          → (views : List String) × (validate_parsed_select to_lower parsed ≡ ok views)
      complete (body, q) =
          let (views, walked) = walk_ok (select_node body) [] q.safe in
          let is_obj : is_record q.wrapper ≡ true = record_of_get "stmt" q.wrapper q.is_select in
          (views, rw (q.single, is_obj, q.is_select) walked)

  named_in :
      (body : Json) (x : String)
      → ((k : String) × (v : Json) × Occurs k v (select_node body) × Names x k v)
      → (v : Json) × Occurs "RangeVar" v (select_node body) × Names x "RangeVar" v
  named_in body x (k, v, at, names) =
      (v, rw names.is_range_var at at, rw names.is_range_var at names)

  allowlisted :
      (body : Json) (x : String)
      → ((k : String) (v : Json) → Occurs k v (select_node body) → IsSafeField to_lower k v)
      → (v : Json) × Occurs "RangeVar" v (select_node body) × Names x "RangeVar" v
      → has x view_names ≡ true
  allowlisted body x safe (v, at, names) =
      let (y, named, known) = (safe "RangeVar" v at).view refl names.is_object in
      let same : y ≡ x = cc (named, names.relname) in rw (← same) known

  -- The reported views of an accepted query are exactly the names of the relations that occur in
  -- it, at any depth, and all of them are allowlisted.
  pub validate_parsed_select_views :
      (parsed : Json) (views : List String)
      → validate_parsed_select to_lower parsed ≡ ok views
      → (body : Json) × IsSafeQuery parsed body
        × ((x : String)
            → (has x views ≡ true)
              ↔ ((v : Json) × Occurs "RangeVar" v (select_node body) × Names x "RangeVar" v))
        × ((x : String) → has x views ≡ true → has x view_names ≡ true)
  validate_parsed_select_views parsed views e =
      let (body, wrapper, single, select, walked) = validate_parts parsed views e in
      let w = walk-Walked to_lower (select_node body) [] views walked in
      let named : (x : String)
          → has x views ≡ true
          → (v : Json) × Occurs "RangeVar" v (select_node body) × Names x "RangeVar" v =
        λ x h. elim (w.found x h) [ inl old ↦ absurd (cc) | inr f ↦ named_in body x f ] in
      (
        body,
        record { wrapper = wrapper; single = single; is_select = select; safe = w.safe },
        λ x. (named x, λ n. w.listed "RangeVar" n.0 x n.1 n.2),
        λ x h. allowlisted body x w.safe (named x h),
      )

-- An accepted text has a tree, which is accepted with the same views.
pub validate_select-parsed :
    (to_lower : String → String) (parse : String → Option Json) (trim : String → String)
    (sql : String) (views : List String)
    → validate_select to_lower parse trim sql ≡ ok views
    → (tree : Json) × (parse (trim sql) ≡ some tree)
      × (validate_parsed_select to_lower tree ≡ ok views)
unfolding validate_select
validate_select-parsed to_lower parse trim sql views e = elim (Bool-cases (trim sql == "")) [
  | inl nothing ↦ let never : rejected empty ≡ ok views = rw nothing at e in cc
  | inr some_text ↦ elim (Option-cases (parse (trim sql))) [
    | inl broken ↦ let never : rejected unparsable ≡ ok views = rw (some_text, broken) at e in cc
    | inr (tree, parsed) ↦ (tree, parsed, rw (some_text, parsed) at e)
  ]
]
