-- ===== src/Sql/Walk.antt =====
-- What one pass of `walk` over a tree has established, built from its rounds.
use at_nova_platform.Prelude.{
  String, true, false, ◌≡◌, refl, ap, ◌==◌, ◌&&◌, ◌⊎◌, inl, inr, some, List, has, insert_new,
  eq_iff, arith, Bool-cases, Option-cases,
}
use at_nova_platform.Json.{
  Json, undefined, null, bool, num, str, arr, obj, is_record, get, is_present, as_string,
}
use at_nova_platform.Sql.{
  Checked, ok, rejected, ◌>>=◌, forbidden_node_types, mcp_read_schema, view_names,
  is_allowed_relation, or_empty, is_forbidden_call, check_select, check_range_var, check_func_call,
  check_field,
}

pub >>=-eq-ok :
    {A B : Type 0} (m : Checked A) (k : A → Checked B) {b : B}
    → (m >>= k) ≡ ok b
    → (a : A) × (m ≡ ok a) × (k a ≡ ok b)
>>=-eq-ok (ok a) k e = (a, refl, e)
>>=-eq-ok (rejected r) k e = cc

no_empty_view : has "" view_names ≡ false
unfolding view_names
no_empty_view = refl

-- The record at a key `RangeVar` names the view `x`.
pub record Names (x : String) (key : String) (value : Json) : Type 0 where
  pub is_range_var : key ≡ "RangeVar"
  pub is_object : is_record value ≡ true
  pub relname : get "relname" value ≡ str x

module _ (to_lower : String → String) where
  -- What the validator promises of a field, whatever stands around it.
  pub record IsSafeField (key : String) (value : Json) : Type 0 where
    pub statement : has key forbidden_node_types ≡ false
    pub no_into :
        key ≡ "SelectStmt" → is_record value ≡ true → is_present (get "intoClause" value) ≡ false
    pub no_lock :
        key ≡ "SelectStmt" → is_record value ≡ true → is_present (get "lockingClause" value) ≡ false
    pub schema :
        key ≡ "RangeVar" → is_record value ≡ true → get "schemaname" value ≡ str mcp_read_schema
    pub view :
        key ≡ "RangeVar"
        → is_record value ≡ true
        → (x : String) × (get "relname" value ≡ str x) × (has x view_names ≡ true)
    pub call : key ≡ "FuncCall" → is_record value ≡ true → is_forbidden_call to_lower value ≡ false

  -- A pass over the fields in `At`, from the relations `before` to the relations `after`.
  pub record Walked (At : String → Json → Type 0) (before after : List String) : Type 0 where
    pub safe : (k : String) (v : Json) → At k v → IsSafeField k v
    pub listed : (k : String) (v : Json) (x : String) → At k v → Names x k v → has x after ≡ true
    pub kept : (x : String) → has x before ≡ true → has x after ≡ true
    pub found :
        (x : String)
        → has x after ≡ true
        → (has x before ≡ true) ⊎ ((k : String) × (v : Json) × At k v × Names x k v)

  pub Walked-none :
      (At : String → Json → Type 0) (r : List String)
      → ((k : String) (v : Json) → ¬ At k v)
      → Walked At r r
  Walked-none At r empty = record {
    safe = λ k v at. absurd (empty k v at);
    listed = λ k v x at n. absurd (empty k v at);
    kept = λ x h. h;
    found = λ x h. inl h;
  }

  pub Walked-map :
      (At Bt : String → Json → Type 0) {r s : List String}
      → ((k : String) (v : Json) → Bt k v → At k v)
      → ((k : String) (v : Json) → At k v → Bt k v)
      → Walked At r s
      → Walked Bt r s
  Walked-map At Bt {r} back forth a = record {
    safe = λ k v at. a.safe k v (back k v at);
    listed = λ k v x at n. a.listed k v x (back k v at) n;
    kept = a.kept;
    found = λ x h. moved x (a.found x h);
  }
    where
      moved :
          (x : String)
          → (has x r ≡ true) ⊎ ((k : String) × (v : Json) × At k v × Names x k v)
          → (has x r ≡ true) ⊎ ((k : String) × (v : Json) × Bt k v × Names x k v)
      moved x (inl h) = inl h
      moved x (inr (k, v, at, n)) = inr (k, v, forth k v at, n)

  pub Walked-then :
      (At Bt Ct : String → Json → Type 0) {r s t : List String}
      → ((k : String) (v : Json) → Ct k v → At k v ⊎ Bt k v)
      → ((k : String) (v : Json) → At k v → Ct k v)
      → ((k : String) (v : Json) → Bt k v → Ct k v)
      → Walked At r s
      → Walked Bt s t
      → Walked Ct r t
  Walked-then At Bt Ct {r} {s} {t} split left right a b = record {
    safe = λ k v at. safe_of k v (split k v at);
    listed = λ k v x at n. listed_of k v x n (split k v at);
    kept = λ x h. b.kept x (a.kept x h);
    found = λ x h. found_of x (b.found x h);
  }
    where
      safe_of : (k : String) (v : Json) → At k v ⊎ Bt k v → IsSafeField k v
      safe_of k v (inl h) = a.safe k v h
      safe_of k v (inr h) = b.safe k v h

      listed_of :
          (k : String) (v : Json) (x : String) → Names x k v → At k v ⊎ Bt k v → has x t ≡ true
      listed_of k v x n (inl h) = b.kept x (a.listed k v x h n)
      listed_of k v x n (inr h) = b.listed k v x h n

      left_found :
          (x : String)
          → (has x r ≡ true) ⊎ ((k : String) × (v : Json) × At k v × Names x k v)
          → (has x r ≡ true) ⊎ ((k : String) × (v : Json) × Ct k v × Names x k v)
      left_found x (inl h) = inl h
      left_found x (inr (k, v, h, n)) = inr (k, v, left k v h, n)

      found_of :
          (x : String)
          → (has x s ≡ true) ⊎ ((k : String) × (v : Json) × Bt k v × Names x k v)
          → (has x r ≡ true) ⊎ ((k : String) × (v : Json) × Ct k v × Names x k v)
      found_of x (inl h) = left_found x (a.found x h)
      found_of x (inr (k, v, h, n)) = inr (k, v, right k v h, n)

  pub field_parts :
      (key : String) (value : Json) (r : List String) {s : List String}
      → check_field to_lower key value r ≡ ok s
      → (has key forbidden_node_types ≡ false)
        × (check_select to_lower key value ≡ ok tt)
        × (check_range_var to_lower key value r ≡ ok s)
        × (check_func_call to_lower key value ≡ ok tt)
  unfolding check_field
  field_parts key value r e = ground arith

  pub select_parts :
      (value : Json)
      → is_record value ≡ true
      → check_select to_lower "SelectStmt" value ≡ ok tt
      → (is_present (get "intoClause" value) ≡ false)
        × (is_present (get "lockingClause" value) ≡ false)
  unfolding check_select
  select_parts value is_obj e = ground arith

  as_string-eq-some : (v : Json) {s : String} → as_string v ≡ some s → v ≡ str s
  as_string-eq-some (str t) e = cc
  as_string-eq-some undefined e = cc
  as_string-eq-some null e = cc
  as_string-eq-some (bool b) e = cc
  as_string-eq-some (num n) e = cc
  as_string-eq-some (arr xs) e = cc
  as_string-eq-some (obj fs) e = cc

  allowed_parts :
      (schema relname : Json)
      → is_allowed_relation (as_string schema) (or_empty (as_string relname)) ≡ true
      → (schema ≡ str mcp_read_schema)
        × ((x : String) × (relname ≡ str x) × (has x view_names ≡ true))
  unfolding is_allowed_relation
  allowed_parts schema relname e = elim (Option-cases (as_string relname)) [
    | inl missing ↦ absurd (ground (arith, no_empty_view))
    | inr (x, named) ↦ elim (Option-cases (as_string schema)) [
      | inl missing ↦ ground arith
      | inr (t, qualified) ↦ (
        ground (arith, as_string-eq-some schema qualified, eq_iff t mcp_read_schema),
        (x, as_string-eq-some relname named, ground arith),
      )
    ]
  ]

  pub range_var_parts :
      (value : Json) (r : List String) {s : List String}
      → is_record value ≡ true
      → check_range_var to_lower "RangeVar" value r ≡ ok s
      → (get "schemaname" value ≡ str mcp_read_schema)
        × ((x : String) × (get "relname" value ≡ str x) × (has x view_names ≡ true))
  unfolding check_range_var
  range_var_parts value r is_obj e =
      allowed_parts (get "schemaname" value) (get "relname" value) (ground arith)

  pub call_parts :
      (value : Json)
      → is_record value ≡ true
      → check_func_call to_lower "FuncCall" value ≡ ok tt
      → is_forbidden_call to_lower value ≡ false
  unfolding check_func_call
  call_parts value is_obj e = ground arith

  -- The relations after a round: the view of a `RangeVar` is added, and nothing else.
  pub range_var_relations :
      (key : String) (value : Json) (r : List String) {s : List String}
      → check_range_var to_lower key value r ≡ ok s
      → (s ≡ r) × ¬ ((key ≡ "RangeVar") × (is_record value ≡ true))
        ⊎ ((x : String) × Names x key value × (s ≡ insert_new x r))
  unfolding check_range_var
  range_var_relations key value r {s} e = elim (Bool-cases (key == "RangeVar" && is_record value)) [
    | inl test ↦ inr (added test)
    | inr other ↦ inl (ground arith, λ h. cc (other, (eq_iff key "RangeVar").1 h.0, h.1))
  ]
    where
      added :
          (key == "RangeVar" && is_record value) ≡ true
          → (x : String) × Names x key value × (s ≡ insert_new x r)
      added test =
          let allowed : is_allowed_relation (as_string (get "schemaname" value))
                (or_empty (as_string (get "relname" value)))
              ≡ true =
            ground arith in
          let (schema, view) =
            allowed_parts (get "schemaname" value) (get "relname" value) allowed in
          let (x, named, known) = view in
          (
            x,
            record {
              is_range_var = (eq_iff key "RangeVar").0 (ground arith);
              is_object = ground arith;
              relname = named;
            },
            ground (arith, ap (λ j. or_empty (as_string j)) named),
          )
