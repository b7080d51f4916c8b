-- ===== src/Sql/Accept.antt =====
-- The pass of `walk` (validate-select.ts) over a whole tree.
use at_nova_platform.Prelude.{
  String, true, false, ◌≡◌, refl, ◌==◌, ◌||◌, ◌⊎◌, inl, inr, List, has, has-insert_new, eq_iff,
  eq_refl, arith, Bool-cases,
}
use at_nova_platform.Json.{
  Json, undefined, null, bool, num, str, arr, obj, Items, nil, cons, Fields, end, field, is_record,
  Occurs, OccursInItems, OccursInFields, in_array, in_object, at_head, at_tail, at_field, at_value,
  at_rest, not-Occurs, Occurs-arr, Occurs-obj, not-OccursInItems-nil, OccursInItems-cons,
  not-OccursInFields-end, OccursInFields-field,
}
use at_nova_platform.Sql.{Checked, ok, check_field, walk, walk_items, walk_fields}
use at_nova_platform.Sql.Walk.{
  >>=-eq-ok, Names, IsSafeField, Walked, Walked-none, Walked-map, Walked-then, field_parts,
  select_parts, range_var_parts, call_parts, range_var_relations,
}

-- The one field `key: value`.
abbrev Itself : String → Json → String → Json → Type 0
Itself key value k v = (k ≡ key) × (v ≡ value)

OccursInFields-below :
    {k key : String} {v value : Json} {fs : Fields}
    → Occurs k v value ⊎ OccursInFields k v fs
    → OccursInFields k v (field key value fs)
OccursInFields-below (inl h) = at_value h
OccursInFields-below (inr h) = at_rest h

module _ (to_lower : String → String) where
  check_field-IsSafeField :
      (key : String) (value : Json) (r : List String) {s : List String}
      → check_field to_lower key value r ≡ ok s
      → IsSafeField to_lower key value
  check_field-IsSafeField key value r {s} e =
      let (statement, select, relation, call) = field_parts to_lower key value r e in
      record {
        statement = statement;
        no_into = λ k o. (select_parts to_lower value o (rw k at select)).0;
        no_lock = λ k o. (select_parts to_lower value o (rw k at select)).1;
        schema = λ k o. (range_var_parts to_lower value r o (rw k at relation)).0;
        view = λ k o. (range_var_parts to_lower value r o (rw k at relation)).1;
        call = λ k o. call_parts to_lower value o (rw k at call);
      }

  check_field-Walked :
      (key : String) (value : Json) (r s : List String)
      → check_field to_lower key value r ≡ ok s
      → Walked to_lower (Itself key value) r s
  check_field-Walked key value r s e =
      let safe = check_field-IsSafeField key value r e in
      let (statement, select, relation, call) = field_parts to_lower key value r e in
      elim (range_var_relations to_lower key value r relation) [
        | inl (same, other) ↦ record {
          safe = λ k v at. rw (at.0, at.1) safe;
          listed =
              λ k v x at n. absurd (other (rw (← at.0) n.is_range_var, rw (← at.1) n.is_object));
          kept = λ x h. rw same h;
          found = λ x h. inl (rw same at h);
        }
        | inr (y, names, added) ↦ record {
          safe = λ k v at. rw (at.0, at.1) safe;
          listed = λ k v x at n.
              let same : x ≡ y = cc (n.relname, names.relname, at.1) in
              rw (added, has-insert_new x y r, same, eq_refl y);
          kept = λ x h. rw (added, has-insert_new x y r, h) (ground arith);
          found = λ x h. found_of y names x (rw (added, has-insert_new x y r) at h);
        }
      ]
    where
      found_of :
          (y : String)
          → Names y key value
          → (x : String) → (x == y || has x r) ≡ true
          → (has x r ≡ true) ⊎ ((k : String) × (v : Json) × Itself key value k v × Names x k v)
      found_of y names x h = elim (Bool-cases (x == y)) [
        | inl same ↦ inr (key, value, (refl, refl), rw ((eq_iff x y).0 same) names)
        | inr other ↦ inl (ground arith)
      ]

  scalar-Walked :
      (j : Json) (r s : List String)
      → is_record j ≡ false
      → ◌≡◌ {A = Checked (List String)} (ok r) (ok s)
      → Walked to_lower (λ k v. Occurs k v j) r s
  scalar-Walked j r s scalar e =
      let same : r ≡ s = cc in
      rw (← same) (Walked-none to_lower (λ k v. Occurs k v j) r (λ k v. not-Occurs scalar))

  mutual
    unfolding walk

    pub walk-Walked :
        (j : Json) (r s : List String)
        → walk to_lower j r ≡ ok s
        → Walked to_lower (λ k v. Occurs k v j) r s
    walk-Walked undefined r s e = scalar-Walked undefined r s refl e
    walk-Walked null r s e = scalar-Walked null r s refl e
    walk-Walked (bool b) r s e = scalar-Walked (bool b) r s refl e
    walk-Walked (num n) r s e = scalar-Walked (num n) r s refl e
    walk-Walked (str t) r s e = scalar-Walked (str t) r s refl e
    walk-Walked (arr items) r s e =
        Walked-map to_lower (λ k v. OccursInItems k v items) (λ k v. Occurs k v (arr items))
          (λ k v. Occurs-arr) (λ k v. in_array) (walk_items-Walked items r s e)
    walk-Walked (obj fields) r s e =
        Walked-map to_lower (λ k v. OccursInFields k v fields) (λ k v. Occurs k v (obj fields))
          (λ k v. Occurs-obj) (λ k v. in_object) (walk_fields-Walked fields r s e)

    walk_items-Walked :
        (xs : Items) (r s : List String)
        → walk_items to_lower xs r ≡ ok s
        → Walked to_lower (λ k v. OccursInItems k v xs) r s
    walk_items-Walked nil r s e =
        let same : r ≡ s = cc in
        rw (← same)
          (Walked-none to_lower (λ k v. OccursInItems k v nil) r (λ k v. not-OccursInItems-nil))
    walk_items-Walked (cons x xs) r s e =
        let (t, first, rest) = >>=-eq-ok (walk to_lower x r) (walk_items to_lower xs) e in
        Walked-then to_lower (λ k v. Occurs k v x) (λ k v. OccursInItems k v xs)
          (λ k v. OccursInItems k v (cons x xs)) (λ k v. OccursInItems-cons) (λ k v. at_head)
          (λ k v. at_tail) (walk-Walked x r t first) (walk_items-Walked xs t s rest)

    walk_fields-Walked :
        (fs : Fields) (r s : List String)
        → walk_fields to_lower fs r ≡ ok s
        → Walked to_lower (λ k v. OccursInFields k v fs) r s
    walk_fields-Walked end r s e =
        let same : r ≡ s = cc in
        rw (← same)
          (Walked-none to_lower (λ k v. OccursInFields k v end) r (λ k v. not-OccursInFields-end))
    walk_fields-Walked (field key value fs) r s e =
        let (t, first, rest) = >>=-eq-ok (check_field to_lower key value r) _ e in
        let (u, inside, after) = >>=-eq-ok (walk to_lower value t) (walk_fields to_lower fs) rest in
        Walked-then to_lower (Itself key value) (λ k v. Occurs k v value ⊎ OccursInFields k v fs)
          (λ k v. OccursInFields k v (field key value fs)) (λ k v. OccursInFields-field)
          (λ k v at. rw (at.0, at.1) at_field) (λ k v. OccursInFields-below)
          (check_field-Walked key value r t first)
          (Walked-then to_lower (λ k v. Occurs k v value) (λ k v. OccursInFields k v fs)
            (λ k v. Occurs k v value ⊎ OccursInFields k v fs) (λ k v h. h) (λ k v. inl) (λ k v. inr)
            (walk-Walked value t u inside) (walk_fields-Walked fs u s after))
