-- ===== src/Registry/Loaded.antt =====
-- The registry that is loaded says what the rows say: `loadData` of rbac-registry.service.ts.
use at_nova_platform.Prelude.{
  String, ◌==◌, ◌≡◌, refl, ap, ◌∙◌, Bool, true, false, ◌&&◌, ◌||◌, List, [], ◌∷◌, ◌++◌, map, Option,
  none, some, any, has, has-append, has-add_all, get_or, map_get, map_set, set_all, map_of,
  map_get-map_set, add_all, Bool-cases, inl, inr, not, arith, eq_iff, if◌then◌else◌,
}
use at_nova_platform.Rbac.{RoleView, new_registry, grants, roles_grant_permission}
use at_nova_platform.Admin.Tables.{CapabilityRow, Pairs, has_pair}
use at_nova_platform.Registry.{
  Reads, push_to, push_all, no_grants, grants_by_role, required_by_capability, capability_view_of,
  load_data,
}

abbrev Lists : Type 0
Lists = List (String × List String)

abbrev keys : Lists → List String
keys m = map (λ (e : String × List String). e.0) m

-- No key is twice in the entries.
abbrev distinct : Lists → Bool
distinct [] = true
distinct (e ∷ m) = not (has e.0 (keys m)) && distinct m

has-keys-map_set :
    (k j : String) (v : List String) (m : Lists)
    → has k (keys (map_set j v m)) ≡ (k == j || has k (keys m))
has-keys-map_set k j v [] = refl
has-keys-map_set k j v ((i, w) ∷ m) =
    ground (arith, eq_iff k j, eq_iff j i, eq_iff k i, has-keys-map_set k j v m)

distinct-map_set :
    (j : String) (v : List String) (m : Lists) → distinct m ≡ true → distinct (map_set j v m) ≡ true
distinct-map_set j v [] h = refl
distinct-map_set j v ((i, w) ∷ m) h =
    ground (arith, eq_iff j i, eq_iff i j, has-keys-map_set i j v m, distinct-map_set j v m)

distinct-set_all : (m entries : Lists) → distinct m ≡ true → distinct (set_all m entries) ≡ true
distinct-set_all m [] h = h
distinct-set_all m ((k, v) ∷ entries) h =
    distinct-set_all (map_set k v m) entries (distinct-map_set k v m h)

distinct-push_all :
    (m : Lists) (rows : Pairs) → distinct m ≡ true → distinct (push_all m rows) ≡ true
distinct-push_all m [] h = h
distinct-push_all m (row ∷ rows) h =
    distinct-push_all (push_to row.0 row.1 m) rows
      (distinct-map_set row.0 (get_or (map_get row.0 m) [] ++ row.1 ∷ []) m h)

grants-some : (o : Option (List String)) (p : String) → has p (get_or o []) ≡ grants o p
grants-some none p = refl
grants-some (some ps) p = refl

-- One push adds one grant, and all of them add those of the rows.
grants-push_to :
    (k p j q : String) (m : Lists)
    → grants (map_get k (push_to j q m)) p ≡ (grants (map_get k m) p || k == j && p == q)
grants-push_to k p j q m = elim (Bool-cases (k == j)) [
  | inl same ↦
      let here : k ≡ j = (eq_iff k j).0 same in
      let old = get_or (map_get j m) [] in
      ap (λ o. grants o p) (map_get-map_set k j (old ++ q ∷ []) m)
      ∙ ground (
        arith,
        has-append p old (q ∷ []),
        grants-some (map_get j m) p,
        ap (λ i. grants (map_get i m) p) here,
      )
  | inr other ↦
      ap (λ o. grants o p) (map_get-map_set k j (get_or (map_get j m) [] ++ q ∷ []) m)
      ∙ ground arith
]

pub grants-push_all :
    (k p : String) (m : Lists) (rows : Pairs)
    → grants (map_get k (push_all m rows)) p ≡ (grants (map_get k m) p || has_pair k p rows)
grants-push_all k p m [] = ground arith
grants-push_all k p m (row ∷ rows) =
    grants-push_all k p (push_to row.0 row.1 m) rows
    ∙ ground (arith, grants-push_to k p row.0 row.1 m)

-- Every role starts with no grant.
grants-no_grants :
    (k p : String) (m : Lists) (roles : List RoleView)
    → grants (map_get k m) p ≡ false
    → grants (map_get k (set_all m (map no_grants roles))) p ≡ false
grants-no_grants k p m [] h = h
grants-no_grants k p m (role ∷ roles) h =
    grants-no_grants k p (map_set role.name [] m) roles
      (ap (λ o. grants o p) (map_get-map_set k role.name [] m) ∙ ground arith)

abbrev as_set : String × List String → String × List String
as_set entry = (entry.0, add_all [] entry.1)

-- The map of sets that the registry builds from an object's entries.
grants-as_set :
    (k p : String) (acc m : Lists)
    → distinct m ≡ true
    → grants (map_get k (set_all acc (map as_set m))) p
      ≡ (if has k (keys m) then grants (map_get k m) p else grants (map_get k acc) p)
grants-as_set k p acc [] h = refl
grants-as_set k p acc ((j, v) ∷ m) h =
    let now = map_get-map_set k j (add_all [] v) acc in
    grants-as_set k p (map_set j (add_all [] v) acc) m (ground arith)
    ∙ ap (λ o. if has k (keys m) then grants (map_get k m) p else grants o p) now
    ∙ ground (arith, eq_iff k j, has-add_all p [] v)

grants-keys : (k p : String) (m : Lists) → has k (keys m) ≡ false → grants (map_get k m) p ≡ false
grants-keys k p [] h = refl
grants-keys k p ((j, v) ∷ m) h = ground (arith, grants-keys k p m)

-- In the registry that a load makes, a role grants exactly what its rows say.
role_grants :
    (reads : Reads) (role p : String)
    → grants (map_get role (new_registry (load_data reads)).role_permission_map) p
      ≡ has_pair role p reads.role_permissions
unfolding new_registry load_data
role_grants reads role p =
    let start = map_of (map no_grants reads.roles) in
    let lists = grants_by_role reads.roles reads.role_permissions in
    let empty = grants-no_grants role p [] reads.roles refl in
    let once =
      distinct-push_all start reads.role_permissions
        (distinct-set_all [] (map no_grants reads.roles) refl) in
    grants-as_set role p [] lists once
    ∙ ground (arith, grants-keys role p lists)
    ∙ grants-push_all role p start reads.role_permissions
    ∙ ground (arith, empty)

-- In the registry that a load makes, roles grant a permission exactly when one of them has a row of
-- the table of grants with it.
pub load_data-roles_grant_permission :
    (reads : Reads) (roles : List String) (p : String)
    → roles_grant_permission (new_registry (load_data reads)) roles p
      ≡ any (λ role. has_pair role p reads.role_permissions) roles
unfolding roles_grant_permission
load_data-roles_grant_permission reads [] p = refl
load_data-roles_grant_permission reads (role ∷ roles) p =
    ap (λ b. b || roles_grant_permission (new_registry (load_data reads)) roles p)
      (role_grants reads role p)
    ∙ ap (λ b. has_pair role p reads.role_permissions || b)
        (load_data-roles_grant_permission reads roles p)

pub required_by_row :
    (rows : Pairs) (c : CapabilityRow) (p : String)
    → has p (capability_view_of (required_by_capability rows) c).required_permissions
      ≡ has_pair c.id p rows
required_by_row rows c p =
    grants-some (map_get c.id (required_by_capability rows)) p ∙ grants-push_all c.id p [] rows
