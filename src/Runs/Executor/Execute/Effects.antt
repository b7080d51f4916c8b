-- ===== src/Runs/Executor/Execute/Effects.antt =====
-- What the executor changes: a capability that the catalog declares as a read, nothing.
use at_nova_platform.Prelude.{
  String, ◌==◌, Bool, true, false, not, ◌||◌, ◌≡◌, refl, ap, ◌∙◌, List, [], ◌∷◌, Option, none, some,
  all, map_get, arith, In, inl, inr, eq_iff,
}
use at_nova_platform.Json.{Json}
use at_nova_platform.Business.Actions.{Fresh}
use at_nova_platform.Catalog.{CatalogCapability}
use at_nova_platform.Catalog.Capabilities.{capability_catalog}
use at_nova_platform.Rbac.Authorize.{AuthContext}
use at_nova_platform.Runs.Store.{NovaDb}
use at_nova_platform.Runs.Executor.Zod.{Zod}
use at_nova_platform.Runs.Executor.Execute.{
  ReadTool, sales_report, customer_products, pending_of_customer, next_of_actions, sop_read,
  customers_search, customers_get, products_search, products_get, sales_list, sales_get,
  issues_list, issues_get, actions_list, actions_get, Tool, reads, writes, tools, run_read,
  dispatch, execute,
}

-- A capability that is declared as a read has a reading case, or none.
abbrev is_reading : Option Tool → Bool
is_reading none = true
is_reading (some (reads tool)) = true
is_reading (some (writes tool)) = false

abbrev declared_right : CatalogCapability → Bool
declared_right c = not (c.mode == "read") || is_reading (map_get c.id tools)

catalog_declared_right : all declared_right capability_catalog ≡ true
catalog_declared_right = refl

all-In : {A : Type 0} (p : A → Bool) (a : A) (xs : List A) → all p xs ≡ true → In a xs → p a ≡ true
all-In p a [] h at = absurd at
all-In p a (x ∷ xs) h (inl same) = ap p same ∙ ground arith
all-In p a (x ∷ xs) h (inr later) = all-In p a xs (ground arith) later

module _ (zod : Zod) (ilike : String → String → Bool) (fresh : Fresh) (input : Json)
    (auth : AuthContext) (db : NovaDb) where
  pub run_read-same : (tool : ReadTool) → (run_read zod ilike fresh tool input db).1 ≡ db
  run_read-same sales_report = ground arith
  run_read-same customer_products = ground arith
  run_read-same pending_of_customer = ground arith
  run_read-same next_of_actions = ground arith
  run_read-same sop_read = ground arith
  run_read-same customers_search = ground arith
  run_read-same customers_get = ground arith
  run_read-same products_search = ground arith
  run_read-same products_get = ground arith
  run_read-same sales_list = ground arith
  run_read-same sales_get = ground arith
  run_read-same issues_list = ground arith
  run_read-same issues_get = ground arith
  run_read-same actions_list = ground arith
  run_read-same actions_get = ground arith

  dispatch-same :
      (tool : Option Tool)
      → is_reading tool ≡ true
      → (dispatch zod ilike fresh tool input auth db).1 ≡ db
  dispatch-same none h = refl
  dispatch-same (some (reads tool)) h = run_read-same tool
  dispatch-same (some (writes tool)) h = cc

  -- A capability of the catalog with the mode "read" leaves the whole business database as it was,
  -- whatever its input and whoever calls it.
  pub execute-read_only :
      (c : CatalogCapability)
      → In c capability_catalog
      → c.mode ≡ "read"
      → (execute zod ilike fresh c.id input auth db).1 ≡ db
  unfolding execute
  execute-read_only c at mode =
      let right : declared_right c ≡ true =
        all-In declared_right c capability_catalog catalog_declared_right at in
      let reading : is_reading (map_get c.id tools) ≡ true =
        rw ((eq_iff c.mode "read").1 mode) at right in
      dispatch-same (map_get c.id tools) reading
