-- ===== src/Runs/Executor/Execute.antt =====
-- `CapabilityExecutor.execute`: the `switch` over the capability ids, with its default.
pub mod Effects
pub mod Atomic
use at_nova_platform.Prelude.{String, Bool, true, false, List, [], ◌∷◌, Option, none, some, map_get}
use at_nova_platform.Json.{Json}
use at_nova_platform.Business.Actions.{Fresh}
use at_nova_platform.Rbac.Authorize.{AuthContext}
use at_nova_platform.Runs.Store.{NovaAction, validation, thrown, Outcome, World, Action}
use at_nova_platform.Runs.Executor.Zod.{Zod}
use at_nova_platform.Runs.Executor.Results.{ToolCallResult}
use at_nova_platform.Runs.Executor.Reads.{
  sales_report_for, customer_products_for, pending_issues, next_action, read_sop, search_customers,
  get_customer, search_products, get_product, list_sales_tool, get_sale, list_issues_tool,
  get_issue, list_actions_tool, get_action,
}
use at_nova_platform.Runs.Executor.Writes.{
  mark_action_completed, create_sale_tool, create_issue_tool, create_action_tool,
  add_action_comment, update_action_tool, update_issue_tool, create_sop_tool, update_sop_tool,
  add_sop_version,
}

-- The cases, by what they read or write.
pub data ReadTool : Type 0 where
  sales_report customer_products pending_of_customer next_of_actions sop_read : ReadTool
  customers_search customers_get products_search products_get : ReadTool
  sales_list sales_get issues_list issues_get actions_list actions_get : ReadTool

pub data WriteTool : Type 0 where
  actions_mark_completed sales_create issues_create : WriteTool
  actions_create actions_add_comment actions_update : WriteTool
  issues_update sop_create sop_update sop_add_version : WriteTool

pub data Tool : Type 0 where
  reads : ReadTool → Tool
  writes : WriteTool → Tool

abbrev pub tools : List (String × Tool)
tools =
    ("sales.report.customer", reads sales_report)
    ∷ ("sales.products.forCustomer", reads customer_products)
    ∷ ("issues.list.pendingForCustomer", reads pending_of_customer)
    ∷ ("actions.next", reads next_of_actions)
    ∷ ("actions.markCompleted", writes actions_mark_completed)
    ∷ ("sales.create", writes sales_create)
    ∷ ("issues.create", writes issues_create)
    ∷ ("sop.read", reads sop_read)
    ∷ ("customers.search", reads customers_search)
    ∷ ("customers.get", reads customers_get)
    ∷ ("products.search", reads products_search)
    ∷ ("products.get", reads products_get)
    ∷ ("sales.list", reads sales_list)
    ∷ ("sales.get", reads sales_get)
    ∷ ("issues.list", reads issues_list)
    ∷ ("issues.get", reads issues_get)
    ∷ ("actions.list", reads actions_list)
    ∷ ("actions.get", reads actions_get)
    ∷ ("actions.create", writes actions_create)
    ∷ ("actions.addComment", writes actions_add_comment)
    ∷ ("actions.update", writes actions_update)
    ∷ ("issues.update", writes issues_update)
    ∷ ("sop.create", writes sop_create)
    ∷ ("sop.update", writes sop_update)
    ∷ ("sop.addVersion", writes sop_add_version)
    ∷ []

module _ (zod : Zod) (ilike : String → String → Bool) (fresh : Fresh) where
  abbrev pub run_read : ReadTool → Json → NovaAction ToolCallResult
  run_read sales_report input = sales_report_for zod ilike input
  run_read customer_products input = customer_products_for zod ilike input
  run_read pending_of_customer input = pending_issues zod ilike input
  run_read next_of_actions input = next_action zod ilike
  run_read sop_read input = read_sop zod ilike input
  run_read customers_search input = search_customers zod ilike input
  run_read customers_get input = get_customer zod ilike input
  run_read products_search input = search_products zod ilike input
  run_read products_get input = get_product zod ilike input
  run_read sales_list input = list_sales_tool zod ilike input
  run_read sales_get input = get_sale zod ilike input
  run_read issues_list input = list_issues_tool zod ilike input
  run_read issues_get input = get_issue zod ilike input
  run_read actions_list input = list_actions_tool zod ilike input
  run_read actions_get input = get_action zod ilike input

  abbrev pub run_write : WriteTool → Json → AuthContext → NovaAction ToolCallResult
  run_write actions_mark_completed input auth = mark_action_completed zod fresh input auth
  run_write sales_create input auth = create_sale_tool zod fresh input
  run_write issues_create input auth = create_issue_tool zod fresh input
  run_write actions_create input auth = create_action_tool zod fresh input auth
  run_write actions_add_comment input auth = add_action_comment zod fresh input auth
  run_write actions_update input auth = update_action_tool zod fresh input auth
  run_write issues_update input auth = update_issue_tool zod fresh input
  run_write sop_create input auth = create_sop_tool zod fresh input auth
  run_write sop_update input auth = update_sop_tool zod fresh input
  run_write sop_add_version input auth = add_sop_version zod fresh input auth

  -- Default deny: a capability without a case is an error.
  abbrev pub dispatch : Option Tool → Json → AuthContext → NovaAction ToolCallResult
  dispatch none input auth db = (thrown (validation "Capability is not executable."), db)
  dispatch (some (reads tool)) input auth db = run_read tool input db
  dispatch (some (writes tool)) input auth db = run_write tool input auth db

  unfoldable pub execute : String → Json → AuthContext → NovaAction ToolCallResult
  execute capability_id input auth db = dispatch (map_get capability_id tools) input auth db

  -- The same over both databases, as the gateway calls it.
  abbrev pub on_world : {A : Type 0} → NovaAction A → Action A
  on_world act w = let (out, after) = act w.nova in (out, record w { nova = after })

  abbrev pub execute_on_world : String → Json → AuthContext → Action ToolCallResult
  execute_on_world capability_id input auth w = on_world (execute capability_id input auth) w
