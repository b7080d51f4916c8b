-- ===== src/Runs/Executor/Reads.antt =====
-- The handlers of the reading capabilities: one for each case of the executor's `switch`.
use at_nova_platform.Prelude.{String, Bool, Option, none, some}
use at_nova_platform.Json.{Json}
use at_nova_platform.Business.{in_assistance, pending}
use at_nova_platform.Business.Sales.{list_sales, get_sale_by_id, products_for_customer}
use at_nova_platform.Business.Catalog.{
  get_customer_by_id, get_product_by_id, list_customers, list_products,
}
use at_nova_platform.Business.Issues.{IssueListFilter, list_issues, get_issue_by_id}
use at_nova_platform.Business.Actions.{list_actions, get_action_by_id}
use at_nova_platform.Business.Sops.{list_sops, get_sop_by_id}
use at_nova_platform.Runs.Store.{NovaAction, and_then, given}
use at_nova_platform.Runs.Executor.Zod.{Zod}
use at_nova_platform.Runs.Executor.Inputs.{
  customer_id_input, action_id_input, product_id_input, sale_id_input, issue_id_input,
  sop_read_input, customers_search_input, products_search_input, sales_list_input,
  issues_list_input, actions_list_input,
}
use at_nova_platform.Runs.Executor.Results.{ToolCallResult, or_empty, parsed, answer}
use at_nova_platform.Runs.Executor.Reports.{
  list_page, sales_of_customer, customer_report, purchase_report, pending_report, next_report,
  sop_report, sops_report, customers_report, customer_card, products_report, product_card,
  sales_report, sale_card, issues_report, issue_card, actions_report, action_card,
}

module _ (zod : Zod) (ilike : String → String → Bool) where
  abbrev pub sales_report_for : Json → NovaAction ToolCallResult
  sales_report_for input = parsed (customer_id_input zod (or_empty input)) λ id db.
      and_then (get_customer_by_id id db) λ customer db'.
        answer (customer_report id customer) (list_sales (sales_of_customer id) list_page db')

  abbrev pub customer_products_for : Json → NovaAction ToolCallResult
  customer_products_for input = parsed (customer_id_input zod (or_empty input)) λ id db.
      and_then (get_customer_by_id id db)
        λ customer db'. answer (purchase_report id customer) (products_for_customer id db')

  abbrev pub pending_issues_of : String → IssueListFilter
  pending_issues_of id = record {
    status = some in_assistance;
    customer_id = some id;
    from_date = none;
    to_date = none;
  }

  abbrev pub pending_issues : Json → NovaAction ToolCallResult
  pending_issues input =
      parsed (customer_id_input zod (or_empty input))
        λ id db. answer pending_report (list_issues (pending_issues_of id) list_page db)

  abbrev pub next_action : NovaAction ToolCallResult
  next_action db = answer next_report (
      list_actions (record { status = some pending; assigned_owner_id = none; issue_id = none })
        (record { page = 1; page_size = 1 }) db)

  abbrev pub read_chosen : Option String → NovaAction ToolCallResult
  read_chosen (some id) db = answer sop_report (get_sop_by_id id db)
  read_chosen none db = answer sops_report (
      list_sops ilike (record { search = none; active = none })
        (record { page = 1; page_size = 20 }) db)

  -- `if (sopId)`
  abbrev pub read_sop : Json → NovaAction ToolCallResult
  read_sop input = parsed (sop_read_input zod (or_empty input)) λ id db. read_chosen (given id) db

  abbrev pub search_customers : Json → NovaAction ToolCallResult
  search_customers input = parsed (customers_search_input zod (or_empty input)) λ filter_by db.
      answer (customers_report filter_by.search) (list_customers ilike filter_by list_page db)

  abbrev pub get_customer : Json → NovaAction ToolCallResult
  get_customer input =
      parsed (customer_id_input zod (or_empty input))
        λ id db. answer (customer_card id) (get_customer_by_id id db)

  abbrev pub search_products : Json → NovaAction ToolCallResult
  search_products input = parsed (products_search_input zod (or_empty input)) λ filter_by db.
      answer (products_report filter_by.search) (list_products ilike filter_by list_page db)

  abbrev pub get_product : Json → NovaAction ToolCallResult
  get_product input =
      parsed (product_id_input zod (or_empty input))
        λ id db. answer product_card (get_product_by_id id db)

  abbrev pub list_sales_tool : Json → NovaAction ToolCallResult
  list_sales_tool input =
      parsed (sales_list_input zod (or_empty input))
        λ filter_by db. answer sales_report (list_sales filter_by list_page db)

  abbrev pub get_sale : Json → NovaAction ToolCallResult
  get_sale input =
      parsed (sale_id_input zod (or_empty input)) λ id db. answer sale_card (get_sale_by_id id db)

  abbrev pub list_issues_tool : Json → NovaAction ToolCallResult
  list_issues_tool input =
      parsed (issues_list_input zod (or_empty input))
        λ filter_by db. answer issues_report (list_issues filter_by list_page db)

  abbrev pub get_issue : Json → NovaAction ToolCallResult
  get_issue input =
      parsed (issue_id_input zod (or_empty input))
        λ id db. answer issue_card (get_issue_by_id id db)

  abbrev pub list_actions_tool : Json → NovaAction ToolCallResult
  list_actions_tool input =
      parsed (actions_list_input zod (or_empty input))
        λ filter_by db. answer actions_report (list_actions filter_by list_page db)

  abbrev pub get_action : Json → NovaAction ToolCallResult
  get_action input =
      parsed (action_id_input zod (or_empty input))
        λ id db. answer action_card (get_action_by_id id db)
