-- ===== src/Runs/Executor/Reports.antt =====
-- The results of the reading capabilities.
use at_nova_platform.Prelude.{
  String, ◌==◌, not, List, [], ◌∷◌, ◌++◌, map, Option, none, some, take, filter, eqb, if◌then◌else◌,
}
use at_nova_platform.Money.{Units, units, to_string}
use at_nova_platform.Http.Pagination.{PageRequest, PaginatedResult}
use at_nova_platform.Business.{Customer, Product}
use at_nova_platform.Business.Sales.{
  SaleListFilter, SaleDto, CustomerProductAggregate, CustomerProductsDto,
}
use at_nova_platform.Business.Issues.{CustomerIssueDto}
use at_nova_platform.Business.Actions.{IssueActionDto}
use at_nova_platform.Business.Sops.{SopDto}
use at_nova_platform.Runs.Gateway.{AgentToolLink}
use at_nova_platform.Runs.Executor.Results.{
  CustomerMatch, ProductMatch, SaleMatch, IssueMatch, ActionMatch, customer_sales,
  customer_products, customer_matches, product_matches, sale_matches, issue_matches, action_matches,
  issue_items, sop_items, next_pending, one_customer, one_product, one_sale, one_issue, one_action,
  one_sop, ToolCallResult, resolver_preview, short_id, preview, after_colon, match_summary,
  issue_status_name, action_status_name, customer_link, sale_link, issue_link, action_link,
  sop_link, paid_word,
}

-- `LIST_PAGE`
abbrev pub list_page : PageRequest
list_page = record { page = 1; page_size = 50 }

abbrev pub sales_of_customer : String → SaleListFilter
sales_of_customer id = record {
  customer_id = some id;
  payment_received = none;
  from_date = none;
  to_date = none;
}

abbrev pub customer_report : String → Customer → PaginatedResult SaleDto → ToolCallResult
customer_report id customer sales = record {
  capability_id = "sales.report.customer";
  summary =
      units customer.full_name
      ++ units " has "
      ++ to_string sales.total
      ++ units " sale(s) on record.";
  data_value = customer_sales customer sales.items sales.total;
  links = customer_link customer.full_name id ∷ [];
}

abbrev pub product_preview : CustomerProductAggregate → Units
product_preview p = units p.name ++ units " x" ++ to_string p.total_quantity

abbrev pub purchases : Customer → CustomerProductsDto → Units
purchases customer result =
    if eqb result.total_products 0
    then units customer.full_name ++ units " has not purchased any products."
    else (units customer.full_name
        ++ units " purchased "
        ++ to_string result.total_products
        ++ units " distinct product(s)"
        ++ after_colon (preview (map product_preview result.products))
        ++ units ".")

abbrev pub purchase_report : String → Customer → CustomerProductsDto → ToolCallResult
purchase_report id customer result = record {
  capability_id = "sales.products.forCustomer";
  summary = purchases customer result;
  data_value = customer_products customer result;
  links = customer_link customer.full_name id ∷ [];
}

abbrev pub pending_report : PaginatedResult CustomerIssueDto → ToolCallResult
pending_report issues = record {
  capability_id = "issues.list.pendingForCustomer";
  summary = to_string issues.total ++ units " pending issue(s) for this customer.";
  data_value = issue_items issues.items issues.total;
  links = map (λ (i : CustomerIssueDto). issue_link i.issue.id) (take 5 issues.items);
}

abbrev pub first_action : List IssueActionDto → Option IssueActionDto
first_action [] = none
first_action (a ∷ actions) = some a

abbrev pub next_summary : Option IssueActionDto → Units
next_summary none = units "No pending actions."
next_summary (some a) = units "Next action: " ++ units a.action.title

abbrev pub next_links : Option IssueActionDto → List AgentToolLink
next_links none = []
next_links (some a) = action_link a.action.id ∷ []

abbrev pub next_report : PaginatedResult IssueActionDto → ToolCallResult
next_report found = record {
  capability_id = "actions.next";
  summary = next_summary (first_action found.items);
  data_value = next_pending (first_action found.items) found.total;
  links = next_links (first_action found.items);
}

abbrev pub sop_report : SopDto → ToolCallResult
sop_report sop = record {
  capability_id = "sop.read";
  summary = units "SOP \"" ++ units sop.sop.name ++ units "\".";
  data_value = one_sop sop;
  links = sop_link sop.sop ∷ [];
}

abbrev pub sops_report : PaginatedResult SopDto → ToolCallResult
sops_report sops =
    let titles = preview (
      map units (
        filter (λ (name : String). not (name == ""))
          (map (λ (s : SopDto). s.sop.name) sops.items))) in
    record {
      capability_id = "sop.read";
      summary =
          if eqb sops.total 0
          then units "No SOPs available."
          else to_string sops.total ++ units " SOP(s) available" ++ after_colon titles ++ units ".";
      data_value = sop_items sops.items sops.total;
      links = [];
    }

abbrev pub customer_match : Customer → CustomerMatch
customer_match c = record { id = c.id; full_name = c.full_name; email = c.email; active = c.active }

-- `name (id)`
abbrev pub named_id : String → String → Units
named_id name id = units name ++ units " (" ++ units id ++ units ")"

abbrev pub customers_report : Option String → PaginatedResult Customer → ToolCallResult
customers_report search result =
    let matches = map customer_match result.items in
    record {
      capability_id = "customers.search";
      summary =
          match_summary "customer" result.total search
            (map (λ (m : CustomerMatch). named_id m.full_name m.id) matches);
      data_value = customer_matches matches result.total;
      links =
          map (λ (m : CustomerMatch). customer_link m.full_name m.id)
            (take resolver_preview matches);
    }

abbrev pub customer_card : String → Customer → ToolCallResult
customer_card id c = record {
  capability_id = "customers.get";
  summary =
      units c.full_name
      ++ units " <"
      ++ units c.email
      ++ units ">"
      ++ (if c.active then [] else units " (inactive)")
      ++ units ".";
  data_value = one_customer c;
  links = customer_link c.full_name id ∷ [];
}

abbrev pub product_match : Product → ProductMatch
product_match p = record {
  id = p.id;
  name = p.name;
  category = p.category;
  price = p.price;
  in_catalog = p.in_catalog;
}

abbrev pub products_report : Option String → PaginatedResult Product → ToolCallResult
products_report search result =
    let matches = map product_match result.items in
    record {
      capability_id = "products.search";
      summary =
          match_summary "product" result.total search
            (map (λ (m : ProductMatch). named_id m.name m.id) matches);
      data_value = product_matches matches result.total;
      links = [];
    }

abbrev pub product_card : Product → ToolCallResult
product_card p = record {
  capability_id = "products.get";
  summary =
      units p.name
      ++ units " — "
      ++ units p.category
      ++ units ", "
      ++ p.price
      ++ (if p.in_catalog then [] else units " (not in catalog)")
      ++ units ".";
  data_value = one_product p;
  links = [];
}

abbrev pub sale_match : SaleDto → SaleMatch
sale_match s = record {
  id = s.sale.id;
  customer_id = s.sale.customer_id;
  date = s.sale.date;
  total_amount_receipt = s.sale.total_amount_receipt;
  payment_received = s.sale.payment_received;
}

abbrev pub sale_preview : SaleMatch → Units
sale_preview m =
    units (short_id m.id)
    ++ units " ("
    ++ m.total_amount_receipt
    ++ units ", "
    ++ paid_word m.payment_received
    ++ units ")"

abbrev pub sales_report : PaginatedResult SaleDto → ToolCallResult
sales_report result =
    let matches = map sale_match result.items in
    record {
      capability_id = "sales.list";
      summary =
          to_string result.total
          ++ units " sale(s) match"
          ++ after_colon (preview (map sale_preview matches))
          ++ units ".";
      data_value = sale_matches matches result.total;
      links = map (λ (m : SaleMatch). sale_link m.id) (take resolver_preview matches);
    }

abbrev pub sale_card : SaleDto → ToolCallResult
sale_card s = record {
  capability_id = "sales.get";
  summary =
      units "Sale "
      ++ units (short_id s.sale.id)
      ++ units " — "
      ++ s.sale.total_amount_receipt
      ++ units ", "
      ++ paid_word s.sale.payment_received
      ++ units ".";
  data_value = one_sale s;
  links = sale_link s.sale.id ∷ [];
}

abbrev pub issue_match : CustomerIssueDto → IssueMatch
issue_match i = record {
  id = i.issue.id;
  sales_id = i.issue.sales_id;
  status = i.issue.status;
  date_raised = i.issue.date_raised;
}

abbrev pub issue_preview : IssueMatch → Units
issue_preview m = units (short_id m.id) ++ units " (" ++ issue_status_name m.status ++ units ")"

abbrev pub issues_report : PaginatedResult CustomerIssueDto → ToolCallResult
issues_report result =
    let matches = map issue_match result.items in
    record {
      capability_id = "issues.list";
      summary =
          to_string result.total
          ++ units " issue(s) match"
          ++ after_colon (preview (map issue_preview matches))
          ++ units ".";
      data_value = issue_matches matches result.total;
      links = map (λ (m : IssueMatch). issue_link m.id) (take resolver_preview matches);
    }

abbrev pub issue_card : CustomerIssueDto → ToolCallResult
issue_card i = record {
  capability_id = "issues.get";
  summary =
      units "Issue "
      ++ units (short_id i.issue.id)
      ++ units " — status "
      ++ issue_status_name i.issue.status
      ++ units ".";
  data_value = one_issue i;
  links = issue_link i.issue.id ∷ [];
}

abbrev pub action_match : IssueActionDto → ActionMatch
action_match a = record {
  id = a.action.id;
  title = a.action.title;
  status = a.action.status;
  issue_id = a.action.issue_id;
}

abbrev pub actions_report : PaginatedResult IssueActionDto → ToolCallResult
actions_report result =
    let matches = map action_match result.items in
    record {
      capability_id = "actions.list";
      summary =
          match_summary "action" result.total none
            (map (λ (m : ActionMatch). named_id m.title m.id) matches);
      data_value = action_matches matches result.total;
      links = map (λ (m : ActionMatch). action_link m.id) (take resolver_preview matches);
    }

abbrev pub action_card : IssueActionDto → ToolCallResult
action_card a = record {
  capability_id = "actions.get";
  summary =
      units "Action \""
      ++ units a.action.title
      ++ units "\" — status "
      ++ action_status_name a.action.status
      ++ units ".";
  data_value = one_action a;
  links = action_link a.action.id ∷ [];
}
