-- ===== src/Runs/Executor/Inputs.antt =====
-- The input schemas of backend-services/api/src/modules/agent-runs/capability-executor.ts. A failed
-- check is `none`.
use at_nova_platform.Prelude.{
  ℕ, String, true, false, not, ◌||◌, List, [], ◌∷◌, Option, none, some, is_nil, is_some,
}
use at_nova_platform.Json.{Json, arr, Items, nil, cons, lookup_field}
use at_nova_platform.Money.{units}
use at_nova_platform.Business.{CustomerIssueStatus}
use at_nova_platform.Runs.Executor.Zod.{
  Zod, ◌>>=◌, ◌>>◌, guard, as_object, optional, default_to, nullable, as_boolean, as_text,
  issue_status, action_status, uuid, datetime_of, positive, nonempty, text_upto, id_input,
}
use at_nova_platform.Business.Sales.{SaleListFilter}
use at_nova_platform.Business.Sales.Create.{SaleItem, CreateSaleInput}
use at_nova_platform.Business.Catalog.{CustomerListFilter, ProductListFilter}
use at_nova_platform.Business.Issues.{IssueListFilter}
use at_nova_platform.Business.Actions.{ActionListFilter, UpdateActionInput}
use at_nova_platform.Business.Sops.{CreateSopInput, UpdateSopInput}

pub record ActionsCreateInput : Type 0 where
  pub issue_id : String
  pub title : String
  pub description : String
  pub assigned_owner_id : Option String

pub record IssuesCreateInput : Type 0 where
  pub sales_id : String
  pub description : String
  pub date_raised : Option ℕ

pub record IssueUpdateInput : Type 0 where
  pub issue_id : String
  pub description : Option String
  pub status : Option CustomerIssueStatus

module _ (zod : Zod) where
  -- The schemas with one required id.
  abbrev pub customer_id_input : Json → Option String
  customer_id_input input = id_input zod "customerId" input

  abbrev pub action_id_input : Json → Option String
  action_id_input input = id_input zod "actionId" input

  abbrev pub product_id_input : Json → Option String
  product_id_input input = id_input zod "productId" input

  abbrev pub sale_id_input : Json → Option String
  sale_id_input input = id_input zod "saleId" input

  abbrev pub issue_id_input : Json → Option String
  issue_id_input input = id_input zod "issueId" input

  abbrev pub sop_read_input : Json → Option (Option String)
  sop_read_input input = do
    fields ← as_object input
    optional (uuid zod) (lookup_field "sopId" fields)

  abbrev pub issues_create_input : Json → Option IssuesCreateInput
  issues_create_input input = do
    fields ← as_object input
    sale ← uuid zod (lookup_field "salesId" fields)
    description ← text_upto zod 2000 (lookup_field "description" fields)
    raised ← optional (datetime_of zod) (lookup_field "dateRaised" fields)
    some (record { sales_id = sale; description = description; date_raised = raised })

  abbrev pub sale_item : Json → Option SaleItem
  sale_item input = do
    fields ← as_object input
    product ← uuid zod (lookup_field "productId" fields)
    quantity ← positive zod (lookup_field "quantity" fields)
    some (record { product_id = product; quantity = quantity })

  abbrev pub sale_items_of : Items → Option (List SaleItem)
  sale_items_of nil = some []
  sale_items_of (cons v items) = do
    item ← sale_item v
    rest ← sale_items_of items
    some (item ∷ rest)

  -- `z.array(…).min(1)`
  abbrev pub sale_items : Json → Option (List SaleItem)
  sale_items (arr items) = do found ← sale_items_of items; guard (not (is_nil found)); some found
  sale_items _ = none

  abbrev pub sales_create_input : Json → Option CreateSaleInput
  sales_create_input input = do
    fields ← as_object input
    customer ← uuid zod (lookup_field "customerId" fields)
    date ← datetime_of zod (lookup_field "date" fields)
    discount ← default_to "0" as_text (lookup_field "discountApplied" fields)
    paid ← default_to false as_boolean (lookup_field "paymentReceived" fields)
    paid_at ← default_to none (nullable (datetime_of zod)) (lookup_field "dateOfPayment" fields)
    items ← sale_items (lookup_field "items" fields)
    some (record {
      customer_id = customer;
      date = date;
      discount_applied = units discount;
      payment_received = paid;
      date_of_payment = paid_at;
      items = items;
    })

  abbrev pub customers_search_input : Json → Option CustomerListFilter
  customers_search_input input = do
    fields ← as_object input
    search ← optional (text_upto zod 200) (lookup_field "search" fields)
    active ← optional as_boolean (lookup_field "active" fields)
    some (record { active = active; search = search })

  abbrev pub products_search_input : Json → Option ProductListFilter
  products_search_input input = do
    fields ← as_object input
    search ← optional (text_upto zod 200) (lookup_field "search" fields)
    category ← optional (text_upto zod 255) (lookup_field "category" fields)
    listed ← optional as_boolean (lookup_field "inCatalog" fields)
    some (record { search = search; category = category; in_catalog = listed })

  abbrev pub sales_list_input : Json → Option SaleListFilter
  sales_list_input input = do
    fields ← as_object input
    customer ← optional (uuid zod) (lookup_field "customerId" fields)
    paid ← optional as_boolean (lookup_field "paymentReceived" fields)
    start ← optional (datetime_of zod) (lookup_field "from" fields)
    stop ← optional (datetime_of zod) (lookup_field "to" fields)
    some (record {
      customer_id = customer;
      payment_received = paid;
      from_date = start;
      to_date = stop;
    })

  abbrev pub issues_list_input : Json → Option IssueListFilter
  issues_list_input input = do
    fields ← as_object input
    status ← optional issue_status (lookup_field "status" fields)
    customer ← optional (uuid zod) (lookup_field "customerId" fields)
    start ← optional (datetime_of zod) (lookup_field "from" fields)
    stop ← optional (datetime_of zod) (lookup_field "to" fields)
    some (record { status = status; customer_id = customer; from_date = start; to_date = stop })

  abbrev pub actions_list_input : Json → Option ActionListFilter
  actions_list_input input = do
    fields ← as_object input
    status ← optional action_status (lookup_field "status" fields)
    owner ← optional (uuid zod) (lookup_field "assignedOwnerId" fields)
    issue ← optional (uuid zod) (lookup_field "issueId" fields)
    some (record { status = status; assigned_owner_id = owner; issue_id = issue })

  abbrev pub actions_create_input : Json → Option ActionsCreateInput
  actions_create_input input = do
    fields ← as_object input
    issue ← uuid zod (lookup_field "issueId" fields)
    title ← text_upto zod 255 (lookup_field "title" fields)
    description ← text_upto zod 2000 (lookup_field "description" fields)
    owner ← optional (uuid zod) (lookup_field "assignedOwnerId" fields)
    some (record {
      issue_id = issue;
      title = title;
      description = description;
      assigned_owner_id = owner;
    })

  abbrev pub action_add_comment_input : Json → Option (String × String)
  action_add_comment_input input = do
    fields ← as_object input
    action ← uuid zod (lookup_field "actionId" fields)
    comment ← text_upto zod 2000 (lookup_field "comment" fields)
    some (action, comment)

  abbrev pub action_update_input : Json → Option (String × UpdateActionInput)
  action_update_input input = do
    fields ← as_object input
    action ← uuid zod (lookup_field "actionId" fields)
    status ← optional action_status (lookup_field "status" fields)
    description ← optional (text_upto zod 2000) (lookup_field "description" fields)
    owner ← optional (uuid zod) (lookup_field "assignedOwnerId" fields)
    guard (is_some status || is_some description || is_some owner)
    some (action, record { status = status; description = description; assigned_owner_id = owner })

  abbrev pub issue_update_input : Json → Option IssueUpdateInput
  issue_update_input input = do
    fields ← as_object input
    issue ← uuid zod (lookup_field "issueId" fields)
    description ← optional (text_upto zod 2000) (lookup_field "description" fields)
    status ← optional issue_status (lookup_field "status" fields)
    guard (is_some description || is_some status)
    some (record { issue_id = issue; description = description; status = status })

  abbrev pub sop_create_input : Json → Option CreateSopInput
  sop_create_input input = do
    fields ← as_object input
    name ← text_upto zod 255 (lookup_field "name" fields)
    description ← nonempty zod (lookup_field "description" fields)
    full_text ← nonempty zod (lookup_field "fullText" fields)
    active ← default_to true as_boolean (lookup_field "active" fields)
    some (record { name = name; description = description; active = active; full_text = full_text })

  abbrev pub sop_update_input : Json → Option (String × UpdateSopInput)
  sop_update_input input = do
    fields ← as_object input
    sop ← uuid zod (lookup_field "sopId" fields)
    name ← optional (text_upto zod 255) (lookup_field "name" fields)
    description ← optional (nonempty zod) (lookup_field "description" fields)
    active ← optional as_boolean (lookup_field "active" fields)
    guard (is_some name || is_some description || is_some active)
    some (sop, record { name = name; description = description; active = active })

  abbrev pub sop_add_version_input : Json → Option (String × String)
  sop_add_version_input input = do
    fields ← as_object input
    sop ← uuid zod (lookup_field "sopId" fields)
    full_text ← nonempty zod (lookup_field "fullText" fields)
    some (sop, full_text)
