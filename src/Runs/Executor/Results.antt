-- ===== src/Runs/Executor/Results.antt =====
-- What a capability returns: `ToolCallResult` with its summary, data and links. A summary is the list
-- of its code units.
use Prim.Native.String
use at_nova_platform.Prelude.{
  ℕ, zero, suc, String, ◌==◌, Bool, List, [], ◌∷◌, ◌++◌, Option, none, some, take, is_nil,
  if◌then◌else◌,
}
use at_nova_platform.Json.{Json, undefined, null, obj, end}
use at_nova_platform.Money.{Units, units, to_string}
use at_nova_platform.Business.{
  Customer, Product, CustomerIssueStatus, in_assistance, issue_rejected, issue_completed,
  IssueActionStatus, pending, in_progress, completed, rejected, Sop,
}
use at_nova_platform.Business.Sales.{SaleDto, CustomerProductsDto}
use at_nova_platform.Business.Issues.{CustomerIssueDto}
use at_nova_platform.Business.Actions.{IssueActionDto, ActionCommentDto}
use at_nova_platform.Business.Sops.{SopDto, SopDetailDto}
use at_nova_platform.Runs.Gateway.{AgentToolLink}
use at_nova_platform.Runs.Store.{NovaDb, validation, Outcome, returned, thrown, NovaAction}

pub record CustomerMatch : Type 0 where
  pub id : String
  pub full_name : String
  pub email : String
  pub active : Bool

pub record ProductMatch : Type 0 where
  pub id : String
  pub name : String
  pub category : String
  pub price : Units
  pub in_catalog : Bool

pub record SaleMatch : Type 0 where
  pub id : String
  pub customer_id : String
  pub date : ℕ
  pub total_amount_receipt : Units
  pub payment_received : Bool

pub record IssueMatch : Type 0 where
  pub id : String
  pub sales_id : String
  pub status : CustomerIssueStatus
  pub date_raised : ℕ

pub record ActionMatch : Type 0 where
  pub id : String
  pub title : String
  pub status : IssueActionStatus
  pub issue_id : String

-- The shapes of `data`.
pub data ToolData : Type 0 where
  customer_sales : Customer → List SaleDto → ℕ → ToolData
  customer_products : Customer → CustomerProductsDto → ToolData
  customer_matches : List CustomerMatch → ℕ → ToolData
  product_matches : List ProductMatch → ℕ → ToolData
  sale_matches : List SaleMatch → ℕ → ToolData
  issue_matches : List IssueMatch → ℕ → ToolData
  action_matches : List ActionMatch → ℕ → ToolData
  issue_items : List CustomerIssueDto → ℕ → ToolData
  sop_items : List SopDto → ℕ → ToolData
  next_pending : Option IssueActionDto → ℕ → ToolData
  one_customer : Customer → ToolData
  one_product : Product → ToolData
  one_sale : SaleDto → ToolData
  one_issue : CustomerIssueDto → ToolData
  one_action : IssueActionDto → ToolData
  one_comment : ActionCommentDto → ToolData
  one_sop : SopDto → ToolData
  one_detail : SopDetailDto → ToolData

pub record ToolCallResult : Type 0 where
  pub capability_id : String
  pub summary : Units
  pub data_value : ToolData
  pub links : List AgentToolLink

abbrev pub resolver_preview : ℕ
resolver_preview = 5

-- `input ?? {}`
abbrev pub or_empty : Json → Json
or_empty undefined = obj end
or_empty null = obj end
or_empty v = v

-- `parse`, and the rest of a handler behind it.
abbrev pub parsed :
    {A : Type 0} → Option A → (A → NovaAction ToolCallResult) → NovaAction ToolCallResult
parsed none next db = (thrown (validation "Invalid capability input."), db)
parsed (some input) next db = next input db

-- The result that a handler makes of what a service returned.
abbrev pub answer :
    {A : Type 0} → (A → ToolCallResult) → Outcome A × NovaDb → Outcome ToolCallResult × NovaDb
answer make (thrown e, db) = (thrown e, db)
answer make (returned a, db) = (returned (make a), db)

-- `id.slice(0, 8)`
abbrev pub first_chars : ℕ → String → String
first_chars zero s = ""
first_chars (suc n) String.[] = ""
first_chars (suc n) (String.◌∷◌ c s) = String.◌∷◌ c (first_chars n s)

abbrev pub short_id : String → String
short_id id = first_chars 8 id

abbrev pub join_with : Units → List Units → Units
join_with separator [] = []
join_with separator (x ∷ []) = x
join_with separator (x ∷ y ∷ xs) = x ++ separator ++ join_with separator (y ∷ xs)

-- `previews.slice(0, RESOLVER_PREVIEW).join('; ')`
abbrev pub preview : List Units → Units
preview items = join_with (units "; ") (take resolver_preview items)

-- `preview ? \`: ${preview}\` : ''`
abbrev pub after_colon : Units → Units
after_colon text = if is_nil text then [] else units ": " ++ text

abbrev pub quoted_search : Option String → Units
quoted_search none = []
quoted_search (some search) = if search == "" then [] else units " \"" ++ units search ++ units "\""

abbrev pub match_summary : String → ℕ → Option String → List Units → Units
match_summary noun total search previews =
    let head =
      to_string total
      ++ units " "
      ++ units noun
      ++ units "(s) match"
      ++ quoted_search search
      ++ units "." in
    if is_nil previews then head else head ++ units " Top: " ++ preview previews ++ units "."

abbrev pub issue_status_name : CustomerIssueStatus → Units
issue_status_name in_assistance = units "in_assistance"
issue_status_name issue_rejected = units "rejected"
issue_status_name issue_completed = units "completed"

abbrev pub action_status_name : IssueActionStatus → Units
action_status_name pending = units "pending"
action_status_name in_progress = units "in_progress"
action_status_name completed = units "completed"
action_status_name rejected = units "rejected"

abbrev pub link : String → String → String → AgentToolLink
link label type_name id = record {
  label = label;
  href = String.◌++◌ "nova://" (String.◌++◌ type_name (String.◌++◌ "/" id));
  type_name = type_name;
}

abbrev pub open_label : String → String
open_label name = String.◌++◌ "Open " name

abbrev pub customer_link : String → String → AgentToolLink
customer_link name id = link (open_label name) "customer" id

abbrev pub sale_link : String → AgentToolLink
sale_link id = link (String.◌++◌ "Open sale " (short_id id)) "sale" id

abbrev pub issue_link : String → AgentToolLink
issue_link id = link (String.◌++◌ "Open issue " (short_id id)) "issue" id

abbrev pub action_link : String → AgentToolLink
action_link id = link "Open action" "action" id

abbrev pub sop_link : Sop → AgentToolLink
sop_link sop = link (open_label sop.name) "sop" sop.id

abbrev pub paid_word : Bool → Units
paid_word paid = if paid then units "paid" else units "unpaid"
