-- ===== src/Business/Issues.antt =====
-- Customer issues: backend-services/api/src/modules/issues (service, repository, dto).
use at_nova_platform.Prelude.{
  ℕ, String, ◌==◌, Bool, true, false, ◌&&◌, List, [], ◌∷◌, ◌++◌, map, Option, none, some, length,
  filter, is_some, sort_by, get_or, leb, if◌then◌else◌,
}
use at_nova_platform.Http.Pagination.{
  PageRequest, PaginatedResult, build_paginated_result, page_slice,
}
use at_nova_platform.Business.{
  CustomerIssueStatus, in_assistance, issue_rejected, issue_completed, CustomerIssue, IssueAction,
  Sale, Shop, sale_by_id, issue_by_id,
}
use at_nova_platform.Business.Sales.{SaleDto, to_listed_sale_dto, meets, newest_first, is_sale_of}
use at_nova_platform.Business.Actions.{Fresh, IssueActionDto, summary_of, summary_of_some}
use at_nova_platform.Runs.Store.{
  NovaDb, not_found, validation, Outcome, returned, thrown, NovaAction, given,
}

pub record IssueListFilter : Type 0 where
  pub status : Option CustomerIssueStatus
  pub customer_id : Option String
  pub from_date : Option ℕ
  pub to_date : Option ℕ

pub record CreateIssueInput : Type 0 where
  pub sales_id : String
  pub description : String
  pub date_raised : ℕ
  pub status : CustomerIssueStatus

pub record UpdateIssueInput : Type 0 where
  pub description : Option String
  pub status : Option CustomerIssueStatus
  pub date_last_update : Option ℕ

pub record CustomerIssueDto : Type 0 where
  pub issue : CustomerIssue
  pub sale : Option SaleDto
  pub issue_actions : Option (List IssueActionDto)

abbrev pub same_issue_status : CustomerIssueStatus → CustomerIssueStatus → Bool
same_issue_status in_assistance in_assistance = true
same_issue_status issue_rejected issue_rejected = true
same_issue_status issue_completed issue_completed = true
same_issue_status _ _ = false

-- The conditions on the issue and on the sale that it is joined with.
abbrev pub issue_matches : Shop → IssueListFilter → CustomerIssue → Bool
issue_matches shop filter_by i =
    meets filter_by.status (λ status. same_issue_status status i.status)
    && meets (given filter_by.customer_id) (λ id. is_sale_of id (sale_by_id shop i.sales_id))
    && meets filter_by.from_date (λ t. leb t i.date_raised)
    && meets filter_by.to_date (λ t. leb i.date_raised t)

abbrev pub joined_sale : Shop → Option Sale → Option SaleDto
joined_sale shop none = none
joined_sale shop (some sale) = some (to_listed_sale_dto shop sale)

abbrev pub to_listed_issue_dto : Shop → CustomerIssue → CustomerIssueDto
to_listed_issue_dto shop issue = record {
  issue = issue;
  sale = joined_sale shop (sale_by_id shop issue.sales_id);
  issue_actions = none;
}

-- An issue's actions come with their people, without comments and dependencies.
abbrev pub to_nested_action_dto : NovaDb → IssueAction → IssueActionDto
to_nested_action_dto db action = record {
  action = action;
  assigned_owner = summary_of db action.assigned_owner_id;
  updated_by = summary_of_some db action.updated_by_id;
  comments = none;
  dependencies = none;
}

abbrev pub actions_of_issue : Shop → String → List IssueAction
actions_of_issue shop id =
    sort_by (λ (a : IssueAction) (b : IssueAction). leb a.created_date b.created_date)
      (filter (λ (a : IssueAction). id == a.issue_id) shop.actions)

abbrev pub to_customer_issue_dto : NovaDb → CustomerIssue → CustomerIssueDto
to_customer_issue_dto db issue = record {
  issue = issue;
  sale = joined_sale db.shop (sale_by_id db.shop issue.sales_id);
  issue_actions = some (map (to_nested_action_dto db) (actions_of_issue db.shop issue.id));
}

abbrev pub matching_issues : Shop → IssueListFilter → List CustomerIssue
matching_issues shop filter_by =
    sort_by (newest_first (λ (i : CustomerIssue). i.date_raised) (λ (i : CustomerIssue). i.id))
      (filter (issue_matches shop filter_by) shop.issues)

abbrev pub list_issues :
    IssueListFilter → PageRequest → NovaAction (PaginatedResult CustomerIssueDto)
list_issues filter_by request db =
    let rows = matching_issues db.shop filter_by in
    (
      returned (
          build_paginated_result (map (to_listed_issue_dto db.shop) (page_slice request rows))
            (length rows) request),
      db,
    )

abbrev pub found_issue : NovaDb → Option CustomerIssue → Outcome CustomerIssueDto
found_issue db none = thrown (not_found "Customer issue not found.")
found_issue db (some issue) = returned (to_customer_issue_dto db issue)

abbrev pub get_issue_by_id : String → NovaAction CustomerIssueDto
get_issue_by_id id db = (found_issue db (issue_by_id db.shop id), db)

abbrev pub issue_row : String → CreateIssueInput → CustomerIssue
issue_row fresh input = record {
  id = fresh;
  sales_id = input.sales_id;
  description = input.description;
  date_raised = input.date_raised;
  date_last_update = input.date_raised;
  status = input.status;
}

abbrev pub insert_issue : CustomerIssue → NovaDb → NovaDb
insert_issue issue db = record db {
  shop = record db.shop { issues = db.shop.issues ++ issue ∷ [] };
}

unfoldable pub create_issue : Fresh → CreateIssueInput → NovaAction CustomerIssueDto
create_issue fresh input db =
    if is_some (sale_by_id db.shop input.sales_id)
    then get_issue_by_id fresh.row (insert_issue (issue_row fresh.row input) db)
    else (thrown (validation "The referenced sale does not exist."), db)

abbrev pub patch_issue : UpdateIssueInput → ℕ → CustomerIssue → CustomerIssue
patch_issue input now i = record i {
  description = get_or input.description i.description;
  status = get_or input.status i.status;
  date_last_update = get_or input.date_last_update now;
}

abbrev pub update_issues : String → UpdateIssueInput → ℕ → NovaDb → NovaDb
update_issues id input now db = record db {
  shop = record db.shop {
    issues =
        map (λ (i : CustomerIssue). if id == i.id then patch_issue input now i else i)
          db.shop.issues;
  };
}

unfoldable pub update_issue : Fresh → String → UpdateIssueInput → NovaAction CustomerIssueDto
update_issue fresh id input db =
    if is_some (issue_by_id db.shop id)
    then get_issue_by_id id (update_issues id input fresh.now db)
    else (thrown (not_found "Customer issue not found."), db)
