-- ===== src/Business/Actions.antt =====
-- Issue actions: backend-services/api/src/modules/actions (service, repository, dto).
use at_nova_platform.Prelude.{
  ℕ, String, ◌==◌, Bool, true, false, ◌&&◌, List, [], ◌∷◌, ◌++◌, map, Option, none, some, length,
  filter, find, is_some, sort_by, get_or, leb, if◌then◌else◌,
}
use at_nova_platform.Http.Pagination.{
  PageRequest, PaginatedResult, build_paginated_result, page_slice,
}
use at_nova_platform.Business.{
  IssueActionStatus, pending, in_progress, completed, rejected, IssueAction, ActionComment, Shop,
  issue_by_id, action_by_id,
}
use at_nova_platform.Business.Sales.{meets, newest_first}
use at_nova_platform.Rbac.Authorize.{AuthContext}
use at_nova_platform.Runs.Store.{
  User, NovaDb, UserWithRoles, not_found, validation, Outcome, returned, thrown, NovaAction,
  and_then, given, find_by_id, resolve_current_user,
}

-- The ids of a new row and of a profile that may be made for the caller, and the time.
pub record Fresh : Type 0 where
  pub row : String
  pub profile : String
  pub now : ℕ

pub record CreateActionInput : Type 0 where
  pub issue_id : String
  pub title : String
  pub description : String
  pub assigned_owner_id : Option String
  pub status : Option IssueActionStatus

pub record UpdateActionInput : Type 0 where
  pub status : Option IssueActionStatus
  pub description : Option String
  pub assigned_owner_id : Option String

pub record AddCommentInput : Type 0 where
  pub comment : String
  pub datetime : ℕ

pub record ActionListFilter : Type 0 where
  pub status : Option IssueActionStatus
  pub assigned_owner_id : Option String
  pub issue_id : Option String

pub record UserSummaryDto : Type 0 where
  pub id : String
  pub email : String
  pub first_name : String
  pub last_name : String

pub record ActionCommentDto : Type 0 where
  pub comment : ActionComment
  pub user : Option UserSummaryDto

-- `none` stands for a relation that the query did not load.
pub record IssueActionDto : Type 0 where
  pub action : IssueAction
  pub assigned_owner : Option UserSummaryDto
  pub updated_by : Option UserSummaryDto
  pub comments : Option (List ActionCommentDto)
  pub dependencies : Option (List (String × String))

abbrev pub same_status : IssueActionStatus → IssueActionStatus → Bool
same_status pending pending = true
same_status in_progress in_progress = true
same_status completed completed = true
same_status rejected rejected = true
same_status _ _ = false

abbrev pub to_user_summary_dto : Option User → Option UserSummaryDto
to_user_summary_dto none = none
to_user_summary_dto (some u) =
    some (record { id = u.id; email = u.email; first_name = u.first_name; last_name = u.last_name })

abbrev pub summary_of : NovaDb → String → Option UserSummaryDto
summary_of db id = to_user_summary_dto (find (λ (u : User). id == u.id) db.users)

abbrev pub summary_of_some : NovaDb → Option String → Option UserSummaryDto
summary_of_some db none = none
summary_of_some db (some id) = summary_of db id

abbrev pub to_action_comment_dto : NovaDb → ActionComment → ActionCommentDto
to_action_comment_dto db c = record { comment = c; user = summary_of db c.user_id }

abbrev pub comments_of : NovaDb → String → List ActionComment
comments_of db id =
    sort_by (λ (a : ActionComment) (b : ActionComment). leb a.datetime b.datetime)
      (filter (λ (c : ActionComment). id == c.issue_action_id) db.shop.comments)

abbrev pub to_issue_action_dto : NovaDb → IssueAction → IssueActionDto
to_issue_action_dto db action = record {
  action = action;
  assigned_owner = summary_of db action.assigned_owner_id;
  updated_by = summary_of_some db action.updated_by_id;
  comments = some (map (to_action_comment_dto db) (comments_of db action.id));
  dependencies = some (filter (λ (d : String × String). action.id == d.0) db.shop.dependencies);
}

abbrev pub action_matches : ActionListFilter → IssueAction → Bool
action_matches filter_by a =
    meets filter_by.status (λ status. same_status status a.status)
    && meets (given filter_by.assigned_owner_id) (λ id. id == a.assigned_owner_id)
    && meets (given filter_by.issue_id) (λ id. id == a.issue_id)

abbrev pub matching_actions : Shop → ActionListFilter → List IssueAction
matching_actions shop filter_by =
    sort_by (newest_first (λ (a : IssueAction). a.created_date) (λ (a : IssueAction). a.id))
      (filter (action_matches filter_by) shop.actions)

abbrev pub list_actions :
    ActionListFilter → PageRequest → NovaAction (PaginatedResult IssueActionDto)
list_actions filter_by request db =
    let rows = matching_actions db.shop filter_by in
    (
      returned (
          build_paginated_result (map (to_issue_action_dto db) (page_slice request rows))
            (length rows) request),
      db,
    )

abbrev pub found_action : NovaDb → Option IssueAction → Outcome IssueActionDto
found_action db none = thrown (not_found "Issue action not found.")
found_action db (some action) = returned (to_issue_action_dto db action)

abbrev pub get_action_by_id : String → NovaAction IssueActionDto
get_action_by_id id db = (found_action db (action_by_id db.shop id), db)

abbrev pub action_row : Fresh → CreateActionInput → String → String → IssueAction
action_row fresh input owner user_id = record {
  id = fresh.row;
  issue_id = input.issue_id;
  title = input.title;
  description = input.description;
  status = get_or input.status pending;
  updated_by_id = some user_id;
  updated_ai = false;
  created_date = fresh.now;
  assigned_owner_id = owner;
}

abbrev pub insert_action : IssueAction → NovaDb → NovaDb
insert_action action db = record db {
  shop = record db.shop { actions = db.shop.actions ++ action ∷ [] };
}

abbrev pub create_for : Fresh → CreateActionInput → UserWithRoles → NovaAction IssueActionDto
create_for fresh input caller db =
    let owner = get_or input.assigned_owner_id caller.user.id in
    if is_some (find_by_id db owner)
    then (get_action_by_id fresh.row
        (insert_action (action_row fresh input owner caller.user.id) db))
    else (thrown (validation "The assigned owner does not exist."), db)

unfoldable pub create_action : Fresh → CreateActionInput → AuthContext → NovaAction IssueActionDto
create_action fresh input auth db =
    if is_some (issue_by_id db.shop input.issue_id)
    then (and_then (resolve_current_user fresh.profile auth db) (create_for fresh input))
    else (thrown (validation "The referenced issue does not exist."), db)

abbrev pub patch_action : UpdateActionInput → String → IssueAction → IssueAction
patch_action input user_id a = record a {
  status = get_or input.status a.status;
  description = get_or input.description a.description;
  assigned_owner_id = get_or input.assigned_owner_id a.assigned_owner_id;
  updated_by_id = some user_id;
  updated_ai = false;
}

abbrev pub update_actions : String → UpdateActionInput → String → NovaDb → NovaDb
update_actions id input user_id db = record db {
  shop = record db.shop {
    actions =
        map (λ (a : IssueAction). if id == a.id then patch_action input user_id a else a)
          db.shop.actions;
  };
}

abbrev pub is_known_owner : NovaDb → Option String → Bool
is_known_owner db none = true
is_known_owner db (some id) = is_some (find_by_id db id)

abbrev pub update_for : String → UpdateActionInput → UserWithRoles → NovaAction IssueActionDto
update_for id input caller db = get_action_by_id id (update_actions id input caller.user.id db)

unfoldable pub update_action :
    Fresh → String → UpdateActionInput → AuthContext → NovaAction IssueActionDto
update_action fresh id input auth db =
    if is_some (action_by_id db.shop id)
    then (if is_known_owner db input.assigned_owner_id
        then and_then (resolve_current_user fresh.profile auth db) (update_for id input)
        else (thrown (validation "The assigned owner does not exist."), db))
    else (thrown (not_found "Issue action not found."), db)

abbrev pub comment_row : Fresh → String → AddCommentInput → String → ActionComment
comment_row fresh action_id input user_id = record {
  id = fresh.row;
  issue_action_id = action_id;
  user_id = user_id;
  comment = input.comment;
  datetime = input.datetime;
}

abbrev pub comment_for :
    Fresh → String → AddCommentInput → UserWithRoles → NovaAction ActionCommentDto
comment_for fresh action_id input caller db =
    let row = comment_row fresh action_id input caller.user.id in
    let after = record db { shop = record db.shop { comments = db.shop.comments ++ row ∷ [] } } in
    (returned (to_action_comment_dto after row), after)

unfoldable pub add_comment :
    Fresh → String → AddCommentInput → AuthContext → NovaAction ActionCommentDto
add_comment fresh action_id input auth db =
    if is_some (action_by_id db.shop action_id)
    then (and_then (resolve_current_user fresh.profile auth db) (comment_for fresh action_id input))
    else (thrown (not_found "Issue action not found."), db)
