-- ===== src/Runs/Executor/Writes.antt =====
-- The handlers of the writing capabilities.
use at_nova_platform.Prelude.{String, [], ◌∷◌, ◌++◌, none, some, get_or}
use at_nova_platform.Json.{Json}
use at_nova_platform.Money.{units, to_string}
use at_nova_platform.Business.{in_assistance, completed}
use at_nova_platform.Business.Sales.{SaleDto}
use at_nova_platform.Business.Sales.Create.{create_sale}
use at_nova_platform.Business.Issues.{
  CustomerIssueDto, CreateIssueInput, UpdateIssueInput, create_issue, update_issue,
}
use at_nova_platform.Business.Actions.{
  Fresh, IssueActionDto, ActionCommentDto, CreateActionInput, create_action, update_action,
  add_comment,
}
use at_nova_platform.Business.Sops.{SopDto, SopDetailDto, create_sop, update_sop, add_version}
use at_nova_platform.Rbac.Authorize.{AuthContext}
use at_nova_platform.Runs.Store.{NovaAction}
use at_nova_platform.Runs.Executor.Zod.{Zod}
use at_nova_platform.Runs.Executor.Inputs.{
  ActionsCreateInput, IssuesCreateInput, IssueUpdateInput, action_id_input, issues_create_input,
  sales_create_input, actions_create_input, action_add_comment_input, action_update_input,
  issue_update_input, sop_create_input, sop_update_input, sop_add_version_input,
}
use at_nova_platform.Runs.Executor.Results.{
  one_sale, one_issue, one_action, one_comment, one_sop, one_detail, ToolCallResult, or_empty,
  parsed, answer, short_id, issue_status_name, action_status_name, issue_link, action_link,
  sop_link, link,
}

abbrev pub completed_report : IssueActionDto → ToolCallResult
completed_report a = record {
  capability_id = "actions.markCompleted";
  summary = units "Marked action \"" ++ units a.action.title ++ units "\" as completed.";
  data_value = one_action a;
  links = action_link a.action.id ∷ [];
}

abbrev pub created_sale_report : SaleDto → ToolCallResult
created_sale_report s = record {
  capability_id = "sales.create";
  summary =
      units "Created sale "
      ++ units (short_id s.sale.id)
      ++ units " for "
      ++ s.sale.total_amount_receipt
      ++ units ".";
  data_value = one_sale s;
  links = link "Open sale" "sale" s.sale.id ∷ [];
}

abbrev pub opened_report : CustomerIssueDto → ToolCallResult
opened_report i = record {
  capability_id = "issues.create";
  summary = units "Opened issue " ++ units (short_id i.issue.id) ++ units ".";
  data_value = one_issue i;
  links = link "Open issue" "issue" i.issue.id ∷ [];
}

abbrev pub created_action_report : IssueActionDto → ToolCallResult
created_action_report a = record {
  capability_id = "actions.create";
  summary = units "Created action \"" ++ units a.action.title ++ units "\".";
  data_value = one_action a;
  links = action_link a.action.id ∷ [];
}

abbrev pub commented_report : String → ActionCommentDto → ToolCallResult
commented_report action_id c = record {
  capability_id = "actions.addComment";
  summary = units "Added a comment to action " ++ units (short_id action_id) ++ units ".";
  data_value = one_comment c;
  links = action_link action_id ∷ [];
}

abbrev pub updated_action_report : IssueActionDto → ToolCallResult
updated_action_report a = record {
  capability_id = "actions.update";
  summary =
      units "Updated action \""
      ++ units a.action.title
      ++ units "\" (status "
      ++ action_status_name a.action.status
      ++ units ").";
  data_value = one_action a;
  links = action_link a.action.id ∷ [];
}

abbrev pub updated_issue_report : CustomerIssueDto → ToolCallResult
updated_issue_report i = record {
  capability_id = "issues.update";
  summary =
      units "Updated issue "
      ++ units (short_id i.issue.id)
      ++ units " (status "
      ++ issue_status_name i.issue.status
      ++ units ").";
  data_value = one_issue i;
  links = issue_link i.issue.id ∷ [];
}

abbrev pub created_sop_report : SopDto → ToolCallResult
created_sop_report s = record {
  capability_id = "sop.create";
  summary = units "Created SOP \"" ++ units s.sop.name ++ units "\".";
  data_value = one_sop s;
  links = sop_link s.sop ∷ [];
}

abbrev pub updated_sop_report : SopDto → ToolCallResult
updated_sop_report s = record {
  capability_id = "sop.update";
  summary = units "Updated SOP \"" ++ units s.sop.name ++ units "\".";
  data_value = one_sop s;
  links = sop_link s.sop ∷ [];
}

abbrev pub version_report : String → SopDetailDto → ToolCallResult
version_report sop_id d = record {
  capability_id = "sop.addVersion";
  summary =
      units "Added version "
      ++ to_string d.detail.version
      ++ units " to SOP "
      ++ units (short_id sop_id)
      ++ units ".";
  data_value = one_detail d;
  links = link "Open SOP" "sop" sop_id ∷ [];
}

-- What the services are called with.
abbrev pub issue_input : Fresh → IssuesCreateInput → CreateIssueInput
issue_input fresh issue = record {
  sales_id = issue.sales_id;
  description = issue.description;
  date_raised = get_or issue.date_raised fresh.now;
  status = in_assistance;
}

abbrev pub action_input : ActionsCreateInput → CreateActionInput
action_input action = record {
  issue_id = action.issue_id;
  title = action.title;
  description = action.description;
  assigned_owner_id = action.assigned_owner_id;
  status = none;
}

abbrev pub issue_patch : IssueUpdateInput → UpdateIssueInput
issue_patch issue = record {
  description = issue.description;
  status = issue.status;
  date_last_update = none;
}

module _ (zod : Zod) (fresh : Fresh) where
  abbrev pub mark_action_completed : Json → AuthContext → NovaAction ToolCallResult
  mark_action_completed input auth = parsed (action_id_input zod (or_empty input)) λ id db.
      answer completed_report (
        update_action fresh id
          (record { status = some completed; description = none; assigned_owner_id = none }) auth
          db)

  abbrev pub create_sale_tool : Json → NovaAction ToolCallResult
  create_sale_tool input =
      parsed (sales_create_input zod (or_empty input))
        λ sale db. answer created_sale_report (create_sale fresh.row sale db)

  abbrev pub create_issue_tool : Json → NovaAction ToolCallResult
  create_issue_tool input =
      parsed (issues_create_input zod (or_empty input)) λ (issue : IssuesCreateInput) db.
        answer opened_report (create_issue fresh (issue_input fresh issue) db)

  abbrev pub create_action_tool : Json → AuthContext → NovaAction ToolCallResult
  create_action_tool input auth =
      parsed (actions_create_input zod (or_empty input)) λ (action : ActionsCreateInput) db.
        answer created_action_report (create_action fresh (action_input action) auth db)

  abbrev pub add_action_comment : Json → AuthContext → NovaAction ToolCallResult
  add_action_comment input auth = parsed (action_add_comment_input zod (or_empty input)) λ found db.
      answer (commented_report found.0)
        (add_comment fresh found.0 (record { comment = found.1; datetime = fresh.now }) auth db)

  abbrev pub update_action_tool : Json → AuthContext → NovaAction ToolCallResult
  update_action_tool input auth =
      parsed (action_update_input zod (or_empty input))
        λ found db. answer updated_action_report (update_action fresh found.0 found.1 auth db)

  abbrev pub update_issue_tool : Json → NovaAction ToolCallResult
  update_issue_tool input =
      parsed (issue_update_input zod (or_empty input)) λ (issue : IssueUpdateInput) db.
        answer updated_issue_report (update_issue fresh issue.issue_id (issue_patch issue) db)

  abbrev pub create_sop_tool : Json → AuthContext → NovaAction ToolCallResult
  create_sop_tool input auth =
      parsed (sop_create_input zod (or_empty input))
        λ sop db. answer created_sop_report (create_sop fresh sop auth db)

  abbrev pub update_sop_tool : Json → NovaAction ToolCallResult
  update_sop_tool input =
      parsed (sop_update_input zod (or_empty input))
        λ found db. answer updated_sop_report (update_sop found.0 found.1 db)

  abbrev pub add_sop_version : Json → AuthContext → NovaAction ToolCallResult
  add_sop_version input auth =
      parsed (sop_add_version_input zod (or_empty input))
        λ found db. answer (version_report found.0) (add_version fresh found.0 found.1 auth db)
