-- ===== src/Runs/Executor/Execute/Atomic.antt =====
-- An error of the executor leaves the business database as it was.
use at_nova_platform.Prelude.{String, Bool, ◌≡◌, refl, Option, none, some, map_get}
use at_nova_platform.Json.{Json}
use at_nova_platform.Business.Actions.{Fresh}
use at_nova_platform.Business.Atomic.{
  Atomic, create_action-Atomic, update_action-Atomic, add_comment-Atomic, create_sop-Atomic,
  add_version-Atomic, create_issue-Atomic, update_issue-Atomic, update_sop-Atomic,
  create_sale-Atomic,
}
use at_nova_platform.Rbac.Authorize.{AuthContext}
use at_nova_platform.Runs.Store.{NovaDb, ServiceError, Outcome, returned, thrown, NovaAction, given}
use at_nova_platform.Runs.Executor.Zod.{Zod}
use at_nova_platform.Runs.Executor.Inputs.{
  IssuesCreateInput, IssueUpdateInput, action_id_input, issues_create_input, sales_create_input,
  actions_create_input, action_add_comment_input, action_update_input, issue_update_input,
  sop_create_input, sop_update_input, sop_add_version_input,
}
use at_nova_platform.Runs.Executor.Writes.{
  completed_report, created_sale_report, opened_report, created_action_report, commented_report,
  updated_action_report, updated_issue_report, created_sop_report, updated_sop_report,
  version_report, issue_input, action_input, issue_patch,
}
use at_nova_platform.Business.{completed}
use at_nova_platform.Business.Sales.Create.{create_sale}
use at_nova_platform.Business.Actions.{create_action, update_action, add_comment}
use at_nova_platform.Business.Issues.{create_issue, update_issue}
use at_nova_platform.Business.Sops.{create_sop, update_sop, add_version}
use at_nova_platform.Runs.Executor.Results.{ToolCallResult, or_empty, parsed, answer}
use at_nova_platform.Runs.Executor.Execute.{
  WriteTool, actions_mark_completed, sales_create, issues_create, actions_create,
  actions_add_comment, actions_update, issues_update, sop_create, sop_update, sop_add_version, Tool,
  reads, writes, tools, run_read, run_write, dispatch, execute,
}
use at_nova_platform.Runs.Executor.Execute.Effects.{run_read-same}

answer-Atomic :
    {A : Type 0} (make : A → ToolCallResult) (db : NovaDb) (out : Outcome A) (after : NovaDb)
    → Atomic db (out, after)
    → Atomic db (answer make (out, after))
answer-Atomic make db (returned a) after h = tt
answer-Atomic make db (thrown e) after h = h

-- A handler that parses its input, calls a service and makes a result of what it returns.
handler-Atomic :
    {I A : Type 0} (o : Option I) (act : I → NovaAction A) (make : I → A → ToolCallResult)
    (db : NovaDb)
    → ((i : I) → Atomic db (act i db))
    → Atomic db (parsed o (λ i db. answer (make i) (act i db)) db)
handler-Atomic none act make db each = refl
handler-Atomic (some i) act make db each =
    answer-Atomic (make i) db (act i db).0 (act i db).1 (each i)

same-Atomic :
    {A : Type 0} (db : NovaDb) (out : Outcome A) (after : NovaDb)
    → after ≡ db
    → Atomic db (out, after)
same-Atomic db (returned a) after same = tt
same-Atomic db (thrown e) after same = same

-- The same for an error that is known.
Atomic-thrown :
    {A : Type 0} (db : NovaDb) (out : Outcome A) (after : NovaDb) (e : ServiceError)
    → Atomic db (out, after)
    → out ≡ thrown e
    → after ≡ db
Atomic-thrown db (returned a) after e h same = cc
Atomic-thrown db (thrown x) after e h same = h

module _ (zod : Zod) (ilike : String → String → Bool) (fresh : Fresh) (raw : Json)
    (auth : AuthContext) (db : NovaDb) (pin : String)
    (has_pin : given auth.application_user_id ≡ some pin) where
  run_write-Atomic : (tool : WriteTool) → Atomic db (run_write zod ilike fresh tool raw auth db)
  run_write-Atomic actions_mark_completed =
      handler-Atomic (action_id_input zod (or_empty raw))
        (λ id.
          update_action fresh id
            (record { status = some completed; description = none; assigned_owner_id = none }) auth)
        (λ id. completed_report) db (λ id. update_action-Atomic fresh auth db pin has_pin id _)
  run_write-Atomic sales_create =
      handler-Atomic (sales_create_input zod (or_empty raw)) (create_sale fresh.row)
        (λ i. created_sale_report) db (create_sale-Atomic fresh db)
  run_write-Atomic issues_create =
      handler-Atomic (issues_create_input zod (or_empty raw))
        (λ (i : IssuesCreateInput). create_issue fresh (issue_input fresh i)) (λ i. opened_report)
        db (λ i. create_issue-Atomic fresh db (issue_input fresh i))
  run_write-Atomic actions_create =
      handler-Atomic (actions_create_input zod (or_empty raw))
        (λ i. create_action fresh (action_input i) auth) (λ i. created_action_report) db
        (λ i. create_action-Atomic fresh auth db pin has_pin (action_input i))
  run_write-Atomic actions_add_comment =
      handler-Atomic (action_add_comment_input zod (or_empty raw))
        (λ i. add_comment fresh i.0 (record { comment = i.1; datetime = fresh.now }) auth)
        (λ i. commented_report i.0) db (λ i. add_comment-Atomic fresh auth db pin has_pin i.0 _)
  run_write-Atomic actions_update =
      handler-Atomic (action_update_input zod (or_empty raw))
        (λ i. update_action fresh i.0 i.1 auth) (λ i. updated_action_report) db
        (λ i. update_action-Atomic fresh auth db pin has_pin i.0 i.1)
  run_write-Atomic issues_update =
      handler-Atomic (issue_update_input zod (or_empty raw))
        (λ (i : IssueUpdateInput). update_issue fresh i.issue_id (issue_patch i))
        (λ i. updated_issue_report) db
        (λ i. update_issue-Atomic fresh db i.issue_id (issue_patch i))
  run_write-Atomic sop_create =
      handler-Atomic (sop_create_input zod (or_empty raw)) (λ i. create_sop fresh i auth)
        (λ i. created_sop_report) db (create_sop-Atomic fresh auth db pin has_pin)
  run_write-Atomic sop_update =
      handler-Atomic (sop_update_input zod (or_empty raw)) (λ i. update_sop i.0 i.1)
        (λ i. updated_sop_report) db (λ i. update_sop-Atomic fresh db i.0 i.1)
  run_write-Atomic sop_add_version =
      handler-Atomic (sop_add_version_input zod (or_empty raw))
        (λ i. add_version fresh i.0 i.1 auth) (λ i. version_report i.0) db
        (λ i. add_version-Atomic fresh auth db pin has_pin i.0 i.1)

  dispatch-Atomic : (tool : Option Tool) → Atomic db (dispatch zod ilike fresh tool raw auth db)
  dispatch-Atomic none = refl
  dispatch-Atomic (some (reads tool)) =
      same-Atomic db (run_read zod ilike fresh tool raw db).0
        (run_read zod ilike fresh tool raw db).1 (run_read-same zod ilike fresh raw auth db tool)
  dispatch-Atomic (some (writes tool)) = run_write-Atomic tool

  -- For a caller who is pinned to a profile, as the gateway's are, a capability that ends in an error
  -- leaves the business database as it was.
  pub execute-Atomic :
      (id : String) (e : ServiceError)
      → (execute zod ilike fresh id raw auth db).0 ≡ thrown e
      → (execute zod ilike fresh id raw auth db).1 ≡ db
  unfolding execute
  execute-Atomic id e went =
      Atomic-thrown db (execute zod ilike fresh id raw auth db).0
        (execute zod ilike fresh id raw auth db).1 e (dispatch-Atomic (map_get id tools)) went
