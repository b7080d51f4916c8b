-- ===== src/Runs.antt =====
-- backend-services/packages/database/src/agents: the runs' types and rows, and
-- backend-services/api/src/modules/agent-runs/agent-run.repository.ts: the queries on them.
pub mod Snapshot
pub mod Store
pub mod Gateway
pub mod Service
pub mod Trace
pub mod Executor
mod Tests
use at_nova_platform.Prelude.{
  ℕ, zero, suc, String, ◌==◌, Bool, true, false, not, ◌&&◌, ◌||◌, List, [], ◌∷◌, ◌++◌, map, Option,
  none, some, length, take, filter, any, find, ltb, leb, if◌then◌else◌,
}

-- `AGENT_RUN_STATUSES`.
pub data AgentRunStatus : Type 0 where
  queued accepted planning running waiting_for_agent waiting_for_tool waiting_for_input :
      AgentRunStatus
  retrying partially_completed completed failed canceled expired : AgentRunStatus

-- `TERMINAL_AGENT_RUN_STATUSES.includes(status)`
unfoldable pub is_terminal : AgentRunStatus → Bool
is_terminal completed = true
is_terminal failed = true
is_terminal canceled = true
is_terminal expired = true
is_terminal _ = false

pub data AgentEventVisibility : Type 0 where
  user internal security : AgentEventVisibility

abbrev pub is_user : AgentEventVisibility → Bool
is_user user = true
is_user _ = false

-- Times are milliseconds since the epoch.
pub record AgentRun : Type 0 where
  pub id : String
  pub owner_subject : String
  pub owner_user_id : String
  pub conversation_id : Option String
  pub status : AgentRunStatus
  pub prompt_ref : String
  pub response_ref : Option String
  pub entitlement_snapshot_id : String
  pub idempotency_key : String
  pub cancel_requested : Bool
  pub expires_at : ℕ

pub record AgentRunEntitlement : Type 0 where
  pub id : String
  pub owner_subject : String
  pub owner_user_id : String
  pub roles : List String
  pub permissions : List String
  pub capability_allowlist : List String
  pub snapshot_hash : String
  pub issued_at : ℕ
  pub expires_at : ℕ

pub record AgentRunEvent : Type 0 where
  pub id : String
  pub run_id : String
  pub sequence : ℕ
  pub type_name : String
  pub payload : String
  pub visibility : AgentEventVisibility

pub data Decision : Type 0 where
  allow deny : Decision

pub record ToolAuditInput : Type 0 where
  pub run_id : String
  pub owner_subject : String
  pub actor : String
  pub action : String
  pub capability : Option String
  pub decision : Decision
  pub reason : Option String

-- The tables of the orchestration database.
pub record AgentsDb : Type 0 where
  pub runs : List AgentRun
  pub entitlements : List AgentRunEntitlement
  pub events : List AgentRunEvent
  pub audit_log : List ToolAuditInput

abbrev pub is_owned : String → String → AgentRun → Bool
is_owned run_id owner_subject r = run_id == r.id && owner_subject == r.owner_subject

pub find_by_id_for_owner : AgentsDb → String → String → Option AgentRun
find_by_id_for_owner db run_id owner_subject = find (is_owned run_id owner_subject) db.runs

abbrev pub entitlement_of : AgentsDb → AgentRun → Option AgentRunEntitlement
entitlement_of db run =
    find (λ (e : AgentRunEntitlement). run.entitlement_snapshot_id == e.id) db.entitlements

abbrev pub with_entitlement :
    AgentRun → Option AgentRunEntitlement → Option (AgentRun × AgentRunEntitlement)
with_entitlement run none = none
with_entitlement run (some e) = some (run, e)

abbrev pub run_and_entitlement :
    AgentsDb → Option AgentRun → Option (AgentRun × AgentRunEntitlement)
run_and_entitlement db none = none
run_and_entitlement db (some run) = with_entitlement run (entitlement_of db run)

pub find_run_with_entitlement : AgentsDb → String → Option (AgentRun × AgentRunEntitlement)
find_run_with_entitlement db run_id =
    run_and_entitlement db (find (λ (r : AgentRun). run_id == r.id) db.runs)

pub set_response_ref : String → String → AgentsDb → AgentsDb
set_response_ref run_id response_ref db = record db {
  runs =
      map
        (λ (r : AgentRun).
          if run_id == r.id then record r { response_ref = some response_ref } else r)
        db.runs;
}

pub record_tool_audit : ToolAuditInput → AgentsDb → AgentsDb
record_tool_audit input db = record db { audit_log = db.audit_log ++ input ∷ [] }

pub find_by_owner_and_idempotency_key : AgentsDb → String → String → Option AgentRun
find_by_owner_and_idempotency_key db owner_subject key =
    find (λ (r : AgentRun). owner_subject == r.owner_subject && key == r.idempotency_key) db.runs

abbrev pub same_conversation : String → Option String → Bool
same_conversation id none = false
same_conversation id (some c) = id == c

-- In the order of creation, which is the order of the table.
pub list_for_owner_and_conversation : AgentsDb → String → String → List AgentRun
list_for_owner_and_conversation db owner_subject conversation_id =
    filter
      (λ (r : AgentRun).
        owner_subject == r.owner_subject && same_conversation conversation_id r.conversation_id)
      db.runs

-- `ORDER BY event.sequence ASC`.
abbrev pub insert_event : AgentRunEvent → List AgentRunEvent → List AgentRunEvent
insert_event e [] = e ∷ []
insert_event e (x ∷ xs) = if leb e.sequence x.sequence then e ∷ x ∷ xs else x ∷ insert_event e xs

abbrev pub order_events : List AgentRunEvent → List AgentRunEvent
order_events [] = []
order_events (e ∷ es) = insert_event e (order_events es)

-- The events of a run that a reader may see.
abbrev pub is_visible : String → Bool → AgentRunEvent → Bool
is_visible run_id include_non_user e =
    run_id == e.run_id && (include_non_user || is_user e.visibility)

pub list_user_events_after : AgentsDb → String → ℕ → ℕ → Bool → List AgentRunEvent
list_user_events_after db run_id after_sequence limit include_non_user = take limit (
    order_events (
      filter
        (λ (e : AgentRunEvent).
          ltb after_sequence e.sequence && is_visible run_id include_non_user e)
        db.events))

abbrev pub user_event_page_size : ℕ
user_event_page_size = 200

abbrev pub last_sequence : ℕ → List AgentRunEvent → ℕ
last_sequence n [] = n
last_sequence n (e ∷ es) = last_sequence e.sequence es

-- The `for (;;)` over pages; `none` when the fuel is used up.
pub pages : ℕ → AgentsDb → String → Bool → ℕ → Option (List AgentRunEvent)
pages zero db run_id include_non_user after_sequence = none
pages (suc fuel) db run_id include_non_user after_sequence =
    let batch =
      list_user_events_after db run_id after_sequence user_event_page_size include_non_user in
    let rest = pages fuel db run_id include_non_user (last_sequence after_sequence batch) in
    if ltb 0 (length batch)
    then if ltb (length batch) user_event_page_size
      then some batch
      else elim rest [ none ↦ none | some more ↦ some (batch ++ more) ]
    else some []

-- Every page but the last holds an event at least.
pub list_all_user_events : AgentsDb → String → Bool → Option (List AgentRunEvent)
list_all_user_events db run_id include_non_user =
    pages (suc (length db.events)) db run_id include_non_user 0

abbrev pub cancel_row : String → AgentRun → AgentRun
cancel_row run_id r = if run_id == r.id then record r { cancel_requested = true } else r

-- The run that the caller goes on with, and the table after it.
pub request_cancel : AgentRun → AgentsDb → AgentRun × AgentsDb
request_cancel run db = if is_terminal run.status || run.cancel_requested then (run, db) else (
  record run { cancel_requested = true },
  record db { runs = map (cancel_row run.id) db.runs },
)
