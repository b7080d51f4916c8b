-- ===== src/Runs/Service.antt =====
-- backend-services/api/src/modules/agent-runs/agent-run.service.ts, with the transfer objects of
-- agent-run.dto.ts and `createRun` of agent-run.repository.ts.
pub mod Ownership
pub mod Cancel
pub mod Submit
pub mod Refs
use Prim.Native.String
use at_nova_platform.Prelude.{
  ℕ, String, ◌==◌, Bool, true, false, not, ◌&&◌, List, [], ◌∷◌, ◌++◌, map, Option, none, some,
  if◌then◌else◌,
}
use at_nova_platform.Rbac.{RbacRegistry, capability_allowlist}
use at_nova_platform.Rbac.Authorize.{AuthContext}
use at_nova_platform.Runs.{
  AgentRunStatus, queued, AgentRun, AgentRunEntitlement, AgentRunEvent, AgentsDb,
  find_by_id_for_owner, find_by_owner_and_idempotency_key, list_for_owner_and_conversation,
  list_user_events_after, list_all_user_events, request_cancel,
}
use at_nova_platform.Runs.Snapshot.{Runtime, EntitlementSnapshot, build_entitlement_snapshot}
use at_nova_platform.Runs.Store.{
  user, Message, Conversation, NovaDb, World, ServiceError, run_not_found, conversation_not_found,
  missing_subject, Outcome, returned, thrown, Action, and_then, find_for_user, create_conversation,
  add_message, UserWithRoles, resolve_current_user, given,
}
use at_nova_platform.Runs.Gateway.{after_last_slash, message_ref}

pub record AgentRunDto : Type 0 where
  pub run_id : String
  pub status : AgentRunStatus
  pub conversation_id : Option String
  pub cancel_requested : Bool
  pub response_message_id : Option String
  pub events_url : String
  pub expires_at : ℕ

pub events_url_for : String → String
events_url_for run_id = String.◌++◌ "/api/v1/agent-runs/" (String.◌++◌ run_id "/events")

-- An unset reference and one with no id behind the last slash give none.
pub response_message_id_from : Option String → Option String
response_message_id_from none = none
response_message_id_from (some response_ref) =
    if response_ref == "" then none else given (some (after_last_slash "" response_ref))

pub to_agent_run_dto : AgentRun → AgentRunDto
to_agent_run_dto run = record {
  run_id = run.id;
  status = run.status;
  conversation_id = run.conversation_id;
  cancel_requested = run.cancel_requested;
  response_message_id = response_message_id_from run.response_ref;
  events_url = events_url_for run.id;
  expires_at = run.expires_at;
}

-- The ids that the databases give the new rows.
pub record FreshIds : Type 0 where
  pub user_id : String
  pub conversation_id : String
  pub message_id : String
  pub entitlement_id : String
  pub run_id : String

pub record CreateAgentRunInput : Type 0 where
  pub message : String
  pub body_conversation_id : Option String
  pub auth : AuthContext
  pub idempotency_key : String

pub record CreateAgentRunData : Type 0 where
  pub owner_subject : String
  pub owner_user_id : String
  pub conversation_id : Option String
  pub prompt_ref : String
  pub idempotency_key : String
  pub snapshot : EntitlementSnapshot

abbrev pub entitlement_row : String → EntitlementSnapshot → AgentRunEntitlement
entitlement_row id s = record {
  id = id;
  owner_subject = s.owner_subject;
  owner_user_id = s.owner_user_id;
  roles = s.roles;
  permissions = s.permissions;
  capability_allowlist = s.capability_allowlist;
  snapshot_hash = s.snapshot_hash;
  issued_at = s.issued_at;
  expires_at = s.expires_at;
}

abbrev pub run_row : FreshIds → CreateAgentRunData → AgentRun
run_row ids data_in = record {
  id = ids.run_id;
  owner_subject = data_in.owner_subject;
  owner_user_id = data_in.owner_user_id;
  conversation_id = data_in.conversation_id;
  status = queued;
  prompt_ref = data_in.prompt_ref;
  response_ref = none;
  entitlement_snapshot_id = ids.entitlement_id;
  idempotency_key = data_in.idempotency_key;
  cancel_requested = false;
  expires_at = data_in.snapshot.expires_at;
}

-- The transaction of `AgentRunRepository.createRun`.
abbrev pub insert_run : FreshIds → CreateAgentRunData → AgentsDb → AgentsDb
insert_run ids data_in db = record db {
  entitlements = db.entitlements ++ entitlement_row ids.entitlement_id data_in.snapshot ∷ [];
  runs = db.runs ++ run_row ids data_in ∷ [];
}

abbrev pub prompt_message : FreshIds → String → String → Message
prompt_message ids conversation_id text = record {
  id = ids.message_id;
  conversation_id = conversation_id;
  role = user;
  text = text;
  is_mcp_apps = false;
  mcp_app_link = none;
  mcp_active = none;
}

-- The conversation that the prompt goes to, and the tables with it.
abbrev pub choose_conversation :
    FreshIds → String → Option String → NovaDb → Option (Conversation × NovaDb)
choose_conversation ids user_id none db =
    let c : Conversation = record { id = ids.conversation_id; user_id = user_id } in
    some (c, create_conversation c db)
choose_conversation ids user_id (some id) db = elim (find_for_user db id user_id) [
  | none ↦ none
  | some c ↦ some (c, db)
]

module _ (runtime : Runtime) (registry : RbacRegistry) (run_ttl_seconds : ℕ) where
  unfoldable pub snapshot_for : ℕ → String → AuthContext → EntitlementSnapshot
  snapshot_for now user_id auth = build_entitlement_snapshot runtime (record {
    owner_subject = auth.subject;
    owner_user_id = user_id;
    roles = auth.roles;
    permissions = auth.permissions;
    resolve_capability_allowlist = capability_allowlist registry;
    ttl_seconds = run_ttl_seconds;
    now = now;
  })

  abbrev pub run_data :
      ℕ → FreshIds → UserWithRoles → CreateAgentRunInput → String → CreateAgentRunData
  run_data now ids u input conversation_id = record {
    owner_subject = input.auth.subject;
    owner_user_id = u.user.id;
    conversation_id = some conversation_id;
    prompt_ref = message_ref conversation_id ids.message_id;
    idempotency_key = input.idempotency_key;
    snapshot = snapshot_for now u.user.id input.auth;
  }

  -- What `createRun` does when the key is new, in the conversation chosen.
  abbrev pub submit_in :
      ℕ
      → FreshIds
      → CreateAgentRunInput
      → UserWithRoles
      → Option (Conversation × NovaDb)
      → Action AgentRun
  submit_in now ids input u none w = (thrown conversation_not_found, w)
  submit_in now ids input u (some (c, nova')) w =
      let data_in = run_data now ids u input c.id in
      (
        returned (run_row ids data_in),
        record {
          agents = insert_run ids data_in w.agents;
          nova = add_message (prompt_message ids c.id input.message) nova';
        },
      )

  abbrev pub submit : ℕ → FreshIds → CreateAgentRunInput → UserWithRoles → Action AgentRun
  submit now ids input u w =
      submit_in now ids input u
        (choose_conversation ids u.user.id (given input.body_conversation_id) w.nova) w

  abbrev pub resolve_user : FreshIds → AuthContext → Action UserWithRoles
  resolve_user ids auth w =
      let (outcome, nova') = resolve_current_user ids.user_id auth w.nova in
      (outcome, record w { nova = nova' })

  abbrev pub to_dto : Outcome AgentRun × World → Outcome AgentRunDto × World
  to_dto result = and_then result λ run w. (returned (to_agent_run_dto run), w)

  abbrev pub existing_or_new :
      ℕ → FreshIds → CreateAgentRunInput → UserWithRoles → Option AgentRun → Action AgentRunDto
  existing_or_new now ids input u none w = to_dto (submit now ids input u w)
  existing_or_new now ids input u (some existing) w = (returned (to_agent_run_dto existing), w)

  -- The request to the orchestrator that follows changes no table, and its failure is only logged.
  unfoldable pub create_run : ℕ → FreshIds → CreateAgentRunInput → Action AgentRunDto
  create_run now ids input w = and_then (resolve_user ids input.auth w) λ u w'.
      existing_or_new now ids input u
        (find_by_owner_and_idempotency_key w'.agents input.auth.subject input.idempotency_key) w'

abbrev pub or_not_found : Option AgentRun → Action AgentRun
or_not_found none w = (thrown run_not_found, w)
or_not_found (some run) w = (returned run, w)

unfoldable pub require_owned_run : String → AuthContext → Action AgentRun
require_owned_run run_id auth w =
    if auth.subject == ""
    then (thrown missing_subject, w)
    else or_not_found (find_by_id_for_owner w.agents run_id auth.subject) w

pub get_run : String → AuthContext → Action AgentRunDto
get_run run_id auth w =
    and_then (require_owned_run run_id auth w) λ run w'. (returned (to_agent_run_dto run), w')

unfoldable pub cancel_run : String → AuthContext → Action AgentRunDto
cancel_run run_id auth w = and_then (require_owned_run run_id auth w) λ run w'.
    let (updated, agents') = request_cancel run w'.agents in
    (returned (to_agent_run_dto updated), record w' { agents = agents' })

abbrev pub max_event_batch : ℕ
max_event_batch = 200

pub get_event_batch : String → ℕ → AuthContext → Bool → Action (AgentRun × List AgentRunEvent)
get_event_batch run_id after_sequence auth detailed w =
    and_then (require_owned_run run_id auth w) λ run w'. (
      returned
          (run, list_user_events_after w'.agents run_id after_sequence max_event_batch detailed),
      w',
    )

pub list_runs_for_conversation : String → AuthContext → Action (List AgentRunDto)
list_runs_for_conversation conversation_id auth w =
    if auth.subject == "" then (thrown missing_subject, w) else (
      returned (
          map to_agent_run_dto
            (list_for_owner_and_conversation w.agents auth.subject conversation_id)),
      w,
    )

-- The events are `none` only where the paged read would use up its fuel.
pub get_run_trace : String → AuthContext → Bool → Action (AgentRun × Option (List AgentRunEvent))
get_run_trace run_id auth detailed w =
    and_then (require_owned_run run_id auth w)
      λ run w'. (returned (run, list_all_user_events w'.agents run_id detailed), w')
