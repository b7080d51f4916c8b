-- ===== src/Runs/Tests.antt =====
-- Tests and concrete uses: one submitted run, its cancellation, its tool call and its trace.
use at_nova_platform.Prelude.{
  ◌↔◌, ℕ, String, ◌<◌, ◌≡◌, ◌⊎◌, refl, true, false, [], ◌∷◌, ◌++◌, none, some, arith, filter,
}
use at_nova_platform.Business.{Shop}
use at_nova_platform.Json.{Json, null}
use at_nova_platform.Rbac.{
  low, CapabilityView, RbacRegistry, new_registry, get_capability, permissions_satisfy_capability,
}
use at_nova_platform.Rbac.Authorize.{AuthContext}
use at_nova_platform.Runs.{
  user, internal, AgentRun, AgentRunEntitlement, AgentRunEvent, AgentsDb, find_run_with_entitlement,
  find_by_id_for_owner, find_by_owner_and_idempotency_key, request_cancel, is_terminal, is_visible,
  order_events, list_all_user_events,
}
use at_nova_platform.Runs.Snapshot.{Runtime, compute_snapshot_hash, build_entitlement_snapshot}
use at_nova_platform.Runs.Store.{
  Message, User, World, returned, Action, UserWithRoles, resolve_current_user,
}
use at_nova_platform.Runs.Gateway.{
  FinalizeRunInput, finalize_run, ExecuteCapabilityInput, load_verified, execute_capability,
}
use at_nova_platform.Runs.Gateway.Verify.{IsEntitled, IsRefused, execute_capability-guard}
use at_nova_platform.Runs.Gateway.Trail.{
  IsTrailed, execute_capability-IsTrailed, reassigned, reassign, load_verified-reassign,
}
use at_nova_platform.Runs.Service.{
  response_message_id_from, to_agent_run_dto, FreshIds, CreateAgentRunInput, entitlement_row,
  run_row, run_data, submit, create_run, snapshot_for, require_owned_run, cancel_run,
}
use at_nova_platform.Runs.Service.Cancel.{Canceled, cancel_run-Canceled}
use at_nova_platform.Runs.Service.Ownership.{SameAnswers, only_own, only_own-SameAnswers}
use at_nova_platform.Runs.Service.Submit.{submit-load_verified, create_run-again}
use at_nova_platform.Runs.Service.Refs.{has_slash, finalize_run-message_id}
use at_nova_platform.Runs.Store.Profile.{Settled, resolve_current_user-Settled}
use at_nova_platform.Runs.Trace.{numbered_nil, numbered_cons, list_all_user_events-all}

abbrev runtime : Runtime
runtime = record { stringify = λ j. "{}"; decimal = λ n. "0"; sha256_hex = λ s. s }

abbrev reads_sales : CapabilityView
reads_sales = record {
  id = "sales.search";
  kind = "mcp-tool";
  mode = "read";
  risk = low;
  resource_scoped = true;
  delegated = true;
  enabled = true;
  requires_approval = false;
  is_system = true;
  required_permissions = "read-sales" ∷ [];
}

abbrev empty_shop : Shop
empty_shop = record {
  customers = [];
  products = [];
  sales = [];
  products_sold = [];
  issues = [];
  actions = [];
  comments = [];
  dependencies = [];
  sops = [];
  sop_details = [];
}

abbrev registry : RbacRegistry
registry = new_registry (record {
  revision = 1;
  roles = [];
  permissions = [];
  role_permissions = [];
  capabilities = reads_sales ∷ [];
  route_policies = [];
  view_permissions = [];
})

abbrev ann : User
ann = record {
  id = "user-1";
  email = "ann@example.org";
  first_name = "Ann";
  last_name = "";
  keycloak_id = some "sub-1";
  active = true;
}

abbrev start : World
start = record {
  agents = record { runs = []; entitlements = []; events = []; audit_log = [] };
  nova = record {
    conversations = [];
    messages = [];
    users = ann ∷ [];
    user_roles = [];
    role_names = [];
    shop = empty_shop;
  };
}

abbrev auth : AuthContext
auth = record {
  subject = "sub-1";
  email = some "ann@example.org";
  given_name = none;
  family_name = none;
  roles = [];
  permissions = "read-sales" ∷ [];
  application_user_id = none;
}

abbrev ids : FreshIds
ids = record {
  user_id = "user-2";
  conversation_id = "conversation-1";
  message_id = "message-1";
  entitlement_id = "entitlement-1";
  run_id = "run-1";
}

abbrev input : CreateAgentRunInput
input = record {
  message = "hello";
  body_conversation_id = none;
  auth = auth;
  idempotency_key = "key-1";
}

abbrev profile : UserWithRoles
profile = record { user = ann; roles = [] }

abbrev run : AgentRun
run = run_row ids (run_data runtime registry 3600 5000 ids profile input "conversation-1")

abbrev entitlement : AgentRunEntitlement
entitlement =
    entitlement_row ids.entitlement_id (snapshot_for runtime registry 3600 5000 "user-1" auth)

abbrev submitted : World
submitted = (submit runtime registry 3600 5000 ids input profile start).1

creates :
    create_run runtime registry 3600 5000 ids input start
    ≡ (returned (to_agent_run_dto run), submitted)
unfolding create_run resolve_current_user find_by_owner_and_idempotency_key
creates = refl

create_run-again_example :
    create_run runtime registry 3600 9000 ids
      (record input { message = "hello again"; body_conversation_id = some "conversation-7" })
      submitted
    ≡ (returned (to_agent_run_dto run), submitted)
create_run-again_example =
    create_run-again runtime registry 3600 5000 9000 ids ids input "hello again"
      (some "conversation-7") start submitted (to_agent_run_dto run) creates

soon : 9000 < entitlement.expires_at
unfolding snapshot_for build_entitlement_snapshot
soon = omega arith

submit-load_verified_example :
    load_verified runtime 9000 "run-1" submitted ≡ (returned (run, entitlement), submitted)
submit-load_verified_example =
    submit-load_verified runtime registry 3600 5000 ids input profile 9000 start submitted run refl
      refl refl soon

loads : load_verified runtime 9000 "run-1" submitted ≡ (returned (run, entitlement), submitted)
unfolding load_verified find_run_with_entitlement snapshot_for build_entitlement_snapshot
    compute_snapshot_hash
loads = refl

load_verified-reassign_example :
    load_verified runtime 9000 "run-1" (reassign "user-9" submitted)
    ≡ (returned (run, reassigned "user-9" entitlement), reassign "user-9" submitted)
load_verified-reassign_example =
    load_verified-reassign runtime 9000 "run-1" "user-9" submitted run entitlement loads

abbrev tool_call : ExecuteCapabilityInput
tool_call = record { run_id = "run-1"; capability_id = "sales.search"; input = null }

abbrev echo : String → Json → AuthContext → Action String
echo id arguments who w = (returned id, w)

abbrev called : World
called = (execute_capability runtime registry echo 9000 tool_call submitted).1

execute_capability-guard_example :
    IsEntitled runtime registry 9000 tool_call submitted
    ⊎ IsRefused submitted (execute_capability runtime registry echo 9000 tool_call submitted)
execute_capability-guard_example =
    execute_capability-guard runtime registry echo 9000 tool_call submitted

calls :
    execute_capability runtime registry echo 9000 tool_call submitted
    ≡ (returned "sales.search", called)
unfolding execute_capability load_verified find_run_with_entitlement snapshot_for
    build_entitlement_snapshot compute_snapshot_hash get_capability permissions_satisfy_capability
    new_registry
calls = refl

execute_capability-IsTrailed_example :
    (execute_capability runtime registry echo 9000 tool_call submitted
      ≡ (returned "sales.search", called))
    ↔ IsTrailed runtime registry echo 9000 tool_call submitted "sales.search" called
execute_capability-IsTrailed_example =
    execute_capability-IsTrailed runtime registry echo 9000 tool_call submitted "sales.search"
      called

only_own-SameAnswers_example : SameAnswers "run-1" auth submitted (only_own "sub-1" submitted)
only_own-SameAnswers_example = only_own-SameAnswers "run-1" auth submitted

abbrev canceled_run : AgentRun
canceled_run = record run { cancel_requested = true }

abbrev canceled_world : World
canceled_world = record submitted { agents = record submitted.agents { runs = canceled_run ∷ [] } }

cancels :
    cancel_run "run-1" auth submitted ≡ (returned (to_agent_run_dto canceled_run), canceled_world)
unfolding cancel_run require_owned_run find_by_id_for_owner request_cancel is_terminal
cancels = refl

cancel_run-Canceled_example : Canceled "run-1" auth submitted (cancel_run "run-1" auth submitted)
cancel_run-Canceled_example = cancel_run-Canceled "run-1" auth submitted

abbrev event : ℕ → AgentRunEvent
event n = record {
  id = "event";
  run_id = "run-1";
  sequence = n;
  type_name = "run.started";
  payload = "{}";
  visibility = user;
}

abbrev logged : AgentsDb
logged = record submitted.agents {
  events = event 2 ∷ record (event 3) { visibility = internal } ∷ event 1 ∷ [];
}

list_all_user_events-all_example :
    list_all_user_events logged "run-1" false
    ≡ some (order_events (filter (is_visible "run-1" false) logged.events))
list_all_user_events-all_example =
    list_all_user_events-all logged "run-1" false
      (numbered_cons (omega arith) refl (numbered_cons (omega arith) refl numbered_nil))

abbrev finalize_input : FinalizeRunInput
finalize_input = record { run_id = "run-1"; text = "done"; links = [] }

abbrev finalized : World
finalized = (finalize_run runtime registry 9000 "message-2" finalize_input submitted).1

finalizes :
    finalize_run runtime registry 9000 "message-2" finalize_input submitted
    ≡ (returned "nova-msg://conversation-1/message-2", finalized)
unfolding finalize_run load_verified find_run_with_entitlement snapshot_for
    build_entitlement_snapshot compute_snapshot_hash
finalizes = refl

plain_id : has_slash "message-2" ≡ false
unfolding has_slash
plain_id = refl

finalize_run-message_id_example :
    (response_message_id_from (some "nova-msg://conversation-1/message-2") ≡ some "message-2")
    × ((m : Message) × (m.id ≡ "message-2")
        × (m.text ≡ "done")
        × (finalized.nova.messages ≡ submitted.nova.messages ++ m ∷ []))
finalize_run-message_id_example =
    finalize_run-message_id runtime registry 9000 "message-2" finalize_input submitted finalized
      "nova-msg://conversation-1/message-2" plain_id refl finalizes

resolves : resolve_current_user "user-2" auth start.nova ≡ (returned profile, start.nova)
unfolding resolve_current_user
resolves = refl

resolve_current_user-Settled_example : Settled auth submitted.nova
resolve_current_user-Settled_example =
    resolve_current_user-Settled "user-2" auth start.nova start.nova submitted.nova profile resolves
      refl
