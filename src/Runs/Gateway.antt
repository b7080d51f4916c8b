-- ===== src/Runs/Gateway.antt =====
-- The tool gateway: backend-services/api/src/modules/agent-runs/tool-gateway.service.ts.
pub mod Verify
pub mod Trail
use Prim.Native.String
use Prim.Native.Char.{code}
use at_nova_platform.Prelude.{
  ℕ, ◌/◌, String, ◌==◌, Bool, true, false, not, ◌&&◌, List, [], ◌∷◌, Option, none, some, eqb, leb,
  is_nil, has, if◌then◌else◌,
}
use at_nova_platform.Json.{Json}
use at_nova_platform.Rbac.{
  CapabilityView, RbacRegistry, known_roles, get_capability, permissions_satisfy_capability,
}
use at_nova_platform.Rbac.Authorize.{AuthContext}
use at_nova_platform.Runs.{
  AgentRun, AgentRunEntitlement, AgentsDb, ToolAuditInput, allow, deny, find_run_with_entitlement,
  record_tool_audit, set_response_ref,
}
use at_nova_platform.Runs.Snapshot.{Runtime, SnapshotHashPayload, compute_snapshot_hash}
use at_nova_platform.Runs.Store.{
  assistant, Message, NovaDb, World, ServiceError, run_not_found, no_conversation, prompt_not_found,
  snapshot_tampered, snapshot_expired, not_entitled, Outcome, returned, thrown, Action, and_then,
  add_message, find_message_in_conversation,
}

pub record ExecuteCapabilityInput : Type 0 where
  pub run_id : String
  pub capability_id : String
  pub input : Json

pub record AgentToolLink : Type 0 where
  pub label : String
  pub href : String
  pub type_name : String

pub record FinalizeRunInput : Type 0 where
  pub run_id : String
  pub text : String
  pub links : List AgentToolLink

pub record EntitlementView : Type 0 where
  pub run_id : String
  pub owner_subject : String
  pub roles : List String
  pub permissions : List String
  pub capability_allowlist : List String
  pub snapshot_hash : String
  pub issued_at : ℕ
  pub expires_at : ℕ

abbrev pub audit : ToolAuditInput → World → World
audit input w = record w { agents = record_tool_audit input w.agents }

abbrev pub payload_of : AgentRunEntitlement → SnapshotHashPayload
payload_of e = record {
  owner_subject = e.owner_subject;
  roles = e.roles;
  permissions = e.permissions;
  capability_allowlist = e.capability_allowlist;
  issued_at_epoch_s = e.issued_at / 1000;
  expires_at_epoch_s = e.expires_at / 1000;
}

abbrev pub mismatch_row : AgentRun → ToolAuditInput
mismatch_row run = record {
  run_id = run.id;
  owner_subject = run.owner_subject;
  actor = "nova-celery-worker";
  action = "snapshot.verify";
  capability = none;
  decision = deny;
  reason = some "snapshot_hash_mismatch";
}

abbrev pub verify_snapshot :
    Runtime → ℕ → Option (AgentRun × AgentRunEntitlement) → Action (AgentRun × AgentRunEntitlement)
verify_snapshot runtime now none w = (thrown run_not_found, w)
verify_snapshot runtime now (some (run, e)) w =
    if compute_snapshot_hash runtime (payload_of e) == e.snapshot_hash
    then if leb e.expires_at now then (thrown snapshot_expired, w) else (returned (run, e), w)
    else (thrown snapshot_tampered, audit (mismatch_row run) w)

-- `loadVerified` at the time `now`.
unfoldable pub load_verified : Runtime → ℕ → String → Action (AgentRun × AgentRunEntitlement)
load_verified runtime now run_id w =
    verify_snapshot runtime now (find_run_with_entitlement w.agents run_id) w

abbrev pub auth_from_snapshot : RbacRegistry → AgentRunEntitlement → AuthContext
auth_from_snapshot registry e = record {
  subject = e.owner_subject;
  email = none;
  given_name = none;
  family_name = none;
  roles = known_roles registry e.roles;
  permissions = e.permissions;
  application_user_id = some e.owner_user_id;
}

-- `!capability || !registry.permissionsSatisfyCapability(capability, permissionSet)`, negated.
abbrev pub is_entitled : Option CapabilityView → List String → Bool
is_entitled none permissions = false
is_entitled (some c) permissions = permissions_satisfy_capability c permissions

abbrev pub denial_reason : Option CapabilityView → String
denial_reason none = "unknown_capability"
denial_reason (some c) = "missing_permission"

abbrev pub denied_row : AgentRun → String → Option CapabilityView → ToolAuditInput
denied_row run capability_id capability = record {
  run_id = run.id;
  owner_subject = run.owner_subject;
  actor = "nova-celery-worker";
  action = "tool.invoke";
  capability = some capability_id;
  decision = deny;
  reason = some (denial_reason capability);
}

abbrev pub allowed_row : AgentRun → String → ToolAuditInput
allowed_row run capability_id = record {
  run_id = run.id;
  owner_subject = run.owner_subject;
  actor = "nova-celery-worker";
  action = "tool.invoke";
  capability = some capability_id;
  decision = allow;
  reason = none;
}

-- What stands behind the last slash, the whole text if there is none: `ref.split('/').pop()`.
unfoldable pub after_last_slash : String → String → String
after_last_slash kept String.[] = kept
after_last_slash kept (String.◌∷◌ c s) =
    after_last_slash (if eqb (code c) b'/' then "" else String.◌++◌ kept (String.◌∷◌ c String.[])) s

abbrev pub message_ref : String → String → String
message_ref conversation_id message_id =
    String.◌++◌ "nova-msg://" (String.◌++◌ conversation_id (String.◌++◌ "/" message_id))

abbrev pub first_href : List AgentToolLink → Option String
first_href [] = none
first_href (l ∷ ls) = some l.href

module _ (runtime : Runtime) (registry : RbacRegistry) where
  pub get_prompt : ℕ → String → Action String
  get_prompt now run_id w = and_then (load_verified runtime now run_id w) λ found w'.
      elim found.0.conversation_id [
        | none ↦ (thrown no_conversation, w')
        | some conversation_id ↦
            elim (find_message_in_conversation w'.nova conversation_id
              (after_last_slash "" found.0.prompt_ref)) [
                | none ↦ (thrown prompt_not_found, w')
                | some message ↦ (returned message.text, w')
              ]
      ]

  -- `execute` is the capability executor, over the business services.
  unfoldable pub execute_capability :
      {R : Type 0}
      → (String → Json → AuthContext → Action R)
      → ℕ
      → ExecuteCapabilityInput
      → Action R
  execute_capability execute now input w =
      and_then (load_verified runtime now input.run_id w) λ found w'.
        let (run, entitlement) = found in
        let capability = get_capability registry input.capability_id in
        if is_entitled capability entitlement.permissions
        then (and_then
            (execute input.capability_id input.input (auth_from_snapshot registry entitlement) w')
            (λ result w''. (returned result, audit (allowed_row run input.capability_id) w'')))
        else (thrown not_entitled, audit (denied_row run input.capability_id capability) w')

  abbrev pub final_message : String → String → FinalizeRunInput → Message
  final_message fresh conversation_id input = record {
    id = fresh;
    conversation_id = conversation_id;
    role = assistant;
    text = input.text;
    is_mcp_apps = not (is_nil input.links);
    mcp_app_link = first_href input.links;
    mcp_active = if is_nil input.links then none else some true;
  }

  abbrev pub finalize_in : String → FinalizeRunInput → AgentRun → Option String → Action String
  finalize_in fresh input run none w = (thrown no_conversation, w)
  finalize_in fresh input run (some conversation_id) w = (
    returned (message_ref conversation_id fresh),
    record {
      agents = set_response_ref run.id (message_ref conversation_id fresh) w.agents;
      nova = add_message (final_message fresh conversation_id input) w.nova;
    },
  )

  -- `fresh` is the id of the new message.
  unfoldable pub finalize_run : ℕ → String → FinalizeRunInput → Action String
  finalize_run now fresh input w =
      and_then (load_verified runtime now input.run_id w)
        λ found w'. finalize_in fresh input found.0 found.0.conversation_id w'

  pub get_entitlement : ℕ → String → Action EntitlementView
  get_entitlement now run_id w = and_then (load_verified runtime now run_id w) λ found w'. (
    returned (record {
      run_id = run_id;
      owner_subject = found.1.owner_subject;
      roles = found.1.roles;
      permissions = found.1.permissions;
      capability_allowlist = found.1.capability_allowlist;
      snapshot_hash = found.1.snapshot_hash;
      issued_at = found.1.issued_at;
      expires_at = found.1.expires_at;
    }),
    w',
  )
