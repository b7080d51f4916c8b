-- ===== src/Runs/Snapshot.antt =====
-- The entitlement snapshot: backend-services/packages/shared/src/auth/entitlement-snapshot.ts and
-- backend-services/api/src/modules/agent-runs/entitlement-snapshot.ts.
use Prim.Native.String
use Prim.Native.String.{compare}
use text.Mathlib.Text.{is_le}
use at_nova_platform.Prelude.{ℕ, ◌+◌, ◌*◌, ◌/◌, String, List, [], ◌∷◌, unique, if◌then◌else◌}
use at_nova_platform.Json.{Json, num, str, arr, obj, Items, nil, cons, end, field}

-- `Array.sort` on strings.
abbrev pub insert_name : String → List String → List String
insert_name s [] = s ∷ []
insert_name s (t ∷ ts) = if is_le (compare s t) then s ∷ t ∷ ts else t ∷ insert_name s ts

abbrev pub sort_names : List String → List String
sort_names [] = []
sort_names (s ∷ ss) = insert_name s (sort_names ss)

-- `[...new Set(values)].sort()`
abbrev pub sorted_unique : List String → List String
sorted_unique values = sort_names (unique values)

pub record SnapshotHashPayload : Type 0 where
  pub owner_subject : String
  pub roles : List String
  pub permissions : List String
  pub capability_allowlist : List String
  pub issued_at_epoch_s : ℕ
  pub expires_at_epoch_s : ℕ

abbrev pub strings : List String → Items
strings [] = nil
strings (s ∷ ss) = cons (str s) (strings ss)

abbrev pub canonical : (ℕ → String) → SnapshotHashPayload → Json
canonical decimal payload = obj (
    field "ownerSubject" (str payload.owner_subject) (
      field "roles" (arr (strings (sorted_unique payload.roles))) (
        field "permissions" (arr (strings (sorted_unique payload.permissions))) (
          field "capabilityAllowlist" (arr (strings (sorted_unique payload.capability_allowlist))) (
            field "issuedAtEpochS" (num (decimal payload.issued_at_epoch_s))
              (field "expiresAtEpochS" (num (decimal payload.expires_at_epoch_s)) end))))))

-- `JSON.stringify`, its printing of a number, and SHA-256 in hexadecimal come from the runtime.
pub record Runtime : Type 0 where
  pub stringify : Json → String
  pub decimal : ℕ → String
  pub sha256_hex : String → String

unfoldable pub compute_snapshot_hash : Runtime → SnapshotHashPayload → String
compute_snapshot_hash runtime payload =
    String.◌++◌ "sha256:"
      (runtime.sha256_hex (runtime.stringify (canonical runtime.decimal payload)))

pub record EntitlementSnapshot : Type 0 where
  pub owner_subject : String
  pub owner_user_id : String
  pub roles : List String
  pub permissions : List String
  pub capability_allowlist : List String
  pub snapshot_hash : String
  pub issued_at : ℕ
  pub expires_at : ℕ

pub record BuildEntitlementSnapshotInput : Type 0 where
  pub owner_subject : String
  pub owner_user_id : String
  pub roles : List String
  pub permissions : List String
  pub resolve_capability_allowlist : List String → List String
  pub ttl_seconds : ℕ
  pub now : ℕ

unfoldable pub build_entitlement_snapshot :
    Runtime → BuildEntitlementSnapshotInput → EntitlementSnapshot
build_entitlement_snapshot runtime input =
    let issued_at_epoch_s = input.now / 1000 in
    let expires_at_epoch_s = issued_at_epoch_s + input.ttl_seconds in
    let roles = sorted_unique input.roles in
    let permissions = sorted_unique input.permissions in
    let capability_allowlist =
      sorted_unique (input.resolve_capability_allowlist input.permissions) in
    let snapshot_hash = compute_snapshot_hash runtime (record {
      owner_subject = input.owner_subject;
      roles = roles;
      permissions = permissions;
      capability_allowlist = capability_allowlist;
      issued_at_epoch_s = issued_at_epoch_s;
      expires_at_epoch_s = expires_at_epoch_s;
    }) in
    record {
      owner_subject = input.owner_subject;
      owner_user_id = input.owner_user_id;
      roles = roles;
      permissions = permissions;
      capability_allowlist = capability_allowlist;
      snapshot_hash = snapshot_hash;
      issued_at = issued_at_epoch_s * 1000;
      expires_at = expires_at_epoch_s * 1000;
    }
