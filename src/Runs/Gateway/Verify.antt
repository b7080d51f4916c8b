-- ===== src/Runs/Gateway/Verify.antt =====
-- The checks before the gateway acts for a run's owner: tool-gateway.service.ts.
use at_nova_platform.Prelude.{
  ℕ, ◌<◌, String, ◌==◌, ◌≡◌, refl, ap, ◌⊎◌, inl, inr, false, some, arith, eq_iff, leb, Bool-cases,
  Option-cases,
}
use at_nova_platform.Json.{Json}
use at_nova_platform.Rbac.{
  CapabilityView, RbacRegistry, get_capability, permissions_satisfy_capability,
}
use at_nova_platform.Rbac.Resolve.{IsSatisfied, satisfy_iff}
use at_nova_platform.Rbac.Authorize.{AuthContext}
use at_nova_platform.Runs.{
  AgentRun, AgentRunEntitlement, ToolAuditInput, find_run_with_entitlement, record_tool_audit,
}
use at_nova_platform.Runs.Snapshot.{Runtime, compute_snapshot_hash}
use at_nova_platform.Runs.Store.{
  World, ServiceError, run_not_found, snapshot_tampered, snapshot_expired, not_entitled, Outcome,
  returned, thrown, Action,
}
use at_nova_platform.Runs.Gateway.{
  ExecuteCapabilityInput, audit, payload_of, mismatch_row, load_verified, execute_capability,
}

-- The run's stored snapshot has its hash, and has not expired.
pub record IsVerified (runtime : Runtime) (now : ℕ) (run_id : String) (w : World) (run : AgentRun)
    (e : AgentRunEntitlement) : Type 0 where
  pub stored : find_run_with_entitlement w.agents run_id ≡ some (run, e)
  pub intact : compute_snapshot_hash runtime (payload_of e) ≡ e.snapshot_hash
  pub in_time : now < e.expires_at

-- How `load_verified` ends: with a verified pair and nothing changed, or refused with the
-- business tables and the runs as they were.
pub data Loaded (runtime : Runtime) (now : ℕ) (run_id : String) (w : World)
    : Outcome (AgentRun × AgentRunEntitlement) × World → Type 0 where
  verified :
      (run : AgentRun) (e : AgentRunEntitlement)
      → IsVerified runtime now run_id w run e
      → Loaded runtime now run_id w (returned (run, e), w)
  missing : Loaded runtime now run_id w (thrown run_not_found, w)
  late : Loaded runtime now run_id w (thrown snapshot_expired, w)
  forged :
      (run : AgentRun)
      → Loaded runtime now run_id w (thrown snapshot_tampered, audit (mismatch_row run) w)

not_leb : (a b : ℕ) → leb a b ≡ false → b < a
not_leb a b h = ground arith

pub load_verified-Loaded :
    (runtime : Runtime) (now : ℕ) (run_id : String) (w : World)
    → Loaded runtime now run_id w (load_verified runtime now run_id w)
unfolding load_verified
load_verified-Loaded runtime now run_id w =
    elim (Option-cases (find_run_with_entitlement w.agents run_id)) [
      | inl absent ↦ rw absent missing
      | inr (found, there) ↦ check found.0 found.1 there
    ]
  where
    check :
        (run : AgentRun) (e : AgentRunEntitlement)
        → find_run_with_entitlement w.agents run_id ≡ some (run, e)
        → Loaded runtime now run_id w (load_verified runtime now run_id w)
    check run e there =
        let hash = compute_snapshot_hash runtime (payload_of e) in
        elim (Bool-cases (hash == e.snapshot_hash)) [
          | inr differs ↦ rw (there, differs) (forged run)
          | inl same ↦ elim (Bool-cases (leb e.expires_at now)) [
            | inl expired ↦ rw (there, same, expired) late
            | inr current ↦
                rw (there, same, current)
                  (verified run e (record {
                    stored = there;
                    intact = (eq_iff hash e.snapshot_hash).0 same;
                    in_time = not_leb _ _ current;
                  }))
          ]
        ]

-- A verified run is loaded, and nothing changes.
pub load_verified_of :
    (runtime : Runtime) (now : ℕ) (run_id : String) (w : World) (run : AgentRun)
    (e : AgentRunEntitlement)
    → IsVerified runtime now run_id w run e
    → load_verified runtime now run_id w ≡ (returned (run, e), w)
unfolding load_verified
load_verified_of runtime now run_id w run e v =
    let same = (eq_iff (compute_snapshot_hash runtime (payload_of e)) e.snapshot_hash).1 v.intact in
    let current : leb e.expires_at now ≡ false = lt_not_leb _ _ v.in_time in
    rw (v.stored, same, current) refl
  where
    lt_not_leb : (a b : ℕ) → b < a → leb a b ≡ false
    lt_not_leb a b h = ground arith

pub IsVerified-of :
    (runtime : Runtime) (now : ℕ) (run_id : String) (w after : World) (run : AgentRun)
    (e : AgentRunEntitlement)
    → load_verified runtime now run_id w ≡ (returned (run, e), after)
    → IsVerified runtime now run_id w run e
IsVerified-of runtime now run_id w after run e loaded =
    go _ loaded (load_verified-Loaded runtime now run_id w)
  where
    Pair : Type 0
    Pair = Outcome (AgentRun × AgentRunEntitlement) × World

    never :
        (error : ServiceError) (v : World)
        → Path Pair (thrown error, v) (returned (run, e), after)
        → IsVerified runtime now run_id w run e
    never error v went =
        let absurdity : Path (Outcome (AgentRun × AgentRunEntitlement)) (thrown error)
            (returned (run, e)) =
          ap (λ (o : Pair). o.0) went in
        cc

    go :
        (out : Pair)
        → out ≡ (returned (run, e), after)
        → Loaded runtime now run_id w out
        → IsVerified runtime now run_id w run e
    go _ went missing = never run_not_found w went
    go _ went late = never snapshot_expired w went
    go _ went (forged other) = never snapshot_tampered _ went
    go _ went (verified run' e' v) =
        let same : Path (Outcome (AgentRun × AgentRunEntitlement)) (returned (run', e'))
            (returned (run, e)) =
          ap (λ (o : Pair). o.0) went in
        let pair : Path (AgentRun × AgentRunEntitlement) (run', e') (run, e) = cc in
        let same_run : run' ≡ run = ap (λ (q : AgentRun × AgentRunEntitlement). q.0) pair in
        let same_e : e' ≡ e = ap (λ (q : AgentRun × AgentRunEntitlement). q.1) pair in
        rw (← same_run, ← same_e) v

-- The snapshot of the run allows the capability.
pub record IsEntitled (runtime : Runtime) (registry : RbacRegistry) (now : ℕ)
    (input : ExecuteCapabilityInput) (w : World) : Type 0 where
  pub run : AgentRun
  pub entitlement : AgentRunEntitlement
  pub capability : CapabilityView
  pub verified : IsVerified runtime now input.run_id w run entitlement
  pub known : get_capability registry input.capability_id ≡ some capability
  pub satisfied : IsSatisfied capability entitlement.permissions

-- An error, with the business tables, the runs, their events and the snapshots as they were.
pub record IsRefused {A : Type 0} (w : World) (out : Outcome A × World) : Type 0 where
  pub error : ServiceError
  pub thrown_error : out.0 ≡ thrown error
  pub nova_same : out.1.nova ≡ w.nova
  pub runs_same : out.1.agents.runs ≡ w.agents.runs
  pub entitlements_same : out.1.agents.entitlements ≡ w.agents.entitlements
  pub events_same : out.1.agents.events ≡ w.agents.events

IsRefused-audit :
    {A : Type 0}
    → (error : ServiceError) (row : ToolAuditInput) (w : World)
    → IsRefused {A = A} w (thrown error, audit row w)
unfolding record_tool_audit
IsRefused-audit error row w = record {
  error = error;
  thrown_error = refl;
  nova_same = refl;
  runs_same = refl;
  entitlements_same = refl;
  events_same = refl;
}

IsRefused-same :
    {A : Type 0} → (error : ServiceError) (w : World) → IsRefused {A = A} w (thrown error, w)
IsRefused-same error w = record {
  error = error;
  thrown_error = refl;
  nova_same = refl;
  runs_same = refl;
  entitlements_same = refl;
  events_same = refl;
}

module _ (runtime : Runtime) (registry : RbacRegistry) {R : Type 0}
    (execute : String → Json → AuthContext → Action R) (now : ℕ) (input : ExecuteCapabilityInput)
    (w : World) where
  -- Whatever the executor does, either the run is stored with its snapshot intact and in time, and
  -- the snapshot's permissions satisfy the capability, or the call ends with an error and leaves
  -- the business tables, the runs, their events and the snapshots as they were.
  pub execute_capability-guard :
      IsEntitled runtime registry now input w
      ⊎ IsRefused w (execute_capability runtime registry execute now input w)
  unfolding execute_capability
  execute_capability-guard = go _ refl (load_verified-Loaded runtime now input.run_id w)
    where
      go :
          (out : Outcome (AgentRun × AgentRunEntitlement) × World)
          → load_verified runtime now input.run_id w ≡ out
          → Loaded runtime now input.run_id w out
          → IsEntitled runtime registry now input w
            ⊎ IsRefused w (execute_capability runtime registry execute now input w)
      go _ e missing = inr (rw e (IsRefused-same run_not_found w))
      go _ e late = inr (rw e (IsRefused-same snapshot_expired w))
      go _ e (forged run) = inr (rw e (IsRefused-audit snapshot_tampered (mismatch_row run) w))
      go _ e (verified run entitlement v) =
          elim (Option-cases (get_capability registry input.capability_id)) [
            | inl unknown ↦ inr (rw (e, unknown) (IsRefused-audit not_entitled _ w))
            | inr (c, known) ↦
                elim (Bool-cases (permissions_satisfy_capability c entitlement.permissions)) [
                  | inr fails ↦ inr (rw (e, known, fails) (IsRefused-audit not_entitled _ w))
                  | inl passes ↦ inl (record {
                    run = run;
                    entitlement = entitlement;
                    capability = c;
                    verified = v;
                    known = known;
                    satisfied = (satisfy_iff c entitlement.permissions).0 passes;
                  })
                ]
          ]
