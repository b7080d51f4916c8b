-- ===== src/Runs/Gateway/Trail.antt =====
-- The calls that went through, and the verified snapshot: tool-gateway.service.ts.
use at_nova_platform.Prelude.{
  ℕ, String, ◌==◌, ◌≡◌, refl, sym, ap, ◌∙◌, inl, inr, true, ◌↔◌, ◌++◌, filter, has, List, [], ◌∷◌,
  map, Option, none, some, find, Bool-cases, Option-cases,
}
use at_nova_platform.Json.{Json}
use at_nova_platform.Rbac.{CapabilityView, RbacRegistry, get_capability, known_roles}
use at_nova_platform.Rbac.Resolve.{IsSatisfied, satisfy_iff}
use at_nova_platform.Rbac.Authorize.{AuthContext}
use at_nova_platform.Runs.{
  AgentRun, AgentRunEntitlement, ToolAuditInput, allow, record_tool_audit,
  find_run_with_entitlement, entitlement_of, run_and_entitlement,
}
use at_nova_platform.Runs.Snapshot.{Runtime}
use at_nova_platform.Runs.Store.{
  World, ServiceError, run_not_found, snapshot_tampered, snapshot_expired, not_entitled, Outcome,
  returned, thrown, Action, and_then,
}
use at_nova_platform.Runs.Gateway.{
  ExecuteCapabilityInput, audit, mismatch_row, load_verified, auth_from_snapshot, is_entitled,
  allowed_row, execute_capability,
}
use at_nova_platform.Runs.Gateway.Verify.{
  IsVerified, Loaded, verified, missing, late, forged, load_verified-Loaded, load_verified_of,
  IsVerified-of,
}

module _ (runtime : Runtime) (registry : RbacRegistry) {R : Type 0}
    (execute : String → Json → AuthContext → Action R) (now : ℕ) (input : ExecuteCapabilityInput)
    (w : World) where
  -- Whom the executor acts for: the owner of the snapshot, pinned to the user that it names.
  abbrev pub acting : AgentRunEntitlement → AuthContext
  acting e = record {
    subject = e.owner_subject;
    email = none;
    given_name = none;
    family_name = none;
    roles = filter (λ role. has role registry.role_set) e.roles;
    permissions = e.permissions;
    application_user_id = some e.owner_user_id;
  }

  -- The success of a call on behalf of a run's owner.
  abbrev pub success_row : AgentRun → ToolAuditInput
  success_row run = record {
    run_id = run.id;
    owner_subject = run.owner_subject;
    actor = "nova-celery-worker";
    action = "tool.invoke";
    capability = some input.capability_id;
    decision = allow;
    reason = none;
  }

  abbrev pub with_row : ToolAuditInput → World → World
  with_row row v = record v {
    agents = record v.agents { audit_log = v.agents.audit_log ++ row ∷ [] };
  }

  -- A verified run may use the capability, the executor ran for its owner and returned, and one row
  -- was added after it.
  pub record IsTrailed (result : R) (after : World) : Type 0 where
    pub run : AgentRun
    pub entitlement : AgentRunEntitlement
    pub capability : CapabilityView
    pub middle : World
    pub verified_run : IsVerified runtime now input.run_id w run entitlement
    pub known : get_capability registry input.capability_id ≡ some capability
    pub satisfied : IsSatisfied capability entitlement.permissions
    pub executed :
        execute input.capability_id input.input (acting entitlement) w ≡ (returned result, middle)
    pub recorded : after ≡ with_row (success_row run) middle

  abbrev with_snapshot : AgentRunEntitlement → Outcome R × World
  with_snapshot e = execute input.capability_id input.input (auth_from_snapshot registry e) w

  with_snapshot-acting :
      (e : AgentRunEntitlement)
      → with_snapshot e ≡ execute input.capability_id input.input (acting e) w
  unfolding known_roles
  with_snapshot-acting e = refl

  audit-success_row :
      (run : AgentRun) (v : World)
      → audit (allowed_row run input.capability_id) v ≡ with_row (success_row run) v
  unfolding record_tool_audit
  audit-success_row run v = refl

  not_thrown :
      {C : Type 0} (error : ServiceError) (v : World) (result : R) (after : World)
      → Path (Outcome R × World) (thrown error, v) (returned result, after)
      → C
  not_thrown error v result after went =
      let never : Path (Outcome R) (thrown error) (returned result) =
        ap (λ (o : Outcome R × World). o.0) went in
      cc

  abbrev finished : AgentRun → Outcome R × World → Outcome R × World
  finished run out =
      and_then out λ (r : R) w''. (returned r, audit (allowed_row run input.capability_id) w'')

  ran :
      (run : AgentRun) (e : AgentRunEntitlement) (c : CapabilityView) (result : R) (after : World)
      → IsVerified runtime now input.run_id w run e
      → get_capability registry input.capability_id ≡ some c
      → IsSatisfied c e.permissions
      → (out : Outcome R × World) → with_snapshot e ≡ out
      → finished run out ≡ (returned result, after)
      → IsTrailed result after
  ran run e c result after v known satisfied (returned r, middle) did went =
      let same : Path (Outcome R) (returned r) (returned result) =
        ap (λ (o : Outcome R × World). o.0) went in
      let same_result : r ≡ result = cc in
      record {
        run = run;
        entitlement = e;
        capability = c;
        middle = middle;
        verified_run = v;
        known = known;
        satisfied = satisfied;
        executed = sym (with_snapshot-acting e) ∙ did ∙ ap (λ x. (returned x, middle)) same_result;
        recorded = sym (ap (λ (o : Outcome R × World). o.1) went) ∙ audit-success_row run middle;
      }
  ran run e c result after v known satisfied (thrown error, middle) did went =
      not_thrown error middle result after went

  entitled_capability :
      (found : Option CapabilityView) (permissions : List String)
      → is_entitled found permissions ≡ true
      → (c : CapabilityView) × (found ≡ some c) × IsSatisfied c permissions
  entitled_capability none permissions h = cc
  entitled_capability (some c) permissions h = (c, refl, (satisfy_iff c permissions).0 h)

  trailed :
      (result : R) (after : World)
      → execute_capability runtime registry execute now input w ≡ (returned result, after)
      → IsTrailed result after
  unfolding execute_capability
  trailed result after went = go _ refl (load_verified-Loaded runtime now input.run_id w)
    where
      go :
          (out : Outcome (AgentRun × AgentRunEntitlement) × World)
          → load_verified runtime now input.run_id w ≡ out
          → Loaded runtime now input.run_id w out
          → IsTrailed result after
      go _ e missing = not_thrown run_not_found w result after (rw e at went)
      go _ e late = not_thrown snapshot_expired w result after (rw e at went)
      go _ e (forged run) =
          not_thrown snapshot_tampered (audit (mismatch_row run) w) result after (rw e at went)
      go _ e (verified run entitlement v) =
          let found = get_capability registry input.capability_id in
          elim (Bool-cases (is_entitled found entitlement.permissions)) [
            | inr fails ↦ not_thrown not_entitled _ result after (rw (e, fails) at went)
            | inl passes ↦
                let (c, known, satisfied) =
                  entitled_capability found entitlement.permissions passes in
                ran run entitlement c result after v known satisfied _ refl (rw (e, passes) at went)
          ]

  returns :
      (result : R) (after : World)
      → IsTrailed result after
      → execute_capability runtime registry execute now input w ≡ (returned result, after)
  unfolding execute_capability
  returns result after t =
      let loaded = load_verified_of runtime now input.run_id w t.run t.entitlement t.verified_run in
      let passes : is_entitled (get_capability registry input.capability_id)
            t.entitlement.permissions
          ≡ true =
        ap (λ o. is_entitled o t.entitlement.permissions) t.known
        ∙ (satisfy_iff t.capability t.entitlement.permissions).1 t.satisfied in
      let did = with_snapshot-acting t.entitlement ∙ t.executed in
      rw (loaded, passes)
        (ap (finished t.run) did
          ∙ ap (λ v. (returned result, v)) (audit-success_row t.run t.middle ∙ sym t.recorded))

  -- A call returns a result and leaves a world if and only if its run has a snapshot that is intact and
  -- in time, whose permissions satisfy the capability, the executor, acting for the subject and the
  -- user that the snapshot names with its permissions, returned the result, and the world is the
  -- one that it left with one more audit row at the end, which allows the capability to the run.
  pub execute_capability-IsTrailed :
      (result : R) (after : World)
      → (execute_capability runtime registry execute now input w ≡ (returned result, after))
        ↔ IsTrailed result after
  execute_capability-IsTrailed result after = (trailed result after, returns result after)

-- Another user id in every stored snapshot.
abbrev pub reassigned : String → AgentRunEntitlement → AgentRunEntitlement
reassigned user_id e = record e { owner_user_id = user_id }

abbrev pub reassign : String → World → World
reassign user_id w = record w {
  agents = record w.agents { entitlements = map (reassigned user_id) w.agents.entitlements };
}

module _ (runtime : Runtime) (now : ℕ) (run_id user_id : String) (w : World) where
  find-reassigned :
      (id : String) (es : List AgentRunEntitlement)
      → (e : AgentRunEntitlement) → find (λ (d : AgentRunEntitlement). id == d.id) es ≡ some e
      → find (λ (d : AgentRunEntitlement). id == d.id) (map (reassigned user_id) es)
        ≡ some (reassigned user_id e)
  find-reassigned id [] e found = cc
  find-reassigned id (d ∷ es) e found = elim (Bool-cases (id == d.id)) [
    | inl here ↦
        let same : some d ≡ some e = rw here at found in
        let same_row : d ≡ e = cc in rw (here, same_row) refl
    | inr further ↦ rw further (find-reassigned id es e (rw further at found))
  ]

  some_pair :
      (r run : AgentRun) (d e : AgentRunEntitlement)
      → Path (Option (AgentRun × AgentRunEntitlement)) (some (r, d)) (some (run, e))
      → Path
          (Option (AgentRun × AgentRunEntitlement))
          (some (r, reassigned user_id d))
          (some (run, reassigned user_id e))
  some_pair r run d e same =
      let pair : Path (AgentRun × AgentRunEntitlement) (r, d) (run, e) = cc in
      ap (λ (q : AgentRun × AgentRunEntitlement). some (q.0, reassigned user_id q.1)) pair

  stored-reassigned :
      (found : Option AgentRun) (run : AgentRun) (e : AgentRunEntitlement)
      → run_and_entitlement w.agents found ≡ some (run, e)
      → run_and_entitlement (reassign user_id w).agents found ≡ some (run, reassigned user_id e)
  stored-reassigned none run e stored = cc
  stored-reassigned (some r) run e stored = elim (Option-cases (entitlement_of w.agents r)) [
    | inl absent ↦ let never : none ≡ some (run, e) = rw absent at stored in cc
    | inr (d, there) ↦
        rw (find-reassigned r.entitlement_snapshot_id w.agents.entitlements d there)
          (some_pair r run d e (rw there at stored))
  ]

  -- The hash does not cover the user whom the services will act for: in a world where every
  -- snapshot names another user, a verified run is verified still, and hands that user on.
  pub load_verified-reassign :
      (run : AgentRun) (e : AgentRunEntitlement)
      → load_verified runtime now run_id w ≡ (returned (run, e), w)
      → load_verified runtime now run_id (reassign user_id w)
        ≡ (returned (run, reassigned user_id e), reassign user_id w)
  unfolding find_run_with_entitlement
  load_verified-reassign run e loaded =
      let v = IsVerified-of runtime now run_id w w run e loaded in
      load_verified_of runtime now run_id (reassign user_id w) run (reassigned user_id e) (record {
        stored =
            stored-reassigned (find (λ (r : AgentRun). run_id == r.id) w.agents.runs) run e
              v.stored;
        intact = v.intact;
        in_time = v.in_time;
      })
