-- ===== src/Runs/Service/Submit.antt =====
-- The submission of a run: `createRun` of agent-run.service.ts.
use at_nova_platform.Prelude.{
  ℕ, ◌+◌, ◌*◌, ◌/◌, ◌<◌, String, ◌==◌, ◌≡◌, refl, sym, ap, ◌∙◌, inl, inr, Bool, true, ◌&&◌, List,
  [], ◌∷◌, ◌++◌, Option, none, some, arith, find, Bool-cases, Option-cases, eq_refl,
}
use at_nova_platform.Rbac.{RbacRegistry}
use at_nova_platform.Runs.{
  AgentRun, AgentRunEntitlement, AgentsDb, find_by_owner_and_idempotency_key,
  find_run_with_entitlement,
}
use at_nova_platform.Runs.Snapshot.{
  Runtime, EntitlementSnapshot, build_entitlement_snapshot, compute_snapshot_hash,
}
use at_nova_platform.Runs.Store.{
  Conversation, NovaDb, World, ServiceError, conversation_not_found, Outcome, returned, thrown,
  and_then, find_for_user, create_conversation, add_message, UserWithRoles, resolve_current_user,
  given,
}
use at_nova_platform.Runs.Service.{
  AgentRunDto, to_agent_run_dto, FreshIds, CreateAgentRunInput, entitlement_row, run_row,
  insert_run, prompt_message, choose_conversation, snapshot_for, run_data, submit_in, submit,
  existing_or_new, to_dto, create_run,
}
use at_nova_platform.Runs.Gateway.{payload_of, load_verified}
use at_nova_platform.Runs.Store.Profile.{Settled, Settled-at, resolve_current_user-Settled}
use at_nova_platform.Runs.Gateway.Verify.{IsVerified, load_verified_of}

find-new :
    {A : Type 0} (p : A → Bool) (xs : List A) (x : A)
    → find p xs ≡ none
    → p x ≡ true
    → find p (xs ++ x ∷ []) ≡ some x
find-new p [] x absent passes = rw passes refl
find-new p (y ∷ ys) x absent passes = elim (Bool-cases (p y)) [
  | inl here ↦ let never : some y ≡ none = rw here at absent in cc
  | inr further ↦ rw further (find-new p ys x (rw further at absent) passes)
]

whole_seconds : (n : ℕ) → (n * 1000) / 1000 ≡ n
whole_seconds n = omega arith

module _ (runtime : Runtime) (registry : RbacRegistry) (run_ttl_seconds : ℕ) (now : ℕ)
    (ids : FreshIds) (input : CreateAgentRunInput) (u : UserWithRoles) where
  abbrev taken : EntitlementSnapshot
  taken = snapshot_for runtime registry run_ttl_seconds now u.user.id input.auth

  intact :
      compute_snapshot_hash runtime (payload_of (entitlement_row ids.entitlement_id taken))
      ≡ taken.snapshot_hash
  unfolding snapshot_for build_entitlement_snapshot
  intact = rw (whole_seconds (now / 1000), whole_seconds (now / 1000 + run_ttl_seconds)) refl

  row-IsVerified :
      (c : String) (agents : AgentsDb) (nova : NovaDb) (later : ℕ)
      → find (λ (r : AgentRun). ids.run_id == r.id) agents.runs ≡ none
      → find (λ (e : AgentRunEntitlement). ids.entitlement_id == e.id) agents.entitlements ≡ none
      → later < taken.expires_at
      → IsVerified runtime later ids.run_id
          (record {
            agents =
                insert_run ids (run_data runtime registry run_ttl_seconds now ids u input c) agents;
            nova = nova;
          })
          (run_row ids (run_data runtime registry run_ttl_seconds now ids u input c))
          (entitlement_row ids.entitlement_id taken)
  unfolding find_run_with_entitlement
  row-IsVerified c agents nova later no_run no_entitlement in_time =
      let the_run =
        find-new (λ (r : AgentRun). ids.run_id == r.id) agents.runs
          (run_row ids (run_data runtime registry run_ttl_seconds now ids u input c)) no_run
          (eq_refl ids.run_id) in
      let the_snapshot =
        find-new (λ (e : AgentRunEntitlement). ids.entitlement_id == e.id) agents.entitlements
          (entitlement_row ids.entitlement_id taken) no_entitlement (eq_refl ids.entitlement_id) in
      record { stored = rw (the_run, the_snapshot) refl; intact = intact; in_time = in_time }

  -- A submitted run, whose ids are new, verifies at the gateway until the snapshot expires: what
  -- the edge hashed is what the gateway hashes again.
  pub submit-load_verified :
      (later : ℕ) (w w' : World) (run : AgentRun)
      → find (λ (r : AgentRun). ids.run_id == r.id) w.agents.runs ≡ none
      → find (λ (e : AgentRunEntitlement). ids.entitlement_id == e.id) w.agents.entitlements ≡ none
      → submit runtime registry run_ttl_seconds now ids input u w ≡ (returned run, w')
      → later < taken.expires_at
      → load_verified runtime later ids.run_id w'
        ≡ (returned (run, entitlement_row ids.entitlement_id taken), w')
  submit-load_verified later w w' run no_run no_entitlement went in_time =
      go (choose_conversation ids u.user.id (given input.body_conversation_id) w.nova) went
    where
      go :
          (chosen : Option (Conversation × NovaDb))
          → submit_in runtime registry run_ttl_seconds now ids input u chosen w ≡ (returned run, w')
          → load_verified runtime later ids.run_id w'
            ≡ (returned (run, entitlement_row ids.entitlement_id taken), w')
      go none same =
          let never : Path (Outcome AgentRun) (thrown conversation_not_found) (returned run) =
            ap (λ (o : Outcome AgentRun × World). o.0) same in
          cc
      go (some (c, nova')) same =
          let data_in = run_data runtime registry run_ttl_seconds now ids u input c.id in
          let row : Path (Outcome AgentRun) (returned (run_row ids data_in)) (returned run) =
            ap (λ (o : Outcome AgentRun × World). o.0) same in
          let same_run : run_row ids data_in ≡ run = cc in
          let world = ap (λ (o : Outcome AgentRun × World). o.1) same in
          rw (← same_run, ← world)
            (load_verified_of runtime later ids.run_id _ (run_row ids data_in)
              (entitlement_row ids.entitlement_id taken)
              (row-IsVerified c.id w.agents
                (add_message (prompt_message ids c.id input.message) nova') later no_run
                no_entitlement in_time))

module _ (runtime : Runtime) (registry : RbacRegistry) (run_ttl_seconds : ℕ) where
  -- The user is resolved without a write, and the run of the key is there.
  repeated :
      (now : ℕ) (ids : FreshIds) (input : CreateAgentRunInput) (w : World) (run : AgentRun)
      → Settled input.auth w.nova
      → find_by_owner_and_idempotency_key w.agents input.auth.subject input.idempotency_key
        ≡ some run
      → create_run runtime registry run_ttl_seconds now ids input w
        ≡ (returned (to_agent_run_dto run), w)
  unfolding create_run
  repeated now ids input w run settled there =
      let (u, resolved) = Settled-at ids.user_id input.auth w.nova settled in
      rw (resolved, there) refl

-- Choosing a conversation leaves the users alone.
choose_conversation-users :
    (ids : FreshIds) (user_id : String) (wanted : Option String) (db db' : NovaDb)
    (c : Conversation)
    → choose_conversation ids user_id wanted db ≡ some (c, db')
    → db'.users ≡ db.users
choose_conversation-users ids user_id none db db' c e =
    let same : Path (Conversation × NovaDb)
        (
          record { id = ids.conversation_id; user_id = user_id },
          create_conversation (record { id = ids.conversation_id; user_id = user_id }) db,
        )
        (c, db') =
      cc in
    sym (ap (λ (p : Conversation × NovaDb). p.1.users) same)
choose_conversation-users ids user_id (some id) db db' c e =
    elim (Option-cases (find_for_user db id user_id)) [
      | inl absent ↦
          let never : Path (Option (Conversation × NovaDb)) none (some (c, db')) =
            rw (absent, choose_conversation) at e in
          cc
      | inr (found, there) ↦
          let opt : Path (Option (Conversation × NovaDb)) (some (found, db)) (some (c, db')) =
            rw (there, choose_conversation) at e in
          let same : Path (Conversation × NovaDb) (found, db) (c, db') = cc in
          sym (ap (λ (p : Conversation × NovaDb). p.1.users) same)
    ]

module _ (runtime : Runtime) (registry : RbacRegistry) (run_ttl_seconds : ℕ) (now later : ℕ)
    (ids more_ids : FreshIds) (input : CreateAgentRunInput) (text : String)
    (wanted : Option String) where
  abbrev again : CreateAgentRunInput
  again = record input { message = text; body_conversation_id = wanted }

  abbrev Reply : Type 0
  Reply = Outcome AgentRunDto × World

  abbrev second : World → Reply
  second = create_run runtime registry run_ttl_seconds later more_ids again

  -- The second answer is the first one, where the first one is known.
  settle :
      (d dto : AgentRunDto) (v w' : World)
      → Path Reply (returned d, v) (returned dto, w')
      → second v ≡ (returned d, v)
      → second w' ≡ (returned dto, w')
  settle d dto v w' same answer = sym (ap (λ (o : Reply). second o.1) same) ∙ answer ∙ same

  refused :
      (dto : AgentRunDto) (e : ServiceError) (v w' : World)
      → Path Reply (thrown e, v) (returned dto, w')
      → second w' ≡ (returned dto, w')
  refused dto e v w' same =
      let absurdity : Path (Outcome AgentRunDto) (thrown e) (returned dto) =
        ap (λ (o : Reply). o.0) same in
      cc

  submitted :
      (u : UserWithRoles) (nova : NovaDb) (w w' : World) (dto : AgentRunDto)
      → resolve_current_user ids.user_id input.auth nova ≡ (returned u, w.nova)
      → find_by_owner_and_idempotency_key w.agents input.auth.subject input.idempotency_key ≡ none
      → (chosen : Option (Conversation × NovaDb))
      → choose_conversation ids u.user.id (given input.body_conversation_id) w.nova ≡ chosen
      → to_dto runtime registry run_ttl_seconds
          (submit_in runtime registry run_ttl_seconds now ids input u chosen w)
        ≡ (returned dto, w')
      → second w' ≡ (returned dto, w')
  unfolding find_by_owner_and_idempotency_key
  submitted u nova w w' dto resolved absent none e went =
      refused dto conversation_not_found w w' went
  submitted u nova w w' dto resolved absent (some (c, nova')) e went =
      let data_in = run_data runtime registry run_ttl_seconds now ids u input c.id in
      let users =
        choose_conversation-users ids u.user.id (given input.body_conversation_id) w.nova nova' c
          e in
      settle _ dto _ w' went (
        repeated runtime registry run_ttl_seconds later more_ids again
          (record {
            agents = insert_run ids data_in w.agents;
            nova = add_message (prompt_message ids c.id input.message) nova';
          })
          (run_row ids data_in)
          (resolve_current_user-Settled ids.user_id input.auth nova w.nova _ u resolved users)
          (find-new
            (λ (r : AgentRun).
              input.auth.subject == r.owner_subject && input.idempotency_key == r.idempotency_key)
            w.agents.runs (run_row ids data_in) absent
            (rw (eq_refl input.auth.subject, eq_refl input.idempotency_key) refl)))

  -- After a submission that went through, another one of the same caller with the same key, at any
  -- time and with any text, returns the same run, and changes no table.
  pub create_run-again :
      (w w' : World) (dto : AgentRunDto)
      → create_run runtime registry run_ttl_seconds now ids input w ≡ (returned dto, w')
      → create_run runtime registry run_ttl_seconds later more_ids
          (record input { message = text; body_conversation_id = wanted })
          w'
        ≡ (returned dto, w')
  unfolding create_run
  create_run-again w w' dto went = go _ refl went
    where
      go :
          (r : Outcome UserWithRoles × NovaDb)
          → resolve_current_user ids.user_id input.auth w.nova ≡ r
          → and_then
              (r.0, record w { nova = r.1 })
              (λ (u : UserWithRoles) v.
                existing_or_new runtime registry run_ttl_seconds now ids input u
                  (find_by_owner_and_idempotency_key v.agents input.auth.subject
                    input.idempotency_key)
                  v)
            ≡ (returned dto, w')
          → second w' ≡ (returned dto, w')
      go (thrown e, nova) resolved same = refused dto e _ w' same
      go (returned u, nova) resolved same =
          elim (Option-cases
            (find_by_owner_and_idempotency_key w.agents input.auth.subject input.idempotency_key)) [
              | inl absent ↦
                  submitted u w.nova (record w { nova = nova }) w' dto resolved absent _ refl
                    (rw absent at same)
              | inr (run, there) ↦ settle _ dto _ w' (rw there at same) (
                  repeated runtime registry run_ttl_seconds later more_ids again
                    (record w { nova = nova }) run
                    (resolve_current_user-Settled ids.user_id input.auth w.nova nova nova u resolved
                      refl)
                    there)
            ]
