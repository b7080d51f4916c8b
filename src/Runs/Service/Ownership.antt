-- ===== src/Runs/Service/Ownership.antt =====
-- The ownership check: agent-run.service.ts. What a caller is told does not depend on foreign runs.
use at_nova_platform.Prelude.{
  ℕ, zero, suc, length, String, ◌==◌, ◌≡◌, refl, ap, inl, inr, Bool, true, ◌&&◌, ◌||◌, List, [],
  ◌∷◌, some, arith, find, filter, Bool-cases, Option-cases,
}
use at_nova_platform.Rbac.Authorize.{AuthContext}
use at_nova_platform.Runs.{
  AgentRun, AgentsDb, find_by_id_for_owner, is_terminal, same_conversation,
  list_for_owner_and_conversation, list_user_events_after, list_all_user_events, request_cancel,
  pages, last_sequence, user_event_page_size,
}
use at_nova_platform.Runs.Store.{
  World, ServiceError, run_not_found, missing_subject, returned, thrown,
}
use at_nova_platform.Runs.Service.{
  to_agent_run_dto, require_owned_run, get_run, cancel_run, get_event_batch,
  list_runs_for_conversation, get_run_trace, max_event_batch,
}

module _ {A : Type 0} where
  find-and :
      (p q : A → Bool) (xs : List A)
      → find (λ x. p x && q x) (filter q xs) ≡ find (λ x. p x && q x) xs
  find-and p q [] = refl
  find-and p q (x ∷ xs) = let rest = find-and p q xs in ground arith

  filter-twice :
      (p q : A → Bool) (xs : List A)
      → filter (λ x. q x && p x) (filter q xs) ≡ filter (λ x. q x && p x) xs
  filter-twice p q [] = refl
  filter-twice p q (x ∷ xs) = let rest = filter-twice p q xs in ground arith

  pub found-passes : (p : A → Bool) (xs : List A) (x : A) → find p xs ≡ some x → p x ≡ true
  found-passes p [] x found = cc
  found-passes p (y ∷ ys) x found = elim (Bool-cases (p y)) [
    | inl here ↦
        let there : some y ≡ some x = rw here at found in let this : y ≡ x = cc in rw (← this) here
    | inr further ↦ found-passes p ys x (rw further at found)
  ]

-- The world without the runs of the other owners.
abbrev pub only_own : String → World → World
only_own subject w = record w {
  agents = record w.agents {
    runs = filter (λ (r : AgentRun). subject == r.owner_subject) w.agents.runs;
  };
}

module _ (run_id : String) (auth : AuthContext) (w : World) where
  own : World
  own = only_own auth.subject w

  owned_same :
      find_by_id_for_owner (only_own auth.subject w).agents run_id auth.subject
      ≡ find_by_id_for_owner w.agents run_id auth.subject
  unfolding find_by_id_for_owner
  owned_same =
      find-and (λ (r : AgentRun). run_id == r.id)
        (λ (r : AgentRun). auth.subject == r.owner_subject) w.agents.runs

  -- The ownership check ends alike in both worlds, and changes neither.
  data SameCheck : Type 0 where
    both_thrown :
        (e : ServiceError)
        → require_owned_run run_id auth w ≡ (thrown e, w)
        → require_owned_run run_id auth (only_own auth.subject w)
          ≡ (thrown e, only_own auth.subject w)
        → SameCheck
    both_found :
        (run : AgentRun)
        → require_owned_run run_id auth w ≡ (returned run, w)
        → require_owned_run run_id auth (only_own auth.subject w)
          ≡ (returned run, only_own auth.subject w)
        → SameCheck

  same_check : SameCheck
  unfolding require_owned_run
  same_check = elim (Bool-cases (auth.subject == "")) [
    | inl empty ↦ both_thrown missing_subject (rw empty refl) (rw empty refl)
    | inr named ↦ elim (Option-cases (find_by_id_for_owner w.agents run_id auth.subject)) [
      | inl absent ↦
          both_thrown run_not_found (rw (named, absent) refl) (rw (named, owned_same, absent) refl)
      | inr (run, found) ↦
          both_found run (rw (named, found) refl) (rw (named, owned_same, found) refl)
    ]
  ]

  same_cancel :
      (run : AgentRun) (db more : AgentsDb)
      → (request_cancel run db).0 ≡ (request_cancel run more).0
  unfolding request_cancel
  same_cancel run db more = elim (Bool-cases (is_terminal run.status || run.cancel_requested)) [
    | inl over ↦ rw over refl
    | inr going ↦ rw going refl
  ]

  same_list :
      list_for_owner_and_conversation (only_own auth.subject w).agents auth.subject run_id
      ≡ list_for_owner_and_conversation w.agents auth.subject run_id
  unfolding list_for_owner_and_conversation
  same_list =
      filter-twice (λ (r : AgentRun). same_conversation run_id r.conversation_id)
        (λ (r : AgentRun). auth.subject == r.owner_subject) w.agents.runs

  same_page :
      (n limit : ℕ) (detailed : Bool)
      → list_user_events_after (only_own auth.subject w).agents run_id n limit detailed
        ≡ list_user_events_after w.agents run_id n limit detailed
  unfolding list_user_events_after
  same_page n limit detailed = refl

  same_pages :
      (fuel n : ℕ) (detailed : Bool)
      → pages fuel (only_own auth.subject w).agents run_id detailed n
        ≡ pages fuel w.agents run_id detailed n
  unfolding pages list_user_events_after
  same_pages zero n detailed = refl
  same_pages (suc fuel) n detailed =
      let next =
        last_sequence n (list_user_events_after w.agents run_id n user_event_page_size detailed) in
      rw (same_page n user_event_page_size detailed, same_pages fuel next detailed) refl

  same_trace :
      (detailed : Bool)
      → list_all_user_events (only_own auth.subject w).agents run_id detailed
        ≡ list_all_user_events w.agents run_id detailed
  unfolding list_all_user_events
  same_trace detailed = same_pages (suc (length w.agents.events)) 0 detailed

-- The reads and the cancellation give the same answers in both worlds.
pub record SameAnswers (run_id : String) (auth : AuthContext) (w v : World) : Type 0 where
  pub got : (get_run run_id auth w).0 ≡ (get_run run_id auth v).0
  pub traced :
      (detailed : Bool)
      → (get_run_trace run_id auth detailed w).0 ≡ (get_run_trace run_id auth detailed v).0
  pub batched :
      (n : ℕ) (detailed : Bool)
      → (get_event_batch run_id n auth detailed w).0 ≡ (get_event_batch run_id n auth detailed v).0
  pub canceled_alike : (cancel_run run_id auth w).0 ≡ (cancel_run run_id auth v).0
  pub listed :
      (conversation_id : String)
      → (list_runs_for_conversation conversation_id auth w).0
        ≡ (list_runs_for_conversation conversation_id auth v).0

-- What the caller is told does not depend on the runs of other owners: every read, and the
-- cancellation, answers as in a world without them, so that a foreign run is as good as missing.
pub only_own-SameAnswers :
    (run_id : String) (auth : AuthContext) (w : World)
    → SameAnswers run_id auth w (only_own auth.subject w)
unfolding get_run get_run_trace get_event_batch cancel_run list_runs_for_conversation
only_own-SameAnswers run_id auth w = record {
  got = elim (same_check run_id auth w) [
    | both_thrown e here there ↦ rw (here, there) refl
    | both_found run here there ↦ rw (here, there) refl
  ];
  traced = λ detailed. elim (same_check run_id auth w) [
    | both_thrown e here there ↦ rw (here, there) refl
    | both_found run here there ↦ rw (here, there, same_trace run_id auth w detailed) refl
  ];
  batched = λ n detailed. elim (same_check run_id auth w) [
    | both_thrown e here there ↦ rw (here, there) refl
    | both_found run here there ↦
        rw (here, there, same_page run_id auth w n max_event_batch detailed) refl
  ];
  canceled_alike = elim (same_check run_id auth w) [
    | both_thrown e here there ↦ rw (here, there) refl
    | both_found run here there ↦
        rw (here, there)
          (ap (λ r. returned (to_agent_run_dto r)) (same_cancel run_id auth w run _ _))
  ];
  listed = λ conversation_id. elim (Bool-cases (auth.subject == "")) [
    | inl empty ↦ rw empty refl
    | inr named ↦ rw (named, same_list conversation_id auth w) refl
  ];
}
