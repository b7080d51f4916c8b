-- ===== src/Runs/Service/Cancel.antt =====
-- The cancellation of a run: `cancelRun` of agent-run.service.ts and `requestCancel` of
-- agent-run.repository.ts.
use at_nova_platform.Prelude.{
  String, ◌==◌, ◌≡◌, refl, sym, ap, ◌∙◌, ◌⊎◌, inl, inr, Bool, true, false, not, ◌&&◌, ◌||◌, List,
  [], ◌∷◌, map, none, some, arith, find, filter, In, In-find, find-map, Bool-cases, Option-cases,
  eq_refl, eq_iff,
}
use at_nova_platform.Rbac.Authorize.{AuthContext}
use at_nova_platform.Runs.{
  AgentRun, is_owned, find_by_id_for_owner, is_terminal, cancel_row, request_cancel,
}
use at_nova_platform.Runs.Store.{World, run_not_found, missing_subject, Outcome, returned, thrown}
use at_nova_platform.Runs.Service.{AgentRunDto, to_agent_run_dto, require_owned_run, cancel_run}
use at_nova_platform.Runs.Service.Ownership.{found-passes}

-- The runs with another id.
abbrev pub other_runs : String → World → List AgentRun
other_runs run_id w = filter (λ (r : AgentRun). not (run_id == r.id)) w.agents.runs

-- A run of the caller is over or asked to end, nothing else of it or of the tables is different, a
-- run that was over changes nothing, and a second request gives the same answer and changes nothing.
pub record IsCanceled (run_id : String) (auth : AuthContext) (w : World) (dto : AgentRunDto)
    (after : World) : Type 0 where
  pub run : AgentRun
  pub stored : In run w.agents.runs
  pub asked_for : run.id ≡ run_id
  pub owned : run.owner_subject ≡ auth.subject
  pub updated : AgentRun
  pub kept : In updated after.agents.runs
  pub only_flag : updated ≡ record run { cancel_requested = updated.cancel_requested }
  pub ending : (is_terminal updated.status || updated.cancel_requested) ≡ true
  pub answered : dto ≡ to_agent_run_dto updated
  pub over_kept : (is_terminal run.status ≡ false) ⊎ (after ≡ w)
  pub others : other_runs run_id after ≡ other_runs run_id w
  pub rest : after ≡ record w { agents = record w.agents { runs = after.agents.runs } }
  pub again : cancel_run run_id auth after ≡ (returned dto, after)

-- How a cancellation ends.
pub data Canceled (run_id : String) (auth : AuthContext) (w : World)
    : Outcome AgentRunDto × World → Type 0 where
  nameless : auth.subject ≡ "" → Canceled run_id auth w (thrown missing_subject, w)
  not_owned :
      find (λ (r : AgentRun). run_id == r.id && auth.subject == r.owner_subject) w.agents.runs
        ≡ none
      → Canceled run_id auth w (thrown run_not_found, w)
  canceled :
      (dto : AgentRunDto) (after : World)
      → IsCanceled run_id auth w dto after
      → Canceled run_id auth w (returned dto, after)

filter-cancel_row :
    (id run_id : String) (runs : List AgentRun)
    → id ≡ run_id
    → filter (λ (r : AgentRun). not (run_id == r.id)) (map (cancel_row id) runs)
      ≡ filter (λ (r : AgentRun). not (run_id == r.id)) runs
filter-cancel_row id run_id [] same = refl
filter-cancel_row id run_id (r ∷ runs) same =
    let rest = filter-cancel_row id run_id runs same in
    elim (Bool-cases (run_id == r.id)) [
      | inl here ↦ rw (same, here, here) rest
      | inr other ↦ rw (same, other, other) (ap (λ rs. r ∷ rs) rest)
    ]

module _ (run_id : String) (auth : AuthContext) (w : World) where
  owned_parts :
      (run : AgentRun)
      → find_by_id_for_owner w.agents run_id auth.subject ≡ some run
      → In run w.agents.runs × (run.id ≡ run_id) × (run.owner_subject ≡ auth.subject)
  unfolding find_by_id_for_owner
  owned_parts run found =
      let passes = found-passes (is_owned run_id auth.subject) w.agents.runs run found in
      (
        In-find (is_owned run_id auth.subject) run w.agents.runs found,
        sym ((eq_iff run_id run.id).0 (ground arith)),
        sym ((eq_iff auth.subject run.owner_subject).0 (ground arith)),
      )

  cancel_found :
      (v : World) (run : AgentRun)
      → (auth.subject == "") ≡ false
      → find_by_id_for_owner v.agents run_id auth.subject ≡ some run
      → cancel_run run_id auth v ≡ (
        returned (to_agent_run_dto (request_cancel run v.agents).0),
        record v { agents = (request_cancel run v.agents).1 },
      )
  unfolding cancel_run require_owned_run
  cancel_found v run named found = rw (named, found) refl

  -- A run that is over or asked to end: nothing changes.
  ended :
      (run : AgentRun)
      → (auth.subject == "") ≡ false
      → find_by_id_for_owner w.agents run_id auth.subject ≡ some run
      → (is_terminal run.status || run.cancel_requested) ≡ true
      → (cancel_run run_id auth w ≡ (returned (to_agent_run_dto run), w))
        × IsCanceled run_id auth w (to_agent_run_dto run) w
  unfolding request_cancel
  ended run named found over =
      let went = cancel_found w run named found ∙ rw over refl in
      let (stored, asked_for, owned) = owned_parts run found in
      (
        went,
        record {
          run = run;
          stored = stored;
          asked_for = asked_for;
          owned = owned;
          updated = run;
          kept = stored;
          only_flag = refl;
          ending = over;
          answered = refl;
          over_kept = inr refl;
          others = refl;
          rest = refl;
          again = went;
        },
      )

  abbrev asked : AgentRun → AgentRun
  asked run = record run { cancel_requested = true }

  abbrev after_cancel : AgentRun → World
  after_cancel run = record w {
    agents = record w.agents { runs = map (cancel_row run.id) w.agents.runs };
  }

  found_again :
      (run : AgentRun)
      → find_by_id_for_owner w.agents run_id auth.subject ≡ some run
      → find_by_id_for_owner (after_cancel run).agents run_id auth.subject ≡ some (asked run)
  unfolding find_by_id_for_owner
  found_again run found =
      let mapped =
        find-map (is_owned run_id auth.subject) (cancel_row run.id) w.agents.runs run
          (λ y. ground arith) found in
      rw (mapped, eq_refl run.id) refl

  or_true : (b : Bool) → (b || true) ≡ true
  or_true true = refl
  or_true false = refl

  -- Another run is asked to end, and the second request finds it so.
  requested :
      (run : AgentRun)
      → (auth.subject == "") ≡ false
      → find_by_id_for_owner w.agents run_id auth.subject ≡ some run
      → (is_terminal run.status || run.cancel_requested) ≡ false
      → (cancel_run run_id auth w ≡ (returned (to_agent_run_dto (asked run)), after_cancel run))
        × IsCanceled run_id auth w (to_agent_run_dto (asked run)) (after_cancel run)
  unfolding request_cancel find_by_id_for_owner
  requested run named found going =
      let (stored, asked_for, owned) = owned_parts run found in
      let again = found_again run found in
      let over = or_true (is_terminal run.status) in
      (
        cancel_found w run named found ∙ rw going refl,
        record {
          run = run;
          stored = stored;
          asked_for = asked_for;
          owned = owned;
          updated = asked run;
          kept =
              In-find (is_owned run_id auth.subject) (asked run) (after_cancel run).agents.runs
                again;
          only_flag = refl;
          ending = over;
          answered = refl;
          over_kept = inl (ground arith);
          others = filter-cancel_row run.id run_id w.agents.runs asked_for;
          rest = refl;
          again = cancel_found (after_cancel run) (asked run) named again ∙ rw over refl;
        },
      )

-- A cancellation ends in one of three ways. A caller without a subject, and one who owns no run with
-- the id, get an error, and nothing changes. Otherwise a run with the id that the caller owns is
-- over or asked to end afterwards, as the answer says, with only that flag changed; a run that was
-- over changes nothing; the runs with other ids and all other tables are as they were; and a second
-- cancellation answers the same and changes nothing.
pub cancel_run-Canceled :
    (run_id : String) (auth : AuthContext) (w : World)
    → Canceled run_id auth w (cancel_run run_id auth w)
unfolding cancel_run require_owned_run find_by_id_for_owner
cancel_run-Canceled run_id auth w = elim (Bool-cases (auth.subject == "")) [
  | inl empty ↦ rw empty (nameless ((eq_iff auth.subject "").0 empty))
  | inr named ↦ elim (Option-cases (find_by_id_for_owner w.agents run_id auth.subject)) [
    | inl absent ↦ rw (named, absent) (not_owned absent)
    | inr (run, found) ↦ elim (Bool-cases (is_terminal run.status || run.cancel_requested)) [
      | inl over ↦ of_cancel (ended run_id auth w run named found over)
      | inr going ↦ of_cancel (requested run_id auth w run named found going)
    ]
  ]
]
  where
    of_cancel :
        {dto : AgentRunDto} {after : World}
        → (cancel_run run_id auth w ≡ (returned dto, after)) × IsCanceled run_id auth w dto after
        → Canceled run_id auth w (cancel_run run_id auth w)
    of_cancel {dto} {after} (went, is_canceled) = rw went (canceled dto after is_canceled)
