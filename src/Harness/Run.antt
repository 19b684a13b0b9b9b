-- ===== src/Harness/Run.antt =====
-- RunInvestigation: the loop over the planned phases, the budget of steps and the summary. A nil
-- context or service and the log lines are left out.
pub mod Endings
pub mod Loop
pub mod Laws
use semantic_intelligence_la.Harness.Steps.{
  Act, saved, Service, World, Outcome, done, stopped, Doing, finish, ◌>>=◌, now,
}
use semantic_intelligence_la.Harness.Phases.{
  run_retrieval_step, run_access_step, run_session_step, run_summary_step,
}
use semantic_intelligence_la.Harness.Plan.{
  Phase, retrieve, access, sessions, build_investigation_plan,
}
use semantic_intelligence_la.Harness.Requests.{normalize_request, compose_id}
use semantic_intelligence_la.Base.Times.{Time, ℤ, pos, negsuc}
use semantic_intelligence_la.Agents.{Run, RunStatus, Step, StepStatus, RunRequest}
use semantic_intelligence_la.RunStore.Records.{Record}
use semantic_intelligence_la.Contracts.Retrieval.{Hit}
use semantic_intelligence_la.Contracts.Access
use semantic_intelligence_la.Contracts.Sessions
use semantic_intelligence_la.Base.{
  ltb, if◌then◌else◌, codes, CharTables, Error, Result, ok, err, ℕ, zero, suc, ◌+◌, ◌-◌, ◌⊎◌, inl,
  inr, Bool, true, false, Option, none, some, List, [], ◌∷◌, ◌++◌, arith,
}
use semantic_intelligence_la.Harness.Finish.{
  Returned, refused, returned, save, finish_run_with_error,
}

-- the variables of the loop
pub record Progress : Type 0 where
  pub record_so_far : Record
  pub hits : List Hit
  pub access_events : List Access.Event
  pub session_events : List Sessions.Event

-- the loop ends, or RunInvestigation returns in it
abbrev pub Looped : Type 0
Looped = World × (Progress ⊎ Returned)

-- record.Steps = append(record.Steps, step); record.Run.UpdatedAt = completedAt(step)
abbrev pub with_step : Record → Step → Time → Record
with_step r step at = record {
  run = record r.run { updated_at = at };
  steps = r.steps ++ step ∷ [];
}

-- the evidence budget of an accepted request, whose MaxSteps is not negative
abbrev pub steps_of : ℤ → ℕ
steps_of (pos n) = n
steps_of (negsuc _) = 0

abbrev pub with_summary : RunRequest → Bool
with_summary request = ltb 1 (steps_of request.max_steps)

abbrev pub evidence_budget : RunRequest → ℕ
evidence_budget request =
    if with_summary request then steps_of request.max_steps - 1 else steps_of request.max_steps

module _ (s : Service) where
  -- completedAt
  unfoldable pub completed_at : Step → Doing Time
  unfolding now
  completed_at step = elim step.completed_at [ some t ↦ finish t | none ↦ now s ]

  module _ ⦃u : CharTables⦄ where
    -- one case of the `switch phase`
    unfoldable pub run_phase : RunRequest → Phase → Progress → Doing Progress
    unfolding run_retrieval_step run_access_step run_session_step completed_at
    run_phase request retrieve p = do
      (hits, step) ← run_retrieval_step s p.record_so_far request
      at ← completed_at step
      finish (record p { record_so_far = with_step p.record_so_far step at; hits = hits })
    run_phase request access p = do
      (events, step) ← run_access_step s p.record_so_far request p.hits
      at ← completed_at step
      finish
          (record p { record_so_far = with_step p.record_so_far step at; access_events = events })
    run_phase request sessions p = do
      (events, step) ← run_session_step s p.record_so_far request p.hits
      at ← completed_at step
      finish
          (record p { record_so_far = with_step p.record_so_far step at; session_events = events })

    abbrev stop_with : World × Returned → Looped
    stop_with (w, r) = (w, inr r)

    abbrev pub after_save : (Progress → World → Looped) → Progress → World × Option Error → Looped
    after_save go p (w, none) = go p w
    after_save go p (w, some e) = (w, inr (returned p.record_so_far (some e)))

    abbrev pub after_phase : (Progress → World → Looped) → Progress → Outcome Progress → Looped
    after_phase go p (done next w) = after_save go next (save s next.record_so_far w)
    after_phase go p (stopped step e w) =
        stop_with (finish_run_with_error s p.record_so_far step e w)

    unfoldable pub run_phases : RunRequest → List Phase → ℕ → Progress → World → Looped
    unfolding save finish_run_with_error run_phase
    run_phases request [] budget p w = (w, inl p)
    run_phases request (phase ∷ phases) zero p w = (w, inl p)
    run_phases request (phase ∷ phases) (suc budget) p w =
        after_phase (run_phases request phases budget) p (run_phase request phase p w)

    -- `if runSummary { … }`
    unfoldable pub summarize : RunRequest → Progress → Doing Record
    unfolding run_summary_step completed_at
    summarize request p =
        if with_summary request
        then (do
          step ← run_summary_step s p.record_so_far request p.hits p.access_events p.session_events
          at ← completed_at step
          finish (with_step p.record_so_far step at))
        else finish p.record_so_far

    abbrev pub completed_record : Record → Time → Record
    completed_record r at = record r {
      run = record r.run { status = RunStatus.completed; updated_at = at; completed_at = some at };
    }

    abbrev pub saved_result : Record → World × Option Error → World × Returned
    saved_result r (w, e) = (w, returned r e)

    abbrev pub after_summary : Progress → Outcome Record → World × Returned
    after_summary p (stopped step e w) = finish_run_with_error s p.record_so_far step e w
    after_summary p (done r w) =
        let final = completed_record r (s.clock w.reads) in
        saved_result final (save s final (record w { reads = suc w.reads }))

    abbrev pub after_phases : RunRequest → Looped → World × Returned
    after_phases request (w, inr r) = (w, r)
    after_phases request (w, inl p) = after_summary p (summarize request p w)

    -- the run that is saved before the first step
    abbrev pub new_run : RunRequest → Time → Run
    new_run request at = record {
      id = compose_id s.formats (codes "run") (request.tenant_id ∷ request.session_id ∷ []) at;
      tenant_id = request.tenant_id;
      case_id = request.case_id;
      session_id = request.session_id;
      goal = request.goal;
      status = RunStatus.running;
      runtime_name = s.runtime_name;
      planner_name = s.planner_name;
      started_at = at;
      updated_at = at;
      completed_at = none;
    }

    abbrev pub first_progress : Record → Progress
    first_progress r = record {
      record_so_far = r;
      hits = [];
      access_events = [];
      session_events = [];
    }

    abbrev is_some {ℓ} : {A : Type ℓ} → Option A → Bool
    is_some none = false
    is_some (some _) = true

    abbrev pub plan_of : RunRequest → List Phase
    plan_of request = build_investigation_plan request (is_some s.access) (is_some s.sessions)

    abbrev pub after_first_save : RunRequest → Record → World × Option Error → World × Returned
    after_first_save request r (w, some e) = (w, refused e)
    after_first_save request r (w, none) =
        after_phases request
          (run_phases request (plan_of request) (evidence_budget request) (first_progress r) w)

    -- what follows on the normalized request
    unfoldable pub run_normalized : RunRequest → Time → World → World × Returned
    unfolding run_phases summarize save
    run_normalized request at w =
        let first : Record = record { run = new_run request at; steps = [] } in
        after_first_save request first (save s first w)

    abbrev pub after_normalize : Time → Result RunRequest → World → World × Returned
    after_normalize at (err e) w = (w, refused e)
    after_normalize at (ok request) w = run_normalized request at w

    unfoldable pub run_investigation : RunRequest → World → World × Returned
    unfolding run_normalized
    run_investigation request w =
        let at = s.clock w.reads in
        after_normalize at (normalize_request s.formats at request)
          (record w { reads = suc w.reads })
