-- ===== src/Harness/Run/Laws.antt =====
-- What a run that an accepted request starts returns, and what it did.
use semantic_intelligence_la.Base.Times.{Time}
use semantic_intelligence_la.Agents.{RunRequest}
use semantic_intelligence_la.RunStore.Records.{Record}
use semantic_intelligence_la.Harness.Requests.{normalize_request}
use semantic_intelligence_la.Harness.Steps.{
  saved, Service, World, Outcome, done, stopped, continue, finish, ◌>>=◌,
}
use semantic_intelligence_la.Harness.Phases.{run_summary_step}
use semantic_intelligence_la.Harness.Run.{
  Progress, with_step, steps_of, with_summary, evidence_budget, completed_at, run_phases, summarize,
  after_summary, after_phases, saved_result, completed_record, after_first_save, first_progress,
  plan_of, Looped, new_run, run_normalized, run_investigation,
}
use semantic_intelligence_la.Harness.Finish.{save}
use semantic_intelligence_la.Harness.Gate.{IsGated, Stopped, Post, goes_on, ends}
use semantic_intelligence_la.Harness.Run.Endings.{
  IsCompleted, SavedLast, Ended, EndsGated, finish_run_with_error-EndsGated,
}
use mathlib.Core.Path.{subst}
use semantic_intelligence_la.Base.{
  Bool-cases, length, All, CharTables, Error, ok, ℕ, suc, ◌+◌, ◌<◌, ◌≡◌, refl, inl, inr, Option,
  none, some, [], ◌∷◌, arith,
}
use semantic_intelligence_la.Harness.Run.Loop.{
  UnderWay, LoopEnds, run_phases-LoopEnds, evidence_budget-with_summary, evidence_budget_le,
  Summarized, summed-Post,
}

module _ (s : Service) ⦃u : CharTables⦄ (request : RunRequest) where
  abbrev most : ℕ
  most = steps_of request.max_steps

  -- the last save
  saved-EndsGated :
      (r : Record) (w : World) (at : Time) (answer : Option Error)
      → s.upsert w.acts (completed_record s r at) ≡ answer
      → Summarized s request r w.acts
      → EndsGated s request.tenant_id most (
          saved_result s (completed_record s r at) (
            record w {
              reads = suc w.reads;
              acts = saved (completed_record s r at) answer ∷ w.acts;
            },
            answer,
          ))
  saved-EndsGated r w at none told under =
      (under.gated, ((w.acts, refl, told), refl, under.completed, under.count))
  saved-EndsGated r w at (some e) told under =
      (under.gated, (inl (w.acts, refl, told), under.count))

  completed-EndsGated :
      (p : Progress) (r : Record) (w : World)
      → Summarized s request r w.acts
      → EndsGated s request.tenant_id most (after_summary s p (done r w))
  unfolding save
  completed-EndsGated p r w under =
      let at = s.clock w.reads in
      saved-EndsGated r w at (s.upsert w.acts (completed_record s r at)) refl under

  summed-EndsGated :
      (p : Progress) (x : Outcome Record)
      → All IsCompleted p.record_so_far.steps
      → length p.record_so_far.steps < most
      → Post (Summarized s request) (Stopped request.tenant_id) x
      → EndsGated s request.tenant_id most (after_summary s p x)
  summed-EndsGated p (done r w) all few (goes_on under) = completed-EndsGated p r w under
  summed-EndsGated p (stopped step e w) all few (ends halted) =
      finish_run_with_error-EndsGated s request.tenant_id most p.record_so_far step e w halted all
        few

  summarized-EndsGated :
      (p : Progress) (w : World)
      → UnderWay s request (evidence_budget request) p w.acts
      → EndsGated s request.tenant_id most (after_summary s p (summarize s request p w))
  unfolding summarize
  summarized-EndsGated p w under =
      let count = under.count in
      elim (Bool-cases (with_summary request)) [
        | inl e ↦ rw e (
            let room = evidence_budget-with_summary s request e in
            summed-EndsGated p
              (continue
                (λ step. completed_at s step >>= λ at. finish (with_step p.record_so_far step at))
                (run_summary_step s p.record_so_far request p.hits p.access_events p.session_events
                  w))
              under.completed (omega (arith, count, room)) (summed-Post s request p w under e))
        | inr e ↦ rw e (
            let room = evidence_budget_le s request in
            completed-EndsGated p p.record_so_far w (record {
              of_tenant = under.of_tenant;
              completed = under.completed;
              count = omega (arith, count, room);
              gated = under.gated;
            }))
      ]

  after_phases-EndsGated :
      (looped : Looped)
      → LoopEnds s request (evidence_budget request) most looped
      → EndsGated s request.tenant_id most (after_phases s request looped)
  after_phases-EndsGated (w, inl p) under = summarized-EndsGated p w under
  after_phases-EndsGated (w, inr r) ended = ended

  first_saved-EndsGated :
      (at : Time) (w : World) (answer : Option Error)
      → SavedLast s (record { run = new_run s request at; steps = [] }) answer w.acts
      → IsGated request.tenant_id w.acts
      → EndsGated s request.tenant_id most (
          after_first_save s request
            (record { run = new_run s request at; steps = [] })
            (w, answer))
  first_saved-EndsGated at w (some e) last gated =
      (gated, (record { run = new_run s request at; steps = [] }, last, refl))
  first_saved-EndsGated at w none last gated =
      let r : Record = record { run = new_run s request at; steps = [] } in
      let budget = evidence_budget request in
      let first : Progress = first_progress s r in
      let room = evidence_budget_le s request in
      let same : 0 + budget ≡ budget = omega arith in
      let looped = run_phases s request (plan_of s request) budget first w in
      after_phases-EndsGated looped (
        subst (λ k. LoopEnds s request k most looped) same
          (run_phases-LoopEnds s request most (plan_of s request) budget 0 first w
            (record { of_tenant = refl; completed = tt; count = omega arith; gated = gated })
            (omega (arith, room))))

  run_normalized-EndsGated :
      (at : Time) (w : World)
      → IsGated request.tenant_id w.acts
      → EndsGated s request.tenant_id most (run_normalized s request at w)
  unfolding run_normalized save
  run_normalized-EndsGated at w gated =
      let r : Record = record { run = new_run s request at; steps = [] } in
      first_saved-EndsGated at (record w { acts = saved r (s.upsert w.acts r) ∷ w.acts })
        (s.upsert w.acts r) (w.acts, refl, refl) gated

module _ (s : Service) ⦃u : CharTables⦄ (request accepted : RunRequest) (w : World)
    (normal : normalize_request s.formats (s.clock w.reads) request ≡ ok accepted)
    (fresh : w.acts ≡ []) where
  accepted-EndsGated :
      EndsGated s accepted.tenant_id (steps_of accepted.max_steps) (run_investigation s request w)
  unfolding run_investigation
  accepted-EndsGated = rw normal (
      run_normalized-EndsGated s accepted (s.clock w.reads) (record w { reads = suc w.reads })
        (rw fresh tt))

  -- Take a run of RunInvestigation that starts with no act done, on a request that
  -- normalizeRequest accepts. Whatever the policy, the stores and the clock answer, every decision
  -- of the run is asked for with the request's tenant as the target. Every search of evidence,
  -- access events or sessions asks for that tenant, and the last decision asked for before it, in
  -- the same step, is an allowing one for the tool of that search in that tenant.
  pub run_investigation-IsGated : IsGated accepted.tenant_id (run_investigation s request w).0.acts
  run_investigation-IsGated = accepted-EndsGated.0

  -- Take a run of RunInvestigation that starts with no act done, on a request that
  -- normalizeRequest accepts. It returns the empty record only if the store refused its first
  -- save, of a record with no step. Else the record that it returns has at most MaxSteps steps,
  -- was the last one given to the store, and is in one of three states. With no error the store
  -- took it, the run is completed, and so is each step. With an error of the store alone the store
  -- refused it. With an error that stopped a step, all steps but the last are completed, the last
  -- is blocked and the run awaits approval if the error is that approval is required, and else
  -- both are failed; where the store refuses this record too, both errors are returned.
  pub run_investigation-Ended :
      Ended s
        (steps_of accepted.max_steps)
        (run_investigation s request w).0.acts
        (run_investigation s request w).1
  run_investigation-Ended = accepted-EndsGated.1
