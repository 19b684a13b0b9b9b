-- ===== src/Harness/Run/Endings.antt =====
-- What the record of a run is when the run ends, and what a step that stops does to it.
use semantic_intelligence_la.Base.Times.{Time}
use semantic_intelligence_la.Agents.{RunStatus, Step, StepStatus}
use semantic_intelligence_la.RunStore.Records.{Record}
use semantic_intelligence_la.Harness.Steps.{Act, saved, Service, World}
use semantic_intelligence_la.Harness.Finish.{
  Returned, refused, returned, joined, is_approval_required, run_status_after, step_status_after,
  save, finish_run_with_error, failed_record, failed_step, closed,
}
use semantic_intelligence_la.Harness.Gate.{IsGated, Stopped}
use semantic_intelligence_la.Base.{
  Bool-cases, Option-cases, length, is_empty, All, length-append, Text, Error, ℕ, suc, ◌≤◌, ◌<◌,
  ◌≡◌, refl, ◌⊎◌, inl, inr, true, false, Option, none, some, List, [], ◌∷◌, ◌++◌, arith,
}

abbrev pub IsCompleted : Step → Type 0
IsCompleted step = step.status ≡ StepStatus.completed

-- the last act saved the record, with that answer of the store
abbrev pub SavedLast : Service → Record → Option Error → List Act → Type 0
SavedLast s r answer acts =
    (before : List Act) × (acts ≡ saved r answer ∷ before) × (s.upsert before r ≡ answer)

-- what the error makes of the run and of the step that it stopped: they wait for an approval if it
-- says that one is required, and have failed else
abbrev pub EndedAs : Error → RunStatus → StepStatus → Type 0
EndedAs e run step =
    ((is_approval_required e ≡ true)
      × (run ≡ RunStatus.awaiting_approval)
      × (step ≡ StepStatus.blocked))
    ⊎ ((is_approval_required e ≡ false) × (run ≡ RunStatus.failed) × (step ≡ StepStatus.failed))

-- the error stopped the last step, and the steps before it are completed
pub record StoppedBy (e : Error) (r : Record) : Type 0 where
  pub before : List Step
  pub last : Step
  pub steps : r.steps ≡ before ++ last ∷ []
  pub statuses : EndedAs e r.run.status last.status
  pub completed : All IsCompleted before

EndedAs-after : (e : Error) → EndedAs e (run_status_after e) (step_status_after e)
EndedAs-after e = elim (Bool-cases (is_approval_required e)) [
  | inl waits ↦ rw waits (inl (refl, refl, refl))
  | inr fails ↦ rw fails (inr (refl, refl, refl))
]

-- what an accepted run returns: refused only by the store, at its first save, and else a record of
-- at most so many steps, with the store's answer to it and what stopped the run
abbrev pub Ended : Service → ℕ → List Act → Returned → Type 0
Ended s most acts (refused e) = (r : Record) × SavedLast s r (some e) acts × (r.steps ≡ [])
Ended s most acts (returned r none) =
    SavedLast s r none acts
    × (r.run.status ≡ RunStatus.completed)
    × All IsCompleted r.steps
    × (length r.steps ≤ most)
Ended s most acts (returned r (some e)) =
    (SavedLast s r (some e) acts ⊎ (SavedLast s r none acts × StoppedBy e r))
    × (length r.steps ≤ most)
Ended s most acts (joined r e persist_err) =
    SavedLast s r (some persist_err) acts × StoppedBy e r × (length r.steps ≤ most)

abbrev pub EndsGated : Service → Text → ℕ → World × Returned → Type 0
EndsGated s tenant most (w, r) = IsGated tenant w.acts × Ended s most w.acts r

module _ (s : Service) (r : Record) (step : Step) (e : Error) (at : Time) where
  stopped_record :
      is_empty step.id ≡ false
      → All IsCompleted r.steps
      → StoppedBy e (closed s (failed_record s r step e at) at)
  stopped_record has_id all = rw has_id (record {
    before = r.steps;
    last = failed_step s step e at;
    steps = refl;
    statuses = EndedAs-after e;
    completed = all;
  })

  stopped_length :
      is_empty step.id ≡ false
      → length (closed s (failed_record s r step e at) at).steps ≡ suc (length r.steps)
  stopped_length has_id =
      rw has_id (omega (arith, length-append {0} r.steps (failed_step s step e at ∷ [])))

pub finish_run_with_error-EndsGated :
    (s : Service) (tenant : Text) (most : ℕ) (r : Record) (step : Step) (e : Error) (w : World)
    → Stopped tenant step w.acts
    → All IsCompleted r.steps
    → length r.steps < most
    → EndsGated s tenant most (finish_run_with_error s r step e w)
unfolding finish_run_with_error save
finish_run_with_error-EndsGated s tenant most r step e w (has_id, gated) all few =
    let at = s.clock w.reads in
    let final : Record = closed s (failed_record s r step e at) at in
    let count : length final.steps ≤ most =
      let same = stopped_length s r step e at has_id in omega (arith, same, few) in
    let stopped_by : StoppedBy e final = stopped_record s r step e at has_id all in
    elim (Option-cases (s.upsert w.acts final)) [
      | inl p ↦ rw p (gated, (inr ((w.acts, refl, p), stopped_by), count))
      | inr (e2, p) ↦ rw p (gated, ((w.acts, refl, p), stopped_by, count))
    ]
