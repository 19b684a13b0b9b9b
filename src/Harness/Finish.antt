-- ===== src/Harness/Finish.antt =====
-- What RunInvestigation returns, the save of a record, and finishRunWithError.
use semantic_intelligence_la.Harness.Steps.{saved, Service, World}
use semantic_intelligence_la.Base.Times.{Time}
use semantic_intelligence_la.Agents.{RunStatus, Step, StepStatus}
use semantic_intelligence_la.RunStore.Records.{Record}
use semantic_intelligence_la.Base.{
  if◌then◌else◌, is_empty, is_blank, Error, approval_required, wrapped, suc, Bool, true, false,
  Option, none, some, [], ◌∷◌, ◌++◌,
}

-- what RunInvestigation returns
pub data Returned : Type 0 where
  refused : Error → Returned  -- the empty record and an error
  returned : Record → Option Error → Returned
  joined : Record → Error → Error → Returned  -- errors.Join of the run's error and the store's

-- errors.Is(err, ErrApprovalRequired)
unfoldable pub is_approval_required : Error → Bool
is_approval_required approval_required = true
is_approval_required (wrapped _ e) = is_approval_required e
is_approval_required _ = false

-- the status that finishRunWithError gives the run, and the one it gives the step; a denial and
-- any other error fail both
abbrev pub run_status_after : Error → RunStatus
run_status_after e =
    if is_approval_required e then RunStatus.awaiting_approval else RunStatus.failed

abbrev pub step_status_after : Error → StepStatus
step_status_after e = if is_approval_required e then StepStatus.blocked else StepStatus.failed

abbrev is_failed : RunStatus → Bool
is_failed RunStatus.failed = true
is_failed _ = false

module _ (s : Service) where
  -- service.runs.Upsert
  unfoldable pub save : Record → World → World × Option Error
  save r w = (record w { acts = saved r (s.upsert w.acts r) ∷ w.acts }, s.upsert w.acts r)

  -- the step that finishRunWithError appends, if it has an id
  abbrev pub failed_step : Step → Error → Time → Step
  failed_step step e at = record step {
    status = step_status_after e;
    completed_at = some at;
    summary = if is_blank step.summary then s.error_text e else step.summary;
  }

  abbrev pub failed_record : Record → Step → Error → Time → Record
  failed_record r step e at = if is_empty step.id then r else record {
    run = record r.run { status = run_status_after e };
    steps = r.steps ++ failed_step step e at ∷ [];
  }

  abbrev pub closed : Record → Time → Record
  closed r at = record r {
    run = record r.run {
      updated_at = at;
      completed_at = if is_failed r.run.status then some at else r.run.completed_at;
    };
  }

  abbrev pub or_joined : Record → Error → Option Error → Returned
  or_joined r e none = returned r (some e)
  or_joined r e (some persist_err) = joined r e persist_err

  unfoldable pub finish_run_with_error : Record → Step → Error → World → World × Returned
  unfolding save
  finish_run_with_error r step e w =
      let at = s.clock w.reads in
      let final = closed (failed_record r step e at) at in
      let (after, persist_err) = save final (record w { reads = suc w.reads }) in
      (after, or_joined final e persist_err)
