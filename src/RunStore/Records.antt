-- ===== src/RunStore/Records.antt =====
-- Records, and how the store normalises, checks and copies them.
use semantic_intelligence_la.Base.Times.{Time, is_zero, after}
use semantic_intelligence_la.Agents.{Run, RunStatus, Step, StepStatus, EvidenceRef}
use semantic_intelligence_la.Base.{
  ltb, ◌==◌, if◌then◌else◌, codes, trim_space, is_blank, required, invalid, Result, ok, ◌>>◌,
  fail_if, sort_by, less_text, Bool, true, false, not, ◌&&◌, Option, none, some, List, [], ◌∷◌, map,
}

pub record Record : Type 0 where
  pub run : Run
  pub steps : List Step

unfoldable pub valid_run_status : RunStatus → Bool
valid_run_status (RunStatus.other _) = false
valid_run_status _ = true

unfoldable pub valid_step_status : StepStatus → Bool
valid_step_status (StepStatus.other _) = false
valid_step_status _ = true

-- higher scores first, then smaller ids
unfoldable pub less_evidence : EvidenceRef → EvidenceRef → Bool
less_evidence left right =
    if left.score == right.score then less_text left.id right.id else ltb right.score left.score

unfoldable pub clone_evidence : List EvidenceRef → List EvidenceRef
clone_evidence = sort_by less_evidence

unfoldable pub clone_step : Step → Step
unfolding clone_evidence
clone_step step = record step { evidence = clone_evidence step.evidence }

unfoldable pub clone_record : Record → Record
unfolding clone_step
clone_record r = record r { steps = map clone_step r.steps }

unfoldable pub normalize_run : Run → Run
normalize_run run = record run {
  id = trim_space run.id;
  tenant_id = trim_space run.tenant_id;
  case_id = trim_space run.case_id;
  session_id = trim_space run.session_id;
  goal = trim_space run.goal;
  runtime_name = trim_space run.runtime_name;
  planner_name = trim_space run.planner_name;
}

unfoldable pub normalize_step : Step → Step
unfolding clone_evidence
normalize_step step = record step {
  id = trim_space step.id;
  kind = trim_space step.kind;
  summary = trim_space step.summary;
  tool_name = trim_space step.tool_name;
  evidence = clone_evidence step.evidence;
}

unfoldable pub normalize_record : Record → Record
unfolding normalize_run normalize_step
normalize_record r = record { run = normalize_run r.run; steps = map normalize_step r.steps }

unfoldable pub validate_step : Step → Result (Unit {0})
unfolding valid_step_status
validate_step step = do
  fail_if (is_blank step.id) (required (codes "step.id"))
  fail_if (is_blank step.kind) (required (codes "step.kind"))
  fail_if (is_blank step.summary) (required (codes "step.summary"))
  fail_if (not (valid_step_status step.status)) (invalid (codes "step status"))
  fail_if (is_zero step.started_at) (required (codes "step.started_at"))

unfoldable pub validate_steps : List Step → Result (Unit {0})
unfolding validate_step
validate_steps [] = ok tt
validate_steps (step ∷ steps) = do validate_step step; validate_steps steps

unfoldable pub validate_run : Run → Result (Unit {0})
unfolding valid_run_status
validate_run run = do
  fail_if (is_blank run.id) (required (codes "run.id"))
  fail_if (is_blank run.tenant_id) (required (codes "run.tenant_id"))
  fail_if (is_blank run.session_id) (required (codes "run.session_id"))
  fail_if (is_blank run.goal) (required (codes "run.goal"))
  fail_if (not (valid_run_status run.status)) (invalid (codes "run status"))
  fail_if (is_zero run.started_at) (required (codes "run.started_at"))
  fail_if (is_zero run.updated_at) (required (codes "run.updated_at"))

unfoldable pub validate_record : Record → Result (Unit {0})
unfolding validate_run validate_steps
validate_record r = do validate_run r.run; validate_steps r.steps

-- the two tests of pickLatest on `CompletedAt` when both versions were updated at one instant
unfoldable pub completed_later : Option Time → Option Time → Bool
completed_later existing none = false
completed_later none (some _) = true
completed_later (some e) (some c) = after c e

unfoldable pub pick_latest : Record → Record → Record
pick_latest existing candidate =
    if after candidate.run.updated_at existing.run.updated_at
    then clone_record candidate
    else if candidate.run.updated_at == existing.run.updated_at
        && completed_later existing.run.completed_at candidate.run.completed_at
    then clone_record candidate
    else clone_record existing
