-- ===== src/Harness/Coordinator.antt =====
-- NewService, StartRun, ContinueRun and GetRun, of which the first two wire and start
-- RunInvestigation and the others read what it saved. A nil service is left out, and the
-- dependencies that no function reads.
pub mod Laws
use semantic_intelligence_la.Base.Times.{Time}
use semantic_intelligence_la.Agents.{Run, RunRequest}
use semantic_intelligence_la.Policy.{Action, Decision, evaluate, new_default_evaluator}
use semantic_intelligence_la.RunStore.Records.{Record}
use semantic_intelligence_la.Contracts.Retrieval.{Hit}
use semantic_intelligence_la.Contracts.Access
use semantic_intelligence_la.Contracts.Sessions
use semantic_intelligence_la.Query.Filters.{RetrievalQuery}
use semantic_intelligence_la.SessionStore
use semantic_intelligence_la.AccessStore
use semantic_intelligence_la.Harness.Formats.{Formats}
use semantic_intelligence_la.Harness.Timeline.{first_non_empty}
use semantic_intelligence_la.Harness.Steps.{Act, Service, World}
use semantic_intelligence_la.Harness.Finish.{Returned, refused, returned, joined}
use semantic_intelligence_la.Harness.Run.{run_investigation}
use semantic_intelligence_la.Base.{
  Text, codes, CharTables, trim_space, Error, required, Result, ok, err, ◌>>=◌, ◌>>◌, ℕ, ◌-◌,
  Option, none, some, List, [], ◌∷◌, arith,
}

-- Dependencies: what is nil is `none`
pub record Dependencies : Type 0 where
  pub policy : Option (Option Run → Action → Result Decision)
  pub runs : Option (List Act → Record → Option Error)
  pub retrieval : Option (List Act → RetrievalQuery → Result (List Hit))
  pub access : Option (List Act → AccessStore.Query → Result (List Access.Event))
  pub sessions : Option (List Act → SessionStore.Query → Result (List Sessions.Event))
  pub runtime_name : Text
  pub planner_name : Text

abbrev default_harness_runtime : Text
default_harness_runtime = codes "deterministic-harness"

abbrev default_harness_planner : Text
default_harness_planner = codes "deterministic-investigation-v1"

abbrev given {ℓ} : {A : Type ℓ} → Text → Option A → Result A
given what none = err (required what)
given what (some a) = ok a

abbrev policy_or_default :
    Option (Option Run → Action → Result Decision) → Option Run → Action → Result Decision
policy_or_default none run action = ok (evaluate new_default_evaluator run action)
policy_or_default (some policy) run action = policy run action

-- NewService, with what the program takes from its environment
unfoldable pub new_service : Formats → (Error → Text) → (ℕ → Time) → Dependencies → Result Service
unfolding first_non_empty evaluate
new_service formats error_text clock deps = do
  upsert ← given (codes "agent run store") deps.runs
  retrieval ← given (codes "retrieval service") deps.retrieval
  ok (record {
    formats = formats;
    error_text = error_text;
    clock = clock;
    policy = policy_or_default deps.policy;
    upsert = upsert;
    retrieval = retrieval;
    access = deps.access;
    sessions = deps.sessions;
    runtime_name = first_non_empty (trim_space deps.runtime_name ∷ default_harness_runtime ∷ []);
    planner_name = first_non_empty (trim_space deps.planner_name ∷ default_harness_planner ∷ []);
  })

-- the run of the record that is returned, `none` for that of the empty record
abbrev pub run_of : Returned → Option Run
run_of (refused e) = none
run_of (returned r e) = some r.run
run_of (joined r e persist_err) = some r.run

-- the error that is returned with it, or the two that are joined
abbrev pub errors_of : Returned → List Error
errors_of (refused e) = e ∷ []
errors_of (returned r none) = []
errors_of (returned r (some e)) = e ∷ []
errors_of (joined r e persist_err) = e ∷ persist_err ∷ []

abbrev as_started : World × Returned → World × Option Run × List Error
as_started (w, r) = (w, run_of r, errors_of r)

unfoldable pub start_run :
    Service → ⦃u : CharTables⦄ → RunRequest → World → World × Option Run × List Error
unfolding run_investigation
start_run s request w = as_started (run_investigation s request w)

-- GetRun, of which `get` is the store's Get
unfoldable pub get_run : (Text → Result Record) → Text → Result Record
get_run get run_id = get run_id

unfoldable pub continue_run : (Text → Result Record) → Text → Result Run
unfolding get_run
continue_run get run_id = do r ← get_run get run_id; ok r.run
