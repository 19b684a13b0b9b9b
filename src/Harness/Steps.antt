-- ===== src/Harness/Steps.antt =====
-- What the steps of a run do: evaluate, decisionError, startStep and the calls of the services.
-- What a run does to its surroundings is a list of acts, the latest first. The services answer
-- from the acts so far, so an answer may change while a run goes on.
use semantic_intelligence_la.Base.Times.{Time}
use semantic_intelligence_la.Agents.{Run, Step, StepStatus, EvidenceRef}
use semantic_intelligence_la.Policy.{Action, Decision, allow, require_approval, deny, DecisionState}
use semantic_intelligence_la.RunStore.Records.{Record}
use semantic_intelligence_la.Contracts.Retrieval.{Hit}
use semantic_intelligence_la.Contracts.Access
use semantic_intelligence_la.Contracts.Sessions
use semantic_intelligence_la.AccessStore
use semantic_intelligence_la.SessionStore
use semantic_intelligence_la.Query.{
  search_evidence, search_network_access_events, search_network_sessions,
}
use semantic_intelligence_la.Query.Filters.{RetrievalQuery}
use semantic_intelligence_la.Harness.Formats.{Formats}
use semantic_intelligence_la.Harness.Requests.{compose_id}
use semantic_intelligence_la.Base.{
  Text, codes, CharTables, Error, unsupported, approval_required, policy_denied, Result, ok, err, ℕ,
  suc, false, Option, none, some, List, [], ◌∷◌,
}

pub data Act : Type 0 where
  evaluated : Action → Result Decision → Act  -- policy.Evaluate
  searched_evidence : RetrievalQuery → Act  -- retrieval.SearchEvidence
  searched_access : AccessStore.Query → Act  -- access.SearchNetworkAccessEvents
  searched_sessions : SessionStore.Query → Act  -- sessions.SearchNetworkSessions
  saved : Record → Option Error → Act  -- runs.Upsert, and its error

-- harness.Service: the stores behind the query services, nil where they are `none`
pub record Service : Type 0 where
  pub formats : Formats
  pub error_text : Error → Text  -- err.Error()
  pub clock : ℕ → Time  -- the n-th reading of time.Now
  pub policy : Option Run → Action → Result Decision
  pub upsert : List Act → Record → Option Error
  pub retrieval : List Act → RetrievalQuery → Result (List Hit)
  pub access : Option (List Act → AccessStore.Query → Result (List Access.Event))
  pub sessions : Option (List Act → SessionStore.Query → Result (List Sessions.Event))
  pub runtime_name : Text
  pub planner_name : Text

pub record World : Type 0 where
  pub reads : ℕ
  pub acts : List Act

-- a step ends with a value, or with itself and an error, in a world
pub data Outcome {ℓ} (A : Type ℓ) : Type ℓ where
  done : A → World → Outcome A
  stopped : Step → Error → World → Outcome A

abbrev pub Doing {ℓ} : Type ℓ → Type ℓ
Doing A = World → Outcome A

abbrev pub finish {ℓ} : {A : Type ℓ} → A → Doing A
finish a w = done a w

abbrev pub continue {ℓ κ} : {A : Type ℓ} {B : Type κ} → (A → Doing B) → Outcome A → Outcome B
continue k (done a w) = k a w
continue k (stopped step e w) = stopped step e w

infixl 5 ◌>>=◌
abbrev pub ◌>>=◌ {ℓ κ} : {A : Type ℓ} {B : Type κ} → Doing A → (A → Doing B) → Doing B
◌>>=◌ m k w = continue k (m w)

infixl 5 ◌>>◌
abbrev pub ◌>>◌ {ℓ} : {B : Type ℓ} → Doing (Unit {0}) → Doing B → Doing B
◌>>◌ m k = m >>= λ _. k

-- `if err != nil { return nil, step, err }`
abbrev pub check {ℓ} : {A : Type ℓ} → Step → Result A → Doing A
check step (ok a) w = done a w
check step (err e) w = stopped step e w

abbrev pub perform : Act → World → World
perform act w = record w { acts = act ∷ w.acts }

-- decisionError
unfoldable pub decision_error : Decision → Option Error
decision_error d = elim d.state [
  | allow ↦ none
  | require_approval ↦ some approval_required
  | deny ↦ some policy_denied
  | DecisionState.other s ↦ some (unsupported (codes "policy decision") s)
]

abbrev obey : Step → Decision → Option Error → Doing (Unit {0})
obey step d none w = done tt w
obey step d (some e) w = stopped (record step { summary = d.reason }) e w

abbrev pub decided : Step → Result Decision → Doing (Unit {0})
decided step (err e) w = stopped step e w
decided step (ok d) w = obey step d (decision_error d) w

module _ (s : Service) where
  -- time.Now().UTC()
  unfoldable pub now : Doing Time
  now w = done (s.clock w.reads) (record w { reads = suc w.reads })

  -- the action that `evaluate` puts together, on the run's own tenant
  unfoldable pub action_of : Run → Step → Action
  action_of run step = record {
    run_id = run.id;
    session_id = run.session_id;
    step_id = step.id;
    tool = record {
      name = step.tool_name;
      description = step.tool_name;
      requires_approval = false;
    };
    target_tenant_id = run.tenant_id;
    reason = [];
  }

  -- `evaluate` and `decisionError`, which every step starts with
  unfoldable pub authorize : Run → Step → Doing (Unit {0})
  unfolding action_of decision_error
  authorize run step w =
      decided step (s.policy (some run) (action_of run step))
        (perform (evaluated (action_of run step) (s.policy (some run) (action_of run step))) w)

  module _ ⦃u : CharTables⦄ where
    abbrev pub new_step : Text → Text → Text → Text → Text → Time → Step
    new_step run_id suffix kind summary tool_name at = record {
      id = compose_id s.formats (codes "step") (run_id ∷ suffix ∷ []) at;
      kind = kind;
      summary = summary;
      tool_name = tool_name;
      status = StepStatus.running;
      evidence = [];
      started_at = at;
      completed_at = none;
    }

    unfoldable pub start_step : Text → Text → Text → Text → Text → Doing Step
    unfolding now
    start_step run_id suffix kind summary tool_name = do
      at ← now
      finish (new_step run_id suffix kind summary tool_name at)

    -- the last lines of a step that went well
    unfoldable pub complete_step : Step → Text → List EvidenceRef → Doing Step
    unfolding now
    complete_step step summary evidence = do
      finished ← now
      finish (record step {
        status = StepStatus.completed;
        completed_at = some finished;
        summary = summary;
        evidence = evidence;
      })

    -- service.retrieval.SearchEvidence
    unfoldable pub call_retrieval : Step → RetrievalQuery → Doing (List Hit)
    call_retrieval step query w =
        check step (search_evidence (some (s.retrieval w.acts)) query)
          (perform (searched_evidence query) w)

    -- service.access.SearchNetworkAccessEvents
    unfoldable pub call_access :
        (List Act → AccessStore.Query → Result (List Access.Event))
        → Step
        → AccessStore.Query
        → Doing (List Access.Event)
    call_access store step query w =
        check step (search_network_access_events (some (store w.acts)) query)
          (perform (searched_access query) w)

    -- service.sessions.SearchNetworkSessions
    unfoldable pub call_sessions :
        (List Act → SessionStore.Query → Result (List Sessions.Event))
        → Step
        → SessionStore.Query
        → Doing (List Sessions.Event)
    call_sessions store step query w =
        check step (search_network_sessions (some (store w.acts)) query)
          (perform (searched_sessions query) w)
