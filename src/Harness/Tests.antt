-- ===== src/Harness/Tests.antt =====
-- Runs of the harness on a service with one session event, and the theorems at concrete inputs.
use semantic_intelligence_la.Base.Times.{Time, pos}
use semantic_intelligence_la.Agents.{RunRequest}
use semantic_intelligence_la.Policy.{evaluate, new_default_evaluator}
use semantic_intelligence_la.Contracts.Retrieval.{Hit}
use semantic_intelligence_la.SessionStore
use semantic_intelligence_la.SessionStore.Tests as SessionTests
use semantic_intelligence_la.Storage.JsonLines.{background}
use semantic_intelligence_la.Harness.Formats.{Formats}
use semantic_intelligence_la.Harness.Plan.{build_investigation_plan, key_query}
use semantic_intelligence_la.Harness.Plan.Laws.{IsPlan, build_investigation_plan-IsPlan}
use semantic_intelligence_la.Harness.Requests.{normalize_request}
use semantic_intelligence_la.Harness.Requests.Laws.{IsRunnable, normalize_request-IsRunnable}
use semantic_intelligence_la.Base.Dict.{lookup, insert}
use semantic_intelligence_la.Harness.Goals.{
  rewrite_bounded_question_query, is_before_connect_question, is_status_question,
  is_tenant_membership_question, is_disconnect_reason_question,
}
use semantic_intelligence_la.Harness.Windows.{resolve_investigation_window}
use semantic_intelligence_la.Harness.Windows.Laws.{InWindow, resolve_investigation_window-InWindow}
use semantic_intelligence_la.Harness.Steps.{Service, World}
use semantic_intelligence_la.Harness.Gate.{IsGated}
use semantic_intelligence_la.Harness.Run.{run_investigation}
use semantic_intelligence_la.Harness.Run.Endings.{Ended}
use semantic_intelligence_la.Harness.Run.Laws.{run_investigation-IsGated, run_investigation-Ended}
use semantic_intelligence_la.Base.{
  codes, ascii, eq_text, is_blank, has_prefix, contains, to_lower, equal_fold, ok, ◌+◌, ◌≡◌, refl,
  inl, inr, true, false, Option, none, some, [], ◌∷◌,
}
use semantic_intelligence_la.Harness.Gate.Defaults.{evaluate-action_of}
use semantic_intelligence_la.Harness.Steps.{action_of, new_step}
use semantic_intelligence_la.Harness.Coordinator.{start_run}
use semantic_intelligence_la.Harness.Coordinator.Laws.{on_memory, Resumes, start_run-Resumes}
use semantic_intelligence_la.Harness.Run.{new_run}
use semantic_intelligence_la.Policy.{allow}
use semantic_intelligence_la.Agents.{Step, Run}

abbrev formats : Formats
formats = record {
  parse_rfc3339 = λ s. none;
  parse_rfc3339_nano = λ s. none;
  rfc3339 = λ t. codes "t";
  id_time = λ t. codes "now";
  quoted = λ s. s;
  decimal = λ n. (48 + n) ∷ [];
  two_places = λ n. codes "1.00";
}

abbrev service : Service
service = record {
  formats = formats;
  error_text = λ e. codes "failed";
  clock = λ n. 100 + n;
  policy = λ run action. ok (evaluate new_default_evaluator run action);
  upsert = λ acts r. none;
  retrieval = λ acts q. ok [];
  access = none;
  sessions =
      some (λ acts q. SessionStore.memory_search ⦃u = ascii⦄ background (SessionTests.late ∷ []) q);
  runtime_name = codes "harness";
  planner_name = codes "planner";
}

abbrev request : RunRequest
request = record {
  tenant_id = codes " t ";
  case_id = [];
  session_id = codes "s";
  goal = codes "find ann";
  inputs = (codes "subscriber_id", codes "ann") ∷ [];
  max_steps = pos 9;
}

abbrev accepted : RunRequest
accepted = record {
  tenant_id = codes "t";
  case_id = [];
  session_id = codes "s";
  goal = codes "find ann";
  inputs = (codes "subscriber_id", codes "ann") ∷ (key_query, codes "find ann") ∷ [];
  max_steps = pos 5;
}

abbrev fresh : World
fresh = record { reads = 0; acts = [] }

normal : normalize_request ⦃u = ascii⦄ formats 100 request ≡ ok accepted
unfolding normalize_request is_blank rewrite_bounded_question_query lookup insert eq_text equal_fold
    is_before_connect_question has_prefix to_lower is_status_question is_tenant_membership_question
    contains is_disconnect_reason_question
normal = refl

run_investigation-IsGated_example :
    IsGated (codes "t") (run_investigation service ⦃u = ascii⦄ request fresh).0.acts
run_investigation-IsGated_example =
    run_investigation-IsGated service ⦃u = ascii⦄ request accepted fresh normal refl

run_investigation-Ended_example :
    Ended service 5
      (run_investigation service ⦃u = ascii⦄ request fresh).0.acts
      (run_investigation service ⦃u = ascii⦄ request fresh).1
run_investigation-Ended_example =
    run_investigation-Ended service ⦃u = ascii⦄ request accepted fresh normal refl

normalize_request-IsRunnable_example : IsRunnable accepted
normalize_request-IsRunnable_example =
    normalize_request-IsRunnable ⦃u = ascii⦄ formats 100 request accepted normal

build_investigation_plan-IsPlan_example :
    IsPlan false true (build_investigation_plan ⦃u = ascii⦄ accepted false true)
build_investigation_plan-IsPlan_example =
    build_investigation_plan-IsPlan ⦃u = ascii⦄ accepted false true

abbrev hit : Hit
hit = record {
  score = 2;
  matched_terms = [];
  document = record {
    document_id = codes "d";
    schema_version = [];
    tenant_id = codes "t";
    source = [];
    source_event_id = [];
    source_key = [];
    entity_type = codes "network_access";
    event_type = [];
    occurred_at = 1_000_000_000_000;
    ingested_at = 1_000_000_000_000;
    title = [];
    content = [];
    subscriber_id = codes "ann";
    session_id = codes "one";
    request_id = [];
    status = [];
    outcome = [];
    nas_ip_address = [];
    client_ip_address = [];
    policy_name = [];
    reject_reason = [];
    tags = [];
    terms = [];
    attributes = [];
  };
}

abbrev hit_window : Option Time × Option Time
hit_window = (some 100_000_000_000, some 1_900_000_000_000)

resolved : resolve_investigation_window formats accepted.inputs (hit ∷ []) ≡ ok hit_window
unfolding resolve_investigation_window is_blank lookup eq_text
resolved = refl

resolve_investigation_window-InWindow_example : InWindow (hit ∷ []) hit_window
unfolding is_blank lookup eq_text
resolve_investigation_window-InWindow_example =
    resolve_investigation_window-InWindow formats accepted.inputs (hit ∷ []) hit_window refl refl
      resolved

abbrev run : Run
run = new_run service ⦃u = ascii⦄ accepted 100

abbrev step : Step
step =
    new_step service ⦃u = ascii⦄ run.id (codes "access-enrichment") (codes "query")
      (codes "fetching normalized access context") (codes "query.access.search") 101

evaluate-action_of_example :
    (evaluate new_default_evaluator (some run) (action_of service run step)).state ≡ allow
evaluate-action_of_example = evaluate-action_of service run step (inr (inl refl))

start_run-Resumes_example :
    Resumes
      (start_run (on_memory service) ⦃u = ascii⦄ request fresh).0.acts
      (start_run (on_memory service) ⦃u = ascii⦄ request fresh).1
      (start_run (on_memory service) ⦃u = ascii⦄ request fresh).2
start_run-Resumes_example = start_run-Resumes ⦃u = ascii⦄ service request accepted fresh normal refl
