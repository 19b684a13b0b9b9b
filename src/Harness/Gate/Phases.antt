-- ===== src/Harness/Gate/Phases.antt =====
-- Every step keeps the acts gated, and a step that goes on is completed.
use semantic_intelligence_la.Agents.{Step, StepStatus, RunRequest}
use semantic_intelligence_la.RunStore.Records.{Record}
use semantic_intelligence_la.Contracts.Retrieval.{Hit}
use semantic_intelligence_la.Contracts.Access
use semantic_intelligence_la.Contracts.Sessions
use semantic_intelligence_la.Query.Filters.{RetrievalQuery}
use semantic_intelligence_la.Harness.Requests.{compose_id}
use semantic_intelligence_la.Harness.Queries.Laws.{
  build_retrieval_query-Meets, build_access_queries-Meets, build_session_queries-Meets,
  AccessOfTenant, SessionsOfTenant, SessionPlan, AccessPlan,
}
use semantic_intelligence_la.Harness.Steps.{
  Act, Service, World, now, start_step, new_step, complete_step, call_retrieval,
}
use semantic_intelligence_la.Harness.Phases.{
  found_evidence, access_found, sessions_found, run_retrieval_step, run_access_step,
  run_session_step, run_summary_step, search_access, search_sessions,
}
use semantic_intelligence_la.Harness.Gate.{
  IsGated, Stopped, Post, goes_on, Post-continue, check-Post,
}
use semantic_intelligence_la.Harness.Gate.Authorized.{Ready, authorize-Post}
use mathlib.Core.Path.{subst}
use semantic_intelligence_la.Base.{
  is_empty, Text, codes, CharTables, ◌≡◌, refl, sym, ◌∙◌, false, List,
}
use semantic_intelligence_la.Harness.Gate.Searches.{
  retrieve_tool, access_tool, sessions_tool, stopped_of, join-is_empty, call_retrieval-Post,
  search_access-Post, search_sessions-Post,
}

-- what a phase that goes on leaves
abbrev pub Completed : {A : Type 0} → Text → A × Step → List Act → Type 0
Completed tenant (a, step) acts = (step.status ≡ StepStatus.completed) × IsGated tenant acts

module _ (s : Service) ⦃u : CharTables⦄ (r : Record) (request : RunRequest)
    (same : r.run.tenant_id ≡ request.tenant_id) where
  pub run_retrieval_step-Post :
      (w : World)
      → IsGated r.run.tenant_id w.acts
      → Post
          (Completed r.run.tenant_id)
          (Stopped r.run.tenant_id)
          (run_retrieval_step s r request w)
  unfolding run_retrieval_step compose_id start_step complete_step now
  run_retrieval_step-Post w gated =
      let tenant = r.run.tenant_id in
      let step =
        new_step s r.run.id (codes "retrieve") (codes "retrieve")
          (codes "searching indexed evidence") retrieve_tool (s.clock w.reads) in
      let has_id : is_empty step.id ≡ false = join-is_empty _ _ _ _ in
      let Kept : List Act → Type 0 = Ready retrieve_tool tenant in
      Post-continue (λ _. Kept) (Completed tenant) (Stopped tenant) _ _
        (authorize-Post s r.run step _ has_id gated)
        (λ _ w2 ready.
          Post-continue (λ (q : RetrievalQuery) acts. (q.tenant_id ≡ request.tenant_id) × Kept acts)
            (Completed tenant) (Stopped tenant) _ _
            (check-Post (λ (q : RetrievalQuery). q.tenant_id ≡ request.tenant_id) Kept
              (Stopped tenant) step _ w2 (build_retrieval_query-Meets s.formats request) ready
              (stopped_of step has_id))
            (λ q w3 (of_tenant, ready3).
              Post-continue (λ _. Kept) (Completed tenant) (Stopped tenant)
                (call_retrieval s step q w3) (found_evidence s step q)
                (call_retrieval-Post s tenant step has_id q w3 (of_tenant ∙ sym same) ready3)
                (λ hits w4 (allows, gated4). goes_on (refl, gated4))))

  pub run_access_step-Post :
      (hits : List Hit) (w : World)
      → IsGated r.run.tenant_id w.acts
      → Post
          (Completed r.run.tenant_id)
          (Stopped r.run.tenant_id)
          (run_access_step s r request hits w)
  unfolding run_access_step compose_id start_step complete_step now
  run_access_step-Post hits w gated =
      let tenant = r.run.tenant_id in
      let Kept : List Act → Type 0 = Ready access_tool tenant in
      let step =
        new_step s r.run.id (codes "access-enrichment") (codes "query")
          (codes "fetching normalized access context") access_tool (s.clock w.reads) in
      let has_id : is_empty step.id ≡ false = join-is_empty _ _ _ _ in
      Post-continue (λ _. Kept) (Completed tenant) (Stopped tenant) _ _
        (authorize-Post s r.run step _ has_id gated)
        (λ _ w2 ready.
          Post-continue (λ qs acts. AccessPlan request.tenant_id qs × Kept acts) (Completed tenant)
            (Stopped tenant) _ _
            (check-Post (AccessPlan request.tenant_id) Kept (Stopped tenant) step _ w2
              (build_access_queries-Meets s.formats request hits) ready (stopped_of step has_id))
            (λ qs w3 ((of_tenant, few), ready3).
              Post-continue (λ _. Kept) (Completed tenant) (Stopped tenant)
                (search_access s s.access step qs w3) (access_found s step)
                (search_access-Post s tenant s.access step has_id qs w3
                  (subst (λ t. AccessOfTenant t qs) (sym same) of_tenant) ready3)
                (λ events w4 (allows, gated4). goes_on (refl, gated4))))

  pub run_session_step-Post :
      (hits : List Hit) (w : World)
      → IsGated r.run.tenant_id w.acts
      → Post
          (Completed r.run.tenant_id)
          (Stopped r.run.tenant_id)
          (run_session_step s r request hits w)
  unfolding run_session_step compose_id start_step complete_step now
  run_session_step-Post hits w gated =
      let tenant = r.run.tenant_id in
      let Kept : List Act → Type 0 = Ready sessions_tool tenant in
      let step =
        new_step s r.run.id (codes "session-enrichment") (codes "query")
          (codes "fetching normalized session context") sessions_tool (s.clock w.reads) in
      let has_id : is_empty step.id ≡ false = join-is_empty _ _ _ _ in
      Post-continue (λ _. Kept) (Completed tenant) (Stopped tenant) _ _
        (authorize-Post s r.run step _ has_id gated)
        (λ _ w2 ready.
          Post-continue (λ qs acts. SessionPlan request.tenant_id qs × Kept acts) (Completed tenant)
            (Stopped tenant) _ _
            (check-Post (SessionPlan request.tenant_id) Kept (Stopped tenant) step _ w2
              (build_session_queries-Meets s.formats request hits) ready (stopped_of step has_id))
            (λ qs w3 ((of_tenant, few), ready3).
              Post-continue (λ _. Kept) (Completed tenant) (Stopped tenant)
                (search_sessions s s.sessions step qs w3) (sessions_found s step)
                (search_sessions-Post s tenant s.sessions step has_id qs w3
                  (subst (λ t. SessionsOfTenant t qs) (sym same) of_tenant) ready3)
                (λ events w4 (allows, gated4). goes_on (refl, gated4))))

  pub run_summary_step-Post :
      (hits : List Hit) (access_events : List Access.Event) (session_events : List Sessions.Event)
      (w : World)
      → IsGated r.run.tenant_id w.acts
      → Post
          (λ (step : Step) acts.
            (step.status ≡ StepStatus.completed) × IsGated r.run.tenant_id acts)
          (Stopped r.run.tenant_id)
          (run_summary_step s r request hits access_events session_events w)
  unfolding run_summary_step compose_id start_step complete_step now
  run_summary_step-Post hits access_events session_events w gated =
      let tenant = r.run.tenant_id in
      let tool : Text = codes "explain.findings.summary" in
      let step =
        new_step s r.run.id (codes "explain") (codes "explain")
          (codes "assembling deterministic investigation summary") tool (s.clock w.reads) in
      let has_id : is_empty step.id ≡ false = join-is_empty _ _ _ _ in
      Post-continue (λ _. Ready tool tenant)
        (λ (step : Step) acts. (step.status ≡ StepStatus.completed) × IsGated tenant acts)
        (Stopped tenant) _ _ (authorize-Post s r.run step _ has_id gated)
        (λ _ w2 (allows, gated2). goes_on (refl, gated2))
