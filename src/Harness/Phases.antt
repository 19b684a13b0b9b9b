-- ===== src/Harness/Phases.antt =====
-- runRetrievalStep, runAccessStep, runSessionStep and runSummaryStep, with searchAccess and
-- searchSessions, whose loops over the queries stop at the first error.
use semantic_intelligence_la.Harness.Steps.{
  Act, Service, Doing, finish, check, ◌>>=◌, ◌>>◌, start_step, authorize, complete_step,
  call_retrieval, call_access, call_sessions,
}
use semantic_intelligence_la.Base.Dict.{Dict}
use semantic_intelligence_la.Agents.{Step, RunRequest}
use semantic_intelligence_la.RunStore.Records.{Record}
use semantic_intelligence_la.Contracts.Retrieval.{Hit}
use semantic_intelligence_la.Contracts.Access
use semantic_intelligence_la.Contracts.Sessions
use semantic_intelligence_la.AccessStore
use semantic_intelligence_la.SessionStore
use semantic_intelligence_la.Query.Filters.{RetrievalQuery}
use semantic_intelligence_la.Harness.Queries.{
  build_retrieval_query, build_access_queries, build_session_queries,
}
use semantic_intelligence_la.Harness.Evidence.{
  gather_access, gather_sessions, found_access, found_sessions, evidence_from_hits,
  evidence_from_access_events, evidence_from_session_events, combine_evidence,
}
use semantic_intelligence_la.Harness.Summaries.{
  summarize_retrieval_step, summarize_access_step, summarize_session_step, summarize_investigation,
}
use semantic_intelligence_la.Base.{codes, CharTables, Result, Option, none, some, List, [], ◌∷◌}

module _ (s : Service) ⦃u : CharTables⦄ where
  -- the end of runRetrievalStep, and of the two others below
  abbrev pub found_evidence : Step → RetrievalQuery → List Hit → Doing (List Hit × Step)
  found_evidence step query hits = do
    completed ←
        complete_step s step (summarize_retrieval_step s.formats query.query_text hits)
          (evidence_from_hits hits)
    finish (hits, completed)

  unfoldable pub run_retrieval_step : Record → RunRequest → Doing (List Hit × Step)
  unfolding start_step authorize call_retrieval complete_step
  run_retrieval_step r request = do
    step ←
        start_step s r.run.id (codes "retrieve") (codes "retrieve")
          (codes "searching indexed evidence") (codes "retrieve.evidence.search")
    authorize s r.run step
    query ← check step (build_retrieval_query s.formats request)
    call_retrieval s step query >>= found_evidence step query

  -- the loop of searchAccess
  unfoldable pub gather_all_access :
      (List Act → AccessStore.Query → Result (List Access.Event))
      → Step
      → Dict Access.Event
      → List AccessStore.Query
      → Doing (Dict Access.Event)
  unfolding call_access
  gather_all_access store step held [] = finish held
  gather_all_access store step held (query ∷ queries) = do
    events ← call_access s store step query
    gather_all_access store step (gather_access held events) queries

  unfoldable pub search_access :
      Option (List Act → AccessStore.Query → Result (List Access.Event))
      → Step
      → List AccessStore.Query
      → Doing (List Access.Event)
  unfolding gather_all_access
  search_access none step queries = finish []
  search_access (some store) step queries = do
    held ← gather_all_access store step [] queries
    finish (found_access held)

  abbrev pub access_found : Step → List Access.Event → Doing (List Access.Event × Step)
  access_found step events = do
    completed ←
        complete_step s step (summarize_access_step s.formats events)
          (evidence_from_access_events events)
    finish (events, completed)

  unfoldable pub run_access_step : Record → RunRequest → List Hit → Doing (List Access.Event × Step)
  unfolding start_step authorize search_access complete_step
  run_access_step r request hits = do
    step ←
        start_step s r.run.id (codes "access-enrichment") (codes "query")
          (codes "fetching normalized access context") (codes "query.access.search")
    authorize s r.run step
    queries ← check step (build_access_queries s.formats request hits)
    search_access s.access step queries >>= access_found step

  -- the loop of searchSessions
  unfoldable pub gather_all_sessions :
      (List Act → SessionStore.Query → Result (List Sessions.Event))
      → Step
      → Dict Sessions.Event
      → List SessionStore.Query
      → Doing (Dict Sessions.Event)
  unfolding call_sessions
  gather_all_sessions store step held [] = finish held
  gather_all_sessions store step held (query ∷ queries) = do
    events ← call_sessions s store step query
    gather_all_sessions store step (gather_sessions held events) queries

  unfoldable pub search_sessions :
      Option (List Act → SessionStore.Query → Result (List Sessions.Event))
      → Step
      → List SessionStore.Query
      → Doing (List Sessions.Event)
  unfolding gather_all_sessions
  search_sessions none step queries = finish []
  search_sessions (some store) step queries = do
    held ← gather_all_sessions store step [] queries
    finish (found_sessions held)

  abbrev pub sessions_found : Step → List Sessions.Event → Doing (List Sessions.Event × Step)
  sessions_found step events = do
    completed ←
        complete_step s step (summarize_session_step s.formats events)
          (evidence_from_session_events events)
    finish (events, completed)

  unfoldable pub run_session_step :
      Record → RunRequest → List Hit → Doing (List Sessions.Event × Step)
  unfolding start_step authorize search_sessions complete_step
  run_session_step r request hits = do
    step ←
        start_step s r.run.id (codes "session-enrichment") (codes "query")
          (codes "fetching normalized session context") (codes "query.sessions.search")
    authorize s r.run step
    queries ← check step (build_session_queries s.formats request hits)
    search_sessions s.sessions step queries >>= sessions_found step

  unfoldable pub run_summary_step :
      Record → RunRequest → List Hit → List Access.Event → List Sessions.Event → Doing Step
  unfolding start_step authorize complete_step
  run_summary_step r request hits access_events session_events = do
    step ←
        start_step s r.run.id (codes "explain") (codes "explain")
          (codes "assembling deterministic investigation summary")
          (codes "explain.findings.summary")
    authorize s r.run step
    complete_step s step
        (summarize_investigation s.formats request.goal hits access_events session_events)
        (combine_evidence r.steps hits access_events session_events)
