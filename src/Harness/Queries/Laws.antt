-- ===== src/Harness/Queries/Laws.antt =====
-- Which queries a run sends: all of them ask for the request's tenant.
use semantic_intelligence_la.Agents.{RunRequest}
use semantic_intelligence_la.Contracts.Retrieval.{Hit}
use semantic_intelligence_la.SessionStore
use semantic_intelligence_la.AccessStore
use semantic_intelligence_la.Query.Filters.{RetrievalQuery}
use semantic_intelligence_la.Harness.Formats.{Formats}
use semantic_intelligence_la.Harness.Windows.{resolve_investigation_window, parse_time_input}
use semantic_intelligence_la.Harness.Plan.{input, key_from, key_to, key_limit}
use semantic_intelligence_la.Harness.Queries.{
  build_retrieval_query, build_access_queries, build_session_queries, access_queries_of,
  session_queries_of, session_query, session_ids_for, session_ids_from, top_session_ids,
  max_session_lookups, trimmed, parse_limit,
}
use semantic_intelligence_la.Base.{
  length, All, length-append, All-map, length-map, Text, trim_space, Meets, Meets-bind, ℕ, zero,
  suc, ◌+◌, ◌≤◌, ◌≡◌, refl, List, [], ◌∷◌, ◌++◌, arith,
}

abbrev OfTenant : Text → RetrievalQuery → Type 0
OfTenant tenant q = q.tenant_id ≡ tenant

abbrev pub AccessOfTenant : Text → List AccessStore.Query → Type 0
AccessOfTenant tenant qs = All (λ (q : AccessStore.Query). q.tenant_id ≡ tenant) qs

abbrev pub SessionsOfTenant : Text → List SessionStore.Query → Type 0
SessionsOfTenant tenant qs = All (λ (q : SessionStore.Query). q.tenant_id ≡ tenant) qs

pub build_retrieval_query-Meets :
    (f : Formats) (request : RunRequest)
    → Meets (OfTenant request.tenant_id) (build_retrieval_query f request)
unfolding build_retrieval_query
build_retrieval_query-Meets f request =
    let P : RetrievalQuery → Type 0 = OfTenant request.tenant_id in
    Meets-bind P (parse_time_input f (input key_from request.inputs)) _ (λ from.
      Meets-bind P (parse_time_input f (input key_to request.inputs)) _
        (λ to. Meets-bind P (parse_limit (trimmed key_limit request)) _ (λ limit. refl)))

access_queries_of-tenant :
    (q : AccessStore.Query) (tenant : Text)
    → q.tenant_id ≡ tenant
    → AccessOfTenant tenant (access_queries_of q) × (length (access_queries_of q) ≤ 1)
access_queries_of-tenant q tenant same = ground arith

abbrev pub AccessPlan : Text → List AccessStore.Query → Type 0
AccessPlan tenant qs = AccessOfTenant tenant qs × (length qs ≤ 1)

-- at most one query
pub build_access_queries-Meets :
    (f : Formats) (request : RunRequest) (hits : List Hit)
    → Meets (AccessPlan request.tenant_id) (build_access_queries f request hits)
unfolding build_access_queries
build_access_queries-Meets f request hits =
    Meets-bind (AccessPlan request.tenant_id) (resolve_investigation_window f request.inputs hits) _
      (λ (from, to). access_queries_of-tenant _ request.tenant_id refl)

session_ids_from-length :
    (room : ℕ) (ids : List Text) (hits : List Hit)
    → length (session_ids_from room ids hits) ≤ length ids + room
unfolding session_ids_from
session_ids_from-length zero ids hits = omega arith
session_ids_from-length (suc room) ids [] = omega arith
session_ids_from-length (suc room) ids (hit ∷ hits) =
    let id = trim_space hit.document.session_id in
    ground (
      arith,
      session_ids_from-length (suc room) ids hits,
      session_ids_from-length room (ids ++ id ∷ []) hits,
      length-append {0} ids (id ∷ []),
    )

abbrev pub SessionPlan : Text → List SessionStore.Query → Type 0
SessionPlan tenant qs = SessionsOfTenant tenant qs × (length qs ≤ max_session_lookups)

session_ids_for-length :
    (q : SessionStore.Query) (hits : List Hit)
    → length (session_ids_for q hits) ≤ max_session_lookups
unfolding top_session_ids
session_ids_for-length q hits = ground (arith, session_ids_from-length max_session_lookups [] hits)

session_queries_of-tenant :
    (q : SessionStore.Query) (ids : List Text) (tenant : Text)
    → q.tenant_id ≡ tenant
    → length ids ≤ max_session_lookups
    → SessionPlan tenant (session_queries_of q ids)
session_queries_of-tenant q [] tenant same few = ground arith
session_queries_of-tenant q (id ∷ ids) tenant same few =
    let ask = λ (session_id : Text). record q { session_id = session_id } in
    (
      All-map (λ (other : SessionStore.Query). other.tenant_id ≡ tenant) ask (λ session_id. same)
          (id ∷ ids),
      omega (arith, few, length-map ask (id ∷ ids)),
    )

-- The session queries that buildSessionQueries returns all name the tenant of the request, and are
-- at most three.
pub build_session_queries-Meets :
    (f : Formats) (request : RunRequest) (hits : List Hit)
    → Meets (SessionPlan request.tenant_id) (build_session_queries f request hits)
unfolding build_session_queries
build_session_queries-Meets f request hits =
    Meets-bind (SessionPlan request.tenant_id) (resolve_investigation_window f request.inputs hits)
      _
      (λ (from, to).
        let q = session_query request hits from to in
        session_queries_of-tenant q (session_ids_for q hits) request.tenant_id refl
          (session_ids_for-length q hits))
