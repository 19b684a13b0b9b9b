-- ===== src/Harness/Queries.antt =====
-- buildRetrievalQuery, buildAccessQueries, buildSessionQueries and their helpers over hits.
pub mod Laws
use semantic_intelligence_la.Base.Times.{Time, ℤ, pos, negsuc}
use semantic_intelligence_la.Base.Dict.{Dict}
use semantic_intelligence_la.Agents.{RunRequest}
use semantic_intelligence_la.Contracts.Retrieval.{Hit, Document}
use semantic_intelligence_la.SessionStore
use semantic_intelligence_la.AccessStore
use semantic_intelligence_la.Query.Filters.{RetrievalQuery}
use semantic_intelligence_la.Harness.Formats.{Formats, atoi}
use semantic_intelligence_la.Harness.Plan.{
  input, key_query, key_subscriber_id, key_session_id, key_request_id, key_status, key_outcome,
  key_nas_ip_address, key_client_ip, key_from, key_to, key_limit,
}
use semantic_intelligence_la.Harness.Windows.{parse_time_input, resolve_investigation_window}
use semantic_intelligence_la.Base.{
  if◌then◌else◌, is_empty, any, Text, codes, eq_text, trim_space, is_blank, invalid, Result, ok,
  err, ◌>>=◌, ◌>>◌, ℕ, zero, suc, ◌+◌, not, ◌&&◌, ◌||◌, Option, some, List, [], ◌∷◌, ◌++◌, map,
  arith,
}

abbrev pub max_evidence_per_step : ℕ
max_evidence_per_step = 5

abbrev pub max_session_lookups : ℕ
max_session_lookups = 3

-- strings.TrimSpace(request.Inputs[key])
abbrev pub trimmed : Text → RunRequest → Text
trimmed key request = trim_space (input key request.inputs)

-- the value if it is not "", else the default
abbrev pub or_text : Text → Text → Text
or_text value default = if is_empty value then default else value

-- the loops of firstHitSubscriberID and its four siblings
unfoldable pub first_field : (Document → Text) → List Hit → Text
first_field field [] = []
first_field field (hit ∷ hits) =
    let rest = first_field field hits in
    if is_blank (field hit.document) then rest else trim_space (field hit.document)

abbrev pub first_hit_subscriber_id : List Hit → Text
first_hit_subscriber_id = first_field (λ d. d.subscriber_id)

abbrev pub first_hit_session_id : List Hit → Text
first_hit_session_id = first_field (λ d. d.session_id)

abbrev pub first_hit_request_id : List Hit → Text
first_hit_request_id = first_field (λ d. d.request_id)

abbrev pub first_hit_nas_ip_address : List Hit → Text
first_hit_nas_ip_address = first_field (λ d. d.nas_ip_address)

abbrev pub first_hit_client_ip_address : List Hit → Text
first_hit_client_ip_address = first_field (λ d. d.client_ip_address)

-- the limit of inputs["limit"]; a missing one is 0
abbrev positive_limit : Option ℤ → Result ℤ
positive_limit (some (pos (suc n))) = ok (pos (suc n))
positive_limit _ = err (invalid (codes "limit must be a positive integer"))

abbrev parse_limit : Text → Result ℤ
parse_limit value = if is_empty value then ok (pos 0) else positive_limit (atoi value)

unfoldable pub build_retrieval_query : Formats → RunRequest → Result RetrievalQuery
unfolding parse_time_input
build_retrieval_query f request = do
  from ← parse_time_input f (input key_from request.inputs)
  to ← parse_time_input f (input key_to request.inputs)
  limit ← parse_limit (trimmed key_limit request)
  ok (record {
    tenant_id = request.tenant_id;
    query_text = or_text (trimmed key_query request) request.goal;
    subscriber_id = trimmed key_subscriber_id request;
    session_id = trimmed key_session_id request;
    request_id = trimmed key_request_id request;
    status = trimmed key_status request;
    outcome = trimmed key_outcome request;
    nas_ip_address = trimmed key_nas_ip_address request;
    client_ip_address = trimmed key_client_ip request;
    from = from;
    to = to;
    limit = limit;
  })

-- the two fallbacks on the session id and the request id of the hits
abbrev access_fallbacks : List Hit → AccessStore.Query → AccessStore.Query
access_fallbacks hits q =
    let bare =
      is_empty q.subscriber_id && is_empty q.nas_ip_address && is_empty q.client_ip_address in
    let session =
      if is_empty q.session_id && is_empty q.request_id && bare
      then first_hit_session_id hits
      else q.session_id in
    let request =
      if is_empty q.request_id && is_empty session && bare
      then first_hit_request_id hits
      else q.request_id in
    record q { session_id = session; request_id = request }

-- no query where nothing selects
abbrev access_queries_of : AccessStore.Query → List AccessStore.Query
access_queries_of q =
    if is_empty q.request_id
      && is_empty q.subscriber_id
      && is_empty q.session_id
      && is_empty q.nas_ip_address
      && is_empty q.client_ip_address
      && is_empty q.outcome
    then []
    else q ∷ []

unfoldable pub build_access_queries :
    Formats → RunRequest → List Hit → Result (List AccessStore.Query)
unfolding resolve_investigation_window first_field
build_access_queries f request hits = do
  (from, to) ← resolve_investigation_window f request.inputs hits
  ok (
      access_queries_of (
        access_fallbacks hits (record {
          tenant_id = request.tenant_id;
          subscriber_id =
              or_text (trimmed key_subscriber_id request) (first_hit_subscriber_id hits);
          request_id = trimmed key_request_id request;
          session_id = trimmed key_session_id request;
          outcome = trimmed key_outcome request;
          nas_ip_address =
              or_text (trimmed key_nas_ip_address request) (first_hit_nas_ip_address hits);
          client_ip_address =
              or_text (trimmed key_client_ip request) (first_hit_client_ip_address hits);
          from = from;
          to = to;
          limit = pos max_evidence_per_step;
        })))

-- the loop of topSessionIDs, with the number of ids still to find
unfoldable pub session_ids_from : ℕ → List Text → List Hit → List Text
session_ids_from zero ids hits = ids
session_ids_from (suc room) ids [] = ids
session_ids_from (suc room) ids (hit ∷ hits) =
    let id = trim_space hit.document.session_id in
    let skip = session_ids_from (suc room) ids hits in
    let taken = session_ids_from room (ids ++ id ∷ []) hits in
    if is_empty id || any (λ seen. eq_text seen id) ids then skip else taken

unfoldable pub top_session_ids : List Hit → ℕ → List Text
unfolding session_ids_from
top_session_ids hits limit = session_ids_from limit [] hits

-- the sessions to look up, where the query does not select by anything else
abbrev session_ids_for : SessionStore.Query → List Hit → List Text
session_ids_for q hits =
    let ids =
      if not (is_empty q.subscriber_id)
        || not (is_empty q.nas_ip_address)
        || not (is_empty q.client_ip_address)
      then []
      else top_session_ids hits max_session_lookups in
    if is_empty ids && not (is_empty q.session_id) then q.session_id ∷ [] else ids

abbrev session_queries_of : SessionStore.Query → List Text → List SessionStore.Query
session_queries_of q (id ∷ ids) =
    map (λ session_id. record q { session_id = session_id }) (id ∷ ids)
session_queries_of q [] =
    if is_empty q.session_id
      && is_empty q.subscriber_id
      && is_empty q.nas_ip_address
      && is_empty q.client_ip_address
    then []
    else q ∷ []

-- the query before the sessions are chosen
abbrev pub session_query : RunRequest → List Hit → Option Time → Option Time → SessionStore.Query
session_query request hits from to = record {
  tenant_id = request.tenant_id;
  subscriber_id = or_text (trimmed key_subscriber_id request) (first_hit_subscriber_id hits);
  session_id = trimmed key_session_id request;
  status = [];
  nas_ip_address = or_text (trimmed key_nas_ip_address request) (first_hit_nas_ip_address hits);
  client_ip_address = or_text (trimmed key_client_ip request) (first_hit_client_ip_address hits);
  from = from;
  to = to;
  limit = pos max_evidence_per_step;
}

unfoldable pub build_session_queries :
    Formats → RunRequest → List Hit → Result (List SessionStore.Query)
unfolding resolve_investigation_window first_field top_session_ids
build_session_queries f request hits = do
  (from, to) ← resolve_investigation_window f request.inputs hits
  let q = session_query request hits from to
  ok (session_queries_of q (session_ids_for q hits))
