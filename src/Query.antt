-- ===== src/Query.antt =====
-- internal/services/query: the query services in front of the stores.
-- A service holds its store; a nil service or a nil store is `none`, and a store is its Search.
pub mod Filters
pub mod Laws
pub mod Evidence
mod Tests
use semantic_intelligence_la.Contracts.Sessions
use semantic_intelligence_la.Contracts.Access
use semantic_intelligence_la.Contracts.Retrieval
use semantic_intelligence_la.SessionStore
use semantic_intelligence_la.AccessStore
use semantic_intelligence_la.Query.Filters.{
  RetrievalQuery, normalize_query, validate_query, normalize_access_query, validate_access_query,
  normalize_retrieval_query, validate_retrieval_query, not_configured,
}
use semantic_intelligence_la.Base.{Result, err, ◌>>=◌, ◌>>◌, Option, none, some, List, arith}

-- SessionService.SearchNetworkSessions
unfoldable pub search_network_sessions :
    Option (SessionStore.Query → Result (List Sessions.Event))
    → SessionStore.Query
    → Result (List Sessions.Event)
search_network_sessions none filter = err not_configured
search_network_sessions (some search) filter = do
  validate_query (normalize_query filter)
  search (normalize_query filter)

-- AccessService.SearchNetworkAccessEvents
unfoldable pub search_network_access_events :
    Option (AccessStore.Query → Result (List Access.Event))
    → AccessStore.Query
    → Result (List Access.Event)
search_network_access_events none filter = err not_configured
search_network_access_events (some search) filter = do
  validate_access_query (normalize_access_query filter)
  search (normalize_access_query filter)

-- RetrievalService.SearchEvidence
unfoldable pub search_evidence :
    Option (RetrievalQuery → Result (List Retrieval.Hit))
    → RetrievalQuery
    → Result (List Retrieval.Hit)
search_evidence none filter = err not_configured
search_evidence (some search) filter = do
  validate_retrieval_query (normalize_retrieval_query filter)
  search (normalize_retrieval_query filter)
