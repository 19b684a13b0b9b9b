-- ===== src/Query/Tests.antt =====
-- The query services at concrete stores and queries.
use semantic_intelligence_la.Contracts.Sessions
use semantic_intelligence_la.Storage.JsonLines.{background}
use semantic_intelligence_la.SessionStore
use semantic_intelligence_la.AccessStore
use semantic_intelligence_la.SessionStore.Tests as SessionTests
use semantic_intelligence_la.AccessStore.Tests as AccessTests
use semantic_intelligence_la.Contracts.Retrieval
use semantic_intelligence_la.RetrievalStore
use semantic_intelligence_la.RetrievalStore.Scoring.{ranks_before, is_scored}
use semantic_intelligence_la.RetrievalStore.Tests as RetrievalTests
use semantic_intelligence_la.Query.Evidence.{search_evidence-answer}
use semantic_intelligence_la.Query.{search_evidence, search_network_sessions}
use semantic_intelligence_la.Query.Laws.{OfTenant, search_network_sessions-answer}
use semantic_intelligence_la.Base.{
  true, length, All, ascii, trim_space, is_blank, ok, IsSorted, ◌≤◌, ◌≡◌, refl, some, List, [], ◌∷◌,
}

abbrev sessions : SessionStore.MemoryStore
sessions = SessionTests.early ∷ SessionTests.late ∷ []

abbrev accesses : AccessStore.MemoryStore
accesses = AccessTests.early ∷ AccessTests.late ∷ []

search_network_sessions-answer_example :
    (found : List Sessions.Event) × (search_network_sessions
        (some (SessionStore.memory_search ⦃u = ascii⦄ background sessions))
        SessionTests.for_tenant
      ≡ ok found)
    × All
        (λ (e : Sessions.Event). OfTenant ⦃u = ascii⦄ SessionTests.for_tenant.tenant_id e.tenant_id)
        found
    × IsSorted SessionStore.newer found
    × (length found ≤ 200)
unfolding is_blank trim_space
search_network_sessions-answer_example =
    search_network_sessions-answer ⦃u = ascii⦄ sessions SessionTests.for_tenant refl tt

search_evidence-answer_example :
    (found : List Retrieval.Hit) × (search_evidence
        (some (RetrievalStore.memory_search ⦃u = ascii⦄ background RetrievalTests.store))
        RetrievalTests.for_ann
      ≡ ok found)
    × All
        (λ (h : Retrieval.Hit).
          OfTenant ⦃u = ascii⦄ RetrievalTests.for_ann.tenant_id h.document.tenant_id)
        found
    × All (λ (h : Retrieval.Hit). is_scored h ≡ true) found
    × IsSorted ranks_before found
    × (length found ≤ 50)
unfolding is_blank trim_space
search_evidence-answer_example =
    search_evidence-answer ⦃u = ascii⦄ RetrievalTests.store RetrievalTests.for_ann refl refl tt
