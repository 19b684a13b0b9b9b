-- ===== src/Query/Evidence.antt =====
-- internal/services/query/retrieval.go in front of the memory store of retrieval documents.
use semantic_intelligence_la.Contracts.Retrieval.{Document, Hit}
use semantic_intelligence_la.Storage.JsonLines.{background}
use semantic_intelligence_la.RetrievalStore
use semantic_intelligence_la.RetrievalStore.Scoring.{matches, ranks_before, is_scored}
use semantic_intelligence_la.RetrievalStore.Laws.{IsHit, memory_search-IsAnswer_of_retrieval}
use semantic_intelligence_la.Query.{search_evidence}
use semantic_intelligence_la.Query.Filters.{
  RetrievalQuery, normalize_retrieval_query, validate_retrieval_query, window_reversed,
}
use semantic_intelligence_la.Query.Laws.{
  InOrder, window_reversed_iff, clamp_limit-IsPage, length-le_of_IsPage, OfTenant,
  field_matches-OfTenant,
}
use semantic_intelligence_la.Base.{
  length, is_empty, All, All-map_pred, CharTables, is_blank, ok, IsSorted, ◌≤◌, ◌≡◌, true, false,
  some, List, arith,
}

matches_document-OfTenant :
    ⦃u : CharTables⦄
    → (filter : RetrievalQuery) (document : Document) → is_blank filter.tenant_id ≡ false
    → matches (normalize_retrieval_query filter) document ≡ true
    → OfTenant filter.tenant_id document.tenant_id
unfolding matches normalize_retrieval_query
matches_document-OfTenant filter document named h =
    field_matches-OfTenant filter.tenant_id document.tenant_id named (ground arith)

-- On a memory store, an evidence query that names a tenant, has a text and whose window is not
-- reversed is answered: every hit is of a document of that tenant and has a score, the hits are
-- ranked by score, then by the time of the event, then by that of its ingestion, and there are at
-- most 50 of them, whatever limit was asked for.
pub search_evidence-answer :
    ⦃u : CharTables⦄
    → (store : RetrievalStore.MemoryStore) (filter : RetrievalQuery)
    → is_blank filter.tenant_id ≡ false
    → is_blank filter.query_text ≡ false
    → InOrder filter.from filter.to
    → (found : List Hit) × (search_evidence
          (some (RetrievalStore.memory_search background store))
          filter
        ≡ ok found)
      × All (λ h. OfTenant filter.tenant_id h.document.tenant_id) found
      × All (λ h. is_scored h ≡ true) found
      × IsSorted ranks_before found
      × (length found ≤ 50)
unfolding search_evidence validate_retrieval_query is_blank
search_evidence-answer store filter named asked ordered =
    let q : RetrievalQuery = normalize_retrieval_query filter in
    let (found, answered, hits, a) = memory_search-IsAnswer_of_retrieval store q in
    let forward : window_reversed q.from q.to ≡ false =
      unfold normalize_retrieval_query in (window_reversed_iff filter.from filter.to).1 ordered in
    let has_tenant : is_empty q.tenant_id ≡ false = unfold normalize_retrieval_query in named in
    let has_text : is_empty q.query_text ≡ false = unfold normalize_retrieval_query in asked in
    (
      found,
      rw (has_tenant, has_text, forward) answered,
      All-map_pred (IsHit q) _ (λ h k. matches_document-OfTenant filter h.document named k.0) found
          hits,
      a.passes,
      a.sorted,
      length-le_of_IsPage 50 q.limit found
          (unfold normalize_retrieval_query in
            clamp_limit-IsPage 10 50 filter.limit (omega arith) (omega arith))
          a.within,
    )
