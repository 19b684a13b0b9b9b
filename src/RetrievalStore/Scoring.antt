-- ===== src/RetrievalStore/Scoring.antt =====
-- internal/storage/metadata/retrieval/store.go: which documents match a query, how they are scored
-- and ranked. A score counts halves, so `score += 2` adds four.
-- cloneDocument and cloneHit copy deeply, and are the identity on values.
use semantic_intelligence_la.Base.Times.{after}
use semantic_intelligence_la.Contracts.Retrieval.{Document, Hit}
use semantic_intelligence_la.Contracts.Retrieval.Terms.{normalize_terms}
use semantic_intelligence_la.Storage.Search.{truncate}
use semantic_intelligence_la.Storage.Filters.{field_matches, in_window}
use semantic_intelligence_la.Query.Filters.{RetrievalQuery}
use semantic_intelligence_la.Base.{
  ltb, ◌==◌, if◌then◌else◌, length, is_empty, any, filter_by, Text, codes, CharTables, eq_text,
  trim_space, contains, join, to_lower, sort_by, less_text, ℕ, ◌+◌, ◌*◌, Bool, not, ◌&&◌, List, [],
  ◌∷◌, map,
}

-- the `less` function of scoreResults
unfoldable pub ranks_before : Hit → Hit → Bool
ranks_before left right =
    if left.score == right.score
    then (if left.document.occurred_at == right.document.occurred_at
        then after left.document.ingested_at right.document.ingested_at
        else after left.document.occurred_at right.document.occurred_at)
    else ltb right.score left.score

-- not `score <= 0`
abbrev pub is_scored : Hit → Bool
is_scored hit = ltb 0 hit.score

unfoldable pub pick_latest : Document → Document → Document
pick_latest existing candidate =
    if after candidate.ingested_at existing.ingested_at
    then candidate
    else if candidate.ingested_at == existing.ingested_at
        && after candidate.occurred_at existing.occurred_at
    then candidate
    else existing

module _ ⦃u : CharTables⦄ where
  unfoldable pub matches : RetrievalQuery → Document → Bool
  matches filter document =
      field_matches filter.tenant_id document.tenant_id
      && field_matches filter.subscriber_id document.subscriber_id
      && field_matches filter.session_id document.session_id
      && field_matches filter.request_id document.request_id
      && field_matches filter.status document.status
      && field_matches filter.outcome document.outcome
      && field_matches filter.nas_ip_address document.nas_ip_address
      && field_matches filter.client_ip_address document.client_ip_address
      && in_window filter.from filter.to document.occurred_at

  -- `_, ok := termSet[term]`
  unfoldable pub has_term : Document → Text → Bool
  has_term document term = any (λ t. eq_text (to_lower (trim_space t)) term) document.terms

  -- the test that adds one and a half
  unfoldable pub mentions : Text → Document → Bool
  mentions raw_query document =
      let query = to_lower (trim_space raw_query) in
      let search_text = to_lower (join (codes " ") (document.title ∷ document.content ∷ [])) in
      not (is_empty query) && contains search_text query

  -- the terms of the query that the document has, in the query's order
  unfoldable pub matched_terms : List Text → Document → List Text
  unfolding has_term filter_by
  matched_terms query_terms document = filter_by (has_term document) query_terms

  -- the score before the test that some term matched
  unfoldable pub raw_score : Text → List Text → Document → ℕ
  unfolding mentions matched_terms
  raw_score raw_query query_terms document =
      let matched = matched_terms query_terms document in
      4 * length matched
      + (if mentions raw_query document then 3 else 0)
      + (if length matched == length query_terms && ltb 0 (length query_terms) then 2 else 0)

  unfoldable pub score_document : Text → List Text → Document → ℕ × List Text
  unfolding raw_score
  score_document raw_query query_terms document =
      let matched = matched_terms query_terms document in
      if length matched == 0
      then (0, [])
      else (raw_score raw_query query_terms document, sort_by less_text matched)

  unfoldable pub hit_of : Text → List Text → Document → Hit
  unfolding score_document
  hit_of raw_query query_terms document =
      let (score, matched) = score_document raw_query query_terms document in
      record { score = score; matched_terms = matched; document = document }

  unfoldable pub score_results : RetrievalQuery → List Document → List Hit
  unfolding hit_of ranks_before truncate
  score_results filter documents =
      let query_terms = normalize_terms (filter.query_text ∷ []) in
      if is_empty query_terms
      then []
      else truncate filter.limit (
          sort_by ranks_before (
            filter_by is_scored
              (map (hit_of (trim_space filter.query_text) query_terms) documents)))
