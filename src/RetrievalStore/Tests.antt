-- ===== src/RetrievalStore/Tests.antt =====
-- The theorems at stored documents.
use native.Mathlib.Decide.{ℕ_discrete}
use semantic_intelligence_la.Base.Times.{pos}
use semantic_intelligence_la.Base.Dict.{Dict, Each}
use semantic_intelligence_la.Contracts.Retrieval.{
  Document, Hit, network_session, schema_version_text, validate,
}
use semantic_intelligence_la.Contracts.Retrieval.Terms.{normalize_terms}
use semantic_intelligence_la.Contracts.Retrieval.TermSets.{has, Ascending}
use semantic_intelligence_la.Contracts.Retrieval.TermLaws.{is_term_of, normalize_terms-canonical}
use semantic_intelligence_la.Storage.JsonLines.{
  background, Codec, sound_disk, File, contents, too_long, line_bytes, Reads,
}
use semantic_intelligence_la.Storage.TableCodec.{table_codec, decode}
use semantic_intelligence_la.Storage.Filters.{field_matches}
use semantic_intelligence_la.Storage.Search.{IsAnswer, rest_of}
use semantic_intelligence_la.Query.Filters.{RetrievalQuery}
use semantic_intelligence_la.RetrievalStore.Scoring.{
  matches, matched_terms, hit_of, ranks_before, is_scored, score_results,
}
use semantic_intelligence_la.RetrievalStore.Ranking.{
  matched_count, more_terms-ranks_before, ranks_before-IsStrictWeak,
}
use semantic_intelligence_la.RetrievalStore.Laws.{
  candidates, IsHit, IsStored, Appended, memory_search-IsAnswer_of_retrieval,
  memory_append-IsStored,
}
use semantic_intelligence_la.RetrievalStore.Versions.{file_search-append_unmatched}
use semantic_intelligence_la.RetrievalStore.{
  MemoryStore, accept, memory_append, memory_search, read_document, file_search,
}
use semantic_intelligence_la.Base.{
  All, Text, codes, CharTables, ascii, eq_text, trim_space, is_blank, contains, join, to_lower,
  equal_fold, ok, less_text, ℕ, ◌+◌, ◌<◌, ◌≡◌, refl, true, none, some, List, [], ◌∷◌, ◌++◌, map,
  arith,
}

abbrev document_at : ℕ → Text → Text → Document
document_at t id status = record {
  document_id = id;
  schema_version = schema_version_text;
  tenant_id = codes "t";
  source = codes "ras";
  source_event_id = codes "e";
  source_key = codes "k";
  entity_type = network_session;
  event_type = codes "y";
  occurred_at = t;
  ingested_at = t + 1;
  title = codes "ann stopped";
  content = codes "from nas 7";
  subscriber_id = codes "ann";
  session_id = codes "s";
  request_id = [];
  status = status;
  outcome = [];
  nas_ip_address = [];
  client_ip_address = [];
  policy_name = [];
  reject_reason = [];
  tags = [];
  terms = codes "ann" ∷ status ∷ [];
  attributes = [];
}

abbrev pub started : Document
started = document_at 5 (codes "d1") (codes "start")

abbrev pub stopped : Document
stopped = document_at 7 (codes "d1") (codes "stop")

abbrev pub store : MemoryStore
store = (codes "d1", started) ∷ []

abbrev pub for_ann : RetrievalQuery
for_ann = record {
  tenant_id = codes "t";
  query_text = codes "Ann start";
  subscriber_id = [];
  session_id = [];
  request_id = [];
  status = codes "START";
  outcome = [];
  nas_ip_address = [];
  client_ip_address = [];
  from = none;
  to = none;
  limit = pos 3;
}

-- both terms, and not the phrase: five units of one
for_ann_score :
    map (λ (h : Hit). h.score) (score_results ⦃u = ascii⦄ for_ann (started ∷ [])) ≡ 10 ∷ []
unfolding score_results normalize_terms trim_space to_lower line_bytes eq_text less_text contains
    join
for_ann_score = refl

is_term_of_swapped :
    ⦃u : CharTables⦄ → (x y t : Text) → is_term_of (x ∷ y ∷ []) t ≡ is_term_of (y ∷ x ∷ y ∷ []) t
is_term_of_swapped x y t = ground arith

normalize_terms-canonical_example :
    Ascending (normalize_terms ⦃u = ascii⦄ (codes "Ann 10.0.0.1" ∷ codes "stop" ∷ []))
    × ((t : Text)
        → has t (normalize_terms ⦃u = ascii⦄ (codes "Ann 10.0.0.1" ∷ codes "stop" ∷ []))
          ≡ is_term_of ⦃u = ascii⦄ (codes "Ann 10.0.0.1" ∷ codes "stop" ∷ []) t)
    × (normalize_terms ⦃u = ascii⦄ (codes "Ann 10.0.0.1" ∷ codes "stop" ∷ [])
        ≡ normalize_terms ⦃u = ascii⦄ (codes "stop" ∷ codes "Ann 10.0.0.1" ∷ codes "stop" ∷ []))
normalize_terms-canonical_example =
    normalize_terms-canonical ⦃u = ascii⦄ (codes "Ann 10.0.0.1" ∷ codes "stop" ∷ [])
      (codes "stop" ∷ codes "Ann 10.0.0.1" ∷ codes "stop" ∷ [])
      (is_term_of_swapped ⦃u = ascii⦄ (codes "Ann 10.0.0.1") (codes "stop"))

abbrev words : List Text
words = codes "ann" ∷ codes "start" ∷ []

more_matched :
    matched_count ⦃u = ascii⦄ (codes "ann start") words stopped
    < matched_count ⦃u = ascii⦄ (codes "ann start") words started
unfolding matched_terms eq_text to_lower trim_space
more_matched = omega arith

more_terms-ranks_before_example :
    ranks_before
      (hit_of ⦃u = ascii⦄ (codes "ann start") words started)
      (hit_of ⦃u = ascii⦄ (codes "ann start") words stopped)
    ≡ true
more_terms-ranks_before_example =
    more_terms-ranks_before ⦃u = ascii⦄ (codes "ann start") words started stopped more_matched

memory_search-IsAnswer_of_retrieval_example :
    (found : List Hit) × (memory_search ⦃u = ascii⦄ background store for_ann ≡ ok found)
    × All (IsHit ⦃u = ascii⦄ for_ann) found
    × IsAnswer is_scored ranks_before for_ann.limit (candidates ⦃u = ascii⦄ store for_ann) found (
        rest_of is_scored ranks_before ranks_before-IsStrictWeak for_ann.limit
          (candidates ⦃u = ascii⦄ store for_ann))
memory_search-IsAnswer_of_retrieval_example =
    memory_search-IsAnswer_of_retrieval ⦃u = ascii⦄ store for_ann

store-IsStored : Each (IsStored ⦃u = ascii⦄) store
unfolding validate is_blank eq_text
store-IsStored = ((refl, refl, refl), tt)

memory_append-IsStored_example :
    Each (IsStored ⦃u = ascii⦄) (memory_append ⦃u = ascii⦄ background store stopped).0
    × Appended ⦃u = ascii⦄ store stopped
        (accept ⦃u = ascii⦄ background stopped)
        (memory_append ⦃u = ascii⦄ background store stopped)
memory_append-IsStored_example =
    memory_append-IsStored ⦃u = ascii⦄ background store stopped store-IsStored

Document-discrete : Discrete Document
Document-discrete = hlevel ℕ_discrete

abbrev codec : Codec Document
codec =
    table_codec Document-discrete started stopped (codes "1") (codes "2") (unfold eq_text in refl)

abbrev lines : File
lines = some (codes "1" ∷ [])

lines-Reads : Reads (read_document ⦃u = ascii⦄ codec) (contents lines) (started ∷ [])
unfolding read_document decode too_long line_bytes eq_text trim_space to_lower less_text validate
    is_blank
lines-Reads = (refl, refl, tt)

later_reads : read_document ⦃u = ascii⦄ codec (codes "2") ≡ ok stopped
unfolding read_document decode too_long line_bytes eq_text trim_space to_lower less_text validate
    is_blank
later_reads = refl

file_search-append_unmatched_example :
    file_search ⦃u = ascii⦄ codec background sound_disk
      (some (contents lines ++ codes "2" ∷ []))
      for_ann
    ≡ file_search ⦃u = ascii⦄ codec background sound_disk lines for_ann
file_search-append_unmatched_example =
    file_search-append_unmatched ⦃u = ascii⦄ for_ann codec lines (started ∷ []) (codes "2") stopped
      lines-Reads (unfold too_long line_bytes in refl) later_reads
      (unfold matches field_matches equal_fold eq_text trim_space is_blank in refl)
