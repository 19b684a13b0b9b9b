-- ===== src/RetrievalStore.antt =====
-- internal/storage/metadata/retrieval/store.go: the store of retrieval documents.
pub mod Scoring
pub mod Ranking
pub mod Laws
pub mod Versions
pub mod Tests
use semantic_intelligence_la.Base.Dict.{Dict, lookup, insert, values}
use semantic_intelligence_la.Contracts.Retrieval.{Document, Hit, validate}
use semantic_intelligence_la.Contracts.Retrieval.Terms.{normalize_terms}
use semantic_intelligence_la.Storage.JsonLines.{
  Context, Codec, Disk, File, append_line, on_ok, err_decode, of_option, scan,
}
use semantic_intelligence_la.Query.Filters.{RetrievalQuery}
use semantic_intelligence_la.RetrievalStore.Scoring.{matches, pick_latest, score_results}
use semantic_intelligence_la.Base.{
  if◌then◌else◌, filter_by, Text, CharTables, trim_space, is_blank, Result, ok, err, ◌>>=◌, ◌>>◌,
  check_context, sort_by, less_text, Option, none, some, List, [], ◌∷◌, arith,
}

-- the loop over the attributes: keys and values trimmed, blank keys dropped
unfoldable pub trim_attributes : Dict Text → Dict Text → Dict Text
trim_attributes cloned [] = cloned
trim_attributes cloned ((key, value) ∷ rest) =
    trim_attributes
      (if is_blank key then cloned else insert (trim_space key) (trim_space value) cloned) rest

module _ ⦃u : CharTables⦄ where
  unfoldable pub normalize_document : Document → Document
  unfolding normalize_terms trim_attributes
  normalize_document document = record document {
    document_id = trim_space document.document_id;
    schema_version = trim_space document.schema_version;
    tenant_id = trim_space document.tenant_id;
    source = trim_space document.source;
    source_event_id = trim_space document.source_event_id;
    source_key = trim_space document.source_key;
    entity_type = trim_space document.entity_type;
    event_type = trim_space document.event_type;
    title = trim_space document.title;
    content = trim_space document.content;
    subscriber_id = trim_space document.subscriber_id;
    session_id = trim_space document.session_id;
    request_id = trim_space document.request_id;
    status = trim_space document.status;
    outcome = trim_space document.outcome;
    nas_ip_address = trim_space document.nas_ip_address;
    client_ip_address = trim_space document.client_ip_address;
    policy_name = trim_space document.policy_name;
    reject_reason = trim_space document.reject_reason;
    terms = normalize_terms document.terms;
    tags = sort_by less_text document.tags;
    attributes = trim_attributes [] document.attributes;
  }

  -- the first steps of Append and of the scan's body
  unfoldable pub normal_document : Document → Result Document
  unfolding normalize_document
  normal_document document = do
    validate (normalize_document document)
    ok (normalize_document document)

abbrev pub MemoryStore : Type 0
MemoryStore = Dict Document

-- what a version becomes beside the version that is kept
abbrev pub merge_version : Option Document → Document → Document
merge_version none document = document
merge_version (some existing) document = pick_latest existing document

module _ ⦃u : CharTables⦄ where
  -- the checks of Append before the store is touched
  unfoldable pub accept : Context → Document → Result Document
  unfolding normal_document
  accept ctx document = do check_context (ctx 0); normal_document document

  unfoldable pub memory_append : Context → MemoryStore → Document → MemoryStore × Result (Unit {0})
  unfolding accept
  memory_append ctx store document =
      on_ok store (accept ctx document) (λ d. (insert d.document_id d store, ok tt))

  unfoldable pub memory_search : Context → MemoryStore → RetrievalQuery → Result (List Hit)
  unfolding score_results values
  memory_search ctx store filter = do
    check_context (ctx 0)
    ok (score_results filter (filter_by (matches filter) (values store)))

  -- the rest of one round of the scan
  unfoldable pub collect : RetrievalQuery → Dict Document → Document → Dict Document
  unfolding pick_latest
  collect filter documents document =
      if matches filter document
      then insert document.document_id
          (merge_version (lookup document.document_id documents) document) documents
      else documents

  module _ (codec : Codec Document) where
    unfoldable pub file_append : Context → Disk → File → Document → File × Result (Unit {0})
    unfolding accept
    file_append ctx disk file document =
        on_ok file (accept ctx document) (λ d. append_line disk file (codec.encode d))

    -- json.Unmarshal, normalizeDocument and Validate on one line
    unfoldable pub read_document : Text → Result Document
    unfolding normal_document
    read_document line = do
      document ← of_option err_decode (codec.decode line)
      normal_document document

    unfoldable pub scan_file : Context → RetrievalQuery → File → Result (List Hit)
    unfolding collect read_document
    scan_file ctx filter none = ok []
    scan_file ctx filter (some lines) = do
      documents ← scan ctx read_document (collect filter) 1 [] lines
      ok (score_results filter (values documents))

    unfoldable pub file_search : Context → Disk → File → RetrievalQuery → Result (List Hit)
    unfolding scan_file
    file_search ctx disk file filter = do
      check_context (ctx 0)
      elim disk.open_file [ some e ↦ err e | none ↦ scan_file ctx filter file ]
