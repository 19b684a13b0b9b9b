-- ===== src/Contracts/Retrieval.antt =====
-- internal/contracts/unified/retrieval/types.go: retrieval documents and hits.
-- A score is a float64 that is only ever a multiple of one half: it counts halves.
pub mod Terms
pub mod TermSets
pub mod TermLaws
use semantic_intelligence_la.Base.Times.{Time}
use semantic_intelligence_la.Base.Dict.{Dict}
use semantic_intelligence_la.Base.Times.{is_zero}
use semantic_intelligence_la.Base.{
  if◌then◌else◌, is_empty, Text, codes, eq_text, trim_space, is_blank, required, unsupported,
  Result, err, ◌>>=◌, ◌>>◌, fail_if, ℕ, List, arith,
}

pub record Document : Type 0 where
  pub document_id : Text
  pub schema_version : Text
  pub tenant_id : Text
  pub source : Text
  pub source_event_id : Text
  pub source_key : Text
  pub entity_type : Text
  pub event_type : Text
  pub occurred_at : Time
  pub ingested_at : Time
  pub title : Text
  pub content : Text
  pub subscriber_id : Text
  pub session_id : Text
  pub request_id : Text
  pub status : Text
  pub outcome : Text
  pub nas_ip_address : Text
  pub client_ip_address : Text
  pub policy_name : Text
  pub reject_reason : Text
  pub tags : List Text
  pub terms : List Text
  pub attributes : Dict Text

pub record Hit : Type 0 where
  pub score : ℕ
  pub matched_terms : List Text
  pub document : Document

abbrev pub schema_version_text : Text
schema_version_text = codes "sil.retrieval.document.v1"

abbrev pub network_session : Text
network_session = codes "network_session"

abbrev pub network_access : Text
network_access = codes "network_access"

-- the `switch` on the entity type
unfoldable pub validate_entity : Document → Result (Unit {0})
validate_entity document =
    if eq_text (trim_space document.entity_type) network_session
    then (do
      fail_if (is_blank document.session_id) (required (codes "session_id"))
      fail_if (is_blank document.status) (required (codes "status")))
    else if eq_text (trim_space document.entity_type) network_access
    then (do
      fail_if (is_blank document.request_id) (required (codes "request_id"))
      fail_if (is_blank document.outcome) (required (codes "outcome")))
    else err (unsupported (codes "entity_type") document.entity_type)

-- Document.Validate
unfoldable pub validate : Document → Result (Unit {0})
unfolding validate_entity
validate document = do
  fail_if (is_blank document.document_id) (required (codes "document_id"))
  fail_if (is_blank document.schema_version) (required (codes "schema_version"))
  fail_if (is_blank document.tenant_id) (required (codes "tenant_id"))
  fail_if (is_blank document.source) (required (codes "source"))
  fail_if (is_blank document.source_event_id) (required (codes "source_event_id"))
  fail_if (is_blank document.source_key) (required (codes "source_key"))
  fail_if (is_blank document.entity_type) (required (codes "entity_type"))
  fail_if (is_blank document.event_type) (required (codes "event_type"))
  fail_if (is_zero document.occurred_at) (required (codes "occurred_at"))
  fail_if (is_zero document.ingested_at) (required (codes "ingested_at"))
  fail_if (is_blank document.title) (required (codes "title"))
  fail_if (is_blank document.content) (required (codes "content"))
  fail_if (is_blank document.subscriber_id) (required (codes "subscriber_id"))
  fail_if (is_empty document.terms) (required (codes "terms"))
  validate_entity document
