-- ===== src/Contracts/Access.antt =====
-- internal/contracts/unified/access/types.go: network access events.
use semantic_intelligence_la.Base.Times.{Time, is_zero}
use semantic_intelligence_la.Base.Dict.{Dict}
use semantic_intelligence_la.Base.{
  Text, codes, is_blank, required, unsupported, Result, ◌>>◌, fail_if, Bool, true, false, not, List,
}

pub data Outcome : Type 0 where
  accepted rejected challenged : Outcome
  other : Text → Outcome

pub record Event : Type 0 where
  pub event_id : Text
  pub source_event_id : Text
  pub source : Text
  pub source_key : Text
  pub schema_version : Text
  pub event_type : Text
  pub tenant_id : Text
  pub occurred_at : Time
  pub ingested_at : Time
  pub subscriber_id : Text
  pub request_id : Text
  pub session_id : Text
  pub outcome : Outcome
  pub reject_reason : Text
  pub nas_ip_address : Text
  pub client_ip_address : Text
  pub calling_station_id : Text
  pub called_station_id : Text
  pub packet_type : Text
  pub auth_protocol : Text
  pub policy_name : Text
  pub tags : List Text
  pub semantic_text : Text
  pub attributes : Dict Text

abbrev pub schema_version_name : Text
schema_version_name = codes "sil.unified.network-access.v1"

abbrev pub event_type_name : Text
event_type_name = codes "network.access.authentication"

-- the string of an outcome
abbrev pub outcome_text : Outcome → Text
outcome_text accepted = codes "accepted"
outcome_text rejected = codes "rejected"
outcome_text challenged = codes "challenged"
outcome_text (other s) = s

unfoldable pub valid_outcome : Outcome → Bool
valid_outcome (other _) = false
valid_outcome _ = true

unfoldable pub validate : Event → Result (Unit {0})
unfolding valid_outcome
validate event = do
  fail_if (is_blank event.event_id) (required (codes "event_id"))
  fail_if (is_blank event.source_event_id) (required (codes "source_event_id"))
  fail_if (is_blank event.source) (required (codes "source"))
  fail_if (is_blank event.source_key) (required (codes "source_key"))
  fail_if (is_blank event.schema_version) (required (codes "schema_version"))
  fail_if (is_blank event.event_type) (required (codes "event_type"))
  fail_if (is_blank event.tenant_id) (required (codes "tenant_id"))
  fail_if (is_blank event.subscriber_id) (required (codes "subscriber_id"))
  fail_if (is_blank event.request_id) (required (codes "request_id"))
  fail_if (not (valid_outcome event.outcome))
      (unsupported (codes "outcome") (outcome_text event.outcome))
  fail_if (is_zero event.occurred_at) (required (codes "occurred_at"))
  fail_if (is_zero event.ingested_at) (required (codes "ingested_at"))
  fail_if (is_blank event.semantic_text) (required (codes "semantic_text"))
