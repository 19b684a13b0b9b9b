-- ===== src/Contracts/Sessions.antt =====
-- internal/contracts/unified/sessions/types.go: network session events.
-- A pointer field that may be nil is an Option; counters are uint64.
use semantic_intelligence_la.Base.Times.{Time, is_zero, ℤ}
use semantic_intelligence_la.Base.Dict.{Dict}
use semantic_intelligence_la.Base.{
  Text, codes, is_blank, required, unsupported, Result, ◌>>◌, fail_if, ℕ, Bool, true, false, not,
  Option, List,
}

pub data Status : Type 0 where
  start interim_update stop : Status
  other : Text → Status

pub record Event : Type 0 where
  pub event_id : Text
  pub source_event_id : Text
  pub source : Text
  pub source_key : Text
  pub schema_version : Text
  pub event_type : Text
  pub tenant_id : Text
  pub occurred_at : Time
  pub ingested_at : Time
  pub subscriber_id : Text
  pub session_id : Text
  pub status : Status
  pub nas_ip_address : Text
  pub nas_port : Option ℤ
  pub client_ip_address : Text
  pub assigned_ip_address : Text
  pub calling_station_id : Text
  pub called_station_id : Text
  pub packet_type : Text
  pub session_time_seconds : Option ℕ
  pub input_octets : Option ℕ
  pub output_octets : Option ℕ
  pub tags : List Text
  pub semantic_text : Text
  pub attributes : Dict Text

abbrev pub schema_version_name : Text
schema_version_name = codes "sil.unified.network-session.v1"

abbrev pub event_type_name : Text
event_type_name = codes "network.session.accounting"

-- the string of a status
abbrev pub status_text : Status → Text
status_text start = codes "start"
status_text interim_update = codes "interim_update"
status_text stop = codes "stop"
status_text (other s) = s

unfoldable pub valid_status : Status → Bool
valid_status (other _) = false
valid_status _ = true

unfoldable pub validate : Event → Result (Unit {0})
unfolding valid_status
validate event = do
  fail_if (is_blank event.event_id) (required (codes "event_id"))
  fail_if (is_blank event.source_event_id) (required (codes "source_event_id"))
  fail_if (is_blank event.source) (required (codes "source"))
  fail_if (is_blank event.source_key) (required (codes "source_key"))
  fail_if (is_blank event.schema_version) (required (codes "schema_version"))
  fail_if (is_blank event.event_type) (required (codes "event_type"))
  fail_if (is_blank event.tenant_id) (required (codes "tenant_id"))
  fail_if (is_blank event.subscriber_id) (required (codes "subscriber_id"))
  fail_if (is_blank event.session_id) (required (codes "session_id"))
  fail_if (not (valid_status event.status))
      (unsupported (codes "status") (status_text event.status))
  fail_if (is_zero event.occurred_at) (required (codes "occurred_at"))
  fail_if (is_zero event.ingested_at) (required (codes "ingested_at"))
  fail_if (is_blank event.semantic_text) (required (codes "semantic_text"))
