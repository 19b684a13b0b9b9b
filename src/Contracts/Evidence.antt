-- ===== src/Contracts/Evidence.antt =====
-- internal/contracts/raw/evidence/types.go and internal/platform/messaging/messaging.go: raw
-- evidence records, and the envelopes in which they are published. encoding/json is a parameter;
-- a RawMessage is its text.
use semantic_intelligence_la.Base.Times.{Time, is_zero}
use semantic_intelligence_la.Base.Dict.{Dict}
use semantic_intelligence_la.Base.{
  is_empty, Text, codes, trim_space, is_blank, required, invalid, Result, ok, ◌>>◌, fail_if, ◌≡◌,
  Bool, false, not, Option, ◌++◌, arith,
}

-- json.Valid, and json.Unmarshal into one type
pub record Json {ℓ} (A : Type ℓ) : Type ℓ where
  pub valid : Text → Bool
  pub unmarshal : Text → Option A

pub record Record : Type 0 where
  pub event_id : Text
  pub source : Text
  pub source_key : Text
  pub schema_version : Text
  pub tenant_id : Text
  pub occurred_at : Time
  pub ingested_at : Time
  pub attributes : Dict Text
  pub payload : Text

pub record Envelope : Type 0 where
  pub event_id : Text
  pub source : Text
  pub source_key : Text
  pub schema_version : Text
  pub partition_key : Text
  pub occurred_at : Time
  pub ingested_at : Time
  pub payload : Text

module _ (valid : Text → Bool) where
  -- Record.Validate
  unfoldable pub validate : Record → Result (Unit {0})
  validate r = do
    fail_if (is_blank r.event_id) (required (codes "event_id"))
    fail_if (is_blank r.source) (required (codes "source"))
    fail_if (is_blank r.source_key) (required (codes "source_key"))
    fail_if (is_blank r.schema_version) (required (codes "schema_version"))
    fail_if (is_blank r.tenant_id) (required (codes "tenant_id"))
    fail_if (is_zero r.occurred_at) (required (codes "occurred_at"))
    fail_if (is_zero r.ingested_at) (required (codes "ingested_at"))
    fail_if (is_empty r.payload) (required (codes "payload"))
    fail_if (not (valid r.payload)) (invalid (codes "payload must be valid JSON"))

  -- Envelope.Validate
  unfoldable pub validate_envelope : Envelope → Result (Unit {0})
  validate_envelope e = do
    fail_if (is_blank e.event_id) (required (codes "event_id"))
    fail_if (is_blank e.source) (required (codes "source"))
    fail_if (is_blank e.source_key) (required (codes "source_key"))
    fail_if (is_blank e.schema_version) (required (codes "schema_version"))
    fail_if (is_blank e.partition_key) (required (codes "partition_key"))
    fail_if (is_zero e.occurred_at) (required (codes "occurred_at"))
    fail_if (is_zero e.ingested_at) (required (codes "ingested_at"))
    fail_if (is_empty e.payload) (required (codes "payload"))
    fail_if (not (valid e.payload)) (invalid (codes "payload must be valid JSON"))

  -- the fields that a valid record has
  pub record IsFilled (r : Record) : Type 0 where
    pub event_id : is_blank r.event_id ≡ false
    pub source : is_blank r.source ≡ false
    pub source_key : is_blank r.source_key ≡ false
    pub schema_version : is_blank r.schema_version ≡ false
    pub tenant_id : is_blank r.tenant_id ≡ false
    pub occurred_at : is_zero r.occurred_at ≡ false
    pub ingested_at : is_zero r.ingested_at ≡ false

  pub validate-IsFilled : (r : Record) → validate r ≡ ok tt → IsFilled r
  unfolding validate
  validate-IsFilled r h = record {
    event_id = ground arith;
    source = ground arith;
    source_key = ground arith;
    schema_version = ground arith;
    tenant_id = ground arith;
    occurred_at = ground arith;
    ingested_at = ground arith;
  }

-- messaging.NewPartitionKey
unfoldable pub new_partition_key : Text → Text → Result Text
new_partition_key kind value = do
  fail_if (is_blank kind) (required (codes "partition key kind"))
  fail_if (is_blank value) (required (codes "partition key value"))
  ok (trim_space kind ++ (codes ":" ++ trim_space value))
