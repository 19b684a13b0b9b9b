-- ===== src/Pipeline/Sessions.antt =====
-- internal/services/normalize/service.go: raw accounting evidence becomes session events.
pub mod Laws
use semantic_intelligence_la.Contracts.Sessions.{Event}
use semantic_intelligence_la.Contracts.Evidence.{
  Json, Record, Envelope, new_partition_key, validate_envelope,
}
use semantic_intelligence_la.Adapters.Shared.{Stamps}
use semantic_intelligence_la.Adapters.Radius.{AccountingEvent, normalize_record}
use semantic_intelligence_la.Storage.JsonLines.{Context}
use semantic_intelligence_la.Pipeline.Normalize.{Service, Progress, run as run_service}
use semantic_intelligence_la.Base.{
  if◌then◌else◌, is_empty, Text, codes, CharTables, Result, ok, ◌>>=◌, ◌>>◌, Bool, not, Option,
  List, arith,
}

unfoldable pub partition_key : Event → Result Text
unfolding new_partition_key
partition_key event =
    if not (is_empty event.subscriber_id)
    then new_partition_key (codes "subscriber") event.subscriber_id
    else new_partition_key (codes "session") event.session_id

-- json.Marshal and json.Valid are parameters
unfoldable pub build_envelope : (Event → Result Text) → (Text → Bool) → Event → Result Envelope
unfolding partition_key
build_envelope marshal valid event = do
  payload ← marshal event
  key ← partition_key event
  let envelope : Envelope = record {
    event_id = event.event_id;
    source = event.source;
    source_key = event.source_key;
    schema_version = event.schema_version;
    partition_key = key;
    occurred_at = event.occurred_at;
    ingested_at = event.ingested_at;
    payload = payload;
  }
  validate_envelope valid envelope
  ok envelope

-- the service with its stores; Service of the package
unfoldable pub service_of :
    ⦃u : CharTables⦄
    → {S P : Type 0} → Stamps
    → Json AccountingEvent
    → (Event → Result Text)
    → Option (Event → S → S × Result (Unit {0}))
    → Option (Envelope → P → P × Result (Unit {0}))
    → Service Event S P
service_of stamps json marshal project publish = record {
  normalize = normalize_record stamps json;
  encode = marshal;
  project = project;
  publish = publish;
  build_envelope = build_envelope marshal json.valid;
}

-- Service.Run: `none` is a nil store, and the flag says that there is a writer
unfoldable pub run :
    ⦃u : CharTables⦄
    → {S P : Type 0} → Stamps
    → Json AccountingEvent
    → (Event → Result Text)
    → Option (Event → S → S × Result (Unit {0}))
    → Option (Envelope → P → P × Result (Unit {0}))
    → Context
    → Option (Result (List Record))
    → Bool
    → Progress S P
    → Progress S P × Result (Unit {0})
unfolding run_service service_of
run stamps json marshal project publish =
    run_service (service_of stamps json marshal project publish)
