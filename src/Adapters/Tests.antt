-- ===== src/Adapters/Tests.antt =====
-- The theorems at an accounting and an authentication payload.
use semantic_intelligence_la.Base.Times.{pos, is_zero, zero_time}
use semantic_intelligence_la.Contracts.Sessions
use semantic_intelligence_la.Contracts.Access
use semantic_intelligence_la.Contracts.Evidence.{Json, Record, validate, validate_envelope}
use semantic_intelligence_la.Adapters.Shared.{Stamps, Config, envelope_of}
use semantic_intelligence_la.Adapters.Radius
use semantic_intelligence_la.Adapters.Radius.Laws as RadiusLaws
use semantic_intelligence_la.Adapters.Access as Auth
use semantic_intelligence_la.Adapters.Access.Laws as AuthLaws
use semantic_intelligence_la.Base.{
  if◌then◌else◌, Text, codes, ascii, eq_text, trim_space, is_blank, to_lower, Result, ok, err, ◌≡◌,
  refl, true, false, none, some, [], ◌++◌,
}

abbrev pub stamps : Stamps
stamps = record {
  rfc3339_nano = λ t. codes "now";
  key_time = λ t. codes "then";
  format_uint = λ n. codes "9";
  itoa = λ n. codes "1";
}

-- every text is valid JSON, of one value
abbrev pub json_of {ℓ} : {A : Type ℓ} → A → Json A
json_of a = record { valid = λ text. true; unmarshal = λ text. some a }

abbrev pub accounting : Radius.AccountingEvent
accounting = record {
  username = codes " ann ";
  nas_ip_address = codes "10.0.0.1";
  nas_port = some (pos 1);
  acct_status_type = codes "Accounting-Stop";
  acct_session_id = codes "s 1";
  framed_ip_address = [];
  calling_station_id = [];
  called_station_id = [];
  timestamp = 5;
  client_ip = [];
  packet_type = [];
  acct_input_octets = some 9;
  acct_output_octets = none;
  acct_session_time = some 9;
}

abbrev pub source_config : Text → Config
source_config kind = record {
  id = kind;
  kind = kind;
  enabled = true;
  tenant_id = codes "t";
  display_name = [];
  provider = codes "p";
  input_path = codes "in";
  schema_version = codes "v";
  subject = codes "sub";
}

abbrev pub radius_config : Config
radius_config = source_config (codes "radius")

-- an answer's value, and a value to stand for an error
abbrev ok_or {ℓ} : {A : Type ℓ} → A → Result A → A
ok_or a (ok b) = b
ok_or a (err e) = a

abbrev pub payload : Text
payload = codes " {} "

abbrev pub radius_made : Record
radius_made = Radius.record_of stamps radius_config (codes "{}") accounting 7 8

abbrev pub adapted : Radius.AdaptedRecord
adapted = record {
  event = accounting;
  raw = radius_made;
  envelope = envelope_of radius_made (codes "subscriber:ann");
}

pub adapted_ok : Radius.adapt stamps (json_of accounting) radius_config payload 7 8 ≡ ok adapted
unfolding Radius.adapt is_blank eq_text validate validate_envelope
adapted_ok = refl

pub stopped : Radius.normalize_status ⦃u = ascii⦄ accounting.acct_status_type ≡ ok Sessions.stop
unfolding Radius.normalize_status eq_text to_lower trim_space
stopped = refl

adapt-routes_of_radius_example :
    (adapted.envelope.partition_key ≡ codes "subscriber:" ++ trim_space accounting.username)
    × (adapted.envelope.event_id ≡ adapted.raw.event_id)
    × (adapted.envelope.source ≡ adapted.raw.source)
    × (adapted.envelope.source_key ≡ adapted.raw.source_key)
    × (adapted.envelope.schema_version ≡ adapted.raw.schema_version)
    × (adapted.envelope.occurred_at ≡ adapted.raw.occurred_at)
    × (adapted.envelope.ingested_at ≡ adapted.raw.ingested_at)
    × (adapted.envelope.payload ≡ adapted.raw.payload)
    × (adapted.raw.payload ≡ trim_space payload)
    × ((json_of accounting).unmarshal (trim_space payload) ≡ some accounting)
    × (adapted.raw.source ≡ codes "ras")
    × (adapted.raw.tenant_id ≡ radius_config.tenant_id)
    × (adapted.raw.schema_version ≡ radius_config.schema_version)
    × (adapted.raw.occurred_at ≡ accounting.timestamp)
    × (adapted.raw.ingested_at ≡ (if is_zero 7 then 8 else 7))
adapt-routes_of_radius_example =
    RadiusLaws.adapt-routes_of_radius stamps (json_of accounting) radius_config payload 7 8 adapted
      adapted_ok

normalize_record-adapt_of_radius_example :
    (e : Sessions.Event) × (Radius.normalize_record ⦃u = ascii⦄ stamps
        (json_of accounting)
        adapted.raw
      ≡ ok e)
    × (Sessions.validate e ≡ ok tt)
    × (e.source_event_id ≡ adapted.raw.event_id)
    × (e.tenant_id ≡ radius_config.tenant_id)
    × (e.subscriber_id ≡ trim_space accounting.username)
    × (e.session_id ≡ trim_space accounting.acct_session_id)
    × (e.occurred_at ≡ accounting.timestamp)
    × (e.status ≡ Sessions.stop)
    × (e.session_time_seconds ≡ accounting.acct_session_time)
    × (e.input_octets ≡ accounting.acct_input_octets)
    × (e.output_octets ≡ accounting.acct_output_octets)
normalize_record-adapt_of_radius_example =
    RadiusLaws.normalize_record-adapt_of_radius ⦃u = ascii⦄ stamps (json_of accounting)
      radius_config payload 7 8 adapted Sessions.stop adapted_ok stopped

abbrev pub auth : Auth.AuthEvent
auth = record {
  username = codes " ann ";
  request_id = [];
  decision = codes "reject";
  reject_reason = codes "bad password";
  nas_ip_address = codes "10.0.0.1";
  client_ip = [];
  calling_station_id = [];
  called_station_id = [];
  packet_type = [];
  auth_protocol = [];
  policy_name = [];
  acct_session_id = [];
  timestamp = 5;
}

abbrev pub access_config : Config
access_config = source_config (codes "access")

abbrev auth_made : Record
auth_made = Auth.record_of stamps access_config (codes "{}") auth zero_time 8

abbrev auth_adapted : Auth.AdaptedRecord
auth_adapted = record {
  event = auth;
  raw = auth_made;
  envelope = envelope_of auth_made (codes "subscriber:ann");
}

auth_ok : Auth.adapt stamps (json_of auth) access_config payload zero_time 8 ≡ ok auth_adapted
unfolding Auth.adapt is_blank eq_text validate validate_envelope
auth_ok = refl

refused : Auth.normalize_outcome ⦃u = ascii⦄ auth.decision ≡ ok Access.rejected
unfolding Auth.normalize_outcome eq_text to_lower trim_space
refused = refl

normalize_record-adapt_of_access_example :
    (e : Access.Event) × (Auth.normalize_record ⦃u = ascii⦄ (json_of auth) auth_adapted.raw ≡ ok e)
    × (Access.validate e ≡ ok tt)
    × (e.source_event_id ≡ auth_adapted.raw.event_id)
    × (e.tenant_id ≡ access_config.tenant_id)
    × (e.subscriber_id ≡ trim_space auth.username)
    × (is_blank e.request_id ≡ false)
    × (e.occurred_at ≡ auth.timestamp)
    × (e.outcome ≡ Access.rejected)
normalize_record-adapt_of_access_example =
    AuthLaws.normalize_record-adapt_of_access ⦃u = ascii⦄ (json_of auth) stamps access_config
      payload zero_time 8 auth_adapted Access.rejected auth_ok refused
