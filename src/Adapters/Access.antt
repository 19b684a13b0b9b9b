-- ===== src/Adapters/Access.antt =====
-- internal/adapters/access: authentication decisions.
pub mod Laws
use semantic_intelligence_la.Base.Times.{Time, is_zero}
use semantic_intelligence_la.Base.Dict.{Dict}
use semantic_intelligence_la.Contracts.Access.{
  Event, Outcome, accepted, rejected, challenged, other, outcome_text, validate,
  schema_version_name, event_type_name,
}
use semantic_intelligence_la.Contracts.Evidence.{
  Json, Record, Envelope, validate_envelope, new_partition_key, validate as validate_record,
}
use semantic_intelligence_la.Storage.JsonLines.{of_option, err_decode}
use semantic_intelligence_la.Adapters.Shared.{
  Stamps, Config, validate_source, load_source, add_string_attr, sanitize_id_token, envelope_of,
}
use semantic_intelligence_la.Base.{
  if◌then◌else◌, is_empty, Text, codes, CharTables, eq_text, trim_space, is_blank, join, to_lower,
  equal_fold, required, unsupported, invalid, Result, ok, err, ◌>>=◌, ◌>>◌, fail_if, ◌+◌, ◌-◌, Bool,
  not, ◌||◌, List, [], ◌∷◌, ◌++◌, arith,
}

pub record AuthEvent : Type 0 where
  pub username : Text
  pub request_id : Text
  pub decision : Text
  pub reject_reason : Text
  pub nas_ip_address : Text
  pub client_ip : Text
  pub calling_station_id : Text
  pub called_station_id : Text
  pub packet_type : Text
  pub auth_protocol : Text
  pub policy_name : Text
  pub acct_session_id : Text
  pub timestamp : Time

pub record AdaptedRecord : Type 0 where
  pub event : AuthEvent
  pub raw : Record
  pub envelope : Envelope

abbrev pub kind_name : Text
kind_name = codes "access"

abbrev pub source_name : Text
source_name = codes "aaa_auth"

abbrev pub default_schema : Text
default_schema = codes "sil.evidence.access.v1"

unfoldable pub validate_config : Config → Result (Unit {0})
unfolding validate_source
validate_config = validate_source kind_name

unfoldable pub load_config : Result Text → (Text → Result Config) → Result Config
unfolding load_source
load_config = load_source kind_name default_schema

unfoldable pub validate_event : AuthEvent → Result (Unit {0})
validate_event event = do
  fail_if (is_blank event.username) (required (codes "access username"))
  fail_if (is_blank event.decision) (required (codes "access decision"))
  fail_if (is_zero event.timestamp) (required (codes "access timestamp"))

unfoldable pub effective_request_id : AuthEvent → Text
effective_request_id event =
    if not (is_blank event.request_id)
    then trim_space event.request_id
    else if not (is_blank event.acct_session_id)
    then trim_space event.acct_session_id
    else trim_space event.decision

unfoldable pub partition_key : AuthEvent → Result Text
unfolding new_partition_key
partition_key event =
    if not (is_blank event.username)
    then new_partition_key (codes "subscriber") (trim_space event.username)
    else if not (is_blank event.acct_session_id)
    then new_partition_key (codes "session") (trim_space event.acct_session_id)
    else new_partition_key (codes "client_ip") (trim_space event.client_ip)

module _ (stamps : Stamps) where
  unfoldable pub event_id : AuthEvent → Text
  unfolding sanitize_id_token effective_request_id
  event_id event =
      source_name
      ++ (codes ":"
          ++ (sanitize_id_token (effective_request_id event)
              ++ (codes ":" ++ stamps.rfc3339_nano event.timestamp)))

  unfoldable pub source_key : AuthEvent → Text
  unfolding sanitize_id_token effective_request_id
  source_key event =
      kind_name
      ++ (codes ":auth:"
          ++ (sanitize_id_token event.username
              ++ (codes ":"
                  ++ (sanitize_id_token (effective_request_id event)
                      ++ (codes ":" ++ stamps.key_time event.timestamp)))))

  unfoldable pub attributes_of : AuthEvent → Dict Text
  unfolding add_string_attr
  attributes_of event = add_string_attr (codes "acct_session_id") event.acct_session_id (
      add_string_attr (codes "policy_name") event.policy_name (
        add_string_attr (codes "auth_protocol") event.auth_protocol (
          add_string_attr (codes "packet_type") event.packet_type (
            add_string_attr (codes "called_station_id") event.called_station_id (
              add_string_attr (codes "calling_station_id") event.calling_station_id (
                add_string_attr (codes "client_ip") event.client_ip (
                  add_string_attr (codes "nas_ip_address") event.nas_ip_address (
                    add_string_attr (codes "reject_reason") event.reject_reason (
                      add_string_attr (codes "decision") event.decision (
                        add_string_attr (codes "request_id") event.request_id
                          (add_string_attr (codes "username") event.username [])))))))))))

  -- the record that Adapt builds; `now` is the clock, asked if no time of ingestion is given
  unfoldable pub record_of : Config → Text → AuthEvent → Time → Time → Record
  unfolding event_id source_key attributes_of
  record_of cfg payload event ingested_at now = record {
    event_id = event_id event;
    source = source_name;
    source_key = source_key event;
    schema_version = cfg.schema_version;
    tenant_id = cfg.tenant_id;
    occurred_at = event.timestamp;
    ingested_at = if is_zero ingested_at then now else ingested_at;
    attributes = attributes_of event;
    payload = payload;
  }

  module _ (json : Json AuthEvent) where
    -- Adapt from the trimmed payload on
    unfoldable pub adapt_payload : Config → Text → Time → Time → Result AdaptedRecord
    unfolding validate_event partition_key record_of envelope_of
    adapt_payload cfg payload ingested_at now = do
      fail_if (is_empty payload) (invalid (codes "access payload is empty"))
      fail_if (not (json.valid payload)) (invalid (codes "access payload must be valid JSON"))
      event ← of_option err_decode (json.unmarshal payload)
      validate_event event
      key ← partition_key event
      validate_record json.valid (record_of cfg payload event ingested_at now)
      validate_envelope json.valid (envelope_of (record_of cfg payload event ingested_at now) key)
      ok (record {
        event = event;
        raw = record_of cfg payload event ingested_at now;
        envelope = envelope_of (record_of cfg payload event ingested_at now) key;
      })

    unfoldable pub adapt : Config → Text → Time → Time → Result AdaptedRecord
    unfolding validate_config adapt_payload
    adapt cfg payload ingested_at now = do
      validate_config cfg
      adapt_payload cfg (trim_space payload) ingested_at now

abbrev outcome_parts : Outcome → List Text
outcome_parts accepted = codes "authenticated successfully" ∷ []
outcome_parts rejected = codes "authentication was rejected" ∷ []
outcome_parts challenged = codes "authentication requires additional challenge" ∷ []
outcome_parts (other s) = []

-- a part that is made if the field is not blank
abbrev part_of : Text → Text → List Text
part_of words field = if is_blank field then [] else (words ++ trim_space field) ∷ []

abbrev reason_parts : Outcome → Text → List Text
reason_parts rejected reason = part_of (codes "because ") reason
reason_parts outcome reason = []

unfoldable pub build_semantic_text : AuthEvent → Outcome → Text
unfolding join
build_semantic_text event outcome = join (codes " ") (
    (codes "user " ++ trim_space event.username)
    ∷ (outcome_parts outcome
        ++ (part_of (codes "on NAS ") event.nas_ip_address
            ++ (part_of (codes "from client ") event.client_ip
                ++ (part_of (codes "using ") event.auth_protocol
                    ++ (part_of (codes "under policy ") event.policy_name
                        ++ reason_parts outcome event.reject_reason))))))

module _ ⦃u : CharTables⦄ where
  unfoldable pub supports_source_type : Text → Bool
  supports_source_type value =
      let name = to_lower (trim_space value) in
      eq_text name source_name
      || eq_text name kind_name
      || eq_text name (codes "aaa")
      || eq_text name (codes "aaa-auth")

  unfoldable pub normalize_outcome : Text → Result Outcome
  normalize_outcome value =
      let name = to_lower (trim_space value) in
      if eq_text name (codes "access-accept")
        || eq_text name (codes "accepted")
        || eq_text name (codes "accept")
      then ok accepted
      else if eq_text name (codes "access-reject")
          || eq_text name (codes "rejected")
          || eq_text name (codes "reject")
      then ok rejected
      else if eq_text name (codes "access-challenge")
          || eq_text name (codes "challenged")
          || eq_text name (codes "challenge")
      then ok challenged
      else err (unsupported (codes "access decision") value)

  unfoldable pub decode_record : Json AuthEvent → Record → Result AuthEvent
  unfolding validate_event
  decode_record json r = do
    validate_record json.valid r
    fail_if (not (equal_fold (trim_space r.source) source_name))
        (unsupported (codes "evidence source") r.source)
    event ← of_option err_decode (json.unmarshal r.payload)
    validate_event event
    ok event

-- the event that NormalizeRecord builds
unfoldable pub unified : Record → AuthEvent → Outcome → Event
unfolding build_semantic_text effective_request_id
unified r event outcome = record {
  event_id = r.event_id ++ codes ":unified";
  source_event_id = r.event_id;
  source = r.source;
  source_key = r.source_key;
  schema_version = schema_version_name;
  event_type = event_type_name;
  tenant_id = r.tenant_id;
  occurred_at = r.occurred_at;
  ingested_at = r.ingested_at;
  subscriber_id = trim_space event.username;
  request_id = effective_request_id event;
  session_id = trim_space event.acct_session_id;
  outcome = outcome;
  reject_reason = trim_space event.reject_reason;
  nas_ip_address = trim_space event.nas_ip_address;
  client_ip_address = trim_space event.client_ip;
  calling_station_id = trim_space event.calling_station_id;
  called_station_id = trim_space event.called_station_id;
  packet_type = trim_space event.packet_type;
  auth_protocol = trim_space event.auth_protocol;
  policy_name = trim_space event.policy_name;
  tags = codes "aaa" ∷ codes "auth" ∷ outcome_text outcome ∷ [];
  semantic_text = build_semantic_text event outcome;
  attributes = r.attributes;
}

unfoldable pub normalize_record : ⦃u : CharTables⦄ → Json AuthEvent → Record → Result Event
unfolding decode_record normalize_outcome unified
normalize_record json r = do
  event ← decode_record json r
  outcome ← normalize_outcome event.decision
  validate (unified r event outcome)
  ok (unified r event outcome)
