-- ===== src/Adapters/Radius.antt =====
-- internal/adapters/radius: RADIUS accounting.
pub mod Laws
use semantic_intelligence_la.Base.Times.{Time, is_zero, ℤ}
use semantic_intelligence_la.Base.Dict.{Dict, insert}
use semantic_intelligence_la.Contracts.Sessions.{
  Event, Status, start, interim_update, stop, other, status_text, schema_version_name,
  event_type_name, validate,
}
use semantic_intelligence_la.Contracts.Evidence.{
  Json, Record, Envelope, validate_envelope, new_partition_key, validate as validate_record,
}
use semantic_intelligence_la.Storage.JsonLines.{of_option, err_decode}
use semantic_intelligence_la.Adapters.Shared.{
  Stamps, Config, validate_source, load_source, add_string_attr, sanitize_id_token, envelope_of,
}
use semantic_intelligence_la.Base.{
  if◌then◌else◌, is_empty, Text, codes, CharTables, eq_text, trim_space, is_blank, join, to_lower,
  equal_fold, required, unsupported, invalid, Result, ok, err, ◌>>=◌, ◌>>◌, fail_if, ℕ, ◌+◌, ◌-◌,
  Bool, true, false, not, ◌||◌, Option, none, some, List, [], ◌∷◌, ◌++◌, arith,
}

pub record AccountingEvent : Type 0 where
  pub username : Text
  pub nas_ip_address : Text
  pub nas_port : Option ℤ
  pub acct_status_type : Text
  pub acct_session_id : Text
  pub framed_ip_address : Text
  pub calling_station_id : Text
  pub called_station_id : Text
  pub timestamp : Time
  pub client_ip : Text
  pub packet_type : Text
  pub acct_input_octets : Option ℕ
  pub acct_output_octets : Option ℕ
  pub acct_session_time : Option ℕ

pub record AdaptedRecord : Type 0 where
  pub event : AccountingEvent
  pub raw : Record
  pub envelope : Envelope

abbrev pub kind_name : Text
kind_name = codes "radius"

abbrev pub source_name : Text
source_name = codes "ras"

abbrev pub default_schema : Text
default_schema = codes "sil.evidence.radius.v1"

unfoldable pub validate_config : Config → Result (Unit {0})
unfolding validate_source
validate_config = validate_source kind_name

unfoldable pub load_config : Result Text → (Text → Result Config) → Result Config
unfolding load_source
load_config = load_source kind_name default_schema

unfoldable pub validate_event : AccountingEvent → Result (Unit {0})
validate_event event = do
  fail_if (is_blank event.username) (required (codes "radius username"))
  fail_if (is_blank event.acct_session_id) (required (codes "radius acct_session_id"))
  fail_if (is_blank event.acct_status_type) (required (codes "radius acct_status_type"))
  fail_if (is_zero event.timestamp) (required (codes "radius timestamp"))

unfoldable pub partition_key : AccountingEvent → Result Text
unfolding new_partition_key
partition_key event =
    if is_blank event.username
    then new_partition_key (codes "session") (trim_space event.acct_session_id)
    else new_partition_key (codes "subscriber") (trim_space event.username)

-- addIntAttr and addUint64Attr
abbrev add_printed {ℓ} : {A : Type ℓ} → (A → Text) → Text → Option A → Dict Text → Dict Text
add_printed print key none attributes = attributes
add_printed print key (some a) attributes = insert key (print a) attributes

module _ (stamps : Stamps) where
  unfoldable pub event_id : AccountingEvent → Text
  unfolding sanitize_id_token
  event_id event =
      source_name
      ++ (codes ":"
          ++ (sanitize_id_token event.acct_session_id
              ++ (codes ":" ++ stamps.rfc3339_nano event.timestamp)))

  unfoldable pub source_key : AccountingEvent → Text
  unfolding sanitize_id_token
  source_key event =
      kind_name
      ++ (codes ":acct:"
          ++ (sanitize_id_token event.username
              ++ (codes ":"
                  ++ (sanitize_id_token event.acct_session_id
                      ++ (codes ":" ++ stamps.key_time event.timestamp)))))

  unfoldable pub attributes_of : AccountingEvent → Dict Text
  unfolding add_string_attr
  attributes_of event =
      let named : Dict Text = add_string_attr (codes "packet_type") event.packet_type (
        add_string_attr (codes "client_ip") event.client_ip (
          add_string_attr (codes "called_station_id") event.called_station_id (
            add_string_attr (codes "calling_station_id") event.calling_station_id (
              add_string_attr (codes "framed_ip_address") event.framed_ip_address (
                add_string_attr (codes "nas_ip_address") event.nas_ip_address (
                  add_string_attr (codes "acct_session_id") event.acct_session_id (
                    add_string_attr (codes "acct_status_type") event.acct_status_type
                      (add_string_attr (codes "username") event.username [])))))))) in
      add_printed stamps.format_uint (codes "acct_session_time") event.acct_session_time (
        add_printed stamps.format_uint (codes "acct_output_octets") event.acct_output_octets (
          add_printed stamps.format_uint (codes "acct_input_octets") event.acct_input_octets
            (add_printed stamps.itoa (codes "nas_port") event.nas_port named)))

  -- the record that Adapt builds; `now` is the clock, asked if no time of ingestion is given
  unfoldable pub record_of : Config → Text → AccountingEvent → Time → Time → Record
  unfolding event_id source_key attributes_of
  record_of cfg payload event ingested_at now = record {
    event_id = event_id event;
    source = source_name;
    source_key = source_key event;
    schema_version = cfg.schema_version;
    tenant_id = cfg.tenant_id;
    occurred_at = event.timestamp;
    ingested_at = if is_zero ingested_at then now else ingested_at;
    attributes = attributes_of event;
    payload = payload;
  }

  module _ (json : Json AccountingEvent) where
    -- Adapt from the trimmed payload on
    unfoldable pub adapt_payload : Config → Text → Time → Time → Result AdaptedRecord
    unfolding validate_event partition_key record_of envelope_of
    adapt_payload cfg payload ingested_at now = do
      fail_if (is_empty payload) (invalid (codes "radius payload is empty"))
      fail_if (not (json.valid payload)) (invalid (codes "radius payload must be valid JSON"))
      event ← of_option err_decode (json.unmarshal payload)
      validate_event event
      key ← partition_key event
      validate_record json.valid (record_of cfg payload event ingested_at now)
      validate_envelope json.valid (envelope_of (record_of cfg payload event ingested_at now) key)
      ok (record {
        event = event;
        raw = record_of cfg payload event ingested_at now;
        envelope = envelope_of (record_of cfg payload event ingested_at now) key;
      })

    unfoldable pub adapt : Config → Text → Time → Time → Result AdaptedRecord
    unfolding validate_config adapt_payload
    adapt cfg payload ingested_at now = do
      validate_config cfg
      adapt_payload cfg (trim_space payload) ingested_at now

abbrev when : Bool → Text → List Text
when true part = part ∷ []
when false part = []

abbrev when_some : Option ℕ → (ℕ → Text) → List Text
when_some none part = []
when_some (some n) part = part n ∷ []

abbrev status_parts : Status → List Text
status_parts start = codes "started a network session" ∷ []
status_parts interim_update = codes "reported an interim network session update" ∷ []
status_parts stop = codes "disconnected" ∷ []
status_parts (other s) = []

abbrev session_time_parts : Stamps → Status → Option ℕ → List Text
session_time_parts stamps stop time =
    when_some time (λ n. codes "after a " ++ (stamps.format_uint n ++ codes " second session"))
session_time_parts stamps status time = []

unfoldable pub build_semantic_text : Stamps → AccountingEvent → Status → Text
unfolding join
build_semantic_text stamps event status = join (codes " ") (
    (codes "user " ++ trim_space event.username)
    ∷ (status_parts status
        ++ (when (not (is_blank event.nas_ip_address))
              (codes "from NAS " ++ trim_space event.nas_ip_address)
            ++ (session_time_parts stamps status event.acct_session_time
                ++ (when_some event.acct_input_octets
                      (λ n. codes "with " ++ (stamps.format_uint n ++ codes " input octets"))
                    ++ when_some event.acct_output_octets
                        (λ n. codes "and " ++ (stamps.format_uint n ++ codes " output octets")))))))

module _ ⦃u : CharTables⦄ where
  unfoldable pub supports_source_type : Text → Bool
  supports_source_type value =
      let name = to_lower (trim_space value) in eq_text name source_name || eq_text name kind_name

  unfoldable pub normalize_status : Text → Result Status
  normalize_status value =
      let name = to_lower (trim_space value) in
      if eq_text name (codes "accounting-start") || eq_text name (codes "start")
      then ok start
      else if eq_text name (codes "interim-update")
          || eq_text name (codes "interim")
          || eq_text name (codes "interim_update")
      then ok interim_update
      else if eq_text name (codes "accounting-stop") || eq_text name (codes "stop")
      then ok stop
      else err (unsupported (codes "accounting status") value)

  module _ (stamps : Stamps) (json : Json AccountingEvent) where
    unfoldable pub decode_record : Record → Result AccountingEvent
    unfolding validate_event
    decode_record r = do
      validate_record json.valid r
      fail_if (not (equal_fold (trim_space r.source) source_name))
          (unsupported (codes "evidence source") r.source)
      event ← of_option err_decode (json.unmarshal r.payload)
      validate_event event
      ok event

    -- the event that NormalizeRecord builds
    unfoldable pub unified : Record → AccountingEvent → Status → Event
    unfolding build_semantic_text
    unified r event status = record {
      event_id = r.event_id ++ codes ":unified";
      source_event_id = r.event_id;
      source = r.source;
      source_key = r.source_key;
      schema_version = schema_version_name;
      event_type = event_type_name;
      tenant_id = r.tenant_id;
      occurred_at = r.occurred_at;
      ingested_at = r.ingested_at;
      subscriber_id = trim_space event.username;
      session_id = trim_space event.acct_session_id;
      status = status;
      nas_ip_address = trim_space event.nas_ip_address;
      nas_port = event.nas_port;
      client_ip_address = trim_space event.client_ip;
      assigned_ip_address = trim_space event.framed_ip_address;
      calling_station_id = trim_space event.calling_station_id;
      called_station_id = trim_space event.called_station_id;
      packet_type = trim_space event.packet_type;
      session_time_seconds = event.acct_session_time;
      input_octets = event.acct_input_octets;
      output_octets = event.acct_output_octets;
      tags = codes "radius" ∷ status_text status ∷ [];
      semantic_text = build_semantic_text stamps event status;
      attributes = r.attributes;
    }

    unfoldable pub normalize_record : Record → Result Event
    unfolding decode_record normalize_status unified
    normalize_record r = do
      event ← decode_record r
      status ← normalize_status event.acct_status_type
      validate (unified r event status)
      ok (unified r event status)
