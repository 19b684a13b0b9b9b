-- ===== src/Adapters/Radius/Laws.antt =====
-- What becomes of an accounting payload.
use semantic_intelligence_la.Base.Blanks.{is_blank-append, is_blank-join}
use semantic_intelligence_la.Base.Results.{Meets-keep}
use semantic_intelligence_la.Base.Times.{Time, is_zero}
use semantic_intelligence_la.Contracts.Sessions.{
  Event, Status, start, interim_update, stop, other, valid_status, schema_version_name,
  event_type_name, validate,
}
use semantic_intelligence_la.Contracts.Evidence.{
  Json, Record, Envelope, validate_envelope, validate as validate_record, IsFilled,
  validate-IsFilled,
}
use semantic_intelligence_la.Storage.JsonLines.{of_option, err_decode, of_option-eq-ok}
use semantic_intelligence_la.Adapters.Routing.{new_partition_key-subscriber}
use semantic_intelligence_la.Adapters.Shared.{Stamps, Config, envelope_of}
use semantic_intelligence_la.Adapters.Radius.{
  AccountingEvent, AdaptedRecord, source_name, validate_config, validate_event, partition_key,
  record_of, adapt_payload, adapt, build_semantic_text, normalize_status, decode_record, unified,
  normalize_record,
}
use semantic_intelligence_la.Base.{
  if◌then◌else◌, is_empty, Text, codes, CharTables, trim_space, is_blank, equal_fold, eq_text_refl,
  ok, fail_if, Meets, Meets-bind, Meets-eq-ok, is_blank-trim_space, ◌≡◌, refl, ap, ◌∙◌, true, false,
  not, some, ◌++◌, map, arith,
}

-- a valid accounting event names its subscriber and its session
validate_event-named :
    (event : AccountingEvent)
    → validate_event event ≡ ok tt
    → (is_blank event.username ≡ false) × (is_blank event.acct_session_id ≡ false)
unfolding validate_event
validate_event-named event h = (ground arith, ground arith)

-- every valid accounting event is routed by its subscriber
partition_key-subscriber :
    (event : AccountingEvent)
    → is_blank event.username ≡ false
    → partition_key event ≡ ok (codes "subscriber:" ++ trim_space event.username)
unfolding partition_key
partition_key-subscriber event named = rw named (new_partition_key-subscriber event.username named)

module _ (stamps : Stamps) (json : Json AccountingEvent) (cfg : Config) (payload : Text)
    (ingested_at now : Time) where
  -- what an adapted record is made of
  record IsAdapted (a : AdaptedRecord) : Type 0 where
    decoded : json.unmarshal (trim_space payload) ≡ some a.event
    valid_event : validate_event a.event ≡ ok tt
    built : a.raw ≡ record_of stamps cfg (trim_space payload) a.event ingested_at now
    valid_record : validate_record json.valid a.raw ≡ ok tt
    routed : partition_key a.event ≡ ok a.envelope.partition_key
    enveloped : a.envelope ≡ envelope_of a.raw a.envelope.partition_key

  adapt-IsAdapted : Meets IsAdapted (adapt stamps json cfg payload ingested_at now)
  unfolding adapt adapt_payload
  adapt-IsAdapted =
      let p : Text = trim_space payload in
      Meets-bind IsAdapted (validate_config cfg) _ (λ _.
        Meets-bind IsAdapted (fail_if (is_empty p) _) _ (λ _.
          Meets-bind IsAdapted (fail_if (not (json.valid p)) _) _ (λ _.
            Meets-keep IsAdapted (of_option err_decode (json.unmarshal p)) _ (λ event d.
              Meets-keep IsAdapted (validate_event event) _ (λ _ v.
                Meets-keep IsAdapted (partition_key event) _ (λ key k.
                  let r : Record = record_of stamps cfg p event ingested_at now in
                  Meets-keep IsAdapted (validate_record json.valid r) _ (λ _ w.
                    Meets-bind IsAdapted (validate_envelope json.valid (envelope_of r key)) _ (λ _.
                      record {
                        decoded = of_option-eq-ok err_decode (json.unmarshal p) event d;
                        valid_event = v;
                        built = refl;
                        valid_record = w;
                        routed = unfold envelope_of in k;
                        enveloped = unfold envelope_of in refl;
                      }))))))))

module _ ⦃u : CharTables⦄ where
  normalize_status-valid :
      (value : Text) (s : Status) → normalize_status value ≡ ok s → valid_status s ≡ true
  unfolding normalize_status valid_status
  normalize_status-valid value start h = refl
  normalize_status-valid value interim_update h = refl
  normalize_status-valid value stop h = refl
  normalize_status-valid value (other t) h = ground arith

  own_source-fold : (t : Text) → t ≡ source_name → equal_fold (trim_space t) source_name ≡ true
  unfolding equal_fold trim_space
  own_source-fold t e = rw e (eq_text_refl (map u.fold source_name))

  module _ (stamps : Stamps) (json : Json AccountingEvent) where
    decode_record_ok :
        (r : Record) (event : AccountingEvent)
        → validate_record json.valid r ≡ ok tt
        → r.source ≡ source_name
        → json.unmarshal r.payload ≡ some event
        → validate_event event ≡ ok tt
        → decode_record stamps json r ≡ ok event
    unfolding decode_record
    decode_record_ok r event valid own decoded named =
        rw (valid, own_source-fold r.source own, decoded, named) refl

    semantic_text_named :
        (event : AccountingEvent) (s : Status)
        → is_blank (build_semantic_text stamps event s) ≡ false
    unfolding build_semantic_text
    semantic_text_named event s =
        is_blank-join (codes " ") (codes "user " ++ trim_space event.username) _ (
          is_blank-append (codes "user ") (trim_space event.username)
            (unfold is_blank trim_space in refl))

    unified-valid :
        (r : Record) (event : AccountingEvent) (s : Status)
        → IsFilled json.valid r
        → validate_event event ≡ ok tt
        → valid_status s ≡ true
        → validate (unified stamps json r event s) ≡ ok tt
    unfolding validate unified
    unified-valid r event s filled named known =
        let (user, session) = validate_event-named event named in
        let id = is_blank-append r.event_id (codes ":unified") filled.event_id in
        let user' = is_blank-trim_space event.username ∙ user in
        let session' = is_blank-trim_space event.acct_session_id ∙ session in
        let schema : is_blank schema_version_name ≡ false = unfold is_blank trim_space in refl in
        let kind : is_blank event_type_name ≡ false = unfold is_blank trim_space in refl in
        let text : is_blank (build_semantic_text stamps event s) ≡ false =
          semantic_text_named event s in
        ground (
          arith, id, user', session', schema, kind, text, filled.event_id, filled.source,
          filled.source_key, filled.tenant_id, filled.occurred_at, filled.ingested_at,
        )

    -- Whatever the adapter accepts, with an accounting status that is known, is normalised: the
    -- unified event exists, passes its check, names the record as its source event, and keeps the
    -- tenant of the configuration, the subscriber, the session, the time of the event and the
    -- counters of the payload, with that status.
    pub normalize_record-adapt_of_radius :
        (cfg : Config) (payload : Text) (ingested_at now : Time) (a : AdaptedRecord) (s : Status)
        → adapt stamps json cfg payload ingested_at now ≡ ok a
        → normalize_status a.event.acct_status_type ≡ ok s
        → (e : Event) × (normalize_record stamps json a.raw ≡ ok e)
          × (validate e ≡ ok tt)
          × (e.source_event_id ≡ a.raw.event_id)
          × (e.tenant_id ≡ cfg.tenant_id)
          × (e.subscriber_id ≡ trim_space a.event.username)
          × (e.session_id ≡ trim_space a.event.acct_session_id)
          × (e.occurred_at ≡ a.event.timestamp)
          × (e.status ≡ s)
          × (e.session_time_seconds ≡ a.event.acct_session_time)
          × (e.input_octets ≡ a.event.acct_input_octets)
          × (e.output_octets ≡ a.event.acct_output_octets)
    unfolding normalize_record
    normalize_record-adapt_of_radius cfg payload ingested_at now a s accepted known =
        let made =
          Meets-eq-ok (IsAdapted stamps json cfg payload ingested_at now)
            (adapt stamps json cfg payload ingested_at now) a
            (adapt-IsAdapted stamps json cfg payload ingested_at now) accepted in
        let valid =
          unified-valid a.raw a.event s (validate-IsFilled json.valid a.raw made.valid_record)
            made.valid_event (normalize_status-valid a.event.acct_status_type s known) in
        let decoded =
          decode_record_ok a.raw a.event made.valid_record
            (ap (λ (r : Record). r.source) made.built ∙ unfold record_of in refl)
            (ap (λ (r : Record). json.unmarshal r.payload) made.built
              ∙ unfold record_of in made.decoded)
            made.valid_event in
        (
          unified stamps json a.raw a.event s,
          rw (decoded, known, valid) refl,
          valid,
          (unfold unified in refl),
          (unfold unified in
              ap (λ (r : Record). r.tenant_id) made.built ∙ unfold record_of in refl),
          (unfold unified in refl),
          (unfold unified in refl),
          (unfold unified in
              ap (λ (r : Record). r.occurred_at) made.built ∙ unfold record_of in refl),
          (unfold unified in refl),
          (unfold unified in refl),
          (unfold unified in refl),
          (unfold unified in refl),
        )

-- Whatever the adapter accepts is routed by its subscriber: the key of the envelope is
-- `subscriber:` and the trimmed username, so the session key is never used. The envelope has the
-- event id, the source, the source key, the schema version, both times and the payload of the
-- record. The payload is the trimmed input and decodes to the event, the source is `ras`, the
-- tenant and the schema version are those of the configuration, the time of the record is that of
-- the event, and its time of ingestion is the clock's only if none was given.
pub adapt-routes_of_radius :
    (stamps : Stamps) (json : Json AccountingEvent) (cfg : Config) (payload : Text)
    (ingested_at now : Time) (a : AdaptedRecord)
    → adapt stamps json cfg payload ingested_at now ≡ ok a
    → (a.envelope.partition_key ≡ codes "subscriber:" ++ trim_space a.event.username)
      × (a.envelope.event_id ≡ a.raw.event_id)
      × (a.envelope.source ≡ a.raw.source)
      × (a.envelope.source_key ≡ a.raw.source_key)
      × (a.envelope.schema_version ≡ a.raw.schema_version)
      × (a.envelope.occurred_at ≡ a.raw.occurred_at)
      × (a.envelope.ingested_at ≡ a.raw.ingested_at)
      × (a.envelope.payload ≡ a.raw.payload)
      × (a.raw.payload ≡ trim_space payload)
      × (json.unmarshal (trim_space payload) ≡ some a.event)
      × (a.raw.source ≡ codes "ras")
      × (a.raw.tenant_id ≡ cfg.tenant_id)
      × (a.raw.schema_version ≡ cfg.schema_version)
      × (a.raw.occurred_at ≡ a.event.timestamp)
      × (a.raw.ingested_at ≡ (if is_zero ingested_at then now else ingested_at))
adapt-routes_of_radius stamps json cfg payload ingested_at now a accepted =
    let made =
      Meets-eq-ok (IsAdapted stamps json cfg payload ingested_at now)
        (adapt stamps json cfg payload ingested_at now) a
        (adapt-IsAdapted stamps json cfg payload ingested_at now) accepted in
    let (user, _) = validate_event-named a.event made.valid_event in
    let e = made.enveloped in
    let r = made.built in
    (
      cc (made.routed, partition_key-subscriber a.event user),
      (ap (λ (x : Envelope). x.event_id) e ∙ unfold envelope_of in refl),
      (ap (λ (x : Envelope). x.source) e ∙ unfold envelope_of in refl),
      (ap (λ (x : Envelope). x.source_key) e ∙ unfold envelope_of in refl),
      (ap (λ (x : Envelope). x.schema_version) e ∙ unfold envelope_of in refl),
      (ap (λ (x : Envelope). x.occurred_at) e ∙ unfold envelope_of in refl),
      (ap (λ (x : Envelope). x.ingested_at) e ∙ unfold envelope_of in refl),
      (ap (λ (x : Envelope). x.payload) e ∙ unfold envelope_of in refl),
      (ap (λ (x : Record). x.payload) r ∙ unfold record_of in refl),
      made.decoded,
      (ap (λ (x : Record). x.source) r ∙ unfold record_of in refl),
      (ap (λ (x : Record). x.tenant_id) r ∙ unfold record_of in refl),
      (ap (λ (x : Record). x.schema_version) r ∙ unfold record_of in refl),
      (ap (λ (x : Record). x.occurred_at) r ∙ unfold record_of in refl),
      (ap (λ (x : Record). x.ingested_at) r ∙ unfold record_of in refl),
    )
