-- ===== src/Pipeline/Index/Laws.antt =====
-- Every valid event becomes a document, and the memory store takes it.
use semantic_intelligence_la.Contracts.Sessions
use semantic_intelligence_la.Contracts.Access
use semantic_intelligence_la.Contracts.Retrieval.{
  Document, validate, validate_entity, network_session, network_access,
}
use semantic_intelligence_la.Contracts.Retrieval.Terms.{normalize_terms}
use semantic_intelligence_la.Storage.JsonLines.{background}
use semantic_intelligence_la.RetrievalStore.{accept, normal_document, normalize_document}
use semantic_intelligence_la.Pipeline.Index.Documents.{
  build_session_title, build_access_title, session_subject, access_subject, session_details,
  access_details, session_term_values, access_term_values, session_document, access_document,
  build_session_document, build_access_document,
}
use semantic_intelligence_la.Pipeline.Index.Terms.{
  IsLatin, network, has-network, has-network_again, is_empty_of_has,
}
use semantic_intelligence_la.Base.Times.{is_zero}
use semantic_intelligence_la.Base.Blanks.{is_blank-append}
use semantic_intelligence_la.Contracts.Retrieval.TermSets.{has}
use semantic_intelligence_la.Base.{
  is_empty, codes, CharTables, eq_text, is_space, trim_space, is_blank, ok, trim_space_idempotent,
  is_blank-trim_space, ◌≡◌, refl, ◌∙◌, true, false, ◌++◌, arith,
}

status_text-named :
    (s : Sessions.Status)
    → Sessions.valid_status s ≡ true
    → is_blank (Sessions.status_text s) ≡ false
unfolding Sessions.valid_status is_blank trim_space
status_text-named Sessions.start h = refl
status_text-named Sessions.interim_update h = refl
status_text-named Sessions.stop h = refl
status_text-named (Sessions.other t) h = cc

outcome_text-named :
    (o : Access.Outcome) → Access.valid_outcome o ≡ true → is_blank (Access.outcome_text o) ≡ false
unfolding Access.valid_outcome is_blank trim_space
outcome_text-named Access.accepted h = refl
outcome_text-named Access.rejected h = refl
outcome_text-named Access.challenged h = refl
outcome_text-named (Access.other t) h = cc

-- what Validate asks of a document but for its terms and the fields of its entity
record IsComplete (d : Document) : Type 0 where
  document_id : is_blank d.document_id ≡ false
  schema_version : is_blank d.schema_version ≡ false
  tenant_id : is_blank d.tenant_id ≡ false
  source : is_blank d.source ≡ false
  source_event_id : is_blank d.source_event_id ≡ false
  source_key : is_blank d.source_key ≡ false
  entity_type : is_blank d.entity_type ≡ false
  event_type : is_blank d.event_type ≡ false
  occurred_at : is_zero d.occurred_at ≡ false
  ingested_at : is_zero d.ingested_at ≡ false
  title : is_blank d.title ≡ false
  content : is_blank d.content ≡ false
  subscriber_id : is_blank d.subscriber_id ≡ false

validate_ok :
    (d : Document)
    → IsComplete d
    → is_empty d.terms ≡ false
    → validate_entity d ≡ ok tt
    → validate d ≡ ok tt
unfolding validate
validate_ok d c terms entity =
    rw
      (
        c.document_id, c.schema_version, c.tenant_id, c.source, c.source_event_id, c.source_key,
        c.entity_type, c.event_type, c.occurred_at, c.ingested_at, c.title, c.content,
        c.subscriber_id, terms,
      )
      entity

module _ ⦃u : CharTables⦄ where
  normalize_document-IsComplete : (d : Document) → IsComplete d → IsComplete (normalize_document d)
  unfolding normalize_document
  normalize_document-IsComplete d c = record {
    document_id = is_blank-trim_space d.document_id ∙ c.document_id;
    schema_version = is_blank-trim_space d.schema_version ∙ c.schema_version;
    tenant_id = is_blank-trim_space d.tenant_id ∙ c.tenant_id;
    source = is_blank-trim_space d.source ∙ c.source;
    source_event_id = is_blank-trim_space d.source_event_id ∙ c.source_event_id;
    source_key = is_blank-trim_space d.source_key ∙ c.source_key;
    entity_type = is_blank-trim_space d.entity_type ∙ c.entity_type;
    event_type = is_blank-trim_space d.event_type ∙ c.event_type;
    occurred_at = c.occurred_at;
    ingested_at = c.ingested_at;
    title = is_blank-trim_space d.title ∙ c.title;
    content = is_blank-trim_space d.content ∙ c.content;
    subscriber_id = is_blank-trim_space d.subscriber_id ∙ c.subscriber_id;
  }

  normalize_document-entity :
      (d : Document) → validate_entity d ≡ ok tt → validate_entity (normalize_document d) ≡ ok tt
  unfolding normalize_document validate_entity
  normalize_document-entity d h = ground (
    arith,
    trim_space_idempotent d.entity_type,
    is_blank-trim_space d.session_id,
    is_blank-trim_space d.status,
    is_blank-trim_space d.request_id,
    is_blank-trim_space d.outcome,
  )

module _ ⦃u : CharTables⦄ (latin : IsLatin u) where
  session_terms : (e : Sessions.Event) → has network (session_document e).terms ≡ true
  unfolding session_document session_term_values build_session_title
  session_terms e =
      has-network latin 115 (codes "ession " ++ session_subject e) (session_details e)
        (rw (latin.lower 115 (omega arith) (omega arith)) (unfold is_space in refl))

  session-IsComplete :
      (e : Sessions.Event) → Sessions.validate e ≡ ok tt → IsComplete (session_document e)
  unfolding Sessions.validate session_document
  session-IsComplete e h = record {
    document_id = ground arith;
    schema_version = unfold is_blank trim_space in refl;
    tenant_id = ground arith;
    source = ground arith;
    source_event_id = ground arith;
    source_key = ground arith;
    entity_type = unfold is_blank trim_space in refl;
    event_type = ground arith;
    occurred_at = ground arith;
    ingested_at = ground arith;
    title =
        unfold build_session_title in
        is_blank-append (codes "network session ") _ (unfold is_blank trim_space in refl);
    content = ground arith;
    subscriber_id = ground arith;
  }

  session-entity :
      (e : Sessions.Event)
      → Sessions.validate e ≡ ok tt
      → validate_entity (session_document e) ≡ ok tt
  unfolding Sessions.validate session_document validate_entity
  session-entity e h =
      let session : is_blank e.session_id ≡ false = ground arith in
      let known : Sessions.valid_status e.status ≡ true = ground arith in
      let own : eq_text (trim_space network_session) network_session ≡ true =
        unfold trim_space eq_text in refl in
      rw (own, session, status_text-named e.status known) refl

  access_terms : (e : Access.Event) → has network (access_document e).terms ≡ true
  unfolding access_document access_term_values build_access_title
  access_terms e =
      has-network latin 97 (codes "ccess " ++ access_subject e) (access_details e)
        (rw (latin.lower 97 (omega arith) (omega arith)) (unfold is_space in refl))

  access-IsComplete :
      (e : Access.Event) → Access.validate e ≡ ok tt → IsComplete (access_document e)
  unfolding Access.validate access_document
  access-IsComplete e h = record {
    document_id = ground arith;
    schema_version = unfold is_blank trim_space in refl;
    tenant_id = ground arith;
    source = ground arith;
    source_event_id = ground arith;
    source_key = ground arith;
    entity_type = unfold is_blank trim_space in refl;
    event_type = ground arith;
    occurred_at = ground arith;
    ingested_at = ground arith;
    title =
        unfold build_access_title in
        is_blank-append (codes "network access ") _ (unfold is_blank trim_space in refl);
    content = ground arith;
    subscriber_id = ground arith;
  }

  access-entity :
      (e : Access.Event) → Access.validate e ≡ ok tt → validate_entity (access_document e) ≡ ok tt
  unfolding Access.validate access_document validate_entity
  access-entity e h =
      let request : is_blank e.request_id ≡ false = ground arith in
      let known : Access.valid_outcome e.outcome ≡ true = ground arith in
      let other : eq_text (trim_space network_access) network_session ≡ false =
        unfold trim_space eq_text in refl in
      let own : eq_text (trim_space network_access) network_access ≡ true =
        unfold trim_space eq_text in refl in
      rw (other, own, request, outcome_text-named e.outcome known) refl

  -- a document that is complete and has the term is valid, and the memory store takes it
  accept_ok :
      (d : Document)
      → IsComplete d
      → has network d.terms ≡ true
      → validate_entity d ≡ ok tt
      → accept background d ≡ ok (normalize_document d)
  unfolding accept normal_document
  accept_ok d c t entity =
      let terms : is_empty (normalize_document d).terms ≡ false =
        unfold normalize_document in
        is_empty_of_has network (normalize_terms d.terms) (has-network_again latin d.terms t) in
      rw
        (validate_ok (normalize_document d) (normalize_document-IsComplete d c) terms
          (normalize_document-entity d entity))
        refl

  -- Every valid session event becomes a document: the document is valid, is kept under the
  -- event's id for the event's tenant with the text of the event, is found by the term `network`,
  -- and the memory store accepts its normal form. The tables of `unicode` are those of Unicode on
  -- the Latin small letters and the space.
  pub build_session_document-total :
      (e : Sessions.Event)
      → Sessions.validate e ≡ ok tt
      → (d : Document) × (build_session_document e ≡ ok d)
        × (validate d ≡ ok tt)
        × (d.document_id ≡ e.event_id)
        × (d.tenant_id ≡ e.tenant_id)
        × (d.content ≡ e.semantic_text)
        × (has network d.terms ≡ true)
        × (accept background d ≡ ok (normalize_document d))
  unfolding build_session_document
  build_session_document-total e h =
      let c = session-IsComplete e h in
      let t = session_terms e in
      let entity = session-entity e h in
      let valid = validate_ok (session_document e) c (is_empty_of_has network _ t) entity in
      (
        session_document e,
        rw (h, valid) refl,
        valid,
        (unfold session_document in refl),
        (unfold session_document in refl),
        (unfold session_document in refl),
        t,
        accept_ok (session_document e) c t entity,
      )

  -- Every valid access event becomes a document, in the same way.
  pub build_access_document-total :
      (e : Access.Event)
      → Access.validate e ≡ ok tt
      → (d : Document) × (build_access_document e ≡ ok d)
        × (validate d ≡ ok tt)
        × (d.document_id ≡ e.event_id)
        × (d.tenant_id ≡ e.tenant_id)
        × (d.content ≡ e.semantic_text)
        × (has network d.terms ≡ true)
        × (accept background d ≡ ok (normalize_document d))
  unfolding build_access_document
  build_access_document-total e h =
      let c = access-IsComplete e h in
      let t = access_terms e in
      let entity = access-entity e h in
      let valid = validate_ok (access_document e) c (is_empty_of_has network _ t) entity in
      (
        access_document e,
        rw (h, valid) refl,
        valid,
        (unfold access_document in refl),
        (unfold access_document in refl),
        (unfold access_document in refl),
        t,
        accept_ok (access_document e) c t entity,
      )
