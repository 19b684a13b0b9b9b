-- ===== src/Pipeline/Index/Documents.antt =====
-- internal/services/index/service.go: the documents that are made of events.
use semantic_intelligence_la.Base.Dict.{Dict, lookup, insert}
use semantic_intelligence_la.Contracts.Sessions
use semantic_intelligence_la.Contracts.Access
use semantic_intelligence_la.Contracts.Retrieval.{
  Document, schema_version_text, network_session, network_access, validate,
}
use semantic_intelligence_la.Contracts.Retrieval.Terms.{normalize_terms}
use semantic_intelligence_la.Adapters.Shared.{replace_code}
use semantic_intelligence_la.Base.{
  Text, codes, CharTables, trim_space, Result, ok, ◌>>◌, sort_by, less_text, Option, none, some,
  List, [], ◌∷◌, ◌++◌, map,
}

abbrev pub or_blank : Option Text → Text
or_blank none = []
or_blank (some v) = v

-- the keys of a map, and each with its trimmed value
abbrev pub sorted_keys : Dict Text → List Text
sorted_keys attributes = sort_by less_text (map (λ (key, value). key) attributes)

-- the loop of cloneAttributes: the attributes, then the terms
unfoldable pub clone_sorted : Dict Text → List Text → Dict Text → Dict Text
unfolding lookup insert
clone_sorted attributes [] cloned = cloned
clone_sorted attributes (key ∷ keys) cloned =
    clone_sorted attributes keys (insert key (trim_space (or_blank (lookup key attributes))) cloned)

unfoldable pub attribute_terms : Dict Text → List Text → List Text
attribute_terms attributes [] = []
attribute_terms attributes (key ∷ keys) =
    key ∷ trim_space (or_blank (lookup key attributes)) ∷ attribute_terms attributes keys

-- `if value != "" { title += words + value }`
abbrev pub with_words : Text → Text → Text
with_words words [] = []
with_words words (c ∷ s) = words ++ c ∷ s

-- the title behind its first words
unfoldable pub session_subject : Sessions.Event → Text
unfolding replace_code
session_subject event =
    replace_code 95 32 (Sessions.status_text event.status)
    ++ (codes " for subscriber "
        ++ (event.subscriber_id
            ++ (with_words (codes " in session ") event.session_id
                ++ with_words (codes " on NAS ") event.nas_ip_address)))

unfoldable pub build_session_title : Sessions.Event → Text
unfolding session_subject
build_session_title event = codes "network session " ++ session_subject event

unfoldable pub access_subject : Access.Event → Text
access_subject event =
    Access.outcome_text event.outcome
    ++ (codes " for subscriber "
        ++ (event.subscriber_id
            ++ (with_words (codes " on request ") event.request_id
                ++ with_words (codes " on NAS ") event.nas_ip_address)))

unfoldable pub build_access_title : Access.Event → Text
unfolding access_subject
build_access_title event = codes "network access " ++ access_subject event

-- the values behind the title
unfoldable pub session_details : Sessions.Event → List Text
unfolding attribute_terms
session_details event =
    event.semantic_text
    ∷ event.source
    ∷ event.event_type
    ∷ event.tenant_id
    ∷ event.subscriber_id
    ∷ event.session_id
    ∷ Sessions.status_text event.status
    ∷ event.nas_ip_address
    ∷ event.client_ip_address
    ∷ (event.tags ++ attribute_terms event.attributes (sorted_keys event.attributes))

unfoldable pub session_term_values : Sessions.Event → List Text
unfolding build_session_title session_details
session_term_values event = build_session_title event ∷ session_details event

-- the values behind the title
unfoldable pub access_details : Access.Event → List Text
unfolding attribute_terms
access_details event =
    event.semantic_text
    ∷ event.source
    ∷ event.event_type
    ∷ event.tenant_id
    ∷ event.subscriber_id
    ∷ event.session_id
    ∷ event.request_id
    ∷ Access.outcome_text event.outcome
    ∷ event.nas_ip_address
    ∷ event.client_ip_address
    ∷ event.policy_name
    ∷ event.reject_reason
    ∷ (attribute_terms event.attributes (sorted_keys event.attributes) ++ event.tags)

unfoldable pub access_term_values : Access.Event → List Text
unfolding build_access_title access_details
access_term_values event = build_access_title event ∷ access_details event

module _ ⦃u : CharTables⦄ where
  unfoldable pub session_document : Sessions.Event → Document
  unfolding session_term_values normalize_terms clone_sorted
  session_document event = record {
    document_id = event.event_id;
    schema_version = schema_version_text;
    tenant_id = event.tenant_id;
    source = event.source;
    source_event_id = event.source_event_id;
    source_key = event.source_key;
    entity_type = network_session;
    event_type = event.event_type;
    occurred_at = event.occurred_at;
    ingested_at = event.ingested_at;
    title = build_session_title event;
    content = event.semantic_text;
    subscriber_id = event.subscriber_id;
    session_id = event.session_id;
    request_id = [];
    status = Sessions.status_text event.status;
    outcome = [];
    nas_ip_address = event.nas_ip_address;
    client_ip_address = event.client_ip_address;
    policy_name = [];
    reject_reason = [];
    tags = event.tags;
    terms = normalize_terms (session_term_values event);
    attributes = clone_sorted event.attributes (sorted_keys event.attributes) [];
  }

  unfoldable pub build_session_document : Sessions.Event → Result Document
  unfolding session_document
  build_session_document event = do
    Sessions.validate event
    validate (session_document event)
    ok (session_document event)

  unfoldable pub access_document : Access.Event → Document
  unfolding access_term_values normalize_terms clone_sorted
  access_document event = record {
    document_id = event.event_id;
    schema_version = schema_version_text;
    tenant_id = event.tenant_id;
    source = event.source;
    source_event_id = event.source_event_id;
    source_key = event.source_key;
    entity_type = network_access;
    event_type = event.event_type;
    occurred_at = event.occurred_at;
    ingested_at = event.ingested_at;
    title = build_access_title event;
    content = event.semantic_text;
    subscriber_id = event.subscriber_id;
    session_id = event.session_id;
    request_id = event.request_id;
    status = [];
    outcome = Access.outcome_text event.outcome;
    nas_ip_address = event.nas_ip_address;
    client_ip_address = event.client_ip_address;
    policy_name = event.policy_name;
    reject_reason = event.reject_reason;
    tags = event.tags;
    terms = normalize_terms (access_term_values event);
    attributes = clone_sorted event.attributes (sorted_keys event.attributes) [];
  }

  unfoldable pub build_access_document : Access.Event → Result Document
  unfolding access_document
  build_access_document event = do
    Access.validate event
    validate (access_document event)
    ok (access_document event)
