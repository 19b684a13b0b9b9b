-- ===== src/Harness/Evidence.antt =====
-- searchAccess, searchSessions and what a step keeps of the results as evidence.
-- Both searches gather events in a map by event id and sort what they gathered; where events
-- agree in both instants, their order is not determined in Go, and here it is that of insertion.
use semantic_intelligence_la.Base.Dict.{Dict, insert, values}
use semantic_intelligence_la.Agents.{EvidenceRef, Step}
use semantic_intelligence_la.Contracts.Retrieval.{Hit}
use semantic_intelligence_la.Contracts.Access
use semantic_intelligence_la.Contracts.Sessions
use semantic_intelligence_la.AccessStore
use semantic_intelligence_la.SessionStore
use semantic_intelligence_la.RunStore.Records.{less_evidence}
use semantic_intelligence_la.Harness.Queries.{max_evidence_per_step}
use semantic_intelligence_la.Base.{
  ltb, if◌then◌else◌, length, take, Text, codes, trim_space, is_blank, join, sort_by, ℕ, List, [],
  ◌∷◌, ◌++◌, map,
}

-- `if len(events) > maxEvidencePerStep { events = events[:maxEvidencePerStep] }`
unfoldable pub capped {ℓ} : {A : Type ℓ} → List A → List A
capped events =
    if ltb max_evidence_per_step (length events) then take max_evidence_per_step events else events

unfoldable pub gather_access : Dict Access.Event → List Access.Event → Dict Access.Event
gather_access held [] = held
gather_access held (event ∷ events) = gather_access (insert event.event_id event held) events

unfoldable pub gather_sessions : Dict Sessions.Event → List Sessions.Event → Dict Sessions.Event
gather_sessions held [] = held
gather_sessions held (event ∷ events) = gather_sessions (insert event.event_id event held) events

-- what the two searches return of the events that they gathered
unfoldable pub found_access : Dict Access.Event → List Access.Event
unfolding capped
found_access held = capped (sort_by AccessStore.newer (values held))

unfoldable pub found_sessions : Dict Sessions.Event → List Sessions.Event
unfolding capped
found_sessions held = capped (sort_by SessionStore.newer (values held))

-- the score 1.0, in halves
abbrev full_score : ℕ
full_score = 2

abbrev hit_evidence : Hit → EvidenceRef
hit_evidence hit = record {
  kind = codes "retrieval_document";
  id = hit.document.document_id;
  source = hit.document.source;
  summary = hit.document.title;
  uri = codes "/v1/retrieve#document:" ++ hit.document.document_id;
  score = hit.score;
}

abbrev access_uri : Access.Event → Text
access_uri event =
    if is_blank event.request_id
    then join [] (
        codes "/v1/access-events?tenant_id="
        ∷ event.tenant_id
        ∷ codes "&subscriber_id="
        ∷ event.subscriber_id
        ∷ [])
    else join [] (
        codes "/v1/access-events?tenant_id="
        ∷ event.tenant_id
        ∷ codes "&request_id="
        ∷ trim_space event.request_id
        ∷ [])

abbrev access_evidence : Access.Event → EvidenceRef
access_evidence event = record {
  kind = codes "network_access";
  id = event.event_id;
  source = event.source;
  summary = event.semantic_text;
  uri = access_uri event;
  score = full_score;
}

abbrev session_evidence : Sessions.Event → EvidenceRef
session_evidence event = record {
  kind = codes "network_session";
  id = event.event_id;
  source = event.source;
  summary = event.semantic_text;
  uri = join [] (
      codes "/v1/sessions?tenant_id="
      ∷ event.tenant_id
      ∷ codes "&session_id="
      ∷ event.session_id
      ∷ []);
  score = full_score;
}

-- every caller's limit is maxEvidencePerStep
unfoldable pub evidence_from_hits : List Hit → List EvidenceRef
unfolding capped
evidence_from_hits hits = map hit_evidence (capped hits)

unfoldable pub evidence_from_access_events : List Access.Event → List EvidenceRef
unfolding capped
evidence_from_access_events events = map access_evidence (capped events)

unfoldable pub evidence_from_session_events : List Sessions.Event → List EvidenceRef
unfolding capped
evidence_from_session_events events = map session_evidence (capped events)

-- `evidence[ref.Kind+":"+ref.ID] = ref`
unfoldable pub collect_refs : Dict EvidenceRef → List EvidenceRef → Dict EvidenceRef
collect_refs held [] = held
collect_refs held (ref ∷ refs) =
    collect_refs (insert (ref.kind ++ (codes ":" ++ ref.id)) ref held) refs

unfoldable pub collect_steps : Dict EvidenceRef → List Step → Dict EvidenceRef
unfolding collect_refs
collect_steps held [] = held
collect_steps held (step ∷ steps) = collect_steps (collect_refs held step.evidence) steps

unfoldable pub combine_evidence :
    List Step → List Hit → List Access.Event → List Sessions.Event → List EvidenceRef
unfolding collect_steps evidence_from_hits evidence_from_access_events evidence_from_session_events
    capped
combine_evidence existing_steps hits access_events session_events =
    let stepped = collect_steps [] existing_steps in
    let with_hits = collect_refs stepped (evidence_from_hits hits) in
    let with_access = collect_refs with_hits (evidence_from_access_events access_events) in
    let held = collect_refs with_access (evidence_from_session_events session_events) in
    capped (sort_by less_evidence (values held))
