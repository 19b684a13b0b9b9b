-- ===== src/Harness/Summaries.antt =====
-- The summaries of the steps: summarize…Step, summarizeInvestigation and its parts.
pub mod Answers
pub mod Correlation
use semantic_intelligence_la.Contracts.Retrieval.{Hit, Document}
use semantic_intelligence_la.Contracts.Access
use semantic_intelligence_la.Contracts.Access.{outcome_text}
use semantic_intelligence_la.Contracts.Sessions
use semantic_intelligence_la.Contracts.Sessions.{stop, status_text}
use semantic_intelligence_la.Harness.Formats.{Formats}
use semantic_intelligence_la.Harness.Timeline.{
  sort_access_ascending, sort_sessions_ascending, has_status,
}
use semantic_intelligence_la.Harness.Summaries.Answers.{
  summarize_goal_answer, because, seconds_after,
}
use semantic_intelligence_la.Harness.Summaries.Correlation.{summarize_cross_source_correlation}
use semantic_intelligence_la.Base.{
  if◌then◌else◌, length, is_empty, any, Text, codes, CharTables, eq_text, trim_space, is_blank,
  join, sort_by, less_text, ◌+◌, List, [], ◌∷◌, ◌++◌, map, arith,
}

module _ (f : Formats) where
  unfoldable pub summarize_retrieval_step : Text → List Hit → Text
  summarize_retrieval_step query [] = join [] (
      codes "Retrieved no indexed evidence hits for query "
      ∷ f.quoted (trim_space query)
      ∷ codes "."
      ∷ [])
  summarize_retrieval_step query (hit ∷ hits) = join [] (
      codes "Retrieved "
      ∷ f.decimal (length (hit ∷ hits))
      ∷ codes " indexed evidence hits for query "
      ∷ f.quoted (trim_space query)
      ∷ codes ". Top match: "
      ∷ hit.document.title
      ∷ codes "."
      ∷ [])

  -- the request id, or the event id where that is blank
  abbrev request_label : Access.Event → Text
  request_label event =
      if is_blank event.request_id then event.event_id else trim_space event.request_id

  abbrev reason_suffix : Text → Text
  reason_suffix reason = if is_blank reason then [] else codes ": " ++ trim_space reason

  -- `fmt.Sprintf("%s (%s)", requestID, event.Outcome)` and the reason
  abbrev access_entry : Access.Event → Text
  access_entry event = join [] (
      request_label event
      ∷ codes " ("
      ∷ outcome_text event.outcome
      ∷ codes ")"
      ∷ reason_suffix event.reject_reason
      ∷ [])

  -- the loop of summarizeAccessStep
  unfoldable pub access_entries : List Text → List Access.Event → List Text
  access_entries seen [] = []
  access_entries seen (event ∷ events) =
      let skip = access_entries seen events in
      let more = access_entries (request_label event ∷ seen) events in
      if any (λ id. eq_text id (request_label event)) seen then skip else access_entry event ∷ more

  unfoldable pub summarize_access_step : List Access.Event → Text
  unfolding access_entries
  summarize_access_step [] =
      codes "No normalized access context matched the current investigation evidence."
  summarize_access_step (event ∷ events) =
      let summaries = access_entries [] (sort_access_ascending (event ∷ events)) in
      join [] (
        codes "Fetched "
        ∷ f.decimal (length (event ∷ events))
        ∷ codes " normalized access events across "
        ∷ f.decimal (length summaries)
        ∷ codes " requests: "
        ∷ join (codes ", ") summaries
        ∷ codes "."
        ∷ [])

  -- the loop of summarizeSessionStep; `seen` and `sessionIDs` hold the same strings
  unfoldable pub seen_session_ids : List Text → List Sessions.Event → List Text
  seen_session_ids ids [] = ids
  seen_session_ids ids (event ∷ events) =
      seen_session_ids
        (if any (λ id. eq_text id event.session_id) ids then ids else ids ++ event.session_id ∷ [])
        events

  unfoldable pub summarize_session_step : List Sessions.Event → Text
  unfolding seen_session_ids
  summarize_session_step [] =
      codes "No normalized session context matched the current investigation evidence."
  summarize_session_step (event ∷ events) =
      let session_ids = sort_by less_text (seen_session_ids [] (event ∷ events)) in
      join [] (
        codes "Fetched "
        ∷ f.decimal (length (event ∷ events))
        ∷ codes " normalized session events across "
        ∷ f.decimal (length session_ids)
        ∷ codes " session IDs: "
        ∷ join (codes ", ") session_ids
        ∷ codes "."
        ∷ [])

  abbrev access_segment : Access.Event → Text
  access_segment event = join [] (
      codes "request "
      ∷ event.request_id
      ∷ codes " "
      ∷ outcome_text event.outcome
      ∷ codes " at "
      ∷ f.rfc3339 event.occurred_at
      ∷ because event.reject_reason
      ∷ [])

  unfoldable pub summarize_access_timeline : List Access.Event → Text
  summarize_access_timeline [] = []
  summarize_access_timeline (event ∷ events) = join [] (
      codes "Access timeline shows "
      ∷ join (codes ", then ") (map access_segment (sort_access_ascending (event ∷ events)))
      ∷ codes "."
      ∷ [])

  abbrev session_segment : Sessions.Event → Text
  session_segment event = join [] (
      codes "session "
      ∷ event.session_id
      ∷ codes " "
      ∷ status_text event.status
      ∷ codes " at "
      ∷ f.rfc3339 event.occurred_at
      ∷ (if has_status stop event then seconds_after f event.session_time_seconds else [])
      ∷ [])

  unfoldable pub summarize_session_timeline : List Sessions.Event → Text
  summarize_session_timeline [] = []
  summarize_session_timeline (event ∷ events) = join [] (
      codes "Session timeline shows "
      ∷ join (codes ", then ") (map session_segment (sort_sessions_ascending (event ∷ events)))
      ∷ codes "."
      ∷ [])

  -- `if value != "" { parts = append(parts, value) }`
  abbrev part_of : Text → List Text
  part_of value = if is_empty value then [] else value ∷ []

  -- `if value != "" { … } else { parts = append(parts, default) }`
  abbrev part_or : Text → Text → List Text
  part_or value default = if is_empty value then default ∷ [] else value ∷ []

  -- `if value != "" { parts = append(parts, before + value + ".") }`
  abbrev part_about : Text → Text → List Text
  part_about start value =
      if is_empty value then [] else join [] (start ∷ value ∷ codes "." ∷ []) ∷ []

  abbrev access_signal : Document → List Text
  access_signal top =
      join [] (
        codes "The strongest access signal is outcome "
        ∷ top.outcome
        ∷ codes " for request "
        ∷ top.request_id
        ∷ codes "."
        ∷ [])
      ∷ (part_about (codes "The access decision was explained as ") top.reject_reason
          ++ part_about (codes "The access policy context points to ") top.policy_name)

  abbrev top_evidence : List Hit → List Text
  top_evidence [] = codes "No indexed evidence matched the current query." ∷ []
  top_evidence (hit ∷ hits) =
      join [] (
        codes "Top evidence is "
        ∷ hit.document.title
        ∷ codes " with score "
        ∷ f.two_places hit.score
        ∷ codes "."
        ∷ [])
      ∷ (if eq_text hit.document.entity_type (codes "network_access")
          then access_signal hit.document
          else [])

  -- the parts where no direct answer is given
  abbrev investigated : Text → List Hit → List Access.Event → List Sessions.Event → List Text
  investigated goal hits access_events session_events =
      join [] (codes "Investigated goal " ∷ f.quoted (trim_space goal) ∷ codes "." ∷ [])
      ∷ (top_evidence hits
          ++ (part_or (summarize_access_timeline access_events)
                (codes "No normalized access context was available for further enrichment.")
              ++ (part_or (summarize_session_timeline session_events)
                    (codes "No normalized session context was available for further enrichment.")
                  ++ part_of (summarize_cross_source_correlation f access_events session_events))))

  abbrev answered : Text → List Access.Event → List Sessions.Event → List Text
  answered direct_answer access_events session_events =
      direct_answer
      ∷ (part_of (summarize_cross_source_correlation f access_events session_events)
          ++ (part_of (summarize_access_timeline access_events)
              ++ part_of (summarize_session_timeline session_events)))

  unfoldable pub summarize_investigation :
      ⦃u : CharTables⦄ → Text → List Hit → List Access.Event → List Sessions.Event → Text
  unfolding summarize_access_timeline summarize_session_timeline
  summarize_investigation goal hits access_events session_events =
      let direct_answer = summarize_goal_answer f goal hits access_events session_events in
      join (codes " ") (
        if is_empty direct_answer
        then investigated goal hits access_events session_events
        else answered direct_answer access_events session_events)
