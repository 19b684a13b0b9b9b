-- ===== src/Harness/Summaries/Correlation.antt =====
-- SummarizeCrossSourceCorrelation: which finding the two timelines give together.
use semantic_intelligence_la.Contracts.Access
use semantic_intelligence_la.Contracts.Access.{accepted, rejected, challenged}
use semantic_intelligence_la.Contracts.Sessions
use semantic_intelligence_la.Contracts.Sessions.{start, stop}
use semantic_intelligence_la.Harness.Formats.{Formats}
use semantic_intelligence_la.Harness.Timeline.{
  sort_access_ascending, sort_sessions_ascending, first_session_event_with_status,
  last_session_event_with_status, latest_access_outcome_before,
}
use semantic_intelligence_la.Base.{
  if◌then◌else◌, is_empty, Text, codes, join, ◌&&◌, Option, none, some, List, [], ◌∷◌,
}
use semantic_intelligence_la.Harness.Summaries.Answers.{subscriber_of, because}

abbrev last_stop_sentence : Formats → Option Sessions.Event → Text
last_stop_sentence f none = []
last_stop_sentence f (some event) = join [] (
    codes " The latest stop in the same timeline was at "
    ∷ f.rfc3339 event.occurred_at
    ∷ codes "."
    ∷ [])

-- the cases of the `switch` that ask for an accepted event and a session start
abbrev started :
    Formats
    → Text
    → Option Access.Event
    → Option Access.Event
    → Access.Event
    → Sessions.Event
    → Option Sessions.Event
    → Text
started f subscriber (some refused) challenge accept begin last_stop = join [] (
    codes "Correlated finding: subscriber "
    ∷ subscriber
    ∷ codes " was rejected at "
    ∷ f.rfc3339 refused.occurred_at
    ∷ because refused.reject_reason
    ∷ codes ", later accepted at "
    ∷ f.rfc3339 accept.occurred_at
    ∷ codes ", and then started session "
    ∷ begin.session_id
    ∷ codes " at "
    ∷ f.rfc3339 begin.occurred_at
    ∷ codes "."
    ∷ last_stop_sentence f last_stop
    ∷ [])
started f subscriber none (some challenge) accept begin last_stop = join [] (
    codes "Correlated finding: subscriber "
    ∷ subscriber
    ∷ codes " faced an access challenge at "
    ∷ f.rfc3339 challenge.occurred_at
    ∷ codes ", later accepted at "
    ∷ f.rfc3339 accept.occurred_at
    ∷ codes ", and then started session "
    ∷ begin.session_id
    ∷ codes " at "
    ∷ f.rfc3339 begin.occurred_at
    ∷ codes "."
    ∷ [])
started f subscriber none none accept begin last_stop = join [] (
    codes "Correlated finding: subscriber "
    ∷ subscriber
    ∷ codes " was accepted at "
    ∷ f.rfc3339 accept.occurred_at
    ∷ codes " and then started session "
    ∷ begin.session_id
    ∷ codes " at "
    ∷ f.rfc3339 begin.occurred_at
    ∷ codes "."
    ∷ [])

-- the `switch` of SummarizeCrossSourceCorrelation: rejected, challenged and accepted before the
-- start, the start, the last stop
abbrev correlated :
    Formats
    → Text
    → Option Access.Event
    → Option Access.Event
    → Option Access.Event
    → Option Sessions.Event
    → Option Sessions.Event
    → Text
correlated f subscriber refused challenge (some accept) (some begin) last_stop =
    started f subscriber refused challenge accept begin last_stop
correlated f subscriber refused challenge (some accept) none last_stop = join [] (
    codes "Correlated finding: subscriber "
    ∷ subscriber
    ∷ codes " was accepted at "
    ∷ f.rfc3339 accept.occurred_at
    ∷ codes " but no normalized session start followed in the current investigation window."
    ∷ [])
correlated f subscriber (some refused) challenge none none last_stop = join [] (
    codes "Correlated finding: subscriber "
    ∷ subscriber
    ∷ codes " was rejected at "
    ∷ f.rfc3339 refused.occurred_at
    ∷ because refused.reject_reason
    ∷ codes " and no normalized session start followed in the current investigation window."
    ∷ [])
correlated f subscriber none challenge none none last_stop = []
correlated f subscriber refused challenge none (some begin) last_stop = []

unfoldable pub summarize_cross_source_correlation :
    Formats → List Access.Event → List Sessions.Event → Text
summarize_cross_source_correlation f access_events session_events =
    let ordered_access = sort_access_ascending access_events in
    let ordered_sessions = sort_sessions_ascending session_events in
    let first_start = first_session_event_with_status start ordered_sessions in
    if is_empty access_events && is_empty session_events
    then []
    else correlated f (subscriber_of (codes "the subscriber") ordered_access ordered_sessions)
        (latest_access_outcome_before ordered_access rejected first_start)
        (latest_access_outcome_before ordered_access challenged first_start)
        (latest_access_outcome_before ordered_access accepted first_start) first_start
        (last_session_event_with_status stop ordered_sessions)
