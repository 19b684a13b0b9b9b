-- ===== src/Harness/Summaries/Answers.antt =====
-- summarizeGoalAnswer and the answers that it gives.
use semantic_intelligence_la.Contracts.Retrieval.{Hit}
use semantic_intelligence_la.Contracts.Access
use semantic_intelligence_la.Contracts.Access.{accepted, rejected, challenged}
use semantic_intelligence_la.Contracts.Sessions
use semantic_intelligence_la.Contracts.Sessions.{start, stop}
use semantic_intelligence_la.Harness.Formats.{Formats}
use semantic_intelligence_la.Harness.Queries.{or_text, first_hit_subscriber_id}
use semantic_intelligence_la.Harness.Goals.{
  normalized_goal, is_before_connect_question, is_status_question, is_tenant_membership_question,
  is_disconnect_reason_question,
}
use semantic_intelligence_la.Harness.Timeline.{
  sort_access_ascending, sort_sessions_ascending, has_status, first_session_event_with_status,
  last_session_event_with_status, latest_access_outcome_before, first_access_subscriber_id,
  first_session_subscriber_id, first_non_empty,
}
use semantic_intelligence_la.Base.{
  ◌==◌, if◌then◌else◌, is_empty, any, Text, codes, CharTables, trim_space, is_blank, has_prefix,
  join, ℕ, Bool, false, not, ◌&&◌, ◌||◌, Option, none, some, List, [], ◌∷◌, ◌++◌,
}

-- `if reason := strings.TrimSpace(…); reason != "" { summary += " because " + reason }`
abbrev pub because : Text → Text
because reason = if is_blank reason then [] else codes " because " ++ trim_space reason

-- `if seconds != nil { summary += fmt.Sprintf(" after %d seconds", *seconds) }`
abbrev pub seconds_after : Formats → Option ℕ → Text
seconds_after f none = []
seconds_after f (some seconds) =
    join [] (codes " after " ∷ f.decimal seconds ∷ codes " seconds" ∷ [])

-- strings.HasSuffix(goal, "?")
abbrev ends_with_question_mark : Text → Bool
ends_with_question_mark [] = false
ends_with_question_mark (c ∷ []) = c == b'?'
ends_with_question_mark (c ∷ d ∷ s) = ends_with_question_mark (d ∷ s)

abbrev question_prefixes : List Text
question_prefixes =
    codes "who "
    ∷ codes "what "
    ∷ codes "when "
    ∷ codes "where "
    ∷ codes "why "
    ∷ codes "how "
    ∷ codes "does "
    ∷ codes "do "
    ∷ codes "did "
    ∷ codes "is "
    ∷ codes "are "
    ∷ codes "can "
    ∷ codes "should "
    ∷ codes "will "
    ∷ []

unfoldable pub is_question_like : Text → Bool
is_question_like goal =
    let trimmed = trim_space goal in
    not (is_empty trimmed)
    && (ends_with_question_mark trimmed
        || any (λ prefix. has_prefix trimmed prefix) question_prefixes)

abbrev before_connect_answer : Option Access.Event → Option Sessions.Event → Text
before_connect_answer (some _) (some _) =
    codes "Yes. Authentication failed before the subscriber connected."
before_connect_answer (some _) none =
    codes
      "Partially. Authentication failed, but no session start is available in the current investigation window."
before_connect_answer none (some _) =
    codes
      "No. No rejected authentication appeared before the subscriber connected in the current investigation window."
before_connect_answer none none = []

-- the subscriber of ordered events, or the given default
abbrev pub subscriber_of : Text → List Access.Event → List Sessions.Event → Text
subscriber_of default ordered_access ordered_sessions =
    or_text
      (first_non_empty (
        first_access_subscriber_id ordered_access
        ∷ first_session_subscriber_id ordered_sessions
        ∷ []))
      default

-- the second `switch` of summarizeStatusAnswer
abbrev authentication_answer : Text → Option Access.Event → Option Access.Event → Text
authentication_answer subscriber (some _) latest_rejected = join [] (
    codes "Subscriber "
    ∷ subscriber
    ∷ codes
        " authenticated successfully, but no session start is visible in the current investigation window."
    ∷ [])
authentication_answer subscriber none (some latest_rejected) = join [] (
    codes "Subscriber "
    ∷ subscriber
    ∷ codes "'s latest visible state is rejected authentication"
    ∷ because latest_rejected.reject_reason
    ∷ codes "."
    ∷ [])
authentication_answer subscriber none none = []

abbrev last_session : List Sessions.Event → Option Sessions.Event
last_session [] = none
last_session (event ∷ []) = some event
last_session (event ∷ next ∷ events) = last_session (next ∷ events)

abbrev connected_answer : Text → Text → Option Sessions.Event → Text
connected_answer subscriber otherwise none = otherwise
connected_answer subscriber otherwise (some latest) =
    if has_status start latest
    then join [] (
        codes "Subscriber "
        ∷ subscriber
        ∷ codes " is currently connected in the current investigation window."
        ∷ [])
    else if has_status stop latest
    then join [] (
        codes "Subscriber "
        ∷ subscriber
        ∷ codes " is not currently connected in the current investigation window."
        ∷ [])
    else otherwise

unfoldable pub summarize_status_answer : List Access.Event → List Sessions.Event → Text
summarize_status_answer access_events session_events =
    let ordered_access = sort_access_ascending access_events in
    let ordered_sessions = sort_sessions_ascending session_events in
    let subscriber = subscriber_of (codes "the subscriber") ordered_access ordered_sessions in
    connected_answer subscriber
      (authentication_answer subscriber (latest_access_outcome_before ordered_access accepted none)
        (latest_access_outcome_before ordered_access rejected none))
      (last_session ordered_sessions)

unfoldable pub summarize_tenant_membership_answer :
    List Hit → List Access.Event → List Sessions.Event → Text
summarize_tenant_membership_answer hits access_events session_events =
    let subscriber =
      or_text
        (first_non_empty (
          first_hit_subscriber_id hits
          ∷ first_access_subscriber_id access_events
          ∷ first_session_subscriber_id session_events
          ∷ []))
        (codes "this subscriber") in
    if is_empty hits && is_empty access_events && is_empty session_events
    then join [] (codes "No. No evidence places " ∷ subscriber ∷ codes " in this tenant." ∷ [])
    else join []
        (codes "Yes. Subscriber " ∷ subscriber ∷ codes " has evidence in this tenant." ∷ [])

abbrev stop_answer : Formats → Option Sessions.Event → Text
stop_answer f none =
    codes
      "I can't explain a disconnect from the current evidence because no session stop is available in the investigation window."
stop_answer f (some latest) = join [] (
    codes "The latest visible disconnect was session "
    ∷ latest.session_id
    ∷ codes " stopping at "
    ∷ f.rfc3339 latest.occurred_at
    ∷ seconds_after f latest.session_time_seconds
    ∷ codes "."
    ∷ (if is_blank latest.semantic_text
        then codes
            " The current evidence does not include an explicit disconnect reason beyond the stop event."
        else codes
            " The current evidence does not expose a richer disconnect cause beyond that stop event.")
    ∷ [])

unfoldable pub summarize_disconnect_reason_answer : Formats → List Sessions.Event → Text
summarize_disconnect_reason_answer f session_events =
    stop_answer f (last_session_event_with_status stop (sort_sessions_ascending session_events))

unfoldable pub summarize_goal_answer :
    ⦃u : CharTables⦄ → Formats → Text → List Hit → List Access.Event → List Sessions.Event → Text
unfolding summarize_status_answer summarize_tenant_membership_answer
    summarize_disconnect_reason_answer is_question_like
summarize_goal_answer f goal hits access_events session_events =
    let normalized = normalized_goal goal in
    let first_start =
      first_session_event_with_status start (sort_sessions_ascending session_events) in
    if is_before_connect_question normalized
    then before_connect_answer
        (latest_access_outcome_before (sort_access_ascending access_events) rejected first_start)
        first_start
    else if is_status_question normalized
    then summarize_status_answer access_events session_events
    else if is_tenant_membership_question normalized
    then summarize_tenant_membership_answer hits access_events session_events
    else if is_disconnect_reason_question normalized
    then summarize_disconnect_reason_answer f session_events
    else if is_question_like normalized
    then codes
        "I don't have a grounded answer template for that question yet. Review the details below for the evidence I found."
    else []
