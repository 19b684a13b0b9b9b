-- ===== src/Harness/Timeline.antt =====
-- The events of a run in ascending order, and the events that the summaries pick from them.
-- sort.Slice is not stable; here events that agree in both instants keep their order.
use semantic_intelligence_la.Base.Times.{before, after}
use semantic_intelligence_la.Contracts.Access
use semantic_intelligence_la.Contracts.Access.{Outcome, outcome_text}
use semantic_intelligence_la.Contracts.Sessions
use semantic_intelligence_la.Contracts.Sessions.{Status, status_text}
use semantic_intelligence_la.Base.{
  ◌==◌, if◌then◌else◌, Text, eq_text, trim_space, is_blank, sort_by, Bool, false, not, ◌||◌, Option,
  none, some, List, [], ◌∷◌,
}

unfoldable pub older_access : Access.Event → Access.Event → Bool
older_access left right =
    if left.occurred_at == right.occurred_at
    then before left.ingested_at right.ingested_at
    else before left.occurred_at right.occurred_at

unfoldable pub older_session : Sessions.Event → Sessions.Event → Bool
older_session left right =
    if left.occurred_at == right.occurred_at
    then before left.ingested_at right.ingested_at
    else before left.occurred_at right.occurred_at

unfoldable pub sort_access_ascending : List Access.Event → List Access.Event
unfolding older_access
sort_access_ascending = sort_by older_access

unfoldable pub sort_sessions_ascending : List Sessions.Event → List Sessions.Event
unfolding older_session
sort_sessions_ascending = sort_by older_session

-- `event.Status == status`, a comparison of strings
abbrev pub has_status : Status → Sessions.Event → Bool
has_status status event = eq_text (status_text event.status) (status_text status)

-- `event.Outcome == outcome`
abbrev pub has_outcome : Outcome → Access.Event → Bool
has_outcome outcome event = eq_text (outcome_text event.outcome) (outcome_text outcome)

unfoldable pub first_session_event_with_status :
    Status → List Sessions.Event → Option Sessions.Event
first_session_event_with_status status [] = none
first_session_event_with_status status (event ∷ events) =
    let rest = first_session_event_with_status status events in
    if has_status status event then some event else rest

abbrev or_event : Option Sessions.Event → Bool → Sessions.Event → Option Sessions.Event
or_event (some later) test event = some later
or_event none test event = if test then some event else none

-- the loop runs from the end: an event counts where no later one does
unfoldable pub last_session_event_with_status : Status → List Sessions.Event → Option Sessions.Event
last_session_event_with_status status [] = none
last_session_event_with_status status (event ∷ events) =
    or_event (last_session_event_with_status status events) (has_status status event) event

-- `before != nil && event.OccurredAt.After(before.OccurredAt)`
abbrev pub is_past : Option Sessions.Event → Access.Event → Bool
is_past none event = false
is_past (some bound) event = after event.occurred_at bound.occurred_at

unfoldable pub latest_from :
    Option Access.Event → List Access.Event → Outcome → Option Sessions.Event → Option Access.Event
latest_from latest [] outcome bound = latest
latest_from latest (event ∷ events) outcome bound =
    latest_from
      (if not (has_outcome outcome event) || is_past bound event then latest else some event) events
      outcome bound

unfoldable pub latest_access_outcome_before :
    List Access.Event → Outcome → Option Sessions.Event → Option Access.Event
unfolding latest_from
latest_access_outcome_before events outcome bound = latest_from none events outcome bound

unfoldable pub first_access_subscriber_id : List Access.Event → Text
first_access_subscriber_id [] = []
first_access_subscriber_id (event ∷ events) =
    let rest = first_access_subscriber_id events in
    if is_blank event.subscriber_id then rest else trim_space event.subscriber_id

unfoldable pub first_session_subscriber_id : List Sessions.Event → Text
first_session_subscriber_id [] = []
first_session_subscriber_id (event ∷ events) =
    let rest = first_session_subscriber_id events in
    if is_blank event.subscriber_id then rest else trim_space event.subscriber_id

unfoldable pub first_non_empty : List Text → Text
first_non_empty [] = []
first_non_empty (value ∷ values) =
    let rest = first_non_empty values in if is_blank value then rest else trim_space value
