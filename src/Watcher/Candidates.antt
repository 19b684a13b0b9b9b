-- ===== src/Watcher/Candidates.antt =====
-- detectCandidates, enrichCandidatesWithAccess and sortCandidates.
-- Where candidates tie in the order, or the map of candidates is ranged over, the order is not
-- determined in Go; here it is that of insertion.
use semantic_intelligence_la.Base.Times.{Time, ℤ, pos, negsuc, after}
use semantic_intelligence_la.Base.Dict.{Dict, lookup, insert, values}
use Prim.Native.Nat.{◌%◌}
use semantic_intelligence_la.Contracts.Access
use semantic_intelligence_la.Contracts.Sessions
use semantic_intelligence_la.Contracts.Sessions.{stop}
use semantic_intelligence_la.AccessStore
use semantic_intelligence_la.Query.Filters.{max_access_limit}
use semantic_intelligence_la.Harness.Formats.{Formats}
use semantic_intelligence_la.Harness.Timeline.{has_status}
use semantic_intelligence_la.Harness.Summaries.Correlation.{summarize_cross_source_correlation}
use semantic_intelligence_la.Watcher.{Config}
use semantic_intelligence_la.Base.{
  ltb, leb, ◌==◌, if◌then◌else◌, is_empty, filter_by, Text, codes, eq_text, trim_space, is_blank,
  Error, wrapped, Result, ok, err, sort_by, less_text, ℕ, suc, ◌+◌, ◌*◌, Bool, true, false, not,
  ◌&&◌, ◌||◌, Option, none, some, List, [], ◌∷◌, ◌++◌, map,
}

pub record Candidate : Type 0 where
  pub tenant_id : Text
  pub subscriber : Text
  pub count : ℕ
  pub latest : Sessions.Event
  pub session_events : List Sessions.Event
  pub access_events : List Access.Event
  pub correlation_summary : Text

-- time.Duration(seconds) * time.Second: a uint64 taken for an int64, and a product that wraps;
-- the result is a number of 64 bits, and negative from 2 ^ 63 on
unfoldable pub nanoseconds : ℕ → ℕ
nanoseconds seconds = (seconds * 1_000_000_000) % 18_446_744_073_709_551_616

-- `time.Duration(seconds) * time.Second <= threshold`
unfoldable pub is_short : ℕ → ℤ → Bool
unfolding nanoseconds
is_short seconds (pos threshold) =
    leb 9_223_372_036_854_775_808 (nanoseconds seconds) || leb (nanoseconds seconds) threshold
is_short seconds (negsuc n) =
    leb 9_223_372_036_854_775_808 (nanoseconds seconds)
    && leb (nanoseconds seconds + suc n) 18_446_744_073_709_551_616

abbrev is_short_opt : Option ℕ → ℤ → Bool
is_short_opt none threshold = false
is_short_opt (some seconds) threshold = is_short seconds threshold

unfoldable pub qualifies_for_repeated_disconnect : Sessions.Event → ℤ → Bool
unfolding is_short
qualifies_for_repeated_disconnect event threshold =
    not (is_blank event.subscriber_id)
    && (has_status stop event && is_short_opt event.session_time_seconds threshold)

-- the candidate of a subscriber's first event
abbrev pub first_candidate : Text → Text → Sessions.Event → Candidate
first_candidate tenant_id subscriber event = record {
  tenant_id = tenant_id;
  subscriber = subscriber;
  count = 1;
  latest = event;
  session_events = [];
  access_events = [];
  correlation_summary = [];
}

abbrev pub counted : Candidate → Sessions.Event → Candidate
counted existing event = record existing {
  count = suc existing.count;
  latest = if after event.occurred_at existing.latest.occurred_at then event else existing.latest;
}

-- the write to `grouped`: a first event under the trimmed id, a later one under the id as it is
abbrev pub group : Text → Dict Candidate → Sessions.Event → Option Candidate → Dict Candidate
group tenant_id grouped event none =
    let subscriber = trim_space event.subscriber_id in
    insert subscriber (first_candidate tenant_id subscriber event) grouped
group tenant_id grouped event (some existing) =
    insert event.subscriber_id (counted existing event) grouped

-- the loop over the events, as it fills `grouped`
unfoldable pub group_events : Text → ℤ → Dict Candidate → List Sessions.Event → Dict Candidate
unfolding qualifies_for_repeated_disconnect
group_events tenant_id threshold grouped [] = grouped
group_events tenant_id threshold grouped (event ∷ events) =
    group_events tenant_id threshold
      (if qualifies_for_repeated_disconnect event threshold
        then group tenant_id grouped event (lookup (trim_space event.subscriber_id) grouped)
        else grouped)
      events

-- timelines[subscriber]: all the events of the subscriber, in their order
abbrev timeline : Text → List Sessions.Event → List Sessions.Event
timeline subscriber events =
    filter_by
      (λ event.
        not (is_blank event.subscriber_id) && eq_text (trim_space event.subscriber_id) subscriber)
      events

abbrev is_correlated : Candidate → Bool
is_correlated c = not (is_blank c.correlation_summary)

abbrev has_access : Candidate → Bool
has_access c = not (is_empty c.access_events)

abbrev differ : Bool → Bool → Bool
differ true b = not b
differ false b = b

unfoldable pub less_candidate : Candidate → Candidate → Bool
less_candidate left right =
    if differ (is_correlated left) (is_correlated right)
    then is_correlated left
    else if differ (has_access left) (has_access right)
    then has_access left
    else if not (left.count == right.count)
    then ltb right.count left.count
    else if left.latest.occurred_at == right.latest.occurred_at
    then less_text left.subscriber right.subscriber
    else after left.latest.occurred_at right.latest.occurred_at

unfoldable pub sort_candidates : List Candidate → List Candidate
unfolding less_candidate
sort_candidates = sort_by less_candidate

-- `candidate.Count < MinEvents` keeps a candidate out
abbrev is_frequent : ℤ → Candidate → Bool
is_frequent (pos n) c = leb n c.count
is_frequent (negsuc n) c = true

unfoldable pub detect_candidates : Config → Text → List Sessions.Event → List Candidate
unfolding group_events sort_candidates
detect_candidates config tenant_id events =
    let grouped = group_events tenant_id config.short_session_threshold [] events in
    sort_candidates (
      map (λ (c : Candidate). record c { session_events = timeline c.subscriber events })
        (filter_by (is_frequent config.min_events) (values grouped)))

-- the query for one candidate
abbrev access_query : Candidate → Time → Time → AccessStore.Query
access_query c from to = record {
  tenant_id = c.tenant_id;
  subscriber_id = c.subscriber;
  request_id = [];
  session_id = [];
  outcome = [];
  nas_ip_address = [];
  client_ip_address = [];
  from = some from;
  to = some to;
  limit = pos max_access_limit;
}

abbrev enriched : Formats → Candidate → Result (List Access.Event) → Candidate
enriched f c (err e) = c
enriched f c (ok events) = record c {
  access_events = events;
  correlation_summary = summarize_cross_source_correlation f events c.session_events;
}

abbrev enrich_error : Result (List Access.Event) → List Error
enrich_error (err e) = wrapped (codes "search recent access events for subscriber") e ∷ []
enrich_error (ok events) = []

-- the loop over the candidates
unfoldable pub enrich_all :
    Formats
    → (AccessStore.Query → Result (List Access.Event))
    → Time
    → Time
    → List Candidate
    → List Candidate × List Error
enrich_all f search from to [] = ([], [])
enrich_all f search from to (c ∷ cs) =
    let answer = search (access_query c from to) in
    let (rest, errors) = enrich_all f search from to cs in
    (enriched f c answer ∷ rest, enrich_error answer ++ errors)

unfoldable pub enrich_candidates_with_access :
    Formats
    → Option (AccessStore.Query → Result (List Access.Event))
    → Time
    → Time
    → List Candidate
    → List Candidate × List Error
unfolding enrich_all sort_candidates
enrich_candidates_with_access f none from to cs = (cs, [])
enrich_candidates_with_access f (some search) from to [] = ([], [])
enrich_candidates_with_access f (some search) from to (c ∷ cs) =
    let (done, errors) = enrich_all f search from to (c ∷ cs) in (sort_candidates done, errors)
