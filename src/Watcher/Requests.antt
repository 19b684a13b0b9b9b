-- ===== src/Watcher/Requests.antt =====
-- buildRunRequest, with the goal and the query of a candidate, and the ids of the watcher.
use semantic_intelligence_la.Base.Times.{Time, pos}
use semantic_intelligence_la.Base.Dict.{Dict}
use semantic_intelligence_la.Agents.{RunRequest}
use semantic_intelligence_la.Contracts.Access.{Outcome, accepted, rejected, challenged}
use semantic_intelligence_la.Contracts.Access
use semantic_intelligence_la.Harness.Formats.{Formats}
use semantic_intelligence_la.Harness.Timeline.{has_outcome}
use semantic_intelligence_la.Harness.Plan.{
  key_query, key_subscriber_id, key_status, key_from, key_to, key_limit, key_nas_ip_address,
  key_client_ip,
}
use semantic_intelligence_la.Watcher.Candidates.{Candidate}
use semantic_intelligence_la.Base.{
  leb, ◌==◌, if◌then◌else◌, is_empty, any, Text, codes, CharTables, eq_text, trim_func, trim_space,
  is_blank, join, to_lower, ℕ, ◌-◌, Bool, not, ◌&&◌, ◌||◌, List, [], ◌∷◌, ◌++◌, map,
}

unfoldable pub candidate_has_access_outcome : List Access.Event → Outcome → Bool
candidate_has_access_outcome events outcome = any (λ event. has_outcome outcome event) events

abbrev about : Text → Candidate → Text
about start c = start ++ c.subscriber

unfoldable pub watcher_goal : Candidate → Text
unfolding candidate_has_access_outcome
watcher_goal c =
    if candidate_has_access_outcome c.access_events rejected
    then join [] (codes "Did " ∷ c.subscriber ∷ codes " fail auth before connecting?" ∷ [])
    else if not (is_blank c.correlation_summary)
    then about
        (codes
          "Investigate correlated access and repeated short-session disconnects for subscriber ")
        c
    else if not (is_empty c.access_events)
    then about
        (codes
          "Investigate access context around repeated short-session disconnects for subscriber ")
        c
    else about (codes "Investigate repeated short-session disconnects for subscriber ") c

-- `add`: `seen` and `parts` hold the same strings
abbrev add_part : List Text → Text → List Text
add_part parts value =
    let part = trim_space value in
    if is_empty part || any (λ seen. eq_text seen part) parts then parts else parts ++ part ∷ []

abbrev add_parts : List Text → List Text → List Text
add_parts parts [] = parts
add_parts parts (value ∷ values) = add_parts (add_part parts value) values

-- a part that is added under a test
abbrev part_if : Bool → Text → List Text
part_if test part = if test then part ∷ [] else []

unfoldable pub build_watcher_query_parts : Candidate → List Text
unfolding candidate_has_access_outcome
build_watcher_query_parts c =
    let has = λ (outcome : Outcome). candidate_has_access_outcome c.access_events outcome in
    let correlated = not (is_blank c.correlation_summary) in
    add_parts [] (
      codes "repeated short session disconnect"
      ∷ (codes "subscriber " ++ c.subscriber)
      ∷ codes "stop"
      ∷ (part_if (not (is_empty c.access_events) || correlated) (codes "access authentication")
          ++ (part_if (has rejected || has challenged) (codes "auth failure")
              ++ (part_if (has rejected) (codes "rejected")
                  ++ (part_if (has challenged) (codes "challenged")
                      ++ (part_if (has accepted) (codes "accepted")
                          ++ (part_if correlated (codes "correlated")
                              ++ part_if (not (is_empty c.latest.nas_ip_address))
                                  (codes "nas " ++ c.latest.nas_ip_address))))))))

-- the runes that sanitizeWatcherIDPart keeps
abbrev watcher_rune : ℕ → ℕ
watcher_rune r =
    if (leb b'a' r && leb r b'z') || (leb b'0' r && leb r b'9')
    then r
    else if r == b'-' || r == b'_' || r == b'.'
    then r
    else b'-'

abbrev is_dash : ℕ → Bool
is_dash c = c == b'-'

abbrev pub watcher_name : Text
watcher_name = codes "repeated-short-session-disconnects"

-- the entry where the value is not ""
abbrev entry_of : Text → Text → Dict Text
entry_of key value = if is_empty value then [] else (key, value) ∷ []

module _ ⦃u : CharTables⦄ where
  unfoldable pub sanitize_watcher_id_part : Text → Text
  sanitize_watcher_id_part value =
      trim_func is_dash (map watcher_rune (trim_space (to_lower value)))

  abbrev id_of : Text → Text → Text → Text
  id_of kind tenant_id subscriber_id = join (codes ":") (
      kind
      ∷ sanitize_watcher_id_part watcher_name
      ∷ sanitize_watcher_id_part tenant_id
      ∷ sanitize_watcher_id_part subscriber_id
      ∷ [])

  unfoldable pub compose_watcher_session_id : Text → Text → Text
  unfolding sanitize_watcher_id_part
  compose_watcher_session_id = id_of (codes "watcher")

  unfoldable pub watcher_state_key : Text → Text → Text
  unfolding sanitize_watcher_id_part
  watcher_state_key = id_of (codes "watcher-state")

  unfoldable pub build_run_request : Formats → Candidate → Time → ℕ → RunRequest
  unfolding watcher_goal build_watcher_query_parts compose_watcher_session_id
  build_run_request f c now window = record {
    tenant_id = c.tenant_id;
    case_id = [];
    session_id = compose_watcher_session_id c.tenant_id c.subscriber;
    goal = watcher_goal c;
    inputs =
        (key_query, join (codes " ") (build_watcher_query_parts c))
        ∷ (key_subscriber_id, c.subscriber)
        ∷ (key_status, codes "stop")
        ∷ (key_from, f.rfc3339 (now - window))
        ∷ (key_to, f.rfc3339 now)
        ∷ (key_limit, codes "10")
        ∷ (entry_of key_nas_ip_address c.latest.nas_ip_address
            ++ entry_of key_client_ip c.latest.client_ip_address);
    max_steps = pos 4;
  }
