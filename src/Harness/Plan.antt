-- ===== src/Harness/Plan.antt =====
-- buildInvestigationPlan: which phases an investigation goes through, and in which order.
pub mod Laws
use semantic_intelligence_la.Base.Dict.{Dict, lookup}
use semantic_intelligence_la.Agents.{RunRequest}
use semantic_intelligence_la.Harness.Goals.{
  is_before_connect_question, is_status_question, is_tenant_membership_question,
  is_disconnect_reason_question, normalized_goal,
}
use semantic_intelligence_la.Base.{
  if◌then◌else◌, any, Text, codes, CharTables, is_blank, ◌+◌, Bool, true, false, not, ◌&&◌, ◌||◌,
  Option, none, some, List, [], ◌∷◌, ◌++◌, arith,
}

pub data Phase : Type 0 where
  retrieve access sessions : Phase

abbrev pub same_phase : Phase → Phase → Bool
same_phase retrieve retrieve = true
same_phase access access = true
same_phase sessions sessions = true
same_phase _ _ = false

abbrev pub is_available : Bool → Bool → Phase → Bool
is_available with_access with_sessions retrieve = true
is_available with_access with_sessions access = with_access
is_available with_access with_sessions sessions = with_sessions

-- the loop of orderedAvailablePhases; `seen` and `ordered` hold the same phases
unfoldable pub ordered_from : Bool → Bool → List Phase → List Phase → List Phase
ordered_from a s ordered [] = ordered
ordered_from a s ordered (phase ∷ phases) =
    ordered_from a s
      (if any (λ seen. same_phase seen phase) ordered || not (is_available a s phase)
        then ordered
        else ordered ++ phase ∷ [])
      phases

unfoldable pub ordered_available_phases : Bool → Bool → List Phase → List Phase
unfolding ordered_from
ordered_available_phases a s phases = ordered_from a s [] phases

-- inputs[key], which is "" where the key is missing
abbrev pub text_or_empty : Option Text → Text
text_or_empty none = []
text_or_empty (some v) = v

abbrev pub input : Text → Dict Text → Text
input key inputs = text_or_empty (lookup key inputs)

abbrev pub key_query : Text
key_query = codes "query"

abbrev pub key_subscriber_id : Text
key_subscriber_id = codes "subscriber_id"

abbrev pub key_session_id : Text
key_session_id = codes "session_id"

abbrev pub key_request_id : Text
key_request_id = codes "request_id"

abbrev pub key_status : Text
key_status = codes "status"

abbrev pub key_outcome : Text
key_outcome = codes "outcome"

abbrev pub key_nas_ip_address : Text
key_nas_ip_address = codes "nas_ip_address"

abbrev pub key_client_ip : Text
key_client_ip = codes "client_ip_address"

abbrev pub key_from : Text
key_from = codes "from"

abbrev pub key_to : Text
key_to = codes "to"

abbrev pub key_limit : Text
key_limit = codes "limit"

unfoldable pub has_structured_lookup_selectors : Dict Text → Bool
has_structured_lookup_selectors inputs =
    any (λ key. not (is_blank (input key inputs)))
      (key_subscriber_id ∷ key_session_id ∷ key_request_id ∷ key_nas_ip_address ∷ key_client_ip
        ∷ [])

abbrev pub all_phases : List Phase
all_phases = retrieve ∷ access ∷ sessions ∷ []

-- the `switch` of buildInvestigationPlan: the phases before the unavailable ones are taken out
unfoldable pub wanted_phases : Text → Bool → List Phase
wanted_phases goal selectors =
    if is_before_connect_question goal
    then all_phases
    else if is_status_question goal && selectors
    then sessions ∷ access ∷ []
    else if is_tenant_membership_question goal && selectors
    then retrieve ∷ []
    else if is_disconnect_reason_question goal && selectors
    then sessions ∷ []
    else all_phases

-- `if len(phases) == 0 { return []investigationPhase{investigationPhaseRetrieve} }`
abbrev pub or_retrieve : List Phase → List Phase
or_retrieve [] = retrieve ∷ []
or_retrieve (p ∷ ps) = p ∷ ps

unfoldable pub build_investigation_plan : ⦃u : CharTables⦄ → RunRequest → Bool → Bool → List Phase
unfolding ordered_available_phases wanted_phases has_structured_lookup_selectors
build_investigation_plan request a s = or_retrieve (
    ordered_available_phases a s (
      wanted_phases (normalized_goal request.goal)
        (has_structured_lookup_selectors request.inputs)))
