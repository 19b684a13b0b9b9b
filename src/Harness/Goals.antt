-- ===== src/Harness/Goals.antt =====
-- The questions that the harness knows, and the query terms that stand for them.
use semantic_intelligence_la.Base.{
  if◌then◌else◌, is_empty, any, Text, codes, CharTables, eq_text, trim_space, is_blank, has_prefix,
  contains, join, to_lower, equal_fold, Bool, false, not, ◌&&◌, ◌||◌, List, [], ◌∷◌, ◌++◌,
}

-- containsAny
unfoldable pub contains_any : Text → List Text → Bool
contains_any value needles = any (λ needle. contains value needle) needles

unfoldable pub is_before_connect_question : Text → Bool
unfolding contains_any
is_before_connect_question goal =
    has_prefix goal (codes "did ")
    && contains_any goal (
        codes "fail auth before connect"
        ∷ codes "fail auth before connecting"
        ∷ codes "failed auth before connect"
        ∷ codes "failed auth before connecting"
        ∷ codes "authentication fail before connect"
        ∷ codes "authentication failed before connect"
        ∷ codes "authentication fail before connecting"
        ∷ codes "authentication failed before connecting"
        ∷ [])

unfoldable pub is_status_question : Text → Bool
is_status_question goal =
    not (is_empty goal)
    && (has_prefix goal (codes "how is ")
        || has_prefix goal (codes "how's ")
        || has_prefix goal (codes "what is the status of ")
        || has_prefix goal (codes "what's the status of ")
        || has_prefix goal (codes "status of "))

unfoldable pub is_tenant_membership_question : Text → Bool
unfolding contains_any
is_tenant_membership_question goal =
    if is_empty goal || not (contains goal (codes "tenant"))
    then false
    else contains_any goal (
        codes "belong to this tenant"
        ∷ codes "belongs to this tenant"
        ∷ codes "member of this tenant"
        ∷ codes "part of this tenant"
        ∷ codes "within this tenant"
        ∷ [])

unfoldable pub is_disconnect_reason_question : Text → Bool
unfolding contains_any
is_disconnect_reason_question goal =
    not (is_empty goal)
    && (contains_any goal (codes "why did" ∷ codes "why was" ∷ [])
        && contains_any goal (codes "disconnect" ∷ codes "disconnected" ∷ []))

module _ ⦃u : CharTables⦄ where
  -- strings.ToLower(strings.TrimSpace(goal))
  abbrev pub normalized_goal : Text → Text
  normalized_goal goal = to_lower (trim_space goal)

  -- the loop of joinQueryTerms; `seen` and `parts` hold the same strings
  unfoldable pub join_terms_from : List Text → List Text → List Text
  join_terms_from parts [] = parts
  join_terms_from parts (value ∷ values) =
      let term = trim_space (to_lower value) in
      join_terms_from
        (if is_empty term || any (λ part. eq_text part term) parts
          then parts
          else parts ++ term ∷ [])
        values

  unfoldable pub join_query_terms : List Text → Text
  unfolding join_terms_from
  join_query_terms values = join (codes " ") (join_terms_from [] values)

  -- the `switch` of rewriteBoundedQuestionQuery
  unfoldable pub bounded_query : Text → Text → Text
  unfolding join_query_terms
  bounded_query goal subscriber =
      if is_before_connect_question goal
      then join_query_terms (
          subscriber
          ∷ codes "authentication"
          ∷ codes "rejected"
          ∷ codes "accepted"
          ∷ codes "connected"
          ∷ codes "session"
          ∷ codes "start"
          ∷ codes "invalid password"
          ∷ [])
      else if is_status_question goal
      then join_query_terms (
          subscriber
          ∷ codes "session"
          ∷ codes "status"
          ∷ codes "connected"
          ∷ codes "disconnected"
          ∷ codes "latest"
          ∷ [])
      else if is_tenant_membership_question goal
      then join_query_terms
          (subscriber ∷ codes "subscriber" ∷ codes "tenant" ∷ codes "membership" ∷ [])
      else if is_disconnect_reason_question goal
      then join_query_terms (
          subscriber
          ∷ codes "session"
          ∷ codes "stop"
          ∷ codes "disconnect"
          ∷ codes "disconnected"
          ∷ codes "latest"
          ∷ [])
      else []

  -- rewriteBoundedQuestionQuery, on the goal, inputs["query"] and inputs["subscriber_id"]
  unfoldable pub rewrite_bounded_question_query : Text → Text → Text → Text
  unfolding bounded_query
  rewrite_bounded_question_query goal query subscriber =
      if is_blank goal
      then []
      else if not (is_blank query) && not (equal_fold (trim_space query) (trim_space goal))
      then []
      else bounded_query (to_lower (trim_space goal)) (trim_space subscriber)
