-- ===== src/Harness/Requests.antt =====
-- normalizeRequest, cloneInputs, composeID and sanitizeIDPart.
-- cloneInputs ranges over a map: where two keys trim to one, which value stays is not determined
-- in Go; here it is that of the later entry.
pub mod Laws
use semantic_intelligence_la.Base.Times.{Time, ℤ, pos, negsuc}
use semantic_intelligence_la.Base.Dict.{Dict, insert}
use semantic_intelligence_la.Agents.{RunRequest}
use semantic_intelligence_la.Harness.Formats.{Formats}
use semantic_intelligence_la.Harness.Goals.{rewrite_bounded_question_query}
use semantic_intelligence_la.Harness.Plan.{input, key_query, key_subscriber_id}
use semantic_intelligence_la.Base.{
  ltb, ◌==◌, if◌then◌else◌, is_empty, Text, codes, CharTables, trim_func, trim_space, is_blank,
  join, to_lower, required, Result, ok, ◌>>=◌, ◌>>◌, fail_if, ℕ, zero, suc, ◌+◌, ◌-◌, Bool, ◌&&◌,
  ◌||◌, List, [], ◌∷◌, ◌++◌, map, arith,
}

abbrev pub default_max_steps : ℕ
default_max_steps = 4

abbrev pub max_harness_steps : ℕ
max_harness_steps = 5

unfoldable pub clone_from : Dict Text → Dict Text → Dict Text
clone_from cloned [] = cloned
clone_from cloned ((key, value) ∷ rest) =
    clone_from (if is_blank key then cloned else insert (trim_space key) (trim_space value) cloned)
      rest

unfoldable pub clone_inputs : Dict Text → Dict Text
unfolding clone_from
clone_inputs values = clone_from [] values

-- strings.Trim(s, "-")
abbrev is_dash : ℕ → Bool
is_dash c = c == b'-'

-- the goal after the first `switch`, which refuses a request with neither goal nor query
abbrev pub goal_or_query : Text → Text → Text
goal_or_query goal query = if is_empty goal then query else goal

-- inputs["query"] after the first `switch` and the rewriting
abbrev pub with_query : Text → Dict Text → Dict Text
with_query goal inputs =
    if is_blank (input key_query inputs) then insert key_query goal inputs else inputs

-- the two tests of MaxSteps at the end
unfoldable pub bounded_steps : ℤ → ℕ
bounded_steps (negsuc _) = default_max_steps
bounded_steps (pos zero) = default_max_steps
bounded_steps (pos (suc n)) = if ltb max_harness_steps (suc n) then max_harness_steps else suc n

module _ ⦃u : CharTables⦄ where
  -- one round of the loop over the runes
  unfoldable pub id_rune : ℕ → ℕ
  id_rune r =
      if u.is_letter r || u.is_digit r
      then r
      else if r == b'-' || r == b'_' || r == b'.' || r == b':'
      then r
      else b'-'

  unfoldable pub sanitize_id_part : Text → Text
  unfolding id_rune
  sanitize_id_part value = trim_func is_dash (map id_rune (trim_space (to_lower value)))

  -- the string parts that composeID keeps
  unfoldable pub id_parts : List Text → List Text
  unfolding sanitize_id_part
  id_parts [] = []
  id_parts (part ∷ parts) =
      let rest = id_parts parts in
      if is_empty (sanitize_id_part part) then rest else sanitize_id_part part ∷ rest

  -- composeID(kind, part, …, time): every call in the program ends with one instant
  unfoldable pub compose_id : Formats → Text → List Text → Time → Text
  unfolding id_parts
  compose_id f kind parts at = join (codes ":") (kind ∷ (id_parts parts ++ f.id_time at ∷ []))

  abbrev pub with_bounded_query : Text → Dict Text → Dict Text
  with_bounded_query goal inputs =
      let bounded =
        rewrite_bounded_question_query goal (input key_query inputs)
          (input key_subscriber_id inputs) in
      if is_empty bounded then inputs else insert key_query bounded inputs

  -- the request that normalizeRequest returns, from its trimmed query
  abbrev pub accepted_request : Formats → Time → RunRequest → Text → RunRequest
  accepted_request f now request query =
      let goal = goal_or_query (trim_space request.goal) query in
      let tenant_id = trim_space request.tenant_id in
      let session_id = trim_space request.session_id in
      record {
        tenant_id = tenant_id;
        case_id = trim_space request.case_id;
        session_id =
            if is_empty session_id
            then compose_id f (codes "agent-session") (tenant_id ∷ goal ∷ []) now
            else session_id;
        goal = goal;
        inputs = with_bounded_query goal (with_query goal (clone_inputs request.inputs));
        max_steps = pos (bounded_steps request.max_steps);
      }

  unfoldable pub normalize_request : Formats → Time → RunRequest → Result RunRequest
  unfolding clone_inputs bounded_steps
  normalize_request f now request = do
    let query = trim_space (input key_query (clone_inputs request.inputs))
    fail_if (is_blank request.goal && is_empty query) (required (codes "goal or inputs.query"))
    fail_if (is_blank request.tenant_id) (required (codes "tenant_id"))
    ok (accepted_request f now request query)
