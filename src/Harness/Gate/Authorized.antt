-- ===== src/Harness/Gate/Authorized.antt =====
-- After `authorize` goes on, the tool of the step is allowed.
use semantic_intelligence_la.Agents.{Run, Step}
use semantic_intelligence_la.Policy.{Decision, allow}
use semantic_intelligence_la.Harness.Steps.{
  Act, Service, World, authorize, action_of, decision_error,
}
use semantic_intelligence_la.Harness.Gate.{Allows, IsGated, Post, Stopped, goes_on, ends}
use semantic_intelligence_la.Base.{
  Option-cases, is_empty, Text, Result, ok, err, ◌≡◌, refl, inl, inr, false, none, some, List,
  arith,
}

-- a step is under way that is allowed to use the tool
abbrev pub Ready : Text → Text → List Act → Type 0
Ready tool tenant acts = Allows tool tenant acts × IsGated tenant acts

decision_error-none : (d : Decision) → decision_error d ≡ none → d.state ≡ allow
unfolding decision_error
decision_error-none d h = ground arith

module _ (s : Service) (run : Run) (step : Step) (w : World)
    (has_id : is_empty step.id ≡ false) where
  answered :
      (d : Result Decision)
      → s.policy (some run) (action_of s run step) ≡ d
      → IsGated run.tenant_id w.acts
      → Post
          (λ _. Ready step.tool_name run.tenant_id)
          (Stopped run.tenant_id)
          (authorize s run step w)
  unfolding authorize action_of
  answered (err e) h gated = rw h (ends (has_id, (refl, gated)))
  answered (ok d) h gated = elim (Option-cases (decision_error d)) [
    | inr (e, p) ↦ rw (h, p) (ends (has_id, (refl, gated)))
    | inl p ↦
        rw (h, p)
          (goes_on (
            record {
              action = action_of s run step;
              decision = d;
              latest = refl;
              allowed = decision_error-none d p;
              named = refl;
              target = refl;
            },
            (refl, gated),
          ))
  ]

  pub authorize-Post :
      IsGated run.tenant_id w.acts
      → Post
          (λ _. Ready step.tool_name run.tenant_id)
          (Stopped run.tenant_id)
          (authorize s run step w)
  authorize-Post gated = answered (s.policy (some run) (action_of s run step)) refl gated
