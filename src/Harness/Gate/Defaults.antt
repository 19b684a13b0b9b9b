-- ===== src/Harness/Gate/Defaults.antt =====
-- The tools of the steps, under the default policy.
use mathlib.Core.Path.{subst}
use semantic_intelligence_la.Agents.{Run, Step}
use semantic_intelligence_la.Policy.{allow, evaluate, new_default_evaluator}
use semantic_intelligence_la.Policy.Defaults.{
  starts_with_any, changing, reading, evaluate_allow_iff,
}
use semantic_intelligence_la.Harness.Steps.{Service, action_of}
use semantic_intelligence_la.Base.{
  Text, codes, has_prefix, ◌≡◌, refl, sym, ◌⊎◌, inl, inr, true, false, some,
}

-- the tools that the four steps name
abbrev pub IsHarnessTool : Text → Type 0
IsHarnessTool tool =
    (tool ≡ codes "retrieve.evidence.search")
    ⊎ ((tool ≡ codes "query.access.search")
        ⊎ ((tool ≡ codes "query.sessions.search") ⊎ (tool ≡ codes "explain.findings.summary")))

abbrev IsReadOnly : Text → Type 0
IsReadOnly tool = (starts_with_any changing tool ≡ false) × (starts_with_any reading tool ≡ true)

IsReadOnly-of_IsHarnessTool : (tool : Text) → IsHarnessTool tool → IsReadOnly tool
unfolding starts_with_any has_prefix
IsReadOnly-of_IsHarnessTool tool (inl e) = subst (λ t. IsReadOnly t) (sym e) (refl, refl)
IsReadOnly-of_IsHarnessTool tool (inr (inl e)) = subst (λ t. IsReadOnly t) (sym e) (refl, refl)
IsReadOnly-of_IsHarnessTool tool (inr (inr (inl e))) =
    subst (λ t. IsReadOnly t) (sym e) (refl, refl)
IsReadOnly-of_IsHarnessTool tool (inr (inr (inr e))) =
    subst (λ t. IsReadOnly t) (sym e) (refl, refl)

-- The default policy allows the action that a step of a run asks for, if the tool is one of the
-- four that the steps of the harness name.
pub evaluate-action_of :
    (s : Service) (run : Run) (step : Step)
    → IsHarnessTool step.tool_name
    → (evaluate new_default_evaluator (some run) (action_of s run step)).state ≡ allow
unfolding action_of
evaluate-action_of s run step tool =
    let (no_approval, read) = IsReadOnly-of_IsHarnessTool step.tool_name tool in
    (evaluate_allow_iff (some run) (action_of s run step)).1
      (inr (run, refl, refl), no_approval, refl, read)
