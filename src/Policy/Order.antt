-- ===== src/Policy/Order.antt =====
-- The evaluator against an independent reading of a rule list: the first rule that matches decides.
use semantic_intelligence_la.Agents.{Run}
use semantic_intelligence_la.Policy.{
  Action, Decision, Rule, StaticEvaluator, matches, evaluate, first_decision,
}
use semantic_intelligence_la.Base.{
  Bool-cases, ◌≡◌, refl, ◌↔◌, inl, inr, true, false, Option, List, [], ◌∷◌,
}

module _ (run : Option Run) (action : Action) where
  -- `Decides rules fallback d`: `d` is the decision that the list gives
  pub data Decides (fallback : Decision) : List Rule → Decision → Type 0 where
    no_rule : Decides fallback [] fallback
    this_rule :
        {r : Rule} {rs : List Rule}
        → matches r.match run action ≡ true
        → Decides fallback (r ∷ rs) r.decision
    later_rule :
        {r : Rule} {rs : List Rule} {d : Decision}
        → matches r.match run action ≡ false
        → Decides fallback rs d
        → Decides fallback (r ∷ rs) d

  first_decision-Decides :
      (fallback : Decision) (rules : List Rule)
      → Decides fallback rules (first_decision rules fallback run action)
  unfolding first_decision
  first_decision-Decides fallback [] = no_rule
  first_decision-Decides fallback (r ∷ rs) = elim (Bool-cases (matches r.match run action)) [
    | inl hit ↦ rw hit (this_rule hit)
    | inr miss ↦ rw miss (later_rule miss (first_decision-Decides fallback rs))
  ]

  Decides-unique :
      (fallback : Decision) {rules : List Rule} {d : Decision}
      → Decides fallback rules d
      → first_decision rules fallback run action ≡ d
  unfolding first_decision
  Decides-unique fallback no_rule = refl
  Decides-unique fallback (this_rule hit) = rw hit
  Decides-unique fallback (later_rule miss h) = rw miss (Decides-unique fallback h)

-- For every rule list, run and action, `Evaluate` returns the decision d exactly when d is that of
-- the first rule that matches, or is the fallback and no rule matches.
pub evaluate-Decides :
    (e : StaticEvaluator) (run : Option Run) (action : Action) (d : Decision)
    → (evaluate e run action ≡ d) ↔ Decides run action e.fallback e.rules d
unfolding evaluate
evaluate-Decides e run action d = (
  λ h. rw h at (first_decision-Decides run action e.fallback e.rules),
  λ h. Decides-unique run action e.fallback h,
)
