-- ===== src/Policy/Tests.antt =====
-- Runs of the evaluator, and the theorems at concrete inputs.
use semantic_intelligence_la.Agents.{Run, RunStatus}
use semantic_intelligence_la.Policy.{
  Action, allow, require_approval, deny, evaluate, is_same_tenant, is_cross_tenant, matches,
  names_tool, new_default_evaluator, default_decision, default_rules,
}
use semantic_intelligence_la.Policy.Order.{Decides, evaluate-Decides}
use semantic_intelligence_la.Policy.Defaults.{
  starts_with_any, CrossesTenants, StaysInTenant, changing, reading, evaluate_allow_iff,
  evaluate_deny_iff,
}
use semantic_intelligence_la.Base.{
  Text, codes, eq_text, has_prefix, ◌≡◌, refl, ◌↔◌, Bool, true, false, Option, none, some, [],
}

abbrev run_of : Text → Option Run
run_of tenant = some (record {
  id = codes "run:1";
  tenant_id = tenant;
  case_id = [];
  session_id = codes "s";
  goal = codes "g";
  status = RunStatus.running;
  runtime_name = [];
  planner_name = [];
  started_at = 1;
  updated_at = 1;
  completed_at = none;
})

abbrev action_of : Text → Text → Action
action_of tool target = record {
  run_id = codes "run:1";
  session_id = codes "s";
  step_id = codes "step:1";
  tool = record { name = tool; description = tool; requires_approval = false };
  target_tenant_id = target;
  reason = [];
}

decisions :
    ((evaluate new_default_evaluator
        (run_of (codes "a"))
        (action_of (codes "query.x") (codes "a"))).state
      ≡ allow)
    × ((evaluate new_default_evaluator
          (run_of (codes "a"))
          (action_of (codes "query.x") (codes "b"))).state
        ≡ deny)
    × ((evaluate new_default_evaluator (run_of (codes "a")) (action_of (codes "ticket.x") [])).state
        ≡ require_approval)
    × (evaluate new_default_evaluator none (action_of (codes "other") []) ≡ default_decision)
unfolding evaluate matches names_tool is_same_tenant is_cross_tenant eq_text has_prefix
decisions = (refl, refl, refl, refl)

evaluate-Decides_example :
    (evaluate new_default_evaluator none (action_of (codes "other") []) ≡ default_decision)
    ↔ Decides none (action_of (codes "other") []) default_decision default_rules default_decision
evaluate-Decides_example =
    evaluate-Decides new_default_evaluator none (action_of (codes "other") []) default_decision

evaluate_allow_iff_example :
    ((evaluate new_default_evaluator
        (run_of (codes "a"))
        (action_of (codes "query.x") (codes "a"))).state
      ≡ allow)
    ↔ (StaysInTenant (run_of (codes "a")) (action_of (codes "query.x") (codes "a"))
        × (starts_with_any changing (codes "query.x") ≡ false)
        × ◌≡◌ {A = Bool} false false
        × (starts_with_any reading (codes "query.x") ≡ true))
evaluate_allow_iff_example =
    evaluate_allow_iff (run_of (codes "a")) (action_of (codes "query.x") (codes "a"))

evaluate_deny_iff_example :
    ((evaluate new_default_evaluator
        (run_of (codes "a"))
        (action_of (codes "query.x") (codes "b"))).state
      ≡ deny)
    ↔ CrossesTenants (run_of (codes "a")) (action_of (codes "query.x") (codes "b"))
evaluate_deny_iff_example =
    evaluate_deny_iff (run_of (codes "a")) (action_of (codes "query.x") (codes "b"))
