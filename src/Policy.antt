-- ===== src/Policy.antt =====
-- internal/agents/policy: evaluator.go and static.go.
-- `Arguments` of an action, which no rule reads, is left out; `*agents.Run` may be nil.
pub mod Order
pub mod Defaults
mod Tests
use semantic_intelligence_la.Agents.{Run, ToolDefinition}
use semantic_intelligence_la.Base.{
  if◌then◌else◌, is_empty, any, Text, codes, eq_text, has_prefix, external, ◌-◌, Bool, true, false,
  not, ◌&&◌, ◌||◌, Option, none, some, List, [], ◌∷◌, arith,
}

pub data DecisionState : Type 0 where
  allow require_approval deny : DecisionState
  other : Text → DecisionState

pub record Action : Type 0 where
  pub run_id : Text
  pub session_id : Text
  pub step_id : Text
  pub tool : ToolDefinition
  pub target_tenant_id : Text
  pub reason : Text

pub record Decision : Type 0 where
  pub state : DecisionState
  pub reason : Text

pub record Match : Type 0 where
  pub tool_names : List Text
  pub tool_prefixes : List Text
  pub same_tenant_only : Bool
  pub cross_tenant : Bool
  pub tool_requires_approval : Bool

pub record Rule : Type 0 where
  pub name : Text
  pub description : Text
  pub match : Match
  pub decision : Decision

-- the tenant of a run that may be nil
abbrev tenant_of : Option Run → Text
tenant_of none = []
tenant_of (some r) = r.tenant_id

-- `run == nil || run.TenantID == ""`
abbrev no_tenant : Option Run → Bool
no_tenant none = true
no_tenant (some r) = is_empty r.tenant_id

unfoldable pub is_cross_tenant : Option Run → Action → Bool
is_cross_tenant run action =
    if no_tenant run || is_empty action.target_tenant_id
    then false
    else not (eq_text (tenant_of run) action.target_tenant_id)

unfoldable pub is_same_tenant : Option Run → Action → Bool
is_same_tenant run action =
    if is_empty action.target_tenant_id
    then true
    else if no_tenant run
    then false
    else eq_text (tenant_of run) action.target_tenant_id

-- the two loops of `Matches`
pub names_tool : Match → Text → Bool
names_tool m tool =
    any (λ name. eq_text tool name) m.tool_names
    || any (λ prefix. has_prefix tool prefix) m.tool_prefixes

unfoldable pub matches : Match → Option Run → Action → Bool
matches m run action =
    if m.cross_tenant && not (is_cross_tenant run action)
    then false
    else if m.same_tenant_only && not (is_same_tenant run action)
    then false
    else if m.tool_requires_approval && not action.tool.requires_approval
    then false
    else if is_empty m.tool_names && is_empty m.tool_prefixes
    then true
    else names_tool m action.tool.name

pub record StaticEvaluator : Type 0 where
  pub rules : List Rule
  pub fallback : Decision

-- the loop of `Evaluate`
first_decision : List Rule → Decision → Option Run → Action → Decision
first_decision [] fallback run action = fallback
first_decision (rule ∷ rules) fallback run action =
    let rest = first_decision rules fallback run action in
    if matches rule.match run action then rule.decision else rest

-- it never returns an error
unfoldable pub evaluate : StaticEvaluator → Option Run → Action → Decision
unfolding first_decision
evaluate e run action = first_decision e.rules e.fallback run action

abbrev no_match : Match
no_match = record {
  tool_names = [];
  tool_prefixes = [];
  same_tenant_only = false;
  cross_tenant = false;
  tool_requires_approval = false;
}

abbrev pub approval_prefixes : List Text
approval_prefixes = codes "ticket." ∷ codes "runbook." ∷ codes "action." ∷ codes "export." ∷ []

abbrev pub read_prefixes : List Text
read_prefixes = codes "search." ∷ codes "retrieve." ∷ codes "query." ∷ codes "explain." ∷ []

abbrev cross_tenant_rule : Rule
cross_tenant_rule = record {
  name = codes "deny-cross-tenant";
  description = codes "Blocks tools from operating outside the run tenant boundary.";
  match = record no_match { cross_tenant = true };
  decision = record { state = deny; reason = codes "cross-tenant actions are not allowed" };
}

abbrev state_change_rule : Rule
state_change_rule = record {
  name = codes "require-approval-for-state-change";
  description = codes "Requires human approval for state-changing or external tools.";
  match = record no_match { tool_prefixes = approval_prefixes };
  decision = record {
    state = require_approval;
    reason = codes "state-changing or external tools require approval";
  };
}

abbrev flagged_tool_rule : Rule
flagged_tool_rule = record {
  name = codes "require-approval-flagged-tool";
  description = codes "Honors tool definitions that explicitly require approval.";
  match = record no_match { tool_requires_approval = true };
  decision = record {
    state = require_approval;
    reason = codes "tool is marked as requiring approval";
  };
}

abbrev read_only_rule : Rule
read_only_rule = record {
  name = codes "allow-read-only-investigation";
  description = codes "Allows read-only investigation tools within the run tenant boundary.";
  match = record no_match { tool_prefixes = read_prefixes; same_tenant_only = true };
  decision = record { state = allow; reason = codes "read-only investigation tools are allowed" };
}

abbrev pub default_rules : List Rule
default_rules = cross_tenant_rule ∷ state_change_rule ∷ flagged_tool_rule ∷ read_only_rule ∷ []

abbrev pub default_decision : Decision
default_decision = record {
  state = require_approval;
  reason = codes "tool is not covered by a default allow policy";
}

abbrev pub new_default_evaluator : StaticEvaluator
new_default_evaluator = record { rules = default_rules; fallback = default_decision }
