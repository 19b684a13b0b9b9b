-- ===== src/Policy/Defaults.antt =====
-- What the default rules allow.
use semantic_intelligence_la.Agents.{Run}
use semantic_intelligence_la.Policy.{
  Action, DecisionState, cross_tenant_rule, state_change_rule, flagged_tool_rule, read_only_rule,
  allow, require_approval, deny, is_cross_tenant, is_same_tenant, names_tool, matches, evaluate,
  approval_prefixes, read_prefixes, new_default_evaluator,
}
use semantic_intelligence_la.Base.{
  if◌then◌else◌, Bool-cases, any, Text, has_prefix, eq_text_iff, ◌≡◌, refl, ◌≢◌, ◌↔◌, ◌⊎◌, ◌∷◌,
  codes, is_empty, inl, inr, Bool, true, false, ◌&&◌, Option, none, some, List, [], arith,
}

-- a tool with one of the prefixes
unfoldable pub starts_with_any : List Text → Text → Bool
starts_with_any prefixes tool = any (λ prefix. has_prefix tool prefix) prefixes

-- the outcome of the default rules, as a ladder of the four tests
ladder : Bool → Bool → Bool → Bool → DecisionState
ladder cross state_change flagged read =
    if cross
    then deny
    else if state_change
    then require_approval
    else if flagged
    then require_approval
    else if read
    then allow
    else require_approval

-- a run and a target tenant that are both named, and differ
abbrev pub CrossesTenants : Option Run → Action → Type 0
CrossesTenants run action =
    (r : Run) × (run ≡ some r)
    × (r.tenant_id ≢ [])
    × (action.target_tenant_id ≢ [])
    × (r.tenant_id ≢ action.target_tenant_id)

is_cross_tenant_iff :
    (run : Option Run) (action : Action)
    → (is_cross_tenant run action ≡ true) ↔ CrossesTenants run action
unfolding is_cross_tenant
is_cross_tenant_iff none action = (λ h. cc, λ (r, e, named, target, differ). cc)
is_cross_tenant_iff (some r) action = (
  λ h. (
    r,
    refl,
    ground arith,
    ground arith,
    ground (arith, eq_text_iff r.tenant_id action.target_tenant_id),
  ),
  λ (q, e, named, target, differ).
      let same : r ≡ q = ground arith in
      rw same (ground (arith, eq_text_iff q.tenant_id action.target_tenant_id)),
)

-- no target tenant, or the one of the run
abbrev pub StaysInTenant : Option Run → Action → Type 0
StaysInTenant run action =
    (action.target_tenant_id ≡ [])
    ⊎ ((r : Run) × (run ≡ some r) × (r.tenant_id ≡ action.target_tenant_id))

is_same_tenant_iff :
    (run : Option Run) (action : Action)
    → (is_same_tenant run action ≡ true) ↔ StaysInTenant run action
unfolding is_same_tenant
is_same_tenant_iff none action =
    (λ h. inl (ground arith), λ stays. elim stays [ inl e ↦ ground arith | inr (r, e, same) ↦ cc ])
is_same_tenant_iff (some r) action = (
  λ h. elim (Bool-cases (is_empty action.target_tenant_id)) [
    | inl e ↦ inl (ground arith)
    | inr e ↦ inr (r, refl, ground (arith, eq_text_iff r.tenant_id action.target_tenant_id))
  ],
  λ stays. elim stays [
    | inl e ↦ ground arith
    | inr (q, e, same) ↦
        let own : r ≡ q = ground arith in
        rw own (ground (arith, eq_text_iff q.tenant_id action.target_tenant_id))
  ],
)

-- the prefixes of the tools that change state, and of those that read only
abbrev pub changing : List Text
changing = codes "ticket." ∷ codes "runbook." ∷ codes "action." ∷ codes "export." ∷ []

abbrev pub reading : List Text
reading = codes "search." ∷ codes "retrieve." ∷ codes "query." ∷ codes "explain." ∷ []

module _ (run : Option Run) (action : Action) where
  matches-cross_tenant_rule :
      matches cross_tenant_rule.match run action ≡ is_cross_tenant run action
  unfolding matches
  matches-cross_tenant_rule = ground arith

  matches-state_change_rule :
      matches state_change_rule.match run action
      ≡ starts_with_any approval_prefixes action.tool.name
  unfolding matches names_tool starts_with_any
  matches-state_change_rule = refl

  matches-flagged_tool_rule :
      matches flagged_tool_rule.match run action ≡ action.tool.requires_approval
  unfolding matches
  matches-flagged_tool_rule = ground arith

  matches-read_only_rule :
      matches read_only_rule.match run action
      ≡ (is_same_tenant run action && starts_with_any read_prefixes action.tool.name)
  unfolding matches names_tool starts_with_any
  matches-read_only_rule = elim (Bool-cases (is_same_tenant run action)) [
    | inl same ↦ rw same refl
    | inr other ↦ rw other refl
  ]

  evaluate_default :
      (evaluate new_default_evaluator run action).state
      ≡ ladder
          (is_cross_tenant run action)
          (starts_with_any approval_prefixes action.tool.name)
          action.tool.requires_approval
          (is_same_tenant run action && starts_with_any read_prefixes action.tool.name)
  unfolding evaluate ladder
  evaluate_default = ground (
    arith, matches-cross_tenant_rule, matches-state_change_rule, matches-flagged_tool_rule,
    matches-read_only_rule,
  )

  not_cross_of_same : is_same_tenant run action ≡ true → is_cross_tenant run action ≡ false
  unfolding is_cross_tenant is_same_tenant
  not_cross_of_same h = ground arith

  evaluate_allow_of_tests : ((evaluate new_default_evaluator run action).state ≡ allow) ↔ (
      (is_same_tenant run action ≡ true)
      × (starts_with_any approval_prefixes action.tool.name ≡ false)
      × (action.tool.requires_approval ≡ false)
      × (starts_with_any read_prefixes action.tool.name ≡ true))
  unfolding ladder
  evaluate_allow_of_tests = rw evaluate_default (ground (arith, not_cross_of_same))

  -- With the default rules an action is allowed exactly when its target tenant is empty or the
  -- tenant of the run, its tool is not flagged for approval and its name starts with none of
  -- ticket., runbook., action. and export., and it starts with search., retrieve., query. or
  -- explain.
  pub evaluate_allow_iff : ((evaluate new_default_evaluator run action).state ≡ allow) ↔ (
      StaysInTenant run action
      × (starts_with_any changing action.tool.name ≡ false)
      × (action.tool.requires_approval ≡ false)
      × (starts_with_any reading action.tool.name ≡ true))
  evaluate_allow_iff = (
    λ h.
        let (same, unchanged, unflagged, reads) = evaluate_allow_of_tests.0 h in
        ((is_same_tenant_iff run action).0 same, unchanged, unflagged, reads),
    λ (stays, unchanged, unflagged, reads).
        evaluate_allow_of_tests.1
          ((is_same_tenant_iff run action).1 stays, unchanged, unflagged, reads),
  )

  -- With the default rules an action is denied exactly when the run has a tenant, the action names
  -- a target tenant, and the two differ, whatever the tool.
  pub evaluate_deny_iff :
      ((evaluate new_default_evaluator run action).state ≡ deny) ↔ CrossesTenants run action
  unfolding ladder
  evaluate_deny_iff = rw evaluate_default (ground (arith, is_cross_tenant_iff run action))
