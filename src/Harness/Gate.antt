-- ===== src/Harness/Gate.antt =====
-- What it is for the acts of a run to be gated by the policy, and the rules by which the steps of
-- a run are shown to keep a property of the acts.
pub mod Authorized
pub mod Defaults
pub mod Searches
pub mod Phases
use semantic_intelligence_la.Agents.{Step}
use semantic_intelligence_la.Policy.{Action, Decision, allow}
use semantic_intelligence_la.Harness.Steps.{
  Act, evaluated, searched_evidence, searched_access, searched_sessions, saved, World, Outcome,
  done, stopped, Doing, continue, check,
}
use semantic_intelligence_la.Base.{
  is_empty, Text, codes, Error, Result, ok, err, Meets, ◌-◌, ◌≡◌, false, Option, none, some, List,
  [], ◌∷◌, arith,
}

-- the decision asked for last, if nothing was saved since: a step ends with a save
abbrev pub latest_decision : List Act → Option (Action × Result Decision)
latest_decision [] = none
latest_decision (evaluated action d ∷ acts) = some (action, d)
latest_decision (searched_evidence q ∷ acts) = latest_decision acts
latest_decision (searched_access q ∷ acts) = latest_decision acts
latest_decision (searched_sessions q ∷ acts) = latest_decision acts
latest_decision (saved r e ∷ acts) = none

-- the step under way was allowed to use the tool, in the tenant
pub record Allows (tool : Text) (tenant : Text) (acts : List Act) : Type 0 where
  pub action : Action
  pub decision : Decision
  pub latest : latest_decision acts ≡ some (action, ok decision)
  pub allowed : decision.state ≡ allow
  pub named : action.tool.name ≡ tool
  pub target : action.target_tenant_id ≡ tenant

-- each decision was asked for in the tenant, and each search asks for the tenant's events and was
-- allowed to
abbrev pub IsGated : Text → List Act → Type 0
IsGated tenant [] = Unit
IsGated tenant (evaluated action d ∷ acts) =
    (action.target_tenant_id ≡ tenant) × IsGated tenant acts
IsGated tenant (searched_evidence q ∷ acts) =
    (q.tenant_id ≡ tenant)
    × Allows (codes "retrieve.evidence.search") tenant acts
    × IsGated tenant acts
IsGated tenant (searched_access q ∷ acts) =
    (q.tenant_id ≡ tenant) × Allows (codes "query.access.search") tenant acts × IsGated tenant acts
IsGated tenant (searched_sessions q ∷ acts) =
    (q.tenant_id ≡ tenant)
    × Allows (codes "query.sessions.search") tenant acts
    × IsGated tenant acts
IsGated tenant (saved r e ∷ acts) = IsGated tenant acts

-- what a step that stops leaves
abbrev pub Stopped : Text → Step → List Act → Type 0
Stopped tenant step acts = (is_empty step.id ≡ false) × IsGated tenant acts

-- what holds after an action: Q where it goes on, R where it stops
pub data Post {A : Type 0} (Q : A → List Act → Type 0) (R : Step → List Act → Type 0)
    : Outcome A → Type 0 where
  goes_on : {a : A} {w : World} → Q a w.acts → Post Q R (done a w)
  ends : {step : Step} {e : Error} {w : World} → R step w.acts → Post Q R (stopped step e w)

pub Post-continue :
    {A : Type 0} {B : Type 0} (Q : A → List Act → Type 0) (P : B → List Act → Type 0)
    (R : Step → List Act → Type 0) (x : Outcome A) (k : A → Doing B)
    → Post Q R x
    → ((a : A) (w : World) → Q a w.acts → Post P R (k a w))
    → Post P R (continue k x)
Post-continue Q P R (done a w) k (goes_on q) h = h a w q
Post-continue Q P R (stopped step e w) k (ends r) h = ends r

-- a check that keeps what holds
pub kept-Post :
    {A : Type 0} (I : List Act → Type 0) (R : Step → List Act → Type 0) (step : Step) (r : Result A)
    (w : World)
    → I w.acts
    → ((acts : List Act) → I acts → R step acts)
    → Post (λ _. I) R (check step r w)
kept-Post I R step (ok a) w i weaken = goes_on i
kept-Post I R step (err e) w i weaken = ends (weaken w.acts i)

-- as kept-Post, with a property of the value
pub check-Post :
    {A : Type 0} (Q : A → Type 0) (I : List Act → Type 0) (R : Step → List Act → Type 0)
    (step : Step) (r : Result A) (w : World)
    → Meets Q r
    → I w.acts
    → ((acts : List Act) → I acts → R step acts)
    → Post (λ a acts. Q a × I acts) R (check step r w)
check-Post Q I R step (ok a) w q i weaken = goes_on (q, i)
check-Post Q I R step (err e) w q i weaken = ends (weaken w.acts i)
