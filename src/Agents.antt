-- ===== src/Agents.antt =====
-- internal/agents/types.go and tools/tool.go: sessions, runs, steps and evidence.
-- A `string` type with named constants is a data type with those constants and `other`.
-- A score is a float64 that the program only sets to multiples of one half: it counts halves.
use semantic_intelligence_la.Base.Times.{Time, ℤ}
use semantic_intelligence_la.Base.Dict.{Dict}
use semantic_intelligence_la.Base.{Text, ℕ, Bool, Option, List}

pub data RunStatus : Type 0 where
  pending running awaiting_approval completed failed : RunStatus
  other : Text → RunStatus

pub data StepStatus : Type 0 where
  pending running blocked completed failed : StepStatus
  other : Text → StepStatus

pub record RunRequest : Type 0 where
  pub tenant_id : Text
  pub case_id : Text
  pub session_id : Text
  pub goal : Text
  pub inputs : Dict Text
  pub max_steps : ℤ

pub record Run : Type 0 where
  pub id : Text
  pub tenant_id : Text
  pub case_id : Text
  pub session_id : Text
  pub goal : Text
  pub status : RunStatus
  pub runtime_name : Text
  pub planner_name : Text
  pub started_at : Time
  pub updated_at : Time
  pub completed_at : Option Time

pub record EvidenceRef : Type 0 where
  pub kind : Text
  pub id : Text
  pub source : Text
  pub summary : Text
  pub uri : Text
  pub score : ℕ

pub record Step : Type 0 where
  pub id : Text
  pub kind : Text
  pub summary : Text
  pub tool_name : Text
  pub status : StepStatus
  pub evidence : List EvidenceRef
  pub started_at : Time
  pub completed_at : Option Time

-- tools.Definition
pub record ToolDefinition : Type 0 where
  pub name : Text
  pub description : Text
  pub requires_approval : Bool
