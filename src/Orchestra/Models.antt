-- ===== src/Orchestra/Models.antt =====
-- app/multi_agent/models.py, as far as the orchestrator uses it.
use ai_platform_mini.Prelude.{ℕ, String, Bool, true, false, Option, List, [], ◌∷◌, Text}

pub data AgentRole : Type 0 where
  research writer reviewer custom : AgentRole

pub data TaskStatus : Type 0 where
  pending running completed failed cancelled skipped : TaskStatus

pub data OrchestrationStatus : Type 0 where
  running completed failed cancelled timed_out budget_exceeded : OrchestrationStatus

pub data FailurePolicy : Type 0 where
  fail_fast skip retry_once : FailurePolicy

pub record Subtask : Type 0 where
  pub id : String
  pub description : Text
  pub agent_role : AgentRole
  pub depends_on : List String
  pub input_template : Text

pub record SubtaskResult : Type 0 where
  pub task_id : String
  pub status : TaskStatus
  pub output : Text
  pub error : Option Text
  pub token_usage : ℕ

pub record OrchestrationConfig : Type 0 where
  pub max_concurrency : ℕ
  pub failure_policy : FailurePolicy
  pub total_timeout : Option ℕ
  pub total_token_budget : Option ℕ

-- The message of a run that did not complete, by what it shows.
pub data Message : Type 0 where
  cancelled_externally : Message
  timeout_exceeded : ℕ → Message
  budget_exceeded : ℕ → Message
  task_failed : String → Option Text → Message
  deadlock : Message
  exception : Text → Message

abbrev pub is_fail_fast : FailurePolicy → Bool
is_fail_fast FailurePolicy.fail_fast = true
is_fail_fast FailurePolicy.skip = false
is_fail_fast FailurePolicy.retry_once = false

abbrev pub is_skip : FailurePolicy → Bool
is_skip FailurePolicy.skip = true
is_skip FailurePolicy.fail_fast = false
is_skip FailurePolicy.retry_once = false

abbrev pub is_empty {ℓ} : {A : Type ℓ} → List A → Bool
is_empty [] = true
is_empty (_ ∷ _) = false
