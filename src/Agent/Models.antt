-- ===== src/Agent/Models.antt =====
-- app/agents/models.py. The arguments of a tool call are the canonical JSON text that
-- `json.dumps(..., sort_keys=True)` makes of them; a token count may be negative until it is checked.
use ai_platform_mini.Prelude.{
  ℕ, suc, ◌+◌, ◌-◌, String, Bool, Option, List, Text, ltb, if◌then◌else◌,
}

pub data ℤ : Type 0 where
  pos : ℕ → ℤ
  negsuc : ℕ → ℤ

-- A count and a reported usage.
abbrev pub add_int : ℕ → ℤ → ℤ
add_int u (pos n) = pos (u + n)
add_int u (negsuc n) = if ltb n u then pos (u - suc n) else negsuc (n - u)

pub data RunStatus : Type 0 where
  completed stopped failed cancelled timed_out : RunStatus

pub data StopReason : Type 0 where
  direct_answer max_steps deadline_exceeded external_cancelled model_error invalid_decision
        token_budget_exceeded :
      StopReason

pub data EventKind : Type 0 where
  run_started step_started step_completed model_decision tool_started tool_completed tool_failed
        answer_delta answer run_stopped :
      EventKind

pub data Role : Type 0 where
  user assistant tool : Role

pub record AgentMessage : Type 0 where
  pub role : Role
  pub content : Text
  pub tool_call_id : Option String
  pub tool_name : Option String

pub record ToolCall : Type 0 where
  pub call_id : String
  pub name : String
  pub arguments : String

pub record AgentDecision : Type 0 where
  pub answer : Option Text
  pub tool_calls : List ToolCall
  pub token_usage : Option ℤ
  pub usage_complete : Bool

pub record ToolResult : Type 0 where
  pub call_id : String
  pub name : String
  pub content : Text
  pub succeeded : Bool
  pub error : Option String
  pub truncated : Bool
  pub cached : Bool

pub record AgentStep : Type 0 where
  pub index : ℕ
  pub decision : AgentDecision
  pub tool_results : List ToolResult

pub record AgentState : Type 0 where
  pub run_id : String
  pub user_input : Text
  pub messages : List AgentMessage
  pub steps : List AgentStep
  pub token_usage : ℕ
  pub request_id : Option String

pub record AgentEvent : Type 0 where
  pub kind : EventKind
  pub run_id : String
  pub sequence : ℕ
  pub occurred_at : ℕ
  pub step_index : Option ℕ
  pub message : Option Text
  pub decision : Option AgentDecision
  pub tool_call : Option ToolCall
  pub tool_result : Option ToolResult
  pub status : Option RunStatus
  pub stop_reason : Option StopReason
  pub cumulative_token_usage : Option ℤ

pub record AgentRunResult : Type 0 where
  pub run_id : String
  pub status : RunStatus
  pub stop_reason : StopReason
  pub answer : Option Text
  pub state : AgentState
  pub events : List AgentEvent
  pub token_usage : ℕ
  pub error : Option Text
