-- ===== src/Agent/Tools.antt =====
-- The execution of one tool call (runtime.py: `_execute_tool`, `_find_cached_tool_result`,
-- `_last_calculator_result`, `_truncate_tool_output`).
use ai_platform_mini.Prelude.{
  ℕ, ◌-◌, String, Bool, true, false, not, ◌&&◌, Option, none, some, List, [], ◌∷◌, ◌++◌, Text,
  codes, length, take, any, leb, ◌==◌, if◌then◌else◌, str_eq,
}
use ai_platform_mini.Agent.Models.{AgentStep, ToolCall, ToolResult, StopReason}
use ai_platform_mini.Agent.Checks.{Outcome, Wait, Awaited, is_empty, ended, stop, await_controlled}

abbrev pub marker : Text
marker = codes "...[tool output truncated]"

-- `_truncate_tool_output`
unfoldable pub truncate_tool_output : ℕ → Text → Text × Bool
truncate_tool_output max_chars content =
    if leb (length content) max_chars
    then (content, false)
    else if leb max_chars (length marker)
    then (take max_chars marker, true)
    else (take (max_chars - length marker) content ++ marker, true)

-- Two calls have the same `_tool_call_fingerprint`.
abbrev pub same_fingerprint : ToolCall → ToolCall → Bool
same_fingerprint a b = str_eq a.name b.name && str_eq a.arguments b.arguments

-- The loop over `zip(decision.tool_calls, tool_results)`
unfoldable pub cached_in_step : ToolCall → List ToolCall → List ToolResult → Option ToolResult
cached_in_step call [] results = none
cached_in_step call (c ∷ cs) [] = none
cached_in_step call (c ∷ cs) (r ∷ rs) =
    let rest = cached_in_step call cs rs in
    if r.succeeded && same_fingerprint c call then some r else rest

-- `_find_cached_tool_result`
unfoldable pub find_cached_tool_result : ToolCall → List AgentStep → Option ToolResult
unfolding cached_in_step
find_cached_tool_result call [] = none
find_cached_tool_result call (s ∷ ss) =
    let rest = find_cached_tool_result call ss in
    elim (cached_in_step call s.decision.tool_calls s.tool_results) [
      | none ↦ rest
      | some r ↦ some r
    ]

abbrev pub last {ℓ} : {A : Type ℓ} → List A → Option A
last [] = none
last (x ∷ xs) = elim (last xs) [ none ↦ some x | some y ↦ some y ]

-- The answer that a last step of calculator calls gives.
unfoldable pub calculator_result : AgentStep → Option Text
calculator_result s =
    if is_empty s.decision.tool_calls
    then none
    else if any (λ c. not (str_eq c.name "calculator")) s.decision.tool_calls
    then none
    else if not (length s.tool_results == length s.decision.tool_calls)
    then none
    else if any (λ r. not r.succeeded) s.tool_results
    then none
    else elim (last s.tool_results) [ none ↦ none | some r ↦ some r.content ]

-- `_last_calculator_result`
unfoldable pub last_calculator_result : List AgentStep → Option Text
unfolding calculator_result
last_calculator_result steps = elim (last steps) [ none ↦ none | some s ↦ calculator_result s ]

-- What `ToolExecutor.execute` returns.
pub record ToolExecution : Type 0 where
  pub output : Text
  pub succeeded : Bool
  pub error_code : Option String
  pub truncated : Bool

-- Where a tool call goes: to the injected executor, to the tool of that name, or to none.
pub data Route : Type 0 where
  executor : Wait ToolExecution → Route
  direct : Wait Text → Route
  missing : Route

-- How `_execute_tool` ends: with a result, or with what it raises.
pub data Executed : Type 0 where
  result : ToolResult → Executed
  stopped : StopReason → Executed
  cancelled : Bool → Executed
  quota_exceeded : Executed
  escaped : Text → Executed

abbrev pub from_execution : ToolCall → ToolExecution → ToolResult
from_execution call x = record {
  call_id = call.call_id;
  name = call.name;
  content = x.output;
  succeeded = x.succeeded;
  error = x.error_code;
  truncated = x.truncated;
  cached = false;
}

abbrev pub failure : ToolCall → Text → String → ToolResult
failure call content error = record {
  call_id = call.call_id;
  name = call.name;
  content = content;
  succeeded = false;
  error = some error;
  truncated = false;
  cached = false;
}

-- Through the executor every exception goes on.
unfoldable pub executed : ToolCall → Awaited ToolExecution → Executed
executed call (stop reason) = stopped reason
executed call (ended (Outcome.returned x)) = result (from_execution call x)
executed call (ended (Outcome.cancelled quota)) = cancelled quota
executed call (ended Outcome.quota_exceeded) = quota_exceeded
executed call (ended (Outcome.failed e)) = escaped e

-- A tool that is called directly fails with a result, whatever it raises but a cancellation.
unfoldable pub called : ℕ → ToolCall → Awaited Text → Executed
unfolding truncate_tool_output
called max_chars call (stop reason) = stopped reason
called max_chars call (ended (Outcome.returned content)) =
    let (safe, cut) = truncate_tool_output max_chars content in
    result (record {
      call_id = call.call_id;
      name = call.name;
      content = safe;
      succeeded = true;
      error = none;
      truncated = cut;
      cached = false;
    })
called max_chars call (ended (Outcome.cancelled quota)) = cancelled quota
called max_chars call (ended Outcome.quota_exceeded) = result (
    failure call (codes "Tool execution failed. [error_code=tool_execution_failed]")
      "tool_execution_failed")
called max_chars call (ended (Outcome.failed e)) = result (
    failure call (codes "Tool execution failed. [error_code=tool_execution_failed]")
      "tool_execution_failed")

-- `_execute_tool`
unfoldable pub execute_tool : ℕ → ToolCall → Route → Executed
unfolding await_controlled executed called
execute_tool max_chars call (executor w) = executed call (await_controlled w)
execute_tool max_chars call (direct w) = called max_chars call (await_controlled w)
execute_tool max_chars call missing =
    result (failure call (codes "Requested tool is unavailable.") "tool_not_found")
