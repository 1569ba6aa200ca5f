-- ===== src/Agent/Loop/Turn/ToolCalls.antt =====
-- The tool calls of one round.
use ai_platform_mini.Prelude.{
  ℕ, suc, true, Option, none, some, List, [], ◌∷◌, ◌++◌, Text, codes, String, if◌then◌else◌, str_eq,
}
use ai_platform_mini.Agent.Models.{EventKind, Role, ToolCall, ToolResult, AgentMessage}
use ai_platform_mini.Agent.Events.{Run, bare, append_event}
use ai_platform_mini.Agent.Checks.{check_stop}
use ai_platform_mini.Agent.Tools.{Executed, execute_tool, find_cached_tool_result}
use ai_platform_mini.Agent.Loop.Setting.{
  World, Options, effective_deadline, escaped, Flow, go, halt, ◌>>=◌, unless_stopped, stop_for,
  on_cancelled, quota_failed,
}

pub record Calls : Type 0 where
  pub run : Run
  pub results : List ToolResult
  pub reused : Option ToolResult

-- The message and the event of a result; the event's message is the error's code.
abbrev pub tool_message : ToolResult → AgentMessage
tool_message x = record {
  role = Role.tool;
  content = x.content;
  tool_call_id = some x.call_id;
  tool_name = some x.name;
}

abbrev pub error_text : Option String → Option Text
error_text none = none
error_text (some e) = some (codes e)

module _ (w : World) (o : Options) where
  unfoldable pub record_result : ℕ → ToolCall → Calls → ToolResult → Calls
  record_result step call c x =
      let told = record c.run {
        state = record c.run.state { messages = c.run.state.messages ++ tool_message x ∷ [] };
      } in
      record c {
        run =
            append_event w.clock told
              (record (bare
                (if x.succeeded then EventKind.tool_completed else EventKind.tool_failed)) {
                  step_index = some step;
                  tool_call = some call;
                  tool_result = some x;
                  message = error_text x.error;
                });
        results = c.results ++ x ∷ [];
      }

  -- What an execution gives, or the end of the run. An exception of the executor escapes.
  unfoldable pub result_or_end : Run → Executed → Flow ToolResult
  result_or_end r (Executed.result x) = go x
  result_or_end r (Executed.stopped reason) = halt (stop_for w.clock r reason)
  result_or_end r (Executed.cancelled quota) = halt (on_cancelled w.clock r quota)
  result_or_end r Executed.quota_exceeded = halt (quota_failed w.clock r)
  result_or_end r (Executed.escaped e) = halt (escaped e)

  abbrev pub as_cached : ToolCall → ToolResult → ToolResult
  as_cached call x = record x { call_id = call.call_id; cached = true }

  abbrev pub use_cached :
      ToolCall → Calls → Option ToolResult → Flow (Calls × ToolResult) → Flow (Calls × ToolResult)
  use_cached call c (some old) fresh =
      let x = as_cached call old in
      go (record c { reused = if str_eq call.name "calculator" then some x else c.reused }, x)
  use_cached call c none fresh = fresh

  -- The result of one call: the cached one of an earlier step, or that of an execution.
  unfoldable pub call_result : ℕ → ℕ → ToolCall → Calls → Flow (Calls × ToolResult)
  unfolding result_or_end
  call_result step position call c =
      use_cached call c (find_cached_tool_result call c.run.state.steps) (
        result_or_end c.run
          (execute_tool o.tool_output_max_chars call (w.route c.run.state position call))
        >>= λ x. go (c, x))

  abbrev pub tool_started : ℕ → ToolCall → Calls → Calls
  tool_started step call c = record c {
    run =
        append_event w.clock c.run
          (record (bare EventKind.tool_started) { step_index = some step; tool_call = some call });
  }

  unfoldable pub one_call : ℕ → ℕ → ToolCall → Calls → Flow Calls
  unfolding call_result record_result
  one_call step position call c =
      unless_stopped w.clock c.run
        (check_stop (effective_deadline w o) (w.cancel_set step (suc position))
          (w.loop_time step (suc position)))
        (call_result step position call (tool_started step call c) >>= λ (c', x).
          go (record_result step call c' x))

  -- `for tool_call in decision.tool_calls`
  unfoldable pub run_calls : ℕ → ℕ → List ToolCall → Calls → Flow Calls
  unfolding one_call
  run_calls step position [] c = go c
  run_calls step position (call ∷ calls) c =
      one_call step position call c >>= run_calls step (suc position) calls
