-- ===== src/Agent/Outcomes/ToolRounds.antt =====
-- The invariant through the tool calls of a round.
use ai_platform_mini.Prelude.{
  ℕ, suc, ◌≤◌, ◌≡◌, refl, Bool, true, false, Option, none, some, List, [], ◌∷◌, Text, if◌then◌else◌,
}
use ai_platform_mini.Agent.Models.{EventKind, ToolCall, ToolResult}
use ai_platform_mini.Agent.Events.{Run}
use ai_platform_mini.Agent.Checks.{Outcome, ended, stop, Awaited, await_controlled}
use ai_platform_mini.Agent.Tools.{
  ToolExecution, Executed, Route, execute_tool, executed, called, find_cached_tool_result,
}
use ai_platform_mini.Agent.Log.{is_stopped}
use ai_platform_mini.Agent.Loop.Setting.{World, Options, effective_deadline, go, ◌>>=◌}
use ai_platform_mini.Agent.Loop.Turn.ToolCalls.{
  use_cached, Calls, record_result, result_or_end, call_result, tool_started, one_call, run_calls,
}
use ai_platform_mini.Agent.Outcomes.{
  IsRunning, Ensures, Ensures-bind, Interrupts, interrupts, await_controlled-Interrupts,
  append_event-IsRunning, stop_for_sound, quota_failed_sound, on_cancelled_sound,
}
use ai_platform_mini.Agent.Outcomes.Pieces.{few, unless_stopped-Ensures}

module _ (w : World) (o : Options) (bound k : ℕ) (room : suc k ≤ bound) where
  -- An executor's or a tool's end is a result, or one of the ends that a run reports.
  abbrev Sane : Executed → Type 0
  Sane (Executed.stopped reason) = interrupts reason ≡ true
  Sane _ = Unit

  execute_tool-Sane :
      (max : ℕ) (call : ToolCall) (route : Route) → Sane (execute_tool max call route)
  unfolding execute_tool executed called
  execute_tool-Sane max call (Route.executor x) =
      from_executor (await_controlled x) (await_controlled-Interrupts x)
    where
      from_executor : (a : Awaited ToolExecution) → Interrupts a → Sane (executed call a)
      from_executor (stop reason) h = h
      from_executor (ended (Outcome.returned v)) h = tt
      from_executor (ended (Outcome.cancelled quota)) h = tt
      from_executor (ended Outcome.quota_exceeded) h = tt
      from_executor (ended (Outcome.failed e)) h = tt
  execute_tool-Sane max call (Route.direct x) =
      from_tool (await_controlled x) (await_controlled-Interrupts x)
    where
      from_tool : (a : Awaited Text) → Interrupts a → Sane (called max call a)
      from_tool (stop reason) h = h
      from_tool (ended (Outcome.returned v)) h = tt
      from_tool (ended (Outcome.cancelled quota)) h = tt
      from_tool (ended Outcome.quota_exceeded) h = tt
      from_tool (ended (Outcome.failed e)) h = tt
  execute_tool-Sane max call Route.missing = tt

  abbrev pub Underway : Calls → Type 0
  Underway c = IsRunning o k c.run

  abbrev UnderwayWith : Calls × ToolResult → Type 0
  UnderwayWith x = Underway x.0

  result_or_end-Ensures :
      (r : Run) (x : Executed)
      → IsRunning o k r
      → Sane x
      → Ensures o bound (λ v. Unit) (result_or_end w o r x)
  unfolding result_or_end
  result_or_end-Ensures r (Executed.result x) i s = tt
  result_or_end-Ensures r (Executed.stopped reason) i s =
      stop_for_sound w.clock o bound k (few w o bound k room) r i reason s
  result_or_end-Ensures r (Executed.cancelled quota) i s =
      on_cancelled_sound w.clock o bound k (few w o bound k room) r i quota
  result_or_end-Ensures r Executed.quota_exceeded i s =
      quota_failed_sound w.clock o bound k (few w o bound k room) r i
  result_or_end-Ensures r (Executed.escaped e) i s = tt

  outcome_kind :
      (b : Bool)
      → is_stopped (if b then EventKind.tool_completed else EventKind.tool_failed) ≡ false
  outcome_kind true = refl
  outcome_kind false = refl

  record_result-Underway :
      (step : ℕ) (call : ToolCall) (c : Calls) (x : ToolResult)
      → Underway c
      → Underway (record_result w o step call c x)
  unfolding record_result
  record_result-Underway step call c x i =
      append_event-IsRunning w.clock o bound k _ _ (outcome_kind x.succeeded)
        (record { log = i.log; steps = i.steps; within = i.within })

  call_result-Ensures :
      (step position : ℕ) (call : ToolCall) (c : Calls)
      → Underway c
      → Ensures o bound UnderwayWith (call_result w o step position call c)
  unfolding call_result
  call_result-Ensures step position call c i =
      by_cache (find_cached_tool_result call c.run.state.steps)
    where
      fresh : Ensures o bound UnderwayWith (
          result_or_end w o c.run
            (execute_tool o.tool_output_max_chars call (w.route c.run.state position call))
          >>= λ x. go (c, x))
      fresh =
          Ensures-bind o bound (λ v. Unit) UnderwayWith _ _
            (result_or_end-Ensures c.run _ i
              (execute_tool-Sane o.tool_output_max_chars call (w.route c.run.state position call)))
            (λ v _. i)

      by_cache :
          (old : Option ToolResult)
          → Ensures o bound UnderwayWith (
              use_cached w o call c old (
                result_or_end w o c.run
                  (execute_tool o.tool_output_max_chars call (w.route c.run.state position call))
                >>= λ x. go (c, x)))
      by_cache (some x) = i
      by_cache none = fresh

  one_call-Ensures :
      (step position : ℕ) (call : ToolCall) (c : Calls)
      → Underway c
      → Ensures o bound Underway (one_call w o step position call c)
  unfolding one_call
  one_call-Ensures step position call c i =
      unless_stopped-Ensures w o bound k room Underway c.run (effective_deadline w o)
        (w.cancel_set step (suc position)) (w.loop_time step (suc position)) _ i
        (Ensures-bind o bound UnderwayWith Underway _ _
          (call_result-Ensures step position call (tool_started w o step call c)
            (append_event-IsRunning w.clock o bound k c.run _ refl i))
          (λ x h. record_result-Underway step call x.0 x.1 h))

  pub run_calls-Ensures :
      (step position : ℕ) (calls : List ToolCall) (c : Calls)
      → Underway c
      → Ensures o bound Underway (run_calls w o step position calls c)
  unfolding run_calls
  run_calls-Ensures step position [] c i = i
  run_calls-Ensures step position (call ∷ calls) c i =
      Ensures-bind o bound Underway Underway _ _ (one_call-Ensures step position call c i)
        (λ c' h. run_calls-Ensures step (suc position) calls c' h)
