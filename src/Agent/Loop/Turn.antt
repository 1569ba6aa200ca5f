-- ===== src/Agent/Loop/Turn.antt =====
-- One round of `AgentRuntime.run`.
pub mod Answer
pub mod ToolCalls
use ai_platform_mini.Prelude.{
  ℕ, suc, ◌+◌, Bool, true, false, not, ◌&&◌, Option, none, some, List, [], ◌∷◌, ◌++◌, length, all,
  Text, leb, ltb, if◌then◌else◌, str_eq, is_some,
}
use ai_platform_mini.Agent.Models.{
  RunStatus, StopReason, EventKind, AgentState, AgentStep, AgentDecision, ToolResult, ℤ, add_int,
}
use ai_platform_mini.Agent.Events.{Run, bare, append_event, finish}
use ai_platform_mini.Agent.Checks.{check_stop, validate_decision, await_controlled, is_empty}
use ai_platform_mini.Agent.Loop.Setting.{
  World, Options, effective_deadline, finished, Flow, go, halt, ◌>>=◌, stop_run, unless_stopped,
  value_or_end,
}
use ai_platform_mini.Agent.Loop.Turn.Answer.{answer_turn, add_step, close_step}
use ai_platform_mini.Agent.Loop.Turn.ToolCalls.{Calls, run_calls}

-- The usage of a decision that has been validated: a negative count was refused before.
abbrev pub add_usage : ℕ → Option ℤ → ℕ
add_usage u none = u
add_usage u (some (ℤ.pos n)) = u + n
add_usage u (some (ℤ.negsuc n)) = u

-- The `cumulative_token_usage` of the MODEL_DECISION event
abbrev pub cumulative : ℕ → Option ℤ → ℤ
cumulative u none = ℤ.pos u
cumulative u (some z) = add_int u z

abbrev pub over_budget : Option ℕ → ℕ → Bool
over_budget none u = false
over_budget (some b) u = ltb b u

abbrev pub spent_budget : Option ℕ → ℕ → Bool
spent_budget none u = false
spent_budget (some b) u = ltb 0 b && leb b u

module _ (w : World) (o : Options) where
  -- From the head of the round to the model's reply.
  unfoldable pub head : ℕ → Run → Flow Run
  head step r =
      unless_stopped w.clock r
        (check_stop (effective_deadline w o) (w.cancel_set step 0) (w.loop_time step 0))
        (if spent_budget o.token_budget r.state.token_usage
          then halt (stop_run w.clock r RunStatus.stopped StopReason.token_budget_exceeded none)
          else go (
              append_event w.clock r
                (record (bare EventKind.step_started) { step_index = some step })))

  -- The reply in the log.
  unfoldable pub log_decision : ℕ → AgentDecision → Run → Run
  log_decision step d r = append_event w.clock r (record (bare EventKind.model_decision) {
    step_index = some step;
    decision = some d;
    cumulative_token_usage = some (cumulative r.state.token_usage d.token_usage);
  })

  -- `if invalid_reason is not None: return self._finish(...)`
  abbrev pub unless_invalid : Run → Option Text → Flow Run → Flow Run
  unless_invalid r (some fault) m =
      halt (stop_run w.clock r RunStatus.failed StopReason.invalid_decision (some fault))
  unless_invalid r none m = m

  abbrev pub use_tokens : AgentDecision → Run → Run
  use_tokens d r = record r {
    state = record r.state { token_usage = add_usage r.state.token_usage d.token_usage };
  }

  unfoldable pub within_budget : ℕ → AgentDecision → Run → Flow Run
  within_budget step d r =
      if over_budget o.token_budget r.state.token_usage
      then halt (
          stop_run w.clock (close_step w step d [] r) RunStatus.stopped
            StopReason.token_budget_exceeded none)
      else go r

  -- The validation of the reply, and its usage.
  unfoldable pub accept : ℕ → AgentDecision → Run → Flow Run
  unfolding log_decision within_budget
  accept step d r =
      let logged = log_decision step d r in
      unless_invalid logged (validate_decision d) (within_budget step d (use_tokens d logged))

  -- A repeated calculation answers the run, if all calls of the round are calculations.
  abbrev pub unless_reused : Run → Bool → Option ToolResult → Flow Run
  unless_reused r all_calculate none = go r
  unless_reused r all_calculate (some result) =
      if all_calculate && result.succeeded
      then halt (
          finished (
            finish w.clock r RunStatus.completed StopReason.direct_answer (some result.content)
              none))
      else go r

  -- The end of a round of tool calls.
  unfoldable pub close_calls : ℕ → AgentDecision → Calls → Flow Run
  close_calls step d c =
      let r = close_step w step d c.results c.run in
      unless_reused r (all (λ call. str_eq call.name "calculator") d.tool_calls) c.reused

  -- `token_budget is not None and decision.tool_calls and not decision.usage_complete`
  abbrev pub uncounted : AgentDecision → Bool
  uncounted d = is_some o.token_budget && not (is_empty d.tool_calls) && not d.usage_complete

  unfoldable pub tool_turn : ℕ → AgentDecision → Run → Flow Run
  unfolding close_calls
  tool_turn step d r =
      if uncounted d
      then halt (
          stop_run w.clock (add_step step d [] r) RunStatus.stopped StopReason.token_budget_exceeded
            none)
      else run_calls w o step 0 d.tool_calls (record { run = r; results = []; reused = none })
        >>= close_calls step d

  abbrev pub answer_or : (Text → Flow Run) → Flow Run → Option Text → Flow Run
  answer_or f m (some answer) = f answer
  answer_or f m none = m

  unfoldable pub act : ℕ → AgentDecision → Run → Flow Run
  unfolding tool_turn
  act step d r =
      answer_or (λ answer. halt (answer_turn w o step d answer r)) (tool_turn step d r) d.answer

  unfoldable pub turn : Run → Flow Run
  unfolding head accept act
  turn r =
      let step = length r.state.steps + 1 in
      head step r >>= λ r1. value_or_end w.clock r1 (await_controlled (w.decide r1.state)) >>= λ d.
      accept step d r1 >>= act step d
