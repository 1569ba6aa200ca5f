-- ===== src/Agent/Loop.antt =====
-- `AgentRuntime.run`: its parameters, what the world answers, and the loop. The ValueErrors for a
-- negative timeout and a negative token budget, which are natural numbers here, are left out.
pub mod Setting
pub mod Turn
use ai_platform_mini.Prelude.{
  is_blank, ℕ, zero, suc, Bool, true, false, Option, none, some, List, [], ◌∷◌, Text, leb,
  if◌then◌else◌, String,
}
use ai_platform_mini.Prelude.Results.{Result, ok, raised, value_error}
use ai_platform_mini.Agent.Models.{
  RunStatus, StopReason, EventKind, Role, AgentState, AgentRunResult,
}
use ai_platform_mini.Agent.Events.{Run, bare, append_event, finish}
use ai_platform_mini.Agent.Tools.{last_calculator_result}
use ai_platform_mini.Agent.Loop.Setting.{World, Options, Ended, finished, Flow, go, halt, ◌>>=◌}
use ai_platform_mini.Agent.Loop.Turn.{turn}

module _ (w : World) (o : Options) where
  abbrev pub out_of_steps : Run → Option Text → Ended
  out_of_steps r (some answer) =
      finished (finish w.clock r RunStatus.completed StopReason.direct_answer (some answer) none)
  out_of_steps r none = finished (finish w.clock r RunStatus.stopped StopReason.max_steps none none)

  -- What follows the last round.
  unfoldable pub after_rounds : Run → Ended
  after_rounds r = out_of_steps r (last_calculator_result r.state.steps)

  abbrev pub resume : (Run → Ended) → Flow Run → Ended
  resume f (go r) = f r
  resume f (halt e) = e

  -- `for _ in range(max_steps)`
  unfoldable pub rounds : ℕ → Run → Ended
  unfolding after_rounds
  rounds zero r = after_rounds r
  rounds (suc n) r = resume (rounds n) (turn w o r)

  abbrev pub started : String → Text → Option String → Run
  started run_id user_input request_id =
      append_event w.clock
        (record {
          state = record {
            run_id = run_id;
            user_input = user_input;
            messages =
                record {
                  role = Role.user;
                  content = user_input;
                  tool_call_id = none;
                  tool_name = none;
                }
                ∷ [];
            steps = [];
            token_usage = 0;
            request_id = request_id;
          };
          events = [];
        })
        (record (bare EventKind.run_started) { message = some user_input })

  unfoldable pub run : String → Text → Option String → Result Ended
  unfolding rounds
  run run_id user_input request_id =
      if is_blank user_input
      then raised value_error
      else if leb o.max_steps 0
      then raised value_error
      else ok (rounds o.max_steps (started run_id user_input request_id))
