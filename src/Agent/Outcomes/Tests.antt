-- ===== src/Agent/Outcomes/Tests.antt =====
-- A run of two rounds: the model calls the tool "echo" and then answers.
use ai_platform_mini.Prelude.{
  is_blank, is_space, ℕ, ◌≡◌, refl, true, false, Option, none, some, List, [], ◌∷◌, codes, length,
}
use ai_platform_mini.Prelude.Results.{ok}
use ai_platform_mini.Agent.Models.{
  EventKind, AgentStep, AgentDecision, ToolCall, ToolResult, ℤ, RunStatus,
}
use ai_platform_mini.Agent.Events.{
  Run, bare, append_event, finish, complete_open_steps, complete_steps, log_answer, open_steps,
}
use ai_platform_mini.Agent.Checks.{
  Outcome, Wait, await_controlled, check_stop, resolve_deadline, validate_decision,
}
use ai_platform_mini.Agent.Tools.{
  Route, execute_tool, called, truncate_tool_output, find_cached_tool_result, cached_in_step,
}
use ai_platform_mini.Agent.Loop.Setting.{World, Options, Ended, finished, value_or_end}
use ai_platform_mini.Agent.Loop.Turn.{
  head, log_decision, within_budget, accept, close_calls, tool_turn, act, turn,
}
use ai_platform_mini.Agent.Loop.Turn.Answer.{add_step, close_step, answer_turn, conclude}
use ai_platform_mini.Agent.Loop.Turn.ToolCalls.{
  record_result, result_or_end, call_result, one_call, run_calls,
}
use ai_platform_mini.Agent.Loop.{run, rounds, started}
use ai_platform_mini.Agent.Outcomes.{EndsSound}
use ai_platform_mini.Agent.Outcomes.Rounds.{run_sound}

abbrev echo : ToolCall
echo = record { call_id = "c1"; name = "echo"; arguments = "{}" }

abbrev ask : AgentDecision
ask = record {
  answer = none;
  tool_calls = echo ∷ [];
  token_usage = some (ℤ.pos 5);
  usage_complete = true;
}

abbrev reply : AgentDecision
reply = record {
  answer = some (codes "hi");
  tool_calls = [];
  token_usage = some (ℤ.pos 4);
  usage_complete = true;
}

-- The model asks for the tool until a step has been made.
abbrev decide_on : List AgentStep → Wait AgentDecision
decide_on [] = record { cancel_done = false; operation = some (Outcome.returned ask) }
decide_on (_ ∷ _) = record { cancel_done = false; operation = some (Outcome.returned reply) }

abbrev world : World
world = record {
  clock = λ n. n;
  start_time = 0;
  loop_time = λ s p. s;
  cancel_set = λ s p. false;
  decide = λ s. decide_on s.steps;
  stream = λ s. none;
  route = λ s p c.
      Route.direct
        (record { cancel_done = false; operation = some (Outcome.returned (codes "e")) });
}

abbrev options : Options
options = record {
  max_steps = 3;
  timeout = some 8;
  deadline = some 9;
  token_budget = some 20;
  stream_answer = false;
  tool_output_max_chars = 40;
}

-- How the run ended: its status, its number of steps and its token usage.
abbrev summary : Ended → Option (RunStatus × ℕ × ℕ)
summary (finished x) = some (x.status, length x.state.steps, x.token_usage)
summary (Ended.escaped e) = none

abbrev ending : Ended
ending = rounds world options 3 (started world options "r" (codes "go") none)

answers_in_two_steps : summary ending ≡ some (RunStatus.completed, 2, 9)
unfolding rounds turn head accept act tool_turn close_calls log_decision within_budget run_calls
    one_call call_result record_result result_or_end execute_tool called await_controlled check_stop
    resolve_deadline validate_decision is_blank is_space append_event close_step add_step
    answer_turn conclude value_or_end find_cached_tool_result truncate_tool_output finish
    complete_open_steps complete_steps log_answer open_steps
answers_in_two_steps = refl

run_ends : run world options "r" (codes "go") none ≡ ok ending
unfolding run is_blank is_space
run_ends = refl

run_sound_example : EndsSound options 3 ending
run_sound_example = run_sound world options "r" (codes "go") none ending run_ends

abbrev echoed : ToolResult
echoed = record {
  call_id = "c1";
  name = "echo";
  content = codes "e";
  succeeded = true;
  error = none;
  truncated = false;
  cached = false;
}

abbrev one_step : List AgentStep
one_step = record { index = 1; decision = ask; tool_results = echoed ∷ [] } ∷ []

abbrev again : ToolCall
again = record { call_id = "c2"; name = "echo"; arguments = "{}" }

finds_again : find_cached_tool_result again one_step ≡ some echoed
unfolding find_cached_tool_result cached_in_step
finds_again = refl

abbrev open_run : Run
open_run =
    append_event world.clock (started world options "r" (codes "go") none)
      (record (bare EventKind.step_started) { step_index = some 1 })
