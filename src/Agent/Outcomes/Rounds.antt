-- ===== src/Agent/Outcomes/Rounds.antt =====
-- The invariant through a whole round, and through all rounds.
use ai_platform_mini.Prelude.{
  is_blank, ◌&&◌, all, str_eq, leb, subst, ℕ, zero, suc, ◌+◌, ◌≤◌, ◌≡◌, refl, false, Option, none,
  some, [], ◌∷◌, length, length-append, Text, arith, if_both, Bool-cases, inl, inr, String,
}
use ai_platform_mini.Prelude.Results.{ok}
use ai_platform_mini.Agent.Models.{RunStatus, StopReason, AgentDecision, ToolResult}
use ai_platform_mini.Agent.Events.{Run, append_event, finish}
use ai_platform_mini.Agent.Tools.{last_calculator_result}
use ai_platform_mini.Agent.Loop.Setting.{World, Options, Ended, finished, Flow, go, halt, stop_run}
use ai_platform_mini.Agent.Loop.Turn.{
  over_budget, unless_reused, answer_or, close_calls, tool_turn, act, turn, uncounted,
}
use ai_platform_mini.Agent.Loop.Turn.Answer.{add_step, close_step, answer_turn}
use ai_platform_mini.Agent.Loop.Turn.ToolCalls.{Calls}
use ai_platform_mini.Agent.Loop.{out_of_steps, after_rounds, rounds, resume, started, run}
use ai_platform_mini.Agent.Outcomes.{
  IsRunning, EndsSound, Ensures, Ensures-bind, await_controlled-Interrupts, running_finish,
  value_or_end-Ensures,
}
use ai_platform_mini.Agent.Outcomes.Pieces.{few, head-Ensures, accept-Ensures, close_step-IsRunning}
use ai_platform_mini.Agent.Outcomes.Answers.{answer_turn_sound}
use ai_platform_mini.Agent.Outcomes.ToolRounds.{Underway, run_calls-Ensures}

module _ (w : World) (o : Options) (bound k : ℕ) (room : suc k ≤ bound) where
  close_calls-Ensures :
      (step : ℕ) (d : AgentDecision) (c : Calls)
      → Underway w o bound k room c
      → Ensures o bound (IsRunning o (suc k)) (close_calls w o step d c)
  unfolding close_calls
  close_calls-Ensures step d c i = by_reuse c.reused
    where
      closed : IsRunning o (suc k) (close_step w step d c.results c.run)
      closed = close_step-IsRunning w o bound k room step d c.results c.run i

      by_reuse :
          (reused : Option ToolResult)
          → Ensures o bound (IsRunning o (suc k)) (
              unless_reused w o
                (close_step w step d c.results c.run)
                (all (λ call. str_eq call.name "calculator") d.tool_calls)
                reused)
      by_reuse none = closed
      by_reuse (some x) =
          let r = close_step w step d c.results c.run in
          if_both (Ensures o bound (IsRunning o (suc k)))
            (all (λ call. str_eq call.name "calculator") d.tool_calls && x.succeeded)
            (halt (
              finished (
                finish w.clock r RunStatus.completed StopReason.direct_answer (some x.content)
                  none)))
            (go r)
            (running_finish w.clock o bound (suc k) room r closed RunStatus.completed
              StopReason.direct_answer (some x.content) none refl)
            closed

  tool_turn-Ensures :
      (step : ℕ) (d : AgentDecision) (r : Run)
      → IsRunning o k r
      → Ensures o bound (IsRunning o (suc k)) (tool_turn w o step d r)
  unfolding tool_turn stop_run add_step
  tool_turn-Ensures step d r i =
      if_both (Ensures o bound (IsRunning o (suc k))) (uncounted w o d) _ _
        (running_finish w.clock o bound (suc k) room (add_step step d [] r)
          (record {
            log = i.log;
            steps = omega (
              arith,
              i.steps,
              length-append r.state.steps
                  (record { index = step; decision = d; tool_results = [] } ∷ []),
            );
            within = i.within;
          })
          _ _ none none refl)
        (Ensures-bind o bound (Underway w o bound k room) (IsRunning o (suc k)) _ _
          (run_calls-Ensures w o bound k room step 0 d.tool_calls _ i)
          (λ c h. close_calls-Ensures step d c h))

  act-Ensures :
      (step : ℕ) (d : AgentDecision) (r : Run)
      → IsRunning o k r
      → Ensures o bound (IsRunning o (suc k)) (act w o step d r)
  unfolding act
  act-Ensures step d r i = by_answer d.answer
    where
      by_answer :
          (a : Option Text)
          → Ensures o bound (IsRunning o (suc k)) (
              answer_or w o
                (λ answer. halt (answer_turn w o step d answer r))
                (tool_turn w o step d r)
                a)
      by_answer (some answer) = answer_turn_sound w o bound k room step d answer r i
      by_answer none = tool_turn-Ensures step d r i

  turn-Ensures : (r : Run) → IsRunning o k r → Ensures o bound (IsRunning o (suc k)) (turn w o r)
  unfolding turn
  turn-Ensures r i =
      let step = length r.state.steps + 1 in
      Ensures-bind o bound (IsRunning o k) (IsRunning o (suc k)) _ _
        (head-Ensures w o bound k room step r i)
        (λ r1 i1.
          Ensures-bind o bound (λ d. Unit) (IsRunning o (suc k)) _ _
            (value_or_end-Ensures w.clock o bound k (few w o bound k room) r1 i1 _
              (await_controlled-Interrupts (w.decide r1.state)))
            (λ d _.
              Ensures-bind o bound (IsRunning o k) (IsRunning o (suc k)) _ _
                (accept-Ensures w o bound k room step d r1 i1) (λ r2 i2. act-Ensures step d r2 i2)))

no_budget_is_over : (b : Option ℕ) → over_budget b 0 ≡ false
no_budget_is_over b = ground arith

ok-injective : {a b : Ended} → ok a ≡ ok b → a ≡ b
ok-injective h = cc

module _ (w : World) (o : Options) (bound : ℕ) where
  after_rounds_sound : (r : Run) → IsRunning o bound r → EndsSound o bound (after_rounds w o r)
  unfolding after_rounds
  after_rounds_sound r i = by_calculation (last_calculator_result r.state.steps)
    where
      by_calculation : (a : Option Text) → EndsSound o bound (out_of_steps w o r a)
      by_calculation (some answer) =
          running_finish w.clock o bound bound (omega arith) r i _ _ (some answer) none refl
      by_calculation none =
          running_finish w.clock o bound bound (omega arith) r i _ _ none none refl

  rounds_sound :
      (n k : ℕ) (r : Run) → k + n ≡ bound → IsRunning o k r → EndsSound o bound (rounds w o n r)
  unfolding rounds
  rounds_sound zero k r e i =
      after_rounds_sound r
        (record { log = i.log; steps = omega (arith, i.steps); within = i.within })
  rounds_sound (suc n) k r e i =
      by_turn (λ r' h. rounds_sound n (suc k) r' (omega arith) h) (turn w o r)
        (turn-Ensures w o bound k (omega arith) r i)
    where
      by_turn :
          ((r' : Run) → IsRunning o (suc k) r' → EndsSound o bound (rounds w o n r'))
          → (m : Flow Run) → Ensures o bound (IsRunning o (suc k)) m
          → EndsSound o bound (resume w o (rounds w o n) m)
      by_turn ih (go r') h = ih r' h
      by_turn ih (halt e) h = h

  started-IsRunning :
      (run_id : String) (input : Text) (id : Option String)
      → over_budget o.token_budget 0 ≡ false
      → IsRunning o 0 (started w o run_id input id)
  unfolding append_event
  started-IsRunning run_id input id b = record {
    log = record {
      numbered = (refl, tt);
      timed = (omega arith, tt);
      opened = refl;
      running = refl;
    };
    steps = refl;
    within = b;
  }

-- Every run that begins ends with a sound report, whatever the model, the tools, the stream, the
-- clocks and the caller do, unless an exception of the tool executor escapes from it. A report is
-- sound if: its events are numbered from 1 without gaps and their times never go back; the first
-- event is RUN_STARTED; RUN_STOPPED occurs once, as the last event, and carries the status, the
-- reason, the error and the token usage of the result; status, reason, answer and error belong
-- together, so that an answer is there exactly if the run completed; there are no more steps than
-- `max_steps`; and a usage above the token budget stops the run for that reason.
pub run_sound :
    (w : World) (o : Options) (run_id : String) (input : Text) (request_id : Option String)
    (e : Ended)
    → run w o run_id input request_id ≡ ok e
    → EndsSound o o.max_steps e
unfolding run
run_sound w o run_id input request_id e h = elim (Bool-cases (is_blank input)) [
  | inl blank ↦ ground arith
  | inr text ↦ elim (Bool-cases (leb o.max_steps 0)) [
    | inl no_steps ↦ ground arith
    | inr steps ↦
        let p =
          rounds_sound w o o.max_steps o.max_steps 0 (started w o run_id input request_id)
            (omega arith)
            (started-IsRunning w o o.max_steps run_id input request_id
              (no_budget_is_over o.token_budget)) in
        subst (EndsSound o o.max_steps) (ok-injective (ground arith)) p
  ]
]
