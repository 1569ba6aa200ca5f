-- ===== src/Agent/Outcomes/Pieces.antt =====
-- The invariant through the head of a round, the model's reply and a streamed answer.
use ai_platform_mini.Prelude.{
  ℕ, suc, ◌≤◌, ◌≡◌, refl, Bool, true, Option, none, some, List, [], ◌∷◌, length, length-append,
  Text, arith, Bool-cases, inl, inr,
}
use ai_platform_mini.Agent.Models.{StopReason, AgentDecision, ToolResult}
use ai_platform_mini.Agent.Events.{Run, append_event}
use ai_platform_mini.Agent.Checks.{Wait, is_empty, check_stop, await_controlled, validate_decision}
use ai_platform_mini.Agent.Log.{Log, append_event-Log}
use ai_platform_mini.Agent.Loop.Setting.{
  unless_stopped, World, Options, effective_deadline, Chunk, chunk, invalid, Flow, stop_run,
}
use ai_platform_mini.Agent.Loop.Turn.{
  over_budget, spent_budget, head, log_decision, unless_invalid, use_tokens, within_budget, accept,
}
use ai_platform_mini.Agent.Loop.Turn.Answer.{add_step, close_step, consume, on_chunk}
use ai_platform_mini.Agent.Outcomes.{
  IsRunning, Ensures, Ensures-bind, interrupts, await_controlled-Interrupts, check_stop-interrupts,
  append_event-IsRunning, finish-IsSound, running_finish, stop_for_sound, on_error_sound,
  value_or_end-Ensures,
}

module _ (w : World) (o : Options) (bound k : ℕ) (room : suc k ≤ bound) where
  pub few : k ≤ bound
  few = omega arith

  pub unless_stopped-Ensures {ℓ} :
      {A : Type ℓ} (P : A → Type 0) (r : Run) (deadline : Option ℕ) (cancel : Bool) (now : ℕ)
      (m : Flow A)
      → IsRunning o k r
      → Ensures o bound P m
      → Ensures o bound P (unless_stopped w.clock r (check_stop deadline cancel now) m)
  unless_stopped-Ensures {A} P r deadline cancel now m i h =
      by_check (check_stop deadline cancel now) (check_stop-interrupts deadline cancel now)
    where
      by_check :
          (c : Option StopReason)
          → ((reason : StopReason) → c ≡ some reason → interrupts reason ≡ true)
          → Ensures o bound P (unless_stopped w.clock r c m)
      by_check (some reason) e = stop_for_sound w.clock o bound k few r i reason (e reason refl)
      by_check none e = h

  pub head-Ensures :
      (step : ℕ) (r : Run) → IsRunning o k r → Ensures o bound (IsRunning o k) (head w o step r)
  unfolding head stop_run
  head-Ensures step r i =
      unless_stopped-Ensures (IsRunning o k) r (effective_deadline w o) (w.cancel_set step 0)
        (w.loop_time step 0) _ i
        (elim (Bool-cases (spent_budget o.token_budget r.state.token_usage)) [
          | inl spent ↦ rw spent (running_finish w.clock o bound k few r i _ _ none none refl)
          | inr left ↦ rw left (append_event-IsRunning w.clock o bound k r _ refl i)
        ])

  pub close_step-Log :
      (step : ℕ) (d : AgentDecision) (results : List ToolResult) (r : Run)
      → Log r.events
      → Log (close_step w step d results r).events
  unfolding close_step add_step
  close_step-Log step d results r l = append_event-Log w.clock (add_step step d results r) _ l refl

  pub length-close_step :
      (step : ℕ) (d : AgentDecision) (results : List ToolResult) (r : Run)
      → length (close_step w step d results r).state.steps ≡ suc (length r.state.steps)
  unfolding close_step add_step append_event
  length-close_step step d results r = omega (
    arith,
    length-append r.state.steps
        (record { index = step; decision = d; tool_results = results } ∷ []),
  )

  pub close_step-IsRunning :
      (step : ℕ) (d : AgentDecision) (results : List ToolResult) (r : Run)
      → IsRunning o k r
      → IsRunning o (suc k) (close_step w step d results r)
  close_step-IsRunning step d results r i = record {
    log = close_step-Log step d results r i.log;
    steps = omega (arith, i.steps, length-close_step step d results r);
    within = (unfold close_step add_step append_event in i.within);
  }

  -- The model's reply is valid, or the run fails; its usage is within the budget, or the run stops.
  within_budget-Ensures :
      (step : ℕ) (d : AgentDecision) (r : Run)
      → Log r.events
      → length r.state.steps ≡ k
      → Ensures o bound (IsRunning o k) (within_budget w o step d r)
  unfolding within_budget stop_run
  within_budget-Ensures step d r l s =
      elim (Bool-cases (over_budget o.token_budget r.state.token_usage)) [
        | inl over ↦ rw over (
            finish-IsSound w.clock o bound (close_step w step d [] r) _ _ none none
              (close_step-Log step d [] r l) (omega (arith, s, length-close_step step d [] r))
              (λ _. refl) refl)
        | inr left ↦ rw left (record { log = l; steps = s; within = left })
      ]

  pub accept-Ensures :
      (step : ℕ) (d : AgentDecision) (r : Run)
      → IsRunning o k r
      → Ensures o bound (IsRunning o k) (accept w o step d r)
  unfolding accept stop_run
  accept-Ensures step d r i = by_fault (validate_decision d)
    where
      logged : IsRunning o k (log_decision w o step d r)
      logged = unfold log_decision in append_event-IsRunning w.clock o bound k r _ refl i

      by_fault :
          (fault : Option Text)
          → Ensures o bound (IsRunning o k) (
              unless_invalid w o
                (log_decision w o step d r)
                fault
                (within_budget w o step d (use_tokens w o d (log_decision w o step d r))))
      by_fault (some e) = running_finish w.clock o bound k few _ logged _ _ none (some e) refl
      by_fault none = within_budget-Ensures step d _ logged.log logged.steps

  pub consume-Ensures :
      (step : ℕ) (chunks : List (Wait Chunk)) (r : Run) (parts : Option Text)
      → IsRunning o k r
      → Ensures o bound (λ x. IsRunning o k x.0) (consume w step chunks r parts)
  unfolding consume
  consume-Ensures step [] r none i = on_error_sound w.clock o bound k few r i _
  consume-Ensures step [] r (some text) i = i
  consume-Ensures step (c ∷ cs) r parts i =
      Ensures-bind o bound (λ v. Unit) (λ x. IsRunning o k x.0) _ _
        (value_or_end-Ensures w.clock o bound k few r i (await_controlled c)
          (await_controlled-Interrupts c))
        (λ v _. on_chunk-Ensures v (consume-Ensures step cs))
    where
      on_chunk-Ensures :
          (v : Chunk)
          → ((r' : Run) (p : Option Text)
              → IsRunning o k r'
              → Ensures o bound (λ x. IsRunning o k x.0) (consume w step cs r' p))
          → Ensures o bound (λ x. IsRunning o k x.0) (on_chunk w step r parts (consume w step cs) v)
      on_chunk-Ensures invalid rest = on_error_sound w.clock o bound k few r i _
      on_chunk-Ensures (chunk text) rest = elim (Bool-cases (is_empty text)) [
        | inl blank ↦ rw blank (rest r parts i)
        | inr some_text ↦
            rw some_text (rest _ _ (append_event-IsRunning w.clock o bound k r _ refl i))
      ]
