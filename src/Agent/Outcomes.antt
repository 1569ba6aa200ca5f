-- ===== src/Agent/Outcomes.antt =====
-- What every run guarantees, by an invariant of its rounds: how a run ends, and what each way of
-- ending it reports.
mod Pieces
mod Answers
mod ToolRounds
pub mod Rounds
mod Tests
use ai_platform_mini.Prelude.{
  ℕ, suc, ◌+◌, ◌≤◌, ◌≡◌, refl, Bool, true, false, Option, none, some, List, length, Text, leb,
  if◌then◌else◌, arith,
}
use ai_platform_mini.Agent.Models.{
  RunStatus, StopReason, EventKind, AgentEvent, AgentState, AgentRunResult,
}
use ai_platform_mini.Agent.Events.{Run, append_event, finish}
use ai_platform_mini.Agent.Checks.{
  Outcome, Wait, Awaited, ended, stop, status_for, check_stop, await_controlled,
}
use ai_platform_mini.Agent.Log.{Log, is_stopped, append_event-Log}
use ai_platform_mini.Agent.Report.{Report, agrees, finish-Report}
use ai_platform_mini.Agent.Loop.Setting.{
  Options, Ended, finished, escaped, Flow, go, halt, ◌>>=◌, stop_run, stop_for, quota_failed,
  on_cancelled, on_error, value_or_end,
}
use ai_platform_mini.Agent.Loop.Turn.{over_budget}

-- A run between two operations, after `k` steps.
pub record IsRunning (o : Options) (k : ℕ) (r : Run) : Type 0 where
  pub log : Log r.events
  pub steps : length r.state.steps ≡ k
  pub within : over_budget o.token_budget r.state.token_usage ≡ false

-- The result of a run that was allowed `bound` steps.
pub record IsSound (o : Options) (bound : ℕ) (x : AgentRunResult) : Type 0 where
  pub report : Report x
  pub few_steps : length x.state.steps ≤ bound
  pub usage : x.token_usage ≡ x.state.token_usage
  pub budget :
      over_budget o.token_budget x.token_usage ≡ true
      → x.stop_reason ≡ StopReason.token_budget_exceeded

abbrev pub EndsSound : Options → ℕ → Ended → Type 0
EndsSound o bound (finished x) = IsSound o bound x
EndsSound o bound (escaped e) = Unit

abbrev pub Ensures {ℓ} : {A : Type ℓ} → Options → ℕ → (A → Type 0) → Flow A → Type 0
Ensures o bound P (go a) = P a
Ensures o bound P (halt e) = EndsSound o bound e

pub Ensures-bind {ℓ κ} :
    {A : Type ℓ} {B : Type κ} (o : Options) (bound : ℕ) (P : A → Type 0) (Q : B → Type 0)
    (m : Flow A) (f : A → Flow B)
    → Ensures o bound P m
    → ((a : A) → P a → Ensures o bound Q (f a))
    → Ensures o bound Q (m >>= f)
Ensures-bind o bound P Q (go a) f h k = k a h
Ensures-bind o bound P Q (halt e) f h k = h

-- `_await_controlled` and `_check_stop` stop a run for these reasons alone.
abbrev pub interrupts : StopReason → Bool
interrupts StopReason.external_cancelled = true
interrupts StopReason.deadline_exceeded = true
interrupts _ = false

abbrev pub Interrupts {ℓ} : {A : Type ℓ} → Awaited A → Type 0
Interrupts (stop reason) = interrupts reason ≡ true
Interrupts (ended o) = Unit

pub await_controlled-Interrupts {ℓ} : {A : Type ℓ} (w : Wait A) → Interrupts (await_controlled w)
unfolding await_controlled
await_controlled-Interrupts w = ground arith

pub check_stop-interrupts :
    (deadline : Option ℕ) (cancel : Bool) (now : ℕ) (reason : StopReason)
    → check_stop deadline cancel now ≡ some reason
    → interrupts reason ≡ true
unfolding check_stop
check_stop-interrupts deadline cancel now reason h = ground arith

module _ (clock : ℕ → ℕ) (o : Options) (bound : ℕ) where
  pub append_event-IsRunning :
      (k : ℕ) (r : Run) (e : AgentEvent)
      → is_stopped e.kind ≡ false
      → IsRunning o k r
      → IsRunning o k (append_event clock r e)
  append_event-IsRunning k r e not_stop i = record {
    log = append_event-Log clock r e i.log not_stop;
    steps = (unfold append_event in i.steps);
    within = (unfold append_event in i.within);
  }

  pub finish-IsSound :
      (r : Run) (status : RunStatus) (reason : StopReason) (answer error : Option Text)
      → Log r.events
      → length r.state.steps ≤ bound
      → (over_budget o.token_budget r.state.token_usage ≡ true
          → reason ≡ StopReason.token_budget_exceeded)
      → agrees status reason answer error ≡ true
      → IsSound o bound (finish clock r status reason answer error)
  finish-IsSound r status reason answer error l few b a = record {
    report = finish-Report clock r status reason answer error l a;
    few_steps = (unfold finish in few);
    usage = (unfold finish in refl);
    budget = (unfold finish in b);
  }

  module _ (k : ℕ) (few : k ≤ bound) (r : Run) (i : IsRunning o k r) where
    pub running_finish :
        (status : RunStatus) (reason : StopReason) (answer error : Option Text)
        → agrees status reason answer error ≡ true
        → IsSound o bound (finish clock r status reason answer error)
    running_finish status reason answer error a =
        finish-IsSound r status reason answer error i.log (omega (arith, i.steps))
          (λ over. cc (over, i.within)) a

    pub stop_for_sound :
        (reason : StopReason)
        → interrupts reason ≡ true
        → EndsSound o bound (stop_for clock r reason)
    unfolding stop_for
    stop_for_sound StopReason.external_cancelled h = running_finish _ _ none none refl
    stop_for_sound StopReason.deadline_exceeded h = running_finish _ _ none none refl
    stop_for_sound _ h = absurd (cc h)

    pub quota_failed_sound : EndsSound o bound (quota_failed clock r)
    unfolding quota_failed
    quota_failed_sound = running_finish _ _ none _ refl

    pub on_cancelled_sound : (quota : Bool) → EndsSound o bound (on_cancelled clock r quota)
    unfolding on_cancelled
    on_cancelled_sound true = quota_failed_sound
    on_cancelled_sound false = running_finish _ _ none none refl

    pub on_error_sound : (e : Text) → EndsSound o bound (on_error clock r e)
    unfolding on_error
    on_error_sound e = running_finish _ _ none (some e) refl

    pub value_or_end-Ensures {ℓ} :
        {A : Type ℓ} (a : Awaited A)
        → Interrupts a
        → Ensures o bound (λ v. Unit) (value_or_end clock r a)
    unfolding value_or_end
    value_or_end-Ensures (stop reason) h = stop_for_sound reason h
    value_or_end-Ensures (ended (Outcome.returned v)) h = tt
    value_or_end-Ensures (ended (Outcome.cancelled quota)) h = on_cancelled_sound quota
    value_or_end-Ensures (ended Outcome.quota_exceeded) h = quota_failed_sound
    value_or_end-Ensures (ended (Outcome.failed e)) h = on_error_sound e
