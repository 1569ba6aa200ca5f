-- ===== src/Agent/Loop/Setting.antt =====
-- What a run is given, and the early returns of its body.
use ai_platform_mini.Prelude.{ℕ, Bool, Option, List, Text, some, none, codes}
use ai_platform_mini.Agent.Models.{
  RunStatus, StopReason, AgentState, AgentDecision, AgentRunResult, ToolCall,
}
use ai_platform_mini.Agent.Events.{Run, finish}
use ai_platform_mini.Agent.Checks.{
  Outcome, Wait, Awaited, ended, stop, status_for, resolve_deadline,
}
use ai_platform_mini.Agent.Tools.{Route}

pub data Chunk : Type 0 where
  chunk : Text → Chunk
  invalid : Chunk

-- The clocks, the cancel event, the model and the tools. The loop's clock is
-- read when a run starts; it and the cancel event are read at the head of a round (position 0) and before its i-th tool call (position i + 1). A stream
-- is absent if the model cannot stream; it ends behind its last chunk.
pub record World : Type 0 where
  pub clock : ℕ → ℕ
  pub start_time : ℕ
  pub loop_time : ℕ → ℕ → ℕ
  pub cancel_set : ℕ → ℕ → Bool
  pub decide : AgentState → Wait AgentDecision
  pub stream : AgentState → Option (List (Wait Chunk))
  pub route : AgentState → ℕ → ToolCall → Route

pub record Options : Type 0 where
  pub max_steps : ℕ
  pub timeout : Option ℕ
  pub deadline : Option ℕ
  pub token_budget : Option ℕ
  pub stream_answer : Bool
  pub tool_output_max_chars : ℕ

abbrev pub effective_deadline : World → Options → Option ℕ
effective_deadline w o = resolve_deadline w.start_time o.timeout o.deadline

-- `run` returns a result, or an exception of the tool executor escapes from it.
pub data Ended : Type 0 where
  finished : AgentRunResult → Ended
  escaped : Text → Ended

-- The body goes on with a value, or the run has ended.
pub data Flow {ℓ} (A : Type ℓ) : Type ℓ where
  go : A → Flow A
  halt : Ended → Flow A

infixl 5 ◌>>=◌
abbrev pub ◌>>=◌ {ℓ κ} : {A : Type ℓ} {B : Type κ} → Flow A → (A → Flow B) → Flow B
go a >>= f = f a
halt e >>= f = halt e

-- `AGENT_QUOTA_FAILURE`
abbrev pub quota_failure : Text
quota_failure = codes "quota_exceeded"

module _ (clock : ℕ → ℕ) (r : Run) where
  -- The `return self._finish(...)` of a run that has no answer.
  unfoldable pub stop_run : RunStatus → StopReason → Option Text → Ended
  stop_run status reason error = finished (finish clock r status reason none error)

  unfoldable pub stop_for : StopReason → Ended
  unfolding stop_run
  stop_for reason = stop_run (status_for reason) reason none

  unfoldable pub quota_failed : Ended
  unfolding stop_run
  quota_failed = stop_run RunStatus.failed StopReason.model_error (some quota_failure)

  -- `except asyncio.CancelledError`
  unfoldable pub on_cancelled : Bool → Ended
  unfolding stop_run quota_failed
  on_cancelled Bool.true = quota_failed
  on_cancelled Bool.false = stop_run RunStatus.cancelled StopReason.external_cancelled none

  unfoldable pub on_error : Text → Ended
  unfolding stop_run
  on_error e = stop_run RunStatus.failed StopReason.model_error (some e)

  -- The value of an awaited call of the model, or the end of the run.
  unfoldable pub value_or_end {ℓ} : {A : Type ℓ} → Awaited A → Flow A
  unfolding stop_for quota_failed on_cancelled on_error
  value_or_end (stop reason) = halt (stop_for reason)
  value_or_end (ended (Outcome.returned a)) = go a
  value_or_end (ended (Outcome.cancelled quota)) = halt (on_cancelled quota)
  value_or_end (ended Outcome.quota_exceeded) = halt quota_failed
  value_or_end (ended (Outcome.failed e)) = halt (on_error e)

  -- `if stop_reason is not None: return self._finish(...)`
  abbrev pub unless_stopped {ℓ} : {A : Type ℓ} → Option StopReason → Flow A → Flow A
  unless_stopped (some reason) m = halt (stop_for reason)
  unless_stopped none m = m
