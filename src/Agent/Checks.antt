-- ===== src/Agent/Checks.antt =====
-- The tests that one step of a run makes, and the wait for a call that the deadline or the
-- caller may interrupt (runtime.py: `_validate_decision`, `_check_stop`, `_await_controlled`).
use ai_platform_mini.Prelude.{
  is_blank, ℕ, ◌+◌, Bool, true, false, not, ◌&&◌, Option, none, some, List, [], ◌∷◌, Text, codes,
  leb, if◌then◌else◌, is_some, min,
}
use ai_platform_mini.Agent.Models.{RunStatus, StopReason, AgentDecision, ℤ}

abbrev pub is_empty {ℓ} : {A : Type ℓ} → List A → Bool
is_empty [] = true
is_empty (_ ∷ _) = false

abbrev pub blank_answer : Option Text → Bool
blank_answer none = false
blank_answer (some a) = is_blank a

abbrev pub negative : Option ℤ → Bool
negative none = false
negative (some (ℤ.pos _)) = false
negative (some (ℤ.negsuc _)) = true

-- `_validate_decision`, with the message of the first fault
unfoldable pub validate_decision : AgentDecision → Option Text
validate_decision d =
    if is_some d.answer && not (is_empty d.tool_calls)
    then some (codes "decision cannot contain both an answer and tool calls")
    else if not (is_some d.answer) && is_empty d.tool_calls
    then some (codes "decision must contain an answer or at least one tool call")
    else if blank_answer d.answer
    then some (codes "answer must not be empty")
    else if negative d.token_usage
    then some (codes "token_usage must not be negative")
    else none

-- `_status_for`
abbrev pub status_for : StopReason → RunStatus
status_for StopReason.deadline_exceeded = RunStatus.timed_out
status_for StopReason.external_cancelled = RunStatus.cancelled
status_for StopReason.model_error = RunStatus.failed
status_for StopReason.invalid_decision = RunStatus.failed
status_for StopReason.direct_answer = RunStatus.stopped
status_for StopReason.max_steps = RunStatus.stopped
status_for StopReason.token_budget_exceeded = RunStatus.stopped

-- `_resolve_deadline`
unfoldable pub resolve_deadline : ℕ → Option ℕ → Option ℕ → Option ℕ
resolve_deadline now none deadline = deadline
resolve_deadline now (some timeout) none = some (now + timeout)
resolve_deadline now (some timeout) (some deadline) = some (min (now + timeout) deadline)

-- `_check_stop`, at a reading of the cancel event and of the loop's clock
unfoldable pub check_stop : Option ℕ → Bool → ℕ → Option StopReason
check_stop deadline cancel_set now =
    if cancel_set then some StopReason.external_cancelled else elim deadline [
      | none ↦ none
      | some d ↦ if leb d now then some StopReason.deadline_exceeded else none
    ]

-- How an awaited call ends: it returns, it is cancelled (by a failed renewal of the quota, or
-- otherwise), it raises `QuotaExceededError`, or any other exception, with its text.
pub data Outcome {ℓ} (A : Type ℓ) : Type ℓ where
  returned : A → Outcome A
  cancelled : Bool → Outcome A
  quota_exceeded : Outcome A
  failed : Text → Outcome A

-- What `asyncio.wait` finds: whether the cancel event was set, and the call's end if it has one.
pub record Wait {ℓ} (A : Type ℓ) : Type ℓ where
  pub cancel_done : Bool
  pub operation : Option (Outcome A)

-- What `_await_controlled` returns or raises; `stop` is `_RuntimeStop`.
pub data Awaited {ℓ} (A : Type ℓ) : Type ℓ where
  ended : Outcome A → Awaited A
  stop : StopReason → Awaited A

unfoldable pub await_controlled {ℓ} : {A : Type ℓ} → Wait A → Awaited A
await_controlled w =
    if w.cancel_done
    then stop StopReason.external_cancelled
    else elim w.operation [ none ↦ stop StopReason.deadline_exceeded | some o ↦ ended o ]
