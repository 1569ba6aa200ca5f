-- ===== src/Agent/Events.antt =====
-- The event log of a run (`_append_event`, `_complete_open_steps`, `_finish`). What
-- `datetime.now` reads when the log holds n events is `clock n`; the observer and the recorder,
-- which are told of each event and whose failures are swallowed, are left out.
use ai_platform_mini.Prelude.{
  ℕ, suc, ◌+◌, Bool, true, false, not, ◌&&◌, ◌||◌, Option, none, some, List, [], ◌∷◌, ◌++◌, length,
  keep, any, Text, ltb, ◌==◌, if◌then◌else◌, is_some,
}
use ai_platform_mini.Agent.Models.{
  RunStatus, StopReason, EventKind, AgentState, AgentEvent, AgentRunResult, ℤ,
}

-- `events[-1] if events else None`
abbrev pub last_event : List AgentEvent → Option AgentEvent
last_event [] = none
last_event (e ∷ es) = elim (last_event es) [ none ↦ some e | some f ↦ some f ]

-- An event of which only the kind is set.
abbrev pub bare : EventKind → AgentEvent
bare kind = record {
  kind = kind;
  run_id = "";
  sequence = 0;
  occurred_at = 0;
  step_index = none;
  message = none;
  decision = none;
  tool_call = none;
  tool_result = none;
  status = none;
  stop_reason = none;
  cumulative_token_usage = none;
}

-- The event as it is stored behind the previous one, at a reading of the clock.
abbrev pub stamped : Option AgentEvent → ℕ → AgentEvent → AgentEvent
stamped none now e = record e { sequence = 1; occurred_at = now }
stamped (some p) now e = record e {
  sequence = p.sequence + 1;
  occurred_at = if ltb now p.occurred_at then p.occurred_at else now;
}

-- A run's log and state.
pub record Run : Type 0 where
  pub state : AgentState
  pub events : List AgentEvent

-- `event.kind in {...}`, by cases on the kind
abbrev pub is_answer : EventKind → Bool
is_answer EventKind.answer = true
is_answer EventKind.answer_delta = true
is_answer _ = false

abbrev pub is_step_started : EventKind → Bool
is_step_started EventKind.step_started = true
is_step_started _ = false

abbrev pub is_step_completed : EventKind → Bool
is_step_completed EventKind.step_completed = true
is_step_completed _ = false

-- `include_result_event`
abbrev pub include_result_event : AgentEvent → Bool
include_result_event e = not (is_step_started e.kind || is_step_completed e.kind)

-- The step indices of the events of a kind.
abbrev pub indices : (EventKind → Bool) → List AgentEvent → List ℕ
indices test [] = []
indices test (e ∷ es) =
    let rest = indices test es in
    if test e.kind then elim e.step_index [ none ↦ rest | some i ↦ i ∷ rest ] else rest

abbrev pub has : ℕ → List ℕ → Bool
has i [] = false
has i (j ∷ js) = i == j || has i js

-- `sorted(started - completed)`: a sorted list without repetitions.
abbrev pub insert_sorted : ℕ → List ℕ → List ℕ
insert_sorted i [] = i ∷ []
insert_sorted i (j ∷ js) =
    if ltb i j then i ∷ j ∷ js else if i == j then j ∷ js else j ∷ insert_sorted i js

abbrev pub sorted_without : List ℕ → List ℕ → List ℕ
sorted_without [] completed = []
sorted_without (i ∷ started) completed =
    let rest = sorted_without started completed in
    if has i completed then rest else insert_sorted i rest

unfoldable pub open_steps : List AgentEvent → List ℕ
open_steps events =
    sorted_without (indices is_step_started events) (indices is_step_completed events)

-- `replace(event, sequence=index)`, counted from `n`
abbrev pub renumber : ℕ → List AgentEvent → List AgentEvent
renumber n [] = []
renumber n (e ∷ es) = record e { sequence = n } ∷ renumber (suc n) es

abbrev pub is_completed : RunStatus → Bool
is_completed RunStatus.completed = true
is_completed _ = false

module _ (clock : ℕ → ℕ) where
  -- `_append_event`
  unfoldable pub append_event : Run → AgentEvent → Run
  append_event r e = record r {
    events =
        r.events
        ++ stamped (last_event r.events) (clock (length r.events))
            (record e { run_id = r.state.run_id })
          ∷ [];
  }

  unfoldable pub complete_steps : List ℕ → Run → Run
  complete_steps [] r = r
  complete_steps (i ∷ is) r =
      complete_steps is
        (append_event r (record (bare EventKind.step_completed) { step_index = some i }))

  -- `_complete_open_steps`
  unfoldable pub complete_open_steps : Run → Run
  unfolding complete_steps open_steps
  complete_open_steps r = complete_steps (open_steps r.events) r

  -- The ANSWER event that `_finish` adds if no answer was logged.
  unfoldable pub log_answer : Run → RunStatus → Option Text → Run
  log_answer r status answer =
      if is_completed status && is_some answer && not (any (λ e. is_answer e.kind) r.events)
      then append_event r (record (bare EventKind.answer) { message = answer })
      else r

  -- `_finish`
  unfoldable pub finish : Run → RunStatus → StopReason → Option Text → Option Text → AgentRunResult
  unfolding complete_open_steps log_answer
  finish r status reason answer error =
      let logged = log_answer (complete_open_steps r) status answer in
      let ended = append_event logged (record (bare EventKind.run_stopped) {
        status = some status;
        stop_reason = some reason;
        message = error;
        cumulative_token_usage = some (ℤ.pos r.state.token_usage);
      }) in
      record {
        run_id = r.state.run_id;
        status = status;
        stop_reason = reason;
        answer = answer;
        state = r.state;
        events = renumber 1 (keep include_result_event ended.events);
        token_usage = r.state.token_usage;
        error = error;
      }
