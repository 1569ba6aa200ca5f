-- ===== src/Orchestra/Dag.antt =====
-- `Orchestrator._execute_dag`. A round of the loop is numbered; what it finds outside is the
-- parameter World. A set of ids is a list without repetitions; those of `pending` and `ready` are keys
-- of the task map. The calls of `asyncio.create_task` and the results that the loop
-- takes are noted in `log`, the latest first. The observer, which is told of skipped tasks, is left out.
use ai_platform_mini.Prelude.{
  ℕ, zero, suc, ◌+◌, String, Bool, not, ◌&&◌, ◌||◌, Option, none, some, List, [], ◌∷◌, ◌++◌, length,
  any, all, leb, if◌then◌else◌, Text, codes, member, delete,
}
use ai_platform_mini.Prelude.Dict.{Dict, get, put}
use ai_platform_mini.Orchestra.Models.{
  TaskStatus, OrchestrationStatus, Subtask, SubtaskResult, OrchestrationConfig, Message,
  is_fail_fast, is_empty, is_skip,
}

-- How a task ends: `result()` returns, or raises an exception with this text.
pub data TaskEnd : Type 0 where
  returned : SubtaskResult → TaskEnd
  failed : Text → TaskEnd

-- At a round: whether the cancel event is set, the seconds since the start, the order in which the
-- set of pending tasks is walked, and the tasks of those in progress that have ended when
-- `asyncio.wait` returns, in the order in which they are taken.
pub record World : Type 0 where
  pub cancel_set : ℕ → Bool
  pub elapsed : ℕ → ℕ
  pub order : ℕ → List String → List String
  pub done : ℕ → List String → List (String × TaskEnd)

pub data Call : Type 0 where
  started : String → Call
  finished : String → SubtaskResult → Call

-- The variables of the loop, and the fields of `OrchestrationState` that it writes.
pub record Dag : Type 0 where
  pub pending : List String
  pub in_progress : List String
  pub completed : List String
  pub failed : List String
  pub results : Dict SubtaskResult
  pub total_token_usage : ℕ
  pub log : List Call

-- The status with which the loop is left.
pub record Verdict : Type 0 where
  pub status : OrchestrationStatus
  pub error : Option Message
  pub error_code : Option String

-- The loop goes on, or `_execute_dag` is left with a verdict.
pub data Flow : Type 0 where
  go : Dag → Flow
  leave : Dag → Verdict → Flow

infixl 5 ◌>>=◌
abbrev pub ◌>>=◌ : Flow → (Dag → Flow) → Flow
go s >>= f = f s
leave s v >>= f = leave s v

abbrev pub cancelled : Verdict
cancelled = record {
  status = OrchestrationStatus.cancelled;
  error = some Message.cancelled_externally;
  error_code = some "cancelled";
}

-- `task_map[task_id].depends_on`
abbrev pub depends_on : Dict Subtask → String → List String
depends_on task_map id = elim (get id task_map) [ none ↦ [] | some t ↦ t.depends_on ]

abbrev pub skipped_result : String → SubtaskResult
skipped_result id = record {
  task_id = id;
  status = TaskStatus.skipped;
  output = [];
  error = some (codes "Skipped due to dependency failure");
  token_usage = 0;
}

abbrev pub skip : String → Dag → Dag
skip id s = record s {
  results = put id (skipped_result id) s.results;
  pending = delete id s.pending;
}

-- A limit that has been reached.
abbrev pub reached : Option ℕ → ℕ → Option ℕ
reached none n = none
reached (some limit) n = if leb limit n then some limit else none

abbrev pub launch : String → Dag → Dag
launch id s = record s {
  pending = delete id s.pending;
  in_progress = s.in_progress ++ id ∷ [];
  log = Call.started id ∷ s.log;
}

module _ (w : World) (config : OrchestrationConfig) (task_map : Dict Subtask)
    (concurrency : ℕ) where
  abbrev pub timed_out : ℕ → Verdict
  timed_out limit = record {
    status = OrchestrationStatus.timed_out;
    error = some (Message.timeout_exceeded limit);
    error_code = some "timeout";
  }

  abbrev pub budget_exceeded : ℕ → Verdict
  budget_exceeded limit = record {
    status = OrchestrationStatus.budget_exceeded;
    error = some (Message.budget_exceeded limit);
    error_code = some "budget_exceeded";
  }

  -- The loop is left at a limit that has been reached.
  abbrev pub unless_reached : Option ℕ → (ℕ → Verdict) → Dag → Flow → Flow
  unless_reached none v s m = m
  unless_reached (some limit) v s m = leave s (v limit)

  -- The three tests at the head of the loop.
  unfoldable pub check : ℕ → Dag → Flow
  check n s =
      if w.cancel_set n
      then leave s cancelled
      else unless_reached (reached config.total_timeout (w.elapsed n)) timed_out s (
          unless_reached (reached config.total_token_budget s.total_token_usage) budget_exceeded s
            (go s))

  -- `deps.issubset(completed)`
  abbrev pub satisfied : Dag → String → Bool
  satisfied s id = all (λ d. member d s.completed) (depends_on task_map id)

  -- A task whose dependencies are satisfied and that a failure among them skips.
  abbrev pub is_skipped : Dag → String → Bool
  is_skipped s id =
      satisfied s id
      && any (λ d. member d s.failed) (depends_on task_map id)
      && is_fail_fast config.failure_policy

  -- `for task_id in list(pending)`: the ready tasks.
  unfoldable pub find_ready : List String → Dag → List String × Dag
  find_ready [] s = ([], s)
  find_ready (id ∷ ids) s =
      let (ready, s') = find_ready ids (if is_skipped s id then skip id s else s) in
      (if satisfied s id && not (is_skipped s id) then id ∷ ready else ready, s')

  -- `for subtask in ready`
  unfoldable pub start_ready : List String → Dag → Dag
  start_ready [] s = s
  start_ready (id ∷ ids) s =
      let rest = start_ready ids (launch id s) in
      if leb concurrency (length s.in_progress) then s else rest

  -- The result of one task.
  abbrev pub by_status : TaskStatus → String → SubtaskResult → Dag → Flow
  by_status TaskStatus.completed id r s = go (record s {
    completed = id ∷ s.completed;
    total_token_usage = s.total_token_usage + r.token_usage;
    in_progress = delete id s.in_progress;
  })
  by_status TaskStatus.cancelled id r s = leave s cancelled
  by_status TaskStatus.failed id r s =
      let s' = record s { failed = id ∷ s.failed } in
      if is_fail_fast config.failure_policy
      then leave s' (record {
        status = OrchestrationStatus.failed;
        error = some (Message.task_failed id r.error);
        error_code = some "subtask_failed";
      })
      else go (record s' { in_progress = delete id s.in_progress })
  by_status TaskStatus.pending id r s = go (record s { in_progress = delete id s.in_progress })
  by_status TaskStatus.running id r s = go (record s { in_progress = delete id s.in_progress })
  by_status TaskStatus.skipped id r s = go (record s { in_progress = delete id s.in_progress })

  -- An exception of `result()` leaves the loop; `execute` turns it into a failure.
  abbrev pub take_end : String → TaskEnd → Dag → Flow
  take_end id (TaskEnd.failed e) s = leave s (record {
    status = OrchestrationStatus.failed;
    error = some (Message.exception e);
    error_code = some "internal_error";
  })
  take_end id (TaskEnd.returned r) s =
      by_status r.status id r
        (record s { results = put id r s.results; log = Call.finished id r ∷ s.log })

  -- `for task_coro in done`: one that is not in progress is not found.
  unfoldable pub take_done : List (String × TaskEnd) → Dag → Flow
  take_done [] s = go s
  take_done ((id, e) ∷ rest) s =
      (if member id s.in_progress then take_end id e s else go s) >>= take_done rest

  abbrev pub deadlock : Verdict
  deadlock = record {
    status = OrchestrationStatus.failed;
    error = some Message.deadlock;
    error_code = some "dependency_deadlock";
  }

  -- What follows the loop.
  unfoldable pub verdict : Dag → Verdict
  verdict s =
      if is_empty s.failed || is_skip config.failure_policy
      then record { status = OrchestrationStatus.completed; error = none; error_code = none }
      else record {
        status = OrchestrationStatus.failed;
        error = none;
        error_code = some "subtask_failed";
      }

  -- The end of a round: the wait, a deadlock, or the end of the loop.
  unfoldable pub settle : ℕ → Dag → Flow
  unfolding take_done verdict
  settle n s =
      if not (is_empty s.in_progress)
      then take_done (w.done n s.in_progress) s
      else if not (is_empty s.pending)
      then leave s deadlock
      else leave s (verdict s)

  unfoldable pub round : ℕ → Dag → Flow
  unfolding check find_ready start_ready settle
  round n s = check n s >>= λ s.
      let (ready, s') = find_ready (w.order n s.pending) s in settle n (start_ready ready s')

  -- `while pending or in_progress`, for so many rounds; `none` if they were not enough.
  unfoldable pub loop : ℕ → ℕ → Dag → Option (Dag × Verdict)
  unfolding round verdict
  loop zero n s = none
  loop (suc fuel) n s =
      let rest = λ (s' : Dag). loop fuel (suc n) s' in
      if is_empty s.pending && is_empty s.in_progress
      then some (s, verdict s)
      else elim (round n s) [ go s' ↦ rest s' | leave s' v ↦ some (s', v) ]
