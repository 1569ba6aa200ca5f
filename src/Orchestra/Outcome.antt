-- ===== src/Orchestra/Outcome.antt =====
-- What an orchestration guarantees.
use ai_platform_mini.Prelude.{
  ℕ, suc, ◌≤◌, ◌≡◌, refl, String, Bool, true, false, not, ◌&&◌, ◌||◌, Option, none, some, is_some,
  List, [], ◌∷◌, length, any, keep, str_eq, eq_iff, eq_refl, arith, Bool-cases, inl, inr, member,
  Distinct,
}
use ai_platform_mini.Prelude.Dict.{Dict, get, put}
use ai_platform_mini.Orchestra.Models.{
  FailurePolicy, OrchestrationStatus, Subtask, OrchestrationConfig, is_empty,
}
use ai_platform_mini.Orchestra.Dag.{
  World, Dag, Verdict, go, leave, depends_on, loop, round, check, settle, start_ready, satisfied,
  deadlock,
}
use ai_platform_mini.Orchestra.Schedule.{
  Legal, was, was_started, was_finished, is_completed, is_failed, result_in,
}
use ai_platform_mini.Orchestra.Safety.{IsOrder, Inv, Left, find_ready_lem, none_failed}
use ai_platform_mini.Orchestra.Rounds.{loop-Returns, Returns}
use ai_platform_mini.Orchestra.Termination.{Waits, loop_returns}
use ai_platform_mini.Orchestra.Execute.{
  task_map_of, task_map, keys, initial, concurrency, run_dag, execute, result_of,
}

pub member-put :
    {V : Type 0} (x k : String) (v : V) (d : Dict V)
    → member x (keys (put k v d)) ≡ str_eq k x || member x (keys d)
unfolding put
member-put x k v [] = refl
member-put x k v ((j, w) ∷ d) = ground (arith, member-put x k v d, eq_iff j k)

Distinct-put :
    {V : Type 0} (k : String) (v : V) (d : Dict V) → Distinct (keys d) → Distinct (keys (put k v d))
unfolding put
Distinct-put k v [] h = (refl, tt)
Distinct-put k v ((j, w) ∷ d) h = elim (Bool-cases (str_eq j k)) [
  | inl e ↦ rw e h
  | inr e ↦
      rw e
        (ground (arith, e, member-put j k v d, eq_iff k j, eq_iff j k, h), Distinct-put k v d h.1)
]

Distinct-task_map :
    (ts : List Subtask) (d : Dict Subtask) → Distinct (keys d) → Distinct (keys (task_map_of ts d))
unfolding task_map_of
Distinct-task_map [] d h = h
Distinct-task_map (t ∷ ts) d h = Distinct-task_map ts (put t.id t d) (Distinct-put t.id t d h)

abbrev pub ids : List Subtask → List String
ids [] = []
ids (t ∷ ts) = t.id ∷ ids ts

pub member-task_map :
    (x : String) (ts : List Subtask) (d : Dict Subtask)
    → member x (keys (task_map_of ts d)) ≡ member x (ids ts) || member x (keys d)
unfolding task_map_of
member-task_map x [] d = refl
member-task_map x (t ∷ ts) d =
    ground (arith, member-task_map x ts (put t.id t d), member-put x t.id t d)

no_result : {V : Type 0} (x : String) → get {V = V} x [] ≡ none
unfolding get
no_result x = refl

pub initial-Inv :
    (subtasks : List Subtask) (c : ℕ)
    → Inv (depends_on (task_map subtasks)) c (ids subtasks) (initial subtasks)
initial-Inv subtasks c = record {
  legal = tt;
  completed = λ x. refl;
  failed = λ x. refl;
  results = λ x. no_result x;
  progress = λ x. refl;
  count = refl;
  running = tt;
  fresh = λ x m. refl;
  waiting = Distinct-task_map subtasks [] tt;
  accounted = λ x m. ground (arith, m, member-task_map x subtasks []);
}

ends :
    (w : World) (config : OrchestrationConfig) (task_map : Dict Subtask) (c : ℕ)
    (tasks : List String) (walk : IsOrder w.order) (o : Option (Dag × Verdict))
    → is_some o ≡ true
    → Returns w config task_map c tasks walk o
    → (s : Dag) × (v : Verdict) × (o ≡ some (s, v)) × Left w config task_map c tasks s v
ends w config task_map c tasks walk none e h = cc
ends w config task_map c tasks walk (some (s, v)) e h = (s, v, refl, h)

execute-run_dag :
    (w : World) (config : OrchestrationConfig) (subtasks : List Subtask) (s : Dag) (v : Verdict)
    → run_dag w config subtasks ≡ some (s, v)
    → execute w config subtasks ≡ some (result_of subtasks (s, v))
unfolding execute
execute-run_dag w config subtasks s v e = ground (arith, e)

-- An orchestration always ends, if a set is walked over all its elements and `asyncio.wait`
-- returns with a task that has ended: the loop is left in some state with some verdict, and `execute`
-- makes its result of them. In the log of the calls of that run no task is started twice, none before
-- each of its dependencies has finished as COMPLETED, and none while as many run as may. That log is
-- what the loop's own variables say: `results`, of which `execute` makes the results of its subtasks,
-- holds those with which the tasks have finished; `completed` and `failed` hold the tasks that have
-- finished so; and `in_progress`, never more than may run, holds every one that was started and has not finished. If the
-- run ends as COMPLETED, every subtask has finished, and one can have failed only if the policy is SKIP.
pub execute_lem :
    (w : World) (config : OrchestrationConfig) (subtasks : List Subtask)
    → IsOrder w.order
    → Waits w
    → (s : Dag) × (v : Verdict) × (run_dag w config subtasks ≡ some (s, v))
      × (execute w config subtasks ≡ some (result_of subtasks (s, v)))
      × Legal (depends_on (task_map subtasks)) (concurrency config subtasks) s.log
      × ((id : String) → member id s.completed ≡ was is_completed id s.log)
      × ((id : String) → member id s.failed ≡ was is_failed id s.log)
      × ((id : String) → get id s.results ≡ result_in id s.log)
      × ((id : String)
          → was_started id s.log && not (was_finished id s.log) ≡ true
          → member id s.in_progress ≡ true)
      × (length s.in_progress ≤ concurrency config subtasks)
      × (v.status ≡ OrchestrationStatus.completed
          → (id : String) → member id (ids subtasks) ≡ true
          → (was_finished id s.log ≡ true)
            × (was is_failed id s.log ≡ true → config.failure_policy ≡ FailurePolicy.skip))
unfolding run_dag
execute_lem w config subtasks walk waits =
    let map = task_map subtasks in
    let c = concurrency config subtasks in
    let i = initial-Inv subtasks c in
    let fuel = suc (length (keys map)) in
    let (s, v, e, left) =
      ends w config map c (ids subtasks) walk (loop w config map c fuel 0 (initial subtasks))
        (loop_returns w config map c (ids subtasks) walk waits fuel 0 (initial subtasks) i
          (omega arith))
        (loop-Returns w config map c (ids subtasks) walk fuel 0 (initial subtasks) i) in
    (
      s,
      v,
      e,
      execute-run_dag w config subtasks s v e,
      left.legal,
      left.completed,
      left.failed,
      left.results,
      left.progress,
      left.few,
      left.complete,
    )

-- Each pending task waits for a task that failed.
abbrev pub Blocked : Dict Subtask → List String → List String → Type 0
Blocked task_map failed [] = Unit
Blocked task_map failed (id ∷ pending) =
    (any (λ d. member d failed) (depends_on task_map id) ≡ true) × Blocked task_map failed pending

module _ (w : World) (config : OrchestrationConfig) (task_map : Dict Subtask) (c : ℕ)
    (tasks : List String) where
  Blocked-waits :
      (s : Dag) (x : String) (pending : List String)
      → Inv (depends_on task_map) c tasks s
      → Blocked task_map s.failed pending
      → member x pending ≡ true
      → satisfied w config task_map c s x ≡ false
  Blocked-waits s x [] i b m = cc
  Blocked-waits s x (y ∷ ys) i b m = ground (
    arith,
    b,
    eq_iff y x,
    Blocked-waits s x ys i b.1,
    none_failed (depends_on task_map) c tasks (depends_on task_map x) s i,
  )

  keep_nothing :
      (p : String → Bool) (xs : List String)
      → ((x : String) → member x xs ≡ true → p x ≡ false)
      → keep p xs ≡ []
  keep_nothing p [] h = refl
  keep_nothing p (x ∷ xs) h =
      let none_here = h x (ground (arith, eq_refl x)) in
      rw none_here (keep_nothing p xs (λ y m. h y (ground (arith, m))))

  -- Under every policy, SKIP included: in a round that passes the three tests at its head (no
  -- cancellation, no timeout, the token budget not used up), where nothing runs, tasks are left and each
  -- of them depends on one that failed, the run ends as FAILED with a dependency deadlock; no task is
  -- skipped. The variables of the loop must agree with the calls made, as they do on every way there.
  pub failed_dependency_deadlocks :
      (n : ℕ) (s : Dag)
      → IsOrder w.order
      → Inv (depends_on task_map) c tasks s
      → check w config task_map c n s ≡ go s
      → is_empty s.in_progress ≡ true
      → is_empty s.pending ≡ false
      → Blocked task_map s.failed s.pending
      → round w config task_map c n s ≡ leave s (deadlock w config task_map c)
  unfolding round start_ready settle
  failed_dependency_deadlocks n s walk i passed idle left blocked =
      let nothing = keep_nothing (satisfied w config task_map c s) (w.order n s.pending) (λ x m.
        Blocked-waits s x s.pending i blocked (ground (arith, m, walk.members n s.pending x))) in
      rw passed (
        rw (find_ready_lem w config task_map c tasks (w.order n s.pending) s i)
          (rw nothing (ground (arith, idle, left))))
