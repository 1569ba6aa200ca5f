-- ===== src/Orchestra/Tests.antt =====
-- Runs of three subtasks: "b" and "c" depend on "a"; at most two run at once.
use ai_platform_mini.Prelude.{
  ◌≤◌, ◌≡◌, refl, String, true, false, not, ◌&&◌, none, some, List, [], ◌∷◌, length, codes, arith,
  str_eq, eq_iff, eq_refl, Bool-cases, inl, inr, subst, sym, member,
}
use ai_platform_mini.Prelude.Dict.{get, put}
use ai_platform_mini.Orchestra.Models.{
  AgentRole, TaskStatus, FailurePolicy, OrchestrationStatus, Subtask, SubtaskResult,
  OrchestrationConfig,
}
use ai_platform_mini.Orchestra.Dag.{
  World, Call, Dag, Verdict, go, leave, TaskEnd, depends_on, loop, round, check, settle,
  start_ready, find_ready, take_done, verdict, deadlock,
}
use ai_platform_mini.Orchestra.Schedule.{
  Legal, was, was_started, was_finished, is_completed, is_failed, result_in,
}
use ai_platform_mini.Orchestra.Safety.{IsOrder, Inv}
use ai_platform_mini.Orchestra.Termination.{Waits}
use ai_platform_mini.Orchestra.Execute.{
  task_map_of, task_map, concurrency, run_dag, execute, result_of, last_output,
}
use ai_platform_mini.Orchestra.Outcome.{execute_lem, failed_dependency_deadlocks, ids, Blocked}

abbrev subtask : String → List String → Subtask
subtask id deps = record {
  id = id;
  description = codes "d";
  agent_role = AgentRole.research;
  depends_on = deps;
  input_template = [];
}

abbrev subtasks : List Subtask
subtasks = subtask "a" [] ∷ subtask "b" ("a" ∷ []) ∷ subtask "c" ("a" ∷ []) ∷ []

abbrev answer : String → TaskEnd
answer id = TaskEnd.returned (record {
  task_id = id;
  status = TaskStatus.completed;
  output = codes "o";
  error = none;
  token_usage = 4;
})

-- The first of the tasks in progress ends.
abbrev first_ends : List String → List (String × TaskEnd)
first_ends [] = []
first_ends (id ∷ _) = (id, answer id) ∷ []

abbrev world : World
world = record {
  cancel_set = λ n. false;
  elapsed = λ n. n;
  order = λ n ids. ids;
  done = λ n ids. first_ends ids;
}

abbrev config : FailurePolicy → OrchestrationConfig
config policy = record {
  max_concurrency = 2;
  failure_policy = policy;
  total_timeout = some 300;
  total_token_budget = none;
}

world-IsOrder : IsOrder world.order
world-IsOrder = record { members = λ n ids id. refl; distinct = λ n ids d. d }

world-Waits : Waits world
world-Waits n [] h = cc
world-Waits n (id ∷ ids) h = ground (arith, eq_refl id)

-- All three complete, and the tokens add up.
completes :
    execute world (config FailurePolicy.fail_fast) subtasks
    ≡ some (record {
      status = OrchestrationStatus.completed;
      final_output = codes "o";
      subtask_results =
          record {
            task_id = "a";
            status = TaskStatus.completed;
            output = codes "o";
            error = none;
            token_usage = 4;
          }
          ∷ record {
            task_id = "b";
            status = TaskStatus.completed;
            output = codes "o";
            error = none;
            token_usage = 4;
          }
          ∷ record {
            task_id = "c";
            status = TaskStatus.completed;
            output = codes "o";
            error = none;
            token_usage = 4;
          }
          ∷ [];
      total_token_usage = 12;
      error = none;
      error_code = none;
    })
unfolding execute run_dag loop round check find_ready start_ready settle take_done verdict
    task_map_of put get result_of last_output
completes = refl

execute_lem_example :
    (s : Dag) × (v : Verdict) × (run_dag world (config FailurePolicy.fail_fast) subtasks
      ≡ some (s, v))
    × (execute world (config FailurePolicy.fail_fast) subtasks ≡ some (result_of subtasks (s, v)))
    × Legal
        (depends_on (task_map subtasks))
        (concurrency (config FailurePolicy.fail_fast) subtasks)
        s.log
    × ((id : String) → member id s.completed ≡ was is_completed id s.log)
    × ((id : String) → member id s.failed ≡ was is_failed id s.log)
    × ((id : String) → get id s.results ≡ result_in id s.log)
    × ((id : String)
        → was_started id s.log && not (was_finished id s.log) ≡ true
        → member id s.in_progress ≡ true)
    × (length s.in_progress ≤ concurrency (config FailurePolicy.fail_fast) subtasks)
    × (v.status ≡ OrchestrationStatus.completed
        → (id : String) → member id (ids subtasks) ≡ true
        → (was_finished id s.log ≡ true)
          × (was is_failed id s.log ≡ true → FailurePolicy.fail_fast ≡ FailurePolicy.skip))
execute_lem_example =
    execute_lem world (config FailurePolicy.fail_fast) subtasks world-IsOrder world-Waits

abbrev failure : SubtaskResult
failure = record {
  task_id = "a";
  status = TaskStatus.failed;
  output = [];
  error = some (codes "e");
  token_usage = 0;
}

-- The state behind the failure of "a" under SKIP.
abbrev after_failure : Dag
after_failure = record {
  pending = "b" ∷ "c" ∷ [];
  in_progress = [];
  completed = [];
  failed = "a" ∷ [];
  results = ("a", failure) ∷ [];
  total_token_usage = 0;
  log = Call.finished "a" failure ∷ Call.started "a" ∷ [];
}

a_is_done : member "a" ("b" ∷ "c" ∷ []) ≡ true → ⊥
a_is_done h = cc

after_failure-Inv : Inv (depends_on (task_map subtasks)) 2 (ids subtasks) after_failure
unfolding task_map_of put get
after_failure-Inv = record {
  legal = (refl, refl, (refl, refl, omega arith, tt));
  completed = λ x. ground arith;
  failed = λ x. ground arith;
  results = λ x. refl;
  progress = λ x. ground arith;
  count = refl;
  running = tt;
  fresh = λ x m. elim (Bool-cases (str_eq "a" x)) [
    | inl e ↦ absurd (
        a_is_done
          (subst (λ (y : String). member y ("b" ∷ "c" ∷ []) ≡ true) (sym ((eq_iff "a" x).0 e)) m))
    | inr e ↦ ground (arith, e)
  ];
  waiting = (refl, (refl, tt));
  accounted = λ x m. ground (arith, m);
}

passes :
    check world (config FailurePolicy.skip) (task_map subtasks) 2 1 after_failure ≡ go after_failure
unfolding check
passes = refl

blocked : Blocked (task_map subtasks) ("a" ∷ []) ("b" ∷ "c" ∷ [])
unfolding task_map_of put get
blocked = (refl, (refl, tt))

failed_dependency_deadlocks_example :
    round world (config FailurePolicy.skip) (task_map subtasks) 2 1 after_failure
    ≡ leave after_failure (deadlock world (config FailurePolicy.skip) (task_map subtasks) 2)
failed_dependency_deadlocks_example =
    failed_dependency_deadlocks world (config FailurePolicy.skip) (task_map subtasks) 2
      (ids subtasks) 1 after_failure world-IsOrder after_failure-Inv passes refl refl blocked
