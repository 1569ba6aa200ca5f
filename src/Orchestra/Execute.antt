-- ===== src/Orchestra/Execute.antt =====
-- `Orchestrator.execute`: the task map, the loop, and the result that is made of its end. The
-- durations and dates of the result are left out. A cancellation that reaches `execute` itself
-- from outside, other than by the cancel event, is not modelled.
use ai_platform_mini.Prelude.{
  ℕ, suc, String, Bool, true, false, Option, none, some, List, [], ◌∷◌, length, min, map, Text,
  if◌then◌else◌,
}
use ai_platform_mini.Prelude.Dict.{Dict, get, put}
use ai_platform_mini.Orchestra.Models.{
  OrchestrationStatus, Subtask, SubtaskResult, OrchestrationConfig, Message,
}
use ai_platform_mini.Orchestra.Dag.{World, Dag, Verdict, loop}
use ai_platform_mini.Orchestra.Schedule.{is_completed}

pub record OrchestrationResult : Type 0 where
  pub status : OrchestrationStatus
  pub final_output : Text
  pub subtask_results : List SubtaskResult
  pub total_token_usage : ℕ
  pub error : Option Message
  pub error_code : Option String

-- `{t.id: t for t in decision.subtasks}`
unfoldable pub task_map_of : List Subtask → Dict Subtask → Dict Subtask
task_map_of [] d = d
task_map_of (t ∷ ts) d = task_map_of ts (put t.id t d)

abbrev pub keys {ℓ} : {V : Type ℓ} → Dict V → List String
keys [] = []
keys ((k, v) ∷ d) = k ∷ keys d

abbrev pub task_map : List Subtask → Dict Subtask
task_map subtasks = task_map_of subtasks []

abbrev pub initial : List Subtask → Dag
initial subtasks = record {
  pending = keys (task_map subtasks);
  in_progress = [];
  completed = [];
  failed = [];
  results = [];
  total_token_usage = 0;
  log = [];
}

abbrev pub concurrency : OrchestrationConfig → List Subtask → ℕ
concurrency config subtasks = min config.max_concurrency (length subtasks)

-- The loop, with a round for each task and one more.
unfoldable pub run_dag : World → OrchestrationConfig → List Subtask → Option (Dag × Verdict)
unfolding loop
run_dag w config subtasks =
    loop w config (task_map subtasks) (concurrency config subtasks)
      (suc (length (keys (task_map subtasks)))) 0 (initial subtasks)

abbrev pub completed_output : Option SubtaskResult → Option Text
completed_output none = none
completed_output (some r) = if is_completed r.status then some r.output else none

-- The output of the last completed task, in the order of the decision.
unfoldable pub last_output : List Subtask → Dict SubtaskResult → Option Text
last_output [] results = none
last_output (t ∷ ts) results = elim (last_output ts results) [
  | some output ↦ some output
  | none ↦ completed_output (get t.id results)
]

abbrev pub or_empty : Option Text → Text
or_empty none = []
or_empty (some t) = t

abbrev pub is_complete : OrchestrationStatus → Bool
is_complete OrchestrationStatus.completed = true
is_complete _ = false

unfoldable pub result_of : List Subtask → Dag × Verdict → OrchestrationResult
unfolding last_output
result_of subtasks (s, v) = record {
  status = v.status;
  final_output = if is_complete v.status then or_empty (last_output subtasks s.results) else [];
  subtask_results = map (λ e. e.1) s.results;
  total_token_usage = s.total_token_usage;
  error = v.error;
  error_code = v.error_code;
}

unfoldable pub execute : World → OrchestrationConfig → List Subtask → Option OrchestrationResult
unfolding run_dag result_of
execute w config subtasks = elim (run_dag w config subtasks) [
  | none ↦ none
  | some end_state ↦ some (result_of subtasks end_state)
]
