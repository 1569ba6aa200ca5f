-- ===== src/Rag/Queue.antt =====
-- The ingestion queue (app/rag/queue.py) with its one worker. A method runs between two of its waits
-- without interruption, so each such stretch is one function; the worker's place is kept by what it
-- waits for. Of an exception's message and code the class that they are made from is kept.
pub mod Invariant
pub mod Accepting
pub mod Working
pub mod Stopping
pub mod Kept
pub mod Moves
pub mod Stops
mod Tests
use ai_platform_mini.Prelude.{
  is_hex, ℕ, suc, ◌-◌, String, Bool, true, false, not, ◌&&◌, ◌||◌, Option, none, some, List, [],
  ◌∷◌, ◌++◌, Text, text_eq, length, all, str_eq, leb, ◌==◌, if◌then◌else◌,
}
use ai_platform_mini.Prelude.Results.{Result, ok, raised, Exception, value_error, runtime_error}
use ai_platform_mini.Prelude.Dict.{Dict, get, put, remove}

pub data IngestionTaskStatus : Type 0 where
  queued processing completed failed : IngestionTaskStatus

pub data IngestionError : Type 0 where
  document_invalid conflict embedding_unavailable embedding_failed : IngestionError
  storage_unavailable ingestion_failed stopped : IngestionError

pub record IngestionTask : Type 0 where
  pub task_id : String
  pub document_id : Option String
  pub filename : String
  pub status : IngestionTaskStatus
  pub created_at : ℕ
  pub updated_at : ℕ
  pub owner_key_hash : Text
  pub error : Option IngestionError

pub record WorkItem : Type 0 where
  pub task_id : String
  pub content : Text
  pub filename : Option String
  pub owner_key_hash : Text

-- `_worker_task`: None, a task that waits for the queue or for the ingestion of an item, or one that
-- has ended.
pub data Worker : Type 0 where
  absent waiting ended : Worker
  ingesting : WorkItem → Worker

-- In the queue `none` is the sentinel that ends the worker. `stopping` counts the calls of `stop`
-- that wait for the worker. A maximum of 0 is none.
pub record IngestionQueue : Type 0 where
  pub queue : List (Option WorkItem)
  pub max_queue_size : ℕ
  pub tasks : Dict IngestionTask
  pub worker : Worker
  pub accepting : Bool
  pub stop_requested : Bool
  pub stopping : ℕ

unfoldable pub new : ℕ → IngestionQueue
new max_queue_size = record {
  queue = [];
  max_queue_size = max_queue_size;
  tasks = [];
  worker = absent;
  accepting = false;
  stop_requested = false;
  stopping = 0;
}

abbrev pub running : Worker → Bool
running absent = false
running waiting = true
running ended = false
running (ingesting item) = true

unfoldable pub start : IngestionQueue → Result IngestionQueue
start q =
    if running q.worker
    then ok q
    else (if q.stop_requested
        then raised runtime_error
        else ok (record q { accepting = true; worker = waiting }))

-- `validate_owner_key_hash` (app/rag/vector_store.py)
unfoldable pub validate_owner_key_hash : Text → Result Text
validate_owner_key_hash h = if length h == 64 && all is_hex h then ok h else raised value_error

-- `filename or "document.pdf"`
abbrev pub file_name : Option String → String
file_name none = "document.pdf"
file_name (some f) = if str_eq f "" then "document.pdf" else f

abbrev pub new_task : String → Option String → Text → ℕ → IngestionTask
new_task task_id filename owner now = record {
  task_id = task_id;
  document_id = none;
  filename = file_name filename;
  status = queued;
  created_at = now;
  updated_at = now;
  owner_key_hash = owner;
  error = none;
}

-- `self._queue.full()`
abbrev pub is_full : IngestionQueue → Bool
is_full q = not (q.max_queue_size == 0) && leb q.max_queue_size (length q.queue)

-- What `submit` raises: its own errors, or the QueueFull of `put_nowait`.
pub data Submitted : Type 0 where
  accepted : IngestionTask → Submitted
  refused : Exception → Submitted
  queue_full : Submitted

abbrev pub enqueue : IngestionQueue → IngestionTask → WorkItem → IngestionQueue × Submitted
enqueue q task item =
    let r = record q { tasks = put task.task_id task q.tasks } in
    if is_full r
    then (record r { tasks = remove task.task_id r.tasks }, queue_full)
    else (record r { queue = r.queue ++ some item ∷ [] }, accepted task)

unfoldable pub submit :
    IngestionQueue → String → Text → Option String → Text → ℕ → IngestionQueue × Submitted
unfolding validate_owner_key_hash
submit q task_id content filename owner now =
    if not q.accepting || not (running q.worker)
    then (q, refused runtime_error)
    else elim (validate_owner_key_hash owner) [
      | raised e ↦ (q, refused e)
      | ok h ↦
          enqueue q (new_task task_id filename h now) (record {
            task_id = task_id;
            content = content;
            filename = filename;
            owner_key_hash = h;
          })
    ]

unfoldable pub get_task : IngestionQueue → String → Text → Result (Option IngestionTask)
unfolding validate_owner_key_hash
get_task q task_id owner = elim (get task_id q.tasks) [
  | none ↦ ok none
  | some task ↦ elim (validate_owner_key_hash owner) [
    | raised e ↦ raised e
    | ok h ↦ ok (if text_eq task.owner_key_hash h then some task else none)
  ]
]

abbrev pub or_else : Option String → Option String → Option String
or_else none b = b
or_else (some a) b = some a

abbrev pub updated :
    IngestionTask → IngestionTaskStatus → Option String → Option IngestionError → ℕ → IngestionTask
updated task status document_id error now = record task {
  status = status;
  document_id = or_else document_id task.document_id;
  updated_at = now;
  error = error;
}

unfoldable pub update_task :
    String
    → IngestionTaskStatus
    → Option String
    → Option IngestionError
    → ℕ
    → Dict IngestionTask
    → Dict IngestionTask
update_task task_id status document_id error now tasks = elim (get task_id tasks) [
  | none ↦ tasks
  | some task ↦ put task_id (updated task status document_id error now) tasks
]

-- The worker takes the next item and begins with it, or ends.
abbrev pub take_item : IngestionQueue → List (Option WorkItem) → ℕ → IngestionQueue
take_item q [] now = q
take_item q (none ∷ rest) now = record q { queue = rest; worker = ended }
take_item q (some item ∷ rest) now = record q {
  queue = rest;
  worker = ingesting item;
  tasks = update_task item.task_id processing none none now q.tasks;
}

-- What an ingestion ends with; `cancels` is the cancellation of the worker.
pub data Ingestion : Type 0 where
  document : String → Ingestion
  raises : IngestionError → Ingestion
  cancels : Ingestion

abbrev pub finish_item : IngestionQueue → WorkItem → Ingestion → ℕ → IngestionQueue
finish_item q item (document id) now = record q {
  worker = waiting;
  tasks = update_task item.task_id completed (some id) none now q.tasks;
}
finish_item q item (raises e) now = record q {
  worker = waiting;
  tasks = update_task item.task_id failed none (some e) now q.tasks;
}
finish_item q item cancels now = record q { worker = ended }

-- One stretch of the worker: from one wait to the next. At the queue only a cancellation matters.
abbrev pub advance : Worker → IngestionQueue → Ingestion → ℕ → IngestionQueue
advance absent q x now = q
advance ended q x now = q
advance waiting q cancels now = record q { worker = ended }
advance waiting q (document _) now = take_item q q.queue now
advance waiting q (raises _) now = take_item q q.queue now
advance (ingesting item) q x now = finish_item q item x now

unfoldable pub work : IngestionQueue → Ingestion → ℕ → IngestionQueue
unfolding update_task
work q x now = advance q.worker q x now

unfoldable pub discard : List (Option WorkItem) → ℕ → Dict IngestionTask → Dict IngestionTask
unfolding update_task
discard [] now tasks = tasks
discard (none ∷ items) now tasks = discard items now tasks
discard (some item ∷ items) now tasks =
    discard items now (update_task item.task_id failed none (some stopped) now tasks)

abbrev pub unfinished : IngestionTaskStatus → Bool
unfinished queued = true
unfinished processing = true
unfinished completed = false
unfinished failed = false

unfoldable pub mark_unfinished : ℕ → Dict IngestionTask → Dict IngestionTask
mark_unfinished now [] = []
mark_unfinished now ((id, task) ∷ tasks) =
    (
      id,
      if unfinished task.status
          then record task { status = failed; updated_at = now; error = some stopped }
          else task,
    )
    ∷ mark_unfinished now tasks

-- `stop` up to its wait for the worker.
abbrev pub stop_worker : Worker → IngestionQueue → ℕ → IngestionQueue
stop_worker absent q now = record q { tasks = mark_unfinished now q.tasks }
stop_worker ended q now = record q {
  queue = [];
  tasks = discard q.queue now q.tasks;
  stopping = suc q.stopping;
}
stop_worker _ q now = record q {
  queue = none ∷ [];
  tasks = discard q.queue now q.tasks;
  stopping = suc q.stopping;
}

unfoldable pub stop : IngestionQueue → ℕ → IngestionQueue
unfolding discard mark_unfinished
stop q now = stop_worker q.worker (record q { accepting = false; stop_requested = true }) now

-- The `finally` of `stop`, behind its wait: the worker has ended. That a cancelled worker's
-- CancelledError is raised again behind it is left out; it changes no state.
unfoldable pub stopped_by : IngestionQueue → ℕ → IngestionQueue
unfolding mark_unfinished
stopped_by q now = if running q.worker || q.stopping == 0 then q else record q {
  worker = absent;
  tasks = mark_unfinished now q.tasks;
  stopping = q.stopping - 1;
}
