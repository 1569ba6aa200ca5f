-- ===== src/Rag/Queue/Invariant.antt =====
-- What holds of the ingestion queue (app/rag/queue.py) between two stretches of its methods.
use ai_platform_mini.Prelude.{
  ℕ, ◌≤◌, ◌<◌, ◌≡◌, inl, inr, refl, String, Bool, true, false, ◌||◌, Option, none, some, List, [],
  ◌∷◌, ◌++◌, Text, length, str_eq, eq_iff, arith, if◌then◌else◌, Bool-cases, Option-cases,
}
use ai_platform_mini.Prelude.Results.{ok}
use ai_platform_mini.Prelude.Dict.{Dict, get, get-put}
use ai_platform_mini.Rag.Queue.{
  IngestionTaskStatus, queued, processing, failed, IngestionError, IngestionTask, WorkItem, absent,
  ingesting, IngestionQueue, new, start, submit, update_task, Ingestion, work, discard, stopped,
  updated, unfinished, mark_unfinished, stop, stopped_by,
}

-- One stretch of a method. The ids of uuid4 are new.
pub data Step (q : IngestionQueue) : IngestionQueue → Type 0 where
  starts : {q' : IngestionQueue} → start q ≡ ok q' → Step q q'
  submits :
      (task_id : String) (content : Text) (filename : Option String) (owner : Text) (now : ℕ)
      → get task_id q.tasks ≡ none
      → Step q (submit q task_id content filename owner now).0
  works : (x : Ingestion) (now : ℕ) → Step q (work q x now)
  stops : (now : ℕ) → Step q (stop q now)
  stop_returns : (now : ℕ) → Step q (stopped_by q now)

pub data Reachable : IngestionQueue → Type 0 where
  begins : (max_queue_size : ℕ) → Reachable (new max_queue_size)
  follows : {q q' : IngestionQueue} → Reachable q → Step q q' → Reachable q'

abbrev pub has_item : String → List (Option WorkItem) → Bool
has_item id [] = false
has_item id (none ∷ items) = has_item id items
has_item id (some item ∷ items) = str_eq item.task_id id || has_item id items

abbrev pub OnceEach : List (Option WorkItem) → Type 0
OnceEach [] = Unit
OnceEach (none ∷ items) = OnceEach items
OnceEach (some item ∷ items) = (has_item item.task_id items ≡ false) × OnceEach items

-- `tasks[id].status`
abbrev pub status : Option IngestionTask → Option IngestionTaskStatus
status none = none
status (some t) = some t.status

pub record Inv (q : IngestionQueue) : Type 0 where
  pub item_queued :
      (id : String) → has_item id q.queue ≡ true → status (get id q.tasks) ≡ some queued
  pub queued_item :
      (id : String) → status (get id q.tasks) ≡ some queued → has_item id q.queue ≡ true
  pub once : OnceEach q.queue
  pub busy :
      (item : WorkItem)
      → q.worker ≡ ingesting item
      → status (get item.task_id q.tasks) ≡ some processing
  pub bounded : 0 < q.max_queue_size → length q.queue ≤ q.max_queue_size
  pub accepts : q.accepting ≡ true → q.stop_requested ≡ false
  pub emptied : (id : String) → q.stop_requested ≡ true → has_item id q.queue ≡ false
  pub unstarted : (id : String) → q.worker ≡ absent → has_item id q.queue ≡ false
  pub waited : 0 < q.stopping → q.stop_requested ≡ true

pub has_item-snoc :
    (id : String) (items : List (Option WorkItem)) (item : WorkItem)
    → has_item id (items ++ some item ∷ []) ≡ has_item id items || str_eq item.task_id id
has_item-snoc id [] item = ground arith
has_item-snoc id (none ∷ items) item = has_item-snoc id items item
has_item-snoc id (some x ∷ items) item = ground (arith, has_item-snoc id items item)

pub OnceEach-snoc :
    (items : List (Option WorkItem)) (item : WorkItem)
    → OnceEach items
    → has_item item.task_id items ≡ false
    → OnceEach (items ++ some item ∷ [])
OnceEach-snoc [] item o h = (refl, tt)
OnceEach-snoc (none ∷ items) item o h = OnceEach-snoc items item o h
OnceEach-snoc (some x ∷ items) item o h = (
  ground (
    arith,
    o,
    h,
    has_item-snoc x.task_id items item,
    eq_iff x.task_id item.task_id,
    eq_iff item.task_id x.task_id,
  ),
  OnceEach-snoc items item o.1 (ground (arith, h)),
)

abbrev pub update_option :
    Option IngestionTask
    → IngestionTaskStatus
    → Option String
    → Option IngestionError
    → ℕ
    → Option IngestionTask
update_option none st doc e now = none
update_option (some t) st doc e now = some (updated t st doc e now)

pub get-update_task :
    (id k : String) (st : IngestionTaskStatus) (doc : Option String) (e : Option IngestionError)
    (now : ℕ) (tasks : Dict IngestionTask)
    → get id (update_task k st doc e now tasks)
      ≡ (if str_eq k id then update_option (get id tasks) st doc e now else get id tasks)
unfolding update_task
get-update_task id k st doc e now tasks = elim (Option-cases (get k tasks)) [
  | inl n ↦ ground (arith, n, eq_iff k id)
  | inr (t, n) ↦ ground (arith, n, eq_iff k id, get-put k id (updated t st doc e now) tasks)
]

abbrev pub changed :
    Bool → Option IngestionTaskStatus → IngestionTaskStatus → Option IngestionTaskStatus
changed true (some _) st = some st
changed true none st = none
changed false o st = o

pub status-update_task :
    (id k : String) (st : IngestionTaskStatus) (doc : Option String) (e : Option IngestionError)
    (now : ℕ) (tasks : Dict IngestionTask)
    → status (get id (update_task k st doc e now tasks))
      ≡ changed (str_eq k id) (status (get id tasks)) st
status-update_task id k st doc e now tasks = ground (arith, get-update_task id k st doc e now tasks)

pub status-discard :
    (id : String) (items : List (Option WorkItem)) (now : ℕ) (tasks : Dict IngestionTask)
    → status (get id (discard items now tasks))
      ≡ changed (has_item id items) (status (get id tasks)) failed
unfolding discard
status-discard id [] now tasks = refl
status-discard id (none ∷ items) now tasks = status-discard id items now tasks
status-discard id (some item ∷ items) now tasks = ground (
  arith,
  status-discard id items now (update_task item.task_id failed none (some stopped) now tasks),
  status-update_task id item.task_id failed none (some stopped) now tasks,
)

abbrev pub end_status : Option IngestionTaskStatus → Option IngestionTaskStatus
end_status none = none
end_status (some s) = some (if unfinished s then failed else s)

pub status-mark_unfinished :
    (id : String) (now : ℕ) (tasks : Dict IngestionTask)
    → status (get id (mark_unfinished now tasks)) ≡ end_status (status (get id tasks))
unfolding mark_unfinished get
status-mark_unfinished id now [] = refl
status-mark_unfinished id now ((k, t) ∷ tasks) = elim (Bool-cases (str_eq k id)) [
  | inl e ↦ ground (arith, e)
  | inr e ↦ ground (arith, e, status-mark_unfinished id now tasks)
]
