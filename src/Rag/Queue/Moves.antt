-- ===== src/Rag/Queue/Moves.antt =====
-- The life of a task of the ingestion queue (app/rag/queue.py).
use ai_platform_mini.Prelude.{
  ℕ, ◌≡◌, inl, inr, refl, sym, subst, ◌∙◌, String, Bool, true, false, Option, none, some, List, [],
  ◌∷◌, str_eq, eq_iff, eq_refl, arith, if◌then◌else◌, Bool-cases,
}
use ai_platform_mini.Prelude.Results.{ok}
use ai_platform_mini.Prelude.Dict.{Dict, get, put, get-put}
use ai_platform_mini.Rag.Queue.{
  IngestionTaskStatus, queued, processing, completed, failed, IngestionError, IngestionTask,
  WorkItem, Worker, absent, waiting, ended, ingesting, IngestionQueue, start, new_task, stopped,
  enqueue, Submitted, is_full, updated, update_task, take_item, advance, Ingestion, document,
  raises, cancels, work, discard, unfinished, mark_unfinished, stop_worker, stop,
}
use ai_platform_mini.Rag.Queue.Invariant.{
  Step, starts, submits, works, stops, stop_returns, Reachable, has_item, OnceEach, status, Inv,
  get-update_task, update_option,
}
use ai_platform_mini.Rag.Queue.Accepting.{submit-cases, put_and_removed, work_item}
use ai_platform_mini.Rag.Queue.Stopping.{stopped_by-cases}
use ai_platform_mini.Rag.Queue.Kept.{Reachable-Inv}

abbrev pub may_follow : IngestionTaskStatus → IngestionTaskStatus → Bool
may_follow queued completed = false
may_follow queued _ = true
may_follow processing queued = false
may_follow processing _ = true
may_follow completed completed = true
may_follow completed _ = false
may_follow failed failed = true
may_follow failed _ = false

-- What may become of a task: it keeps its identity, and once it is finished it stays as it is.
pub record Moves (t t' : IngestionTask) : Type 0 where
  pub same_id : t'.task_id ≡ t.task_id
  pub same_filename : t'.filename ≡ t.filename
  pub same_owner : t'.owner_key_hash ≡ t.owner_key_hash
  pub same_creation : t'.created_at ≡ t.created_at
  pub follows : may_follow t.status t'.status ≡ true
  pub final : unfinished t.status ≡ false → t' ≡ t

abbrev pub Keeps : Dict IngestionTask → Dict IngestionTask → Type 0
Keeps tasks tasks' =
    (id : String) (t : IngestionTask)
    → get id tasks ≡ some t
    → (t' : IngestionTask) × (get id tasks' ≡ some t') × Moves t t'

Moves-refl : (t : IngestionTask) → Moves t t
Moves-refl t = record {
  same_id = refl;
  same_filename = refl;
  same_owner = refl;
  same_creation = refl;
  follows = stays t.status;
  final = λ h. refl;
}
  where
    stays : (s : IngestionTaskStatus) → may_follow s s ≡ true
    stays queued = refl
    stays processing = refl
    stays completed = refl
    stays failed = refl

Keeps-refl : (tasks : Dict IngestionTask) → Keeps tasks tasks
Keeps-refl tasks id t h = (t, h, Moves-refl t)

updated-Moves :
    (t : IngestionTask) (st : IngestionTaskStatus) (doc : Option String) (e : Option IngestionError)
    (now : ℕ)
    → may_follow t.status st ≡ true
    → unfinished t.status ≡ true
    → Moves t (updated t st doc e now)
updated-Moves t st doc e now f u = record {
  same_id = refl;
  same_filename = refl;
  same_owner = refl;
  same_creation = refl;
  follows = f;
  final = λ h. cc;
}

-- An update of a task that is not finished.
update-Keeps :
    (k : String) (st s : IngestionTaskStatus) (doc : Option String) (e : Option IngestionError)
    (now : ℕ) (tasks : Dict IngestionTask)
    → status (get k tasks) ≡ some s
    → may_follow s st ≡ true
    → unfinished s ≡ true
    → Keeps tasks (update_task k st doc e now tasks)
update-Keeps k st s doc e now tasks was f u id t h = elim (Bool-cases (str_eq k id)) [
  | inr n ↦ (t, ground (arith, h, n, get-update_task id k st doc e now tasks), Moves-refl t)
  | inl n ↦
      let same : t.status ≡ s = ground (arith, h, n, was, eq_iff k id) in
      (
        updated t st doc e now,
        ground (arith, h, n, get-update_task id k st doc e now tasks),
        updated-Moves t st doc e now (rw same f) (rw same u),
      )
]

get-discard :
    (id : String) (items : List (Option WorkItem)) (now : ℕ) (tasks : Dict IngestionTask)
    → OnceEach items
    → get id (discard items now tasks) ≡ (
        if has_item id items
        then update_option (get id tasks) failed none (some stopped) now
        else get id tasks)
unfolding discard
get-discard id [] now tasks o = refl
get-discard id (none ∷ items) now tasks o = get-discard id items now tasks o
get-discard id (some item ∷ items) now tasks o =
    let tasks' = update_task item.task_id failed none (some stopped) now tasks in
    get-discard id items now tasks' o.1
    ∙ ground (
      arith,
      o,
      eq_iff item.task_id id,
      get-update_task id item.task_id failed none (some stopped) now tasks,
    )

discard-Keeps : (q : IngestionQueue) (now : ℕ) → Inv q → Keeps q.tasks (discard q.queue now q.tasks)
discard-Keeps q now i id t h = elim (Bool-cases (has_item id q.queue)) [
  | inr n ↦ (t, ground (arith, h, n, get-discard id q.queue now q.tasks i.once), Moves-refl t)
  | inl n ↦
      let was : t.status ≡ queued = ground (arith, h, i.item_queued id n) in
      (
        updated t failed none (some stopped) now,
        ground (arith, h, n, get-discard id q.queue now q.tasks i.once),
        updated-Moves t failed none (some stopped) now (rw was refl) (rw was refl),
      )
]

abbrev ended_task : ℕ → IngestionTask → IngestionTask
ended_task now t =
    if unfinished t.status
    then record t { status = failed; updated_at = now; error = some stopped }
    else t

get-mark_unfinished :
    (id : String) (now : ℕ) (tasks : Dict IngestionTask) (t : IngestionTask)
    → get id tasks ≡ some t
    → get id (mark_unfinished now tasks) ≡ some (ended_task now t)
unfolding mark_unfinished get
get-mark_unfinished id now [] t h = cc
get-mark_unfinished id now ((k, x) ∷ tasks) t h = elim (Bool-cases (str_eq k id)) [
  | inl e ↦ let same : x ≡ t = ground (arith, h, e) in rw (e, same) refl
  | inr e ↦ ground (arith, e, get-mark_unfinished id now tasks t (ground (arith, h, e)))
]

ended_task-Moves : (now : ℕ) (t : IngestionTask) → Moves t (ended_task now t)
ended_task-Moves now t = by_status t.status refl
  where
    by_status : (s : IngestionTaskStatus) → t.status ≡ s → Moves t (ended_task now t)
    by_status queued e =
        simp e (updated-Moves t failed none (some stopped) now (rw e refl) (rw e refl))
    by_status processing e =
        simp e (updated-Moves t failed none (some stopped) now (rw e refl) (rw e refl))
    by_status completed e = simp e (Moves-refl t)
    by_status failed e = simp e (Moves-refl t)

mark-Keeps : (now : ℕ) (tasks : Dict IngestionTask) → Keeps tasks (mark_unfinished now tasks)
mark-Keeps now tasks id t h =
    (ended_task now t, get-mark_unfinished id now tasks t h, ended_task-Moves now t)

put-Keeps :
    (k : String) (t : IngestionTask) (tasks : Dict IngestionTask)
    → get k tasks ≡ none
    → Keeps tasks (put k t tasks)
put-Keeps k t tasks n id u h =
    (u, ground (arith, h, n, get-put k id t tasks, eq_iff k id), Moves-refl u)

-- A dict in which every task is found as before.
same-Keeps :
    (tasks tasks' : Dict IngestionTask)
    → ((id : String) → get id tasks' ≡ get id tasks)
    → Keeps tasks tasks'
same-Keeps tasks tasks' e id t h = (t, e id ∙ h, Moves-refl t)

enqueue-Keeps :
    (q : IngestionQueue) (task : IngestionTask) (item : WorkItem)
    → get task.task_id q.tasks ≡ none
    → Keeps q.tasks ((enqueue q task item).0).tasks
enqueue-Keeps q task item n =
    elim (Bool-cases (is_full (record q { tasks = put task.task_id task q.tasks }))) [
      | inl full ↦
          rw full (same-Keeps q.tasks _ (λ id. put_and_removed task.task_id id task q.tasks n))
      | inr room ↦ rw room (put-Keeps task.task_id task q.tasks n)
    ]

take-Keeps :
    (q : IngestionQueue) (items : List (Option WorkItem)) (now : ℕ)
    → Inv q
    → q.queue ≡ items
    → Keeps q.tasks (take_item q items now).tasks
take-Keeps q [] now i e = Keeps-refl q.tasks
take-Keeps q (none ∷ rest) now i e = Keeps-refl q.tasks
take-Keeps q (some item ∷ rest) now i e =
    update-Keeps item.task_id processing queued none none now q.tasks
      (i.item_queued item.task_id (ground (arith, e, eq_refl item.task_id))) refl refl

advance-Keeps :
    (q : IngestionQueue) (worker : Worker) (x : Ingestion) (now : ℕ)
    → Inv q
    → q.worker ≡ worker
    → Keeps q.tasks (advance worker q x now).tasks
advance-Keeps q absent x now i w = Keeps-refl q.tasks
advance-Keeps q ended x now i w = Keeps-refl q.tasks
advance-Keeps q waiting cancels now i w = Keeps-refl q.tasks
advance-Keeps q waiting (document d) now i w = take-Keeps q q.queue now i refl
advance-Keeps q waiting (raises e) now i w = take-Keeps q q.queue now i refl
advance-Keeps q (ingesting item) cancels now i w = Keeps-refl q.tasks
advance-Keeps q (ingesting item) (document d) now i w =
    update-Keeps item.task_id completed processing (some d) none now q.tasks (i.busy item w) refl
      refl
advance-Keeps q (ingesting item) (raises e) now i w =
    update-Keeps item.task_id failed processing none (some e) now q.tasks (i.busy item w) refl refl

stop-Keeps : (q : IngestionQueue) (now : ℕ) → Inv q → Keeps q.tasks (stop q now).tasks
unfolding stop
stop-Keeps q now i = by_worker q.worker
  where
    by_worker :
        (w : Worker)
        → Keeps q.tasks
            (stop_worker w (record q { accepting = false; stop_requested = true }) now).tasks
    by_worker absent = mark-Keeps now q.tasks
    by_worker ended = discard-Keeps q now i
    by_worker waiting = discard-Keeps q now i
    by_worker (ingesting item) = discard-Keeps q now i

start-tasks : (q q' : IngestionQueue) → start q ≡ ok q' → q'.tasks ≡ q.tasks
unfolding start
start-tasks q q' h = ground (arith, h)

Step-Keeps : {q q' : IngestionQueue} → Step q q' → Inv q → Keeps q.tasks q'.tasks
unfolding work
Step-Keeps {q} {q'} (starts h) i =
    subst (Keeps q.tasks) (sym (start-tasks q q' h)) (Keeps-refl q.tasks)
Step-Keeps {q} (submits task_id content filename owner now n) i =
    elim (submit-cases q task_id content filename owner now) [
      | inl e ↦ subst (λ (x : IngestionQueue). Keeps q.tasks x.tasks) (sym e) (Keeps-refl q.tasks)
      | inr (h, a, r, e) ↦
          subst (λ (x : IngestionQueue × Submitted). Keeps q.tasks (x.0).tasks) (sym e)
            (enqueue-Keeps q (new_task task_id filename h now)
              (work_item task_id content filename h) n)
    ]
Step-Keeps {q} (works x now) i = advance-Keeps q q.worker x now i refl
Step-Keeps {q} (stops now) i = stop-Keeps q now i
Step-Keeps {q} (stop_returns now) i = elim (stopped_by-cases q now) [
  | inl e ↦ subst (λ (x : IngestionQueue). Keeps q.tasks x.tasks) (sym e) (Keeps-refl q.tasks)
  | inr (r, w, e) ↦
      subst (λ (x : IngestionQueue). Keeps q.tasks x.tasks) (sym e) (mark-Keeps now q.tasks)
]

-- Whatever the methods do and in whatever order: a task that is there stays there with its id, file
-- name, owner and time of creation; its status goes from QUEUED to PROCESSING or FAILED and from
-- PROCESSING to COMPLETED or FAILED, and no other way; and a finished task never changes again.
pub tasks_move_on :
    {q q' : IngestionQueue}
    → Reachable q
    → Step q q'
    → (id : String) (t : IngestionTask) → get id q.tasks ≡ some t
    → (t' : IngestionTask) × (get id q'.tasks ≡ some t') × Moves t t'
tasks_move_on r s = Step-Keeps s (Reachable-Inv r)
