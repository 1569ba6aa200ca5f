-- ===== src/Rag/Queue/Accepting.antt =====
-- Starts and submissions keep the invariant of the ingestion queue (app/rag/queue.py).
use ai_platform_mini.Prelude.{
  ℕ, ◌≡◌, ◌⊎◌, inl, inr, refl, sym, subst, String, true, false, Option, none, some, [], ◌∷◌, ◌++◌,
  Text, length-append, eq_iff, arith, Bool-cases,
}
use ai_platform_mini.Prelude.Results.{ok, Result-cases}
use ai_platform_mini.Prelude.Dict.{Dict, get, put, remove, get-put, get-remove}
use ai_platform_mini.Rag.Queue.{
  queued, IngestionTask, WorkItem, waiting, IngestionQueue, new, running, start,
  validate_owner_key_hash, new_task, enqueue, Submitted, is_full, submit,
}
use ai_platform_mini.Rag.Queue.Invariant.{has_item, Inv, has_item-snoc, OnceEach-snoc}

pub new-Inv : (n : ℕ) → Inv (new n)
unfolding new get
new-Inv n = record {
  item_queued = λ id h. cc;
  queued_item = λ id h. cc;
  once = tt;
  busy = λ item h. cc;
  bounded = λ h. omega arith;
  accepts = λ h. cc;
  emptied = λ id h. refl;
  unstarted = λ id h. refl;
  waited = λ h. absurd (omega arith);
}

pub start-Inv : (q q' : IngestionQueue) → Inv q → start q ≡ ok q' → Inv q'
unfolding start
start-Inv q q' i h = elim (Bool-cases (running q.worker)) [
  | inl r ↦ subst Inv (ground (arith, h, r)) i
  | inr r ↦ elim (Bool-cases q.stop_requested) [
    | inl s ↦ ground (arith, h, r, s)
    | inr s ↦
        subst Inv {x = record q { accepting = true; worker = waiting }} (ground (arith, h, r, s))
          (record {
            item_queued = i.item_queued;
            queued_item = i.queued_item;
            once = i.once;
            busy = λ item e. cc;
            bounded = i.bounded;
            accepts = λ e. s;
            emptied = i.emptied;
            unstarted = λ id e. cc;
            waited = i.waited;
          })
  ]
]

-- The invariant looks at the tasks through `get` only.
same_tasks :
    (q : IngestionQueue) (tasks : Dict IngestionTask)
    → ((id : String) → get id tasks ≡ get id q.tasks)
    → Inv q
    → Inv (record q { tasks = tasks })
same_tasks q tasks e i = record {
  item_queued = λ id h. rw (e id) (i.item_queued id h);
  queued_item = λ id h. i.queued_item id (rw (e id) at h);
  once = i.once;
  busy = λ item h. rw (e item.task_id) (i.busy item h);
  bounded = i.bounded;
  accepts = i.accepts;
  emptied = i.emptied;
  unstarted = i.unstarted;
  waited = i.waited;
}

pub put_and_removed :
    (k id : String) (t : IngestionTask) (tasks : Dict IngestionTask)
    → get k tasks ≡ none
    → get id (remove k (put k t tasks)) ≡ get id tasks
put_and_removed k id t tasks n =
    ground (arith, n, get-remove k id (put k t tasks), get-put k id t tasks, eq_iff k id)

room-Inv :
    (q : IngestionQueue) (task : IngestionTask) (item : WorkItem)
    → Inv q
    → q.accepting ≡ true
    → running q.worker ≡ true
    → get task.task_id q.tasks ≡ none
    → item.task_id ≡ task.task_id
    → task.status ≡ queued
    → is_full (record q { tasks = put task.task_id task q.tasks }) ≡ false
    → Inv (record q { tasks = put task.task_id task q.tasks; queue = q.queue ++ some item ∷ [] })
room-Inv q task item i a r n same st room =
    let new_item : has_item item.task_id q.queue ≡ false =
      ground (arith, i.item_queued item.task_id, n, same) in
    record {
      item_queued = λ id h. ground (
        arith,
        h,
        i.item_queued id,
        has_item-snoc id q.queue item,
        st,
        same,
        get-put task.task_id id task q.tasks,
      );
      queued_item = λ id h. ground (
        arith,
        h,
        i.queued_item id,
        has_item-snoc id q.queue item,
        st,
        same,
        get-put task.task_id id task q.tasks,
      );
      once = OnceEach-snoc q.queue item i.once new_item;
      busy = λ x h. ground (
        arith,
        i.busy x h,
        n,
        get-put task.task_id x.task_id task q.tasks,
        eq_iff task.task_id x.task_id,
      );
      bounded = λ h. ground (arith, h, room, length-append q.queue (some item ∷ []));
      accepts = i.accepts;
      emptied = λ id h. ground (arith, h, a, i.accepts a);
      unstarted = λ id h. ground (arith, h, r);
      waited = i.waited;
    }

enqueue-Inv :
    (q : IngestionQueue) (task : IngestionTask) (item : WorkItem)
    → Inv q
    → q.accepting ≡ true
    → running q.worker ≡ true
    → get task.task_id q.tasks ≡ none
    → item.task_id ≡ task.task_id
    → task.status ≡ queued
    → Inv (enqueue q task item).0
enqueue-Inv q task item i a r n same st =
    elim (Bool-cases (is_full (record q { tasks = put task.task_id task q.tasks }))) [
      | inl full ↦ rw full (same_tasks q _ (λ id. put_and_removed task.task_id id task q.tasks n) i)
      | inr room ↦ rw room (room-Inv q task item i a r n same st room)
    ]

abbrev pub work_item : String → Text → Option String → Text → WorkItem
work_item id content filename owner = record {
  task_id = id;
  content = content;
  filename = filename;
  owner_key_hash = owner;
}

-- A submission that is refused at once changes nothing; any other comes to the queue.
pub submit-cases :
    (q : IngestionQueue) (task_id : String) (content : Text) (filename : Option String)
    (owner : Text) (now : ℕ)
    → ((submit q task_id content filename owner now).0 ≡ q)
      ⊎ ((h : Text) × (q.accepting ≡ true)
          × (running q.worker ≡ true)
          × (submit q task_id content filename owner now
              ≡ enqueue q (new_task task_id filename h now) (work_item task_id content filename h)))
unfolding submit
submit-cases q task_id content filename owner now = elim (Bool-cases q.accepting) [
  | inr a ↦ inl (simp a)
  | inl a ↦ elim (Bool-cases (running q.worker)) [
    | inr r ↦ inl (simp (a, r))
    | inl r ↦ elim (Result-cases (validate_owner_key_hash owner)) [
      | inr (x, e) ↦ inl (simp (a, r, e))
      | inl (h, e) ↦ inr (h, a, r, simp (a, r, e))
    ]
  ]
]

pub submit-Inv :
    (q : IngestionQueue) (task_id : String) (content : Text) (filename : Option String)
    (owner : Text) (now : ℕ)
    → Inv q
    → get task_id q.tasks ≡ none
    → Inv (submit q task_id content filename owner now).0
submit-Inv q task_id content filename owner now i n =
    elim (submit-cases q task_id content filename owner now) [
      | inl e ↦ subst Inv (sym e) i
      | inr (h, a, r, e) ↦
          subst (λ (x : IngestionQueue × Submitted). Inv x.0) (sym e)
            (enqueue-Inv q (new_task task_id filename h now) (work_item task_id content filename h)
              i a r n refl refl)
    ]
