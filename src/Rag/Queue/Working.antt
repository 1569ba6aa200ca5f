-- ===== src/Rag/Queue/Working.antt =====
-- The stretches of the worker keep the invariant of the ingestion queue (app/rag/queue.py).
use ai_platform_mini.Prelude.{
  ℕ, ◌≡◌, inl, inr, refl, subst, ◌≢◌, String, Option, none, some, List, [], ◌∷◌, str_eq, eq_iff,
  eq_refl, arith, Bool-cases,
}
use ai_platform_mini.Prelude.Dict.{Dict, get}
use ai_platform_mini.Rag.Queue.{
  IngestionTaskStatus, queued, processing, completed, failed, IngestionTask, WorkItem, Worker,
  absent, waiting, ended, ingesting, IngestionQueue, take_item, advance, Ingestion, document,
  raises, cancels,
}
use ai_platform_mini.Rag.Queue.Invariant.{OnceEach, status, Inv, changed, status-update_task}

take-Inv :
    (q : IngestionQueue) (items : List (Option WorkItem)) (now : ℕ)
    → Inv q
    → q.queue ≡ items
    → q.worker ≡ waiting
    → Inv (take_item q items now)
take-Inv q [] now i e w = i
take-Inv q (none ∷ rest) now i e w = record {
  item_queued = λ id h. ground (arith, i.item_queued id, e, h);
  queued_item = λ id h. ground (arith, i.queued_item id, e, h);
  once = subst OnceEach e i.once;
  busy = λ item h. cc;
  bounded = λ h. ground (arith, i.bounded h, e);
  accepts = i.accepts;
  emptied = λ id h. ground (arith, i.emptied id h, e);
  unstarted = λ id h. cc;
  waited = i.waited;
}
take-Inv q (some item ∷ rest) now i e w =
    let once : OnceEach (some item ∷ rest) = subst OnceEach e i.once in
    let move =
      λ (id : String). status-update_task id item.task_id processing none none now q.tasks in
    let in_queue : status (get item.task_id q.tasks) ≡ some queued =
      i.item_queued item.task_id (ground (arith, e, eq_refl item.task_id)) in
    record {
      item_queued =
          λ id h. ground (arith, i.item_queued id, e, h, once, move id, eq_iff item.task_id id);
      queued_item =
          λ id h. ground (arith, i.queued_item id, e, h, once, move id, eq_iff item.task_id id);
      once = once.1;
      busy = λ x h. ground (arith, h, in_queue, move item.task_id, eq_refl item.task_id);
      bounded = λ h. ground (arith, i.bounded h, e);
      accepts = i.accepts;
      emptied = λ id h. ground (arith, i.emptied id h, e);
      unstarted = λ id h. cc;
      waited = i.waited;
    }

-- A task that is not queued takes another status, and the worker another place.
leave-Inv :
    (q : IngestionQueue) (item : WorkItem) (worker : Worker) (tasks : Dict IngestionTask)
    (st : IngestionTaskStatus)
    → Inv q
    → q.worker ≡ ingesting item
    → ((id : String)
        → status (get id tasks) ≡ changed (str_eq item.task_id id) (status (get id q.tasks)) st)
    → st ≢ queued
    → worker ≢ absent
    → ((x : WorkItem) → worker ≢ ingesting x)
    → Inv (record q { worker = worker; tasks = tasks })
leave-Inv q item worker tasks st i w moved not_queued started idle = record {
  item_queued =
      λ id h. ground (arith, i.item_queued id h, i.busy item w, moved id, eq_iff item.task_id id);
  queued_item = λ id h. elim (Bool-cases (str_eq item.task_id id)) [
    | inr e ↦ i.queued_item id (ground (arith, h, e, moved id))
    | inl e ↦
        absurd (not_queued (ground (arith, h, e, moved id, i.busy item w, eq_iff item.task_id id)))
  ];
  once = i.once;
  busy = λ x h. absurd (idle x h);
  bounded = i.bounded;
  accepts = i.accepts;
  emptied = i.emptied;
  unstarted = λ id h. absurd (started h);
  waited = i.waited;
}

ended-Inv : (q : IngestionQueue) → Inv q → Inv (record q { worker = ended })
ended-Inv q i = record {
  item_queued = i.item_queued;
  queued_item = i.queued_item;
  once = i.once;
  busy = λ item h. cc;
  bounded = i.bounded;
  accepts = i.accepts;
  emptied = i.emptied;
  unstarted = λ id h. cc;
  waited = i.waited;
}

pub advance-Inv :
    (q : IngestionQueue) (worker : Worker) (x : Ingestion) (now : ℕ)
    → Inv q
    → q.worker ≡ worker
    → Inv (advance worker q x now)
advance-Inv q absent x now i w = i
advance-Inv q ended x now i w = i
advance-Inv q waiting cancels now i w = ended-Inv q i
advance-Inv q waiting (document d) now i w = take-Inv q q.queue now i refl w
advance-Inv q waiting (raises e) now i w = take-Inv q q.queue now i refl w
advance-Inv q (ingesting item) cancels now i w = ended-Inv q i
advance-Inv q (ingesting item) (document d) now i w =
    leave-Inv q item waiting _ completed i w
      (λ id. status-update_task id item.task_id completed (some d) none now q.tasks) (λ e. cc)
      (λ e. cc) (λ x e. cc)
advance-Inv q (ingesting item) (raises e) now i w =
    leave-Inv q item waiting _ failed i w
      (λ id. status-update_task id item.task_id failed none (some e) now q.tasks) (λ e. cc)
      (λ e. cc) (λ x e. cc)
