-- ===== src/Rag/Queue/Stopping.antt =====
-- The stretches of `stop` keep the invariant of the ingestion queue (app/rag/queue.py).
use ai_platform_mini.Prelude.{
  ℕ, suc, ◌-◌, ◌≤◌, ◌<◌, ◌≡◌, ◌⊎◌, inl, inr, refl, sym, subst, ◌∙◌, ◌≢◌, String, Bool, true, false,
  Option, none, some, List, [], ◌∷◌, length, arith, ◌==◌, Bool-cases,
}
use ai_platform_mini.Prelude.Dict.{get}
use ai_platform_mini.Rag.Queue.{
  IngestionTaskStatus, queued, processing, completed, failed, WorkItem, Worker, absent, waiting,
  ended, ingesting, IngestionQueue, running, discard, mark_unfinished, stop_worker, stop,
  stopped_by,
}
use ai_platform_mini.Rag.Queue.Invariant.{
  has_item, OnceEach, status, Inv, status-discard, end_status, status-mark_unfinished,
}

-- `stop` fails what is queued: nothing is queued behind it.
emptied-Inv :
    (q : IngestionQueue) (items : List (Option WorkItem)) (now stopping : ℕ)
    → Inv q
    → q.worker ≢ absent
    → length items ≤ 1
    → ((id : String) → has_item id items ≡ false)
    → OnceEach items
    → Inv (record q {
      accepting = false;
      stop_requested = true;
      queue = items;
      tasks = discard q.queue now q.tasks;
      stopping = stopping;
    })
emptied-Inv q items now stopping i started few no_item once = record {
  item_queued = λ id h. ground (arith, h, no_item id);
  queued_item = λ id h. ground (arith, h, i.queued_item id, status-discard id q.queue now q.tasks);
  once = once;
  busy = λ item h. ground (
    arith,
    i.busy item h,
    i.item_queued item.task_id,
    status-discard item.task_id q.queue now q.tasks,
  );
  bounded = λ h. omega arith;
  accepts = λ h. cc;
  emptied = λ id h. no_item id;
  unstarted = λ id h. absurd (started h);
  waited = λ h. refl;
}

-- What is unfinished is marked as failed where no item is left.
marked-Inv :
    (q : IngestionQueue) (now stopping : ℕ) (accepting stop_requested : Bool) (worker : Worker)
    → Inv q
    → ((id : String) → has_item id q.queue ≡ false)
    → accepting ≡ false
    → stop_requested ≡ true
    → worker ≡ absent
    → Inv (record q {
      accepting = accepting;
      stop_requested = stop_requested;
      worker = worker;
      stopping = stopping;
      tasks = mark_unfinished now q.tasks;
    })
marked-Inv q now stopping accepting stop_requested worker i no_item a s w = record {
  item_queued = λ id h. ground (arith, h, no_item id);
  queued_item = λ id h.
      absurd
        (never_queued (status (get id q.tasks)) (sym (status-mark_unfinished id now q.tasks) ∙ h));
  once = i.once;
  busy = λ item h. cc;
  bounded = i.bounded;
  accepts = λ h. cc;
  emptied = λ id h. no_item id;
  unstarted = λ id h. no_item id;
  waited = λ h. s;
}
  where
    never_queued : (o : Option IngestionTaskStatus) → end_status o ≢ some queued
    never_queued none h = cc
    never_queued (some queued) h = cc
    never_queued (some processing) h = cc
    never_queued (some completed) h = cc
    never_queued (some failed) h = cc

pub stop-Inv : (q : IngestionQueue) (now : ℕ) → Inv q → Inv (stop q now)
unfolding stop
stop-Inv q now i = by_worker q.worker refl
  where
    by_worker :
        (w : Worker)
        → q.worker ≡ w
        → Inv (stop_worker w (record q { accepting = false; stop_requested = true }) now)
    by_worker absent e =
        marked-Inv q now q.stopping false true q.worker i (λ id. i.unstarted id e) refl refl e
    by_worker ended e =
        emptied-Inv q [] now (suc q.stopping) i (λ f. cc (e, f)) (omega arith) (λ id. refl) tt
    by_worker waiting e =
        emptied-Inv q (none ∷ []) now (suc q.stopping) i (λ f. cc (e, f)) (omega arith) (λ id. refl)
          tt
    by_worker (ingesting item) e =
        emptied-Inv q (none ∷ []) now (suc q.stopping) i (λ f. cc (e, f)) (omega arith) (λ id. refl)
          tt

-- A wait of `stop` that is over, and any other time, at which nothing happens.
pub stopped_by-cases :
    (q : IngestionQueue) (now : ℕ)
    → (stopped_by q now ≡ q)
      ⊎ ((running q.worker ≡ false)
          × (0 < q.stopping)
          × (stopped_by q now ≡ record q {
            worker = absent;
            tasks = mark_unfinished now q.tasks;
            stopping = q.stopping - 1;
          }))
unfolding stopped_by
stopped_by-cases q now = elim (Bool-cases (running q.worker)) [
  | inl r ↦ inl (simp r)
  | inr r ↦ elim (Bool-cases (q.stopping == 0)) [
    | inl z ↦ inl (simp (r, z))
    | inr z ↦ inr (r, ground (arith, z), simp (r, z))
  ]
]

pub stopped_by-Inv : (q : IngestionQueue) (now : ℕ) → Inv q → Inv (stopped_by q now)
stopped_by-Inv q now i = elim (stopped_by-cases q now) [
  | inl e ↦ subst Inv (sym e) i
  | inr (r, w, e) ↦
      let s = i.waited w in
      subst Inv (sym e) (
        marked-Inv q now (q.stopping - 1) q.accepting q.stop_requested absent i
          (λ id. i.emptied id s) (ground (arith, s, i.accepts)) s refl)
]
