-- ===== src/Rag/Queue/Stops.antt =====
-- The end of the ingestion queue (app/rag/queue.py): `stop` ends the worker, and for good.
use ai_platform_mini.Prelude.{
  ℕ, ◌-◌, ◌≤◌, ◌<◌, ◌≡◌, inl, inr, refl, sym, subst, ap, ◌≢◌, Bool, true, false, not, ◌&&◌, none,
  [], ◌∷◌, arith, ◌==◌, Bool-cases,
}
use ai_platform_mini.Prelude.Dict.{Dict}
use ai_platform_mini.Rag.Queue.{
  IngestionTask, Worker, absent, waiting, ended, ingesting, IngestionQueue, running, start,
  Ingestion, document, raises, cancels, work, WorkItem, advance, unfinished, mark_unfinished,
  stop_worker, stop, stopped_by,
}
use ai_platform_mini.Rag.Queue.Invariant.{Step, starts, submits, works, stops, stop_returns}
use ai_platform_mini.Rag.Queue.Accepting.{submit-cases}
use ai_platform_mini.Rag.Queue.Stopping.{stopped_by-cases}

abbrev pub all_finished : Dict IngestionTask → Bool
all_finished [] = true
all_finished ((id, t) ∷ tasks) = not (unfinished t.status) && all_finished tasks

-- The queue behind its end: no worker, nothing accepted, and every task finished.
pub record Closed (q : IngestionQueue) : Type 0 where
  pub requested : q.stop_requested ≡ true
  pub refuses : q.accepting ≡ false
  pub gone : q.worker ≡ absent
  pub finished : all_finished q.tasks ≡ true

all_finished-mark_unfinished :
    (now : ℕ) (tasks : Dict IngestionTask) → all_finished (mark_unfinished now tasks) ≡ true
unfolding mark_unfinished
all_finished-mark_unfinished now [] = refl
all_finished-mark_unfinished now ((id, t) ∷ tasks) = elim (Bool-cases (unfinished t.status)) [
  | inl e ↦ rw e (all_finished-mark_unfinished now tasks)
  | inr e ↦ ground (arith, e, all_finished-mark_unfinished now tasks)
]

mark_finished :
    (now : ℕ) (tasks : Dict IngestionTask)
    → all_finished tasks ≡ true
    → mark_unfinished now tasks ≡ tasks
unfolding mark_unfinished
mark_finished now [] h = refl
mark_finished now ((id, t) ∷ tasks) h =
    let e : unfinished t.status ≡ false = ground (arith, h) in
    let rest = mark_finished now tasks (ground (arith, h)) in simp (e, rest)

unchanged : (q q' : IngestionQueue) → Closed q → q' ≡ q → (q'.tasks ≡ q.tasks) × Closed q'
unchanged q q' c e = (ap (λ (x : IngestionQueue). x.tasks) e, subst Closed (sym e) c)

marked :
    (q : IngestionQueue) (now : ℕ) (stopping : ℕ) (accepting requested : Bool)
    → Closed q
    → accepting ≡ false
    → requested ≡ true
    → let q' = record q {
      tasks = mark_unfinished now q.tasks;
      worker = absent;
      stopping = stopping;
      accepting = accepting;
      stop_requested = requested;
    } in
      (q'.tasks ≡ q.tasks) × Closed q'
marked q now stopping accepting requested c a r = (
  mark_finished now q.tasks c.finished,
  record {
    requested = r;
    refuses = a;
    gone = refl;
    finished = all_finished-mark_unfinished now q.tasks;
  },
)

-- Behind its end the queue does nothing any more: it is not started again, it accepts no task, and
-- no method changes a task.
pub Step-Closed : {q q' : IngestionQueue} → Closed q → Step q q' → (q'.tasks ≡ q.tasks) × Closed q'
unfolding start work stop
Step-Closed {q} c (starts h) = cc (c.requested, c.gone, h)
Step-Closed {q} c (submits id content filename owner now n) =
    elim (submit-cases q id content filename owner now) [
      | inl e ↦ unchanged q _ c e
      | inr (h, a, r, e) ↦ cc (c.refuses, a)
    ]
Step-Closed {q} c (works x now) = unchanged q _ c (ap (λ (w : Worker). advance w q x now) c.gone)
Step-Closed {q} c (stops now) =
    subst
      (λ w.
        let q' = stop_worker w (record q { accepting = false; stop_requested = true }) now in
        (q'.tasks ≡ q.tasks) × Closed q')
      (sym c.gone)
      (
        mark_finished now q.tasks c.finished,
        record {
          requested = refl;
          refuses = refl;
          gone = c.gone;
          finished = all_finished-mark_unfinished now q.tasks;
        },
      )
Step-Closed {q} c (stop_returns now) = elim (stopped_by-cases q now) [
  | inl e ↦ unchanged q _ c e
  | inr (r, w, e) ↦
      subst (λ (q' : IngestionQueue). (q'.tasks ≡ q.tasks) × Closed q') (sym e)
        (marked q now (q.stopping - 1) q.accepting q.stop_requested c c.refuses c.requested)
]

-- How many stretches of the worker are left behind `stop`.
data Left (q : IngestionQueue) : ℕ → Type 0 where
  over : q.worker ≡ ended → Left q 0
  last : q.worker ≡ waiting → q.queue ≡ none ∷ [] → Left q 1
  busy : (item : WorkItem) → q.worker ≡ ingesting item → q.queue ≡ none ∷ [] → Left q 2

record Ending (q : IngestionQueue) (n : ℕ) : Type 0 where
  left : Left q n
  requested : q.stop_requested ≡ true
  refuses : q.accepting ≡ false
  waited : 0 < q.stopping

work-Ending :
    (q : IngestionQueue) (n : ℕ) (x : Ingestion) (now : ℕ)
    → Ending q n
    → (m : ℕ) × (m ≤ n - 1) × Ending (work q x now) m
unfolding work
work-Ending q n x now e = by_left n e.left x
  where
    by_left :
        (n : ℕ)
        → Left q n
        → (x : Ingestion) → (m : ℕ) × (m ≤ n - 1) × Ending (advance q.worker q x now) m
    by_left n (over w) x = (
      0,
      omega arith,
      simp w (record {
        left = over w;
        requested = e.requested;
        refuses = e.refuses;
        waited = e.waited;
      }),
    )
    by_left n (last w i) cancels = (
      0,
      omega arith,
      simp w (record {
        left = over refl;
        requested = e.requested;
        refuses = e.refuses;
        waited = e.waited;
      }),
    )
    by_left n (last w i) (document d) = (
      0,
      omega arith,
      simp (w, i)
          (record {
            left = over refl;
            requested = e.requested;
            refuses = e.refuses;
            waited = e.waited;
          }),
    )
    by_left n (last w i) (raises r) = (
      0,
      omega arith,
      simp (w, i)
          (record {
            left = over refl;
            requested = e.requested;
            refuses = e.refuses;
            waited = e.waited;
          }),
    )
    by_left n (busy item w i) cancels = (
      0,
      omega arith,
      simp w (record {
        left = over refl;
        requested = e.requested;
        refuses = e.refuses;
        waited = e.waited;
      }),
    )
    by_left n (busy item w i) (document d) = (
      1,
      omega arith,
      simp w (record {
        left = last refl i;
        requested = e.requested;
        refuses = e.refuses;
        waited = e.waited;
      }),
    )
    by_left n (busy item w i) (raises r) = (
      1,
      omega arith,
      simp w (record {
        left = last refl i;
        requested = e.requested;
        refuses = e.refuses;
        waited = e.waited;
      }),
    )

-- What `stop` returns from.
returns_Closed :
    (q : IngestionQueue) (now : ℕ)
    → running q.worker ≡ false
    → 0 < q.stopping
    → q.stop_requested ≡ true
    → q.accepting ≡ false
    → Closed (stopped_by q now)
unfolding stopped_by
returns_Closed q now r s requested refuses = elim (Bool-cases (q.stopping == 0)) [
  | inl z ↦ absurd (ground (arith, z))
  | inr z ↦
      simp (r, z)
        (record {
          requested = requested;
          refuses = refuses;
          gone = refl;
          finished = all_finished-mark_unfinished now q.tasks;
        })
]

stop-Ending :
    (q : IngestionQueue) (now : ℕ) → q.worker ≢ absent → (m : ℕ) × (m ≤ 2) × Ending (stop q now) m
unfolding stop
stop-Ending q now h = by_worker q.worker refl
  where
    by_worker :
        (w : Worker)
        → q.worker ≡ w
        → (m : ℕ) × (m ≤ 2)
          × Ending (stop_worker w (record q { accepting = false; stop_requested = true }) now) m
    by_worker absent e = absurd (h e)
    by_worker ended e = (
      0,
      omega arith,
      record { left = over e; requested = refl; refuses = refl; waited = omega arith },
    )
    by_worker waiting e = (
      1,
      omega arith,
      record { left = last e refl; requested = refl; refuses = refl; waited = omega arith },
    )
    by_worker (ingesting item) e = (
      2,
      omega arith,
      record { left = busy item e refl; requested = refl; refuses = refl; waited = omega arith },
    )

none_left : (q : IngestionQueue) (n : ℕ) → n ≤ 0 → Left q n → q.worker ≡ ended
none_left q n h (over w) = w
none_left q n h (last w i) = absurd (omega arith)
none_left q n h (busy item w i) = absurd (omega arith)

stop-Closed : (q : IngestionQueue) (now : ℕ) → q.worker ≡ absent → Closed (stop q now)
unfolding stop
stop-Closed q now h = simp h (record {
  requested = refl;
  refuses = refl;
  gone = refl;
  finished = all_finished-mark_unfinished now q.tasks;
})

-- `stop` comes to its end. Without a worker it closes the queue at once; and where there is one, two
-- stretches of it, whatever they end with, end it, and then `stop` returns and leaves the queue
-- closed: no worker, nothing accepted, and every task finished.
pub stop_ends :
    (q : IngestionQueue) (x y : Ingestion) (n n1 n2 n3 : ℕ)
    → (q.worker ≡ absent → Closed (stop q n))
      × (q.worker ≢ absent → Closed (stopped_by (work (work (stop q n) x n1) y n2) n3))
stop_ends q x y n n1 n2 n3 = (stop-Closed q n, behind_worker)
  where
    behind_worker : q.worker ≢ absent → Closed (stopped_by (work (work (stop q n) x n1) y n2) n3)
    behind_worker h =
        let (a, a_le, ea) = stop-Ending q n h in
        let (b, b_le, eb) = work-Ending (stop q n) a x n1 ea in
        let (c, c_le, ec) = work-Ending (work (stop q n) x n1) b y n2 eb in
        let w = work (work (stop q n) x n1) y n2 in
        let over = none_left w c (omega arith) ec.left in
        returns_Closed w n3 (simp over refl) ec.waited ec.requested ec.refuses
