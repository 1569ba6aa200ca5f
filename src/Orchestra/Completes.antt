-- ===== src/Orchestra/Completes.antt =====
-- A decision that is made of a canvas graph (app/multi_agent/decision_factory.py), executed by the
-- orchestrator (orchestrator.py): it completes where its subtasks do.
use ai_platform_mini.Prelude.{
  ℕ, zero, suc, ◌<◌, ◌≡◌, refl, ◌∙◌, inl, inr, String, Bool, true, false, ◌&&◌, none, some, List,
  [], ◌∷◌, ◌++◌, length, keep, leb, member, delete, eq_iff, eq_refl, arith, Bool-cases,
  Option-cases, All, member-append,
}
use ai_platform_mini.Prelude.Results.{ok}
use ai_platform_mini.Orchestra.Models.{
  TaskStatus, OrchestrationStatus, Subtask, SubtaskResult, OrchestrationConfig, is_empty,
}
use ai_platform_mini.Orchestra.Dag.{
  World, Dag, Verdict, Flow, go, leave, TaskEnd, check, satisfied, start_ready, launch, take_done,
  settle, round, loop, depends_on, verdict,
}
use ai_platform_mini.Orchestra.Schedule.{was, was_finished, is_completed}
use ai_platform_mini.Orchestra.Safety.{IsOrder, Inv, Keeps, find_ready_lem}
use ai_platform_mini.Orchestra.Rounds.{round-Keeps}
use ai_platform_mini.Orchestra.Termination.{Waits}
use ai_platform_mini.Orchestra.Execute.{
  task_map, keys, initial, concurrency, run_dag, result_of, execute, OrchestrationResult,
}
use ai_platform_mini.Orchestra.Outcome.{ids, execute_lem, initial-Inv, member-task_map}
use ai_platform_mini.Orchestra.Decision.{CanvasNode, CanvasEdge, from_dag}
use ai_platform_mini.Orchestra.Acyclic.{InOrder, all_members}
use ai_platform_mini.Orchestra.Canvas.{Doable, in_all, from_dag-Doable}

-- Nothing from outside ends the run, and every task that ends has completed.
pub record Undisturbed (w : World) (config : OrchestrationConfig) : Type 0 where
  pub not_cancelled : (n : ℕ) → w.cancel_set n ≡ false
  pub no_timeout : config.total_timeout ≡ none
  pub no_budget : config.total_token_budget ≡ none
  pub succeed :
      (n : ℕ) (running : List String)
      → All
          (λ (e : String × TaskEnd).
            (r : SubtaskResult) × (e.1 ≡ TaskEnd.returned r) × (r.status ≡ TaskStatus.completed))
          (w.done n running)

member-delete-le :
    (x id : String) (xs : List String) → member x (delete id xs) ≡ true → member x xs ≡ true
member-delete-le x id [] h = h
member-delete-le x id (y ∷ ys) h = ground (arith, h, member-delete-le x id ys)

-- The first node of an order that is pending: what it needs is not.
first_pending :
    (deps : String → List String) (pending before xs : List String) (y : String)
    → InOrder deps before xs
    → ((d : String) → member d before ≡ true → member d pending ≡ false)
    → member y xs ≡ true
    → member y pending ≡ true
    → (x : String) × (member x pending ≡ true)
      × ((d : String) → member d (deps x) ≡ true → member d pending ≡ false)
first_pending deps pending before [] y o h m k = cc
first_pending deps pending before (x ∷ xs) y o h m k = elim (Bool-cases (member x pending)) [
  | inl p ↦ (x, p, λ d n. h d (in_all (λ e. member e before) (deps x) d o.0 n))
  | inr p ↦
      first_pending deps pending (before ++ x ∷ []) xs y o.1
        (λ d n. ground (arith, n, h d, p, eq_iff x d, member-append d before (x ∷ [])))
        (ground (arith, m, k, p, eq_iff x y)) k
]

module _ (w : World) (config : OrchestrationConfig) (ts : List Subtask) (order : List String)
    (c : ℕ) (walk : IsOrder w.order) (u : Undisturbed w config) (doable : Doable ts order)
    (some_room : 0 < c) where
  -- What has finished has completed, and what is pending is a task.
  record Good (s : Dag) : Type 0 where
    unfailed : is_empty s.failed ≡ true
    finished : (x : String) → was_finished x s.log ≡ true → was is_completed x s.log ≡ true
    known : (x : String) → member x s.pending ≡ true → member x (ids ts) ≡ true

  abbrev Fine : Flow → Type 0
  Fine (go s) = Good s
  Fine (leave s v) = v.status ≡ OrchestrationStatus.completed

  passes : (n : ℕ) (s : Dag) → check w config (task_map ts) c n s ≡ go s
  unfolding check
  passes n s = ground (arith, u.not_cancelled n, u.no_timeout, u.no_budget)

  take_done-Fine :
      (es : List (String × TaskEnd)) (s : Dag)
      → All
          (λ (e : String × TaskEnd).
            (r : SubtaskResult) × (e.1 ≡ TaskEnd.returned r) × (r.status ≡ TaskStatus.completed))
          es
      → Good s
      → Fine (take_done w config (task_map ts) c es s)
  unfolding take_done
  take_done-Fine [] s a g = g
  take_done-Fine ((id, e) ∷ es) s a g = elim (Bool-cases (member id s.in_progress)) [
    | inr m ↦ rw m (take_done-Fine es s a.1 g)
    | inl m ↦
        let (r, returned, completed) = a.0 in
        rw (m, returned, completed)
          (take_done-Fine es _ a.1 (record {
            unfailed = g.unfailed;
            finished = λ x h. ground (arith, h, g.finished x, completed);
            known = g.known;
          }))
  ]

  launch-Good : (id : String) (s : Dag) → Good s → Good (launch id s)
  launch-Good id s g = record {
    unfailed = g.unfailed;
    finished = g.finished;
    known = λ x h. g.known x (member-delete-le x id s.pending h);
  }

  start_ready-Good :
      (xs : List String) (s : Dag) → Good s → Good (start_ready w config (task_map ts) c xs s)
  unfolding start_ready
  start_ready-Good [] s g = g
  start_ready-Good (id ∷ xs) s g = elim (Bool-cases (leb c (length s.in_progress))) [
    | inl full ↦ rw full g
    | inr room ↦ rw room (start_ready-Good xs (launch id s) (launch-Good id s g))
  ]

  -- What runs goes on, and the first of the ready tasks is started where nothing runs.
  start_ready-busy :
      (xs : List String) (s : Dag)
      → is_empty s.in_progress ≡ false
      → is_empty (start_ready w config (task_map ts) c xs s).in_progress ≡ false
  unfolding start_ready
  start_ready-busy [] s h = h
  start_ready-busy (id ∷ xs) s h = elim (Bool-cases (leb c (length s.in_progress))) [
    | inl full ↦ rw full h
    | inr room ↦ rw room (start_ready-busy xs (launch id s) (not_empty s.in_progress id))
  ]
    where
      not_empty : (xs : List String) (x : String) → is_empty (xs ++ x ∷ []) ≡ false
      not_empty [] x = refl
      not_empty (y ∷ ys) x = refl

  start_ready-starts :
      (xs : List String) (s : Dag)
      → is_empty xs ≡ false
      → is_empty s.in_progress ≡ true
      → is_empty (start_ready w config (task_map ts) c xs s).in_progress ≡ false
  unfolding start_ready
  start_ready-starts [] s h idle = cc
  start_ready-starts (id ∷ xs) s h idle =
      rw (room s.in_progress idle) (start_ready-busy xs (launch id s) (one s.in_progress id))
    where
      room : (running : List String) → is_empty running ≡ true → leb c (length running) ≡ false
      room [] e = ground (arith, some_room)
      room (y ∷ ys) e = cc

      one : (running : List String) (x : String) → is_empty (running ++ x ∷ []) ≡ false
      one [] x = refl
      one (y ∷ ys) x = refl

  keep_some :
      (p : String → Bool) (xs : List String) (x : String)
      → member x xs ≡ true
      → p x ≡ true
      → is_empty (keep p xs) ≡ false
  keep_some p [] x m h = cc
  keep_some p (y ∷ ys) x m h = elim (Bool-cases (p y)) [
    | inl e ↦ rw e refl
    | inr e ↦ rw e (keep_some p ys x (ground (arith, m, h, e, eq_iff y x)) h)
  ]

  no_member : (x : String) (xs : List String) → is_empty xs ≡ true → member x xs ≡ false
  no_member x [] h = refl
  no_member x (y ∷ ys) h = cc

  a_member : (xs : List String) → is_empty xs ≡ false → (x : String) × (member x xs ≡ true)
  a_member [] h = cc
  a_member (x ∷ xs) h = (x, ground (arith, eq_refl x))

  -- Where nothing runs, a pending task is ready.
  ready :
      (n : ℕ) (s : Dag)
      → Inv (depends_on (task_map ts)) c (ids ts) s
      → Good s
      → is_empty s.in_progress ≡ true
      → is_empty s.pending ≡ false
      → is_empty (keep (satisfied w config (task_map ts) c s) (w.order n s.pending)) ≡ false
  ready n s i g idle left =
      let (y, m) = a_member s.pending left in
      let (x, p, needs) =
        first_pending (depends_on (task_map ts)) s.pending [] order y doable.sorted (λ d k. cc)
          (doable.whole y (g.known y m)) m in
      keep_some (satisfied w config (task_map ts) c s) (w.order n s.pending) x
        (walk.members n s.pending x ∙ p)
        (all_members (depends_on (task_map ts) x) s.completed (λ d k. ground (
          arith,
          i.completed d,
          g.finished d,
          i.progress d,
          no_member d s.in_progress idle,
          i.accounted d (doable.tasks x d k),
          needs d k,
        )))

  settle-Fine :
      (n : ℕ) (s : Dag)
      → Good s
      → is_empty s.in_progress ≡ false
      → Fine (settle w config (task_map ts) c n s)
  unfolding settle
  settle-Fine n s g busy =
      rw busy (take_done-Fine (w.done n s.in_progress) s (u.succeed n s.in_progress) g)

  round-Fine :
      (n : ℕ) (s : Dag)
      → Inv (depends_on (task_map ts)) c (ids ts) s
      → Good s
      → is_empty s.pending && is_empty s.in_progress ≡ false
      → Fine (round w config (task_map ts) c n s)
  unfolding round
  round-Fine n s i g on =
      let xs = keep (satisfied w config (task_map ts) c s) (w.order n s.pending) in
      rw (passes n s) (
        rw (find_ready_lem w config (task_map ts) c (ids ts) (w.order n s.pending) s i) (
          settle-Fine n _ (start_ready-Good xs s g) (elim (Bool-cases (is_empty s.in_progress)) [
            | inr busy ↦ start_ready-busy xs s busy
            | inl idle ↦
                start_ready-starts xs s (ready n s i g idle (ground (arith, on, idle))) idle
          ])))

  verdict_completed :
      (s : Dag)
      → Good s
      → (verdict w config (task_map ts) c s).status ≡ OrchestrationStatus.completed
  unfolding verdict
  verdict_completed s g = ground (arith, g.unfailed)

  loop_completes :
      (fuel n : ℕ) (s t : Dag) (v : Verdict)
      → Inv (depends_on (task_map ts)) c (ids ts) s
      → Good s
      → loop w config (task_map ts) c fuel n s ≡ some (t, v)
      → v.status ≡ OrchestrationStatus.completed
  unfolding loop
  loop_completes zero n s t v i g h = cc
  loop_completes (suc fuel) n s t v i g h =
      elim (Bool-cases (is_empty s.pending && is_empty s.in_progress)) [
        | inl over ↦ ground (arith, over, h, verdict_completed s g)
        | inr on ↦
            by_round (λ s' j f e. loop_completes fuel (suc n) s' t v j f e)
              (round w config (task_map ts) c n s)
              (round-Keeps w config (task_map ts) c (ids ts) walk n s i) (round-Fine n s i g on)
              (rw (loop, on) at h)
      ]
    where
      by_round :
          ((s' : Dag)
            → Inv (depends_on (task_map ts)) c (ids ts) s'
            → Good s'
            → loop w config (task_map ts) c fuel (suc n) s' ≡ some (t, v)
            → v.status ≡ OrchestrationStatus.completed)
          → (m : Flow) → Keeps w config (task_map ts) c (ids ts) m
          → Fine m
          → elim m [
            | go s' ↦ loop w config (task_map ts) c fuel (suc n) s'
            | leave s' v' ↦ some (s', v')
          ]
            ≡ some (t, v)
          → v.status ≡ OrchestrationStatus.completed
      by_round rest (go s') j f e = rest s' j f e
      by_round rest (leave s' v') j f e = ground (arith, e, f)

  initial-Good : Good (initial ts)
  initial-Good = record {
    unfailed = refl;
    finished = λ x h. cc;
    known = λ x h. ground (arith, h, member-task_map x ts []);
  }

run_dag_of :
    (w : World) (config : OrchestrationConfig) (ts : List Subtask) (r : OrchestrationResult)
    → execute w config ts ≡ some r
    → (s : Dag) × (v : Verdict) × (run_dag w config ts ≡ some (s, v)) × (r.status ≡ v.status)
unfolding execute result_of
run_dag_of w config ts r h = elim (Option-cases (run_dag w config ts)) [
  | inl e ↦ ground (arith, e, h)
  | inr ((s, v), e) ↦ (s, v, e, ground (arith, e, h))
]

positive :
    (config : OrchestrationConfig) (ts : List Subtask)
    → 0 < config.max_concurrency
    → is_empty ts ≡ false
    → 0 < concurrency config ts
positive config [] h e = cc
positive config (t ∷ ts) h e = ground (arith, h)

-- The subtasks that are made of a canvas graph, executed where nothing cancels the run and no limit
-- of time or tokens is set: if every subtask that ends has completed, then the orchestration ends as
-- COMPLETED; it never stops with a dependency deadlock.
pub canvas_completes :
    (nodes : List CanvasNode) (edges : List CanvasEdge) (ts : List Subtask) (w : World)
    (config : OrchestrationConfig)
    → from_dag nodes edges ≡ ok ts
    → 0 < config.max_concurrency
    → IsOrder w.order
    → Waits w
    → Undisturbed w config
    → (r : OrchestrationResult) × (execute w config ts ≡ some r)
      × (r.status ≡ OrchestrationStatus.completed)
unfolding run_dag
canvas_completes nodes edges ts w config made room walk waits u =
    let (order, doable) = from_dag-Doable nodes edges ts made in
    let (s, v, _, e, _, _, _, _, _, _, _) = execute_lem w config ts walk waits in
    let (s', v', f, same) = run_dag_of w config ts (result_of ts (s, v)) e in
    let c = concurrency config ts in
    let full = positive config ts room doable.some_task in
    (
      result_of ts (s, v),
      e,
      same
          ∙ loop_completes w config ts order c walk u doable full
              (suc (length (keys (task_map ts)))) 0 (initial ts) s' v' (initial-Inv ts c)
              (initial-Good w config ts order c walk u doable full) f,
    )
