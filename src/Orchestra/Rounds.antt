-- ===== src/Orchestra/Rounds.antt =====
-- The rounds of the loop keep the invariant, and its ways out are sound.
use ai_platform_mini.Prelude.{
  ℕ, zero, suc, ◌+◌, ◌≡◌, refl, String, true, false, ◌&&◌, ◌||◌, Option, none, some, List, [], ◌∷◌,
  str_eq, arith, Bool-cases, inl, inr, if◌then◌else◌, member, delete, member-keep, Distinct-keep,
  member-delete, Distinct-delete, length-delete,
}
use ai_platform_mini.Prelude.Dict.{Dict, put, get-put}
use ai_platform_mini.Orchestra.Models.{
  TaskStatus, OrchestrationStatus, Subtask, SubtaskResult, OrchestrationConfig, is_empty,
  is_fail_fast,
}
use ai_platform_mini.Orchestra.Dag.{
  World, Call, Dag, Verdict, Flow, go, leave, TaskEnd, check, reached, satisfied, find_ready,
  start_ready, take_done, take_end, timed_out, budget_exceeded, unless_reached, by_status, settle,
  round, loop, depends_on, verdict,
}
use ai_platform_mini.Orchestra.Schedule.{is_completed, is_failed}
use ai_platform_mini.Orchestra.Safety.{
  IsOrder, Inv, Left, Keeps, Keeps-bind, find_ready_lem, start_ready-Inv, in_progress-le,
}

no_member : (x : String) (xs : List String) → is_empty xs ≡ true → member x xs ≡ false
no_member x [] h = refl
no_member x (y ∷ xs) h = cc

module _ (w : World) (config : OrchestrationConfig) (task_map : Dict Subtask) (c : ℕ)
    (tasks : List String) where
  -- The state behind a result, with the task taken out of those in progress.
  abbrev taken : String → SubtaskResult → List String → List String → ℕ → Dag → Dag
  taken id r completed failed usage s = record s {
    results = put id r s.results;
    log = Call.finished id r ∷ s.log;
    completed = completed;
    failed = failed;
    total_token_usage = usage;
    in_progress = delete id s.in_progress;
  }

  taken-Inv :
      (s : Dag) (id : String) (r : SubtaskResult) (completed failed : List String) (usage : ℕ)
      → Inv (depends_on task_map) c tasks s
      → member id s.in_progress ≡ true
      → ((x : String)
          → member x completed ≡ (str_eq id x && is_completed r.status) || member x s.completed)
      → ((x : String) → member x failed ≡ (str_eq id x && is_failed r.status) || member x s.failed)
      → Inv (depends_on task_map) c tasks (taken id r completed failed usage s)
  taken-Inv s id r completed failed usage i m hc hf = record {
    legal = (ground (arith, i.progress id), ground (arith, i.progress id), i.legal);
    completed = λ x. ground (arith, hc x, i.completed x);
    failed = λ x. ground (arith, hf x, i.failed x);
    results = λ x. ground (arith, get-put id x r s.results, i.results x);
    progress = λ x. ground (arith, i.progress x, member-delete x id s.in_progress i.running);
    count = ground (arith, i.count, length-delete id s.in_progress m);
    running = Distinct-delete id s.in_progress i.running;
    fresh = i.fresh;
    waiting = i.waiting;
    accounted = i.accounted;
  }

  -- A way out with a status other than completed, before a result is taken.
  left :
      (s : Dag) (v : Verdict)
      → Inv (depends_on task_map) c tasks s
      → (v.status ≡ OrchestrationStatus.completed → ⊥)
      → Left w config task_map c tasks s v
  left s v i n = record {
    legal = i.legal;
    completed = i.completed;
    failed = i.failed;
    results = i.results;
    progress = λ x k. ground (arith, i.progress x, k);
    few = in_progress-le (depends_on task_map) c tasks s i;
    complete = λ h. absurd (n h);
  }

  -- A way out behind a result, whose task stays among those in progress.
  left_behind :
      (s : Dag) (id : String) (r : SubtaskResult) (failed : List String) (v : Verdict)
      → Inv (depends_on task_map) c tasks s
      → member id s.in_progress ≡ true
      → is_completed r.status ≡ false
      → ((x : String) → member x failed ≡ (str_eq id x && is_failed r.status) || member x s.failed)
      → (v.status ≡ OrchestrationStatus.completed → ⊥)
      → Left w config task_map c tasks
          (record s {
            results = put id r s.results;
            log = Call.finished id r ∷ s.log;
            failed = failed;
          })
          v
  left_behind s id r failed v i m fails hf n = record {
    legal = (ground (arith, i.progress id), ground (arith, i.progress id), i.legal);
    completed = λ x. ground (arith, fails, i.completed x);
    failed = λ x. ground (arith, hf x, i.failed x);
    results = λ x. ground (arith, get-put id x r s.results, i.results x);
    progress = λ x k. ground (arith, i.progress x, k);
    few = in_progress-le (depends_on task_map) c tasks s i;
    complete = λ h. absurd (n h);
  }

  take_end-Keeps :
      (s : Dag) (id : String) (e : TaskEnd)
      → Inv (depends_on task_map) c tasks s
      → member id s.in_progress ≡ true
      → Keeps w config task_map c tasks (take_end w config task_map c id e s)
  take_end-Keeps s id (TaskEnd.failed e) i m = left s _ i (λ h. cc)
  take_end-Keeps s id (TaskEnd.returned r) i m = by_cases r.status refl
    where
      by_cases :
          (t : TaskStatus)
          → r.status ≡ t
          → Keeps w config task_map c tasks (
              by_status w config task_map c t id r
                (record s { results = put id r s.results; log = Call.finished id r ∷ s.log }))
      by_cases TaskStatus.completed e =
          taken-Inv s id r (id ∷ s.completed) s.failed (s.total_token_usage + r.token_usage) i m
            (λ x. ground arith) (λ x. ground arith)
      by_cases TaskStatus.failed e = elim (Bool-cases (is_fail_fast config.failure_policy)) [
        | inl f ↦
            rw f
              (left_behind s id r (id ∷ s.failed) _ i m (rw e refl) (λ x. ground arith) (λ h. cc))
        | inr f ↦ rw f (
            taken-Inv s id r s.completed (id ∷ s.failed) s.total_token_usage i m (λ x. ground arith)
              (λ x. ground arith))
      ]
      by_cases TaskStatus.cancelled e =
          left_behind s id r s.failed _ i m (rw e refl) (λ x. ground arith) (λ h. cc)
      by_cases TaskStatus.pending e =
          taken-Inv s id r s.completed s.failed s.total_token_usage i m (λ x. ground arith)
            (λ x. ground arith)
      by_cases TaskStatus.running e =
          taken-Inv s id r s.completed s.failed s.total_token_usage i m (λ x. ground arith)
            (λ x. ground arith)
      by_cases TaskStatus.skipped e =
          taken-Inv s id r s.completed s.failed s.total_token_usage i m (λ x. ground arith)
            (λ x. ground arith)

  take_done-Keeps :
      (ends : List (String × TaskEnd)) (s : Dag)
      → Inv (depends_on task_map) c tasks s
      → Keeps w config task_map c tasks (take_done w config task_map c ends s)
  unfolding take_done
  take_done-Keeps [] s i = i
  take_done-Keeps ((id, e) ∷ rest) s i =
      Keeps-bind w config task_map c tasks
        (if member id s.in_progress then take_end w config task_map c id e s else go s)
        (take_done w config task_map c rest) one (take_done-Keeps rest)
    where
      one :
          Keeps w config task_map c tasks
            (if member id s.in_progress then take_end w config task_map c id e s else go s)
      one = elim (Bool-cases (member id s.in_progress)) [
        | inl m ↦ rw m (take_end-Keeps s id e i m)
        | inr m ↦ rw m i
      ]

  verdict-Left :
      (s : Dag)
      → Inv (depends_on task_map) c tasks s
      → is_empty s.pending ≡ true
      → is_empty s.in_progress ≡ true
      → Left w config task_map c tasks s (verdict w config task_map c s)
  unfolding verdict
  verdict-Left s i p q = record {
    legal = i.legal;
    completed = i.completed;
    failed = i.failed;
    results = i.results;
    progress = λ x k. ground (arith, i.progress x, k);
    few = in_progress-le (depends_on task_map) c tasks s i;
    complete = λ h id m. (
      ground (
        arith,
        i.accounted id m,
        i.progress id,
        no_member id s.pending p,
        no_member id s.in_progress q,
      ),
      λ f. ground (arith, i.failed id, no_member id s.failed),
    );
  }

  settle-Keeps :
      (n : ℕ) (s : Dag)
      → Inv (depends_on task_map) c tasks s
      → Keeps w config task_map c tasks (settle w config task_map c n s)
  unfolding settle
  settle-Keeps n s i = elim (Bool-cases (is_empty s.in_progress)) [
    | inr busy ↦ rw busy (take_done-Keeps (w.done n s.in_progress) s i)
    | inl idle ↦ elim (Bool-cases (is_empty s.pending)) [
      | inr some_left ↦ rw (idle, some_left) (left s _ i (λ h. cc))
      | inl all_done ↦ rw (idle, all_done) (verdict-Left s i all_done idle)
    ]
  ]

  unless_reached-Keeps :
      (o : Option ℕ) (s : Dag) (v : ℕ → Verdict) (m : Flow)
      → Inv (depends_on task_map) c tasks s
      → ((limit : ℕ) → (v limit).status ≡ OrchestrationStatus.completed → ⊥)
      → Keeps w config task_map c tasks m
      → Keeps w config task_map c tasks (unless_reached w config task_map c o v s m)
  unless_reached-Keeps none s v m i n h = h
  unless_reached-Keeps (some limit) s v m i n h = left s (v limit) i (n limit)

  pub check-Keeps :
      (n : ℕ) (s : Dag)
      → Inv (depends_on task_map) c tasks s
      → Keeps w config task_map c tasks (check w config task_map c n s)
  unfolding check
  check-Keeps n s i = elim (Bool-cases (w.cancel_set n)) [
    | inl e ↦ rw e (left s _ i (λ h. cc))
    | inr e ↦ rw e (
        unless_reached-Keeps (reached config.total_timeout (w.elapsed n)) s
          (timed_out w config task_map c) _ i (λ limit h. cc)
          (unless_reached-Keeps (reached config.total_token_budget s.total_token_usage) s
            (budget_exceeded w config task_map c) (go s) i (λ limit h. cc) i))
  ]

  module _ (walk : IsOrder w.order) where
    pub round-Keeps :
        (n : ℕ) (s : Dag)
        → Inv (depends_on task_map) c tasks s
        → Keeps w config task_map c tasks (round w config task_map c n s)
    unfolding round
    round-Keeps n s i =
        Keeps-bind w config task_map c tasks (check w config task_map c n s) _ (check-Keeps n s i)
          (λ t j. started t j)
      where
        started :
            (t : Dag)
            → Inv (depends_on task_map) c tasks t
            → let (ready, t') = find_ready w config task_map c (w.order n t.pending) t in
              Keeps w config task_map c tasks
                (settle w config task_map c n (start_ready w config task_map c ready t'))
        started t j = rw (find_ready_lem w config task_map c tasks (w.order n t.pending) t j) (
            settle-Keeps n _ (
              start_ready-Inv w config task_map c tasks _ t j
                (Distinct-keep _ (w.order n t.pending) (walk.distinct n t.pending j.waiting))
                (λ x m.
                  let e = member-keep (satisfied w config task_map c t) x (w.order n t.pending) in
                  (ground (arith, e), ground (arith, e, walk.members n t.pending x)))))

    -- What the loop returns, if it returns.
    abbrev pub Returns : Option (Dag × Verdict) → Type 0
    Returns none = Unit
    Returns (some (s, v)) = Left w config task_map c tasks s v

    pub loop-Returns :
        (fuel n : ℕ) (s : Dag)
        → Inv (depends_on task_map) c tasks s
        → Returns (loop w config task_map c fuel n s)
    unfolding loop
    loop-Returns zero n s i = tt
    loop-Returns (suc fuel) n s i =
        elim (Bool-cases (is_empty s.pending && is_empty s.in_progress)) [
          | inl over ↦ rw over (verdict-Left s i (ground arith) (ground arith))
          | inr on ↦ rw on (
              by_round (λ t j. loop-Returns fuel (suc n) t j) (round w config task_map c n s)
                (round-Keeps n s i))
        ]
      where
        by_round :
            ((t : Dag)
              → Inv (depends_on task_map) c tasks t
              → Returns (loop w config task_map c fuel (suc n) t))
            → (m : Flow) → Keeps w config task_map c tasks m
            → Returns (elim m [
              | go t ↦ loop w config task_map c fuel (suc n) t
              | leave t v ↦ some (t, v)
            ])
        by_round ih (go t) k = ih t k
        by_round ih (leave t v) k = k
