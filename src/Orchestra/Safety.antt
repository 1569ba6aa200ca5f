-- ===== src/Orchestra/Safety.antt =====
-- Every schedule that the loop makes is legal.
use ai_platform_mini.Prelude.{
  ℕ, ◌<◌, ◌≤◌, ◌≡◌, refl, String, true, false, not, ◌&&◌, ◌||◌, List, [], ◌∷◌, length,
  length-append, all, keep, any, leb, eq_iff, eq_refl, arith, Bool-cases, inl, inr, member,
  Distinct, member-append, Distinct-snoc, member-delete, Distinct-delete,
}
use ai_platform_mini.Prelude.Dict.{Dict, get}
use ai_platform_mini.Orchestra.Models.{
  FailurePolicy, OrchestrationStatus, Subtask, OrchestrationConfig,
}
use ai_platform_mini.Orchestra.Dag.{
  World, Call, Dag, Verdict, Flow, go, leave, ◌>>=◌, satisfied, is_skipped, find_ready, start_ready,
  launch, depends_on,
}
use ai_platform_mini.Orchestra.Schedule.{
  Legal, was, was_started, was_finished, active, is_completed, is_failed, result_in,
  completed_or_failed,
}

-- The walk of a set: the same ids, each once.
pub record IsOrder (order : ℕ → List String → List String) : Type 0 where
  pub members : (n : ℕ) (ids : List String) (id : String) → member id (order n ids) ≡ member id ids
  pub distinct : (n : ℕ) (ids : List String) → Distinct ids → Distinct (order n ids)

-- What the variables of the loop say of the calls.
pub record Inv (deps : String → List String) (c : ℕ) (tasks : List String) (s : Dag) : Type 0 where
  pub legal : Legal deps c s.log
  pub completed : (id : String) → member id s.completed ≡ was is_completed id s.log
  pub failed : (id : String) → member id s.failed ≡ was is_failed id s.log
  pub results : (id : String) → get id s.results ≡ result_in id s.log
  pub progress :
      (id : String) → member id s.in_progress ≡ was_started id s.log && not (was_finished id s.log)
  pub count : length s.in_progress ≡ active s.log
  pub running : Distinct s.in_progress
  pub fresh : (id : String) → member id s.pending ≡ true → was_started id s.log ≡ false
  pub waiting : Distinct s.pending
  pub accounted :
      (id : String) → member id tasks ≡ true → member id s.pending || was_started id s.log ≡ true

finished_was_started :
    (deps : String → List String) (c : ℕ) (id : String) (l : List Call)
    → Legal deps c l
    → was_finished id l ≡ true
    → was_started id l ≡ true
finished_was_started deps c id [] legal h = cc
finished_was_started deps c id (Call.started j ∷ l) legal h =
    let (a, b, d, before) = legal in ground (arith, finished_was_started deps c id l before h)
finished_was_started deps c id (Call.finished j r ∷ l) legal h =
    let (a, b, before) = legal in
    ground (arith, a, eq_iff j id, finished_was_started deps c id l before)

-- As many tasks run as may, at most.
active-le : (deps : String → List String) (c : ℕ) (l : List Call) → Legal deps c l → active l ≤ c
active-le deps c [] legal = omega arith
active-le deps c (Call.started j ∷ l) legal =
    let (_, _, room, before) = legal in omega (arith, room)
active-le deps c (Call.finished j r ∷ l) legal =
    let (_, _, before) = legal in omega (arith, active-le deps c l before)

pub in_progress-le :
    (deps : String → List String) (c : ℕ) (tasks : List String) (s : Dag)
    → Inv deps c tasks s
    → length s.in_progress ≤ c
in_progress-le deps c tasks s i = omega (arith, i.count, active-le deps c s.log i.legal)

all_completed :
    (xs completed : List String) (l : List Call)
    → ((id : String) → member id completed ≡ was is_completed id l)
    → all (λ d. was is_completed d l) xs ≡ all (λ d. member d completed) xs
all_completed [] completed l h = refl
all_completed (x ∷ xs) completed l h = ground (arith, h x, all_completed xs completed l h)

-- A task whose dependencies have all completed has none that failed.
pub none_failed :
    (deps : String → List String) (c : ℕ) (tasks xs : List String) (s : Dag)
    → Inv deps c tasks s
    → all (λ d. member d s.completed) xs ≡ true
    → any (λ d. member d s.failed) xs ≡ false
none_failed deps c tasks [] s i h = refl
none_failed deps c tasks (x ∷ xs) s i h = ground (
  arith,
  i.completed x,
  i.failed x,
  completed_or_failed deps c x s.log i.legal,
  none_failed deps c tasks xs s i,
)

module _ (w : World) (config : OrchestrationConfig) (task_map : Dict Subtask) (c : ℕ)
    (tasks : List String) where
  abbrev pub deps : String → List String
  deps = depends_on task_map

  skips_nothing :
      (s : Dag) (id : String) → Inv deps c tasks s → is_skipped w config task_map c s id ≡ false
  skips_nothing s id i = ground (arith, none_failed deps c tasks (deps id) s i)

  launch-Inv :
      (s : Dag) (id : String)
      → Inv deps c tasks s
      → satisfied w config task_map c s id ≡ true
      → member id s.pending ≡ true
      → length s.in_progress < c
      → Inv deps c tasks (launch id s)
  launch-Inv s id i ready waits room =
      let f = i.fresh id waits in
      record {
        legal = (
          ground (arith, all_completed (deps id) s.completed s.log i.completed),
          f,
          omega (arith, i.count),
          i.legal,
        );
        completed = i.completed;
        failed = i.failed;
        results = i.results;
        progress = λ x. ground (
          arith,
          i.progress x,
          f,
          member-append x s.in_progress (id ∷ []),
          eq_iff id x,
          finished_was_started deps c x s.log i.legal,
        );
        count = ground (arith, i.count, length-append s.in_progress (id ∷ []));
        running = Distinct-snoc id s.in_progress i.running (ground (arith, i.progress id, f));
        fresh = λ x m. ground (arith, i.fresh x, member-delete x id s.pending i.waiting, m);
        waiting = Distinct-delete id s.pending i.waiting;
        accounted = λ x m. ground (arith, i.accounted x m, member-delete x id s.pending i.waiting);
      }

  pub find_ready_lem :
      (ids : List String) (s : Dag)
      → Inv deps c tasks s
      → find_ready w config task_map c ids s ≡ (keep (satisfied w config task_map c s) ids, s)
  unfolding find_ready
  find_ready_lem [] s i = refl
  find_ready_lem (id ∷ ids) s i = ground (arith, skips_nothing s id i, find_ready_lem ids s i)

  pub start_ready-Inv :
      (ids : List String) (s : Dag)
      → Inv deps c tasks s
      → Distinct ids
      → ((x : String)
          → member x ids ≡ true
          → (satisfied w config task_map c s x ≡ true) × (member x s.pending ≡ true))
      → Inv deps c tasks (start_ready w config task_map c ids s)
  unfolding start_ready
  start_ready-Inv [] s i d h = i
  start_ready-Inv (id ∷ ids) s i d h = elim (Bool-cases (leb c (length s.in_progress))) [
    | inl full ↦ rw full i
    | inr room ↦
        let here = h id (ground (arith, eq_refl id)) in
        let i' = launch-Inv s id i here.0 here.1 (ground arith) in
        rw room (
          start_ready-Inv ids (launch id s) i' d.1 (λ x m. (
            (h x (ground arith)).0,
            ground (arith, h x, d, eq_iff id x, member-delete x id s.pending i.waiting),
          )))
  ]

  -- What a way out of the loop leaves.
  pub record Left (s : Dag) (v : Verdict) : Type 0 where
    pub legal : Legal deps c s.log
    pub completed : (id : String) → member id s.completed ≡ was is_completed id s.log
    pub failed : (id : String) → member id s.failed ≡ was is_failed id s.log
    pub results : (id : String) → get id s.results ≡ result_in id s.log
    pub progress :
        (id : String)
        → was_started id s.log && not (was_finished id s.log) ≡ true
        → member id s.in_progress ≡ true
    pub few : length s.in_progress ≤ c
    pub complete :
        v.status ≡ OrchestrationStatus.completed
        → (id : String) → member id tasks ≡ true
        → (was_finished id s.log ≡ true)
          × (was is_failed id s.log ≡ true → config.failure_policy ≡ FailurePolicy.skip)

  abbrev pub Keeps : Flow → Type 0
  Keeps (go s) = Inv deps c tasks s
  Keeps (leave s v) = Left s v

  pub Keeps-bind :
      (m : Flow) (f : Dag → Flow)
      → Keeps m
      → ((s : Dag) → Inv deps c tasks s → Keeps (f s))
      → Keeps (m >>= f)
  Keeps-bind (go s) f h k = k s h
  Keeps-bind (leave s v) f h k = h
