-- ===== src/Orchestra/Termination.antt =====
-- The loop ends: each round takes a task out of those that are pending or in progress.
use ai_platform_mini.Prelude.{
  ℕ, zero, suc, ◌+◌, ◌-◌, ◌<◌, ◌≤◌, ◌≡◌, refl, String, true, false, ◌&&◌, Option, none, some,
  is_some, List, [], ◌∷◌, length, length-append, any, keep, leb, eq_iff, eq_refl, arith, Bool-cases,
  inl, inr, if◌then◌else◌, member, Distinct, delete, member-keep, Distinct-keep, member-delete,
  Distinct-delete, length-delete,
}
use ai_platform_mini.Prelude.Dict.{Dict, put}
use ai_platform_mini.Orchestra.Models.{
  TaskStatus, Subtask, OrchestrationConfig, is_empty, is_fail_fast,
}
use ai_platform_mini.Orchestra.Dag.{
  World, Call, Dag, Verdict, Flow, go, leave, ◌>>=◌, TaskEnd, check, reached, satisfied, find_ready,
  start_ready, launch, take_done, take_end, by_status, settle, round, loop, depends_on,
  unless_reached,
}
use ai_platform_mini.Orchestra.Safety.{IsOrder, Inv, Keeps, find_ready_lem}
use ai_platform_mini.Orchestra.Rounds.{round-Keeps, check-Keeps}

-- `asyncio.wait` returns when a task that it was given has ended.
abbrev pub Waits : World → Type 0
Waits w =
    (n : ℕ) (ids : List String)
    → is_empty ids ≡ false
    → any (λ e. member e.0 ids) (w.done n ids) ≡ true

abbrev pub size : Dag → ℕ
size s = length s.pending + length s.in_progress

abbrev AtMost : ℕ → Flow → Type 0
AtMost k (go s) = size s ≤ k
AtMost k (leave s v) = Unit

AtMost-bind :
    (j k : ℕ) (m : Flow) (f : Dag → Flow)
    → AtMost j m
    → ((s : Dag) → size s ≤ j → AtMost k (f s))
    → AtMost k (m >>= f)
AtMost-bind j k (go s) f h g = g s h
AtMost-bind j k (leave s v) f h g = tt

AtMost-le : (j k : ℕ) (m : Flow) → j ≤ k → AtMost j m → AtMost k m
AtMost-le j k (go s) le h = omega arith
AtMost-le j k (leave s v) le h = tt

some_task : (xs ys : List String) → is_empty xs && is_empty ys ≡ false → 0 < length xs + length ys
some_task [] [] h = cc
some_task [] (y ∷ ys) h = omega arith
some_task (x ∷ xs) ys h = omega arith

module _ (w : World) (config : OrchestrationConfig) (task_map : Dict Subtask) (c : ℕ) where
  take_end-AtMost :
      (s : Dag) (id : String) (e : TaskEnd) (k : ℕ)
      → member id s.in_progress ≡ true
      → size s ≤ suc k
      → AtMost k (take_end w config task_map c id e s)
  take_end-AtMost s id (TaskEnd.failed e) k m h = tt
  take_end-AtMost s id (TaskEnd.returned r) k m h = by_cases r.status
    where
      smaller : length s.pending + length (delete id s.in_progress) ≤ k
      smaller = omega (arith, length-delete id s.in_progress m)

      by_cases :
          (t : TaskStatus)
          → AtMost k (
              by_status w config task_map c t id r
                (record s { results = put id r s.results; log = Call.finished id r ∷ s.log }))
      by_cases TaskStatus.completed = smaller
      by_cases TaskStatus.failed = elim (Bool-cases (is_fail_fast config.failure_policy)) [
        | inl f ↦ rw f tt
        | inr f ↦ rw f smaller
      ]
      by_cases TaskStatus.cancelled = tt
      by_cases TaskStatus.pending = smaller
      by_cases TaskStatus.running = smaller
      by_cases TaskStatus.skipped = smaller

  take_done-le :
      (ends : List (String × TaskEnd)) (s : Dag) (k : ℕ)
      → size s ≤ k
      → AtMost k (take_done w config task_map c ends s)
  unfolding take_done
  take_done-le [] s k h = h
  take_done-le ((id, e) ∷ rest) s k h =
      AtMost-bind k k
        (if member id s.in_progress then take_end w config task_map c id e s else go s)
        (take_done w config task_map c rest) one (λ t le. take_done-le rest t k le)
    where
      one : AtMost k (if member id s.in_progress then take_end w config task_map c id e s else go s)
      one = elim (Bool-cases (member id s.in_progress)) [
        | inl m ↦ rw m (take_end-AtMost s id e k m (omega arith))
        | inr m ↦ rw m h
      ]

  take_done-smaller :
      (ends : List (String × TaskEnd)) (s : Dag) (k : ℕ)
      → any (λ e. member e.0 s.in_progress) ends ≡ true
      → size s ≤ suc k
      → AtMost k (take_done w config task_map c ends s)
  unfolding take_done
  take_done-smaller [] s k found h = cc
  take_done-smaller ((id, e) ∷ rest) s k found h = elim (Bool-cases (member id s.in_progress)) [
    | inl m ↦ rw m (
        AtMost-bind k k (take_end w config task_map c id e s) (take_done w config task_map c rest)
          (take_end-AtMost s id e k m h) (λ t le. take_done-le rest t k le))
    | inr m ↦ rw m (take_done-smaller rest s k (ground arith) h)
  ]

  settle-smaller :
      (n : ℕ) (s : Dag) (k : ℕ)
      → Waits w
      → size s ≤ suc k
      → AtMost k (settle w config task_map c n s)
  unfolding settle
  settle-smaller n s k waits h = elim (Bool-cases (is_empty s.in_progress)) [
    | inr busy ↦
        rw busy (take_done-smaller (w.done n s.in_progress) s k (waits n s.in_progress busy) h)
    | inl idle ↦ ground (arith, idle)
  ]

  start_ready-size :
      (ids : List String) (s : Dag)
      → Distinct ids
      → Distinct s.pending
      → ((x : String) → member x ids ≡ true → member x s.pending ≡ true)
      → size (start_ready w config task_map c ids s) ≤ size s
  unfolding start_ready
  start_ready-size [] s d q p = omega arith
  start_ready-size (id ∷ ids) s d q p = elim (Bool-cases (leb c (length s.in_progress))) [
    | inl full ↦ rw full (omega arith)
    | inr room ↦
        let waits = p id (ground (arith, eq_refl id)) in
        let rest =
          start_ready-size ids (launch id s) d.1 (Distinct-delete id s.pending q)
            (λ x m. ground (arith, p x, d, eq_iff id x, member-delete x id s.pending q)) in
        rw room (
          omega
            (arith, rest, length-delete id s.pending waits, length-append s.in_progress (id ∷ [])))
  ]

  check-size : (n : ℕ) (s : Dag) → AtMost (size s) (check w config task_map c n s)
  unfolding check
  check-size n s = elim (Bool-cases (w.cancel_set n)) [
    | inl e ↦ rw e tt
    | inr e ↦ rw e (
        by_limit (reached config.total_timeout (w.elapsed n)) _ _
          (by_limit (reached config.total_token_budget s.total_token_usage) _ _ (omega arith)))
  ]
    where
      by_limit :
          (o : Option ℕ) (v : ℕ → Verdict) (m : Flow)
          → AtMost (size s) m
          → AtMost (size s) (unless_reached w config task_map c o v s m)
      by_limit none v m h = h
      by_limit (some limit) v m h = tt

  module _ (tasks : List String) (walk : IsOrder w.order) (waits : Waits w) where
    round-smaller :
        (n : ℕ) (s : Dag) (k : ℕ)
        → Inv (depends_on task_map) c tasks s
        → size s ≤ suc k
        → AtMost k (round w config task_map c n s)
    unfolding round
    round-smaller n s k i h =
        by_check (check w config task_map c n s) (check-Keeps w config task_map c tasks n s i)
          (check-size n s)
      where
        started :
            (t : Dag)
            → Inv (depends_on task_map) c tasks t
            → size t ≤ size s
            → let (ready, t') = find_ready w config task_map c (w.order n t.pending) t in
              AtMost k (settle w config task_map c n (start_ready w config task_map c ready t'))
        started t j le = rw (find_ready_lem w config task_map c tasks (w.order n t.pending) t j) (
            settle-smaller n _ k waits (
              omega (
                arith,
                start_ready-size (keep (satisfied w config task_map c t) (w.order n t.pending)) t
                    (Distinct-keep _ (w.order n t.pending) (walk.distinct n t.pending j.waiting))
                    j.waiting
                    (λ (x : String)
                        (m : member x (keep (satisfied w config task_map c t) (w.order n t.pending))
                          ≡ true).
                      ground (
                        arith,
                        m,
                        member-keep (satisfied w config task_map c t) x (w.order n t.pending),
                        walk.members n t.pending x,
                      )),
              )))

        by_check :
            (m : Flow)
            → Keeps w config task_map c tasks m
            → AtMost (size s) m
            → AtMost k (
                m >>= λ t.
                let (ready, t') = find_ready w config task_map c (w.order n t.pending) t in
                settle w config task_map c n (start_ready w config task_map c ready t'))
        by_check (go t) j le = started t j le
        by_check (leave t v) j le = tt

    -- One round more than there are tasks is enough.
    pub loop_returns :
        (fuel n : ℕ) (s : Dag)
        → Inv (depends_on task_map) c tasks s
        → size s < fuel
        → is_some (loop w config task_map c fuel n s) ≡ true
    unfolding loop
    loop_returns zero n s i h = absurd (omega arith)
    loop_returns (suc fuel) n s i h =
        elim (Bool-cases (is_empty s.pending && is_empty s.in_progress)) [
          | inl over ↦ rw over refl
          | inr on ↦ rw on (
              by_round (some_task s.pending s.in_progress on)
                (λ t j le. loop_returns fuel (suc n) t j le) (round w config task_map c n s)
                (round-Keeps w config task_map c tasks walk n s i) (by_size (size s) refl))
        ]
      where
        by_size : (k : ℕ) → size s ≡ k → AtMost (size s - 1) (round w config task_map c n s)
        by_size k e = round-smaller n s (size s - 1) i (omega arith)

        by_round :
            0 < size s
            → ((t : Dag)
                → Inv (depends_on task_map) c tasks t
                → size t < fuel
                → is_some (loop w config task_map c fuel (suc n) t) ≡ true)
            → (m : Flow) → Keeps w config task_map c tasks m
            → AtMost (size s - 1) m
            → is_some (elim m [
              | go t ↦ loop w config task_map c fuel (suc n) t
              | leave t v ↦ some (t, v)
            ])
              ≡ true
        by_round positive ih (go t) j le = ih t j (omega arith)
        by_round positive ih (leave t v) j le = refl
