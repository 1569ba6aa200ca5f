-- ===== src/Orchestra/Schedule.antt =====
-- What a schedule must satisfy, read off the log of calls (the latest first).
use ai_platform_mini.Prelude.{
  ℕ, suc, ◌-◌, ◌<◌, ◌≡◌, refl, String, Bool, true, false, ◌&&◌, ◌||◌, Option, none, some,
  if◌then◌else◌, List, [], ◌∷◌, all, str_eq, eq_iff, arith,
}
use ai_platform_mini.Orchestra.Models.{TaskStatus, SubtaskResult}
use ai_platform_mini.Orchestra.Dag.{Call}

abbrev pub is_completed : TaskStatus → Bool
is_completed TaskStatus.completed = true
is_completed _ = false

abbrev pub is_failed : TaskStatus → Bool
is_failed TaskStatus.failed = true
is_failed _ = false

abbrev pub was_started : String → List Call → Bool
was_started id [] = false
was_started id (Call.started j ∷ l) = str_eq j id || was_started id l
was_started id (Call.finished j r ∷ l) = was_started id l

abbrev pub was_finished : String → List Call → Bool
was_finished id [] = false
was_finished id (Call.started j ∷ l) = was_finished id l
was_finished id (Call.finished j r ∷ l) = str_eq j id || was_finished id l

-- A task finished with a result whose status passes a test.
abbrev pub was : (TaskStatus → Bool) → String → List Call → Bool
was test id [] = false
was test id (Call.started j ∷ l) = was test id l
was test id (Call.finished j r ∷ l) = (str_eq j id && test r.status) || was test id l

-- The result with which a task finished.
abbrev pub result_in : String → List Call → Option SubtaskResult
result_in id [] = none
result_in id (Call.started j ∷ l) = result_in id l
result_in id (Call.finished j r ∷ l) = if str_eq j id then some r else result_in id l

-- The number of tasks that run.
abbrev pub active : List Call → ℕ
active [] = 0
active (Call.started j ∷ l) = suc (active l)
active (Call.finished j r ∷ l) = active l - 1

-- A task is started once, when all its dependencies have finished as completed and fewer tasks run
-- than may; it finishes once, after its start.
abbrev pub Legal : (String → List String) → ℕ → List Call → Type 0
Legal deps c [] = Unit
Legal deps c (Call.started id ∷ l) =
    (all (λ d. was is_completed d l) (deps id) ≡ true)
    × (was_started id l ≡ false)
    × (active l < c)
    × Legal deps c l
Legal deps c (Call.finished id r ∷ l) =
    (was_started id l ≡ true) × (was_finished id l ≡ false) × Legal deps c l

-- A task that has finished in one way has not finished in another.
pub was-was_finished :
    (test : TaskStatus → Bool) (id : String) (l : List Call)
    → was test id l ≡ true
    → was_finished id l ≡ true
was-was_finished test id [] h = cc
was-was_finished test id (Call.started j ∷ l) h = was-was_finished test id l h
was-was_finished test id (Call.finished j r ∷ l) h = ground (arith, was-was_finished test id l)

exclusive : (t : TaskStatus) → is_completed t && is_failed t ≡ false
exclusive TaskStatus.failed = refl
exclusive TaskStatus.completed = refl
exclusive TaskStatus.pending = refl
exclusive TaskStatus.running = refl
exclusive TaskStatus.cancelled = refl
exclusive TaskStatus.skipped = refl

pub completed_or_failed :
    (deps : String → List String) (c : ℕ) (id : String) (l : List Call)
    → Legal deps c l
    → was is_completed id l ≡ true
    → was is_failed id l ≡ false
completed_or_failed deps c id [] legal h = refl
completed_or_failed deps c id (Call.started j ∷ l) legal h =
    completed_or_failed deps c id l legal.3 h
completed_or_failed deps c id (Call.finished j r ∷ l) legal h =
    let (a, b, before) = legal in
    ground (
      arith,
      b,
      eq_iff j id,
      exclusive r.status,
      was-was_finished is_completed id l,
      was-was_finished is_failed id l,
      completed_or_failed deps c id l before,
    )
