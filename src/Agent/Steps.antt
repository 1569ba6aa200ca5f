-- ===== src/Agent/Steps.antt =====
-- `_complete_open_steps` leaves no step open.
use ai_platform_mini.Prelude.{
  ℕ, ◌≡◌, refl, Bool, false, not, ◌&&◌, ◌||◌, Option, none, some, List, [], ◌∷◌, ◌++◌, length, ◌==◌,
  arith,
}
use ai_platform_mini.Agent.Models.{EventKind, AgentEvent}
use ai_platform_mini.Agent.Events.{
  Run, bare, last_event, stamped, append_event, indices, has, insert_sorted, sorted_without,
  open_steps, complete_steps, complete_open_steps, is_step_started, is_step_completed,
}
use ai_platform_mini.Agent.Log.{stamped_kind}

has-append : (i : ℕ) (xs ys : List ℕ) → has i (xs ++ ys) ≡ has i xs || has i ys
has-append i [] ys = refl
has-append i (x ∷ xs) ys = ground (arith, has-append i xs ys)

has-insert_sorted : (i j : ℕ) (xs : List ℕ) → has i (insert_sorted j xs) ≡ (i == j) || has i xs
has-insert_sorted i j [] = refl
has-insert_sorted i j (x ∷ xs) = ground (arith, has-insert_sorted i j xs)

has-sorted_without :
    (i : ℕ) (xs ys : List ℕ) → has i (sorted_without xs ys) ≡ has i xs && not (has i ys)
has-sorted_without i [] ys = refl
has-sorted_without i (x ∷ xs) ys =
    ground (arith, has-sorted_without i xs ys, has-insert_sorted i x (sorted_without xs ys))

indices-append :
    (test : EventKind → Bool) (es fs : List AgentEvent)
    → indices test (es ++ fs) ≡ indices test es ++ indices test fs
indices-append test [] fs = refl
indices-append test (e ∷ es) fs = ground (arith, indices-append test es fs)

stamped_index :
    (o : Option AgentEvent) (now : ℕ) (e : AgentEvent) → (stamped o now e).step_index ≡ e.step_index
stamped_index none now e = refl
stamped_index (some p) now e = refl

module _ (clock : ℕ → ℕ) where
  indices-append_event :
      (test : EventKind → Bool) (r : Run) (e : AgentEvent)
      → indices test (append_event clock r e).events
        ≡ indices test r.events ++ indices test (e ∷ [])
  unfolding append_event
  indices-append_event test r e = ground (
    arith,
    indices-append test r.events (
        stamped (last_event r.events) (clock (length r.events))
          (record e { run_id = r.state.run_id })
        ∷ []),
    stamped_kind (last_event r.events) (clock (length r.events))
        (record e { run_id = r.state.run_id }),
    stamped_index (last_event r.events) (clock (length r.events))
        (record e { run_id = r.state.run_id }),
  )

  started-complete_steps :
      (i : ℕ) (is : List ℕ) (r : Run)
      → has i (indices is_step_started (complete_steps clock is r).events)
        ≡ has i (indices is_step_started r.events)
  unfolding complete_steps
  started-complete_steps i [] r = refl
  started-complete_steps i (j ∷ js) r =
      let e = record (bare EventKind.step_completed) { step_index = some j } in
      ground (
        arith,
        started-complete_steps i js (append_event clock r e),
        indices-append_event is_step_started r e,
        has-append i (indices is_step_started r.events) [],
      )

  completed-complete_steps :
      (i : ℕ) (is : List ℕ) (r : Run)
      → has i (indices is_step_completed (complete_steps clock is r).events)
        ≡ has i (indices is_step_completed r.events) || has i is
  unfolding complete_steps
  completed-complete_steps i [] r = ground arith
  completed-complete_steps i (j ∷ js) r =
      let e = record (bare EventKind.step_completed) { step_index = some j } in
      ground (
        arith,
        completed-complete_steps i js (append_event clock r e),
        indices-append_event is_step_completed r e,
        has-append i (indices is_step_completed r.events) (j ∷ []),
      )

  -- After `_complete_open_steps` the steps that were started are the same, each of them has been
  -- completed, and a step is completed only if it was before or had been started.
  pub complete_open_steps_lem :
      (i : ℕ) (r : Run)
      → let r' = complete_open_steps clock r in
        (has i (indices is_step_started r'.events) ≡ has i (indices is_step_started r.events))
        × (has i (indices is_step_completed r'.events)
            ≡ has i (indices is_step_completed r.events)
              || has i (indices is_step_started r.events))
        × (has i (open_steps r'.events) ≡ false)
  unfolding complete_open_steps open_steps
  complete_open_steps_lem i r =
      let s = indices is_step_started r.events in
      let c = indices is_step_completed r.events in
      let r' = complete_steps clock (sorted_without s c) r in
      let p = started-complete_steps i (sorted_without s c) r in
      let q = completed-complete_steps i (sorted_without s c) r in
      let h = has-sorted_without i s c in
      (
        p,
        ground (arith, q, h),
        ground (
          arith,
          p,
          q,
          h,
          has-sorted_without i (indices is_step_started r'.events)
              (indices is_step_completed r'.events),
        ),
      )
