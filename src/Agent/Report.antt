-- ===== src/Agent/Report.antt =====
-- What `_finish` reports of a run whose log has begun and not ended.
use ai_platform_mini.Prelude.{
  ℕ, suc, ◌≤◌, ◌≡◌, refl, ap, sym, subst, ◌∙◌, Bool, true, false, Option, none, some, List, [], ◌∷◌,
  ◌++◌, length, keep, Text, arith, Bool-cases, inl, inr,
}
use ai_platform_mini.Agent.Models.{RunStatus, StopReason, EventKind, AgentEvent, AgentRunResult, ℤ}
use ai_platform_mini.Agent.Events.{
  Run, bare, last_event, stamped, append_event, include_result_event, renumber, complete_steps,
  complete_open_steps, log_answer, finish, open_steps,
}
use ai_platform_mini.Agent.Log.{
  Numbered, Timed, Opened, Log, stops, append_event-Log, stops-append, Opened-append, Timed-more,
  stamped_kind,
}

-- The outcomes that a run can have: status, reason, answer and error belong together.
abbrev pub agrees : RunStatus → StopReason → Option Text → Option Text → Bool
agrees RunStatus.completed StopReason.direct_answer (some a) none = true
agrees RunStatus.stopped StopReason.max_steps none none = true
agrees RunStatus.stopped StopReason.token_budget_exceeded none none = true
agrees RunStatus.failed StopReason.model_error none (some e) = true
agrees RunStatus.failed StopReason.invalid_decision none (some e) = true
agrees RunStatus.cancelled StopReason.external_cancelled none none = true
agrees RunStatus.timed_out StopReason.deadline_exceeded none none = true
agrees _ _ _ _ = false

-- The last event says how the run ended.
abbrev pub Closes : Option AgentEvent → AgentRunResult → Type 0
Closes none x = ⊥
Closes (some e) x =
    (e.kind ≡ EventKind.run_stopped)
    × (e.status ≡ some x.status)
    × (e.stop_reason ≡ some x.stop_reason)
    × (e.message ≡ x.error)
    × (e.cumulative_token_usage ≡ some (ℤ.pos x.token_usage))

pub record Report (x : AgentRunResult) : Type 0 where
  pub numbered : Numbered 1 x.events
  pub timed : Timed 0 x.events
  pub opened : Opened x.events
  pub one_stop : stops x.events ≡ 1
  pub closes : Closes (last_event x.events) x
  pub agreed : agrees x.status x.stop_reason x.answer x.error ≡ true

Numbered-renumber : (n : ℕ) (es : List AgentEvent) → Numbered n (renumber n es)
Numbered-renumber n [] = tt
Numbered-renumber n (e ∷ es) = (refl, Numbered-renumber (suc n) es)

Timed-renumber : (n t : ℕ) (es : List AgentEvent) → Timed t es → Timed t (renumber n es)
Timed-renumber n t [] h = tt
Timed-renumber n t (e ∷ es) h = (h.0, Timed-renumber (suc n) e.occurred_at es h.1)

Timed-earlier : (s t : ℕ) (es : List AgentEvent) → s ≤ t → Timed t es → Timed s es
Timed-earlier s t [] le h = tt
Timed-earlier s t (e ∷ es) le h = (omega arith, h.1)

Timed-keep :
    (test : AgentEvent → Bool) (t : ℕ) (es : List AgentEvent) → Timed t es → Timed t (keep test es)
Timed-keep test t [] h = tt
Timed-keep test t (e ∷ es) h = elim (Bool-cases (test e)) [
  | inl kept ↦ rw kept (h.0, Timed-keep test e.occurred_at es h.1)
  | inr dropped ↦ rw dropped (Timed-keep test t es (Timed-earlier t e.occurred_at es h.0 h.1))
]

Opened-result :
    (n : ℕ) (es : List AgentEvent) → Opened es → Opened (renumber n (keep include_result_event es))
Opened-result n [] h = h
Opened-result n (e ∷ es) h = ground (arith, h)

stops-renumber : (n : ℕ) (es : List AgentEvent) → stops (renumber n es) ≡ stops es
stops-renumber n [] = refl
stops-renumber n (e ∷ es) = omega (arith, stops-renumber (suc n) es)

stops-keep : (es : List AgentEvent) → stops (keep include_result_event es) ≡ stops es
stops-keep [] = refl
stops-keep (e ∷ es) = ground (arith, stops-keep es)

keep-append :
    (test : AgentEvent → Bool) (es fs : List AgentEvent)
    → keep test (es ++ fs) ≡ keep test es ++ keep test fs
keep-append test [] fs = refl
keep-append test (e ∷ es) fs = ground (arith, keep-append test es fs)

-- The last event of a log that ends in a kept event is that event, renumbered.
last_event-result :
    (n : ℕ) (es : List AgentEvent) (e : AgentEvent)
    → (m : ℕ) × (last_event (renumber n (es ++ e ∷ [])) ≡ some (record e { sequence = m }))
last_event-result n [] e = (n, refl)
last_event-result n (x ∷ es) e =
    let (m, h) = last_event-result (suc n) es e in (m, ground (arith, h))

one_stop : (e : AgentEvent) → e.kind ≡ EventKind.run_stopped → stops (e ∷ []) ≡ 1
one_stop e k = ground (arith, k)

Closes-stamped :
    (o : Option AgentEvent) (now m : ℕ) (e : AgentEvent) (x : AgentRunResult)
    → Closes (some e) x
    → Closes (some (record (stamped o now e) { sequence = m })) x
Closes-stamped none now m e x c = c
Closes-stamped (some p) now m e x c = c

keep_stop :
    (e : AgentEvent) → e.kind ≡ EventKind.run_stopped → keep include_result_event (e ∷ []) ≡ e ∷ []
keep_stop e k = ground (arith, k)

Closes-last :
    (es : List AgentEvent) (e : AgentEvent) (x : AgentRunResult)
    → e.kind ≡ EventKind.run_stopped
    → ((m : ℕ) → Closes (some (record e { sequence = m })) x)
    → Closes (last_event (renumber 1 (es ++ keep include_result_event (e ∷ [])))) x
Closes-last es e x k c = let (m, h) = last_event-result 1 es e in rw (keep_stop e k, h) (c m)

module _ (clock : ℕ → ℕ) where
  complete_steps-Log :
      (is : List ℕ) (r : Run) → Log r.events → Log (complete_steps clock is r).events
  unfolding complete_steps
  complete_steps-Log [] r l = l
  complete_steps-Log (i ∷ is) r l =
      let e : AgentEvent = record (bare EventKind.step_completed) { step_index = some i } in
      complete_steps-Log is (append_event clock r e) (append_event-Log clock r e l refl)

  log_answer-Log :
      (r : Run) (status : RunStatus) (answer : Option Text)
      → Log r.events
      → Log (log_answer clock r status answer).events
  unfolding log_answer
  log_answer-Log r status answer l =
      ground (
        arith,
        append_event-Log clock r (record (bare EventKind.answer) { message = answer }) l refl,
      )

  -- The log of a run that ends, and its last event.
  ended-Report :
      (r : Run) (e : AgentEvent) (now : ℕ) (x : AgentRunResult)
      → Log r.events
      → e.kind ≡ EventKind.run_stopped
      → Closes (some e) x
      → agrees x.status x.stop_reason x.answer x.error ≡ true
      → x.events
        ≡ renumber 1
            (keep include_result_event (r.events ++ stamped (last_event r.events) now e ∷ []))
      → Report x
  ended-Report r e now x l k c a same =
      let e' = stamped (last_event r.events) now e in
      let all = r.events ++ e' ∷ [] in
      record {
        numbered = rw same (Numbered-renumber 1 (keep include_result_event all));
        timed = rw same (
            Timed-renumber 1 0 (keep include_result_event all)
              (Timed-keep include_result_event 0 all (Timed-more r.events e now l)));
        opened = rw same (Opened-result 1 all (Opened-append r.events (e' ∷ []) l.opened));
        one_stop = rw same (
            omega (
              arith,
              stops-renumber 1 (keep include_result_event all),
              stops-keep all,
              stops-append r.events (e' ∷ []),
              l.running,
              one_stop e' (stamped_kind _ now e ∙ k),
            ));
        closes =
            subst (λ es. Closes (last_event es) x)
              (sym (same ∙ ap (renumber 1) (keep-append include_result_event r.events (e' ∷ []))))
              (Closes-last (keep include_result_event r.events) e' x (stamped_kind _ now e ∙ k)
                (λ m. Closes-stamped (last_event r.events) now m e x c));
        agreed = a;
      }

  pub finish-Report :
      (r : Run) (status : RunStatus) (reason : StopReason) (answer error : Option Text)
      → Log r.events
      → agrees status reason answer error ≡ true
      → Report (finish clock r status reason answer error)
  unfolding finish complete_open_steps append_event
  finish-Report r status reason answer error l a =
      let logged = log_answer clock (complete_open_steps clock r) status answer in
      let l' =
        log_answer-Log (complete_open_steps clock r) status answer
          (complete_steps-Log (open_steps r.events) r l) in
      ended-Report logged
        (record (bare EventKind.run_stopped) {
          run_id = logged.state.run_id;
          status = some status;
          stop_reason = some reason;
          message = error;
          cumulative_token_usage = some (ℤ.pos r.state.token_usage);
        })
        (clock (length logged.events)) (finish clock r status reason answer error) l' refl
        (refl, refl, refl, refl, refl) a refl
