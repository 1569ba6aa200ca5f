-- ===== src/Agent/Log.antt =====
-- The event log: its numbers, its times, its first and its last event.
use ai_platform_mini.Prelude.{
  ℕ, suc, ◌+◌, ◌≤◌, ◌≡◌, refl, Bool, true, false, Option, none, some, List, [], ◌∷◌, ◌++◌, length,
  if◌then◌else◌, arith,
}
use ai_platform_mini.Agent.Models.{EventKind, AgentEvent}
use ai_platform_mini.Agent.Events.{Run, last_event, stamped, append_event}

abbrev pub Numbered : ℕ → List AgentEvent → Type 0
Numbered n [] = Unit
Numbered n (e ∷ es) = (e.sequence ≡ n) × Numbered (suc n) es

abbrev pub Timed : ℕ → List AgentEvent → Type 0
Timed t [] = Unit
Timed t (e ∷ es) = (t ≤ e.occurred_at) × Timed e.occurred_at es

abbrev pub Opened : List AgentEvent → Type 0
Opened [] = ⊥
Opened (e ∷ es) = e.kind ≡ EventKind.run_started

abbrev pub is_stopped : EventKind → Bool
is_stopped EventKind.run_stopped = true
is_stopped _ = false

abbrev pub stops : List AgentEvent → ℕ
stops [] = 0
stops (e ∷ es) = (if is_stopped e.kind then 1 else 0) + stops es

-- A log that has begun and not ended.
pub record Log (es : List AgentEvent) : Type 0 where
  pub numbered : Numbered 1 es
  pub timed : Timed 0 es
  pub opened : Opened es
  pub running : stops es ≡ 0

Numbered-snoc :
    (n : ℕ) (es : List AgentEvent) (e : AgentEvent)
    → Numbered n es
    → e.sequence ≡ n + length es
    → Numbered n (es ++ e ∷ [])
Numbered-snoc n [] e h s = (omega arith, tt)
Numbered-snoc n (x ∷ es) e h s = (h.0, Numbered-snoc (suc n) es e h.1 (omega arith))

pub last_event-some :
    (e : AgentEvent) (es : List AgentEvent) → (p : AgentEvent) × (last_event (e ∷ es) ≡ some p)
last_event-some e [] = (e, refl)
last_event-some e (f ∷ es) = let (p, h) = last_event-some f es in (p, ground arith)

last_number :
    (n : ℕ) (es : List AgentEvent) (p : AgentEvent)
    → Numbered n es
    → last_event es ≡ some p
    → p.sequence + 1 ≡ n + length es
last_number n [] p h e = cc
last_number n (x ∷ []) p h e = ground arith
last_number n (x ∷ y ∷ es) p h e =
    let (q, f) = last_event-some y es in ground (arith, last_number (suc n) (y ∷ es) q h.1 f)

abbrev end_time : ℕ → List AgentEvent → ℕ
end_time t [] = t
end_time t (e ∷ es) = end_time e.occurred_at es

Timed-snoc :
    (t : ℕ) (es : List AgentEvent) (e : AgentEvent)
    → Timed t es
    → end_time t es ≤ e.occurred_at
    → Timed t (es ++ e ∷ [])
Timed-snoc t [] e h le = (le, tt)
Timed-snoc t (x ∷ es) e h le = (h.0, Timed-snoc x.occurred_at es e h.1 le)

end_time-last :
    (t : ℕ) (es : List AgentEvent) (p : AgentEvent)
    → last_event es ≡ some p
    → end_time t es ≡ p.occurred_at
end_time-last t [] p h = cc
end_time-last t (e ∷ []) p h = ground arith
end_time-last t (e ∷ f ∷ es) p h =
    let (q, g) = last_event-some f es in ground (arith, end_time-last e.occurred_at (f ∷ es) q g)

pub stops-append : (es fs : List AgentEvent) → stops (es ++ fs) ≡ stops es + stops fs
stops-append [] fs = omega arith
stops-append (e ∷ es) fs = omega (arith, stops-append es fs)

pub Opened-append : (es fs : List AgentEvent) → Opened es → Opened (es ++ fs)
Opened-append [] fs h = absurd h
Opened-append (e ∷ es) fs h = h

-- One more event, with the number and the time that `_append_event` gives it.
pub Timed-more :
    (es : List AgentEvent) (e : AgentEvent) (now : ℕ)
    → Log es
    → Timed 0 (es ++ stamped (last_event es) now e ∷ [])
Timed-more [] e now l = absurd l.opened
Timed-more (x ∷ es) e now l =
    let (p, f) = last_event-some x es in
    rw f (
      Timed-snoc 0 (x ∷ es) (stamped (some p) now e) l.timed
        (ground (arith, end_time-last 0 (x ∷ es) p f)))

Numbered-more :
    (es : List AgentEvent) (e : AgentEvent) (now : ℕ)
    → Log es
    → Numbered 1 (es ++ stamped (last_event es) now e ∷ [])
Numbered-more [] e now l = absurd l.opened
Numbered-more (x ∷ es) e now l =
    let (p, f) = last_event-some x es in
    rw f (
      Numbered-snoc 1 (x ∷ es) (stamped (some p) now e) l.numbered
        (omega (arith, last_number 1 (x ∷ es) p l.numbered f)))

pub stamped_kind :
    (o : Option AgentEvent) (now : ℕ) (e : AgentEvent) → (stamped o now e).kind ≡ e.kind
stamped_kind none now e = refl
stamped_kind (some p) now e = refl

Log-more :
    (es : List AgentEvent) (e : AgentEvent) (now : ℕ)
    → Log es
    → is_stopped e.kind ≡ false
    → Log (es ++ stamped (last_event es) now e ∷ [])
Log-more es e now l k = record {
  numbered = Numbered-more es e now l;
  timed = Timed-more es e now l;
  opened = Opened-append es (stamped (last_event es) now e ∷ []) l.opened;
  running = ground (
    arith,
    l.running,
    stamped_kind (last_event es) now e,
    stops-append es (stamped (last_event es) now e ∷ []),
  );
}

module _ (clock : ℕ → ℕ) where
  pub append_event-Log :
      (r : Run) (e : AgentEvent)
      → Log r.events
      → is_stopped e.kind ≡ false
      → Log (append_event clock r e).events
  unfolding append_event
  append_event-Log r e l k =
      Log-more r.events (record e { run_id = r.state.run_id }) (clock (length r.events)) l k

  pub state-append_event : (r : Run) (e : AgentEvent) → (append_event clock r e).state ≡ r.state
  unfolding append_event
  state-append_event r e = refl
