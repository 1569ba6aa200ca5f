-- ===== src/RateLimit/Bounds.antt =====
-- How many calls of one key pass in one window, over any sequence of calls on any keys.
use ai_platform_mini.Prelude.{
  ℕ, ◌+◌, ◌≤◌, ◌<◌, String, ◌≡◌, refl, sym, Bool, ◌&&◌, Option, none, some, List, [], ◌∷◌, ◌++◌,
  All, length, length-append, if◌then◌else◌, str_eq, eq_iff, Bool-cases, inl, inr, arith,
}
use ai_platform_mini.Prelude.Dict.{get}
use ai_platform_mini.RateLimit.{
  Limiter, drop_expired, window, acquire_queue, acquire, record_event, resume,
}
use ai_platform_mini.RateLimit.Window.{
  recent, recent-le-length, recent-drop_expired, length-drop_expired,
}
use ai_platform_mini.RateLimit.Keys.{get-acquire, acquire_settings, events}

recent-append : (w t : ℕ) (xs ys : List ℕ) → recent w t (xs ++ ys) ≡ recent w t xs + recent w t ys
recent-append w t [] ys = omega arith
recent-append w t (x ∷ xs) ys = omega (arith, recent-append w t xs ys)

recent_past : (w now t : ℕ) (ts : List ℕ) → All (λ g. g ≤ now) ts → now + w < t → recent w t ts ≡ 0
recent_past w now t [] h lt = refl
recent_past w now t (g ∷ ts) h lt = ground (arith, recent_past w now t ts h.1 lt)

All-le :
    (now later : ℕ) (ts : List ℕ) → All (λ g. g ≤ now) ts → now ≤ later → All (λ g. g ≤ later) ts
All-le now later [] h le = tt
All-le now later (g ∷ ts) h le = (omega arith, All-le now later ts h.1 le)

-- The entry accounts for the grants of its key that are still in the window, but for one: a call
-- that finds all events expired is granted and leaves no event behind.
abbrev Covers : ℕ → Option (List ℕ) → List ℕ → ℕ → Type 0
Covers w none grants t = recent w t grants ≤ 1
Covers w (some queue) grants t =
    (recent w t grants ≤ recent w t queue + 1) × (recent w t queue ≡ 0 → recent w t grants ≡ 0)

record IsCounted (l : Limiter) (entry : Option (List ℕ)) (grants : List ℕ) (now : ℕ) : Type 0 where
  past : All (λ g. g ≤ now) grants
  fits : length (events entry) ≤ l.limit
  covers : (t : ℕ) → now ≤ t → Covers (window l) entry grants t

abbrev granted : Bool → ℕ → List ℕ → List ℕ
granted allowed now grants = if allowed then now ∷ grants else grants

module _ (l : Limiter) (some_limit : 1 ≤ l.limit) (grants : List ℕ) (last now : ℕ)
    (later : last ≤ now) where
  new_key :
      IsCounted l none grants last
      → let (entry, r) = acquire_queue l none now in
        IsCounted l entry (granted r.allowed now grants) now
  unfolding acquire_queue record_event
  new_key c = record {
    past = ground (arith, All-le last now grants c.past later);
    fits = ground arith;
    covers = λ t le. ground (arith, c.covers t, recent_past (window l) last t grants c.past);
  }

  record_event_step :
      (queue : List ℕ)
      → IsCounted l (some queue) grants now
      → let (queue', r) = record_event l queue now in
        IsCounted l (some queue') (granted r.allowed now grants) now
  unfolding record_event
  record_event_step queue c = record {
    past = ground (arith, c.past);
    fits = ground (arith, length-append queue (now ∷ []), c.fits);
    covers = λ t le. ground (arith, c.covers t le, recent-append (window l) t queue (now ∷ []));
  }

  acquire_queue_step :
      (entry : Option (List ℕ))
      → IsCounted l entry grants last
      → let (entry', r) = acquire_queue l entry now in
        IsCounted l entry' (granted r.allowed now grants) now
  acquire_queue_step none c = new_key c
  acquire_queue_step (some old) c =
      unfold acquire_queue in
      after_drop (drop_expired (window l) now old) (length-drop_expired (window l) now old)
        (λ t le. recent-drop_expired (window l) now t old le)
    where
      after_drop :
          (queue : List ℕ)
          → length queue ≤ length old
          → ((t : ℕ) → now ≤ t → recent (window l) t queue ≡ recent (window l) t old)
          → let (entry', r) = resume l now queue in
            IsCounted l entry' (granted r.allowed now grants) now
      after_drop [] shorter same =
          unfold resume in
          record {
            past = ground (arith, All-le last now grants c.past later);
            fits = omega arith;
            covers = λ t le. ground (arith, c.covers t (omega arith), same t le);
          }
      after_drop (q ∷ queue) shorter same =
          unfold resume in
          record_event_step (q ∷ queue) (record {
            past = All-le last now grants c.past later;
            fits = omega (arith, c.fits);
            covers = λ t le. ground (arith, c.covers t (omega arith), same t le);
          })

-- A call of `acquire`: the key, and the clock that it reads.
abbrev pub Call : Type 0
Call = String × ℕ

-- The limiter after some calls, and the times at which those of one key were granted.
abbrev pub history : String → Limiter → List ℕ → List Call → Limiter × List ℕ
history key l grants [] = (l, grants)
history key l grants ((j, now) ∷ calls) =
    let (l', r) = acquire l j now in
    history key l' (if str_eq j key && r.allowed then now ∷ grants else grants) calls

-- `time.monotonic()` never goes back.
abbrev pub IsMonotonic : ℕ → List Call → Type 0
IsMonotonic last [] = Unit
IsMonotonic last ((j, now) ∷ calls) = (last ≤ now) × IsMonotonic now calls

abbrev pub clock : ℕ → List Call → ℕ
clock last [] = last
clock last ((j, now) ∷ calls) = clock now calls

other_key :
    (l : Limiter) (entry : Option (List ℕ)) (grants : List ℕ) (last now : ℕ)
    → last ≤ now
    → IsCounted l entry grants last
    → IsCounted l entry grants now
other_key l none grants last now later c = record {
  past = All-le last now grants c.past later;
  fits = c.fits;
  covers = λ t le. c.covers t (omega arith);
}
other_key l (some queue) grants last now later c = record {
  past = All-le last now grants c.past later;
  fits = c.fits;
  covers = λ t le. c.covers t (omega arith);
}

-- The invariant speaks of the settings alone.
with_queues :
    (l l' : Limiter) (entry : Option (List ℕ)) (grants : List ℕ) (now : ℕ)
    → l'.limit ≡ l.limit
    → window l' ≡ window l
    → IsCounted l entry grants now
    → IsCounted l' entry grants now
with_queues l l' none grants now el ew c = record {
  past = c.past;
  fits = omega (arith, c.fits);
  covers = λ t le. rw ew (c.covers t le);
}
with_queues l l' (some queue) grants now el ew c = record {
  past = c.past;
  fits = omega (arith, c.fits);
  covers = λ t le. rw ew (c.covers t le);
}

acquire-IsCounted :
    (key j : String) (l : Limiter) (grants : List ℕ) (last now : ℕ)
    → 1 ≤ l.limit
    → last ≤ now
    → IsCounted l (get key l.queues) grants last
    → let (l', r) = acquire l j now in
      IsCounted l'
        (get key l'.queues)
        (if str_eq j key && r.allowed then now ∷ grants else grants)
        now
unfolding acquire
acquire-IsCounted key j l grants last now pos later c = elim (Bool-cases (str_eq j key)) [
  | inl same ↦
      rw (get-acquire l j key now, same)
        (with_queues l (acquire l j now).0 _ _ now refl refl (
          acquire_queue_step l pos grants last now later (get j l.queues)
            (rw ((eq_iff j key).0 same) c)))
  | inr differs ↦
      rw (get-acquire l j key now, differs)
        (with_queues l (acquire l j now).0 _ _ now refl refl
          (other_key l (get key l.queues) grants last now later c))
]

history-IsCounted :
    (key : String) (calls : List Call) (l : Limiter) (grants : List ℕ) (last : ℕ)
    → 1 ≤ l.limit
    → IsMonotonic last calls
    → IsCounted l (get key l.queues) grants last
    → let (l', grants') = history key l grants calls in
      IsCounted l' (get key l'.queues) grants' (clock last calls)
history-IsCounted key [] l grants last pos mono c = c
history-IsCounted key ((j, now) ∷ calls) l grants last pos mono c =
    history-IsCounted key calls (acquire l j now).0 _ now (omega (arith, acquire_settings l j now))
      mono.1 (acquire-IsCounted key j l grants last now pos mono.0 c)

history_settings :
    (key : String) (calls : List Call) (l : Limiter) (grants : List ℕ)
    → let l' = (history key l grants calls).0 in (l'.limit ≡ l.limit) × (window l' ≡ window l)
history_settings key [] l grants = (refl, refl)
history_settings key ((j, now) ∷ calls) l grants = ground (
  arith,
  acquire_settings l j now,
  history_settings key calls (acquire l j now).0
      (if str_eq j key && (acquire l j now).1.allowed then now ∷ grants else grants),
)

counted-le-limit :
    (l : Limiter) (entry : Option (List ℕ)) (grants : List ℕ) (now : ℕ)
    → 1 ≤ l.limit
    → IsCounted l entry grants now
    → recent (window l) now grants ≤ l.limit + 1
counted-le-limit l none grants now pos c = omega (arith, c.covers now (omega arith))
counted-le-limit l (some queue) grants now pos c =
    omega (arith, c.fits, (c.covers now (omega arith)).0, recent-le-length (window l) now queue)

-- A limiter that starts empty with a limit of at least one grants, whatever calls on whatever keys
-- are made at times that never go back, at most `limit + 1` calls of one key in the window that
-- ends at the last call.
pub history-le-limit :
    (key : String) (l : Limiter) (calls : List Call)
    → 1 ≤ l.limit
    → l.queues ≡ []
    → IsMonotonic 0 calls
    → recent (window l) (clock 0 calls) (history key l [] calls).1 ≤ l.limit + 1
history-le-limit key l calls pos start mono =
    let (l', grants) = history key l [] calls in
    let (same_limit, same_window) = history_settings key calls l [] in
    let c =
      history-IsCounted key calls l [] 0 pos mono
        (fresh (get key l.queues) (rw start (unfold get in refl))) in
    counted-le-limit l (get key l'.queues) grants (clock 0 calls) pos (
      with_queues l' l (get key l'.queues) grants (clock 0 calls) (sym same_limit) (sym same_window)
        c)
  where
    fresh : (entry : Option (List ℕ)) → entry ≡ none → IsCounted l entry [] 0
    fresh none e = record { past = tt; fits = omega arith; covers = λ t le. omega arith }
    fresh (some queue) e = cc
