-- ===== src/RateLimit/Reset.antt =====
-- What the reset of an emptied queue grants: one call more than the limit.
use ai_platform_mini.Prelude.{
  ℕ, zero, suc, ◌+◌, ◌≤◌, ◌<◌, String, ◌≡◌, refl, ap, Bool, true, ◌&&◌, Option, none, some, List,
  [], ◌∷◌, ◌++◌, length, eq_refl, if◌then◌else◌, arith,
}
use ai_platform_mini.Prelude.Dict.{get}
use ai_platform_mini.RateLimit.{
  Limiter, drop_expired, window, acquire_queue, acquire, record_event, resume,
}
use ai_platform_mini.RateLimit.Keys.{get-acquire}
use ai_platform_mini.RateLimit.Bounds.{Call, history}

-- Calls that follow one another within one tick.
abbrev pub burst : String → ℕ → ℕ → List Call
burst key now zero = []
burst key now (suc n) = (key, now) ∷ burst key now n

abbrev pub copies : ℕ → ℕ → List ℕ
copies zero t = []
copies (suc n) t = t ∷ copies n t

copies_snoc : (n t : ℕ) → copies n t ++ t ∷ [] ≡ copies (suc n) t
copies_snoc zero t = refl
copies_snoc (suc n) t = ap (λ (r : List ℕ). t ∷ r) (copies_snoc n t)

length-copies : (n t : ℕ) → length (copies n t) ≡ n
length-copies zero t = omega arith
length-copies (suc n) t = omega (arith, length-copies n t)

drop_expired-copies : (w n t : ℕ) → drop_expired w t (copies n t) ≡ copies n t
unfolding drop_expired
drop_expired-copies w zero t = refl
drop_expired-copies w (suc n) t = ground (arith, drop_expired-copies w n t)

-- The entry holds `m` events of the present moment.
abbrev Holds : ℕ → ℕ → Option (List ℕ) → Type 0
Holds now m none = m ≡ 0
Holds now m (some queue) = (queue ≡ copies m now) × (1 ≤ m)

grant_step :
    (l : Limiter) (entry : Option (List ℕ)) (now m : ℕ)
    → Holds now m entry
    → m < l.limit
    → let (entry', r) = acquire_queue l entry now in (r.allowed ≡ true) × Holds now (suc m) entry'
unfolding acquire_queue record_event
grant_step l none now zero h lt = ground arith
grant_step l none now (suc m) h lt = ground arith
grant_step l (some queue) now zero h lt = absurd (omega arith)
grant_step l (some queue) now (suc m) (e, _) lt =
    rw (e, drop_expired-copies (window l) (suc m) now)
      (unfold resume record_event in ground (arith, copies_snoc (suc m) now, length-copies m now))

granted_call :
    (key : String) (l : Limiter) (now : ℕ)
    → (acquire_queue l (get key l.queues) now).1.allowed ≡ true
    → (acquire l key now).1.allowed ≡ true
unfolding acquire
granted_call key l now h = h

same_limit : (key : String) (l : Limiter) (now : ℕ) → (acquire l key now).0.limit ≡ l.limit
unfolding acquire
same_limit key l now = refl

history_granted :
    (key : String) (l : Limiter) (grants : List ℕ) (now : ℕ) (calls : List Call)
    → (acquire l key now).1.allowed ≡ true
    → history key l grants ((key, now) ∷ calls)
      ≡ history key (acquire l key now).0 (now ∷ grants) calls
history_granted key l grants now calls ok =
    ap (λ (b : Bool). history key (acquire l key now).0 (if b then now ∷ grants else grants) calls)
      (both (eq_refl key) ok)
  where
    both : {a b : Bool} → a ≡ true → b ≡ true → (a && b) ≡ true
    both p q = ground arith

fill :
    (n : ℕ) (key : String) (l : Limiter) (grants : List ℕ) (now m : ℕ)
    → Holds now m (get key l.queues)
    → m + n ≤ l.limit
    → length (history key l grants (burst key now n)).1 ≡ n + length grants
fill zero key l grants now m h le = omega arith
fill (suc n) key l grants now m h le =
    let (ok, held) = grant_step l (get key l.queues) now m h (omega arith) in
    let l' = (acquire l key now).0 in
    let e = history_granted key l grants now (burst key now n) (granted_call key l now ok) in
    let rest =
      fill n key l' (now ∷ grants) now (suc m) (rw (get-acquire l key key now, eq_refl key) held)
        (omega (arith, same_limit key l now)) in
    omega (arith, rest, ap (λ (r : Limiter × List ℕ). length r.1) e)

reset_call :
    (l : Limiter) (old : List ℕ) (now : ℕ)
    → drop_expired (window l) now old ≡ []
    → let (entry, r) = acquire_queue l (some old) now in (entry ≡ none) × (r.allowed ≡ true)
unfolding acquire_queue
reset_call l old now empty = rw empty (unfold resume in (refl, refl))

-- When all events of a key have left the window, `limit + 1` calls of that key at one moment are
-- all granted.
pub burst_after_reset :
    (key : String) (l : Limiter) (old : List ℕ) (now : ℕ)
    → get key l.queues ≡ some old
    → drop_expired (window l) now old ≡ []
    → length (history key l [] (burst key now (suc l.limit))).1 ≡ suc l.limit
burst_after_reset key l old now found empty =
    let (gone, ok) = reset_call l old now empty in
    let l' = (acquire l key now).0 in
    let e =
      history_granted key l [] now (burst key now l.limit) (granted_call key l now (rw found ok)) in
    let rest =
      fill l.limit key l' (now ∷ []) now 0
        (rw (get-acquire l key key now, eq_refl key, found, gone) refl)
        (omega (arith, same_limit key l now)) in
    omega (arith, rest, ap (λ (r : Limiter × List ℕ). length r.1) e)
