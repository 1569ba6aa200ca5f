-- ===== src/RateLimit/Window.antt =====
-- The events of one key's queue that have left the window (`MemorySlidingWindowLimiter.acquire`).
use ai_platform_mini.Prelude.{
  ℕ, ◌+◌, ◌≤◌, ◌≡◌, refl, Bool, List, [], ◌∷◌, length, ltb, if◌then◌else◌, arith,
}

-- `queue[0] < now - window`
abbrev pub expired : ℕ → ℕ → ℕ → Bool
expired window now t = ltb (t + window) now

-- `while queue and queue[0] < cutoff: queue.popleft()`
unfoldable pub drop_expired : ℕ → ℕ → List ℕ → List ℕ
drop_expired window now [] = []
drop_expired window now (t ∷ queue) =
    let rest = drop_expired window now queue in if expired window now t then rest else t ∷ queue

-- How many events are still inside the window at a time.
abbrev pub recent : ℕ → ℕ → List ℕ → ℕ
recent window now [] = 0
recent window now (t ∷ ts) = (if expired window now t then 0 else 1) + recent window now ts

pub recent-le-length : (window now : ℕ) (ts : List ℕ) → recent window now ts ≤ length ts
recent-le-length window now [] = omega arith
recent-le-length window now (t ∷ ts) = ground (arith, recent-le-length window now ts)

-- What is dropped at one time is outside the window at every later time.
pub recent-drop_expired :
    (window now later : ℕ) (queue : List ℕ)
    → now ≤ later
    → recent window later (drop_expired window now queue) ≡ recent window later queue
unfolding drop_expired
recent-drop_expired window now later [] h = refl
recent-drop_expired window now later (t ∷ queue) h =
    ground (arith, recent-drop_expired window now later queue h)

pub length-drop_expired :
    (window now : ℕ) (queue : List ℕ) → length (drop_expired window now queue) ≤ length queue
unfolding drop_expired
length-drop_expired window now [] = omega arith
length-drop_expired window now (t ∷ queue) = ground (arith, length-drop_expired window now queue)
