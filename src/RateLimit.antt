-- ===== src/RateLimit.antt =====
-- app/ratelimit/base.py, memory.py and service.py. A time is a number of clock ticks, `hz` of them
-- to the second, where the program has a float of seconds; the window is counted in seconds.
mod Window
pub mod Keys
pub mod Bounds
pub mod Reset
mod Tests
pub use Window.{expired}
unfoldable pub use Window.{drop_expired}
use ai_platform_mini.Prelude.{
  ℕ, ◌+◌, ◌-◌, ◌*◌, ◌/◌, max, String, Bool, true, false, Option, none, some, List, [], ◌∷◌, ◌++◌,
  length, leb, if◌then◌else◌,
}
use ai_platform_mini.Prelude.Dict.{Dict, get, put, remove}

pub record RateLimitResult : Type 0 where
  pub allowed : Bool
  pub remaining : ℕ
  pub limit : ℕ
  pub reset_after : ℕ

pub record Limiter : Type 0 where
  pub hz : ℕ
  pub limit : ℕ
  pub window_seconds : ℕ
  pub queues : Dict (List ℕ)

abbrev pub window : Limiter → ℕ
window l = l.window_seconds * l.hz

-- `int(x)` of a time that is not negative
seconds : Limiter → ℕ → ℕ
seconds l ticks = ticks / l.hz

reset_after : Limiter → List ℕ → ℕ → ℕ
unfolding seconds
reset_after l [] now = l.window_seconds
reset_after l (t ∷ _) now = max 1 (seconds l (t + window l - now))

-- What `acquire` does from the length test on, with the queue that is left.
record_event : Limiter → List ℕ → ℕ → List ℕ × RateLimitResult
unfolding reset_after
record_event l queue now =
    let after = reset_after l queue now in
    if leb l.limit (length queue)
    then (queue, record { allowed = false; remaining = 0; limit = l.limit; reset_after = after })
    else let queue' = queue ++ now ∷ [] in
      (
        queue',
        record {
          allowed = true;
          remaining = l.limit - length queue';
          limit = l.limit;
          reset_after = after;
        },
      )

-- The rest of `acquire` for a key that had an entry, with the events left after the drop.
resume : Limiter → ℕ → List ℕ → Option (List ℕ) × RateLimitResult
unfolding record_event
resume l now [] = (
  none,
  record { allowed = true; remaining = l.limit; limit = l.limit; reset_after = l.window_seconds },
)
resume l now queue = let (queue', r) = record_event l queue now in (some queue', r)

-- The queue that one call leaves for its key (`none`: no entry), and its result.
pub acquire_queue : Limiter → Option (List ℕ) → ℕ → Option (List ℕ) × RateLimitResult
unfolding record_event resume drop_expired
acquire_queue l none now = let (queue, r) = record_event l [] now in (some queue, r)
acquire_queue l (some old) now = resume l now (drop_expired (window l) now old)

-- `self._queues[key] = queue`, or `del self._queues[key]`
store : String → Option (List ℕ) → Dict (List ℕ) → Dict (List ℕ)
store key none queues = remove key queues
store key (some queue) queues = put key queue queues

pub acquire : Limiter → String → ℕ → Limiter × RateLimitResult
unfolding store acquire_queue
acquire l key now =
    let (queue, r) = acquire_queue l (get key l.queues) now in
    (record l { queues = store key queue l.queues }, r)

-- `RateLimitService.check_and_record` and `check_and_record_key`: the error carries the limit and
-- the seconds that its message shows.
pub data RateLimitError : Type 0 where
  rate_limit_exceeded : ℕ → ℕ → RateLimitError

pub data Checked : Type 0 where
  passed : RateLimitResult → Checked
  raised : RateLimitError → Checked

pub check_and_record : Limiter → String → ℕ → Limiter × Checked
unfolding acquire
check_and_record l key now =
    let (l', r) = acquire l key now in
    (l', if r.allowed then passed r else raised (rate_limit_exceeded r.limit r.reset_after))
