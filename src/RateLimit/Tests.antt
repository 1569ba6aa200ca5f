-- ===== src/RateLimit/Tests.antt =====
-- Runs of the limiter on small inputs.
use ai_platform_mini.Prelude.{◌≡◌, refl, false, List, [], ◌∷◌, length, arith, ◌≤◌}
use ai_platform_mini.Prelude.Dict.{get, put}
use ai_platform_mini.RateLimit.{
  Limiter, acquire, drop_expired, raised, rate_limit_exceeded, check_and_record,
}
use ai_platform_mini.RateLimit.Window.{recent}
use ai_platform_mini.RateLimit.Bounds.{Call, history, history-le-limit}
use ai_platform_mini.RateLimit.Reset.{burst, burst_after_reset}

-- Two requests a minute, in milliseconds.
abbrev limiter : Limiter
limiter = record { hz = 1000; limit = 2; window_seconds = 60; queues = [] }

abbrev used : Limiter
used = record limiter { queues = ("k", 1000 ∷ 2000 ∷ []) ∷ [] }

third_refused :
    (acquire used "k" 3000).1
    ≡ record { allowed = false; remaining = 0; limit = 2; reset_after = 58 }
unfolding acquire get put
third_refused = refl

third_raises : (check_and_record used "k" 3000).1 ≡ raised (rate_limit_exceeded 2 58)
unfolding check_and_record get put
third_raises = refl

abbrev calls : List Call
calls = ("k", 0) ∷ ("j", 5) ∷ ("k", 70000) ∷ ("k", 70000) ∷ ("k", 70001) ∷ []

history-le-limit_example : recent 60000 70001 (history "k" limiter [] calls).1 ≤ 3
history-le-limit_example = history-le-limit "k" limiter calls (omega arith) refl (omega arith)

burst_after_reset_example : length (history "k" used [] (burst "k" 70000 3)).1 ≡ 3
burst_after_reset_example =
    burst_after_reset "k" used (1000 ∷ 2000 ∷ []) 70000 (unfold get in refl)
      (unfold drop_expired in refl)
