-- ===== src/Quota/Tests.antt =====
-- Runs of the quota repository: two API keys, "k1" and "k2", of one workspace.
use ai_platform_mini.Prelude.{
  ℕ, ◌+◌, ◌≤◌, String, ◌≡◌, ◌⊎◌, refl, true, false, Option, none, some, List, [], ◌∷◌, Text, codes,
  text_eq, starts_with, take, arith,
}
use ai_platform_mini.Prelude.Dict.{get, put}
use ai_platform_mini.Usage.{Readings}
use ai_platform_mini.Quota.{
  ReservationResult, Repository, Entry, Reservation, reserved, purge, purge_expired,
  create_reservation, extend_reservation, daily_taken, monthly_taken, new_entry, exceeds,
  get_reserved_tokens_for_key, seconds,
}
use ai_platform_mini.Quota.Create.{Within}
use ai_platform_mini.Quota.Extend.{longer, extended-Within, extension_ignores_workspace}
use ai_platform_mini.Quota.Within.{Op, run, reserved-le-rest}
use ai_platform_mini.Quota.Renew.{renewals, created_stays_alive}

abbrev day : Text
day = codes "2026-08-07"

-- Ten tokens used by each key, twenty by the workspace.
abbrev usage : Readings
usage = record {
  total_tokens_for_key = λ k d. 10;
  total_tokens_for_workspace = λ w d. 20;
  monthly_usage = λ k m. [];
  monthly_usage_for_workspace = λ w m. [];
}

abbrev empty : Repository
empty = record { workspace_quotas = []; reservations = [] }

abbrev request : String → String → ℕ → Option String → Reservation
request id k n w = record {
  reservation_id = id;
  api_key_hash = codes k;
  usage_date = day;
  reserved_tokens = n;
  daily_limit = some 100;
  monthly_limit = some 1000;
  ttl_seconds = 600;
  workspace_id = w;
}

abbrev held : Repository
held = (create_reservation usage empty (request "r1" "k1" 60 (some "w")) 5).0

abbrev entry : Entry
entry = new_entry (request "r1" "k1" 60 (some "w")) 5

fits_then_full :
    ((create_reservation usage held (request "r2" "k2" 20 (some "w")) 6).1
      ≡ ReservationResult.created)
    × ((create_reservation usage held (request "r2" "k2" 21 (some "w")) 6).1
        ≡ ReservationResult.daily_limit)
unfolding create_reservation daily_taken monthly_taken reserved purge_expired get put text_eq
    starts_with
fits_then_full = (refl, refl)

held_entry : get "r1" (purge 6 held.reservations) ≡ some entry
unfolding purge get create_reservation daily_taken monthly_taken reserved purge_expired put text_eq
    starts_with
held_entry = refl

extended-Within_example :
    let (r', result) = extend_reservation usage held "r1" 30 (some 100) none none 6 in
    (get "r1" r'.reservations ≡ some (longer entry 30))
    × Within (some 100) (daily_taken usage r' none (codes "k1") day 6)
    × Within none (monthly_taken usage r' none (codes "k1") (take 7 day) 6)
unfolding extend_reservation purge get create_reservation daily_taken monthly_taken reserved
    purge_expired put text_eq starts_with
extended-Within_example =
    extended-Within usage held "r1" entry 30 (some 100) none none 6 held_entry refl

-- The workspace had 80 of 100 taken; after the extension it has 110, since the key has only 100.
extension_ignores_workspace_example :
    let result = extend_reservation usage held "r1" 30 (some 100) none (some "w") 6 in
    ((exceeds (some 100) 100 ≡ true)
      × (result ≡ (purge_expired held 6, ReservationResult.daily_limit)))
    ⊎ ((exceeds (some 100) 100 ≡ false)
        × (exceeds none (monthly_taken usage held none (codes "k1") (take 7 day) 6 + 30) ≡ true)
        × (result ≡ (purge_expired held 6, ReservationResult.monthly_limit)))
    ⊎ ((exceeds (some 100) 100 ≡ false)
        × (exceeds none (monthly_taken usage held none (codes "k1") (take 7 day) 6 + 30) ≡ false)
        × (result.1 ≡ ReservationResult.created)
        × (daily_taken usage result.0 (some "w") (codes "k1") day 6 ≡ 110))
unfolding extend_reservation purge get create_reservation daily_taken monthly_taken reserved
    purge_expired put text_eq starts_with
extension_ignores_workspace_example =
    extension_ignores_workspace usage held "r1" "w" entry 30 (some 100) none 6 held_entry refl refl

abbrev script : List (Op × ℕ)
script =
    (Op.create (request "r1" "k1" 60 none), 5)
    ∷ (Op.create (request "r2" "k1" 40 none), 6)
    ∷ (Op.extend "r1" 20 (some 100) none none, 7)
    ∷ (Op.renew "r1" 600, 8)
    ∷ (Op.settle "r1", 9)
    ∷ []

reserved-le-rest_example :
    get_reserved_tokens_for_key (run usage empty script) (codes "k1") day 9 ≤ 90
reserved-le-rest_example = reserved-le-rest usage 100 (codes "k1") day empty script refl (
  omega arith,
  (refl, refl),
  (omega arith, (refl, refl), (omega arith, refl, (omega arith, tt, (omega arith, tt, tt)))),
)

created_stays_alive_example : (renewals 50 held "r1" 600 (seconds 60) 5).1 ≡ true
unfolding create_reservation daily_taken monthly_taken reserved purge_expired get put text_eq
    starts_with purge
created_stays_alive_example =
    created_stays_alive usage 50 empty (request "r1" "k1" 60 (some "w")) (seconds 60) 5
      (omega arith) refl
