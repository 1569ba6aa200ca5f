-- ===== src/Auth/Touches.antt =====
-- How often the use of a key is written to its record: `_throttled_touch` (app/auth/service.py).
use ai_platform_mini.Prelude.{
  ℕ, ◌+◌, ◌<◌, String, Bool, false, some, List, [], ◌∷◌, Text, All, ◌≡◌, ◌≢◌, refl, ◌∙◌, inl, inr,
  arith, str_eq, eq_iff, Bool-cases, Option-cases,
}
use ai_platform_mini.Prelude.Dict.{get, get-put, get-remove}
use ai_platform_mini.Auth.Records.{Repository, touch_last_used}
use ai_platform_mini.Auth.Service.{Service, throttle_micros, throttled_touch, validate}

-- A request with a key.
pub record Use : Type 0 where
  pub raw_key : Text
  pub now : ℕ
  pub wall : ℕ
  pub written : Bool

abbrev pub use_all : (Text → String) → Service → List Use → Service
use_all hash s [] = s
use_all hash s (u ∷ us) = use_all hash (validate hash s u.raw_key u.now u.wall u.written).0 us

get-touch :
    (r : Repository) (h j : String) (wall : ℕ)
    → str_eq h j ≡ false
    → get j (touch_last_used r h wall) ≡ get j r
unfolding touch_last_used
get-touch r h j wall q = elim (Option-cases (get h r)) [
  | inl e ↦ rw (touch_last_used, e) refl
  | inr (k, e) ↦
      rw (touch_last_used, e)
        (ground (arith, q, get-put h j (record k { last_used_at = some wall }) r))
]

-- Only a key that is used is written, and then the time is remembered.
throttled-wrote :
    (s : Service) (h j : String) (now wall : ℕ) (written : Bool)
    → get j (throttled_touch s h now wall written).repository ≢ get j s.repository
    → get j (throttled_touch s h now wall written).touch_cache ≡ some now
unfolding throttled_touch
throttled-wrote s h j now wall written n =
    ground (arith, n, get-touch s.repository h j wall, get-put h j now s.touch_cache)

validate-wrote :
    (hash : Text → String) (s : Service) (raw_key : Text) (now wall : ℕ) (written : Bool)
    (j : String)
    → get j (validate hash s raw_key now wall written).0.repository ≢ get j s.repository
    → get j (validate hash s raw_key now wall written).0.touch_cache ≡ some now
unfolding validate
validate-wrote hash s raw_key now wall written j n =
    ground (arith, n, throttled-wrote s (hash raw_key) j now wall written)

-- What a key's record and the time of its last touch are within a minute of that touch.
abbrev Untouched : String → ℕ → Service → Service → Type 0
Untouched j t s s' = (get j s'.repository ≡ get j s.repository) × (get j s'.touch_cache ≡ some t)

throttled-Untouched :
    (s : Service) (h j : String) (now wall : ℕ) (written : Bool) (t : ℕ)
    → get j s.touch_cache ≡ some t
    → now < t + throttle_micros
    → Untouched j t s (throttled_touch s h now wall written)
unfolding throttled_touch
throttled-Untouched s h j now wall written t c q = elim (Bool-cases (str_eq h j)) [
  | inl e ↦ ground (arith, e, c, q, eq_iff h j)
  | inr e ↦ ground (
    arith,
    e,
    c,
    get-touch s.repository h j wall,
    get-put h j now s.touch_cache,
    get-remove h j s.touch_cache,
  )
]

validate-Untouched :
    (hash : Text → String) (s : Service) (raw_key : Text) (now wall : ℕ) (written : Bool)
    (j : String) (t : ℕ)
    → get j s.touch_cache ≡ some t
    → now < t + throttle_micros
    → Untouched j t s (validate hash s raw_key now wall written).0
unfolding validate
validate-Untouched hash s raw_key now wall written j t c q =
    ground (arith, c, q, throttled-Untouched s (hash raw_key) j now wall written t)

use_all-Untouched :
    (hash : Text → String) (s : Service) (us : List Use) (j : String) (t : ℕ)
    → get j s.touch_cache ≡ some t
    → All (λ u. u.now < t + throttle_micros) us
    → Untouched j t s (use_all hash s us)
use_all-Untouched hash s [] j t c q = (refl, c)
use_all-Untouched hash s (u ∷ us) j t c q =
    let (a, b) = validate-Untouched hash s u.raw_key u.now u.wall u.written j t c q.0 in
    let (d, e) =
      use_all-Untouched hash (validate hash s u.raw_key u.now u.wall u.written).0 us j t b q.1 in
    (d ∙ a, e)

-- Where a request at some time changes the record of a key, no requests before the sixtieth second
-- after it change that record again, whichever keys they use.
pub one_touch_a_minute :
    (hash : Text → String) (s : Service) (u : Use) (us : List Use) (j : String)
    → get j (use_all hash s (u ∷ [])).repository ≢ get j s.repository
    → All (λ v. v.now < u.now + throttle_micros) us
    → get j (use_all hash s (u ∷ us)).repository ≡ get j (use_all hash s (u ∷ [])).repository
one_touch_a_minute hash s u us j n q =
    (use_all-Untouched hash (validate hash s u.raw_key u.now u.wall u.written).0 us j u.now
      (validate-wrote hash s u.raw_key u.now u.wall u.written j n) q).0
