-- ===== src/RateLimit/Keys.antt =====
-- One key's entry under `acquire`, and the entries of the other keys.
use ai_platform_mini.Prelude.{
  ℕ, String, ◌≡◌, refl, Option, none, some, List, [], if◌then◌else◌, str_eq,
}
use ai_platform_mini.Prelude.Dict.{get, dict_laws}
use ai_platform_mini.RateLimit.{Limiter, acquire_queue, store, acquire}

get-store :
    (key j : String) (queue : Option (List ℕ)) (l : Limiter)
    → get j (store key queue l.queues) ≡ (if str_eq key j then queue else get j l.queues)
unfolding store
get-store key j none l = simp dict_laws
get-store key j (some queue) l = simp dict_laws

-- A call changes the entry of its own key as `acquire_queue` says, and no other entry.
pub get-acquire :
    (l : Limiter) (key j : String) (now : ℕ)
    → get j (acquire l key now).0.queues
      ≡ (if str_eq key j then (acquire_queue l (get key l.queues) now).0 else get j l.queues)
unfolding acquire
get-acquire l key j now = get-store key j (acquire_queue l (get key l.queues) now).0 l

-- The settings never change.
pub acquire_settings :
    (l : Limiter) (key : String) (now : ℕ)
    → let l' = (acquire l key now).0 in
      (l'.hz ≡ l.hz) × (l'.limit ≡ l.limit) × (l'.window_seconds ≡ l.window_seconds)
unfolding acquire
acquire_settings l key now = (refl, refl, refl)

-- The events of a key, in an entry or not.
abbrev pub events : Option (List ℕ) → List ℕ
events none = []
events (some queue) = queue
