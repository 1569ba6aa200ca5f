-- ===== src/Quota/Create.antt =====
-- `create_reservation`: what it decides, and what each outcome leaves.
use ai_platform_mini.Prelude.{
  ℕ, ◌+◌, ◌≤◌, ◌<◌, ◌*◌, String, ◌≡◌, ◌≢◌, refl, Bool, true, false, Option, none, some,
  if◌then◌else◌, Text, take, eq_refl, arith,
}
use ai_platform_mini.Prelude.Dict.{get, put, get-put}
use ai_platform_mini.Usage.{Readings}
use ai_platform_mini.Quota.{
  ReservationResult, Repository, Entry, Reservation, is_live, exceeds, reserved, purge,
  purge_expired, daily_taken, monthly_taken, create_reservation, new_entry, for_key, for_key_month,
  for_workspace, for_workspace_month,
}
use ai_platform_mini.Quota.Sums.{
  weight, reserved-purge, reserved-put-le, reserved-put_new, get-purge,
}

abbrev pub stored : Repository → String → Entry → Repository
stored r id e = record r { reservations = put id e r.reservations }

abbrev pub Within : Option ℕ → ℕ → Type 0
Within none n = Unit
Within (some limit) n = n ≤ limit

pub not_exceeds : (limit : Option ℕ) (n m : ℕ) → exceeds limit n ≡ false → m ≤ n → Within limit m
not_exceeds none n m h le = tt
not_exceeds (some limit) n m h le = ground arith

module _ (usage : Readings) where
  pub daily_taken-purge :
      (r : Repository) (w : Option String) (k d : Text) (now : ℕ)
      → daily_taken usage (purge_expired r now) w k d now ≡ daily_taken usage r w k d now
  unfolding daily_taken purge_expired
  daily_taken-purge r none k d now = rw reserved-purge refl
  daily_taken-purge r (some w) k d now = rw reserved-purge refl

  pub monthly_taken-purge :
      (r : Repository) (w : Option String) (k m : Text) (now : ℕ)
      → monthly_taken usage (purge_expired r now) w k m now ≡ monthly_taken usage r w k m now
  unfolding monthly_taken purge_expired
  monthly_taken-purge r none k m now = rw reserved-purge refl
  monthly_taken-purge r (some w) k m now = rw reserved-purge refl

  -- What the limits say of a reservation, by what is taken before any purge.
  abbrev pub decision : Repository → Reservation → ℕ → ReservationResult
  decision r q now =
      if exceeds q.daily_limit
        (daily_taken usage r q.workspace_id q.api_key_hash q.usage_date now + q.reserved_tokens)
      then ReservationResult.daily_limit
      else if exceeds q.monthly_limit (
          monthly_taken usage r q.workspace_id q.api_key_hash (take 7 q.usage_date) now
          + q.reserved_tokens)
      then ReservationResult.monthly_limit
      else ReservationResult.created

  -- The result is the one that the limits give for what is used and reserved in the repository as
  -- it stood before the call: the purge of expired reservations never changes the decision.
  pub create_reservation-eq-decision :
      (r : Repository) (q : Reservation) (now : ℕ)
      → (create_reservation usage r q now).1 ≡ decision r q now
  unfolding create_reservation
  create_reservation-eq-decision r q now = ground (
    arith,
    daily_taken-purge r q.workspace_id q.api_key_hash q.usage_date now,
    monthly_taken-purge r q.workspace_id q.api_key_hash (take 7 q.usage_date) now,
  )

  -- One write raises what is taken by the tokens of its entry at most.
  pub daily_taken-stored :
      (r : Repository) (id : String) (e : Entry) (w : Option String) (k d : Text) (now : ℕ)
      → daily_taken usage (stored r id e) w k d now
        ≤ daily_taken usage r w k d now + e.reserved_tokens
  unfolding daily_taken
  daily_taken-stored r id e none k d now =
      ground (arith, reserved-put-le (for_key k d) now id e r.reservations)
  daily_taken-stored r id e (some w) k d now =
      ground (arith, reserved-put-le (for_workspace w d) now id e r.reservations)

  pub monthly_taken-stored :
      (r : Repository) (id : String) (e : Entry) (w : Option String) (k m : Text) (now : ℕ)
      → monthly_taken usage (stored r id e) w k m now
        ≤ monthly_taken usage r w k m now + e.reserved_tokens
  unfolding monthly_taken
  monthly_taken-stored r id e none k m now =
      ground (arith, reserved-put-le (for_key_month k m) now id e r.reservations)
  monthly_taken-stored r id e (some w) k m now =
      ground (arith, reserved-put-le (for_workspace_month w m) now id e r.reservations)

  -- A reservation that is created leaves the day's and the month's use and reservations together
  -- within the limits it was checked against, in the dimension of its workspace or else of its key.
  pub created-Within :
      (r : Repository) (q : Reservation) (now : ℕ)
      → let (r', result) = create_reservation usage r q now in
        result ≡ ReservationResult.created
        → Within q.daily_limit (daily_taken usage r' q.workspace_id q.api_key_hash q.usage_date now)
          × Within q.monthly_limit
              (monthly_taken usage r' q.workspace_id q.api_key_hash (take 7 q.usage_date) now)
  unfolding create_reservation
  created-Within r q now h =
      let p = purge_expired r now in
      let month = take 7 q.usage_date in
      let e = new_entry q now in
      let day_fits =
        not_exceeds q.daily_limit
          (daily_taken usage p q.workspace_id q.api_key_hash q.usage_date now + q.reserved_tokens)
          (daily_taken usage (stored p q.reservation_id e) q.workspace_id q.api_key_hash
            q.usage_date now) in
      let month_fits =
        not_exceeds q.monthly_limit
          (monthly_taken usage p q.workspace_id q.api_key_hash month now + q.reserved_tokens)
          (monthly_taken usage (stored p q.reservation_id e) q.workspace_id q.api_key_hash month
            now) in
      (
        ground (
          arith,
          day_fits,
          daily_taken-stored p q.reservation_id e q.workspace_id q.api_key_hash q.usage_date now,
        ),
        ground (
          arith,
          month_fits,
          monthly_taken-stored p q.reservation_id e q.workspace_id q.api_key_hash month now,
        ),
      )

  -- A refused reservation changes no sum of live reservations, removes no live reservation, and
  -- leaves the workspace quotas alone.
  pub refused_changes_nothing :
      (r : Repository) (q : Reservation) (now : ℕ)
      → let (r', result) = create_reservation usage r q now in
        result ≢ ReservationResult.created
        → ((test : Entry → Bool)
            → reserved test now r'.reservations ≡ reserved test now r.reservations)
          × ((id : String) (e : Entry)
              → get id r.reservations ≡ some e
              → is_live now e ≡ true
              → get id r'.reservations ≡ some e)
          × (r'.workspace_quotas ≡ r.workspace_quotas)
  unfolding create_reservation purge_expired
  refused_changes_nothing r q now h = (
    λ test. ground (arith, reserved-purge test now r.reservations),
    λ id e found live. ground (arith, get-purge now id e r.reservations),
    ground arith,
  )

  -- A created reservation under an id that is not in use is stored, stays live for its whole time to
  -- live, and raises the sum of each test that it passes by its tokens and no other sum.
  pub created_counts :
      (r : Repository) (q : Reservation) (now : ℕ)
      → get q.reservation_id (purge now r.reservations) ≡ none
      → let (r', result) = create_reservation usage r q now in
        result ≡ ReservationResult.created
        → (get q.reservation_id r'.reservations ≡ some (new_entry q now))
          × ((later : ℕ)
              → later < now + q.ttl_seconds * 1000000
              → is_live later (new_entry q now) ≡ true)
          × ((test : Entry → Bool)
              → reserved test now r'.reservations
                ≡ reserved test now r.reservations + weight test now (new_entry q now))
  unfolding create_reservation purge_expired
  created_counts r q now fresh h = (
    ground (
      arith,
      eq_refl q.reservation_id,
      get-put q.reservation_id q.reservation_id (new_entry q now) (purge now r.reservations),
    ),
    λ later lt. ground arith,
    λ test. ground (
      arith,
      reserved-purge test now r.reservations,
      reserved-put_new test now q.reservation_id (new_entry q now) (purge now r.reservations),
    ),
  )
