-- ===== src/Quota/Reserve.antt =====
-- What a reservation through the service gives, refuses and leaves.
use ai_platform_mini.Prelude.{
  ℕ, ◌+◌, ◌<◌, String, ◌≡◌, refl, true, Option, none, some, is_some, [], ◌∷◌, Text, eq_refl, arith,
  Bool-cases, inl, inr, ◌⊎◌,
}
use ai_platform_mini.Prelude.Dict.{Dict, get, put, remove}
use ai_platform_mini.Prelude.Results.{Exception, ok, raised, quota_exceeded, assertion_error}
use ai_platform_mini.Usage.{Readings}
use ai_platform_mini.Billing
use ai_platform_mini.Quota.{
  Repository, QuotaConfig, QuotaScope, QuotaReservation, Entry, exceeds, purge, purge_expired,
  create_reservation, release_reservation, new_entry, daily_taken, monthly_taken,
}
use ai_platform_mini.Quota.Create.{Within, create_reservation-eq-decision, created-Within}
use ai_platform_mini.Quota.Clock.{
  Moment, date, year_month, seconds_until_next_day, seconds_until_next_month,
}
use ai_platform_mini.Quota.Service.{
  resolve_limits, enabled, dimension, completion_tokens, request, reserve, release,
}

remove-put :
    {V : Type 0} (k : String) (v : V) (d : Dict V)
    → get k d ≡ none
    → remove k (put k v d) ≡ remove k d
unfolding get put remove
remove-put k v [] h = ground (arith, eq_refl k)
remove-put k v ((j, w) ∷ d) h = ground (arith, remove-put k v d)

remove-fresh : {V : Type 0} (k : String) (d : Dict V) → get k d ≡ none → remove k d ≡ d
unfolding get remove
remove-fresh k [] h = refl
remove-fresh k ((j, w) ∷ d) h = ground (arith, remove-fresh k d)

purge-fresh : (now : ℕ) (k : String) (d : Dict Entry) → get k d ≡ none → get k (purge now d) ≡ none
unfolding get purge
purge-fresh now k [] h = refl
purge-fresh now k ((j, e) ∷ d) h = ground (arith, purge-fresh now k d)

module _ (usage : Readings) (billing : Option Billing.Repository) (config : QuotaConfig) where
  -- A reservation that the service returns is the one that was asked for, of the prompt's tokens
  -- and the requested completion's (or else the default's), and with it the day's and the month's
  -- use and reservations are within the limits that apply.
  pub reserve-Within :
      (r : Repository) (key : Text) (max_tokens : Option ℕ) (prompt : ℕ) (ws : Option String)
      (id : String) (at : Moment) (now : ℕ) (x : QuotaReservation)
      → let (r', result) = reserve usage billing config r key max_tokens prompt ws id at now in
        result ≡ ok (some x)
        → let limits = resolve_limits usage billing config r ws in
          let w = dimension usage billing config ws in
          (x.reservation_id ≡ id)
          × (x.reserved_tokens ≡ prompt + completion_tokens usage billing config max_tokens)
          × Within limits.daily (daily_taken usage r' w key (date at) now)
          × Within limits.monthly (monthly_taken usage r' w key (year_month at) now)
  unfolding reserve
  reserve-Within r key max_tokens prompt ws id at now x h =
      let q = request usage billing config r key max_tokens prompt ws id at in
      let p = created-Within usage r q now in
      (ground arith, ground arith, ground (arith, p), ground (arith, p))

  -- A service that works per API key refuses a reservation only by the quota error: either what is
  -- used, reserved and asked for passes the settings' limit of the day, and the error names the
  -- seconds to the next day, or it passes the limit of the month, and the error names the seconds
  -- to the next month.
  pub refused_per_key :
      (r : Repository) (key : Text) (max_tokens : Option ℕ) (prompt : ℕ) (ws : Option String)
      (id : String) (at : Moment) (now : ℕ) (e : Exception)
      → config.quota_scope ≡ QuotaScope.key
      → (reserve usage billing config r key max_tokens prompt ws id at now).1 ≡ raised e
      → let n = prompt + completion_tokens usage billing config max_tokens in
        ((exceeds config.daily_token_limit (daily_taken usage r none key (date at) now + n) ≡ true)
          × (e ≡ quota_exceeded (seconds_until_next_day at)))
        ⊎ ((exceeds config.monthly_token_limit
                (monthly_taken usage r none key (year_month at) now + n)
              ≡ true)
            × (e ≡ quota_exceeded (seconds_until_next_month at)))
  unfolding reserve resolve_limits
  refused_per_key r key max_tokens prompt ws id at now e per_key h =
      let q = request usage billing config r key max_tokens prompt ws id at in
      let d = create_reservation-eq-decision usage r q now in
      let n = prompt + completion_tokens usage billing config max_tokens in
      elim (Bool-cases
        (exceeds config.daily_token_limit (daily_taken usage r none key (date at) now + n))) [
          | inl over ↦ inl (over, ground (arith, d))
          | inr under ↦ inr (ground (arith, d), ground (arith, d))
        ]

  -- In the workspace scope the service asserts on the settings' daily limit where another limit
  -- was applied: if the settings have a monthly limit but no daily one, a reservation that passes the
  -- daily limit of the workspace or of its plan is refused by an AssertionError, not by the quota error.
  pub assertion_for_refusal :
      (r : Repository) (key : Text) (max_tokens : Option ℕ) (prompt : ℕ) (ws id : String)
      (at : Moment) (now limit : ℕ)
      → config.quota_scope ≡ QuotaScope.workspace
      → config.daily_token_limit ≡ none
      → is_some config.monthly_token_limit ≡ true
      → (resolve_limits usage billing config r (some ws)).daily ≡ some limit
      → limit
        < daily_taken usage r (some ws) key (date at) now
          + (prompt + completion_tokens usage billing config max_tokens)
      → (reserve usage billing config r key max_tokens prompt (some ws) id at now).1
        ≡ raised assertion_error
  unfolding reserve
  assertion_for_refusal r key max_tokens prompt ws id at now limit scope no_daily monthly applied
        over =
      let q = request usage billing config r key max_tokens prompt (some ws) id at in
      ground (arith, create_reservation-eq-decision usage r q now)

  -- Where the settings have a daily or a monthly limit (the quota is enabled), releasing a
  -- reservation leaves the repository as the purge of expired reservations alone would have:
  -- whatever `reserve` answered, if its id was new.
  pub release_undoes_reserve :
      (r : Repository) (key : Text) (max_tokens : Option ℕ) (prompt : ℕ) (ws : Option String)
      (id : String) (at : Moment) (now : ℕ)
      → enabled config ≡ true
      → get id r.reservations ≡ none
      → release usage billing config
          (reserve usage billing config r key max_tokens prompt ws id at now).0
          id
        ≡ purge_expired r now
  unfolding reserve release create_reservation release_reservation purge_expired
  release_undoes_reserve r key max_tokens prompt ws id at now on fresh =
      let q = request usage billing config r key max_tokens prompt ws id at in
      let f = purge-fresh now id r.reservations fresh in
      ground (
        arith,
        f,
        remove-fresh id (purge now r.reservations) f,
        remove-put id (new_entry q now) (purge now r.reservations) f,
      )
