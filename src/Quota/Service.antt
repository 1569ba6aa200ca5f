-- ===== src/Quota/Service.antt =====
-- app/quota/service.py, on the in-memory repository. Logging is left out. `at` is what the service
-- reads from `datetime.now`, and `now` what the repository reads.
use ai_platform_mini.Prelude.{
  ℕ, ◌+◌, String, Bool, true, false, not, ◌||◌, Option, none, some, is_some, if◌then◌else◌, Text,
  leb, ◌==◌,
}
use ai_platform_mini.Prelude.Results.{
  Result, ok, raised, quota_exceeded, assertion_error, runtime_error,
}
use ai_platform_mini.Usage.{Readings}
use ai_platform_mini.Billing
use ai_platform_mini.Billing.{Subscription, Plan, is_active}
use ai_platform_mini.Quota.{
  Repository, QuotaConfig, QuotaScope, QuotaReservation, WorkspaceQuota, Reservation,
  ReservationResult, create_reservation, extend_reservation, settle_reservation,
  release_reservation, renew_reservation, get_workspace_quota,
}
use ai_platform_mini.Quota.Clock.{Moment, date, seconds_until_next_day, seconds_until_next_month}

-- The two limits, of a day and of a month.
pub record Limits : Type 0 where
  pub daily : Option ℕ
  pub monthly : Option ℕ

-- `if x is not None: limit = x`
abbrev pub or_else : Option ℕ → Option ℕ → Option ℕ
or_else none limit = limit
or_else (some x) limit = some x

abbrev pub is_workspace : QuotaScope → Bool
is_workspace QuotaScope.workspace = true
is_workspace QuotaScope.key = false

-- `QuotaConfig.enabled`
abbrev pub enabled : QuotaConfig → Bool
enabled c = is_some c.daily_token_limit || is_some c.monthly_token_limit

abbrev pub no_limits : Limits
no_limits = record { daily = none; monthly = none }

abbrev pub limits_of : Option Plan → Limits
limits_of none = no_limits
limits_of (some plan) = record {
  daily = plan.daily_token_limit;
  monthly = plan.monthly_token_limit;
}

abbrev pub plan_of : Billing.Repository → Option Subscription → Limits
plan_of billing none = no_limits
plan_of billing (some s) =
    if not (is_active s.status) then no_limits else limits_of (Billing.get_plan billing s.plan_id)

-- `_plan_token_limits`
unfoldable pub plan_token_limits : Option Billing.Repository → String → Limits
plan_token_limits none workspace_id = no_limits
plan_token_limits (some billing) workspace_id =
    plan_of billing (Billing.get_subscription_for_workspace billing workspace_id)

abbrev pub overridden : Option WorkspaceQuota → Limits → Limits
overridden none limits = limits
overridden (some q) limits = record {
  daily = or_else q.daily_token_limit limits.daily;
  monthly = or_else q.monthly_token_limit limits.monthly;
}

module _ (usage : Readings) (billing : Option Billing.Repository) (config : QuotaConfig) where
  abbrev pub settings : Limits
  settings = record { daily = config.daily_token_limit; monthly = config.monthly_token_limit }

  -- `_resolve_workspace_limits`
  unfoldable pub resolve_workspace_limits : Repository → Option String → Limits
  resolve_workspace_limits r none = settings
  resolve_workspace_limits r (some w) =
      let plan = plan_token_limits billing w in
      overridden (get_workspace_quota r w) (record {
        daily = or_else plan.daily settings.daily;
        monthly = or_else plan.monthly settings.monthly;
      })

  -- `_resolve_limits`
  unfoldable pub resolve_limits : Repository → Option String → Limits
  unfolding resolve_workspace_limits
  resolve_limits r workspace_id =
      if is_workspace config.quota_scope then resolve_workspace_limits r workspace_id else settings

  -- `dimension_workspace_id`
  abbrev pub dimension : Option String → Option String
  dimension workspace_id = if is_workspace config.quota_scope then workspace_id else none

  -- `max_tokens or default_reserve_tokens`
  abbrev pub completion_tokens : Option ℕ → ℕ
  completion_tokens none = config.default_reserve_tokens
  completion_tokens (some n) = if n == 0 then config.default_reserve_tokens else n

  -- What `reserve` asks the repository for.
  abbrev pub request :
      Repository → Text → Option ℕ → ℕ → Option String → String → Moment → Reservation
  request r api_key_hash max_tokens prompt_tokens workspace_id id at =
      let limits = resolve_limits r workspace_id in
      record {
        reservation_id = id;
        api_key_hash = api_key_hash;
        usage_date = date at;
        reserved_tokens = prompt_tokens + completion_tokens max_tokens;
        daily_limit = limits.daily;
        monthly_limit = limits.monthly;
        ttl_seconds = config.reservation_ttl_seconds;
        workspace_id = dimension workspace_id;
      }

  -- `_raise_daily_limit` and `_raise_monthly_limit`: the assertion is on the setting.
  abbrev pub raise_limit {ℓ} : {A : Type ℓ} → Option ℕ → ℕ → Result A
  raise_limit none wait = raised assertion_error
  raise_limit (some limit) wait = raised (quota_exceeded wait)

  abbrev pub reserved_or_raised :
      Reservation → Option String → Moment → ReservationResult → Result (Option QuotaReservation)
  reserved_or_raised q workspace_id at ReservationResult.daily_limit =
      raise_limit config.daily_token_limit (seconds_until_next_day at)
  reserved_or_raised q workspace_id at ReservationResult.monthly_limit =
      raise_limit config.monthly_token_limit (seconds_until_next_month at)
  reserved_or_raised q workspace_id at ReservationResult.not_found = raised runtime_error
  reserved_or_raised q workspace_id at ReservationResult.created = ok (
      some (record {
        reservation_id = q.reservation_id;
        api_key_hash = q.api_key_hash;
        reserved_tokens = q.reserved_tokens;
        usage_date = q.usage_date;
        workspace_id = workspace_id;
      }))

  -- `id` is the new uuid.
  unfoldable pub reserve :
      Repository
      → Text
      → Option ℕ
      → ℕ
      → Option String
      → String
      → Moment
      → ℕ
      → Repository × Result (Option QuotaReservation)
  unfolding resolve_limits
  reserve r api_key_hash max_tokens prompt_tokens workspace_id id at now =
      if not (enabled config)
      then (r, ok none)
      else let q = request r api_key_hash max_tokens prompt_tokens workspace_id id at in
        let (r', result) = create_reservation usage r q now in
        (r', reserved_or_raised q workspace_id at result)

  abbrev pub extended_or_raised : Moment → ReservationResult → Result (Unit {0})
  extended_or_raised at ReservationResult.daily_limit =
      raised (quota_exceeded (seconds_until_next_day at))
  extended_or_raised at ReservationResult.monthly_limit =
      raised (quota_exceeded (seconds_until_next_month at))
  extended_or_raised at ReservationResult.not_found = raised (quota_exceeded 86400)
  extended_or_raised at ReservationResult.created = ok tt

  unfoldable pub extend :
      Repository → String → ℕ → Option String → Moment → ℕ → Repository × Result (Unit {0})
  extend r id additional workspace_id at now =
      if not (enabled config) || leb additional 0
      then (r, ok tt)
      else let limits = resolve_limits r workspace_id in
        let (r', result) =
          extend_reservation usage r id additional limits.daily limits.monthly
            (dimension workspace_id) now in
        (r', extended_or_raised at result)

  unfoldable pub settle : Repository → String → Repository
  settle r id = if not (enabled config) then r else settle_reservation r id

  unfoldable pub release : Repository → String → Repository
  release r id = if not (enabled config) then r else release_reservation r id

  unfoldable pub renew : Repository → String → ℕ → Repository × Bool
  renew r id now =
      if not (enabled config)
      then (r, false)
      else renew_reservation r id config.reservation_ttl_seconds now
