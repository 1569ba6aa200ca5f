-- ===== src/Quota/ServiceTests.antt =====
-- Runs of the quota service: one workspace "w" with a plan and an override.
use ai_platform_mini.Prelude.{
  text_eq, ℕ, ◌+◌, ◌<◌, String, ◌≡◌, refl, true, Option, none, some, [], ◌∷◌, ap, Text, codes,
  arith, ◌⊎◌,
}
use ai_platform_mini.Prelude.Dict.{get, put}
use ai_platform_mini.Prelude.Results.{ok, raised, quota_exceeded, assertion_error}
use ai_platform_mini.Usage.{Readings, UsageRecord}
use ai_platform_mini.Usage.Memory
use ai_platform_mini.Billing
use ai_platform_mini.Quota.{
  Repository, QuotaConfig, QuotaScope, QuotaReservation, create_reservation, daily_taken,
  monthly_taken, reserved, purge, purge_expired, exceeds, get_workspace_quota,
  get_reserved_tokens_for_key,
}
use ai_platform_mini.Quota.Create.{Within}
use ai_platform_mini.Quota.Clock.{
  Moment, IsMoment, date, year_month, seconds_until_next_day, seconds_until_next_month,
}
use ai_platform_mini.Quota.Service.{
  Limits, resolve_limits, resolve_workspace_limits, plan_token_limits, dimension, completion_tokens,
  reserve, release, settings,
}
use ai_platform_mini.Quota.Limits.{resolve_limits_lem, entitled, override, first_of}
use ai_platform_mini.Quota.Reserve.{
  reserve-Within, refused_per_key, assertion_for_refusal, release_undoes_reserve,
}

abbrev noon : Moment
noon = record { year = 2026; month = 12; day = 31; micros = 43200000000 }

noon-IsMoment : IsMoment noon
noon-IsMoment = record {
  month_in_year = (omega arith, omega arith);
  day_in_month = (omega arith, omega arith);
  micros_in_day = omega arith;
}

dates : (date noon ≡ codes "2026-12-31") × (seconds_until_next_month noon ≡ 43200)
unfolding seconds_until_next_month
dates = (refl, refl)

abbrev usage : Readings
usage = record {
  total_tokens_for_key = λ k d. 10;
  total_tokens_for_workspace = λ w d. 20;
  monthly_usage = λ k m. [];
  monthly_usage_for_workspace = λ w m. [];
}

abbrev plan : Billing.Plan
plan = record {
  id = "p";
  name = "pro";
  version = 1;
  daily_token_limit = some 200;
  monthly_token_limit = some 2000;
  max_agents = none;
  max_documents = none;
  max_members = none;
  features = [];
  created_at = none;
}

abbrev subscription : Billing.Subscription
subscription = record {
  id = "s";
  workspace_id = "w";
  plan_id = "p";
  status = Billing.SubscriptionStatus.active;
  started_at = some 0;
  expired_at = none;
}

abbrev billing : Billing.Repository
billing = record {
  plans_by_id = ("p", plan) ∷ [];
  plans_by_name = ("pro", plan) ∷ [];
  subscriptions_by_id = ("s", subscription) ∷ [];
  subscription_workspace_ids = ("w", "s") ∷ [];
}

abbrev config : QuotaScope → Option ℕ → QuotaConfig
config scope daily = record {
  daily_token_limit = daily;
  monthly_token_limit = some 1000;
  default_reserve_tokens = 50;
  reservation_ttl_seconds = 600;
  reservation_renewal_seconds = 60;
  quota_scope = scope;
}

abbrev store : Repository
store = record {
  workspace_quotas =
      ("w", record { workspace_id = "w"; daily_token_limit = none; monthly_token_limit = some 900 })
      ∷ [];
  reservations = [];
}

abbrev key : Text
key = codes "k"

abbrev shared : QuotaConfig
shared = config QuotaScope.workspace none

-- The day's limit comes from the plan, the month's from the override.
applied :
    resolve_limits usage (some billing) shared store (some "w")
    ≡ record { daily = some 200; monthly = some 900 }
unfolding resolve_limits resolve_workspace_limits plan_token_limits get_workspace_quota get
    Billing.get_subscription_for_workspace Billing.get_plan
applied = refl

resolve_limits_lem_example :
    (shared.quota_scope ≡ QuotaScope.key
      → (workspace_id : Option String)
      → resolve_limits usage (some billing) shared store workspace_id
        ≡ settings usage (some billing) shared)
    × (resolve_limits usage (some billing) shared store none ≡ settings usage (some billing) shared)
    × (shared.quota_scope ≡ QuotaScope.workspace
        → let limits = resolve_limits usage (some billing) shared store (some "w") in
          let own = override (get_workspace_quota store "w") in
          let plan = entitled (some billing) "w" in
          (limits.daily ≡ first_of own.daily plan.daily shared.daily_token_limit)
          × (limits.monthly ≡ first_of own.monthly plan.monthly shared.monthly_token_limit))
resolve_limits_lem_example = resolve_limits_lem usage (some billing) shared store "w"

abbrev taken : QuotaReservation
taken = record {
  reservation_id = "r";
  api_key_hash = key;
  reserved_tokens = 57;
  usage_date = codes "2026-12-31";
  workspace_id = some "w";
}

reserves :
    (reserve usage (some billing) shared store key none 7 (some "w") "r" noon 0).1 ≡ ok (some taken)
unfolding reserve resolve_limits resolve_workspace_limits plan_token_limits get_workspace_quota get
    Billing.get_subscription_for_workspace Billing.get_plan create_reservation daily_taken
    monthly_taken reserved purge_expired purge put
reserves = refl

reserve-Within_example :
    let r' = (reserve usage (some billing) shared store key none 7 (some "w") "r" noon 0).0 in
    let limits = resolve_limits usage (some billing) shared store (some "w") in
    let w = dimension usage (some billing) shared (some "w") in
    (taken.reservation_id ≡ "r")
    × (taken.reserved_tokens ≡ 7 + completion_tokens usage (some billing) shared none)
    × Within limits.daily (daily_taken usage r' w key (date noon) 0)
    × Within limits.monthly (monthly_taken usage r' w key (year_month noon) 0)
reserve-Within_example =
    reserve-Within usage (some billing) shared store key none 7 (some "w") "r" noon 0 taken reserves

abbrev per_key : QuotaConfig
per_key = config QuotaScope.key (some 100)

refuses :
    (reserve usage none per_key store key (some 80) 11 none "r" noon 0).1
    ≡ raised (quota_exceeded (seconds_until_next_day noon))
unfolding reserve resolve_limits create_reservation daily_taken reserved purge_expired purge
    get_reserved_tokens_for_key
refuses = refl

refused_per_key_example :
    ((exceeds (some 100) (daily_taken usage store none key (date noon) 0 + (11 + 80)) ≡ true)
      × (quota_exceeded (seconds_until_next_day noon)
          ≡ quota_exceeded (seconds_until_next_day noon)))
    ⊎ ((exceeds (some 1000) (monthly_taken usage store none key (year_month noon) 0 + (11 + 80))
          ≡ true)
        × (quota_exceeded (seconds_until_next_day noon)
            ≡ quota_exceeded (seconds_until_next_month noon)))
refused_per_key_example =
    refused_per_key usage none per_key store key (some 80) 11 none "r" noon 0
      (quota_exceeded (seconds_until_next_day noon)) refl refuses

workspace_full :
    200
    < daily_taken usage store (some "w") key (date noon) 0
      + (1 + completion_tokens usage (some billing) shared (some 180))
unfolding daily_taken reserved
workspace_full = omega arith

assertion_for_refusal_example :
    (reserve usage (some billing) shared store key (some 180) 1 (some "w") "r" noon 0).1
    ≡ raised assertion_error
assertion_for_refusal_example =
    assertion_for_refusal usage (some billing) shared store key (some 180) 1 "w" "r" noon 0 200 refl
      refl refl (ap (λ (l : Limits). l.daily) applied) workspace_full

release_undoes_reserve_example :
    release usage
      (some billing)
      shared
      (reserve usage (some billing) shared store key none 7 (some "w") "r" noon 0).0
      "r"
    ≡ purge_expired store 0
release_undoes_reserve_example =
    release_undoes_reserve usage (some billing) shared store key none 7 (some "w") "r" noon 0 refl
      fresh
  where
    fresh : get "r" store.reservations ≡ none
    fresh = unfold get in refl

abbrev recorded : UsageRecord
recorded = record {
  request_id = "q";
  model = "m";
  prompt_tokens = 30;
  completion_tokens = 0;
  total_tokens = 30;
  api_key_name = none;
  api_key_hash = some key;
  workspace_id = some "w";
  usage_date = some (date noon);
}

abbrev used : Memory.Repository
used = Memory.record_usage (record { records = []; daily = [] }) recorded (codes "2026-10-02")

-- What the in-memory usage repository has recorded is what the quota counts, by key and by workspace.
counts_recorded_usage :
    (daily_taken (Memory.readings used) store none key (date noon) 0 ≡ 30)
    × (daily_taken (Memory.readings used) store (some "w") key (date noon) 0 ≡ 30)
unfolding daily_taken reserved get_reserved_tokens_for_key Memory.record_usage
    Memory.get_total_tokens_for_key Memory.get_total_tokens_for_workspace Memory.latest
    Memory.find_day Memory.put_day Memory.count_in Memory.cleanup_old_daily Memory.is_stale
    Memory.second_field Memory.until_colon Memory.text_lt get put text_eq
counts_recorded_usage = (refl, refl)
