-- ===== src/Quota/Limits.antt =====
-- Which limits the quota service applies (`_resolve_limits`).
use ai_platform_mini.Prelude.{ℕ, String, ◌≡◌, refl, Option, none, some, arith}
use ai_platform_mini.Usage.{Readings}
use ai_platform_mini.Billing
use ai_platform_mini.Billing.{Plan, Subscription, is_active}
use ai_platform_mini.Billing.Entitlement.{plan_for_workspace, effective_plan}
use ai_platform_mini.Quota.{
  Repository, QuotaConfig, QuotaScope, WorkspaceQuota, get_workspace_quota,
}
use ai_platform_mini.Quota.Service.{
  Limits, limits_of, no_limits, plan_of, plan_token_limits, resolve_limits,
  resolve_workspace_limits, settings,
}

-- The plan that the entitlement service finds.
abbrev pub entitled : Option Billing.Repository → String → Limits
entitled none w = no_limits
entitled (some billing) w = limits_of (plan_for_workspace billing w)

abbrev pub override : Option WorkspaceQuota → Limits
override none = no_limits
override (some q) = record { daily = q.daily_token_limit; monthly = q.monthly_token_limit }

-- The first of three limits that is set.
abbrev pub first_of : Option ℕ → Option ℕ → Option ℕ → Option ℕ
first_of (some a) b c = some a
first_of none (some b) c = some b
first_of none none c = c

plan_token_limits-entitled :
    (billing : Option Billing.Repository) (w : String)
    → plan_token_limits billing w ≡ entitled billing w
unfolding plan_token_limits plan_for_workspace
plan_token_limits-entitled none w = refl
plan_token_limits-entitled (some billing) w =
    by_subscription (Billing.get_subscription_for_workspace billing w)
  where
    by_subscription :
        (s : Option Subscription) → plan_of billing s ≡ limits_of (effective_plan billing s)
    by_subscription none = refl
    by_subscription (some s) = ground arith

module _ (usage : Readings) (billing : Option Billing.Repository) (config : QuotaConfig) where
  -- The limits that apply. Per API key, and for a request without a workspace, they are the
  -- settings. In a workspace each of the two limits is, on its own, the workspace's override if it
  -- has one, else the limit of the plan that the entitlement service sees, else the setting.
  pub resolve_limits_lem :
      (r : Repository) (ws : String)
      → (config.quota_scope ≡ QuotaScope.key
          → (workspace_id : Option String)
          → resolve_limits usage billing config r workspace_id ≡ settings usage billing config)
        × (resolve_limits usage billing config r none ≡ settings usage billing config)
        × (config.quota_scope ≡ QuotaScope.workspace
            → let limits = resolve_limits usage billing config r (some ws) in
              let own = override (get_workspace_quota r ws) in
              let plan = entitled billing ws in
              (limits.daily ≡ first_of own.daily plan.daily config.daily_token_limit)
              × (limits.monthly ≡ first_of own.monthly plan.monthly config.monthly_token_limit))
  unfolding resolve_limits resolve_workspace_limits
  resolve_limits_lem r ws =
      let e = plan_token_limits-entitled billing ws in
      (λ k w. ground arith, ground arith, λ w. (ground (arith, e), ground (arith, e)))
