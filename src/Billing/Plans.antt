-- ===== src/Billing/Plans.antt =====
-- app/billing/service.py: the assignment of a plan to a workspace. `now` and `new_id` are what
-- the clock and `uuid4` return.
use ai_platform_mini.Prelude.{
  ℕ, String, Bool, true, false, Option, none, some, List, ◌&&◌, keep, if◌then◌else◌, is_some,
  str_eq, map,
}
use ai_platform_mini.Prelude.Results.{Result, ok, raised, validation_error}
use ai_platform_mini.Billing.{
  Subscription, SubscriptionStatus, Repository, is_active, get_plan, create_subscription,
  update_subscription, get_subscription_for_workspace,
}

abbrev same_status : SubscriptionStatus → SubscriptionStatus → Bool
same_status SubscriptionStatus.active SubscriptionStatus.active = true
same_status SubscriptionStatus.trial SubscriptionStatus.trial = true
same_status SubscriptionStatus.expired SubscriptionStatus.expired = true
same_status SubscriptionStatus.cancelled SubscriptionStatus.cancelled = true
same_status _ _ = false

-- `list_subscriptions`, with its two filters
abbrev matches_plan : Option String → Subscription → Bool
matches_plan none s = true
matches_plan (some p) s = str_eq s.plan_id p

abbrev matches_status : Option SubscriptionStatus → Subscription → Bool
matches_status none s = true
matches_status (some t) s = same_status s.status t

unfoldable pub list_subscriptions :
    Repository → Option String → Option SubscriptionStatus → List Subscription
list_subscriptions r plan_id status =
    keep (λ s. matches_plan plan_id s && matches_status status s)
      (map (λ entry. entry.1) r.subscriptions_by_id)

-- The end of a subscription that takes a status.
unfoldable pub refreshed_expiry : Option ℕ → SubscriptionStatus → ℕ → Option ℕ
refreshed_expiry old status now =
    if is_active status then none else (if is_some old then old else some now)

abbrev saved : Repository × Option Subscription → Repository × Result Subscription
saved (r, none) = (r, raised validation_error)
saved (r, some s) = (r, ok s)

unfoldable pub assign_plan :
    Repository
    → String
    → String
    → SubscriptionStatus
    → ℕ
    → String
    → Repository × Result Subscription
unfolding refreshed_expiry
assign_plan r workspace_id plan_id status now new_id = elim (get_plan r plan_id) [
  | none ↦ (r, raised validation_error)
  | some plan ↦ elim (get_subscription_for_workspace r workspace_id) [
    | none ↦
        let (r', s) = create_subscription r (record {
          id = new_id;
          workspace_id = workspace_id;
          plan_id = plan_id;
          status = status;
          started_at = some now;
          expired_at = if is_active status then none else some now;
        }) in
        (r', ok s)
    | some existing ↦ saved (
        update_subscription r (record existing {
          plan_id = plan_id;
          status = status;
          expired_at = refreshed_expiry existing.expired_at status now;
        }))
  ]
]
