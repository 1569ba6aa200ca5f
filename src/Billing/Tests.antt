-- ===== src/Billing/Tests.antt =====
-- Runs of the billing operations on a small repository.
use ai_platform_mini.Prelude.{◌≡◌, refl, true, false, none, some, [], ◌∷◌}
use ai_platform_mini.Prelude.Dict.{get, put}
use ai_platform_mini.Prelude.Results.{ok, raised, validation_error, value_error}
use ai_platform_mini.Billing.{
  Plan, Subscription, SubscriptionStatus, Repository, get_plan, create_subscription,
  get_subscription_for_workspace,
}
use ai_platform_mini.Billing.Entitlement.{
  plan_for_workspace, limit_for, check_feature, check_limit, require_limit,
  require_limit-check_limit,
}
use ai_platform_mini.Billing.Plans.{assign_plan}
use ai_platform_mini.Billing.Assign.{IsIndexed, Assigned, assign_plan-Assigned}

abbrev free : Plan
free = record {
  id = "p1";
  name = "free";
  version = 1;
  daily_token_limit = some 1000;
  monthly_token_limit = none;
  max_agents = some 2;
  max_documents = none;
  max_members = some 3;
  features = ("benchmark", true) ∷ [];
  created_at = none;
}

abbrev empty : Repository
empty = record {
  plans_by_id = ("p1", free) ∷ [];
  plans_by_name = ("free", free) ∷ [];
  subscriptions_by_id = [];
  subscription_workspace_ids = [];
}

abbrev subscribed : Repository
subscribed = (assign_plan empty "w" "p1" SubscriptionStatus.trial 7 "s1").0

member_ceiling :
    (check_limit subscribed "w" "member" 2 ≡ ok true)
    × (require_limit subscribed "w" "member" 3 ≡ raised validation_error)
    × (require_limit subscribed "w" "socket" 3 ≡ raised value_error)
    × (check_feature subscribed "w" "reranker" ≡ false)
    × (check_feature subscribed "v" "reranker" ≡ true)
unfolding check_limit require_limit check_feature limit_for plan_for_workspace get_plan assign_plan
    create_subscription get_subscription_for_workspace get put
member_ceiling = (refl, refl, refl, refl, refl)

empty-IsIndexed : IsIndexed empty
empty-IsIndexed = record { found = λ w id e. (unfold get in cc e) }

assign_plan-Assigned_example :
    let (r', result) = assign_plan empty "w" "p1" SubscriptionStatus.expired 7 "s1" in
    (s : Subscription) × (result ≡ ok s) × Assigned empty "w" "p1" SubscriptionStatus.expired r' s
unfolding get get_plan
assign_plan-Assigned_example =
    assign_plan-Assigned empty "w" "p1" SubscriptionStatus.expired 7 "s1" empty-IsIndexed refl refl

require_limit-check_limit_example :
    require_limit subscribed "w" "member" 3 ≡ raised validation_error
unfolding check_limit limit_for plan_for_workspace get_plan assign_plan create_subscription
    get_subscription_for_workspace get put
require_limit-check_limit_example = require_limit-check_limit subscribed "w" "member" 3
