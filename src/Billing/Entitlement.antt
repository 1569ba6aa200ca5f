-- ===== src/Billing/Entitlement.antt =====
-- app/billing/entitlement.py: feature capabilities and resource ceilings.
use ai_platform_mini.Prelude.{
  ℕ, String, ◌≡◌, refl, Bool, true, false, Option, none, some, ltb, if◌then◌else◌, str_eq, arith,
}
use ai_platform_mini.Prelude.Dict.{get}
use ai_platform_mini.Prelude.Results.{Result, ok, raised, validation_error, value_error, ◌>>=◌}
use ai_platform_mini.Billing.{
  Plan, Subscription, Repository, is_active, get_plan, get_subscription_for_workspace,
}

-- `_plan_for_workspace`
abbrev pub effective_plan : Repository → Option Subscription → Option Plan
effective_plan r none = none
effective_plan r (some s) = if is_active s.status then get_plan r s.plan_id else none

unfoldable pub plan_for_workspace : Repository → String → Option Plan
plan_for_workspace r workspace_id = effective_plan r (get_subscription_for_workspace r workspace_id)

pub plan_for_workspace_lem :
    (r : Repository) (workspace_id : String)
    → plan_for_workspace r workspace_id
      ≡ effective_plan r (get_subscription_for_workspace r workspace_id)
unfolding plan_for_workspace
plan_for_workspace_lem r workspace_id = refl

-- `_limit_for`
unfoldable pub limit_for : Plan → String → Result (Option ℕ)
limit_for plan resource =
    if str_eq resource "agent"
    then ok plan.max_agents
    else if str_eq resource "document"
    then ok plan.max_documents
    else if str_eq resource "member"
    then ok plan.max_members
    else raised value_error

enabled : Option Bool → Bool
enabled none = false
enabled (some on) = on

unfoldable pub check_feature : Repository → String → String → Bool
unfolding enabled
check_feature r workspace_id feature = elim (plan_for_workspace r workspace_id) [
  | none ↦ true
  | some plan ↦ enabled (get feature plan.features)
]

-- `limit is None or current_count < limit`
abbrev pub below : ℕ → Option ℕ → Bool
below count none = true
below count (some limit) = ltb count limit

unfoldable pub check_limit : Repository → String → String → ℕ → Result Bool
check_limit r workspace_id resource current_count = elim (plan_for_workspace r workspace_id) [
  | none ↦ ok true
  | some plan ↦ limit_for plan resource >>= λ limit. ok (below current_count limit)
]

unfoldable pub require_limit : Repository → String → String → ℕ → Result (Unit {0})
require_limit r workspace_id resource current_count = elim (plan_for_workspace r workspace_id) [
  | none ↦ ok tt
  | some plan ↦ limit_for plan resource >>= λ limit.
      if below current_count limit then ok tt else raised validation_error
]

-- `require_limit` passes exactly where `check_limit` answers true, raises a validation error exactly
-- where it answers false, and both raise the same error for a resource that has no ceiling.
pub require_limit-check_limit :
    (r : Repository) (workspace_id resource : String) (count : ℕ)
    → require_limit r workspace_id resource count ≡ (
        check_limit r workspace_id resource count >>= λ open_slot.
        if open_slot then ok tt else raised validation_error)
unfolding require_limit check_limit limit_for
require_limit-check_limit r workspace_id resource count = ground arith
