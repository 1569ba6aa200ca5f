-- ===== src/Billing.antt =====
-- app/billing/models.py, memory_repository.py, entitlement.py and service.py. Ids and names are
-- texts that are only compared; a time is a number of microseconds.
pub mod Entitlement
pub mod Plans
pub mod Assign
mod Tests
use ai_platform_mini.Prelude.{
  ℕ, String, Bool, true, false, Option, none, some, List, [], ◌∷◌, ltb, if◌then◌else◌, is_some,
  str_eq,
}
use ai_platform_mini.Prelude.Dict.{Dict, get, put}

pub data SubscriptionStatus : Type 0 where
  active trial expired cancelled : SubscriptionStatus

-- `status in ACTIVE_SUBSCRIPTION_STATUSES`
abbrev pub is_active : SubscriptionStatus → Bool
is_active active = true
is_active trial = true
is_active expired = false
is_active cancelled = false

pub record Plan : Type 0 where
  pub id : String
  pub name : String
  pub version : ℕ
  pub daily_token_limit : Option ℕ
  pub monthly_token_limit : Option ℕ
  pub max_agents : Option ℕ
  pub max_documents : Option ℕ
  pub max_members : Option ℕ
  pub features : Dict Bool
  pub created_at : Option ℕ

pub record Subscription : Type 0 where
  pub id : String
  pub workspace_id : String
  pub plan_id : String
  pub status : SubscriptionStatus
  pub started_at : Option ℕ
  pub expired_at : Option ℕ

-- `InMemoryBillingRepository`
pub record Repository : Type 0 where
  pub plans_by_id : Dict Plan
  pub plans_by_name : Dict Plan
  pub subscriptions_by_id : Dict Subscription
  pub subscription_workspace_ids : Dict String

unfoldable pub get_plan : Repository → String → Option Plan
get_plan r plan_id = get plan_id r.plans_by_id

-- The upsert by name: a plan whose name is seeded is never replaced.
unfoldable pub seed_plan : Repository → Plan → Repository × Plan
seed_plan r plan = elim (get plan.name r.plans_by_name) [
  | some existing ↦ (r, existing)
  | none ↦ (
    record r {
      plans_by_id = put plan.id plan r.plans_by_id;
      plans_by_name = put plan.name plan r.plans_by_name;
    },
    plan,
  )
]

unfoldable pub create_subscription : Repository → Subscription → Repository × Subscription
create_subscription r s = (
  record r {
    subscriptions_by_id = put s.id s r.subscriptions_by_id;
    subscription_workspace_ids = put s.workspace_id s.id r.subscription_workspace_ids;
  },
  s,
)

unfoldable pub update_subscription : Repository → Subscription → Repository × Option Subscription
update_subscription r s =
    if is_some (get s.id r.subscriptions_by_id)
    then (
      record r {
        subscriptions_by_id = put s.id s r.subscriptions_by_id;
        subscription_workspace_ids = put s.workspace_id s.id r.subscription_workspace_ids;
      },
      some s,
    )
    else (r, none)

unfoldable pub get_subscription_for_workspace : Repository → String → Option Subscription
get_subscription_for_workspace r workspace_id =
    elim (get workspace_id r.subscription_workspace_ids) [
      | none ↦ none
      | some id ↦ get id r.subscriptions_by_id
    ]
