-- ===== src/Billing/Assign.antt =====
-- What `assign_plan` leaves in the repository.
use ai_platform_mini.Prelude.{
  ℕ, String, ◌≡◌, ◌≢◌, refl, not, Option, none, some, if◌then◌else◌, is_some, subst, str_eq, eq_iff,
  eq_refl, arith, Option-cases, Bool-cases, inl, inr,
}
use ai_platform_mini.Prelude.Dict.{get, put, get-put}
use ai_platform_mini.Prelude.Results.{ok}
use ai_platform_mini.Billing.{
  Plan, Subscription, SubscriptionStatus, Repository, is_active, get_plan, create_subscription,
  update_subscription, get_subscription_for_workspace,
}
use ai_platform_mini.Billing.Plans.{assign_plan, refreshed_expiry}

-- The index by workspace names subscriptions that exist, under their own id and workspace.
pub record IsIndexed (r : Repository) : Type 0 where
  pub found :
      (w id : String)
      → get w r.subscription_workspace_ids ≡ some id
      → (s : Subscription) × (get id r.subscriptions_by_id ≡ some s)
        × (s.id ≡ id)
        × (s.workspace_id ≡ w)

-- A write of one subscription, as `create_subscription` and `update_subscription` make it.
abbrev written : Repository → Subscription → Repository
written r s = record r {
  subscriptions_by_id = put s.id s r.subscriptions_by_id;
  subscription_workspace_ids = put s.workspace_id s.id r.subscription_workspace_ids;
}

-- The id is new, or it already belongs to the same workspace.
abbrev OwnId : Repository → Subscription → Type 0
OwnId r s =
    (old : Subscription)
    → get s.id r.subscriptions_by_id ≡ some old
    → old.workspace_id ≡ s.workspace_id

written-IsIndexed :
    (r : Repository) (s : Subscription) → IsIndexed r → OwnId r s → IsIndexed (written r s)
written-IsIndexed r s ix own = record { found = λ w id e. by_workspace w id e }
  where
    kept :
        (w id : String) (old : Subscription)
        → get id r.subscriptions_by_id ≡ some old
        → old.id ≡ id
        → old.workspace_id ≡ w
        → (x : Subscription) × (get id (written r s).subscriptions_by_id ≡ some x)
          × (x.id ≡ id)
          × (x.workspace_id ≡ w)
    kept w id old p q t = elim (Bool-cases (str_eq s.id id)) [
      | inl same ↦ (
        s,
        ground (arith, get-put s.id id s r.subscriptions_by_id),
        (eq_iff s.id id).0 same,
        ground (arith, eq_iff s.id id, own old),
      )
      | inr other ↦ (old, ground (arith, get-put s.id id s r.subscriptions_by_id), q, t)
    ]

    by_workspace :
        (w id : String)
        → get w (written r s).subscription_workspace_ids ≡ some id
        → (x : Subscription) × (get id (written r s).subscriptions_by_id ≡ some x)
          × (x.id ≡ id)
          × (x.workspace_id ≡ w)
    by_workspace w id e = elim (Bool-cases (str_eq s.workspace_id w)) [
      | inl same ↦ (
        s,
        ground (
          arith,
          get-put s.workspace_id w s.id r.subscription_workspace_ids,
          get-put s.id id s r.subscriptions_by_id,
          eq_iff s.id id,
        ),
        ground (arith, get-put s.workspace_id w s.id r.subscription_workspace_ids),
        (eq_iff s.workspace_id w).0 same,
      )
      | inr other ↦
          let (old, p, q, t) =
            ix.found w id
              (ground (arith, get-put s.workspace_id w s.id r.subscription_workspace_ids)) in
          kept w id old p q t
    ]

get-written :
    (r : Repository) (s : Subscription)
    → get_subscription_for_workspace (written r s) s.workspace_id ≡ some s
unfolding get_subscription_for_workspace
get-written r s = ground (
  arith,
  get-put s.workspace_id s.workspace_id s.id r.subscription_workspace_ids,
  get-put s.id s.id s r.subscriptions_by_id,
  eq_refl s.workspace_id,
  eq_refl s.id,
)

get-written_ne :
    (r : Repository) (s : Subscription) (w : String)
    → IsIndexed r
    → OwnId r s
    → w ≢ s.workspace_id
    → get_subscription_for_workspace (written r s) w ≡ get_subscription_for_workspace r w
unfolding get_subscription_for_workspace
get-written_ne r s w ix own ne = elim (Option-cases (get w r.subscription_workspace_ids)) [
  | inl missing ↦
      ground
        (arith, eq_iff s.workspace_id w, get-put s.workspace_id w s.id r.subscription_workspace_ids)
  | inr (id, e) ↦ ground (
    arith,
    eq_iff s.workspace_id w,
    eq_iff s.id id,
    get-put s.workspace_id w s.id r.subscription_workspace_ids,
    get-put s.id id s r.subscriptions_by_id,
    ix.found w id e,
    own (ix.found w id e).0,
  )
]

found_own :
    (r : Repository) (w : String) (s : Subscription)
    → IsIndexed r
    → get_subscription_for_workspace r w ≡ some s
    → (get s.id r.subscriptions_by_id ≡ some s) × (s.workspace_id ≡ w)
unfolding get_subscription_for_workspace
found_own r w s ix e = elim (Option-cases (get w r.subscription_workspace_ids)) [
  | inl missing ↦ ground arith
  | inr (id, p) ↦ ground (arith, ix.found w id p)
]

-- What an assignment leaves: the subscription that it answers is the workspace's, with the plan
-- and the status that were asked for and an end exactly if the status is not an active one; the
-- index stays sound, and the other workspaces keep their subscriptions.
pub record Assigned (r : Repository) (workspace_id plan_id : String) (status : SubscriptionStatus)
    (r' : Repository) (s : Subscription) : Type 0 where
  pub stored : get_subscription_for_workspace r' workspace_id ≡ some s
  pub plan : s.plan_id ≡ plan_id
  pub status_set : s.status ≡ status
  pub ended : is_some s.expired_at ≡ not (is_active status)
  pub indexed : IsIndexed r'
  pub others :
      (w : String)
      → w ≢ workspace_id
      → get_subscription_for_workspace r' w ≡ get_subscription_for_workspace r w

written-Assigned :
    (r : Repository) (s : Subscription)
    → IsIndexed r
    → OwnId r s
    → is_some s.expired_at ≡ not (is_active s.status)
    → Assigned r s.workspace_id s.plan_id s.status (written r s) s
written-Assigned r s ix own ended = record {
  stored = get-written r s;
  plan = refl;
  status_set = refl;
  ended = ended;
  indexed = written-IsIndexed r s ix own;
  others = λ w ne. get-written_ne r s w ix own ne;
}

expiry_ended :
    (old : Option ℕ) (status : SubscriptionStatus) (now : ℕ)
    → is_some (refreshed_expiry old status now) ≡ not (is_active status)
unfolding refreshed_expiry
expiry_ended old status now = ground arith

-- The subscription that an assignment writes.
next : Option Subscription → String → String → SubscriptionStatus → ℕ → String → Subscription
next none workspace_id plan_id status now new_id = record {
  id = new_id;
  workspace_id = workspace_id;
  plan_id = plan_id;
  status = status;
  started_at = some now;
  expired_at = if is_active status then none else some now;
}
next (some existing) workspace_id plan_id status now new_id = record existing {
  plan_id = plan_id;
  status = status;
  expired_at = refreshed_expiry existing.expired_at status now;
}

module _ (r : Repository) (workspace_id plan_id : String) (status : SubscriptionStatus) (now : ℕ)
    (new_id : String) (ix : IsIndexed r) (fresh : get new_id r.subscriptions_by_id ≡ none) where
  written-next :
      (o : Option Subscription) {plan : Plan}
      → get_subscription_for_workspace r workspace_id ≡ o
      → get_plan r plan_id ≡ some plan
      → let s = next o workspace_id plan_id status now new_id in
        (assign_plan r workspace_id plan_id status now new_id ≡ (written r s, ok s))
        × Assigned r workspace_id plan_id status (written r s) s
  unfolding assign_plan create_subscription update_subscription next
  written-next none e p = (
    ground arith,
    written-Assigned r (next none workspace_id plan_id status now new_id) ix (λ old q. cc)
        (ground arith),
  )
  written-next (some s) e p =
      let (stored, own) = found_own r workspace_id s ix e in
      let s' = next (some s) workspace_id plan_id status now new_id in
      (
        ground arith,
        subst (λ v. Assigned r v plan_id status (written r s') s') own
            (written-Assigned r s' ix (λ old q. cc) (expiry_ended s.expired_at status now)),
      )

  -- With a sound index and a new id, the assignment of a plan that exists succeeds: the
  -- subscription that it answers is stored for the workspace with the plan and the status that were
  -- asked for, it has an end exactly if the status is not active or trial, the index stays sound, and
  -- the other workspaces keep their subscriptions.
  pub assign_plan-Assigned :
      {plan : Plan}
      → get_plan r plan_id ≡ some plan
      → let (r', result) = assign_plan r workspace_id plan_id status now new_id in
        (s : Subscription) × (result ≡ ok s) × Assigned r workspace_id plan_id status r' s
  assign_plan-Assigned p =
      let existing = get_subscription_for_workspace r workspace_id in
      let (e, a) = written-next existing refl p in
      (next existing workspace_id plan_id status now new_id, rw e refl, rw e a)
