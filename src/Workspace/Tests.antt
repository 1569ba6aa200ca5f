-- ===== src/Workspace/Tests.antt =====
-- A workspace "w" that "ann" creates; she invites "bob" as an admin.
use ai_platform_mini.Prelude.{
  ◌≤◌, ◌≡◌, refl, String, true, false, Option, none, some, [], ◌∷◌, Text, codes, length, str_eq,
  is_blank, strip, skip_space, is_space,
}
use ai_platform_mini.Prelude.Dict.{get, put}
use ai_platform_mini.Prelude.Results.{ok, raised, authorization_error}
use ai_platform_mini.Billing
use ai_platform_mini.Billing.Entitlement.{plan_for_workspace, require_limit, limit_for}
use ai_platform_mini.Workspace.{
  Role, WorkspaceRecord, WorkspaceMemberRecord, Repository, create_workspace, add_member,
  get_member, find_member, list_members,
}
use ai_platform_mini.Workspace.Service.{
  create, invite, remove, require_member_role, manages_members,
}
use ai_platform_mini.Workspace.Changes.{has_role}
use ai_platform_mini.Workspace.Steps.{Step, invited, change_needs_a_manager}
use ai_platform_mini.Workspace.Owners.{
  Reachable, start, created, stepped, empty, IsOwned, Reachable-IsOwned, invite_within_plan,
}

abbrev users : Text → Option String
users email = some "bob"

abbrev team : WorkspaceRecord
team = record { id = "w"; name = codes "team"; created_by_user_id = "ann" }

abbrev ann : WorkspaceMemberRecord
ann = record { id = 1; workspace_id = "w"; user_id = "ann"; role = Role.owner }

abbrev bob : WorkspaceMemberRecord
bob = record { id = 2; workspace_id = "w"; user_id = "bob"; role = Role.admin }

abbrev founded : Repository
founded = record { workspaces = ("w", team) ∷ []; members = ann ∷ []; member_id_seq = 1 }

abbrev joined : Repository
joined = record { workspaces = ("w", team) ∷ []; members = ann ∷ bob ∷ []; member_id_seq = 2 }

creates : create empty "ann" (codes " team ") "w" ≡ (founded, ok (team, Role.owner))
unfolding create create_workspace add_member is_blank is_space strip skip_space put
creates = refl

abbrev plan : Billing.Plan
plan = record {
  id = "p";
  name = "small";
  version = 1;
  daily_token_limit = none;
  monthly_token_limit = none;
  max_agents = none;
  max_documents = none;
  max_members = some 2;
  features = [];
  created_at = none;
}

abbrev billing : Billing.Repository
billing = record {
  plans_by_id = ("p", plan) ∷ [];
  plans_by_name = ("small", plan) ∷ [];
  subscriptions_by_id =
      (
        "s",
        record {
          id = "s";
          workspace_id = "w";
          plan_id = "p";
          status = Billing.SubscriptionStatus.active;
          started_at = none;
          expired_at = none;
        },
      )
      ∷ [];
  subscription_workspace_ids = ("w", "s") ∷ [];
}

finds_plan : plan_for_workspace billing "w" ≡ some plan
unfolding plan_for_workspace Billing.get_subscription_for_workspace Billing.get_plan get
finds_plan = refl

invites :
    invite users (some billing) founded "w" "ann" (codes "bob@x") (some Role.admin)
    ≡ ok (joined, bob)
unfolding invite require_member_role get_member find_member require_limit limit_for
    plan_for_workspace Billing.get_subscription_for_workspace Billing.get_plan get list_members
    add_member
invites = refl

-- An admin cannot remove the owner.
keeps_owner : remove joined "w" "bob" "ann" ≡ raised authorization_error
unfolding remove require_member_role get_member find_member
keeps_owner = refl

abbrev founding : Reachable users (some billing) founded
founding = created empty founded "ann" "w" (codes " team ") (team, Role.owner) start fresh creates
  where
    fresh : get {V = WorkspaceRecord} "w" [] ≡ none
    fresh = unfold get in refl

joining : Step users (some billing) "w" "ann" founded joined
joining = invited (codes "bob@x") (some Role.admin) bob invites

change_needs_a_manager_example :
    (has_role manages_members (get_member founded "w" "ann") ≡ true)
    × ((id : String) → str_eq "w" id ≡ false → list_members joined id ≡ list_members founded id)
change_needs_a_manager_example =
    change_needs_a_manager users (some billing) "w" "ann" founded joined joining

Reachable-IsOwned_example : IsOwned joined
Reachable-IsOwned_example =
    Reachable-IsOwned users (some billing) joined
      (stepped founded joined "w" "ann" founding joining)

invite_within_plan_example : length (list_members joined "w") ≤ 2
invite_within_plan_example =
    invite_within_plan users (some billing) founded joined billing plan "w" "ann" (codes "bob@x")
      (some Role.admin) bob 2 refl finds_plan refl invites
