-- ===== src/Workspace/Service.antt =====
-- app/auth/workspace_service.py. Audit and logging are left out. A role argument is what its text
-- names in lower case, `none` if it names no role; `users` is what the user repository finds for the
-- text of an email address that `strip` and `lower` have cleaned.
use ai_platform_mini.Prelude.{
  String, Bool, true, false, not, Option, none, some, List, length, ltb, if◌then◌else◌, Text,
  is_blank, strip,
}
use ai_platform_mini.Prelude.Results.{
  Result, ok, raised, ◌>>=◌, ◌>>◌, require, validation_error, authorization_error,
}
use ai_platform_mini.Billing
use ai_platform_mini.Billing.Entitlement.{require_limit}
use ai_platform_mini.Workspace.{
  Role, WorkspaceRecord, WorkspaceMemberRecord, Repository, create_workspace, find_workspace_by_id,
  update_workspace, get_member, add_member, list_members, update_member_role, remove_member,
}

-- `_MEMBER_MANAGEMENT_ROLES`
abbrev pub manages_members : Role → Bool
manages_members Role.owner = true
manages_members Role.admin = true
manages_members Role.member = false
manages_members Role.viewer = false

abbrev pub is_owner : Role → Bool
is_owner Role.owner = true
is_owner _ = false

abbrev pub any_role : Role → Bool
any_role _ = true

-- `_require_member_role`
unfoldable pub require_member_role :
    Repository → String → String → (Role → Bool) → Result WorkspaceMemberRecord
require_member_role r workspace_id user_id allowed = elim (get_member r workspace_id user_id) [
  | none ↦ raised authorization_error
  | some m ↦ if allowed m.role then ok m else raised authorization_error
]

-- The role that a member may be given: one of the roles, but not the owner's.
abbrev pub assignable : Option Role → Result Role
assignable none = raised validation_error
assignable (some role) = if is_owner role then raised validation_error else ok role

abbrev pub found {ℓ} : {A : Type ℓ} → Option A → Result A
found none = raised validation_error
found (some a) = ok a

-- A member who is not the owner.
abbrev pub changeable : Option WorkspaceMemberRecord → Result WorkspaceMemberRecord
changeable none = raised validation_error
changeable (some m) = if is_owner m.role then raised authorization_error else ok m

-- `id` is the new uuid. The owner is added behind the workspace.
unfoldable pub create :
    Repository → String → Text → String → Repository × Result (WorkspaceRecord × Role)
create r user_id name id =
    if is_blank name
    then (r, raised validation_error)
    else let (r1, saved) =
        create_workspace r (record { id = id; name = strip name; created_by_user_id = user_id }) in
      let (r2, m) = add_member r1 id user_id Role.owner in (r2, m >>= λ _. ok (saved, Role.owner))

-- The operations below write last, so that one that raises has changed nothing: they return the
-- new repository with their result, or raise.
unfoldable pub rename : Repository → String → String → Text → Result (Repository × WorkspaceRecord)
unfolding require_member_role
rename r workspace_id actor_id name =
    require (not (is_blank name)) validation_error
    >> require (not (ltb 128 (length (strip name)))) validation_error
    >> (require_member_role r workspace_id actor_id manages_members >>= λ _.
        found (find_workspace_by_id r workspace_id) >>= λ _.
        let (r', w) = update_workspace r workspace_id (strip name) in found w >>= λ w'. ok (r', w'))

-- `if self._entitlement is not None: ...require_limit(...)`
abbrev pub within_plan : Option Billing.Repository → Repository → String → Result (Unit {0})
within_plan none r workspace_id = ok tt
within_plan (some billing) r workspace_id =
    require_limit billing workspace_id "member" (length (list_members r workspace_id))

abbrev pub stored :
    Repository × Result WorkspaceMemberRecord → Result (Repository × WorkspaceMemberRecord)
stored (r, ok m) = ok (r, m)
stored (r, raised e) = raised e

abbrev pub written : Repository × Bool → Result Repository
written (r, true) = ok r
written (r, false) = raised validation_error

module _ (users : Text → Option String) (entitlement : Option Billing.Repository) where
  unfoldable pub invite :
      Repository
      → String
      → String
      → Text
      → Option Role
      → Result (Repository × WorkspaceMemberRecord)
  unfolding require_member_role
  invite r workspace_id actor_id email role =
      require_member_role r workspace_id actor_id manages_members >>= λ _.
      assignable role >>= λ given. found (users email) >>= λ user_id.
      within_plan entitlement r workspace_id >> stored (add_member r workspace_id user_id given)

unfoldable pub list_of : Repository → String → String → Result (List WorkspaceMemberRecord)
unfolding require_member_role
list_of r workspace_id actor_id =
    require_member_role r workspace_id actor_id any_role >>= λ _. ok (list_members r workspace_id)

unfoldable pub change_role : Repository → String → String → String → Option Role → Result Repository
unfolding require_member_role
change_role r workspace_id actor_id target_id role =
    require_member_role r workspace_id actor_id manages_members >>= λ _.
    assignable role >>= λ given. changeable (get_member r workspace_id target_id) >>= λ _.
    written (update_member_role r workspace_id target_id given)

unfoldable pub remove : Repository → String → String → String → Result Repository
unfolding require_member_role
remove r workspace_id actor_id target_id =
    require_member_role r workspace_id actor_id manages_members >>= λ _.
    changeable (get_member r workspace_id target_id) >>= λ _.
    written (remove_member r workspace_id target_id)
