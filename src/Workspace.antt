-- ===== src/Workspace.antt =====
-- app/auth: workspaces and their members. This file is the in-memory repository
-- (workspaces_repository.py); `Service` is workspace_service.py. The dates of the records are left out.
pub mod Service
pub mod Changes
pub mod Steps
pub mod Owners
mod Tests
use ai_platform_mini.Prelude.{
  ℕ, suc, ◌+◌, String, Bool, true, false, ◌&&◌, Option, none, some, List, [], ◌∷◌, ◌++◌, keep, any,
  Text, str_eq, if◌then◌else◌,
}
use ai_platform_mini.Prelude.Dict.{Dict, get, put}
use ai_platform_mini.Prelude.Results.{Result, ok, raised, conflict_error}

-- `_ROLES`
pub data Role : Type 0 where
  owner admin member viewer : Role

pub record WorkspaceRecord : Type 0 where
  pub id : String
  pub name : Text
  pub created_by_user_id : String

pub record WorkspaceMemberRecord : Type 0 where
  pub id : ℕ
  pub workspace_id : String
  pub user_id : String
  pub role : Role

pub record Repository : Type 0 where
  pub workspaces : Dict WorkspaceRecord
  pub members : List WorkspaceMemberRecord
  pub member_id_seq : ℕ

unfoldable pub create_workspace : Repository → WorkspaceRecord → Repository × WorkspaceRecord
create_workspace r w = (record r { workspaces = put w.id w r.workspaces }, w)

unfoldable pub find_workspace_by_id : Repository → String → Option WorkspaceRecord
find_workspace_by_id r id = get id r.workspaces

unfoldable pub update_workspace : Repository → String → Text → Repository × Option WorkspaceRecord
update_workspace r id name = elim (get id r.workspaces) [
  | none ↦ (r, none)
  | some w ↦
      let w' : WorkspaceRecord = record w { name = name } in
      (record r { workspaces = put id w' r.workspaces }, some w')
]

abbrev pub is_of : String → String → WorkspaceMemberRecord → Bool
is_of workspace_id user_id m = str_eq m.workspace_id workspace_id && str_eq m.user_id user_id

unfoldable pub find_member :
    String → String → List WorkspaceMemberRecord → Option WorkspaceMemberRecord
find_member workspace_id user_id [] = none
find_member workspace_id user_id (m ∷ ms) =
    let rest = find_member workspace_id user_id ms in
    if is_of workspace_id user_id m then some m else rest

unfoldable pub get_member : Repository → String → String → Option WorkspaceMemberRecord
unfolding find_member
get_member r workspace_id user_id = find_member workspace_id user_id r.members

unfoldable pub add_member :
    Repository → String → String → Role → Repository × Result WorkspaceMemberRecord
add_member r workspace_id user_id role =
    if any (is_of workspace_id user_id) r.members
    then (r, raised conflict_error)
    else let m : WorkspaceMemberRecord = record {
      id = r.member_id_seq + 1;
      workspace_id = workspace_id;
      user_id = user_id;
      role = role;
    } in
      (record r { members = r.members ++ m ∷ []; member_id_seq = r.member_id_seq + 1 }, ok m)

unfoldable pub list_members : Repository → String → List WorkspaceMemberRecord
list_members r workspace_id = keep (λ m. str_eq m.workspace_id workspace_id) r.members

-- The first record of the member gets the role.
unfoldable pub set_role :
    String → String → Role → List WorkspaceMemberRecord → List WorkspaceMemberRecord
set_role workspace_id user_id role [] = []
set_role workspace_id user_id role (m ∷ ms) =
    let rest = set_role workspace_id user_id role ms in
    if is_of workspace_id user_id m then record m { role = role } ∷ ms else m ∷ rest

unfoldable pub update_member_role : Repository → String → String → Role → Repository × Bool
unfolding set_role
update_member_role r workspace_id user_id role = (
  record r { members = set_role workspace_id user_id role r.members },
  any (is_of workspace_id user_id) r.members,
)

-- The first record of the member is popped.
unfoldable pub drop_member :
    String → String → List WorkspaceMemberRecord → List WorkspaceMemberRecord
drop_member workspace_id user_id [] = []
drop_member workspace_id user_id (m ∷ ms) =
    let rest = drop_member workspace_id user_id ms in
    if is_of workspace_id user_id m then ms else m ∷ rest

unfoldable pub remove_member : Repository → String → String → Repository × Bool
unfolding drop_member
remove_member r workspace_id user_id = (
  record r { members = drop_member workspace_id user_id r.members },
  any (is_of workspace_id user_id) r.members,
)
