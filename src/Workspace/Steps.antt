-- ===== src/Workspace/Steps.antt =====
-- The successful operations of the members of a workspace, as steps.
use ai_platform_mini.Prelude.{◌≡◌, String, true, false, Option, [], ◌∷◌, keep, Text, str_eq, arith}
use ai_platform_mini.Prelude.Results.{ok}
use ai_platform_mini.Billing
use ai_platform_mini.Workspace.{
  Role, WorkspaceRecord, WorkspaceMemberRecord, Repository, update_workspace, get_member,
  list_members, update_member_role, remove_member,
}
use ai_platform_mini.Workspace.Service.{manages_members, rename, invite, change_role, remove}
use ai_platform_mini.Workspace.Changes.{
  owners, has_role, new_member, owners-append, append_nil, owners-set_role, owners-drop_member,
  elsewhere-set_role, elsewhere-drop_member, keep-append, change_role_ok, remove_ok, rename_ok,
  add_member_ok, invite_ok,
}

module _ (users : Text → Option String) (entitlement : Option Billing.Repository) where
  -- A successful operation of a user on a workspace that exists.
  pub data Step (workspace_id actor_id : String) (r r' : Repository) : Type 0 where
    renamed :
        (name : Text) (w : WorkspaceRecord)
        → rename r workspace_id actor_id name ≡ ok (r', w)
        → Step workspace_id actor_id r r'
    invited :
        (email : Text) (role : Option Role) (m : WorkspaceMemberRecord)
        → invite users entitlement r workspace_id actor_id email role ≡ ok (r', m)
        → Step workspace_id actor_id r r'
    role_changed :
        (target_id : String) (role : Option Role)
        → change_role r workspace_id actor_id target_id role ≡ ok r'
        → Step workspace_id actor_id r r'
    removed :
        (target_id : String)
        → remove r workspace_id actor_id target_id ≡ ok r'
        → Step workspace_id actor_id r r'

  -- No operation of the members makes or unmakes an owner: whoever owns a workspace stays its
  -- owner, and nobody else becomes one.
  pub owners_stay :
      (w a : String) (r r' : Repository)
      → Step w a r r'
      → (id : String) → owners id r'.members ≡ owners id r.members
  owners_stay w a r r' (renamed name x e) id =
      let (may, p) = rename_ok r r' w a name x e in unfold update_workspace in ground (arith, p)
  owners_stay w a r r' (invited email role m e) id =
      let (may, fits, given, u, low, p) = invite_ok users entitlement r r' w a email role m e in
      ground (
        arith,
        low,
        add_member_ok r r' w u given m p,
        owners-append id r.members (new_member r w u given ∷ []),
        append_nil (owners id r.members),
      )
  owners_stay w a r r' (role_changed t role e) id =
      let (may, target, given, low, p) = change_role_ok r r' w a t role e in
      unfold get_member update_member_role in
      ground (arith, p, target, low, owners-set_role id w t given r.members)
  owners_stay w a r r' (removed t e) id =
      let (may, target, p) = remove_ok r r' w a t e in
      unfold get_member remove_member in
      ground (arith, p, target, owners-drop_member id w t r.members)

  -- Only an owner or an admin of a workspace changes it, and the members of no other workspace are
  -- touched.
  pub change_needs_a_manager :
      (w a : String) (r r' : Repository)
      → Step w a r r'
      → (has_role manages_members (get_member r w a) ≡ true)
        × ((id : String) → str_eq w id ≡ false → list_members r' id ≡ list_members r id)
  change_needs_a_manager w a r r' (renamed name x e) =
      let (may, p) = rename_ok r r' w a name x e in
      (may, λ id other. unfold update_workspace list_members in ground (arith, p))
  change_needs_a_manager w a r r' (invited email role m e) =
      let (may, fits, given, u, low, p) = invite_ok users entitlement r r' w a email role m e in
      (
        may,
        λ id other.
            unfold list_members in
            ground (
              arith,
              other,
              add_member_ok r r' w u given m p,
              keep-append (λ m. str_eq m.workspace_id id) r.members (new_member r w u given ∷ []),
              append_nil (keep (λ m. str_eq m.workspace_id id) r.members),
            ),
      )
  change_needs_a_manager w a r r' (role_changed t role e) =
      let (may, target, given, low, p) = change_role_ok r r' w a t role e in
      (
        may,
        λ id other.
            unfold list_members update_member_role in
            ground (arith, p, elsewhere-set_role id w t given r.members other),
      )
  change_needs_a_manager w a r r' (removed t e) =
      let (may, target, p) = remove_ok r r' w a t e in
      (
        may,
        λ id other.
            unfold list_members remove_member in
            ground (arith, p, elsewhere-drop_member id w t r.members other),
      )
