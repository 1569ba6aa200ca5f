-- ===== src/Workspace/Changes.antt =====
-- What each operation of the workspace service writes, and what it leaves of the members.
use ai_platform_mini.Prelude.{
  ◌+◌, ◌≡◌, refl, String, Bool, true, false, not, ◌&&◌, Option, none, some, List, [], ◌∷◌, ◌++◌,
  keep, Text, str_eq, eq_iff, arith, if◌then◌else◌, Bool-cases, Option-cases, inl, inr, strip,
}
use ai_platform_mini.Prelude.Results.{ok}
use ai_platform_mini.Billing
use ai_platform_mini.Workspace.{
  Role, WorkspaceRecord, WorkspaceMemberRecord, Repository, update_workspace, find_member,
  get_member, add_member, update_member_role, remove_member, set_role, drop_member, is_of,
}
use ai_platform_mini.Workspace.Service.{
  is_owner, manages_members, rename, invite, change_role, remove, require_member_role, within_plan,
  stored,
}

-- The users with the owner's role in a workspace, in the order of the records.
abbrev pub owners : String → List WorkspaceMemberRecord → List String
owners id [] = []
owners id (m ∷ ms) =
    let rest = owners id ms in
    if str_eq m.workspace_id id && is_owner m.role then m.user_id ∷ rest else rest

pub owners-append :
    (id : String) (xs ys : List WorkspaceMemberRecord)
    → owners id (xs ++ ys) ≡ owners id xs ++ owners id ys
owners-append id [] ys = refl
owners-append id (x ∷ xs) ys = ground (arith, owners-append id xs ys)

pub append_nil {ℓ} : {A : Type ℓ} (xs : List A) → xs ++ [] ≡ xs
append_nil [] = refl
append_nil (x ∷ xs) = ground (arith, append_nil xs)

-- A member whose role passes a test.
abbrev pub has_role : (Role → Bool) → Option WorkspaceMemberRecord → Bool
has_role test none = false
has_role test (some m) = test m.role

abbrev pub plain : Role → Bool
plain role = not (is_owner role)

pub owners-set_role :
    (id w u : String) (role : Role) (ms : List WorkspaceMemberRecord)
    → has_role plain (find_member w u ms) ≡ true
    → is_owner role ≡ false
    → owners id (set_role w u role ms) ≡ owners id ms
unfolding set_role find_member
owners-set_role id w u role [] h g = refl
owners-set_role id w u role (x ∷ xs) h g = elim (Bool-cases (is_of w u x)) [
  | inl e ↦ ground (arith, e, h, g)
  | inr e ↦ ground (arith, e, h, g, owners-set_role id w u role xs)
]

pub owners-drop_member :
    (id w u : String) (ms : List WorkspaceMemberRecord)
    → has_role plain (find_member w u ms) ≡ true
    → owners id (drop_member w u ms) ≡ owners id ms
unfolding drop_member find_member
owners-drop_member id w u [] h = refl
owners-drop_member id w u (x ∷ xs) h = elim (Bool-cases (is_of w u x)) [
  | inl e ↦ ground (arith, e, h)
  | inr e ↦ ground (arith, e, h, owners-drop_member id w u xs)
]

-- The members of other workspaces.
pub elsewhere-set_role :
    (id w u : String) (role : Role) (ms : List WorkspaceMemberRecord)
    → str_eq w id ≡ false
    → keep (λ m. str_eq m.workspace_id id) (set_role w u role ms)
      ≡ keep (λ m. str_eq m.workspace_id id) ms
unfolding set_role
elsewhere-set_role id w u role [] h = refl
elsewhere-set_role id w u role (x ∷ xs) h = ground (
  arith,
  h,
  eq_iff x.workspace_id w,
  eq_iff x.workspace_id id,
  eq_iff w id,
  elsewhere-set_role id w u role xs,
)

pub elsewhere-drop_member :
    (id w u : String) (ms : List WorkspaceMemberRecord)
    → str_eq w id ≡ false
    → keep (λ m. str_eq m.workspace_id id) (drop_member w u ms)
      ≡ keep (λ m. str_eq m.workspace_id id) ms
unfolding drop_member
elsewhere-drop_member id w u [] h = refl
elsewhere-drop_member id w u (x ∷ xs) h = ground (
  arith,
  h,
  eq_iff x.workspace_id w,
  eq_iff x.workspace_id id,
  eq_iff w id,
  elsewhere-drop_member id w u xs,
)

pub keep-append :
    (p : WorkspaceMemberRecord → Bool) (xs ys : List WorkspaceMemberRecord)
    → keep p (xs ++ ys) ≡ keep p xs ++ keep p ys
keep-append p [] ys = refl
keep-append p (x ∷ xs) ys = ground (arith, keep-append p xs ys)

pub change_role_ok :
    (r r' : Repository) (w a t : String) (role : Option Role)
    → change_role r w a t role ≡ ok r'
    → (has_role manages_members (get_member r w a) ≡ true)
      × (has_role plain (get_member r w t) ≡ true)
      × (given : Role) × (is_owner given ≡ false)
      × (r' ≡ (update_member_role r w t given).0)
unfolding change_role require_member_role
change_role_ok r r' w a t none h = ground arith
change_role_ok r r' w a t (some given) h =
    (ground arith, ground arith, given, ground arith, ground arith)

pub remove_ok :
    (r r' : Repository) (w a t : String)
    → remove r w a t ≡ ok r'
    → (has_role manages_members (get_member r w a) ≡ true)
      × (has_role plain (get_member r w t) ≡ true)
      × (r' ≡ (remove_member r w t).0)
unfolding remove require_member_role
remove_ok r r' w a t h = (ground arith, ground arith, ground arith)

pub rename_ok :
    (r r' : Repository) (w a : String) (name : Text) (x : WorkspaceRecord)
    → rename r w a name ≡ ok (r', x)
    → (has_role manages_members (get_member r w a) ≡ true)
      × (r' ≡ (update_workspace r w (strip name)).0)
unfolding rename require_member_role
rename_ok r r' w a name x h = (ground arith, ground arith)

module _ (users : Text → Option String) (entitlement : Option Billing.Repository) where
  pub invite_ok :
      (r r' : Repository) (w a : String) (email : Text) (role : Option Role)
      (m : WorkspaceMemberRecord)
      → invite users entitlement r w a email role ≡ ok (r', m)
      → (has_role manages_members (get_member r w a) ≡ true)
        × (within_plan entitlement r w ≡ ok tt)
        × (given : Role) × (user : String) × (is_owner given ≡ false)
        × (stored (add_member r w user given) ≡ ok (r', m))
  unfolding invite require_member_role
  invite_ok r r' w a email none m h = ground arith
  invite_ok r r' w a email (some given) m h = elim (Option-cases (users email)) [
    | inl e ↦ ground (arith, e, h)
    | inr (u, e) ↦
        (ground arith, ground (arith, e, h), given, u, ground arith, ground (arith, e, h))
  ]

abbrev pub new_member : Repository → String → String → Role → WorkspaceMemberRecord
new_member r w u role = record {
  id = r.member_id_seq + 1;
  workspace_id = w;
  user_id = u;
  role = role;
}

pub add_member_ok :
    (r r' : Repository) (w u : String) (role : Role) (m : WorkspaceMemberRecord)
    → stored (add_member r w u role) ≡ ok (r', m)
    → r'.members ≡ r.members ++ new_member r w u role ∷ []
unfolding add_member
add_member_ok r r' w u role m h = ground arith
