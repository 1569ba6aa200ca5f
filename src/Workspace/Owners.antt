-- ===== src/Workspace/Owners.antt =====
-- Who owns the workspaces that the service can reach.
use ai_platform_mini.Prelude.{
  ℕ, ◌+◌, ◌≤◌, ◌≡◌, refl, String, Bool, true, false, ◌||◌, Option, none, some, List, [], ◌∷◌, ◌++◌,
  any, keep, length, Text, str_eq, eq_iff, eq_refl, arith, Option-cases, is_some, subst, sym,
  length-append, inl, inr, strip,
}
use ai_platform_mini.Prelude.Dict.{get, put, get-put}
use ai_platform_mini.Prelude.Results.{ok}
use ai_platform_mini.Billing
use ai_platform_mini.Billing.Entitlement.{plan_for_workspace, require_limit, limit_for}
use ai_platform_mini.Workspace.{
  Role, WorkspaceRecord, WorkspaceMemberRecord, Repository, create_workspace, update_workspace,
  find_member, get_member, add_member, list_members, update_member_role, remove_member, set_role,
  drop_member, is_of,
}
use ai_platform_mini.Workspace.Service.{manages_members, create, invite}
use ai_platform_mini.Workspace.Changes.{
  owners, has_role, new_member, owners-append, append_nil, keep-append, change_role_ok, remove_ok,
  rename_ok, add_member_ok, invite_ok,
}
use ai_platform_mini.Workspace.Steps.{Step, renamed, invited, role_changed, removed, owners_stay}

-- The repository before its first workspace.
abbrev pub empty : Repository
empty = record { workspaces = []; members = []; member_id_seq = 0 }

-- The repositories that the service can reach; a new workspace has an id that no other has.
pub data Reachable (users : Text → Option String) (entitlement : Option Billing.Repository)
    : Repository → Type 0 where
  start : Reachable users entitlement empty
  created :
      (r r' : Repository) (user_id id : String) (name : Text) (w : WorkspaceRecord × Role)
      → Reachable users entitlement r
      → get id r.workspaces ≡ none
      → create r user_id name id ≡ (r', ok w)
      → Reachable users entitlement r'
  stepped :
      (r r' : Repository) (w a : String)
      → Reachable users entitlement r
      → Step users entitlement w a r r'
      → Reachable users entitlement r'

-- Every member belongs to a workspace that is there, and every workspace is owned by its creator alone.
pub record IsOwned (r : Repository) : Type 0 where
  pub housed :
      (id : String)
      → any (λ m. str_eq m.workspace_id id) r.members ≡ true
      → is_some (get id r.workspaces) ≡ true
  pub owned :
      (id : String) (w : WorkspaceRecord)
      → get id r.workspaces ≡ some w
      → owners id r.members ≡ w.created_by_user_id ∷ []

any-append :
    (p : WorkspaceMemberRecord → Bool) (xs ys : List WorkspaceMemberRecord)
    → any p (xs ++ ys) ≡ any p xs || any p ys
any-append p [] ys = refl
any-append p (x ∷ xs) ys = ground (arith, any-append p xs ys)

owners_none :
    (id : String) (ms : List WorkspaceMemberRecord)
    → any (λ m. str_eq m.workspace_id id) ms ≡ false
    → owners id ms ≡ []
owners_none id [] h = refl
owners_none id (m ∷ ms) h = ground (arith, owners_none id ms)

nobody_of :
    (id u : String) (ms : List WorkspaceMemberRecord)
    → any (λ m. str_eq m.workspace_id id) ms ≡ false
    → any (is_of id u) ms ≡ false
nobody_of id u [] h = refl
nobody_of id u (m ∷ ms) h = ground (arith, nobody_of id u ms)

create-IsOwned :
    (r r' : Repository) (user_id id : String) (name : Text) (w : WorkspaceRecord × Role)
    → get id r.workspaces ≡ none
    → create r user_id name id ≡ (r', ok w)
    → IsOwned r
    → IsOwned r'
unfolding create create_workspace add_member
create-IsOwned r r' user_id id name w fresh h i =
    let nobody : any (λ m. str_eq m.workspace_id id) r.members ≡ false =
      ground (arith, i.housed id, fresh) in
    let ws : WorkspaceRecord = record {
      id = id;
      name = strip name;
      created_by_user_id = user_id;
    } in
    let m : WorkspaceMemberRecord = record {
      id = r.member_id_seq + 1;
      workspace_id = id;
      user_id = user_id;
      role = Role.owner;
    } in
    let e1 : r'.members ≡ r.members ++ m ∷ [] =
      ground (arith, h, nobody_of id user_id r.members nobody) in
    let e2 : r'.workspaces ≡ put id ws r.workspaces =
      ground (arith, h, nobody_of id user_id r.members nobody) in
    record {
      housed = λ x found. ground (
        arith,
        found,
        e1,
        e2,
        get-put id x ws r.workspaces,
        i.housed x,
        any-append (λ m. str_eq m.workspace_id x) r.members (m ∷ []),
      );
      owned = λ x v found. ground (
        arith,
        found,
        e1,
        e2,
        get-put id x ws r.workspaces,
        i.owned x v,
        eq_iff id x,
        owners_none id r.members nobody,
        owners-append x r.members (m ∷ []),
        append_nil (owners x r.members),
      );
    }

any-set_role :
    (id w u : String) (role : Role) (ms : List WorkspaceMemberRecord)
    → any (λ m. str_eq m.workspace_id id) (set_role w u role ms)
      ≡ any (λ m. str_eq m.workspace_id id) ms
unfolding set_role
any-set_role id w u role [] = refl
any-set_role id w u role (x ∷ xs) = ground (arith, any-set_role id w u role xs)

any-drop_member :
    (id w u : String) (ms : List WorkspaceMemberRecord)
    → any (λ m. str_eq m.workspace_id id) (drop_member w u ms) ≡ true
    → any (λ m. str_eq m.workspace_id id) ms ≡ true
unfolding drop_member
any-drop_member id w u [] h = h
any-drop_member id w u (x ∷ xs) h = ground (arith, h, any-drop_member id w u xs)

manager_housed :
    (test : Role → Bool) (w a : String) (ms : List WorkspaceMemberRecord)
    → has_role test (find_member w a ms) ≡ true
    → any (λ m. str_eq m.workspace_id w) ms ≡ true
unfolding find_member
manager_housed test w a [] h = cc
manager_housed test w a (x ∷ xs) h = ground (arith, h, manager_housed test w a xs)

module _ (users : Text → Option String) (entitlement : Option Billing.Repository) where
  Step-IsOwned :
      (w a : String) (r r' : Repository) → Step users entitlement w a r r' → IsOwned r → IsOwned r'
  Step-IsOwned w a r r' (renamed name x e) i =
      let (may, p) = rename_ok r r' w a name x e in
      elim (Option-cases (get w r.workspaces)) [
        | inl gone ↦
            let q : r' ≡ r = unfold update_workspace in ground (arith, p, gone) in
            subst IsOwned (sym q) i
        | inr (v, there) ↦
            let v' : WorkspaceRecord = record v { name = strip name } in
            let m : r'.members ≡ r.members = unfold update_workspace in ground (arith, p, there) in
            let d : r'.workspaces ≡ put w v' r.workspaces =
              unfold update_workspace in ground (arith, p, there) in
            record {
              housed = λ y f. ground (arith, f, m, d, i.housed y, get-put w y v' r.workspaces);
              owned = λ y u f. ground (
                arith,
                f,
                m,
                d,
                i.owned y u,
                i.owned w v there,
                eq_iff w y,
                get-put w y v' r.workspaces,
              );
            }
      ]
  Step-IsOwned w a r r' (invited email role m e) i =
      let (may, fits, given, u, low, p) = invite_ok users entitlement r r' w a email role m e in
      let s : r'.workspaces ≡ r.workspaces = unfold add_member in ground (arith, p) in
      let n = add_member_ok r r' w u given m p in
      record {
        housed = λ y f. ground (
          arith,
          f,
          n,
          s,
          i.housed y,
          i.housed w,
          eq_iff w y,
          manager_housed manages_members w a r.members (unfold get_member in may),
          any-append (λ m. str_eq m.workspace_id y) r.members (new_member r w u given ∷ []),
        );
        owned = λ y v f. ground (
          arith,
          f,
          s,
          i.owned y v,
          owners_stay users entitlement w a r r' (invited email role m e) y,
        );
      }
  Step-IsOwned w a r r' (role_changed t role e) i =
      let (may, target, given, low, p) = change_role_ok r r' w a t role e in
      let s : r'.workspaces ≡ r.workspaces = unfold update_member_role in ground (arith, p) in
      let n : r'.members ≡ set_role w t given r.members =
        unfold update_member_role in ground (arith, p) in
      record {
        housed = λ y f. ground (arith, f, n, s, i.housed y, any-set_role y w t given r.members);
        owned = λ y v f. ground (
          arith,
          f,
          s,
          i.owned y v,
          owners_stay users entitlement w a r r' (role_changed t role e) y,
        );
      }
  Step-IsOwned w a r r' (removed t e) i =
      let (may, target, p) = remove_ok r r' w a t e in
      let s : r'.workspaces ≡ r.workspaces = unfold remove_member in ground (arith, p) in
      let n : r'.members ≡ drop_member w t r.members = unfold remove_member in ground (arith, p) in
      record {
        housed = λ y f. ground (arith, f, n, s, i.housed y, any-drop_member y w t r.members);
        owned = λ y v f.
            ground
              (arith, f, s, i.owned y v, owners_stay users entitlement w a r r' (removed t e) y);
      }

  -- In every repository that the service can reach, each workspace has exactly one owner, the user
  -- who created it, and every member belongs to a workspace that is there.
  pub Reachable-IsOwned : (r : Repository) → Reachable users entitlement r → IsOwned r
  unfolding get
  Reachable-IsOwned r start = record { housed = λ id h. cc; owned = λ id w h. cc }
  Reachable-IsOwned r' (created r r'' u id name w before fresh e) =
      create-IsOwned r r' u id name w fresh e (Reachable-IsOwned r before)
  Reachable-IsOwned r' (stepped r r'' w a before step) =
      Step-IsOwned w a r r' step (Reachable-IsOwned r before)

  -- With a plan whose member ceiling is n, an invitation that succeeds leaves at most n members.
  pub invite_within_plan :
      (r r' : Repository) (billing : Billing.Repository) (plan : Billing.Plan) (w a : String)
      (email : Text) (role : Option Role) (m : WorkspaceMemberRecord) (n : ℕ)
      → entitlement ≡ some billing
      → plan_for_workspace billing w ≡ some plan
      → plan.max_members ≡ some n
      → invite users entitlement r w a email role ≡ ok (r', m)
      → length (list_members r' w) ≤ n
  unfolding list_members require_limit limit_for
  invite_within_plan r r' billing plan w a email role m n on p limit e =
      let (may, fits, given, u, low, added) = invite_ok users entitlement r r' w a email role m e in
      ground (
        arith,
        fits,
        on,
        p,
        limit,
        add_member_ok r r' w u given m added,
        eq_refl w,
        keep-append (λ m. str_eq m.workspace_id w) r.members (new_member r w u given ∷ []),
        length-append (keep (λ m. str_eq m.workspace_id w) r.members) (new_member r w u given ∷ []),
      )
