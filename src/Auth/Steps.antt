-- ===== src/Auth/Steps.antt =====
-- What the methods of `APIKeyService` (app/auth/service.py) do to a key, one after another.
use ai_platform_mini.Prelude.{
  ℕ, String, Bool, true, Option, none, some, Text, ◌≡◌, refl, ◌∙◌, inl, inr, arith, str_eq, eq_iff,
  eq_refl, Option-cases, if◌then◌else◌,
}
use ai_platform_mini.Prelude.Dict.{get, get-put}
use ai_platform_mini.Prelude.Results.{raised, authentication_error}
use ai_platform_mini.Auth.Records.{
  ApiKeyRecord, Repository, ensure_key, update_status, touch_last_used,
}
use ai_platform_mini.Auth.Service.{
  Service, new_record, throttled_touch, validate, create_key, ensure_initial_key, revoke_key,
  revoke_key_for_user,
}

-- A call of a method that changes the service. The keys that `secrets` makes are new.
pub data Step (hash : Text → String) (s : Service) : Service → Type 0 where
  validates :
      (raw_key : Text) (now wall : ℕ) (written : Bool)
      → Step hash s (validate hash s raw_key now wall written).0
  creates :
      (raw_key name : Text) (user_id workspace_id : Option String) (wall : ℕ)
      → get (hash raw_key) s.repository ≡ none
      → Step hash s (create_key hash s raw_key name user_id workspace_id wall).0
  ensures :
      (raw_key name : Text) (wall : ℕ) → Step hash s (ensure_initial_key hash s raw_key name wall).0
  revokes : (key_hash : String) → Step hash s (revoke_key s key_hash).0
  user_revokes :
      (key_hash user_id : String) → Step hash s (revoke_key_for_user s key_hash user_id).0

pub data Steps (hash : Text → String) (s : Service) : Service → Type 0 where
  here : Steps hash s s
  and_then : {t u : Service} → Steps hash s t → Step hash t u → Steps hash s u

-- `record.status` of the key that is stored under a hash
abbrev pub status : Option ApiKeyRecord → Option String
status none = none
status (some k) = some k.status

status-touch :
    (r : Repository) (h j : String) (wall : ℕ)
    → status (get j (touch_last_used r h wall)) ≡ status (get j r)
unfolding touch_last_used
status-touch r h j wall = elim (Option-cases (get h r)) [
  | inl e ↦ rw (touch_last_used, e) refl
  | inr (k, e) ↦
      rw (touch_last_used, e)
        (ground (arith, e, get-put h j (record k { last_used_at = some wall }) r, eq_iff h j))
]

status-throttled :
    (s : Service) (h j : String) (now wall : ℕ) (written : Bool)
    → status (get j (throttled_touch s h now wall written).repository) ≡ status (get j s.repository)
unfolding throttled_touch
status-throttled s h j now wall written = ground (arith, status-touch s.repository h j wall)

pub status-validate :
    (hash : Text → String) (s : Service) (raw_key : Text) (now wall : ℕ) (written : Bool)
    (j : String)
    → status (get j (validate hash s raw_key now wall written).0.repository)
      ≡ status (get j s.repository)
unfolding validate
status-validate hash s raw_key now wall written j =
    ground (arith, status-throttled s (hash raw_key) j now wall written)

pub get-revoke_key :
    (s : Service) (h j : String) (k : ApiKeyRecord)
    → get h s.repository ≡ some k
    → get j (revoke_key s h).0.repository
      ≡ (if str_eq h j then some (record k { status = "revoked" }) else get j s.repository)
unfolding revoke_key update_status
get-revoke_key s h j k e =
    rw (revoke_key, update_status, e) (get-put h j (record k { status = "revoked" }) s.repository)

revoke_key_absent :
    (s : Service) (h : String)
    → get h s.repository ≡ none
    → (revoke_key s h).0.repository ≡ s.repository
unfolding revoke_key update_status
revoke_key_absent s h e = rw (revoke_key, update_status, e) refl

Revoked-revoke_key :
    (s : Service) (h j : String)
    → status (get j s.repository) ≡ some "revoked"
    → status (get j (revoke_key s h).0.repository) ≡ some "revoked"
Revoked-revoke_key s h j q = elim (Option-cases (get h s.repository)) [
  | inl e ↦ rw (revoke_key_absent s h e) q
  | inr (k, e) ↦ ground (arith, get-revoke_key s h j k e, q)
]

-- No call makes a revoked key active again.
pub Step-revoked :
    (hash : Text → String) (s t : Service) (j : String)
    → Step hash s t
    → status (get j s.repository) ≡ some "revoked"
    → status (get j t.repository) ≡ some "revoked"
unfolding create_key ensure_initial_key ensure_key revoke_key_for_user
Step-revoked hash s t j (validates raw now wall written) q =
    status-validate hash s raw now wall written j ∙ q
Step-revoked hash s t j (creates raw name u w wall new) q = ground (
  arith,
  q,
  new,
  eq_iff (hash raw) j,
  get-put (hash raw) j (new_record hash raw name u w wall) s.repository,
)
Step-revoked hash s t j (ensures raw name wall) q = ground (
  arith,
  q,
  eq_iff (hash raw) j,
  get-put (hash raw) j (new_record hash raw name none none wall) s.repository,
)
Step-revoked hash s t j (revokes h) q = Revoked-revoke_key s h j q
Step-revoked hash s t j (user_revokes h u) q = ground (arith, q, Revoked-revoke_key s h j q)

Steps-revoked :
    (hash : Text → String) (s t : Service) (j : String)
    → Steps hash s t
    → status (get j s.repository) ≡ some "revoked"
    → status (get j t.repository) ≡ some "revoked"
Steps-revoked hash s t j here q = q
Steps-revoked hash s t j (and_then {t = u} p x) q =
    Step-revoked hash u t j x (Steps-revoked hash s u j p q)

refused :
    (hash : Text → String) (s : Service) (raw_key : Text) (now wall : ℕ) (written : Bool)
    → status (get (hash raw_key) s.repository) ≡ some "revoked"
    → validate hash s raw_key now wall written ≡ (s, raised authentication_error)
unfolding validate
refused hash s raw_key now wall written q = elim (Option-cases (get (hash raw_key) s.repository)) [
  | inl e ↦ rw (validate, e) refl
  | inr (k, e) ↦
      let same : k.status ≡ "revoked" = ground (arith, q, e) in rw (validate, e, same) refl
]

revoked_status :
    (s : Service) (h : String)
    → (revoke_key s h).1 ≡ true
    → status (get h (revoke_key s h).0.repository) ≡ some "revoked"
unfolding revoke_key update_status
revoked_status s h q = elim (Option-cases (get h s.repository)) [
  | inl e ↦ ground (arith, q, e)
  | inr (k, e) ↦ ground (arith, get-revoke_key s h h k e, eq_refl h)
]

-- A key that has been revoked is refused after any further calls of the service, also after one that
-- ensures it as the initial key: `validate` raises AuthenticationError and changes nothing.
pub revoked_is_refused :
    (hash : Text → String) (s t : Service) (raw_key : Text) (now wall : ℕ) (written : Bool)
    → (revoke_key s (hash raw_key)).1 ≡ true
    → Steps hash (revoke_key s (hash raw_key)).0 t
    → validate hash t raw_key now wall written ≡ (t, raised authentication_error)
revoked_is_refused hash s t raw_key now wall written q p = refused hash t raw_key now wall written (
    Steps-revoked hash (revoke_key s (hash raw_key)).0 t (hash raw_key) p
      (revoked_status s (hash raw_key) q))
