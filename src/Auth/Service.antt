-- ===== src/Auth/Service.antt =====
-- app/auth/service.py: `APIKeyService` over the repository in memory, and the routes that revoke keys
-- (app/api/auth.py, app/api/admin.py). With that repository no method waits, so that each runs as a
-- whole. `hash` is `hash_api_key`, the digest of hashlib. Readings of `time.monotonic` are in
-- microseconds.
use ai_platform_mini.Prelude.{
  ℕ, ◌-◌, ◌*◌, String, Bool, false, not, ◌&&◌, is_hex, Option, none, some, List, [], ◌∷◌, Text,
  codes, length, map, take, all, ltb, ◌==◌, member, str_eq, same_option, if◌then◌else◌,
}
use ai_platform_mini.Prelude.Dict.{Dict, get, put, remove}
use ai_platform_mini.Prelude.Results.{
  Result, ok, raised, authentication_error, authorization_error, validation_error, conflict_error,
  api_key_not_found_error, http_error, require, ◌>>◌,
}
use ai_platform_mini.Auth.Records.{
  ApiKey, ApiKeyRecord, ApiKeyMetadata, Repository, find_by_key_hash, find_by_key_hash_prefix,
  find_by_key_hash_prefix_for_user, ensure_key, update_status, touch_last_used,
}
use ai_platform_mini.Auth.Records

pub record Service : Type 0 where
  pub repository : Repository
  pub touch_cache : Dict ℕ

-- `_THROTTLE_SECONDS`
abbrev pub throttle_micros : ℕ
throttle_micros = 60 * 1000000

-- `self._touch_cache.get(key_hash, 0)`
abbrev pub last_touch : Service → String → ℕ
last_touch s key_hash = elim (get key_hash s.touch_cache) [ none ↦ 0 | some t ↦ t ]

-- `written` says whether the repository's write succeeds.
unfoldable pub throttled_touch : Service → String → ℕ → ℕ → Bool → Service
unfolding touch_last_used
throttled_touch s key_hash now wall written =
    if ltb (now - last_touch s key_hash) throttle_micros
    then s
    else (if written
        then record {
          repository = touch_last_used s.repository key_hash wall;
          touch_cache = put key_hash now s.touch_cache;
        }
        else record s { touch_cache = remove key_hash s.touch_cache })

unfoldable pub revoke_key : Service → String → Service × Bool
unfolding update_status
revoke_key s key_hash =
    let (r, revoked) = update_status s.repository key_hash "revoked" in
    (record { repository = r; touch_cache = remove key_hash s.touch_cache }, revoked)

unfoldable pub revoke_key_for_user : Service → String → String → Service × Bool
unfolding revoke_key
revoke_key_for_user s key_hash user_id = elim (find_by_key_hash s.repository key_hash) [
  | none ↦ (s, false)
  | some k ↦
      if not (same_option k.user_id (some user_id)) then (s, false) else revoke_key s key_hash
]

abbrev pub metadata_of : ApiKeyRecord → ApiKeyMetadata
metadata_of k = record {
  id = none;
  key_hash_prefix = take 8 (codes k.key_hash);
  name = k.name;
  status = k.status;
  created_at = k.created_at;
  last_used_at = k.last_used_at;
}

abbrev pub list_keys : Service → List ApiKeyMetadata
list_keys s = map metadata_of (Records.list_keys s.repository)

abbrev pub list_keys_for_user : Service → String → List ApiKeyMetadata
list_keys_for_user s user_id = map metadata_of (Records.list_keys_for_user s.repository user_id)

-- Eight characters of "0123456789abcdef"
unfoldable pub is_prefix : Text → Bool
is_prefix prefix = length prefix == 8 && all is_hex prefix

-- What is found must be one key at most.
unfoldable pub only_match : List ApiKeyRecord → Result (Option String)
only_match [] = ok none
only_match (k ∷ []) = ok (some k.key_hash)
only_match (_ ∷ _ ∷ _) = raised conflict_error

unfoldable pub find_hash_by_prefix : Service → Text → Result (Option String)
unfolding is_prefix only_match
find_hash_by_prefix s prefix =
    require (is_prefix prefix) validation_error
    >> only_match (find_by_key_hash_prefix s.repository prefix)

unfoldable pub find_hash_by_prefix_for_user : Service → Text → String → Result (Option String)
unfolding is_prefix only_match
find_hash_by_prefix_for_user s prefix user_id =
    require (is_prefix prefix) validation_error
    >> only_match (find_by_key_hash_prefix_for_user s.repository prefix user_id)

module _ (hash : Text → String) where
  unfoldable pub validate : Service → Text → ℕ → ℕ → Bool → Service × Result ApiKey
  unfolding throttled_touch
  validate s raw_key now wall written = elim (find_by_key_hash s.repository (hash raw_key)) [
    | none ↦ (s, raised authentication_error)
    | some k ↦ if not (str_eq k.status "active") then (s, raised authentication_error) else (
      throttled_touch s (hash raw_key) now wall written,
      ok (record {
        key = hash raw_key;
        name = k.name;
        id = k.id;
        user_id = k.user_id;
        workspace_id = k.workspace_id;
      }),
    )
  ]

  abbrev pub new_record : Text → Text → Option String → Option String → ℕ → ApiKeyRecord
  new_record raw_key name user_id workspace_id wall = record {
    key_hash = hash raw_key;
    name = name;
    status = "active";
    id = none;
    user_id = user_id;
    workspace_id = workspace_id;
    created_at = some wall;
    last_used_at = none;
  }

  -- `raw_key` is the key that `secrets` makes.
  unfoldable pub create_key :
      Service → Text → Text → Option String → Option String → ℕ → Service × (ApiKeyMetadata × Text)
  create_key s raw_key name user_id workspace_id wall =
      let (r, saved) =
        Records.create_key s.repository (new_record raw_key name user_id workspace_id wall) in
      (record s { repository = r }, (record (metadata_of saved) { id = saved.id }, raw_key))

  unfoldable pub ensure_initial_key : Service → Text → Text → ℕ → Service × Bool
  unfolding ensure_key
  ensure_initial_key s raw_key name wall =
      let (r, created) = ensure_key s.repository (new_record raw_key name none none wall) in
      (record s { repository = r }, created)

-- DELETE /keys/{key_hash_prefix}, for the user of the request
unfoldable pub revoke_user_api_key : Service → Text → String → Service × Result Bool
unfolding find_hash_by_prefix_for_user revoke_key_for_user
revoke_user_api_key s prefix user_id = elim (find_hash_by_prefix_for_user s prefix user_id) [
  | raised e ↦ (s, raised e)
  | ok none ↦ (s, raised (http_error 404))
  | ok (some target_hash) ↦
      let (s', revoked) = revoke_key_for_user s target_hash user_id in
      (s', if revoked then ok revoked else raised (http_error 404))
]

-- DELETE /api-keys/{key_hash_prefix}, for an administrator. `admin_hashes` is `_admin_key_hashes()`.
unfoldable pub revoke_api_key : List String → Service → Text → Service × Result Bool
unfolding find_hash_by_prefix revoke_key
revoke_api_key admin_hashes s prefix = elim (find_hash_by_prefix s prefix) [
  | raised e ↦ (s, raised e)
  | ok none ↦ (s, raised api_key_not_found_error)
  | ok (some target_hash) ↦
      if member target_hash admin_hashes
      then (s, raised authorization_error)
      else (let (s', revoked) = revoke_key s target_hash in (s', ok revoked))
]
