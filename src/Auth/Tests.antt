-- ===== src/Auth/Tests.antt =====
-- A service with two configured keys and one of a user.
use ai_platform_mini.Prelude.{
  ℕ, String, true, none, some, [], ◌∷◌, Text, codes, text_eq, starts_with, strip, is_space,
  skip_space, ◌≡◌, ◌≢◌, refl, arith, if◌then◌else◌,
}
use ai_platform_mini.Prelude.Dict.{get, put}
use ai_platform_mini.Prelude.Results.{raised, authentication_error, conflict_error}
use ai_platform_mini.Auth.Records.{
  ApiKeyRecord, create_in_memory_repository, new_repository, configured_records, configured_record,
  split, split_once, update_status, touch_last_used,
}
use ai_platform_mini.Auth.Service.{
  Service, validate, throttled_touch, create_key, ensure_initial_key, revoke_key,
  revoke_user_api_key, find_hash_by_prefix, is_prefix, only_match,
}
use ai_platform_mini.Auth.Steps.{here, and_then, creates, ensures, revoked_is_refused}
use ai_platform_mini.Auth.Touches.{Use, use_all, one_touch_a_minute}
use ai_platform_mini.Auth.Own.{Left, users_revoke_their_own}

abbrev hash : Text → String
unfolding text_eq
hash key =
    if text_eq key (codes "k1")
    then "0123456789ab"
    else (if text_eq key (codes "k2") then "0123456789cd" else "abcdef012345")

abbrev configured : Service
configured = record {
  repository = create_in_memory_repository hash (codes "k1:root, k2") 5;
  touch_cache = [];
}

abbrev stored : String → String → ApiKeyRecord
stored key_hash name = record {
  key_hash = key_hash;
  name = codes name;
  status = "active";
  id = none;
  user_id = none;
  workspace_id = none;
  created_at = some 5;
  last_used_at = none;
}

reads_the_setting :
    configured.repository
    ≡ ("0123456789ab", stored "0123456789ab" "root")
      ∷ ("0123456789cd", stored "0123456789cd" "k2")
      ∷ []
unfolding text_eq create_in_memory_repository new_repository configured_records configured_record
    split split_once strip is_space skip_space put
reads_the_setting = refl

abbrev with_user : Service
with_user = (create_key hash configured (codes "k3") (codes "laptop") (some "ann") none 6).0

users_revoke_their_own_example :
    Left with_user (codes "abcdef01") "ann" (revoke_user_api_key with_user (codes "abcdef01") "ann")
unfolding text_eq create_in_memory_repository new_repository configured_records configured_record
    split split_once strip is_space skip_space put get
users_revoke_their_own_example =
    users_revoke_their_own hash (codes "k1:root, k2") 5 with_user (codes "abcdef01") "ann"
      (and_then here (creates (codes "k3") (codes "laptop") (some "ann") none 6 refl))

two_match : find_hash_by_prefix configured (codes "01234567") ≡ raised conflict_error
unfolding text_eq create_in_memory_repository new_repository configured_records configured_record
    split split_once strip is_space skip_space put starts_with find_hash_by_prefix is_prefix
    only_match
two_match = refl

revoked_is_refused_example :
    validate hash
      (ensure_initial_key hash
        (revoke_key configured "0123456789ab").0
        (codes "k1")
        (codes "root")
        9).0
      (codes "k1")
      90
      90
      true
    ≡ (
      (ensure_initial_key hash
          (revoke_key configured "0123456789ab").0
          (codes "k1")
          (codes "root")
          9).0,
      raised authentication_error,
    )
unfolding text_eq create_in_memory_repository new_repository configured_records configured_record
    split split_once strip is_space skip_space put get revoke_key update_status
revoked_is_refused_example =
    revoked_is_refused hash configured _ (codes "k1") 90 90 true refl
      (and_then here (ensures (codes "k1") (codes "root") 9))

abbrev use_at : ℕ → Use
use_at now = record { raw_key = codes "k1"; now = now; wall = now; written = true }

writes :
    get "0123456789ab" (use_all hash configured (use_at 70000000 ∷ [])).repository
    ≢ get "0123456789ab" configured.repository
unfolding text_eq create_in_memory_repository new_repository configured_records configured_record
    split split_once strip is_space skip_space put get validate throttled_touch touch_last_used
writes e = cc

one_touch_a_minute_example :
    get "0123456789ab"
      (use_all hash configured
        (use_at 70000000 ∷ use_at 80000000 ∷ use_at 129999999 ∷ [])).repository
    ≡ get "0123456789ab" (use_all hash configured (use_at 70000000 ∷ [])).repository
one_touch_a_minute_example =
    one_touch_a_minute hash configured (use_at 70000000) (use_at 80000000 ∷ use_at 129999999 ∷ [])
      "0123456789ab" writes (omega arith, (omega arith, tt))
