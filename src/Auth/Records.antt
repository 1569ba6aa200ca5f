-- ===== src/Auth/Records.antt =====
-- app/auth/models.py and app/auth/memory_repository.py: the API keys. A key is stored under the hash
-- of its text. The records are changed in place; no caller keeps one across a change, so that a
-- changed record is written back here. A time of the wall clock is a number.
use ai_platform_mini.Prelude.{
  ℕ, String, Bool, true, false, ◌&&◌, Option, none, some, List, [], ◌∷◌, Text, codes, keep,
  starts_with, same_option, take, strip, ◌==◌, if◌then◌else◌,
}
use ai_platform_mini.Prelude.Dict.{Dict, get, put, values}

pub record ApiKey : Type 0 where
  pub key : String
  pub name : Text
  pub id : Option String
  pub user_id : Option String
  pub workspace_id : Option String

pub record ApiKeyRecord : Type 0 where
  pub key_hash : String
  pub name : Text
  pub status : String
  pub id : Option String
  pub user_id : Option String
  pub workspace_id : Option String
  pub created_at : Option ℕ
  pub last_used_at : Option ℕ

pub record ApiKeyMetadata : Type 0 where
  pub id : Option String
  pub key_hash_prefix : Text
  pub name : Text
  pub status : String
  pub created_at : Option ℕ
  pub last_used_at : Option ℕ

-- `self._records`
abbrev pub Repository : Type 0
Repository = Dict ApiKeyRecord

abbrev pub find_by_key_hash : Repository → String → Option ApiKeyRecord
find_by_key_hash r key_hash = get key_hash r

abbrev pub find_by_key_hash_prefix : Repository → Text → List ApiKeyRecord
find_by_key_hash_prefix r prefix = keep (λ k. starts_with prefix (codes k.key_hash)) (values r)

abbrev pub find_by_key_hash_prefix_for_user : Repository → Text → String → List ApiKeyRecord
find_by_key_hash_prefix_for_user r prefix user_id =
    keep (λ k. same_option k.user_id (some user_id) && starts_with prefix (codes k.key_hash))
      (values r)

abbrev pub list_keys : Repository → List ApiKeyRecord
list_keys r = values r

abbrev pub list_keys_for_user : Repository → String → List ApiKeyRecord
list_keys_for_user r user_id = keep (λ k. same_option k.user_id (some user_id)) (values r)

abbrev pub create_key : Repository → ApiKeyRecord → Repository × ApiKeyRecord
create_key r k = (put k.key_hash k r, k)

unfoldable pub ensure_key : Repository → ApiKeyRecord → Repository × Bool
ensure_key r k = elim (get k.key_hash r) [ some _ ↦ (r, false) | none ↦ (put k.key_hash k r, true) ]

unfoldable pub update_status : Repository → String → String → Repository × Bool
update_status r key_hash status = elim (get key_hash r) [
  | none ↦ (r, false)
  | some k ↦ (put key_hash (record k { status = status }) r, true)
]

unfoldable pub touch_last_used : Repository → String → ℕ → Repository
touch_last_used r key_hash wall = elim (get key_hash r) [
  | none ↦ r
  | some k ↦ put key_hash (record k { last_used_at = some wall }) r
]

-- `{r.key_hash: r for r in api_keys}`
unfoldable pub new_repository : List ApiKeyRecord → Repository → Repository
new_repository [] r = r
new_repository (k ∷ ks) r = new_repository ks (put k.key_hash k r)

-- `s.split(c)`, which is never empty
abbrev pub onto_first : ℕ → List Text → List Text
onto_first x [] = (x ∷ []) ∷ []
onto_first x (w ∷ ws) = (x ∷ w) ∷ ws

unfoldable pub split : ℕ → Text → List Text
split c [] = [] ∷ []
split c (x ∷ s) = let rest = split c s in if x == c then [] ∷ rest else onto_first x rest

-- `entry.split(":", 1)`: what stands before the first colon, and what stands behind it
unfoldable pub split_once : ℕ → Text → Text × Option Text
split_once c [] = ([], none)
split_once c (x ∷ s) =
    let (before, behind) = split_once c s in if x == c then ([], some s) else (x ∷ before, behind)

module _ (hash : Text → String) where
  -- The record of an entry `key:name` of the setting, where 58 is the colon and 44 the comma.
  unfoldable pub configured_record : Text → ℕ → ApiKeyRecord
  unfolding split_once
  configured_record entry wall =
      let (key, given) = split_once 58 entry in
      record {
        key_hash = hash key;
        name = elim given [ none ↦ take 8 key | some name ↦ name ];
        status = "active";
        id = none;
        user_id = none;
        workspace_id = none;
        created_at = some wall;
        last_used_at = none;
      }

  unfoldable pub configured_records : List Text → ℕ → List ApiKeyRecord
  unfolding configured_record strip
  configured_records [] wall = []
  configured_records (entry ∷ entries) wall = elim (strip entry) [
    | [] ↦ configured_records entries wall
    | c ∷ s ↦ configured_record (c ∷ s) wall ∷ configured_records entries wall
  ]

  unfoldable pub create_in_memory_repository : Text → ℕ → Repository
  unfolding configured_records new_repository split
  create_in_memory_repository raw_keys wall =
      new_repository (configured_records (split 44 raw_keys) wall) []
