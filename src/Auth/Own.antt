-- ===== src/Auth/Own.antt =====
-- Whose key a prefix revokes: `revoke_user_api_key` (app/api/auth.py) over app/auth/service.py.
use ai_platform_mini.Prelude.{
  ℕ, String, Bool, true, false, ◌&&◌, Option, none, some, List, [], ◌∷◌, Text, codes, keep,
  starts_with, same_option, ◌≡◌, refl, ◌⊎◌, inl, inr, arith, str_eq, eq_iff, eq_refl, Bool-cases,
  if◌then◌else◌,
}
use ai_platform_mini.Prelude.Dict.{get, values}
use ai_platform_mini.Prelude.Results.{
  Result, ok, raised, Exception, validation_error, require, ◌>>◌,
}
use ai_platform_mini.Auth.Records.{
  ApiKeyRecord, Repository, create_in_memory_repository, find_by_key_hash_prefix_for_user,
  update_status,
}
use ai_platform_mini.Auth.Service.{
  Service, revoke_key, revoke_key_for_user, revoke_user_api_key, find_hash_by_prefix_for_user,
  is_prefix, only_match,
}
use ai_platform_mini.Auth.Filed.{Filed, Steps-Filed, Filed-configured}
use ai_platform_mini.Auth.Steps.{Steps, get-revoke_key}

module _ (p : ApiKeyRecord → Bool) where
  none_kept :
      (h : String) (k : ApiKeyRecord) (r : Repository)
      → keep p (values r) ≡ []
      → get h r ≡ some k
      → p k ≡ false
  unfolding get
  none_kept h k [] e g = cc
  none_kept h k ((j, i) ∷ r) e g = elim (Bool-cases (p i)) [
    | inl q ↦ ground (arith, q, e)
    | inr q ↦ ground (arith, q, e, g, none_kept h k r (rw q at e))
  ]

  one_kept :
      (k : ApiKeyRecord) (r : Repository)
      → Filed r
      → keep p (values r) ≡ k ∷ []
      → (get k.key_hash r ≡ some k)
        × (p k ≡ true)
        × ((h : String) (i : ApiKeyRecord) → get h r ≡ some i → p i ≡ true → h ≡ k.key_hash)
  unfolding get
  one_kept k [] f e = cc
  one_kept k ((j, i) ∷ r) (a, b, f) e = elim (Bool-cases (p i)) [
    | inl q ↦
        let same : i ≡ k = cc (rw q at e) in
        let last : keep p (values r) ≡ [] = cc (rw q at e) in
        (
          ground (arith, eq_refl j, eq_iff j k.key_hash, a, same),
          ground (arith, q, same),
          λ h x g t. ground (arith, g, t, a, same, none_kept h x r last, eq_iff j h),
        )
    | inr q ↦
        let (g, t, only) = one_kept k r f (rw q at e) in
        (
          ground (arith, b, g, eq_iff j k.key_hash),
          t,
          λ h x u v. ground (arith, u, v, q, only h x, eq_iff j h),
        )
  ]

pub same_option-some : (o : Option String) (a : String) → same_option o (some a) ≡ true → o ≡ some a
same_option-some none a h = cc
same_option-some (some b) a h = ground (arith, h, eq_iff b a)

-- The one key of the user that a prefix names.
pub record Names (r : Repository) (prefix : Text) (user_id : String) (k : ApiKeyRecord)
    : Type 0 where
  pub stored : get k.key_hash r ≡ some k
  pub owned : k.user_id ≡ some user_id
  pub begins : starts_with prefix (codes k.key_hash) ≡ true
  pub only :
      (h : String) (i : ApiKeyRecord)
      → get h r ≡ some i
      → i.user_id ≡ some user_id
      → starts_with prefix (codes i.key_hash) ≡ true
      → h ≡ k.key_hash

found_key :
    (r : Repository) (prefix : Text) (user_id : String) (k : ApiKeyRecord)
    → Filed r
    → find_by_key_hash_prefix_for_user r prefix user_id ≡ k ∷ []
    → Names r prefix user_id k
found_key r prefix user_id k f e =
    let p = λ (i : ApiKeyRecord).
      same_option i.user_id (some user_id) && starts_with prefix (codes i.key_hash) in
    let (g, t, only) = one_kept p k r f e in
    record {
      stored = g;
      owned = same_option-some k.user_id user_id (ground (arith, t));
      begins = ground (arith, t);
      only = λ h i u o b. only h i u (ground (arith, o, b, eq_refl user_id));
    }

find_hash-cases :
    (s : Service) (prefix : Text) (user_id : String)
    → ((e : Exception) × (find_hash_by_prefix_for_user s prefix user_id ≡ raised e))
      ⊎ ((find_hash_by_prefix_for_user s prefix user_id ≡ ok none)
          ⊎ ((k : ApiKeyRecord) × (find_by_key_hash_prefix_for_user s.repository prefix user_id
                ≡ k ∷ [])
              × (find_hash_by_prefix_for_user s prefix user_id ≡ ok (some k.key_hash))))
unfolding find_hash_by_prefix_for_user only_match
find_hash-cases s prefix user_id =
    by_cases (is_prefix prefix) (find_by_key_hash_prefix_for_user s.repository prefix user_id)
  where
    by_cases :
        (b : Bool) (ks : List ApiKeyRecord)
        → ((e : Exception) × ((require b validation_error >> only_match ks) ≡ raised e))
          ⊎ (((require b validation_error >> only_match ks) ≡ ok none)
              ⊎ ((k : ApiKeyRecord) × (ks ≡ k ∷ [])
                  × ((require b validation_error >> only_match ks) ≡ ok (some k.key_hash))))
    by_cases false ks = inl (_, refl)
    by_cases true [] = inr (inl refl)
    by_cases true (k ∷ []) = inr (inr (k, refl, refl))
    by_cases true (_ ∷ _ ∷ _) = inl (_, refl)

revoke_own :
    (s : Service) (k : ApiKeyRecord) (user_id : String)
    → get k.key_hash s.repository ≡ some k
    → k.user_id ≡ some user_id
    → revoke_key_for_user s k.key_hash user_id ≡ ((revoke_key s k.key_hash).0, true)
unfolding revoke_key_for_user revoke_key update_status
revoke_own s k user_id g o = ground (arith, g, o, eq_refl user_id)

-- What the route leaves: the service as it was and an exception, or one key of the user revoked.
abbrev pub Left : Service → Text → String → Service × Result Bool → Type 0
Left s prefix user_id out =
    ((e : Exception) × (out ≡ (s, raised e)))
    ⊎ ((k : ApiKeyRecord) × Names s.repository prefix user_id k
        × (out.1 ≡ ok true)
        × ((j : String)
            → get j out.0.repository ≡ (
                if str_eq k.key_hash j
                then some (record k { status = "revoked" })
                else get j s.repository)))

route_leaves :
    (s : Service) (prefix : Text) (user_id : String)
    → Filed s.repository
    → Left s prefix user_id (revoke_user_api_key s prefix user_id)
unfolding revoke_user_api_key
route_leaves s prefix user_id f = elim (find_hash-cases s prefix user_id) [
  | inl (e, q) ↦ rw (revoke_user_api_key, q) (inl (e, refl))
  | inr (inl q) ↦ rw (revoke_user_api_key, q) (inl (_, refl))
  | inr (inr (k, l, q)) ↦
      let names = found_key s.repository prefix user_id k f l in
      rw (revoke_user_api_key, q, revoke_own s k user_id names.stored names.owned)
        (inr (k, names, refl, λ j. get-revoke_key s k.key_hash j k names.stored))
]

-- The route by which a user revokes a key, in a service that has started with the configured keys:
-- either it raises, and the service stays as it was; or exactly one key of the user begins with the
-- prefix, this key is revoked, and the record of every other key stays as it was.
pub users_revoke_their_own :
    (hash : Text → String) (raw_keys : Text) (wall : ℕ) (s : Service) (prefix : Text)
    (user_id : String)
    → Steps hash
        (record { repository = create_in_memory_repository hash raw_keys wall; touch_cache = [] })
        s
    → Left s prefix user_id (revoke_user_api_key s prefix user_id)
users_revoke_their_own hash raw_keys wall s prefix user_id p =
    route_leaves s prefix user_id (Steps-Filed hash _ s p (Filed-configured hash raw_keys wall))
