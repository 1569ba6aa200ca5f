-- ===== src/Auth/Filed.antt =====
-- The repository of the API keys (app/auth/memory_repository.py) has each key once.
use ai_platform_mini.Prelude.{
  ℕ, String, Bool, some, List, [], ◌∷◌, Text, ◌≡◌, refl, inl, inr, str_eq, Option-cases, not,
  same_option, ltb, ◌-◌, if_both,
}
use ai_platform_mini.Prelude.Dict.{get, put}
use ai_platform_mini.Prelude.Keyed
use ai_platform_mini.Prelude.Results.{Result}
use ai_platform_mini.Auth.Records.{
  ApiKey, ApiKeyRecord, Repository, ensure_key, update_status, touch_last_used, new_repository,
  configured_records, create_in_memory_repository, split,
}
use ai_platform_mini.Auth.Service.{
  Service, throttle_micros, last_touch, throttled_touch, validate, create_key, ensure_initial_key,
  revoke_key, revoke_key_for_user,
}
use ai_platform_mini.Auth.Steps.{
  Step, validates, creates, ensures, revokes, user_revokes, Steps, here, and_then,
}

-- Each key is stored once, under its own hash.
abbrev pub Filed : Repository → Type 0
Filed r = Keyed.Keyed (λ (k : ApiKeyRecord). k.key_hash) r

Filed-put :
    (h : String) (k : ApiKeyRecord) (r : Repository) → k.key_hash ≡ h → Filed r → Filed (put h k r)
Filed-put h k r e f = Keyed.Keyed-put (λ (i : ApiKeyRecord). i.key_hash) h k r e f

Filed-get :
    (h : String) (k : ApiKeyRecord) (r : Repository) → Filed r → get h r ≡ some k → k.key_hash ≡ h
Filed-get h k r f e = Keyed.Keyed-get (λ (i : ApiKeyRecord). i.key_hash) h k r f e

Filed-touch : (r : Repository) (h : String) (wall : ℕ) → Filed r → Filed (touch_last_used r h wall)
unfolding touch_last_used
Filed-touch r h wall f = elim (Option-cases (get h r)) [
  | inl e ↦ rw (touch_last_used, e) f
  | inr (k, e) ↦ rw (touch_last_used, e) (Filed-put h _ r (Filed-get h k r f e) f)
]

Filed-update : (r : Repository) (h status : String) → Filed r → Filed (update_status r h status).0
unfolding update_status
Filed-update r h status f = elim (Option-cases (get h r)) [
  | inl e ↦ rw (update_status, e) f
  | inr (k, e) ↦ rw (update_status, e) (Filed-put h _ r (Filed-get h k r f e) f)
]

Filed-throttled :
    (s : Service) (h : String) (now wall : ℕ) (written : Bool)
    → Filed s.repository
    → Filed (throttled_touch s h now wall written).repository
unfolding throttled_touch
Filed-throttled s h now wall written f =
    if_both (λ (z : Service). Filed z.repository) (ltb (now - last_touch s h) throttle_micros) _ _ f
      (if_both (λ (z : Service). Filed z.repository) written _ _ (Filed-touch s.repository h wall f)
        f)

Filed-validate :
    (hash : Text → String) (s : Service) (raw_key : Text) (now wall : ℕ) (written : Bool)
    → Filed s.repository
    → Filed (validate hash s raw_key now wall written).0.repository
unfolding validate
Filed-validate hash s raw_key now wall written f =
    elim (Option-cases (get (hash raw_key) s.repository)) [
      | inl e ↦ rw (validate, e) f
      | inr (k, e) ↦
          rw (validate, e)
            (if_both (λ (z : Service × Result ApiKey). Filed z.0.repository)
              (not (str_eq k.status "active")) _ _ f
              (Filed-throttled s (hash raw_key) now wall written f))
    ]

Step-Filed :
    (hash : Text → String) (s t : Service) → Step hash s t → Filed s.repository → Filed t.repository
unfolding create_key ensure_initial_key ensure_key revoke_key_for_user revoke_key
Step-Filed hash s t (validates raw now wall written) f =
    Filed-validate hash s raw now wall written f
Step-Filed hash s t (creates raw name u w wall new) f = Filed-put (hash raw) _ s.repository refl f
Step-Filed hash s t (ensures raw name wall) f = elim (Option-cases (get (hash raw) s.repository)) [
  | inl e ↦ rw (ensure_key, e) (Filed-put (hash raw) _ s.repository refl f)
  | inr (k, e) ↦ rw (ensure_key, e) f
]
Step-Filed hash s t (revokes h) f = Filed-update s.repository h "revoked" f
Step-Filed hash s t (user_revokes h u) f = elim (Option-cases (get h s.repository)) [
  | inl e ↦ rw (revoke_key_for_user, e) f
  | inr (k, e) ↦
      rw (revoke_key_for_user, e)
        (if_both (λ (z : Service × Bool). Filed z.0.repository)
          (not (same_option k.user_id (some u))) _ _ f (Filed-update s.repository h "revoked" f))
]

pub Steps-Filed :
    (hash : Text → String) (s t : Service)
    → Steps hash s t
    → Filed s.repository
    → Filed t.repository
Steps-Filed hash s t here f = f
Steps-Filed hash s t (and_then {t = u} p x) f = Step-Filed hash u t x (Steps-Filed hash s u p f)

Filed-new : (ks : List ApiKeyRecord) (r : Repository) → Filed r → Filed (new_repository ks r)
unfolding new_repository
Filed-new [] r f = f
Filed-new (k ∷ ks) r f = Filed-new ks (put k.key_hash k r) (Filed-put k.key_hash k r refl f)

pub Filed-configured :
    (hash : Text → String) (raw_keys : Text) (wall : ℕ)
    → Filed (create_in_memory_repository hash raw_keys wall)
unfolding create_in_memory_repository
Filed-configured hash raw_keys wall =
    Filed-new (configured_records hash (split 44 raw_keys) wall) [] tt
