-- ===== src/Quota/Extend.antt =====
-- `extend_reservation`: what an extension does, and which total it is held against.
use ai_platform_mini.Prelude.{
  ℕ, ◌+◌, ◌≤◌, String, ◌≡◌, ◌⊎◌, inl, inr, Bool-cases, true, false, Option, none, some, Text, take,
  eq_refl, text_eq_refl, arith,
}
use ai_platform_mini.Prelude.Dict.{get, get-put}
use ai_platform_mini.Usage.{Readings}
use ai_platform_mini.Quota.{
  Repository, Entry, ReservationResult, is_live, purge, purge_expired, daily_taken, monthly_taken,
  extend_entry, extend_reservation, exceeds, for_workspace, for_key, for_key_month,
  for_workspace_month,
}
use ai_platform_mini.Quota.Sums.{reserved-put_old}
use ai_platform_mini.Quota.Create.{
  Within, not_exceeds, daily_taken-purge, monthly_taken-purge, stored,
}

-- The entry that an extension writes.
abbrev pub longer : Entry → ℕ → Entry
longer e n = record e { reserved_tokens = e.reserved_tokens + n }

module _ (usage : Readings) where
  daily_taken-longer :
      (r : Repository) (id : String) (e : Entry) (n : ℕ) (w : Option String) (k d : Text) (now : ℕ)
      → get id r.reservations ≡ some e
      → daily_taken usage (stored r id (longer e n)) w k d now ≤ daily_taken usage r w k d now + n
  unfolding daily_taken
  daily_taken-longer r id e n none k d now found =
      ground (arith, reserved-put_old (for_key k d) now id e (longer e n) r.reservations)
  daily_taken-longer r id e n (some w) k d now found =
      ground (arith, reserved-put_old (for_workspace w d) now id e (longer e n) r.reservations)

  daily_taken-grown :
      (r : Repository) (id ws : String) (e : Entry) (n now : ℕ)
      → get id r.reservations ≡ some e
      → e.workspace_id ≡ some ws
      → is_live now e ≡ true
      → daily_taken usage (stored r id (longer e n)) (some ws) e.api_key_hash e.usage_date now
        ≡ daily_taken usage r (some ws) e.api_key_hash e.usage_date now + n
  unfolding daily_taken
  daily_taken-grown r id ws e n now found in_ws live = ground (
    arith,
    in_ws,
    eq_refl ws,
    text_eq_refl e.usage_date,
    reserved-put_old (for_workspace ws e.usage_date) now id e (longer e n) r.reservations,
  )

  monthly_taken-longer :
      (r : Repository) (id : String) (e : Entry) (n : ℕ) (w : Option String) (k m : Text) (now : ℕ)
      → get id r.reservations ≡ some e
      → monthly_taken usage (stored r id (longer e n)) w k m now
        ≤ monthly_taken usage r w k m now + n
  unfolding monthly_taken
  monthly_taken-longer r id e n none k m now found =
      ground (arith, reserved-put_old (for_key_month k m) now id e (longer e n) r.reservations)
  monthly_taken-longer r id e n (some w) k m now found =
      ground
        (arith, reserved-put_old (for_workspace_month w m) now id e (longer e n) r.reservations)

  extend_entry-Within :
      (r : Repository) (id : String) (e : Entry) (n : ℕ) (daily monthly : Option ℕ) (now : ℕ)
      → get id r.reservations ≡ some e
      → let (r', result) = extend_entry usage r id e n daily monthly now in
        result ≡ ReservationResult.created
        → (get id r'.reservations ≡ some (longer e n))
          × Within daily (daily_taken usage r' none e.api_key_hash e.usage_date now)
          × Within monthly (monthly_taken usage r' none e.api_key_hash (take 7 e.usage_date) now)
  unfolding extend_entry
  extend_entry-Within r id e n daily monthly now found created =
      let k = e.api_key_hash in
      let day = e.usage_date in
      let month = take 7 e.usage_date in
      (
        ground (arith, created, eq_refl id, get-put id id (longer e n) r.reservations),
        ground (
          arith,
          created,
          daily_taken-longer r id e n none k day now found,
          not_exceeds daily (daily_taken usage r none k day now + n)
              (daily_taken usage (stored r id (longer e n)) none k day now),
        ),
        ground (
          arith,
          created,
          monthly_taken-longer r id e n none k month now found,
          not_exceeds monthly (monthly_taken usage r none k month now + n)
              (monthly_taken usage (stored r id (longer e n)) none k month now),
        ),
      )

  extend_reservation-found :
      (r : Repository) (id : String) (e : Entry) (n : ℕ) (daily monthly : Option ℕ)
      (w : Option String) (now : ℕ)
      → get id (purge now r.reservations) ≡ some e
      → extend_reservation usage r id n daily monthly w now
        ≡ extend_entry usage (purge_expired r now) id e n daily monthly now
  unfolding extend_reservation purge_expired
  extend_reservation-found r id e n daily monthly w now found = ground arith

  -- An extension that is granted to a live reservation adds its tokens to that reservation and
  -- leaves the use and the reservations of the reservation's key within both limits.
  pub extended-Within :
      (r : Repository) (id : String) (e : Entry) (n : ℕ) (daily monthly : Option ℕ)
      (w : Option String) (now : ℕ)
      → get id (purge now r.reservations) ≡ some e
      → let (r', result) = extend_reservation usage r id n daily monthly w now in
        result ≡ ReservationResult.created
        → (get id r'.reservations ≡ some (longer e n))
          × Within daily (daily_taken usage r' none e.api_key_hash e.usage_date now)
          × Within monthly (monthly_taken usage r' none e.api_key_hash (take 7 e.usage_date) now)
  extended-Within r id e n daily monthly w now found =
      rw (extend_reservation-found r id e n daily monthly w now found) (
        extend_entry-Within (purge_expired r now) id e n daily monthly now
          (unfold purge_expired in found))

  -- The extension of a live reservation of a workspace is held against the totals of the
  -- reservation's key, not against the workspace's. Where the key's total of the day and the tokens pass
  -- the daily limit, it is refused for that; else where the key's total of the month and the tokens pass
  -- the monthly limit, for that; and of a refused one only the purge of expired reservations stays.
  -- Otherwise it is granted, and its tokens are added to what is taken in the workspace on that day,
  -- however much that is already.
  pub extension_ignores_workspace :
      (r : Repository) (id ws : String) (e : Entry) (n : ℕ) (daily monthly : Option ℕ) (now : ℕ)
      → get id (purge now r.reservations) ≡ some e
      → e.workspace_id ≡ some ws
      → is_live now e ≡ true
      → let key_day = daily_taken usage r none e.api_key_hash e.usage_date now + n in
        let key_month = monthly_taken usage r none e.api_key_hash (take 7 e.usage_date) now + n in
        let result = extend_reservation usage r id n daily monthly (some ws) now in
        ((exceeds daily key_day ≡ true)
          × (result ≡ (purge_expired r now, ReservationResult.daily_limit)))
        ⊎ ((exceeds daily key_day ≡ false)
            × (exceeds monthly key_month ≡ true)
            × (result ≡ (purge_expired r now, ReservationResult.monthly_limit)))
        ⊎ ((exceeds daily key_day ≡ false)
            × (exceeds monthly key_month ≡ false)
            × (result.1 ≡ ReservationResult.created)
            × (daily_taken usage result.0 (some ws) e.api_key_hash e.usage_date now
                ≡ daily_taken usage r (some ws) e.api_key_hash e.usage_date now + n))
  unfolding extend_entry
  extension_ignores_workspace r id ws e n daily monthly now found in_ws live =
      let p = purge_expired r now in
      let month = take 7 e.usage_date in
      let same_day = daily_taken-purge usage r none e.api_key_hash e.usage_date now in
      let same_month = monthly_taken-purge usage r none e.api_key_hash month now in
      rw (extend_reservation-found r id e n daily monthly (some ws) now found)
        (elim (Bool-cases
          (exceeds daily (daily_taken usage r none e.api_key_hash e.usage_date now + n))) [
            | inl full ↦ inl (full, ground (arith, same_day))
            | inr room ↦
                inr
                  (elim (Bool-cases
                    (exceeds monthly (monthly_taken usage r none e.api_key_hash month now + n))) [
                      | inl full ↦ inl (room, full, ground (arith, same_day, same_month))
                      | inr more ↦ inr (
                        room,
                        more,
                        ground (arith, same_day, same_month),
                        ground (
                          arith,
                          same_day,
                          same_month,
                          daily_taken-purge usage r (some ws) e.api_key_hash e.usage_date now,
                          daily_taken-grown p id ws e n now (unfold purge_expired in found) in_ws
                              live,
                        ),
                      )
                    ])
          ])
