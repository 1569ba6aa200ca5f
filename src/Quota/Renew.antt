-- ===== src/Quota/Renew.antt =====
-- Renewal: what keeps a reservation alive, and what ends it.
use ai_platform_mini.Prelude.{
  ℕ, zero, suc, ◌+◌, ◌≤◌, ◌<◌, String, ◌≡◌, refl, Bool, true, false, some, if◌then◌else◌, eq_refl,
  arith, Option-cases, inl, inr,
}
use ai_platform_mini.Prelude.Dict.{get, get-put}
use ai_platform_mini.Usage.{Readings}
use ai_platform_mini.Quota.{
  Repository, Entry, Reservation, ReservationResult, is_live, seconds, create_reservation,
  new_entry, renew_reservation, purge_expired,
}

-- A reservation is renewed exactly if it is there and live, and is then there until its time to
-- live has passed once more, with all else as it was; a renewal that fails changes nothing.
pub renew_reservation_lem :
    (r : Repository) (id : String) (ttl now : ℕ)
    → ((e : Entry)
        → get id r.reservations ≡ some e
        → is_live now e ≡ true
        → let (r', renewed) = renew_reservation r id ttl now in
          (renewed ≡ true)
          × (get id r'.reservations ≡ some (record e { expires_at = now + seconds ttl })))
      × (((e : Entry) → get id r.reservations ≡ some e → is_live now e ≡ false)
          → renew_reservation r id ttl now ≡ (r, false))
unfolding renew_reservation
renew_reservation_lem r id ttl now = (
  λ e found live. ground (
    arith,
    eq_refl id,
    get-put id id (record e { expires_at = now + seconds ttl }) r.reservations,
  ),
  λ dead. elim (Option-cases (get id r.reservations)) [
    | inl missing ↦ ground arith
    | inr (e, found) ↦ ground (arith, dead e found)
  ],
)

-- Renewals that are `pause` microseconds apart.
abbrev pub renewals : ℕ → Repository → String → ℕ → ℕ → ℕ → Repository × Bool
renewals zero r id ttl pause now = (r, true)
renewals (suc n) r id ttl pause now =
    let (r', renewed) = renew_reservation r id ttl (now + pause) in
    if renewed then renewals n r' id ttl pause (now + pause) else (r', false)

renewals_from :
    (n : ℕ) (r : Repository) (id : String) (e : Entry) (ttl pause now : ℕ)
    → pause < seconds ttl
    → get id r.reservations ≡ some e
    → e.settled ≡ false
    → now + seconds ttl ≤ e.expires_at
    → (renewals n r id ttl pause now).1 ≡ true
renewals_from zero r id e ttl pause now short found open_entry lives = refl
renewals_from (suc n) r id e ttl pause now short found open_entry lives =
    let (renewed, found') =
      (renew_reservation_lem r id ttl (now + pause)).0 e found (ground arith) in
    let r' = (renew_reservation r id ttl (now + pause)).0 in
    ground (
      arith,
      renewed,
      renewals_from n r' id (record e { expires_at = now + pause + seconds ttl }) ttl pause
          (now + pause) short found' open_entry (omega arith),
    )

-- A reservation that was created is kept alive by any number of renewals, as long as the pause
-- between them is shorter than its time to live: every one succeeds.
pub created_stays_alive :
    (usage : Readings) (n : ℕ) (r : Repository) (q : Reservation) (pause now : ℕ)
    → pause < seconds q.ttl_seconds
    → (create_reservation usage r q now).1 ≡ ReservationResult.created
    → (renewals n (create_reservation usage r q now).0 q.reservation_id q.ttl_seconds pause now).1
      ≡ true
created_stays_alive usage n r q pause now short created =
    renewals_from n (create_reservation usage r q now).0 q.reservation_id (new_entry q now)
      q.ttl_seconds pause now short found refl (omega arith)
  where
    found :
        get q.reservation_id (create_reservation usage r q now).0.reservations
        ≡ some (new_entry q now)
    found =
        unfold create_reservation in
        ground (
          arith,
          created,
          eq_refl q.reservation_id,
          get-put q.reservation_id q.reservation_id (new_entry q now)
              (purge_expired r now).reservations,
        )
