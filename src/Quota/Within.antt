-- ===== src/Quota/Within.antt =====
-- Any sequence of operations keeps an API key within its daily limit, where reservations are checked
-- per key.
use ai_platform_mini.Prelude.{
  ℕ, ◌+◌, ◌-◌, ◌≤◌, String, ◌≡◌, Option, none, some, List, [], ◌∷◌, Text, text_eq_sound, arith,
  Option-cases, inl, inr,
}
use ai_platform_mini.Prelude.Dict.{get}
use ai_platform_mini.Usage.{Readings}
use ai_platform_mini.Quota.{
  Repository, Entry, Reservation, reserved, purge, purge_expired, daily_taken, create_reservation,
  extend_reservation, extend_entry, settle_reservation, release_reservation, renew_reservation,
  cleanup_expired, new_entry, for_key, get_reserved_tokens_for_key, seconds,
}
use ai_platform_mini.Quota.Sums.{
  reserved-purge, reserved_later, reserved-put-le, reserved-put_old, reserved-remove,
}

-- The calls that change the reservations.
pub data Op : Type 0 where
  create : Reservation → Op
  extend : String → ℕ → Option ℕ → Option ℕ → Option String → Op
  settle release : String → Op
  renew : String → ℕ → Op
  cleanup : Op

-- Every check is against one daily limit, and reservations name no workspace: the key scope.
abbrev pub IsChecked : ℕ → Op → Type 0
IsChecked limit (create q) = (q.daily_limit ≡ some limit) × (q.workspace_id ≡ none)
IsChecked limit (extend id n daily monthly w) = daily ≡ some limit
IsChecked limit (settle id) = Unit
IsChecked limit (release id) = Unit
IsChecked limit (renew id ttl) = Unit
IsChecked limit cleanup = Unit

-- The clock never goes back, and every operation is checked.
abbrev pub AreChecked : ℕ → ℕ → List (Op × ℕ) → Type 0
AreChecked limit last [] = Unit
AreChecked limit last ((op, now) ∷ ops) =
    (last ≤ now) × IsChecked limit op × AreChecked limit now ops

abbrev pub clock : ℕ → List (Op × ℕ) → ℕ
clock last [] = last
clock last ((op, now) ∷ ops) = clock now ops

module _ (usage : Readings) where
  abbrev pub apply : Repository → Op → ℕ → Repository
  apply r (create q) now = (create_reservation usage r q now).0
  apply r (extend id n daily monthly w) now =
      (extend_reservation usage r id n daily monthly w now).0
  apply r (settle id) now = settle_reservation r id
  apply r (release id) now = release_reservation r id
  apply r (renew id ttl) now = (renew_reservation r id ttl now).0
  apply r cleanup now = (cleanup_expired r now).0

  abbrev pub run : Repository → List (Op × ℕ) → Repository
  run r [] = r
  run r ((op, now) ∷ ops) = run (apply r op now) ops

  module _ (limit : ℕ) (k d : Text) where
    -- What is reserved is at most what is not yet used.
    abbrev Fits : Repository → ℕ → Type 0
    Fits r now = reserved (for_key k d) now r.reservations ≤ limit - usage.total_tokens_for_key k d

    create-Fits :
        (r : Repository) (q : Reservation) (now : ℕ)
        → IsChecked limit (create q)
        → Fits r now
        → Fits (apply r (create q) now) now
    unfolding create_reservation purge_expired daily_taken
    create-Fits r q now (limited, keyed) f = ground (
      arith,
      limited,
      keyed,
      reserved-purge (for_key k d) now r.reservations,
      reserved-put-le (for_key k d) now q.reservation_id (new_entry q now)
          (purge now r.reservations),
      text_eq_sound q.api_key_hash k,
      text_eq_sound q.usage_date d,
    )

    extend_entry-Fits :
        (r : Repository) (id : String) (e : Entry) (n : ℕ) (monthly : Option ℕ) (now : ℕ)
        → get id r.reservations ≡ some e
        → Fits r now
        → Fits (extend_entry usage r id e n (some limit) monthly now).0 now
    unfolding extend_entry daily_taken
    extend_entry-Fits r id e n monthly now found f = ground (
      arith,
      reserved-put_old (for_key k d) now id e (record e { reserved_tokens = e.reserved_tokens + n })
          r.reservations,
      text_eq_sound e.api_key_hash k,
      text_eq_sound e.usage_date d,
    )

    renew-Fits :
        (r : Repository) (id : String) (ttl now : ℕ)
        → Fits r now
        → Fits (apply r (renew id ttl) now) now
    unfolding renew_reservation
    renew-Fits r id ttl now f = elim (Option-cases (get id r.reservations)) [
      | inl missing ↦ ground arith
      | inr (e, found) ↦ ground (
        arith,
        reserved-put_old (for_key k d) now id e (record e { expires_at = now + seconds ttl })
            r.reservations,
      )
    ]

    purge-Fits : (r : Repository) (now : ℕ) → Fits r now → Fits (purge_expired r now) now
    unfolding purge_expired
    purge-Fits r now f = ground (arith, reserved-purge (for_key k d) now r.reservations)

    extend-Fits :
        (r : Repository) (id : String) (n : ℕ) (monthly : Option ℕ) (w : Option String) (now : ℕ)
        → Fits r now
        → Fits (apply r (extend id n (some limit) monthly w) now) now
    unfolding extend_reservation
    extend-Fits r id n monthly w now f =
        let p = purge_expired r now in
        elim (Option-cases (get id p.reservations)) [
          | inl missing ↦ ground (arith, purge-Fits r now f)
          | inr (e, found) ↦
              ground (arith, extend_entry-Fits p id e n monthly now found (purge-Fits r now f))
        ]

    remove-Fits :
        (r : Repository) (id : String) (now : ℕ)
        → Fits r now
        → Fits (settle_reservation r id) now × Fits (release_reservation r id) now
    unfolding settle_reservation release_reservation
    remove-Fits r id now f = (
      omega (arith, reserved-remove (for_key k d) now id r.reservations),
      omega (arith, reserved-remove (for_key k d) now id r.reservations),
    )

    cleanup-Fits : (r : Repository) (now : ℕ) → Fits r now → Fits (apply r cleanup now) now
    unfolding cleanup_expired
    cleanup-Fits r now f = purge-Fits r now f

    apply-Fits :
        (r : Repository) (op : Op) (now : ℕ)
        → IsChecked limit op
        → Fits r now
        → Fits (apply r op now) now
    apply-Fits r (create q) now c f = create-Fits r q now c f
    apply-Fits r (extend id n daily monthly w) now c f = rw c (extend-Fits r id n monthly w now f)
    apply-Fits r (settle id) now c f = (remove-Fits r id now f).0
    apply-Fits r (release id) now c f = (remove-Fits r id now f).1
    apply-Fits r (renew id ttl) now c f = renew-Fits r id ttl now f
    apply-Fits r cleanup now c f = cleanup-Fits r now f

    run-Fits :
        (r : Repository) (ops : List (Op × ℕ)) (last : ℕ)
        → AreChecked limit last ops
        → Fits r last
        → Fits (run r ops) (clock last ops)
    run-Fits r [] last c f = f
    run-Fits r ((op, now) ∷ ops) last (later, checked, rest) f =
        run-Fits (apply r op now) ops now rest (
          apply-Fits r op now checked
            (omega (arith, reserved_later (for_key k d) last now r.reservations later)))

    -- From an empty repository, any sequence of creations, extensions, settlements, releases,
    -- renewals and clean-ups in the key scope, each checked against one daily limit at times that
    -- never go back, leaves no more reserved for a key on a day than its use leaves of the limit.
    pub reserved-le-rest :
        (r : Repository) (ops : List (Op × ℕ))
        → r.reservations ≡ []
        → AreChecked limit 0 ops
        → get_reserved_tokens_for_key (run r ops) k d (clock 0 ops)
          ≤ limit - usage.total_tokens_for_key k d
    unfolding get_reserved_tokens_for_key
    reserved-le-rest r ops start checked =
        run-Fits r ops 0 checked (rw start (unfold reserved in omega arith))
