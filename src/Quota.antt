-- ===== src/Quota.antt =====
-- app/quota/models.py and app/quota/memory_repository.py. A time is a number of microseconds since
-- a fixed moment; one operation reads the clock at one `now`. API key hashes and dates are texts of
-- which the program takes prefixes, other ids are only compared. The operations read the usage
-- repository that the constructor was given, here `usage`.
pub mod Sums
pub mod Create
pub mod Extend
pub mod Within
pub mod Renew
pub mod Clock
pub mod Service
pub mod Limits
pub mod Reserve
pub mod Lifecycle
pub mod Leaving
mod Tests
mod ServiceTests
mod LifecycleTests
use ai_platform_mini.Prelude.{
  ℕ, ◌+◌, ◌-◌, ◌*◌, String, Bool, true, false, not, ◌&&◌, ◌||◌, Option, none, some, List, [], ◌∷◌,
  ltb, leb, if◌then◌else◌, Text, text_eq, starts_with, same_option, length, take,
}
use ai_platform_mini.Prelude.Dict.{Dict, get, put, remove}
use ai_platform_mini.Usage.{Readings, total_of}

pub data ReservationResult : Type 0 where
  created daily_limit monthly_limit not_found : ReservationResult

pub data QuotaScope : Type 0 where
  key workspace : QuotaScope

pub record QuotaConfig : Type 0 where
  pub daily_token_limit : Option ℕ
  pub monthly_token_limit : Option ℕ
  pub default_reserve_tokens : ℕ
  pub reservation_ttl_seconds : ℕ
  pub reservation_renewal_seconds : ℕ
  pub quota_scope : QuotaScope

pub record QuotaReservation : Type 0 where
  pub reservation_id : String
  pub api_key_hash : Text
  pub reserved_tokens : ℕ
  pub usage_date : Text
  pub workspace_id : Option String

pub record WorkspaceQuota : Type 0 where
  pub workspace_id : String
  pub daily_token_limit : Option ℕ
  pub monthly_token_limit : Option ℕ

-- The dict that stands for one reservation.
pub record Entry : Type 0 where
  pub api_key_hash : Text
  pub workspace_id : Option String
  pub usage_date : Text
  pub reserved_tokens : ℕ
  pub settled : Bool
  pub expires_at : ℕ

pub record Repository : Type 0 where
  pub workspace_quotas : Dict WorkspaceQuota
  pub reservations : Dict Entry

abbrev pub seconds : ℕ → ℕ
seconds n = n * 1000000

-- `not settled and expires_at > now`
abbrev pub is_live : ℕ → Entry → Bool
is_live now e = not e.settled && ltb now e.expires_at

-- The sum of the reserved tokens of the live entries that pass a test.
unfoldable pub reserved : (Entry → Bool) → ℕ → Dict Entry → ℕ
reserved test now [] = 0
reserved test now ((_, e) ∷ d) =
    let rest = reserved test now d in
    if test e && is_live now e then e.reserved_tokens + rest else rest

abbrev pub for_key : Text → Text → Entry → Bool
for_key api_key_hash usage_date e =
    text_eq e.api_key_hash api_key_hash && text_eq e.usage_date usage_date

abbrev pub for_key_month : Text → Text → Entry → Bool
for_key_month api_key_hash year_month e =
    text_eq e.api_key_hash api_key_hash && text_eq (take 7 e.usage_date) year_month

abbrev pub for_workspace : String → Text → Entry → Bool
for_workspace workspace_id usage_date e =
    same_option e.workspace_id (some workspace_id) && text_eq e.usage_date usage_date

abbrev pub for_workspace_month : String → Text → Entry → Bool
for_workspace_month workspace_id year_month e =
    same_option e.workspace_id (some workspace_id) && starts_with year_month e.usage_date

unfoldable pub get_reserved_tokens_for_key : Repository → Text → Text → ℕ → ℕ
get_reserved_tokens_for_key r api_key_hash usage_date now =
    reserved (for_key api_key_hash usage_date) now r.reservations

unfoldable pub get_monthly_reserved_tokens_for_key : Repository → Text → Text → ℕ → ℕ
get_monthly_reserved_tokens_for_key r api_key_hash year_month now =
    reserved (for_key_month api_key_hash year_month) now r.reservations

-- `_purge_expired`
unfoldable pub purge : ℕ → Dict Entry → Dict Entry
purge now [] = []
purge now ((id, e) ∷ d) =
    let rest = purge now d in if e.settled || leb e.expires_at now then rest else (id, e) ∷ rest

unfoldable pub purge_expired : Repository → ℕ → Repository
unfolding purge
purge_expired r now = record r { reservations = purge now r.reservations }

unfoldable pub cleanup_expired : Repository → ℕ → Repository × ℕ
unfolding purge_expired
cleanup_expired r now =
    let r' = purge_expired r now in (r', length r.reservations - length r'.reservations)

-- The arguments of `create_reservation` but for the advisory lock's key, which this repository
-- deletes.
pub record Reservation : Type 0 where
  pub reservation_id : String
  pub api_key_hash : Text
  pub usage_date : Text
  pub reserved_tokens : ℕ
  pub daily_limit : Option ℕ
  pub monthly_limit : Option ℕ
  pub ttl_seconds : ℕ
  pub workspace_id : Option String

-- The dict that `create_reservation` stores.
abbrev pub new_entry : Reservation → ℕ → Entry
new_entry q now = record {
  api_key_hash = q.api_key_hash;
  workspace_id = q.workspace_id;
  usage_date = q.usage_date;
  reserved_tokens = q.reserved_tokens;
  settled = false;
  expires_at = now + seconds q.ttl_seconds;
}

-- A limit that a number of tokens passes.
abbrev pub exceeds : Option ℕ → ℕ → Bool
exceeds none n = false
exceeds (some limit) n = ltb limit n

module _ (usage : Readings) where
  -- What is used and reserved on a day, in the dimension that the workspace selects.
  unfoldable pub daily_taken : Repository → Option String → Text → Text → ℕ → ℕ
  unfolding get_reserved_tokens_for_key
  daily_taken r none api_key_hash usage_date now =
      usage.total_tokens_for_key api_key_hash usage_date
      + get_reserved_tokens_for_key r api_key_hash usage_date now
  daily_taken r (some w) api_key_hash usage_date now =
      usage.total_tokens_for_workspace w usage_date
      + reserved (for_workspace w usage_date) now r.reservations

  unfoldable pub monthly_taken : Repository → Option String → Text → Text → ℕ → ℕ
  unfolding get_monthly_reserved_tokens_for_key
  monthly_taken r none api_key_hash year_month now =
      total_of (usage.monthly_usage api_key_hash year_month)
      + get_monthly_reserved_tokens_for_key r api_key_hash year_month now
  monthly_taken r (some w) api_key_hash year_month now =
      total_of (usage.monthly_usage_for_workspace w year_month)
      + reserved (for_workspace_month w year_month) now r.reservations

  unfoldable pub create_reservation : Repository → Reservation → ℕ → Repository × ReservationResult
  create_reservation r q now =
      let r' = purge_expired r now in
      if exceeds q.daily_limit
        (daily_taken r' q.workspace_id q.api_key_hash q.usage_date now + q.reserved_tokens)
      then (r', daily_limit)
      else if exceeds q.monthly_limit (
          monthly_taken r' q.workspace_id q.api_key_hash (take 7 q.usage_date) now
          + q.reserved_tokens)
      then (r', monthly_limit)
      else (
        record r' { reservations = put q.reservation_id (new_entry q now) r'.reservations },
        created,
      )

  -- The rest of `extend_reservation`, for the entry that was found. Its totals are the API key's,
  -- whatever workspace the caller names.
  unfoldable pub extend_entry :
      Repository → String → Entry → ℕ → Option ℕ → Option ℕ → ℕ → Repository × ReservationResult
  extend_entry r id e additional daily monthly now =
      if e.settled
      then (r, not_found)
      else if exceeds daily (daily_taken r none e.api_key_hash e.usage_date now + additional)
      then (r, daily_limit)
      else if exceeds monthly
          (monthly_taken r none e.api_key_hash (take 7 e.usage_date) now + additional)
      then (r, monthly_limit)
      else (
        record r {
          reservations =
              put id (record e { reserved_tokens = e.reserved_tokens + additional }) r.reservations;
        },
        created,
      )

  unfoldable pub extend_reservation :
      Repository
      → String
      → ℕ
      → Option ℕ
      → Option ℕ
      → Option String
      → ℕ
      → Repository × ReservationResult
  unfolding extend_entry
  extend_reservation r id additional daily monthly workspace_id now =
      let r' = purge_expired r now in
      elim (get id r'.reservations) [
        | none ↦ (r', not_found)
        | some e ↦ extend_entry r' id e additional daily monthly now
      ]

-- `settle_reservation` and `release_reservation` both pop the entry.
unfoldable pub settle_reservation : Repository → String → Repository
settle_reservation r id = record r { reservations = remove id r.reservations }

unfoldable pub release_reservation : Repository → String → Repository
release_reservation r id = record r { reservations = remove id r.reservations }

unfoldable pub renew_reservation : Repository → String → ℕ → ℕ → Repository × Bool
renew_reservation r id ttl_seconds now = elim (get id r.reservations) [
  | none ↦ (r, false)
  | some e ↦ if e.settled || leb e.expires_at now then (r, false) else (
    record r {
      reservations = put id (record e { expires_at = now + seconds ttl_seconds }) r.reservations;
    },
    true,
  )
]

unfoldable pub get_workspace_quota : Repository → String → Option WorkspaceQuota
get_workspace_quota r workspace_id = get workspace_id r.workspace_quotas

unfoldable pub set_workspace_quota :
    Repository → String → Option ℕ → Option ℕ → Repository × WorkspaceQuota
set_workspace_quota r workspace_id daily monthly =
    let quota : WorkspaceQuota = record {
      workspace_id = workspace_id;
      daily_token_limit = daily;
      monthly_token_limit = monthly;
    } in
    (record r { workspace_quotas = put workspace_id quota r.workspace_quotas }, quota)
