-- ===== src/Quota/LifecycleTests.antt =====
-- A request whose reservation is renewed once, settled, left, and asked to be renewed again.
use ai_platform_mini.Prelude.{ℕ, ◌≡◌, refl, true, false, none, some, [], ◌∷◌, codes}
use ai_platform_mini.Prelude.Dict.{get}
use ai_platform_mini.Prelude.Results.{ok, quota_reservation_error, raised}
use ai_platform_mini.Usage.{Readings}
use ai_platform_mini.Quota.{
  Repository, QuotaConfig, QuotaScope, QuotaReservation, renew_reservation,
}
use ai_platform_mini.Quota.Service
use ai_platform_mini.Quota.Lifecycle.{
  ReservationLifecycle, Operation, RenewalTask, new, enter, renew_round, set_renewal_failure,
  settle, exit, run,
}
use ai_platform_mini.Quota.Leaving.{here, and_then, renews, settles, left_and_gone}

abbrev usage : Readings
usage = record {
  total_tokens_for_key = λ k d. 0;
  total_tokens_for_workspace = λ w d. 0;
  monthly_usage = λ k m. [];
  monthly_usage_for_workspace = λ w m. [];
}

abbrev config : QuotaConfig
config = record {
  daily_token_limit = some 100;
  monthly_token_limit = none;
  default_reserve_tokens = 50;
  reservation_ttl_seconds = 600;
  reservation_renewal_seconds = 60;
  quota_scope = QuotaScope.key;
}

abbrev reservation : QuotaReservation
reservation = record {
  reservation_id = "r";
  api_key_hash = codes "k";
  reserved_tokens = 50;
  usage_date = codes "2026-12-31";
  workspace_id = none;
}

abbrev store : Repository
store = record {
  workspace_quotas = [];
  reservations =
      (
        "r",
        record {
          api_key_hash = codes "k";
          workspace_id = none;
          usage_date = codes "2026-12-31";
          reserved_tokens = 50;
          settled = false;
          expires_at = 600000000;
        },
      )
      ∷ [];
}

abbrev entered : ReservationLifecycle
entered = enter (new (some reservation) true)

abbrev renewed : Repository × ReservationLifecycle
renewed = renew_round usage none config store entered 60000000 false

abbrev settled : Repository × ReservationLifecycle
settled = let x = settle usage none config renewed.0 renewed.1 none in (x.0, x.1)

abbrev left : Repository × ReservationLifecycle
left = let x = exit usage none config settled.0 settled.1 none in (x.0, x.1)

abbrev late : Repository × ReservationLifecycle
late = renew_round usage none config left.0 left.1 120000000 false

left_and_gone_example : (get "r" late.0.reservations ≡ none) × (late.1.renewal_task ≡ none)
left_and_gone_example =
    left_and_gone usage none config reservation store settled.0 late.0 settled.1 late.1 refl
      (and_then (and_then here (renews 60000000 false)) (settles none))
      (and_then here (renews 120000000 false))

-- A renewal that finds no reservation gives up, and the operation is cut short.
gives_up :
    let l =
      (renew_round usage none config
        (record { workspace_quotas = []; reservations = [] })
        entered
        60000000
        false).1 in
    (l.renewal_task ≡ some RenewalTask.returned)
    × (run {A = ℕ} l false (Operation.ended (ok 1))
        ≡ Operation.ended (raised quota_reservation_error))
unfolding renew_round set_renewal_failure enter new run Service.renew renew_reservation get
gives_up = (refl, refl)
