-- ===== src/Quota/Lifecycle.antt =====
-- app/quota/lifecycle.py: a reservation is kept alive by a renewal task while a request runs, and is
-- settled or released when the request ends. With the repository in memory the calls of the quota
-- service do not wait, so that a method runs as a whole between two ticks of the renewal task.
use ai_platform_mini.Prelude.{
  ℕ, String, Bool, true, false, not, ◌||◌, Option, none, some, if◌then◌else◌,
}
use ai_platform_mini.Prelude.Results.{Result, ok, raised, Exception, quota_reservation_error}
use ai_platform_mini.Usage.{Readings}
use ai_platform_mini.Billing
use ai_platform_mini.Quota.{Repository, QuotaConfig, QuotaReservation}
use ai_platform_mini.Quota.Service

-- The future of a renewal failure, until it is taken away: its error is a QuotaReservationError.
pub data Signal : Type 0 where
  pending failed : Signal

-- The task of `_renew_reservation`: it sleeps before the next renewal, or it has returned.
pub data RenewalTask : Type 0 where
  sleeping returned : RenewalTask

pub record ReservationLifecycle : Type 0 where
  pub reservation : Option QuotaReservation
  pub has_service : Bool
  pub renewal_failure : Option Signal
  pub renewal_task : Option RenewalTask
  pub finalized : Bool

unfoldable pub new : Option QuotaReservation → Bool → ReservationLifecycle
new reservation has_service = record {
  reservation = reservation;
  has_service = has_service;
  renewal_failure = none;
  renewal_task = none;
  finalized = false;
}

-- `__aenter__`
unfoldable pub enter : ReservationLifecycle → ReservationLifecycle
enter l = elim l.reservation [
  | none ↦ l
  | some _ ↦
      if not l.has_service
      then l
      else record l { renewal_failure = some pending; renewal_task = some sleeping }
]

unfoldable pub set_renewal_failure : ReservationLifecycle → ReservationLifecycle
set_renewal_failure l = elim l.renewal_failure [
  | some pending ↦ record l { renewal_failure = some failed }
  | _ ↦ l
]

-- `_stop_renewal`: of a future that has failed, the error is taken and passed over.
unfoldable pub stop_renewal : ReservationLifecycle → ReservationLifecycle
stop_renewal l = record l { renewal_failure = none; renewal_task = none }

-- How an operation ends, here or after it has been cancelled.
pub data Operation {ℓ} (A : Type ℓ) : Type ℓ where
  ended : Result A → Operation A
  cancelled : Operation A

-- `run`, when it goes on: the operation has ended, or the renewal has failed and the operation has
-- ended after its cancellation.
unfoldable pub run {ℓ} : {A : Type ℓ} → ReservationLifecycle → Bool → Operation A → Operation A
run l return_quota_failure_result operation = elim l.renewal_failure [
  | some failed ↦ elim operation [
    | ended x ↦
        if return_quota_failure_result then ended x else ended (raised quota_reservation_error)
    | cancelled ↦ ended (raised quota_reservation_error)
  ]
  | _ ↦ operation
]

module _ (usage : Readings) (billing : Option Billing.Repository) (config : QuotaConfig) where
  -- One round of `_renew_reservation` at a time; `raises` is a call that fails.
  unfoldable pub renew_round :
      Repository → ReservationLifecycle → ℕ → Bool → Repository × ReservationLifecycle
  unfolding set_renewal_failure
  renew_round r l now raises = elim l.renewal_task [
    | some sleeping ↦ elim l.reservation [
      | none ↦ (r, l)
      | some reservation ↦
          let (r', renewed) = Service.renew usage billing config r reservation.reservation_id now in
          if raises
          then (r, record (set_renewal_failure l) { renewal_task = some returned })
          else (if renewed
              then (r', l)
              else (r', record (set_renewal_failure l) { renewal_task = some returned }))
    ]
    | _ ↦ (r, l)
  ]

  -- What `settle` and `release` share; `call` is the call of the quota service, and `failure` what
  -- it raises if it does.
  abbrev pub finalize :
      (Repository → String → Repository)
      → Repository
      → ReservationLifecycle
      → Option Exception
      → Repository × ReservationLifecycle × Result (Unit {0})
  finalize call r l failure = elim l.reservation [
    | none ↦ (r, l, ok tt)
    | some reservation ↦ if l.finalized || not l.has_service then (r, l, ok tt) else elim failure [
      | some e ↦ (r, l, raised e)
      | none ↦ (call r reservation.reservation_id, record l { finalized = true }, ok tt)
    ]
  ]

  unfoldable pub settle :
      Repository
      → ReservationLifecycle
      → Option Exception
      → Repository × ReservationLifecycle × Result (Unit {0})
  unfolding stop_renewal
  settle r l failure = finalize (Service.settle usage billing config) r (stop_renewal l) failure

  unfoldable pub release :
      Repository
      → ReservationLifecycle
      → Option Exception
      → Repository × ReservationLifecycle × Result (Unit {0})
  unfolding stop_renewal
  release r l failure = finalize (Service.release usage billing config) r (stop_renewal l) failure

  -- `__aexit__`
  unfoldable pub exit :
      Repository
      → ReservationLifecycle
      → Option Exception
      → Repository × ReservationLifecycle × Result (Unit {0})
  unfolding stop_renewal release
  exit r l failure =
      let l' = stop_renewal l in if not l'.finalized then release r l' failure else (r, l', ok tt)
