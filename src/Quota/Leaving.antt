-- ===== src/Quota/Leaving.antt =====
-- A request does not keep its reservation: what the lifecycle (app/quota/lifecycle.py) leaves of it.
use ai_platform_mini.Prelude.{
  ℕ, String, Bool, true, not, Option, none, some, ◌≡◌, refl, inl, inr, arith, eq_refl, Bool-cases,
  if_both,
}
use ai_platform_mini.Prelude.Dict.{get, get-remove}
use ai_platform_mini.Prelude.Results.{Result, Exception}
use ai_platform_mini.Usage.{Readings}
use ai_platform_mini.Billing
use ai_platform_mini.Quota.{
  Repository, QuotaConfig, QuotaReservation, settle_reservation, release_reservation,
}
use ai_platform_mini.Quota.Service.{enabled}
use ai_platform_mini.Quota.Service
use ai_platform_mini.Quota.Lifecycle.{
  ReservationLifecycle, new, enter, stop_renewal, renew_round, set_renewal_failure, finalize,
  settle, release, exit,
}

abbrev Left : Type 0
Left = Repository × ReservationLifecycle × Result (Unit {0})

module _ (usage : Readings) (billing : Option Billing.Repository) (config : QuotaConfig) where
  -- What happens while a lifecycle is there: rounds of its task, calls of its methods, and the calls
  -- of other requests, which make no reservation of its id.
  pub data Step (id : String) (r : Repository) (l : ReservationLifecycle)
      : Repository → ReservationLifecycle → Type 0 where
    renews :
        (now : ℕ) (raises : Bool)
        → Step id r l
            (renew_round usage billing config r l now raises).0
            (renew_round usage billing config r l now raises).1
    settles :
        (failure : Option Exception)
        → Step id r l
            (settle usage billing config r l failure).0
            (settle usage billing config r l failure).1
    releases :
        (failure : Option Exception)
        → Step id r l
            (release usage billing config r l failure).0
            (release usage billing config r l failure).1
    leaves :
        (failure : Option Exception)
        → Step id r l
            (exit usage billing config r l failure).0
            (exit usage billing config r l failure).1
    others :
        (r' : Repository)
        → (get id r.reservations ≡ none → get id r'.reservations ≡ none)
        → Step id r l r' l

  pub data Steps (id : String) (r : Repository) (l : ReservationLifecycle)
      : Repository → ReservationLifecycle → Type 0 where
    here : Steps id r l r l
    and_then :
        {r' r'' : Repository} {l' l'' : ReservationLifecycle}
        → Steps id r l r' l'
        → Step id r' l' r'' l''
        → Steps id r l r'' l''

  -- A lifecycle of a reservation that is finalized has no task, and its reservation is gone.
  record Inv (x : QuotaReservation) (r : Repository) (l : ReservationLifecycle) : Type 0 where
    for_it : l.reservation ≡ some x
    served : l.has_service ≡ true
    gone : l.finalized ≡ true → get x.reservation_id r.reservations ≡ none
    quiet : l.finalized ≡ true → l.renewal_task ≡ none

  Inv-others :
      (x : QuotaReservation) (r r' : Repository) (l : ReservationLifecycle)
      → (get x.reservation_id r.reservations ≡ none → get x.reservation_id r'.reservations ≡ none)
      → Inv x r l
      → Inv x r' l
  Inv-others x r r' l h i = record {
    for_it = i.for_it;
    served = i.served;
    gone = λ f. h (i.gone f);
    quiet = i.quiet;
  }

  stop-Inv :
      (x : QuotaReservation) (r : Repository) (l : ReservationLifecycle)
      → Inv x r l
      → Inv x r (stop_renewal l)
  unfolding stop_renewal
  stop-Inv x r l i = record {
    for_it = i.for_it;
    served = i.served;
    gone = i.gone;
    quiet = λ f. refl;
  }

  renew_round-Inv :
      (x : QuotaReservation) (r : Repository) (l : ReservationLifecycle) (now : ℕ) (raises : Bool)
      → Inv x r l
      → Inv x
          (renew_round usage billing config r l now raises).0
          (renew_round usage billing config r l now raises).1
  unfolding renew_round set_renewal_failure
  renew_round-Inv x r l now raises i = elim (Bool-cases l.finalized) [
    | inl f ↦ rw (renew_round, i.quiet f) i
    | inr f ↦ record {
      for_it = ground (arith, i.for_it);
      served = ground (arith, i.served);
      gone = λ g. ground (arith, f, g);
      quiet = λ g. ground (arith, f, g);
    }
  ]

  finalize-Inv :
      (call : Repository → String → Repository) (x : QuotaReservation) (r : Repository)
      (l : ReservationLifecycle) (failure : Option Exception)
      → ((s : Repository) → get x.reservation_id (call s x.reservation_id).reservations ≡ none)
      → Inv x r l
      → l.renewal_task ≡ none
      → Inv x
          (finalize usage billing config call r l failure).0
          (finalize usage billing config call r l failure).1
  finalize-Inv call x r l failure frees i idle = record {
    for_it = ground (arith, i.for_it);
    served = ground (arith, i.served);
    gone = λ f. ground (arith, f, i.for_it, i.gone, frees r);
    quiet = λ f. ground (arith, f, i.for_it, i.quiet, idle);
  }

  module _ (on : enabled config ≡ true) where
    settle-frees :
        (r : Repository) (id : String)
        → get id (Service.settle usage billing config r id).reservations ≡ none
    unfolding Service.settle settle_reservation
    settle-frees r id = ground (arith, on, get-remove id id r.reservations, eq_refl id)

    release-frees :
        (r : Repository) (id : String)
        → get id (Service.release usage billing config r id).reservations ≡ none
    unfolding Service.release release_reservation
    release-frees r id = ground (arith, on, get-remove id id r.reservations, eq_refl id)

    settle-Inv :
        (x : QuotaReservation) (r : Repository) (l : ReservationLifecycle)
        (failure : Option Exception)
        → Inv x r l
        → Inv x
            (settle usage billing config r l failure).0
            (settle usage billing config r l failure).1
    unfolding settle stop_renewal
    settle-Inv x r l failure i =
        finalize-Inv (Service.settle usage billing config) x r (stop_renewal l) failure
          (λ s. settle-frees s x.reservation_id) (stop-Inv x r l i) refl

    release-Inv :
        (x : QuotaReservation) (r : Repository) (l : ReservationLifecycle)
        (failure : Option Exception)
        → Inv x r l
        → Inv x
            (release usage billing config r l failure).0
            (release usage billing config r l failure).1
    unfolding release stop_renewal
    release-Inv x r l failure i =
        finalize-Inv (Service.release usage billing config) x r (stop_renewal l) failure
          (λ s. release-frees s x.reservation_id) (stop-Inv x r l i) refl

    exit-Inv :
        (x : QuotaReservation) (r : Repository) (l : ReservationLifecycle)
        (failure : Option Exception)
        → Inv x r l
        → Inv x (exit usage billing config r l failure).0 (exit usage billing config r l failure).1
    unfolding exit
    exit-Inv x r l failure i =
        if_both (λ (z : Left). Inv x z.0 z.1) (not (stop_renewal l).finalized) _ _
          (release-Inv x r (stop_renewal l) failure (stop-Inv x r l i)) (stop-Inv x r l i)

    Step-Inv :
        (x : QuotaReservation) (r : Repository) (l : ReservationLifecycle) (r' : Repository)
        (l' : ReservationLifecycle)
        → Step x.reservation_id r l r' l'
        → Inv x r l
        → Inv x r' l'
    Step-Inv x r l r' l' (renews now raises) i = renew_round-Inv x r l now raises i
    Step-Inv x r l r' l' (settles failure) i = settle-Inv x r l failure i
    Step-Inv x r l r' l' (releases failure) i = release-Inv x r l failure i
    Step-Inv x r l r' l' (leaves failure) i = exit-Inv x r l failure i
    Step-Inv x r l r' l' (others _ h) i = Inv-others x r r' l h i

    -- What is finalized stays so.
    Step-finalized :
        (id : String) (r : Repository) (l : ReservationLifecycle) (r' : Repository)
        (l' : ReservationLifecycle)
        → Step id r l r' l'
        → l.finalized ≡ true
        → l'.finalized ≡ true
    unfolding renew_round set_renewal_failure settle release exit stop_renewal
    Step-finalized id r l r' l' (renews now raises) f = ground (arith, f)
    Step-finalized id r l r' l' (settles failure) f = ground (arith, f)
    Step-finalized id r l r' l' (releases failure) f = ground (arith, f)
    Step-finalized id r l r' l' (leaves failure) f = ground (arith, f)
    Step-finalized id r l r' l' (others _ h) f = f

    Steps-Inv :
        (x : QuotaReservation) (r : Repository) (l : ReservationLifecycle) (r' : Repository)
        (l' : ReservationLifecycle)
        → Steps x.reservation_id r l r' l'
        → Inv x r l
        → Inv x r' l' × (l.finalized ≡ true → l'.finalized ≡ true)
    Steps-Inv x r l r' l' here i = (i, λ f. f)
    Steps-Inv x r l r'' l'' (and_then {r' = r'} {l' = l'} p q) i =
        let (j, k) = Steps-Inv x r l r' l' p i in
        (Step-Inv x r' l' r'' l'' q j, λ f. Step-finalized x.reservation_id r' l' r'' l'' q (k f))

    exit-finalized :
        (x : QuotaReservation) (r : Repository) (l : ReservationLifecycle)
        → Inv x r l
        → (exit usage billing config r l none).1.finalized ≡ true
    unfolding exit release stop_renewal
    exit-finalized x r l i = ground (arith, i.for_it, i.served)

entered-Inv :
    (usage : Readings) (billing : Option Billing.Repository) (config : QuotaConfig)
    (x : QuotaReservation) (r : Repository)
    → Inv usage billing config x r (enter (new (some x) true))
unfolding enter new
entered-Inv usage billing config x r = record {
  for_it = refl;
  served = refl;
  gone = λ f. cc;
  quiet = λ f. cc;
}

-- A reservation that has been entered, then renewed, settled or released in any order while other
-- requests go on, and then left without a failing call, is no longer in the repository, whatever
-- happens afterwards: no renewal brings it back, and no renewal task is left.
pub left_and_gone :
    (usage : Readings) (billing : Option Billing.Repository) (config : QuotaConfig)
    (x : QuotaReservation) (r r1 r2 : Repository) (l1 l2 : ReservationLifecycle)
    → enabled config ≡ true
    → Steps usage billing config x.reservation_id r (enter (new (some x) true)) r1 l1
    → Steps usage billing config x.reservation_id
        (exit usage billing config r1 l1 none).0
        (exit usage billing config r1 l1 none).1
        r2
        l2
    → (get x.reservation_id r2.reservations ≡ none) × (l2.renewal_task ≡ none)
left_and_gone usage billing config x r r1 r2 l1 l2 on p q =
    let (i, _) =
      Steps-Inv usage billing config on x r (enter (new (some x) true)) r1 l1 p
        (entered-Inv usage billing config x r) in
    let (j, k) =
      Steps-Inv usage billing config on x (exit usage billing config r1 l1 none).0
        (exit usage billing config r1 l1 none).1 r2 l2 q
        (exit-Inv usage billing config on x r1 l1 none i) in
    let f = k (exit-finalized usage billing config on x r1 l1 i) in (j.gone f, j.quiet f)
