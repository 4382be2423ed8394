-- ===== src/Routing/Pool/Sums.antt =====
-- The sums of the budget pool under an appended reservation and an appended charge.
use latent_compass.Prelude.{
  ◌+◌, ◌≡◌, refl, true, false, some, List, [], ◌∷◌, ◌++◌, arith, contains, distinct,
  contains-append,
}
use latent_compass.Routing.Pool.{
  BudgetReservation, BudgetChargeRecord, reservation_ids, charge_ids, find_reservation, sum_maxima,
  sum_charged, unsettled,
}

pub sum_charged-append :
    (cs : List BudgetChargeRecord) (c : BudgetChargeRecord)
    → sum_charged (cs ++ c ∷ []) ≡ sum_charged cs + c.charged_cost
unfolding sum_charged
sum_charged-append [] c = omega arith
sum_charged-append (x ∷ cs) c = omega (arith, sum_charged-append cs c)

-- A reservation that no charge names is outstanding.
pub sum_maxima-append :
    (cs : List BudgetChargeRecord) (rs : List BudgetReservation) (r : BudgetReservation)
    → contains r.reservation_id (charge_ids cs) ≡ false
    → sum_maxima (unsettled cs (rs ++ r ∷ [])) ≡ sum_maxima (unsettled cs rs) + r.requested_maximum
unfolding sum_maxima
sum_maxima-append cs [] r h = ground arith
sum_maxima-append cs (x ∷ rs) r h = ground (arith, sum_maxima-append cs rs r h)

pub charge_ids-append :
    (cs : List BudgetChargeRecord) (c : BudgetChargeRecord)
    → charge_ids (cs ++ c ∷ []) ≡ charge_ids cs ++ c.reservation_id ∷ []
charge_ids-append [] c = refl
charge_ids-append (x ∷ cs) c = rw (charge_ids-append cs c)

-- A charge for an id that no reservation has settles nothing.
unsettled_stranger :
    (cs : List BudgetChargeRecord) (c : BudgetChargeRecord) (rs : List BudgetReservation)
    → contains c.reservation_id (reservation_ids rs) ≡ false
    → unsettled (cs ++ c ∷ []) rs ≡ unsettled cs rs
unsettled_stranger cs c [] h = refl
unsettled_stranger cs c (x ∷ rs) h = ground (
  arith,
  unsettled_stranger cs c rs,
  charge_ids-append cs c,
  contains-append x.reservation_id (charge_ids cs) (c.reservation_id ∷ []),
)

-- The first charge for a reservation takes its maximum out of what is outstanding.
pub sum_maxima-charge :
    (cs : List BudgetChargeRecord) (c : BudgetChargeRecord) (rs : List BudgetReservation)
    (r : BudgetReservation)
    → distinct (reservation_ids rs) ≡ true
    → find_reservation c.reservation_id rs ≡ some r
    → contains c.reservation_id (charge_ids cs) ≡ false
    → sum_maxima (unsettled (cs ++ c ∷ []) rs) + r.requested_maximum ≡ sum_maxima (unsettled cs rs)
unfolding sum_maxima
sum_maxima-charge cs c [] r d f h = cc
sum_maxima-charge cs c (x ∷ rs) r d f h = ground (
  arith,
  sum_maxima-charge cs c rs r,
  unsettled_stranger cs c rs,
  charge_ids-append cs c,
  contains-append x.reservation_id (charge_ids cs) (c.reservation_id ∷ []),
)
