-- ===== src/Routing/Pool/Settle.antt =====
-- What a successful and a refused `settle_budget` mean, and what stays taken after it.
use latent_compass.Prelude.{
  ◌+◌, ◌≤◌, ◌<◌, ◌≡◌, ◌≢◌, Option-cases, contains-map-find, true, false, none, some, List, [], ◌∷◌,
  ◌++◌, arith, ==_iff, contains, contains-append, length, ok, err, inl, inr,
}
use latent_compass.Routing.Pool.{
  BudgetReservation, BudgetSettlement, BudgetPoolState, charge_ids, find_reservation,
  reservation_ids, pool_is_coherent, revalidated_pool, outstanding, spent, charge_for, with_charge,
  reserve_budget, settle_budget,
}
use latent_compass.Contracts.{lab_routing_violation, replayed_reservation}
use latent_compass.Routing.Pool.Reserve.{reserve_budget-Reserved}
use latent_compass.Routing.Pool.Sums.{charge_ids-append, sum_charged-append, sum_maxima-charge}
use latent_compass.Routing.Pool.Coherence.{Coherent-iff, with_charge-coherent}

-- What the tests of a successful call have established.
pub record Settled (s : BudgetPoolState) (t : BudgetSettlement) (r : BudgetReservation)
    (s' : BudgetPoolState) : Type 0 where
  pub result : s' ≡ with_charge s (charge_for t r)
  pub before : pool_is_coherent s ≡ true
  pub after : pool_is_coherent s' ≡ true
  pub found : find_reservation t.reservation_id s.reservations ≡ some r
  pub unsettled : contains t.reservation_id (charge_ids s.charges) ≡ false

pub settle_budget-Settled :
    (s : BudgetPoolState) (t : BudgetSettlement) (s' : BudgetPoolState)
    → settle_budget s t ≡ ok s'
    → (r : BudgetReservation) × Settled s t r s'
unfolding settle_budget revalidated_pool
settle_budget-Settled s t s' h =
    elim (Option-cases (find_reservation t.reservation_id s.reservations)) [
      | inl e ↦ ground arith
      | inr (r, e) ↦ (r, ground arith)
    ]

-- A successful settlement leaves a coherent pool, takes the reservation's maximum out of what is
-- outstanding, and adds to what is spent the declared cost, or the maximum if none is declared.
pub settle_budget_charges :
    (s : BudgetPoolState) (t : BudgetSettlement) (s' : BudgetPoolState)
    → settle_budget s t ≡ ok s'
    → (r : BudgetReservation) × (find_reservation t.reservation_id s.reservations ≡ some r)
      × (pool_is_coherent s' ≡ true)
      × (s'.total_budget ≡ s.total_budget)
      × (outstanding s' + r.requested_maximum ≡ outstanding s)
      × (spent s'
          ≡ spent s + (elim t.actual_cost [ none ↦ r.requested_maximum | some cost ↦ cost ]))
unfolding outstanding spent
settle_budget_charges s t s' h =
    let (r, p) = settle_budget-Settled s t s' h in
    (
      r,
      p.found,
      p.after,
      ground (arith, p.result),
      ground (
        arith,
        p.result,
        sum_maxima-charge s.charges (charge_for t r) s.reservations r
            ((Coherent-iff s).0 p.before).distinct_reservations p.found p.unsettled,
      ),
      ground (arith, p.result, sum_charged-append s.charges (charge_for t r)),
    )

-- In a coherent pool that is not full, the first settlement of a reservation, not dated before it,
-- is accepted, whatever cost it declares.
pub settle_budget_accepts :
    (s : BudgetPoolState) (t : BudgetSettlement) (r : BudgetReservation)
    → pool_is_coherent s ≡ true
    → length s.charges < 4096
    → find_reservation t.reservation_id s.reservations ≡ some r
    → contains t.reservation_id (charge_ids s.charges) ≡ false
    → r.reserved_at ≤ t.settled_at
    → settle_budget s t ≡ ok (with_charge s (charge_for t r))
unfolding settle_budget revalidated_pool
settle_budget_accepts s t r h room found fresh dated = ground (
  arith,
  with_charge-coherent s (charge_for t r) h room fresh
      (contains-map-find (λ (x : BudgetReservation). x.reservation_id) t.reservation_id
        s.reservations r found)
      (ground arith),
)

-- After a settlement, no further settlement of the same reservation is accepted.
pub settle_budget_once :
    (s : BudgetPoolState) (t u : BudgetSettlement) (s' s'' : BudgetPoolState)
    → settle_budget s t ≡ ok s'
    → u.reservation_id ≡ t.reservation_id
    → settle_budget s' u ≢ ok s''
settle_budget_once s t u s' s'' h same k =
    let (r, p) = settle_budget-Settled s t s' h in
    let (q, again) = settle_budget-Settled s' u s'' k in
    ground (
      arith,
      p.result,
      again.unsettled,
      same,
      charge_ids-append s.charges (charge_for t r),
      contains-append t.reservation_id (charge_ids s.charges) (t.reservation_id ∷ []),
    )

append-contains :
    (rs : List BudgetReservation) (r : BudgetReservation)
    → contains r.reservation_id (reservation_ids (rs ++ r ∷ [])) ≡ true
append-contains [] r = ground (arith, ==_iff r.reservation_id r.reservation_id)
append-contains (x ∷ rs) r = ground (arith, append-contains rs r)

-- The id of an accepted reservation stays taken: after any further accepted settlement, of this
-- reservation or of another, a reservation with that id is refused as a replay.
pub reserve_budget_once :
    (s : BudgetPoolState) (r q : BudgetReservation) (t : BudgetSettlement)
    (s' s'' : BudgetPoolState)
    → reserve_budget s r ≡ ok s'
    → settle_budget s' t ≡ ok s''
    → q.reservation_id ≡ r.reservation_id
    → reserve_budget s'' q ≡ err (lab_routing_violation replayed_reservation)
unfolding reserve_budget revalidated_pool
reserve_budget_once s r q t s' s'' h k same =
    let p = reserve_budget-Reserved s r s' h in
    let (x, c) = settle_budget-Settled s' t s'' k in
    ground (arith, p.result, c.result, c.after, append-contains s.reservations r)
