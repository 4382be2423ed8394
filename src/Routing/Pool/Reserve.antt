-- ===== src/Routing/Pool/Reserve.antt =====
-- What a successful `reserve_budget` means, and which reservations are accepted.
use latent_compass.Prelude.{
  ◌+◌, ◌≤◌, ◌<◌, ◌≡◌, refl, contains-map-find, Option-cases, true, false, List, [], ◌∷◌, arith,
  ==_iff, contains, all, length, ok, inl, inr,
}
use latent_compass.Contracts.{Identifier}
use latent_compass.Routing.Pool.{
  BudgetReservation, BudgetPoolState, reservation_ids, charge_ids, find_reservation,
  parent_is_coherent, pool_is_coherent, revalidated_pool, outstanding, spent, available,
  with_reservation, parent_unknown, reserve_budget,
}
use latent_compass.Routing.Pool.Sums.{sum_maxima-append}
use latent_compass.Routing.Pool.Coherence.{with_reservation-coherent}

-- An id that none of the known ids is, is none of their sublist.
stranger :
    (i : Identifier) (ids js : List Identifier)
    → all (λ j. contains j ids) js ≡ true
    → contains i ids ≡ false
    → contains i js ≡ false
stranger i ids [] h n = refl
stranger i ids (j ∷ js) h n = ground (arith, stranger i ids js, ==_iff i j)

-- What the tests of a successful call have established.
pub record Reserved (s : BudgetPoolState) (r : BudgetReservation) (s' : BudgetPoolState)
    : Type 0 where
  pub result : s' ≡ with_reservation s r
  pub before : pool_is_coherent s ≡ true
  pub after : pool_is_coherent s' ≡ true
  pub fresh : contains r.reservation_id (reservation_ids s.reservations) ≡ false
  pub fits : outstanding s + spent s + r.requested_maximum ≤ s.total_budget

pub reserve_budget-Reserved :
    (s : BudgetPoolState) (r : BudgetReservation) (s' : BudgetPoolState)
    → reserve_budget s r ≡ ok s'
    → Reserved s r s'
unfolding reserve_budget revalidated_pool available
reserve_budget-Reserved s r s' h = ground arith

-- An id that is not reserved is not charged either.
pub fresh_uncharged :
    (s : BudgetPoolState) (i : Identifier)
    → pool_is_coherent s ≡ true
    → contains i (reservation_ids s.reservations) ≡ false
    → contains i (charge_ids s.charges) ≡ false
unfolding pool_is_coherent
fresh_uncharged s i h n =
    ground (arith, stranger i (reservation_ids s.reservations) (charge_ids s.charges))

-- A successful reservation adds its maximum to what is outstanding, charges nothing, and leaves a
-- coherent pool in which what is outstanding and spent fits the total budget.
pub reserve_budget_fits :
    (s : BudgetPoolState) (r : BudgetReservation) (s' : BudgetPoolState)
    → reserve_budget s r ≡ ok s'
    → (pool_is_coherent s' ≡ true)
      × (s'.total_budget ≡ s.total_budget)
      × (outstanding s' ≡ outstanding s + r.requested_maximum)
      × (spent s' ≡ spent s)
      × (outstanding s' + spent s' ≤ s'.total_budget)
unfolding outstanding spent
reserve_budget_fits s r s' h =
    let p = reserve_budget-Reserved s r s' h in
    ground (
      arith,
      p.result,
      p.after,
      p.fits,
      sum_maxima-append s.charges s.reservations r
          (fresh_uncharged s r.reservation_id p.before p.fresh),
    )

parent_known :
    (rs : List BudgetReservation) (r : BudgetReservation)
    → parent_is_coherent rs r ≡ true
    → parent_unknown rs r.parent_reservation_id ≡ false
parent_known rs r h = elim (Option-cases r.parent_reservation_id) [
  | inl e ↦ ground arith
  | inr (p, e) ↦ elim (Option-cases (find_reservation p rs)) [
    | inl f ↦ ground arith
    | inr (q, f) ↦
        ground (arith, contains-map-find (λ (x : BudgetReservation). x.reservation_id) p rs q f)
  ]
]

-- In a coherent pool that is not full, a fresh reservation whose parent, if it names one, was
-- reserved no later, and whose maximum fits what is left of the total, is accepted.
pub reserve_budget_accepts :
    (s : BudgetPoolState) (r : BudgetReservation)
    → pool_is_coherent s ≡ true
    → length s.reservations < 4096
    → contains r.reservation_id (reservation_ids s.reservations) ≡ false
    → parent_is_coherent s.reservations r ≡ true
    → outstanding s + spent s + r.requested_maximum ≤ s.total_budget
    → reserve_budget s r ≡ ok (with_reservation s r)
unfolding reserve_budget revalidated_pool available
reserve_budget_accepts s r h room fresh parent fits =
    ground (
      arith,
      parent_known s.reservations r parent,
      with_reservation-coherent s r h room fresh parent,
    )
