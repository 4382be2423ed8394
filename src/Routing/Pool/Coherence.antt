-- ===== src/Routing/Pool/Coherence.antt =====
-- A coherent pool stays coherent under an appended reservation and an appended charge.
use mathlib.Core.List.{map-append}
use latent_compass.Prelude.{
  ◌≤◌, ◌<◌, ◌≡◌, ◌↔◌, true, false, List, [], ◌∷◌, ◌++◌, arith, ◌==◌, contains, distinct, all,
  length, contains-append, all-append, length-append, Option-cases, inl, inr, all_mono, find-append,
  distinct-append,
}
use latent_compass.Contracts.{Identifier}
use latent_compass.Routing.Pool.{
  BudgetReservation, BudgetChargeRecord, BudgetPoolState, reservation_ids, charge_ids,
  find_reservation, parent_is_coherent, charge_is_coherent, pool_is_coherent, with_reservation,
  with_charge,
}

module _ (rs : List BudgetReservation) (r : BudgetReservation) where
  parent-append :
      (x : BudgetReservation)
      → parent_is_coherent rs x ≡ true
      → parent_is_coherent (rs ++ r ∷ []) x ≡ true
  parent-append x h = elim (Option-cases x.parent_reservation_id) [
    | inl e ↦ ground arith
    | inr (p, e) ↦ elim (Option-cases (find_reservation p rs)) [
      | inl unknown ↦ ground arith
      | inr (q, f) ↦
          ground
            (arith, find-append (λ (y : BudgetReservation). y.reservation_id == p) rs (r ∷ []) q f)
    ]
  ]

  charge-append :
      (c : BudgetChargeRecord)
      → charge_is_coherent rs c ≡ true
      → charge_is_coherent (rs ++ r ∷ []) c ≡ true
  charge-append c h = elim (Option-cases (find_reservation c.reservation_id rs)) [
    | inl unknown ↦ ground arith
    | inr (q, f) ↦ ground (
      arith,
      find-append (λ (y : BudgetReservation). y.reservation_id == c.reservation_id) rs (r ∷ []) q f,
    )
  ]

  known-append :
      (i : Identifier)
      → contains i (reservation_ids rs) ≡ true
      → contains i (reservation_ids (rs ++ r ∷ [])) ≡ true
  known-append i h =
      rw map-append (ground (arith, contains-append i (reservation_ids rs) (r.reservation_id ∷ [])))

-- The conjuncts of `_coherent_pool`, one by one.
pub record Coherent (s : BudgetPoolState) : Type 0 where
  pub few_reservations : length s.reservations ≤ 4096
  pub few_charges : length s.charges ≤ 4096
  pub distinct_reservations : distinct (reservation_ids s.reservations) ≡ true
  pub distinct_charges : distinct (charge_ids s.charges) ≡ true
  pub charges_known :
      all (λ i. contains i (reservation_ids s.reservations)) (charge_ids s.charges) ≡ true
  pub parents : all (parent_is_coherent s.reservations) s.reservations ≡ true
  pub charged : all (charge_is_coherent s.reservations) s.charges ≡ true

pub Coherent-iff : (s : BudgetPoolState) → (pool_is_coherent s ≡ true) ↔ Coherent s
unfolding pool_is_coherent
Coherent-iff s = (λ h. ground arith, λ c. ground arith)

pub with_reservation-coherent :
    (s : BudgetPoolState) (r : BudgetReservation)
    → pool_is_coherent s ≡ true
    → length s.reservations < 4096
    → contains r.reservation_id (reservation_ids s.reservations) ≡ false
    → parent_is_coherent s.reservations r ≡ true
    → pool_is_coherent (with_reservation s r) ≡ true
with_reservation-coherent s r h room fresh parent =
    let c = (Coherent-iff s).0 h in
    let rs = s.reservations in
    (Coherent-iff (with_reservation s r)).1 (record {
      few_reservations = omega (arith, length-append rs (r ∷ []));
      few_charges = c.few_charges;
      distinct_reservations =
          rw map-append
            (distinct-append (reservation_ids rs) r.reservation_id c.distinct_reservations fresh);
      distinct_charges = c.distinct_charges;
      charges_known =
          all_mono (λ i. contains i (reservation_ids rs))
            (λ i. contains i (reservation_ids (rs ++ r ∷ []))) (charge_ids s.charges)
            (known-append rs r) c.charges_known;
      parents = rw all-append (
          ground (
            arith,
            parent-append rs r r parent,
            all_mono (parent_is_coherent rs) (parent_is_coherent (rs ++ r ∷ [])) rs
                (parent-append rs r) c.parents,
          ));
      charged =
          all_mono (charge_is_coherent rs) (charge_is_coherent (rs ++ r ∷ [])) s.charges
            (charge-append rs r) c.charged;
    })

pub with_charge-coherent :
    (s : BudgetPoolState) (c : BudgetChargeRecord)
    → pool_is_coherent s ≡ true
    → length s.charges < 4096
    → contains c.reservation_id (charge_ids s.charges) ≡ false
    → contains c.reservation_id (reservation_ids s.reservations) ≡ true
    → charge_is_coherent s.reservations c ≡ true
    → pool_is_coherent (with_charge s c) ≡ true
with_charge-coherent s c h room fresh known coherent =
    let p = (Coherent-iff s).0 h in
    let cs = s.charges in
    (Coherent-iff (with_charge s c)).1 (record {
      few_reservations = p.few_reservations;
      few_charges = omega (arith, length-append cs (c ∷ []));
      distinct_reservations = p.distinct_reservations;
      distinct_charges =
          rw map-append (distinct-append (charge_ids cs) c.reservation_id p.distinct_charges fresh);
      charges_known = rw map-append (rw all-append (ground (arith, p.charges_known)));
      parents = p.parents;
      charged = rw all-append (ground (arith, p.charged));
    })
