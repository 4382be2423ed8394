-- ===== src/Routing/Pool.antt =====
-- src/latent_compass/lab/routing.py: `BudgetPoolState`, `reserve_budget` and `settle_budget`.
mod Sums
mod Coherence
pub mod Reserve
pub mod Settle
pub mod History
use latent_compass.Prelude.{
  ℕ, ◌+◌, Bool, true, false, not, ◌&&◌, ◌||◌, Option, none, some, List, [], ◌∷◌, ◌++◌, map, Result,
  ok, err, ◌>>=◌, ◌>>◌, raise_if, leb, ltb, ◌==◌, contains, distinct, all, find, keep, length,
}
use latent_compass.Prelude.Int.{ℤ, pos, sub_ℕ, ltb_ℤ}
use latent_compass.Contracts.{
  Identifier, Timestamp, Exception, lab_routing_violation, invalid_contract, replayed_reservation,
  unknown_parent, overcommit, unknown_reservation, replayed_settlement,
}

pub data SettlementOutcome : Type 0 where
  succeeded failed cancelled : SettlementOutcome

pub data CostBasis : Type 0 where
  actual conservative_maximum : CostBasis

pub record BudgetReservation : Type 0 where
  pub reservation_id : Identifier
  pub parent_reservation_id : Option Identifier
  pub requested_maximum : ℕ
  pub reserved_at : Timestamp

pub record BudgetSettlement : Type 0 where
  pub reservation_id : Identifier
  pub outcome : SettlementOutcome
  pub actual_cost : Option ℕ
  pub settled_at : Timestamp

pub record BudgetChargeRecord : Type 0 where
  pub reservation_id : Identifier
  pub outcome : SettlementOutcome
  pub charged_cost : ℕ
  pub cost_basis : CostBasis
  pub settled_at : Timestamp

pub record BudgetPoolState : Type 0 where
  pub total_budget : ℕ
  pub reservations : List BudgetReservation
  pub charges : List BudgetChargeRecord

abbrev pub reservation_ids : List BudgetReservation → List Identifier
reservation_ids rs = map (λ r. r.reservation_id) rs

abbrev pub charge_ids : List BudgetChargeRecord → List Identifier
charge_ids cs = map (λ c. c.reservation_id) cs

-- `by_id`, and the `next(...)` of `settle_budget`.
abbrev pub find_reservation : Identifier → List BudgetReservation → Option BudgetReservation
find_reservation i rs = find (λ r. r.reservation_id == i) rs

-- A parent is known and was not reserved later.
abbrev pub parent_is_coherent : List BudgetReservation → BudgetReservation → Bool
parent_is_coherent rs r = elim r.parent_reservation_id [
  | none ↦ true
  | some p ↦ elim (find_reservation p rs) [
    | none ↦ false
    | some parent ↦ leb parent.reserved_at r.reserved_at
  ]
]

abbrev pub basis_is_coherent : CostBasis → ℕ → ℕ → Bool
basis_is_coherent actual charged maximum = true
basis_is_coherent conservative_maximum charged maximum = charged == maximum

-- A charge has a reservation, is not older than it, and charges its maximum if it says so.
abbrev pub charge_is_coherent : List BudgetReservation → BudgetChargeRecord → Bool
charge_is_coherent rs c = elim (find_reservation c.reservation_id rs) [
  | none ↦ false
  | some r ↦
      leb r.reserved_at c.settled_at
      && basis_is_coherent c.cost_basis c.charged_cost r.requested_maximum
]

-- The field constraints and `_coherent_pool`.
unfoldable pub pool_is_coherent : BudgetPoolState → Bool
pool_is_coherent s =
    leb (length s.reservations) 4096
    && leb (length s.charges) 4096
    && distinct (reservation_ids s.reservations)
    && distinct (charge_ids s.charges)
    && all (λ i. contains i (reservation_ids s.reservations)) (charge_ids s.charges)
    && all (parent_is_coherent s.reservations) s.reservations
    && all (charge_is_coherent s.reservations) s.charges

unfoldable pub revalidated_pool : BudgetPoolState → Result Exception BudgetPoolState
revalidated_pool s = do
  raise_if (not (pool_is_coherent s)) (lab_routing_violation invalid_contract)
  ok s

pub sum_maxima : List BudgetReservation → ℕ
sum_maxima [] = 0
sum_maxima (r ∷ rs) = r.requested_maximum + sum_maxima rs

pub sum_charged : List BudgetChargeRecord → ℕ
sum_charged [] = 0
sum_charged (c ∷ cs) = c.charged_cost + sum_charged cs

-- The reservations that are not settled.
abbrev pub unsettled : List BudgetChargeRecord → List BudgetReservation → List BudgetReservation
unsettled cs rs = keep (λ r. not (contains r.reservation_id (charge_ids cs))) rs

unfoldable pub outstanding : BudgetPoolState → ℕ
unfolding sum_maxima
outstanding s = sum_maxima (unsettled s.charges s.reservations)

unfoldable pub spent : BudgetPoolState → ℕ
unfolding sum_charged
spent s = sum_charged s.charges

-- Below zero after an overrun.
unfoldable pub available : BudgetPoolState → ℤ
available s = sub_ℕ s.total_budget (outstanding s + spent s)

-- The parent that a nested reservation names is not there.
abbrev pub parent_unknown : List BudgetReservation → Option Identifier → Bool
parent_unknown rs none = false
parent_unknown rs (some p) = not (contains p (reservation_ids rs))

abbrev pub with_reservation : BudgetPoolState → BudgetReservation → BudgetPoolState
with_reservation s r = record s { reservations = s.reservations ++ r ∷ [] }

unfoldable pub reserve_budget :
    BudgetPoolState → BudgetReservation → Result Exception BudgetPoolState
reserve_budget state reservation = do
  s ← revalidated_pool state
  raise_if (contains reservation.reservation_id (reservation_ids s.reservations))
      (lab_routing_violation replayed_reservation)
  raise_if (parent_unknown s.reservations reservation.parent_reservation_id)
      (lab_routing_violation unknown_parent)
  raise_if (ltb_ℤ (available s) (pos reservation.requested_maximum))
      (lab_routing_violation overcommit)
  revalidated_pool (with_reservation s reservation)

-- What a settlement charges, and on what basis: an unknown cost costs the whole maximum.
abbrev pub charge_for : BudgetSettlement → BudgetReservation → BudgetChargeRecord
charge_for t r = record {
  reservation_id = t.reservation_id;
  outcome = t.outcome;
  charged_cost = elim t.actual_cost [ none ↦ r.requested_maximum | some cost ↦ cost ];
  cost_basis = elim t.actual_cost [ none ↦ conservative_maximum | some _ ↦ actual ];
  settled_at = t.settled_at;
}

abbrev pub with_charge : BudgetPoolState → BudgetChargeRecord → BudgetPoolState
with_charge s c = record s { charges = s.charges ++ c ∷ [] }

-- `known_ids` and the lookup of `settle_budget` as one step.
unfoldable pub settle_budget : BudgetPoolState → BudgetSettlement → Result Exception BudgetPoolState
settle_budget state settlement = do
  s ← revalidated_pool state
  elim (find_reservation settlement.reservation_id s.reservations) [
    | none ↦ err (lab_routing_violation unknown_reservation)
    | some reservation ↦ do
      raise_if (contains settlement.reservation_id (charge_ids s.charges))
          (lab_routing_violation replayed_settlement)
      revalidated_pool (with_charge s (charge_for settlement reservation))
  ]
