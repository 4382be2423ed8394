-- ===== src/Routing/Pool/History.antt =====
-- Every history of reservations and settlements on one total budget.
use latent_compass.Prelude.{ℕ, ◌+◌, ◌-◌, ◌≤◌, ◌≡◌, refl, true, none, some, [], arith, ok}
use latent_compass.Routing.Pool.{
  BudgetReservation, BudgetSettlement, BudgetPoolState, find_reservation, pool_is_coherent,
  outstanding, spent, reserve_budget, settle_budget,
}
use latent_compass.Routing.Pool.Reserve.{reserve_budget_fits}
use latent_compass.Routing.Pool.Settle.{settle_budget_charges}

abbrev pub fresh_pool : ℕ → BudgetPoolState
fresh_pool total = record { total_budget = total; reservations = []; charges = [] }

-- By how much a declared cost passes the maximum of its reservation.
unfoldable pub overrun : BudgetPoolState → BudgetSettlement → ℕ
overrun s t = elim (find_reservation t.reservation_id s.reservations) [
  | none ↦ 0
  | some r ↦ elim t.actual_cost [ none ↦ 0 | some cost ↦ cost - r.requested_maximum ]
]

-- The pools that accepted calls lead to from `fresh_pool total`, with the sum of the overruns.
pub data Run (total : ℕ) : ℕ → BudgetPoolState → Type 0 where
  start : Run total 0 (fresh_pool total)
  reserved :
      {n : ℕ} {s s' : BudgetPoolState}
      → Run total n s
      → (r : BudgetReservation) → reserve_budget s r ≡ ok s'
      → Run total n s'
  settled :
      {n m : ℕ} {s s' : BudgetPoolState}
      → Run total n s
      → (t : BudgetSettlement) → settle_budget s t ≡ ok s'
      → m ≡ n + overrun s t
      → Run total m s'

-- The pool is coherent, its total is `total`, and it is overspent by `n` at most.
abbrev pub Bounded : ℕ → ℕ → BudgetPoolState → Type 0
Bounded total n s =
    (pool_is_coherent s ≡ true) × (s.total_budget ≡ total) × (outstanding s + spent s ≤ total + n)

fresh_pool-Bounded : (total : ℕ) → Bounded total 0 (fresh_pool total)
unfolding pool_is_coherent outstanding spent
fresh_pool-Bounded total = (refl, refl, omega arith)

settle_budget-Bounded :
    (total n : ℕ) (s : BudgetPoolState) (t : BudgetSettlement) (s' : BudgetPoolState)
    → Bounded total n s
    → settle_budget s t ≡ ok s'
    → Bounded total (n + overrun s t) s'
unfolding overrun
settle_budget-Bounded total n s t s' b h =
    let (r, found, coherent, kept, out, cost) = settle_budget_charges s t s' h in ground arith

-- After any accepted reservations and settlements on a fresh pool, the pool is coherent, its total
-- is unchanged, and what is outstanding and spent passes the total by no more than the sum of the
-- overruns.
pub Run_bounded :
    (total n : ℕ) (s : BudgetPoolState)
    → Run total n s
    → (pool_is_coherent s ≡ true) × (s.total_budget ≡ total) × (outstanding s + spent s ≤ total + n)
Run_bounded total n s start = fresh_pool-Bounded total
Run_bounded total n s' (reserved {s = s} run r h) =
    let b = Run_bounded total n s run in
    let (coherent, kept, out, same, fits) = reserve_budget_fits s r s' h in ground arith
Run_bounded total m s' (settled {n = n} {s = s} run t h e) =
    rw e (settle_budget-Bounded total n s t s' (Run_bounded total n s run) h)
