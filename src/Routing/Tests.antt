-- ===== src/Routing/Tests.antt =====
-- The theorems of lab/routing.py at concrete inputs.
use latent_compass.Prelude.{
  ◌+◌, ◌≤◌, ◌≡◌, ◌≢◌, ◌↔◌, ◌⊎◌, refl, true, false, none, some, [], ◌∷◌, arith, ok, err, Listed,
}
use latent_compass.Contracts.{Seal, codex, same_family, lab_routing_violation, replayed_reservation}
use latent_compass.Routing.Request.{
  RouteRequest, tool, same_kind, CapabilityObservation, HostCapabilitySnapshot, revalidated_request,
  revalidated_snapshot,
}
use latent_compass.Routing.Decision.{RouteBody, RouteDecision, advice, escalate, validated_decision}
use latent_compass.Routing.Evaluate.{evaluate_route}
use latent_compass.Routing.Evaluate.Verdicts.{Prerequisites, Available}
use latent_compass.Routing.Evaluate.Outcome.{
  Describes, the_decision, evaluate_route_returns, evaluate_route-advice_iff,
  evaluate_route-escalate_iff,
}
use latent_compass.Routing.Pool.{
  BudgetReservation, BudgetSettlement, BudgetPoolState, succeeded, find_reservation,
  pool_is_coherent, outstanding, spent, reserve_budget, settle_budget, charge_for, with_reservation,
  with_charge,
}
use latent_compass.Routing.Pool.Reserve.{reserve_budget_fits, reserve_budget_accepts}
use latent_compass.Routing.Pool.Settle.{
  settle_budget_charges, settle_budget_accepts, settle_budget_once, reserve_budget_once,
}
use latent_compass.Routing.Pool.History.{
  fresh_pool, overrun, Run, start, reserved, settled, Run_bounded,
}

abbrev request : RouteRequest
request = record {
  contract_version = "1.0.0";
  request_digest = 11;
  model_digest = 12;
  state_digest = 13;
  source_digest = 14;
  host_id = 1;
  agent_family = codex;
  scope = 2;
  candidate_capability_id = 3;
  candidate_kind = tool;
  requested_at = 100;
  expiry = 200;
  cost_ceiling = 5;
  remaining_budget = 9;
  advisor_present = true;
  kill_switch_engaged = false;
  review_required = true;
  review_satisfied = true;
  semctx_proof_required = false;
  semctx_proof_satisfied = false;
  explicit_missing_authority = false;
  explicit_missing_precondition = false;
  fallback_observation_id = none;
}

abbrev capability : CapabilityObservation
capability = record { capability_id = 3; kind = tool; observed_at = 90; expires_at = 300 }

abbrev snapshot : HostCapabilitySnapshot
snapshot = record {
  contract_version = "1.0.0";
  host_id = 1;
  agent_family = codex;
  scope = 2;
  current_source_digest = 14;
  snapshot_taken_at = 95;
  observed_capabilities = capability ∷ [];
}

-- Checksums in the place of the seals.
abbrev seal_request : RouteRequest → Seal
seal_request r = r.request_digest + r.source_digest

abbrev seal_snapshot : HostCapabilitySnapshot → Seal
seal_snapshot s = s.current_source_digest + s.snapshot_taken_at

abbrev seal_body : RouteBody → Seal
seal_body b = b.request_seal + b.snapshot_seal

abbrev advised : RouteDecision
advised = the_decision seal_request seal_snapshot seal_body request snapshot 150

advised-returned :
    evaluate_route seal_request seal_snapshot seal_body request snapshot 150 ≡ ok advised
unfolding evaluate_route same_family same_kind
advised-returned = refl

evaluate_route_returns_example :
    (d : RouteDecision) × (evaluate_route seal_request seal_snapshot seal_body request snapshot 150
      ≡ ok d)
    × (validated_decision seal_body d ≡ ok d)
    × Describes seal_request seal_snapshot seal_body request snapshot 150 d
unfolding revalidated_request revalidated_snapshot
evaluate_route_returns_example =
    evaluate_route_returns seal_request seal_snapshot seal_body request snapshot 150 refl refl

evaluate_route-advice_iff_example : (advised.verdict ≡ advice) ↔ (
    Prerequisites request snapshot 150
    × ((c : CapabilityObservation) × Listed c snapshot.observed_capabilities
        × Available request 150 c))
evaluate_route-advice_iff_example =
    evaluate_route-advice_iff seal_request seal_snapshot seal_body request snapshot 150 advised
      advised-returned

evaluate_route-escalate_iff_example : (advised.verdict ≡ escalate) ↔ (
    (request.kill_switch_engaged ≡ false)
    × (request.advisor_present ≡ true)
    × ((request.explicit_missing_authority ≡ true)
        ⊎ (request.explicit_missing_precondition ≡ true)
        ⊎ ((request.review_required ≡ true) × (request.review_satisfied ≡ false))
        ⊎ ((request.semctx_proof_required ≡ true) × (request.semctx_proof_satisfied ≡ false))))
evaluate_route-escalate_iff_example =
    evaluate_route-escalate_iff seal_request seal_snapshot seal_body request snapshot 150 advised
      advised-returned

abbrev reservation : BudgetReservation
reservation = record {
  reservation_id = 1;
  parent_reservation_id = none;
  requested_maximum = 6;
  reserved_at = 10;
}

abbrev settlement : BudgetSettlement
settlement = record {
  reservation_id = 1;
  outcome = succeeded;
  actual_cost = some 8;
  settled_at = 12;
}

abbrev pool : BudgetPoolState
pool = fresh_pool 10

abbrev reserved_pool : BudgetPoolState
reserved_pool = with_reservation pool reservation

abbrev settled_pool : BudgetPoolState
settled_pool = with_charge reserved_pool (charge_for settlement reservation)

reserve_budget_accepts_example : reserve_budget pool reservation ≡ ok reserved_pool
unfolding pool_is_coherent outstanding spent
reserve_budget_accepts_example =
    reserve_budget_accepts pool reservation refl (omega arith) refl refl (omega arith)

reserved-pool : reserve_budget pool reservation ≡ ok reserved_pool
unfolding pool_is_coherent outstanding spent
reserved-pool = reserve_budget_accepts pool reservation refl (omega arith) refl refl (omega arith)

reserve_budget_fits_example :
    (pool_is_coherent reserved_pool ≡ true)
    × (reserved_pool.total_budget ≡ pool.total_budget)
    × (outstanding reserved_pool ≡ outstanding pool + reservation.requested_maximum)
    × (spent reserved_pool ≡ spent pool)
    × (outstanding reserved_pool + spent reserved_pool ≤ reserved_pool.total_budget)
reserve_budget_fits_example = reserve_budget_fits pool reservation reserved_pool reserved-pool

settle_budget_accepts_example : settle_budget reserved_pool settlement ≡ ok settled_pool
unfolding pool_is_coherent
settle_budget_accepts_example =
    settle_budget_accepts reserved_pool settlement reservation refl (omega arith) refl refl
      (omega arith)

settled-pool : settle_budget reserved_pool settlement ≡ ok settled_pool
unfolding pool_is_coherent
settled-pool =
    settle_budget_accepts reserved_pool settlement reservation refl (omega arith) refl refl
      (omega arith)

settle_budget_charges_example :
    (r : BudgetReservation) × (find_reservation settlement.reservation_id reserved_pool.reservations
      ≡ some r)
    × (pool_is_coherent settled_pool ≡ true)
    × (settled_pool.total_budget ≡ reserved_pool.total_budget)
    × (outstanding settled_pool + r.requested_maximum ≡ outstanding reserved_pool)
    × (spent settled_pool ≡ spent reserved_pool + 8)
settle_budget_charges_example =
    settle_budget_charges reserved_pool settlement settled_pool settled-pool

settle_budget_once_example : settle_budget settled_pool settlement ≢ ok settled_pool
settle_budget_once_example =
    settle_budget_once reserved_pool settlement settlement settled_pool settled_pool settled-pool
      refl

-- The settlement declares 2 more than its maximum.
abbrev history : Run 10 2 settled_pool
unfolding overrun
history = settled (reserved start reservation reserved-pool) settlement settled-pool refl

Run_bounded_example :
    (pool_is_coherent settled_pool ≡ true)
    × (settled_pool.total_budget ≡ 10)
    × (outstanding settled_pool + spent settled_pool ≤ 10 + 2)
Run_bounded_example = Run_bounded 10 2 settled_pool history

reserve_budget_once_example :
    reserve_budget settled_pool reservation ≡ err (lab_routing_violation replayed_reservation)
reserve_budget_once_example =
    reserve_budget_once pool reservation reservation settlement reserved_pool settled_pool
      reserved-pool settled-pool refl
