-- ===== src/Routing/Evaluate.antt =====
-- src/latent_compass/lab/routing.py: `evaluate_route`. The seals of a request, a snapshot and a
-- decision are parameters.
pub mod Chain
pub mod Verdicts
pub mod Outcome
use latent_compass.Prelude.{Result, ◌>>=◌}
use latent_compass.Contracts.{Seal, Timestamp, Exception}
use latent_compass.Routing.Request.{
  RouteRequest, HostCapabilitySnapshot, revalidated_request, revalidated_snapshot,
}
use latent_compass.Routing.Decision.{RouteBody, RouteDecision, decision}
use Chain.{choose}

module _ (seal_request : RouteRequest → Seal) (seal_snapshot : HostCapabilitySnapshot → Seal)
    (seal_body : RouteBody → Seal) where
  unfoldable pub evaluate_route :
      RouteRequest → HostCapabilitySnapshot → Timestamp → Result Exception RouteDecision
  unfolding choose revalidated_request revalidated_snapshot decision
  evaluate_route request snapshot now = do
    r ← revalidated_request request
    s ← revalidated_snapshot snapshot
    decision seal_body (seal_request r) (seal_snapshot s) r.host_id r.agent_family r.scope
        (choose r s now)
