-- ===== src/Routing/Evaluate/Chain.antt =====
-- src/latent_compass/lab/routing.py: the chain of tests in `evaluate_route`, in its order.
use latent_compass.Prelude.{not, ◌&&◌, ◌||◌, Option, none, some, ltb, ◌==◌, if◌then◌else◌}
use latent_compass.Contracts.{Identifier, Timestamp, same_family}
use latent_compass.Routing.Request.{
  RouteRequest, CapabilityObservation, HostCapabilitySnapshot, find_capability,
}
use latent_compass.Routing.Decision.{
  RouteOutcome, advice, abstain, escalate, AbstainReason, capability_missing, capability_stale,
  capability_uncertain, capability_incompatible, source_conflict, timing_incoherent,
  budget_exhausted, advisor_absent, kill_switch_engaged, EscalateReason, authority_missing,
  precondition_missing, review_required_unsatisfied, semctx_proof_required_unsatisfied,
}

abbrev pub abstain_for : Option Identifier → AbstainReason → RouteOutcome
abstain_for fallback reason = record {
  verdict = abstain;
  abstain_reason = some reason;
  escalate_reason = none;
  matched_capability_id = none;
  matched_kind = none;
  suggested_fallback_observation_id = fallback;
}

abbrev pub escalate_for : EscalateReason → RouteOutcome
escalate_for reason = record {
  verdict = escalate;
  abstain_reason = none;
  escalate_reason = some reason;
  matched_capability_id = none;
  matched_kind = none;
  suggested_fallback_observation_id = none;
}

abbrev pub advise : CapabilityObservation → RouteOutcome
advise c = record {
  verdict = advice;
  abstain_reason = none;
  escalate_reason = none;
  matched_capability_id = some c.capability_id;
  matched_kind = some c.kind;
  suggested_fallback_observation_id = none;
}

-- The tests from `candidate is None` on.
unfoldable pub choose_candidate :
    RouteRequest → Timestamp → Option CapabilityObservation → RouteOutcome
choose_candidate r now none = abstain_for r.fallback_observation_id capability_missing
choose_candidate r now (some c) =
    if ltb now c.observed_at
    then abstain_for r.fallback_observation_id capability_uncertain
    else if ltb c.expires_at now
    then abstain_for r.fallback_observation_id capability_stale
    else if ltb r.remaining_budget r.cost_ceiling
    then abstain_for r.fallback_observation_id budget_exhausted
    else advise c

-- The tests that compare the request with the snapshot and the clock.
unfoldable pub choose_matching : RouteRequest → HostCapabilitySnapshot → Timestamp → RouteOutcome
unfolding choose_candidate find_capability
choose_matching r s now =
    if not (r.host_id == s.host_id)
      || not (same_family r.agent_family s.agent_family)
      || not (r.scope == s.scope)
    then abstain_for r.fallback_observation_id capability_incompatible
    else if not (r.source_digest == s.current_source_digest)
    then abstain_for r.fallback_observation_id source_conflict
    else if ltb now s.snapshot_taken_at
    then abstain_for r.fallback_observation_id capability_uncertain
    else if ltb r.expiry now || ltb now r.requested_at
    then abstain_for r.fallback_observation_id timing_incoherent
    else choose_candidate r now (find_capability s r.candidate_capability_id r.candidate_kind)

unfoldable pub choose : RouteRequest → HostCapabilitySnapshot → Timestamp → RouteOutcome
unfolding choose_matching
choose r s now =
    if r.kill_switch_engaged
    then abstain_for r.fallback_observation_id kill_switch_engaged
    else if not r.advisor_present
    then abstain_for r.fallback_observation_id advisor_absent
    else if r.explicit_missing_authority
    then escalate_for authority_missing
    else if r.explicit_missing_precondition
    then escalate_for precondition_missing
    else if r.review_required && not r.review_satisfied
    then escalate_for review_required_unsatisfied
    else if r.semctx_proof_required && not r.semctx_proof_satisfied
    then escalate_for semctx_proof_required_unsatisfied
    else choose_matching r s now
