-- ===== src/Routing/Evaluate/Outcome.antt =====
-- What a call of `evaluate_route` returns and raises.
use latent_compass.Prelude.{
  ◌≡◌, refl, ◌↔◌, ◌⊎◌, true, false, arith, ok, ◌>>=◌, >>=-eq-ok, sym, ap, ◌∙◌, Listed,
}
use latent_compass.Contracts.{Seal, Timestamp}
use latent_compass.Routing.Request.{
  RouteRequest, CapabilityObservation, HostCapabilitySnapshot, distinct_keys, revalidated_request,
  revalidated_snapshot,
}
use latent_compass.Routing.Decision.{
  RouteBody, RouteDecision, advice, escalate, outcome_is_coherent, route_body, decision,
  validated_decision,
}
use latent_compass.Routing.Evaluate.{evaluate_route}
use latent_compass.Routing.Evaluate.Chain.{choose, choose_candidate}
use latent_compass.Routing.Evaluate.Verdicts.{
  Prerequisites, Available, choose-advice, advice-choose, escalate_iff,
}

-- Every outcome of the chain has the reasons and the match that its verdict asks for.
choose_coherent :
    (r : RouteRequest) (s : HostCapabilitySnapshot) (now : Timestamp)
    → outcome_is_coherent (choose r s now) ≡ true
unfolding choose choose_candidate
choose_coherent r s now = ground arith

revalidated_request-eq : (r r' : RouteRequest) → revalidated_request r ≡ ok r' → (r' ≡ r)
unfolding revalidated_request
revalidated_request-eq r r' h = ground arith

revalidated_snapshot-eq :
    (s s' : HostCapabilitySnapshot)
    → revalidated_snapshot s ≡ ok s'
    → (s' ≡ s) × (distinct_keys s.observed_capabilities ≡ true)
unfolding revalidated_snapshot
revalidated_snapshot-eq s s' h = ground arith

validated_decision-eq :
    (seal_body : RouteBody → Seal) (d d' : RouteDecision)
    → validated_decision seal_body d ≡ ok d'
    → d' ≡ d
unfolding validated_decision
validated_decision-eq seal_body d d' h = ground arith

module _ (seal_request : RouteRequest → Seal) (seal_snapshot : HostCapabilitySnapshot → Seal)
    (seal_body : RouteBody → Seal) (r : RouteRequest) (s : HostCapabilitySnapshot)
    (now : Timestamp) where
  -- The decision that the validated inputs lead to.
  abbrev pub Describes : RouteDecision → Type 0
  Describes d =
      (d.outcome ≡ choose r s now)
      × (d.request_seal ≡ seal_request r)
      × (d.snapshot_seal ≡ seal_snapshot s)
      × (d.host_id ≡ r.host_id)
      × (d.agent_family ≡ r.agent_family)
      × (d.scope ≡ r.scope)
      × (d.execution_authority ≡ false)

  abbrev pub the_decision : RouteDecision
  the_decision =
      let body =
        route_body (seal_request r) (seal_snapshot s) r.host_id r.agent_family r.scope
          (choose r s now) in
      record { body = body; decision_seal = seal_body body }

  decision_ok : validated_decision seal_body the_decision ≡ ok the_decision
  unfolding validated_decision
  decision_ok = ground (arith, choose_coherent r s now)

  -- Between a valid request and a valid snapshot a decision is always returned: it passes its own
  -- validator, carries the outcome of the chain, the seals of the request and of the snapshot, and
  -- the host, family and scope of the request, and grants no execution authority.
  pub evaluate_route_returns :
      revalidated_request r ≡ ok r
      → revalidated_snapshot s ≡ ok s
      → (d : RouteDecision) × (evaluate_route seal_request seal_snapshot seal_body r s now ≡ ok d)
        × (validated_decision seal_body d ≡ ok d)
        × Describes d
  evaluate_route_returns hr hs = (
    the_decision,
    unfold evaluate_route in rw (hr, hs) (ground (arith, choose_coherent r s now)),
    decision_ok,
    ground arith,
  )

  decided :
      (r' : RouteRequest) (s' : HostCapabilitySnapshot) (d : RouteDecision)
      → r' ≡ r
      → s' ≡ s
      → decision seal_body
          (seal_request r')
          (seal_snapshot s')
          r'.host_id
          r'.agent_family
          r'.scope
          (choose r' s' now)
        ≡ ok d
      → d ≡ the_decision
  decided r' s' d re se h =
      validated_decision-eq seal_body the_decision d (unfold decision in rw (re, se) at h)

  evaluate_route_lem : evaluate_route seal_request seal_snapshot seal_body r s now ≡ (
      revalidated_request r >>= λ r'. revalidated_snapshot s >>= λ s'.
      decision seal_body
        (seal_request r')
        (seal_snapshot s')
        r'.host_id
        r'.agent_family
        r'.scope
        (choose r' s' now))
  unfolding evaluate_route
  evaluate_route_lem = refl

  -- What a call returns is the outcome of the chain on inputs that passed their validators.
  evaluate_route-ok :
      (d : RouteDecision)
      → evaluate_route seal_request seal_snapshot seal_body r s now ≡ ok d
      → (d ≡ the_decision) × (distinct_keys s.observed_capabilities ≡ true)
  evaluate_route-ok d h =
      let (r', er, hr) = >>=-eq-ok (revalidated_request r) _ (sym evaluate_route_lem ∙ h) in
      let (s', es, hs) = >>=-eq-ok (revalidated_snapshot s) _ hr in
      let (se, distinct) = revalidated_snapshot-eq s s' es in
      (decided r' s' d (revalidated_request-eq r r' er) se hs, distinct)

  module _ (d : RouteDecision)
      (returned : evaluate_route seal_request seal_snapshot seal_body r s now ≡ ok d) where
    -- A returned decision advises exactly when every prerequisite holds and the snapshot lists the
    -- requested capability, observed and not expired at the given instant.
    pub evaluate_route-advice_iff : (d.verdict ≡ advice) ↔ (
        Prerequisites r s now
        × ((c : CapabilityObservation) × Listed c s.observed_capabilities × Available r now c))
    evaluate_route-advice_iff =
        let (same, distinct) = evaluate_route-ok d returned in
        (
          λ h. choose-advice r s now (sym (ap (λ (e : RouteDecision). e.verdict) same) ∙ h),
          λ (p, (c, m, a)).
              ap (λ (e : RouteDecision). e.verdict) same ∙ advice-choose r s now distinct p c m a,
        )

    -- A returned decision escalates exactly when the kill switch is off, the advisor is present,
    -- and an authority, a precondition, a required review or a required proof is missing.
    pub evaluate_route-escalate_iff : (d.verdict ≡ escalate) ↔ (
        (r.kill_switch_engaged ≡ false)
        × (r.advisor_present ≡ true)
        × ((r.explicit_missing_authority ≡ true)
            ⊎ (r.explicit_missing_precondition ≡ true)
            ⊎ ((r.review_required ≡ true) × (r.review_satisfied ≡ false))
            ⊎ ((r.semctx_proof_required ≡ true) × (r.semctx_proof_satisfied ≡ false))))
    evaluate_route-escalate_iff =
        let (same, distinct) = evaluate_route-ok d returned in rw same (escalate_iff r s now)
