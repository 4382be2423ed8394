-- ===== src/Routing/Decision.antt =====
-- src/latent_compass/lab/routing.py: `RouteDecision`, its validator and `_decision`. The seal of
-- the body is a parameter, since SHA-256 is not the package's code.
use latent_compass.Prelude.{
  String, Bool, true, false, not, ◌&&◌, ◌||◌, Option, none, some, Result, ok, ◌>>◌, raise_if, ◌==◌,
}
use latent_compass.Contracts.{
  Identifier, Seal, AgentFamily, Exception, lab_routing_violation, invalid_contract,
  check_contract_version,
}
use latent_compass.Routing.Request.{CapabilityKind, supported_lab_routing_versions}

pub data RouteVerdict : Type 0 where
  advice abstain escalate : RouteVerdict

pub data AbstainReason : Type 0 where
  capability_missing capability_stale capability_uncertain capability_incompatible source_conflict
        timing_incoherent budget_exhausted advisor_absent kill_switch_engaged :
      AbstainReason

pub data EscalateReason : Type 0 where
  authority_missing precondition_missing review_required_unsatisfied
        semctx_proof_required_unsatisfied :
      EscalateReason

-- The keyword arguments by which the branches of `evaluate_route` differ.
pub record RouteOutcome : Type 0 where
  pub verdict : RouteVerdict
  pub abstain_reason : Option AbstainReason
  pub escalate_reason : Option EscalateReason
  pub matched_capability_id : Option Identifier
  pub matched_kind : Option CapabilityKind
  pub suggested_fallback_observation_id : Option Identifier

-- Everything that a decision's seal covers.
pub record RouteBody : Type 0 where
  pub contract_version : String
  pub outcome : RouteOutcome
  pub open outcome use *
  pub request_seal : Seal
  pub snapshot_seal : Seal
  pub host_id : Identifier
  pub agent_family : AgentFamily
  pub scope : Identifier
  pub lab_only : Bool
  pub experimental : Bool
  pub empirical_claim : Bool
  pub execution_authority : Bool

pub record RouteDecision : Type 0 where
  pub body : RouteBody
  pub open body use *
  pub decision_seal : Seal

abbrev absent {ℓ} : {A : Type ℓ} → Option A → Bool
absent none = true
absent (some _) = false

abbrev shape_of :
    RouteVerdict
    → Option AbstainReason
    → Option EscalateReason
    → Option Identifier
    → Option CapabilityKind
    → Bool
shape_of advice a e i k = absent a && absent e && not (absent i || absent k)
shape_of abstain a e i k = not (absent a) && (absent e && absent i)
shape_of escalate a e i k = not (absent e) && (absent a && absent i)

-- Which reasons and which match each verdict carries.
abbrev pub outcome_is_coherent : RouteOutcome → Bool
outcome_is_coherent o =
    shape_of o.verdict o.abstain_reason o.escalate_reason o.matched_capability_id o.matched_kind

-- The `Literal` fields.
abbrev pub claims_nothing : RouteBody → Bool
claims_nothing b =
    b.lab_only && b.experimental && not b.empirical_claim && not b.execution_authority

-- The body that `_decision` seals.
abbrev pub route_body :
    Seal → Seal → Identifier → AgentFamily → Identifier → RouteOutcome → RouteBody
route_body request_seal snapshot_seal host_id agent_family scope outcome = record {
  contract_version = "1.0.0";
  outcome = outcome;
  request_seal = request_seal;
  snapshot_seal = snapshot_seal;
  host_id = host_id;
  agent_family = agent_family;
  scope = scope;
  lab_only = true;
  experimental = true;
  empirical_claim = false;
  execution_authority = false;
}

module _ (seal_body : RouteBody → Seal) where
  -- `_coherent_decision`, and the `Literal` fields before it.
  unfoldable pub validated_decision : RouteDecision → Result Exception RouteDecision
  validated_decision d = do
    raise_if (not (claims_nothing d.body)) (lab_routing_violation invalid_contract)
    check_contract_version d.contract_version supported_lab_routing_versions
    raise_if (not (outcome_is_coherent d.outcome)) (lab_routing_violation invalid_contract)
    raise_if (not (seal_body d.body == d.decision_seal)) (lab_routing_violation invalid_contract)
    ok d

  -- `_decision`.
  unfoldable pub decision :
      Seal
      → Seal
      → Identifier
      → AgentFamily
      → Identifier
      → RouteOutcome
      → Result Exception RouteDecision
  unfolding validated_decision
  decision request_seal snapshot_seal host_id agent_family scope outcome =
      let body = route_body request_seal snapshot_seal host_id agent_family scope outcome in
      validated_decision (record { body = body; decision_seal = seal_body body })
