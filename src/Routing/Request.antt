-- ===== src/Routing/Request.antt =====
-- src/latent_compass/lab/routing.py: `RouteRequest`, `CapabilityObservation` and
-- `HostCapabilitySnapshot`, with their validators.
use latent_compass.Prelude.{
  ℕ, String, Bool, true, false, not, ◌&&◌, Option, List, [], ◌∷◌, Result, ok, ◌>>◌, raise_if, leb,
  ltb, ◌==◌, all, find, length,
}
use latent_compass.Contracts.{
  Identifier, Seal, Timestamp, AgentFamily, Exception, lab_routing_violation, invalid_contract,
  check_contract_version,
}

abbrev pub supported_lab_routing_versions : List String
supported_lab_routing_versions = "1.0.0" ∷ []

pub data CapabilityKind : Type 0 where
  observation tool model agent : CapabilityKind

unfoldable pub same_kind : CapabilityKind → CapabilityKind → Bool
same_kind observation observation = true
same_kind tool tool = true
same_kind model model = true
same_kind agent agent = true
same_kind _ _ = false

pub record RouteRequest : Type 0 where
  pub contract_version : String
  pub request_digest : Seal
  pub model_digest : Seal
  pub state_digest : Seal
  pub source_digest : Seal
  pub host_id : Identifier
  pub agent_family : AgentFamily
  pub scope : Identifier
  pub candidate_capability_id : Identifier
  pub candidate_kind : CapabilityKind
  pub requested_at : Timestamp
  pub expiry : Timestamp
  pub cost_ceiling : ℕ
  pub remaining_budget : ℕ
  pub advisor_present : Bool
  pub kill_switch_engaged : Bool
  pub review_required : Bool
  pub review_satisfied : Bool
  pub semctx_proof_required : Bool
  pub semctx_proof_satisfied : Bool
  pub explicit_missing_authority : Bool
  pub explicit_missing_precondition : Bool
  pub fallback_observation_id : Option Identifier

-- `_coherent_request`, as `_revalidated` runs it.
unfoldable pub revalidated_request : RouteRequest → Result Exception RouteRequest
revalidated_request r = do
  check_contract_version r.contract_version supported_lab_routing_versions
  raise_if (ltb r.expiry r.requested_at) (lab_routing_violation invalid_contract)
  ok r

pub record CapabilityObservation : Type 0 where
  pub capability_id : Identifier
  pub kind : CapabilityKind
  pub observed_at : Timestamp
  pub expires_at : Timestamp

pub record HostCapabilitySnapshot : Type 0 where
  pub contract_version : String
  pub host_id : Identifier
  pub agent_family : AgentFamily
  pub scope : Identifier
  pub current_source_digest : Seal
  pub snapshot_taken_at : Timestamp
  pub observed_capabilities : List CapabilityObservation

-- The test of `find`: the same id and the same kind.
abbrev pub offers : Identifier → CapabilityKind → CapabilityObservation → Bool
offers i k c = c.capability_id == i && same_kind c.kind k

-- No id and kind pair appears twice.
abbrev pub distinct_keys : List CapabilityObservation → Bool
distinct_keys [] = true
distinct_keys (c ∷ cs) = all (λ d. not (offers c.capability_id c.kind d)) cs && distinct_keys cs

-- `_coherent_observation`, a field constraint of the snapshot.
abbrev pub observation_is_coherent : CapabilityObservation → Bool
observation_is_coherent c = leb c.observed_at c.expires_at

-- The field constraints come before `_coherent_snapshot`.
unfoldable pub revalidated_snapshot :
    HostCapabilitySnapshot → Result Exception HostCapabilitySnapshot
revalidated_snapshot s = do
  raise_if
      (not (
        leb (length s.observed_capabilities) 256
        && all observation_is_coherent s.observed_capabilities))
      (lab_routing_violation invalid_contract)
  check_contract_version s.contract_version supported_lab_routing_versions
  raise_if (not (distinct_keys s.observed_capabilities)) (lab_routing_violation invalid_contract)
  raise_if (not (all (λ c. leb c.observed_at s.snapshot_taken_at) s.observed_capabilities))
      (lab_routing_violation invalid_contract)
  ok s

unfoldable pub find_capability :
    HostCapabilitySnapshot → Identifier → CapabilityKind → Option CapabilityObservation
find_capability s i k = find (offers i k) s.observed_capabilities
