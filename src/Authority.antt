-- ===== src/Authority.antt =====
-- src/latent_compass/vocabulary.py and authority.py: actors, their capabilities, the lifecycle of a
-- candidate, its table of transitions and the evidence that a state demands.
pub mod Evidence
pub mod Same
pub mod Transition
pub mod Decides
pub mod Authorized
pub mod Rejection
pub mod Record
pub mod Tests
use latent_compass.Prelude.{
  ℕ, String, Bool, true, false, not, ◌&&◌, Option, none, some, List, [], ◌∷◌, Result, ok, ◌>>◌,
  ◌>>=◌, raise_if, leb, if◌then◌else◌,
}
use latent_compass.Contracts.{Identifier, Exception, contract_violation, check_contract_version}

pub data Actor : Type 0 where
  latent_compass_actor external_judge human_operator observed_agent : Actor

pub data Capability : Type 0 where
  observe advise record_capability authorize execute promote mutate_external_judge : Capability

abbrev pub capability_rank : Capability → ℕ
capability_rank observe = 0
capability_rank advise = 1
capability_rank record_capability = 2
capability_rank authorize = 3
capability_rank execute = 4
capability_rank promote = 5
capability_rank mutate_external_judge = 6

-- `CAPABILITIES`
abbrev pub capabilities : Actor → List Capability
capabilities latent_compass_actor = observe ∷ advise ∷ record_capability ∷ []
capabilities external_judge = observe ∷ authorize ∷ mutate_external_judge ∷ []
capabilities human_operator =
    observe ∷ advise ∷ record_capability ∷ authorize ∷ execute ∷ promote ∷ []
capabilities observed_agent = execute ∷ []

pub data LifecycleState : Type 0 where
  define shadow offline_verified canary_eligible promoted rejected : LifecycleState

abbrev pub state_rank : LifecycleState → ℕ
state_rank define = 0
state_rank shadow = 1
state_rank offline_verified = 2
state_rank canary_eligible = 3
state_rank promoted = 4
state_rank rejected = 5

-- `ALLOWED_TRANSITIONS`
abbrev pub allowed_transitions : LifecycleState → List LifecycleState
allowed_transitions define = shadow ∷ rejected ∷ []
allowed_transitions shadow = offline_verified ∷ rejected ∷ []
allowed_transitions offline_verified = canary_eligible ∷ rejected ∷ []
allowed_transitions canary_eligible = promoted ∷ rejected ∷ []
allowed_transitions promoted = rejected ∷ []
allowed_transitions rejected = []

-- `EXTRA_CAPABILITY`
abbrev pub extra_capability : LifecycleState → Option Capability
extra_capability promoted = some promote
extra_capability _ = none

pub record EvidenceRequirement : Type 0 where
  pub protocol : Bool
  pub measurements : Bool
  pub verdict : Bool
  pub final_holdout_verdict : Bool
  pub holdout_consumption_receipt : Bool
  pub human_acknowledgement : Bool
  pub trusted_external_attestation : Bool

abbrev demands : Bool → Bool → Bool → EvidenceRequirement
demands protocol evidence final = record {
  protocol = protocol;
  measurements = evidence;
  verdict = evidence;
  final_holdout_verdict = final;
  holdout_consumption_receipt = final;
  human_acknowledgement = final;
  trusted_external_attestation = evidence;
}

-- `EVIDENCE_REQUIREMENTS.get(to_state, EvidenceRequirement())`
abbrev pub evidence_requirements : LifecycleState → EvidenceRequirement
evidence_requirements shadow = demands true false false
evidence_requirements offline_verified = demands true true false
evidence_requirements canary_eligible = demands true true true
evidence_requirements promoted = demands true true true
evidence_requirements define = demands false false false
evidence_requirements rejected = demands false false false

pub data AdvisoryKind : Type 0 where
  direction abstain fallback escalate : AdvisoryKind

-- A number of the unit interval is its place in the order of the finite floats.
pub record Advisory : Type 0 where
  pub contract_version : String
  pub kind : AdvisoryKind
  pub direction_id : Option Identifier
  pub confidence : ℕ
  pub uncertainty : ℕ
  pub rationale : String
  pub issued_by : Actor

abbrev is_latent_compass : Actor → Bool
is_latent_compass latent_compass_actor = true
is_latent_compass _ = false

abbrev named : Option Identifier → Bool
named none = false
named (some i) = true

abbrev direction_is_admitted : ℕ → AdvisoryKind → Option Identifier → ℕ → Bool
direction_is_admitted threshold direction i uncertainty = named i && leb uncertainty threshold
direction_is_admitted threshold _ i uncertainty = not (named i)

abbrev pub supported_authority_versions : List String
supported_authority_versions = "1.0.0" ∷ "2.0.0" ∷ []

-- `Advisory._enforce_advisory_invariants`, at the threshold's place in the order.
unfoldable pub validated_advisory : ℕ → Advisory → Result Exception Advisory
validated_advisory threshold a = do
  check_contract_version a.contract_version supported_authority_versions
  raise_if (not (is_latent_compass a.issued_by)) contract_violation
  raise_if (not (direction_is_admitted threshold a.kind a.direction_id a.uncertainty))
      contract_violation
  ok a
