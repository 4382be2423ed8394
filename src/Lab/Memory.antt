-- ===== src/Lab/Memory.antt =====
-- src/latent_compass/lab/memory.py: the events of a justification memory and their validators.
-- A version field holds 5 to 20 characters, and a text is a reason or a statement.
pub mod Replay
pub mod Applicability
pub mod Loading
pub mod Sweep
pub mod Grounding
pub mod Future
pub mod Supported
pub mod Premises
pub mod Revoked
mod Tests
use latent_compass.Prelude.{
  ℕ, String, Bool, true, false, not, ◌&&◌, ◌||◌, Option, none, some, List, [], ◌∷◌, Result, ok,
  ◌>>=◌, ◌>>◌, raise_if, leb, ltb, distinct, all, length,
}
use latent_compass.Contracts.{
  Identifier, Seal, Timestamp, Exception, unsupported_contract_version, lab_memory_violation,
  event_invalid, supports as supports_version, check_contract_version,
}
use latent_compass.Lab.State.Revision.{LabBinding}

abbrev pub supported_lab_memory_versions : List String
supported_lab_memory_versions = "1.0.0" ∷ []

abbrev pub max_memory_facts : ℕ
max_memory_facts = 4096

abbrev pub max_memory_claims : ℕ
max_memory_claims = 4096

abbrev pub max_memory_events : ℕ
max_memory_events = 65536

abbrev pub max_premises_per_conjunction : ℕ
max_premises_per_conjunction = 16

abbrev pub max_supports_per_claim : ℕ
max_supports_per_claim = 16

pub data MemoryEventKind : Type 0 where
  fact fact_revocation claim claim_revocation support_revision : MemoryEventKind

pub record FactAssertion : Type 0 where
  pub contract_version : String
  pub fact_id : Identifier
  pub statement : String
  pub provenance : Identifier
  pub scope : Identifier
  pub asserted_at : Timestamp
  pub expires_at : Option Timestamp

pub record FactRevocation : Type 0 where
  pub contract_version : String
  pub fact_id : Identifier
  pub reason : String
  pub revoked_at : Timestamp

pub record SupportConjunction : Type 0 where
  pub premise_ids : List Identifier

pub record ClaimAssertion : Type 0 where
  pub contract_version : String
  pub claim_id : Identifier
  pub statement : String
  pub scope : Identifier
  pub asserted_at : Timestamp
  pub expires_at : Option Timestamp
  pub supports : List SupportConjunction

pub record ClaimRevocation : Type 0 where
  pub contract_version : String
  pub claim_id : Identifier
  pub reason : String
  pub revoked_at : Timestamp

pub record SupportRevision : Type 0 where
  pub contract_version : String
  pub claim_id : Identifier
  pub supports : List SupportConjunction
  pub supersedes_seal : Seal
  pub reason : String
  pub revised_at : Timestamp

pub record MemoryEvent : Type 0 where
  pub contract_version : String
  pub binding : LabBinding
  pub sequence : ℕ
  pub recorded_at : Timestamp
  pub kind : MemoryEventKind
  pub fact : Option FactAssertion
  pub fact_revocation : Option FactRevocation
  pub claim : Option ClaimAssertion
  pub claim_revocation : Option ClaimRevocation
  pub support_revision : Option SupportRevision

abbrev present {ℓ} : {A : Type ℓ} → Option A → Bool
present none = false
present (some _) = true

-- What there is passes the test.
abbrev passes {ℓ} : {A : Type ℓ} → (A → Bool) → Option A → Bool
passes p none = true
passes p (some a) = p a

abbrev pub conjunction_is_coherent : SupportConjunction → Bool
conjunction_is_coherent c =
    leb 1 (length c.premise_ids)
    && leb (length c.premise_ids) max_premises_per_conjunction
    && distinct c.premise_ids

abbrev pub supports_are_coherent : List SupportConjunction → Bool
supports_are_coherent ss =
    leb 1 (length ss) && leb (length ss) max_supports_per_claim && all conjunction_is_coherent ss

-- An expiry falls strictly after the assertion.
abbrev expires_after : Timestamp → Option Timestamp → Bool
expires_after asserted_at none = true
expires_after asserted_at (some e) = ltb asserted_at e

-- `carried == [self.kind]`
abbrev carries_only : MemoryEventKind → MemoryEvent → Bool
carries_only fact e =
    present e.fact
    && not (present e.fact_revocation)
    && not (present e.claim)
    && not (present e.claim_revocation)
    && not (present e.support_revision)
carries_only fact_revocation e =
    not (present e.fact)
    && present e.fact_revocation
    && not (present e.claim)
    && not (present e.claim_revocation)
    && not (present e.support_revision)
carries_only claim e =
    not (present e.fact)
    && not (present e.fact_revocation)
    && present e.claim
    && not (present e.claim_revocation)
    && not (present e.support_revision)
carries_only claim_revocation e =
    not (present e.fact)
    && not (present e.fact_revocation)
    && not (present e.claim)
    && present e.claim_revocation
    && not (present e.support_revision)
carries_only support_revision e =
    not (present e.fact)
    && not (present e.fact_revocation)
    && not (present e.claim)
    && not (present e.claim_revocation)
    && present e.support_revision

abbrev is_supported : String → Bool
is_supported v = supports_version v supported_lab_memory_versions

-- The payloads' versions: a payload whose fields are valid is asked for its version, whatever else
-- is wrong with the event.
unfoldable pub versions_are_supported : MemoryEvent → Bool
versions_are_supported e =
    passes (λ (f : FactAssertion). is_supported f.contract_version) e.fact
    && passes (λ (f : FactRevocation). is_supported f.contract_version) e.fact_revocation
    && passes
        (λ (c : ClaimAssertion).
          is_supported c.contract_version || not (supports_are_coherent c.supports))
        e.claim
    && passes (λ (c : ClaimRevocation). is_supported c.contract_version) e.claim_revocation
    && passes
        (λ (r : SupportRevision).
          is_supported r.contract_version || not (supports_are_coherent r.supports))
        e.support_revision

-- The field constraints and the validators.
unfoldable pub event_is_coherent : MemoryEvent → Bool
event_is_coherent e =
    passes (λ (f : FactAssertion). expires_after f.asserted_at f.expires_at) e.fact
    && passes
        (λ (c : ClaimAssertion).
          supports_are_coherent c.supports && expires_after c.asserted_at c.expires_at)
        e.claim
    && passes (λ (r : SupportRevision). supports_are_coherent r.supports) e.support_revision
    && carries_only e.kind e

unfoldable pub load_memory_event : MemoryEvent → Result Exception MemoryEvent
load_memory_event e = do
  check_contract_version e.contract_version supported_lab_memory_versions
  raise_if (not (versions_are_supported e)) unsupported_contract_version
  raise_if (not (event_is_coherent e)) (lab_memory_violation event_invalid)
  ok e
