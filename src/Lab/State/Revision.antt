-- ===== src/Lab/State/Revision.antt =====
-- src/latent_compass/lab/state.py: the records, their validators and their equality.
use latent_compass.Prelude.{
  ℕ, ◌≤◌, zero, suc, ◌≡◌, refl, String, Bool, true, false, not, ◌&&◌, Option, none, some, List, [],
  ◌∷◌, map, arith, Result, ok, ◌>>◌, raise_if, leb, str_eq, ◌==◌, distinct, all, length,
}
use latent_compass.Contracts.{
  Identifier, Seal, Timestamp, AgentFamily, same_family, Exception, lab_contract_violation,
  check_contract_version,
}
use latent_compass.Lab.Dict.{Dict, keys, dict_eq}
use latent_compass.Lab.Model.{EvidenceRequirement, supported_lab_versions, max_worlds, max_probes}

abbrev pub max_state_revision : ℕ
max_state_revision = max_probes

pub record LabBinding : Type 0 where
  pub host_id : Identifier
  pub agent_family : AgentFamily
  pub source_scope_digest : Seal

pub record ObservationEvent : Type 0 where
  pub observation_id : Identifier
  pub probe_id : Identifier
  pub outcome_id : Identifier
  pub observed_at : Timestamp

pub record DiagnosisStateRevision : Type 0 where
  pub contract_version : String
  pub state_id : Identifier
  pub revision : ℕ
  pub model_seal : Seal
  pub binding : LabBinding
  pub prior_state_seal : Option Seal
  pub applied_observation : Option ObservationEvent
  pub observed_pairs : List EvidenceRequirement
  pub posterior_weights : Dict ℕ

abbrev pub acquired_probe_ids : DiagnosisStateRevision → List Identifier
acquired_probe_ids s = map (λ (p : EvidenceRequirement). p.probe_id) s.observed_pairs

abbrev absent {ℓ} : {A : Type ℓ} → Option A → Bool
absent none = true
absent (some _) = false

abbrev no_items {ℓ} : {A : Type ℓ} → List A → Bool
no_items [] = true
no_items (_ ∷ _) = false

-- The last pair is that of the observation.
pub ends_with : List EvidenceRequirement → ObservationEvent → Bool
ends_with [] o = false
ends_with (p ∷ []) o = (p.probe_id == o.probe_id) && (p.outcome_id == o.outcome_id)
ends_with (p ∷ q ∷ ps) o = ends_with (q ∷ ps) o

-- What a revision above 0 carries.
pub extends : Option Seal → Option ObservationEvent → List EvidenceRequirement → Bool
unfolding ends_with
extends (some seal) (some o) pairs = ends_with pairs o
extends _ _ pairs = false

pub links : ℕ → Option Seal → Option ObservationEvent → List EvidenceRequirement → Bool
unfolding extends
links zero seal o pairs = absent seal && absent o && no_items pairs
links (suc n) seal o pairs = extends seal o pairs

-- The field constraints and `_state_is_coherent`. That a dict has each key once is the first test.
unfoldable pub state_is_coherent : DiagnosisStateRevision → Bool
unfolding links
state_is_coherent s =
    distinct (keys s.posterior_weights)
    && leb s.revision max_state_revision
    && leb (length s.observed_pairs) max_state_revision
    && (leb 1 (length s.posterior_weights) && leb (length s.posterior_weights) max_worlds)
    && distinct (acquired_probe_ids s)
    && all (λ e. leb 1 e.1) s.posterior_weights
    && links s.revision s.prior_state_seal s.applied_observation s.observed_pairs

unfoldable pub load_state : DiagnosisStateRevision → Result Exception DiagnosisStateRevision
load_state s = do
  check_contract_version s.contract_version supported_lab_versions
  raise_if (not (state_is_coherent s)) lab_contract_violation
  ok s

unfoldable pub same_binding : LabBinding → LabBinding → Bool
unfolding same_family
same_binding a b =
    (a.host_id == b.host_id)
    && same_family a.agent_family b.agent_family
    && (a.source_scope_digest == b.source_scope_digest)

abbrev same_seal : Option Seal → Option Seal → Bool
same_seal none none = true
same_seal (some a) (some b) = a == b
same_seal _ _ = false

abbrev same_observation : Option ObservationEvent → Option ObservationEvent → Bool
same_observation none none = true
same_observation (some a) (some b) =
    (a.observation_id == b.observation_id)
    && (a.probe_id == b.probe_id)
    && (a.outcome_id == b.outcome_id)
    && (a.observed_at == b.observed_at)
same_observation _ _ = false

pub same_pairs : List EvidenceRequirement → List EvidenceRequirement → Bool
same_pairs [] [] = true
same_pairs (p ∷ ps) (q ∷ qs) =
    (p.probe_id == q.probe_id) && (p.outcome_id == q.outcome_id) && same_pairs ps qs
same_pairs _ _ = false

-- Equality of the canonical payloads.
unfoldable pub same_state : DiagnosisStateRevision → DiagnosisStateRevision → Bool
unfolding same_pairs
same_state a b =
    str_eq a.contract_version b.contract_version
    && (a.state_id == b.state_id)
    && (a.revision == b.revision)
    && (a.model_seal == b.model_seal)
    && same_binding a.binding b.binding
    && same_seal a.prior_state_seal b.prior_state_seal
    && same_observation a.applied_observation b.applied_observation
    && same_pairs a.observed_pairs b.observed_pairs
    && dict_eq a.posterior_weights b.posterior_weights

pub same_binding_refl : (b : LabBinding) → same_binding b b ≡ true
unfolding same_binding
same_binding_refl b = ground arith

pub same_pairs_refl : (ps : List EvidenceRequirement) → same_pairs ps ps ≡ true
unfolding same_pairs
same_pairs_refl [] = refl
same_pairs_refl (p ∷ ps) = ground (arith, same_pairs_refl ps)

-- The parts of coherence that the proofs use.
pub state_is_coherent-parts :
    (s : DiagnosisStateRevision)
    → state_is_coherent s ≡ true
    → (distinct (keys s.posterior_weights) ≡ true) × (s.revision ≤ max_state_revision)
unfolding state_is_coherent
state_is_coherent-parts s h = ground arith

pub same_pairs-eq : (ps qs : List EvidenceRequirement) → same_pairs ps qs ≡ true → ps ≡ qs
unfolding same_pairs
same_pairs-eq [] [] h = refl
same_pairs-eq [] (q ∷ qs) h = cc
same_pairs-eq (p ∷ ps) [] h = cc
same_pairs-eq (p ∷ ps) (q ∷ qs) h = ground (arith, same_pairs-eq ps qs)

-- What equality of payloads says of the pairs and the posterior.
pub same_state-parts :
    (a b : DiagnosisStateRevision)
    → same_state a b ≡ true
    → (a.observed_pairs ≡ b.observed_pairs)
      × (dict_eq a.posterior_weights b.posterior_weights ≡ true)
unfolding same_state
same_state-parts a b h = ground (arith, same_pairs-eq a.observed_pairs b.observed_pairs)
