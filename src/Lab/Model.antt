-- ===== src/Lab/Model.antt =====
-- src/latent_compass/lab/model.py and the model bounds of lab/contracts.py.
use latent_compass.Prelude.{
  ℕ, String, Bool, false, not, ◌&&◌, Option, none, some, List, [], ◌∷◌, map, Result, ok, ◌>>◌,
  raise_if, leb, ◌==◌, contains, distinct, all, find, length,
}
use latent_compass.Contracts.{Identifier, Exception, lab_contract_violation, check_contract_version}
use latent_compass.Lab.Dict.{Dict, keys}

abbrev pub supported_lab_versions : List String
supported_lab_versions = "1.0.0" ∷ []

abbrev pub max_worlds : ℕ
max_worlds = 64

abbrev pub max_decisions : ℕ
max_decisions = 32

abbrev pub max_probes : ℕ
max_probes = 32

abbrev pub max_outcomes_per_probe : ℕ
max_outcomes_per_probe = 16

abbrev pub max_required_evidence_per_decision : ℕ
max_required_evidence_per_decision = 8

-- The bound of a prior weight, a loss and the cost of a probe.
abbrev pub max_amount : ℕ
max_amount = 1000000000

pub record WorldPrior : Type 0 where
  pub id : Identifier
  pub weight : ℕ

pub record Probe : Type 0 where
  pub id : Identifier
  pub cost : ℕ
  pub outcome_space : List Identifier
  pub outcomes : Dict Identifier

pub record EvidenceRequirement : Type 0 where
  pub probe_id : Identifier
  pub outcome_id : Identifier

pub record Decision : Type 0 where
  pub id : Identifier
  pub losses : Dict ℕ
  pub required_evidence : List EvidenceRequirement

pub record DiagnosisModel : Type 0 where
  pub contract_version : String
  pub model_id : Identifier
  pub worlds : List WorldPrior
  pub probes : List Probe
  pub decisions : List Decision
  pub abstain_decision_id : Identifier

-- Bounds on a length, both included.
abbrev sized {ℓ} : {A : Type ℓ} → ℕ → ℕ → List A → Bool
sized low high xs = leb low (length xs) && leb (length xs) high

-- Equal as sets.
abbrev same_ids : List Identifier → List Identifier → Bool
same_ids xs ys = all (λ x. contains x ys) xs && all (λ y. contains y xs) ys

-- The field constraints of `Probe`, and `_outcome_space_is_closed_and_declared`. That a dict has
-- each key once is the first test.
unfoldable pub probe_is_coherent : Probe → Bool
probe_is_coherent p =
    distinct (keys p.outcomes)
    && leb p.cost max_amount
    && sized 1 max_outcomes_per_probe p.outcome_space
    && distinct p.outcome_space
    && all (λ o. contains o p.outcome_space) (map (λ e. e.1) p.outcomes)

-- The field constraints of `Decision`, and `_losses_are_bounded`.
unfoldable pub decision_is_coherent : Decision → Bool
decision_is_coherent d =
    distinct (keys d.losses)
    && sized 0 max_required_evidence_per_decision d.required_evidence
    && all (λ e. leb e.1 max_amount) d.losses
    && distinct (map (λ (e : EvidenceRequirement). e.probe_id) d.required_evidence)

abbrev pub world_ids : DiagnosisModel → List Identifier
world_ids m = map (λ w. w.id) m.worlds

unfoldable pub probe_by_id : DiagnosisModel → Identifier → Option Probe
probe_by_id m i = find (λ p. p.id == i) m.probes

unfoldable pub decision_by_id : DiagnosisModel → Identifier → Option Decision
decision_by_id m i = find (λ d. d.id == i) m.decisions

-- A requirement names a declared probe and one of its outcomes.
unfoldable pub requirement_is_declared : DiagnosisModel → EvidenceRequirement → Bool
unfolding probe_by_id
requirement_is_declared m r = elim (probe_by_id m r.probe_id) [
  | none ↦ false
  | some p ↦ contains r.outcome_id p.outcome_space
]

-- The loss table covers exactly the worlds, and every requirement is declared.
unfoldable pub decision_fits : DiagnosisModel → Decision → Bool
unfolding decision_is_coherent requirement_is_declared
decision_fits m d =
    decision_is_coherent d
    && same_ids (keys d.losses) (world_ids m)
    && all (requirement_is_declared m) d.required_evidence

unfoldable pub probe_fits : DiagnosisModel → Probe → Bool
unfolding probe_is_coherent
probe_fits m p = probe_is_coherent p && same_ids (keys p.outcomes) (world_ids m)

-- The abstain decision is declared and asks for no evidence.
unfoldable pub abstains : DiagnosisModel → Bool
unfolding decision_by_id
abstains m = elim (decision_by_id m m.abstain_decision_id) [
  | none ↦ false
  | some d ↦ sized 0 0 d.required_evidence
]

-- The field constraints and `_model_is_closed_and_coherent`.
unfoldable pub model_is_coherent : DiagnosisModel → Bool
model_is_coherent m =
    sized 1 max_worlds m.worlds
    && sized 0 max_probes m.probes
    && sized 1 max_decisions m.decisions
    && all (λ w. leb 1 w.weight && leb w.weight max_amount) m.worlds
    && distinct (world_ids m)
    && distinct (map (λ (p : Probe). p.id) m.probes)
    && all (probe_fits m) m.probes
    && distinct (map (λ (d : Decision). d.id) m.decisions)
    && all (decision_fits m) m.decisions
    && abstains m

unfoldable pub load_model : DiagnosisModel → Result Exception DiagnosisModel
load_model m = do
  check_contract_version m.contract_version supported_lab_versions
  raise_if (not (model_is_coherent m)) lab_contract_violation
  ok m
