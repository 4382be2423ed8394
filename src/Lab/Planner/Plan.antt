-- ===== src/Lab/Planner/Plan.antt =====
-- src/latent_compass/lab/planner.py: `_plan`, `propose` and `propose_excluding`. A report holds the
-- fractions, not their texts. The seals of a model and of a state are parameters.
use latent_compass.Prelude.{
  ℕ, String, Bool, true, false, not, ◌&&◌, ◌||◌, Option, none, some, List, [], ◌∷◌, map, Result, ok,
  err, ◌>>=◌, ◌>>◌, raise_if, leb, ltb, ◌==◌, contains, distinct, all, length, if◌then◌else◌,
}
use latent_compass.Prelude.Int.{ℤ, pos, negsuc}
use latent_compass.Prelude.Sorting.{sort_by}
use latent_compass.Contracts.{
  Identifier, Seal, Exception, lab_contract_violation, lab_unknown_reference, lab_cross_model_state,
  check_contract_version,
}
use latent_compass.Lab.Dict.{Dict}
use latent_compass.Lab.Model.{
  EvidenceRequirement, Probe, Decision, DiagnosisModel, load_model, supported_lab_versions,
  max_probes,
}
use latent_compass.Lab.State.Revision.{LabBinding, DiagnosisStateRevision, load_state}
use latent_compass.Lab.State.Verify.{trust_state}
use latent_compass.Lab.State.Apply.{check_binding}
use latent_compass.Lab.Planner.{Satisfied, has_pair, acquired, expected_loss, stopping, Answer}
use latent_compass.Lab.Planner.Rational.{Fraction, renders}
use latent_compass.Lab.Planner.Search.{SearchState, search_root}

abbrev pub max_budget : ℕ
max_budget = 1000000000

abbrev pub max_horizon : ℕ
max_horizon = 6

abbrev pub most_expansions : ℕ
most_expansions = 200000

pub record DecisionValuation : Type 0 where
  pub decision_id : Identifier
  pub admissible : Bool
  pub expected_loss : Fraction

pub record ProbeValuation : Type 0 where
  pub probe_id : Identifier
  pub cost : ℕ
  pub affordable : Bool
  pub value : Option Fraction

-- A `PlanReport`, or a `ConstrainedPlanReport` if it names unobtainable probes. The action is to
-- probe if a probe is recommended; the notice and the basis of the exclusion are constant texts.
pub record PlanReport : Type 0 where
  pub contract_version : String
  pub model_seal : Seal
  pub state_seal : Seal
  pub budget : ℕ
  pub horizon : ℕ
  pub max_expansions : ℕ
  pub expansions_used : ℕ
  pub search_exhausted : Bool
  pub exact_for_declared_bounds : Bool
  pub stopping_decision_id : Identifier
  pub stopping_value : Fraction
  pub recommended_probe_id : Option Identifier
  pub plan_value : Fraction
  pub decisions : List DecisionValuation
  pub probes : List ProbeValuation
  pub unobtainable_probe_ids : Option (List Identifier)

-- `_require_exact_int` on an integer; what is no integer is not of the type.
unfoldable pub require_exact_int : ℤ → ℕ → ℕ → Result Exception ℕ
require_exact_int (pos n) minimum maximum = do
  raise_if (not (leb minimum n && leb n maximum)) lab_contract_violation
  ok n
require_exact_int (negsuc n) minimum maximum = err lab_contract_violation

unfoldable pub require_known_probes :
    DiagnosisModel → List Identifier → Result Exception (List Identifier)
require_known_probes m ids = do
  raise_if (not (distinct ids)) lab_contract_violation
  raise_if (not (all (λ i. contains i (map (λ p. Probe.id p) m.probes)) ids)) lab_unknown_reference
  ok ids

abbrev pub excluded_of :
    DiagnosisModel → Option (List Identifier) → Result Exception (List Identifier)
excluded_of m none = ok []
excluded_of m (some ids) = require_known_probes m ids

abbrev pub satisfied_pairs : DiagnosisStateRevision → Satisfied
satisfied_pairs s = map (λ (p : EvidenceRequirement). (p.probe_id, p.outcome_id)) s.observed_pairs

unfoldable pub value_decisions : DiagnosisModel → Dict ℕ → Satisfied → List DecisionValuation
value_decisions m posterior satisfied =
    map
      (λ d. record {
        decision_id = Decision.id d;
        admissible =
            all (λ r. has_pair satisfied (EvidenceRequirement.probe_id r) r.outcome_id)
              d.required_evidence;
        expected_loss = expected_loss posterior d;
      })
      (sort_by (λ d. Decision.id d) m.decisions)

abbrev value_in : Dict Fraction → Identifier → Option Fraction
value_in [] i = none
value_in ((j, v) ∷ d) i = if i == j then some v else value_in d i

unfoldable pub value_probes : DiagnosisModel → Satisfied → ℕ → Dict Fraction → List ProbeValuation
value_probes m satisfied budget values =
    map
      (λ p. record {
        probe_id = Probe.id p;
        cost = p.cost;
        affordable = not (acquired satisfied p.id) && leb p.cost budget;
        value = value_in values p.id;
      })
      (sort_by (λ p. Probe.id p) m.probes)

abbrev renders_all : List DecisionValuation → List ProbeValuation → Bool
renders_all ds ps =
    all (λ d. renders (DecisionValuation.expected_loss d)) ds
    && all (λ p. elim (ProbeValuation.value p) [ none ↦ true | some v ↦ renders v ]) ps

abbrev version_of : Option (List Identifier) → String
version_of none = "1.0.0"
version_of (some ids) = "1.1.0"

abbrev named : Option (List Identifier) → Option (List Identifier)
named none = none
named (some ids) = some (sort_by (λ i. i) ids)

-- What `_plan` reports of a search.
abbrev pub report_of :
    (DiagnosisModel → Seal)
    → (DiagnosisStateRevision → Seal)
    → DiagnosisModel
    → DiagnosisStateRevision
    → ℕ
    → ℕ
    → ℕ
    → Option (List Identifier)
    → (Answer × Dict Fraction) × SearchState
    → PlanReport
report_of model_seal state_seal m s budget horizon max_expansions unobtainable r =
    let satisfied = satisfied_pairs s in
    let stopped = stopping m s.posterior_weights (has_pair satisfied) in
    record {
      contract_version = version_of unobtainable;
      model_seal = model_seal m;
      state_seal = state_seal s;
      budget = budget;
      horizon = horizon;
      max_expansions = max_expansions;
      expansions_used = r.1.counter;
      search_exhausted = r.1.exhausted;
      exact_for_declared_bounds = not r.1.exhausted;
      stopping_decision_id = stopped.0;
      stopping_value = stopped.1;
      recommended_probe_id = r.0.0.1;
      plan_value = r.0.0.0;
      decisions = value_decisions m s.posterior_weights satisfied;
      probes = value_probes m satisfied budget r.0.1;
      unobtainable_probe_ids = named unobtainable;
    }

module _ (model_seal : DiagnosisModel → Seal) (state_seal : DiagnosisStateRevision → Seal) where
  -- From the search on.
  unfoldable pub report_plan :
      DiagnosisModel
      → DiagnosisStateRevision
      → ℕ
      → ℕ
      → ℕ
      → Option (List Identifier)
      → List Identifier
      → Result Exception PlanReport
  unfolding search_root stopping value_decisions value_probes renders
  report_plan m s budget horizon max_expansions unobtainable excluded =
      let r =
        search_root m excluded max_expansions horizon s.posterior_weights (satisfied_pairs s)
          budget in
      let report =
        report_of model_seal state_seal m s budget horizon max_expansions unobtainable r in
      do
        raise_if
            (not (
              renders_all report.decisions report.probes
              && renders report.stopping_value
              && renders report.plan_value))
            lab_contract_violation
        ok report

  -- `_plan`.
  unfoldable pub plan :
      DiagnosisModel
      → DiagnosisStateRevision
      → ℤ
      → ℤ
      → LabBinding
      → ℤ
      → Option (List DiagnosisStateRevision)
      → Option (List Identifier)
      → Result Exception PlanReport
  unfolding report_plan require_exact_int require_known_probes
  plan model state budget horizon expected_binding max_expansions history unobtainable = do
    m ← load_model model
    s ← load_state state
    raise_if (not (s.model_seal == model_seal m)) lab_cross_model_state
    trust_state model_seal state_seal m s history
    check_binding s.binding expected_binding
    b ← require_exact_int budget 0 max_budget
    h ← require_exact_int horizon 0 max_horizon
    n ← require_exact_int max_expansions 1 most_expansions
    x ← excluded_of m unobtainable
    report_plan m s b h n unobtainable x

-- The field constraints of both reports, and what their validators share.
unfoldable pub report_is_coherent : PlanReport → Bool
report_is_coherent r =
    leb r.budget max_budget
    && leb r.horizon max_horizon
    && (leb 1 r.max_expansions && leb r.max_expansions most_expansions)
    && not (r.exact_for_declared_bounds && r.search_exhausted)

-- `list(ids) == sorted(set(ids))`
abbrev increasing : List Identifier → Bool
increasing [] = true
increasing (i ∷ []) = true
increasing (i ∷ j ∷ ids) = ltb i j && increasing (j ∷ ids)

abbrev is_among : List Identifier → Option Identifier → Bool
is_among ids none = false
is_among ids (some i) = contains i ids

abbrev unvalued : Option Fraction → Bool
unvalued none = true
unvalued (some v) = false

-- What the validator of a `ConstrainedPlanReport` asks of its unobtainable probes.
abbrev leaves_out : PlanReport → Option (List Identifier) → Bool
leaves_out r none = false
leaves_out r (some ids) =
    leb (length ids) max_probes
    && increasing ids
    && not (is_among ids r.recommended_probe_id)
    && all (λ i. contains i (map (λ p. ProbeValuation.probe_id p) r.probes)) ids
    && all (λ p. not (contains p.probe_id ids) || unvalued (ProbeValuation.value p)) r.probes

unfoldable pub constrained_is_coherent : PlanReport → Bool
unfolding report_is_coherent
constrained_is_coherent r = report_is_coherent r && leaves_out r r.unobtainable_probe_ids

module _ (model_seal : DiagnosisModel → Seal) (state_seal : DiagnosisStateRevision → Seal) where
  unfoldable pub propose :
      DiagnosisModel
      → DiagnosisStateRevision
      → ℤ
      → ℤ
      → LabBinding
      → ℤ
      → Option (List DiagnosisStateRevision)
      → Result Exception PlanReport
  unfolding plan report_is_coherent
  propose model state budget horizon expected_binding max_expansions history = do
    r ←
        plan model_seal state_seal model state budget horizon expected_binding max_expansions
          history none
    check_contract_version r.contract_version supported_lab_versions
    raise_if (not (report_is_coherent r)) lab_contract_violation
    ok r

  unfoldable pub propose_excluding :
      DiagnosisModel
      → DiagnosisStateRevision
      → List Identifier
      → ℤ
      → ℤ
      → LabBinding
      → ℤ
      → Option (List DiagnosisStateRevision)
      → Result Exception PlanReport
  unfolding plan constrained_is_coherent
  propose_excluding model state unobtainable budget horizon expected_binding max_expansions
        history =
      do
        r ←
            plan model_seal state_seal model state budget horizon expected_binding max_expansions
              history (some unobtainable)
        check_contract_version r.contract_version ("1.1.0" ∷ [])
        raise_if (not (constrained_is_coherent r)) lab_contract_violation
        ok r
