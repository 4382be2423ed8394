-- ===== src/Lab/Planner/Propose.antt =====
-- What `propose` and `propose_excluding` return.
use latent_compass.Prelude.{
  String, Bool, ◌≡◌, ap, ◌∙◌, true, not, none, some, Option, List, [], ◌∷◌, arith, ok, ◌>>◌,
  raise_if, >>=-eq-ok,
}
use latent_compass.Prelude.Int.{ℤ, pos}
use latent_compass.Contracts.{Identifier, Seal, lab_contract_violation, check_contract_version}
use latent_compass.Lab.Model.{DiagnosisModel, supported_lab_versions}
use latent_compass.Lab.State.Revision.{LabBinding, DiagnosisStateRevision}
use latent_compass.Lab.Planner.{has_pair, acquired, Answer}
use latent_compass.Lab.Planner.Bellman.{bellman}
use latent_compass.Lab.Planner.Plan.{
  PlanReport, satisfied_pairs, plan, report_is_coherent, constrained_is_coherent, propose,
  propose_excluding,
}
use latent_compass.Lab.Planner.Planned.{plan_exact}

passed :
    (v : String) (vs : List String) (b : Bool) (q r : PlanReport)
    → (check_contract_version v vs >> (raise_if (not b) lab_contract_violation >> ok q)) ≡ ok r
    → q ≡ r
passed v vs b q r h = ground arith

module _ (model_seal : DiagnosisModel → Seal) (state_seal : DiagnosisStateRevision → Seal)
    (model : DiagnosisModel) (state : DiagnosisStateRevision) where
  -- A report's value and probe are those of the recursion without memo and bound.
  abbrev pub HasValue : List Identifier → PlanReport → Type 0
  HasValue excluded r =
      ◌≡◌ {A = Answer} (r.plan_value, r.recommended_probe_id)
        (bellman model excluded r.horizon state.posterior_weights (has_pair (satisfied_pairs state))
          (acquired (satisfied_pairs state)) r.budget)

  module _ (budget horizon : ℤ) (expected_binding : LabBinding) (max_expansions : ℤ)
      (history : Option (List DiagnosisStateRevision)) (r : PlanReport) where
    -- If `propose` returns a report that calls itself exact, then its budget and horizon are the
    -- given ones, and its plan value and its probe are those of the recursion without memo and
    -- bound, from the state's posterior and observed pairs.
    pub propose_exact :
        propose model_seal state_seal model state budget horizon expected_binding max_expansions
            history
          ≡ ok r
        → r.exact_for_declared_bounds ≡ true
        → (budget ≡ pos r.budget) × (horizon ≡ pos r.horizon) × HasValue [] r
    unfolding propose
    propose_exact h exact =
        let planned =
          plan model_seal state_seal model state budget horizon expected_binding max_expansions
            history none in
        let (q, eq, rest) = >>=-eq-ok planned _ h in
        let same =
          passed q.contract_version supported_lab_versions (report_is_coherent q) q r rest in
        plan_exact model_seal state_seal model state budget horizon expected_binding max_expansions
          history none r (eq ∙ ap ok same) exact

    -- If `propose_excluding` returns a report that calls itself exact, then its budget and horizon
    -- are the given ones, and its plan value and its probe are those of the recursion that never
    -- tries an unobtainable probe, from the state's posterior and observed pairs.
    pub propose_excluding_exact :
        (unobtainable : List Identifier)
        → propose_excluding model_seal state_seal model state unobtainable budget horizon
            expected_binding max_expansions history
          ≡ ok r
        → r.exact_for_declared_bounds ≡ true
        → (budget ≡ pos r.budget) × (horizon ≡ pos r.horizon) × HasValue unobtainable r
    unfolding propose_excluding
    propose_excluding_exact unobtainable h exact =
        let planned =
          plan model_seal state_seal model state budget horizon expected_binding max_expansions
            history (some unobtainable) in
        let (q, eq, rest) = >>=-eq-ok planned _ h in
        let same = passed q.contract_version ("1.1.0" ∷ []) (constrained_is_coherent q) q r rest in
        plan_exact model_seal state_seal model state budget horizon expected_binding max_expansions
          history (some unobtainable) r (eq ∙ ap ok same) exact
