-- ===== src/Lab/Planner/Planned.antt =====
-- What a plan that is returned has gone through.
use latent_compass.Prelude.{
  ℕ, ◌≡◌, refl, sym, ap, ◌∙◌, Bool, true, false, not, Option, none, some, List, [], arith, Result,
  ok, ◌>>=◌, ◌>>◌, raise_if, >>=-eq-ok, ◌==◌,
}
use latent_compass.Prelude.Int.{ℤ, pos}
use latent_compass.Contracts.{Identifier, Seal, Exception, lab_cross_model_state}
use latent_compass.Lab.Model.{DiagnosisModel, load_model}
use latent_compass.Lab.State.Revision.{LabBinding, DiagnosisStateRevision, load_state}
use latent_compass.Lab.State.Loading.{load_model-eq, load_state-eq}
use latent_compass.Lab.State.Verify.{trust_state}
use latent_compass.Lab.State.Apply.{check_binding}
use latent_compass.Lab.Planner.{has_pair, acquired, Answer}
use latent_compass.Lab.Planner.Search.{search_root}
use latent_compass.Lab.Planner.Bellman.{bellman}
use latent_compass.Lab.Planner.Exact.{search_root_exact}
use latent_compass.Lab.Planner.Plan.{
  PlanReport, satisfied_pairs, excluded_of, require_exact_int, require_known_probes, report_of,
  report_plan, plan, max_budget, max_horizon, most_expansions,
}

-- The probes that a plan leaves out.
abbrev pub left_out : Option (List Identifier) → List Identifier
left_out none = []
left_out (some ids) = ids

excluded_of-eq :
    (m : DiagnosisModel) (u : Option (List Identifier)) (x : List Identifier)
    → excluded_of m u ≡ ok x
    → x ≡ left_out u
unfolding require_known_probes
excluded_of-eq m none x h = ground arith
excluded_of-eq m (some ids) x h = ground arith

require_exact_int-eq : (z : ℤ) (low high n : ℕ) → require_exact_int z low high ≡ ok n → z ≡ pos n
unfolding require_exact_int
require_exact_int-eq (pos k) low high n h = ground arith
require_exact_int-eq (ℤ.negsuc k) low high n h = cc

not-true : (b : Bool) → not b ≡ true → b ≡ false
not-true true h = cc
not-true false h = refl

module _ (model_seal : DiagnosisModel → Seal) (state_seal : DiagnosisStateRevision → Seal)
    (model : DiagnosisModel) (state : DiagnosisStateRevision) (budget horizon : ℤ)
    (expected_binding : LabBinding) (max_expansions : ℤ)
    (history : Option (List DiagnosisStateRevision)) (unobtainable : Option (List Identifier)) where
  pub record Planned (r : PlanReport) : Type 0 where
    pub b : ℕ
    pub h : ℕ
    pub n : ℕ
    pub budget_is : budget ≡ pos b
    pub horizon_is : horizon ≡ pos h
    pub trusted : trust_state model_seal state_seal model state history ≡ ok tt
    pub reported :
        report_plan model_seal state_seal model state b h n unobtainable (left_out unobtainable)
        ≡ ok r

  -- From the test of the seal on, and from the bounds on.
  abbrev bounded : DiagnosisModel → DiagnosisStateRevision → Result Exception PlanReport
  bounded m s = require_exact_int budget 0 max_budget >>= λ b.
      require_exact_int horizon 0 max_horizon >>= λ h.
      require_exact_int max_expansions 1 most_expansions >>= λ n.
      excluded_of m unobtainable >>= λ x. report_plan model_seal state_seal m s b h n unobtainable x

  abbrev checked : DiagnosisModel → DiagnosisStateRevision → Result Exception PlanReport
  checked m s =
      raise_if (not (s.model_seal == model_seal m)) lab_cross_model_state
      >> (trust_state model_seal state_seal m s history
          >> (check_binding s.binding expected_binding >> bounded m s))

  plan_lem :
      plan model_seal state_seal model state budget horizon expected_binding max_expansions history
        unobtainable
      ≡ (load_model model >>= λ m. load_state state >>= λ s. checked m s)
  unfolding plan
  plan_lem = refl

  bounded-Planned :
      (r : PlanReport)
      → trust_state model_seal state_seal model state history ≡ ok tt
      → bounded model state ≡ ok r
      → Planned r
  bounded-Planned r t e0 =
      let (b, eb, e1) = >>=-eq-ok (require_exact_int budget 0 max_budget) _ e0 in
      let (h, eh, e2) = >>=-eq-ok (require_exact_int horizon 0 max_horizon) _ e1 in
      let (n, en, e3) = >>=-eq-ok (require_exact_int max_expansions 1 most_expansions) _ e2 in
      let (x, ex, e4) = >>=-eq-ok (excluded_of model unobtainable) _ e3 in
      record {
        b = b;
        h = h;
        n = n;
        budget_is = require_exact_int-eq budget 0 max_budget b eb;
        horizon_is = require_exact_int-eq horizon 0 max_horizon h eh;
        trusted = t;
        reported =
            ap (report_plan model_seal state_seal model state b h n unobtainable)
              (sym (excluded_of-eq model unobtainable x ex))
            ∙ e4;
      }

  checked-Planned : (r : PlanReport) → checked model state ≡ ok r → Planned r
  checked-Planned r e0 =
      let (u, eu, e1) =
        >>=-eq-ok (raise_if (not (state.model_seal == model_seal model)) lab_cross_model_state)
          (λ _.
            trust_state model_seal state_seal model state history
            >> (check_binding state.binding expected_binding >> bounded model state))
          e0 in
      let (v, ev, e2) =
        >>=-eq-ok (trust_state model_seal state_seal model state history)
          (λ _. check_binding state.binding expected_binding >> bounded model state) e1 in
      let (w, ew, e3) =
        >>=-eq-ok (check_binding state.binding expected_binding) (λ _. bounded model state) e2 in
      bounded-Planned r ev e3

  pub plan-Planned :
      (r : PlanReport)
      → plan model_seal state_seal model state budget horizon expected_binding max_expansions
          history unobtainable
        ≡ ok r
      → Planned r
  plan-Planned r e =
      let (m, em, e1) = >>=-eq-ok (load_model model) _ (sym plan_lem ∙ e) in
      let (s, es, e2) = >>=-eq-ok (load_state state) _ e1 in
      let same_model = (load_model-eq model m em).0 in
      let same_state = (load_state-eq state s es).0 in
      let path : checked model state ≡ checked m s =
        λ i. checked (sym same_model i) (sym same_state i) in
      checked-Planned r (path ∙ e2)

  reported_exact :
      (b h n : ℕ) (r : PlanReport)
      → report_plan model_seal state_seal model state b h n unobtainable (left_out unobtainable)
        ≡ ok r
      → r.exact_for_declared_bounds ≡ true
      → (r.budget ≡ b)
        × (r.horizon ≡ h)
        × (◌≡◌ {A = Answer}
            (r.plan_value, r.recommended_probe_id)
            (bellman model
              (left_out unobtainable)
              h
              state.posterior_weights
              (has_pair (satisfied_pairs state))
              (acquired (satisfied_pairs state))
              b))
  unfolding report_plan
  reported_exact b h n r e exact =
      let x = left_out unobtainable in
      let posterior = state.posterior_weights in
      let found = search_root model x n h posterior (satisfied_pairs state) b in
      let whole : r ≡ report_of model_seal state_seal model state b h n unobtainable found =
        ground arith in
      let down : found.1.exhausted ≡ false =
        not-true found.1.exhausted
          (ap (λ (q : PlanReport). q.exact_for_declared_bounds) (sym whole) ∙ exact) in
      (
        ap (λ (q : PlanReport). q.budget) whole,
        ap (λ (q : PlanReport). q.horizon) whole,
        ap (λ (q : PlanReport). (q.plan_value, q.recommended_probe_id)) whole
            ∙ search_root_exact model x n h posterior (satisfied_pairs state) b down,
      )

  -- A returned plan that calls itself exact has the value, and the probe, of the recursion without
  -- memo and bound, on the given state, budget and horizon and without the unobtainable probes.
  pub plan_exact :
      (r : PlanReport)
      → plan model_seal state_seal model state budget horizon expected_binding max_expansions
          history unobtainable
        ≡ ok r
      → r.exact_for_declared_bounds ≡ true
      → (budget ≡ pos r.budget)
        × (horizon ≡ pos r.horizon)
        × (◌≡◌ {A = Answer}
            (r.plan_value, r.recommended_probe_id)
            (bellman model
              (left_out unobtainable)
              r.horizon
              state.posterior_weights
              (has_pair (satisfied_pairs state))
              (acquired (satisfied_pairs state))
              r.budget))
  plan_exact r e exact =
      let p = plan-Planned r e in
      let (eb, eh, value) = reported_exact p.b p.h p.n r p.reported exact in
      (
        p.budget_is ∙ ap pos (sym eb),
        p.horizon_is ∙ ap pos (sym eh),
        value ∙ λ i.
            bellman model (left_out unobtainable) (sym eh i) state.posterior_weights
              (has_pair (satisfied_pairs state)) (acquired (satisfied_pairs state)) (sym eb i),
      )
