-- ===== src/Lab/Planner/Tests.antt =====
-- The theorems of the planner at a concrete model.
use latent_compass.Lab.Model.{
  DiagnosisModel, Decision, model_is_coherent, probe_fits, decision_fits, abstains, load_model,
}
use latent_compass.Lab.Planner.Recommends.{Obtainable, search_root-Obtainable}
use latent_compass.Lab.Tests.{take_umbrella, weather, model_seal, state_seal, here, at_first}
use latent_compass.Prelude.{some, ok, ◌≡◌, ◌≤◌, refl, ℕ, true, false, none, [], ◌∷◌, Listed}
use latent_compass.Prelude.Int.{pos}
use latent_compass.Contracts.{same_family}
use latent_compass.Lab.Dict.{Dict, dict_eq}
use latent_compass.Lab.Planner.{
  has_pair, acquired, stopping, expected_loss, admissible_decisions, first_best, best_decision,
  candidates, partitions, Answer,
}
use latent_compass.Lab.Planner.Rational.{less, gcd, renders}
use latent_compass.Lab.Planner.Search.{
  same_key, explore_probes, explore_outcomes, expand, search, search_root,
}
use latent_compass.Lab.Planner.Bellman.{bellman}
use latent_compass.Lab.Planner.Exact.{search_root_exact}
use latent_compass.Lab.Planner.Expansions.{search_root-counter}
use latent_compass.Lab.Planner.Stopping.{Admitted, stopping_least}
use latent_compass.Lab.Planner.Plan.{
  PlanReport, report_of, report_plan, require_exact_int, require_known_probes, value_decisions,
  value_probes, plan, report_is_coherent, constrained_is_coherent, propose, propose_excluding,
}
use latent_compass.Lab.Planner.Propose.{HasValue, propose_exact, propose_excluding_exact}
use latent_compass.Lab.State.Revision.{load_state, state_is_coherent, same_state, same_binding}
use latent_compass.Lab.State.Verify.{initial_state, trust_state}
use latent_compass.Lab.State.Apply.{check_binding}

abbrev prior : Dict ℕ
prior = (1, 3) ∷ (2, 5) ∷ []

-- Looking costs 1 and saves a loss of 2 in three cases out of eight: it is better to stay.
abbrev answer : Answer
answer = (record { numerator = 16; denominator = 8 }, none)

root_run : (search_root weather [] 100 2 prior [] 5).1.exhausted ≡ false
unfolding search_root expand stopping admissible_decisions first_best best_decision expected_loss
    candidates explore_probes explore_outcomes partitions search same_key
root_run = refl

root_answer : (search_root weather [] 100 2 prior [] 5).0.0 ≡ answer
unfolding search_root expand stopping admissible_decisions first_best best_decision expected_loss
    candidates explore_probes explore_outcomes partitions search same_key
root_answer = refl

search_root_exact_example :
    (search_root weather [] 100 2 prior [] 5).0.0
    ≡ bellman weather [] 2 prior (has_pair []) (acquired []) 5
search_root_exact_example = search_root_exact weather [] 100 2 prior [] 5 root_run

search_root-counter_example : (search_root weather [] 1 2 prior [] 5).1.counter ≤ 1
search_root-counter_example = search_root-counter 1 weather [] 2 prior [] 5

weather-coherent : model_is_coherent weather ≡ true
unfolding model_is_coherent probe_fits decision_fits abstains
weather-coherent = refl

stopping_least_example :
    (d : Decision) × Listed d weather.decisions
    × Admitted (has_pair []) d
    × (stopping weather prior (has_pair []) ≡ (d.id, expected_loss prior d))
    × ((e : Decision)
        → Listed e weather.decisions
        → Admitted (has_pair []) e
        → less (expected_loss prior e) (expected_loss prior d) ≡ false)
stopping_least_example = stopping_least weather prior (has_pair []) weather-coherent

abbrev report : PlanReport
report =
    report_of model_seal state_seal weather at_first 5 2 100 none
      (search_root weather [] 100 2 prior [] 5)

abbrev constrained_report : PlanReport
constrained_report =
    report_of model_seal state_seal weather at_first 5 2 100 (some (10 ∷ []))
      (search_root weather (10 ∷ []) 100 2 prior [] 5)

propose_run :
    propose model_seal state_seal weather at_first (pos 5) (pos 2) here (pos 100) none ≡ ok report
unfolding propose plan load_model model_is_coherent probe_fits decision_fits abstains load_state
    state_is_coherent trust_state initial_state same_state same_binding same_family dict_eq
    check_binding require_exact_int require_known_probes report_plan report_is_coherent
    value_decisions value_probes renders gcd search_root expand stopping admissible_decisions
    first_best best_decision expected_loss candidates explore_probes explore_outcomes partitions
    search same_key
propose_run = refl

propose_excluding_run :
    propose_excluding model_seal state_seal weather at_first
      (10 ∷ [])
      (pos 5)
      (pos 2)
      here
      (pos 100)
      none
    ≡ ok constrained_report
unfolding propose_excluding plan load_model model_is_coherent probe_fits decision_fits abstains
    load_state state_is_coherent trust_state initial_state same_state same_binding same_family
    dict_eq check_binding require_exact_int require_known_probes report_plan constrained_is_coherent
    report_is_coherent value_decisions value_probes renders gcd search_root expand stopping
    admissible_decisions first_best best_decision expected_loss candidates explore_probes
    explore_outcomes partitions search same_key
propose_excluding_run = refl

report_exact : report.exact_for_declared_bounds ≡ true
unfolding search_root expand stopping admissible_decisions first_best best_decision expected_loss
    candidates explore_probes explore_outcomes partitions search same_key
report_exact = refl

constrained_report_exact : constrained_report.exact_for_declared_bounds ≡ true
unfolding search_root expand stopping admissible_decisions first_best best_decision expected_loss
    candidates explore_probes explore_outcomes partitions search same_key
constrained_report_exact = refl

propose_exact_example :
    (pos 5 ≡ pos report.budget)
    × (pos 2 ≡ pos report.horizon)
    × HasValue model_seal state_seal weather at_first [] report
propose_exact_example =
    propose_exact model_seal state_seal weather at_first (pos 5) (pos 2) here (pos 100) none report
      propose_run report_exact

propose_excluding_exact_example :
    (pos 5 ≡ pos constrained_report.budget)
    × (pos 2 ≡ pos constrained_report.horizon)
    × HasValue model_seal state_seal weather at_first (10 ∷ []) constrained_report
propose_excluding_exact_example =
    propose_excluding_exact model_seal state_seal weather at_first (pos 5) (pos 2) here (pos 100)
      none constrained_report (10 ∷ []) propose_excluding_run constrained_report_exact

-- Where staying costs 8 in both worlds, looking first costs 6.
abbrev stormy : DiagnosisModel
stormy = record weather {
  decisions =
      take_umbrella
      ∷ record { id = 31; losses = (1, 8) ∷ (2, 8) ∷ []; required_evidence = [] }
      ∷ [];
}

stormy_run : (search_root stormy [] 100 1 prior [] 5).0.0.1 ≡ some 10
unfolding search_root expand stopping admissible_decisions first_best best_decision expected_loss
    candidates explore_probes explore_outcomes partitions search same_key
stormy_run = refl

search_root-Obtainable_example : Obtainable stormy [] [] 5 10
search_root-Obtainable_example = search_root-Obtainable stormy [] 100 1 prior [] 5 10 stormy_run
