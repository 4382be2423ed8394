-- ===== src/Protocol/Tests.antt =====
-- The theorems of the evaluation protocol at a concrete protocol, set of measurements and ledger.
use latent_compass.Prelude.{
  ℕ, ◌+◌, ◌*◌, ◌<◌, ◌≡◌, ◌≢◌, ◌↔◌, ◌⊎◌, refl, Bool, true, false, Option, none, some, List, [], ◌∷◌,
  ok, err, Listed, inl, inr, ◌==◌, if◌then◌else◌,
}
use Prim.Native.Nat.{◌/◌}
use latent_compass.Prelude.Int.{pos}
use latent_compass.Contracts.{Seal, Identifier, protocol_violation, already_consumed}
use latent_compass.Protocol.Specs.{
  FiniteFloat, Split, train, validation, holdout, SplitSpec, MetricSpec, MetricFamily, success,
  violation, cost, information, reversibility, calibration, tail, drift, higher_is_better,
  BaselineKind, trivial, strong, BaselineSpec, same_split,
}
use latent_compass.Protocol.Preregistration.{
  Preregistration, Changes, updated, has_seed, split_spec, validated_preregistration,
  load_preregistration, revise,
}
use latent_compass.Protocol.Verdict.{
  final_verdict, is_final, Measurement, MeasurementSet, VerdictBody, Verdict, MetricVerdict, go_on,
  load_measurement_set, validated_verdict, load_verdict, recompute_verdict_seal,
}
use latent_compass.Protocol.Score.{
  by_metric, metric_verdict, score_metric, score_metrics, check_evidence, sealed_verdict,
  score_measurements, verdict_body, seeds_of,
}
use latent_compass.Protocol.Holdout.{
  HoldoutConsumption, LedgerFile, missing, holding, consumption, consume, require_consumption,
  receipt_for, evaluate,
}
use latent_compass.Protocol.Continue.{
  PassesOn, values_of, score_measurements-go_on, score_measurements_complete,
}
use latent_compass.Protocol.Binding.{
  score_measurements-load_verdict, score_measurements-revise, evaluate-require_consumption,
}

abbrev pub half : FiniteFloat → FiniteFloat → Option FiniteFloat
half x y = some ((x + y) / 2)

abbrev pub corpus : Split → Seal → List Split → SplitSpec
corpus s seal others = record {
  split = s;
  corpus_seal = seal;
  item_count = 40;
  disjoint_from = others;
}

abbrev pub metric : Identifier → MetricFamily → FiniteFloat → Bool → MetricSpec
metric name family threshold required = record {
  name = name;
  family = family;
  direction = higher_is_better;
  threshold = threshold;
  required = required;
}

abbrev pub success_rate : MetricSpec
success_rate = metric 31 success 10 true

abbrev pub baseline : Identifier → BaselineKind → BaselineSpec
baseline name kind = record { name = name; kind = kind; description = "fixed in advance" }

abbrev pub study : Preregistration
study = record {
  contract_version = "1.0.0";
  protocol_id = 20;
  revision = 1;
  epoch = 5;
  registered_at = 100;
  tasks = "repair" ∷ [];
  splits =
      corpus train 201 (validation ∷ holdout ∷ [])
      ∷ corpus validation 202 (train ∷ holdout ∷ [])
      ∷ corpus holdout 203 (train ∷ validation ∷ [])
      ∷ [];
  baselines = baseline 41 trivial ∷ baseline 42 strong ∷ [];
  seeds = pos 1 ∷ pos 2 ∷ [];
  metrics =
      metric 38 drift 1 false
      ∷ success_rate
      ∷ metric 32 violation 1 false
      ∷ metric 33 cost 1 false
      ∷ metric 34 information 1 false
      ∷ metric 35 reversibility 1 false
      ∷ metric 36 calibration 1 false
      ∷ metric 37 tail 1 false
      ∷ [];
  sensitivity_analyses = "without the longest task" ∷ [];
  failure_cases = "timeouts" ∷ [];
}

-- Checksums in the place of the seals.
abbrev pub study_seal : Preregistration → Seal
study_seal p = 1000 * p.revision + p.epoch

abbrev pub body_seal : VerdictBody → Seal
body_seal b = b.protocol_seal + 7 * b.corpus_seal

abbrev pub set_seal : MeasurementSet → Seal
set_seal ms = ms.protocol_seal + 11

abbrev pub measurement : Identifier → ℕ → FiniteFloat → Measurement
measurement name seed value = record {
  metric = name;
  split = holdout;
  seed = pos seed;
  value = value;
}

abbrev pub runs : MeasurementSet
runs = record {
  contract_version = "1.0.0";
  protocol_seal = 1005;
  corpus_seal = 203;
  epoch = 5;
  purpose = final_verdict;
  split = holdout;
  measurements =
      measurement 31 2 14 ∷ measurement 38 1 0 ∷ measurement 31 1 9 ∷ measurement 38 2 1 ∷ [];
}

abbrev pub metric_result : Identifier → MetricFamily → ℕ → ℕ → Bool → Bool → MetricVerdict
metric_result name family threshold aggregate required passed = record {
  metric = name;
  family = family;
  direction = higher_is_better;
  threshold = threshold;
  aggregate = aggregate;
  seed_count = 2;
  required = required;
  passed = passed;
}

abbrev pub outcome : Verdict
outcome =
    let body =
      verdict_body 1005 study runs
        (metric_result 31 success 10 11 true true ∷ metric_result 38 drift 1 0 false false ∷ []) in
    record { body = body; verdict_seal = body_seal body }

outcome_is_scored : score_measurements half study_seal body_seal study runs ≡ ok outcome
unfolding score_measurements load_preregistration validated_preregistration load_measurement_set
    check_evidence split_spec by_metric score_metrics score_metric metric_verdict sealed_verdict
    validated_verdict load_verdict recompute_verdict_seal
outcome_is_scored = refl

score_measurements-go_on_example :
    (outcome.decision ≡ go_on)
    ↔ ((m : MetricSpec) → Listed m study.metrics → m.required ≡ true → PassesOn half m runs)
score_measurements-go_on_example =
    score_measurements-go_on half study_seal body_seal study runs outcome outcome_is_scored

score_measurements_complete_example :
    ((success_rate.required ≡ false) × (values_of 31 runs ≡ []))
    ⊎ ((Listed (pos 2) study.seeds → has_seed (pos 2) (seeds_of (values_of 31 runs)) ≡ true)
        × (Listed (pos 2) (seeds_of (values_of 31 runs)) → has_seed (pos 2) study.seeds ≡ true))
score_measurements_complete_example =
    score_measurements_complete half study_seal body_seal study runs outcome success_rate (pos 2)
      outcome_is_scored (inr (inl refl))

score_measurements-load_verdict_example :
    (load_verdict outcome ≡ ok outcome)
    × (recompute_verdict_seal body_seal outcome ≡ outcome.verdict_seal)
    × (outcome.protocol_seal ≡ study_seal study)
    × (runs.protocol_seal ≡ study_seal study)
    × (outcome.epoch ≡ runs.epoch)
    × ((spec : SplitSpec) × (split_spec study outcome.split ≡ ok spec)
        × (spec.corpus_seal ≡ outcome.corpus_seal)
        × (outcome.corpus_seal ≡ runs.corpus_seal))
    × (is_final outcome.purpose ≡ same_split outcome.split holdout)
score_measurements-load_verdict_example =
    score_measurements-load_verdict half study_seal body_seal study runs outcome outcome_is_scored

-- A later threshold, in a later epoch.
abbrev lowered : Changes
lowered = record {
  contract_version = none;
  protocol_id = none;
  revision = some 2;
  epoch = some 6;
  registered_at = none;
  tasks = none;
  splits = none;
  baselines = none;
  seeds = some (pos 1 ∷ pos 3 ∷ []);
  metrics = none;
  sensitivity_analyses = none;
  failure_cases = none;
}

abbrev second_study : Preregistration
second_study = updated study lowered

study_is_revised : revise study_seal study lowered ≡ ok second_study
unfolding revise validated_preregistration
study_is_revised = refl

score_measurements-revise_example :
    (study.revision < second_study.revision)
    × (second_study.epoch ≢ study.epoch)
    × (study_seal second_study ≢ study_seal study)
    × (score_measurements half study_seal body_seal second_study runs ≢ ok outcome)
score_measurements-revise_example =
    score_measurements-revise half study_seal body_seal study second_study lowered runs outcome
      study_is_revised refl

abbrev pub receipt : HoldoutConsumption
receipt = receipt_for set_seal runs 300 outcome

abbrev pub spent_file : LedgerFile
spent_file = holding ((203, receipt) ∷ [])

outcome_is_recorded :
    evaluate set_seal half study_seal body_seal true study runs (some missing) (some 300)
    ≡ ok (outcome, some spent_file)
unfolding evaluate consume score_measurements load_preregistration validated_preregistration
    load_measurement_set check_evidence split_spec by_metric score_metrics score_metric
    metric_verdict sealed_verdict validated_verdict load_verdict recompute_verdict_seal
outcome_is_recorded = refl

evaluate-require_consumption_example :
    (file' : LedgerFile) × (some spent_file ≡ some file')
    × (consumption true missing outcome.corpus_seal ≡ ok none)
    × (require_consumption true file' outcome.corpus_seal
          (study_seal study)
          outcome.verdict_seal
          (set_seal runs)
          study.epoch
        ≡ ok (receipt_for set_seal runs 300 outcome))
    × (consumption true file' 204 ≡ (
        if outcome.corpus_seal == 204
        then ok (some (receipt_for set_seal runs 300 outcome))
        else consumption true missing 204))
evaluate-require_consumption_example =
    evaluate-require_consumption set_seal half study_seal body_seal true study runs missing 300
      outcome (some spent_file) 204 outcome_is_recorded refl

-- A revision that keeps the corpus does not get it back.
holdout_stays_spent :
    consume true spent_file 203 receipt ≡ err (protocol_violation already_consumed)
unfolding consume
holdout_stays_spent = refl
