-- ===== src/Protocol/Score.antt =====
-- src/latent_compass/protocol.py: `score_measurements`.
--
-- The seals of a protocol and of a verdict's body are parameters. So is the mean of two finite
-- floats, which `statistics.median` takes for an even number of values and which has no finite
-- result where their sum overflows: the verdict of such a metric is pydantic's own error.
use latent_compass.Prelude.{
  ℕ, zero, suc, Bool, not, ◌&&◌, List, [], ◌∷◌, ◌++◌, map, Option, none, some, Result, ok, err,
  ◌>>=◌, ◌>>◌, raise_if, ◌==◌, if◌then◌else◌, length, all, contains,
}
use Prim.Native.Nat.{◌-◌, ◌/◌, ◌%◌}
use latent_compass.Prelude.Int.{ℤ, ltb_ℤ}
use latent_compass.Prelude.Sorting.{sort_by}
use latent_compass.Contracts.{
  Identifier, Seal, Exception, ProtocolFault, protocol_violation, validation_error,
  statistics_error, different_protocol_seal, different_epoch, different_corpus, holdout_not_final,
  final_not_holdout, duplicate_measurement, unknown_metrics, metric_not_measured, seeds_incomplete,
}
use latent_compass.Lab.Dict.{Dict, keys, lookup, put}
use latent_compass.Protocol.Specs.{FiniteFloat, holdout, MetricSpec, same_split, passes}
use latent_compass.Protocol.Preregistration.{
  Preregistration, load_preregistration, split_spec, has_seed,
}
use latent_compass.Protocol.Verdict.{
  is_final, Measurement, MeasurementSet, load_measurement_set, MetricVerdict, VerdictBody, Verdict,
  failing_of, decision_of, validated_verdict, load_verdict, recompute_verdict_seal,
}

-- The values of one metric, by seed.
abbrev pub Values : Type 0
Values = List (ℤ × FiniteFloat)

abbrev pub seeds_of : Values → List ℤ
seeds_of values = map (λ v. v.0) values

abbrev pub values_at : Identifier → Dict Values → Values
values_at k groups = elim (lookup k groups) [ none ↦ [] | some values ↦ values ]

-- One round of the loop that fills `by_metric`.
abbrev pub add_measurement : Measurement → Dict Values → Result Exception (Dict Values)
add_measurement m groups =
    let values = values_at m.metric groups in
    if has_seed m.seed (seeds_of values)
    then err (protocol_violation duplicate_measurement)
    else ok (put m.metric (values ++ (m.seed, m.value) ∷ []) groups)

unfoldable pub by_metric : List Measurement → Dict Values → Result Exception (Dict Values)
by_metric [] groups = ok groups
by_metric (m ∷ ms) groups = add_measurement m groups >>= λ g. by_metric ms g

-- `set(values) == declared_seeds`
abbrev pub same_seeds : List ℤ → List ℤ → Bool
same_seeds xs ys = all (λ x. has_seed x ys) xs && all (λ y. has_seed y xs) ys

-- `[values[seed] for seed in sorted(values)]`
abbrev pub insert_seed : ℤ × FiniteFloat → Values → Values
insert_seed x [] = x ∷ []
insert_seed x (y ∷ ys) =
    let rest = insert_seed x ys in if not (ltb_ℤ y.0 x.0) then x ∷ y ∷ ys else y ∷ rest

abbrev pub sort_seeds : Values → Values
sort_seeds [] = []
sort_seeds (x ∷ xs) = insert_seed x (sort_seeds xs)

abbrev pub ordered : Values → List FiniteFloat
ordered values = map (λ v. v.1) (sort_seeds values)

abbrev pub sort_values : List FiniteFloat → List FiniteFloat
sort_values values = sort_by (λ x. x) values

-- `sorted(metrics, key=lambda spec: spec.name)`
abbrev pub sort_specs : List MetricSpec → List MetricSpec
sort_specs specs = sort_by (λ m. m.name) specs

abbrev pub item_at : ℕ → List FiniteFloat → Option FiniteFloat
item_at i [] = none
item_at zero (x ∷ xs) = some x
item_at (suc i) (x ∷ xs) = item_at i xs

abbrev pub finite : {E : Type 0} → E → Option FiniteFloat → Result E FiniteFloat
finite e none = err e
finite e (some x) = ok x

-- `raise` on a condition of the source, with its message.
abbrev pub refuse_if : Bool → ProtocolFault → Result Exception (Unit {0})
refuse_if b fault = raise_if b (protocol_violation fault)

abbrev pub cons_some : Option MetricVerdict → List MetricVerdict → List MetricVerdict
cons_some none rest = rest
cons_some (some v) rest = v ∷ rest

-- What the constructor of `Verdict` raises is not wrapped.
abbrev pub unwrapped : Result Exception Verdict → Result Exception Verdict
unwrapped (ok v) = ok v
unwrapped (err e) = err validation_error

abbrev pub known_metric : Preregistration → Identifier → Bool
known_metric p k = contains k (map (λ m. m.name) p.metrics)

-- Where the holdout may be used, and where a final verdict means something.
abbrev pub check_purpose : MeasurementSet → Result Exception (Unit {0})
check_purpose ms =
    if same_split ms.split holdout
    then refuse_if (not (is_final ms.purpose)) holdout_not_final
    else refuse_if (is_final ms.purpose) final_not_holdout

-- The verdict that is built, before it is sealed.
abbrev pub verdict_body : Seal → Preregistration → MeasurementSet → List MetricVerdict → VerdictBody
verdict_body current_seal p ms scored =
    let failing = failing_of scored in
    record {
      contract_version = "1.0.0";
      decision = decision_of failing;
      protocol_id = p.protocol_id;
      protocol_seal = current_seal;
      corpus_seal = ms.corpus_seal;
      epoch = p.epoch;
      split = ms.split;
      purpose = ms.purpose;
      metrics = scored;
      failing_metrics = failing;
    }

-- The refusals that precede the scoring.
unfoldable pub check_evidence :
    Seal → Preregistration → MeasurementSet → Result Exception (Unit {0})
unfolding split_spec
check_evidence current_seal p ms = do
  refuse_if (not (ms.protocol_seal == current_seal)) different_protocol_seal
  refuse_if (not (ms.epoch == p.epoch)) different_epoch
  spec ← split_spec p ms.split
  refuse_if (not (ms.corpus_seal == spec.corpus_seal)) different_corpus
  check_purpose ms

-- The verdict, built, sealed and loaded again.
unfoldable pub sealed_verdict : (VerdictBody → Seal) → VerdictBody → Result Exception Verdict
unfolding validated_verdict load_verdict recompute_verdict_seal
sealed_verdict seal_body body = do
  v ← unwrapped (validated_verdict (record { body = body; verdict_seal = 0 }))
  load_verdict (record { body = v.body; verdict_seal = recompute_verdict_seal seal_body v })

-- The verdict of a metric with this aggregate.
abbrev pub verdict_of : MetricSpec → Values → FiniteFloat → MetricVerdict
verdict_of m values aggregate = record {
  metric = m.name;
  family = m.family;
  direction = m.direction;
  threshold = m.threshold;
  aggregate = aggregate;
  seed_count = length (ordered values);
  required = m.required;
  passed = passes m aggregate;
}

module _ (mean : FiniteFloat → FiniteFloat → Option FiniteFloat) where
  abbrev pub mean_of : Option FiniteFloat → Option FiniteFloat → Result Exception FiniteFloat
  mean_of (some x) (some y) = finite validation_error (mean x y)
  mean_of _ _ = err statistics_error

  -- `statistics.median`
  abbrev pub median : List FiniteFloat → Result Exception FiniteFloat
  median values =
      let s = sort_values values in
      let n = length s in
      if n % 2 == 1
      then finite statistics_error (item_at (n / 2) s)
      else mean_of (item_at (n / 2 - 1) s) (item_at (n / 2) s)

  -- The verdict of one metric, from the values that are there.
  unfoldable pub metric_verdict : MetricSpec → Values → Result Exception MetricVerdict
  metric_verdict m values = do
    aggregate ← median (ordered values)
    ok (verdict_of m values aggregate)

  -- One round of the loop over the metrics: a metric that is skipped gives nothing.
  unfoldable pub score_metric :
      List ℤ → Dict Values → MetricSpec → Result Exception (Option MetricVerdict)
  unfolding metric_verdict
  score_metric seeds groups m = elim (lookup m.name groups) [
    | none ↦ do refuse_if m.required metric_not_measured; ok none
    | some values ↦ do
      refuse_if (not (same_seeds (seeds_of values) seeds)) seeds_incomplete
      v ← metric_verdict m values
      ok (some v)
  ]

  unfoldable pub score_metrics :
      List ℤ → Dict Values → List MetricSpec → Result Exception (List MetricVerdict)
  unfolding score_metric
  score_metrics seeds groups [] = ok []
  score_metrics seeds groups (m ∷ ms) = do
    v ← score_metric seeds groups m
    rest ← score_metrics seeds groups ms
    ok (cons_some v rest)

  module _ (protocol_seal : Preregistration → Seal) (seal_body : VerdictBody → Seal) where
    -- `score_measurements`
    unfoldable pub score_measurements : Preregistration → MeasurementSet → Result Exception Verdict
    unfolding check_evidence by_metric score_metrics sealed_verdict load_preregistration
        load_measurement_set
    score_measurements protocol measurements = do
      p ← load_preregistration protocol
      ms ← load_measurement_set measurements
      check_evidence (protocol_seal p) p ms
      groups ← by_metric ms.measurements []
      refuse_if (not (all (known_metric p) (keys groups))) unknown_metrics
      scored ← score_metrics p.seeds groups (sort_specs p.metrics)
      sealed_verdict seal_body (verdict_body (protocol_seal p) p ms scored)
