-- ===== src/Protocol/Complete.antt =====
-- src/latent_compass/protocol.py: `score_measurements` returns a verdict for complete measurements.
pub mod Tests
use latent_compass.Prelude.{
  ℕ, ◌≡◌, ◌≢◌, ◌⊎◌, refl, Bool, true, false, not, ◌&&◌, List, [], ◌∷◌, ◌++◌, map, Option, none,
  some, Result, ok, ◌>>=◌, ◌==◌, leb, length, all, contains, distinct, any, arith, Bool-cases,
  Option-cases, inl, inr, sym, ◌∙◌, ap, if◌then◌else◌, Listed, all_intro,
}
use mathlib.Core.Path.{subst}
use latent_compass.Prelude.Int.{ℤ}
use latent_compass.Prelude.Sorting.{Listed-sort, sort-Listed}
use latent_compass.Contracts.{Identifier, Seal, Exception}
use latent_compass.Lab.Dict.{Dict, keys, lookup}
use latent_compass.Protocol.Specs.{FiniteFloat, MetricSpec}
use latent_compass.Protocol.Preregistration.{
  Preregistration, validated_preregistration, load_preregistration, distinct_seeds,
}
use latent_compass.Protocol.Verdict.{
  Measurement, MeasurementSet, load_measurement_set, MetricVerdict, VerdictBody, Verdict,
  validated_verdict, load_verdict, recompute_verdict_seal, failing_of, sort_ids,
}
use latent_compass.Protocol.Score.{
  Values, values_at, seeds_of, same_seeds, score_metrics, by_metric, sort_specs, known_metric,
  check_evidence, verdict_body, sealed_verdict, score_measurements,
}
use latent_compass.Protocol.Scoring.{Rounds, score_metrics-Rounds, required-scored}
use latent_compass.Protocol.Grouping.{measured, by_metric-measured}
use latent_compass.Protocol.Grouped.{by_metric_returns, by_metric-keys, NoEmpty, by_metric-NoEmpty}
use latent_compass.Protocol.Continue.{values_of}
use latent_compass.Protocol.Loading.{sealed}
use latent_compass.Protocol.Reload.{
  sort_ids-sorted, same_ids_refl, names, sort_specs-sorted, sort_specs-distinct,
}
use latent_compass.Protocol.Rebuilt.{
  Rounds-sorted, Rounds-distinct, Rounds-consistent, Rounds-counted, failing_sorted, measured_once,
}
use latent_compass.Protocol.Returns.{Measured, HaveMeans, score_metrics_returns}

-- What a valid protocol has.
protocol_facts :
    (p : Preregistration)
    → load_preregistration p ≡ ok p
    → (distinct (names p.metrics) ≡ true)
      × (any (λ (m : MetricSpec). m.required) p.metrics ≡ true)
      × (leb 2 (length p.seeds) ≡ true)
unfolding load_preregistration validated_preregistration
protocol_facts p h = ground arith

any-Listed :
    (q : MetricSpec → Bool) (ms : List MetricSpec)
    → any q ms ≡ true
    → (m : MetricSpec) × Listed m ms × (q m ≡ true)
any-Listed q [] h = cc
any-Listed q (m ∷ ms) h = elim (Bool-cases (q m)) [
  | inl e ↦ (m, inl refl, e)
  | inr e ↦ let (n, l, f) = any-Listed q ms (ground arith) in (n, inr l, f)
]

Listed-length :
    (w : MetricVerdict) (ws : List MetricVerdict) → Listed w ws → leb 1 (length ws) ≡ true
Listed-length w [] h = absurd h
Listed-length w (x ∷ ws) h = ground arith

not_nil : (xs : List ℤ) → leb 2 (length xs) ≡ true → xs ≢ []
not_nil [] h = cc
not_nil (x ∷ xs) h = cc

module _ (mean : FiniteFloat → FiniteFloat → Option FiniteFloat) (current_seal : Seal)
    (p : Preregistration) (ms : MeasurementSet) (valid : load_preregistration p ≡ ok p) where
  -- The verdict that is built passes its validator, whatever its seal.
  validates :
      (groups : Dict Values) (ws : List MetricVerdict) (s : Seal)
      → Rounds mean p.seeds groups (sort_specs p.metrics) ws
      → validated_verdict (record { body = verdict_body current_seal p ms ws; verdict_seal = s })
        ≡ ok (record { body = verdict_body current_seal p ms ws; verdict_seal = s })
  unfolding validated_verdict
  validates groups ws s rs =
      let (d, r, n) = protocol_facts p valid in
      let (m, l, q) = any-Listed (λ (m : MetricSpec). m.required) p.metrics r in
      let (w, lw, aw) =
        required-scored mean p.seeds groups m rs (Listed-sort (λ m. m.name) m p.metrics l) q in
      let some_metric = Listed-length w ws lw in
      let sorted =
        failing_sorted ws (Rounds-sorted mean p.seeds groups rs (sort_specs-sorted p.metrics)) in
      let same = sort_ids-sorted (failing_of ws) sorted in
      let counted = Rounds-counted mean p.seeds groups (not_nil p.seeds n) rs in
      let apart = Rounds-distinct mean p.seeds groups rs (sort_specs-distinct p.metrics d) in
      let consistent = Rounds-consistent mean p.seeds groups rs in
      rw (some_metric, counted, apart, consistent, same, same_ids_refl (failing_of ws))
        (ground arith)

  sealed_returns :
      (seal_body : VerdictBody → Seal) (groups : Dict Values) (ws : List MetricVerdict)
      → Rounds mean p.seeds groups (sort_specs p.metrics) ws
      → sealed_verdict seal_body (verdict_body current_seal p ms ws)
        ≡ ok (sealed seal_body (verdict_body current_seal p ms ws))
  unfolding sealed_verdict recompute_verdict_seal load_verdict
  sealed_returns seal_body groups ws rs =
      let body = verdict_body current_seal p ms ws in
      rw (validates groups ws 0 rs, validates groups ws (seal_body body) rs) refl

-- No metric has two values at one seed, and each metric that is measured is registered.
abbrev pub Unrepeated : MeasurementSet → Type 0
Unrepeated ms = (k : Identifier) → distinct_seeds (seeds_of (values_of k ms)) ≡ true

abbrev pub Registered : Preregistration → MeasurementSet → Type 0
Registered p ms = all (λ (m : Measurement). known_metric p m.metric) ms.measurements ≡ true

-- Each metric has a value at each declared seed and at no other, or is optional and has none.
abbrev pub Complete : Preregistration → MeasurementSet → Type 0
Complete p ms =
    (m : MetricSpec)
    → Listed m p.metrics
    → ((m.required ≡ false) × (values_of m.name ms ≡ []))
      ⊎ (same_seeds (seeds_of (values_of m.name ms)) p.seeds ≡ true)

-- No mean of two values that are listed for the same registered metric overflows.
abbrev pub Averaged :
    (FiniteFloat → FiniteFloat → Option FiniteFloat) → Preregistration → MeasurementSet → Type 0
Averaged mean p ms =
    (m : MetricSpec) → Listed m p.metrics → HaveMeans mean (map (λ v. v.1) (values_of m.name ms))

-- What the groups hold for a complete metric.
grouped_metric :
    (ms : MeasurementSet) (seeds : List ℤ) (groups : Dict Values) (m : MetricSpec)
    → seeds ≢ []
    → by_metric ms.measurements [] ≡ ok groups
    → ((m.required ≡ false) × (values_of m.name ms ≡ []))
      ⊎ (same_seeds (seeds_of (values_of m.name ms)) seeds ≡ true)
    → Measured seeds groups m
grouped_metric ms seeds groups m n g (inl (r, z)) =
    let e = by_metric-measured ms.measurements [] groups m.name g in
    inl (r, by_metric-NoEmpty ms.measurements [] groups g (λ k z. refl) m.name (e ∙ z))
grouped_metric ms seeds groups m n g (inr t) =
    let e = by_metric-measured ms.measurements [] groups m.name g in
    let there : same_seeds (seeds_of (values_at m.name groups)) seeds ≡ true = rw e t in
    elim (Option-cases (lookup m.name groups)) [
      | inl l ↦ absurd (ground (arith, measured_once (values_at m.name groups) seeds n there))
      | inr (vs, l) ↦ inr (vs, l, ground arith)
    ]

module _ (mean : FiniteFloat → FiniteFloat → Option FiniteFloat)
    (protocol_seal : Preregistration → Seal) (seal_body : VerdictBody → Seal) (p : Preregistration)
    (ms : MeasurementSet) where
  -- Valid measurements that are bound to a valid protocol, that are complete, that repeat no seed
  -- and that name registered metrics only are scored: a verdict is returned, if no mean of two
  -- values that are measured for the same metric overflows.
  pub score_measurements_returns :
      Averaged mean p ms
      → load_preregistration p ≡ ok p
      → load_measurement_set ms ≡ ok ms
      → check_evidence (protocol_seal p) p ms ≡ ok tt
      → Unrepeated ms
      → Registered p ms
      → Complete p ms
      → (v : Verdict) × (score_measurements mean protocol_seal seal_body p ms ≡ ok v)
  unfolding score_measurements
  score_measurements_returns means lp lm ev once known complete =
      let (d, r, n) = protocol_facts p lp in
      let (groups, g) = by_metric_returns ms.measurements [] once in
      let ks = by_metric-keys (known_metric p) ms.measurements [] groups g known refl in
      let metric_there : (m : MetricSpec)
          → Listed m (sort_specs p.metrics)
          → Measured p.seeds groups m × HaveMeans mean (map (λ v. v.1) (values_at m.name groups)) =
        λ m l.
          let k = sort-Listed (λ m. m.name) m p.metrics l in
          (
            grouped_metric ms p.seeds groups m (not_nil p.seeds n) g (complete m k),
            subst (λ vs. HaveMeans mean (map (λ v. v.1) vs))
                (sym (by_metric-measured ms.measurements [] groups m.name g)) (means m k),
          ) in
      let (ws, sc) =
        score_metrics_returns mean p.seeds groups (not_nil p.seeds n) (sort_specs p.metrics)
          metric_there in
      let rs = score_metrics-Rounds mean p.seeds groups (sort_specs p.metrics) ws sc in
      let sv = sealed_returns mean (protocol_seal p) p ms lp seal_body groups ws rs in
      (
        sealed seal_body (verdict_body (protocol_seal p) p ms ws),
        rw (lp, lm, ev, g, ks, sc, sv) refl,
      )
