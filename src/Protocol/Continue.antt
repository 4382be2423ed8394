-- ===== src/Protocol/Continue.antt =====
-- src/latent_compass/protocol.py: the continue/kill rule, read off the measurements themselves.
use latent_compass.Prelude.{
  ◌≡◌, ◌↔◌, ◌⊎◌, refl, true, false, [], Option, ok, map, arith, sym, ◌∙◌, ap, Listed, inl, inr,
  Bool-cases, all-Listed, &&-true,
}
use latent_compass.Prelude.Int.{ℤ}
use latent_compass.Prelude.Sorting.{Listed-sort, sort-Listed}
use latent_compass.Contracts.{Seal, Identifier}
use latent_compass.Protocol.Specs.{FiniteFloat, MetricSpec, passes}
use latent_compass.Protocol.Preregistration.{Preregistration, has_seed}
use latent_compass.Protocol.Verdict.{
  MeasurementSet, MetricVerdict, VerdictBody, Verdict, go_on, fails,
}
use latent_compass.Protocol.Score.{
  Values, values_at, seeds_of, same_seeds, ordered, median, score_measurements, sort_specs,
}
use latent_compass.Protocol.Loading.{Scored, score_measurements-Scored}
use latent_compass.Protocol.Grouping.{measured, by_metric-measured, sort_values-ordered}
use latent_compass.Protocol.Scoring.{
  ScoredAs, Rounds, score_metrics-Rounds, required-scored, scored-metric, metric-measured,
  metric_verdict-fields, go_on-passes, passes-go_on,
}

-- The values that a set lists for a metric.
abbrev pub values_of : Identifier → MeasurementSet → Values
values_of k ms = measured k ms.measurements

module _ (mean : FiniteFloat → FiniteFloat → Option FiniteFloat) where
  median-ordered : (vs : Values) → median mean (ordered vs) ≡ median mean (map (λ v. v.1) vs)
  median-ordered vs = rw (sort_values-ordered vs) refl

  -- The metric's median over the measured values passes its threshold.
  abbrev pub PassesOn : MetricSpec → MeasurementSet → Type 0
  PassesOn m ms =
      (a : FiniteFloat) × (median mean (map (λ v. v.1) (values_of m.name ms)) ≡ ok a)
      × (passes m a ≡ true)

  module _ (protocol_seal : Preregistration → Seal) (seal_body : VerdictBody → Seal)
      (p : Preregistration) (ms : MeasurementSet) (v : Verdict) where
    module _ (s : Scored mean protocol_seal seal_body p ms v) where
      grouped_values : (k : Identifier) → values_at k s.groups ≡ values_of k ms
      grouped_values k = by_metric-measured ms.measurements [] s.groups k s.grouped

      rounds : Rounds mean p.seeds s.groups (sort_specs p.metrics) s.scores
      rounds = score_metrics-Rounds mean p.seeds s.groups (sort_specs p.metrics) s.scores s.scored

      -- A scored metric's aggregate is the median of the values that the set lists for it.
      scored_median :
          (m : MetricSpec) (w : MetricVerdict)
          → ScoredAs mean p.seeds s.groups m w
          → (median mean (map (λ v. v.1) (values_of m.name ms)) ≡ ok w.aggregate)
            × (w.passed ≡ passes m w.aggregate)
            × (w.required ≡ m.required)
      scored_median m w (e, c) =
          let (a, b, r, n) = metric_verdict-fields mean m (values_at m.name s.groups) w e in
          let same = ap (λ vs. median mean (map (λ v. v.1) vs)) (grouped_values m.name) in
          (sym same ∙ sym (median-ordered (values_at m.name s.groups)) ∙ a, b, r)

      go_on-required :
          v.decision ≡ go_on
          → (m : MetricSpec) → Listed m p.metrics
          → m.required ≡ true
          → PassesOn m ms
      go_on-required h m l r =
          let (w, lw, aw) =
            required-scored mean p.seeds s.groups m rounds (Listed-sort (λ m. m.name) m p.metrics l)
              r in
          let (a, b, e) = scored_median m w aw in
          let f = go_on-passes s.scores w (cc (s.is_sealed, h)) lw in (w.aggregate, a, ground arith)

      required-go_on :
          ((m : MetricSpec) → Listed m p.metrics → m.required ≡ true → PassesOn m ms)
          → v.decision ≡ go_on
      required-go_on h =
          let passing : (w : MetricVerdict) → Listed w s.scores → fails w ≡ false = λ w lw.
            let (m, lm, aw) = scored-metric mean p.seeds s.groups w rounds lw in
            let (a, b, e) = scored_median m w aw in
            elim (Bool-cases m.required) [
              | inl r ↦
                  let (x, hx, px) = h m (sort-Listed (λ m. m.name) m p.metrics lm) r in
                  let same : x ≡ w.aggregate = cc in ground arith
              | inr r ↦ ground arith
            ] in
          cc (s.is_sealed, passes-go_on s.scores passing)

      complete :
          (m : MetricSpec)
          → Listed m p.metrics
          → ((m.required ≡ false) × (values_of m.name ms ≡ []))
            ⊎ (same_seeds (seeds_of (values_of m.name ms)) p.seeds ≡ true)
      complete m l =
          let c =
            metric-measured mean p.seeds s.groups m rounds
              (Listed-sort (λ m. m.name) m p.metrics l) in
          let e = grouped_values m.name in
          elim c [ inl (r, z) ↦ inl (r, sym e ∙ z) | inr t ↦ inr (rw (sym e) t) ]

    -- When a verdict is returned, it is CONTINUE exactly when each required metric of the protocol
    -- passes its threshold on the median of all the values that the measurement set lists for it.
    pub score_measurements-go_on :
        score_measurements mean protocol_seal seal_body p ms ≡ ok v
        → (v.decision ≡ go_on)
          ↔ ((m : MetricSpec) → Listed m p.metrics → m.required ≡ true → PassesOn m ms)
    score_measurements-go_on h =
        let s = score_measurements-Scored mean protocol_seal seal_body p ms v h in
        (go_on-required s, required-go_on s)

    -- When a verdict is returned, each metric of the protocol has a value at each declared seed and
    -- at no other, unless the metric is optional and has no value at all.
    pub score_measurements_complete :
        (m : MetricSpec) (x : ℤ)
        → score_measurements mean protocol_seal seal_body p ms ≡ ok v
        → Listed m p.metrics
        → ((m.required ≡ false) × (values_of m.name ms ≡ []))
          ⊎ ((Listed x p.seeds → has_seed x (seeds_of (values_of m.name ms)) ≡ true)
              × (Listed x (seeds_of (values_of m.name ms)) → has_seed x p.seeds ≡ true))
    score_measurements_complete m x h l =
        let s = score_measurements-Scored mean protocol_seal seal_body p ms v h in
        let xs = seeds_of (values_of m.name ms) in
        elim (complete s m l) [
          | inl z ↦ inl z
          | inr t ↦
              let (a, b) = &&-true _ _ t in
              inr (
                all-Listed (λ y. has_seed y xs) p.seeds x b,
                all-Listed (λ y. has_seed y p.seeds) xs x a,
              )
        ]
