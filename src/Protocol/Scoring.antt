-- ===== src/Protocol/Scoring.antt =====
-- src/latent_compass/protocol.py: which verdicts the loop over the metrics gives.
use latent_compass.Prelude.{
  ◌≡◌, refl, true, false, List, [], ◌∷◌, Option, none, some, ok, arith, >>=-eq-ok, sym, Listed, inl,
  inr, ◌⊎◌,
}
use mathlib.Core.Path.{subst}
use latent_compass.Prelude.Int.{ℤ}
use latent_compass.Lab.Dict.{Dict}
use latent_compass.Protocol.Specs.{FiniteFloat, MetricSpec, passes}
use latent_compass.Protocol.Verdict.{MetricVerdict, fails, failing_of, decision_of, go_on}
use latent_compass.Protocol.Score.{
  Values, values_at, seeds_of, same_seeds, ordered, median, metric_verdict, score_metric,
  score_metrics, cons_some,
}

module _ (mean : FiniteFloat → FiniteFloat → Option FiniteFloat) (seeds : List ℤ)
    (groups : Dict Values) where
  -- The metric is measured at exactly the declared seeds and has this verdict.
  abbrev pub ScoredAs : MetricSpec → MetricVerdict → Type 0
  ScoredAs m w =
      (metric_verdict mean m (values_at m.name groups) ≡ ok w)
      × (same_seeds (seeds_of (values_at m.name groups)) seeds ≡ true)

  -- The rounds of the loop: a metric that is not required may be skipped.
  pub data Rounds : List MetricSpec → List MetricVerdict → Type 0 where
    done : Rounds [] []
    skipped :
        {m : MetricSpec} {ms : List MetricSpec} {ws : List MetricVerdict}
        → m.required ≡ false
        → values_at m.name groups ≡ []
        → Rounds ms ws
        → Rounds (m ∷ ms) ws
    scored :
        {m : MetricSpec} {w : MetricVerdict} {ms : List MetricSpec} {ws : List MetricVerdict}
        → ScoredAs m w
        → Rounds ms ws
        → Rounds (m ∷ ms) (w ∷ ws)

  round :
      (m : MetricSpec) (o : Option MetricVerdict) (ms : List MetricSpec) (ws : List MetricVerdict)
      → score_metric mean seeds groups m ≡ ok o
      → Rounds ms ws
      → Rounds (m ∷ ms) (cons_some o ws)
  unfolding score_metric
  round m none ms ws h r = skipped (ground arith) (ground arith) r
  round m (some w) ms ws h r = scored (ground arith) r

  pub score_metrics-Rounds :
      (ms : List MetricSpec) (ws : List MetricVerdict)
      → score_metrics mean seeds groups ms ≡ ok ws
      → Rounds ms ws
  unfolding score_metrics
  score_metrics-Rounds [] ws h = let e : [] ≡ ws = cc in subst (Rounds []) e done
  score_metrics-Rounds (m ∷ ms) ws h =
      let (o, eo, h1) = >>=-eq-ok (score_metric mean seeds groups m) _ h in
      let (rest, er, h2) = >>=-eq-ok (score_metrics mean seeds groups ms) _ h1 in
      let e : cons_some o rest ≡ ws = cc in
      subst (Rounds (m ∷ ms)) e (round m o ms rest eo (score_metrics-Rounds ms rest er))

  pub required-scored :
      {ms : List MetricSpec} {ws : List MetricVerdict} (m : MetricSpec)
      → Rounds ms ws
      → Listed m ms
      → m.required ≡ true
      → (w : MetricVerdict) × Listed w ws × ScoredAs m w
  required-scored m done l r = absurd l
  required-scored m (skipped n none_there rs) (inl e) r = cc
  required-scored m (skipped n e rs) (inr l) r = required-scored m rs l r
  required-scored m (scored {m = s} {w = w} a rs) (inl e) r =
      (w, inl refl, subst (λ s. ScoredAs s w) e a)
  required-scored m (scored a rs) (inr l) r =
      let (w, lw, aw) = required-scored m rs l r in (w, inr lw, aw)

  pub metric-measured :
      {ms : List MetricSpec} {ws : List MetricVerdict} (m : MetricSpec)
      → Rounds ms ws
      → Listed m ms
      → ((m.required ≡ false) × (values_at m.name groups ≡ []))
        ⊎ (same_seeds (seeds_of (values_at m.name groups)) seeds ≡ true)
  metric-measured m done l = absurd l
  metric-measured m (skipped {m = s} n z rs) (inl e) =
      subst
        (λ s.
          ((s.required ≡ false) × (values_at s.name groups ≡ []))
          ⊎ (same_seeds (seeds_of (values_at s.name groups)) seeds ≡ true))
        e (inl (n, z))
  metric-measured m (skipped n z rs) (inr l) = metric-measured m rs l
  metric-measured m (scored {m = s} {w = w} a rs) (inl e) =
      let (v, c) = subst (λ s. ScoredAs s w) e a in inr c
  metric-measured m (scored a rs) (inr l) = metric-measured m rs l

  pub scored-metric :
      {ms : List MetricSpec} {ws : List MetricVerdict} (w : MetricVerdict)
      → Rounds ms ws
      → Listed w ws
      → (m : MetricSpec) × Listed m ms × ScoredAs m w
  scored-metric w done l = absurd l
  scored-metric w (skipped n e rs) l = let (m, lm, am) = scored-metric w rs l in (m, inr lm, am)
  scored-metric w (scored {m = m} a rs) (inl e) = (m, inl refl, subst (ScoredAs m) e a)
  scored-metric w (scored a rs) (inr l) = let (m, lm, am) = scored-metric w rs l in (m, inr lm, am)

-- What a metric's verdict says of the metric and of the median of its values.
pub metric_verdict-fields :
    (mean : FiniteFloat → FiniteFloat → Option FiniteFloat) (m : MetricSpec) (values : Values)
    (w : MetricVerdict)
    → metric_verdict mean m values ≡ ok w
    → (median mean (ordered values) ≡ ok w.aggregate)
      × (w.passed ≡ passes m w.aggregate)
      × (w.required ≡ m.required)
      × (w.metric ≡ m.name)
unfolding metric_verdict
metric_verdict-fields mean m values w h =
    let (a, e, h') = >>=-eq-ok (median mean (ordered values)) _ h in (cc, cc, cc, cc)

-- The decision is to go on exactly when no listed verdict fails.
pub go_on-passes :
    (ws : List MetricVerdict) (w : MetricVerdict)
    → decision_of (failing_of ws) ≡ go_on
    → Listed w ws
    → fails w ≡ false
go_on-passes [] w h l = absurd l
go_on-passes (x ∷ ws) w h (inl e) = rw (sym e) (ground arith)
go_on-passes (x ∷ ws) w h (inr l) = go_on-passes ws w (ground arith) l

pub passes-go_on :
    (ws : List MetricVerdict)
    → ((w : MetricVerdict) → Listed w ws → fails w ≡ false)
    → decision_of (failing_of ws) ≡ go_on
passes-go_on [] h = refl
passes-go_on (x ∷ ws) h = ground (arith, h x (inl refl), passes-go_on ws (λ w l. h w (inr l)))
