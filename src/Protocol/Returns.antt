-- ===== src/Protocol/Returns.antt =====
-- src/latent_compass/protocol.py: complete measurements are always scored.
use latent_compass.Prelude.{
  ℕ, zero, suc, ◌-◌, ◌<◌, ◌≡◌, ◌≢◌, ◌⊎◌, refl, true, false, List, [], ◌∷◌, map, Option, none, some,
  ok, ◌==◌, leb, length, arith, Bool-cases, inl, inr, ◌∙◌, ap, if◌then◌else◌, Listed,
}
use Prim.Native.Nat.{◌/◌, ◌%◌}
use latent_compass.Prelude.Int.{ℤ}
use latent_compass.Prelude.Sorting.{insert_by, sort-Listed}
use latent_compass.Contracts.{statistics_error}
use latent_compass.Lab.Dict.{Dict, lookup}
use latent_compass.Protocol.Specs.{FiniteFloat, MetricSpec}
use latent_compass.Protocol.Verdict.{MetricVerdict}
use latent_compass.Protocol.Score.{
  Values, values_at, seeds_of, same_seeds, ordered, sort_values, item_at, finite, verdict_of,
  metric_verdict, score_metric, score_metrics, mean_of, cons_some,
}
use mathlib.Core.Path.{subst}
use latent_compass.Protocol.Grouping.{sort_values-ordered}
use latent_compass.Protocol.Rebuilt.{measured_once, length-ordered}

length-insert : (x : ℕ) (xs : List ℕ) → length (insert_by (λ i. i) x xs) ≡ suc (length xs)
length-insert x [] = refl
length-insert x (y ∷ xs) = ground (arith, length-insert x xs)

length-sort_values : (xs : List ℕ) → length (sort_values xs) ≡ length xs
length-sort_values [] = refl
length-sort_values (x ∷ xs) = length-insert x (sort_values xs) ∙ ap suc (length-sort_values xs)

item_at-some : (i : ℕ) (xs : List ℕ) → i < length xs → (x : ℕ) × (item_at i xs ≡ some x)
item_at-some i [] h = absurd (omega (arith, h))
item_at-some zero (x ∷ xs) h = (x, refl)
item_at-some (suc i) (x ∷ xs) h = item_at-some i xs (omega (arith, h))

-- The metric has values at the declared seeds, or needs none and has none.
abbrev pub Measured : List ℤ → Dict Values → MetricSpec → Type 0
Measured seeds groups m =
    ((m.required ≡ false) × (lookup m.name groups ≡ none))
    ⊎ ((vs : Values) × (lookup m.name groups ≡ some vs) × (same_seeds (seeds_of vs) seeds ≡ true))

item_at-Listed : (i : ℕ) (xs : List ℕ) (x : ℕ) → item_at i xs ≡ some x → Listed x xs
item_at-Listed i [] x h = cc
item_at-Listed zero (y ∷ xs) x h = inl (ground (arith, h))
item_at-Listed (suc i) (y ∷ xs) x h = inr (item_at-Listed i xs x h)

-- Any two of these values have a finite mean.
abbrev pub HaveMeans : (FiniteFloat → FiniteFloat → Option FiniteFloat) → List FiniteFloat → Type 0
HaveMeans mean xs =
    (x y : FiniteFloat) → Listed x xs → Listed y xs → (z : FiniteFloat) × (mean x y ≡ some z)

module _ (mean : FiniteFloat → FiniteFloat → Option FiniteFloat) where
  median_of_sorted :
      (s : List ℕ)
      → 0 < length s
      → HaveMeans mean s
      → (a : FiniteFloat) × ((if length s % 2 == 1
            then finite statistics_error (item_at (length s / 2) s)
            else mean_of mean (item_at (length s / 2 - 1) s) (item_at (length s / 2) s))
          ≡ ok a)
  median_of_sorted s h means =
      let (x, ex) = item_at-some (length s / 2) s (omega arith) in
      let (y, ey) = item_at-some (length s / 2 - 1) s (omega arith) in
      let (z, ez) =
        means y x (item_at-Listed (length s / 2 - 1) s y ey)
          (item_at-Listed (length s / 2) s x ex) in
      elim (Bool-cases (length s % 2 == 1)) [
        | inl e ↦ (x, rw (e, ex) refl)
        | inr e ↦ (z, rw (e, ex, ey, ez) refl)
      ]

  -- A metric with a value has a verdict.
  metric_verdict_returns :
      (m : MetricSpec) (vs : Values)
      → leb 1 (length vs) ≡ true
      → HaveMeans mean (map (λ v. v.1) vs)
      → (w : MetricVerdict) × (metric_verdict mean m vs ≡ ok w)
  unfolding metric_verdict
  metric_verdict_returns m vs h means =
      let n = length-sort_values (ordered vs) in
      let l = length-ordered vs in
      let listed : (x : FiniteFloat)
          → Listed x (sort_values (ordered vs))
          → Listed x (map (λ v. v.1) vs) =
        λ x k.
          sort-Listed (λ i. i) x (map (λ v. v.1) vs)
            (subst (Listed x) (sort_values-ordered vs) k) in
      let (a, e) =
        median_of_sorted (sort_values (ordered vs)) (ground (arith, n, l))
          (λ x y k j. means x y (listed x k) (listed y j)) in
      (verdict_of m vs a, rw e refl)

  module _ (seeds : List ℤ) (groups : Dict Values) (some_seed : seeds ≢ []) where
    score_metric_scores :
        (m : MetricSpec) (vs : Values) (w : MetricVerdict)
        → lookup m.name groups ≡ some vs
        → same_seeds (seeds_of vs) seeds ≡ true
        → metric_verdict mean m vs ≡ ok w
        → score_metric mean seeds groups m ≡ ok (some w)
    unfolding score_metric
    score_metric_scores m vs w l c e = ground arith

    score_metric_skips :
        (m : MetricSpec)
        → m.required ≡ false
        → lookup m.name groups ≡ none
        → score_metric mean seeds groups m ≡ ok none
    unfolding score_metric
    score_metric_skips m r l = ground arith

    score_metric_returns :
        (m : MetricSpec)
        → Measured seeds groups m
        → HaveMeans mean (map (λ v. v.1) (values_at m.name groups))
        → (o : Option MetricVerdict) × (score_metric mean seeds groups m ≡ ok o)
    score_metric_returns m (inl (r, l)) means = (none, score_metric_skips m r l)
    score_metric_returns m (inr (vs, l, c)) means =
        let there : values_at m.name groups ≡ vs = rw (l, values_at) refl in
        let (w, e) =
          metric_verdict_returns m vs (measured_once vs seeds some_seed c)
            (subst (λ us. HaveMeans mean (map (λ v. v.1) us)) there means) in
        (some w, score_metric_scores m vs w l c e)

    pub score_metrics_returns :
        (ms : List MetricSpec)
        → ((m : MetricSpec)
            → Listed m ms
            → Measured seeds groups m × HaveMeans mean (map (λ v. v.1) (values_at m.name groups)))
        → (ws : List MetricVerdict) × (score_metrics mean seeds groups ms ≡ ok ws)
    unfolding score_metrics
    score_metrics_returns [] h = ([], refl)
    score_metrics_returns (m ∷ ms) h =
        let (there, means) = h m (inl refl) in
        let (o, e) = score_metric_returns m there means in
        let (ws, f) = score_metrics_returns ms (λ n l. h n (inr l)) in
        (cons_some o ws, rw (e, f) refl)
