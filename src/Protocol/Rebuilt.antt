-- ===== src/Protocol/Rebuilt.antt =====
-- src/latent_compass/protocol.py: the validator of a verdict accepts what the loop over the metrics
-- gives.
use latent_compass.Prelude.{
  ℕ, suc, ◌≡◌, ◌≢◌, refl, true, false, List, [], ◌∷◌, map, Option, ok, leb, length, all, contains,
  distinct, arith, ◌∙◌, ap, >>=-eq-ok,
}
use latent_compass.Prelude.Int.{ℤ}
use latent_compass.Contracts.{Identifier}
use latent_compass.Lab.Dict.{Dict}
use latent_compass.Protocol.Specs.{FiniteFloat, MetricSpec}
use latent_compass.Protocol.Verdict.{MetricVerdict, flag_is_consistent, failing_of}
use latent_compass.Protocol.Score.{
  Values, values_at, seeds_of, same_seeds, ordered, insert_seed, sort_seeds, median, metric_verdict,
}
use latent_compass.Protocol.Scoring.{Rounds, done, skipped, scored}
use latent_compass.Prelude.Ordered.{is_sorted, at_least}
use latent_compass.Protocol.Reload.{names, verdict_names}

length-insert_seed :
    (x : ℤ × FiniteFloat) (vs : Values) → length (insert_seed x vs) ≡ suc (length vs)
length-insert_seed x [] = refl
length-insert_seed x (v ∷ vs) = ground (arith, length-insert_seed x vs)

length-sort_seeds : (vs : Values) → length (sort_seeds vs) ≡ length vs
length-sort_seeds [] = refl
length-sort_seeds (v ∷ vs) = length-insert_seed v (sort_seeds vs) ∙ ap suc (length-sort_seeds vs)

length-values : (vs : Values) → length (map (λ v. v.1) vs) ≡ length vs
length-values [] = refl
length-values (v ∷ vs) = ap suc (length-values vs)

pub length-ordered : (vs : Values) → length (ordered vs) ≡ length vs
length-ordered vs = length-values (sort_seeds vs) ∙ length-sort_seeds vs

-- Values at the declared seeds are there if a seed is.
pub measured_once :
    (vs : Values) (seeds : List ℤ)
    → seeds ≢ []
    → same_seeds (seeds_of vs) seeds ≡ true
    → leb 1 (length vs) ≡ true
measured_once [] [] n h = absurd (n refl)
measured_once [] (s ∷ seeds) n h = ground arith
measured_once (v ∷ vs) seeds n h = ground arith

module _ (mean : FiniteFloat → FiniteFloat → Option FiniteFloat) where
  -- A metric's verdict is consistent, names its metric and counts its values.
  pub verdict_fields :
      (m : MetricSpec) (values : Values) (w : MetricVerdict)
      → metric_verdict mean m values ≡ ok w
      → (flag_is_consistent w ≡ true) × (w.metric ≡ m.name) × (w.seed_count ≡ length values)
  unfolding metric_verdict
  verdict_fields m values w h =
      let (a, e, h') = >>=-eq-ok (median mean (ordered values)) _ h in
      ground (arith, length-ordered values)

  module _ (seeds : List ℤ) (groups : Dict Values) where
    Rounds-least :
        {ms : List MetricSpec} {ws : List MetricVerdict} (n : ℕ)
        → Rounds mean seeds groups ms ws
        → at_least n (names ms) ≡ true
        → at_least n (verdict_names ws) ≡ true
    Rounds-least n done h = refl
    Rounds-least n (skipped r z rs) h = ground (arith, Rounds-least n rs)
    Rounds-least n (scored {m = m} {w = w} (v, c) rs) h =
        ground (arith, Rounds-least n rs, verdict_fields m (values_at m.name groups) w v)

    pub Rounds-sorted :
        {ms : List MetricSpec} {ws : List MetricVerdict}
        → Rounds mean seeds groups ms ws
        → is_sorted (names ms) ≡ true
        → is_sorted (verdict_names ws) ≡ true
    Rounds-sorted done h = refl
    Rounds-sorted (skipped r z rs) h = ground (arith, Rounds-sorted rs)
    Rounds-sorted (scored {m = m} {w = w} (v, c) rs) h = ground (
      arith,
      Rounds-sorted rs,
      Rounds-least m.name rs,
      verdict_fields m (values_at m.name groups) w v,
    )

    Rounds-contains :
        {ms : List MetricSpec} {ws : List MetricVerdict} (i : Identifier)
        → Rounds mean seeds groups ms ws
        → contains i (names ms) ≡ false
        → contains i (verdict_names ws) ≡ false
    Rounds-contains i done h = refl
    Rounds-contains i (skipped r z rs) h = ground (arith, Rounds-contains i rs)
    Rounds-contains i (scored {m = m} {w = w} (v, c) rs) h =
        ground (arith, Rounds-contains i rs, verdict_fields m (values_at m.name groups) w v)

    pub Rounds-distinct :
        {ms : List MetricSpec} {ws : List MetricVerdict}
        → Rounds mean seeds groups ms ws
        → distinct (names ms) ≡ true
        → distinct (verdict_names ws) ≡ true
    Rounds-distinct done h = refl
    Rounds-distinct (skipped r z rs) h = ground (arith, Rounds-distinct rs)
    Rounds-distinct (scored {m = m} {w = w} (v, c) rs) h = ground (
      arith,
      Rounds-distinct rs,
      Rounds-contains m.name rs,
      verdict_fields m (values_at m.name groups) w v,
    )

    pub Rounds-consistent :
        {ms : List MetricSpec} {ws : List MetricVerdict}
        → Rounds mean seeds groups ms ws
        → all flag_is_consistent ws ≡ true
    Rounds-consistent done = refl
    Rounds-consistent (skipped r z rs) = Rounds-consistent rs
    Rounds-consistent (scored {m = m} {w = w} (v, c) rs) =
        ground (arith, Rounds-consistent rs, verdict_fields m (values_at m.name groups) w v)

    pub Rounds-counted :
        {ms : List MetricSpec} {ws : List MetricVerdict}
        → seeds ≢ []
        → Rounds mean seeds groups ms ws
        → all (λ (w : MetricVerdict). leb 1 w.seed_count) ws ≡ true
    Rounds-counted some_seed done = refl
    Rounds-counted some_seed (skipped r z rs) = Rounds-counted some_seed rs
    Rounds-counted some_seed (scored {m = m} {w = w} (v, c) rs) = ground (
      arith,
      Rounds-counted some_seed rs,
      verdict_fields m (values_at m.name groups) w v,
      measured_once (values_at m.name groups) seeds some_seed c,
    )

-- The failing names are sorted as the names are.
failing_least :
    (n : ℕ) (ws : List MetricVerdict)
    → at_least n (verdict_names ws) ≡ true
    → at_least n (failing_of ws) ≡ true
failing_least n [] h = refl
failing_least n (w ∷ ws) h = ground (arith, failing_least n ws)

pub failing_sorted :
    (ws : List MetricVerdict)
    → is_sorted (verdict_names ws) ≡ true
    → is_sorted (failing_of ws) ≡ true
failing_sorted [] h = refl
failing_sorted (w ∷ ws) h = ground (arith, failing_sorted ws, failing_least w.metric ws)
