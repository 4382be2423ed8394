-- ===== src/Protocol/Grouped.antt =====
-- src/latent_compass/protocol.py: the loop that groups the measurements ends when no metric has two
-- values at one seed.
use latent_compass.Prelude.{
  ◌≡◌, ◌≢◌, refl, Bool, true, false, List, [], ◌∷◌, ◌++◌, none, ok, all, arith, sym, >>=-eq-ok,
}
use mathlib.Core.Path.{subst}
use latent_compass.Prelude.Int.{ℤ}
use latent_compass.Contracts.{Identifier}
use latent_compass.Lab.Dict.{Dict, keys, lookup, put, lookup-put}
use latent_compass.Protocol.Specs.{FiniteFloat}
use latent_compass.Protocol.Preregistration.{has_seed, eq_ℤ, distinct_seeds}
use latent_compass.Protocol.Verdict.{Measurement}
use latent_compass.Protocol.Score.{Values, values_at, seeds_of, by_metric, add_measurement}
use latent_compass.Protocol.Grouping.{measured, append_assoc}

seed_later :
    (z : ℤ) (xs : Values) (x : ℤ × FiniteFloat) (ys : Values)
    → has_seed z (seeds_of (xs ++ x ∷ ys)) ≡ false
    → eq_ℤ z x.0 ≡ false
seed_later z [] x ys h = ground arith
seed_later z (v ∷ xs) x ys h = seed_later z xs x ys (ground arith)

not_empty : (xs : Values) (x : ℤ × FiniteFloat) → xs ++ x ∷ [] ≢ []
not_empty [] x h = cc
not_empty (y ∷ xs) x h = cc

-- A seed that comes again later does not stand before.
distinct_before :
    (xs ys : Values) (x : ℤ × FiniteFloat)
    → distinct_seeds (seeds_of (xs ++ x ∷ ys)) ≡ true
    → has_seed x.0 (seeds_of xs) ≡ false
distinct_before [] ys x h = refl
distinct_before (z ∷ xs) ys x h = ground (arith, distinct_before xs ys x, seed_later z.0 xs x ys)

grown_values :
    (m : Measurement) (ms : List Measurement) (before : Dict Values) (k : Identifier)
    → values_at k (put m.metric (values_at m.metric before ++ (m.seed, m.value) ∷ []) before)
        ++ measured k ms
      ≡ values_at k before ++ measured k (m ∷ ms)
grown_values m ms before k = ground (
  arith,
  lookup-put k m.metric (values_at m.metric before ++ (m.seed, m.value) ∷ []) before,
  append_assoc (values_at k before) ((m.seed, m.value) ∷ []) (measured k ms),
)

pub by_metric_returns :
    (ms : List Measurement) (before : Dict Values)
    → ((k : Identifier) → distinct_seeds (seeds_of (values_at k before ++ measured k ms)) ≡ true)
    → (after : Dict Values) × (by_metric ms before ≡ ok after)
unfolding by_metric
by_metric_returns [] before h = (before, refl)
by_metric_returns (m ∷ ms) before h =
    let values = values_at m.metric before in
    let next = put m.metric (values ++ (m.seed, m.value) ∷ []) before in
    let (after, e) = by_metric_returns ms next (λ k.
      subst (λ vs. distinct_seeds (seeds_of vs) ≡ true) (sym (grown_values m ms before k)) (h k)) in
    let new : has_seed m.seed (seeds_of values) ≡ false =
      distinct_before values (measured m.metric ms) (m.seed, m.value)
        (ground (arith, h m.metric)) in
    (after, rw (new, e) refl)

-- The keys are the metrics that are measured.
keys-put :
    (p : Identifier → Bool) (k : Identifier) (v : Values) (d : Dict Values)
    → p k ≡ true
    → all p (keys d) ≡ true
    → all p (keys (put k v d)) ≡ true
keys-put p k v [] h g = ground arith
keys-put p k v (e ∷ d) h g = ground (arith, keys-put p k v d)

pub by_metric-keys :
    (p : Identifier → Bool) (ms : List Measurement) (before after : Dict Values)
    → by_metric ms before ≡ ok after
    → all (λ (m : Measurement). p m.metric) ms ≡ true
    → all p (keys before) ≡ true
    → all p (keys after) ≡ true
unfolding by_metric
by_metric-keys p [] before after h a g = ground arith
by_metric-keys p (m ∷ ms) before after h a g =
    let (mid, e, h') = >>=-eq-ok (add_measurement m before) _ h in
    by_metric-keys p ms mid after h' (ground arith) (
      ground
        (arith, keys-put p m.metric (values_at m.metric before ++ (m.seed, m.value) ∷ []) before))

-- A metric without a value has no entry.
abbrev pub NoEmpty : Dict Values → Type 0
NoEmpty d = (k : Identifier) → values_at k d ≡ [] → lookup k d ≡ none

pub by_metric-NoEmpty :
    (ms : List Measurement) (before after : Dict Values)
    → by_metric ms before ≡ ok after
    → NoEmpty before
    → NoEmpty after
unfolding by_metric
by_metric-NoEmpty [] before after h n = λ k z. ground (arith, n k)
by_metric-NoEmpty (m ∷ ms) before after h n =
    let (mid, e, h') = >>=-eq-ok (add_measurement m before) _ h in
    by_metric-NoEmpty ms mid after h' (λ k z. ground (
      arith,
      n k,
      lookup-put k m.metric (values_at m.metric before ++ (m.seed, m.value) ∷ []) before,
      not_empty (values_at m.metric before) (m.seed, m.value),
    ))
