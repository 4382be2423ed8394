-- ===== src/Protocol/Grouping.antt =====
-- src/latent_compass/protocol.py: the values that `score_measurements` groups by metric and by seed
-- are those that the measurement set lists.
use latent_compass.Prelude.{
  ◌≡◌, refl, List, [], ◌∷◌, ◌++◌, ok, map, arith, >>=-eq-ok, ◌∙◌, ap, ◌==◌, if◌then◌else◌,
}
use latent_compass.Prelude.Int.{ℤ}
use latent_compass.Prelude.Sorting.{insert_by, insert-insert}
use latent_compass.Contracts.{Identifier}
use latent_compass.Lab.Dict.{Dict, lookup-put}
use latent_compass.Protocol.Specs.{FiniteFloat}
use latent_compass.Protocol.Verdict.{Measurement}
use latent_compass.Protocol.Score.{
  Values, by_metric, add_measurement, values_at, ordered, sort_values, insert_seed, sort_seeds,
}

-- The values listed for a metric, each with its seed.
abbrev pub measured : Identifier → List Measurement → Values
measured k [] = []
measured k (m ∷ ms) =
    let rest = measured k ms in if k == m.metric then (m.seed, m.value) ∷ rest else rest

pub append_assoc : (xs ys zs : Values) → (xs ++ ys) ++ zs ≡ xs ++ (ys ++ zs)
append_assoc [] ys zs = refl
append_assoc (x ∷ xs) ys zs = ground (arith, append_assoc xs ys zs)

pub append_nil : (xs : Values) → xs ++ [] ≡ xs
append_nil [] = refl
append_nil (x ∷ xs) = ground (arith, append_nil xs)

pub by_metric-measured :
    (ms : List Measurement) (before after : Dict Values) (k : Identifier)
    → by_metric ms before ≡ ok after
    → values_at k after ≡ values_at k before ++ measured k ms
unfolding by_metric
by_metric-measured [] before after k h = ground (arith, append_nil (values_at k before))
by_metric-measured (m ∷ ms) before after k h =
    let (mid, e, h') = >>=-eq-ok (add_measurement m before) _ h in
    ground (
      arith,
      by_metric-measured ms mid after k h',
      lookup-put k m.metric (values_at m.metric before ++ (m.seed, m.value) ∷ []) before,
      append_assoc (values_at k before) ((m.seed, m.value) ∷ []) (measured k ms),
    )

insert-seed :
    (x : ℤ × FiniteFloat) (ys : Values)
    → sort_values (map (λ v. v.1) (insert_seed x ys))
      ≡ insert_by (λ v. v) x.1 (sort_values (map (λ v. v.1) ys))
insert-seed x [] = refl
insert-seed x (y ∷ ys) =
    ground (arith, insert-seed x ys, insert-insert x.1 y.1 (sort_values (map (λ v. v.1) ys)))

-- The order of the seeds does not change the sorted values.
pub sort_values-ordered : (vs : Values) → sort_values (ordered vs) ≡ sort_values (map (λ v. v.1) vs)
sort_values-ordered [] = refl
sort_values-ordered (v ∷ vs) =
    insert-seed v (sort_seeds vs) ∙ ap (insert_by (λ x. x) v.1) (sort_values-ordered vs)
