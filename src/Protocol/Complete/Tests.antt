-- ===== src/Protocol/Complete/Tests.antt =====
-- Complete measurements of a concrete protocol.
use latent_compass.Prelude.{
  ◌≡◌, ◌⊎◌, refl, true, false, [], ok, inl, inr, arith, Option, none, some, map, all, leb,
  all-Listed, if◌then◌else◌, ◌+◌,
}
use Prim.Native.Nat.{◌/◌}
use mathlib.Core.Path.{subst}
use latent_compass.Protocol.Specs.{FiniteFloat, MetricSpec}
use latent_compass.Contracts.{Identifier}
use latent_compass.Protocol.Preregistration.{
  validated_preregistration, load_preregistration, split_spec,
}
use latent_compass.Protocol.Verdict.{load_measurement_set, Verdict}
use latent_compass.Protocol.Score.{seeds_of, same_seeds, check_evidence, score_measurements}
use latent_compass.Protocol.Continue.{values_of}
use latent_compass.Protocol.Complete.{Unrepeated, Averaged, Complete, score_measurements_returns}
use latent_compass.Protocol.Tests.{half, study, study_seal, body_seal, runs}

runs-Unrepeated : Unrepeated runs
runs-Unrepeated k = ground arith

-- A metric of the study is measured at both seeds, or is optional and is not measured.
abbrev MeasuredOrNot : MetricSpec → Type 0
MeasuredOrNot m =
    ((m.required ≡ false) × (values_of m.name runs ≡ []))
    ⊎ (same_seeds (seeds_of (values_of m.name runs)) study.seeds ≡ true)

runs-Complete : Complete study runs
runs-Complete m (inl e) = subst MeasuredOrNot e (inr refl)
runs-Complete m (inr (inl e)) = subst MeasuredOrNot e (inr refl)
runs-Complete m (inr (inr (inl e))) = subst MeasuredOrNot e (inl (refl, refl))
runs-Complete m (inr (inr (inr (inl e)))) = subst MeasuredOrNot e (inl (refl, refl))
runs-Complete m (inr (inr (inr (inr (inl e))))) = subst MeasuredOrNot e (inl (refl, refl))
runs-Complete m (inr (inr (inr (inr (inr (inl e)))))) = subst MeasuredOrNot e (inl (refl, refl))
runs-Complete m (inr (inr (inr (inr (inr (inr (inl e))))))) =
    subst MeasuredOrNot e (inl (refl, refl))
runs-Complete m (inr (inr (inr (inr (inr (inr (inr (inl e)))))))) =
    subst MeasuredOrNot e (inl (refl, refl))
runs-Complete m (inr (inr (inr (inr (inr (inr (inr (inr e)))))))) = absurd e

study_loads : load_preregistration study ≡ ok study
unfolding load_preregistration validated_preregistration
study_loads = refl

runs_load : load_measurement_set runs ≡ ok runs
unfolding load_measurement_set
runs_load = refl

runs_are_bound : check_evidence (study_seal study) study runs ≡ ok tt
unfolding check_evidence split_spec
runs_are_bound = refl

-- A mean that overflows above a sum of 1000.
abbrev bounded_mean : FiniteFloat → FiniteFloat → Option FiniteFloat
bounded_mean x y = if leb (x + y) 1000 then half x y else none

bounded-half :
    (x y : FiniteFloat)
    → leb x 500 ≡ true
    → leb y 500 ≡ true
    → bounded_mean x y ≡ some ((x + y) / 2)
bounded-half x y h k = ground arith

runs_are_small : (k : Identifier) → all (λ x. leb x 500) (map (λ v. v.1) (values_of k runs)) ≡ true
runs_are_small k = ground arith

runs-Averaged : Averaged bounded_mean study runs
runs-Averaged m l x y lx ly =
    let values = map (λ v. v.1) (values_of m.name runs) in
    let small = runs_are_small m.name in
    (
      (x + y) / 2,
      bounded-half x y (all-Listed (λ x. leb x 500) values x small lx)
          (all-Listed (λ x. leb x 500) values y small ly),
    )

-- The largest values overflow.
overflows : bounded_mean 600 600 ≡ none
overflows = refl

score_measurements_returns_example :
    (v : Verdict) × (score_measurements bounded_mean study_seal body_seal study runs ≡ ok v)
score_measurements_returns_example =
    score_measurements_returns bounded_mean study_seal body_seal study runs runs-Averaged
      study_loads runs_load runs_are_bound runs-Unrepeated refl runs-Complete
