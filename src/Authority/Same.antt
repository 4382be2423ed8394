-- ===== src/Authority/Same.antt =====
-- src/latent_compass/authority.py: verdicts with the same payload are the same.
use latent_compass.Prelude.{◌≡◌, refl, true, List, [], ◌∷◌, arith, ◌==◌}
use text.Mathlib.TextEquality.{eq_iff}
use latent_compass.Contracts.{Identifier}
use latent_compass.Authority.Evidence.{
  same_verdict, same_metric, same_metrics, same_direction, same_purpose, same_bool,
}
use latent_compass.Protocol.Specs.{MetricFamily, family_rank, MetricDirection, Split, same_split}
use latent_compass.Protocol.Verdict.{
  HoldoutPurpose, ContinueKill, is_kill, MetricVerdict, Verdict, same_ids,
}

same_family-eq : (f g : MetricFamily) → (family_rank f == family_rank g) ≡ true → f ≡ g
same_family-eq f g h = ground arith

same_direction-eq : (d e : MetricDirection) → same_direction d e ≡ true → d ≡ e
same_direction-eq d e h = ground arith

same_split-eq : (s t : Split) → same_split s t ≡ true → s ≡ t
same_split-eq s t h = ground arith

same_purpose-eq : (p q : HoldoutPurpose) → same_purpose p q ≡ true → p ≡ q
same_purpose-eq p q h = ground arith

same_decision-eq : (c d : ContinueKill) → same_bool (is_kill c) (is_kill d) ≡ true → c ≡ d
same_decision-eq c d h = ground arith

same_metric-eq : (a b : MetricVerdict) → same_metric a b ≡ true → a ≡ b
same_metric-eq a b h =
    ground (arith, same_family-eq a.family b.family, same_direction-eq a.direction b.direction)

same_metrics-eq : (xs ys : List MetricVerdict) → same_metrics xs ys ≡ true → xs ≡ ys
same_metrics-eq [] [] h = refl
same_metrics-eq [] (y ∷ ys) h = cc
same_metrics-eq (x ∷ xs) [] h = cc
same_metrics-eq (x ∷ xs) (y ∷ ys) h = ground (arith, same_metric-eq x y, same_metrics-eq xs ys)

same_ids-eq : (xs ys : List Identifier) → same_ids xs ys ≡ true → xs ≡ ys
same_ids-eq [] [] h = refl
same_ids-eq [] (y ∷ ys) h = cc
same_ids-eq (x ∷ xs) [] h = cc
same_ids-eq (x ∷ xs) (y ∷ ys) h = ground (arith, same_ids-eq xs ys)

pub same_verdict-eq : (v w : Verdict) → same_verdict v w ≡ true → v ≡ w
unfolding same_verdict
same_verdict-eq v w h = ground (
  arith,
  eq_iff v.contract_version w.contract_version,
  same_decision-eq v.decision w.decision,
  same_split-eq v.split w.split,
  same_purpose-eq v.purpose w.purpose,
  same_metrics-eq v.metrics w.metrics,
  same_ids-eq v.failing_metrics w.failing_metrics,
)
