-- ===== src/Lab/Planner/Bellman.antt =====
-- The value that a search approximates: the recursion of `_search` without memo, counter and flag.
-- The evidence is a test on pairs and a test on probes.
use latent_compass.Prelude.{ℕ, zero, suc, ◌-◌, Bool, ◌&&◌, ◌||◌, none, List, [], ◌∷◌, ◌==◌}
use latent_compass.Contracts.{Identifier}
use latent_compass.Lab.Dict.{Dict}
use latent_compass.Lab.Model.{Probe, DiagnosisModel}
use latent_compass.Lab.Planner.{stopping, partitions, candidates, Answer, share, better}
use latent_compass.Lab.Planner.Rational.{Fraction, whole, plus}

abbrev pub Evidence : Type 0
Evidence = Identifier → Identifier → Bool

abbrev pub with_pair : Identifier → Identifier → Evidence → Evidence
with_pair p o has = λ q r. (q == p) && (r == o) || has q r

abbrev pub with_probe : Identifier → (Identifier → Bool) → Identifier → Bool
with_probe p is_acquired = λ q. (q == p) || is_acquired q

-- The value of a posterior, an evidence and a budget, at the horizon below.
abbrev pub Valuation : Type 0
Valuation = Dict ℕ → Evidence → (Identifier → Bool) → ℕ → Answer

module _ (below : Valuation) (posterior : Dict ℕ) (has : Evidence) (is_acquired : Identifier → Bool)
    (budget : ℕ) where
  -- The continuation of a probe: the sum over its outcomes.
  unfoldable pub sum_outcomes : Probe → Dict (Dict ℕ) → Fraction → Fraction
  sum_outcomes p [] continuation = continuation
  sum_outcomes p ((outcome, sub) ∷ parts) continuation = sum_outcomes p parts (
      plus continuation (
        share posterior sub
          (below sub (with_pair p.id outcome has) (with_probe p.id is_acquired)
            (budget - p.cost)).0))

  unfoldable pub least_probe : List Probe → Answer → Answer
  unfolding sum_outcomes
  least_probe [] best = best
  least_probe (p ∷ ps) best =
      least_probe ps
        (better best p (plus (whole p.cost) (sum_outcomes p (partitions p posterior) (whole 0))))

module _ (m : DiagnosisModel) (excluded : List Identifier) where
  unfoldable pub bellman : ℕ → Valuation
  bellman zero posterior has is_acquired budget = ((stopping m posterior has).1, none)
  bellman (suc horizon) posterior has is_acquired budget =
      least_probe (bellman horizon) posterior has is_acquired budget
        (candidates m excluded is_acquired budget) ((stopping m posterior has).1, none)
