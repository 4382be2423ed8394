-- ===== src/Lab/Planner.antt =====
-- src/latent_compass/lab/planner.py: `_admissible_decisions`, `_expected_loss`, `_stopping`,
-- `_search` and the choice of probes.
pub mod Rational
pub mod Plan
pub mod Planned
pub mod Propose
pub mod Search
pub mod Bellman
pub mod Keys
pub mod Loops
pub mod Exact
pub mod Expansions
pub mod Recommends
pub mod Stopping
mod Tests
use latent_compass.Prelude.{
  ℕ, zero, suc, ◌+◌, ◌*◌, ◌-◌, Bool, true, false, not, ◌&&◌, ◌||◌, Option, none, some, List, [],
  ◌∷◌, ◌++◌, map, leb, ◌==◌, contains, all, any, find, keep, if◌then◌else◌,
}
use latent_compass.Prelude.Sorting.{sort_by}
use latent_compass.Contracts.{Identifier}
use latent_compass.Lab.Dict.{Dict, lookup}
use latent_compass.Lab.Model.{EvidenceRequirement, Probe, Decision, DiagnosisModel}
use Rational.{Fraction, whole, plus, times, less}

-- The pairs (probe id, outcome id) that were observed.
abbrev pub Satisfied : Type 0
Satisfied = List (Identifier × Identifier)

abbrev pub is_pair : Identifier → Identifier → Identifier × Identifier → Bool
is_pair p o q = (p == q.0) && (o == q.1)

abbrev pub has_pair : Satisfied → Identifier → Identifier → Bool
has_pair satisfied p o = any (is_pair p o) satisfied

abbrev pub acquired : Satisfied → Identifier → Bool
acquired satisfied i = contains i (map (λ q. q.0) satisfied)

-- What `d[k]` is. A coherent model lists each of its worlds in each of its dicts, so that the
-- source's `KeyError` does not occur, and zero stands in its place.
abbrev pub entry : Identifier → Dict ℕ → ℕ
entry k d = elim (lookup k d) [ none ↦ 0 | some v ↦ v ]

abbrev pub total_weight : Dict ℕ → ℕ
total_weight [] = 0
total_weight ((w, n) ∷ d) = n + total_weight d

abbrev weighted : Dict ℕ → Dict ℕ → ℕ
weighted losses [] = 0
weighted losses ((w, n) ∷ d) = n * entry w losses + weighted losses d

unfoldable pub expected_loss : Dict ℕ → Decision → Fraction
expected_loss posterior d = record {
  numerator = weighted d.losses posterior;
  denominator = total_weight posterior;
}

-- The evidence is a test on probe and outcome.
unfoldable pub admissible_decisions :
    DiagnosisModel → (Identifier → Identifier → Bool) → List Decision
admissible_decisions m has =
    keep (λ d. all (λ r. has (EvidenceRequirement.probe_id r) r.outcome_id) d.required_evidence)
      m.decisions

-- The loop of `_stopping`.
unfoldable pub best_decision :
    Dict ℕ → Identifier × Fraction → List Decision → Identifier × Fraction
best_decision posterior best [] = best
best_decision posterior best (d ∷ ds) =
    let value = expected_loss posterior d in
    best_decision posterior (if less value best.1 then (d.id, value) else best) ds

-- The abstain decision requires no evidence, so that some decision is admissible.
unfoldable pub first_best : DiagnosisModel → Dict ℕ → List Decision → Identifier × Fraction
unfolding best_decision expected_loss
first_best m posterior [] = (m.abstain_decision_id, whole 0)
first_best m posterior (d ∷ ds) = best_decision posterior (d.id, expected_loss posterior d) ds

unfoldable pub stopping :
    DiagnosisModel → Dict ℕ → (Identifier → Identifier → Bool) → Identifier × Fraction
unfolding admissible_decisions first_best
stopping m posterior has =
    first_best m posterior (sort_by (λ d. Decision.id d) (admissible_decisions m has))

-- `partitions`, by outcome in the order of their first world.
abbrev pub add_world : Identifier → Identifier × ℕ → Dict (Dict ℕ) → Dict (Dict ℕ)
add_world outcome e [] = (outcome, e ∷ []) ∷ []
add_world outcome e ((o, sub) ∷ parts) =
    let rest = add_world outcome e parts in
    if outcome == o then (o, sub ++ e ∷ []) ∷ parts else (o, sub) ∷ rest

abbrev partition_onto : Probe → Dict ℕ → Dict (Dict ℕ) → Dict (Dict ℕ)
partition_onto p [] parts = parts
partition_onto p (e ∷ posterior) parts =
    partition_onto p posterior (add_world (entry e.0 p.outcomes) e parts)

unfoldable pub partitions : Probe → Dict ℕ → Dict (Dict ℕ)
partitions p posterior = partition_onto p posterior []

-- The affordable probes that are neither acquired nor excluded, by id.
unfoldable pub candidates : DiagnosisModel → List Identifier → (Identifier → Bool) → ℕ → List Probe
candidates m excluded is_acquired budget =
    sort_by (λ p. Probe.id p)
      (keep (λ p. not (is_acquired p.id) && not (contains p.id excluded) && leb p.cost budget)
        m.probes)

-- A value with the probe that reaches it, or none to stop.
abbrev pub Answer : Type 0
Answer = Fraction × Option Identifier

-- One outcome's share of a continuation.
abbrev pub share : Dict ℕ → Dict ℕ → Fraction → Fraction
share posterior sub value =
    times (record { numerator = total_weight sub; denominator = total_weight posterior }) value

abbrev pub better : Answer → Probe → Fraction → Answer
better best p value = if less value best.0 then (value, some p.id) else best
