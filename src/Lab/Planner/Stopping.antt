-- ===== src/Lab/Planner/Stopping.antt =====
-- `_stopping` chooses an admissible decision of least expected loss.
use latent_compass.Prelude.{
  ℕ, ◌≡◌, refl, sym, ◌∙◌, ap, Bool, true, false, List, [], ◌∷◌, arith, leb, all, keep, Listed,
  find-Listed, inl, inr, Bool-cases, Option-cases, length, ◌==◌,
}
use latent_compass.Contracts.{Identifier}
use latent_compass.Lab.Dict.{Dict}
use latent_compass.Lab.Model.{
  EvidenceRequirement, Decision, DiagnosisModel, decision_by_id, abstains, model_is_coherent,
}
use latent_compass.Lab.Planner.{
  expected_loss, admissible_decisions, best_decision, first_best, stopping,
}
use latent_compass.Lab.Planner.Rational.{Fraction, less}
use latent_compass.Prelude.Sorting.{sort_by, Listed-sort, sort-Listed, Listed-keep, keep-Listed}

-- The evidence admits the decision.
abbrev pub Admitted : (Identifier → Identifier → Bool) → Decision → Type 0
Admitted has d =
    all (λ r. has (EvidenceRequirement.probe_id r) r.outcome_id) d.required_evidence ≡ true

module _ (posterior : Dict ℕ) where
  abbrev loss : Decision → Identifier × Fraction
  loss d = (d.id, expected_loss posterior d)

  -- No decision of the list has a smaller loss.
  abbrev Least : Decision → List Decision → Type 0
  Least d ds =
      (e : Decision)
      → Listed e ds
      → less (expected_loss posterior e) (expected_loss posterior d) ≡ false

  -- All losses have the total weight as their denominator.
  less_self : (b : Decision) → less (expected_loss posterior b) (expected_loss posterior b) ≡ false
  unfolding expected_loss
  less_self b = ground arith

  less_left :
      (b c d : Decision)
      → less (expected_loss posterior c) (expected_loss posterior b) ≡ true
      → less (expected_loss posterior c) (expected_loss posterior d) ≡ false
      → less (expected_loss posterior b) (expected_loss posterior d) ≡ false
  unfolding expected_loss
  less_left b c d h k = ground arith

  less_right :
      (b c d : Decision)
      → less (expected_loss posterior c) (expected_loss posterior b) ≡ false
      → less (expected_loss posterior b) (expected_loss posterior d) ≡ false
      → less (expected_loss posterior c) (expected_loss posterior d) ≡ false
  unfolding expected_loss
  less_right b c d h k = ground arith

  not_less_path :
      (b e d : Decision)
      → b ≡ e
      → less (expected_loss posterior b) (expected_loss posterior d) ≡ false
      → less (expected_loss posterior e) (expected_loss posterior d) ≡ false
  not_less_path b e d p h =
      ap (λ x. less (expected_loss posterior x) (expected_loss posterior d)) (sym p) ∙ h

  best_decision-Least :
      (b : Decision) (ds : List Decision)
      → (d : Decision) × (best_decision posterior (loss b) ds ≡ loss d)
        × Listed d (b ∷ ds)
        × Least d (b ∷ ds)
  unfolding best_decision
  best_decision-Least b [] = (
    b,
    refl,
    inl refl,
    λ e h. elim h [ inl p ↦ not_less_path b e b p (less_self b) | inr n ↦ absurd n ],
  )
  best_decision-Least b (c ∷ ds) =
      elim (Bool-cases (less (expected_loss posterior c) (expected_loss posterior b))) [
        | inl t ↦
            let (d, same, listed, least) = best_decision-Least c ds in
            (
              d,
              rw (t, best_decision) same,
              inr listed,
              λ e h. elim h [
                | inl p ↦ not_less_path b e d p (less_left b c d t (least c (inl refl)))
                | inr q ↦ least e q
              ],
            )
        | inr t ↦
            let (d, same, listed, least) = best_decision-Least b ds in
            (
              d,
              rw (t, best_decision) same,
              elim listed [ inl p ↦ inl p | inr q ↦ inr (inr q) ],
              λ e h. elim h [
                | inl p ↦ least e (inl p)
                | inr (inl p) ↦ not_less_path c e d p (less_right b c d t (least b (inl refl)))
                | inr (inr q) ↦ least e (inr q)
              ],
            )
      ]

  first_best-Least :
      (m : DiagnosisModel) (a : Decision) (ds : List Decision)
      → Listed a ds
      → (d : Decision) × (first_best m posterior ds ≡ loss d) × Listed d ds × Least d ds
  unfolding first_best
  first_best-Least m a [] h = absurd h
  first_best-Least m a (b ∷ ds) h = best_decision-Least b ds

no_items : (xs : List EvidenceRequirement) → leb (length xs) 0 ≡ true → xs ≡ []
no_items [] h = refl
no_items (x ∷ xs) h = absurd (ground (arith, h))

-- The abstain decision is declared, and admissible on any evidence.
abstain-Admitted :
    (m : DiagnosisModel) (has : Identifier → Identifier → Bool)
    → model_is_coherent m ≡ true
    → (a : Decision) × Listed a m.decisions × Admitted has a
unfolding model_is_coherent abstains
abstain-Admitted m has h = elim (Option-cases (decision_by_id m m.abstain_decision_id)) [
  | inl e ↦ absurd (ground arith)
  | inr (a, e) ↦
      let nothing = no_items a.required_evidence (ground arith) in
      let (listed, found) =
        find-Listed (λ (d : Decision). d.id == m.abstain_decision_id) m.decisions a
          (unfold decision_by_id in e) in
      (a, listed, ap (all (λ r. has (EvidenceRequirement.probe_id r) r.outcome_id)) nothing)
]

-- For a coherent model, `_stopping` returns a declared decision whose required evidence was observed,
-- with its expected loss, and no declared decision whose evidence was observed has a smaller one.
pub stopping_least :
    (m : DiagnosisModel) (posterior : Dict ℕ) (has : Identifier → Identifier → Bool)
    → model_is_coherent m ≡ true
    → (d : Decision) × Listed d m.decisions
      × Admitted has d
      × (stopping m posterior has ≡ (d.id, expected_loss posterior d))
      × ((e : Decision)
          → Listed e m.decisions
          → Admitted has e
          → less (expected_loss posterior e) (expected_loss posterior d) ≡ false)
unfolding stopping admissible_decisions
stopping_least m posterior has h =
    let admits : Decision → Bool =
      λ d. all (λ r. has (EvidenceRequirement.probe_id r) r.outcome_id) d.required_evidence in
    let (a, declared, free) = abstain-Admitted m has h in
    let (d, same, listed, least) =
      first_best-Least posterior m a (sort_by (λ d. Decision.id d) (keep admits m.decisions)) (
        Listed-sort (λ d. Decision.id d) a (keep admits m.decisions)
          (Listed-keep admits a m.decisions declared free)) in
    let (l, k) =
      keep-Listed admits d m.decisions
        (sort-Listed (λ d. Decision.id d) d (keep admits m.decisions) listed) in
    (
      d,
      l,
      k,
      same,
      λ e le ke. least e (
          Listed-sort (λ d. Decision.id d) e (keep admits m.decisions)
            (Listed-keep admits e m.decisions le ke)),
    )
