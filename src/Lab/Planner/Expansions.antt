-- ===== src/Lab/Planner/Expansions.antt =====
-- A search expands no more nodes than it may.
use latent_compass.Prelude.{
  ℕ, zero, suc, ◌+◌, ◌-◌, ◌≤◌, false, Option-cases, Bool-cases, List, [], ◌∷◌, arith, inl, inr, leb,
}
use latent_compass.Contracts.{Identifier}
use latent_compass.Lab.Dict.{Dict}
use latent_compass.Lab.Model.{Probe, DiagnosisModel}
use latent_compass.Lab.Planner.{Satisfied, acquired, partitions, candidates, Answer, share, better}
use latent_compass.Lab.Planner.Rational.{Fraction, whole, plus}
use latent_compass.Lab.Planner.Search.{
  Key, SearchState, key_of, cached, Recur, explore_outcomes, explore_probes, stop, expand, search,
  search_root,
}

module _ (max_expansions : ℕ) where
  abbrev Counts : Recur → Type 0
  Counts recur =
      (posterior : Dict ℕ) (satisfied : Satisfied) (budget : ℕ) (s : SearchState)
      → s.counter ≤ max_expansions
      → (recur posterior satisfied budget s).1.counter ≤ max_expansions

  module _ (recur : Recur) (counts : Counts recur) where
    module _ (posterior : Dict ℕ) (satisfied : Satisfied) (budget : ℕ) where
      explore_outcomes-counter :
          (p : Probe) (parts : Dict (Dict ℕ)) (c : Fraction) (s : SearchState)
          → s.counter ≤ max_expansions
          → (explore_outcomes recur posterior satisfied budget p parts c s).1.counter
            ≤ max_expansions
      unfolding explore_outcomes
      explore_outcomes-counter p [] c s h = h
      explore_outcomes-counter p ((o, sub) ∷ parts) c s h =
          let call = recur sub ((p.id, o) ∷ satisfied) (budget - p.cost) s in
          explore_outcomes-counter p parts (plus c (share posterior sub call.0.0)) call.1
            (counts sub ((p.id, o) ∷ satisfied) (budget - p.cost) s h)

      explore_probes-counter :
          (ps : List Probe) (best : Answer) (values : Dict Fraction) (s : SearchState)
          → s.counter ≤ max_expansions
          → (explore_probes recur posterior satisfied budget ps best values s).state.counter
            ≤ max_expansions
      unfolding explore_probes
      explore_probes-counter [] best values s h = h
      explore_probes-counter (p ∷ ps) best values s h =
          let x =
            explore_outcomes recur posterior satisfied budget p (partitions p posterior) (whole 0)
              s in
          let v = plus (whole p.cost) x.0 in
          explore_probes-counter ps (better best p v) ((p.id, v) ∷ values) x.1
            (explore_outcomes-counter p (partitions p posterior) (whole 0) s h)

    expand-counter :
        (m : DiagnosisModel) (excluded : List Identifier) (k : Key) (s : SearchState)
        → s.counter ≤ max_expansions
        → (expand m excluded max_expansions recur k s).1.counter ≤ max_expansions
    unfolding expand
    expand-counter m excluded k s h = elim (Bool-cases s.exhausted) [
      | inl e ↦ rw (e, expand) h
      | inr e ↦ elim (Bool-cases (leb max_expansions s.counter)) [
        | inl f ↦ rw (e, f, expand) h
        | inr f ↦
            rw (e, f, expand)
              (explore_probes-counter k.posterior k.satisfied k.budget
                (candidates m excluded (acquired k.satisfied) k.budget)
                (stop m k.posterior k.satisfied) []
                (record { memo = s.memo; counter = s.counter + 1; exhausted = false })
                (ground (arith, f)))
      ]
    ]

  module _ (m : DiagnosisModel) (excluded : List Identifier) where
    search-Counts : (horizon : ℕ) → Counts (search m excluded max_expansions horizon)
    unfolding search
    search-Counts zero posterior satisfied budget s h =
        elim (Option-cases (cached (key_of posterior satisfied budget 0) s)) [
          | inl e ↦ rw (e, search) h
          | inr (x, e) ↦ rw (e, search) h
        ]
    search-Counts (suc horizon) posterior satisfied budget s h =
        let k = key_of posterior satisfied budget (suc horizon) in
        elim (Option-cases (cached k s)) [
          | inl e ↦
              rw (e, search)
                (expand-counter (search m excluded max_expansions horizon) (search-Counts horizon) m
                  excluded k s h)
          | inr (x, e) ↦ rw (e, search) h
        ]

    -- `expansions_used` never passes `max_expansions`.
    pub search_root-counter :
        (horizon : ℕ) (posterior : Dict ℕ) (satisfied : Satisfied) (budget : ℕ)
        → (search_root m excluded max_expansions horizon posterior satisfied budget).1.counter
          ≤ max_expansions
    unfolding search_root
    search_root-counter zero posterior satisfied budget = omega arith
    search_root-counter (suc horizon) posterior satisfied budget =
        expand-counter (search m excluded max_expansions horizon) (search-Counts horizon) m excluded
          (key_of posterior satisfied budget (suc horizon))
          (record { memo = []; counter = 0; exhausted = false }) (omega arith)
