-- ===== src/Lab/Planner/Recommends.antt =====
-- The probe that a search recommends can be acquired.
use latent_compass.Prelude.{
  ℕ, zero, suc, ◌+◌, ◌≤◌, ◌≡◌, refl, ◌⊎◌, Bool, false, not, ◌&&◌, some, List, [], ◌∷◌, arith,
  Listed, contains, leb, inl, inr, Bool-cases,
}
use mathlib.Core.Path.{subst}
use latent_compass.Contracts.{Identifier}
use latent_compass.Lab.Dict.{Dict}
use latent_compass.Lab.Model.{Probe, DiagnosisModel}
use latent_compass.Lab.Planner.{Satisfied, acquired, partitions, candidates, Answer, better}
use latent_compass.Lab.Planner.Rational.{Fraction, whole, plus, less}
use latent_compass.Lab.Planner.Search.{
  Key, SearchState, Recur, key_of, explore_outcomes, explore_probes, stop, expand, search,
  search_root, fresh_state,
}
use latent_compass.Prelude.Sorting.{sort-Listed, keep-Listed}

-- A declared probe that is neither acquired nor excluded, and that the budget affords.
abbrev pub Obtainable : DiagnosisModel → List Identifier → Satisfied → ℕ → Identifier → Type 0
Obtainable m excluded satisfied budget i =
    (p : Probe) × Listed p m.probes
    × (p.id ≡ i)
    × (acquired satisfied i ≡ false)
    × (contains i excluded ≡ false)
    × (p.cost ≤ budget)

candidates-Obtainable :
    (m : DiagnosisModel) (excluded : List Identifier) (satisfied : Satisfied) (budget : ℕ)
    (p : Probe)
    → Listed p (candidates m excluded (acquired satisfied) budget)
    → Obtainable m excluded satisfied budget p.id
unfolding candidates
candidates-Obtainable m excluded satisfied budget p h =
    let test : Probe → Bool =
      λ q. not (acquired satisfied q.id) && not (contains q.id excluded) && leb q.cost budget in
    let (l, t) = keep-Listed test p m.probes (sort-Listed (λ q. Probe.id q) p _ h) in
    (p, l, refl, ground (arith, t), ground (arith, t), ground (arith, t))

better-some :
    (best : Answer) (p : Probe) (v : Fraction) (i : Identifier)
    → (better best p v).1 ≡ some i
    → (best.1 ≡ some i) ⊎ (p.id ≡ i)
better-some best p v i h = elim (Bool-cases (less v best.0)) [
  | inl e ↦ inr (ground arith)
  | inr e ↦ inl (ground arith)
]

module _ (recur : Recur) (posterior : Dict ℕ) (satisfied : Satisfied) (budget : ℕ) where
  explore_probes-some :
      (ps : List Probe) (best : Answer) (values : Dict Fraction) (s : SearchState) (i : Identifier)
      → (explore_probes recur posterior satisfied budget ps best values s).best.1 ≡ some i
      → (best.1 ≡ some i) ⊎ ((p : Probe) × Listed p ps × (p.id ≡ i))
  unfolding explore_probes
  explore_probes-some [] best values s i h = inl h
  explore_probes-some (p ∷ ps) best values s i h =
      let x =
        explore_outcomes recur posterior satisfied budget p (partitions p posterior) (whole 0) s in
      let v = plus (whole p.cost) x.0 in
      elim (explore_probes-some ps (better best p v) ((p.id, v) ∷ values) x.1 i h) [
        | inl e ↦ elim (better-some best p v i e) [ inl f ↦ inl f | inr f ↦ inr (p, inl refl, f) ]
        | inr (q, l, f) ↦ inr (q, inr l, f)
      ]

module _ (m : DiagnosisModel) (excluded : List Identifier) (max_expansions : ℕ) where
  expand-Obtainable :
      (recur : Recur) (k : Key) (s : SearchState) (i : Identifier)
      → (expand m excluded max_expansions recur k s).0.0.1 ≡ some i
      → Obtainable m excluded k.satisfied k.budget i
  unfolding expand
  expand-Obtainable recur k s i h = elim (Bool-cases s.exhausted) [
    | inl e ↦ absurd (ground (arith, h))
    | inr e ↦ elim (Bool-cases (leb max_expansions s.counter)) [
      | inl f ↦ absurd (ground (arith, h))
      | inr f ↦
          let ps = candidates m excluded (acquired k.satisfied) k.budget in
          let stopped = stop m k.posterior k.satisfied in
          let found =
            explore_probes-some recur k.posterior k.satisfied k.budget ps stopped []
              (record s { counter = s.counter + 1 }) i (ground arith) in
          elim found [
            | inl n ↦ absurd (ground (arith, n))
            | inr (p, l, same) ↦
                subst (Obtainable m excluded k.satisfied k.budget) same
                  (candidates-Obtainable m excluded k.satisfied k.budget p l)
          ]
    ]
  ]

  -- A probe that a search from the root recommends, exhausted or not, is declared, not acquired, not
  -- excluded, and costs no more than the budget.
  pub search_root-Obtainable :
      (horizon : ℕ) (posterior : Dict ℕ) (satisfied : Satisfied) (budget : ℕ) (i : Identifier)
      → (search_root m excluded max_expansions horizon posterior satisfied budget).0.0.1 ≡ some i
      → Obtainable m excluded satisfied budget i
  unfolding search_root
  search_root-Obtainable zero posterior satisfied budget i h = cc
  search_root-Obtainable (suc horizon) posterior satisfied budget i h =
      expand-Obtainable (search m excluded max_expansions horizon)
        (key_of posterior satisfied budget (suc horizon)) (fresh_state m excluded max_expansions) i
        h
