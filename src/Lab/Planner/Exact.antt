-- ===== src/Lab/Planner/Exact.antt =====
-- A search that is not exhausted returns the Bellman value.
use latent_compass.Prelude.{
  ℕ, zero, suc, ◌+◌, ◌≡◌, refl, true, false, Option-cases, Bool-cases, some, none, List, [], inl,
  inr, leb,
}
use latent_compass.Contracts.{Identifier}
use latent_compass.Lab.Dict.{Dict}
use latent_compass.Lab.Model.{DiagnosisModel}
use latent_compass.Lab.Planner.{Satisfied, has_pair, acquired, candidates, Answer}
use latent_compass.Lab.Planner.Search.{
  Key, SearchState, key_of, cached, remember, Explored, Recur, explore_probes, stop, expand, search,
  fresh_state, search_root,
}
use latent_compass.Lab.Planner.Bellman.{bellman}
use latent_compass.Lab.Planner.Keys.{value_of}
use latent_compass.Lab.Planner.Loops.{
  Leads, Computes, remembered, remember-Remembers, explore_probes-Leads,
}

module _ (m : DiagnosisModel) (excluded : List Identifier) where
  module _ (max_expansions : ℕ) (recur : Recur) where
    abbrev counted : SearchState → SearchState
    counted s = record s { counter = s.counter + 1 }

    abbrev explored : Key → SearchState → Explored
    explored k s =
        explore_probes recur k.posterior k.satisfied k.budget
          (candidates m excluded (acquired k.satisfied) k.budget) (stop m k.posterior k.satisfied)
          [] (counted s)

    expand_open :
        (k : Key) (s : SearchState)
        → (expand m excluded max_expansions recur k s).1.exhausted ≡ false
        → (s.exhausted ≡ false)
          × (expand m excluded max_expansions recur k s ≡ (
            ((explored k s).best, (explored k s).values),
            (remember k (explored k s).best (explored k s).state).1,
          ))
    unfolding expand
    expand_open k s h = elim (Bool-cases s.exhausted) [
      | inl e ↦ let c : true ≡ false = rw e at h in cc
      | inr e ↦ elim (Bool-cases (leb max_expansions s.counter)) [
        | inl f ↦ let c : true ≡ false = rw (e, f) at h in cc
        | inr f ↦ (e, rw (e, f) refl)
      ]
    ]

    expand-Leads :
        (horizon : ℕ)
        → Computes m excluded horizon recur
        → (posterior : Dict ℕ) (satisfied : Satisfied) (budget : ℕ) (s : SearchState)
        → (let k = key_of posterior satisfied budget (suc horizon) in
            let r = expand m excluded max_expansions recur k s in
            Leads m excluded s r.1 (r.0.0 ≡ value_of m excluded k))
    unfolding bellman
    expand-Leads horizon computes posterior satisfied budget s h =
        let k = key_of posterior satisfied budget (suc horizon) in
        let (e, same) = expand_open k s h in
        let x = explored k s in
        let h2 : x.state.exhausted ≡ false = rw same at h in
        let (h1, inside) =
          explore_probes-Leads m excluded horizon recur computes posterior satisfied budget
            (candidates m excluded (acquired satisfied) budget) (stop m posterior satisfied) []
            (counted s) h2 in
        (
          e,
          λ r.
              let (r1, best) = inside r in
              rw same (remember-Remembers m excluded k x.best x.state best r1, best),
        )

  module _ (max_expansions : ℕ) where
    search_leaf :
        (posterior : Dict ℕ) (satisfied : Satisfied) (budget : ℕ) (s : SearchState)
        → cached (key_of posterior satisfied budget 0) s ≡ none
        → search m excluded max_expansions 0 posterior satisfied budget s
          ≡ remember (key_of posterior satisfied budget 0) (stop m posterior satisfied) s
    unfolding search
    search_leaf posterior satisfied budget s e = rw (e, search) refl

    search_node :
        (horizon : ℕ) (posterior : Dict ℕ) (satisfied : Satisfied) (budget : ℕ) (s : SearchState)
        → cached (key_of posterior satisfied budget (suc horizon)) s ≡ none
        → (let r =
              expand m excluded max_expansions
                (search m excluded max_expansions horizon)
                (key_of posterior satisfied budget (suc horizon))
                s in
            search m excluded max_expansions (suc horizon) posterior satisfied budget s
            ≡ (r.0.0, r.1))
    unfolding search
    search_node horizon posterior satisfied budget s e = rw (e, search) refl

    search_hit :
        (horizon : ℕ) (posterior : Dict ℕ) (satisfied : Satisfied) (budget : ℕ) (s : SearchState)
        (x : Key × Answer)
        → cached (key_of posterior satisfied budget horizon) s ≡ some x
        → search m excluded max_expansions horizon posterior satisfied budget s ≡ (x.1, s)
    unfolding search
    search_hit zero posterior satisfied budget s x e = rw (e, search) refl
    search_hit (suc horizon) posterior satisfied budget s x e = rw (e, search) refl

    search-Computes :
        (horizon : ℕ) → Computes m excluded horizon (search m excluded max_expansions horizon)
    unfolding bellman
    search-Computes zero posterior satisfied budget s h =
        let k = key_of posterior satisfied budget 0 in
        elim (Option-cases (cached k s)) [
          | inl e ↦
              let same = search_leaf posterior satisfied budget s e in
              (
                rw same at h,
                λ r.
                    rw same
                      (remember-Remembers m excluded k (stop m posterior satisfied) s refl r, refl),
              )
          | inr (x, e) ↦
              let same = search_hit zero posterior satisfied budget s x e in
              (rw same at h, λ r. rw same (r, remembered m excluded k s x e r))
        ]
    search-Computes (suc horizon) posterior satisfied budget s h =
        let k = key_of posterior satisfied budget (suc horizon) in
        elim (Option-cases (cached k s)) [
          | inl e ↦
              let same = search_node horizon posterior satisfied budget s e in
              let (h0, inside) =
                expand-Leads max_expansions (search m excluded max_expansions horizon) horizon
                  (search-Computes horizon) posterior satisfied budget s (rw same at h) in
              (h0, λ r. rw same (inside r))
          | inr (x, e) ↦
              let same = search_hit (suc horizon) posterior satisfied budget s x e in
              (rw same at h, λ r. rw same (r, remembered m excluded k s x e r))
        ]

    -- A search from the root that ends with its flag down returns the value, and the probe, of the
    -- recursion without memo and bound.
    pub search_root_exact :
        (horizon : ℕ) (posterior : Dict ℕ) (satisfied : Satisfied) (budget : ℕ)
        → (search_root m excluded max_expansions horizon posterior satisfied budget).1.exhausted
          ≡ false
        → (search_root m excluded max_expansions horizon posterior satisfied budget).0.0
          ≡ bellman m excluded horizon posterior (has_pair satisfied) (acquired satisfied) budget
    unfolding search_root bellman
    search_root_exact zero posterior satisfied budget h = refl
    search_root_exact (suc horizon) posterior satisfied budget h =
        let (u, inside) =
          expand-Leads max_expansions (search m excluded max_expansions horizon) horizon
            (search-Computes horizon) posterior satisfied budget
            (fresh_state m excluded max_expansions) h in
        (inside (λ e n. absurd n)).1
