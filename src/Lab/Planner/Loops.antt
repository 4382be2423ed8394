-- ===== src/Lab/Planner/Loops.antt =====
-- The loops of a node compute the loops of the Bellman recursion.
use latent_compass.Prelude.{
  ℕ, ◌-◌, ◌≡◌, refl, sym, ap, ◌∙◌, false, some, List, [], ◌∷◌, find-Listed, Listed, inl, inr,
}
use latent_compass.Contracts.{Identifier}
use latent_compass.Lab.Dict.{Dict}
use latent_compass.Lab.Model.{Probe, DiagnosisModel}
use latent_compass.Lab.Planner.{Satisfied, has_pair, acquired, partitions, Answer, share, better}
use latent_compass.Lab.Planner.Rational.{Fraction, whole, plus}
use latent_compass.Lab.Planner.Search.{
  Key, SearchState, same_key, key_of, cached, remember, Recur, explore_outcomes, explore_probes,
}
use latent_compass.Lab.Planner.Bellman.{bellman, sum_outcomes, least_probe}
use latent_compass.Lab.Planner.Keys.{value_of, same_key-value_of}

module _ (m : DiagnosisModel) (excluded : List Identifier) where
  -- Each remembered answer is the value of its key.
  abbrev pub Remembers : SearchState → Type 0
  Remembers s = (e : Key × Answer) → Listed e s.memo → e.1 ≡ value_of m excluded e.0

  -- From `s` to `t`: if `t` is not exhausted, neither was `s`, and a memo of `s` that is right has
  -- led to a memo of `t` that is right, and to the result that is claimed.
  abbrev pub Leads : SearchState → SearchState → Type 0 → Type 0
  Leads s t claim =
      t.exhausted ≡ false → (s.exhausted ≡ false) × (Remembers s → Remembers t × claim)

  -- Every call of `recur` gives the value at the horizon.
  abbrev pub Computes : ℕ → Recur → Type 0
  Computes horizon recur =
      (posterior : Dict ℕ) (satisfied : Satisfied) (budget : ℕ) (s : SearchState)
      → Leads s (recur posterior satisfied budget s).1 (
          (recur posterior satisfied budget s).0
          ≡ value_of m excluded (key_of posterior satisfied budget horizon))

  pub remembered :
      (k : Key) (s : SearchState) (e : Key × Answer)
      → cached k s ≡ some e
      → Remembers s
      → e.1 ≡ value_of m excluded k
  remembered k s e h r =
      let (m1, same) = find-Listed (λ (x : Key × Answer). same_key x.0 k) s.memo e h in
      r e m1 ∙ same_key-value_of m excluded e.0 k same

  pub remember-Remembers :
      (k : Key) (a : Answer) (s : SearchState)
      → a ≡ value_of m excluded k
      → Remembers s
      → Remembers (remember k a s).1
  remember-Remembers k a s h r e (inl p) =
      ap (λ (x : Key × Answer). x.1) (sym p)
      ∙ h
      ∙ ap (λ (x : Key × Answer). value_of m excluded x.0) p
  remember-Remembers k a s h r e (inr q) = r e q

  module _ (horizon : ℕ) (recur : Recur) (computes : Computes horizon recur) (posterior : Dict ℕ)
      (satisfied : Satisfied) (budget : ℕ) where
    explore_outcomes-Leads :
        (p : Probe) (parts : Dict (Dict ℕ)) (c : Fraction) (s : SearchState)
        → Leads s (explore_outcomes recur posterior satisfied budget p parts c s).1 (
            (explore_outcomes recur posterior satisfied budget p parts c s).0
            ≡ sum_outcomes
                (bellman m excluded horizon)
                posterior
                (has_pair satisfied)
                (acquired satisfied)
                budget
                p
                parts
                c)
    unfolding explore_outcomes sum_outcomes
    explore_outcomes-Leads p [] c s h = (h, λ r. (r, refl))
    explore_outcomes-Leads p ((o, sub) ∷ parts) c s h =
        let call = recur sub ((p.id, o) ∷ satisfied) (budget - p.cost) s in
        let (h1, rest) =
          explore_outcomes-Leads p parts (plus c (share posterior sub call.0.0)) call.1 h in
        let (h0, here) = computes sub ((p.id, o) ∷ satisfied) (budget - p.cost) s h1 in
        (
          h0,
          λ r.
              let (r1, value) = here r in
              let (r2, total) = rest r1 in
              (
                r2,
                total
                    ∙ ap
                        (λ (a : Answer).
                          sum_outcomes (bellman m excluded horizon) posterior (has_pair satisfied)
                            (acquired satisfied) budget p parts (plus c (share posterior sub a.0)))
                        value,
              ),
        )

    pub explore_probes-Leads :
        (ps : List Probe) (best : Answer) (values : Dict Fraction) (s : SearchState)
        → Leads s (explore_probes recur posterior satisfied budget ps best values s).state (
            (explore_probes recur posterior satisfied budget ps best values s).best
            ≡ least_probe
                (bellman m excluded horizon)
                posterior
                (has_pair satisfied)
                (acquired satisfied)
                budget
                ps
                best)
    unfolding explore_probes least_probe
    explore_probes-Leads [] best values s h = (h, λ r. (r, refl))
    explore_probes-Leads (p ∷ ps) best values s h =
        let x =
          explore_outcomes recur posterior satisfied budget p (partitions p posterior) (whole 0)
            s in
        let v = plus (whole p.cost) x.0 in
        let (h1, rest) = explore_probes-Leads ps (better best p v) ((p.id, v) ∷ values) x.1 h in
        let (h0, here) = explore_outcomes-Leads p (partitions p posterior) (whole 0) s h1 in
        (
          h0,
          λ r.
              let (r1, total) = here r in
              let (r2, least) = rest r1 in
              (
                r2,
                least
                    ∙ ap
                        (λ (c : Fraction).
                          least_probe (bellman m excluded horizon) posterior (has_pair satisfied)
                            (acquired satisfied) budget ps (better best p (plus (whole p.cost) c)))
                        total,
              ),
        )
