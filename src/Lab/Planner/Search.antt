-- ===== src/Lab/Planner/Search.antt =====
-- src/latent_compass/lab/planner.py: `_search`. Every posterior of a search lists its worlds in the
-- order of the first one, so that keys of the memo compare them as lists. The values of the
-- candidates are kept at every node, and read at the root only.
use latent_compass.Prelude.{
  ℕ, zero, suc, ◌+◌, ◌-◌, Bool, true, false, ◌&&◌, Option, none, some, List, [], ◌∷◌, leb, ◌==◌,
  all, find, if◌then◌else◌,
}
use latent_compass.Contracts.{Identifier}
use latent_compass.Lab.Dict.{Dict}
use latent_compass.Lab.Model.{Probe, DiagnosisModel}
use latent_compass.Lab.Planner.{
  Satisfied, has_pair, acquired, stopping, partitions, candidates, Answer, share, better,
}
use latent_compass.Lab.Planner.Rational.{Fraction, whole, plus}

pub record Key : Type 0 where
  pub posterior : Dict ℕ
  pub satisfied : Satisfied
  pub budget : ℕ
  pub horizon : ℕ

-- The memo, the counter and the flag that the calls of a search share.
pub record SearchState : Type 0 where
  pub memo : List (Key × Answer)
  pub counter : ℕ
  pub exhausted : Bool

unfoldable pub same_posterior : Dict ℕ → Dict ℕ → Bool
same_posterior [] [] = true
same_posterior (x ∷ xs) (y ∷ ys) = (x.0 == y.0) && (x.1 == y.1) && same_posterior xs ys
same_posterior _ _ = false

-- Equal as sets.
abbrev pub same_satisfied : Satisfied → Satisfied → Bool
same_satisfied a b = all (λ q. has_pair b q.0 q.1) a && all (λ q. has_pair a q.0 q.1) b

unfoldable pub same_key : Key → Key → Bool
unfolding same_posterior
same_key k l =
    same_posterior k.posterior l.posterior
    && same_satisfied k.satisfied l.satisfied
    && (k.budget == l.budget)
    && (k.horizon == l.horizon)

abbrev pub key_of : Dict ℕ → Satisfied → ℕ → ℕ → Key
key_of posterior satisfied budget horizon = record {
  posterior = posterior;
  satisfied = satisfied;
  budget = budget;
  horizon = horizon;
}

abbrev pub cached : Key → SearchState → Option (Key × Answer)
cached k s = find (λ e. same_key e.0 k) s.memo

abbrev pub remember : Key → Answer → SearchState → Answer × SearchState
remember k a s = (a, record s { memo = (k, a) ∷ s.memo })

-- The best answer of a loop over probes, and the value of each.
pub record Explored : Type 0 where
  pub best : Answer
  pub values : Dict Fraction
  pub state : SearchState

abbrev pub Recur : Type 0
Recur = Dict ℕ → Satisfied → ℕ → SearchState → Answer × SearchState

-- The loops of one node, the recursive call being given.
module _ (recur : Recur) (posterior : Dict ℕ) (satisfied : Satisfied) (budget : ℕ) where
  unfoldable pub explore_outcomes :
      Probe → Dict (Dict ℕ) → Fraction → SearchState → Fraction × SearchState
  explore_outcomes p [] continuation s = (continuation, s)
  explore_outcomes p ((outcome, sub) ∷ parts) continuation s =
      let r = recur sub ((p.id, outcome) ∷ satisfied) (budget - p.cost) s in
      explore_outcomes p parts (plus continuation (share posterior sub r.0.0)) r.1

  unfoldable pub explore_probes : List Probe → Answer → Dict Fraction → SearchState → Explored
  unfolding explore_outcomes partitions
  explore_probes [] best values s = record { best = best; values = values; state = s }
  explore_probes (p ∷ ps) best values s =
      let r = explore_outcomes p (partitions p posterior) (whole 0) s in
      let value = plus (whole p.cost) r.0 in
      explore_probes ps (better best p value) ((p.id, value) ∷ values) r.1

abbrev pub stop : DiagnosisModel → Dict ℕ → Satisfied → Answer
stop m posterior satisfied = ((stopping m posterior (has_pair satisfied)).1, none)

module _ (m : DiagnosisModel) (excluded : List Identifier) (max_expansions : ℕ) where
  -- What a node does that the memo does not answer.
  unfoldable pub expand : Recur → Key → SearchState → (Answer × Dict Fraction) × SearchState
  unfolding stopping candidates explore_probes
  expand recur k s =
      let stopped = stop m k.posterior k.satisfied in
      if s.exhausted
      then (let r = remember k stopped s in ((r.0, []), r.1))
      else if leb max_expansions s.counter
      then (let r = remember k stopped (record s { exhausted = true }) in ((r.0, []), r.1))
      else (let x =
            explore_probes recur k.posterior k.satisfied k.budget
              (candidates m excluded (acquired k.satisfied) k.budget) stopped []
              (record s { counter = s.counter + 1 }) in
          let r = remember k x.best x.state in ((r.0, x.values), r.1))

  unfoldable pub search : ℕ → Recur
  unfolding same_key stopping expand
  search zero posterior satisfied budget s = elim (cached (key_of posterior satisfied budget 0) s) [
    | some e ↦ (e.1, s)
    | none ↦ remember (key_of posterior satisfied budget 0) (stop m posterior satisfied) s
  ]
  search (suc horizon) posterior satisfied budget s =
      elim (cached (key_of posterior satisfied budget (suc horizon)) s) [
        | some e ↦ (e.1, s)
        | none ↦
            let r = expand (search horizon) (key_of posterior satisfied budget (suc horizon)) s in
            (r.0.0, r.1)
      ]

  abbrev pub fresh_state : SearchState
  fresh_state = record { memo = []; counter = 0; exhausted = false }

  -- The call with a `record`, on a state that is fresh.
  unfoldable pub search_root : ℕ → Dict ℕ → Satisfied → ℕ → (Answer × Dict Fraction) × SearchState
  unfolding search expand stopping
  search_root zero posterior satisfied budget =
      let r =
        remember (key_of posterior satisfied budget 0) (stop m posterior satisfied) fresh_state in
      ((r.0, []), r.1)
  search_root (suc horizon) posterior satisfied budget =
      expand (search horizon) (key_of posterior satisfied budget (suc horizon)) fresh_state
