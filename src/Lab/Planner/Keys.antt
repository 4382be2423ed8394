-- ===== src/Lab/Planner/Keys.antt =====
-- Equal keys have equal values.
use latent_compass.Prelude.{
  ℕ, ◌≡◌, refl, Bool, true, false, List, [], ◌∷◌, arith, all, ==_iff, Bool-cases, inl, inr,
}
use mathlib.Core.Path.{fun_ext}
use latent_compass.Contracts.{Identifier}
use latent_compass.Lab.Dict.{Dict}
use latent_compass.Lab.Model.{DiagnosisModel}
use latent_compass.Lab.Planner.{Satisfied, is_pair, has_pair, acquired, Answer}
use latent_compass.Lab.Planner.Search.{Key, same_posterior, same_key}
use latent_compass.Lab.Planner.Bellman.{bellman}

-- The value that a search for a key approximates.
abbrev pub value_of : DiagnosisModel → List Identifier → Key → Answer
value_of m excluded k =
    bellman m excluded k.horizon k.posterior (has_pair k.satisfied) (acquired k.satisfied) k.budget

same_posterior-eq : (a b : Dict ℕ) → same_posterior a b ≡ true → a ≡ b
unfolding same_posterior
same_posterior-eq [] [] h = refl
same_posterior-eq [] (y ∷ b) h = cc
same_posterior-eq (x ∷ a) [] h = cc
same_posterior-eq (x ∷ a) (y ∷ b) h = ground (arith, same_posterior-eq a b)

bool_ext : (a b : Bool) → (a ≡ true → b ≡ true) → (b ≡ true → a ≡ true) → a ≡ b
bool_ext true b h k = ground (arith, h refl)
bool_ext false true h k = k refl
bool_ext false false h k = refl

has_pair_mono :
    (a b : Satisfied) (p o : Identifier)
    → all (λ q. has_pair b q.0 q.1) a ≡ true
    → has_pair a p o ≡ true
    → has_pair b p o ≡ true
has_pair_mono [] b p o h k = cc
has_pair_mono (q ∷ a) b p o h k = elim (Bool-cases (is_pair p o q)) [
  | inl e ↦
      let ep : p ≡ q.0 = ground arith in
      let eo : o ≡ q.1 = ground arith in rw (ep, eo) (ground arith)
  | inr e ↦ has_pair_mono a b p o (ground arith) (ground arith)
]

has_pair-acquired : (b : Satisfied) (p o : Identifier) → has_pair b p o ≡ true → acquired b p ≡ true
has_pair-acquired [] p o h = cc
has_pair-acquired (q ∷ b) p o h = ground (arith, has_pair-acquired b p o)

acquired_mono :
    (a b : Satisfied) (p : Identifier)
    → all (λ q. has_pair b q.0 q.1) a ≡ true
    → acquired a p ≡ true
    → acquired b p ≡ true
acquired_mono [] b p h k = cc
acquired_mono (q ∷ a) b p h k =
    ground (arith, ==_iff p q.0, has_pair-acquired b q.0 q.1, acquired_mono a b p)

pub same_key-value_of :
    (m : DiagnosisModel) (excluded : List Identifier) (k l : Key)
    → same_key k l ≡ true
    → value_of m excluded k ≡ value_of m excluded l
unfolding same_key
same_key-value_of m excluded k l h =
    let posteriors = same_posterior-eq k.posterior l.posterior (ground arith) in
    let ab : all (λ q. has_pair l.satisfied q.0 q.1) k.satisfied ≡ true = ground arith in
    let ba : all (λ q. has_pair k.satisfied q.0 q.1) l.satisfied ≡ true = ground arith in
    let budgets : k.budget ≡ l.budget = ground arith in
    let horizons : k.horizon ≡ l.horizon = ground arith in
    let pairs : has_pair k.satisfied ≡ has_pair l.satisfied = fun_ext (λ p. fun_ext (λ o.
      bool_ext (has_pair k.satisfied p o) (has_pair l.satisfied p o)
        (has_pair_mono k.satisfied l.satisfied p o ab)
        (has_pair_mono l.satisfied k.satisfied p o ba))) in
    let probes : acquired k.satisfied ≡ acquired l.satisfied = fun_ext (λ p.
      bool_ext (acquired k.satisfied p) (acquired l.satisfied p)
        (acquired_mono k.satisfied l.satisfied p ab)
        (acquired_mono l.satisfied k.satisfied p ba)) in
    λ i. bellman m excluded (horizons i) (posteriors i) (pairs i) (probes i) (budgets i)
