-- ===== src/Protocol/Reload.antt =====
-- src/latent_compass/protocol.py: the verdict that `score_measurements` builds passes its own
-- validator.
use latent_compass.Prelude.{
  ℕ, ◌≡◌, refl, true, false, List, [], ◌∷◌, map, ◌==◌, contains, distinct, arith,
}
use latent_compass.Prelude.Sorting.{insert_by}
use latent_compass.Prelude.Ordered.{at_least, is_sorted, sort-sorted, keys-insert}
use latent_compass.Contracts.{Identifier}
use latent_compass.Protocol.Specs.{MetricSpec}
use latent_compass.Protocol.Verdict.{MetricVerdict, sort_ids, same_ids}
use latent_compass.Protocol.Score.{sort_specs}

-- A sorted list is its own sorting.
insert_by-first : (x : ℕ) (xs : List ℕ) → at_least x xs ≡ true → insert_by (λ i. i) x xs ≡ x ∷ xs
insert_by-first x [] h = refl
insert_by-first x (y ∷ xs) h = ground arith

pub sort_ids-sorted : (xs : List ℕ) → is_sorted xs ≡ true → sort_ids xs ≡ xs
sort_ids-sorted [] h = refl
sort_ids-sorted (x ∷ xs) h = ground (arith, sort_ids-sorted xs, insert_by-first x xs)

pub same_ids_refl : (xs : List Identifier) → same_ids xs xs ≡ true
same_ids_refl [] = refl
same_ids_refl (x ∷ xs) = ground (arith, same_ids_refl xs)

abbrev pub names : List MetricSpec → List Identifier
names ms = map (λ (m : MetricSpec). m.name) ms

abbrev pub verdict_names : List MetricVerdict → List Identifier
verdict_names ws = map (λ (w : MetricVerdict). w.metric) ws

-- Sorting by name sorts the names and keeps them distinct.
names-insert :
    (m : MetricSpec) (ms : List MetricSpec)
    → names (insert_by (λ m. m.name) m ms) ≡ insert_by (λ i. i) m.name (names ms)
names-insert m ms = keys-insert (λ (m : MetricSpec). m.name) m ms

contains-insert :
    (i x : ℕ) (xs : List ℕ)
    → contains i xs ≡ false
    → (i == x) ≡ false
    → contains i (insert_by (λ j. j) x xs) ≡ false
contains-insert i x [] h k = ground arith
contains-insert i x (y ∷ xs) h k = ground (arith, contains-insert i x xs)

insert-distinct :
    (x : ℕ) (xs : List ℕ)
    → contains x xs ≡ false
    → distinct xs ≡ true
    → distinct (insert_by (λ j. j) x xs) ≡ true
insert-distinct x [] h k = refl
insert-distinct x (y ∷ xs) h k = ground (arith, insert-distinct x xs, contains-insert y x xs)

pub sort_specs-sorted : (ms : List MetricSpec) → is_sorted (names (sort_specs ms)) ≡ true
sort_specs-sorted ms = sort-sorted (λ (m : MetricSpec). m.name) ms

sort-contains :
    (i : Identifier) (ms : List MetricSpec)
    → contains i (names ms) ≡ false
    → contains i (names (sort_specs ms)) ≡ false
sort-contains i [] h = refl
sort-contains i (m ∷ ms) h = rw (names-insert m (sort_specs ms)) (
    contains-insert i m.name (names (sort_specs ms)) (ground (arith, sort-contains i ms))
      (ground arith))

pub sort_specs-distinct :
    (ms : List MetricSpec) → distinct (names ms) ≡ true → distinct (names (sort_specs ms)) ≡ true
sort_specs-distinct [] h = refl
sort_specs-distinct (m ∷ ms) h = rw (names-insert m (sort_specs ms)) (
    insert-distinct m.name (names (sort_specs ms)) (ground (arith, sort-contains m.name ms))
      (ground (arith, sort_specs-distinct ms)))
