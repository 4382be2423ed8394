-- ===== src/Prelude/Ordered.antt =====
-- What `sorted` with a key leaves is in the order of the keys.
use Prim.Native.Nat.{ℕ}
use mathlib.Core.Path.{◌≡◌, refl}
use mathlib.Core.Logic.{inl, inr}
use mathlib.Core.Bool.{Bool, true, ◌&&◌}
use mathlib.Core.List.{List, [], ◌∷◌, map}
use native.Mathlib.Omega.{arith}
use latent_compass.Prelude.Tests.{leb, Bool-cases}
use latent_compass.Prelude.Lists.{all}
use latent_compass.Prelude.Sorting.{insert_by, sort_by}

-- No item is smaller than `n`, and each is at most the next.
abbrev pub at_least : ℕ → List ℕ → Bool
at_least n xs = all (leb n) xs

abbrev pub is_sorted : List ℕ → Bool
is_sorted [] = true
is_sorted (x ∷ xs) = at_least x xs && is_sorted xs

insert_by-least :
    (n x : ℕ) (xs : List ℕ)
    → leb n x ≡ true
    → at_least n xs ≡ true
    → at_least n (insert_by (λ i. i) x xs) ≡ true
insert_by-least n x [] h k = ground arith
insert_by-least n x (y ∷ xs) h k = ground (arith, insert_by-least n x xs)

least_trans : (a b : ℕ) (xs : List ℕ) → leb a b ≡ true → at_least b xs ≡ true → at_least a xs ≡ true
least_trans a b [] h k = refl
least_trans a b (x ∷ xs) h k = ground (arith, least_trans a b xs)

insert-sorted :
    (x : ℕ) (xs : List ℕ) → is_sorted xs ≡ true → is_sorted (insert_by (λ i. i) x xs) ≡ true
insert-sorted x [] h = refl
insert-sorted x (y ∷ xs) h = elim (Bool-cases (leb x y)) [
  | inl e ↦ ground (arith, least_trans x y xs)
  | inr e ↦ ground (arith, insert-sorted x xs, insert_by-least y x xs)
]

module _ {A : Type 0} (key : A → ℕ) where
  pub keys-insert :
      (x : A) (ys : List A) → map key (insert_by key x ys) ≡ insert_by (λ i. i) (key x) (map key ys)
  keys-insert x [] = refl
  keys-insert x (y ∷ ys) = ground (arith, keys-insert x ys)

  pub sort-sorted : (xs : List A) → is_sorted (map key (sort_by key xs)) ≡ true
  sort-sorted [] = refl
  sort-sorted (x ∷ xs) =
      rw (keys-insert x (sort_by key xs))
        (insert-sorted (key x) (map key (sort_by key xs)) (sort-sorted xs))
