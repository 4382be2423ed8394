-- ===== src/Prelude/Sorting.antt =====
-- `sorted` with a key: a list sorted or kept has the items of the list.
use Prim.Native.Nat.{ℕ}
use mathlib.Core.Path.{◌≡◌, sym, ◌∙◌, ap}
use mathlib.Core.Logic.{◌⊎◌, inl, inr}
use mathlib.Core.Bool.{Bool, true}
use mathlib.Core.List.{List, [], ◌∷◌}
use native.Mathlib.Omega.{arith}
use latent_compass.Prelude.Tests.{leb, Bool-cases, if◌then◌else◌}
use latent_compass.Prelude.Lists.{keep, Listed}

-- `sorted(xs, key=...)`
module _ {A : Type 0} (key : A → ℕ) where
  abbrev pub insert_by : A → List A → List A
  insert_by x [] = x ∷ []
  insert_by x (y ∷ ys) =
      let rest = insert_by x ys in if leb (key x) (key y) then x ∷ y ∷ ys else y ∷ rest

  abbrev pub sort_by : List A → List A
  sort_by [] = []
  sort_by (x ∷ xs) = insert_by x (sort_by xs)

  Listed-insert : (x d : A) (ys : List A) → (x ≡ d) ⊎ Listed d ys → Listed d (insert_by x ys)
  Listed-insert x d [] h = h
  Listed-insert x d (y ∷ ys) h = elim (Bool-cases (leb (key x) (key y))) [
    | inl e ↦ rw (e, insert_by) h
    | inr e ↦
        rw (e, insert_by)
          (elim h [
            | inl p ↦ inr (Listed-insert x d ys (inl p))
            | inr (inl p) ↦ inl p
            | inr (inr q) ↦ inr (Listed-insert x d ys (inr q))
          ])
  ]

  insert-Listed : (x d : A) (ys : List A) → Listed d (insert_by x ys) → (x ≡ d) ⊎ Listed d ys
  insert-Listed x d [] h = h
  insert-Listed x d (y ∷ ys) h = elim (Bool-cases (leb (key x) (key y))) [
    | inl e ↦ rw (e, insert_by) at h
    | inr e ↦
        let h' : (y ≡ d) ⊎ Listed d (insert_by x ys) = rw (e, insert_by) at h in
        elim h' [
          | inl p ↦ inr (inl p)
          | inr q ↦ elim (insert-Listed x d ys q) [ inl p ↦ inl p | inr r ↦ inr (inr r) ]
        ]
  ]

  pub Listed-sort : (d : A) (xs : List A) → Listed d xs → Listed d (sort_by xs)
  Listed-sort d [] h = h
  Listed-sort d (x ∷ xs) (inl p) = Listed-insert x d (sort_by xs) (inl p)
  Listed-sort d (x ∷ xs) (inr q) = Listed-insert x d (sort_by xs) (inr (Listed-sort d xs q))

  pub sort-Listed : (d : A) (xs : List A) → Listed d (sort_by xs) → Listed d xs
  sort-Listed d [] h = h
  sort-Listed d (x ∷ xs) h = elim (insert-Listed x d (sort_by xs) h) [
    | inl p ↦ inl p
    | inr q ↦ inr (sort-Listed d xs q)
  ]

-- The order of two insertions does not matter.
pub insert-insert :
    (a b : ℕ) (xs : List ℕ)
    → insert_by (λ x. x) a (insert_by (λ x. x) b xs)
      ≡ insert_by (λ x. x) b (insert_by (λ x. x) a xs)
insert-insert a b [] = ground arith
insert-insert a b (x ∷ xs) = ground (arith, insert-insert a b xs)

module _ {A : Type 0} (p : A → Bool) where
  pub Listed-keep : (d : A) (xs : List A) → Listed d xs → p d ≡ true → Listed d (keep p xs)
  Listed-keep d [] h k = h
  Listed-keep d (x ∷ xs) (inl e) k = let t : p x ≡ true = ap p e ∙ k in rw (t, keep) (inl e)
  Listed-keep d (x ∷ xs) (inr q) k = elim (Bool-cases (p x)) [
    | inl t ↦ rw (t, keep) (inr (Listed-keep d xs q k))
    | inr t ↦ rw (t, keep) (Listed-keep d xs q k)
  ]

  pub keep-Listed : (d : A) (xs : List A) → Listed d (keep p xs) → Listed d xs × (p d ≡ true)
  keep-Listed d [] h = absurd h
  keep-Listed d (x ∷ xs) h = elim (Bool-cases (p x)) [
    | inl t ↦
        let h' : (x ≡ d) ⊎ Listed d (keep p xs) = rw (t, keep) at h in
        elim h' [
          | inl e ↦ (inl e, ap p (sym e) ∙ t)
          | inr q ↦ let (l, k) = keep-Listed d xs q in (inr l, k)
        ]
    | inr t ↦ let (l, k) = keep-Listed d xs (rw (t, keep) at h) in (inr l, k)
  ]
