-- ===== src/Prelude/Lists.antt =====
-- Lists of records, measured by native numbers and searched by Boolean tests.
use Prim.Native.Nat.{ℕ, suc, ◌+◌}
use mathlib.Core.Path.{◌≡◌, refl}
use mathlib.Core.Bool.{Bool, true, false, not, ◌&&◌, ◌||◌}
use mathlib.Core.List.{List, [], ◌∷◌, ◌++◌, map}
use mathlib.Core.Option.{Option, none, some}
use native.Mathlib.Omega.{arith}
use mathlib.Core.Logic.{◌⊎◌, inl, inr}
use latent_compass.Prelude.Tests.{Bool-cases, ◌==◌, if◌then◌else◌}

-- `x in xs`
abbrev pub contains : ℕ → List ℕ → Bool
contains x [] = false
contains x (y ∷ ys) = (x == y) || contains x ys

-- `len(set(xs)) == len(xs)`
abbrev pub distinct : List ℕ → Bool
distinct [] = true
distinct (x ∷ xs) = not (contains x xs) && distinct xs

module _ {ℓ} {A : Type ℓ} where
  abbrev pub length : List A → ℕ
  length [] = 0
  length (x ∷ xs) = suc (length xs)

  abbrev pub all : (A → Bool) → List A → Bool
  all p [] = true
  all p (x ∷ xs) = p x && all p xs

  abbrev pub any : (A → Bool) → List A → Bool
  any p [] = false
  any p (x ∷ xs) = p x || any p xs

  -- the first item that passes
  abbrev pub find : (A → Bool) → List A → Option A
  find p [] = none
  find p (x ∷ xs) = if p x then some x else find p xs

  -- the items that pass, in order
  abbrev pub keep : (A → Bool) → List A → List A
  keep p [] = []
  keep p (x ∷ xs) = let rest = keep p xs in if p x then x ∷ rest else rest

  pub all-append : (p : A → Bool) (xs ys : List A) → all p (xs ++ ys) ≡ (all p xs && all p ys)
  all-append p [] ys = refl
  all-append p (x ∷ xs) ys = ground (arith, all-append p xs ys)

  pub length-append : (xs ys : List A) → length (xs ++ ys) ≡ length xs + length ys
  length-append [] ys = omega arith
  length-append (x ∷ xs) ys = omega (arith, length-append xs ys)

pub contains-append :
    (x : ℕ) (xs ys : List ℕ) → contains x (xs ++ ys) ≡ (contains x xs || contains x ys)
contains-append x [] ys = refl
contains-append x (y ∷ xs) ys = ground (arith, contains-append x xs ys)

-- `c` stands somewhere in the list.
abbrev pub Listed : {A : Type 0} → A → List A → Type 0
Listed c [] = ⊥
Listed c (x ∷ xs) = (x ≡ c) ⊎ Listed c xs

module _ {A : Type 0} (p : A → Bool) where
  -- `find` returns a listed item that passes.
  pub find-Listed : (xs : List A) (c : A) → find p xs ≡ some c → Listed c xs × (p c ≡ true)
  find-Listed [] c h = cc
  find-Listed (x ∷ xs) c h = elim (Bool-cases (p x)) [
    | inl e ↦ ground arith
    | inr e ↦ ground (arith, find-Listed xs c)
  ]

  pub all-Listed : (xs : List A) (c : A) → all p xs ≡ true → Listed c xs → p c ≡ true
  all-Listed [] c h m = absurd m
  all-Listed (x ∷ xs) c h m = ground (arith, all-Listed xs c)

  pub all_mono :
      (q : A → Bool) (xs : List A)
      → ((x : A) → p x ≡ true → q x ≡ true)
      → all p xs ≡ true
      → all q xs ≡ true
  all_mono q [] f h = refl
  all_mono q (x ∷ xs) f h = ground (arith, f x, all_mono q xs f)

  -- What is found is found in a longer list too.
  pub find-append : (xs ys : List A) (c : A) → find p xs ≡ some c → find p (xs ++ ys) ≡ some c
  find-append [] ys c h = cc
  find-append (x ∷ xs) ys c h = ground (arith, find-append xs ys c)

pub distinct-append :
    (xs : List ℕ) (y : ℕ)
    → distinct xs ≡ true
    → contains y xs ≡ false
    → distinct (xs ++ y ∷ []) ≡ true
distinct-append [] y d n = refl
distinct-append (x ∷ xs) y d n = ground (arith, distinct-append xs y, contains-append x xs (y ∷ []))

-- An id is known when it is found.
pub contains-map-find :
    {A : Type 0} (id : A → ℕ) (i : ℕ) (xs : List A) (c : A)
    → find (λ x. id x == i) xs ≡ some c
    → contains i (map id xs) ≡ true
contains-map-find id i [] c h = cc
contains-map-find id i (x ∷ xs) c h = ground (arith, contains-map-find id i xs c)

pub all_intro :
    {A : Type 0} (p : A → Bool) (xs : List A)
    → ((x : A) → Listed x xs → p x ≡ true)
    → all p xs ≡ true
all_intro p [] h = refl
all_intro p (x ∷ xs) h = ground (arith, h x (inl refl), all_intro p xs (λ y m. h y (inr m)))
