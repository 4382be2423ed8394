-- ===== src/Lab/Dict.antt =====
-- A Python dict keyed by identifiers: an association list with each key once, compared without
-- regard to order.
use latent_compass.Prelude.{
  ℕ, ◌≡◌, refl, Bool, true, false, ◌&&◌, Option, none, some, List, [], ◌∷◌, map, arith, ◌==◌,
  if◌then◌else◌, contains, distinct, all, Listed, inl, inr, Bool-cases, Option-cases, all_intro,
  all-Listed, keep, sym, ◌∙◌, ==_iff,
}
use latent_compass.Contracts.{Identifier}

abbrev pub Dict {ℓ} : Type ℓ → Type ℓ
Dict V = List (Identifier × V)

module _ {ℓ} {V : Type ℓ} where
  abbrev pub keys : Dict V → List Identifier
  keys d = map (λ e. e.0) d

  abbrev pub lookup : Identifier → Dict V → Option V
  lookup k [] = none
  lookup k ((j, v) ∷ d) = if k == j then some v else lookup k d

  -- `d[k] = v`
  abbrev pub put : Identifier → V → Dict V → Dict V
  put k v [] = (k, v) ∷ []
  put k v ((j, w) ∷ d) = let rest = put k v d in if k == j then (k, v) ∷ d else (j, w) ∷ rest

pub lookup-put :
    {V : Type 0} (k j : Identifier) (v : V) (d : Dict V)
    → lookup k (put j v d) ≡ (if k == j then some v else lookup k d)
lookup-put k j v [] = refl
lookup-put k j v (e ∷ d) = ground (arith, lookup-put k j v d)

-- The dicts below hold numbers: weights, losses, or the ids of outcomes.
abbrev holds : Dict ℕ → Identifier × ℕ → Bool
holds d e = elim (lookup e.0 d) [ none ↦ false | some v ↦ v == e.1 ]

-- `a == b` on dicts.
unfoldable pub dict_eq : Dict ℕ → Dict ℕ → Bool
dict_eq a b = all (holds b) a && all (holds a) b

key-Listed : (d : Dict ℕ) (e : Identifier × ℕ) → Listed e d → contains e.0 (keys d) ≡ true
key-Listed [] e m = absurd m
key-Listed (x ∷ d) e (inl p) = rw p (ground arith)
key-Listed (x ∷ d) e (inr m) = ground (arith, key-Listed d e m)

holds_self :
    (d : Dict ℕ) (e : Identifier × ℕ) → distinct (keys d) ≡ true → Listed e d → holds d e ≡ true
holds_self [] e h m = absurd m
holds_self (x ∷ d) e h (inl p) = rw p (ground arith)
holds_self (x ∷ d) e h (inr m) = ground (arith, key-Listed d e m, holds_self d e)

pub dict_eq_refl : (d : Dict ℕ) → distinct (keys d) ≡ true → dict_eq d d ≡ true
unfolding dict_eq
dict_eq_refl d h = ground (arith, all_intro (holds d) d (λ e m. holds_self d e h m))

-- A lookup that finds something finds a listed entry.
lookup-Listed : (d : Dict ℕ) (k : Identifier) (v : ℕ) → lookup k d ≡ some v → Listed (k, v) d
lookup-Listed [] k v h = cc
lookup-Listed (x ∷ d) k v h = elim (Bool-cases (k == x.0)) [
  | inl e ↦ inl (ground arith)
  | inr e ↦ inr (lookup-Listed d k v (ground arith))
]

held :
    (a b : Dict ℕ) (k : Identifier) (v : ℕ)
    → all (holds b) a ≡ true
    → lookup k a ≡ some v
    → lookup k b ≡ some v
held a b k v h e = ground (arith, all-Listed (holds b) a (k, v) h (lookup-Listed a k v e))

-- Equal dicts have the same value at every key.
pub dict_eq-lookup : (a b : Dict ℕ) (k : Identifier) → dict_eq a b ≡ true → lookup k a ≡ lookup k b
unfolding dict_eq
dict_eq-lookup a b k h = elim (Option-cases (lookup k a)) [
  | inl e ↦ elim (Option-cases (lookup k b)) [
    | inl f ↦ e ∙ sym f
    | inr (v, f) ↦ ground (arith, held b a k v)
  ]
  | inr (v, e) ↦ ground (arith, held a b k v)
]

-- The entries of a dict that pass a test on their key.
abbrev pub restrict {ℓ} : {V : Type ℓ} → (Identifier → Bool) → Dict V → Dict V
restrict p d = keep (λ e. p e.0) d

pub lookup-restrict :
    {V : Type 0} (p : Identifier → Bool) (d : Dict V) (k : Identifier)
    → lookup k (restrict p d) ≡ (if p k then lookup k d else none)
lookup-restrict p [] k = ground arith
lookup-restrict p (x ∷ d) k = ground (arith, lookup-restrict p d k, ==_iff k x.0)

contains-restrict :
    {V : Type 0} (p : Identifier → Bool) (d : Dict V) (k : Identifier)
    → contains k (keys d) ≡ false
    → contains k (keys (restrict p d)) ≡ false
contains-restrict p [] k h = refl
contains-restrict p (x ∷ d) k h = ground (arith, contains-restrict p d k)

pub distinct-restrict :
    {V : Type 0} (p : Identifier → Bool) (d : Dict V)
    → distinct (keys d) ≡ true
    → distinct (keys (restrict p d)) ≡ true
distinct-restrict p [] h = refl
distinct-restrict p (x ∷ d) h = ground (arith, contains-restrict p d x.0, distinct-restrict p d)
