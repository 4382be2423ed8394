-- ===== src/Ledger/Rows.antt =====
-- src/latent_compass/ledger.py: the rows that `get` finds, and a sound store as one that verifies.
use latent_compass.Prelude.{
  ◌≡◌, refl, Bool, true, false, not, Option, none, some, List, [], ◌∷◌, ◌++◌, map, ◌==◌, ok,
  contains, find, arith, Bool-cases, inl, inr, sym, ◌∙◌,
}
use latent_compass.Contracts.{Identifier}
use latent_compass.Ledger.{Row, Store, Outside}
use latent_compass.Ledger.Verify.{verify}
use latent_compass.Ledger.Walk.{ids, store_is_sound, verify_sound}
use latent_compass.Ledger.Writing.{has_id, found, redact}

pub find-absent :
    (i : Identifier) (rows : List Row) → contains i (ids rows) ≡ false → find (has_id i) rows ≡ none
find-absent i [] h = refl
find-absent i (r ∷ rows) h = ground (arith, find-absent i rows)

pub find-last :
    (i : Identifier) (rows : List Row) (r : Row)
    → contains i (ids rows) ≡ false
    → r.episode_id ≡ i
    → find (has_id i) (rows ++ r ∷ []) ≡ some r
find-last i [] r h e = ground arith
find-last i (s ∷ rows) r h e = ground (arith, find-last i rows r)

pub not-false : (b : Bool) → not b ≡ false → b ≡ true
not-false true h = refl
not-false false h = cc

pub found-some : (x : Option Row) (r : Row) → found x ≡ ok r → x ≡ some r
found-some none r h = cc
found-some (some s) r h = cc

pub find-redact :
    (i : Identifier) (rows : List Row) (r : Row)
    → find (has_id i) rows ≡ some r
    → find (has_id i) (map (redact i) rows) ≡ some (redact i r)
find-redact i [] r h = cc
find-redact i (s ∷ rows) r h = elim (Bool-cases (has_id i s)) [
  | inl e ↦ ground arith
  | inr e ↦ ground (arith, find-redact i rows r)
]

pub find-others :
    (i j : Identifier) (rows : List Row)
    → (i == j) ≡ false
    → find (has_id j) (map (redact i) rows) ≡ find (has_id j) rows
find-others i j [] h = refl
find-others i j (s ∷ rows) h = ground (arith, find-others i j rows)

module _ (o : Outside) where
  pub sound-verify : (s : Store) → (verify o s).is_ok ≡ true → store_is_sound o s ≡ true
  sound-verify s h = sym (verify_sound o s) ∙ h

  pub verify_of_sound : (s : Store) → store_is_sound o s ≡ true → (verify o s).is_ok ≡ true
  verify_of_sound s h = verify_sound o s ∙ h
