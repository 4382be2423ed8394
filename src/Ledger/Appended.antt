-- ===== src/Ledger/Appended.antt =====
-- src/latent_compass/ledger.py: what `append` leaves.
use latent_compass.Prelude.{
  ℕ, suc, ◌+◌, ◌≡◌, refl, true, false, ◌&&◌, List, [], ◌∷◌, ◌++◌, ◌==◌, length, contains, all, any,
  arith, Bool-cases, inl, inr, ◌∙◌, length-append, &&-true, all_mono,
}
use mathlib.Core.Path.{ap₂}
use latent_compass.Contracts.{Identifier, Seal, Timestamp}
use latent_compass.Ledger.{StoreBinding, Episode, Row, Tombstone, Store, belongs, Outside}
use latent_compass.Ledger.Verify.{genesis_seal, valid_tombstone, tombstoned_ids, tail_of}
use latent_compass.Ledger.Walk.{rows_are_sound, ids, anchor_is_sound, store_is_sound}
use latent_compass.Ledger.Writing.{last_seq, clashes, root_seal, row_for, with_row}

abbrev next_seq : ℕ → List Row → ℕ
next_seq n [] = n
next_seq n (r ∷ rs) = next_seq (suc r.seq) rs

next-last : (n : ℕ) (r : Row) (rs : List Row) → next_seq n (r ∷ rs) ≡ suc (last_seq (r ∷ rs))
next-last n r [] = refl
next-last n r (s ∷ rs) = next-last (suc r.seq) s rs

pub first-next : (rs : List Row) → next_seq 1 rs ≡ suc (last_seq rs)
first-next [] = refl
first-next (r ∷ rs) = next-last 1 r rs

-- An id that clashes with no row is not among the rows' ids.
pub clash-ids :
    (r : Row) (rows : List Row)
    → any (clashes r) rows ≡ false
    → contains r.episode_id (ids rows) ≡ false
clash-ids r [] h = refl
clash-ids r (s ∷ rows) h = ground (arith, clash-ids r rows)

ids-append :
    (i : Identifier) (rows : List Row) (r : Row)
    → contains i (ids rows) ≡ true
    → contains i (ids (rows ++ r ∷ [])) ≡ true
ids-append i [] r h = cc
ids-append i (s ∷ rows) r h = ground (arith, ids-append i rows r)

module _ (o : Outside) where
  rows-append :
      (b : StoreBinding) (ts : List Identifier) (n : ℕ) (previous : Seal) (xs ys : List Row)
      → rows_are_sound o b ts n previous (xs ++ ys) ≡ (
          rows_are_sound o b ts n previous xs
          && rows_are_sound o b ts (next_seq n xs) (tail_of o previous xs) ys)
  unfolding rows_are_sound tail_of
  rows-append b ts n previous [] ys = refl
  rows-append b ts n previous (x ∷ xs) ys =
      ground (arith, rows-append b ts (suc x.seq) x.chain_seal xs ys)

  pub tail-append :
      (previous : Seal) (xs : List Row) (r : Row) → tail_of o previous (xs ++ r ∷ []) ≡ r.chain_seal
  unfolding tail_of
  tail-append previous [] r = refl
  tail-append previous (x ∷ xs) r = tail-append x.chain_seal xs r

  -- Numbers without a gap count the rows.
  pub rows-length :
      (b : StoreBinding) (ts : List Identifier) (n : ℕ) (previous : Seal) (rows : List Row)
      → rows_are_sound o b ts n previous rows ≡ true
      → next_seq n rows ≡ n + length rows
  unfolding rows_are_sound
  rows-length b ts n previous [] h = omega arith
  rows-length b ts n previous (r ∷ rows) h =
      ground (arith, rows-length b ts (suc r.seq) r.chain_seal rows)

  -- A tombstone belongs to a row, so that an id without a row has none.
  not_tombstoned :
      (i : Identifier) (seen : List Identifier) (ts : List Tombstone)
      → all (λ (t : Tombstone). contains t.episode_id seen) ts ≡ true
      → contains i seen ≡ false
      → contains i (tombstoned_ids o ts) ≡ false
  not_tombstoned i seen [] h n = refl
  not_tombstoned i seen (t ∷ ts) h n = elim (Bool-cases (i == t.episode_id)) [
    | inl e ↦ ground arith
    | inr e ↦ ground (arith, not_tombstoned i seen ts)
  ]

  seen_more :
      (rows : List Row) (r : Row) (ts : List Tombstone)
      → all (λ (t : Tombstone). contains t.episode_id (ids rows)) ts ≡ true
      → all (λ (t : Tombstone). contains t.episode_id (ids (rows ++ r ∷ []))) ts ≡ true
  seen_more rows r ts h =
      all_mono (λ (t : Tombstone). contains t.episode_id (ids rows))
        (λ (t : Tombstone). contains t.episode_id (ids (rows ++ r ∷ []))) ts
        (λ t e. ids-append t.episode_id rows r e) h

  -- The row that is appended is sound in its place.
  row_is_sound :
      (s : Store) (e : Episode) (at : Timestamp)
      → store_is_sound o s ≡ true
      → belongs s.binding e.provenance ≡ true
      → any (clashes (row_for o s e at)) s.rows ≡ false
      → rows_are_sound o s.binding
          (tombstoned_ids o s.tombstones)
          (next_seq 1 s.rows)
          (root_seal o s)
          (row_for o s e at ∷ [])
        ≡ true
  unfolding rows_are_sound
  row_is_sound s e at h p n = ground (
    arith,
    first-next s.rows,
    not_tombstoned e.episode_id (ids s.rows) s.tombstones,
    clash-ids (row_for o s e at) s.rows,
  )

  pub with_row_sound :
      (s : Store) (e : Episode) (at : Timestamp)
      → store_is_sound o s ≡ true
      → belongs s.binding e.provenance ≡ true
      → any (clashes (row_for o s e at)) s.rows ≡ false
      → store_is_sound o (with_row o s (row_for o s e at)) ≡ true
  with_row_sound s e at h p n =
      let r : Row = row_for o s e at in
      let ts = tombstoned_ids o s.tombstones in
      let g = genesis_seal o s.binding in
      let (valid, h1) = &&-true (all (valid_tombstone o) s.tombstones) _ h in
      let (sound, h2) = &&-true (rows_are_sound o s.binding ts 1 g s.rows) _ h1 in
      let (known, h3) =
        &&-true (all (λ (t : Tombstone). contains t.episode_id (ids s.rows)) s.tombstones) _ h2 in
      let rows : rows_are_sound o s.binding ts 1 g (s.rows ++ r ∷ []) ≡ true =
        rows-append s.binding ts 1 g s.rows (r ∷ []) ∙ ap₂ ◌&&◌ sound (row_is_sound s e at h p n) in
      let anchor : anchor_is_sound o s.binding (length (s.rows ++ r ∷ []))
            (tail_of o g (s.rows ++ r ∷ [])) (with_row o s r).anchor
          ≡ true =
        rw (tail-append g s.rows r, length-append s.rows (r ∷ []))
          (ground (arith, first-next s.rows, rows-length s.binding ts 1 g s.rows sound)) in
      ap₂ ◌&&◌ valid (ap₂ ◌&&◌ rows (ap₂ ◌&&◌ (seen_more s.rows r s.tombstones known) anchor))
