-- ===== src/Ledger/Redacted.antt =====
-- src/latent_compass/ledger.py: what `tombstone` and `abandon_epoch` leave.
use latent_compass.Prelude.{
  ℕ, suc, String, ◌≡◌, refl, Bool, true, ◌&&◌, ◌||◌, some, List, [], ◌∷◌, map, ◌==◌, length,
  contains, find, all, arith, ◌∙◌, ap, &&-true, contains-map-find,
}
use mathlib.Core.Path.{ap₂}
use latent_compass.Prelude.Sorting.{insert_by}
use latent_compass.Contracts.{Identifier, Seal, Timestamp}
use latent_compass.Ledger.{StoreBinding, Row, Tombstone, Store, Outside}
use latent_compass.Ledger.Verify.{genesis_seal, valid_tombstone, tombstoned_ids, tail_of}
use latent_compass.Ledger.Walk.{rows_are_sound, ids, anchor_is_sound, store_is_sound}
use latent_compass.Ledger.Writing.{has_id, redact, with_tombstone, closed}

pub ids-redact : (i : Identifier) (rows : List Row) → ids (map (redact i) rows) ≡ ids rows
ids-redact i [] = refl
ids-redact i (r ∷ rows) = ground (arith, ids-redact i rows)

length-redact : (i : Identifier) (rows : List Row) → length (map (redact i) rows) ≡ length rows
length-redact i [] = refl
length-redact i (r ∷ rows) = ap suc (length-redact i rows)

-- Where a tombstone stands does not matter.
all-insert :
    (p : Tombstone → Bool) (t : Tombstone) (ts : List Tombstone)
    → all p (insert_by (λ t. t.episode_id) t ts) ≡ (p t && all p ts)
all-insert p t [] = refl
all-insert p t (u ∷ ts) = ground (arith, all-insert p t ts)

module _ (o : Outside) where
  pub tail-redact :
      (previous : Seal) (i : Identifier) (rows : List Row)
      → tail_of o previous (map (redact i) rows) ≡ tail_of o previous rows
  unfolding tail_of
  tail-redact previous i [] = refl
  tail-redact previous i (r ∷ rows) = ground (arith, tail-redact r.chain_seal i rows)

  tombstoned-insert :
      (j : Identifier) (t : Tombstone) (ts : List Tombstone)
      → valid_tombstone o t ≡ true
      → contains j (tombstoned_ids o (insert_by (λ t. t.episode_id) t ts))
        ≡ ((j == t.episode_id) || contains j (tombstoned_ids o ts))
  tombstoned-insert j t [] h = ground arith
  tombstoned-insert j t (u ∷ ts) h = ground (arith, tombstoned-insert j t ts)

  rows-redact :
      (b : StoreBinding) (i : Identifier) (before after : List Identifier) (n : ℕ) (previous : Seal)
      (rows : List Row)
      → ((j : Identifier) → contains j after ≡ ((j == i) || contains j before))
      → rows_are_sound o b before n previous rows ≡ true
      → rows_are_sound o b after n previous (map (redact i) rows) ≡ true
  unfolding rows_are_sound
  rows-redact b i before after n previous [] more h = refl
  rows-redact b i before after n previous (r ∷ rows) more h =
      ground
        (arith, more r.episode_id, rows-redact b i before after (suc r.seq) r.chain_seal rows more)

  pub with_tombstone_sound :
      (s : Store) (t : Tombstone) (r : Row)
      → store_is_sound o s ≡ true
      → find (has_id t.episode_id) s.rows ≡ some r
      → valid_tombstone o t ≡ true
      → store_is_sound o (with_tombstone o s t) ≡ true
  with_tombstone_sound s t r h e v =
      let i = t.episode_id in
      let ts = tombstoned_ids o s.tombstones in
      let after = (with_tombstone o s t).tombstones in
      let g = genesis_seal o s.binding in
      let (valid, h1) = &&-true (all (valid_tombstone o) s.tombstones) _ h in
      let (sound, h2) = &&-true (rows_are_sound o s.binding ts 1 g s.rows) _ h1 in
      let (known, h3) =
        &&-true (all (λ (t : Tombstone). contains t.episode_id (ids s.rows)) s.tombstones) _ h2 in
      let all_valid : all (valid_tombstone o) after ≡ true =
        all-insert (valid_tombstone o) t s.tombstones ∙ ap₂ ◌&&◌ v valid in
      let rows =
        rows-redact s.binding i ts (tombstoned_ids o after) 1 g s.rows
          (λ j. tombstoned-insert j t s.tombstones v) sound in
      let here : contains i (ids s.rows) ≡ true =
        contains-map-find (λ (r : Row). r.episode_id) i s.rows r e in
      let all_known : all (λ (t : Tombstone). contains t.episode_id (ids (map (redact i) s.rows)))
            after
          ≡ true =
        rw (ids-redact i s.rows) (
          all-insert (λ (t : Tombstone). contains t.episode_id (ids s.rows)) t s.tombstones
          ∙ ap₂ ◌&&◌ here known) in
      let anchor : anchor_is_sound o s.binding (length (map (redact i) s.rows))
            (tail_of o g (map (redact i) s.rows)) s.anchor
          ≡ true =
        rw (length-redact i s.rows, tail-redact g i s.rows) h3 in
      ap₂ ◌&&◌ all_valid (ap₂ ◌&&◌ rows (ap₂ ◌&&◌ all_known anchor))

  rows-binding :
      (b c : StoreBinding) (ts : List Identifier) (n : ℕ) (previous : Seal) (rows : List Row)
      → c.identity ≡ b.identity
      → rows_are_sound o b ts n previous rows ≡ true
      → rows_are_sound o c ts n previous rows ≡ true
  unfolding rows_are_sound
  rows-binding b c ts n previous [] same h = refl
  rows-binding b c ts n previous (r ∷ rows) same h =
      ground (arith, rows-binding b c ts (suc r.seq) r.chain_seal rows same)

  pub closed_sound :
      (s : Store) (stamped : Timestamp) (reason : String)
      → store_is_sound o s ≡ true
      → store_is_sound o (closed o s stamped reason) ≡ true
  closed_sound s stamped reason h =
      let ts = tombstoned_ids o s.tombstones in
      let g = genesis_seal o s.binding in
      let (valid, h1) = &&-true (all (valid_tombstone o) s.tombstones) _ h in
      let (sound, h2) = &&-true (rows_are_sound o s.binding ts 1 g s.rows) _ h1 in
      let (known, h3) =
        &&-true (all (λ (t : Tombstone). contains t.episode_id (ids s.rows)) s.tombstones) _ h2 in
      let after = closed o s stamped reason in
      ap₂ ◌&&◌ valid (
        ap₂ ◌&&◌ (rows-binding s.binding after.binding ts 1 g s.rows refl sound)
          (ap₂ ◌&&◌ known (ground arith)))
