-- ===== src/Ledger/Walk.antt =====
-- src/latent_compass/ledger.py: a report without findings, as tests of the rows, the tombstones and
-- the anchor.
use latent_compass.Prelude.{
  ℕ, suc, ◌≡◌, refl, Bool, true, false, not, ◌&&◌, Option, none, some, List, [], ◌∷◌, ◌++◌, map,
  ◌==◌, length, contains, if◌then◌else◌, all, arith,
}
use latent_compass.Contracts.{Identifier, Seal}
use latent_compass.Ledger.{
  StoreBinding, Payload, spells, garbled, Row, Tombstone, Anchor, Store, belongs, Outside,
  IntegrityFinding,
}
use latent_compass.Ledger.Verify.{
  is_absent, none_found, genesis_seal, valid_tombstone, tombstoned_ids, link_findings,
  content_findings, row_findings, tail_of, tombstone_findings, orphan_findings, anchor_findings,
  verify,
}

none_found-append :
    (xs ys : List IntegrityFinding) → none_found (xs ++ ys) ≡ (none_found xs && none_found ys)
none_found-append [] ys = refl
none_found-append (x ∷ xs) ys = refl

abbrev pub ids : List Row → List Identifier
ids rows = map (λ (r : Row). r.episode_id) rows

module _ (o : Outside) where
  abbrev pub link_is_sound : ℕ → Seal → Row → Bool
  link_is_sound n previous r =
      (r.seq == n)
      && (r.prev_chain_seal == previous)
      && (o.chain_seal r.seq r.episode_id r.content_seal r.prev_chain_seal r.appended_at
          == r.chain_seal)

  abbrev pub payload_is_sound : StoreBinding → Row → Option Payload → Bool
  payload_is_sound b r (some (spells e)) =
      (o.content_seal e == r.content_seal) && belongs b e.provenance
  payload_is_sound b r (some garbled) = false
  payload_is_sound b r none = false

  abbrev pub content_is_sound : StoreBinding → List Identifier → Row → Bool
  content_is_sound b tombstoned r =
      let stored = payload_is_sound b r r.payload in
      if r.redacted
      then is_absent r.payload && contains r.episode_id tombstoned
      else not (contains r.episode_id tombstoned) && stored

  unfoldable pub rows_are_sound : StoreBinding → List Identifier → ℕ → Seal → List Row → Bool
  rows_are_sound b tombstoned n previous [] = true
  rows_are_sound b tombstoned n previous (r ∷ rs) =
      link_is_sound n previous r
      && (content_is_sound b tombstoned r
          && rows_are_sound b tombstoned (suc r.seq) r.chain_seal rs)

  abbrev pub anchor_is_sound : StoreBinding → ℕ → Seal → Option Anchor → Bool
  anchor_is_sound b count tail none = false
  anchor_is_sound b count tail (some a) =
      (o.anchor_seal (genesis_seal o b) a.anchor_count a.anchor_tail b.epoch_status
        == a.anchor_seal)
      && (a.anchor_count == count)
      && (a.anchor_tail == tail)

  abbrev pub tombstones_are_sound : List Row → List Tombstone → Bool
  tombstones_are_sound rows ts =
      all (valid_tombstone o) ts && all (λ (t : Tombstone). contains t.episode_id (ids rows)) ts

  link_sound :
      (n : ℕ) (previous : Seal) (r : Row)
      → none_found (link_findings o n previous r) ≡ link_is_sound n previous r
  link_sound n previous r = ground arith

  content_sound :
      (b : StoreBinding) (ts : List Identifier) (r : Row)
      → none_found (content_findings o b ts r) ≡ content_is_sound b ts r
  content_sound b ts r = ground arith

  rows_sound :
      (b : StoreBinding) (ts : List Identifier) (n : ℕ) (previous : Seal) (rs : List Row)
      → none_found (row_findings o b ts n previous rs) ≡ rows_are_sound b ts n previous rs
  unfolding row_findings rows_are_sound
  rows_sound b ts n previous [] = refl
  rows_sound b ts n previous (r ∷ rs) =
      let rest = row_findings o b ts (suc r.seq) r.chain_seal rs in
      rw
        (
          none_found-append (link_findings o n previous r) (content_findings o b ts r ++ rest),
          none_found-append (content_findings o b ts r) rest,
          link_sound n previous r,
          content_sound b ts r,
          rows_sound b ts (suc r.seq) r.chain_seal rs,
        )
        refl

  tombstones_sound :
      (ts : List Tombstone) → none_found (tombstone_findings o ts) ≡ all (valid_tombstone o) ts
  unfolding tombstone_findings
  tombstones_sound [] = refl
  tombstones_sound (t ∷ ts) = ground (arith, tombstones_sound ts)

  orphans_sound :
      (seen : List Identifier) (ts : List Tombstone)
      → none_found (orphan_findings o seen ts)
        ≡ all (λ (t : Tombstone). contains t.episode_id seen) ts
  unfolding orphan_findings
  orphans_sound seen [] = refl
  orphans_sound seen (t ∷ ts) = ground (arith, orphans_sound seen ts)

  anchor_sound :
      (b : StoreBinding) (count : ℕ) (tail : Seal) (a : Option Anchor)
      → none_found (anchor_findings o b count tail a) ≡ anchor_is_sound b count tail a
  anchor_sound b count tail a = ground arith

  -- What a report without findings says of the store.
  abbrev pub store_is_sound : Store → Bool
  store_is_sound s =
      all (valid_tombstone o) s.tombstones
      && (rows_are_sound s.binding (tombstoned_ids o s.tombstones) 1 (genesis_seal o s.binding)
            s.rows
          && (all (λ (t : Tombstone). contains t.episode_id (ids s.rows)) s.tombstones
              && anchor_is_sound s.binding (length s.rows)
                  (tail_of o (genesis_seal o s.binding) s.rows) s.anchor))

  pub verify_sound : (s : Store) → (verify o s).is_ok ≡ store_is_sound s
  unfolding verify
  verify_sound s =
      let b = s.binding in
      let g = genesis_seal o b in
      let a = anchor_findings o b (length s.rows) (tail_of o g s.rows) s.anchor in
      let f = orphan_findings o (ids s.rows) s.tombstones in
      let r = row_findings o b (tombstoned_ids o s.tombstones) 1 g s.rows in
      rw
        (
          none_found-append (tombstone_findings o s.tombstones) (r ++ (f ++ a)),
          none_found-append r (f ++ a),
          none_found-append f a,
          tombstones_sound s.tombstones,
          rows_sound b (tombstoned_ids o s.tombstones) 1 g s.rows,
          orphans_sound (ids s.rows) s.tombstones,
          anchor_sound b (length s.rows) (tail_of o g s.rows) s.anchor,
        )
        refl
