-- ===== src/Ledger/Redaction.antt =====
-- src/latent_compass/ledger.py: what `tombstone` changes.
use latent_compass.Prelude.{
  String, ◌≡◌, refl, true, false, not, some, map, ◌==◌, ok, contains, find, if◌then◌else◌, arith,
  Bool-cases, ==_iff, inl, inr, >>=-eq-ok, raise_if-ok, ok-eq,
}
use mathlib.Core.Path.{subst}
use latent_compass.Contracts.{Identifier, Timestamp}
use latent_compass.Ledger.{Row, Tombstone, Store, Outside}
use latent_compass.Ledger.Verify.{genesis_seal, verify}
use latent_compass.Ledger.Walk.{ids}
use latent_compass.Ledger.Writing.{
  has_id, root_seal, with_tombstone, tombstone, find_row, found, redact, stone_for, tombstone_ids,
}
use latent_compass.Ledger.Redacted.{with_tombstone_sound, ids-redact, tail-redact}
use latent_compass.Ledger.Rows.{
  not-false, found-some, find-redact, find-others, sound-verify, verify_of_sound,
}

module _ (o : Outside) where
  -- A store in which a payload is redacted.
  abbrev pub Redacts : Store → Identifier → Identifier → Tombstone → Store → Type 0
  Redacts s i j stone t =
      (r : Row) × (find_row o s i ≡ ok r)
      × (r.redacted ≡ false)
      × (stone.episode_id ≡ i)
      × (find_row o t j ≡ (if i == j then ok (redact i r) else find_row o s j))
      × (ids t.rows ≡ ids s.rows)
      × (root_seal o t ≡ root_seal o s)
      × ((verify o t).is_ok ≡ true)
      × (t.anchor ≡ s.anchor)
      × (t.binding ≡ s.binding)

  find_row-redact :
      (s : Store) (i j : Identifier) (reason : String) (at : Timestamp) (r : Row)
      → find (has_id i) s.rows ≡ some r
      → find_row o (with_tombstone o s (stone_for i reason at)) j
        ≡ (if i == j then ok (redact i r) else find_row o s j)
  unfolding find_row
  find_row-redact s i j reason at r f = elim (Bool-cases (i == j)) [
    | inl e ↦
        let same : i ≡ j = (==_iff i j).0 e in
        let found_there =
          subst (λ k. find (has_id k) (map (redact i) s.rows) ≡ some (redact i r)) same
            (find-redact i s.rows r f) in
        rw (e, found_there) refl
    | inr e ↦ rw (e, find-others i j s.rows e) refl
  ]

  -- A redaction that succeeds was of an episode that was not redacted; it leaves a store that
  -- verifies, with the same ids, root seal, anchor and binding, in which that episode's record has
  -- lost its payload, and the other records are as they were.
  pub tombstone-find_row :
      (s t : Store) (i j : Identifier) (reason : String) (at : Timestamp) (stone : Tombstone)
      → tombstone o s i reason at ≡ ok (stone, t)
      → Redacts s i j stone t
  unfolding tombstone find_row
  tombstone-find_row s t i j reason at stone h =
      let (hv, h1) = raise_if-ok (not (verify o s).is_ok) _ _ h in
      let (row, hf, h2) = >>=-eq-ok (found (find (has_id i) s.rows)) _ h1 in
      let (hr, h3) = raise_if-ok row.redacted _ _ h2 in
      let (hl, h4) = raise_if-ok (not (o.reason_is_valid reason)) _ _ h3 in
      let (hc, h5) = raise_if-ok (contains i (tombstone_ids s.tombstones)) _ _ h4 in
      let stone' = stone_for i reason at in
      let e = ok-eq (stone', with_tombstone o s stone') (stone, t) h5 in
      let sound =
        with_tombstone_sound o s stone' row (sound-verify o s (not-false _ hv))
          (found-some (find (has_id i) s.rows) row hf) (ground arith) in
      let base : Redacts s i j stone' (with_tombstone o s stone') = (
        row,
        hf,
        hr,
        refl,
        find_row-redact s i j reason at row (found-some (find (has_id i) s.rows) row hf),
        ids-redact i s.rows,
        tail-redact o (genesis_seal o s.binding) i s.rows,
        verify_of_sound o (with_tombstone o s stone') sound,
        refl,
        refl,
      ) in
      subst (λ (x : Tombstone × Store). Redacts s i j x.0 x.1) e base
