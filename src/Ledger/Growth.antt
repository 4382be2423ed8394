-- ===== src/Ledger/Growth.antt =====
-- src/latent_compass/ledger.py: when `append` succeeds, and what it leaves.
use latent_compass.Prelude.{
  some, none, ◌≡◌, ◌↔◌, refl, sym, Result, Result-cases, inl, inr, Bool, true, false, not, [], ◌∷◌,
  ◌++◌, ok, err, length, any, all, arith, ap, &&-true, length-append, >>=-eq-ok, >>=-eq-ok_at,
  raise_if-ok, ok-eq,
}
use mathlib.Core.Path.{subst}
use latent_compass.Contracts.{Timestamp, Exception, same_family, ledger_violation, store_not_found}
use latent_compass.Ledger.{
  Episode, load_episode, EpochStatus, is_open, is_abandoned, StoreBinding, Provenance, Row, Store,
  belongs, Outside,
}
use latent_compass.Ledger.Verify.{genesis_seal, valid_tombstone, tombstoned_ids, verify}
use latent_compass.Ledger.Walk.{rows_are_sound}
use latent_compass.Ledger.Writing.{
  AppendReceipt, clashes, root_seal, check_admissible, row_for, with_row, receipt_of, append,
  find_row,
}
use latent_compass.Ledger.Appended.{with_row_sound, first-next, rows-length, tail-append, clash-ids}
use latent_compass.Ledger.Reading.{get, record_of, record_with}
use latent_compass.Ledger.Rows.{find-absent, find-last, sound-verify, verify_of_sound}

load_episode-eq : (valid : Episode → Bool) (e f : Episode) → load_episode valid e ≡ ok f → f ≡ e
load_episode-eq valid e f h = ground arith

-- The host, the agent family, the store and the epoch are the same.
abbrev pub SameProvenance : StoreBinding → Provenance → Type 0
SameProvenance b p =
    (p.host_id ≡ b.host_id)
    × (p.agent_family ≡ b.agent_family)
    × (p.store_id ≡ b.store_id)
    × (p.epoch ≡ b.epoch)

belongs-SameProvenance :
    (b : StoreBinding) (p : Provenance) → (belongs b p ≡ true) ↔ SameProvenance b p
unfolding same_family
belongs-SameProvenance b p = (λ h. ground arith, λ h. ground arith)

not_abandoned : (x : EpochStatus) → (is_abandoned x ≡ false) ↔ (x ≡ is_open)
not_abandoned x = (λ h. ground arith, λ h. ground arith)

module _ (o : Outside) where
  -- What `append` asks of the store and of the episode.
  abbrev pub Admits : Store → Episode → Timestamp → Type 0
  Admits s e at =
      (load_episode o.episode_is_valid e ≡ ok e)
      × ((verify o s).is_ok ≡ true)
      × (s.binding.epoch_status ≡ is_open)
      × SameProvenance s.binding e.provenance
      × (any (clashes (row_for o s e at)) s.rows ≡ false)

  append-Admits :
      (s t : Store) (e : Episode) (at : Timestamp) (rc : AppendReceipt)
      → append o s e at ≡ ok (rc, t)
      → Admits s e at
        × (receipt_of o (row_for o s e at) ≡ rc)
        × (with_row o s (row_for o s e at) ≡ t)
  unfolding append
  append-Admits s t e at rc h =
      let (le, h1) =
        >>=-eq-ok_at e (load_episode o.episode_is_valid e) _ (load_episode-eq o.episode_is_valid e)
          h in
      let (hv, h2) = raise_if-ok (not (verify o s).is_ok) _ _ h1 in
      let (u, hc, h3) = >>=-eq-ok (check_admissible o e s.binding) _ h2 in
      let (hn, h4) = raise_if-ok (any (clashes (row_for o s e at)) s.rows) _ _ h3 in
      (
        (
          le,
          ground arith,
          (not_abandoned s.binding.epoch_status).0 (ground arith),
          (belongs-SameProvenance s.binding e.provenance).0 (ground arith),
          hn,
        ),
        ap (λ (x : AppendReceipt × Store). x.0) (ok-eq _ (rc, t) h4),
        ap (λ (x : AppendReceipt × Store). x.1) (ok-eq _ (rc, t) h4),
      )

  admitted :
      (s : Store) (e : Episode) (at : Timestamp)
      → Admits s e at
      → append o s e at ≡ ok (receipt_of o (row_for o s e at), with_row o s (row_for o s e at))
  unfolding append
  admitted s e at (le, hv, hs, hb, hn) =
      let opened = (not_abandoned s.binding.epoch_status).1 hs in
      let same = (belongs-SameProvenance s.binding e.provenance).1 hb in rw (le, hv) (ground arith)

  -- A store grown by the row of an episode, and the receipt for it.
  abbrev pub Grown : Store → Episode → AppendReceipt → Store → Type 0
  Grown s e rc t =
      (r : Row) × (t.rows ≡ s.rows ++ r ∷ [])
      × (rc.seq ≡ length t.rows)
      × (root_seal o t ≡ rc.root_seal)
      × ((verify o t).is_ok ≡ true)
      × (get o s e.episode_id ≡ err (ledger_violation store_not_found))
      × (get o t e.episode_id ≡ ok (record_with o r (some e) none))
      × (r.content_seal ≡ o.content_seal e)
      × (t.binding ≡ s.binding)
      × (t.tombstones ≡ s.tombstones)

  grown :
      (s : Store) (e : Episode) (at : Timestamp)
      → Admits s e at
      → Grown s e (receipt_of o (row_for o s e at)) (with_row o s (row_for o s e at))
  unfolding find_row get record_of
  grown s e at (le, hv, hs, hb, hn) =
      let r : Row = row_for o s e at in
      let g = genesis_seal o s.binding in
      let same = (belongs-SameProvenance s.binding e.provenance).1 hb in
      let sound = sound-verify o s hv in
      let (valid, h1) = &&-true (all (valid_tombstone o) s.tombstones) _ sound in
      let (rows, h2) =
        &&-true (rows_are_sound o s.binding (tombstoned_ids o s.tombstones) 1 g s.rows) _ h1 in
      let count = rows-length o s.binding (tombstoned_ids o s.tombstones) 1 g s.rows rows in
      let new = clash-ids r s.rows hn in
      (
        r,
        refl,
        omega (arith, count, first-next s.rows, length-append s.rows (r ∷ [])),
        tail-append o g s.rows r,
        verify_of_sound o (with_row o s r) (with_row_sound o s e at sound same hn),
        rw (find-absent e.episode_id s.rows new) refl,
        rw (find-last e.episode_id s.rows r new refl, le) refl,
        refl,
        refl,
        refl,
      )

  pub append-Grown :
      (s t : Store) (e : Episode) (at : Timestamp) (rc : AppendReceipt)
      → append o s e at ≡ ok (rc, t)
      → Grown s e rc t
  append-Grown s t e at rc h =
      let (a, hr, ht) = append-Admits s t e at rc h in
      subst (Grown s e rc) ht
        (subst (λ x. Grown s e x (with_row o s (row_for o s e at))) hr (grown s e at a))

  -- What `append` may answer: a receipt with a grown store to what it admits, and an error to what
  -- it does not.
  abbrev pub Answers :
      Store → Episode → Timestamp → Result Exception (AppendReceipt × Store) → Type 0
  Answers s e at (ok (rc, t)) = Admits s e at × Grown s e rc t
  Answers s e at (err x) = ¬ Admits s e at

  -- `append` succeeds exactly when the episode is valid, the store verifies, its epoch is open, the
  -- episode's host, agent family, store and epoch are those of the store, and its row clashes with
  -- none that is there: what it returns otherwise is an error. When it succeeds, it leaves a store
  -- that verifies, with the earlier rows as they were and one row more, whose number is the number
  -- of rows and whose chain seal is the new root; the episode was not found before and is found
  -- after, with its content seal, and the binding and the tombstones stay.
  pub append-Answers : (s : Store) (e : Episode) (at : Timestamp) → Answers s e at (append o s e at)
  append-Answers s e at = elim (Result-cases (append o s e at)) [
    | inl ((rc, t), h) ↦
        subst (Answers s e at) (sym h) ((append-Admits s t e at rc h).0, append-Grown s t e at rc h)
    | inr (x, h) ↦ subst (Answers s e at) (sym h) (λ a. cc (h, admitted s e at a))
  ]
