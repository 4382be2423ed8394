-- ===== src/Ledger/Integrity.antt =====
-- src/latent_compass/ledger.py: the stores that the operations lead to verify, and a truncated one does not.
use latent_compass.Prelude.{
  ℕ, String, ◌≡◌, true, false, Option, none, some, List, ◌∷◌, ◌++◌, ok, length, contains, all,
  arith, Bool-cases, inl, inr, sym, ◌∙◌, ap, &&-true, length-append, raise_if-ok, ok-eq,
}
use mathlib.Core.Path.{subst}
use latent_compass.Contracts.{Identifier, Seal, Timestamp, AgentFamily}
use latent_compass.Ledger.{
  StoreBinding, Episode, is_abandoned, Row, Tombstone, Anchor, Store, Outside,
}
use latent_compass.Ledger.Verify.{
  genesis_seal, valid_tombstone, tombstoned_ids, tail_of, verify, row_findings, tombstone_findings,
  orphan_findings,
}
use latent_compass.Ledger.Walk.{ids, rows_are_sound, anchor_is_sound, store_is_sound}
use latent_compass.Ledger.Writing.{AppendReceipt, create, append, tombstone, closed, abandon_epoch}
use latent_compass.Ledger.Redacted.{closed_sound}
use latent_compass.Ledger.Rows.{sound-verify, verify_of_sound}
use latent_compass.Ledger.Growth.{append-Grown}
use latent_compass.Ledger.Redaction.{tombstone-find_row}

abbrev anchored_count : Option Anchor → Option ℕ
anchored_count none = none
anchored_count (some a) = some a.anchor_count

some-eq : (a b : ℕ) → some a ≡ some b → a ≡ b
some-eq a b h = cc

module _ (o : Outside) where
  anchor-count :
      (b : StoreBinding) (n : ℕ) (tail : Seal) (a : Option Anchor)
      → anchor_is_sound o b n tail a ≡ true
      → anchored_count a ≡ some n
  anchor-count b n tail none h = cc
  anchor-count b n tail (some a) h = ground arith

  -- The stores that some sequence of operations leads to.
  pub data Reachable : Store → Type 0 where
    created :
        (store_id host_id : Identifier) (family : AgentFamily) (epoch : Identifier) (at : Timestamp)
        (s : Store)
        → s ≡ create o store_id host_id family epoch at
        → Reachable s
    appended :
        (s t : Store) (e : Episode) (at : Timestamp) (rc : AppendReceipt)
        → Reachable s
        → append o s e at ≡ ok (rc, t)
        → Reachable t
    redacted :
        (s t : Store) (i : Identifier) (reason : String) (at : Timestamp) (stone : Tombstone)
        → Reachable s
        → tombstone o s i reason at ≡ ok (stone, t)
        → Reachable t
    abandons :
        (s t : Store) (reason : String) (at : Timestamp) (b : StoreBinding)
        → Reachable s
        → abandon_epoch o s reason at ≡ ok (b, t)
        → Reachable t

  created-verify :
      (store_id host_id : Identifier) (family : AgentFamily) (epoch : Identifier) (at : Timestamp)
      → (verify o (create o store_id host_id family epoch at)).is_ok ≡ true
  unfolding verify create row_findings tombstone_findings orphan_findings tail_of
  created-verify store_id host_id family epoch at = ground arith

  abandoned-verify :
      (s t : Store) (reason : String) (at : Timestamp) (b : StoreBinding)
      → (verify o s).is_ok ≡ true
      → abandon_epoch o s reason at ≡ ok (b, t)
      → (verify o t).is_ok ≡ true
  unfolding abandon_epoch
  abandoned-verify s t reason at b v h =
      let (hs, h1) = raise_if-ok (is_abandoned s.binding.epoch_status) _ _ h in
      let same = ap (λ (x : StoreBinding × Store). x.1) (ok-eq _ (b, t) h1) in
      subst (λ (x : Store). (verify o x).is_ok ≡ true) same
        (verify_of_sound o (closed o s at reason) (closed_sound o s at reason (sound-verify o s v)))

  -- Every store that creation, appends, redactions and the abandonment of its epoch lead to
  -- verifies without a finding.
  pub Reachable-verify : (s : Store) → Reachable s → (verify o s).is_ok ≡ true
  Reachable-verify s (created i h f p at _ e) =
      subst (λ (x : Store). (verify o x).is_ok ≡ true) (sym e) (created-verify i h f p at)
  Reachable-verify t (appended s _ e at rc r h) =
      let (row, a, b, c, v, d, e', f, g, k) = append-Grown o s t e at rc h in v
  Reachable-verify t (redacted s _ i reason at stone r h) =
      let (row, a, b, c, d, e, f, v, g, k) = tombstone-find_row o s t i i reason at stone h in v
  Reachable-verify t (abandons s _ reason at b r h) =
      abandoned-verify s t reason at b (Reachable-verify s r) h

  -- The number that the anchor of a store that verifies records.
  anchored :
      (s : Store) → store_is_sound o s ≡ true → anchored_count s.anchor ≡ some (length s.rows)
  anchored s h =
      let (valid, h1) = &&-true (all (valid_tombstone o) s.tombstones) _ h in
      let (rows, h2) =
        &&-true
          (rows_are_sound o s.binding (tombstoned_ids o s.tombstones) 1 (genesis_seal o s.binding)
            s.rows)
          _ h1 in
      let (known, h3) =
        &&-true (all (λ (t : Tombstone). contains t.episode_id (ids s.rows)) s.tombstones) _ h2 in
      anchor-count s.binding (length s.rows) (tail_of o (genesis_seal o s.binding) s.rows) s.anchor
        h3

  -- The store whose rows are cut off after `rows`, its metadata left as they are.
  abbrev pub truncated : Store → List Row → Store
  truncated s rows = record {
    binding = s.binding;
    abandoned_reason = s.abandoned_reason;
    anchor = s.anchor;
    rows = rows;
    tombstones = s.tombstones;
  }

  -- A store that verifies does not verify once its last rows, one or more, are removed and its
  -- anchor is left.
  pub verify-truncated :
      (s : Store) (rows cut : List Row) (r : Row)
      → (verify o s).is_ok ≡ true
      → s.rows ≡ rows ++ r ∷ cut
      → (verify o (truncated s rows)).is_ok ≡ false
  verify-truncated s rows cut r h e =
      let counted = anchored s (sound-verify o s h) in
      elim (Bool-cases (verify o (truncated s rows)).is_ok) [
        | inl t ↦
            let again = anchored (truncated s rows) (sound-verify o (truncated s rows) t) in
            absurd (
              omega (
                arith,
                some-eq _ _ (sym counted ∙ again),
                ap length e,
                length-append rows (r ∷ cut),
              ))
        | inr f ↦ f
      ]
