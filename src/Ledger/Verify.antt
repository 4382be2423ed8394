-- ===== src/Ledger/Verify.antt =====
-- src/latent_compass/ledger.py: `_verify_unlocked` and what it calls.
use latent_compass.Prelude.{
  ℕ, suc, Bool, true, false, not, ◌&&◌, ◌||◌, Option, none, some, List, [], ◌∷◌, ◌++◌, map, ◌==◌,
  length, keep, contains, if◌then◌else◌,
}
use latent_compass.Contracts.{Identifier, Seal}
use latent_compass.Ledger.{
  IntegrityKind, sequence_invalid, chain_broken, payload_altered, payload_unparseable,
  payload_missing, payload_present_on_redacted, redacted_without_tombstone, tombstone_invalid,
  tombstone_on_unredacted, orphan_tombstone, provenance_mismatched, anchor_mismatch, anchor_missing,
  StoreBinding, Episode, Payload, spells, garbled, Row, DeletionMode, tombstone_mode, Tombstone,
  Anchor, Store, IntegrityFinding, IntegrityReport, belongs, Outside,
}

abbrev pub report_if : Bool → IntegrityFinding → List IntegrityFinding
report_if true f = f ∷ []
report_if false f = []

abbrev at_row : Row → IntegrityKind → IntegrityFinding
at_row r kind = record { seq = some r.seq; episode_id = some r.episode_id; kind = kind }

abbrev pub is_absent : Option Payload → Bool
is_absent none = true
is_absent (some p) = false

abbrev has_tombstone_mode : DeletionMode → Bool
has_tombstone_mode tombstone_mode = true
has_tombstone_mode _ = false

abbrev pub ids_of : List Tombstone → List Identifier
ids_of ts = map (λ t. t.episode_id) ts

abbrev pub none_found : List IntegrityFinding → Bool
none_found [] = true
none_found (_ ∷ _) = false

module _ (o : Outside) where
  abbrev pub genesis_seal : StoreBinding → Seal
  genesis_seal b = o.seal_genesis b.identity

  abbrev pub valid_tombstone : Tombstone → Bool
  valid_tombstone t = o.reason_is_valid t.reason && has_tombstone_mode t.mode

  -- `_provenance_findings`
  abbrev pub provenance_findings : Row → Episode → StoreBinding → List IntegrityFinding
  provenance_findings r e b =
      report_if (not (belongs b e.provenance)) (at_row r provenance_mismatched)

  -- A payload that is there, on a row that is not redacted.
  abbrev pub payload_findings : StoreBinding → Row → Payload → List IntegrityFinding
  payload_findings b r garbled = at_row r payload_unparseable ∷ []
  payload_findings b r (spells e) =
      if o.content_seal e == r.content_seal
      then provenance_findings r e b
      else at_row r payload_altered ∷ []

  abbrev pub stored_findings : StoreBinding → Row → Option Payload → List IntegrityFinding
  stored_findings b r none = at_row r payload_missing ∷ []
  stored_findings b r (some p) = payload_findings b r p

  -- What follows `if redacted` in the loop, and what follows it else.
  abbrev pub content_findings : StoreBinding → List Identifier → Row → List IntegrityFinding
  content_findings b tombstoned r =
      let stored = stored_findings b r r.payload in
      if r.redacted
      then report_if (not (is_absent r.payload)) (at_row r payload_present_on_redacted)
        ++ report_if (not (contains r.episode_id tombstoned)) (at_row r redacted_without_tombstone)
      else report_if (contains r.episode_id tombstoned) (at_row r tombstone_on_unredacted) ++ stored

  -- The tests of a row's place in the chain.
  abbrev pub link_findings : ℕ → Seal → Row → List IntegrityFinding
  link_findings expected_seq previous r =
      report_if (not (r.seq == expected_seq)) (at_row r sequence_invalid)
      ++ (report_if (not (r.prev_chain_seal == previous)) (at_row r chain_broken)
          ++ report_if
              (not (
                o.chain_seal r.seq r.episode_id r.content_seal r.prev_chain_seal r.appended_at
                == r.chain_seal))
              (at_row r chain_broken))

  -- The loop over the rows.
  unfoldable pub row_findings :
      StoreBinding → List Identifier → ℕ → Seal → List Row → List IntegrityFinding
  row_findings b tombstoned expected_seq previous [] = []
  row_findings b tombstoned expected_seq previous (r ∷ rs) =
      link_findings expected_seq previous r
      ++ (content_findings b tombstoned r ++ row_findings b tombstoned (suc r.seq) r.chain_seal rs)

  -- `previous`, after the loop
  unfoldable pub tail_of : Seal → List Row → Seal
  tail_of previous [] = previous
  tail_of previous (r ∷ rs) = tail_of r.chain_seal rs

  unfoldable pub tombstone_findings : List Tombstone → List IntegrityFinding
  tombstone_findings [] = []
  tombstone_findings (t ∷ ts) =
      report_if (not (valid_tombstone t))
        (record { seq = none; episode_id = some t.episode_id; kind = tombstone_invalid })
      ++ tombstone_findings ts

  -- `tombstoned`
  abbrev pub tombstoned_ids : List Tombstone → List Identifier
  tombstoned_ids ts = ids_of (keep valid_tombstone ts)

  unfoldable pub orphan_findings : List Identifier → List Tombstone → List IntegrityFinding
  orphan_findings seen [] = []
  orphan_findings seen (t ∷ ts) =
      report_if (not (contains t.episode_id seen))
        (record { seq = none; episode_id = some t.episode_id; kind = orphan_tombstone })
      ++ orphan_findings seen ts

  abbrev nowhere : IntegrityKind → IntegrityFinding
  nowhere kind = record { seq = none; episode_id = none; kind = kind }

  -- `_anchor_findings`
  abbrev pub anchor_findings : StoreBinding → ℕ → Seal → Option Anchor → List IntegrityFinding
  anchor_findings b count tail none = nowhere anchor_missing ∷ []
  anchor_findings b count tail (some a) =
      report_if
        (not (
          o.anchor_seal (genesis_seal b) a.anchor_count a.anchor_tail b.epoch_status
          == a.anchor_seal))
        (nowhere anchor_mismatch)
      ++ report_if (not (a.anchor_count == count) || not (a.anchor_tail == tail))
          (nowhere anchor_mismatch)

  abbrev pub findings_of : Store → List IntegrityFinding
  findings_of s =
      let genesis = genesis_seal s.binding in
      tombstone_findings s.tombstones
      ++ (row_findings s.binding (tombstoned_ids s.tombstones) 1 genesis s.rows
          ++ (orphan_findings (map (λ (r : Row). r.episode_id) s.rows) s.tombstones
              ++ anchor_findings s.binding (length s.rows) (tail_of genesis s.rows) s.anchor))

  -- `_verify_unlocked`
  unfoldable pub verify : Store → IntegrityReport
  unfolding row_findings tail_of tombstone_findings orphan_findings
  verify s =
      let found = findings_of s in
      record {
        is_ok = none_found found;
        checked = length s.rows;
        redacted = length (keep (λ (r : Row). r.redacted) s.rows);
        root_seal = tail_of (genesis_seal s.binding) s.rows;
        findings = found;
      }
