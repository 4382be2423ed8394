-- ===== src/Ledger/Writing.antt =====
-- src/latent_compass/ledger.py: `create`, `append`, `tombstone`, `abandon_epoch` and the reads.
--
-- An operation returns what it returns and the store that its transaction leaves; one that raises
-- has rolled its transaction back. The time is the one that `_stamp` has checked.
use latent_compass.Prelude.{
  ℕ, suc, String, Bool, true, false, not, ◌||◌, Option, none, some, List, [], ◌∷◌, ◌++◌, map, ◌==◌,
  Result, ok, err, ◌>>=◌, ◌>>◌, raise_if, length, contains, find, any, if◌then◌else◌,
}
use latent_compass.Prelude.Sorting.{insert_by}
use latent_compass.Contracts.{
  Identifier, Seal, Timestamp, AgentFamily, Exception, LedgerFault, ledger_violation, ledger_error,
  store_not_found, duplicate_episode, epoch_closed, integrity_error, provenance_mismatch,
  contract_violation,
}
use latent_compass.Ledger.{
  EpochStatus, is_open, abandoned, is_abandoned, StoreBinding, Episode, load_episode, spells, Row,
  tombstone_mode, Tombstone, Anchor, Store, belongs, Outside,
}
use latent_compass.Ledger.Verify.{genesis_seal, tail_of, verify}

abbrev pub fail_if : Bool → LedgerFault → Result Exception (Unit {0})
fail_if b fault = raise_if b (ledger_violation fault)

pub record AppendReceipt : Type 0 where
  pub seq : ℕ
  pub episode_id : Identifier
  pub content_seal : Seal
  pub chain_seal : Seal
  pub root_seal : Seal
  pub appended_at : Timestamp

-- `seq` of the row with the greatest one, or zero
abbrev pub last_seq : List Row → ℕ
last_seq [] = 0
last_seq (r ∷ []) = r.seq
last_seq (r ∷ s ∷ rs) = last_seq (s ∷ rs)

-- The unique columns of `episodes`.
abbrev pub clashes : Row → Row → Bool
clashes r s = (r.seq == s.seq) || (r.episode_id == s.episode_id) || (r.chain_seal == s.chain_seal)

abbrev pub has_id : Identifier → Row → Bool
has_id i r = r.episode_id == i

-- `UPDATE episodes SET payload = NULL, redacted = 1 WHERE episode_id = ?`, on one row
abbrev pub redact : Identifier → Row → Row
redact i r =
    if has_id i r
    then (record {
      seq = r.seq;
      episode_id = r.episode_id;
      content_seal = r.content_seal;
      prev_chain_seal = r.prev_chain_seal;
      chain_seal = r.chain_seal;
      payload = none;
      redacted = true;
      appended_at = r.appended_at;
    })
    else r

abbrev pub stone_for : Identifier → String → Timestamp → Tombstone
stone_for episode_id reason created_at = record {
  episode_id = episode_id;
  reason = reason;
  created_at = created_at;
  mode = tombstone_mode;
}

abbrev pub tombstone_ids : List Tombstone → List Identifier
tombstone_ids ts = map (λ (t : Tombstone). t.episode_id) ts

abbrev pub found : {A : Type 0} → Option A → Result Exception A
found none = err (ledger_violation store_not_found)
found (some a) = ok a

module _ (o : Outside) where
  -- `_write_anchor`
  abbrev pub write_anchor : Seal → ℕ → Seal → EpochStatus → Anchor
  write_anchor genesis count tail status = record {
    anchor_count = count;
    anchor_tail = tail;
    anchor_seal = o.anchor_seal genesis count tail status;
  }

  -- `create`, where no ledger is in the way
  unfoldable pub create : Identifier → Identifier → AgentFamily → Identifier → Timestamp → Store
  create store_id host_id agent_family epoch created_at =
      let binding : StoreBinding = record {
        identity = record {
          ledger_format_version = "1.0.0";
          store_id = store_id;
          host_id = host_id;
          agent_family = agent_family;
          epoch = epoch;
        };
        epoch_status = is_open;
        created_at = created_at;
      } in
      let genesis = genesis_seal o binding in
      record {
        binding = binding;
        abandoned_reason = none;
        anchor = some (write_anchor genesis 0 genesis is_open);
        rows = [];
        tombstones = [];
      }

  -- `root_seal`
  abbrev pub root_seal : Store → Seal
  root_seal s = tail_of o (genesis_seal o s.binding) s.rows

  -- `_check_admissible`
  abbrev pub check_admissible : Episode → StoreBinding → Result Exception (Unit {0})
  check_admissible e b = do
    fail_if (is_abandoned b.epoch_status) epoch_closed
    raise_if (not (belongs b e.provenance)) provenance_mismatch

  -- The row that an episode gets.
  abbrev pub row_for : Store → Episode → Timestamp → Row
  row_for s e appended_at =
      let seq = suc (last_seq s.rows) in
      let previous = root_seal s in
      record {
        seq = seq;
        episode_id = e.episode_id;
        content_seal = o.content_seal e;
        prev_chain_seal = previous;
        chain_seal = o.chain_seal seq e.episode_id (o.content_seal e) previous appended_at;
        payload = some (spells e);
        redacted = false;
        appended_at = appended_at;
      }

  abbrev pub with_row : Store → Row → Store
  with_row s r = record {
    binding = s.binding;
    abandoned_reason = s.abandoned_reason;
    anchor =
        some (write_anchor (genesis_seal o s.binding) r.seq r.chain_seal s.binding.epoch_status);
    rows = s.rows ++ r ∷ [];
    tombstones = s.tombstones;
  }

  abbrev pub receipt_of : Row → AppendReceipt
  receipt_of r = record {
    seq = r.seq;
    episode_id = r.episode_id;
    content_seal = r.content_seal;
    chain_seal = r.chain_seal;
    root_seal = r.chain_seal;
    appended_at = r.appended_at;
  }

  -- `append`
  unfoldable pub append : Store → Episode → Timestamp → Result Exception (AppendReceipt × Store)
  unfolding verify tail_of
  append s episode appended_at = do
    e ← load_episode o.episode_is_valid episode
    fail_if (not (verify o s).is_ok) integrity_error
    check_admissible e s.binding
    let r : Row = row_for s e appended_at
    fail_if (any (clashes r) s.rows) duplicate_episode
    ok (receipt_of r, with_row s r)

  abbrev pub with_tombstone : Store → Tombstone → Store
  with_tombstone s t = record {
    binding = s.binding;
    abandoned_reason = s.abandoned_reason;
    anchor = s.anchor;
    rows = map (redact t.episode_id) s.rows;
    tombstones = insert_by (λ t. t.episode_id) t s.tombstones;
  }

  -- `tombstone`
  unfoldable pub tombstone :
      Store → Identifier → String → Timestamp → Result Exception (Tombstone × Store)
  unfolding verify
  tombstone s episode_id reason created_at = do
    fail_if (not (verify o s).is_ok) integrity_error
    row ← found (find (has_id episode_id) s.rows)
    fail_if row.redacted ledger_error
    raise_if (not (o.reason_is_valid reason)) contract_violation
    let t = stone_for episode_id reason created_at
    fail_if (contains episode_id (tombstone_ids s.tombstones)) ledger_error
    ok (t, with_tombstone s t)

  abbrev pub closed : Store → Timestamp → String → Store
  closed s stamped reason =
      let binding : StoreBinding = record {
        identity = s.binding.identity;
        epoch_status = abandoned;
        created_at = s.binding.created_at;
      } in
      record {
        binding = binding;
        abandoned_reason = some (stamped, reason);
        anchor =
            some (write_anchor (genesis_seal o s.binding) (length s.rows) (root_seal s) abandoned);
        rows = s.rows;
        tombstones = s.tombstones;
      }

  -- `abandon_epoch`
  unfoldable pub abandon_epoch :
      Store → String → Timestamp → Result Exception (StoreBinding × Store)
  unfolding tail_of
  abandon_epoch s reason stamped = do
    fail_if (is_abandoned s.binding.epoch_status) epoch_closed
    ok ((closed s stamped reason).binding, closed s stamped reason)

  -- The row that `get` selects.
  unfoldable pub find_row : Store → Identifier → Result Exception Row
  find_row s episode_id = found (find (has_id episode_id) s.rows)

  -- `count`
  abbrev pub count : Store → ℕ
  count s = length s.rows
