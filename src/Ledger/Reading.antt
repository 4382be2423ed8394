-- ===== src/Ledger/Reading.antt =====
-- src/latent_compass/ledger.py: the read path, `replay` and `export`.
use latent_compass.Prelude.{
  ℕ, zero, suc, Bool, not, ◌||◌, Option, none, some, List, [], ◌∷◌, map, ◌==◌, Result, ok, err,
  ◌>>=◌, ◌>>◌, raise_if, ltb, length, find, keep, if◌then◌else◌,
}
use latent_compass.Contracts.{
  Identifier, Seal, Timestamp, Exception, contract_violation, integrity_error,
}
use latent_compass.Ledger.{
  StoreBinding, Episode, load_episode, Payload, spells, garbled, Row, Tombstone, Store, Outside,
}
use latent_compass.Ledger.Verify.{genesis_seal, valid_tombstone, tail_of, verify}
use latent_compass.Ledger.Writing.{fail_if, find_row}

pub record LedgerRecord : Type 0 where
  pub seq : ℕ
  pub episode_id : Identifier
  pub content_seal : Seal
  pub prev_chain_seal : Seal
  pub chain_seal : Seal
  pub appended_at : Timestamp
  pub redacted : Bool
  pub episode : Option Episode
  pub tombstone : Option Tombstone

-- What the replay's digest covers of a row.
pub record Link : Type 0 where
  pub seq : ℕ
  pub episode_id : Identifier
  pub content_seal : Seal
  pub redacted : Bool

pub record ReplayReport : Type 0 where
  pub store_id : Identifier
  pub epoch : Identifier
  pub episode_count : ℕ
  pub redacted_count : ℕ
  pub replayed_episode_ids : List Identifier
  pub redacted_episode_ids : List Identifier
  pub root_seal : Seal
  pub replay_digest : Seal

pub record ExportBody : Type 0 where
  pub store : StoreBinding
  pub root_seal : Seal
  pub episode_count : ℕ
  pub records : List (Row × Option Episode)
  pub tombstones : List Tombstone

pub record ExportDocument : Type 0 where
  pub body : ExportBody
  pub open body use *
  pub export_seal : Seal

-- `MAX_PAGE_SIZE`
abbrev pub max_page_size : ℕ
max_page_size = 1000

-- `_decode_payload`
abbrev pub decode_payload : Payload → Result Exception Episode
decode_payload garbled = err contract_violation
decode_payload (spells e) = ok e

abbrev pub drop_rows : ℕ → List Row → List Row
drop_rows zero rows = rows
drop_rows (suc n) [] = []
drop_rows (suc n) (r ∷ rows) = drop_rows n rows

abbrev pub take_rows : ℕ → List Row → List Row
take_rows zero rows = []
take_rows (suc n) [] = []
take_rows (suc n) (r ∷ rows) = r ∷ take_rows n rows

abbrev link_of : Row → Link
link_of r = record {
  seq = r.seq;
  episode_id = r.episode_id;
  content_seal = r.content_seal;
  redacted = r.redacted;
}

abbrev ids_of_rows : List Row → List Identifier
ids_of_rows rows = map (λ (r : Row). r.episode_id) rows

module _ (o : Outside) where
  -- The episode of a row that is not redacted.
  abbrev pub load_payload : Option Payload → Result Exception (Option Episode)
  load_payload none = ok none
  load_payload (some p) = do
    decoded ← decode_payload p
    e ← load_episode o.episode_is_valid decoded
    ok (some e)

  abbrev load_stone : Option Tombstone → Result Exception (Option Tombstone)
  load_stone none = ok none
  load_stone (some t) = do raise_if (not (valid_tombstone o t)) contract_violation; ok (some t)

  abbrev pub record_with : Row → Option Episode → Option Tombstone → LedgerRecord
  record_with r e t = record {
    seq = r.seq;
    episode_id = r.episode_id;
    content_seal = r.content_seal;
    prev_chain_seal = r.prev_chain_seal;
    chain_seal = r.chain_seal;
    appended_at = r.appended_at;
    redacted = r.redacted;
    episode = e;
    tombstone = t;
  }

  -- `_record`
  unfoldable pub record_of : Store → Row → Result Exception LedgerRecord
  record_of s r =
      if r.redacted
      then (do
        t ← load_stone (find (λ (t : Tombstone). t.episode_id == r.episode_id) s.tombstones)
        ok (record_with r none t))
      else (do e ← load_payload r.payload; ok (record_with r e none))

  -- `get`
  unfoldable pub get : Store → Identifier → Result Exception LedgerRecord
  unfolding find_row record_of
  get s episode_id = do r ← find_row o s episode_id; record_of s r

  unfoldable pub records_of : Store → List Row → Result Exception (List LedgerRecord)
  unfolding record_of
  records_of s [] = ok []
  records_of s (r ∷ rows) = do x ← record_of s r; xs ← records_of s rows; ok (x ∷ xs)

  -- `list_records`
  unfoldable pub list_records : Store → ℕ → ℕ → Result Exception (List LedgerRecord)
  unfolding records_of
  list_records s limit offset = do
    raise_if (ltb limit 1 || ltb max_page_size limit) contract_violation
    records_of s (take_rows limit (drop_rows offset s.rows))

  -- A payload that is not there does not decode.
  abbrev load_again : Option Payload → Result Exception Episode
  load_again none = err contract_violation
  load_again (some p) = decode_payload p >>= load_episode o.episode_is_valid

  -- The loop of `replay`: every payload loads again.
  unfoldable pub replay_rows : List Row → Result Exception (Unit {0})
  replay_rows [] = ok tt
  replay_rows (r ∷ rows) =
      let rest = replay_rows rows in if r.redacted then rest else load_again r.payload >>= λ e. rest

  module _ (seal_replay : StoreBinding → Seal → List Link → Seal) where
    -- `replay`
    unfoldable pub replay : Store → Result Exception ReplayReport
    unfolding verify replay_rows tail_of
    replay s = do
      fail_if (not (verify o s).is_ok) integrity_error
      replay_rows s.rows
      let gone = keep (λ (r : Row). r.redacted) s.rows
      ok (record {
        store_id = s.binding.store_id;
        epoch = s.binding.epoch;
        episode_count = length s.rows;
        redacted_count = length gone;
        replayed_episode_ids = ids_of_rows (keep (λ (r : Row). not r.redacted) s.rows);
        redacted_episode_ids = ids_of_rows gone;
        root_seal = tail_of o (genesis_seal o s.binding) s.rows;
        replay_digest = seal_replay s.binding (genesis_seal o s.binding) (map link_of s.rows);
      })

  abbrev export_row : Row → Result Exception (Row × Option Episode)
  export_row r = elim r.payload [
    | none ↦ ok (r, none)
    | some p ↦ decode_payload p >>= λ e. ok (r, some e)
  ]

  unfoldable pub export_rows : List Row → Result Exception (List (Row × Option Episode))
  export_rows [] = ok []
  export_rows (r ∷ rows) = do x ← export_row r; xs ← export_rows rows; ok (x ∷ xs)

  unfoldable pub checked_stones : List Tombstone → Result Exception (List Tombstone)
  checked_stones [] = ok []
  checked_stones (t ∷ ts) = do
    raise_if (not (valid_tombstone o t)) contract_violation
    rest ← checked_stones ts
    ok (t ∷ rest)

  -- `export`
  unfoldable pub export : (ExportBody → Seal) → Store → Result Exception ExportDocument
  unfolding verify export_rows checked_stones
  export seal_export s = do
    fail_if (not (verify o s).is_ok) integrity_error
    records ← export_rows s.rows
    stones ← checked_stones s.tombstones
    let body : ExportBody = record {
      store = s.binding;
      root_seal = (verify o s).root_seal;
      episode_count = length s.rows;
      records = records;
      tombstones = stones;
    }
    ok (record { body = body; export_seal = seal_export body })
