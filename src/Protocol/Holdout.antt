-- ===== src/Protocol/Holdout.antt =====
-- src/latent_compass/protocol.py: the holdout ledger and `evaluate`.
--
-- The ledger is its file. Whether a call gets the lock before its deadline is an argument, and a
-- timestamp that is passed on has the form of one; the interleavings of several processes are the
-- steps of the child module.
use latent_compass.Prelude.{
  Bool, not, ◌&&◌, [], Option, none, some, Result, ok, err, ◌>>=◌, ◌>>◌, raise_if, ◌==◌,
  if◌then◌else◌,
}
use latent_compass.Contracts.{
  Identifier, Seal, Timestamp, Exception, protocol_violation, ledger_required, lock_unavailable,
  ledger_unreadable, already_consumed, no_receipt, receipt_mismatch,
}
use latent_compass.Lab.Dict.{Dict, lookup, put}
use latent_compass.Protocol.Specs.{FiniteFloat, holdout, same_split}
use latent_compass.Protocol.Preregistration.{Preregistration}
use latent_compass.Protocol.Verdict.{MeasurementSet, VerdictBody, Verdict}
use latent_compass.Protocol.Score.{score_measurements}

pub record HoldoutConsumption : Type 0 where
  pub consumed_at : Timestamp
  pub protocol_id : Identifier
  pub protocol_seal : Seal
  pub epoch : Identifier
  pub verdict_seal : Seal
  pub measurement_set_seal : Seal

-- What stands at the ledger's path: `corrupt` is a file that cannot be read, that is no JSON
-- object, or that holds an entry which is no receipt.
pub data LedgerFile : Type 0 where
  missing corrupt : LedgerFile
  holding : Dict HoldoutConsumption → LedgerFile

-- `_read_unlocked`
abbrev pub read_unlocked : LedgerFile → Result Exception (Dict HoldoutConsumption)
read_unlocked missing = ok []
read_unlocked corrupt = err (protocol_violation ledger_unreadable)
read_unlocked (holding entries) = ok entries

-- `_ExclusiveLock.__enter__`
abbrev enter_lock : Bool → Result Exception (Unit {0})
enter_lock acquired = raise_if (not acquired) (protocol_violation lock_unavailable)

-- `consumption`
unfoldable pub consumption : Bool → LedgerFile → Seal → Result Exception (Option HoldoutConsumption)
consumption acquired file corpus_seal = do
  enter_lock acquired
  entries ← read_unlocked file
  ok (lookup corpus_seal entries)

-- The decision of `consume`, on the entries that it has read.
abbrev pub spend : Seal → HoldoutConsumption → Dict HoldoutConsumption → Result Exception LedgerFile
spend corpus_seal receipt entries = elim (lookup corpus_seal entries) [
  | none ↦ ok (holding (put corpus_seal receipt entries))
  | some previous ↦ err (protocol_violation already_consumed)
]

-- `consume`: the file that it leaves.
unfoldable pub consume : Bool → LedgerFile → Seal → HoldoutConsumption → Result Exception LedgerFile
consume acquired file corpus_seal receipt = do
  enter_lock acquired
  entries ← read_unlocked file
  spend corpus_seal receipt entries

-- The four fields that `require_consumption` compares.
abbrev pub binds : HoldoutConsumption → Seal → Seal → Seal → Identifier → Bool
binds r protocol_seal verdict_seal measurement_set_seal epoch =
    (r.protocol_seal == protocol_seal)
    && (r.verdict_seal == verdict_seal)
    && (r.measurement_set_seal == measurement_set_seal)
    && (r.epoch == epoch)

abbrev present {ℓ} : {A : Type ℓ} → Option A → Result Exception A
present none = err (protocol_violation no_receipt)
present (some r) = ok r

-- `require_consumption`
unfoldable pub require_consumption :
    Bool → LedgerFile → Seal → Seal → Seal → Seal → Identifier → Result Exception HoldoutConsumption
unfolding consumption
require_consumption acquired file corpus_seal protocol_seal verdict_seal measurement_set_seal
      epoch =
    do
      found ← consumption acquired file corpus_seal
      receipt ← present found
      raise_if (not (binds receipt protocol_seal verdict_seal measurement_set_seal epoch))
          (protocol_violation receipt_mismatch)
      ok receipt

module _ (measurement_seal : MeasurementSet → Seal) where
  -- The receipt that `evaluate` leaves for a verdict.
  abbrev pub receipt_for : MeasurementSet → Timestamp → Verdict → HoldoutConsumption
  receipt_for ms consumed_at v = record {
    consumed_at = consumed_at;
    protocol_id = v.protocol_id;
    protocol_seal = v.protocol_seal;
    epoch = v.epoch;
    verdict_seal = v.verdict_seal;
    measurement_set_seal = measurement_seal ms;
  }

  -- What `evaluate` does with the verdict and the ledger: the file that it leaves.
  abbrev pub record_verdict :
      Bool
      → MeasurementSet
      → Verdict
      → Option LedgerFile
      → Option Timestamp
      → Result Exception (Option LedgerFile)
  record_verdict acquired ms v (some file) (some at) =
      if same_split v.split holdout
      then (do after ← consume acquired file v.corpus_seal (receipt_for ms at v); ok (some after))
      else ok (some file)
  record_verdict acquired ms v ledger at =
      if same_split v.split holdout then err (protocol_violation ledger_required) else ok ledger

  module _ (mean : FiniteFloat → FiniteFloat → Option FiniteFloat)
      (protocol_seal : Preregistration → Seal) (seal_body : VerdictBody → Seal) where
    -- `evaluate`: the verdict, and what stands at the ledger's path after it. A call that raises
    -- leaves the ledger as it was.
    unfoldable pub evaluate :
        Bool
        → Preregistration
        → MeasurementSet
        → Option LedgerFile
        → Option Timestamp
        → Result Exception (Verdict × Option LedgerFile)
    unfolding score_measurements consume
    evaluate acquired p ms ledger at = do
      v ← score_measurements mean protocol_seal seal_body p ms
      after ← record_verdict acquired ms v ledger at
      ok (v, after)
