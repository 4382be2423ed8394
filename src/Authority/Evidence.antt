-- ===== src/Authority/Evidence.antt =====
-- src/latent_compass/authority.py: `_verify_evidence`.
use latent_compass.Prelude.{
  Bool, true, false, not, ◌&&◌, ◌||◌, Option, none, some, List, [], ◌∷◌, Result, ok, err, ◌>>=◌,
  ◌>>◌, raise_if, ◌==◌, str_eq, if◌then◌else◌,
}
use latent_compass.Contracts.{
  Seal, Exception, RefusalReason, authority_refusal, missing_evidence, evidence_forged,
  evidence_mismatch, evidence_rejects, validation_error, statistics_error,
}
use latent_compass.Authority.{LifecycleState, rejected, state_rank, EvidenceRequirement}
use latent_compass.Protocol.Specs.{
  FiniteFloat, holdout, same_split, MetricDirection, higher_is_better, lower_is_better, family_rank,
}
use latent_compass.Protocol.Preregistration.{Preregistration, load_preregistration, split_spec}
use latent_compass.Protocol.Verdict.{
  HoldoutPurpose, final_verdict, training, selection, exploration, is_final, is_kill,
  MeasurementSet, load_measurement_set, MetricVerdict, VerdictBody, Verdict, load_verdict,
  recompute_verdict_seal, same_ids,
}
use latent_compass.Protocol.Score.{score_measurements}
use latent_compass.Protocol.Holdout.{LedgerFile, require_consumption}

abbrev pub refuse {ℓ} : {A : Type ℓ} → RefusalReason → Result Exception A
refuse reason = err (authority_refusal reason)

abbrev pub refuse_if : Bool → RefusalReason → Result Exception (Unit {0})
refuse_if b reason = raise_if b (authority_refusal reason)

-- `except ContractViolation`: pydantic's error and that of `statistics` are no such exceptions.
abbrev pub refused_as : RefusalReason → Exception → Exception
refused_as reason validation_error = validation_error
refused_as reason statistics_error = statistics_error
refused_as reason (authority_refusal r) = authority_refusal r
refused_as reason _ = authority_refusal reason

abbrev pub guarded : {A : Type 0} → RefusalReason → Result Exception A → Result Exception A
guarded reason (ok a) = ok a
guarded reason (err e) = err (refused_as reason e)

abbrev pub absent {ℓ} : {A : Type ℓ} → Option A → Bool
absent none = true
absent (some a) = false

-- `load(x) if x is not None else None`
abbrev pub load_if {ℓ} :
    {A : Type ℓ} → (A → Result Exception A) → Option A → Result Exception (Option A)
load_if load none = ok none
load_if load (some a) = load a >>= λ b. ok (some b)

abbrev pub same_direction : MetricDirection → MetricDirection → Bool
same_direction higher_is_better higher_is_better = true
same_direction lower_is_better lower_is_better = true
same_direction _ _ = false

abbrev pub same_purpose : HoldoutPurpose → HoldoutPurpose → Bool
same_purpose final_verdict final_verdict = true
same_purpose training training = true
same_purpose selection selection = true
same_purpose exploration exploration = true
same_purpose _ _ = false

abbrev pub same_bool : Bool → Bool → Bool
same_bool true b = b
same_bool false b = not b

abbrev pub same_metric : MetricVerdict → MetricVerdict → Bool
same_metric a b =
    (a.metric == b.metric)
    && (family_rank a.family == family_rank b.family)
    && same_direction a.direction b.direction
    && (a.threshold == b.threshold)
    && (a.aggregate == b.aggregate)
    && (a.seed_count == b.seed_count)
    && same_bool a.required b.required
    && same_bool a.passed b.passed

abbrev pub same_metrics : List MetricVerdict → List MetricVerdict → Bool
same_metrics [] [] = true
same_metrics (x ∷ xs) (y ∷ ys) = same_metric x y && same_metrics xs ys
same_metrics _ _ = false

-- Equality of the canonical payloads of two verdicts.
unfoldable pub same_verdict : Verdict → Verdict → Bool
same_verdict a b =
    str_eq a.contract_version b.contract_version
    && same_bool (is_kill a.decision) (is_kill b.decision)
    && (a.protocol_id == b.protocol_id)
    && (a.protocol_seal == b.protocol_seal)
    && (a.corpus_seal == b.corpus_seal)
    && (a.epoch == b.epoch)
    && same_split a.split b.split
    && same_purpose a.purpose b.purpose
    && same_metrics a.metrics b.metrics
    && same_ids a.failing_metrics b.failing_metrics
    && (a.verdict_seal == b.verdict_seal)

-- The artefacts that have been loaded.
pub record Evidence : Type 0 where
  pub protocol : Option Preregistration
  pub measurements : Option MeasurementSet
  pub verdict : Option Verdict

abbrev pub is_rejected : LifecycleState → Bool
is_rejected to_state = state_rank to_state == state_rank rejected

-- The four tests for what a state demands, in order.
abbrev pub check_presence : EvidenceRequirement → Evidence → Bool → Result Exception (Unit {0})
check_presence requirement e human_acknowledged = do
  refuse_if (requirement.protocol && absent e.protocol) missing_evidence
  refuse_if (requirement.human_acknowledgement && not human_acknowledged) missing_evidence
  refuse_if (requirement.verdict && absent e.verdict) missing_evidence
  refuse_if (requirement.measurements && absent e.measurements) missing_evidence

-- The block that loads the artefacts.
unfoldable pub load_evidence : Evidence → Result Exception Evidence
unfolding load_preregistration load_measurement_set load_verdict
load_evidence e = do
  p ← load_if load_preregistration e.protocol
  ms ← load_if load_measurement_set e.measurements
  v ← load_if load_verdict e.verdict
  ok (record { protocol = p; measurements = ms; verdict = v })

-- `x`, where it is there.
abbrev pub needed : {A : Type 0} → Option A → Result Exception A
needed none = refuse missing_evidence
needed (some a) = ok a

module _ (mean : FiniteFloat → FiniteFloat → Option FiniteFloat)
    (protocol_seal : Preregistration → Seal) (measurement_seal : MeasurementSet → Seal)
    (seal_body : VerdictBody → Seal) where
  -- The demand for the consumption receipt of a final verdict.
  abbrev pub check_receipt :
      Bool
      → EvidenceRequirement
      → Option LedgerFile
      → Preregistration
      → MeasurementSet
      → Verdict
      → Result Exception (Unit {0})
  check_receipt acquired requirement ledger p ms v =
      if requirement.holdout_consumption_receipt
      then (do
        file ← needed ledger
        receipt ← guarded evidence_mismatch (
            require_consumption acquired file v.corpus_seal (protocol_seal p) v.verdict_seal
              (measurement_seal ms) v.epoch)
        ok tt)
      else ok tt

  -- The part that reproduces a verdict from its protocol and its measurements.
  unfoldable pub reproduce_verdict :
      Bool
      → LifecycleState
      → EvidenceRequirement
      → Option LedgerFile
      → Verdict
      → Preregistration
      → MeasurementSet
      → Result Exception (Unit {0})
  unfolding split_spec score_measurements same_verdict require_consumption
  reproduce_verdict acquired to_state requirement ledger v p ms = do
    refuse_if (not (v.protocol_seal == protocol_seal p)) evidence_mismatch
    refuse_if (not (v.epoch == p.epoch)) evidence_mismatch
    spec ← split_spec p v.split
    refuse_if (not (v.corpus_seal == spec.corpus_seal)) evidence_mismatch
    expected ← guarded evidence_mismatch (score_measurements mean protocol_seal seal_body p ms)
    refuse_if (not (same_verdict expected v)) evidence_mismatch
    refuse_if (is_kill v.decision && not (is_rejected to_state)) evidence_rejects
    refuse_if
        (requirement.final_holdout_verdict
          && (not (same_split v.split holdout) || not (is_final v.purpose)))
        missing_evidence
    check_receipt acquired requirement ledger p ms v

  -- The part that follows once a verdict is there.
  unfoldable pub verify_verdict :
      Bool
      → LifecycleState
      → EvidenceRequirement
      → Option LedgerFile
      → Evidence
      → Verdict
      → Result Exception Evidence
  unfolding recompute_verdict_seal reproduce_verdict
  verify_verdict acquired to_state requirement ledger e v = do
    p ← needed e.protocol
    refuse_if (not (recompute_verdict_seal seal_body v == v.verdict_seal)) evidence_forged
    ms ← needed e.measurements
    reproduce_verdict acquired to_state requirement ledger v p ms
    ok e

  abbrev pub verify_loaded :
      Bool
      → LifecycleState
      → EvidenceRequirement
      → Option LedgerFile
      → Evidence
      → Option Verdict
      → Result Exception Evidence
  verify_loaded acquired to_state requirement ledger e none = do
    refuse_if (not (absent e.measurements) && absent e.protocol) missing_evidence
    ok e
  verify_loaded acquired to_state requirement ledger e (some v) =
      verify_verdict acquired to_state requirement ledger e v

  -- `_verify_evidence`
  unfoldable pub verify_evidence :
      Bool
      → LifecycleState
      → EvidenceRequirement
      → Option LedgerFile
      → Evidence
      → Bool
      → Result Exception Evidence
  unfolding load_evidence verify_verdict
  verify_evidence acquired to_state requirement ledger supplied human_acknowledged = do
    check_presence requirement supplied human_acknowledged
    e ← guarded evidence_forged (load_evidence supplied)
    verify_loaded acquired to_state requirement ledger e e.verdict
