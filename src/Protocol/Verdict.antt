-- ===== src/Protocol/Verdict.antt =====
-- src/latent_compass/protocol.py: measurement sets, verdicts, their validators and their seals.
use latent_compass.Prelude.{
  ℕ, String, Bool, true, false, not, ◌&&◌, List, [], ◌∷◌, map, Result, ok, ◌>>◌, raise_if, ◌==◌,
  leb, length, all, keep, distinct,
}
use latent_compass.Prelude.Int.{ℤ}
use latent_compass.Prelude.Sorting.{sort_by}
use latent_compass.Contracts.{
  Identifier, Seal, Exception, protocol_violation, invalid_protocol_contract,
  check_contract_version,
}
use latent_compass.Protocol.Specs.{
  FiniteFloat, Split, same_split, MetricDirection, MetricFamily, meets, supported_protocol_versions,
}

-- vocabulary.py: the two verdicts of a protocol.
pub data ContinueKill : Type 0 where
  go_on kill : ContinueKill

abbrev pub is_kill : ContinueKill → Bool
is_kill go_on = false
is_kill kill = true

pub data HoldoutPurpose : Type 0 where
  final_verdict training selection exploration : HoldoutPurpose

abbrev pub is_final : HoldoutPurpose → Bool
is_final final_verdict = true
is_final _ = false

pub record Measurement : Type 0 where
  pub metric : Identifier
  pub split : Split
  pub seed : ℤ
  pub value : FiniteFloat

pub record MeasurementSet : Type 0 where
  pub contract_version : String
  pub protocol_seal : Seal
  pub corpus_seal : Seal
  pub epoch : Identifier
  pub purpose : HoldoutPurpose
  pub split : Split
  pub measurements : List Measurement

-- `load_measurement_set`: the fields, then `_measurements_match_declared_split`.
unfoldable pub load_measurement_set : MeasurementSet → Result Exception MeasurementSet
load_measurement_set ms = do
  let invalid = protocol_violation invalid_protocol_contract
  raise_if (not (leb 1 (length ms.measurements) && leb (length ms.measurements) 4096)) invalid
  check_contract_version ms.contract_version supported_protocol_versions
  raise_if (not (all (λ (m : Measurement). same_split m.split ms.split) ms.measurements)) invalid
  ok ms

pub record MetricVerdict : Type 0 where
  pub metric : Identifier
  pub family : MetricFamily
  pub direction : MetricDirection
  pub threshold : FiniteFloat
  pub aggregate : FiniteFloat
  pub seed_count : ℕ
  pub required : Bool
  pub passed : Bool

-- Everything that a verdict's seal covers: `_verdict_body`.
pub record VerdictBody : Type 0 where
  pub contract_version : String
  pub decision : ContinueKill
  pub protocol_id : Identifier
  pub protocol_seal : Seal
  pub corpus_seal : Seal
  pub epoch : Identifier
  pub split : Split
  pub purpose : HoldoutPurpose
  pub metrics : List MetricVerdict
  pub failing_metrics : List Identifier

pub record Verdict : Type 0 where
  pub body : VerdictBody
  pub open body use *
  pub verdict_seal : Seal

abbrev same_flag : Bool → Bool → Bool
same_flag true b = b
same_flag false b = not b

abbrev pub flag_is_consistent : MetricVerdict → Bool
flag_is_consistent m = same_flag m.passed (meets m.direction m.threshold m.aggregate)

abbrev pub fails : MetricVerdict → Bool
fails m = m.required && not m.passed

abbrev pub failing_of : List MetricVerdict → List Identifier
failing_of metrics = map (λ m. m.metric) (keep fails metrics)

-- `sorted(...)` on identifiers
abbrev pub sort_ids : List Identifier → List Identifier
sort_ids ids = sort_by (λ i. i) ids

abbrev pub same_ids : List Identifier → List Identifier → Bool
same_ids [] [] = true
same_ids (x ∷ xs) (y ∷ ys) = (x == y) && same_ids xs ys
same_ids _ _ = false

abbrev pub decision_of : List Identifier → ContinueKill
decision_of [] = go_on
decision_of (_ ∷ _) = kill

-- `validate_contract(Verdict, ...)`: the fields, then `_decision_reproduces_from_metrics`.
unfoldable pub validated_verdict : Verdict → Result Exception Verdict
validated_verdict v = do
  let invalid = protocol_violation invalid_protocol_contract
  let failing = sort_ids (failing_of v.metrics)
  raise_if (not (leb 1 (length v.metrics))) invalid
  raise_if (not (all (λ (m : MetricVerdict). leb 1 m.seed_count) v.metrics)) invalid
  check_contract_version v.contract_version supported_protocol_versions
  raise_if (not (distinct (map (λ m. m.metric) v.metrics))) invalid
  raise_if (not (all flag_is_consistent v.metrics)) invalid
  raise_if (not (same_ids v.failing_metrics failing)) invalid
  raise_if (not (same_flag (is_kill v.decision) (is_kill (decision_of failing)))) invalid
  ok v

-- `load_verdict`, on the payload that spells a verdict.
unfoldable pub load_verdict : Verdict → Result Exception Verdict
unfolding validated_verdict
load_verdict v = do
  check_contract_version v.contract_version supported_protocol_versions
  validated_verdict v

-- `recompute_verdict_seal`
unfoldable pub recompute_verdict_seal : (VerdictBody → Seal) → Verdict → Seal
recompute_verdict_seal seal_body v = seal_body v.body
