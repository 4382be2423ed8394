-- ===== src/Protocol/Preregistration.antt =====
-- src/latent_compass/protocol.py: the pre-registered protocol, its validators and its revision.
--
-- A finite float is the number of its place in the order of the finite floats, so that the two
-- zeros are one. A free text is a `String` that has passed the length bounds of its field.
use latent_compass.Prelude.{
  ℕ, String, Bool, true, not, ◌&&◌, ◌||◌, List, [], ◌∷◌, map, Option, none, some, Result, ok, err,
  ◌>>=◌, ◌>>◌, raise_if, ◌==◌, leb, length, all, any, find, keep, distinct,
}
use latent_compass.Prelude.Int.{ℤ, ltb_ℤ}
use latent_compass.Protocol.Specs.{
  BaselineSpec, MetricFamily, MetricSpec, Split, SplitSpec, all_splits, family_rank, holdout,
  is_trivial, required_metric_families, same_split, supported_protocol_versions,
}
use latent_compass.Contracts.{
  Identifier, Seal, Timestamp, Exception, protocol_violation, invalid_protocol_contract,
  split_not_declared, revision_incomplete, revision_not_increasing, same_epoch, same_protocol_seal,
  check_contract_version,
}

pub record Preregistration : Type 0 where
  pub contract_version : String
  pub protocol_id : Identifier
  pub revision : ℕ
  pub epoch : Identifier
  pub registered_at : Timestamp
  pub tasks : List String
  pub splits : List SplitSpec
  pub baselines : List BaselineSpec
  pub seeds : List ℤ
  pub metrics : List MetricSpec
  pub sensitivity_analyses : List String
  pub failure_cases : List String

abbrev between : ℕ → ℕ → ℕ → Bool
between low high n = leb low n && leb n high

abbrev names_split : Split → List Split → Bool
names_split s xs = any (same_split s) xs

abbrev distinct_splits : List Split → Bool
distinct_splits [] = true
distinct_splits (x ∷ xs) = not (names_split x xs) && distinct_splits xs

-- The fields of `SplitSpec` and `_disjointness_is_coherent`.
abbrev pub valid_split_spec : SplitSpec → Bool
valid_split_spec s =
    leb 1 s.item_count
    && between 1 2 (length s.disjoint_from)
    && not (names_split s.split s.disjoint_from)
    && distinct_splits s.disjoint_from

-- Exactly the other two are named.
abbrev declares_disjointness : SplitSpec → Bool
declares_disjointness s =
    all (λ o. names_split o s.disjoint_from || same_split o s.split) all_splits
    && not (names_split s.split s.disjoint_from)

-- `sorted(declared) == sorted(Split)`
abbrev one_of_each : List SplitSpec → Bool
one_of_each splits =
    (length splits == 3)
    && all (λ o. any (λ (s : SplitSpec). same_split o s.split) splits) all_splits

abbrev pub eq_ℤ : ℤ → ℤ → Bool
eq_ℤ a b = not (ltb_ℤ a b) && not (ltb_ℤ b a)

-- `list(seeds) == sorted(seeds)`
abbrev ascending : List ℤ → Bool
ascending [] = true
ascending (x ∷ xs) = all (λ y. not (ltb_ℤ y x)) xs && ascending xs

abbrev pub has_seed : ℤ → List ℤ → Bool
has_seed x xs = any (eq_ℤ x) xs

abbrev pub distinct_seeds : List ℤ → Bool
distinct_seeds [] = true
distinct_seeds (x ∷ xs) = not (has_seed x xs) && distinct_seeds xs

abbrev field_bounds : Preregistration → Bool
field_bounds p =
    leb 1 p.revision
    && between 1 64 (length p.tasks)
    && between 3 3 (length p.splits)
    && between 2 32 (length p.baselines)
    && between 2 64 (length p.seeds)
    && between 8 64 (length p.metrics)
    && between 1 32 (length p.sensitivity_analyses)
    && between 1 32 (length p.failure_cases)

abbrev splits_are_sound : List SplitSpec → Bool
splits_are_sound splits =
    one_of_each splits
    && all declares_disjointness splits
    && distinct (map (λ s. s.corpus_seal) splits)

abbrev pub fixes_family : List MetricSpec → MetricFamily → Bool
fixes_family metrics f = any (λ (m : MetricSpec). family_rank m.family == family_rank f) metrics

abbrev metrics_are_sound : List MetricSpec → Bool
metrics_are_sound metrics =
    distinct (map (λ m. m.name) metrics)
    && all (fixes_family metrics) required_metric_families
    && any (λ (m : MetricSpec). m.required) metrics

abbrev baselines_are_sound : List BaselineSpec → Bool
baselines_are_sound baselines =
    any (λ (b : BaselineSpec). is_trivial b.kind) baselines
    && any (λ (b : BaselineSpec). not (is_trivial b.kind)) baselines
    && distinct (map (λ b. b.name) baselines)

-- `validate_contract(Preregistration, ...)`: the fields, then `_preregistration_invariants`.
unfoldable pub validated_preregistration : Preregistration → Result Exception Preregistration
validated_preregistration p = do
  let invalid = protocol_violation invalid_protocol_contract
  raise_if (not (field_bounds p && all valid_split_spec p.splits)) invalid
  check_contract_version p.contract_version supported_protocol_versions
  raise_if (not (splits_are_sound p.splits)) invalid
  raise_if (not (ascending p.seeds && distinct_seeds p.seeds)) invalid
  raise_if (not (metrics_are_sound p.metrics)) invalid
  raise_if (not (baselines_are_sound p.baselines)) invalid
  ok p

-- `load_preregistration`, on the payload that spells a protocol.
unfoldable pub load_preregistration : Preregistration → Result Exception Preregistration
unfolding validated_preregistration
load_preregistration p = do
  check_contract_version p.contract_version supported_protocol_versions
  validated_preregistration p

-- `split_spec`
unfoldable pub split_spec : Preregistration → Split → Result Exception SplitSpec
split_spec p s = elim (find (λ (spec : SplitSpec). same_split spec.split s) p.splits) [
  | none ↦ err (protocol_violation split_not_declared)
  | some spec ↦ ok spec
]

-- `holdout_corpus_seal`
unfoldable pub holdout_corpus_seal : Preregistration → Result Exception Seal
unfolding split_spec
holdout_corpus_seal p = do spec ← split_spec p holdout; ok spec.corpus_seal

-- `required_metrics`
abbrev pub required_metrics : Preregistration → List MetricSpec
required_metrics p = keep (λ (m : MetricSpec). m.required) p.metrics

-- The keyword arguments of `revise`: a field that is not supplied stays.
pub record Changes : Type 0 where
  pub contract_version : Option String
  pub protocol_id : Option Identifier
  pub revision : Option ℕ
  pub epoch : Option Identifier
  pub registered_at : Option Timestamp
  pub tasks : Option (List String)
  pub splits : Option (List SplitSpec)
  pub baselines : Option (List BaselineSpec)
  pub seeds : Option (List ℤ)
  pub metrics : Option (List MetricSpec)
  pub sensitivity_analyses : Option (List String)
  pub failure_cases : Option (List String)

abbrev default {ℓ} : {A : Type ℓ} → A → Option A → A
default a none = a
default a (some b) = b

-- `payload.update(changes)`
abbrev pub updated : Preregistration → Changes → Preregistration
updated p c = record {
  contract_version = default p.contract_version c.contract_version;
  protocol_id = default p.protocol_id c.protocol_id;
  revision = default p.revision c.revision;
  epoch = default p.epoch c.epoch;
  registered_at = default p.registered_at c.registered_at;
  tasks = default p.tasks c.tasks;
  splits = default p.splits c.splits;
  baselines = default p.baselines c.baselines;
  seeds = default p.seeds c.seeds;
  metrics = default p.metrics c.metrics;
  sensitivity_analyses = default p.sensitivity_analyses c.sensitivity_analyses;
  failure_cases = default p.failure_cases c.failure_cases;
}

abbrev supplied : Option ℕ → Option ℕ → Result Exception (ℕ × ℕ)
supplied (some revision) (some epoch) = ok (revision, epoch)
supplied _ _ = err (protocol_violation revision_incomplete)

-- `revise`
unfoldable pub revise :
    (Preregistration → Seal) → Preregistration → Changes → Result Exception Preregistration
unfolding validated_preregistration
revise protocol_seal p c = do
  new ← supplied c.revision c.epoch
  raise_if (leb new.0 p.revision) (protocol_violation revision_not_increasing)
  raise_if (new.1 == p.epoch) (protocol_violation same_epoch)
  revised ← validated_preregistration (updated p c)
  raise_if (protocol_seal revised == protocol_seal p) (protocol_violation same_protocol_seal)
  ok revised
