-- ===== src/Protocol/Specs.antt =====
-- src/latent_compass/protocol.py: splits, metrics and baselines, which a protocol is made of.
--
-- A finite float is the number of its place in the order of the finite floats, so that the two
-- zeros are one. A free text is a `String` that has passed the length bounds of its field.
use latent_compass.Prelude.{ℕ, String, Bool, true, false, List, [], ◌∷◌, leb}
use latent_compass.Contracts.{Identifier, Seal}

abbrev pub FiniteFloat : Type 0
FiniteFloat = ℕ

abbrev pub supported_protocol_versions : List String
supported_protocol_versions = "1.0.0" ∷ []

pub data Split : Type 0 where
  train validation holdout : Split

abbrev pub same_split : Split → Split → Bool
same_split train train = true
same_split validation validation = true
same_split holdout holdout = true
same_split _ _ = false

abbrev pub all_splits : List Split
all_splits = train ∷ validation ∷ holdout ∷ []

pub data MetricDirection : Type 0 where
  higher_is_better lower_is_better : MetricDirection

pub data MetricFamily : Type 0 where
  success violation cost information reversibility calibration tail drift : MetricFamily

abbrev pub family_rank : MetricFamily → ℕ
family_rank success = 0
family_rank violation = 1
family_rank cost = 2
family_rank information = 3
family_rank reversibility = 4
family_rank calibration = 5
family_rank tail = 6
family_rank drift = 7

-- `REQUIRED_METRIC_FAMILIES`
abbrev pub required_metric_families : List MetricFamily
required_metric_families =
    success ∷ violation ∷ cost ∷ information ∷ reversibility ∷ calibration ∷ tail ∷ drift ∷ []

pub data BaselineKind : Type 0 where
  trivial strong : BaselineKind

abbrev pub is_trivial : BaselineKind → Bool
is_trivial trivial = true
is_trivial strong = false

pub record MetricSpec : Type 0 where
  pub name : Identifier
  pub family : MetricFamily
  pub direction : MetricDirection
  pub threshold : FiniteFloat
  pub required : Bool

-- The threshold test, at a direction.
abbrev pub meets : MetricDirection → FiniteFloat → FiniteFloat → Bool
meets higher_is_better threshold value = leb threshold value
meets lower_is_better threshold value = leb value threshold

-- `MetricSpec.passes`
abbrev pub passes : MetricSpec → FiniteFloat → Bool
passes m value = meets m.direction m.threshold value

pub record SplitSpec : Type 0 where
  pub split : Split
  pub corpus_seal : Seal
  pub item_count : ℕ
  pub disjoint_from : List Split

pub record BaselineSpec : Type 0 where
  pub name : Identifier
  pub kind : BaselineKind
  pub description : String
