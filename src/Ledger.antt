-- ===== src/Ledger.antt =====
-- src/latent_compass/ledger.py: the rows of a store, its binding, its anchor and its verification.
--
-- A store is the content of its three tables: the rows in the order of their sequence numbers, the
-- tombstones in the order of their ids, and the metadata, which are the binding and the anchor. An episode is what the ledger
-- reads of it, and one number for what its remaining fields spell; whether those fields are valid
-- is a parameter, as are the seals and the length test of a reason. A stored payload that decodes
-- is the payload of an episode.
pub mod Verify
pub mod Writing
pub mod Reading
pub mod Walk
pub mod Appended
pub mod Redacted
pub mod Rows
pub mod Growth
pub mod Redaction
pub mod Integrity
pub mod Tests
use latent_compass.Prelude.{
  ℕ, String, Bool, true, false, not, ◌&&◌, Option, none, some, List, [], ◌∷◌, Result, ok, ◌>>◌,
  ◌>>=◌, raise_if, ◌==◌,
}
use latent_compass.Contracts.{
  Identifier, Seal, Timestamp, AgentFamily, same_family, Exception, episode_validation_error,
  check_contract_version,
}

pub data EpochStatus : Type 0 where
  is_open abandoned : EpochStatus

abbrev pub is_abandoned : EpochStatus → Bool
is_abandoned is_open = false
is_abandoned abandoned = true

pub data IntegrityKind : Type 0 where
  sequence_invalid chain_broken payload_altered payload_unparseable payload_missing
        payload_present_on_redacted redacted_without_tombstone tombstone_invalid
        tombstone_on_unredacted orphan_tombstone provenance_mismatched anchor_mismatch
        anchor_missing :
      IntegrityKind

-- What `genesis_seal` covers.
pub record Identity : Type 0 where
  pub ledger_format_version : String
  pub store_id : Identifier
  pub host_id : Identifier
  pub agent_family : AgentFamily
  pub epoch : Identifier

pub record StoreBinding : Type 0 where
  pub identity : Identity
  pub open identity use *
  pub epoch_status : EpochStatus
  pub created_at : Timestamp

pub record Provenance : Type 0 where
  pub host_id : Identifier
  pub agent_family : AgentFamily
  pub store_id : Identifier
  pub epoch : Identifier

pub record Episode : Type 0 where
  pub schema_version : String
  pub episode_id : Identifier
  pub provenance : Provenance
  pub remaining : ℕ

abbrev pub supported_episode_versions : List String
supported_episode_versions = "1.0.0" ∷ []

-- `load_episode`, on the payload that spells an episode.
abbrev pub load_episode : (Episode → Bool) → Episode → Result Exception Episode
load_episode episode_is_valid e = do
  check_contract_version e.schema_version supported_episode_versions
  raise_if (not (episode_is_valid e)) episode_validation_error
  ok e

-- The text of a payload: `garbled` is one that is not decodable JSON.
pub data Payload : Type 0 where
  spells : Episode → Payload
  garbled : Payload

-- A row of the table `episodes`.
pub record Row : Type 0 where
  pub seq : ℕ
  pub episode_id : Identifier
  pub content_seal : Seal
  pub prev_chain_seal : Seal
  pub chain_seal : Seal
  pub payload : Option Payload
  pub redacted : Bool
  pub appended_at : Timestamp

pub data DeletionMode : Type 0 where
  tombstone_mode epoch_abandonment physical_destruction : DeletionMode

-- A row of the table `tombstones`.
pub record Tombstone : Type 0 where
  pub episode_id : Identifier
  pub reason : String
  pub created_at : Timestamp
  pub mode : DeletionMode

pub record Anchor : Type 0 where
  pub anchor_count : ℕ
  pub anchor_tail : Seal
  pub anchor_seal : Seal

pub record Store : Type 0 where
  pub binding : StoreBinding
  pub abandoned_reason : Option (Timestamp × String)
  -- `none` where one of its three values is absent
  pub anchor : Option Anchor
  pub rows : List Row
  pub tombstones : List Tombstone

pub record IntegrityFinding : Type 0 where
  pub seq : Option ℕ
  pub episode_id : Option Identifier
  pub kind : IntegrityKind

pub record IntegrityReport : Type 0 where
  pub is_ok : Bool
  pub checked : ℕ
  pub redacted : ℕ
  pub root_seal : Seal
  pub findings : List IntegrityFinding

-- Which of the four provenance fields are those of the store.
abbrev pub belongs : StoreBinding → Provenance → Bool
belongs b p =
    (b.host_id == p.host_id)
    && same_family b.agent_family p.agent_family
    && (b.store_id == p.store_id)
    && (b.epoch == p.epoch)

-- The functions that the ledger calls and does not define.
pub record Outside : Type 0 where
  pub seal_genesis : Identity → Seal
  -- `_chain_seal`: of the number, the id, the content, the predecessor and the time
  pub chain_seal : ℕ → Identifier → Seal → Seal → Timestamp → Seal
  -- `_anchor_seal`: of the genesis, the count, the tail and the status
  pub anchor_seal : Seal → ℕ → Seal → EpochStatus → Seal
  pub content_seal : Episode → Seal
  pub episode_is_valid : Episode → Bool
  -- between 1 and 500 characters
  pub reason_is_valid : String → Bool
