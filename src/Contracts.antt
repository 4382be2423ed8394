-- ===== src/Contracts.antt =====
-- src/latent_compass/contracts.py, errors.py, lab/errors.py and the agent family of episode.py:
-- what every contract model shares.
--
-- An `Identifier` is 3 to 128 ASCII characters and is only compared and sorted, a `Seal` is 64
-- hexadecimal digits, and a `Timestamp` is a UTC instant of fixed width, whose texts are ordered
-- as the instants are: each is the number that it spells. A field that holds one has passed the
-- pattern of its type.
use latent_compass.Prelude.{
  ℕ, String, Bool, true, false, ◌||◌, List, [], ◌∷◌, Result, ok, err, str_eq, if◌then◌else◌,
}

abbrev pub Identifier : Type 0
Identifier = ℕ

abbrev pub Seal : Type 0
Seal = ℕ

abbrev pub Timestamp : Type 0
Timestamp = ℕ

-- The reasons of `AuthorityRefusal` (`RefusalReason`).
pub data RefusalReason : Type 0 where
  self_authorisation actor_lacks_capability illegal_transition terminal_state missing_evidence
        evidence_forged evidence_mismatch evidence_rejects untrusted_evidence :
      RefusalReason

-- What `LabRoutingViolation` says in its message.
pub data RoutingFault : Type 0 where
  invalid_contract replayed_reservation unknown_parent overcommit unknown_reservation
        replayed_settlement :
      RoutingFault

-- What `LabReplayViolationError` says in its message.
pub data ReplayFault : Type 0 where
  prior_not_reproduced history_missing history_too_long history_ends_elsewhere observation_id_reused
        time_backwards empty_history late_start identity_changed not_sequential other_model
        binding_drifted broken_chain probe_repeated undeclared posterior_differs pairs_differ :
      ReplayFault

-- What `LabMemoryViolationError` says in its message.
pub data MemoryFault : Type 0 where
  event_invalid too_many_events event_binding_drifted event_not_sequential recorded_backwards
        duplicate_fact fact_names_claim too_many_facts unknown_fact duplicate_claim claim_names_fact
        too_many_claims unknown_claim supports_superseded unknown_premise :
      MemoryFault

-- What `ProtocolViolation` says in its message.
pub data ProtocolFault : Type 0 where
  invalid_protocol_contract split_not_declared revision_incomplete revision_not_increasing
        same_epoch same_protocol_seal different_protocol_seal different_epoch different_corpus
        holdout_not_final final_not_holdout duplicate_measurement unknown_metrics
        metric_not_measured seeds_incomplete ledger_required lock_unavailable ledger_unreadable
        already_consumed no_receipt receipt_mismatch :
      ProtocolFault

-- `LedgerError` and its subclasses.
pub data LedgerFault : Type 0 where
  ledger_error store_not_found store_already_exists duplicate_episode epoch_closed integrity_error :
      LedgerFault

-- `validation_error` is pydantic's own and `statistics_error` is that of `statistics`.
pub data Exception : Type 0 where
  contract_violation unsupported_contract_version budget_exceeded assertion_error validation_error
        statistics_error :
      Exception
  provenance_mismatch episode_validation_error : Exception
  protocol_violation : ProtocolFault → Exception
  ledger_violation : LedgerFault → Exception
  authority_refusal : RefusalReason → Exception
  lab_routing_violation : RoutingFault → Exception
  lab_migration_violation lab_contract_violation lab_unknown_reference lab_cross_model_state
        lab_binding_mismatch lab_source_scope_mismatch lab_repeated_probe
        lab_impossible_observation :
      Exception
  lab_replay_violation : ReplayFault → Exception
  lab_memory_violation : MemoryFault → Exception

pub data AgentFamily : Type 0 where
  codex claude other : AgentFamily

unfoldable pub same_family : AgentFamily → AgentFamily → Bool
same_family codex codex = true
same_family claude claude = true
same_family other other = true
same_family _ _ = false

abbrev pub supports : String → List String → Bool
supports v [] = false
supports v (w ∷ ws) = str_eq v w || supports v ws

-- Every version that is not supported raises `UnsupportedContractVersion`; the malformed, future
-- and unknown ones differ in the detail only.
abbrev pub check_contract_version : String → List String → Result Exception String
check_contract_version declared supported =
    if supports declared supported then ok declared else err unsupported_contract_version
