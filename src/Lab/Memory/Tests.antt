-- ===== src/Lab/Memory/Tests.antt =====
-- The theorems of the justification memory at a concrete history.
use latent_compass.Prelude.{
  ℕ, ◌+◌, ◌≡◌, refl, true, false, none, some, List, [], ◌∷◌, ◌++◌, ok, contains,
}
use latent_compass.Contracts.{Identifier, Seal, Timestamp, codex, same_family}
use latent_compass.Lab.State.Revision.{LabBinding, same_binding}
use latent_compass.Lab.Memory.{
  fact, fact_revocation, claim, MemoryEvent, load_memory_event, versions_are_supported,
  event_is_coherent,
}
use latent_compass.Lab.Memory.Replay.{
  Replayed, load_events, replay_events, replay_event, apply_kind, record_fact, record_claim,
  revoke_fact,
}
use latent_compass.Lab.Memory.Applicability.{
  MemoryApplicability, eligible_facts, eligible_claims, sweep, sweep_until, result_for,
  applicability, premises_are_known, replay_history, compute_applicability,
}
use latent_compass.Lab.Memory.Grounding.{Describes, compute_applicability-Grounded}
use latent_compass.Lab.Memory.Future.{compute_applicability-append}
use latent_compass.Lab.Memory.Premises.{compute_applicability-facts}
use latent_compass.Lab.Memory.Revoked.{compute_applicability-revoked}

abbrev desk : LabBinding
desk = record { host_id = 50; agent_family = codex; source_scope_digest = 51 }

-- A checksum in the place of the seal.
abbrev event_seal : MemoryEvent → Seal
event_seal e = e.sequence + 900

abbrev says_fact : Identifier → Timestamp → MemoryEvent
says_fact i at = record {
  contract_version = "1.0.0";
  binding = desk;
  sequence = 0;
  recorded_at = at;
  kind = fact;
  fact = some (record {
    contract_version = "1.0.0";
    fact_id = i;
    statement = "the build passes";
    provenance = 80;
    scope = 81;
    asserted_at = at;
    expires_at = none;
  });
  fact_revocation = none;
  claim = none;
  claim_revocation = none;
  support_revision = none;
}

-- Claim `i` rests on `premise`.
abbrev says_claim : ℕ → Identifier → Identifier → Timestamp → MemoryEvent
says_claim n i premise at = record {
  contract_version = "1.0.0";
  binding = desk;
  sequence = n;
  recorded_at = at;
  kind = claim;
  fact = none;
  fact_revocation = none;
  claim = some (record {
    contract_version = "1.0.0";
    claim_id = i;
    statement = "the release is ready";
    scope = 81;
    asserted_at = at;
    expires_at = none;
    supports = record { premise_ids = premise ∷ [] } ∷ [];
  });
  claim_revocation = none;
  support_revision = none;
}

abbrev revokes_fact : ℕ → Identifier → Timestamp → MemoryEvent
revokes_fact n i at = record {
  contract_version = "1.0.0";
  binding = desk;
  sequence = n;
  recorded_at = at;
  kind = fact_revocation;
  fact = none;
  fact_revocation =
      some (record {
        contract_version = "1.0.0";
        fact_id = i;
        reason = "it does not";
        revoked_at = at;
      });
  claim = none;
  claim_revocation = none;
  support_revision = none;
}

-- Claim 2 rests on fact 1; claims 3 and 4 rest on each other.
abbrev memory_start : MemoryEvent
memory_start = says_fact 1 10

abbrev memory_rest : List MemoryEvent
memory_rest = says_claim 1 2 1 11 ∷ says_claim 2 3 4 12 ∷ says_claim 3 4 3 13 ∷ []

abbrev later : List MemoryEvent
later = revokes_fact 4 1 200 ∷ []

abbrev applies_early : MemoryApplicability
applies_early = record {
  active_fact_ids = 1 ∷ [];
  active_claim_ids = 2 ∷ [];
  revoked_fact_ids = [];
  revoked_claim_ids = [];
  inactive_claim_ids = 3 ∷ 4 ∷ [];
}

abbrev applies_late : MemoryApplicability
applies_late = record {
  active_fact_ids = [];
  active_claim_ids = [];
  revoked_fact_ids = 1 ∷ [];
  revoked_claim_ids = [];
  inactive_claim_ids = 2 ∷ 3 ∷ 4 ∷ [];
}

early_run :
    compute_applicability event_seal (memory_start ∷ memory_rest) 100 ≡ ok (some applies_early)
unfolding compute_applicability load_events load_memory_event versions_are_supported
    event_is_coherent replay_history replay_events replay_event same_binding same_family apply_kind
    record_fact record_claim premises_are_known applicability eligible_facts eligible_claims
    sweep_until sweep result_for
early_run = refl

longer_run :
    compute_applicability event_seal (memory_start ∷ (memory_rest ++ later)) 100
    ≡ ok (some applies_early)
unfolding compute_applicability load_events load_memory_event versions_are_supported
    event_is_coherent replay_history replay_events replay_event same_binding same_family apply_kind
    record_fact record_claim revoke_fact premises_are_known applicability eligible_facts
    eligible_claims sweep_until sweep result_for
longer_run = refl

late_run :
    compute_applicability event_seal (memory_start ∷ (memory_rest ++ later)) 300
    ≡ ok (some applies_late)
unfolding compute_applicability load_events load_memory_event versions_are_supported
    event_is_coherent replay_history replay_events replay_event same_binding same_family apply_kind
    record_fact record_claim revoke_fact premises_are_known applicability eligible_facts
    eligible_claims sweep_until sweep result_for
late_run = refl

compute_applicability-Grounded_example :
    (a : MemoryApplicability) × (some applies_early ≡ some a)
    × ((s : Replayed) × (replay_history event_seal 100 (memory_start ∷ memory_rest) ≡ ok s)
        × Describes 100 s.view a)
compute_applicability-Grounded_example =
    compute_applicability-Grounded event_seal memory_start memory_rest 100 (some applies_early)
      early_run

compute_applicability-append_example : some applies_early ≡ some applies_early
compute_applicability-append_example =
    compute_applicability-append event_seal 100 memory_start memory_rest later (some applies_early)
      (some applies_early) early_run refl longer_run

compute_applicability-facts_example : applies_late.active_claim_ids ≡ []
compute_applicability-facts_example =
    compute_applicability-facts event_seal memory_start (memory_rest ++ later) 300 applies_late
      late_run refl

compute_applicability-revoked_example :
    ((i : Identifier)
      → contains i applies_late.revoked_fact_ids ≡ true
      → contains i applies_late.active_fact_ids ≡ false)
    × ((i : Identifier)
        → contains i applies_late.revoked_claim_ids ≡ true
        → (contains i applies_late.active_claim_ids ≡ false)
          × (contains i applies_late.inactive_claim_ids ≡ false))
compute_applicability-revoked_example =
    compute_applicability-revoked event_seal memory_start (memory_rest ++ later) 300 applies_late
      late_run
