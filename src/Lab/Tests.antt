-- ===== src/Lab/Tests.antt =====
-- The theorems of the lab at concrete inputs.
use latent_compass.Prelude.{
  ◌+◌, ◌≢◌, ◌↔◌, List, Listed, true, distinct, map, ◌+◌, ◌≡◌, refl, none, some, [], ◌∷◌, ok, all,
  if◌then◌else◌,
}
use latent_compass.Contracts.{Seal, codex, same_family}
use latent_compass.Lab.Dict.{lookup, dict_eq}
use latent_compass.Lab.Model.{
  WorldPrior, Probe, Decision, DiagnosisModel, load_model, model_is_coherent, probe_fits,
  decision_fits, abstains,
}
use latent_compass.Lab.State.Revision.{
  LabBinding, ObservationEvent, DiagnosisStateRevision, load_state, state_is_coherent, same_state,
  same_binding,
}
use latent_compass.Lab.State.Verify.{
  initial_revision, initial_state, check_observation, check_link, check_links, load_states,
  check_from_first, checked_transition, verify_state_history, replay_to, trust_state,
}
use latent_compass.Lab.State.Apply.{next_revision, apply_observation, check_binding}
use latent_compass.Lab.State.Extend.{apply_observation-verifies}
use latent_compass.Lab.State.Posterior.{agrees, prior_weights, verify_state_history-Filtered}
use latent_compass.Lab.Migration.{
  personal_lab, candidate_index, backup, restore, stability, keep, retain_for_rollback,
  restore_evidence_absent, InventoryAsset, disposition_of,
}
use latent_compass.Lab.Migration.DryRun.{
  RetirementDryRunReport, revalidated_assets, asset_ids, report_of, build_retirement_dry_run,
}
use latent_compass.Lab.Migration.Dispositions.{
  IsCandidate, Referenced, disposition_keeps, disposition_retains, disposition_gates, IsOpen,
}
use latent_compass.Lab.Migration.Report.{ReportsOn, build_retirement_dry_run_iff}

abbrev pub rainy : WorldPrior
rainy = record { id = 1; weight = 3 }

abbrev pub sunny : WorldPrior
sunny = record { id = 2; weight = 5 }

-- Probe 10 shows outcome 21 in world 1 and outcome 22 in world 2.
abbrev pub look : Probe
look = record { id = 10; cost = 1; outcome_space = 21 ∷ 22 ∷ []; outcomes = (1, 21) ∷ (2, 22) ∷ [] }

abbrev pub take_umbrella : Decision
take_umbrella = record {
  id = 30;
  losses = (1, 0) ∷ (2, 4) ∷ [];
  required_evidence = record { probe_id = 10; outcome_id = 21 } ∷ [];
}

abbrev pub stay : Decision
stay = record { id = 31; losses = (1, 2) ∷ (2, 2) ∷ []; required_evidence = [] }

abbrev pub weather : DiagnosisModel
weather = record {
  contract_version = "1.0.0";
  model_id = 40;
  worlds = rainy ∷ sunny ∷ [];
  probes = look ∷ [];
  decisions = take_umbrella ∷ stay ∷ [];
  abstain_decision_id = 31;
}

-- Checksums in the place of the seals.
abbrev pub model_seal : DiagnosisModel → Seal
model_seal m = m.model_id + 1000

abbrev pub state_seal : DiagnosisStateRevision → Seal
state_seal s = s.state_id + s.revision

abbrev pub here : LabBinding
here = record { host_id = 50; agent_family = codex; source_scope_digest = 51 }

abbrev rain_seen : ObservationEvent
rain_seen = record { observation_id = 60; probe_id = 10; outcome_id = 21; observed_at = 100 }

abbrev pub at_first : DiagnosisStateRevision
at_first = initial_revision model_seal state_seal weather 70 here

abbrev afterwards : DiagnosisStateRevision
afterwards = next_revision model_seal state_seal at_first rain_seen ((1, 3) ∷ [])

afterwards-applied :
    apply_observation model_seal state_seal weather at_first rain_seen here (some (at_first ∷ []))
    ≡ ok afterwards
unfolding apply_observation load_model model_is_coherent probe_fits decision_fits abstains
    load_state state_is_coherent trust_state replay_to load_states same_state same_binding
    same_family dict_eq verify_state_history check_from_first initial_state check_links
    check_binding check_link check_observation checked_transition
afterwards-applied = refl

apply_observation-verifies_example :
    verify_state_history model_seal state_seal weather here (at_first ∷ afterwards ∷ []) ≡ ok tt
apply_observation-verifies_example =
    apply_observation-verifies model_seal state_seal weather at_first [] rain_seen here afterwards
      afterwards-applied

verify_state_history-Filtered_example : lookup 2 afterwards.posterior_weights ≡ (
    if all (agrees weather 2) afterwards.observed_pairs
    then lookup 2 (prior_weights weather)
    else none)
verify_state_history-Filtered_example =
    verify_state_history-Filtered weather 2 model_seal state_seal here at_first (afterwards ∷ [])
      apply_observation-verifies_example

abbrev old_index : InventoryAsset
old_index = record {
  contract_version = "1.0.0";
  asset_id = 80;
  provider_id = 81;
  role = 82;
  scope = 83;
  scope_kind = personal_lab;
  host_id = 50;
  configuration_digest = 84;
  consumers = 85 ∷ [];
  classification = candidate_index;
  evidence_references = record { kind = backup; digest = 86; referenced_at = 90 } ∷ [];
}

disposition_keeps_example :
    (((disposition_of old_index).action ≢ keep) ↔ IsCandidate old_index)
    × (((disposition_of old_index).protected ≡ true) ↔ ((disposition_of old_index).action ≡ keep))
disposition_keeps_example = disposition_keeps old_index

disposition_retains_example : ((disposition_of old_index).action ≡ retain_for_rollback) ↔ (
    IsCandidate old_index
    × Referenced backup old_index
    × Referenced restore old_index
    × Referenced stability old_index)
disposition_retains_example = disposition_retains old_index

disposition_gates_example :
    Listed restore_evidence_absent (disposition_of old_index).missing_gates
    ↔ IsOpen old_index restore_evidence_absent
disposition_gates_example =
    disposition_gates old_index restore_evidence_absent (refl, refl, λ e. cc)

abbrev seal_inventory : List InventoryAsset → Seal
seal_inventory [] = 1
seal_inventory (a ∷ rest) = a.asset_id + seal_inventory rest

abbrev seal_report : RetirementDryRunReport → Seal
seal_report r = r.inventory_digest + r.generated_at

abbrev dry_run_report : RetirementDryRunReport
dry_run_report =
    report_of seal_inventory seal_report (old_index ∷ []) (map disposition_of (old_index ∷ [])) 95

build_retirement_dry_run_iff_example :
    (build_retirement_dry_run seal_inventory seal_report (old_index ∷ []) 95 ≡ ok dry_run_report)
    ↔ ((revalidated_assets (old_index ∷ []) ≡ ok (old_index ∷ []))
        × (distinct (asset_ids (old_index ∷ [])) ≡ true)
        × ReportsOn seal_inventory seal_report (old_index ∷ []) 95 dry_run_report)
build_retirement_dry_run_iff_example =
    build_retirement_dry_run_iff seal_inventory seal_report (old_index ∷ []) 95 dry_run_report
