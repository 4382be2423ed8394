-- ===== src/Lab/State/Apply.antt =====
-- src/latent_compass/lab/state.py: `apply_observation`.
use latent_compass.Prelude.{
  ℕ, ◌+◌, Bool, false, not, ◌||◌, Option, none, some, List, [], ◌∷◌, ◌++◌, Result, ok, err, ◌>>=◌,
  ◌>>◌, raise_if, ◌==◌, contains, any, length,
}
use latent_compass.Contracts.{
  Identifier, Seal, same_family, Exception, lab_unknown_reference, lab_cross_model_state,
  lab_binding_mismatch, lab_source_scope_mismatch, lab_repeated_probe, lab_impossible_observation,
  lab_replay_violation, observation_id_reused, time_backwards,
}
use latent_compass.Lab.Dict.{Dict}
use latent_compass.Lab.Model.{Probe, DiagnosisModel, probe_by_id, load_model}
use latent_compass.Lab.State.Revision.{
  LabBinding, ObservationEvent, DiagnosisStateRevision, acquired_probe_ids, load_state,
}
use latent_compass.Lab.State.Verify.{checked_transition, pair_of, earlier, trust_state}

-- `prior` is for this host, this agent family and this source scope. The planner makes the same
-- two tests.
unfoldable pub check_binding : LabBinding → LabBinding → Result Exception (Unit {0})
unfolding same_family
check_binding held expected = do
  raise_if
      (not (held.host_id == expected.host_id)
        || not (same_family held.agent_family expected.agent_family))
      lab_binding_mismatch
  raise_if (not (held.source_scope_digest == expected.source_scope_digest))
      lab_source_scope_mismatch

abbrev pub carries : Identifier → DiagnosisStateRevision → Bool
carries i s = elim s.applied_observation [ none ↦ false | some o ↦ o.observation_id == i ]

abbrev pub used_in : Identifier → Option (List DiagnosisStateRevision) → Bool
used_in i none = false
used_in i (some history) = any (carries i) history

abbrev find_declared : DiagnosisModel → ObservationEvent → Result Exception Probe
find_declared m o = elim (probe_by_id m o.probe_id) [
  | none ↦ err lab_unknown_reference
  | some p ↦ do raise_if (not (contains o.outcome_id p.outcome_space)) lab_unknown_reference; ok p
]

module _ (model_seal : DiagnosisModel → Seal) (state_seal : DiagnosisStateRevision → Seal) where
  -- The payload that `apply_observation` builds.
  abbrev pub next_revision :
      DiagnosisStateRevision → ObservationEvent → Dict ℕ → DiagnosisStateRevision
  next_revision prior o filtered = record {
    contract_version = "1.0.0";
    state_id = prior.state_id;
    revision = prior.revision + 1;
    model_seal = prior.model_seal;
    binding = prior.binding;
    prior_state_seal = some (state_seal prior);
    applied_observation = some o;
    observed_pairs = prior.observed_pairs ++ pair_of o ∷ [];
    posterior_weights = filtered;
  }

  -- From the test of the binding on.
  unfoldable pub filter_by :
      DiagnosisModel
      → DiagnosisStateRevision
      → ObservationEvent
      → LabBinding
      → Result Exception DiagnosisStateRevision
  unfolding checked_transition
  filter_by m prior o expected_binding = do
    check_binding prior.binding expected_binding
    raise_if (contains o.probe_id (acquired_probe_ids prior)) lab_repeated_probe
    probe ← find_declared m o
    let filtered = checked_transition probe prior.posterior_weights o.outcome_id
    raise_if (length filtered == 0) lab_impossible_observation
    load_state (next_revision prior o filtered)

  -- From the test of the seal on, the model and the state being loaded.
  unfoldable pub apply_loaded :
      DiagnosisModel
      → DiagnosisStateRevision
      → ObservationEvent
      → LabBinding
      → Option (List DiagnosisStateRevision)
      → Result Exception DiagnosisStateRevision
  unfolding filter_by
  apply_loaded m s o expected_binding history = do
    raise_if (not (s.model_seal == model_seal m)) lab_cross_model_state
    trust_state model_seal state_seal m s history
    raise_if (used_in o.observation_id history) (lab_replay_violation observation_id_reused)
    raise_if (earlier o s.applied_observation) (lab_replay_violation time_backwards)
    filter_by m s o expected_binding

  unfoldable pub apply_observation :
      DiagnosisModel
      → DiagnosisStateRevision
      → ObservationEvent
      → LabBinding
      → Option (List DiagnosisStateRevision)
      → Result Exception DiagnosisStateRevision
  unfolding apply_loaded
  apply_observation model prior o expected_binding history = do
    m ← load_model model
    s ← load_state prior
    apply_loaded m s o expected_binding history
