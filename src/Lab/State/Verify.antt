-- ===== src/Lab/State/Verify.antt =====
-- src/latent_compass/lab/state.py: `initial_state`, `_checked_transition`, `verify_state_history`
-- and `_trust_state`. The seals of a model and of a state are parameters.
use latent_compass.Prelude.{
  ℕ, ◌+◌, Bool, false, not, Option, none, some, List, [], ◌∷◌, ◌++◌, map, Result, ok, err, ◌>>=◌,
  ◌>>◌, raise_if, ltb, ◌==◌, contains, length, if◌then◌else◌,
}
use latent_compass.Contracts.{
  Identifier, Seal, Exception, assertion_error, lab_replay_violation, prior_not_reproduced,
  history_missing, history_too_long, history_ends_elsewhere, observation_id_reused, time_backwards,
  empty_history, late_start, identity_changed, not_sequential, other_model, binding_drifted,
  broken_chain, probe_repeated, undeclared, posterior_differs, pairs_differ,
}
use latent_compass.Lab.Dict.{Dict, lookup, restrict, dict_eq}
use latent_compass.Lab.Model.{Probe, EvidenceRequirement, DiagnosisModel, probe_by_id, load_model}
use latent_compass.Lab.State.Revision.{
  LabBinding, ObservationEvent, DiagnosisStateRevision, acquired_probe_ids, max_state_revision,
  load_state, same_binding, same_pairs, same_state,
}

-- `probe.outcomes.get(world_id) == outcome_id`
abbrev pub shows : Probe → Identifier → Identifier → Bool
shows p outcome w = elim (lookup w p.outcomes) [ none ↦ false | some o ↦ o == outcome ]

-- `_checked_transition`.
unfoldable pub checked_transition : Probe → Dict ℕ → Identifier → Dict ℕ
checked_transition p posterior outcome = restrict (shows p outcome) posterior

-- The payload of a revision that extends `prior` by an observation.
abbrev pub pair_of : ObservationEvent → EvidenceRequirement
pair_of o = record { probe_id = o.probe_id; outcome_id = o.outcome_id }

abbrev pub earlier : ObservationEvent → Option ObservationEvent → Bool
earlier o none = false
earlier o (some before) = ltb o.observed_at before.observed_at

-- The probe that an observation names, if the model declares it with that outcome.
abbrev pub declared_probe : DiagnosisModel → ObservationEvent → Option Probe
declared_probe m o = elim (probe_by_id m o.probe_id) [
  | none ↦ none
  | some p ↦ if contains o.outcome_id p.outcome_space then some p else none
]

abbrev pub posterior_replays :
    Option Probe
    → DiagnosisStateRevision
    → ObservationEvent
    → DiagnosisStateRevision
    → Result Exception (Unit {0})
posterior_replays none current o revision = err (lab_replay_violation undeclared)
posterior_replays (some p) current o revision =
    raise_if
      (not (
        dict_eq (checked_transition p current.posterior_weights o.outcome_id)
          revision.posterior_weights))
      (lab_replay_violation posterior_differs)

unfoldable pub load_states :
    List DiagnosisStateRevision → Result Exception (List DiagnosisStateRevision)
load_states [] = ok []
load_states (s ∷ rest) = do t ← load_state s; ts ← load_states rest; ok (t ∷ ts)

-- The history's last revision is the presented state.
abbrev pub ends_at : DiagnosisStateRevision → List DiagnosisStateRevision → Bool
ends_at s [] = false
ends_at s (x ∷ []) = same_state x s
ends_at s (x ∷ y ∷ rest) = ends_at s (y ∷ rest)

-- `observation_ids` after a round.
abbrev pub now_seen : List Identifier → DiagnosisStateRevision → List Identifier
now_seen seen revision = elim revision.applied_observation [
  | none ↦ seen
  | some o ↦ o.observation_id ∷ seen
]

module _ (model_seal : DiagnosisModel → Seal) (state_seal : DiagnosisStateRevision → Seal) where
  -- `initial_state`, after its `load_model`.
  abbrev pub initial_revision : DiagnosisModel → Identifier → LabBinding → DiagnosisStateRevision
  initial_revision m state_id binding = record {
    contract_version = "1.0.0";
    state_id = state_id;
    revision = 0;
    model_seal = model_seal m;
    binding = binding;
    prior_state_seal = none;
    applied_observation = none;
    observed_pairs = [];
    posterior_weights = map (λ w. (w.id, w.weight)) m.worlds;
  }

  unfoldable pub initial_state :
      DiagnosisModel → Identifier → LabBinding → Result Exception DiagnosisStateRevision
  initial_state model state_id binding = do
    m ← load_model model
    load_state (initial_revision m state_id binding)

  abbrev names_prior : DiagnosisStateRevision → DiagnosisStateRevision → Bool
  names_prior current revision = elim revision.prior_state_seal [
    | none ↦ false
    | some s ↦ s == state_seal current
  ]

  -- The tests on one observation, from its id on.
  unfoldable pub check_observation :
      DiagnosisModel
      → DiagnosisStateRevision
      → List Identifier
      → DiagnosisStateRevision
      → ObservationEvent
      → Result Exception (Unit {0})
  check_observation m current seen revision o = do
    raise_if (contains o.observation_id seen) (lab_replay_violation observation_id_reused)
    raise_if (earlier o current.applied_observation) (lab_replay_violation time_backwards)
    raise_if (contains o.probe_id (acquired_probe_ids current))
        (lab_replay_violation probe_repeated)
    posterior_replays (declared_probe m o) current o revision
    raise_if (not (same_pairs revision.observed_pairs (current.observed_pairs ++ pair_of o ∷ [])))
        (lab_replay_violation pairs_differ)

  -- One round of the loop of `verify_state_history`.
  unfoldable pub check_link :
      DiagnosisModel
      → LabBinding
      → DiagnosisStateRevision
      → List Identifier
      → DiagnosisStateRevision
      → Result Exception (Unit {0})
  check_link m binding current seen revision = do
    raise_if (not (revision.state_id == current.state_id)) (lab_replay_violation identity_changed)
    raise_if (not (revision.revision == current.revision + 1)) (lab_replay_violation not_sequential)
    raise_if (not (revision.model_seal == model_seal m)) (lab_replay_violation other_model)
    raise_if (not (same_binding revision.binding binding)) (lab_replay_violation binding_drifted)
    raise_if (not (names_prior current revision)) (lab_replay_violation broken_chain)
    elim revision.applied_observation [
      | none ↦ err assertion_error
      | some o ↦ check_observation m current seen revision o
    ]

  unfoldable pub check_links :
      DiagnosisModel
      → LabBinding
      → DiagnosisStateRevision
      → List Identifier
      → List DiagnosisStateRevision
      → Result Exception (Unit {0})
  check_links m binding current seen [] = ok tt
  check_links m binding current seen (revision ∷ rest) =
      check_link m binding current seen revision
      >> check_links m binding revision (now_seen seen revision) rest

  unfoldable pub check_from_first :
      DiagnosisModel → LabBinding → List DiagnosisStateRevision → Result Exception (Unit {0})
  check_from_first m binding [] = err (lab_replay_violation empty_history)
  check_from_first m binding (first ∷ rest) = do
    raise_if (not (first.revision == 0)) (lab_replay_violation late_start)
    expected ← initial_state m first.state_id binding
    raise_if (not (same_state first expected)) (lab_replay_violation prior_not_reproduced)
    check_links m binding first [] rest

  unfoldable pub verify_state_history :
      DiagnosisModel → LabBinding → List DiagnosisStateRevision → Result Exception (Unit {0})
  verify_state_history model binding history = do
    m ← load_model model
    raise_if (length history == 0) (lab_replay_violation empty_history)
    raise_if (ltb (max_state_revision + 1) (length history)) (lab_replay_violation history_too_long)
    revisions ← load_states history
    check_from_first m binding revisions

  -- The replay of a history that is there.
  unfoldable pub replay_to :
      DiagnosisModel
      → DiagnosisStateRevision
      → List DiagnosisStateRevision
      → Result Exception (Unit {0})
  replay_to m state history = do
    raise_if (length history == 0) (lab_replay_violation history_missing)
    raise_if (ltb (max_state_revision + 1) (length history)) (lab_replay_violation history_too_long)
    revisions ← load_states history
    raise_if (not (ends_at state revisions)) (lab_replay_violation history_ends_elsewhere)
    verify_state_history m state.binding revisions

  -- `_trust_state`.
  unfoldable pub trust_state :
      DiagnosisModel
      → DiagnosisStateRevision
      → Option (List DiagnosisStateRevision)
      → Result Exception (Unit {0})
  trust_state m state none =
      if state.revision == 0
      then (do
        expected ← initial_state m state.state_id state.binding
        raise_if (not (same_state state expected)) (lab_replay_violation prior_not_reproduced))
      else err (lab_replay_violation history_missing)
  trust_state m state (some history) = replay_to m state history
