-- ===== src/Lab/State/Posterior.antt =====
-- The posterior of a replayed history is the prior, filtered by every observed pair.
use latent_compass.Prelude.{
  ℕ, ◌≡◌, Bool, true, false, none, some, List, [], ◌∷◌, ◌++◌, map, arith, ok, >>=-eq-ok, all,
  all-append, Option-cases, inl, inr, if◌then◌else◌,
}
use latent_compass.Contracts.{Identifier, Seal}
use latent_compass.Lab.Dict.{Dict, lookup, lookup-restrict, dict_eq-lookup}
use latent_compass.Lab.Model.{EvidenceRequirement, DiagnosisModel, probe_by_id, load_model}
use latent_compass.Lab.State.Revision.{
  LabBinding, ObservationEvent, DiagnosisStateRevision, same_pairs-eq, same_state, same_state-parts,
  load_state,
}
use latent_compass.Lab.State.Verify.{
  shows, checked_transition, pair_of, initial_revision, initial_state, check_observation,
  check_link, now_seen, check_links, verify_state_history,
}
use latent_compass.Lab.State.Loading.{load_state-eq}
use latent_compass.Lab.State.Replay.{last_of, check_from_first-parts, verify_state_history-ok}

-- The world's outcome under the probe of the pair is the outcome of the pair.
unfoldable pub agrees : DiagnosisModel → Identifier → EvidenceRequirement → Bool
agrees m w pair = elim (probe_by_id m pair.probe_id) [
  | none ↦ false
  | some p ↦ shows p pair.outcome_id w
]

-- What a world weighs at first.
abbrev pub prior_weights : DiagnosisModel → Dict ℕ
prior_weights m = map (λ w. (w.id, w.weight)) m.worlds

module _ (m : DiagnosisModel) (w : Identifier) where
  -- The weight that the observed pairs leave to a world.
  abbrev pub Filtered : DiagnosisStateRevision → Type 0
  Filtered s =
      lookup w s.posterior_weights
      ≡ (if all (agrees m w) s.observed_pairs then lookup w (prior_weights m) else none)

  module _ (model_seal : DiagnosisModel → Seal) (state_seal : DiagnosisStateRevision → Seal)
      (b : LabBinding) where
    check_observation-Filtered :
        (cur : DiagnosisStateRevision) (seen : List Identifier) (x : DiagnosisStateRevision)
        (o : ObservationEvent)
        → check_observation model_seal state_seal m cur seen x o ≡ ok tt
        → Filtered cur
        → Filtered x
    unfolding check_observation checked_transition agrees
    check_observation-Filtered cur seen x o h f = elim (Option-cases (probe_by_id m o.probe_id)) [
      | inl e ↦ ground arith
      | inr (p, e) ↦
          let pairs : x.observed_pairs ≡ cur.observed_pairs ++ pair_of o ∷ [] =
            same_pairs-eq x.observed_pairs (cur.observed_pairs ++ pair_of o ∷ []) (ground arith) in
          rw (pairs, all-append)
            (ground (
              arith,
              dict_eq-lookup (checked_transition p cur.posterior_weights o.outcome_id)
                  x.posterior_weights w,
              lookup-restrict (shows p o.outcome_id) cur.posterior_weights w,
            ))
    ]

    check_link-Filtered :
        (cur : DiagnosisStateRevision) (seen : List Identifier) (x : DiagnosisStateRevision)
        → check_link model_seal state_seal m b cur seen x ≡ ok tt
        → Filtered cur
        → Filtered x
    unfolding check_link
    check_link-Filtered cur seen x h f = elim (Option-cases x.applied_observation) [
      | inl e ↦ ground arith
      | inr (o, e) ↦ check_observation-Filtered cur seen x o (ground arith) f
    ]

    check_links-Filtered :
        (cur : DiagnosisStateRevision) (seen : List Identifier) (rest : List DiagnosisStateRevision)
        → check_links model_seal state_seal m b cur seen rest ≡ ok tt
        → Filtered cur
        → Filtered (last_of cur rest)
    unfolding check_links
    check_links-Filtered cur seen [] h f = f
    check_links-Filtered cur seen (x ∷ rest) h f =
        let (u, link, more) = >>=-eq-ok (check_link model_seal state_seal m b cur seen x) _ h in
        check_links-Filtered x (now_seen seen x) rest more (check_link-Filtered cur seen x link f)

    initial-Filtered :
        (first expected : DiagnosisStateRevision)
        → initial_state model_seal state_seal m first.state_id b ≡ ok expected
        → load_model m ≡ ok m
        → same_state first expected ≡ true
        → Filtered first
    unfolding initial_state
    initial-Filtered first expected h lm same =
        let initial = initial_revision model_seal state_seal m first.state_id b in
        let loaded : load_state initial ≡ ok expected = ground arith in
        let (pairs, weights) = same_state-parts first expected same in
        let at = dict_eq-lookup first.posterior_weights expected.posterior_weights w weights in
        rw (at, pairs, (load_state-eq initial expected loaded).0)

    -- In a history that `verify_state_history` accepts, the last posterior gives a world its
    -- prior weight if its outcomes agree with every observed pair, and no weight otherwise.
    pub verify_state_history-Filtered :
        (first : DiagnosisStateRevision) (rest : List DiagnosisStateRevision)
        → verify_state_history model_seal state_seal m b (first ∷ rest) ≡ ok tt
        → Filtered (last_of first rest)
    verify_state_history-Filtered first rest h =
        let (lm, ls, cf) = verify_state_history-ok model_seal state_seal m b (first ∷ rest) h in
        let (expected, initial, same, links) =
          check_from_first-parts model_seal state_seal m b first rest cf in
        check_links-Filtered first [] rest links (initial-Filtered first expected initial lm same)
