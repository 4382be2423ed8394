-- ===== src/Lab/State/Extend.antt =====
-- What a successful `apply_observation` has established, and that replay accepts its result.
use latent_compass.Prelude.{
  ◌≡◌, refl, sym, ap, ◌∙◌, true, false, Option, some, List, [], ◌∷◌, ◌++◌, arith, ok, ◌>>=◌,
  >>=-eq-ok, contains, distinct, length-append, Option-cases, inl, inr,
}
use latent_compass.Contracts.{Identifier, Seal}
use latent_compass.Lab.Dict.{keys, dict_eq_refl}
use latent_compass.Lab.Model.{Probe, DiagnosisModel, probe_by_id, load_model}
use latent_compass.Lab.State.Revision.{
  LabBinding, ObservationEvent, DiagnosisStateRevision, acquired_probe_ids, state_is_coherent,
  load_state, state_is_coherent-parts, same_pairs_refl, same_binding_refl,
}
use latent_compass.Lab.State.Verify.{
  checked_transition, pair_of, declared_probe, earlier, check_link, check_observation,
  verify_state_history, trust_state,
}
use latent_compass.Lab.State.Apply.{used_in, next_revision, apply_loaded, apply_observation}
use latent_compass.Lab.State.Loading.{load_model-eq, load_state-eq, load_states-append}
use latent_compass.Lab.State.Replay.{
  last_of, all_seen, contains-all_seen, check_links-append, check_links-revision, replay_to-ok,
  verify_state_history-ok, verify_state_history-intro, check_from_first-ok, check_from_first-longer,
}

module _ (model_seal : DiagnosisModel → Seal) (state_seal : DiagnosisStateRevision → Seal) where
  -- What the tests of a successful call have established.
  pub record Applied (m : DiagnosisModel) (prior : DiagnosisStateRevision) (o : ObservationEvent)
      (history : Option (List DiagnosisStateRevision)) (next : DiagnosisStateRevision)
      : Type 0 where
    pub sealed : prior.model_seal ≡ model_seal m
    pub trusted : trust_state model_seal state_seal m prior history ≡ ok tt
    pub unused : used_in o.observation_id history ≡ false
    pub later : earlier o prior.applied_observation ≡ false
    pub fresh : contains o.probe_id (acquired_probe_ids prior) ≡ false
    pub probe : Probe
    pub declared : declared_probe m o ≡ some probe
    pub result :
        next
        ≡ next_revision model_seal state_seal prior o
            (checked_transition probe prior.posterior_weights o.outcome_id)
    pub coherent : state_is_coherent next ≡ true
    pub loads : load_state next ≡ ok next

  applied :
      (m : DiagnosisModel) (prior : DiagnosisStateRevision) (o : ObservationEvent)
      (expected_binding : LabBinding) (history : Option (List DiagnosisStateRevision))
      (next : DiagnosisStateRevision)
      → apply_loaded model_seal state_seal m prior o expected_binding history ≡ ok next
      → Applied m prior o history next
  unfolding apply_loaded
  applied m prior o eb history next h = elim (Option-cases (probe_by_id m o.probe_id)) [
    | inl e ↦ ground arith
    | inr (p, e) ↦
        let payload =
          next_revision model_seal state_seal prior o
            (checked_transition p prior.posterior_weights o.outcome_id) in
        let loaded : load_state payload ≡ ok next = ground arith in
        let (same, coherent) = load_state-eq payload next loaded in
        record {
          sealed = ground arith;
          trusted = ground arith;
          unused = ground arith;
          later = ground arith;
          fresh = ground arith;
          probe = p;
          declared = ground arith;
          result = same;
          coherent = rw same coherent;
          loads = ap load_state same ∙ loaded;
        }
  ]

  module _ (m : DiagnosisModel) (prior : DiagnosisStateRevision) (o : ObservationEvent)
      (eb : LabBinding) (history : Option (List DiagnosisStateRevision)) where
    apply_observation_lem : apply_observation model_seal state_seal m prior o eb history ≡ (
        load_model m >>= λ m'.
        load_state prior >>= λ s. apply_loaded model_seal state_seal m' s o eb history)
    unfolding apply_observation
    apply_observation_lem = refl

    pub apply_observation-Applied :
        (next : DiagnosisStateRevision)
        → apply_observation model_seal state_seal m prior o eb history ≡ ok next
        → (load_model m ≡ ok m) × Applied m prior o history next
    apply_observation-Applied next h =
        let (m', em, hm) = >>=-eq-ok (load_model m) _ (sym apply_observation_lem ∙ h) in
        let (s', es, hs) = >>=-eq-ok (load_state prior) _ hm in
        let me = (load_model-eq m m' em).0 in
        let se = (load_state-eq prior s' es).0 in
        (em ∙ ap ok me, applied m prior o eb history next (rw (me, se) at hs))

-- A link that a successful call has made passes the round of the loop.
module _ (model_seal : DiagnosisModel → Seal) (state_seal : DiagnosisStateRevision → Seal)
    (m : DiagnosisModel) (prior : DiagnosisStateRevision) (o : ObservationEvent)
    (next : DiagnosisStateRevision) (seen : List Identifier) where
  pub check_link-next :
      (history : Option (List DiagnosisStateRevision))
      → Applied model_seal state_seal m prior o history next
      → contains o.observation_id seen ≡ false
      → check_link model_seal state_seal m prior.binding prior seen next ≡ ok tt
  unfolding check_link check_observation
  check_link-next history a u =
      let posterior = checked_transition a.probe prior.posterior_weights o.outcome_id in
      let distinct_keys : distinct (keys posterior) ≡ true =
        rw a.result at ((state_is_coherent-parts next a.coherent).0) in
      rw a.result (
        ground (
          arith,
          a.sealed,
          a.later,
          a.fresh,
          a.declared,
          dict_eq_refl posterior distinct_keys,
          same_pairs_refl (prior.observed_pairs ++ pair_of o ∷ []),
          same_binding_refl prior.binding,
        ))

module _ (model_seal : DiagnosisModel → Seal) (state_seal : DiagnosisStateRevision → Seal)
    (m : DiagnosisModel) where
  -- If `apply_observation` extends the end of a history, by whatever observation, then
  -- `verify_state_history` accepts the history with the new revision behind it, under the binding
  -- of that end.
  pub apply_observation-verifies :
      (first : DiagnosisStateRevision) (rest : List DiagnosisStateRevision) (o : ObservationEvent)
      (expected_binding : LabBinding) (next : DiagnosisStateRevision)
      → apply_observation model_seal state_seal m
          (last_of first rest)
          o
          expected_binding
          (some (first ∷ rest))
        ≡ ok next
      → verify_state_history model_seal state_seal m
          (last_of first rest).binding
          (first ∷ (rest ++ next ∷ []))
        ≡ ok tt
  apply_observation-verifies first rest o eb next h =
      let prior = last_of first rest in
      let (loaded, a) =
        apply_observation-Applied model_seal state_seal m prior o eb (some (first ∷ rest)) next h in
      let (lm, ls, cf) =
        verify_state_history-ok model_seal state_seal m prior.binding (first ∷ rest) (
          replay_to-ok model_seal state_seal m prior (first ∷ rest)
            (unfold trust_state in a.trusted)) in
      let (zeroth, links) =
        check_from_first-ok model_seal state_seal m prior.binding first rest cf in
      let counted =
        check_links-revision model_seal state_seal m prior.binding first [] rest links in
      let link =
        check_link-next model_seal state_seal m prior o next (all_seen [] rest)
          (some (first ∷ rest)) a
          (contains-all_seen o.observation_id [] rest refl (ground (arith, a.unused))) in
      verify_state_history-intro model_seal state_seal m prior.binding first (rest ++ next ∷ []) lm
        (load_states-append (first ∷ rest) next ls a.loads)
        (ground (
          arith,
          zeroth,
          counted,
          length-append rest (next ∷ []),
          a.result,
          (state_is_coherent-parts next a.coherent).1,
        ))
        (check_from_first-longer model_seal state_seal m prior.binding first rest
          (rest ++ next ∷ []) cf
          (check_links-append model_seal state_seal m prior.binding first [] rest next links link))
