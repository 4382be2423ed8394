-- ===== src/Lab/State/Replay.antt =====
-- A revision that `apply_observation` returns extends its history to one that
-- `verify_state_history` accepts.
use latent_compass.Prelude.{
  ◌+◌, ◌≤◌, ◌≡◌, true, false, List, [], ◌∷◌, ◌++◌, arith, ok, contains, any, length, Option-cases,
  Result-cases, inl, inr,
}
use latent_compass.Contracts.{Identifier, Seal}
use latent_compass.Lab.Model.{DiagnosisModel, load_model}
use latent_compass.Lab.State.Revision.{
  LabBinding, DiagnosisStateRevision, same_state, max_state_revision,
}
use latent_compass.Lab.State.Loading.{load_model-eq, load_states-eq}
use latent_compass.Lab.State.Verify.{
  load_states, check_link, now_seen, check_links, check_from_first, verify_state_history, replay_to,
  initial_state,
}
use latent_compass.Lab.State.Apply.{carries}

-- The last revision of a history that begins with `s`.
abbrev pub last_of : DiagnosisStateRevision → List DiagnosisStateRevision → DiagnosisStateRevision
last_of s [] = s
last_of s (x ∷ xs) = last_of x xs

-- The observation ids that the loop has seen at the end of a history.
abbrev pub all_seen : List Identifier → List DiagnosisStateRevision → List Identifier
all_seen seen [] = seen
all_seen seen (x ∷ xs) = all_seen (now_seen seen x) xs

pub contains-all_seen :
    (i : Identifier) (seen : List Identifier) (xs : List DiagnosisStateRevision)
    → contains i seen ≡ false
    → any (carries i) xs ≡ false
    → contains i (all_seen seen xs) ≡ false
contains-all_seen i seen [] h u = h
contains-all_seen i seen (x ∷ xs) h u = elim (Option-cases x.applied_observation) [
  | inl e ↦ ground (arith, contains-all_seen i seen xs)
  | inr (o, e) ↦ ground (arith, contains-all_seen i (o.observation_id ∷ seen) xs)
]

module _ (model_seal : DiagnosisModel → Seal) (state_seal : DiagnosisStateRevision → Seal)
    (m : DiagnosisModel) (b : LabBinding) where
  pub check_links-append :
      (cur : DiagnosisStateRevision) (seen : List Identifier) (rest : List DiagnosisStateRevision)
      (next : DiagnosisStateRevision)
      → check_links model_seal state_seal m b cur seen rest ≡ ok tt
      → check_link model_seal state_seal m b (last_of cur rest) (all_seen seen rest) next ≡ ok tt
      → check_links model_seal state_seal m b cur seen (rest ++ next ∷ []) ≡ ok tt
  unfolding check_links
  check_links-append cur seen [] next h k = ground arith
  check_links-append cur seen (x ∷ rest) next h k =
      ground (arith, check_links-append x (now_seen seen x) rest next)

  check_link-revision :
      (cur : DiagnosisStateRevision) (seen : List Identifier) (x : DiagnosisStateRevision)
      → check_link model_seal state_seal m b cur seen x ≡ ok tt
      → x.revision ≡ cur.revision + 1
  unfolding check_link
  check_link-revision cur seen x h = ground arith

  pub check_links-revision :
      (cur : DiagnosisStateRevision) (seen : List Identifier) (rest : List DiagnosisStateRevision)
      → check_links model_seal state_seal m b cur seen rest ≡ ok tt
      → (last_of cur rest).revision ≡ cur.revision + length rest
  unfolding check_links
  check_links-revision cur seen [] h = omega arith
  check_links-revision cur seen (x ∷ rest) h =
      ground (arith, check_link-revision cur seen x, check_links-revision x (now_seen seen x) rest)

module _ (model_seal : DiagnosisModel → Seal) (state_seal : DiagnosisStateRevision → Seal)
    (m : DiagnosisModel) where
  pub replay_to-ok :
      (s : DiagnosisStateRevision) (hs : List DiagnosisStateRevision)
      → replay_to model_seal state_seal m s hs ≡ ok tt
      → verify_state_history model_seal state_seal m s.binding hs ≡ ok tt
  unfolding replay_to
  replay_to-ok s hs h = elim (Result-cases (load_states hs)) [
    | inl (ts, e) ↦ ground (arith, load_states-eq hs ts e)
    | inr (x, e) ↦ ground arith
  ]

  pub verify_state_history-ok :
      (b : LabBinding) (hs : List DiagnosisStateRevision)
      → verify_state_history model_seal state_seal m b hs ≡ ok tt
      → (load_model m ≡ ok m)
        × (load_states hs ≡ ok hs)
        × (check_from_first model_seal state_seal m b hs ≡ ok tt)
  unfolding verify_state_history
  verify_state_history-ok b hs h = elim (Result-cases (load_model m)) [
    | inl (m', e) ↦ elim (Result-cases (load_states hs)) [
      | inl (ts, f) ↦ ground (arith, (load_model-eq m m' e).0, load_states-eq hs ts f)
      | inr (x, f) ↦ ground arith
    ]
    | inr (x, e) ↦ ground arith
  ]

  pub verify_state_history-intro :
      (b : LabBinding) (first : DiagnosisStateRevision) (rest : List DiagnosisStateRevision)
      → load_model m ≡ ok m
      → load_states (first ∷ rest) ≡ ok (first ∷ rest)
      → length rest ≤ max_state_revision
      → check_from_first model_seal state_seal m b (first ∷ rest) ≡ ok tt
      → verify_state_history model_seal state_seal m b (first ∷ rest) ≡ ok tt
  unfolding verify_state_history
  verify_state_history-intro b first rest hm hl short hc = ground arith

  pub check_from_first-ok :
      (b : LabBinding) (first : DiagnosisStateRevision) (rest : List DiagnosisStateRevision)
      → check_from_first model_seal state_seal m b (first ∷ rest) ≡ ok tt
      → (first.revision ≡ 0) × (check_links model_seal state_seal m b first [] rest ≡ ok tt)
  unfolding check_from_first
  check_from_first-ok b first rest h = ground arith

  pub check_from_first-longer :
      (b : LabBinding) (first : DiagnosisStateRevision) (rest more : List DiagnosisStateRevision)
      → check_from_first model_seal state_seal m b (first ∷ rest) ≡ ok tt
      → check_links model_seal state_seal m b first [] more ≡ ok tt
      → check_from_first model_seal state_seal m b (first ∷ more) ≡ ok tt
  unfolding check_from_first
  check_from_first-longer b first rest more h k = ground arith

  pub check_from_first-parts :
      (b : LabBinding) (first : DiagnosisStateRevision) (rest : List DiagnosisStateRevision)
      → check_from_first model_seal state_seal m b (first ∷ rest) ≡ ok tt
      → (expected : DiagnosisStateRevision) × (initial_state model_seal state_seal m first.state_id
            b
          ≡ ok expected)
        × (same_state first expected ≡ true)
        × (check_links model_seal state_seal m b first [] rest ≡ ok tt)
  unfolding check_from_first
  check_from_first-parts b first rest h =
      elim (Result-cases (initial_state model_seal state_seal m first.state_id b)) [
        | inl (s, e) ↦ (s, e, ground arith, ground arith)
        | inr (x, e) ↦ ground arith
      ]
