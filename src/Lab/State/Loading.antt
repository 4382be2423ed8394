-- ===== src/Lab/State/Loading.antt =====
-- Revalidation returns what it was given.
use latent_compass.Prelude.{◌≡◌, true, ◌∷◌, [], List, ◌++◌, ok, arith, >>=-eq-ok}
use latent_compass.Lab.Model.{DiagnosisModel, model_is_coherent, load_model}
use latent_compass.Lab.State.Revision.{DiagnosisStateRevision, state_is_coherent, load_state}
use latent_compass.Lab.State.Verify.{load_states}

pub load_model-eq :
    (m m' : DiagnosisModel) → load_model m ≡ ok m' → (m' ≡ m) × (model_is_coherent m ≡ true)
unfolding load_model
load_model-eq m m' h = ground arith

pub load_state-eq :
    (s s' : DiagnosisStateRevision) → load_state s ≡ ok s' → (s' ≡ s) × (state_is_coherent s ≡ true)
unfolding load_state
load_state-eq s s' h = ground arith

pub load_states-eq : (hs ts : List DiagnosisStateRevision) → load_states hs ≡ ok ts → ts ≡ hs
unfolding load_states
load_states-eq [] ts h = ground arith
load_states-eq (x ∷ hs) ts h =
    let (y, ey, hy) = >>=-eq-ok (load_state x) _ h in
    let (ys, eys, hys) = >>=-eq-ok (load_states hs) _ hy in
    cc ((load_state-eq x y ey).0, load_states-eq hs ys eys, hys)

pub load_states-append :
    (hs : List DiagnosisStateRevision) (s : DiagnosisStateRevision)
    → load_states hs ≡ ok hs
    → load_state s ≡ ok s
    → load_states (hs ++ s ∷ []) ≡ ok (hs ++ s ∷ [])
unfolding load_states
load_states-append [] s h e = ground arith
load_states-append (x ∷ hs) s h e =
    let (y, ey, hy) = >>=-eq-ok (load_state x) _ h in
    let (ys, eys, hys) = >>=-eq-ok (load_states hs) _ hy in
    ground (arith, (load_state-eq x y ey).0, load_states-eq hs ys eys, load_states-append hs s)
