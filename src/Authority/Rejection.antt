-- ===== src/Authority/Rejection.antt =====
-- src/latent_compass/authority.py: `authorize_transition` where no verdict is supplied.
use latent_compass.Prelude.{
  ◌≡◌, ◌≢◌, ◌⊎◌, ◌↔◌, refl, Bool, false, Option, none, ok, arith, ok-eq, >>=-eq-ok, ◌∙◌, ap,
}
use latent_compass.Contracts.{Seal}
use latent_compass.Authority.{
  Actor, external_judge, human_operator, LifecycleState, define, shadow, rejected,
  evidence_requirements,
}
use latent_compass.Authority.Evidence.{
  Evidence, load_if, load_evidence, check_presence, verify_evidence, absent,
}
use latent_compass.Authority.Transition.{AuthorizationBody, authorization, authorize_transition}
use latent_compass.Authority.Decides.{authority-check, check_authority-ok}
use latent_compass.Authority.Authorized.{authorized}
use latent_compass.Protocol.Specs.{FiniteFloat}
use latent_compass.Protocol.Preregistration.{Preregistration, load_preregistration}
use latent_compass.Protocol.Verdict.{MeasurementSet, VerdictBody}
use latent_compass.Protocol.Holdout.{LedgerFile}

-- A protocol and nothing else, or nothing at all.
abbrev pub only_protocol : Option Preregistration → Evidence
only_protocol p = record { protocol = p; measurements = none; verdict = none }

load_only :
    (p : Option Preregistration)
    → load_if load_preregistration p ≡ ok p
    → load_evidence (only_protocol p) ≡ ok (only_protocol p)
unfolding load_evidence
load_only p h = rw h refl

only_load :
    (p : Option Preregistration)
    → load_evidence (only_protocol p) ≡ ok (only_protocol p)
    → load_if load_preregistration p ≡ ok p
unfolding load_evidence
only_load p h =
    let (q, hq, h1) = >>=-eq-ok (load_if load_preregistration p) _ h in
    hq ∙ ap ok (ap (λ (e : Evidence). e.protocol) (ok-eq _ (only_protocol p) h1))

-- What a state that may be reached demands.
abbrev pub Reaches : LifecycleState → LifecycleState → Option Preregistration → Type 0
Reaches from_state to_state p =
    ((from_state ≡ define) × (to_state ≡ shadow) × (absent p ≡ false))
    ⊎ ((from_state ≢ rejected) × (to_state ≡ rejected))

presence-Reaches :
    (from_state to_state : LifecycleState) (p : Option Preregistration) (ack : Bool)
    → Reaches from_state to_state p
    → check_presence (evidence_requirements to_state) (only_protocol p) ack ≡ ok tt
presence-Reaches from_state to_state p ack h = ground arith

Reaches-presence :
    (from_state to_state : LifecycleState) (p : Option Preregistration) (ack : Bool)
    → ((from_state ≡ define) × (to_state ≡ shadow))
      ⊎ ((from_state ≢ rejected) × (to_state ≡ rejected))
    → check_presence (evidence_requirements to_state) (only_protocol p) ack ≡ ok tt
    → Reaches from_state to_state p
Reaches-presence from_state to_state p ack m h = ground arith

module _ (mean : FiniteFloat → FiniteFloat → Option FiniteFloat)
    (protocol_seal : Preregistration → Seal) (measurement_seal : MeasurementSet → Seal)
    (seal_body : VerdictBody → Seal) (seal_authorization : AuthorizationBody → Seal)
    (acquired : Bool) (from_state to_state : LifecycleState) (actor : Actor)
    (p : Option Preregistration) (ledger : Option LedgerFile) (ack : Bool) where
  verifies :
      load_if load_preregistration p ≡ ok p
      → Reaches from_state to_state p
      → verify_evidence mean protocol_seal measurement_seal seal_body acquired to_state
          (evidence_requirements to_state)
          ledger
          (only_protocol p)
          ack
        ≡ ok (only_protocol p)
  unfolding verify_evidence
  verifies h r = rw (presence-Reaches from_state to_state p ack r, load_only p h) refl

  -- Without measurements and without a verdict, a transition is authorised exactly when the external
  -- judge or a person asks for it and it goes from DEFINE to SHADOW with a protocol, or from a state
  -- that is not REJECTED to REJECTED, and the protocol that is supplied, if any, is valid.
  pub authorize_transition_iff :
      (authorize_transition mean protocol_seal measurement_seal seal_body seal_authorization
          acquired from_state to_state actor
          (only_protocol p)
          ledger
          ack
        ≡ ok (
            authorization mean protocol_seal measurement_seal seal_body seal_authorization
              from_state to_state actor
              (only_protocol p)
              ack))
      ↔ (((actor ≡ external_judge) ⊎ (actor ≡ human_operator))
          × Reaches from_state to_state p
          × (load_if load_preregistration p ≡ ok p))
  unfolding authorize_transition
  authorize_transition_iff = (
    λ h.
        let (hc, hv, e, hl, hp) =
          authorized mean protocol_seal measurement_seal seal_body seal_authorization acquired
            from_state to_state actor (only_protocol p) ledger ack _ h in
        let (w, m) = check_authority-ok from_state to_state actor hc in
        (w, Reaches-presence from_state to_state p ack m hp, only_load p hl),
    λ (w, r, l). rw (authority-check from_state to_state actor w (ground arith), verifies l r) refl,
  )
