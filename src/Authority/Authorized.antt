-- ===== src/Authority/Authorized.antt =====
-- src/latent_compass/authority.py: what a call of `authorize_transition` returns, and when it does.
use latent_compass.Prelude.{
  ◌≡◌, ◌⊎◌, Bool, false, not, ◌&&◌, Option, none, some, ok, arith, >>=-eq-ok, >>=-eq-ok_at,
  raise_if-ok, ok-eq, sym, ◌∙◌, ap,
}
use mathlib.Core.Path.{subst}
use latent_compass.Contracts.{Seal, evidence_forged}
use latent_compass.Authority.{
  Actor, LifecycleState, rejected, EvidenceRequirement, evidence_requirements,
}
use latent_compass.Authority.Evidence.{
  Evidence, guarded, load_evidence, check_presence, verify_loaded, verify_evidence, absent,
  is_rejected,
}
use latent_compass.Authority.Transition.{
  AuthorizationBody, TransitionAuthorization, check_authority, authorization, authorize_transition,
  kills,
}
use latent_compass.Authority.Decides.{guarded-ok, load_evidence-eq, verify_verdict-ok}
use latent_compass.Protocol.Specs.{FiniteFloat}
use latent_compass.Protocol.Preregistration.{Preregistration}
use latent_compass.Protocol.Verdict.{
  MeasurementSet, VerdictBody, Verdict, ContinueKill, go_on, is_kill,
}
use latent_compass.Protocol.Score.{score_measurements}
use latent_compass.Protocol.Holdout.{LedgerFile}

go_on_or_rejected :
    (d : ContinueKill) (s : LifecycleState)
    → (is_kill d && not (is_rejected s)) ≡ false
    → (d ≡ go_on) ⊎ (s ≡ rejected)
go_on_or_rejected d s h = ground arith

module _ (mean : FiniteFloat → FiniteFloat → Option FiniteFloat)
    (protocol_seal : Preregistration → Seal) (measurement_seal : MeasurementSet → Seal)
    (seal_body : VerdictBody → Seal) where
  module _ (acquired : Bool) (to_state : LifecycleState) (r : EvidenceRequirement)
      (ledger : Option LedgerFile) where
    loaded_is :
        (e f : Evidence) (o : Option Verdict)
        → verify_loaded mean protocol_seal measurement_seal seal_body acquired to_state r ledger e o
          ≡ ok f
        → f ≡ e
    loaded_is e f none h =
        sym (ok-eq e f ((raise_if-ok (not (absent e.measurements) && absent e.protocol) _ _ h).1))
    loaded_is e f (some v) h =
        let (p, ms, same, hp, hm, hs, hk) =
          verify_verdict-ok mean protocol_seal measurement_seal seal_body acquired to_state r ledger
            e f v h in
        same

    -- Evidence that passes is returned as it was supplied.
    verified :
        (e f : Evidence) (ack : Bool)
        → verify_evidence mean protocol_seal measurement_seal seal_body acquired to_state r ledger e
            ack
          ≡ ok f
        → (f ≡ e)
          × (verify_loaded mean protocol_seal measurement_seal seal_body acquired to_state r ledger
                e e.verdict
              ≡ ok f)
          × (load_evidence e ≡ ok e)
          × (check_presence r e ack ≡ ok tt)
    unfolding verify_evidence
    verified e f ack h =
        let (u, hp, h1) = >>=-eq-ok (check_presence r e ack) _ h in
        let (he, h2) =
          >>=-eq-ok_at e (guarded evidence_forged (load_evidence e)) _
            (λ g hg. load_evidence-eq e g (guarded-ok evidence_forged (load_evidence e) g hg)) h1 in
        (loaded_is e f e.verdict h2, h2, guarded-ok evidence_forged (load_evidence e) e he, hp)

  module _ (seal_authorization : AuthorizationBody → Seal) (acquired : Bool)
      (from_state to_state : LifecycleState) (actor : Actor) (supplied : Evidence)
      (ledger : Option LedgerFile) (ack : Bool) where
    -- The record of the move, on the evidence as it was supplied.
    abbrev pub the_authorization : TransitionAuthorization
    the_authorization =
        authorization mean protocol_seal measurement_seal seal_body seal_authorization from_state
          to_state actor supplied ack

    pub authorized :
        (a : TransitionAuthorization)
        → authorize_transition mean protocol_seal measurement_seal seal_body seal_authorization
            acquired from_state to_state actor supplied ledger ack
          ≡ ok a
        → (check_authority from_state to_state actor ≡ ok tt)
          × (verify_loaded mean protocol_seal measurement_seal seal_body acquired to_state
                (evidence_requirements to_state)
                ledger
                supplied
                supplied.verdict
              ≡ ok supplied)
          × (a ≡ the_authorization)
          × (load_evidence supplied ≡ ok supplied)
          × (check_presence (evidence_requirements to_state) supplied ack ≡ ok tt)
    unfolding authorize_transition
    authorized a h =
        let (u, hc, h1) = >>=-eq-ok (check_authority from_state to_state actor) _ h in
        let (e, he, h2) =
          >>=-eq-ok
            (verify_evidence mean protocol_seal measurement_seal seal_body acquired to_state
              (evidence_requirements to_state) ledger supplied ack)
            _ h1 in
        let (same, loaded, hl, hp) =
          verified acquired to_state (evidence_requirements to_state) ledger supplied e ack he in
        let (hk, h3) = raise_if-ok (kills e.verdict && not (is_rejected to_state)) _ _ h2 in
        (
          hc,
          loaded ∙ ap ok same,
          sym (ok-eq _ a h3)
              ∙ ap
                  (λ x.
                    authorization mean protocol_seal measurement_seal seal_body seal_authorization
                      from_state to_state actor x ack)
                  same,
          hl,
          hp,
        )

    -- A verdict that is supplied for an authorised transition is the one that the protocol and the
    -- measurements supplied with it score, and it is CONTINUE unless the transition is to REJECTED.
    pub authorize_transition-score_measurements :
        (a : TransitionAuthorization) (v : Verdict)
        → authorize_transition mean protocol_seal measurement_seal seal_body seal_authorization
            acquired from_state to_state actor supplied ledger ack
          ≡ ok a
        → supplied.verdict ≡ some v
        → (p : Preregistration) × (ms : MeasurementSet) × (supplied.protocol ≡ some p)
          × (supplied.measurements ≡ some ms)
          × (score_measurements mean protocol_seal seal_body p ms ≡ ok v)
          × ((v.decision ≡ go_on) ⊎ (to_state ≡ rejected))
    authorize_transition-score_measurements a v h e =
        let (hc, hv, ea, hl, hp) = authorized a h in
        let with_v =
          subst
            (λ o.
              verify_loaded mean protocol_seal measurement_seal seal_body acquired to_state
                (evidence_requirements to_state) ledger supplied o
              ≡ ok supplied)
            e hv in
        let (p, ms, same, hp', hm, hs, hk) =
          verify_verdict-ok mean protocol_seal measurement_seal seal_body acquired to_state
            (evidence_requirements to_state) ledger supplied supplied v with_v in
        (p, ms, hp', hm, hs, go_on_or_rejected v.decision to_state hk)
