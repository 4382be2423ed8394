-- ===== src/Authority/Decides.antt =====
-- src/latent_compass/authority.py: which transitions are authorised, and on what evidence.
use latent_compass.Prelude.{
  ◌≡◌, ◌≢◌, ◌⊎◌, refl, Bool, true, false, not, ◌&&◌, Option, none, some, Result, ok, err, arith,
  >>=-eq-ok, raise_if-ok, ok-eq, sym, ◌∙◌, ap, ◌==◌,
}
use latent_compass.Contracts.{Seal, Exception, RefusalReason, evidence_mismatch}
use latent_compass.Authority.{
  Actor, external_judge, human_operator, LifecycleState, define, shadow, rejected,
  EvidenceRequirement,
}
use latent_compass.Authority.Evidence.{
  Evidence, guarded, load_if, load_evidence, reproduce_verdict, verify_verdict, same_verdict,
  needed, is_rejected,
}
use latent_compass.Authority.Same.{same_verdict-eq}
use latent_compass.Authority.Transition.{check_authority}
use latent_compass.Protocol.Specs.{FiniteFloat}
use latent_compass.Protocol.Preregistration.{Preregistration, load_preregistration, split_spec}
use latent_compass.Protocol.Verdict.{
  MeasurementSet, load_measurement_set, VerdictBody, Verdict, load_verdict, is_kill,
  recompute_verdict_seal,
}
use latent_compass.Protocol.Score.{score_measurements}
use latent_compass.Protocol.Holdout.{LedgerFile}
use latent_compass.Protocol.Loading.{
  load_preregistration-eq, load_measurement_set-eq, load_verdict-eq,
}

pub guarded-ok :
    {A : Type 0} (reason : RefusalReason) (r : Result Exception A) (a : A)
    → guarded reason r ≡ ok a
    → r ≡ ok a
guarded-ok reason (ok b) a h = h
guarded-ok reason (err e) a h = cc

not-false : (b : Bool) → not b ≡ false → b ≡ true
not-false true h = refl
not-false false h = cc

needed-ok : {A : Type 0} (o : Option A) (a : A) → needed o ≡ ok a → o ≡ some a
needed-ok none a h = cc
needed-ok (some b) a h = cc

load_if-eq :
    {A : Type 0} (load : A → Result Exception A) (o p : Option A)
    → ((a b : A) → load a ≡ ok b → b ≡ a)
    → load_if load o ≡ ok p
    → p ≡ o
load_if-eq load none p same h = cc
load_if-eq load (some a) p same h = let (b, e, l) = >>=-eq-ok (load a) _ h in cc (same a b e)

pub load_evidence-eq : (e f : Evidence) → load_evidence e ≡ ok f → f ≡ e
unfolding load_evidence
load_evidence-eq e f h =
    let (p, hp, h1) = >>=-eq-ok (load_if load_preregistration e.protocol) _ h in
    let (ms, hm, h2) = >>=-eq-ok (load_if load_measurement_set e.measurements) _ h1 in
    let (v, hv, h3) = >>=-eq-ok (load_if load_verdict e.verdict) _ h2 in
    let ep = load_if-eq load_preregistration e.protocol p load_preregistration-eq hp in
    let em = load_if-eq load_measurement_set e.measurements ms load_measurement_set-eq hm in
    let ev = load_if-eq load_verdict e.verdict v load_verdict-eq hv in cc

pub check_authority-ok :
    (from_state to_state : LifecycleState) (actor : Actor)
    → check_authority from_state to_state actor ≡ ok tt
    → ((actor ≡ external_judge) ⊎ (actor ≡ human_operator))
      × (((from_state ≡ define) × (to_state ≡ shadow))
          ⊎ ((from_state ≢ rejected) × (to_state ≡ rejected)))
unfolding check_authority
check_authority-ok from_state to_state actor h = ground arith

pub authority-check :
    (from_state to_state : LifecycleState) (actor : Actor)
    → ((actor ≡ external_judge) ⊎ (actor ≡ human_operator))
    → (((from_state ≡ define) × (to_state ≡ shadow))
        ⊎ ((from_state ≢ rejected) × (to_state ≡ rejected)))
    → check_authority from_state to_state actor ≡ ok tt
unfolding check_authority
authority-check from_state to_state actor a h = ground arith

module _ (mean : FiniteFloat → FiniteFloat → Option FiniteFloat)
    (protocol_seal : Preregistration → Seal) (measurement_seal : MeasurementSet → Seal)
    (seal_body : VerdictBody → Seal) where
  module _ (acquired : Bool) (to_state : LifecycleState) (r : EvidenceRequirement)
      (ledger : Option LedgerFile) where
    reproduce_verdict-ok :
        (p : Preregistration) (ms : MeasurementSet) (v : Verdict)
        → reproduce_verdict mean protocol_seal measurement_seal seal_body acquired to_state r ledger
            v p ms
          ≡ ok tt
        → (score_measurements mean protocol_seal seal_body p ms ≡ ok v)
          × ((is_kill v.decision && not (is_rejected to_state)) ≡ false)
    unfolding reproduce_verdict
    reproduce_verdict-ok p ms v h =
        let (e1, h1) = raise_if-ok (not (v.protocol_seal == protocol_seal p)) _ _ h in
        let (e2, h2) = raise_if-ok (not (v.epoch == p.epoch)) _ _ h1 in
        let (spec, e3, h3) = >>=-eq-ok (split_spec p v.split) _ h2 in
        let (e4, h4) = raise_if-ok (not (v.corpus_seal == spec.corpus_seal)) _ _ h3 in
        let (w, sw, h5) =
          >>=-eq-ok
            (guarded evidence_mismatch (score_measurements mean protocol_seal seal_body p ms)) _
            h4 in
        let (e6, h6) = raise_if-ok (not (same_verdict w v)) _ _ h5 in
        let (e7, h7) = raise_if-ok (is_kill v.decision && not (is_rejected to_state)) _ _ h6 in
        (
          guarded-ok evidence_mismatch (score_measurements mean protocol_seal seal_body p ms) w sw
              ∙ ap ok (same_verdict-eq w v (not-false (same_verdict w v) e6)),
          e7,
        )

    -- A verdict that passes reproduces from the supplied protocol and measurements.
    pub verify_verdict-ok :
        (e f : Evidence) (v : Verdict)
        → verify_verdict mean protocol_seal measurement_seal seal_body acquired to_state r ledger e
            v
          ≡ ok f
        → (p : Preregistration) × (ms : MeasurementSet) × (f ≡ e)
          × (e.protocol ≡ some p)
          × (e.measurements ≡ some ms)
          × (score_measurements mean protocol_seal seal_body p ms ≡ ok v)
          × ((is_kill v.decision && not (is_rejected to_state)) ≡ false)
    unfolding verify_verdict
    verify_verdict-ok e f v h =
        let (p, hp, h1) = >>=-eq-ok (needed e.protocol) _ h in
        let (e1, h2) =
          raise_if-ok (not (recompute_verdict_seal seal_body v == v.verdict_seal)) _ _ h1 in
        let (ms, hm, h3) = >>=-eq-ok (needed e.measurements) _ h2 in
        let (u, hr, h4) =
          >>=-eq-ok
            (reproduce_verdict mean protocol_seal measurement_seal seal_body acquired to_state r
              ledger v p ms)
            _ h3 in
        let (a, b) = reproduce_verdict-ok p ms v hr in
        (p, ms, sym (ok-eq e f h4), needed-ok e.protocol p hp, needed-ok e.measurements ms hm, a, b)
