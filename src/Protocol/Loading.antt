-- ===== src/Protocol/Loading.antt =====
-- src/latent_compass/protocol.py: what the loaders return, and a call of `score_measurements` taken
-- apart.
use latent_compass.Prelude.{
  ◌≡◌, true, not, List, [], Option, Result, ok, all, arith, >>=-eq-ok, >>=-eq-ok_at,
}
use latent_compass.Contracts.{Seal, Exception}
use latent_compass.Lab.Dict.{Dict, keys}
use latent_compass.Protocol.Specs.{FiniteFloat}
use latent_compass.Protocol.Preregistration.{
  Preregistration, validated_preregistration, load_preregistration,
}
use latent_compass.Protocol.Verdict.{
  MeasurementSet, load_measurement_set, MetricVerdict, VerdictBody, Verdict, validated_verdict,
  load_verdict, recompute_verdict_seal,
}
use latent_compass.Protocol.Score.{
  Values, by_metric, known_metric, unwrapped, refuse_if, sort_specs, score_metrics, check_evidence,
  verdict_body, sealed_verdict, score_measurements,
}

pub validated_preregistration-eq :
    (p q : Preregistration) → validated_preregistration p ≡ ok q → q ≡ p
unfolding validated_preregistration
validated_preregistration-eq p q h = ground arith

pub load_preregistration-eq : (p q : Preregistration) → load_preregistration p ≡ ok q → q ≡ p
unfolding load_preregistration
load_preregistration-eq p q h = ground (arith, validated_preregistration-eq p q)

pub load_measurement_set-eq : (m n : MeasurementSet) → load_measurement_set m ≡ ok n → n ≡ m
unfolding load_measurement_set
load_measurement_set-eq m n h = ground arith

pub validated_verdict-eq : (v w : Verdict) → validated_verdict v ≡ ok w → w ≡ v
unfolding validated_verdict
validated_verdict-eq v w h = ground arith

pub load_verdict-eq : (v w : Verdict) → load_verdict v ≡ ok w → w ≡ v
unfolding load_verdict
load_verdict-eq v w h = ground (arith, validated_verdict-eq v w)

abbrev pub sealed : (VerdictBody → Seal) → VerdictBody → Verdict
sealed seal_body body = record { body = body; verdict_seal = seal_body body }

unwrapped-eq : (r : Result Exception Verdict) (v : Verdict) → unwrapped r ≡ ok v → r ≡ ok v
unwrapped-eq r v h = ground arith

sealed_verdict-eq :
    (seal_body : VerdictBody → Seal) (body : VerdictBody) (v : Verdict)
    → sealed_verdict seal_body body ≡ ok v
    → (v ≡ sealed seal_body body) × (load_verdict v ≡ ok v)
unfolding sealed_verdict recompute_verdict_seal
sealed_verdict-eq seal_body body v h =
    let raw : Verdict = record { body = body; verdict_seal = 0 } in
    let (e, l) =
      >>=-eq-ok_at raw (unwrapped (validated_verdict raw)) _
        (λ w e. validated_verdict-eq raw w (unwrapped-eq (validated_verdict raw) w e)) h in
    let same = load_verdict-eq (sealed seal_body body) v l in (same, cc)

module _ (mean : FiniteFloat → FiniteFloat → Option FiniteFloat)
    (protocol_seal : Preregistration → Seal) (seal_body : VerdictBody → Seal) where
  -- The parts of a call that returns.
  pub record Scored (p : Preregistration) (ms : MeasurementSet) (v : Verdict) : Type 0 where
    pub loads : load_preregistration p ≡ ok p
    pub loads_set : load_measurement_set ms ≡ ok ms
    pub evidence : check_evidence (protocol_seal p) p ms ≡ ok tt
    pub groups : Dict Values
    pub grouped : by_metric ms.measurements [] ≡ ok groups
    pub known : all (known_metric p) (keys groups) ≡ true
    pub scores : List MetricVerdict
    pub scored : score_metrics mean p.seeds groups (sort_specs p.metrics) ≡ ok scores
    pub is_sealed : v ≡ sealed seal_body (verdict_body (protocol_seal p) p ms scores)
    pub loads_verdict : load_verdict v ≡ ok v

  pub score_measurements-Scored :
      (p : Preregistration) (ms : MeasurementSet) (v : Verdict)
      → score_measurements mean protocol_seal seal_body p ms ≡ ok v
      → Scored p ms v
  unfolding score_measurements
  score_measurements-Scored p ms v h =
      let (lp, h1) = >>=-eq-ok_at p (load_preregistration p) _ (load_preregistration-eq p) h in
      let (lm, h2) = >>=-eq-ok_at ms (load_measurement_set ms) _ (load_measurement_set-eq ms) h1 in
      let (u, ev, h3) = >>=-eq-ok (check_evidence (protocol_seal p) p ms) _ h2 in
      let (groups, gr, h4) = >>=-eq-ok (by_metric ms.measurements []) _ h3 in
      let (w, kn, h5) = >>=-eq-ok (refuse_if (not (all (known_metric p) (keys groups))) _) _ h4 in
      let (scores, sc, h6) =
        >>=-eq-ok (score_metrics mean p.seeds groups (sort_specs p.metrics)) _ h5 in
      let (is, lv) = sealed_verdict-eq seal_body _ v h6 in
      record {
        loads = lp;
        loads_set = lm;
        evidence = ev;
        groups = groups;
        grouped = gr;
        known = ground arith;
        scores = scores;
        scored = sc;
        is_sealed = is;
        loads_verdict = lv;
      }
