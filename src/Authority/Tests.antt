-- ===== src/Authority/Tests.antt =====
-- The theorems of the authority boundary on a concrete protocol and its verdict.
use latent_compass.Prelude.{◌≡◌, ◌≢◌, ◌⊎◌, ◌↔◌, refl, true, false, none, some, ok, err}
use latent_compass.Contracts.{Seal, authority_refusal, self_authorisation}
use latent_compass.Authority.{
  latent_compass_actor, external_judge, human_operator, define, shadow, rejected, Advisory, abstain,
  validated_advisory,
}
use latent_compass.Authority.Evidence.{
  Evidence, load_if, load_evidence, same_verdict, reproduce_verdict, verify_verdict,
  verify_evidence,
}
use latent_compass.Authority.Transition.{
  AuthorizationBody, TransitionAuthorization, check_authority, authorization, authorize_transition,
}
use latent_compass.Authority.Authorized.{the_authorization, authorize_transition-score_measurements}
use latent_compass.Authority.Record.{NamesProtocol, NamesRequest, Cites, authorize_transition-body}
use latent_compass.Authority.Rejection.{only_protocol, Reaches, authorize_transition_iff}
use latent_compass.Protocol.Preregistration.{
  Preregistration, validated_preregistration, load_preregistration, split_spec,
}
use latent_compass.Protocol.Verdict.{
  MeasurementSet, load_measurement_set, go_on, validated_verdict, load_verdict,
  recompute_verdict_seal,
}
use latent_compass.Protocol.Score.{
  by_metric, metric_verdict, score_metric, score_metrics, check_evidence, sealed_verdict,
  score_measurements,
}
use latent_compass.Protocol.Tests.{half, study, study_seal, set_seal, body_seal, runs, outcome}

-- A checksum in the place of the seal.
abbrev move_seal : AuthorizationBody → Seal
move_seal b = 77

abbrev evidence : Evidence
evidence = record { protocol = some study; measurements = some runs; verdict = some outcome }

abbrev move : TransitionAuthorization
move =
    the_authorization half study_seal set_seal body_seal move_seal true shadow rejected
      human_operator evidence none false

move_is_authorised :
    authorize_transition half study_seal set_seal body_seal move_seal true shadow rejected
      human_operator evidence none false
    ≡ ok move
unfolding authorize_transition check_authority verify_evidence load_evidence same_verdict
    verify_verdict reproduce_verdict score_measurements load_preregistration
    validated_preregistration load_measurement_set check_evidence split_spec by_metric score_metrics
    score_metric metric_verdict sealed_verdict validated_verdict load_verdict recompute_verdict_seal
move_is_authorised = refl

authorize_transition-body_example :
    ((human_operator ≡ external_judge) ⊎ (human_operator ≡ human_operator))
    × (((shadow ≡ define)
          × (rejected ≡ shadow)
          × ((p : Preregistration) × NamesProtocol half study_seal set_seal body_seal move_seal true
                shadow rejected human_operator evidence none false move p))
        ⊎ ((shadow ≢ rejected) × (rejected ≡ rejected)))
    × NamesRequest half study_seal set_seal body_seal move_seal true shadow rejected human_operator
        evidence none false move
    × Cites half study_seal set_seal body_seal move_seal true shadow rejected human_operator
        evidence none false move
        (some outcome)
authorize_transition-body_example =
    authorize_transition-body half study_seal set_seal body_seal move_seal true shadow rejected
      human_operator evidence none false move move_is_authorised

authorize_transition-score_measurements_example :
    (p : Preregistration) × (ms : MeasurementSet) × (evidence.protocol ≡ some p)
    × (evidence.measurements ≡ some ms)
    × (score_measurements half study_seal body_seal p ms ≡ ok outcome)
    × ((outcome.decision ≡ go_on) ⊎ (rejected ≡ rejected))
authorize_transition-score_measurements_example =
    authorize_transition-score_measurements half study_seal set_seal body_seal move_seal true shadow
      rejected human_operator evidence none false move outcome move_is_authorised refl

authorize_transition_iff_example :
    (authorize_transition half study_seal set_seal body_seal move_seal true define shadow
        external_judge
        (only_protocol (some study))
        none
        false
      ≡ ok (
          authorization half study_seal set_seal body_seal move_seal define shadow external_judge
            (only_protocol (some study))
            false))
    ↔ (((external_judge ≡ external_judge) ⊎ (external_judge ≡ human_operator))
        × Reaches define shadow (some study)
        × (load_if load_preregistration (some study) ≡ ok (some study)))
authorize_transition_iff_example =
    authorize_transition_iff half study_seal set_seal body_seal move_seal true define shadow
      external_judge (some study) none false

-- The package itself is refused before anything else is read.
compass_is_refused :
    authorize_transition half study_seal set_seal body_seal move_seal true define rejected
      latent_compass_actor evidence none true
    ≡ err (authority_refusal self_authorisation)
unfolding authorize_transition check_authority
compass_is_refused = refl

-- A direction whose uncertainty is above the threshold is refused, an abstention is not.
abbrev hesitant : Advisory
hesitant = record {
  contract_version = "1.0.0";
  kind = abstain;
  direction_id = none;
  confidence = 20;
  uncertainty = 80;
  rationale = "too little evidence";
  issued_by = latent_compass_actor;
}

hesitant_is_valid : validated_advisory 35 hesitant ≡ ok hesitant
unfolding validated_advisory
hesitant_is_valid = refl
