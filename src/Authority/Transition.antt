-- ===== src/Authority/Transition.antt =====
-- src/latent_compass/authority.py: `TransitionAuthorization` and `authorize_transition`.
use latent_compass.Prelude.{
  Bool, true, false, not, ◌&&◌, Option, none, some, List, [], ◌∷◌, Result, ok, ◌>>=◌, ◌>>◌, ◌==◌,
  any, String,
}
use latent_compass.Contracts.{
  Identifier, Seal, Exception, self_authorisation, actor_lacks_capability, terminal_state,
  illegal_transition, untrusted_evidence, evidence_rejects,
}
use latent_compass.Authority.{
  Actor, latent_compass_actor, Capability, capability_rank, authorize, capabilities, LifecycleState,
  state_rank, offline_verified, canary_eligible, promoted, allowed_transitions, extra_capability,
  evidence_requirements,
}
use latent_compass.Authority.Evidence.{refuse_if, Evidence, is_rejected, verify_evidence}
use latent_compass.Protocol.Specs.{FiniteFloat}
use latent_compass.Protocol.Preregistration.{Preregistration}
use latent_compass.Protocol.Verdict.{MeasurementSet, VerdictBody, Verdict, is_kill}
use latent_compass.Protocol.Holdout.{LedgerFile}

-- Everything that the authorization's seal covers.
pub record AuthorizationBody : Type 0 where
  pub contract_version : String
  pub from_state : LifecycleState
  pub to_state : LifecycleState
  pub actor : Actor
  pub protocol_seal : Option Seal
  pub verdict_seal : Option Seal
  pub measurement_set_seal : Option Seal
  pub corpus_seal : Option Seal
  pub protocol_id : Option Identifier
  pub human_acknowledged : Bool

pub record TransitionAuthorization : Type 0 where
  pub body : AuthorizationBody
  pub open body use *
  pub authorization_seal : Seal

abbrev pub holds : Actor → Capability → Bool
holds actor c = any (λ d. capability_rank c == capability_rank d) (capabilities actor)

abbrev pub is_in : LifecycleState → List LifecycleState → Bool
is_in s xs = any (λ x. state_rank s == state_rank x) xs

abbrev is_compass : Actor → Bool
is_compass latent_compass_actor = true
is_compass _ = false

abbrev lacks_extra : Actor → Option Capability → Bool
lacks_extra actor none = false
lacks_extra actor (some c) = not (holds actor c)

abbrev empty : List LifecycleState → Bool
empty [] = true
empty (_ ∷ _) = false

-- The refusals that precede the evidence, in the order of the source.
unfoldable pub check_authority :
    LifecycleState → LifecycleState → Actor → Result Exception (Unit {0})
check_authority from_state to_state actor = do
  refuse_if (is_compass actor) self_authorisation
  refuse_if (not (holds actor authorize)) actor_lacks_capability
  refuse_if (lacks_extra actor (extra_capability to_state)) actor_lacks_capability
  refuse_if (empty (allowed_transitions from_state)) terminal_state
  refuse_if (not (is_in to_state (allowed_transitions from_state))) illegal_transition
  refuse_if (is_in to_state (offline_verified ∷ canary_eligible ∷ promoted ∷ [])) untrusted_evidence

abbrev pub mapped : {A B : Type 0} → (A → B) → Option A → Option B
mapped f none = none
mapped f (some a) = some (f a)

abbrev pub kills : Option Verdict → Bool
kills none = false
kills (some v) = is_kill v.decision

module _ (mean : FiniteFloat → FiniteFloat → Option FiniteFloat)
    (protocol_seal : Preregistration → Seal) (measurement_seal : MeasurementSet → Seal)
    (seal_body : VerdictBody → Seal) (seal_authorization : AuthorizationBody → Seal) where
  -- The record of a move, from the evidence that was reproduced.
  abbrev pub authorization :
      LifecycleState → LifecycleState → Actor → Evidence → Bool → TransitionAuthorization
  authorization from_state to_state actor e human_acknowledged =
      let body : AuthorizationBody = record {
        contract_version = "2.0.0";
        from_state = from_state;
        to_state = to_state;
        actor = actor;
        protocol_seal = mapped protocol_seal e.protocol;
        verdict_seal = mapped (λ (v : Verdict). v.verdict_seal) e.verdict;
        measurement_set_seal = mapped measurement_seal e.measurements;
        corpus_seal = mapped (λ (v : Verdict). v.corpus_seal) e.verdict;
        protocol_id = mapped (λ (p : Preregistration). p.protocol_id) e.protocol;
        human_acknowledged = human_acknowledged;
      } in
      record { body = body; authorization_seal = seal_authorization body }

  -- `authorize_transition`
  unfoldable pub authorize_transition :
      Bool
      → LifecycleState
      → LifecycleState
      → Actor
      → Evidence
      → Option LedgerFile
      → Bool
      → Result Exception TransitionAuthorization
  unfolding check_authority verify_evidence
  authorize_transition acquired from_state to_state actor supplied ledger human_acknowledged = do
    check_authority from_state to_state actor
    e ←
        verify_evidence mean protocol_seal measurement_seal seal_body acquired to_state
          (evidence_requirements to_state) ledger supplied human_acknowledged
    refuse_if (kills e.verdict && not (is_rejected to_state)) evidence_rejects
    ok (authorization from_state to_state actor e human_acknowledged)
