-- ===== src/Authority/Record.antt =====
-- src/latent_compass/authority.py: what the record of an authorised transition says.
use latent_compass.Prelude.{
  ◌≡◌, ◌≢◌, ◌⊎◌, Bool, Option, none, some, ok, arith, sym, ap, refl, Option-cases, inl, inr,
}
use latent_compass.Contracts.{Seal}
use latent_compass.Authority.{
  Actor, external_judge, human_operator, LifecycleState, define, shadow, rejected,
  evidence_requirements,
}
use latent_compass.Authority.Evidence.{Evidence, check_presence, verify_loaded}
use latent_compass.Authority.Transition.{
  AuthorizationBody, TransitionAuthorization, authorize_transition,
}
use latent_compass.Authority.Decides.{check_authority-ok, verify_verdict-ok}
use latent_compass.Protocol.Specs.{FiniteFloat}
use latent_compass.Protocol.Preregistration.{Preregistration}
use latent_compass.Protocol.Verdict.{MeasurementSet, VerdictBody, Verdict}
use latent_compass.Protocol.Holdout.{LedgerFile}
use latent_compass.Protocol.Loading.{score_measurements-Scored}
use latent_compass.Authority.Authorized.{the_authorization, authorized}

module _ (mean : FiniteFloat → FiniteFloat → Option FiniteFloat)
    (protocol_seal : Preregistration → Seal) (measurement_seal : MeasurementSet → Seal)
    (seal_body : VerdictBody → Seal) (seal_authorization : AuthorizationBody → Seal)
    (acquired : Bool) (from_state to_state : LifecycleState) (actor : Actor) (supplied : Evidence)
    (ledger : Option LedgerFile) (ack : Bool) where
  abbrev the_record : TransitionAuthorization
  the_record =
      the_authorization mean protocol_seal measurement_seal seal_body seal_authorization acquired
        from_state to_state actor supplied ledger ack

  -- What the record says of a verdict: its seal, its corpus, the protocol and the measurements.
  abbrev pub Cites : TransitionAuthorization → Option Verdict → Type 0
  Cites a none = (a.verdict_seal ≡ none) × (a.corpus_seal ≡ none)
  Cites a (some v) =
      (a.verdict_seal ≡ some v.verdict_seal)
      × (a.corpus_seal ≡ some v.corpus_seal)
      × (a.protocol_seal ≡ some v.protocol_seal)
      × (a.protocol_id ≡ some v.protocol_id)
      × ((ms : MeasurementSet) × (supplied.measurements ≡ some ms)
          × (a.measurement_set_seal ≡ some (measurement_seal ms)))

  -- What the record says of a protocol.
  abbrev pub NamesProtocol : TransitionAuthorization → Preregistration → Type 0
  NamesProtocol a p =
      (supplied.protocol ≡ some p)
      × (a.protocol_seal ≡ some (protocol_seal p))
      × (a.protocol_id ≡ some p.protocol_id)

  -- What the record says of the request.
  abbrev pub NamesRequest : TransitionAuthorization → Type 0
  NamesRequest a =
      (a.from_state ≡ from_state)
      × (a.to_state ≡ to_state)
      × (a.actor ≡ actor)
      × (a.human_acknowledged ≡ ack)
      × (a.authorization_seal ≡ seal_authorization a.body)

  protocol_there :
      to_state ≡ shadow
      → check_presence (evidence_requirements to_state) supplied ack ≡ ok tt
      → (p : Preregistration) × (supplied.protocol ≡ some p)
  protocol_there e h = elim (Option-cases supplied.protocol) [
    | inl n ↦ ground arith
    | inr there ↦ there
  ]

  cites :
      (a : TransitionAuthorization)
      → a ≡ the_record
      → (o : Option Verdict) → supplied.verdict ≡ o
      → verify_loaded mean protocol_seal measurement_seal seal_body acquired to_state
          (evidence_requirements to_state)
          ledger
          supplied
          o
        ≡ ok supplied
      → Cites a o
  cites a same none e h = (rw (same, e) refl, rw (same, e) refl)
  cites a same (some v) e h =
      let (p, ms, q, hp, hm, hs, hk) =
        verify_verdict-ok mean protocol_seal measurement_seal seal_body acquired to_state
          (evidence_requirements to_state) ledger supplied supplied v h in
      let s = score_measurements-Scored mean protocol_seal seal_body p ms v hs in
      (
        rw (same, e) refl,
        rw (same, e) refl,
        rw (same, hp) (ap (λ (x : Verdict). some x.protocol_seal) (sym s.is_sealed)),
        rw (same, hp) (ap (λ (x : Verdict). some x.protocol_id) (sym s.is_sealed)),
        (ms, hm, cc),
      )

  -- A transition that is authorised is requested by the external judge or by a person, and goes
  -- from DEFINE to SHADOW on a protocol that its record names by id and seal, or from a state that
  -- is not REJECTED to REJECTED. The record names the state that is left, the state that is
  -- entered, the actor and the acknowledgement of the request, and its seal is that of its body. If
  -- a verdict is supplied, the record carries its seal, the seals of its corpus and of the
  -- measurements supplied with it, and the id and the seal of the protocol it was scored under; if
  -- none is, the record carries no seal of a verdict and none of a corpus.
  pub authorize_transition-body :
      (a : TransitionAuthorization)
      → authorize_transition mean protocol_seal measurement_seal seal_body seal_authorization
          acquired from_state to_state actor supplied ledger ack
        ≡ ok a
      → ((actor ≡ external_judge) ⊎ (actor ≡ human_operator))
        × (((from_state ≡ define)
              × (to_state ≡ shadow)
              × ((p : Preregistration) × NamesProtocol a p))
            ⊎ ((from_state ≢ rejected) × (to_state ≡ rejected)))
        × NamesRequest a
        × Cites a supplied.verdict
  authorize_transition-body a h =
      let (hc, hv, e, hl, hp) =
        authorized mean protocol_seal measurement_seal seal_body seal_authorization acquired
          from_state to_state actor supplied ledger ack a h in
      let (w, m) = check_authority-ok from_state to_state actor hc in
      (
        w,
        elim m [
          | inl (f, t) ↦ let (p, there) = protocol_there t hp in inl (f, t, (p, (there, cc, cc)))
          | inr other ↦ inr other
        ],
        (rw e refl, rw e refl, rw e refl, rw e refl, rw e refl),
        cites a e supplied.verdict refl hv,
      )
