-- ===== src/Lab/Memory/Future.antt =====
-- What is recorded after an instant does not change what applies at it.
use latent_compass.Prelude.{
  ℕ, ◌+◌, ◌≡◌, sym, ap, ◌∙◌, true, false, some, Option, List, [], ◌∷◌, ◌++◌, arith, ok, >>=-eq-ok,
  all, ltb, leb,
}
use latent_compass.Contracts.{Seal, Timestamp}
use latent_compass.Lab.State.Revision.{LabBinding}
use latent_compass.Lab.Memory.{
  fact, fact_revocation, claim, claim_revocation, support_revision, FactAssertion, FactRevocation,
  ClaimAssertion, ClaimRevocation, SupportRevision, MemoryEvent, MemoryEventKind,
}
use latent_compass.Lab.Memory.Replay.{
  Replayed, at_start, record_fact, revoke_fact, record_claim, revoke_claim, revise_supports,
  asserted, apply_kind, replay_event, replay_events,
}
use latent_compass.Lab.Memory.Applicability.{
  MemoryApplicability, applicability, replay_history, compute_applicability,
}
use latent_compass.Lab.Memory.Loading.{compute_applicability-Computed}

module _ (as_of : Timestamp) (s t : Replayed) where
  record_fact-late : (f : FactAssertion) → record_fact as_of false s f ≡ ok t → t.view ≡ s.view
  unfolding record_fact
  record_fact-late f h = ground arith

  revoke_fact-late : (r : FactRevocation) → revoke_fact as_of false s r ≡ ok t → t.view ≡ s.view
  unfolding revoke_fact
  revoke_fact-late r h = ground arith

  record_claim-late :
      (c : ClaimAssertion) (x : Seal) → record_claim as_of false s c x ≡ ok t → t.view ≡ s.view
  unfolding record_claim
  record_claim-late c x h = ground arith

  revoke_claim-late : (r : ClaimRevocation) → revoke_claim as_of false s r ≡ ok t → t.view ≡ s.view
  unfolding revoke_claim
  revoke_claim-late r h = ground arith

  revise_supports-late :
      (r : SupportRevision) (x : Seal) → revise_supports as_of false s r x ≡ ok t → t.view ≡ s.view
  unfolding revise_supports
  revise_supports-late r x h = ground arith

module _ (event_seal : MemoryEvent → Seal) (as_of : Timestamp) where
  apply_kind-late :
      (k : MemoryEventKind) (s t : Replayed) (e : MemoryEvent)
      → apply_kind event_seal as_of false k s e ≡ ok t
      → t.view ≡ s.view
  unfolding apply_kind
  apply_kind-late fact s t e h =
      let (f, ef, hf) = >>=-eq-ok (asserted e.fact) _ h in record_fact-late as_of s t f hf
  apply_kind-late fact_revocation s t e h =
      let (r, er, hr) = >>=-eq-ok (asserted e.fact_revocation) _ h in
      revoke_fact-late as_of s t r hr
  apply_kind-late claim s t e h =
      let (c, ec, hc) = >>=-eq-ok (asserted e.claim) _ h in
      record_claim-late as_of s t c (event_seal e) hc
  apply_kind-late claim_revocation s t e h =
      let (r, er, hr) = >>=-eq-ok (asserted e.claim_revocation) _ h in
      revoke_claim-late as_of s t r hr
  apply_kind-late support_revision s t e h =
      let (r, er, hr) = >>=-eq-ok (asserted e.support_revision) _ h in
      revise_supports-late as_of s t r (event_seal e) hr

  replay_event-late :
      (b : LabBinding) (n : ℕ) (s t : Replayed) (e : MemoryEvent)
      → leb e.recorded_at as_of ≡ false
      → replay_event event_seal as_of b n s e ≡ ok t
      → t.view ≡ s.view
  unfolding replay_event
  replay_event-late b n s t e late h =
      ground
        (arith, apply_kind-late e.kind (record s { previous_recorded_at = some e.recorded_at }) t e)

  replay_events-late :
      (b : LabBinding) (n : ℕ) (s t : Replayed) (es : List MemoryEvent)
      → all (λ e. ltb as_of e.recorded_at) es ≡ true
      → replay_events event_seal as_of b n s es ≡ ok t
      → t.view ≡ s.view
  unfolding replay_events
  replay_events-late b n s t [] late h = ground arith
  replay_events-late b n s t (e ∷ es) late h =
      let (u, eu, hu) = >>=-eq-ok (replay_event event_seal as_of b n s e) _ h in
      replay_events-late b (n + 1) u t es (ground arith) hu
      ∙ replay_event-late b n s u e (ground arith) eu

  replay_events-append :
      (b : LabBinding) (n : ℕ) (s t u : Replayed) (es more : List MemoryEvent)
      → replay_events event_seal as_of b n s es ≡ ok t
      → replay_events event_seal as_of b n s (es ++ more) ≡ ok u
      → (m : ℕ) × (replay_events event_seal as_of b m t more ≡ ok u)
  unfolding replay_events
  replay_events-append b n s t u [] more h k = (n, ground arith)
  replay_events-append b n s t u (e ∷ es) more h k =
      let (v, ev, hv) = >>=-eq-ok (replay_event event_seal as_of b n s e) _ h in
      replay_events-append b (n + 1) v t u es more hv (ground arith)

  -- If the calls on a non-empty history and on the history with further events behind it, all of
  -- them recorded after the instant, both return for that instant, they return the same.
  pub compute_applicability-append :
      (e : MemoryEvent) (es more : List MemoryEvent) (o p : Option MemoryApplicability)
      → compute_applicability event_seal (e ∷ es) as_of ≡ ok o
      → all (λ x. ltb as_of x.recorded_at) more ≡ true
      → compute_applicability event_seal (e ∷ (es ++ more)) as_of ≡ ok p
      → p ≡ o
  unfolding replay_history
  compute_applicability-append e es more o p h late k =
      let c = compute_applicability-Computed event_seal e es as_of o h in
      let d = compute_applicability-Computed event_seal e (es ++ more) as_of p k in
      let (m, rest) =
        replay_events-append e.binding 0 at_start c.s d.s (e ∷ es) more c.replays d.replays in
      let same = replay_events-late e.binding m c.s d.s more late rest in
      d.result ∙ ap (applicability as_of) same ∙ sym c.result
