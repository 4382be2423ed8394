-- ===== src/Lab/Memory/Supported.antt =====
-- In every view that a replay leads to, each claim's supports are there and name a premise.
use latent_compass.Prelude.{
  ℕ, ◌+◌, ◌≡◌, refl, Bool, true, some, List, [], ◌∷◌, arith, ok, >>=-eq-ok, all, leb,
}
use latent_compass.Contracts.{Identifier, Seal, Timestamp}
use latent_compass.Lab.Dict.{Dict, put}
use latent_compass.Lab.State.Revision.{LabBinding}
use latent_compass.Lab.Memory.{
  fact, fact_revocation, claim, claim_revocation, support_revision, SupportConjunction,
  FactAssertion, FactRevocation, ClaimRevocation, ClaimAssertion, SupportRevision, MemoryEvent,
  MemoryEventKind, supports_are_coherent, event_is_coherent, load_memory_event,
}
use latent_compass.Lab.Memory.Replay.{
  Replayed, record_fact, revoke_fact, record_claim, revoke_claim, revise_supports, asserted,
  apply_kind, replay_event, replay_events, load_events,
}

-- Each claim's supports are there and name a premise.
abbrev pub Supported : Dict (List SupportConjunction) → Type 0
Supported d = all (λ e. supports_are_coherent e.1) d ≡ true

put-Supported :
    (k : Identifier) (v : List SupportConjunction) (d : Dict (List SupportConjunction))
    → supports_are_coherent v ≡ true
    → Supported d
    → Supported (put k v d)
put-Supported k v [] h s = rw h refl
put-Supported k v (x ∷ d) h s = ground (arith, put-Supported k v d)

event-claim :
    (e : MemoryEvent) (c : ClaimAssertion)
    → event_is_coherent e ≡ true
    → asserted e.claim ≡ ok c
    → supports_are_coherent c.supports ≡ true
unfolding event_is_coherent
event-claim e c h k = ground arith

event-revision :
    (e : MemoryEvent) (r : SupportRevision)
    → event_is_coherent e ≡ true
    → asserted e.support_revision ≡ ok r
    → supports_are_coherent r.supports ≡ true
unfolding event_is_coherent
event-revision e r h k = ground arith

module _ (as_of : Timestamp) (q : Bool) (s t : Replayed) where
  record_claim-Supported :
      (c : ClaimAssertion) (x : Seal)
      → supports_are_coherent c.supports ≡ true
      → record_claim as_of q s c x ≡ ok t
      → Supported s.view.supports
      → Supported t.view.supports
  unfolding record_claim
  record_claim-Supported c x v h k =
      ground (arith, put-Supported c.claim_id c.supports s.view.supports v k)

  revise_supports-Supported :
      (r : SupportRevision) (x : Seal)
      → supports_are_coherent r.supports ≡ true
      → revise_supports as_of q s r x ≡ ok t
      → Supported s.view.supports
      → Supported t.view.supports
  unfolding revise_supports
  revise_supports-Supported r x v h k =
      ground (arith, put-Supported r.claim_id r.supports s.view.supports v k)

  record_fact-supports :
      (f : FactAssertion) → record_fact as_of q s f ≡ ok t → t.view.supports ≡ s.view.supports
  unfolding record_fact
  record_fact-supports f h = ground arith

  revoke_fact-supports :
      (r : FactRevocation) → revoke_fact as_of q s r ≡ ok t → t.view.supports ≡ s.view.supports
  unfolding revoke_fact
  revoke_fact-supports r h = ground arith

  revoke_claim-supports :
      (r : ClaimRevocation) → revoke_claim as_of q s r ≡ ok t → t.view.supports ≡ s.view.supports
  unfolding revoke_claim
  revoke_claim-supports r h = ground arith

module _ (event_seal : MemoryEvent → Seal) (as_of : Timestamp) where
  apply_kind-Supported :
      (q : Bool) (k : MemoryEventKind) (s t : Replayed) (e : MemoryEvent)
      → event_is_coherent e ≡ true
      → apply_kind event_seal as_of q k s e ≡ ok t
      → Supported s.view.supports
      → Supported t.view.supports
  unfolding apply_kind
  apply_kind-Supported q fact s t e v h k =
      let (f, ef, hf) = >>=-eq-ok (asserted e.fact) _ h in
      rw (record_fact-supports as_of q s t f hf) k
  apply_kind-Supported q fact_revocation s t e v h k =
      let (r, er, hr) = >>=-eq-ok (asserted e.fact_revocation) _ h in
      rw (revoke_fact-supports as_of q s t r hr) k
  apply_kind-Supported q claim s t e v h k =
      let (c, ec, hc) = >>=-eq-ok (asserted e.claim) _ h in
      record_claim-Supported as_of q s t c (event_seal e) (event-claim e c v ec) hc k
  apply_kind-Supported q claim_revocation s t e v h k =
      let (r, er, hr) = >>=-eq-ok (asserted e.claim_revocation) _ h in
      rw (revoke_claim-supports as_of q s t r hr) k
  apply_kind-Supported q support_revision s t e v h k =
      let (r, er, hr) = >>=-eq-ok (asserted e.support_revision) _ h in
      revise_supports-Supported as_of q s t r (event_seal e) (event-revision e r v er) hr k

  replay_event-Supported :
      (b : LabBinding) (n : ℕ) (s t : Replayed) (e : MemoryEvent)
      → event_is_coherent e ≡ true
      → replay_event event_seal as_of b n s e ≡ ok t
      → Supported s.view.supports
      → Supported t.view.supports
  unfolding replay_event
  replay_event-Supported b n s t e v h k = ground (
    arith,
    apply_kind-Supported (leb e.recorded_at as_of) e.kind
        (record s { previous_recorded_at = some e.recorded_at }) t e,
  )

  loaded_event : (e x : MemoryEvent) → load_memory_event e ≡ ok x → event_is_coherent e ≡ true
  unfolding load_memory_event
  loaded_event e x h = ground arith

  pub replay_events-Supported :
      (b : LabBinding) (n : ℕ) (s t : Replayed) (es xs : List MemoryEvent)
      → load_events es ≡ ok xs
      → replay_events event_seal as_of b n s es ≡ ok t
      → Supported s.view.supports
      → Supported t.view.supports
  unfolding replay_events load_events
  replay_events-Supported b n s t [] xs l h k = ground arith
  replay_events-Supported b n s t (e ∷ es) xs l h k =
      let (y, ey, hy) = >>=-eq-ok (load_memory_event e) _ l in
      let (ys, eys, hys) = >>=-eq-ok (load_events es) _ hy in
      let (u, eu, hu) = >>=-eq-ok (replay_event event_seal as_of b n s e) _ h in
      replay_events-Supported b (n + 1) u t es ys eys hu
        (replay_event-Supported b n s u e (loaded_event e y ey) eu k)
