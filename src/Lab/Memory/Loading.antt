-- ===== src/Lab/Memory/Loading.antt =====
-- `compute_applicability` taken apart: what its tests have established when it returns.
use latent_compass.Prelude.{
  ◌≡◌, refl, sym, ap, ◌∙◌, true, not, Option, List, [], ◌∷◌, arith, ok, ◌>>=◌, ◌>>◌, raise_if, ltb,
  length, >>=-eq-ok,
}
use latent_compass.Contracts.{
  Seal, Timestamp, lab_memory_violation, too_many_events, unknown_premise,
}
use latent_compass.Lab.Memory.{MemoryEvent, max_memory_events, load_memory_event}
use latent_compass.Lab.Memory.Replay.{Replayed, load_events}
use latent_compass.Lab.Memory.Applicability.{
  MemoryApplicability, premises_are_known, applicability, replay_history, compute_applicability,
}

load_memory_event-eq : (e x : MemoryEvent) → load_memory_event e ≡ ok x → x ≡ e
unfolding load_memory_event
load_memory_event-eq e x h = ground arith

pub load_events-eq : (es xs : List MemoryEvent) → load_events es ≡ ok xs → xs ≡ es
unfolding load_events
load_events-eq [] xs h = ground arith
load_events-eq (e ∷ es) xs h =
    let (y, ey, hy) = >>=-eq-ok (load_memory_event e) _ h in
    let (ys, eys, hys) = >>=-eq-ok (load_events es) _ hy in
    cc (load_memory_event-eq e y ey, load_events-eq es ys eys, hys)

module _ (event_seal : MemoryEvent → Seal) (e : MemoryEvent) (es : List MemoryEvent)
    (as_of : Timestamp) where
  compute_applicability_lem : compute_applicability event_seal (e ∷ es) as_of ≡ (
      raise_if (ltb max_memory_events (length (e ∷ es))) (lab_memory_violation too_many_events)
      >> (load_events (e ∷ es) >>= λ loaded. replay_history event_seal as_of loaded >>= λ s.
          raise_if (not (premises_are_known s)) (lab_memory_violation unknown_premise)
          >> ok (applicability as_of s.view)))
  unfolding compute_applicability
  compute_applicability_lem = refl

  -- What a call that returns has gone through.
  pub record Computed (o : Option MemoryApplicability) : Type 0 where
    pub s : Replayed
    pub loads : load_events (e ∷ es) ≡ ok (e ∷ es)
    pub replays : replay_history event_seal as_of (e ∷ es) ≡ ok s
    pub known : premises_are_known s ≡ true
    pub result : o ≡ applicability as_of s.view

  pub compute_applicability-Computed :
      (o : Option MemoryApplicability)
      → compute_applicability event_seal (e ∷ es) as_of ≡ ok o
      → Computed o
  compute_applicability-Computed o h =
      let (u, eu, hu) =
        >>=-eq-ok
          (raise_if (ltb max_memory_events (length (e ∷ es)))
            (lab_memory_violation too_many_events))
          (λ _. load_events (e ∷ es) >>= λ loaded. replay_history event_seal as_of loaded >>= λ s.
            raise_if (not (premises_are_known s)) (lab_memory_violation unknown_premise)
            >> ok (applicability as_of s.view))
          (sym compute_applicability_lem ∙ h) in
      let (xs, exs, hxs) = >>=-eq-ok (load_events (e ∷ es)) _ hu in
      let same = load_events-eq (e ∷ es) xs exs in
      let (t, et, ht) = >>=-eq-ok (replay_history event_seal as_of xs) _ hxs in
      record {
        s = t;
        loads = exs ∙ ap ok same;
        replays = ap (replay_history event_seal as_of) (sym same) ∙ et;
        known = ground arith;
        result = ground arith;
      }
