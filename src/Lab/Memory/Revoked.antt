-- ===== src/Lab/Memory/Revoked.antt =====
-- What is revoked is neither active nor inactive.
use latent_compass.Prelude.{
  ◌≡◌, true, false, not, ◌&&◌, some, Bool, List, [], ◌∷◌, arith, ok, contains, keep, ==_iff, suc,
  length, Option-cases, inl, inr,
}
use latent_compass.Contracts.{Identifier, Seal, Timestamp}
use latent_compass.Lab.Dict.{Dict, keys}
use latent_compass.Lab.Memory.{MemoryEvent}
use latent_compass.Lab.Memory.Replay.{AsOf}
use latent_compass.Lab.Memory.Applicability.{
  MemoryApplicability, eligible_facts, eligible_claims, unexpired, sweep_until, result_for,
  applicability, compute_applicability,
}
use latent_compass.Lab.Memory.Loading.{compute_applicability-Computed}
use latent_compass.Lab.Memory.Grounding.{contains-keep}

-- Dropping entries from a dict drops what their test forbids.
keys-keep :
    {V : Type 0} (p : Identifier × V → Bool) (revoked : List Identifier) (d : Dict V)
    (i : Identifier)
    → contains i revoked ≡ true
    → contains i (keys (keep (λ e. not (contains e.0 revoked) && p e) d)) ≡ false
keys-keep p revoked [] i h = ground arith
keys-keep p revoked (e ∷ d) i h = ground (arith, keys-keep p revoked d i, ==_iff i e.0)

applicability-result :
    (as_of : Timestamp) (v : AsOf) (a : MemoryApplicability)
    → some a ≡ applicability as_of v
    → (g : List Identifier) × (a ≡ result_for as_of v g)
unfolding applicability
applicability-result as_of v a h =
    let claims = eligible_claims as_of v in
    elim (Option-cases
      (sweep_until v.supports (suc (length claims)) claims (eligible_facts as_of v))) [
        | inl e ↦ ground arith
        | inr (g, e) ↦ (g, ground arith)
      ]

module _ (as_of : Timestamp) (v : AsOf) (i : Identifier) where
  revoked_fact : contains i v.facts_revoked ≡ true → contains i (eligible_facts as_of v) ≡ false
  unfolding eligible_facts
  revoked_fact h = keys-keep (λ e. unexpired as_of e.1.expires_at) v.facts_revoked v.facts i h

  revoked_claim : contains i v.claims_revoked ≡ true → contains i (eligible_claims as_of v) ≡ false
  unfolding eligible_claims
  revoked_claim h = keys-keep (λ e. unexpired as_of e.1.expires_at) v.claims_revoked v.claims i h

  result_for-revoked_fact :
      (g : List Identifier)
      → contains i (result_for as_of v g).revoked_fact_ids ≡ true
      → contains i (result_for as_of v g).active_fact_ids ≡ false
  unfolding result_for
  result_for-revoked_fact g h =
      ground (arith, revoked_fact, contains-keep (λ j. contains j (keys v.facts)) v.facts_revoked i)

  result_for-revoked_claim :
      (g : List Identifier)
      → contains i (result_for as_of v g).revoked_claim_ids ≡ true
      → (contains i (result_for as_of v g).active_claim_ids ≡ false)
        × (contains i (result_for as_of v g).inactive_claim_ids ≡ false)
  unfolding result_for
  result_for-revoked_claim g h = ground (
    arith,
    revoked_claim,
    contains-keep (λ j. contains j (keys v.claims)) v.claims_revoked i,
    contains-keep (λ c. contains c g) (eligible_claims as_of v) i,
    contains-keep (λ c. not (contains c g)) (eligible_claims as_of v) i,
  )

module _ (event_seal : MemoryEvent → Seal) where
  -- In what a call on a non-empty history returns, a revoked fact is not active, and a revoked claim
  -- is neither active nor inactive.
  pub compute_applicability-revoked :
      (e : MemoryEvent) (es : List MemoryEvent) (as_of : Timestamp) (a : MemoryApplicability)
      → compute_applicability event_seal (e ∷ es) as_of ≡ ok (some a)
      → ((i : Identifier)
          → contains i a.revoked_fact_ids ≡ true
          → contains i a.active_fact_ids ≡ false)
        × ((i : Identifier)
            → contains i a.revoked_claim_ids ≡ true
            → (contains i a.active_claim_ids ≡ false) × (contains i a.inactive_claim_ids ≡ false))
  compute_applicability-revoked e es as_of a h =
      let c = compute_applicability-Computed event_seal e es as_of (some a) h in
      let (g, same) = applicability-result as_of c.s.view a c.result in
      rw same (
        λ i. result_for-revoked_fact as_of c.s.view i g,
        λ i. result_for-revoked_claim as_of c.s.view i g,
      )
