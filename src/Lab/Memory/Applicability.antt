-- ===== src/Lab/Memory/Applicability.antt =====
-- src/latent_compass/lab/memory.py: `compute_applicability`. The source goes through the eligible
-- claims in the arbitrary order of a frozenset, here in that of their assertion.
use latent_compass.Prelude.{
  ℕ, suc, zero, Bool, true, false, not, ◌&&◌, ◌||◌, Option, none, some, List, [], ◌∷◌, Result, ok,
  ◌>>=◌, ◌>>◌, raise_if, ltb, contains, all, any, keep, length, if◌then◌else◌,
}
use latent_compass.Contracts.{
  Identifier, Seal, Timestamp, Exception, lab_memory_violation, too_many_events, unknown_premise,
}
use latent_compass.Lab.Dict.{Dict, keys, lookup}
use latent_compass.Lab.Memory.{SupportConjunction, MemoryEvent, max_memory_events}
use latent_compass.Lab.Memory.Replay.{AsOf, Replayed, at_start, replay_events, load_events}

pub record MemoryApplicability : Type 0 where
  pub active_fact_ids : List Identifier
  pub active_claim_ids : List Identifier
  pub revoked_fact_ids : List Identifier
  pub revoked_claim_ids : List Identifier
  pub inactive_claim_ids : List Identifier

-- The instant is before the expiry.
abbrev pub unexpired : Timestamp → Option Timestamp → Bool
unexpired as_of none = true
unexpired as_of (some e) = ltb as_of e

-- The facts and claims that are neither revoked nor expired.
unfoldable pub eligible_facts : Timestamp → AsOf → List Identifier
eligible_facts as_of v =
    keys (keep (λ e. not (contains e.0 v.facts_revoked) && unexpired as_of e.1.expires_at) v.facts)

unfoldable pub eligible_claims : Timestamp → AsOf → List Identifier
eligible_claims as_of v =
    keys
      (keep (λ e. not (contains e.0 v.claims_revoked) && unexpired as_of e.1.expires_at) v.claims)

abbrev pub supports_of : Dict (List SupportConjunction) → Identifier → List SupportConjunction
supports_of d c = elim (lookup c d) [ none ↦ [] | some ss ↦ ss ]

-- Some conjunction of the claim has each of its premises among the grounded ids.
abbrev pub is_supported : Dict (List SupportConjunction) → List Identifier → Identifier → Bool
is_supported d grounded c =
    any (λ s. all (λ p. contains p grounded) s.premise_ids) (supports_of d c)

module _ (d : Dict (List SupportConjunction)) where
  -- The `for` inside the `while`: `grounded` grows as it goes, and `changed` says whether it did.
  unfoldable pub sweep : List Identifier → List Identifier → Bool → List Identifier × Bool
  sweep [] grounded changed = (grounded, changed)
  sweep (c ∷ cs) grounded changed =
      let new = not (contains c grounded) && is_supported d grounded c in
      sweep cs (if new then c ∷ grounded else grounded) (new || changed)

  -- `while changed`, for as many rounds as the fuel allows.
  unfoldable pub sweep_until : ℕ → List Identifier → List Identifier → Option (List Identifier)
  unfolding sweep
  sweep_until zero cs grounded = none
  sweep_until (suc fuel) cs grounded =
      let swept = sweep cs grounded false in
      let rest = sweep_until fuel cs swept.0 in if swept.1 then rest else some swept.0

-- The result for a view and its grounded ids.
unfoldable pub result_for : Timestamp → AsOf → List Identifier → MemoryApplicability
unfolding eligible_facts eligible_claims
result_for as_of v grounded = record {
  active_fact_ids = eligible_facts as_of v;
  active_claim_ids = keep (λ c. contains c grounded) (eligible_claims as_of v);
  revoked_fact_ids = keep (λ i. contains i (keys v.facts)) v.facts_revoked;
  revoked_claim_ids = keep (λ i. contains i (keys v.claims)) v.claims_revoked;
  inactive_claim_ids = keep (λ c. not (contains c grounded)) (eligible_claims as_of v);
}

-- The fuel is one round more than there are eligible claims.
unfoldable pub applicability : Timestamp → AsOf → Option MemoryApplicability
unfolding eligible_facts eligible_claims sweep_until result_for
applicability as_of v =
    let facts = eligible_facts as_of v in
    let claims = eligible_claims as_of v in
    elim (sweep_until v.supports (suc (length claims)) claims facts) [
      | none ↦ none
      | some grounded ↦ some (result_for as_of v grounded)
    ]

-- Each premise that a claim has ever named is a fact or a claim.
unfoldable pub premises_are_known : Replayed → Bool
premises_are_known s =
    all
      (λ e.
        all
          (λ c.
            all (λ p. contains p s.fact_ids || contains p s.claim_ids)
              (SupportConjunction.premise_ids c))
          e.1)
      s.support_history

abbrev nothing_applies : MemoryApplicability
nothing_applies = record {
  active_fact_ids = [];
  active_claim_ids = [];
  revoked_fact_ids = [];
  revoked_claim_ids = [];
  inactive_claim_ids = [];
}

module _ (event_seal : MemoryEvent → Seal) where
  -- The replay of a loaded history from its first event on.
  unfoldable pub replay_history : Timestamp → List MemoryEvent → Result Exception Replayed
  unfolding replay_events
  replay_history as_of [] = ok at_start
  replay_history as_of (e ∷ es) = replay_events event_seal as_of e.binding 0 at_start (e ∷ es)

  -- None stands for a `while` that has not ended, and does not occur.
  unfoldable pub compute_applicability :
      List MemoryEvent → Timestamp → Result Exception (Option MemoryApplicability)
  unfolding load_events replay_history premises_are_known applicability
  compute_applicability [] as_of = ok (some nothing_applies)
  compute_applicability (e ∷ es) as_of = do
    raise_if (ltb max_memory_events (length (e ∷ es))) (lab_memory_violation too_many_events)
    loaded ← load_events (e ∷ es)
    s ← replay_history as_of loaded
    raise_if (not (premises_are_known s)) (lab_memory_violation unknown_premise)
    ok (applicability as_of s.view)
