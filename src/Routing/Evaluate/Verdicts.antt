-- ===== src/Routing/Evaluate/Verdicts.antt =====
-- When the chain of `evaluate_route` advises, escalates and abstains.
use latent_compass.Prelude.{
  ℕ, ◌≤◌, ◌≡◌, refl, ◌↔◌, ◌⊎◌, inl, inr, true, false, not, Option, none, some, List, [], ◌∷◌, arith,
  Listed, find-Listed, all-Listed, find,
}
use latent_compass.Contracts.{Timestamp, AgentFamily, same_family}
use latent_compass.Routing.Request.{
  RouteRequest, CapabilityKind, same_kind, CapabilityObservation, HostCapabilitySnapshot, offers,
  distinct_keys, find_capability,
}
use latent_compass.Routing.Decision.{advice, escalate}
use latent_compass.Routing.Evaluate.Chain.{choose, choose_matching, choose_candidate}

pub same_family_iff : (f g : AgentFamily) → (same_family f g ≡ true) ↔ (f ≡ g)
unfolding same_family
same_family_iff f g = ground arith

pub same_kind_iff : (k l : CapabilityKind) → (same_kind k l ≡ true) ↔ (k ≡ l)
unfolding same_kind
same_kind_iff k l = ground arith

-- Everything that an `ADVICE` needs of the request, the snapshot and the clock, but for the
-- capability.
pub record Prerequisites (r : RouteRequest) (s : HostCapabilitySnapshot) (now : Timestamp)
    : Type 0 where
  pub kill_switch_off : r.kill_switch_engaged ≡ false
  pub advisor : r.advisor_present ≡ true
  pub authority : r.explicit_missing_authority ≡ false
  pub precondition : r.explicit_missing_precondition ≡ false
  pub review : r.review_required ≡ true → r.review_satisfied ≡ true
  pub proof : r.semctx_proof_required ≡ true → r.semctx_proof_satisfied ≡ true
  pub host : r.host_id ≡ s.host_id
  pub family : r.agent_family ≡ s.agent_family
  pub scope : r.scope ≡ s.scope
  pub source : r.source_digest ≡ s.current_source_digest
  pub taken : s.snapshot_taken_at ≤ now
  pub requested : r.requested_at ≤ now
  pub current : now ≤ r.expiry
  pub affordable : r.cost_ceiling ≤ r.remaining_budget

-- The capability that the request names, observed and not expired.
pub record Available (r : RouteRequest) (now : Timestamp) (c : CapabilityObservation) : Type 0 where
  pub id : c.capability_id ≡ r.candidate_capability_id
  pub kind : c.kind ≡ r.candidate_kind
  pub observed : c.observed_at ≤ now
  pub unexpired : now ≤ c.expires_at

module _ (r : RouteRequest) (s : HostCapabilitySnapshot) (now : Timestamp) where
  candidate-advice :
      (c? : Option CapabilityObservation)
      → (choose_candidate r now c?).verdict ≡ advice
      → ((c : CapabilityObservation) × (c? ≡ some c)
          × (c.observed_at ≤ now)
          × (now ≤ c.expires_at)
          × (r.cost_ceiling ≤ r.remaining_budget))
  unfolding choose_candidate
  candidate-advice none h = ground arith
  candidate-advice (some c) h = (c, refl, ground arith, ground arith, ground arith)

  matching-advice :
      (choose_matching r s now).verdict ≡ advice
      → (r.host_id ≡ s.host_id)
        × (r.agent_family ≡ s.agent_family)
        × (r.scope ≡ s.scope)
        × (r.source_digest ≡ s.current_source_digest)
        × (s.snapshot_taken_at ≤ now)
        × (r.requested_at ≤ now)
        × (now ≤ r.expiry)
        × ((choose_candidate r now
              (find_capability s r.candidate_capability_id r.candidate_kind)).verdict
            ≡ advice)
  unfolding choose_matching
  matching-advice h = ground (arith, same_family_iff r.agent_family s.agent_family)

  chain-advice :
      (choose r s now).verdict ≡ advice
      → (r.kill_switch_engaged ≡ false)
        × (r.advisor_present ≡ true)
        × (r.explicit_missing_authority ≡ false)
        × (r.explicit_missing_precondition ≡ false)
        × (r.review_required ≡ true → r.review_satisfied ≡ true)
        × (r.semctx_proof_required ≡ true → r.semctx_proof_satisfied ≡ true)
        × ((choose_matching r s now).verdict ≡ advice)
  unfolding choose
  chain-advice h = ground arith

  pub choose-advice :
      (choose r s now).verdict ≡ advice
      → Prerequisites r s now
        × ((c : CapabilityObservation) × Listed c s.observed_capabilities × Available r now c)
  unfolding find_capability
  choose-advice h =
      let chain = chain-advice h in
      let matching = matching-advice chain.6 in
      let (c, found, observed, unexpired, affordable) =
        candidate-advice (find_capability s r.candidate_capability_id r.candidate_kind)
          matching.7 in
      let (listed, passes) =
        find-Listed (offers r.candidate_capability_id r.candidate_kind) s.observed_capabilities c
          found in
      (ground arith, (c, listed, ground (arith, same_kind_iff c.kind r.candidate_kind)))

-- In a list without a repeated key, a listed item is the one that `find` returns for its key.
pub find-distinct :
    (i : ℕ) (k : CapabilityKind) (cs : List CapabilityObservation) (c : CapabilityObservation)
    → distinct_keys cs ≡ true
    → Listed c cs
    → offers i k c ≡ true
    → find (offers i k) cs ≡ some c
find-distinct i k [] c d m h = absurd m
find-distinct i k (x ∷ cs) c d (inl e) h = rw e (ground arith)
find-distinct i k (x ∷ cs) c d (inr m) h = ground (
  arith,
  find-distinct i k cs c,
  all-Listed (λ y. not (offers x.capability_id x.kind y)) cs c,
  same_kind_iff x.kind k,
  same_kind_iff c.kind k,
  same_kind_iff c.kind x.kind,
)

module _ (r : RouteRequest) (s : HostCapabilitySnapshot) (now : Timestamp) where
  pub advice-choose :
      distinct_keys s.observed_capabilities ≡ true
      → Prerequisites r s now
      → (c : CapabilityObservation) → Listed c s.observed_capabilities
      → Available r now c
      → (choose r s now).verdict ≡ advice
  unfolding choose choose_candidate
  advice-choose distinct p c m a =
      let found : find_capability s r.candidate_capability_id r.candidate_kind ≡ some c =
        unfold find_capability in
        find-distinct r.candidate_capability_id r.candidate_kind s.observed_capabilities c distinct
          m (ground (arith, same_kind_iff c.kind r.candidate_kind)) in
      ground (arith, same_family_iff r.agent_family s.agent_family)

  pub escalate_iff : ((choose r s now).verdict ≡ escalate) ↔ (
      (r.kill_switch_engaged ≡ false)
      × (r.advisor_present ≡ true)
      × ((r.explicit_missing_authority ≡ true)
          ⊎ (r.explicit_missing_precondition ≡ true)
          ⊎ ((r.review_required ≡ true) × (r.review_satisfied ≡ false))
          ⊎ ((r.semctx_proof_required ≡ true) × (r.semctx_proof_satisfied ≡ false))))
  unfolding choose choose_candidate
  escalate_iff = ground arith
