-- ===== src/Lab/Memory/Replay.antt =====
-- src/latent_compass/lab/memory.py: the loop of `compute_applicability` over the events. The seal of
-- an event is a parameter.
use latent_compass.Prelude.{
  ℕ, ◌+◌, Bool, false, not, ◌&&◌, Option, none, some, List, [], ◌∷◌, ◌++◌, Result, ok, err, ◌>>=◌,
  ◌>>◌, raise_if, leb, ltb, ◌==◌, contains, length, if◌then◌else◌,
}
use latent_compass.Contracts.{
  Identifier, Seal, Timestamp, Exception, assertion_error, lab_memory_violation,
  event_binding_drifted, event_not_sequential, recorded_backwards, duplicate_fact, fact_names_claim,
  too_many_facts, unknown_fact, duplicate_claim, claim_names_fact, too_many_claims, unknown_claim,
  supports_superseded,
}
use latent_compass.Lab.Dict.{Dict, keys, lookup, put}
use latent_compass.Lab.State.Revision.{LabBinding, same_binding}
use latent_compass.Lab.Memory.{
  MemoryEventKind, fact, fact_revocation, claim, claim_revocation, support_revision, FactAssertion,
  FactRevocation, SupportConjunction, ClaimAssertion, ClaimRevocation, SupportRevision, MemoryEvent,
  max_memory_facts, max_memory_claims, load_memory_event,
}

-- What the events recorded and effective at the instant have said.
pub record AsOf : Type 0 where
  pub facts : Dict FactAssertion
  pub facts_revoked : List Identifier
  pub claims : Dict ClaimAssertion
  pub supports : Dict (List SupportConjunction)
  pub claims_revoked : List Identifier

-- The variables of the loop, with the ids of `facts` and of `claim_meta`, which is all that it
-- reads of them.
pub record Replayed : Type 0 where
  pub fact_ids : List Identifier
  pub claim_ids : List Identifier
  pub support_history : List (Identifier × List SupportConjunction)
  pub current_seals : Dict Seal
  pub previous_recorded_at : Option Timestamp
  pub view : AsOf

abbrev pub empty_view : AsOf
empty_view = record {
  facts = [];
  facts_revoked = [];
  claims = [];
  supports = [];
  claims_revoked = [];
}

abbrev pub at_start : Replayed
at_start = record {
  fact_ids = [];
  claim_ids = [];
  support_history = [];
  current_seals = [];
  previous_recorded_at = none;
  view = empty_view;
}

-- `s.add(i)`
abbrev pub add : Identifier → List Identifier → List Identifier
add i s = if contains i s then s else i ∷ s

abbrev is_seal : Seal → Option Seal → Bool
is_seal s none = false
is_seal s (some t) = t == s

abbrev before_previous : Timestamp → Option Timestamp → Bool
before_previous t none = false
before_previous t (some p) = ltb t p

-- Each branch is told whether the event was recorded at the instant of the view (`q`).
module _ (as_of : Timestamp) (q : Bool) where
  unfoldable pub record_fact : Replayed → FactAssertion → Result Exception Replayed
  record_fact s f = do
    raise_if (contains f.fact_id s.fact_ids) (lab_memory_violation duplicate_fact)
    raise_if (contains f.fact_id s.claim_ids) (lab_memory_violation fact_names_claim)
    raise_if (leb max_memory_facts (length s.fact_ids)) (lab_memory_violation too_many_facts)
    ok (record s {
      fact_ids = s.fact_ids ++ f.fact_id ∷ [];
      view =
          if q && leb f.asserted_at as_of
          then record s.view { facts = put f.fact_id f s.view.facts }
          else s.view;
    })

  unfoldable pub revoke_fact : Replayed → FactRevocation → Result Exception Replayed
  revoke_fact s r = do
    raise_if (not (contains r.fact_id s.fact_ids)) (lab_memory_violation unknown_fact)
    ok (record s {
      view =
          if q && leb r.revoked_at as_of
          then record s.view { facts_revoked = add r.fact_id s.view.facts_revoked }
          else s.view;
    })

  unfoldable pub record_claim : Replayed → ClaimAssertion → Seal → Result Exception Replayed
  record_claim s c event_seal = do
    raise_if (contains c.claim_id s.claim_ids) (lab_memory_violation duplicate_claim)
    raise_if (contains c.claim_id s.fact_ids) (lab_memory_violation claim_names_fact)
    raise_if (leb max_memory_claims (length s.claim_ids)) (lab_memory_violation too_many_claims)
    ok (record s {
      claim_ids = s.claim_ids ++ c.claim_id ∷ [];
      support_history = s.support_history ++ (c.claim_id, c.supports) ∷ [];
      current_seals = put c.claim_id event_seal s.current_seals;
      view =
          if q && leb c.asserted_at as_of
          then record s.view {
            claims = put c.claim_id c s.view.claims;
            supports = put c.claim_id c.supports s.view.supports;
          }
          else s.view;
    })

  unfoldable pub revoke_claim : Replayed → ClaimRevocation → Result Exception Replayed
  revoke_claim s r = do
    raise_if (not (contains r.claim_id s.claim_ids)) (lab_memory_violation unknown_claim)
    ok (record s {
      view =
          if q && leb r.revoked_at as_of
          then record s.view { claims_revoked = add r.claim_id s.view.claims_revoked }
          else s.view;
    })

  unfoldable pub revise_supports : Replayed → SupportRevision → Seal → Result Exception Replayed
  revise_supports s r event_seal = do
    raise_if (not (contains r.claim_id s.claim_ids)) (lab_memory_violation unknown_claim)
    raise_if (not (is_seal r.supersedes_seal (lookup r.claim_id s.current_seals)))
        (lab_memory_violation supports_superseded)
    ok (record s {
      support_history = s.support_history ++ (r.claim_id, r.supports) ∷ [];
      current_seals = put r.claim_id event_seal s.current_seals;
      view =
          if q && leb r.revised_at as_of && contains r.claim_id (keys s.view.claims)
          then record s.view { supports = put r.claim_id r.supports s.view.supports }
          else s.view;
    })

abbrev pub asserted {ℓ} : {A : Type ℓ} → Option A → Result Exception A
asserted none = err assertion_error
asserted (some a) = ok a

module _ (event_seal : MemoryEvent → Seal) (as_of : Timestamp) where
  -- The branches on the kind of an event.
  unfoldable pub apply_kind :
      Bool → MemoryEventKind → Replayed → MemoryEvent → Result Exception Replayed
  unfolding record_fact revoke_fact record_claim revoke_claim revise_supports
  apply_kind q fact s e = asserted e.fact >>= λ f. record_fact as_of q s f
  apply_kind q fact_revocation s e = asserted e.fact_revocation >>= λ r. revoke_fact as_of q s r
  apply_kind q claim s e = asserted e.claim >>= λ c. record_claim as_of q s c (event_seal e)
  apply_kind q claim_revocation s e = asserted e.claim_revocation >>= λ r. revoke_claim as_of q s r
  apply_kind q support_revision s e =
      asserted e.support_revision >>= λ r. revise_supports as_of q s r (event_seal e)

  -- One round of the loop.
  unfoldable pub replay_event : LabBinding → ℕ → Replayed → MemoryEvent → Result Exception Replayed
  unfolding same_binding apply_kind
  replay_event binding index s e = do
    raise_if (not (same_binding e.binding binding)) (lab_memory_violation event_binding_drifted)
    raise_if (not (e.sequence == index)) (lab_memory_violation event_not_sequential)
    raise_if (before_previous e.recorded_at s.previous_recorded_at)
        (lab_memory_violation recorded_backwards)
    apply_kind (leb e.recorded_at as_of) e.kind
        (record s { previous_recorded_at = some e.recorded_at }) e

  unfoldable pub replay_events :
      LabBinding → ℕ → Replayed → List MemoryEvent → Result Exception Replayed
  unfolding replay_event
  replay_events binding index s [] = ok s
  replay_events binding index s (e ∷ es) =
      replay_event binding index s e >>= λ t. replay_events binding (index + 1) t es

-- Every event is validated again before the loop.
unfoldable pub load_events : List MemoryEvent → Result Exception (List MemoryEvent)
unfolding load_memory_event
load_events [] = ok []
load_events (e ∷ es) = do x ← load_memory_event e; xs ← load_events es; ok (x ∷ xs)
