-- ===== src/Lab/Memory/Premises.antt =====
-- No claim is active without an active fact: a cycle of claims does not ground itself.
use latent_compass.Prelude.{
  ◌≡◌, refl, ap, ◌∙◌, true, some, List, [], ◌∷◌, arith, ok, all, all-Listed, contains, leb, inl,
  inr, Listed, Bool-cases, ◌==◌, length,
}
use mathlib.Core.Path.{subst}
use latent_compass.Contracts.{Identifier, Seal, Timestamp}
use latent_compass.Lab.Dict.{Dict}
use latent_compass.Lab.Memory.{SupportConjunction, MemoryEvent, conjunction_is_coherent}
use latent_compass.Lab.Memory.Replay.{at_start}
use latent_compass.Lab.Memory.Applicability.{
  MemoryApplicability, eligible_facts, eligible_claims, supports_of, replay_history,
  compute_applicability,
}
use latent_compass.Lab.Memory.Loading.{compute_applicability-Computed}
use latent_compass.Lab.Memory.Grounding.{Grounded, compute_applicability-Grounded}
use latent_compass.Lab.Memory.Supported.{Supported, replay_events-Supported}

supports_of-all :
    (d : Dict (List SupportConjunction)) (i : Identifier)
    → Supported d
    → all conjunction_is_coherent (supports_of d i) ≡ true
supports_of-all [] i h = refl
supports_of-all (x ∷ d) i h = elim (Bool-cases (i == x.0)) [
  | inl e ↦
      let here : supports_of (x ∷ d) i ≡ x.1 = ground arith in
      let coherent : all conjunction_is_coherent x.1 ≡ true = ground arith in
      ap (all conjunction_is_coherent) here ∙ coherent
  | inr e ↦
      let later : supports_of (x ∷ d) i ≡ supports_of d i = ground arith in
      ap (all conjunction_is_coherent) later ∙ supports_of-all d i (ground arith)
]

supports_of-coherent :
    (d : Dict (List SupportConjunction)) (i : Identifier) (s : SupportConjunction)
    → Supported d
    → Listed s (supports_of d i)
    → conjunction_is_coherent s ≡ true
supports_of-coherent d i s h m =
    all-Listed conjunction_is_coherent (supports_of d i) s (supports_of-all d i h) m

first_listed :
    (xs : List Identifier) → leb 1 (length xs) ≡ true → (p : Identifier) × (contains p xs ≡ true)
first_listed [] h = absurd (ground (arith, h))
first_listed (x ∷ xs) h = (x, ground arith)

-- A coherent conjunction names a premise.
first_premise :
    (s : SupportConjunction)
    → conjunction_is_coherent s ≡ true
    → (p : Identifier) × (contains p s.premise_ids ≡ true)
first_premise s h = first_listed s.premise_ids (ground arith)

Grounded-fact :
    (claims : List Identifier) (d : Dict (List SupportConjunction))
    → Supported d
    → (i : Identifier) → Grounded [] claims d i
    → ⊥
Grounded-fact claims d h i (Grounded.as_fact m) = absurd (ground (arith, m))
Grounded-fact claims d h i (Grounded.by_support m s listed premises) =
    let (p, q) = first_premise s (supports_of-coherent d i s h listed) in
    Grounded-fact claims d h p (premises p q)

no_members : (xs : List Identifier) → ((i : Identifier) → contains i xs ≡ true → ⊥) → xs ≡ []
no_members [] h = refl
no_members (x ∷ xs) h = absurd (h x (ground arith))

module _ (event_seal : MemoryEvent → Seal) where
  -- In what a call on a non-empty history returns, no claim is active where no fact is.
  pub compute_applicability-facts :
      (e : MemoryEvent) (es : List MemoryEvent) (as_of : Timestamp) (a : MemoryApplicability)
      → compute_applicability event_seal (e ∷ es) as_of ≡ ok (some a)
      → a.active_fact_ids ≡ []
      → a.active_claim_ids ≡ []
  unfolding replay_history
  compute_applicability-facts e es as_of a h none_active =
      let c = compute_applicability-Computed event_seal e es as_of (some a) h in
      let (b, same, (s, replays, (facts, active, inactive))) =
        compute_applicability-Grounded event_seal e es as_of (some a) h in
      let supported =
        replay_events-Supported event_seal as_of e.binding 0 at_start s (e ∷ es) (e ∷ es) c.loads
          replays refl in
      let equal : a ≡ b = cc same in
      let empty : eligible_facts as_of s.view ≡ [] = cc (facts, equal, none_active) in
      rw equal (
        no_members b.active_claim_ids (λ i m.
          Grounded-fact (eligible_claims as_of s.view) s.view.supports supported i (
            subst (λ f. Grounded f (eligible_claims as_of s.view) s.view.supports i) empty
              ((active i).0 m).1)))
