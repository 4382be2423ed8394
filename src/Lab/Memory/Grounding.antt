-- ===== src/Lab/Memory/Grounding.antt =====
-- The active claims of `compute_applicability` are the grounded ones: the least set that holds the
-- eligible facts and each eligible claim with a support whose premises it holds.
use latent_compass.Prelude.{
  ℕ, zero, suc, ◌==◌, ◌≡◌, refl, ◌∙◌, ◌↔◌, Bool, true, false, not, ◌&&◌, Option, some, List, [],
  ◌∷◌, arith, ok, contains, all, any, keep, length, Listed, inl, inr, Bool-cases, ==_iff,
}
use mathlib.Core.Path.{subst}
use latent_compass.Contracts.{Identifier, Seal, Timestamp}
use latent_compass.Lab.Dict.{Dict}
use latent_compass.Lab.Memory.{SupportConjunction, MemoryEvent}
use latent_compass.Lab.Memory.Replay.{AsOf, Replayed}
use latent_compass.Lab.Memory.Applicability.{
  MemoryApplicability, eligible_facts, eligible_claims, supports_of, is_supported, sweep,
  sweep_until, result_for, applicability, replay_history, compute_applicability,
}
use latent_compass.Lab.Memory.Loading.{compute_applicability-Computed}
use latent_compass.Lab.Memory.Sweep.{
  missing-length, Within, is_new, Closed, sweep_until_ends, sweep_until-Closed, sweep_new,
  sweep_old,
}

-- Some derivation from the facts reaches the id, each claim by one of its supports.
pub data Grounded (facts claims : List Identifier) (d : Dict (List SupportConjunction))
    : Identifier → Type 0 where
  as_fact : {i : Identifier} → contains i facts ≡ true → Grounded facts claims d i
  by_support :
      {i : Identifier}
      → contains i claims ≡ true
      → (s : SupportConjunction) → Listed s (supports_of d i)
      → ((p : Identifier) → contains p s.premise_ids ≡ true → Grounded facts claims d p)
      → Grounded facts claims d i

all-contains :
    (p : Identifier → Bool) (xs : List Identifier) (x : Identifier)
    → all p xs ≡ true
    → contains x xs ≡ true
    → p x ≡ true
all-contains p [] x h m = cc
all-contains p (y ∷ ys) x h m = ground (arith, all-contains p ys x, ==_iff x y)

contains-all :
    (p : Identifier → Bool) (xs : List Identifier)
    → ((x : Identifier) → contains x xs ≡ true → p x ≡ true)
    → all p xs ≡ true
contains-all p [] h = refl
contains-all p (y ∷ ys) h = ground (arith, h y, contains-all p ys (λ x m. h x (ground (arith, m))))

any-Listed :
    {A : Type 0} (p : A → Bool) (xs : List A)
    → any p xs ≡ true
    → (x : A) × Listed x xs × (p x ≡ true)
any-Listed p [] h = cc
any-Listed p (y ∷ ys) h = elim (Bool-cases (p y)) [
  | inl e ↦ (y, inl refl, e)
  | inr e ↦ let (x, m, k) = any-Listed p ys (ground arith) in (x, inr m, k)
]

any_intro :
    {A : Type 0} (p : A → Bool) (xs : List A) (x : A) → Listed x xs → p x ≡ true → any p xs ≡ true
any_intro p [] x m h = absurd m
any_intro p (y ∷ ys) x m h = ground (arith, any_intro p ys x)

pub contains-keep :
    (p : Identifier → Bool) (xs : List Identifier) (x : Identifier)
    → contains x (keep p xs) ≡ (contains x xs && p x)
contains-keep p [] x = refl
contains-keep p (y ∷ ys) x = ground (arith, contains-keep p ys x, ==_iff x y)

module _ (facts claims : List Identifier) (d : Dict (List SupportConjunction)) where
  abbrev AllGrounded : List Identifier → Type 0
  AllGrounded g = (i : Identifier) → contains i g ≡ true → Grounded facts claims d i

  -- A new claim is grounded by its supported conjunction.
  new-Grounded :
      (c : Identifier) (g : List Identifier)
      → contains c claims ≡ true
      → is_supported d g c ≡ true
      → AllGrounded g
      → Grounded facts claims d c
  new-Grounded c g m h a =
      let (s, listed, premises) = any-Listed _ (supports_of d c) h in
      by_support m s listed
        (λ p q. a p (all-contains (λ p. contains p g) s.premise_ids p premises q))

  longer-Grounded :
      (c : Identifier) (g : List Identifier)
      → Grounded facts claims d c
      → AllGrounded g
      → AllGrounded (c ∷ g)
  longer-Grounded c g h a i m = elim (Bool-cases (i == c)) [
    | inl e ↦ subst (Grounded facts claims d) (ground (arith, ==_iff i c)) h
    | inr e ↦ a i (ground arith)
  ]

  sweep-Grounded :
      (cs g : List Identifier) (ch : Bool)
      → Within cs claims
      → AllGrounded g
      → AllGrounded (sweep d cs g ch).0
  unfolding sweep
  sweep-Grounded [] g ch w a = a
  sweep-Grounded (c ∷ cs) g ch w a = elim (Bool-cases (is_new d g c)) [
    | inl e ↦ rw (sweep_new d c cs g ch e) (
        sweep-Grounded cs (c ∷ g) true (λ i m. w i (ground arith))
          (longer-Grounded c g (new-Grounded c g (w c (ground arith)) (ground arith) a) a))
    | inr e ↦ rw (sweep_old d c cs g ch e) (sweep-Grounded cs g ch (λ i m. w i (ground arith)) a)
  ]

  sweep_until-Grounded :
      (fuel : ℕ) (g r : List Identifier)
      → AllGrounded g
      → sweep_until d fuel claims g ≡ some r
      → AllGrounded r
  unfolding sweep_until
  sweep_until-Grounded zero g r a h = cc
  sweep_until-Grounded (suc fuel) g r a h =
      let swept = sweep-Grounded claims g false (λ i m. m) a in
      elim (Bool-cases (sweep d claims g false).1) [
        | inl e ↦ sweep_until-Grounded fuel (sweep d claims g false).0 r swept (ground arith)
        | inr e ↦ let ends : r ≡ (sweep d claims g false).0 = ground arith in rw ends swept
      ]

  -- A closed set that holds the facts holds all that is grounded.
  Grounded-contains :
      (r : List Identifier)
      → Within facts r
      → Closed d claims r
      → (i : Identifier) → Grounded facts claims d i
      → contains i r ≡ true
  Grounded-contains r w closed i (as_fact m) = w i m
  Grounded-contains r w closed i (by_support m s listed premises) =
      let held : all (λ p. contains p r) s.premise_ids ≡ true =
        contains-all (λ p. contains p r) s.premise_ids
          (λ p q. Grounded-contains r w closed p (premises p q)) in
      let supported : is_supported d r i ≡ true =
        any_intro (λ (t : SupportConjunction). all (λ p. contains p r) t.premise_ids)
          (supports_of d i) s listed held in
      let old = all-contains (λ c. not (is_new d r c)) claims i closed m in ground arith

-- What grounds an id in a view.
abbrev pub GroundedIn : Timestamp → AsOf → Identifier → Type 0
GroundedIn as_of v i = Grounded (eligible_facts as_of v) (eligible_claims as_of v) v.supports i

-- The active ids are those of the view.
abbrev pub Describes : Timestamp → AsOf → MemoryApplicability → Type 0
Describes as_of v a =
    (a.active_fact_ids ≡ eligible_facts as_of v)
    × ((i : Identifier)
        → (contains i a.active_claim_ids ≡ true)
          ↔ ((contains i (eligible_claims as_of v) ≡ true) × GroundedIn as_of v i))
    × ((i : Identifier)
        → (contains i a.inactive_claim_ids ≡ true)
          ↔ ((contains i (eligible_claims as_of v) ≡ true) × (GroundedIn as_of v i → ⊥)))

applicability-Describes :
    (as_of : Timestamp) (v : AsOf)
    → (a : MemoryApplicability) × (applicability as_of v ≡ some a) × Describes as_of v a
unfolding applicability result_for
applicability-Describes as_of v =
    let facts = eligible_facts as_of v in
    let claims = eligible_claims as_of v in
    let (r, ends) =
      sweep_until_ends v.supports (suc (length claims)) claims facts
        (omega (arith, missing-length facts claims)) in
    let (w, closed) = sweep_until-Closed v.supports (suc (length claims)) claims facts r ends in
    let sound =
      sweep_until-Grounded facts claims v.supports (suc (length claims)) facts r (λ i m. as_fact m)
        ends in
    let complete = Grounded-contains facts claims v.supports r w closed in
    let active = contains-keep (λ c. contains c r) claims in
    let inactive = contains-keep (λ c. not (contains c r)) claims in
    (
      result_for as_of v r,
      rw (ends, applicability) refl,
      (
        refl,
        λ i. (
          λ m. (ground (arith, active i), sound i (ground (arith, active i))),
          λ (m, g). ground (arith, active i, complete i g),
        ),
        λ i. (
          λ m. (ground (arith, inactive i), λ g. ground (arith, inactive i, complete i g)),
          λ (m, n). elim (Bool-cases (contains i r)) [
            | inl e ↦ absurd (n (sound i e))
            | inr e ↦ ground (arith, inactive i)
          ],
        ),
      ),
    )

module _ (event_seal : MemoryEvent → Seal) where
  -- A call on a non-empty history that does not raise ends its `while` and returns an
  -- applicability. Of the view that the replay of the loaded events leads to, the eligible facts are
  -- active, an eligible claim is active exactly when it is grounded, and inactive exactly when it is
  -- not.
  pub compute_applicability-Grounded :
      (e : MemoryEvent) (es : List MemoryEvent) (as_of : Timestamp) (o : Option MemoryApplicability)
      → compute_applicability event_seal (e ∷ es) as_of ≡ ok o
      → (a : MemoryApplicability) × (o ≡ some a)
        × ((s : Replayed) × (replay_history event_seal as_of (e ∷ es) ≡ ok s)
            × Describes as_of s.view a)
  compute_applicability-Grounded e es as_of o h =
      let c = compute_applicability-Computed event_seal e es as_of o h in
      let (a, found, described) = applicability-Describes as_of c.s.view in
      (a, c.result ∙ found, (c.s, c.replays, described))
