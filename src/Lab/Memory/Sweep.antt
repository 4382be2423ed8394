-- ===== src/Lab/Memory/Sweep.antt =====
-- The `while` of `compute_applicability`: what a round adds, and why the rounds end.
use latent_compass.Prelude.{
  ℕ, zero, suc, ◌≤◌, ◌<◌, ◌≡◌, refl, ◌⊎◌, inl, inr, Bool, true, false, not, ◌&&◌, ◌||◌, some, List,
  [], ◌∷◌, arith, contains, all, length, Bool-cases, if◌then◌else◌,
}
use latent_compass.Contracts.{Identifier}
use latent_compass.Lab.Dict.{Dict}
use latent_compass.Lab.Memory.{SupportConjunction}
use latent_compass.Lab.Memory.Applicability.{is_supported, sweep, sweep_until}

-- How many of the claims are not grounded.
pub missing : List Identifier → List Identifier → ℕ
missing grounded [] = 0
missing grounded (c ∷ cs) =
    let rest = missing grounded cs in if contains c grounded then rest else suc rest

abbrev pub Within : List Identifier → List Identifier → Type 0
Within g h = (i : Identifier) → contains i g ≡ true → contains i h ≡ true

missing_mono :
    (g h : List Identifier) → Within g h → (cs : List Identifier) → missing h cs ≤ missing g cs
unfolding missing
missing_mono g h w [] = omega arith
missing_mono g h w (c ∷ cs) = ground (arith, w c, missing_mono g h w cs)

pub missing-length : (g cs : List Identifier) → missing g cs ≤ length cs
unfolding missing
missing-length g [] = omega arith
missing-length g (c ∷ cs) = ground (arith, missing-length g cs)

missing_found :
    (c : Identifier) (cs g r : List Identifier)
    → contains c g ≡ false
    → contains c r ≡ true
    → missing r cs ≤ missing g cs
    → missing r (c ∷ cs) < missing g (c ∷ cs)
unfolding missing
missing_found c cs g r h k l = ground arith

missing_kept :
    (c : Identifier) (cs g r : List Identifier)
    → (contains c g ≡ true → contains c r ≡ true)
    → missing r cs < missing g cs
    → missing r (c ∷ cs) < missing g (c ∷ cs)
unfolding missing
missing_kept c cs g r h l = ground arith

module _ (d : Dict (List SupportConjunction)) where
  -- A claim that a round adds.
  abbrev pub is_new : List Identifier → Identifier → Bool
  is_new g c = not (contains c g) && is_supported d g c

  -- Each of the claims is grounded or has no grounded support.
  abbrev pub Closed : List Identifier → List Identifier → Type 0
  Closed cs g = all (λ c. not (is_new g c)) cs ≡ true

  pub sweep-Within : (cs g : List Identifier) (ch : Bool) → Within g (sweep d cs g ch).0
  unfolding sweep
  sweep-Within [] g ch i h = h
  sweep-Within (c ∷ cs) g ch i h =
      sweep-Within cs (if is_new g c then c ∷ g else g) (is_new g c || ch) i (ground arith)

  sweep-Closed :
      (cs g : List Identifier) (ch : Bool)
      → (sweep d cs g ch).1 ≡ false
      → (ch ≡ false) × ((sweep d cs g ch).0 ≡ g) × Closed cs g
  unfolding sweep
  sweep-Closed [] g ch h = (h, refl, refl)
  sweep-Closed (c ∷ cs) g ch h = elim (Bool-cases (is_new g c)) [
    | inl e ↦ ground (arith, sweep-Closed cs (c ∷ g) true)
    | inr e ↦ ground (arith, sweep-Closed cs g ch)
  ]

  pub sweep_new :
      (c : Identifier) (cs g : List Identifier) (ch : Bool)
      → is_new g c ≡ true
      → sweep d (c ∷ cs) g ch ≡ sweep d cs (c ∷ g) true
  unfolding sweep
  sweep_new c cs g ch e = rw e

  pub sweep_old :
      (c : Identifier) (cs g : List Identifier) (ch : Bool)
      → is_new g c ≡ false
      → sweep d (c ∷ cs) g ch ≡ sweep d cs g ch
  unfolding sweep
  sweep_old c cs g ch e = rw e

  sweep-missing :
      (cs g : List Identifier) (ch : Bool)
      → (sweep d cs g ch).1 ≡ true
      → (ch ≡ true) ⊎ (missing (sweep d cs g ch).0 cs < missing g cs)
  sweep-missing [] g ch h = inl (unfold sweep in h)
  sweep-missing (c ∷ cs) g ch h = elim (Bool-cases (is_new g c)) [
    | inl e ↦
        let r = (sweep d cs (c ∷ g) true).0 in
        let w = sweep-Within cs (c ∷ g) true in
        let bound = missing_mono g r (λ i m. w i (ground arith)) cs in
        rw (sweep_new c cs g ch e)
          (inr (missing_found c cs g r (ground arith) (w c (ground arith)) bound))
    | inr e ↦
        let r = (sweep d cs g ch).0 in
        let w = sweep-Within cs g ch c in
        let ih = sweep-missing cs g ch (rw (sweep_old c cs g ch e) at h) in
        rw (sweep_old c cs g ch e) (ground (arith, missing_kept c cs g r w))
  ]

  -- Some claims are left after a round that has not ended the loop, so that fuel for one round more
  -- than there are claims is enough.
  pub sweep_until_ends :
      (fuel : ℕ) (cs g : List Identifier)
      → missing g cs < fuel
      → (r : List Identifier) × (sweep_until d fuel cs g ≡ some r)
  unfolding sweep_until
  sweep_until_ends zero cs g h = absurd (omega (arith, h))
  sweep_until_ends (suc fuel) cs g h = elim (Bool-cases (sweep d cs g false).1) [
    | inl e ↦
        let (r, ends) =
          sweep_until_ends fuel cs (sweep d cs g false).0
            (ground (arith, sweep-missing cs g false e)) in
        (r, rw e ends)
    | inr e ↦ ((sweep d cs g false).0, rw e)
  ]

  -- What the loop ends with.
  pub sweep_until-Closed :
      (fuel : ℕ) (cs g r : List Identifier)
      → sweep_until d fuel cs g ≡ some r
      → Within g r × Closed cs r
  unfolding sweep_until
  sweep_until-Closed zero cs g r h = cc
  sweep_until-Closed (suc fuel) cs g r h = elim (Bool-cases (sweep d cs g false).1) [
    | inl e ↦
        let (w, closed) = sweep_until-Closed fuel cs (sweep d cs g false).0 r (ground arith) in
        (λ i m. w i (sweep-Within cs g false i m), closed)
    | inr e ↦
        let (u, same, closed) = sweep-Closed cs g false e in
        let ends : r ≡ g = ground arith in (λ i m. rw ends m, rw ends closed)
  ]
