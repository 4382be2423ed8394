-- ===== src/Protocol/Race/Spending.antt =====
-- src/latent_compass/protocol.py: what an interleaving of `consume` calls can spend.
use latent_compass.Prelude.{
  ℕ, ◌≡◌, ◌≢◌, ◌⊎◌, true, none, some, ok, err, arith, ◌==◌, ==_iff, sym, Bool-cases, inl, inr, ap,
  ◌∙◌, refl,
}
use mathlib.Core.Path.{subst}
use latent_compass.Contracts.{Seal, protocol_violation, lock_unavailable}
use latent_compass.Protocol.Holdout.{HoldoutConsumption, LedgerFile, consumption}
use latent_compass.Protocol.Race.{
  Call, Process, waiting, entered, deciding, leaving, finished, System, update, Move, calls,
  creates_lock, gives_up, reads, cannot_read, replaces_file, refuses, cannot_write, unlinks_lock,
  next, initial, Reachable, start, step, inside, spent,
}
use latent_compass.Protocol.Race.Invariant.{
  Invariant, Reachable-Invariant, recorded, spend-recorded, spend-others, alone,
}

-- What a call of `consumption` that gets the lock finds.
recorded-consumption :
    (file : LedgerFile) (c : Seal) (r : HoldoutConsumption)
    → recorded file c ≡ some r
    → consumption true file c ≡ ok (some r)
unfolding consumption
recorded-consumption file c r h = ground arith

consumption-recorded :
    (file : LedgerFile) (c : Seal) (r : HoldoutConsumption)
    → consumption true file c ≡ ok (some r)
    → recorded file c ≡ some r
unfolding consumption
consumption-recorded file c r h = ground arith

module _ (file : LedgerFile) (s : System) (reachable : Reachable file s) where
  -- In every reachable state at most one process is between taking the lock and releasing it, and
  -- it is the one that the lock file belongs to.
  pub Reachable-exclusive :
      (i j : ℕ)
      → inside (s.process i) ≡ true
      → inside (s.process j) ≡ true
      → (i ≡ j) × (s.lock ≡ some i)
  Reachable-exclusive i j hi hj =
      let v = Reachable-Invariant file s reachable in (alone s v i j hi hj, v.held i hi)

  -- In every reachable state no two processes have spent the same corpus, and the ledger holds the
  -- receipt of each process that has spent one.
  pub Reachable-spent :
      (i j : ℕ) (c d : Call)
      → spent (s.process i) ≡ some c
      → spent (s.process j) ≡ some d
      → c.0 ≡ d.0
      → (i ≡ j) × (consumption true s.file c.0 ≡ ok (some c.1))
  Reachable-spent i j c d hi hj e =
      let v = Reachable-Invariant file s reachable in
      (v.once i j c d hi hj e, recorded-consumption s.file c.0 c.1 (v.kept i c hi))

next-recorded :
    (s : System) (m : Move s) (k : Seal) (r : HoldoutConsumption)
    → Invariant s
    → recorded s.file k ≡ some r
    → recorded (next s m).file k ≡ some r
next-recorded s (replaces_file i c entries after h g) k r v e =
    let was = v.fresh i c entries h in
    elim (Bool-cases (c.0 == k)) [
      | inl t ↦ ground (
        arith,
        spend-recorded c s.file after entries was g,
        ap (recorded s.file) ((==_iff c.0 k).0 t),
      )
      | inr f ↦ spend-others c s.file after entries k was g f ∙ e
    ]
next-recorded s (calls i c h) k r v e = e
next-recorded s (creates_lock i c h g) k r v e = e
next-recorded s (gives_up i c h) k r v e = e
next-recorded s (reads i c entries h g) k r v e = e
next-recorded s (cannot_read i c x h g) k r v e = e
next-recorded s (refuses i c entries x h g) k r v e = e
next-recorded s (cannot_write i c entries x h) k r v e = e
next-recorded s (unlinks_lock i c x h) k r v e = e

spent_at :
    (f : ℕ → Process) (i : ℕ) (a : Process) (j : ℕ) (c : Call)
    → spent (update f i a j) ≡ some c
    → (spent (f j) ≡ some c) ⊎ ((spent a ≡ some c) × (f i ≡ f j))
spent_at f i a j c h = elim (Bool-cases (i == j)) [
  | inl e ↦ inr (ground arith, ap f ((==_iff i j).0 e))
  | inr e ↦ inl (ground arith)
]

-- Only a corpus that has no receipt is spent.
next-spent :
    (s : System) (m : Move s) (j : ℕ) (d : Call)
    → Invariant s
    → spent ((next s m).process j) ≡ some d
    → (spent (s.process j) ≡ some d) ⊎ (recorded s.file d.0 ≡ none)
next-spent s (calls i c h) j d v e = ground (arith, spent_at s.process i (waiting c) j d e)
next-spent s (creates_lock i c h g) j d v e = ground (arith, spent_at s.process i (entered c) j d e)
next-spent s (gives_up i c h) j d v e =
    ground
      (arith, spent_at s.process i (finished c (err (protocol_violation lock_unavailable))) j d e)
next-spent s (reads i c entries h g) j d v e =
    ground (arith, spent_at s.process i (deciding c entries) j d e)
next-spent s (cannot_read i c x h g) j d v e =
    ground (arith, spent_at s.process i (leaving c (err x)) j d e)
next-spent s (replaces_file i c entries after h g) j d v e = ground (
  arith,
  spent_at s.process i (leaving c (ok tt)) j d e,
  spend-recorded c s.file after entries (v.fresh i c entries h) g,
)
next-spent s (refuses i c entries x h g) j d v e =
    ground (arith, spent_at s.process i (leaving c (err x)) j d e)
next-spent s (cannot_write i c entries x h) j d v e =
    ground (arith, spent_at s.process i (leaving c (err x)) j d e)
next-spent s (unlinks_lock i c (err x) h) j d v e =
    ground (arith, spent_at s.process i (finished c (err x)) j d e)
next-spent s (unlinks_lock i c (ok u) h) j d v e =
    ground (arith, spent_at s.process i (finished c (ok u)) j d e)

module _ (file : LedgerFile) (k : Seal) (r : HoldoutConsumption)
    (already : consumption true file k ≡ ok (some r)) where
  abbrev Untouched : System → Type 0
  Untouched s =
      (recorded s.file k ≡ some r) × ((j : ℕ) (d : Call) → spent (s.process j) ≡ some d → d.0 ≢ k)

  untouched : (s : System) → Reachable file s → Untouched s
  untouched s (start _ e) =
      let z : Untouched (initial file) = (consumption-recorded file k r already, λ j d h. cc) in
      subst Untouched (sym e) z
  untouched t (step s _ m reachable e) =
      let (kept, unspent) = untouched s reachable in
      let v = Reachable-Invariant file s reachable in
      let z : Untouched (next s m) = (
        next-recorded s m k r v kept,
        λ j d h same. elim (next-spent s m j d v h) [
          | inl before ↦ unspent j d before same
          | inr none_there ↦ cc (sym none_there ∙ ap (recorded s.file) same ∙ kept)
        ],
      ) in
      subst Untouched (sym e) z

  -- A corpus that the ledger already records is spent by no process in any interleaving, and its
  -- receipt stays as it was.
  pub Reachable-already :
      (s : System) (j : ℕ) (q : HoldoutConsumption)
      → Reachable file s
      → (spent (s.process j) ≢ some (k, q)) × (consumption true s.file k ≡ ok (some r))
  Reachable-already s j q reachable =
      let (kept, unspent) = untouched s reachable in
      (λ h. unspent j (k, q) h refl, recorded-consumption s.file k r kept)
