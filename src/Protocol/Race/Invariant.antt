-- ===== src/Protocol/Race/Invariant.antt =====
-- src/latent_compass/protocol.py: what holds of the lock, the file and the processes in every
-- reachable state.
use latent_compass.Prelude.{
  ℕ, ◌≡◌, true, false, Option, none, some, Result, ok, err, arith, ◌==◌, ==_iff, sym, Bool-cases,
  inl, inr, ap, ◌∙◌,
}
use mathlib.Core.Path.{subst}
use latent_compass.Contracts.{Seal, Exception, protocol_violation, lock_unavailable}
use latent_compass.Lab.Dict.{Dict, lookup, lookup-put}
use latent_compass.Protocol.Holdout.{HoldoutConsumption, LedgerFile, read_unlocked, spend}
use latent_compass.Protocol.Race.{
  Call, Process, waiting, entered, deciding, leaving, finished, System, update, Move, calls,
  creates_lock, gives_up, reads, cannot_read, replaces_file, refuses, cannot_write, unlinks_lock,
  next, initial, Reachable, start, step, inside, spent,
}

abbrev pub recorded : LedgerFile → Seal → Option HoldoutConsumption
recorded file c = elim (read_unlocked file) [ ok entries ↦ lookup c entries | err e ↦ none ]

pub record Invariant (s : System) : Type 0 where
  pub held : (i : ℕ) → inside (s.process i) ≡ true → s.lock ≡ some i
  pub fresh :
      (i : ℕ) (c : Call) (entries : Dict HoldoutConsumption)
      → s.process i ≡ deciding c entries
      → read_unlocked s.file ≡ ok entries
  pub kept : (i : ℕ) (c : Call) → spent (s.process i) ≡ some c → recorded s.file c.0 ≡ some c.1
  pub once :
      (i j : ℕ) (c d : Call)
      → spent (s.process i) ≡ some c
      → spent (s.process j) ≡ some d
      → c.0 ≡ d.0
      → i ≡ j

initial-Invariant : (file : LedgerFile) → Invariant (initial file)
initial-Invariant file = record {
  held = λ i h. ground arith;
  fresh = λ i c entries h. cc;
  kept = λ i c h. cc;
  once = λ i j c d h k e. cc;
}

spent-update :
    (f : ℕ → Process) (i : ℕ) (a : Process) (j : ℕ)
    → spent a ≡ spent (f i)
    → spent (update f i a j) ≡ spent (f j)
spent-update f i a j same = elim (Bool-cases (i == j)) [
  | inl e ↦ ground (arith, same, ap f ((==_iff i j).0 e))
  | inr e ↦ ground arith
]

-- What is in the file after a corpus is spent.
pub spend-recorded :
    (c : Call) (file after : LedgerFile) (entries : Dict HoldoutConsumption)
    → read_unlocked file ≡ ok entries
    → spend c.0 c.1 entries ≡ ok after
    → (recorded file c.0 ≡ none) × (recorded after c.0 ≡ some c.1)
spend-recorded c file after entries r h = ground (arith, lookup-put c.0 c.0 c.1 entries)

pub spend-others :
    (c : Call) (file after : LedgerFile) (entries : Dict HoldoutConsumption) (k : Seal)
    → read_unlocked file ≡ ok entries
    → spend c.0 c.1 entries ≡ ok after
    → (c.0 == k) ≡ false
    → recorded after k ≡ recorded file k
spend-others c file after entries k r h n = ground (arith, lookup-put k c.0 c.1 entries)

module _ (s : System) (v : Invariant s) where
  -- A move that leaves the file alone and does not spend.
  quiet :
      (i : ℕ) (a : Process) (lock : Option ℕ)
      → spent a ≡ spent (s.process i)
      → ((j : ℕ) → inside (update s.process i a j) ≡ true → lock ≡ some j)
      → ((c : Call) (entries : Dict HoldoutConsumption)
          → a ≡ deciding c entries
          → read_unlocked s.file ≡ ok entries)
      → Invariant (record { lock = lock; file = s.file; process = update s.process i a })
  quiet i a lock same held fresh = record {
    held = held;
    fresh = λ j c entries h. elim (Bool-cases (i == j)) [
      | inl e ↦ fresh c entries (ground arith)
      | inr e ↦ v.fresh j c entries (ground arith)
    ];
    kept = λ j c h. v.kept j c (sym (spent-update s.process i a j same) ∙ h);
    once = λ j k c d hj hk e.
        v.once j k c d (sym (spent-update s.process i a j same) ∙ hj)
          (sym (spent-update s.process i a k same) ∙ hk) e;
  }

  -- The lock's holder moves on.
  stays :
      (i : ℕ) (a : Process)
      → (inside a ≡ true → inside (s.process i) ≡ true)
      → (j : ℕ) → inside (update s.process i a j) ≡ true
      → s.lock ≡ some j
  stays i a keeps j h = elim (Bool-cases (i == j)) [
    | inl e ↦ ground (arith, keeps, v.held i, ==_iff i j)
    | inr e ↦ v.held j (ground arith)
  ]

  -- Nobody else is inside while a process is.
  pub alone : (i j : ℕ) → inside (s.process i) ≡ true → inside (s.process j) ≡ true → i ≡ j
  alone i j hi hj = ground (arith, v.held i hi, v.held j hj)

  -- The move that spends.
  module _ (i : ℕ) (c : Call) (entries : Dict HoldoutConsumption) (after : LedgerFile)
      (h : s.process i ≡ deciding c entries) (k : spend c.0 c.1 entries ≡ ok after) where
    first : (recorded s.file c.0 ≡ none) × (recorded after c.0 ≡ some c.1)
    first = spend-recorded c s.file after entries (v.fresh i c entries h) k

    others :
        (j : ℕ) (d : Call)
        → spent (s.process j) ≡ some d
        → ((c.0 == d.0) ≡ false) × (recorded after d.0 ≡ some d.1)
    others j d e =
        let kept = v.kept j d e in
        let differs : (c.0 == d.0) ≡ false = elim (Bool-cases (c.0 == d.0)) [
          | inl t ↦
              let same : recorded s.file c.0 ≡ recorded s.file d.0 =
                ap (recorded s.file) ((==_iff c.0 d.0).0 t) in
              ground (arith, first)
          | inr f ↦ f
        ] in
        (differs, spend-others c s.file after entries d.0 (v.fresh i c entries h) k differs ∙ kept)

    spends :
        Invariant
          (record { lock = s.lock; file = after; process = update s.process i (leaving c (ok tt)) })
    spends = record {
      held = stays i (leaving c (ok tt)) (λ u. ground arith);
      fresh = λ j d es e. elim (Bool-cases (i == j)) [
        | inl t ↦ ground arith
        | inr f ↦ ground (arith, alone i j)
      ];
      kept = λ j d e. elim (Bool-cases (i == j)) [
        | inl t ↦ ground (arith, first)
        | inr f ↦ (others j d (ground arith)).1
      ];
      once = λ j l d g hj hl e. elim (Bool-cases (i == j)) [
        | inl t ↦ elim (Bool-cases (i == l)) [
          | inl u ↦ ground arith
          | inr u ↦ ground (arith, others l g (ground arith))
        ]
        | inr t ↦ elim (Bool-cases (i == l)) [
          | inl u ↦ ground (arith, others j d (ground arith))
          | inr u ↦ v.once j l d g (ground arith) (ground arith) e
        ]
      ];
    }

  inside_only :
      (i : ℕ) (a : Process) (j : ℕ) → s.lock ≡ none → inside (update s.process i a j) ≡ true → i ≡ j
  inside_only i a j n h = elim (Bool-cases (i == j)) [
    | inl e ↦ (==_iff i j).0 e
    | inr e ↦ ground (arith, v.held j)
  ]

  unlinked :
      (i : ℕ) (c : Call) (r : Result Exception (Unit {0}))
      → s.process i ≡ leaving c r
      → spent (finished c r) ≡ spent (s.process i)
  unlinked i c (ok u) h = ground arith
  unlinked i c (err e) h = ground arith

  unlinked_inside :
      (i : ℕ) (c : Call) (r : Result Exception (Unit {0})) (h : s.process i ≡ leaving c r) (j : ℕ)
      → inside (update s.process i (finished c r) j) ≡ true
      → ⊥
  unlinked_inside i c r h j t = elim (Bool-cases (i == j)) [
    | inl e ↦ ground arith
    | inr e ↦ ground (arith, alone i j)
  ]

  next-Invariant : (m : Move s) → Invariant (next s m)
  next-Invariant (calls i c h) =
      quiet i (waiting c) s.lock (ground arith) (stays i (waiting c) (λ u. ground arith))
        (λ d es e. ground arith)
  next-Invariant (creates_lock i c h k) =
      quiet i (entered c) (some i) (ground arith) (λ j t. ap some (inside_only i (entered c) j k t))
        (λ d es e. ground arith)
  next-Invariant (gives_up i c h) =
      quiet i (finished c (err (protocol_violation lock_unavailable))) s.lock (ground arith)
        (stays i (finished c (err (protocol_violation lock_unavailable))) (λ u. ground arith))
        (λ d es e. ground arith)
  next-Invariant (reads i c entries h k) =
      quiet i (deciding c entries) s.lock (ground arith)
        (stays i (deciding c entries) (λ u. ground arith)) (λ d es e. ground arith)
  next-Invariant (cannot_read i c e h k) =
      quiet i (leaving c (err e)) s.lock (ground arith)
        (stays i (leaving c (err e)) (λ u. ground arith)) (λ d es e. ground arith)
  next-Invariant (replaces_file i c entries after h k) = spends i c entries after h k
  next-Invariant (refuses i c entries e h k) =
      quiet i (leaving c (err e)) s.lock (ground arith)
        (stays i (leaving c (err e)) (λ u. ground arith)) (λ d es e. ground arith)
  next-Invariant (cannot_write i c entries e h) =
      quiet i (leaving c (err e)) s.lock (ground arith)
        (stays i (leaving c (err e)) (λ u. ground arith)) (λ d es e. ground arith)
  next-Invariant (unlinks_lock i c r h) =
      quiet i (finished c r) none (unlinked i c r h) (λ j t. absurd (unlinked_inside i c r h j t))
        (λ d es e. ground arith)

pub Reachable-Invariant : (file : LedgerFile) (s : System) → Reachable file s → Invariant s
Reachable-Invariant file s (start _ e) = subst Invariant (sym e) (initial-Invariant file)
Reachable-Invariant file t (step s _ m r e) =
    subst Invariant (sym e) (next-Invariant s (Reachable-Invariant file s r) m)
