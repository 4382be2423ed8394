-- ===== src/Protocol/Race.antt =====
-- src/latent_compass/protocol.py: `HoldoutLedger.consume` run by any number of processes on one
-- ledger, each under `_ExclusiveLock`.
--
-- A process is the place that it has reached in `consume`. A step of one process is one access to
-- the lock file or to the ledger's file, and the steps of the processes interleave in any order.
pub mod Invariant
pub mod Spending
pub mod Tests
use latent_compass.Prelude.{
  ℕ, ◌≡◌, Bool, true, false, Option, none, some, Result, ok, err, ◌==◌, if◌then◌else◌,
}
use latent_compass.Contracts.{Seal, Exception, protocol_violation, lock_unavailable}
use latent_compass.Lab.Dict.{Dict}
use latent_compass.Protocol.Holdout.{HoldoutConsumption, LedgerFile, read_unlocked, spend}

-- A call's corpus and receipt.
abbrev pub Call : Type 0
Call = Seal × HoldoutConsumption

pub data Process : Type 0 where
  idle : Process
  -- in the loop of `__enter__`
  waiting : Call → Process
  -- in the body, before `_read_unlocked`
  entered : Call → Process
  -- with the entries that it has read
  deciding : Call → Dict HoldoutConsumption → Process
  -- in `__exit__`, with what the body came to
  leaving : Call → Result Exception (Unit {0}) → Process
  finished : Call → Result Exception (Unit {0}) → Process

pub record System : Type 0 where
  -- the process whose lock file exists
  pub lock : Option ℕ
  pub file : LedgerFile
  pub process : ℕ → Process

abbrev pub update : (ℕ → Process) → ℕ → Process → ℕ → Process
update f i a j = if i == j then a else f j

-- What one process can do next.
pub data Move (s : System) : Type 0 where
  calls : (i : ℕ) (c : Call) → s.process i ≡ idle → Move s
  creates_lock : (i : ℕ) (c : Call) → s.process i ≡ waiting c → s.lock ≡ none → Move s
  -- the deadline has passed, or the lock file cannot be created
  gives_up : (i : ℕ) (c : Call) → s.process i ≡ waiting c → Move s
  reads :
      (i : ℕ) (c : Call) (entries : Dict HoldoutConsumption)
      → s.process i ≡ entered c
      → read_unlocked s.file ≡ ok entries
      → Move s
  cannot_read :
      (i : ℕ) (c : Call) (e : Exception)
      → s.process i ≡ entered c
      → read_unlocked s.file ≡ err e
      → Move s
  replaces_file :
      (i : ℕ) (c : Call) (entries : Dict HoldoutConsumption) (after : LedgerFile)
      → s.process i ≡ deciding c entries
      → spend c.0 c.1 entries ≡ ok after
      → Move s
  refuses :
      (i : ℕ) (c : Call) (entries : Dict HoldoutConsumption) (e : Exception)
      → s.process i ≡ deciding c entries
      → spend c.0 c.1 entries ≡ err e
      → Move s
  -- the temporary file cannot be written, and the ledger's file stays
  cannot_write :
      (i : ℕ) (c : Call) (entries : Dict HoldoutConsumption) (e : Exception)
      → s.process i ≡ deciding c entries
      → Move s
  unlinks_lock :
      (i : ℕ) (c : Call) (r : Result Exception (Unit {0})) → s.process i ≡ leaving c r → Move s

abbrev pub next : (s : System) → Move s → System
next s (calls i c h) = record {
  lock = s.lock;
  file = s.file;
  process = update s.process i (waiting c);
}
next s (creates_lock i c h k) = record {
  lock = some i;
  file = s.file;
  process = update s.process i (entered c);
}
next s (gives_up i c h) = record {
  lock = s.lock;
  file = s.file;
  process = update s.process i (finished c (err (protocol_violation lock_unavailable)));
}
next s (reads i c entries h k) = record {
  lock = s.lock;
  file = s.file;
  process = update s.process i (deciding c entries);
}
next s (cannot_read i c e h k) = record {
  lock = s.lock;
  file = s.file;
  process = update s.process i (leaving c (err e));
}
next s (replaces_file i c entries after h k) = record {
  lock = s.lock;
  file = after;
  process = update s.process i (leaving c (ok tt));
}
next s (refuses i c entries e h k) = record {
  lock = s.lock;
  file = s.file;
  process = update s.process i (leaving c (err e));
}
next s (cannot_write i c entries e h) = record {
  lock = s.lock;
  file = s.file;
  process = update s.process i (leaving c (err e));
}
next s (unlinks_lock i c r h) = record {
  lock = none;
  file = s.file;
  process = update s.process i (finished c r);
}

abbrev pub initial : LedgerFile → System
initial file = record { lock = none; file = file; process = λ i. idle }

-- The states that some interleaving leads to.
pub data Reachable (file : LedgerFile) : System → Type 0 where
  start : (s : System) → s ≡ initial file → Reachable file s
  step : (s t : System) (m : Move s) → Reachable file s → t ≡ next s m → Reachable file t

-- In the body of the `with` statement.
abbrev pub inside : Process → Bool
inside (entered c) = true
inside (deciding c entries) = true
inside (leaving c r) = true
inside _ = false

-- The call that has spent its corpus.
abbrev pub spent : Process → Option Call
spent (leaving c (ok u)) = some c
spent (finished c (ok u)) = some c
spent _ = none
