-- ===== src/Lib.antt =====
-- latent-compass: the pre-registered evaluation protocol, the authority boundary and the episode
-- ledger (src/latent_compass), and the deterministic cores of the active-diagnosis lab
-- (src/latent_compass/lab).
--
-- Protocol (src/latent_compass/protocol.py):
--   Protocol/Specs, Preregistration: splits, metrics, `Preregistration`, its validators, `revise`;
--   Protocol/Verdict: `MeasurementSet`, `Verdict`, their validators and loaders; Protocol/Score:
--     `score_measurements`, a function for each of its loops and blocks of refusals;
--   Protocol/Holdout: `HoldoutLedger` as the file at its path, `evaluate`; Protocol/Race: `consume`
--     run by many processes under `_ExclusiveLock`, a move for each access to the lock or the file;
--   Protocol/Loading, Grouping, Scoring, Continue and Binding: what a verdict says and is bound to;
--     Protocol/Reload, Rebuilt, Returns, Grouped and Complete: when one is returned;
--     Race/Invariant and Race/Spending: what the interleavings keep.
-- Authority (src/latent_compass/vocabulary.py, authority.py): it takes the protocol's artefacts.
--   Authority: actors, capabilities, the lifecycle table, the evidence that a state demands,
--     `Advisory`; Authority/Evidence: `_verify_evidence`; Authority/Transition:
--     `authorize_transition`; Authority/Same, Decides, Authorized, Record and Rejection: what it
--     authorises.
-- Ledger (src/latent_compass/ledger.py, and the tombstone of governance.py):
--   Ledger: the tables of a store and the functions outside the ledger that it calls;
--   Ledger/Verify: `_verify_unlocked`; Ledger/Writing: `create`, `append`, `tombstone`,
--     `abandon_epoch`; Ledger/Reading: `get`, `list_records`, `replay`, `export`;
--   Ledger/Walk, Appended, Redacted, Rows, Growth, Redaction and Integrity: what they keep.
-- Routing (src/latent_compass/lab/routing.py):
--   Routing/Request: `RouteRequest`, `CapabilityObservation`, `HostCapabilitySnapshot`, their
--     validators and `find`; Routing/Decision: `RouteDecision`, its validator and `_decision`;
--   Routing/Evaluate and Evaluate/Chain: `evaluate_route`, its tests in the order of the source;
--     Evaluate/Verdicts and Evaluate/Outcome: what the verdicts mean;
--   Routing/Pool: `BudgetPoolState`, its validator and views, `reserve_budget`, `settle_budget`;
--     Pool/Sums, Pool/Coherence, Pool/Reserve, Pool/Settle and Pool/History: the budget laws.
-- Diagnosis (src/latent_compass/lab/model.py, state.py):
--   Lab/Model: `Probe`, `Decision`, `DiagnosisModel`, their validators and `load_model`;
--   Lab/State/Revision: `DiagnosisStateRevision`, `load_state`; Lab/State/Verify: `initial_state`,
--     `_checked_transition`, `verify_state_history`, `_trust_state`; Lab/State/Apply:
--     `apply_observation`; Lab/State/Loading, Replay, Extend and Posterior: replay.
-- Memory (src/latent_compass/lab/memory.py):
--   Lab/Memory: the events, their validators and `load_memory_event`; Memory/Replay: the loop of
--     `compute_applicability` over the events, a function for each branch; Memory/Applicability:
--     its eligible ids, its `while` and its result; Memory/Sweep, Loading, Grounding, Future,
--     Supported, Premises and Revoked: what it returns.
-- Planner (src/latent_compass/lab/planner.py):
--   Lab/Planner: `_admissible_decisions`, `_expected_loss`, `_stopping` and the candidates and
--     partitions of a node; Planner/Rational: fractions; Planner/Search: `_search`, whose memo,
--     counter and flag are passed along; Planner/Bellman: the recursion without them;
--     Planner/Plan: `_plan`, `propose`, `propose_excluding` and their reports; Planner/Keys, Loops,
--     Exact, Planned and Propose: a plan against the recursion; Planner/Expansions,
--     Recommends and Stopping: the bound on expansions, the recommended probe, the least loss.
-- Migration (src/latent_compass/lab/migration.py):
--   Lab/Migration: `InventoryAsset`, `AssetDisposition`, `_disposition`; Migration/DryRun:
--     `build_retirement_dry_run`; Migration/Dispositions and Migration/Report: what they say.
-- Contracts: what contracts.py, errors.py and lab/errors.py give to all of these. Prelude and
-- Lab/Dict: tests, results, lists, sorting and dicts.
--
-- Identifiers, seals and timestamps are the numbers that their fixed formats spell; a dict is an
-- association list in insertion order. A call that raises returns the exception as an error. A
-- contract value that is loaded again from its canonical payload passes its validators again.
-- SHA-256 over the canonical JSON is not code of the package, so each seal is a function that is a
-- parameter of the definitions that use it; no theorem assumes anything about it. The loops run over
-- lists, but for the `while` of `compute_applicability`, whose fuel is one round more than there are
-- eligible claims: each round but the last grounds a claim. The bounds on sizes are those of the
-- source. The fuel of `gcd` is its second number and one more.
--
-- `_search` recurs on its horizon. A fraction is a pair of numbers compared by products across, and
-- `d[k]` gives zero for a key that is not there, where the source would raise `KeyError`: a validated
-- model lists each of its worlds, and a replayed posterior has no others.
--
-- A finite float of the protocol is its place in the order of the finite floats, so that the two
-- zeros are one; the mean of two is a parameter that may have no finite result, and then the
-- construction of the metric's verdict raises pydantic's own error. The holdout ledger's lock is
-- taken or not, as an argument says; what other processes do meanwhile is in Protocol/Race, where
-- the number of processes and of steps is not bounded. A ledger's operation is one transaction:
-- SQLite keeps unique columns unique and rolls back a transaction that raises, so that a call
-- returns its store or an exception. An episode is its version, its id, its provenance and a number
-- for its other fields, whose validity is a parameter.
--
-- Not modelled: the patterns of the text formats, the messages and details of the exceptions, and
-- the parsing of version strings (an unsupported version raises one exception); the sealed snapshot
-- of the authority's tables; the errors of a database or of a file that cannot be opened; the
-- episode's own validators; the benchmark, the decision stores and the sessions and the evaluation
-- of the lab; the shadow hook and the command lines, which read and write files.
pub mod Prelude
pub mod Contracts
pub mod Routing
pub mod Lab
pub mod Protocol
pub mod Authority
pub mod Ledger
