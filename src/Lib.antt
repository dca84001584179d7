-- ===== src/Lib.antt =====
-- A model of wanax, a factory that lets language models work on a repository under a contract: a run is
-- planned, worked on in an inner worktree, tested from outside, and accepted through gates that the
-- program itself evaluates. The files are named for the parts of the program.
--
-- Prelude: names of the libraries passed on, Boolean tests, lists, integers, texts and sorting. Rust's
-- `i64` and `i128` are integers over the native numbers, `u32` and `u64` are numbers; where the code wraps
-- or saturates the model does.
--
-- Core is crates/wanax-core/src. RunState, WorkUnitState, AssigneeRole, WorkerAdapterKind, VerdictDecision
-- and Types are types.rs; ErrorCode and Error are error.rs. State is state.rs (`can_transition`,
-- `transition`), State/Diagram the diagram as a relation, State/Prd that of
-- docs/PRD.md, and State/Path sequences of transitions. Accept is
-- accept.rs: `enforce_decision` is three functions, for the override of a red test, the ladder of a closed
-- gate, and the limit of reworks. Decimal is the decimal printing of Rust's standard library, used by
-- Money, which is money.rs on lists of code points. Budget is budget.rs; a function that changes its run
-- returns the run. Store is the part of store.rs on runs and work units: Rows the columns, Tables the SQL
-- statements on lists of rows with the failures that the database may have, Runs and Units the methods.
-- GlobOverlap is glob_overlap.rs, with the crate globset as an argument. LockText and Lock are lock.rs:
-- LockText is the text of a lock file, and in Lock the directory .wanax is a record of what is read of its
-- files, and `acquire_with`, which runs under a file lock, is one step; whether a process lives
-- is an argument.
--
-- Engine is crates/wanax-cli/src/engine.rs: Dag has `dag_ready`, `dag_wave` and `next_ready_dag`, and
-- Verdict what `drive_factory` does with a proposed verdict, on the variables of its loop, each arm with
-- the calls of the store that it makes; Verdict/Turns picks the unit of a DAG before it, and what is between,
-- the work and the review, is an argument. A run may also be accepted when every unit of its DAG is accepted
-- already; no verdict is proposed then. The engine uses Accept, Budget, State and Store, and the waves use
-- GlobOverlap, as the locks do.
--
-- Engine/Seeding is `seed_dag_units`: it sorts with Core/Dag, stores with Core/Store, and its events are read
-- by Replay; Seeding/Made and Seeding/Ordered follow its two loops.
--
-- Core/Dag is dag.rs: Edges describes the graph that `topo_sort` builds, Degrees and Queue its loops. A
-- `HashMap` is a list of entries, from Prelude/Map.
--
-- Core/TestCommand is testcmd.rs and Core/Contract is contract.rs, which calls it: Contract/Sections takes the
-- text apart, and what is called of serde_yaml, regex and the standard paths is the record Readers.
--
-- Tombstone is the part of crates/wanax-tombstone/src/lib.rs on events and envelopes; a payload is known by
-- the functions of serde_json that read it. Replay is crates/wanax-cli/src/replay.rs: the variables of
-- `envelope_snapshot` are the record Replay, Outcome is what it returns, Units states the same events on maps from ids to units, and
-- Index and Upserted relate the two. Audit is crates/wanax-cli/src/audit.rs, with the hash of a payload as an
-- argument; both use Tombstone, and an audit is given the outcome of a replay.
--
-- Llm/Json is crates/wanax-llm/src/jsonutil.rs.
--
-- Core/Env is envenv.rs of the core. Verify is crates/wanax-verify/src/lib.rs: Boundaries the check of the
-- changed paths, with the compilation of globs as an argument, and Secrets the scan of a diff, with the
-- regular expressions as an argument; MustHave has `missing_must_have` and `allowed_globs_cover_binding_tests`.
--
-- Scenarios holds the theorems at concrete inputs.
--
-- Loops are recursion on lists, and decimal printing is recursion on an accessibility proof. Only the queue
-- of the topological sort has fuel, one unit for each node: a node is queued once. Not modelled: the
-- configuration, and the phases of `drive_factory` before a verdict. Left
-- out because they are input and output: workers, git, the services of language models, the sandbox, the
-- files of an envelope and the commands.
pub mod Prelude
pub mod Core
pub mod Tombstone
pub mod Replay
pub mod Audit
pub mod Verify
pub mod Llm
pub mod Engine
pub mod Scenarios
