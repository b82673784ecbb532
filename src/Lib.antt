-- ===== src/Lib.antt =====
-- Verification of HarnessLab, a laboratory for agent harnesses (Go module, internal/).
--
-- A harness run is a stream of events. The adapter internal/runtime/trpc turns the framework's
-- events into the run events of internal/runtime; internal/diff turns two runs' events into steps
-- and finds where the trajectories part; internal/benchmark runs jobs on a pool of workers;
-- internal/optimize selects harness variants from what the benchmark measured and applies the
-- holdout gate. A harness is described by a specification (internal/harness/spec), which the builder
-- (internal/harness/builder) executes: it adds up the events of the runtime, runs the verification
-- commands in a sandbox (internal/sandbox) and persists the record of the run (internal/store).
--
-- Files, and the code that they model:
--   Shared       Go's strings, 64-bit integers, float64 comparisons, slices and sort.Slice
--   Runtime      internal/runtime/runtime.go, the event types
--   Diff         internal/diff/diff.go: Steps (Step, keyOf, hashText, BuildSteps), Table (the table
--                in Compare), Compare (Compare); theorems in Divergence, Outcome, Trace, Table
--   Trpc         internal/runtime/trpc: Event (the fields read of the framework's events),
--                Normalizer (normalize.go, a record for the struct and a function for each method),
--                Agent (RunFrameworkAgent in runtime.go), Instruction (BuildInstruction and
--                repoMap), Runtime (New and Run up to the agent); theorems in Normalizer/Counters,
--                Normalizer/Tokens, Instruction/Mapped
--   Optimize     internal/optimize: Pareto (the loop that SelectCandidates runs), Eval (eval.go);
--                theorems in Eval/Selection and Eval/Gate
--                Front (pareto.go), Analyze (analyze.go, with Analyze/Patterns),
--                Generate (llm.go; theorems in Generate/Accepted and Generate/Unnamed),
--                Candidates (candidate.go; theorem in Candidates/Loading)
--   Benchmark    internal/benchmark: Matrix (matrix.go), Task (task.go), Pool (runBatch in
--                scheduler.go, a step relation), Scheduler (NewScheduler, Run and runJob), Report
--                (report.go, with Report/Breakdown for Finalize and Report/Table for RenderTable),
--                Stats (stats.go); theorems in Matrix/Product, Task/Loading, Pool/Hang,
--                Pool/Accounts, Pool/Retry, Scheduler/Waves, Scheduler/Ablation, Report/Grouping,
--                Report/Totals, Report/Finalized, Stats/Members
--   Store        internal/store: the records of a run, Interface (the interface Store and its
--                promise), Json (jsonstore.go), Sqlite (sqlitestore.go); theorems in Json/Kept,
--                Sqlite/Kept, Sqlite/Events, Sqlite/Columns
--   Workspace    internal/workspace: worktrees of a mirror (git/git.go: Create, ensureMirror, Destroy),
--                Diff (Snapshot, Diff); theorems in Waiting, Mirror, Captured
--   Codex        internal/runtime/codex/runtime.go, the options of the agent
--   Spec         internal/harness/spec/spec.go: Types, Validate (Validate, a chain of checks), Access
--                (the success rules, ModelPrice; internal/cost/cost.go); theorems in Valid,
--                Fixed, Access
--   Builder      internal/harness/builder/builder.go: Run, verifyResult, computeStatus, finish,
--                Stored (Run on a store), Surroundings and Build (Build and its parts), Build/Close;
--                theorems in Passing, Tally, Agreement, Stored, Interrupted, Build/Confined,
--                Build/Replaying, Build/Supported
--   Sandbox      internal/sandbox: the policy of the process sandbox, Redact (redactSecrets), Environ
--                (scrubEnv), Backends (New and Run of each sandbox), ExecTool (exec_tool.go), Harness
--                (newSandbox in internal/harness/builder); theorems in Redact/Masking, Redact/Enough,
--                Secrecy
--   Replay       internal/replay: Canonical (canonicalize.go), Store (jsonstore.go), and
--                internal/runtime/trpc/replay.go: Tools (the callbacks around a tool call), Model (the
--                model that records or replays); theorems in Canonical/Depth, Tools/Offline,
--                Model/Aggregate
--   Reproduce    internal/reproduce: envcheck.go and checkEnvironment of internal/cli/reproduce.go,
--                Lock (lock.go), Bundle (export.go); theorems in Drift, Bundle/Restored and
--                Bundle/Panics
--
-- Conventions. A counter that grows by one for each event is a plain number; sums of tokens are
-- 64-bit sums with wrap-around (Shared/Int64). A float64 is an element of a record of comparisons
-- with the laws that IEEE 754 values have, NaN included (Shared/Float). SHA-256, the clock, the
-- framework's runner, the outcome of a job, the shell, the disk, git, the SQL database, zip, the
-- coders of YAML and JSON, the arithmetic of float64 and time.ParseDuration are parameters. A Go
-- map is the list of its entries, which a loop over the map visits in the order of the list. A
-- string that is only compared or stored is a String, one that is measured or joined a list of
-- bytes. In the record of a run a time is 0 if it is Go's zero time, and else one more than its
-- nanoseconds after 1970; times before 1970 are left out. Most loops are recursions on the lists
-- that they run over. The others have fuel: the digits of a number (Shared/Format), at most as
-- many as its value plus one; redactMarker, one round for each byte of the text and one more
-- (Redact/Enough); the waves of a benchmark, any number of at least one more than the retries
-- (Scheduler/Waves); the wait for the lock of a mirror, 242 rounds of half a second for its two
-- minutes (Workspace/Waiting); and the depth of nested documents (Canonical/Depth), at most the
-- measure of the outer one.
--
-- Not modelled: the rest of the command line (internal/cli), the recorder of traces, processes and
-- containers, YAML and JSON syntax, the network, and what the commands print. The manifest names
-- each part.
pub mod Shared
pub mod Runtime
pub mod Diff
pub mod Trpc
pub mod Optimize
pub mod Benchmark
pub mod Store
pub mod Spec
pub mod Builder
pub mod Sandbox
pub mod Replay
pub mod Reproduce
pub mod Workspace
pub mod Codex
