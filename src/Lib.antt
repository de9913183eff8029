-- ===== src/Lib.antt =====
-- Gauntlet, a merge queue with deploy lanes and pull-based workers: a model of its core, in files that
-- follow its packages.
--
-- The program. A daemon (internal/queue) tests candidate revisions before they land on a target
-- branch. Checks run under the daemon-wide execution slots (internal/core/slots.go), locally or on
-- workers (internal/workers) that lease jobs from a broker backed by a table. A landed revision is
-- deployed by a lane (internal/deploy), which runs a graph of commands. Infrastructure failures open a
-- target's circuit breaker (internal/queue/circuit.go). Test reports of retries are merged by
-- internal/testreport, which the broker calls when an attempt completes.
--
-- The files.
--   Prelude, with Tests, Lists, Maps, Int, Guards and Names below it: Boolean tests, lists, lists of
--     names, association lists and first errors over the native numbers, integers as a difference of
--     parts, and their lemmas.
--   Core/Types, Core/Job: internal/core/types.go, tests.go and green.go, the records with the source's
--     fields in snake case. A nil error or pointer is `none`, a time or duration a number.
--   Core/Slots: internal/core/slots.go. `acquire` is the step under the lock; `acquire_round` one pass
--     of the blocking `Acquire`, where the broadcast channel is a counter of broadcasts.
--     Core/Slots/Ledger follows who holds the slots, Core/Slots/Wakeups the broadcasts.
--   Deploy/Graph: `Scheduler.Run`, `start` and `materialize` of internal/deploy/graph.go. The
--     goroutines and the context act through a schedule, a list of rounds which say what arrives and
--     when the context is cancelled, so that a statement about all schedules is one about all
--     interleavings. The loop runs on the list of rounds: a schedule that is too short, or that cannot
--     happen, is `none`, and a round more than there are nodes is enough. Below it: Loop (what a step
--     keeps), Accounts (counters), Termination, Results, Tracked and Received (stored results), Head
--     (the head of the loop), Progress, Verdict (the report) and Starts (states between steps).
--   TestReport: `Validate`, `Failed` and `MergeRerun` of internal/testreport/report.go; Answer,
--     Merge and Refused have their laws.
--   Workers/Resources: internal/workers/types.go; Int64 below it has the arithmetic of `reservedShare`
--     on bit patterns of 64 bits. Workers/Broker: internal/workers/broker.go and the writes of
--     internal/workers/status.go, where
--     a SQL statement is a function on the list of rows in the order of their rowid, a transaction
--     that rolls back leaves the broker as it was, and the random token, the digest of a job and the
--     clock are arguments. Below it: Claim, Submit, Complete, Wait and Upkeep are the operations;
--     Order and Capacity are about the choice of a claim, Leases and Table about the statements,
--     Effects, UpkeepEffects, Kept, Deletions and Maintenance about what an operation keeps, Fencing
--     about stale tokens. History runs any sequence of operations on an open database; after `Close`
--     the database refuses every statement. Answers is about such sequences.
--   Config/Checks: the check spec of internal/config/checks.go as it is bound from its text. Patterns,
--     Nodes, Validate and Parse are the functions of `ParseChecks`; an error is a value that says
--     which rule refuses which node. Graph is the search for a cycle: its stack is fuel, as much as
--     there are nodes, which Graph/Fuel shows to be enough. Select is `SelectDeployNodes`, with one
--     call more than there are nodes as fuel, which is enough by Select/Total. The KDL parser and
--     Go's upper-casing are parameters. Deploy/Plan: `deployGraph` of internal/deploy/run.go, which
--     joins the parser, the selection and the scheduler; Deploy/Plan/Scheduled composes them.
--   Queue/Circuit: internal/queue/circuit.go with internal/config/circuit.go. Queue/Scheduling and
--     Queue/Priorities: the ranks, the reordering and the ageing of internal/queue/scheduling.go.
--   Queue/Adaptive: internal/queue/adaptive.go, with costs in whole nanoseconds. Limits is about the
--     limits, Ledger and Feedback about the identities of what was counted.
--   Queue/CheckSpec and Queue/Captured: internal/queue/checkspec.go, the gate of a spec, the nodes of
--     a run and the tests of an image reference or a receipt; Queue/CheckSpec/Names is about the names
--     of nodes. Queue/CheckRun: internal/queue/checkrun.go and the bypass of
--     internal/queue/controls.go. A tick of the loop is given what lies in the
--     channels, one reading of the clock, and how many acquisitions of a slot succeed; the workers'
--     goroutines, spans and metrics are left out. Results, Rows, Advance and Emergency are the code,
--     Reached the runs that it reaches; Counts, Frames, Tracking and Kept carry the proofs of Green,
--     Images and Settled those of Referenced, Idle those of Progress, and Same compares the rows with
--     those of Deploy/Graph.
--
-- Numbers. Counts and times are natural numbers; a worker's resources are integers, since what is left
-- of them may be negative. The share of a capacity is a formula on natural numbers, and the same in the
-- wrapping arithmetic of an int64.
--
-- Not modelled. The database and its failures, JSON and XML, the network, git, containers and the
-- file system: their calls succeed, or act through an argument. Text that only a person reads is left
-- out where no decision depends on it. The other packages are the daemon's channels and adapters
-- (cmd/gauntlet, internal/dashboard, slack, mcp, obs, history, hooks, review, ghauth, ghstatus, gitx,
-- executor, llm), and the parts of internal/queue, config and kdlfmt that are not named above.
pub mod Config
pub mod Core
pub mod Deploy
pub mod Prelude
pub mod Queue
pub mod TestReport
pub mod Workers
