-- ===== src/Lib.antt =====
-- Codex Commons: the bounded jobs, live presence, operator file grammar, GitHub client, archaeology
-- admission, backup retention, the writes of the project core, the human account and the browser
-- sessions of the Go server.
--
-- The parts and the files that model them:
--  * Jobs (internal/jobs): Jobs/Types is types.go; Jobs/Definitions is the validation of definitions and
--    NewRunner, Jobs/Input the validation and digest of requests, Jobs/Runner is Runner.Run and
--    Runner.execute, Jobs/Memory is memory_store.go. Runner.Run calls a StateStore, here a record of
--    operations on any state, which Jobs/Memory fills. Clock, kill switch, policy, GitHub reader,
--    interpreter and hash are the fields of an environment. Run holds no lock between Acquire and Finish,
--    so what other calls make of the store in between is an argument of it.
--  * Presence (internal/presence/registry.go): the registry as a table of sessions, a method a step.
--  * Ops (internal/opsfs/path.go and checksum.go): Ops/Paths and Ops/Checksum, byte by byte.
--  * GithubSync (internal/githubsync): GithubSync/Config is New, GithubSync/References validName and
--    boundedSHAs, GithubSync/Get is get and responseError, GithubSync/Client is Sync with its paging
--    loops. What net/http does is a parameter: the error of NewRequestWithContext, EscapedPath, and Do,
--    whose answer is a function of every request sent so far and which follows redirects unseen. The JSON
--    decoders are parameters too.
--    GithubSync/Action is the state that runs through Sync: the result and the log of requests.
--  * Archaeology (internal/store/project_archaeology_policy.go, with validArchaeologyOutcome of
--    project_archaeology_runner.go, validHistoricalSource of historical_import.go, boundedCoreText of
--    project_core_helpers.go and the policy of internal/domain/project_archaeology.go):
--    Archaeology/StableIds, Archaeology/Proposal and Archaeology/Outcome.
--  * Retention (internal/opsbackup/retention_linux.go): a directory as a table of files. What happens
--    between the two inspections of a file is a parameter, so other processes are covered there.
--  * Tasks (internal/store/project_core_helpers.go): the metadata of a write and the transition rule.
--  * Core (internal/store/project_core_write.go and project_core_helpers.go): the eight writes of the
--    project core. Core/Types holds the commands and the tables of migrations/, Core/Rows the statements
--    that the writes share, each with the keys and unique indexes of its table, Core/Relations the tests
--    on dependencies with the recursive query, Core/Projects, Core/Tasks and Core/Wiki the transactions,
--    Core/Commands the tests in front of them and the fingerprints, and Core/Writes what stands around
--    every transaction. Core/Effects says what any write does to the tables, and Core/Invariant, and
--    Core/Writes/History for any sequence of these eight writes, build on that alone; the claims of tasks
--    and the other writes of the store are no steps of such a sequence. A write reads the database
--    at three moments, between which other processes may write, and each of these reads may fail; under
--    the writer's lock it is alone, and its statements there fail only at a test or a constraint.
--  * Accounts (internal/store/human_auth.go): the account of the installation and its events. Accounts/Types
--    holds the records, Accounts/Profiles the tests on profiles, and the other files what calls do.
--  * Sessions (internal/store/human_sessions.go): the browser sessions as a table of rows.
--  * Prelude: lists, tables for Go maps, byte strings, texts, signed integers, results with errors, and
--    length(trim(s)) of SQLite, which the checks of two tables use (Prelude/Sql).
-- The opsfs rules of Ops are those of the operator files; Retention uses the string searches of
-- Archaeology/Texts.
--
-- A mutex makes a method one step; sequences of steps stand for interleavings (Jobs/Memory/Trace,
-- Presence/Trace). A time.Time or time.Duration is a signed number of nanoseconds. A Go map is an
-- association list with each key once, or the list of its members. Sorting is by insertion, where the
-- order decides the result. Recursion is structural: the paging loop runs over the number of pages left,
-- and the number printer has the number itself as fuel, more than it has digits. The recursive query on
-- dependencies has their number as fuel: each enters its queue at most once. Revisions are natural
-- numbers, which stand for int64 as long as a project has fewer than 2^63 writes.
--
-- Not modelled: HTTP handlers, the command line, SQLite itself, the reads and the other writes of the
-- store (posts, notifications, claims, the archaeology queue), the application layer
-- with its scheduler, the app-server bridge, process start and configuration, the opening of files, and
-- backup and restore themselves: I/O, or left for later. Messages of errors are left out where only the
-- error's identity is tested.
pub mod Prelude
pub mod Jobs
pub mod Presence
pub mod Ops
pub mod GithubSync
pub mod Archaeology
pub mod Retention
pub mod Tasks
pub mod Core
pub mod Accounts
pub mod Sessions
