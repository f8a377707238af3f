-- ===== src/Lib.antt =====
-- Verification library of pxc-anonymizer.
--
-- pxc-anonymizer restores a backup of a Percona XtraDB Cluster into a scratch cluster, rewrites its
-- personal data there and publishes a backup of the result. The controllers
-- (internal/controller) drive the restore and start a runner job; the runner (internal/runner)
-- connects to the scratch cluster, executes SQL steps, and goes through the tables page by page.
-- This library models the runner's core and its engine, the choice of the backup, the schedule
-- controller, the run controller and the pointer documents: the parts whose mistakes would lose,
-- repeat or skip work.
--
-- Parts and files:
--   Errors       the errors that the runner tells apart, with errors.As and errors.Is over them.
--   Report       internal/runner/report/report.go: error classes, messages and exit codes.
--   Sql          the interface of database/sql and the MySQL driver as a record `Server C` of
--                calls on a state `C` that stands for everything outside the program; the monad
--                `Io C` of calls that may fail; `in_tx` for BeginTx, the deferred Rollback and Commit.
--   Checkpoint   internal/runner/checkpoint/checkpoint.go: Ensure, Drop, Load, Save; in
--                Checkpoint/Cursor the encoding of a primary key as type-tagged texts.
--   Pager        internal/runner/pager/pager.go: Validate, ProcessPage, updateRow, and in
--                Pager/Identifier and Pager/Statements the SQL text that they send.
--   SqlStep      internal/runner/sqlstep/sqlstep.go: Execute and Run; in
--                SqlStep/Truncate the function Truncate, with its deferred reset.
--   Strategy     internal/runner/strategy: in Strategy/Params and Strategy/Compile the checks of
--                params.go, in Strategy/Generate, Strategy/Texts and Strategy/Network the
--                generation of generate.go, in Strategy/Legacy the Parse of registry.go.
--                HMAC-SHA256, gofakeit, the seeded random source and Unicode normalization are
--                the parameter `Library S`, where `S` is the state of the source, with the laws
--                `IsLibrary`.
--   Policy       internal/runner/policy/snapshot.go: the validation of a policy, which compiles
--                every rule; Policy/Valid says what an accepted policy holds.
--   Backups      internal/pxc/select.go: the choice of the backup to restore from.
--   Schedule     internal/controller/anonymizationschedule_controller.go: the latest missed tick of
--                a cron schedule; in Schedule/History and Schedule/Pruning what the history
--                limits remove; in Schedule/Status the status; in Schedule/Controller Reconcile
--                and its handlers, with the API server, the cron library and the naming of runs
--                as the parameters `Api`, `Cron` and `Naming`. Schedule/Creation,
--                Schedule/AtMostOne and Schedule/Advance hold the proofs about Reconcile.
--   Runs         internal/controller/anonymizationrun_controller.go and run_resources.go: in
--                Runs/Report the runner's report, in Runs/Pipeline the phases up to the restore,
--                in Runs/Anonymization the runner's job and its attempts, in Runs/Publication the
--                backup of the result and its retention, in Runs/Cleanup the end of a run, its
--                finalizer and Reconcile itself. The API server, the children that are rendered and
--                the status conditions are parameters. Runs/Machine is an abstract machine of
--                phases and attempts; its child modules relate Reconcile to it.
--   Engine       internal/runner/engine: in Engine the connection, the steps, the truncation and the
--                loop over the pages of a table (engine.go), in Engine/Execution the order of the
--                plan, in Engine/Columns and Engine/Plan the checks of columns, keys and values
--                (preflight.go and values.go). The steps are those of SqlStep; the pool
--                and the processing of one page are parameters. Engine/Retries, Engine/Counting,
--                Engine/Numerals and Engine/Ranges hold the proofs.
--   Pointer      internal/pointer/pointer.go: Validate, MarshalJSON and UnmarshalJSON, with
--                ParseURL and ParseEndpoint of internal/objectstore/client.go; in Pointer/Fetch the
--                fetchHTTP of fetch.go, over an HTTP client that is a parameter.
--   Tests        runs at concrete inputs, with a server in memory.
--
-- How they interact: Pager and SqlStep open a transaction, load the progress through Checkpoint,
-- do their work, save the progress in the same transaction and commit. What the proofs ask of the
-- server is stated as records of laws: Pager/Storage (`IsStorage`) says that a transaction is
-- atomic, that a page's query answers the first rows after the cursor in key order, and that an
-- update touches its row only; SqlStep/Durability (`IsDurable`) says that a checkpoint row changes
-- by a committed save only. A call may fail at any point, and a crash is a call in which every later
-- request fails. The run controller creates one child after the other, and saves its status with the
-- optimistic lock of the API server (`IsLocked` in Runs/Machine), which is what makes its attempts
-- countable.
--
-- Bounds: the engine's counts of rows are integers without a bound, since no table holds 2 ^ 63
-- rows; int64, uint64, int32 and uint8 are numbers with the bounds of the type written out. The
-- loop of updateRow runs on the attempts that are left, MaxUniqueAttempts at the start, as in the
-- source; the search for missed ticks has 102 rounds, since the source stops after 101 ticks; the
-- loops over pages and connections run on fuel (Engine/Retries is about how long they go on);
-- decimal texts have n + 1 rounds, enough for the digits of n; all other loops are structural.
--
-- Not modelled: contexts and deadlines; the standard library's JSON, base64, float and time texts
-- (the record `Formats`, with the law `IsLossless` where a theorem needs it); logs, events and
-- metrics; the queries of the engine's preflight; the snapshot of a run and the objects that are
-- rendered for it; the controllers of bootstraps, backup pointers and policies; the object store, the
-- fetching of pointers from it and the Crossplane client.
pub mod Prelude
pub mod Errors
pub mod Sql
pub mod Checkpoint
pub mod Pager
pub mod SqlStep
pub mod Report
pub mod Strategy
pub mod Pointer
pub mod Policy
pub mod Backups
pub mod Engine
pub mod Runs
pub mod Schedule
mod Tests
