-- ===== src/Lib.antt =====
-- eddyq, a job queue on Postgres: the core crate crates/eddyq-core, modelled as functions on a
-- database.
--
-- The program. Producers insert jobs (crates/eddyq-core/src/enqueue.rs), alone, in bulk or as a
-- batch with a callback (crates/eddyq-core/src/batch.rs), and recurring ones are inserted by a
-- scheduler (crates/eddyq-core/src/schedule.rs). Workers claim jobs (crates/eddyq-
-- core/src/fetch.rs, claim_batch) within the caps of named queues (crates/eddyq-
-- core/src/named_queue.rs) and of groups, which may have a token bucket and may be made by rules
-- (crates/eddyq-core/src/group.rs). A process runs a fetcher and workers (crates/eddyq-
-- core/src/runtime.rs, crates/eddyq-core/src/worker.rs), which report the end of a run
-- (crates/eddyq-core/src/error.rs, crates/eddyq-core/src/retry.rs), and one process is elected to
-- maintain the tables (crates/eddyq-core/src/leader.rs). The end of a run, the recovery of lost
-- runs, the repair of counters and the deletion of old rows are the rest of crates/eddyq-
-- core/src/fetch.rs; crates/eddyq-core/src/queue.rs starts and stops a process.
--
-- The model. Store has the tables as one record `Db`; Store/Rows the rows, from the migrations and
-- the structs of crates/eddyq-core/src/job.rs, crates/eddyq-core/src/group.rs, crates/eddyq-
-- core/src/named_queue.rs, crates/eddyq-core/src/schedule.rs and crates/eddyq-core/src/batch.rs;
-- Store/Context the error type of crates/eddyq-core/src/error.rs and what the crate calls of
-- serde_json, cron and Postgres as fields of `Env`. Sql has the statements as functions on lists
-- of rows, with laws in Sql/Count, Sql/Order, Sql/Keyed, Sql/Members, Sql/Upsert and Store/Serial.
-- A transaction is a function from a database to a database, or to a `Result` where it can fail,
-- and an error rolls it back.
--
--   NamedQueue: crates/eddyq-core/src/named_queue.rs, function by function.
--   Group: crates/eddyq-core/src/group.rs, function by function.
--   Enqueue, Enqueue/Insert: the DynEnqueue half of crates/eddyq-core/src/enqueue.rs.
--     Enqueue/Typed: the half for types with the trait Job, a record of functions, and
--     build_dyn_enqueue of crates/eddyq-core/src/queue.rs. Enqueue/Agreement: that the halves
--     agree.
--   Batch, Batch/Callback: crates/eddyq-core/src/batch.rs.
--   Schedule, Schedule/Tick: crates/eddyq-core/src/schedule.rs, function by function; its other
--     children are about the table of schedules and the ticks.
--   Leader: crates/eddyq-core/src/leader.rs; Leader/Refinement has the abstract lease,
--     Leader/Exclusive the histories of elections.
--   Failure: the failures of crates/eddyq-core/src/error.rs, with truncate_for_storage.
--   Fetch/Claim: claim_batch of crates/eddyq-core/src/fetch.rs; phase 0 is Claim/Budgets, phases 1
--     and 3 are Claim/Lanes, phase 2 is Claim/Groups, step 4 is Claim/Write.
--   Fetch/Finish: mark_completed, mark_failed, cancel, update_heartbeat_batch.
--   Fetch/Sweep: sweep_stale, reclaim_in_flight, reconcile_counters.
--   Fetch/Retention: cleanup, clean_jobs, and the CleanState of crates/eddyq-
--     core/src/backend/mod.rs.
--   Runtime/Backoff: crates/eddyq-core/src/retry.rs. Runtime/Idle: the idle backoff of
--     crates/eddyq-core/src/runtime.rs. Runtime/Outcome: how worker_loop reports a run.
--     Runtime/Slots: fetch_loop and worker_loop as steps on the semaphore, the channel, the
--     workers and the set in flight. Runtime/Registry: crates/eddyq-core/src/worker.rs.
--     Runtime/Maintenance: leader_loop, sweeper_loop, scheduler_loop and cleanup_loop, each as
--     what one wake does; its children have the runs of these loops by any processes.
--     Runtime/Heartbeat: heartbeat_loop. Runtime/Shutdown: start and shutdown of crates/eddyq-
--     core/src/queue.rs. The other children of Runtime are about these.
--   Traces: the committed transactions as a step relation, and the databases that histories reach.
--   Invariant and its children: what each transaction keeps of the counters.
--   Claiming and its children: what a claim takes.
--   Settlement and its children: batches, callbacks, stale workers, sweeps and retention.
--   Unique and its children: the unique index through histories.
--   Examples: concrete databases, with every theorem below applied to one.
--
-- Choices and bounds. A transaction is one step: what other transactions do to a claim meanwhile
-- is in its `Poll`, which has the rows that SKIP LOCKED passes over and the eddyq_queues of the
-- unlocked first read, both arbitrary, and the order of the HashMap of groups. Statements that
-- take no lock are otherwise taken as atomic, so a peer that commits between two statements of one
-- transaction is not modelled. NOW() and Utc::now() are one number, `Env.now`, in milliseconds;
-- durations of the runtime are nanoseconds, and random numbers are arguments. Counting columns are
-- natural numbers without the upper limit of INTEGER. A group's tokens are kept in units of 1 /
-- rate_period_ms, exactly, where the source has a double: the refill of e ms adds e * count units,
-- and slots are the quotient by the period. Tables list rows newest first; ORDER BY is a stable
-- sort, so ties go by the table's order, and text is ordered by code points. A JSON value is its
-- text. Texts of error messages, created_at and updated_at of groups, queues, rules and schedules
-- are left out. Decimal texts have fuel: a batch's id plus one, and twenty for a length in bytes,
-- each no less than the number of digits. Of the constraints, the unique index on live keys, the
-- foreign key of batch_id, the CHECK on rates of rules and that on a batch's counts are modelled.
-- A wake of a maintenance loop is one step, and an election that fails is taken to leave the
-- lease. An error entry is taken to be a JSON object, as those of this program are, so || appends
-- it. Intervals, delays and stale_after are taken to lie within the range of chrono, outside which
-- it panics, and of a PostgreSQL interval and timestamp, outside which a statement fails.
--
-- Not modelled: what a shutdown does to jobs in the channel; the decoding of a payload for a typed
-- handler; statistics, migrations, and the builder of crates/eddyq-core/src/queue.rs, which sets
-- configuration; the recursive walks over group keys are modelled by the set of keys that they
-- find; the crates eddyq-redis, eddyq-client, eddyq-cli and eddyq-napi, and the packages in
-- TypeScript, which bind, present or delegate.
pub mod Prelude
pub mod Sql
pub mod Store
pub mod NamedQueue
pub mod Group
pub mod Enqueue
pub mod Batch
pub mod Schedule
pub mod Leader
pub mod Failure
pub mod Runtime
pub mod Fetch
pub mod Invariant
pub mod Claiming
pub mod Traces
pub mod Unique
pub mod Settlement
pub mod Examples
