-- ===== src/Runtime/Shutdown.antt =====
-- The start and the stop of a queue's runtime: crates/eddyq-core/src/queue.rs. The runtime is here
-- the set of jobs in flight that it shares; what its tasks still do while they are awaited is other
-- transactions, so a shutdown that waits is given the database as it is after the wait.
use eddyq.Prelude.{ℕ, Bool, true, false, List, []}
use eddyq.Store.{Db, Env, Result, ok, err, already_running, not_running}
use eddyq.Fetch.Sweep.{reclaim_in_flight}

pub data QueueState : Type 0 where
  idle : QueueState
  running : (in_flight : List ℕ) → QueueState

pub data ShutdownMode : Type 0 where
  drain force abandon : ShutdownMode

pub data DrainOutcome : Type 0 where
  clean : DrainOutcome
  escalated : (reclaimed : ℕ) → DrainOutcome

-- `Queue::start`: the new runtime has nothing in flight.
unfoldable pub start_runtime : QueueState → Result QueueState
start_runtime idle = ok (running [])
start_runtime (running in_flight) = err already_running

-- An error of the reclaim is logged, and its transaction is rolled back.
abbrev pub or_unreclaimed : Db → Result (ℕ × Db) → ℕ × Db
or_unreclaimed db (ok r) = r
or_unreclaimed db (err e) = (0, db)

unfoldable pub shutdown_with : Env → ShutdownMode → QueueState → Db → Result (QueueState × Db)
unfolding reclaim_in_flight
shutdown_with env mode idle db = err not_running
shutdown_with env drain (running in_flight) db = ok (idle, db)
shutdown_with env force (running in_flight) db =
    ok (idle, (or_unreclaimed db (reclaim_in_flight env in_flight db)).1)
shutdown_with env abandon (running in_flight) db = ok (idle, db)

abbrev pub escalate : ℕ × Db → DrainOutcome × QueueState × Db
escalate (n, db) = (escalated n, idle, db)

-- The set in flight is read before the wait; `finished` tells whether the tasks ended in time.
unfoldable pub shutdown_drain_bounded :
    Env → (finished : Bool) → QueueState → Db → Result (DrainOutcome × QueueState × Db)
unfolding reclaim_in_flight
shutdown_drain_bounded env finished idle later = err not_running
shutdown_drain_bounded env true (running in_flight) later = ok (clean, idle, later)
shutdown_drain_bounded env false (running in_flight) later =
    ok (escalate (or_unreclaimed later (reclaim_in_flight env in_flight later)))
