-- ===== src/Runtime/Heartbeat.antt =====
-- heartbeat_loop of crates/eddyq-core/src/runtime.rs, against the leader's sweeps.
use eddyq.Prelude.{ℕ, Bool, ◌&&◌, List, is_num, if◌then◌else◌}
use eddyq.Store.{Db, Job, Env}
use eddyq.Fetch.Finish.{is_held, update_heartbeat_batch}
use eddyq.Runtime.Maintenance.{Process}

-- One tick for all jobs in flight; a process that shuts down has left the loop.
unfoldable pub heartbeat_wake : Env → Process → List ℕ → Db → Db
heartbeat_wake env p in_flight db =
    if p.is_shutdown then db else (update_heartbeat_batch env in_flight db).1

-- The worker holds the job, and its heartbeat is of the given time.
abbrev is_fresh : ℕ → ℕ → ℕ → Job → Bool
is_fresh i worker at j = is_held i worker j && is_num j.heartbeat_at at
