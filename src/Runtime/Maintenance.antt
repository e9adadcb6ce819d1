-- ===== src/Runtime/Maintenance.antt =====
-- The leader's loop and the loops that only the leader's process runs: leader_loop, sweeper_loop,
-- scheduler_loop and cleanup_loop of crates/eddyq-core/src/runtime.rs, each as what one wake does.
-- Times are milliseconds; one clock stands for the database's and the processes'.
pub mod Lease
pub mod Elected
pub mod Handover
use eddyq.Prelude.{
  ℕ, ◌+◌, ◌*◌, ◌/◌, Bool, true, false, ◌&&◌, not, Option, none, some, leb, max, if◌then◌else◌,
}
use eddyq.Store.{Db, Env, Result, ok, err}
use eddyq.Leader.{try_elect, resign, maintenance_role}
use eddyq.Fetch.Sweep.{sweep_stale, reconcile_counters}
use eddyq.Fetch.Retention.{Retention, is_disabled, cleanup}
use eddyq.Schedule.Tick.{tick}

-- The flag that a process's loops share, and whether its shutdown token is cancelled.
pub record Process : Type 0 where
  pub is_leader : Bool
  pub is_shutdown : Bool

abbrev pub booted : Process
booted = record { is_leader = false; is_shutdown = false }

-- Whether a loop's next wake may do maintenance: each select is biased to the shutdown token.
abbrev pub leads : Process → Bool
leads p = not p.is_shutdown && p.is_leader

-- leader_lease_secs / 3 in whole seconds, and 5 s at least.
unfoldable pub refresh_interval : ℕ → ℕ
refresh_interval lease_secs = max (lease_secs / 3 * 1000) 5000

-- What wakes the loop; its first election is like a tick.
pub data Wake : Type 0 where
  interval peer_resigned shutdown : Wake

-- Whether the loop asks for the lease.
abbrev pub asks : Wake → Process → Bool
asks Wake.interval p = true
asks Wake.peer_resigned p = not p.is_leader
asks Wake.shutdown p = false

-- An election that fails, `answers` being false, leaves the flag; it is taken to leave the lease.
unfoldable pub try_elect_once : ℕ → ℕ → Bool → ℕ → Process → Db → Process × Db
try_elect_once now lease_secs false worker p db = (p, db)
try_elect_once now lease_secs true worker p db =
    let (won, d) = try_elect now worker maintenance_role lease_secs db in
    (record p { is_leader = won }, d)

-- The resignation of a process that shuts down does not clear its flag.
unfoldable pub leader_wake : ℕ → ℕ → Bool → ℕ → Wake → Process → Db → Process × Db
unfolding try_elect_once
leader_wake now lease_secs answers worker Wake.interval p db =
    try_elect_once now lease_secs answers worker p db
leader_wake now lease_secs answers worker Wake.peer_resigned p db =
    if p.is_leader then (p, db) else try_elect_once now lease_secs answers worker p db
leader_wake now lease_secs answers worker Wake.shutdown p db = (
  record p { is_shutdown = true },
  if p.is_leader && answers then resign now worker maintenance_role db else db,
)

-- An error is logged, and its transaction is rolled back.
abbrev pub kept {ℓ} : {A : Type ℓ} → Db → Result (A × Db) → Db
kept db (ok (_, d)) = d
kept db (err _) = db

-- 300 s
abbrev pub reconcile_interval : ℕ
reconcile_interval = 300000

abbrev pub reconcile_due : ℕ → Option ℕ → Bool
reconcile_due now none = true
reconcile_due now (some t) = leb (t + reconcile_interval) now

-- The time of the last reconciliation, which runs after the sweep, and the database.
unfoldable pub sweeper_wake : Env → ℕ → Process → Option ℕ → Db → Option ℕ × Db
sweeper_wake env stale_secs p last db =
    let swept = kept db (sweep_stale env stale_secs db) in
    if not (leads p)
    then (last, db)
    else if reconcile_due env.now last
    then (some env.now, (reconcile_counters swept).1)
    else (last, swept)

-- `locked`: the tick has the advisory lock.
unfoldable pub scheduler_wake : Env → Bool → Process → Db → Db
scheduler_wake env locked p db = if leads p then kept db (tick env locked db) else db

-- The loop returns at once if no retention is configured.
unfoldable pub cleanup_wake : ℕ → Retention → Process → Db → Db
cleanup_wake now retention p db =
    if is_disabled retention then db else if leads p then (cleanup now retention db).1 else db
