-- ===== src/Invariant/Scheduled.antt =====
-- The scheduler and the election keep the counters: a tick inserts jobs that do not run.
use eddyq.Prelude.{ℕ, zero, suc, Bool, true, false, List, [], ◌∷◌, ℤ, pos, negsuc}
use eddyq.Sql.{select}
use eddyq.Store.{Db, Schedule, Lease, Env}
use eddyq.NamedQueue.{validate_queue_name}
use eddyq.Schedule.{
  ScheduleDeclaration, upsert_schedule_raw, upsert_interval_schedule_raw, sync_schedules, prepare,
  prepare_all, put_all, put_cron,
}
use eddyq.Schedule.Tick.{is_due, fired, next_run, advance, run_schedule, run_all, tick}
use eddyq.Invariant.{IsCounted, OnOk, OnOk-then, OnOk-bind}
use eddyq.Invariant.Insertion.{insert_row-IsCounted, notify-IsCounted}

pub schedules-IsCounted :
    (rows : List Schedule) (db : Db) → IsCounted db → IsCounted (record db { schedules = rows })
schedules-IsCounted rows db v = record { groups = v.groups; queues = v.queues; serial = v.serial }

pub leases-IsCounted :
    (rows : List Lease) (db : Db) → IsCounted db → IsCounted (record db { leases = rows })
leases-IsCounted rows db v = record { groups = v.groups; queues = v.queues; serial = v.serial }

pub upsert_schedule-IsCounted :
    (env : Env) (d : ScheduleDeclaration) (db : Db)
    → IsCounted db
    → OnOk IsCounted (upsert_schedule_raw env d db)
unfolding upsert_schedule_raw
upsert_schedule-IsCounted env d db v =
    OnOk-then IsCounted (prepare env d) _ (λ next. schedules-IsCounted _ db v)

pub upsert_interval-IsCounted :
    (env : Env) (ms : ℤ) (d : ScheduleDeclaration) (db : Db)
    → IsCounted db
    → OnOk IsCounted (upsert_interval_schedule_raw env ms d db)
unfolding upsert_interval_schedule_raw
upsert_interval-IsCounted env (pos (suc n)) d db v =
    OnOk-then IsCounted (validate_queue_name d.queue) _ (λ _. schedules-IsCounted _ db v)
upsert_interval-IsCounted env (pos zero) d db v =
    OnOk-then IsCounted (validate_queue_name d.queue) _ (λ _. tt)
upsert_interval-IsCounted env (negsuc n) d db v =
    OnOk-then IsCounted (validate_queue_name d.queue) _ (λ _. tt)

put_all-IsCounted :
    (prepared : List (ScheduleDeclaration × ℕ)) (db : Db)
    → IsCounted db
    → IsCounted (put_all prepared db)
unfolding put_all
put_all-IsCounted [] db v = v
put_all-IsCounted ((d, next) ∷ rest) db v =
    put_all-IsCounted rest (put_cron d next db) (schedules-IsCounted _ db v)

pub sync_schedules-IsCounted :
    (env : Env) (declared : List ScheduleDeclaration) (db : Db)
    → IsCounted db
    → OnOk (λ r. IsCounted r.1) (sync_schedules env declared db)
unfolding sync_schedules
sync_schedules-IsCounted env declared db v =
    OnOk-then (λ r. IsCounted r.1) (prepare_all env declared) _
      (λ prepared. schedules-IsCounted _ (put_all prepared db) (put_all-IsCounted prepared db v))

run_all-IsCounted :
    (env : Env) (due : List Schedule) (db : Db) → IsCounted db → OnOk IsCounted (run_all env due db)
unfolding run_all run_schedule advance
run_all-IsCounted env [] db v = v
run_all-IsCounted env (s ∷ ss) db v =
    OnOk-bind IsCounted IsCounted (run_schedule env s db) _
      (OnOk-then IsCounted (next_run env s.interval_ms s.cron_expr) _
        (λ next. schedules-IsCounted _ _ (insert_row-IsCounted env.now (fired s) db v)))
      (λ d h. run_all-IsCounted env ss d h)

pub tick-IsCounted :
    (env : Env) (got_lock : Bool) (db : Db)
    → IsCounted db
    → OnOk (λ r. IsCounted r.1) (tick env got_lock db)
unfolding tick
tick-IsCounted env false db v = v
tick-IsCounted env true db v =
    OnOk-bind IsCounted (λ r. IsCounted r.1) (run_all env (select (is_due env.now) db.schedules) db)
      _ (run_all-IsCounted env (select (is_due env.now) db.schedules) db v)
      (λ d h. notify-IsCounted _ d h)
