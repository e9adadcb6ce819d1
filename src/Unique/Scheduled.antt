-- ===== src/Unique/Scheduled.antt =====
-- The scheduler keeps the unique index: its jobs hold no key.
use eddyq.Prelude.{ℕ, zero, suc, ◌≡◌, refl, Bool, true, false, List, [], ◌∷◌, ℤ, pos, negsuc}
use eddyq.Sql.{select}
use eddyq.Store.{Db, Schedule, Env}
use eddyq.NamedQueue.{validate_queue_name}
use eddyq.Schedule.{
  ScheduleDeclaration, upsert_schedule_raw, upsert_interval_schedule_raw, sync_schedules, prepare,
  prepare_all, put_all, put_cron,
}
use eddyq.Schedule.Tick.{is_due, fired, next_run, advance, run_schedule, run_all, tick}
use eddyq.Invariant.{OnOk, OnOk-then, OnOk-bind}
use eddyq.Settlement.Grown.{insert_row-grown, notify-grown}
use eddyq.Unique.Rows.{IsUnique, grow-IsUnique}
use eddyq.Unique.Steps.{Kept}
use eddyq.Unique.Insertion.{Always}

-- Writes to the table of schedules alone.
pub upsert_schedule-jobs :
    (env : Env) (d : ScheduleDeclaration) (db : Db)
    → OnOk (λ x. x.jobs ≡ db.jobs) (upsert_schedule_raw env d db)
unfolding upsert_schedule_raw
upsert_schedule-jobs env d db = OnOk-then (λ x. x.jobs ≡ db.jobs) (prepare env d) _ (λ next. refl)

pub upsert_interval-jobs :
    (env : Env) (ms : ℤ) (d : ScheduleDeclaration) (db : Db)
    → OnOk (λ x. x.jobs ≡ db.jobs) (upsert_interval_schedule_raw env ms d db)
unfolding upsert_interval_schedule_raw
upsert_interval-jobs env (pos (suc n)) d db =
    OnOk-then (λ x. x.jobs ≡ db.jobs) (validate_queue_name d.queue) _ (λ _. refl)
upsert_interval-jobs env (pos zero) d db =
    OnOk-then (λ x. x.jobs ≡ db.jobs) (validate_queue_name d.queue) _ (λ _. tt)
upsert_interval-jobs env (negsuc n) d db =
    OnOk-then (λ x. x.jobs ≡ db.jobs) (validate_queue_name d.queue) _ (λ _. tt)

put_all-jobs :
    (prepared : List (ScheduleDeclaration × ℕ)) (db : Db) → (put_all prepared db).jobs ≡ db.jobs
unfolding put_all
put_all-jobs [] db = refl
put_all-jobs ((d, next) ∷ rest) db = put_all-jobs rest (put_cron d next db)

pub sync_schedules-jobs :
    (env : Env) (declared : List ScheduleDeclaration) (db : Db)
    → OnOk (λ r. r.1.jobs ≡ db.jobs) (sync_schedules env declared db)
unfolding sync_schedules
sync_schedules-jobs env declared db =
    OnOk-then (λ r. r.1.jobs ≡ db.jobs) (prepare_all env declared) _
      (λ prepared. put_all-jobs prepared db)

run_all-Kept :
    (env : Env) (due : List Schedule) (db : Db) → Kept db → OnOk Kept (run_all env due db)
unfolding run_all run_schedule advance
run_all-Kept env [] db u = u
run_all-Kept env (s ∷ ss) db u =
    OnOk-bind Kept Kept (run_schedule env s db) _
      (OnOk-then Kept (next_run env s.interval_ms s.cron_expr) _
        (λ next. (insert_row-grown IsUnique Always grow-IsUnique env.now (fired s) db (u, tt)).0))
      (λ d h. run_all-Kept env ss d h)

pub tick-Kept :
    (env : Env) (got_lock : Bool) (db : Db) → Kept db → OnOk (λ r. Kept r.1) (tick env got_lock db)
unfolding tick
tick-Kept env false db u = u
tick-Kept env true db u =
    OnOk-bind Kept (λ r. Kept r.1) (run_all env (select (is_due env.now) db.schedules) db) _
      (run_all-Kept env (select (is_due env.now) db.schedules) db u)
      (λ d h. (notify-grown IsUnique Always grow-IsUnique _ d (h, tt)).0)
