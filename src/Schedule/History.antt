-- ===== src/Schedule/History.antt =====
-- The table of schedules in every history of the operations on it.
use eddyq.Prelude.{ℕ, ◌≡◌, sym, subst, arith, Bool, String, List, [], ℤ}
use eddyq.Sql.{count}
use eddyq.Store.{Db, Env, ok}
use eddyq.Invariant.{OnOk-apply}
use eddyq.Schedule.{
  ScheduleDeclaration, SyncReport, upsert_schedule_raw, upsert_interval_schedule_raw,
  sync_schedules, remove_schedule, set_enabled,
}
use eddyq.Schedule.Tick.{tick}
use eddyq.Schedule.Table.{
  IsScheduled, upsert_schedule-IsScheduled, upsert_interval-IsScheduled, sync_schedules-IsScheduled,
  remove_schedule-IsScheduled, set_enabled-IsScheduled, tick-IsScheduled,
}

-- One transaction, as the table of schedules sees it.
pub data Change (a : Db) : Db → Type 0 where
  upserts :
      (env : Env) (d : ScheduleDeclaration) (b : Db)
      → upsert_schedule_raw env d a ≡ ok b
      → Change a b
  upserts_interval :
      (env : Env) (ms : ℤ) (d : ScheduleDeclaration) (b : Db)
      → upsert_interval_schedule_raw env ms d a ≡ ok b
      → Change a b
  syncs :
      (env : Env) (declared : List ScheduleDeclaration) (r : SyncReport) (b : Db)
      → sync_schedules env declared a ≡ ok (r, b)
      → Change a b
  removes : (name : String) → Change a (remove_schedule name a).1
  enables : (name : String) (enabled : Bool) → Change a (set_enabled name enabled a).1
  ticks :
      (env : Env) (got_lock : Bool) (n : ℕ) (b : Db) → tick env got_lock a ≡ ok (n, b) → Change a b
  others : (b : Db) → b.schedules ≡ a.schedules → Change a b

-- The databases that such transactions lead to from an empty table.
pub data Changed : Db → Type 0 where
  start : (db : Db) → db.schedules ≡ [] → Changed db
  step : {a b : Db} → Changed a → Change a b → Changed b

Change-IsScheduled : {a b : Db} → Change a b → IsScheduled a.schedules → IsScheduled b.schedules
Change-IsScheduled {a = a} (Change.upserts env d b e) v =
    OnOk-apply (λ x. IsScheduled x.schedules) (upsert_schedule_raw env d a)
      (upsert_schedule-IsScheduled env d a v) e
Change-IsScheduled {a = a} (Change.upserts_interval env ms d b e) v =
    OnOk-apply (λ x. IsScheduled x.schedules) (upsert_interval_schedule_raw env ms d a)
      (upsert_interval-IsScheduled env ms d a v) e
Change-IsScheduled {a = a} (Change.syncs env declared r b e) v =
    OnOk-apply (λ x. IsScheduled x.1.schedules) (sync_schedules env declared a)
      (sync_schedules-IsScheduled env declared a v) e
Change-IsScheduled {a = a} (Change.removes name) v = remove_schedule-IsScheduled name a v
Change-IsScheduled {a = a} (Change.enables name enabled) v =
    set_enabled-IsScheduled name enabled a v
Change-IsScheduled {a = a} (Change.ticks env got_lock n b e) v =
    OnOk-apply (λ x. IsScheduled x.1.schedules) (tick env got_lock a)
      (tick-IsScheduled env got_lock a v) e
Change-IsScheduled {a = a} (Change.others b e) v = subst IsScheduled (sym e) v

-- In every history of the operations on schedules, a name is one row's, and a row has either a cron
-- expression or a positive interval: so a tick never meets a row without a trigger.
pub Changed-IsScheduled : {db : Db} → Changed db → IsScheduled db.schedules
unfolding count
Changed-IsScheduled (Changed.start db e) =
    subst IsScheduled (sym e) (record { names = λ k. omega arith; triggers = tt })
Changed-IsScheduled (Changed.step h c) = Change-IsScheduled c (Changed-IsScheduled h)
