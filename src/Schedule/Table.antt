-- ===== src/Schedule/Table.antt =====
-- The rows of eddyq_schedules: the uniqueness of names, and the trigger of a row.
use eddyq.Prelude.{
  ℕ, suc, zero, ◌+◌, ◌≤◌, ◌≡◌, refl, arith, Bool, true, false, String, Option, none, some, List, [],
  ◌∷◌, any, ltb, str_eq, eq_iff, All, subst, sym, ap, ◌∙◌, Bool-cases, inl, inr, ℤ, pos, negsuc,
}
use eddyq.Sql.{count, update, delete, select}
use eddyq.Sql.Count.{count-update_same, count-any, count-delete-le}
use eddyq.Sql.Members.{All-update, All-delete}
use eddyq.Store.{Db, Schedule, Env}
use eddyq.NamedQueue.{validate_queue_name}
use eddyq.Invariant.{OnOk, OnOk-then, OnOk-bind}
use eddyq.Enqueue.{notify}
use eddyq.Enqueue.Insert.{insert_row}
use eddyq.Schedule.{
  is_called, set_columns, put_schedule, put_all, put_cron, ScheduleDeclaration, upsert_schedule_raw,
  upsert_interval_schedule_raw, sync_schedules, remove_schedule, set_enabled, prepare, prepare_all,
  is_undeclared, same_cron, same_interval, cron_row, interval_row,
}
use eddyq.Schedule.Tick.{advance, run_schedule, run_all, tick, next_run, is_due}

-- A cron expression or a positive interval, and not both.
abbrev pub has_trigger : Option String → Option ℕ → Bool
has_trigger (some expr) none = true
has_trigger none (some ms) = ltb 0 ms
has_trigger _ _ = false

abbrev pub Triggered : Schedule → Type 0
Triggered s = has_trigger s.cron_expr s.interval_ms ≡ true

pub record IsScheduled (rows : List Schedule) : Type 0 where
  pub names : (k : String) → count (is_called k) rows ≤ 1
  pub triggers : All Triggered rows

-- A row with a new name leaves every name to one row.
new_name :
    (new k : String) (rows : List Schedule) (row : Schedule)
    → row.name ≡ new
    → any (is_called new) rows ≡ false
    → count (is_called k) rows ≤ 1
    → count (is_called k) (row ∷ rows) ≤ 1
unfolding count
new_name new k rows row e fresh h = elim (Bool-cases (str_eq row.name k)) [
  | inl same ↦ rw same (
      omega (
        arith,
        count-any (is_called k) rows (
            subst (λ n. any (is_called n) rows ≡ false) (sym e ∙ (eq_iff row.name k).0 same) fresh),
      ))
  | inr other ↦ rw other (omega arith)
]

pub put_schedule-IsScheduled :
    (same : Schedule → Schedule → Bool) (new : Schedule) (rows : List Schedule)
    → Triggered new
    → IsScheduled rows
    → IsScheduled (put_schedule same new rows)
unfolding put_schedule
put_schedule-IsScheduled same new rows t v = elim (Bool-cases (any (is_called new.name) rows)) [
  | inl e ↦ rw e (record {
    names = λ k.
        rw
          (count-update_same (is_called k) (is_called new.name) (set_columns same new) (λ s. refl)
            rows)
          (v.names k);
    triggers =
        All-update Triggered (is_called new.name) (set_columns same new) (λ s _ _. t) rows
          v.triggers;
  })
  | inr e ↦ rw e (record {
    names = λ k. new_name new.name k rows new refl e (v.names k);
    triggers = (t, v.triggers);
  })
]

abbrev Holds : Db → Type 0
Holds db = IsScheduled db.schedules

pub upsert_schedule-IsScheduled :
    (env : Env) (d : ScheduleDeclaration) (db : Db)
    → Holds db
    → OnOk Holds (upsert_schedule_raw env d db)
unfolding upsert_schedule_raw
upsert_schedule-IsScheduled env d db v =
    OnOk-then Holds (prepare env d) _
      (λ next. put_schedule-IsScheduled same_cron (cron_row d next) db.schedules refl v)

pub upsert_interval-IsScheduled :
    (env : Env) (ms : ℤ) (d : ScheduleDeclaration) (db : Db)
    → Holds db
    → OnOk Holds (upsert_interval_schedule_raw env ms d db)
unfolding upsert_interval_schedule_raw
upsert_interval-IsScheduled env (pos (suc n)) d db v =
    OnOk-then Holds (validate_queue_name d.queue) _ (λ _.
      put_schedule-IsScheduled same_interval (interval_row d (suc n) (env.now + suc n)) db.schedules
        (ground arith) v)
upsert_interval-IsScheduled env (pos zero) d db v =
    OnOk-then Holds (validate_queue_name d.queue) _ (λ _. tt)
upsert_interval-IsScheduled env (negsuc n) d db v =
    OnOk-then Holds (validate_queue_name d.queue) _ (λ _. tt)

put_all-IsScheduled :
    (prepared : List (ScheduleDeclaration × ℕ)) (db : Db) → Holds db → Holds (put_all prepared db)
unfolding put_all
put_all-IsScheduled [] db v = v
put_all-IsScheduled ((d, next) ∷ rest) db v =
    put_all-IsScheduled rest (put_cron d next db)
      (put_schedule-IsScheduled same_cron (cron_row d next) db.schedules refl v)

delete-IsScheduled :
    (p : Schedule → Bool) (rows : List Schedule) → IsScheduled rows → IsScheduled (delete p rows)
delete-IsScheduled p rows v = record {
  names = λ k. omega (arith, v.names k, count-delete-le (is_called k) p rows);
  triggers = All-delete Triggered p rows v.triggers;
}

pub sync_schedules-IsScheduled :
    (env : Env) (declared : List ScheduleDeclaration) (db : Db)
    → Holds db
    → OnOk (λ r. Holds r.1) (sync_schedules env declared db)
unfolding sync_schedules
sync_schedules-IsScheduled env declared db v =
    OnOk-then (λ r. Holds r.1) (prepare_all env declared) _
      (λ prepared.
        delete-IsScheduled (is_undeclared declared) (put_all prepared db).schedules
          (put_all-IsScheduled prepared db v))

pub remove_schedule-IsScheduled :
    (name : String) (db : Db) → Holds db → Holds (remove_schedule name db).1
unfolding remove_schedule
remove_schedule-IsScheduled name db v = delete-IsScheduled (is_called name) db.schedules v

-- Columns other than the name and the trigger may change.
update-IsScheduled :
    (p : Schedule → Bool) (f : Schedule → Schedule) (rows : List Schedule)
    → ((s : Schedule) → (f s).name ≡ s.name)
    → ((s : Schedule) → Triggered s → Triggered (f s))
    → IsScheduled rows
    → IsScheduled (update p f rows)
update-IsScheduled p f rows name trigger v = record {
  names = λ k.
      rw (count-update_same (is_called k) p f (λ s. ap (λ n. str_eq n k) (name s)) rows)
        (v.names k);
  triggers = All-update Triggered p f (λ s _. trigger s) rows v.triggers;
}

pub set_enabled-IsScheduled :
    (name : String) (enabled : Bool) (db : Db) → Holds db → Holds (set_enabled name enabled db).1
unfolding set_enabled
set_enabled-IsScheduled name enabled db v =
    update-IsScheduled (is_called name) _ db.schedules (λ s. refl) (λ s t. t) v

run_all-IsScheduled :
    (env : Env) (due : List Schedule) (db : Db) → Holds db → OnOk Holds (run_all env due db)
unfolding run_all run_schedule advance insert_row
run_all-IsScheduled env [] db v = v
run_all-IsScheduled env (s ∷ ss) db v =
    OnOk-bind Holds Holds (run_schedule env s db) _
      (OnOk-then Holds (next_run env s.interval_ms s.cron_expr) _
        (λ next. update-IsScheduled (is_called s.name) _ db.schedules (λ s. refl) (λ s t. t) v))
      (λ d h. run_all-IsScheduled env ss d h)

pub notify-schedules : (due : Bool) (db : Db) → (notify due db).schedules ≡ db.schedules
unfolding notify
notify-schedules true db = refl
notify-schedules false db = refl

pub tick-IsScheduled :
    (env : Env) (got_lock : Bool) (db : Db)
    → Holds db
    → OnOk (λ r. Holds r.1) (tick env got_lock db)
unfolding tick
tick-IsScheduled env false db v = v
tick-IsScheduled env true db v =
    OnOk-bind Holds (λ r. Holds r.1) (run_all env (select (is_due env.now) db.schedules) db) _
      (run_all-IsScheduled env (select (is_due env.now) db.schedules) db v)
      (λ d h. subst IsScheduled (sym (notify-schedules _ d)) h)
