-- ===== src/Schedule.antt =====
-- crates/eddyq-core/src/schedule.rs: recurring jobs, driven by a cron expression or an interval.
-- `Utc::now()` and NOW() are one clock. An interval is taken to lie within chrono's range.
pub mod Tick
pub mod Table
pub mod Once
pub mod Bulk
pub mod Blocked
pub mod Lookup
pub mod Sync
pub mod History
use Prim.Native.String.{compare}
use text.Mathlib.Text.{is_lt}
use eddyq.Prelude.{
  ℕ, zero, suc, ◌+◌, Bool, true, false, not, ◌&&◌, String, Option, none, some, List, [], ◌∷◌, map,
  leb, ltb, ◌==◌, any, any_text, length, str_eq, if◌then◌else◌, ℤ, pos, negsuc,
}
use eddyq.Sql.{select, delete, update, sort}
use eddyq.Store.{
  Db, Json, Schedule, DynEnqueue, Env, Result, ok, err, ◌>>=◌, cron as cron_error, invalid_argument,
}
use eddyq.NamedQueue.{validate_queue_name}
use eddyq.Enqueue.{notify}
use eddyq.Enqueue.Insert.{insert_row}

abbrev pub is_called : String → Schedule → Bool
is_called name s = str_eq s.name name

abbrev or_cron_error {ℓ} : {A : Type ℓ} → Option A → Result A
or_cron_error none = err cron_error
or_cron_error (some a) = ok a

-- The expression's first firing after now.
unfoldable pub next_firing : Env → String → Result ℕ
next_firing env expr =
    or_cron_error (env.cron expr) >>= λ upcoming. or_cron_error (upcoming env.now)

-- IS NOT DISTINCT FROM
abbrev pub same_text : Option String → Option String → Bool
same_text none none = true
same_text (some a) (some b) = str_eq a b
same_text _ _ = false

abbrev pub same_num : Option ℕ → Option ℕ → Bool
same_num none none = true
same_num (some a) (some b) = a == b
same_num _ _ = false

abbrev pub same_cron : Schedule → Schedule → Bool
same_cron new s = same_text s.cron_expr new.cron_expr

abbrev pub same_interval : Schedule → Schedule → Bool
same_interval new s = same_num s.interval_ms new.interval_ms

-- DO UPDATE SET …: `same` tells whether the trigger is the row's own, which keeps its next run.
abbrev pub set_columns : (Schedule → Schedule → Bool) → Schedule → Schedule → Schedule
set_columns same new s = record s {
  kind = new.kind;
  payload = new.payload;
  cron_expr = new.cron_expr;
  interval_ms = new.interval_ms;
  next_run_at = if same new s then s.next_run_at else new.next_run_at;
  priority = new.priority;
  max_attempts = new.max_attempts;
  queue = new.queue;
}

-- INSERT INTO eddyq_schedules … ON CONFLICT (name) DO UPDATE
unfoldable pub put_schedule :
    (Schedule → Schedule → Bool) → Schedule → List Schedule → List Schedule
put_schedule same new rows =
    if any (is_called new.name) rows
    then update (is_called new.name) (set_columns same new) rows
    else new ∷ rows

-- A schedule declared in code.
pub record ScheduleDeclaration : Type 0 where
  pub name : String
  pub cron_expr : String
  pub kind : String
  pub payload : Json
  pub priority : ℤ
  pub max_attempts : ℕ
  pub queue : String

abbrev pub cron_row : ScheduleDeclaration → ℕ → Schedule
cron_row d next = record {
  name = d.name;
  kind = d.kind;
  payload = d.payload;
  cron_expr = some d.cron_expr;
  interval_ms = none;
  next_run_at = next;
  last_run_at = none;
  enabled = true;
  priority = d.priority;
  max_attempts = d.max_attempts;
  queue = d.queue;
}

abbrev pub put_cron : ScheduleDeclaration → ℕ → Db → Db
put_cron d next db = record db { schedules = put_schedule same_cron (cron_row d next) db.schedules }

-- The queue's name and the expression are checked, and the first run is found, before any write.
unfoldable pub prepare : Env → ScheduleDeclaration → Result ℕ
unfolding next_firing
prepare env d = validate_queue_name d.queue >>= λ _. next_firing env d.cron_expr

unfoldable pub upsert_schedule_raw : Env → ScheduleDeclaration → Db → Result Db
unfolding prepare put_schedule
upsert_schedule_raw env d db = prepare env d >>= λ next. ok (put_cron d next db)

-- The declaration's expression is not used: the row's trigger is the interval.
abbrev pub interval_row : ScheduleDeclaration → ℕ → ℕ → Schedule
interval_row d ms next = record (cron_row d next) { cron_expr = none; interval_ms = some ms }

abbrev pub put_interval : ScheduleDeclaration → ℕ → ℕ → Db → Db
put_interval d ms next db = record db {
  schedules = put_schedule same_interval (interval_row d ms next) db.schedules;
}

unfoldable pub upsert_interval_schedule_raw : Env → ℤ → ScheduleDeclaration → Db → Result Db
unfolding put_schedule
upsert_interval_schedule_raw env (pos (suc n)) d db =
    validate_queue_name d.queue >>= λ _. ok (put_interval d (suc n) (env.now + suc n) db)
upsert_interval_schedule_raw env (pos zero) d db =
    validate_queue_name d.queue >>= λ _. err invalid_argument
upsert_interval_schedule_raw env (negsuc n) d db =
    validate_queue_name d.queue >>= λ _. err invalid_argument

pub record SyncReport : Type 0 where
  pub upserted : ℕ
  pub deleted : List String

unfoldable pub prepare_all :
    Env → List ScheduleDeclaration → Result (List (ScheduleDeclaration × ℕ))
unfolding prepare
prepare_all env [] = ok []
prepare_all env (d ∷ ds) =
    prepare env d >>= λ next. prepare_all env ds >>= λ rest. ok ((d, next) ∷ rest)

unfoldable pub put_all : List (ScheduleDeclaration × ℕ) → Db → Db
unfolding put_schedule
put_all [] db = db
put_all ((d, next) ∷ rest) db = put_all rest (put_cron d next db)

-- name <> ALL (the declared names)
abbrev pub is_undeclared : List ScheduleDeclaration → Schedule → Bool
is_undeclared declared s =
    not (any_text s.name (map (λ (d : ScheduleDeclaration). d.name) declared))

abbrev pub delete_undeclared : List ScheduleDeclaration → Db → SyncReport × Db
delete_undeclared declared db = (
  record {
    upserted = length declared;
    deleted = map (λ (s : Schedule). s.name) (select (is_undeclared declared) db.schedules);
  },
  record db { schedules = delete (is_undeclared declared) db.schedules },
)

unfoldable pub sync_schedules : Env → List ScheduleDeclaration → Db → Result (SyncReport × Db)
unfolding prepare_all put_all
sync_schedules env declared db =
    prepare_all env declared >>= λ prepared. ok (delete_undeclared declared (put_all prepared db))

unfoldable pub remove_schedule : String → Db → Bool × Db
remove_schedule name db = (
  any (is_called name) db.schedules,
  record db { schedules = delete (is_called name) db.schedules },
)

unfoldable pub set_enabled : String → Bool → Db → Bool × Db
set_enabled name enabled db = (
  any (is_called name) db.schedules,
  record db {
    schedules = update (is_called name) (λ s. record s { enabled = enabled }) db.schedules;
  },
)

-- ORDER BY name
unfoldable pub list_schedules : Db → List Schedule
list_schedules db =
    sort (λ (a : Schedule) (b : Schedule). is_lt (compare a.name b.name)) db.schedules
