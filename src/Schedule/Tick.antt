-- ===== src/Schedule/Tick.antt =====
-- The scheduler's tick, of crates/eddyq-core/src/schedule.rs. The advisory lock is an argument.
use eddyq.Prelude.{
  ℕ, ◌+◌, Bool, true, false, ◌&&◌, String, Option, none, some, List, [], ◌∷◌, leb, ltb, length,
}
use eddyq.Sql.{select, update}
use eddyq.Store.{Db, Schedule, DynEnqueue, Env, Result, ok, err, ◌>>=◌, cron as cron_error}
use eddyq.Enqueue.{notify}
use eddyq.Enqueue.Insert.{insert_row}
use eddyq.Schedule.{is_called, next_firing}

-- enabled AND next_run_at <= NOW()
unfoldable pub is_due : ℕ → Schedule → Bool
is_due now s = s.enabled && leb s.next_run_at now

-- The columns that the INSERT leaves out have the table's defaults.
abbrev pub fired : Schedule → DynEnqueue
fired s = record {
  kind = s.kind;
  payload = s.payload;
  max_attempts = s.max_attempts;
  max_stalled_count = 1;
  priority = s.priority;
  queue = s.queue;
  scheduled_at = none;
  unique_key = none;
  group_key = none;
  tags = [];
  metadata = "{}";
  batch_id = none;
  remove_on_complete = none;
  remove_on_fail = none;
}

-- From whichever trigger the row has.
unfoldable pub next_run : Env → Option ℕ → Option String → Result ℕ
unfolding next_firing
next_run env (some ms) expr = ok (env.now + ms)
next_run env none (some expr) = next_firing env expr
next_run env none none = err cron_error

unfoldable pub advance : ℕ → String → ℕ → Db → Db
advance now name next db = record db {
  schedules =
      update (is_called name) (λ s. record s { next_run_at = next; last_run_at = some now })
        db.schedules;
}

-- One due schedule: its job is inserted, and its next run is set.
unfoldable pub run_schedule : Env → Schedule → Db → Result Db
unfolding insert_row next_run advance
run_schedule env s db = next_run env s.interval_ms s.cron_expr >>= λ next.
    ok (advance env.now s.name next (insert_row env.now (fired s) db).1)

unfoldable pub run_all : Env → List Schedule → Db → Result Db
unfolding run_schedule
run_all env [] db = ok db
run_all env (s ∷ ss) db = run_schedule env s db >>= run_all env ss

-- The number of jobs enqueued. An error rolls the whole tick back. The NOTIFY comes after the
-- commit; it is best effort, and is taken to succeed.
unfoldable pub tick : Env → Bool → Db → Result (ℕ × Db)
unfolding run_all is_due notify
tick env false db = ok (0, db)
tick env true db =
    let due = select (is_due env.now) db.schedules in
    run_all env due db >>= λ d. ok (length due, notify (ltb 0 (length due)) d)
