-- ===== src/Schedule/Bulk.antt =====
-- A tick against one bulk INSERT of the due schedules' jobs: tick of
-- crates/eddyq-core/src/schedule.rs.
use eddyq.Prelude.{
  ℕ, suc, ◌+◌, ◌≡◌, refl, ap, ◌∙◌, arith, Bool, true, false, List, [], ◌∷◌, map, length, ltb,
}
use eddyq.Sql.{select, count}
use eddyq.Sql.Count.{length-select}
use eddyq.Store.{Db, Schedule, Env, ok, ◌>>=◌}
use eddyq.Enqueue.{insert_rows, notify}
use eddyq.Enqueue.Insert.{insert_row, conflicts, has_batch, new_job}
use eddyq.Invariant.{OnOk, OnOk-then, OnOk-bind, OnOk-apply, OnOk-weaken}
use eddyq.Schedule.Tick.{is_due, fired, next_run, advance, run_schedule, run_all, tick}

-- The same jobs, and the same id for the next.
abbrev pub SameJobs : Db → Db → Type 0
SameJobs a b = (a.jobs ≡ b.jobs) × (a.next_job ≡ b.next_job)

insert-SameJobs :
    (env : Env) (s : Schedule) (next : ℕ) (a b : Db)
    → SameJobs a b
    → SameJobs
        (advance env.now s.name next (insert_row env.now (fired s) a).1)
        (insert_row env.now (fired s) b).1
unfolding advance insert_row conflicts
insert-SameJobs env s next a b h =
    ((λ i. new_job (h.1 i) env.now (fired s) ∷ h.0 i), ap (λ n. n + 1) h.1)

insert_rows-cons :
    (now n : ℕ) (s : Schedule) (ss : List Schedule) (a b : Db)
    → insert_rows now (map fired ss) (insert_row now (fired s) a).1 ≡ ok (n, b)
    → insert_rows now (map fired (s ∷ ss)) a ≡ ok (suc n, b)
unfolding insert_rows insert_row conflicts has_batch
insert_rows-cons now n s ss a b e =
    ap (λ r. r >>= λ x. ok (1 + x.0, x.1)) e ∙ ap (λ m. ok (m, b)) (omega arith)

run_all-bulk :
    (env : Env) (ss : List Schedule) (a b : Db)
    → SameJobs a b
    → OnOk
        (λ d.
          (c : Db) × ((insert_rows env.now (map fired ss) b ≡ ok (length ss, c)) × SameJobs d c))
        (run_all env ss a)
unfolding run_all run_schedule insert_rows
run_all-bulk env [] a b h = (b, (refl, h))
run_all-bulk env (s ∷ ss) a b h =
    OnOk-bind (λ d. SameJobs d (insert_row env.now (fired s) b).1) _ (run_schedule env s a) _
      (OnOk-then (λ d. SameJobs d (insert_row env.now (fired s) b).1)
        (next_run env s.interval_ms s.cron_expr) _ (λ next. insert-SameJobs env s next a b h))
      (λ d k.
        OnOk-weaken _ _ (run_all env ss d)
          (λ x (c, (e, same)). (c, (insert_rows-cons env.now (length ss) s ss b c e, same)))
          (run_all-bulk env ss d (insert_row env.now (fired s) b).1 k))

notify-SameJobs : (due : Bool) (a b : Db) → SameJobs a b → SameJobs (notify due a) b
unfolding notify
notify-SameJobs true a b h = h
notify-SameJobs false a b h = h

-- A tick that succeeds reports the number of schedules that are due, and leaves the jobs that one
-- bulk INSERT of the due schedules' jobs leaves: each due schedule has one new job, however many of
-- its runs were missed, and no other schedule has any.
pub tick-bulk :
    (env : Env) (db d : Db) (n : ℕ)
    → tick env true db ≡ ok (n, d)
    → (n ≡ count (is_due env.now) db.schedules)
      × (b : Db) × (insert_rows env.now (map fired (select (is_due env.now) db.schedules)) db
          ≡ ok (n, b))
      × SameJobs d b
unfolding tick
tick-bulk env db d n e =
    OnOk-apply Bulk (tick env true db)
      (OnOk-bind _ Bulk (run_all env due db) _ (run_all-bulk env due db db (refl, refl))
        (λ x (b, (q, same)). (
          length-select (is_due env.now) db.schedules,
          b,
          q,
          notify-SameJobs (ltb 0 (length due)) x b same,
        )))
      e
  where
    due : List Schedule
    due = select (is_due env.now) db.schedules

    Bulk : ℕ × Db → Type 0
    Bulk r =
        (r.0 ≡ count (is_due env.now) db.schedules)
        × (b : Db) × (insert_rows env.now (map fired due) db ≡ ok (r.0, b))
        × SameJobs r.1 b
