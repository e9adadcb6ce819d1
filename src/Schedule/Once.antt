-- ===== src/Schedule/Once.antt =====
-- A second tick after a tick, at one time: tick of crates/eddyq-core/src/schedule.rs.
use eddyq.Prelude.{
  ℕ, ◌<◌, ◌≡◌, refl, sym, subst, arith, Bool, true, false, String, Option, none, some, List, [],
  ◌∷◌, any, str_eq, eq_iff, All, Bool-cases, inl, inr, str_eq_self, Option-cases,
}
use eddyq.Sql.{select, update}
use eddyq.Sql.Order.{All-select}
use eddyq.Store.{Db, Schedule, Env, ok}
use eddyq.Enqueue.{notify}
use eddyq.Enqueue.Insert.{insert_row}
use eddyq.Invariant.{OnOk, OnOk-bind, OnOk-apply}
use eddyq.Schedule.{is_called, next_firing}
use eddyq.Schedule.Tick.{is_due, next_run, advance, run_schedule, run_all, tick}
use eddyq.Schedule.Table.{has_trigger, Triggered, IsScheduled, notify-schedules}

-- What the crate `cron` documents of `upcoming`: a firing comes after the time that it is asked for.
abbrev pub FiresLater : Env → Type 0
FiresLater env =
    (expr : String) (upcoming : ℕ → Option ℕ) (t next : ℕ)
    → env.cron expr ≡ some upcoming
    → upcoming t ≡ some next
    → t < next

next_firing-later :
    (env : Env) (expr : String) → FiresLater env → OnOk (λ n. env.now < n) (next_firing env expr)
unfolding next_firing
next_firing-later env expr later = elim (Option-cases (env.cron expr)) [
  | inl e ↦ rw e tt
  | inr (f, e) ↦ elim (Option-cases (f env.now)) [
    | inl g ↦ rw (e, g) tt
    | inr (n, g) ↦ rw (e, g) (later expr f env.now n e g)
  ]
]

pub next_run-later :
    (env : Env) (ms : Option ℕ) (expr : Option String)
    → FiresLater env
    → has_trigger expr ms ≡ true
    → OnOk (λ n. env.now < n) (next_run env ms expr)
unfolding next_run
next_run-later env (some ms) none later t = ground arith
next_run-later env (some ms) (some expr) later t = cc
next_run-later env none (some expr) later t = next_firing-later env expr later
next_run-later env none none later t = tt

-- Each row that is due is one of those still to run.
abbrev Covers : ℕ → List Schedule → List Schedule → Type 0
Covers now ss rows = All (λ r. is_due now r ≡ true → any (is_called r.name) ss ≡ true) rows

covered_next :
    (now next : ℕ) (s : Schedule) (ss : List Schedule)
    → now < next
    → (rows : List Schedule) → Covers now (s ∷ ss) rows
    → Covers now ss (
        update
          (is_called s.name)
          (λ r. record r { next_run_at = next; last_run_at = some now })
          rows)
unfolding update is_due
covered_next now next s ss later [] c = tt
covered_next now next s ss later (r ∷ rows) c = elim (Bool-cases (str_eq r.name s.name)) [
  | inl e ↦ rw e ((λ due. ground arith), covered_next now next s ss later rows c.1)
  | inr e ↦ rw e (
    (λ due. ground (arith, c.0 due, eq_iff r.name s.name, eq_iff s.name r.name)),
    covered_next now next s ss later rows c.1,
  )
]

pub run_schedule-Covers :
    (env : Env) (s : Schedule) (ss : List Schedule) (db : Db)
    → FiresLater env
    → Triggered s
    → Covers env.now (s ∷ ss) db.schedules
    → OnOk (λ d. Covers env.now ss d.schedules) (run_schedule env s db)
unfolding run_schedule advance insert_row
run_schedule-Covers env s ss db later t c =
    OnOk-bind (λ n. env.now < n) (λ d. Covers env.now ss d.schedules)
      (next_run env s.interval_ms s.cron_expr) _
      (next_run-later env s.interval_ms s.cron_expr later t)
      (λ next h. covered_next env.now next s ss h db.schedules c)

run_all-Covers :
    (env : Env) (ss : List Schedule) (db : Db)
    → FiresLater env
    → All Triggered ss
    → Covers env.now ss db.schedules
    → OnOk (λ d. Covers env.now [] d.schedules) (run_all env ss db)
unfolding run_all
run_all-Covers env [] db later t c = c
run_all-Covers env (s ∷ ss) db later t c =
    OnOk-bind (λ d. Covers env.now ss d.schedules) (λ d. Covers env.now [] d.schedules)
      (run_schedule env s db) _ (run_schedule-Covers env s ss db later t.0 c)
      (λ d h. run_all-Covers env ss d later t.1 h)

wider :
    (now : ℕ) (x : Schedule) (ss rows : List Schedule)
    → Covers now ss rows
    → Covers now (x ∷ ss) rows
wider now x ss [] c = tt
wider now x ss (r ∷ rows) c = ((λ due. ground (arith, c.0 due)), wider now x ss rows c.1)

select-hit :
    (p : Schedule → Bool) (r : Schedule) (rows : List Schedule)
    → p r ≡ true
    → select p (r ∷ rows) ≡ r ∷ select p rows
unfolding select
select-hit p r rows e = rw e refl

select-miss :
    (p : Schedule → Bool) (r : Schedule) (rows : List Schedule)
    → p r ≡ false
    → select p (r ∷ rows) ≡ select p rows
unfolding select
select-miss p r rows e = rw e refl

-- At first the rows to run are those that are due.
select-Covers : (now : ℕ) (rows : List Schedule) → Covers now (select (is_due now) rows) rows
select-Covers now [] = tt
select-Covers now (r ∷ rows) = elim (Bool-cases (is_due now r)) [
  | inl e ↦
      subst (λ ss. Covers now ss (r ∷ rows)) (sym (select-hit (is_due now) r rows e))
        (
          (λ due. rw (str_eq_self r.name) refl),
          wider now r (select (is_due now) rows) rows (select-Covers now rows),
        )
  | inr e ↦
      subst (λ ss. Covers now ss (r ∷ rows)) (sym (select-miss (is_due now) r rows e))
        ((λ due. cc), select-Covers now rows)
]

none_due : (now : ℕ) (rows : List Schedule) → Covers now [] rows → select (is_due now) rows ≡ []
unfolding select
none_due now [] c = refl
none_due now (r ∷ rows) c = elim (Bool-cases (is_due now r)) [
  | inl e ↦ absurd (let q : false ≡ true = c.0 e in cc)
  | inr e ↦ rw e (none_due now rows c.1)
]

-- A tick that finds nothing due does nothing.
idle_tick :
    (env : Env) (db : Db)
    → select (is_due env.now) db.schedules ≡ []
    → tick env true db ≡ ok (0, db)
unfolding tick run_all notify
idle_tick env db e = rw e refl

-- A tick that succeeds leaves no schedule due: a second tick at the same time enqueues nothing and
-- leaves the database as it is. Here a cron expression fires only after the time that it is asked
-- for, and each row has one trigger, an interval being positive.
pub tick-once :
    (env : Env) (db d : Db) (n : ℕ)
    → FiresLater env
    → IsScheduled db.schedules
    → tick env true db ≡ ok (n, d)
    → tick env true d ≡ ok (0, d)
unfolding tick
tick-once env db d n later v e = idle_tick env d (
    none_due env.now d.schedules (
      OnOk-apply (λ r. Covers env.now [] r.1.schedules) (tick env true db)
        (OnOk-bind (λ x. Covers env.now [] x.schedules) (λ r. Covers env.now [] r.1.schedules)
          (run_all env (select (is_due env.now) db.schedules) db) _
          (run_all-Covers env (select (is_due env.now) db.schedules) db later
            (All-select Triggered (is_due env.now) db.schedules
              (All-weaken db.schedules v.triggers))
            (select-Covers env.now db.schedules))
          (λ x h. subst (Covers env.now []) (sym (notify-schedules _ x)) h))
        e))
  where
    All-weaken :
        (rows : List Schedule)
        → All Triggered rows
        → All (λ s. is_due env.now s ≡ true → Triggered s) rows
    All-weaken [] h = tt
    All-weaken (r ∷ rows) h = ((λ _. h.0), All-weaken rows h.1)
