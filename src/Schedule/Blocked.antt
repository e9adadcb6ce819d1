-- ===== src/Schedule/Blocked.antt =====
-- The failure of a tick: a due schedule without a further run, in tick of
-- crates/eddyq-core/src/schedule.rs.
use eddyq.Prelude.{
  ℕ, ◌⊎◌, ◌≡◌, refl, sym, ap, ◌∙◌, arith, Bool, true, false, ◌&&◌, Option, none, some, List, [],
  ◌∷◌, any, inl, inr, Option-cases, String,
}
use eddyq.Sql.{select}
use eddyq.Store.{Db, Schedule, Env, Result, ok, err, cron as cron_error}
use eddyq.Enqueue.Insert.{insert_row}
use eddyq.Schedule.{next_firing}
use eddyq.Schedule.Tick.{is_due, next_run, run_schedule, run_all, tick, advance, fired}

abbrev pub is_err {ℓ} : {A : Type ℓ} → Result A → Bool
is_err (ok a) = false
is_err (err e) = true

-- The row has no further run: its expression does not parse, or fires no more.
unfoldable pub is_exhausted : Env → Schedule → Bool
unfolding next_run
is_exhausted env s = is_err (next_run env s.interval_ms s.cron_expr)

abbrev pub exhausted_due : Env → Schedule → Bool
exhausted_due env s = is_due env.now s && is_exhausted env s

next_firing_cases :
    (env : Env) (expr : String)
    → ((n : ℕ) × (next_firing env expr ≡ ok n)) ⊎ (next_firing env expr ≡ err cron_error)
unfolding next_firing
next_firing_cases env expr = elim (Option-cases (env.cron expr)) [
  | inl e ↦ rw e (inr refl)
  | inr (f, e) ↦ elim (Option-cases (f env.now)) [
    | inl g ↦ rw (e, g) (inr refl)
    | inr (n, g) ↦ rw (e, g) (inl (n, refl))
  ]
]

next_run_cases :
    (env : Env) (ms : Option ℕ) (expr : Option String)
    → ((n : ℕ) × (next_run env ms expr ≡ ok n)) ⊎ (next_run env ms expr ≡ err cron_error)
unfolding next_run
next_run_cases env (some ms) expr = inl (_, refl)
next_run_cases env none (some expr) = next_firing_cases env expr
next_run_cases env none none = inr refl

abbrev Decided : Env → List Schedule → Db → Type 0
Decided env ss db =
    ((any (is_exhausted env) ss ≡ true) × (run_all env ss db ≡ err cron_error))
    ⊎ ((any (is_exhausted env) ss ≡ false) × (d : Db) × (run_all env ss db ≡ ok d))

run_first :
    (env : Env) (s : Schedule) (ss : List Schedule) (db : Db) (n : ℕ)
    → next_run env s.interval_ms s.cron_expr ≡ ok n
    → ((d : Db) → Decided env ss d)
    → Decided env (s ∷ ss) db
unfolding run_all run_schedule is_exhausted
run_first env s ss db n e rest =
    elim (rest (advance env.now s.name n (insert_row env.now (fired s) db).1)) [
      | inl (h, k) ↦ inl (rw (ap is_err e) h, rw e k)
      | inr (h, d, k) ↦ inr (rw (ap is_err e) h, d, rw e k)
    ]

-- Runs in order stop at the first that has no next one.
run_all-decides : (env : Env) (ss : List Schedule) (db : Db) → Decided env ss db
unfolding run_all run_schedule is_exhausted
run_all-decides env [] db = inr (refl, db, refl)
run_all-decides env (s ∷ ss) db = elim (next_run_cases env s.interval_ms s.cron_expr) [
  | inl (n, e) ↦ run_first env s ss db n e (run_all-decides env ss)
  | inr e ↦ inl (rw (ap is_err e) refl, rw e refl)
]

any-select :
    (p q : Schedule → Bool) (rows : List Schedule)
    → any q (select p rows) ≡ any (λ s. p s && q s) rows
unfolding select
any-select p q [] = refl
any-select p q (r ∷ rows) = ground (arith, any-select p q rows)

-- A tick fails exactly if a schedule that is due has no further run, and then with a cron error;
-- otherwise it succeeds.
pub tick-decides :
    (env : Env) (db : Db)
    → ((any (exhausted_due env) db.schedules ≡ true) × (tick env true db ≡ err cron_error))
      ⊎ ((any (exhausted_due env) db.schedules ≡ false) × (r : ℕ × Db) × (tick env true db ≡ ok r))
unfolding tick
tick-decides env db = elim (run_all-decides env (select (is_due env.now) db.schedules) db) [
  | inl (s, e) ↦
      rw e (inl (sym (any-select (is_due env.now) (is_exhausted env) db.schedules) ∙ s, refl))
  | inr (s, d, e) ↦
      rw e (inr (sym (any-select (is_due env.now) (is_exhausted env) db.schedules) ∙ s, _, refl))
]
