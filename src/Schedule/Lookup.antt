-- ===== src/Schedule/Lookup.antt =====
-- What upsert_schedule_raw of crates/eddyq-core/src/schedule.rs leaves at each name.
use mathlib.Core.Option.{some-injective}
use text.Mathlib.TextEquality.{eq_iff}
use eddyq.Prelude.{
  ℕ, ◌≡◌, refl, sym, ap, ◌∙◌, arith, true, false, Option, none, is_text, if◌then◌else◌, String,
  some, List, [], ◌∷◌, any, str_eq, str_eq_self, Bool-cases, inl, inr,
}
use eddyq.Sql.{find, update}
use eddyq.Sql.Upsert.{merged, find-upsert_at, find-upsert_other, any-update}
use eddyq.Store.{Db, Schedule, Env, Result, ok, err, ◌>>=◌}
use eddyq.Invariant.{OnOk, OnOk-apply}
use eddyq.Schedule.{
  is_called, same_cron, same_text, set_columns, put_schedule, put_cron, cron_row,
  ScheduleDeclaration, upsert_schedule_raw, prepare,
}

abbrev pub schedule_name : Schedule → String
schedule_name s = s.name

-- What the declaration says of a row.
abbrev pub IsDeclared : ScheduleDeclaration → Schedule → Type 0
IsDeclared d r =
    (r.name ≡ d.name)
    × (r.kind ≡ d.kind)
    × (r.payload ≡ d.payload)
    × (r.cron_expr ≡ some d.cron_expr)
    × (r.interval_ms ≡ none)
    × (r.priority ≡ d.priority)
    × (r.max_attempts ≡ d.max_attempts)
    × (r.queue ≡ d.queue)

-- What a row has from the old one of its name, if any: the switch, the last run, and the next run if
-- the expression is the same. `next` is the expression's next firing.
abbrev pub Keeps : ScheduleDeclaration → ℕ → Option Schedule → Schedule → Type 0
Keeps d next none r = (r.next_run_at ≡ next) × (r.last_run_at ≡ none) × (r.enabled ≡ true)
Keeps d next (some s) r =
    (r.next_run_at ≡ (if is_text s.cron_expr d.cron_expr then s.next_run_at else next))
    × (r.last_run_at ≡ s.last_run_at)
    × (r.enabled ≡ s.enabled)

find-name :
    (k : String) (rows : List Schedule) (s : Schedule)
    → find (is_called k) rows ≡ some s
    → s.name ≡ k
unfolding find
find-name k [] s e = cc
find-name k (r ∷ rows) s e = elim (Bool-cases (str_eq r.name k)) [
  | inl f ↦
      let same : some r ≡ some s = rw f at e in
      ap (λ (x : Schedule). x.name) (sym (some-injective r s same)) ∙ (eq_iff r.name k).0 f
  | inr f ↦ find-name k rows s (rw f at e)
]

same_text-is_text : (o : Option String) (s : String) → same_text o (some s) ≡ is_text o s
same_text-is_text none s = refl
same_text-is_text (some t) s = refl

merged-IsDeclared :
    (d : ScheduleDeclaration) (next : ℕ) (o : Option Schedule)
    → ((s : Schedule) → o ≡ some s → s.name ≡ d.name)
    → IsDeclared d (merged (set_columns same_cron (cron_row d next)) (cron_row d next) o)
      × Keeps d next o (merged (set_columns same_cron (cron_row d next)) (cron_row d next) o)
merged-IsDeclared d next none named =
    ((refl, refl, refl, refl, refl, refl, refl, refl), (refl, refl, refl))
merged-IsDeclared d next (some s) named = (
  (named s refl, refl, refl, refl, refl, refl, refl, refl),
  (
    ap (λ b. if b then s.next_run_at else next) (same_text-is_text s.cron_expr d.cron_expr),
    refl,
    refl,
  ),
)

-- After an upsert of a cron schedule the name's row has the declaration's name, kind, payload,
-- expression, priority, attempts and queue and no interval; a row that was there keeps its switch,
-- its last run and, if it had the same expression, its next run, and otherwise the next run is the
-- expression's next firing. The rows of other names are as they were.
pub upsert_schedule-find :
    (env : Env) (d : ScheduleDeclaration) (a b : Db)
    → upsert_schedule_raw env d a ≡ ok b
    → (next : ℕ) × (prepare env d ≡ ok next)
      × ((r : Schedule) × (find (is_called d.name) b.schedules ≡ some r)
          × IsDeclared d r
          × Keeps d next (find (is_called d.name) a.schedules) r)
      × ((k : String)
          → str_eq d.name k ≡ false
          → find (is_called k) b.schedules ≡ find (is_called k) a.schedules)
unfolding upsert_schedule_raw put_schedule
upsert_schedule-find env d a b e = OnOk-apply Found (upsert_schedule_raw env d a) (found _ refl) e
  where
    old : Option Schedule
    old = find (is_called d.name) a.schedules

    Found : Db → Type 0
    Found x =
        (next : ℕ) × (prepare env d ≡ ok next)
        × ((r : Schedule) × (find (is_called d.name) x.schedules ≡ some r)
            × IsDeclared d r
            × Keeps d next old r)
        × ((k : String)
            → str_eq d.name k ≡ false
            → find (is_called k) x.schedules ≡ find (is_called k) a.schedules)

    found : (m : Result ℕ) → prepare env d ≡ m → OnOk Found (m >>= λ next. ok (put_cron d next a))
    found (ok next) p = (
      next,
      p,
      (
        merged (set_columns same_cron (cron_row d next)) (cron_row d next) old,
        find-upsert_at schedule_name (set_columns same_cron (cron_row d next)) (λ s. refl)
            (cron_row d next) a.schedules,
        (merged-IsDeclared d next old (find-name d.name a.schedules)).0,
        (merged-IsDeclared d next old (find-name d.name a.schedules)).1,
      ),
      λ k.
          find-upsert_other schedule_name (set_columns same_cron (cron_row d next)) (λ s. refl)
            (cron_row d next) k a.schedules,
    )
    found (err e) p = tt

same_cron_again :
    (d : ScheduleDeclaration) (m n : ℕ) (s : Schedule)
    → set_columns same_cron (cron_row d n) (set_columns same_cron (cron_row d m) s)
      ≡ set_columns same_cron (cron_row d m) s
same_cron_again d m n s = rw (str_eq_self d.cron_expr) refl

update-again :
    (d : ScheduleDeclaration) (m n : ℕ) (rows : List Schedule)
    → update
        (is_called d.name)
        (set_columns same_cron (cron_row d n))
        (update (is_called d.name) (set_columns same_cron (cron_row d m)) rows)
      ≡ update (is_called d.name) (set_columns same_cron (cron_row d m)) rows
unfolding update
update-again d m n [] = refl
update-again d m n (r ∷ rows) = elim (Bool-cases (str_eq r.name d.name)) [
  | inl e ↦ rw (e, e) (λ i. same_cron_again d m n r i ∷ update-again d m n rows i)
  | inr e ↦ rw (e, e) (λ i. r ∷ update-again d m n rows i)
]

update-none :
    (j : String) (f : Schedule → Schedule) (rows : List Schedule)
    → any (is_called j) rows ≡ false
    → update (is_called j) f rows ≡ rows
unfolding update
update-none j f [] h = refl
update-none j f (r ∷ rows) h = ground (arith, update-none j f rows)

pub put_cron-again :
    (d : ScheduleDeclaration) (m n : ℕ) (rows : List Schedule)
    → put_schedule same_cron (cron_row d n) (put_schedule same_cron (cron_row d m) rows)
      ≡ put_schedule same_cron (cron_row d m) rows
unfolding put_schedule update
put_cron-again d m n rows = elim (Bool-cases (any (is_called d.name) rows)) [
  | inl e ↦
      rw
        (
          e,
          any-update schedule_name (set_columns same_cron (cron_row d m)) (λ s. refl) d.name
              (is_called d.name) rows,
          e,
        )
        (update-again d m n rows)
  | inr e ↦
      rw
        (
          e,
          str_eq_self d.name,
          str_eq_self d.cron_expr,
          update-none d.name (set_columns same_cron (cron_row d n)) rows e,
        )
        refl
]
