-- ===== src/Schedule/Sync.antt =====
-- A second deployment: the same upsert again, and the synchronisation with the declared list.
use eddyq.Prelude.{
  ℕ, ◌≡◌, refl, ap, ◌∙◌, subst, arith, Bool, true, ◌&&◌, ◌||◌, String, List, [], ◌∷◌, map, any,
  any_text, str_eq, eq_iff, Bool-cases, inl, inr,
}
use eddyq.Sql.{delete}
use eddyq.Store.{Db, Schedule, Env, ok}
use eddyq.Invariant.{OnOk, OnOk-then, OnOk-bind, OnOk-apply}
use eddyq.Schedule.{
  is_called, same_cron, set_columns, put_schedule, put_all, put_cron, cron_row, ScheduleDeclaration,
  SyncReport, upsert_schedule_raw, prepare, prepare_all, sync_schedules, is_undeclared,
}
use eddyq.Sql.Upsert.{any-update}
use eddyq.Schedule.Lookup.{schedule_name, put_cron-again}

upsert_ok :
    (env : Env) (d : ScheduleDeclaration) (db : Db) (n : ℕ)
    → prepare env d ≡ ok n
    → upsert_schedule_raw env d db ≡ ok (put_cron d n db)
unfolding upsert_schedule_raw
upsert_ok env d db n e = rw e refl

-- The same declaration upserted again, at any later time at which its expression still fires,
-- changes nothing: a deployment does not put off a run that is near.
pub upsert_schedule-again :
    (env env' : Env) (d : ScheduleDeclaration) (a b : Db) (n : ℕ)
    → upsert_schedule_raw env d a ≡ ok b
    → prepare env' d ≡ ok n
    → upsert_schedule_raw env' d b ≡ ok b
unfolding upsert_schedule_raw
upsert_schedule-again env env' d a b n e p =
    OnOk-apply (λ x. upsert_schedule_raw env' d x ≡ ok x) (upsert_schedule_raw env d a)
      (OnOk-then (λ x. upsert_schedule_raw env' d x ≡ ok x) (prepare env d) _
        (λ m.
          upsert_ok env' d (put_cron d m a) n p
          ∙ ap (λ rows. ok (record a { schedules = rows })) (put_cron-again d m n a.schedules)))
      e

put_schedule-any :
    (new : Schedule) (k : String) (rows : List Schedule)
    → any (is_called k) (put_schedule same_cron new rows)
      ≡ (str_eq new.name k || any (is_called k) rows)
unfolding put_schedule
put_schedule-any new k rows = elim (Bool-cases (any (is_called new.name) rows)) [
  | inl e ↦ elim (Bool-cases (str_eq new.name k)) [
    | inl f ↦
        rw
          (
            e,
            any-update schedule_name (set_columns same_cron new) (λ s. refl) k (is_called new.name)
                rows,
            f,
          )
          (subst (λ n. any (is_called n) rows ≡ true) ((eq_iff new.name k).0 f) e)
    | inr f ↦
        rw
          (
            e,
            any-update schedule_name (set_columns same_cron new) (λ s. refl) k (is_called new.name)
                rows,
            f,
          )
          refl
  ]
  | inr e ↦ rw e refl
]

abbrev names : List ScheduleDeclaration → List String
names ds = map (λ (d : ScheduleDeclaration). d.name) ds

abbrev Puts : List ScheduleDeclaration → List (ScheduleDeclaration × ℕ) → Type 0
Puts ds ps =
    (k : String) (db : Db)
    → any (is_called k) (put_all ps db).schedules
      ≡ (any_text k (names ds) || any (is_called k) db.schedules)

or_swap : (a b c : Bool) → (a || (b || c)) ≡ ((b || a) || c)
or_swap a b c = ground arith

prepare_all-Puts : (env : Env) (ds : List ScheduleDeclaration) → OnOk (Puts ds) (prepare_all env ds)
unfolding prepare_all put_all
prepare_all-Puts env [] = λ k db. refl
prepare_all-Puts env (d ∷ ds) = OnOk-then (Puts (d ∷ ds)) (prepare env d) _ (λ next.
    OnOk-bind (Puts ds) (Puts (d ∷ ds)) (prepare_all env ds) _ (prepare_all-Puts env ds)
      (λ ps h k db.
        h k (put_cron d next db)
        ∙ ap (λ b. any_text k (names ds) || b) (put_schedule-any (cron_row d next) k db.schedules)
        ∙ or_swap (any_text k (names ds)) (str_eq d.name k) (any (is_called k) db.schedules)))

any-delete :
    (ds : List ScheduleDeclaration) (k : String) (rows : List Schedule)
    → any (is_called k) (delete (is_undeclared ds) rows)
      ≡ (any_text k (names ds) && any (is_called k) rows)
unfolding delete
any-delete ds k [] = ground arith
any-delete ds k (r ∷ rows) = elim (Bool-cases (str_eq r.name k)) [
  | inl e ↦
      let same : any_text r.name (names ds) ≡ any_text k (names ds) =
        ap (λ n. any_text n (names ds)) ((eq_iff r.name k).0 e) in
      ground (arith, e, same, any-delete ds k rows)
  | inr e ↦ ground (arith, e, any-delete ds k rows)
]

absorb : (a b : Bool) → (a && (a || b)) ≡ a
absorb a b = ground arith

-- After a synchronisation that succeeds, the names in the table are exactly the declared ones.
pub sync_schedules-names :
    (env : Env) (declared : List ScheduleDeclaration) (a b : Db) (r : SyncReport)
    → sync_schedules env declared a ≡ ok (r, b)
    → (k : String) → any (is_called k) b.schedules ≡ any_text k (names declared)
unfolding sync_schedules
sync_schedules-names env declared a b r e k =
    OnOk-apply (λ x. any (is_called k) x.1.schedules ≡ any_text k (names declared))
      (sync_schedules env declared a)
      (OnOk-bind (Puts declared)
        (λ x. any (is_called k) x.1.schedules ≡ any_text k (names declared))
        (prepare_all env declared) _ (prepare_all-Puts env declared)
        (λ ps h.
          any-delete declared k (put_all ps a).schedules
          ∙ ap (λ b. any_text k (names declared) && b) (h k a)
          ∙ absorb (any_text k (names declared)) (any (is_called k) a.schedules)))
      e
