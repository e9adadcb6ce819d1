-- ===== src/Runtime/Maintenance/Lease.antt =====
-- eddyq_leader under the wakes of sweeper_loop, scheduler_loop and cleanup_loop of
-- crates/eddyq-core/src/runtime.rs.
use eddyq.Prelude.{
  ◌≡◌, ◌||◌, refl, ℕ, Bool, true, false, String, Option, none, some, List, [], ◌∷◌, any, Bool-cases,
  inl, inr,
}
use eddyq.Sql.{find, select, update}
use eddyq.Store.{
  Result, ok, err, database, Db, Job, Lease, Batch, Schedule, StoredRule, DynEnqueue, Json, Env,
}
use eddyq.NamedQueue.{validate_queue_name}
use eddyq.Group.{is_none, is_keyed, add_from_rule, best_rule, materialize_from_rule}
use eddyq.Enqueue.{EnqueueResult, inserted, materialize_for, insert_dyn, notify, enqueue_dyn_in_tx}
use eddyq.Enqueue.Insert.{conflicts, insert_row, has_batch}
use eddyq.Batch.{can_claim, close, summary_of, try_claim_and_fire, fire, fire_parsed, claim_found}
use eddyq.Batch.Callback.{BatchSettleSummary, build_callback_dyn}
use eddyq.Fetch.Sweep.{
  fire_all, recover_and_fire, recover_where, breaks_check, bumped, sweep_stale, reconcile_counters,
}
use eddyq.Fetch.Retention.{Retention, is_disabled, cleanup}
use eddyq.Schedule.Tick.{run_schedule, run_all, tick, next_run, is_due, fired, advance}
use eddyq.Runtime.Maintenance.{
  Process, leads, kept, sweeper_wake, scheduler_wake, cleanup_wake, reconcile_due,
}
use eddyq.Invariant.{OnOk, OnOk-bind, OnOk-then, OnOk-if}

module _ (rows : List Lease) where
  abbrev Kept : Db → Type 0
  Kept db = db.leases ≡ rows

  add_from_rule-Kept :
      (now : ℕ) (key : String) (r : Option StoredRule) (db : Db)
      → Kept db
      → Kept (add_from_rule now key r db)
  add_from_rule-Kept now key none db h = h
  add_from_rule-Kept now key (some r) db h = h

  materialize_for-Kept :
      (env : Env) (res : EnqueueResult) (key : Option String) (db : Db)
      → Kept db
      → Kept (materialize_for env res key db)
  unfolding materialize_for materialize_from_rule
  materialize_for-Kept env (inserted id) (some key) db h =
      elim (Bool-cases (any (is_keyed key) db.groups)) [
        | inl e ↦ rw e h
        | inr e ↦ rw e (add_from_rule-Kept env.now key (best_rule env key db.rules) db h)
      ]
  materialize_for-Kept env _ _ db h = h

  insert_row-Kept :
      (now : ℕ) (req : DynEnqueue) (db : Db) → Kept db → Kept (insert_row now req db).1
  unfolding insert_row
  insert_row-Kept now req db h = elim (Bool-cases (conflicts req.kind req.unique_key db.jobs)) [
    | inl e ↦ rw e h
    | inr e ↦ rw e h
  ]

  notify-Kept : (due : Bool) (db : Db) → Kept db → Kept (notify due db)
  unfolding notify
  notify-Kept true db h = h
  notify-Kept false db h = h

  enqueue-Kept :
      (env : Env) (req : DynEnqueue) (db : Db)
      → Kept db
      → OnOk (λ r. Kept r.1) (enqueue_dyn_in_tx env req db)
  unfolding enqueue_dyn_in_tx insert_dyn
  enqueue-Kept env req db h =
      OnOk-bind (λ (r : EnqueueResult × Bool × Db). Kept r.2) (λ r. Kept r.1)
        (insert_dyn env req db) _
        (OnOk-then (λ (r : EnqueueResult × Bool × Db). Kept r.2) (validate_queue_name req.queue) _
          (λ _.
            OnOk-if (λ (r : EnqueueResult × Bool × Db). Kept r.2)
              (is_none (insert_row env.now req db).0 || has_batch req.batch_id db) _ (err database)
              (materialize_for-Kept env _ req.group_key _ (insert_row-Kept env.now req db h)) tt))
        (λ r k. notify-Kept _ r.2 k)

  fire_parsed-Kept :
      (env : Env) (spec : Option DynEnqueue) (id : ℕ) (s : BatchSettleSummary) (db : Db)
      → Kept db
      → OnOk Kept (fire_parsed env spec id s db)
  fire_parsed-Kept env none id s db h = tt
  fire_parsed-Kept env (some spec) id s db h =
      OnOk-bind (λ r. Kept r.1) Kept (enqueue_dyn_in_tx env (build_callback_dyn env spec id s) db) _
        (enqueue-Kept env (build_callback_dyn env spec id s) db h) (λ r k. k)

  fire-Kept :
      (env : Env) (spec : Option Json) (id : ℕ) (s : BatchSettleSummary) (db : Db)
      → Kept db
      → OnOk Kept (fire env spec id s db)
  fire-Kept env none id s db h = h
  fire-Kept env (some t) id s db h = fire_parsed-Kept env (env.from_value t) id s db h

  claim_found-Kept :
      (env : Env) (id : ℕ) (o : Option Batch) (db : Db)
      → Kept db
      → OnOk Kept (claim_found env id o db)
  claim_found-Kept env id none db h = h
  claim_found-Kept env id (some b) db h =
      fire-Kept env b.on_complete id (summary_of env.now b)
        (record db { batches = update (can_claim id) (close env.now) db.batches }) h

  fire_all-Kept : (env : Env) (ids : List ℕ) (db : Db) → Kept db → OnOk Kept (fire_all env ids db)
  unfolding fire_all try_claim_and_fire
  fire_all-Kept env [] db h = h
  fire_all-Kept env (b ∷ bs) db h =
      OnOk-bind Kept Kept (fire_all env bs db) (try_claim_and_fire env b)
        (fire_all-Kept env bs db h)
        (λ d k. claim_found-Kept env b (find (can_claim b) d.batches) d k)

  recover-Kept :
      (env : Env) (lost : Job → Bool) (entry : Json) (db : Db)
      → Kept db
      → OnOk (λ r. Kept r.1) (recover_and_fire env lost entry db)
  unfolding recover_where
  recover-Kept env lost entry db h =
      let Q = λ (r : ℕ × Db). Kept r.1 in
      OnOk-if Q
        (breaks_check (bumped lost db db.batches) (recover_where lost env.now entry db).batches)
        (err database) _ tt
        (OnOk-bind Kept Q
          (fire_all env (bumped lost db db.batches) (recover_where lost env.now entry db)) _
          (fire_all-Kept env (bumped lost db db.batches) (recover_where lost env.now entry db) h)
          (λ d k. k))

  run_all-Kept :
      (env : Env) (ss : List Schedule) (db : Db) → Kept db → OnOk Kept (run_all env ss db)
  unfolding run_all run_schedule advance
  run_all-Kept env [] db h = h
  run_all-Kept env (s ∷ ss) db h =
      OnOk-bind Kept Kept (run_schedule env s db) (run_all env ss)
        (OnOk-then Kept (next_run env s.interval_ms s.cron_expr) _
          (λ next. insert_row-Kept env.now (fired s) db h))
        (λ d k. run_all-Kept env ss d k)

  tick-Kept :
      (env : Env) (locked : Bool) (db : Db) → Kept db → OnOk (λ r. Kept r.1) (tick env locked db)
  unfolding tick
  tick-Kept env false db h = h
  tick-Kept env true db h =
      OnOk-bind Kept (λ (r : ℕ × Db). Kept r.1)
        (run_all env (select (is_due env.now) db.schedules) db) _
        (run_all-Kept env (select (is_due env.now) db.schedules) db h) (λ d k. notify-Kept _ d k)

  kept-Kept :
      {A : Type 0} (db : Db) (r : Result (A × Db))
      → Kept db
      → OnOk (λ r. Kept r.1) r
      → Kept (kept db r)
  kept-Kept db (ok r) h k = k
  kept-Kept db (err e) h k = h

pub sweeper_wake-leases :
    (env : Env) (stale_secs : ℕ) (p : Process) (last : Option ℕ) (db : Db)
    → (sweeper_wake env stale_secs p last db).1.leases ≡ db.leases
unfolding sweeper_wake sweep_stale reconcile_counters
sweeper_wake-leases env secs p last db =
    let swept =
      kept-Kept db.leases db (sweep_stale env secs db) refl
        (recover-Kept db.leases env _ _ db refl) in
    elim (Bool-cases (leads p)) [
      | inl e ↦ elim (Bool-cases (reconcile_due env.now last)) [
        | inl f ↦ rw (e, f) swept
        | inr f ↦ rw (e, f) swept
      ]
      | inr e ↦ rw e refl
    ]

pub scheduler_wake-leases :
    (env : Env) (locked : Bool) (p : Process) (db : Db)
    → (scheduler_wake env locked p db).leases ≡ db.leases
unfolding scheduler_wake
scheduler_wake-leases env locked p db = elim (Bool-cases (leads p)) [
  | inl e ↦
      rw e
        (kept-Kept db.leases db (tick env locked db) refl (tick-Kept db.leases env locked db refl))
  | inr e ↦ rw e refl
]

pub cleanup_wake-leases :
    (now : ℕ) (r : Retention) (p : Process) (db : Db) → (cleanup_wake now r p db).leases ≡ db.leases
unfolding cleanup_wake cleanup
cleanup_wake-leases now r p db = elim (Bool-cases (is_disabled r)) [
  | inl e ↦ rw e refl
  | inr e ↦ elim (Bool-cases (leads p)) [ inl f ↦ rw (e, f) refl | inr f ↦ rw (e, f) refl ]
]
