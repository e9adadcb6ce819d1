-- ===== src/Unique/History.antt =====
-- The unique index on live keys over histories.
use eddyq.Prelude.{
  min, any, sym, ℕ, ◌≤◌, ◌≡◌, refl, arith, String, ◌&&◌, ◌||◌, ◌==◌, List, [], ◌∷◌, Bool-cases, inl,
  inr, subst,
}
use eddyq.Sql.{count}
use eddyq.Store.{Db, Env}
use eddyq.NamedQueue
use eddyq.NamedQueue.{upsert_queue}
use eddyq.Group
use eddyq.Group.{upsert_group, is_none}
use eddyq.Enqueue.{enqueue_dyn, enqueue_dyn_in_tx, enqueue_many_dyn}
use eddyq.Enqueue.Insert.{holds_key}
use eddyq.Batch.{enqueue_batch}
use eddyq.Fetch.Finish.{mark_completed, mark_failed, cancel}
use eddyq.Fetch.Sweep.{is_stale, is_in_flight, sweep_stale, reclaim_in_flight, reconcile_counters}
use eddyq.Fetch.Retention.{clean_state}
use eddyq.Invariant.{IsCounted, OnOk, OnOk-apply}
use eddyq.Invariant.Recovery.{stale_running, in_flight_running}
use eddyq.Traces.{Step, Reachable, Reachable-IsCounted}
use eddyq.Unique.Rows.{IsUnique}
use eddyq.Unique.Steps.{
  Kept, mark_completed-Kept, mark_failed-Kept, cancel-Kept, beats-Kept, recover_and_fire-Kept,
}
use eddyq.Unique.Insertion.{enqueue-Kept, enqueue_many-Kept, enqueue_batch-Kept}
use eddyq.Schedule.{
  upsert_schedule_raw, upsert_interval_schedule_raw, sync_schedules, remove_schedule, set_enabled,
}
use eddyq.Schedule.Tick.{tick}
use eddyq.Leader.{try_elect, resign}
use eddyq.Unique.Scheduled.{
  upsert_schedule-jobs, upsert_interval-jobs, sync_schedules-jobs, tick-Kept,
}
use eddyq.Unique.Claim.{claim_batch-Kept}
use eddyq.Unique.Deletion.{cleanup-Kept, clean_jobs-Kept}

sweep-Kept :
    (env : Env) (secs : ℕ) (db : Db) → Kept db → OnOk (λ r. Kept r.1) (sweep_stale env secs db)
unfolding sweep_stale
sweep-Kept env secs db u =
    recover_and_fire-Kept env (is_stale env.now _) _ db (stale_running env.now _) u

reclaim-Kept :
    (env : Env) (ids : List ℕ) (db : Db)
    → Kept db
    → OnOk (λ r. Kept r.1) (reclaim_in_flight env ids db)
unfolding reclaim_in_flight
reclaim-Kept env [] db u = u
reclaim-Kept env (i ∷ is) db u =
    recover_and_fire-Kept env (is_in_flight (i ∷ is)) _ db (in_flight_running (i ∷ is)) u

set_rate-jobs :
    (env : Env) (key : String) (n t : ℕ) (db : Db)
    → OnOk (λ d. d.jobs ≡ db.jobs) (Group.set_rate env key n t db)
unfolding Group.set_rate upsert_group
set_rate-jobs env key n t db =
    elim (Bool-cases (min n Group.unlimited == 0 || min t Group.unlimited == 0)) [
      | inl e ↦ rw e tt
      | inr e ↦ rw e refl
    ]

set_rule-jobs :
    (pattern : String) (rule : Group.GroupRule) (db : Db)
    → OnOk (λ d. d.jobs ≡ db.jobs) (Group.set_rule pattern rule db)
unfolding Group.set_rule
set_rule-jobs pattern rule db =
    elim (Bool-cases
      (Group.is_none rule.max_concurrency && Group.is_none (Group.to_i32 rule.rate_count))) [
        | inl e ↦ rw e tt
        | inr e ↦
            elim (Bool-cases
              (Group.rate_check (Group.to_i32 rule.rate_count) (Group.to_i32 rule.rate_period))) [
                | inl c ↦ elim (Bool-cases (any (Group.is_pattern pattern) db.rules)) [
                  | inl k ↦ rw (e, c, k) refl
                  | inr k ↦ rw (e, c, k) refl
                ]
                | inr c ↦ rw (e, c) tt
              ]
      ]

same_jobs : (a b : Db) → b.jobs ≡ a.jobs → Kept a → Kept b
same_jobs a b e u = subst IsUnique (sym e) u

Step-Kept : {a b : Db} → Step a b → IsCounted a → Kept a → Kept b
unfolding enqueue_dyn enqueue_dyn_in_tx enqueue_many_dyn upsert_queue upsert_group
    reconcile_counters NamedQueue.set_concurrency NamedQueue.set_paused NamedQueue.set_timeout
    Group.set_concurrency Group.set_paused Group.clear_rate Group.remove_rule remove_schedule
    set_enabled try_elect resign
Step-Kept {a = a} (Step.enqueues env req r b e) v u =
    OnOk-apply (λ x. Kept x.1) (enqueue_dyn env req a) (enqueue-Kept env req a u) e
Step-Kept {a = a} (Step.enqueues_many env reqs r b e) v u =
    OnOk-apply (λ x. Kept x.1) (enqueue_many_dyn env reqs a) (enqueue_many-Kept env reqs a u) e
Step-Kept {a = a} (Step.enqueues_batch env items opts r b e) v u =
    OnOk-apply (λ x. Kept x.1) (enqueue_batch env items opts a)
      (enqueue_batch-Kept env items opts a u) e
Step-Kept {a = a} (Step.claims p) v u = claim_batch-Kept p a v u
Step-Kept {a = a} (Step.completes env id w result b e) v u =
    OnOk-apply Kept (mark_completed env id w result a) (mark_completed-Kept env id w result a u) e
Step-Kept {a = a} (Step.fails env id w entry at b e) v u =
    OnOk-apply Kept (mark_failed env id w entry at a) (mark_failed-Kept env id w entry at a u) e
Step-Kept {a = a} (Step.cancels env id r b e) v u =
    OnOk-apply (λ x. Kept x.1) (cancel env id a) (cancel-Kept env id a u) e
Step-Kept {a = a} (Step.beats env ids) v u = beats-Kept env ids a u
Step-Kept {a = a} (Step.sweeps env secs n b e) v u =
    OnOk-apply (λ x. Kept x.1) (sweep_stale env secs a) (sweep-Kept env secs a u) e
Step-Kept {a = a} (Step.reclaims env ids n b e) v u =
    OnOk-apply (λ x. Kept x.1) (reclaim_in_flight env ids a) (reclaim-Kept env ids a u) e
Step-Kept {a = a} Step.reconciles v u = u
Step-Kept {a = a} (Step.cleans_up now r) v u = cleanup-Kept now r a u
Step-Kept {a = a} (Step.cleans now state grace limit) v u =
    clean_jobs-Kept now (clean_state state) grace limit a u
Step-Kept {a = a} (Step.caps_queue name max) v u = u
Step-Kept {a = a} (Step.pauses_queue name paused) v u = u
Step-Kept {a = a} (Step.times_queue name timeout) v u = u
Step-Kept {a = a} (Step.caps_group key max) v u = u
Step-Kept {a = a} (Step.pauses_group key paused) v u = u
Step-Kept {a = a} (Step.rates_group env key n t b e) v u =
    same_jobs a b
      (OnOk-apply (λ d. d.jobs ≡ a.jobs) (Group.set_rate env key n t a)
        (set_rate-jobs env key n t a) e)
      u
Step-Kept {a = a} (Step.unrates_group key) v u = u
Step-Kept {a = a} (Step.sets_rule pattern rule b e) v u =
    same_jobs a b
      (OnOk-apply (λ d. d.jobs ≡ a.jobs) (Group.set_rule pattern rule a)
        (set_rule-jobs pattern rule a) e)
      u
Step-Kept {a = a} (Step.removes_rule pattern) v u = u
Step-Kept {a = a} (Step.ticks env got_lock n b e) v u =
    OnOk-apply (λ r. Kept r.1) (tick env got_lock a) (tick-Kept env got_lock a u) e
Step-Kept {a = a} (Step.upserts_schedule env d b e) v u =
    same_jobs a b
      (OnOk-apply (λ x. x.jobs ≡ a.jobs) (upsert_schedule_raw env d a)
        (upsert_schedule-jobs env d a) e)
      u
Step-Kept {a = a} (Step.upserts_interval env ms d b e) v u =
    same_jobs a b
      (OnOk-apply (λ x. x.jobs ≡ a.jobs) (upsert_interval_schedule_raw env ms d a)
        (upsert_interval-jobs env ms d a) e)
      u
Step-Kept {a = a} (Step.syncs_schedules env declared r b e) v u =
    same_jobs a b
      (OnOk-apply (λ x. x.1.jobs ≡ a.jobs) (sync_schedules env declared a)
        (sync_schedules-jobs env declared a) e)
      u
Step-Kept {a = a} (Step.removes_schedule name) v u = u
Step-Kept {a = a} (Step.enables_schedule name enabled) v u = u
Step-Kept {a = a} (Step.elects now worker secs role) v u = u
Step-Kept {a = a} (Step.resigns now worker role) v u = u

-- In every database that a history leads to, at most one job that is pending, running or scheduled
-- holds a unique key of a kind: retries and recoveries, which make rows pending again, included.
pub Reachable-IsUnique :
    {db : Db} → Reachable db → (kind key : String) → count (holds_key kind key) db.jobs ≤ 1
unfolding count
Reachable-IsUnique Reachable.start kind key = omega arith
Reachable-IsUnique (Reachable.step r s) kind key =
    Step-Kept s (Reachable-IsCounted r) (Reachable-IsUnique r) kind key
