-- ===== src/Traces.antt =====
-- The transactions of eddyq-core that change the database, as a step relation, and the histories
-- that they make. Peers interleave their transactions in any order; what a claim sees of locks held
-- by peers is in its `Poll`.
use eddyq.Prelude.{ℕ, ◌≡◌, refl, String, Bool, false, Option, List, ℤ}
use eddyq.Store.{Db, empty_db, Json, DynEnqueue, Env, ok, state_eq, running}
use eddyq.Sql.{count}
use eddyq.Sql.Keyed.{counter}
use eddyq.NamedQueue
use eddyq.Group
use eddyq.Enqueue.{
  EnqueueResult, BulkEnqueueResult, enqueue_dyn_in_tx, enqueue_dyn, enqueue_many_dyn,
}
use eddyq.Batch.{BatchOptions, BatchEnqueueResult, enqueue_batch}
use eddyq.Fetch.Finish.{mark_completed, mark_failed, cancel, update_heartbeat_batch}
use eddyq.Fetch.Sweep.{sweep_stale, reclaim_in_flight, reconcile_counters}
use eddyq.Fetch.Retention.{CleanState, clean_state, Retention, cleanup, clean_jobs}
use eddyq.Fetch.Claim.{Poll, claim_batch}
use eddyq.Invariant.{IsCounted, OnOk-apply}
use eddyq.Invariant.Insertion.{enqueue_dyn_in_tx-IsCounted, enqueue_many_dyn_in_tx-IsCounted}
use eddyq.Invariant.Batches.{enqueue_batch-IsCounted}
use eddyq.Invariant.Runs.{
  mark_completed-IsCounted, mark_failed-IsCounted, cancel-IsCounted,
  update_heartbeat_batch-IsCounted,
}
use eddyq.Invariant.Recovery.{sweep_stale-IsCounted, reclaim_in_flight-IsCounted}
use eddyq.Invariant.Repair.{reconcile_counters-IsCounted}
use eddyq.Invariant.Deletion.{cleanup-IsCounted, clean_jobs-IsCounted}
use eddyq.Invariant.Tables.{
  upsert_queue-IsCounted, upsert_group-IsCounted, set_rate-IsCounted, clear_rate-IsCounted,
  rules-IsCounted, set_rule-IsCounted,
}
use eddyq.Schedule.{
  ScheduleDeclaration, SyncReport, upsert_schedule_raw, upsert_interval_schedule_raw,
  sync_schedules, remove_schedule, set_enabled,
}
use eddyq.Schedule.Tick.{tick}
use eddyq.Leader.{try_elect, resign}
use eddyq.Invariant.Scheduled.{
  schedules-IsCounted, leases-IsCounted, upsert_schedule-IsCounted, upsert_interval-IsCounted,
  sync_schedules-IsCounted, tick-IsCounted,
}
use eddyq.Claiming.Counted.{claim_batch-IsCounted}

-- One transaction that commits.
pub data Step (a : Db) : Db → Type 0 where
  enqueues :
      (env : Env) (req : DynEnqueue) (r : EnqueueResult) (b : Db)
      → enqueue_dyn env req a ≡ ok (r, b)
      → Step a b
  enqueues_many :
      (env : Env) (reqs : List DynEnqueue) (r : BulkEnqueueResult) (b : Db)
      → enqueue_many_dyn env reqs a ≡ ok (r, b)
      → Step a b
  enqueues_batch :
      (env : Env) (items : List DynEnqueue) (opts : BatchOptions) (r : BatchEnqueueResult) (b : Db)
      → enqueue_batch env items opts a ≡ ok (r, b)
      → Step a b
  claims : (p : Poll) → Step a (claim_batch p a).1
  completes :
      (env : Env) (id worker : ℕ) (result : Option Json) (b : Db)
      → mark_completed env id worker result a ≡ ok b
      → Step a b
  fails :
      (env : Env) (id worker : ℕ) (entry : Json) (retry_at : Option ℕ) (b : Db)
      → mark_failed env id worker entry retry_at a ≡ ok b
      → Step a b
  cancels : (env : Env) (id : ℕ) (r : Bool) (b : Db) → cancel env id a ≡ ok (r, b) → Step a b
  beats : (env : Env) (ids : List ℕ) → Step a (update_heartbeat_batch env ids a).1
  sweeps : (env : Env) (secs n : ℕ) (b : Db) → sweep_stale env secs a ≡ ok (n, b) → Step a b
  reclaims :
      (env : Env) (ids : List ℕ) (n : ℕ) (b : Db)
      → reclaim_in_flight env ids a ≡ ok (n, b)
      → Step a b
  reconciles : Step a (reconcile_counters a).1
  cleans_up : (now : ℕ) (r : Retention) → Step a (cleanup now r a).1
  cleans :
      (now : ℕ) (state : CleanState) (grace limit : ℕ)
      → Step a (clean_jobs now (clean_state state) grace limit a).1
  caps_queue : (name : String) (max : ℤ) → Step a (NamedQueue.set_concurrency name max a)
  pauses_queue : (name : String) (paused : Bool) → Step a (NamedQueue.set_paused name paused a)
  times_queue :
      (name : String) (timeout : Option ℕ) → Step a (NamedQueue.set_timeout name timeout a)
  caps_group : (key : String) (max : ℤ) → Step a (Group.set_concurrency key max a)
  pauses_group : (key : String) (paused : Bool) → Step a (Group.set_paused key paused a)
  rates_group :
      (env : Env) (key : String) (n period : ℕ) (b : Db)
      → Group.set_rate env key n period a ≡ ok b
      → Step a b
  unrates_group : (key : String) → Step a (Group.clear_rate key a)
  sets_rule :
      (pattern : String) (rule : Group.GroupRule) (b : Db)
      → Group.set_rule pattern rule a ≡ ok b
      → Step a b
  removes_rule : (pattern : String) → Step a (Group.remove_rule pattern a).1
  ticks :
      (env : Env) (got_lock : Bool) (n : ℕ) (b : Db) → tick env got_lock a ≡ ok (n, b) → Step a b
  upserts_schedule :
      (env : Env) (d : ScheduleDeclaration) (b : Db) → upsert_schedule_raw env d a ≡ ok b → Step a b
  upserts_interval :
      (env : Env) (ms : ℤ) (d : ScheduleDeclaration) (b : Db)
      → upsert_interval_schedule_raw env ms d a ≡ ok b
      → Step a b
  syncs_schedules :
      (env : Env) (declared : List ScheduleDeclaration) (r : SyncReport) (b : Db)
      → sync_schedules env declared a ≡ ok (r, b)
      → Step a b
  removes_schedule : (name : String) → Step a (remove_schedule name a).1
  enables_schedule : (name : String) (enabled : Bool) → Step a (set_enabled name enabled a).1
  elects : (now worker secs : ℕ) (role : String) → Step a (try_elect now worker role secs a).1
  resigns : (now worker : ℕ) (role : String) → Step a (resign now worker role a)

-- The databases that a history leads to.
pub data Reachable : Db → Type 0 where
  start : Reachable empty_db
  step : {a b : Db} → Reachable a → Step a b → Reachable b

cleaned_ended : (state : CleanState) → state_eq (clean_state state) running ≡ false
unfolding clean_state state_eq
cleaned_ended CleanState.completed = refl
cleaned_ended CleanState.failed = refl
cleaned_ended CleanState.cancelled = refl

pub Step-IsCounted : {a b : Db} → Step a b → IsCounted a → IsCounted b
unfolding enqueue_dyn enqueue_dyn_in_tx enqueue_many_dyn NamedQueue.set_concurrency
    NamedQueue.set_paused NamedQueue.set_timeout Group.set_concurrency Group.set_paused
    Group.remove_rule remove_schedule set_enabled try_elect resign
Step-IsCounted {a = a} (Step.enqueues env req r b e) v =
    OnOk-apply (λ x. IsCounted x.1) (enqueue_dyn env req a)
      (enqueue_dyn_in_tx-IsCounted env req a v) e
Step-IsCounted {a = a} (Step.enqueues_many env reqs r b e) v =
    OnOk-apply (λ x. IsCounted x.1) (enqueue_many_dyn env reqs a)
      (enqueue_many_dyn_in_tx-IsCounted env reqs a v) e
Step-IsCounted {a = a} (Step.enqueues_batch env items opts r b e) v =
    OnOk-apply (λ x. IsCounted x.1) (enqueue_batch env items opts a)
      (enqueue_batch-IsCounted env items opts a v) e
Step-IsCounted {a = a} (Step.claims p) v = claim_batch-IsCounted p a v
Step-IsCounted {a = a} (Step.completes env id w result b e) v =
    OnOk-apply IsCounted (mark_completed env id w result a)
      (mark_completed-IsCounted env id w result a v) e
Step-IsCounted {a = a} (Step.fails env id w entry at b e) v =
    OnOk-apply IsCounted (mark_failed env id w entry at a)
      (mark_failed-IsCounted env id w entry at a v) e
Step-IsCounted {a = a} (Step.cancels env id r b e) v =
    OnOk-apply (λ x. IsCounted x.1) (cancel env id a) (cancel-IsCounted env id a v) e
Step-IsCounted {a = a} (Step.beats env ids) v = update_heartbeat_batch-IsCounted env ids a v
Step-IsCounted {a = a} (Step.sweeps env secs n b e) v =
    OnOk-apply (λ x. IsCounted x.1) (sweep_stale env secs a) (sweep_stale-IsCounted env secs a v) e
Step-IsCounted {a = a} (Step.reclaims env ids n b e) v =
    OnOk-apply (λ x. IsCounted x.1) (reclaim_in_flight env ids a)
      (reclaim_in_flight-IsCounted env ids a v) e
Step-IsCounted {a = a} Step.reconciles v = reconcile_counters-IsCounted a v
Step-IsCounted {a = a} (Step.cleans_up now r) v = cleanup-IsCounted now r a v
Step-IsCounted {a = a} (Step.cleans now state grace limit) v =
    clean_jobs-IsCounted now (clean_state state) grace limit a (cleaned_ended state) v
Step-IsCounted {a = a} (Step.caps_queue name max) v =
    upsert_queue-IsCounted name _ a (λ q. refl) (λ q. refl) v
Step-IsCounted {a = a} (Step.pauses_queue name paused) v =
    upsert_queue-IsCounted name _ a (λ q. refl) (λ q. refl) v
Step-IsCounted {a = a} (Step.times_queue name timeout) v =
    upsert_queue-IsCounted name _ a (λ q. refl) (λ q. refl) v
Step-IsCounted {a = a} (Step.caps_group key max) v =
    upsert_group-IsCounted key _ a (λ g. refl) (λ g. refl) v
Step-IsCounted {a = a} (Step.pauses_group key paused) v =
    upsert_group-IsCounted key _ a (λ g. refl) (λ g. refl) v
Step-IsCounted {a = a} (Step.rates_group env key n period b e) v =
    OnOk-apply IsCounted (Group.set_rate env key n period a)
      (set_rate-IsCounted env key n period a v) e
Step-IsCounted {a = a} (Step.unrates_group key) v = clear_rate-IsCounted key a v
Step-IsCounted {a = a} (Step.sets_rule pattern rule b e) v =
    OnOk-apply IsCounted (Group.set_rule pattern rule a) (set_rule-IsCounted pattern rule a v) e
Step-IsCounted {a = a} (Step.removes_rule pattern) v = rules-IsCounted _ a v
Step-IsCounted {a = a} (Step.ticks env got_lock n b e) v =
    OnOk-apply (λ r. IsCounted r.1) (tick env got_lock a) (tick-IsCounted env got_lock a v) e
Step-IsCounted {a = a} (Step.upserts_schedule env d b e) v =
    OnOk-apply IsCounted (upsert_schedule_raw env d a) (upsert_schedule-IsCounted env d a v) e
Step-IsCounted {a = a} (Step.upserts_interval env ms d b e) v =
    OnOk-apply IsCounted (upsert_interval_schedule_raw env ms d a)
      (upsert_interval-IsCounted env ms d a v) e
Step-IsCounted {a = a} (Step.syncs_schedules env declared r b e) v =
    OnOk-apply (λ r. IsCounted r.1) (sync_schedules env declared a)
      (sync_schedules-IsCounted env declared a v) e
Step-IsCounted {a = a} (Step.removes_schedule name) v = schedules-IsCounted _ a v
Step-IsCounted {a = a} (Step.enables_schedule name enabled) v = schedules-IsCounted _ a v
Step-IsCounted {a = a} (Step.elects now worker secs role) v = leases-IsCounted _ a v
Step-IsCounted {a = a} (Step.resigns now worker role) v = leases-IsCounted _ a v

-- In every database that a history leads to, the counters of groups and queues are the numbers of
-- their jobs that run, and an id names one job.
pub Reachable-IsCounted : {db : Db} → Reachable db → IsCounted db
unfolding count counter
Reachable-IsCounted Reachable.start = record { groups = λ k. refl; queues = λ k. tt; serial = tt }
Reachable-IsCounted (Reachable.step r s) = Step-IsCounted s (Reachable-IsCounted r)
