-- ===== src/Invariant/Runs.antt =====
-- Every end of a run keeps the counters: mark_completed, mark_failed, cancel and heartbeats.
use eddyq.Prelude.{
  ℕ, String, ap, ◌≡◌, refl, Bool, true, false, ◌&&◌, Option, none, some, List, [], ◌∷◌, arith,
  Option-cases, inl, inr,
}
use mathlib.Core.Path.{fun_ext}
use eddyq.Sql.{update, find, count}
use eddyq.Sql.Count.{count-update}
use eddyq.Store.{Db, Job, Json, Env, state_eq, running}
use eddyq.Store.Serial.{Below-update}
use eddyq.NamedQueue.{running_on}
use eddyq.Fetch.Sweep.{running_in}
use eddyq.Batch.{TerminalOutcome}
use eddyq.Fetch.Finish.{
  is_held, complete, retry, fail, settle, settle_released, release, release_found, mark_completed,
  mark_failed, is_cancellable, cancel_row, settle_cancelled, cancel, is_beating,
  update_heartbeat_batch,
}
use eddyq.Invariant.{IsCounted, OnOk, OnOk-bind, job_id}
use eddyq.Invariant.Slots.{with_jobs, release-IsCounted, unfound-IsCounted}
use eddyq.Invariant.Settling.{settle_terminal-IsCounted}

settle-IsCounted :
    (env : Env) (b : Option ℕ) (outcome : TerminalOutcome) (db : Db)
    → IsCounted db
    → OnOk IsCounted (settle env b outcome db)
settle-IsCounted env none outcome db v = v
settle-IsCounted env (some b) outcome db v = settle_terminal-IsCounted env b outcome db v

is_held-id : (id w : ℕ) (j : Job) → is_held id w j ≡ true → job_id j ≡ id
unfolding is_held
is_held-id id w j h = ground arith

is_held-running : (id w : ℕ) (j : Job) → is_held id w j ≡ true → state_eq j.state running ≡ true
unfolding is_held
is_held-running id w j h = ground arith

-- An UPDATE that ends the run of the held row, with its slots given back.
module _ (id w : ℕ) (f : Job → Job) (same : (a : Job) → job_id (f a) ≡ job_id a)
    (ends : (a : Job) → state_eq (f a).state running ≡ false) where
  release_found-IsCounted :
      (db : Db)
      → IsCounted db
      → IsCounted (
          release_found
            (find (is_held id w) db.jobs)
            (with_jobs db (update (is_held id w) f db.jobs)))
  release_found-IsCounted db v = elim (Option-cases (find (is_held id w) db.jobs)) [
    | inl e ↦ rw e (
        unfound-IsCounted (is_held id w) f id (is_held-id id w) same (is_held-running id w) ends db
          e v)
    | inr (j, e) ↦ rw e (
        release-IsCounted (is_held id w) f id (is_held-id id w) same (is_held-running id w) ends db
          j e v)
  ]

settle_released-IsCounted :
    (env : Env) (outcome : TerminalOutcome) (o : Option Job) (db : Db)
    → IsCounted (release_found o db)
    → OnOk IsCounted (settle_released env outcome o db)
settle_released-IsCounted env outcome none db v = v
settle_released-IsCounted env outcome (some j) db v =
    settle-IsCounted env j.batch_id outcome (release j db) v

pub mark_completed-IsCounted :
    (env : Env) (id w : ℕ) (result : Option Json) (db : Db)
    → IsCounted db
    → OnOk IsCounted (mark_completed env id w result db)
unfolding mark_completed state_eq
mark_completed-IsCounted env id w result db v =
    settle_released-IsCounted env TerminalOutcome.completed (find (is_held id w) db.jobs) _
      (release_found-IsCounted id w (complete env.now result) (λ a. refl) (λ a. refl) db v)

pub mark_failed-IsCounted :
    (env : Env) (id w : ℕ) (entry : Json) (retry_at : Option ℕ) (db : Db)
    → IsCounted db
    → OnOk IsCounted (mark_failed env id w entry retry_at db)
unfolding mark_failed state_eq
mark_failed-IsCounted env id w entry (some at) db v =
    release_found-IsCounted id w (retry at entry) (λ a. refl) (λ a. refl) db v
mark_failed-IsCounted env id w entry none db v =
    settle_released-IsCounted env TerminalOutcome.failed (find (is_held id w) db.jobs) _
      (release_found-IsCounted id w (fail env.now entry) (λ a. refl) (λ a. refl) db v)

-- A test on which the old and the new rows agree keeps its count.
steady :
    (c p : Job → Bool) (f : Job → Job) (jobs : List Job)
    → ((a : Job) → (p a && c a) ≡ (p a && c (f a)))
    → count c (update p f jobs) ≡ count c jobs
steady c p f jobs h = omega (arith, count-update c p f jobs, ap (λ q. count q jobs) (fun_ext h))

-- An UPDATE that neither starts nor ends a run.
pub steady-IsCounted :
    (p : Job → Bool) (f : Job → Job) (db : Db)
    → ((a : Job) → job_id (f a) ≡ job_id a)
    → ((k : String) (a : Job) → (p a && running_in k a) ≡ (p a && running_in k (f a)))
    → ((k : String) (a : Job) → (p a && running_on k a) ≡ (p a && running_on k (f a)))
    → IsCounted db
    → IsCounted (with_jobs db (update p f db.jobs))
steady-IsCounted p f db same groups queues v = record {
  groups = λ k. rw (steady (running_in k) p f db.jobs (groups k)) (v.groups k);
  queues = λ k. rw (steady (running_on k) p f db.jobs (queues k)) (v.queues k);
  serial = Below-update job_id p f same db.next_job db.jobs v.serial;
}

cancel_in :
    (now id : ℕ) (k : String) (a : Job)
    → (is_cancellable id a && running_in k a)
      ≡ (is_cancellable id a && running_in k (cancel_row now a))
unfolding is_cancellable running_in
cancel_in now id k a = ground arith

cancel_on :
    (now id : ℕ) (k : String) (a : Job)
    → (is_cancellable id a && running_on k a)
      ≡ (is_cancellable id a && running_on k (cancel_row now a))
unfolding is_cancellable running_on
cancel_on now id k a = ground arith

pub update_heartbeat_batch-IsCounted :
    (env : Env) (ids : List ℕ) (db : Db)
    → IsCounted db
    → IsCounted (update_heartbeat_batch env ids db).1
unfolding update_heartbeat_batch running_in running_on
update_heartbeat_batch-IsCounted env [] db v = v
update_heartbeat_batch-IsCounted env (i ∷ is) db v =
    steady-IsCounted (is_beating (i ∷ is)) (λ j. record j { heartbeat_at = some env.now }) db
      (λ a. refl) (λ k a. refl) (λ k a. refl) v

settle_cancelled-IsCounted :
    (env : Env) (o : Option Job) (db : Db)
    → IsCounted db
    → OnOk (λ r. IsCounted r.1) (settle_cancelled env o db)
settle_cancelled-IsCounted env none db v = v
settle_cancelled-IsCounted env (some j) db v =
    OnOk-bind IsCounted (λ r. IsCounted r.1) (settle env j.batch_id TerminalOutcome.cancelled db) _
      (settle-IsCounted env j.batch_id TerminalOutcome.cancelled db v) (λ d h. h)

pub cancel-IsCounted :
    (env : Env) (id : ℕ) (db : Db) → IsCounted db → OnOk (λ r. IsCounted r.1) (cancel env id db)
unfolding cancel
cancel-IsCounted env id db v = settle_cancelled-IsCounted env (find (is_cancellable id) db.jobs) _ (
    steady-IsCounted (is_cancellable id) (cancel_row env.now) db (λ a. refl) (cancel_in env.now id)
      (cancel_on env.now id) v)
