-- ===== src/Unique/Steps.antt =====
-- Ends of runs and recoveries keep the unique index.
use eddyq.Prelude.{ℕ, ◌≡◌, arith, Bool, true, Option, none, some, List, [], ◌∷◌}
use eddyq.Sql.{find}
use eddyq.Store.{Db, Job, Json, Env, err, database, state_eq, running}
use eddyq.Enqueue.Insert.{holds_key, is_live}
use eddyq.Batch.{TerminalOutcome}
use eddyq.Fetch.Finish.{
  is_held, complete, retry, fail, settle, settle_released, settle_cancelled, release, release_found,
  release_group, release_queue, mark_completed, mark_failed, is_cancellable, cancel_row, cancel,
  is_beating, update_heartbeat_batch,
}
use eddyq.Fetch.Sweep.{recover, recover_where, recover_and_fire, breaks_check, bumped, fire_all}
use eddyq.Invariant.{OnOk, OnOk-bind, OnOk-if}
use eddyq.Settlement.Grown.{settle_terminal-grown, fire_all-grown}
use eddyq.Unique.Rows.{IsUnique, grow-IsUnique, update_any-IsUnique}

abbrev pub Kept : Db → Type 0
Kept db = IsUnique db.jobs

settle-Kept :
    (env : Env) (b : Option ℕ) (outcome : TerminalOutcome) (db : Db)
    → Kept db
    → OnOk Kept (settle env b outcome db)
settle-Kept env none outcome db u = u
settle-Kept env (some b) outcome db u =
    settle_terminal-grown IsUnique grow-IsUnique env b outcome db u

settle_released-Kept :
    (env : Env) (outcome : TerminalOutcome) (o : Option Job) (db : Db)
    → Kept db
    → OnOk Kept (settle_released env outcome o db)
unfolding release release_group release_queue
settle_released-Kept env outcome none db u = u
settle_released-Kept env outcome (some j) db u = settle-Kept env j.batch_id outcome (release j db) u

release_found-Kept : (o : Option Job) (db : Db) → Kept db → Kept (release_found o db)
unfolding release release_group release_queue
release_found-Kept none db u = u
release_found-Kept (some j) db u = u

pub mark_completed-Kept :
    (env : Env) (id w : ℕ) (result : Option Json) (db : Db)
    → Kept db
    → OnOk Kept (mark_completed env id w result db)
unfolding mark_completed holds_key is_live
mark_completed-Kept env id w result db u =
    settle_released-Kept env TerminalOutcome.completed (find (is_held id w) db.jobs) _ (
      update_any-IsUnique (is_held id w) (complete env.now result) db.jobs
        (λ kind key a h. ground arith) u)

pub mark_failed-Kept :
    (env : Env) (id w : ℕ) (entry : Json) (at : Option ℕ) (db : Db)
    → Kept db
    → OnOk Kept (mark_failed env id w entry at db)
unfolding mark_failed holds_key is_live is_held state_eq
mark_failed-Kept env id w entry (some at) db u =
    release_found-Kept (find (is_held id w) db.jobs) _
      (update_any-IsUnique (is_held id w) (retry at entry) db.jobs (λ kind key a h. ground arith) u)
mark_failed-Kept env id w entry none db u =
    settle_released-Kept env TerminalOutcome.failed (find (is_held id w) db.jobs) _ (
      update_any-IsUnique (is_held id w) (fail env.now entry) db.jobs (λ kind key a h. ground arith)
        u)

settle_cancelled-Kept :
    (env : Env) (o : Option Job) (db : Db)
    → Kept db
    → OnOk (λ r. Kept r.1) (settle_cancelled env o db)
settle_cancelled-Kept env none db u = u
settle_cancelled-Kept env (some j) db u =
    OnOk-bind Kept (λ r. Kept r.1) (settle env j.batch_id TerminalOutcome.cancelled db) _
      (settle-Kept env j.batch_id TerminalOutcome.cancelled db u) (λ d h. h)

pub cancel-Kept : (env : Env) (id : ℕ) (db : Db) → Kept db → OnOk (λ r. Kept r.1) (cancel env id db)
unfolding cancel holds_key is_live
cancel-Kept env id db u = settle_cancelled-Kept env (find (is_cancellable id) db.jobs) _ (
    update_any-IsUnique (is_cancellable id) (cancel_row env.now) db.jobs
      (λ kind key a h. ground arith) u)

pub beats-Kept :
    (env : Env) (ids : List ℕ) (db : Db) → Kept db → Kept (update_heartbeat_batch env ids db).1
unfolding update_heartbeat_batch holds_key
beats-Kept env [] db u = u
beats-Kept env (i ∷ is) db u =
    update_any-IsUnique (is_beating (i ∷ is)) (λ j. record j { heartbeat_at = some env.now })
      db.jobs (λ kind key a h. h) u

pub recover_and_fire-Kept :
    (env : Env) (lost : Job → Bool) (entry : Json) (db : Db)
    → ((a : Job) → lost a ≡ true → state_eq a.state running ≡ true)
    → Kept db
    → OnOk (λ r. Kept r.1) (recover_and_fire env lost entry db)
unfolding recover_where recover holds_key is_live state_eq
recover_and_fire-Kept env lost entry db only u =
    let Q = λ (r : ℕ × Db). Kept r.1 in
    OnOk-if Q
      (breaks_check (bumped lost db db.batches) (recover_where lost env.now entry db).batches)
      (err database) _ tt
      (OnOk-bind Kept Q
        (fire_all env (bumped lost db db.batches) (recover_where lost env.now entry db)) _
        (fire_all-grown IsUnique grow-IsUnique env (bumped lost db db.batches)
          (recover_where lost env.now entry db)
          (update_any-IsUnique lost (recover env.now entry) db.jobs
            (λ kind key a h. ground (arith, only a)) u))
        (λ d h. h))
