-- ===== src/Settlement/Gate.antt =====
-- The guard `state = 'running' AND worker_id = $2` of mark_completed and mark_failed in
-- crates/eddyq-core/src/fetch.rs.
use eddyq.Prelude.{
  ℕ, ◌≡◌, refl, arith, Bool, false, Option, none, some, List, [], ◌∷◌, Bool-cases, inl, inr,
}
use eddyq.Sql.{find, update}
use eddyq.Store.{Db, Job, Json, DynEnqueue, Env, ok, state_eq, running}
use eddyq.Enqueue.Insert.{conflicts, new_job}
use eddyq.Batch.{TerminalOutcome}
use eddyq.Fetch.Finish.{
  is_held, complete, retry, fail, settle, settle_released, release, release_group, release_queue,
  mark_completed, mark_failed,
}
use eddyq.Invariant.{OnOk, OnOk-apply}
use eddyq.Settlement.Grown.{settle_terminal-grown}
use eddyq.Settlement.Once.{find-update-none}

pub update-unfound {ℓ} :
    {A : Type ℓ} (p : A → Bool) (f : A → A) (xs : List A) → find p xs ≡ none → update p f xs ≡ xs
unfolding find update
update-unfound p f [] e = refl
update-unfound p f (x ∷ xs) e = elim (Bool-cases (p x)) [
  | inl t ↦ absurd (let q : some x ≡ none = rw t at e in cc)
  | inr t ↦ rw (t, update-unfound p f xs (rw t at e)) refl
]

-- A worker that does not hold the job, because it never did, because the job was recovered and maybe
-- claimed by another, or because it ended, changes nothing by reporting on it.
pub lost_worker :
    (env : Env) (id worker : ℕ) (result : Option Json) (entry : Json) (retry_at : Option ℕ)
    (db : Db)
    → find (is_held id worker) db.jobs ≡ none
    → (mark_completed env id worker result db ≡ ok db)
      × (mark_failed env id worker entry retry_at db ≡ ok db)
unfolding mark_completed mark_failed
lost_worker env id worker result entry none db e = (
  rw (e, update-unfound (is_held id worker) (complete env.now result) db.jobs e) refl,
  rw (e, update-unfound (is_held id worker) (fail env.now entry) db.jobs e) refl,
)
lost_worker env id worker result entry (some at) db e = (
  rw (e, update-unfound (is_held id worker) (complete env.now result) db.jobs e) refl,
  rw (e, update-unfound (is_held id worker) (retry at entry) db.jobs e) refl,
)

module _ (id w : ℕ) where
  Unheld : List Job → Type 0
  Unheld jobs = find (is_held id w) jobs ≡ none

  grow-Unheld :
      (i now : ℕ) (req : DynEnqueue) (jobs : List Job)
      → conflicts req.kind req.unique_key jobs ≡ false
      → Unheld jobs
      → Unheld (new_job i now req ∷ jobs)
  unfolding Unheld is_held state_eq find
  grow-Unheld i now req jobs fresh h = ground arith

  release-Unheld : (j : Job) (db : Db) → Unheld db.jobs → Unheld (release j db).jobs
  unfolding release release_group release_queue
  release-Unheld j db h = h

  settle-Unheld :
      (env : Env) (b : Option ℕ) (outcome : TerminalOutcome) (db : Db)
      → Unheld db.jobs
      → OnOk (λ d. Unheld d.jobs) (settle env b outcome db)
  settle-Unheld env none outcome db h = h
  settle-Unheld env (some b) outcome db h =
      settle_terminal-grown Unheld grow-Unheld env b outcome db h

  settle_released-Unheld :
      (env : Env) (outcome : TerminalOutcome) (o : Option Job) (db : Db)
      → Unheld db.jobs
      → OnOk (λ d. Unheld d.jobs) (settle_released env outcome o db)
  settle_released-Unheld env outcome none db h = h
  settle_released-Unheld env outcome (some j) db h =
      settle-Unheld env j.batch_id outcome (release j db) (release-Unheld j db h)

  not_held :
      (f : Job → Job)
      → ((a : Job) → state_eq (f a).state running ≡ false)
      → (a : Job) → is_held id w (f a) ≡ false
  unfolding is_held
  not_held f ends a = ground (arith, ends a)

  mark_completed-Unheld :
      (env : Env) (result : Option Json) (db : Db)
      → OnOk (λ d. Unheld d.jobs) (mark_completed env id w result db)
  unfolding mark_completed state_eq Unheld
  mark_completed-Unheld env result db =
      settle_released-Unheld env TerminalOutcome.completed (find (is_held id w) db.jobs) _ (
        find-update-none (is_held id w) (complete env.now result) db.jobs
          (not_held (complete env.now result) (λ a. refl)))

-- A run ends once: after a report of success that committed, the same worker's further reports on
-- the job, of success or of failure, change nothing.
pub mark_completed-once :
    (env later : Env) (id worker : ℕ) (result result' : Option Json) (entry : Json)
    (retry_at : Option ℕ) (db after : Db)
    → mark_completed env id worker result db ≡ ok after
    → (mark_completed later id worker result' after ≡ ok after)
      × (mark_failed later id worker entry retry_at after ≡ ok after)
unfolding Unheld
mark_completed-once env later id worker result result' entry retry_at db after e =
    lost_worker later id worker result' entry retry_at after (
      OnOk-apply (λ d. find (is_held id worker) d.jobs ≡ none)
        (mark_completed env id worker result db) (mark_completed-Unheld id worker env result db) e)
