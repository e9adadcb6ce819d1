-- ===== src/Settlement/Grown.antt =====
-- What an insertion leaves as it was: the batches, and what is true of the jobs and stays true when
-- a new job is added without a conflict.
use eddyq.Prelude.{
  ◌≡◌, ◌||◌, ℕ, Bool, true, false, String, Option, none, some, List, [], ◌∷◌, any, Bool-cases, inl,
  inr, not, ◌==◌,
}
use eddyq.Sql.{find, update}
use eddyq.Store.{ok, err, database, Db, Job, Batch, StoredRule, DynEnqueue, Json, Env}
use eddyq.NamedQueue.{validate_queue_name}
use eddyq.Group.{is_none, is_keyed, add_from_rule, best_rule, materialize_from_rule}
use eddyq.Enqueue.{EnqueueResult, inserted, materialize_for, insert_dyn, notify, enqueue_dyn_in_tx}
use eddyq.Enqueue.Insert.{conflicts, insert_row, has_batch, new_job}
use eddyq.Batch.{
  over_full, TerminalOutcome, has_id, settled, is_unclaimed, can_claim, close, summary_of,
  try_claim_and_fire, settle_terminal, enqueue_callback, fire, bump, fire_parsed, claim_found,
  settle_found,
}
use eddyq.Batch.Callback.{BatchSettleSummary}
use eddyq.Fetch.Sweep.{fire_all}
use eddyq.Invariant.{OnOk, OnOk-bind, OnOk-then, OnOk-if, OnOk-weaken}

module _ (P : List Job → Type 0) (Q : List Batch → Type 0)
    (grow : (id now : ℕ) (req : DynEnqueue) (jobs : List Job)
      → conflicts req.kind req.unique_key jobs ≡ false
      → P jobs
      → P (new_job id now req ∷ jobs)) where
  abbrev pub Both : Db → Type 0
  Both db = P db.jobs × Q db.batches

  add_from_rule-grown :
      (now : ℕ) (key : String) (r : Option StoredRule) (db : Db)
      → Both db
      → Both (add_from_rule now key r db)
  add_from_rule-grown now key none db h = h
  add_from_rule-grown now key (some r) db h = h

  pub materialize-grown :
      (env : Env) (key : String) (db : Db) → Both db → Both (materialize_from_rule env key db)
  unfolding materialize_from_rule
  materialize-grown env key db h = elim (Bool-cases (any (is_keyed key) db.groups)) [
    | inl e ↦ rw e h
    | inr e ↦ rw e (add_from_rule-grown env.now key (best_rule env key db.rules) db h)
  ]

  pub insert_row-grown :
      (now : ℕ) (req : DynEnqueue) (db : Db) → Both db → Both (insert_row now req db).1
  unfolding insert_row
  insert_row-grown now req db h = elim (Bool-cases (conflicts req.kind req.unique_key db.jobs)) [
    | inl e ↦ rw e h
    | inr e ↦ rw e (grow db.next_job now req db.jobs e h.0, h.1)
  ]

  materialize_for-grown :
      (env : Env) (res : EnqueueResult) (key : Option String) (db : Db)
      → Both db
      → Both (materialize_for env res key db)
  unfolding materialize_for
  materialize_for-grown env (inserted id) (some key) db h = materialize-grown env key db h
  materialize_for-grown env _ _ db h = h

  pub notify-grown : (due : Bool) (db : Db) → Both db → Both (notify due db)
  unfolding notify
  notify-grown true db h = h
  notify-grown false db h = h

  pub enqueue_dyn_in_tx-grown :
      (env : Env) (req : DynEnqueue) (db : Db)
      → Both db
      → OnOk (λ r. Both r.1) (enqueue_dyn_in_tx env req db)
  unfolding enqueue_dyn_in_tx insert_dyn
  enqueue_dyn_in_tx-grown env req db h =
      OnOk-bind (λ (r : EnqueueResult × Bool × Db). Both r.2) (λ r. Both r.1)
        (insert_dyn env req db) _
        (OnOk-then (λ (r : EnqueueResult × Bool × Db). Both r.2) (validate_queue_name req.queue) _
          (λ _.
            elim (Bool-cases (is_none (insert_row env.now req db).0 || has_batch req.batch_id db)) [
              | inl e ↦
                  rw e (
                    materialize_for-grown env _ req.group_key _ (insert_row-grown env.now req db h))
              | inr e ↦ rw e tt
            ]))
        (λ r k. notify-grown _ r.2 k)

  pub enqueue_callback-grown :
      (env : Env) (spec : Option DynEnqueue) (id : ℕ) (s : BatchSettleSummary) (db : Db)
      → Both db
      → OnOk Both (enqueue_callback env spec id s db)
  enqueue_callback-grown env none id s db h = h
  enqueue_callback-grown env (some spec) id s db h =
      OnOk-bind (λ r. Both r.1) Both (enqueue_dyn_in_tx env _ db) _
        (enqueue_dyn_in_tx-grown env _ db h) (λ r k. k)

  fire_parsed-grown :
      (env : Env) (spec : Option DynEnqueue) (id : ℕ) (s : BatchSettleSummary) (db : Db)
      → Both db
      → OnOk Both (fire_parsed env spec id s db)
  fire_parsed-grown env none id s db h = tt
  fire_parsed-grown env (some spec) id s db h = enqueue_callback-grown env (some spec) id s db h

  pub fire-grown :
      (env : Env) (spec : Option Json) (id : ℕ) (s : BatchSettleSummary) (db : Db)
      → Both db
      → OnOk Both (fire env spec id s db)
  fire-grown env none id s db h = h
  fire-grown env (some t) id s db h = fire_parsed-grown env (env.from_value t) id s db h

-- The same of the jobs alone, through the settling of a batch.
module _ (P : List Job → Type 0)
    (grow : (id now : ℕ) (req : DynEnqueue) (jobs : List Job)
      → conflicts req.kind req.unique_key jobs ≡ false
      → P jobs
      → P (new_job id now req ∷ jobs)) where
  claim_found-grown :
      (env : Env) (id : ℕ) (o : Option Batch) (db : Db)
      → P db.jobs
      → OnOk (λ d. P d.jobs) (claim_found env id o db)
  claim_found-grown env id none db h = h
  claim_found-grown env id (some b) db h =
      OnOk-weaken (λ d. P d.jobs × Unit {0}) (λ d. P d.jobs)
        (fire env b.on_complete id (summary_of env.now b) _) (λ d k. k.0)
        (fire-grown P (λ bs. Unit) grow env b.on_complete id (summary_of env.now b)
          (record db { batches = update (can_claim id) (close env.now) db.batches }) (h, tt))

  settle_found-grown :
      (env : Env) (id : ℕ) (o : Option Batch) (db : Db)
      → P db.jobs
      → OnOk (λ d. P d.jobs) (settle_found env id o db)
  unfolding try_claim_and_fire
  settle_found-grown env id none db h = h
  settle_found-grown env id (some b) db h =
      OnOk-if (λ d. P d.jobs) (over_full b) (err database) _ tt
        (OnOk-if (λ d. P d.jobs) (not (is_unclaimed b)) (ok db) _ h
          (OnOk-if (λ d. P d.jobs) (settled b == b.total) _ (ok db)
            (claim_found-grown env id (find (can_claim id) db.batches) db h) h))

  pub settle_terminal-grown :
      (env : Env) (id : ℕ) (outcome : TerminalOutcome) (db : Db)
      → P db.jobs
      → OnOk (λ d. P d.jobs) (settle_terminal env id outcome db)
  unfolding settle_terminal
  settle_terminal-grown env id outcome db h =
      settle_found-grown env id (find (has_id id) (update (has_id id) (bump outcome) db.batches)) _
        h

  pub fire_all-grown :
      (env : Env) (ids : List ℕ) (db : Db) → P db.jobs → OnOk (λ d. P d.jobs) (fire_all env ids db)
  unfolding fire_all try_claim_and_fire
  fire_all-grown env [] db h = h
  fire_all-grown env (b ∷ bs) db h =
      OnOk-bind (λ d. P d.jobs) (λ d. P d.jobs) (fire_all env bs db) (try_claim_and_fire env b)
        (fire_all-grown env bs db h)
        (λ d k. claim_found-grown env b (find (can_claim b) d.batches) d k)
