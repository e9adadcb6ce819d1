-- ===== src/Unique/Insertion.antt =====
-- Insertions keep the unique index: a conflicting row is skipped.
use eddyq.Prelude.{ℕ, String, ◌||◌, ◌==◌, List, [], ◌∷◌, Bool-cases, inl, inr}
use eddyq.Store.{Db, Batch, DynEnqueue, Env}
use eddyq.Group.{is_none}
use eddyq.Enqueue.{
  EnqueueResult, insert_rows, insert_many_dyn, materialize_all, validate_all, enqueue_dyn_in_tx,
  enqueue_many_dyn_in_tx,
}
use eddyq.Enqueue.Insert.{insert_row, has_batch}
use eddyq.Batch.{
  BatchOptions, enqueue_batch, enqueue_batch_in_tx, insert_batch, settle_total, no_jobs,
  enqueue_callback,
}
use eddyq.Invariant.{OnOk, OnOk-bind, OnOk-then, OnOk-if, OnOk-weaken}
use eddyq.Settlement.Grown.{
  materialize-grown, insert_row-grown, notify-grown, enqueue_dyn_in_tx-grown,
  enqueue_callback-grown,
}
use eddyq.Unique.Rows.{IsUnique, grow-IsUnique}
use eddyq.Unique.Steps.{Kept}

abbrev pub Always : List Batch → Type 0
Always bs = Unit

pub enqueue-Kept :
    (env : Env) (req : DynEnqueue) (db : Db)
    → Kept db
    → OnOk (λ r. Kept r.1) (enqueue_dyn_in_tx env req db)
enqueue-Kept env req db u =
    OnOk-weaken (λ (r : EnqueueResult × Db). IsUnique r.1.jobs × Unit {0}) (λ r. Kept r.1)
      (enqueue_dyn_in_tx env req db) (λ r h. h.0)
      (enqueue_dyn_in_tx-grown IsUnique Always grow-IsUnique env req db (u, tt))

insert_rows-Kept :
    (now : ℕ) (reqs : List DynEnqueue) (db : Db)
    → Kept db
    → OnOk (λ x. Kept x.1) (insert_rows now reqs db)
unfolding insert_rows
insert_rows-Kept now [] db u = u
insert_rows-Kept now (r ∷ rs) db u =
    elim (Bool-cases (is_none (insert_row now r db).0 || has_batch r.batch_id db)) [
      | inl e ↦ rw e (
          OnOk-bind (λ x. Kept x.1) (λ x. Kept x.1) (insert_rows now rs (insert_row now r db).1) _
            (insert_rows-Kept now rs (insert_row now r db).1
              (insert_row-grown IsUnique Always grow-IsUnique now r db (u, tt)).0)
            (λ x h. h))
      | inr e ↦ rw e tt
    ]

materialize_all-Kept :
    (env : Env) (keys : List String) (db : Db) → Kept db → Kept (materialize_all env keys db)
unfolding materialize_all
materialize_all-Kept env [] db u = u
materialize_all-Kept env (k ∷ ks) db u =
    materialize_all-Kept env ks _
      (materialize-grown IsUnique Always grow-IsUnique env k db (u, tt)).0

pub enqueue_many-Kept :
    (env : Env) (reqs : List DynEnqueue) (db : Db)
    → Kept db
    → OnOk (λ r. Kept r.1) (enqueue_many_dyn_in_tx env reqs db)
unfolding enqueue_many_dyn_in_tx insert_many_dyn
enqueue_many-Kept env [] db u = u
enqueue_many-Kept env (r ∷ rs) db u =
    OnOk-bind (λ x. Kept x.3) (λ x. Kept x.1) (insert_many_dyn env (r ∷ rs) db) _
      (OnOk-then (λ x. Kept x.3) (validate_all (r ∷ rs)) _
        (λ _.
          OnOk-bind (λ x. Kept x.1) (λ x. Kept x.3) (insert_rows env.now (r ∷ rs) db) _
            (insert_rows-Kept env.now (r ∷ rs) db u) (λ x h. h)))
      (λ x h.
        (notify-grown IsUnique Always grow-IsUnique _ (materialize_all env x.2 x.3)
          (materialize_all-Kept env x.2 x.3 h, tt)).0)

settle_total-Kept :
    (env : Env) (opts : BatchOptions) (id n : ℕ) (db : Db)
    → Kept db
    → OnOk Kept (settle_total env opts id n db)
settle_total-Kept env opts id n db u =
    OnOk-if Kept (n == 0) _ _
      (OnOk-weaken (λ d. IsUnique d.jobs × Unit {0}) Kept
        (enqueue_callback env opts.on_complete id no_jobs _) (λ d h. h.0)
        (enqueue_callback-grown IsUnique Always grow-IsUnique env opts.on_complete id no_jobs _
          (u, tt)))
      u

pub enqueue_batch-Kept :
    (env : Env) (items : List DynEnqueue) (opts : BatchOptions) (db : Db)
    → Kept db
    → OnOk (λ r. Kept r.1) (enqueue_batch env items opts db)
unfolding enqueue_batch enqueue_batch_in_tx insert_batch
enqueue_batch-Kept env items opts db u =
    OnOk-bind (λ r. Kept r.1) (λ r. Kept r.1)
      (enqueue_many_dyn_in_tx env _ (insert_batch env opts db)) _
      (enqueue_many-Kept env _ (insert_batch env opts db) u)
      (λ r h.
        OnOk-bind Kept (λ r. Kept r.1) (settle_total env opts db.next_batch r.0.inserted r.1) _
          (settle_total-Kept env opts db.next_batch r.0.inserted r.1 h) (λ d k. k))
