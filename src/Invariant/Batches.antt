-- ===== src/Invariant/Batches.antt =====
-- enqueue_batch of crates/eddyq-core/src/batch.rs keeps the counters.
use eddyq.Prelude.{ℕ, List, ◌==◌}
use eddyq.Store.{Db, DynEnqueue, Env}
use eddyq.Enqueue.{enqueue_many_dyn_in_tx}
use eddyq.Batch.{
  BatchOptions, insert_batch, settle_total, no_jobs, enqueue_batch_in_tx, enqueue_batch,
}
use eddyq.Invariant.{IsCounted, OnOk, OnOk-bind, OnOk-if}
use eddyq.Invariant.Insertion.{enqueue_many_dyn_in_tx-IsCounted}
use eddyq.Invariant.Settling.{batches-IsCounted, enqueue_callback-IsCounted}

insert_batch-IsCounted :
    (env : Env) (opts : BatchOptions) (db : Db)
    → IsCounted db
    → IsCounted (insert_batch env opts db)
unfolding insert_batch
insert_batch-IsCounted env opts db v = record {
  groups = v.groups;
  queues = v.queues;
  serial = v.serial;
}

settle_total-IsCounted :
    (env : Env) (opts : BatchOptions) (id n : ℕ) (db : Db)
    → IsCounted db
    → OnOk IsCounted (settle_total env opts id n db)
settle_total-IsCounted env opts id n db v =
    OnOk-if IsCounted (n == 0) _ _
      (enqueue_callback-IsCounted env opts.on_complete id no_jobs _ (batches-IsCounted _ db v))
      (batches-IsCounted _ db v)

pub enqueue_batch-IsCounted :
    (env : Env) (items : List DynEnqueue) (opts : BatchOptions) (db : Db)
    → IsCounted db
    → OnOk (λ r. IsCounted r.1) (enqueue_batch env items opts db)
unfolding enqueue_batch enqueue_batch_in_tx
enqueue_batch-IsCounted env items opts db v =
    OnOk-bind (λ r. IsCounted r.1) (λ r. IsCounted r.1)
      (enqueue_many_dyn_in_tx env _ (insert_batch env opts db)) _
      (enqueue_many_dyn_in_tx-IsCounted env _ (insert_batch env opts db)
        (insert_batch-IsCounted env opts db v))
      (λ r h.
        OnOk-bind IsCounted (λ r. IsCounted r.1)
          (settle_total env opts db.next_batch r.0.inserted r.1) _
          (settle_total-IsCounted env opts db.next_batch r.0.inserted r.1 h) (λ d k. k))
