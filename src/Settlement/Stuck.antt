-- ===== src/Settlement/Stuck.antt =====
-- A batch whose callback cannot be enqueued.
use eddyq.Prelude.{ℕ, ◌+◌, ◌≡◌, refl, ◌∙◌, ap, true, Option, some}
use eddyq.Sql.{find, update}
use eddyq.Store.{Db, Job, Batch, DynEnqueue, Json, Env, err, Error}
use eddyq.NamedQueue.{validate_queue_name}
use eddyq.Enqueue.{insert_dyn, enqueue_dyn_in_tx}
use eddyq.Batch.{
  TerminalOutcome, has_id, settled, is_unclaimed, can_claim, close, summary_of, fire, bump,
}
use eddyq.Batch.Callback.{BatchSettleSummary, build_callback_dyn}
use eddyq.Fetch.Finish.{
  is_held, complete, settle, settle_released, release, release_group, release_queue, mark_completed,
}
use eddyq.Settlement.Last.{settle_terminal_lem}

callback_queue :
    (env : Env) (spec : DynEnqueue) (id : ℕ) (s : BatchSettleSummary)
    → (build_callback_dyn env spec id s).queue ≡ spec.queue
unfolding build_callback_dyn
callback_queue env spec id s = refl

fire_fails :
    (env : Env) (v : Json) (spec : DynEnqueue) (e : Error) (id : ℕ) (s : BatchSettleSummary)
    (db : Db)
    → env.from_value v ≡ some spec
    → validate_queue_name spec.queue ≡ err e
    → fire env (some v) id s db ≡ err e
unfolding enqueue_dyn_in_tx insert_dyn
fire_fails env v spec e id s db parsed bad = rw (parsed, callback_queue env spec id s, bad) refl

-- When the last running job of a batch succeeds and the batch's stored callback names an invalid
-- queue, mark_completed fails with the error of the name's check.
pub invalid_callback-blocks :
    (env : Env) (id worker : ℕ) (result : Option Json) (db : Db) (j : Job) (bid : ℕ) (b : Batch)
    (v : Json) (spec : DynEnqueue) (e : Error)
    → find (is_held id worker) db.jobs ≡ some j
    → j.batch_id ≡ some bid
    → find (has_id bid) db.batches ≡ some b
    → is_unclaimed b ≡ true
    → settled b + 1 ≡ b.total
    → b.on_complete ≡ some v
    → env.from_value v ≡ some spec
    → validate_queue_name spec.queue ≡ err e
    → mark_completed env id worker result db ≡ err e
unfolding mark_completed release release_group release_queue
invalid_callback-blocks env id worker result db j bid b v spec e held of_batch found free last
      callback parsed bad =
    let ended : Db = record db {
      jobs = update (is_held id worker) (complete env.now result) db.jobs;
    } in
    let freed : Db = release j ended in
    let raised : Db = record freed {
      batches = update (has_id bid) (bump TerminalOutcome.completed) freed.batches;
    } in
    let closed : Db = record raised {
      batches = update (can_claim bid) (close env.now) raised.batches;
    } in
    let summary = summary_of env.now (bump TerminalOutcome.completed b) in
    ap (λ o. settle_released env TerminalOutcome.completed o ended) held
    ∙ (ap (λ o. settle env o TerminalOutcome.completed freed) of_batch
        ∙ ((settle_terminal_lem env bid TerminalOutcome.completed freed b found).1 last free
            ∙ (ap (λ o. fire env o bid summary closed) callback
                ∙ fire_fails env v spec e bid summary closed parsed bad)))
