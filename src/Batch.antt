-- ===== src/Batch.antt =====
-- crates/eddyq-core/src/batch.rs: batches of jobs, whose callback is enqueued when every job of
-- the batch has ended.
pub mod Callback
use eddyq.Prelude.{
  ltb, ℕ, ◌+◌, ◌-◌, Bool, true, false, ◌&&◌, not, String, Option, none, some, List, [], ◌∷◌, map,
  length, ◌==◌, if◌then◌else◌,
}
use eddyq.Sql.{update, find}
use eddyq.Store.{database, Db, Batch, DynEnqueue, Json, Env, Result, ok, err, serde, ◌>>=◌}
use eddyq.Enqueue.{enqueue_dyn_in_tx, enqueue_many_dyn_in_tx, EnqueueResult, BulkEnqueueResult}
use Callback.{BatchSettleSummary, build_callback_dyn}

pub data TerminalOutcome : Type 0 where
  completed failed cancelled : TerminalOutcome

pub record BatchOptions : Type 0 where
  pub on_complete : Option DynEnqueue
  -- none is JSON null
  pub metadata : Option Json

pub record BatchEnqueueResult : Type 0 where
  pub batch_id : ℕ
  pub inserted : ℕ
  pub skipped : ℕ

abbrev pub has_id : ℕ → Batch → Bool
has_id id b = b.id == id

abbrev to_values : Env → Option DynEnqueue → Option Json
to_values env none = none
to_values env (some spec) = some (env.to_value spec)

abbrev object_or_empty : Env → Option Json → Json
object_or_empty env none = env.object []
object_or_empty env (some v) = v

-- INSERT INTO eddyq_batches (total, on_complete, metadata) VALUES (0, …)
unfoldable pub insert_batch : Env → BatchOptions → Db → Db
insert_batch env opts db = record db {
  batches =
      record {
        id = db.next_batch;
        is_complete = false;
        total = 0;
        completed = 0;
        failed = 0;
        cancelled = 0;
        on_complete = to_values env opts.on_complete;
        callback_enqueued_at = none;
        metadata = object_or_empty env opts.metadata;
        created_at = env.now;
        finalized_at = none;
      }
      ∷ db.batches;
  next_batch = db.next_batch + 1;
}

abbrev pub enqueue_callback : Env → Option DynEnqueue → ℕ → BatchSettleSummary → Db → Result Db
enqueue_callback env none id summary db = ok db
enqueue_callback env (some spec) id summary db =
    enqueue_dyn_in_tx env (build_callback_dyn env spec id summary) db >>= λ r. ok r.1

abbrev pub close : ℕ → Batch → Batch
close now b = record b {
  is_complete = true;
  callback_enqueued_at = some now;
  finalized_at = some now;
}

abbrev pub no_jobs : BatchSettleSummary
no_jobs = record { total = 0; completed = 0; failed = 0; cancelled = 0; duration_ms = 0 }

-- The batch's total is what was inserted; with nothing inserted the callback fires at once.
abbrev pub settle_total : Env → BatchOptions → ℕ → ℕ → Db → Result Db
settle_total env opts id inserted db =
    let db' = record db {
      batches = update (has_id id) (λ b. record b { total = inserted }) db.batches;
    } in
    if inserted == 0
    then enqueue_callback env opts.on_complete id no_jobs
        (record db' { batches = update (has_id id) (close env.now) db'.batches })
    else ok db'

unfoldable pub enqueue_batch_in_tx :
    Env → List DynEnqueue → BatchOptions → Db → Result (BatchEnqueueResult × Db)
unfolding insert_batch
enqueue_batch_in_tx env items opts db =
    let id = db.next_batch in
    let stamped = map (λ (r : DynEnqueue). record r { batch_id = some id }) items in
    enqueue_many_dyn_in_tx env stamped (insert_batch env opts db) >>= λ r.
    settle_total env opts id r.0.inserted r.1 >>= λ db'.
    ok (
      record { batch_id = id; inserted = r.0.inserted; skipped = length items - r.0.inserted },
      db',
    )

-- A transaction of its own.
unfoldable pub enqueue_batch :
    Env → List DynEnqueue → BatchOptions → Db → Result (BatchEnqueueResult × Db)
unfolding enqueue_batch_in_tx
enqueue_batch env items opts db = enqueue_batch_in_tx env items opts db

abbrev pub settled : Batch → ℕ
settled b = b.completed + b.failed + b.cancelled

abbrev pub is_unclaimed : Batch → Bool
is_unclaimed b = elim b.callback_enqueued_at [ none ↦ true | some t ↦ false ]

abbrev pub summary_of : ℕ → Batch → BatchSettleSummary
summary_of now b = record {
  total = b.total;
  completed = b.completed;
  failed = b.failed;
  cancelled = b.cancelled;
  duration_ms = now - b.created_at;
}

abbrev pub fire_parsed : Env → Option DynEnqueue → ℕ → BatchSettleSummary → Db → Result Db
fire_parsed env none id summary db = err serde
fire_parsed env (some spec) id summary db = enqueue_callback env (some spec) id summary db

-- The callback that the batch's row holds, if any.
abbrev pub fire : Env → Option Json → ℕ → BatchSettleSummary → Db → Result Db
fire env none id summary db = ok db
fire env (some v) id summary db = fire_parsed env (env.from_value v) id summary db

-- The UPDATE touches the batch only if nobody has claimed it and all its jobs have ended.
abbrev pub can_claim : ℕ → Batch → Bool
can_claim id b = has_id id b && is_unclaimed b && settled b == b.total

abbrev pub claim_found : Env → ℕ → Option Batch → Db → Result Db
claim_found env id none db = ok db
claim_found env id (some b) db =
    fire env b.on_complete id (summary_of env.now b)
      (record db { batches = update (can_claim id) (close env.now) db.batches })

unfoldable pub try_claim_and_fire : Env → ℕ → Db → Result Db
try_claim_and_fire env id db = claim_found env id (find (can_claim id) db.batches) db

unfoldable pub bump : TerminalOutcome → Batch → Batch
bump completed b = record b { completed = b.completed + 1 }
bump failed b = record b { failed = b.failed + 1 }
bump cancelled b = record b { cancelled = b.cancelled + 1 }

-- The row breaks the CHECK that no more jobs ended than the batch has.
abbrev pub over_full : Batch → Bool
over_full b = ltb b.total (settled b)

-- After the counters were raised: the claim, if this was the batch's last job.
abbrev pub settle_found : Env → ℕ → Option Batch → Db → Result Db
settle_found env id none db = ok db
settle_found env id (some b) db =
    if over_full b
    then err database
    else if not (is_unclaimed b)
    then ok db
    else if settled b == b.total
    then try_claim_and_fire env id db
    else ok db

-- Counts one ended job, and claims the callback if it was the last.
unfoldable pub settle_terminal : Env → ℕ → TerminalOutcome → Db → Result Db
unfolding bump try_claim_and_fire
settle_terminal env id outcome db =
    let batches = update (has_id id) (bump outcome) db.batches in
    settle_found env id (find (has_id id) batches) (record db { batches = batches })
