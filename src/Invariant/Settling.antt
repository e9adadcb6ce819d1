-- ===== src/Invariant/Settling.antt =====
-- The settling of batches keeps the counters: it writes batch rows and may insert a callback job.
use eddyq.Prelude.{ℕ, Option, none, some, List, [], ◌∷◌, not, ◌==◌}
use eddyq.Sql.{update, find}
use eddyq.Store.{ok, err, database, Db, Batch, DynEnqueue, Json, Env}
use eddyq.Enqueue.{enqueue_dyn_in_tx}
use eddyq.Batch.{
  over_full, TerminalOutcome, has_id, settled, is_unclaimed, summary_of, try_claim_and_fire,
  settle_terminal, enqueue_callback, fire, bump, fire_parsed, claim_found, settle_found,
}
use eddyq.Batch.Callback.{BatchSettleSummary}
use eddyq.Fetch.Sweep.{fire_all}
use eddyq.Invariant.{IsCounted, OnOk, OnOk-bind, OnOk-if}
use eddyq.Invariant.Insertion.{enqueue_dyn_in_tx-IsCounted}

pub batches-IsCounted :
    (bs : List Batch) (db : Db) → IsCounted db → IsCounted (record db { batches = bs })
batches-IsCounted bs db v = record { groups = v.groups; queues = v.queues; serial = v.serial }

pub enqueue_callback-IsCounted :
    (env : Env) (spec : Option DynEnqueue) (id : ℕ) (s : BatchSettleSummary) (db : Db)
    → IsCounted db
    → OnOk IsCounted (enqueue_callback env spec id s db)
enqueue_callback-IsCounted env none id s db v = v
enqueue_callback-IsCounted env (some spec) id s db v =
    OnOk-bind (λ r. IsCounted r.1) IsCounted (enqueue_dyn_in_tx env _ db) _
      (enqueue_dyn_in_tx-IsCounted env _ db v) (λ r h. h)

fire_parsed-IsCounted :
    (env : Env) (spec : Option DynEnqueue) (id : ℕ) (s : BatchSettleSummary) (db : Db)
    → IsCounted db
    → OnOk IsCounted (fire_parsed env spec id s db)
fire_parsed-IsCounted env none id s db v = tt
fire_parsed-IsCounted env (some spec) id s db v =
    enqueue_callback-IsCounted env (some spec) id s db v

fire-IsCounted :
    (env : Env) (spec : Option Json) (id : ℕ) (s : BatchSettleSummary) (db : Db)
    → IsCounted db
    → OnOk IsCounted (fire env spec id s db)
fire-IsCounted env none id s db v = v
fire-IsCounted env (some t) id s db v = fire_parsed-IsCounted env (env.from_value t) id s db v

claim_found-IsCounted :
    (env : Env) (id : ℕ) (b : Option Batch) (db : Db)
    → IsCounted db
    → OnOk IsCounted (claim_found env id b db)
claim_found-IsCounted env id none db v = v
claim_found-IsCounted env id (some b) db v =
    fire-IsCounted env b.on_complete id (summary_of env.now b) _ (batches-IsCounted _ db v)

pub try_claim_and_fire-IsCounted :
    (env : Env) (id : ℕ) (db : Db) → IsCounted db → OnOk IsCounted (try_claim_and_fire env id db)
unfolding try_claim_and_fire
try_claim_and_fire-IsCounted env id db v = claim_found-IsCounted env id _ db v

settle_found-IsCounted :
    (env : Env) (id : ℕ) (b : Option Batch) (db : Db)
    → IsCounted db
    → OnOk IsCounted (settle_found env id b db)
settle_found-IsCounted env id none db v = v
settle_found-IsCounted env id (some b) db v = OnOk-if IsCounted (over_full b) (err database) _ tt (
    OnOk-if IsCounted (not (is_unclaimed b)) (ok db) _ v (
      OnOk-if IsCounted (settled b == b.total) (try_claim_and_fire env id db) (ok db)
        (try_claim_and_fire-IsCounted env id db v) v))

pub settle_terminal-IsCounted :
    (env : Env) (id : ℕ) (outcome : TerminalOutcome) (db : Db)
    → IsCounted db
    → OnOk IsCounted (settle_terminal env id outcome db)
unfolding settle_terminal
settle_terminal-IsCounted env id outcome db v =
    let batches = update (has_id id) (bump outcome) db.batches in
    settle_found-IsCounted env id (find (has_id id) batches) _ (batches-IsCounted batches db v)

pub fire_all-IsCounted :
    (env : Env) (ids : List ℕ) (db : Db) → IsCounted db → OnOk IsCounted (fire_all env ids db)
unfolding fire_all
fire_all-IsCounted env [] db v = v
fire_all-IsCounted env (b ∷ bs) db v =
    OnOk-bind IsCounted IsCounted (fire_all env bs db) (try_claim_and_fire env b)
      (fire_all-IsCounted env bs db v) (λ d h. try_claim_and_fire-IsCounted env b d h)
