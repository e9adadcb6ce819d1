-- ===== src/Examples/Processes.antt =====
-- The theorems on enqueues of typed jobs, on failures and on a process's fetcher and workers.
use Prim.Native.String.{◌++◌ as append, len}
use eddyq.Prelude.{
  max, false, Bool, List, ◌+◌, ◌*◌, ◌<◌, ◌≤◌, ◌≡◌, refl, arith, min, true, String, none, some, [],
  ◌∷◌, All,
}
use eddyq.Sql.{select, find, delete, count}
use eddyq.Store.{Db, DynEnqueue, JobState, ok, empty_db, ◌>>=◌}
use eddyq.Enqueue.{inserted, enqueue_dyn, enqueue_many_dyn}
use eddyq.Enqueue.Typed.{
  no_options, enqueue_with, JobTrait, default_trait, enqueue, collect, enqueue_many,
}
use eddyq.Enqueue.Agreement.{enqueue-enqueue_with, enqueue_many-enqueue_many_dyn}
use eddyq.Failure.{Directive, truncate_for_storage, truncation_marker}
use eddyq.Failure.Truncation.{truncate_for_storage-le, truncate_for_storage_lem}
use eddyq.Fetch.Claim.{Poll, claim_batch}
use eddyq.Fetch.Claim.Lanes.{fits}
use eddyq.Fetch.Claim.Budgets.{budget_for, queue_budget, spend}
use eddyq.Fetch.Claim.Groups.{state_of}
use eddyq.Fetch.Claim.Write.{ClaimedJob, claimed_jobs}
use eddyq.Fetch.Finish.{is_held, mark_completed, mark_failed}
use eddyq.Fetch.Sweep.{is_in_flight, reclaim_in_flight}
use eddyq.Runtime.Registry.{
  WorkerRegistry, register_dyn, get_handler, kinds_of, claim_batch-handled,
}
use eddyq.Runtime.Reclaim.{reclaim_in_flight-takes}
use eddyq.NamedQueue.{validate_queue_name, all_name_chars, is_name_char}
use eddyq.Traces.{Reachable, Step}
use eddyq.Runtime.Backoff.{Random}
use eddyq.Runtime.Idle.{
  Claimed, claim_failed, after_rounds, quiet_rounds, idle_ceiling, after_rounds-ceiling,
}
use eddyq.Runtime.Outcome.{Outcome, RetryConfig, report, retry_at, delayed}
use eddyq.Runtime.Reports.{Left, report_lem}
use eddyq.Runtime.Slots.{
  WorkerSlots, sending, delivered, deliver, with_job, FetcherMove, Runs, at_start,
}
use eddyq.Runtime.Capacity.{Accounted, Runs-Delivers}
use eddyq.Examples.Data.{env0, mail, left_by, db0, at_work, poll0, db0-IsCounted}

-- A job whose payload is a text.
abbrev letter : JobTrait String
letter = default_trait "letter" (λ s. some s)

enqueue-enqueue_with_example :
    enqueue letter env0 "hi" no_options db0 ≡ enqueue_with letter env0 "hi" no_options db0
enqueue-enqueue_with_example = enqueue-enqueue_with letter env0 "hi" no_options db0

enqueue_many-enqueue_many_dyn_example :
    enqueue_many letter env0 ("a" ∷ "b" ∷ []) db0
    ≡ (collect letter 1000000 ("a" ∷ "b" ∷ []) >>= λ reqs. enqueue_many_dyn env0 reqs db0)
enqueue_many-enqueue_many_dyn_example =
    enqueue_many-enqueue_many_dyn letter env0 ("a" ∷ "b" ∷ []) db0

-- 44 bytes, cut to 41.
abbrev long_text : String
long_text = "abcdefghijklmnopqrstuvwxyz0123456789abcdefgh"

truncate_for_storage-le_example : len (truncate_for_storage long_text 41) ≤ 41
truncate_for_storage-le_example = truncate_for_storage-le long_text 41 (omega arith)

truncate_for_storage_lem_example :
    (len long_text ≤ 41 → truncate_for_storage long_text 41 ≡ long_text)
    × (41 < len long_text
        → (kept : String) × (dropped : String) × (append kept dropped ≡ long_text)
          × (truncate_for_storage long_text 41 ≡ append kept (truncation_marker (len dropped))))
truncate_for_storage_lem_example = truncate_for_storage_lem long_text 41

abbrev no_luck : Random
no_luck n = 0

-- A claim that fails, a claim of one job, and then quiet.
abbrev busy : List (Claimed × Bool)
busy = (claim_failed, false) ∷ (Claimed.claimed 1 10, true) ∷ []

after_rounds-ceiling_example :
    ((min 1000000000 (idle_ceiling 1000000000) ≤ after_rounds 1000000000 busy 1000000000)
      × (after_rounds 1000000000 busy 1000000000 ≤ max 1000000000 (idle_ceiling 1000000000)))
    × (after_rounds 1000000000
          (quiet_rounds (10 ∷ 10 ∷ 4 ∷ 10 ∷ []))
          (after_rounds 1000000000 busy 1000000000)
        ≡ min (8 * 1000000000) 30000000000)
after_rounds-ceiling_example = after_rounds-ceiling 1000000000 10 10 4 (10 ∷ []) busy

abbrev retries : RetryConfig
retries = record { retry_base = 1000000000; retry_max = 300000000000 }

-- The run of the job that worker 7 holds.
abbrev claimed : ClaimedJob
claimed = record {
  id = 2;
  kind = "mail";
  payload = "{}";
  attempt = 1;
  max_attempts = 3;
  stalled_count = 0;
  max_stalled_count = 1;
  group_key = some "g";
  queue = "default";
  worker_id = 7;
  timeout = none;
}

-- A handler that asks for another run in half a second leaves its job pending until then.
abbrev postpones : Outcome
postpones =
    Outcome.failed
      (record { message = "no"; name = none; stack = none; directive = some (Directive.retry 500) })

report_lem_example :
    (after : Db) × (report no_luck retries env0 claimed postpones db0 ≡ ok after)
    × Left at_work JobState.pending (some (env0.now + 500)) after
unfolding find is_held retry_at delayed
report_lem_example =
    report_lem no_luck retries env0 claimed postpones db0 at_work db0-IsCounted refl refl

-- One job waits.
abbrev ungrouped : DynEnqueue
ungrouped = record mail { group_key = none }

abbrev db_waiting : Db
db_waiting = left_by (enqueue_dyn env0 ungrouped empty_db)

reached : Reachable db_waiting
unfolding enqueue_dyn validate_queue_name all_name_chars is_name_char
reached = Reachable.step Reachable.start (Step.enqueues env0 ungrouped (inserted 1) db_waiting refl)

-- The fetcher has claimed it, with no cap on its queue.
abbrev uncapped : Poll
uncapped = record poll0 { seen = [] }

abbrev fetched : WorkerSlots
fetched = record (at_start 10) { fetcher = sending (claim_batch uncapped db_waiting).0 }

run : Runs 10 fetched
run =
    Runs.fetches (Runs.fetches Runs.boots (FetcherMove.asks 10 refl (omega arith)))
      (FetcherMove.claims uncapped db_waiting reached refl)

abbrev waiting_job : ClaimedJob
waiting_job = record claimed { id = 1; worker_id = 9; group_key = none }

Runs-Delivers_example :
    Accounted 10 fetched
    × (deliver 10 waiting_job fetched ≡ delivered (with_job waiting_job fetched))
unfolding claim_batch select budget_for queue_budget state_of spend fits claimed_jobs enqueue_dyn
    validate_queue_name all_name_chars is_name_char find
Runs-Delivers_example = Runs-Delivers 10 waiting_job [] run refl

-- The pool's registry, and the jobs of a claim for its kinds.
abbrev handlers : WorkerRegistry String
handlers = register_dyn "mail" "send" []

claim_batch-handled_example :
    All (λ c. (f : String) × (get_handler c.kind handlers ≡ ok f)) (claim_batch poll0 db_waiting).0
unfolding kinds_of register_dyn delete
claim_batch-handled_example = claim_batch-handled handlers poll0 db_waiting reached refl

-- Job 2 runs for worker 7 of another process.
reclaim_in_flight-takes_example :
    (1 ≡ count (is_in_flight (2 ∷ [])) db0.jobs)
    × (find (is_held 2 7) (left_by (reclaim_in_flight env0 (2 ∷ []) db0)).jobs ≡ none)
    × (mark_completed env0 2 7 none (left_by (reclaim_in_flight env0 (2 ∷ []) db0))
        ≡ ok (left_by (reclaim_in_flight env0 (2 ∷ []) db0)))
    × (mark_failed env0 2 7 "e" none (left_by (reclaim_in_flight env0 (2 ∷ []) db0))
        ≡ ok (left_by (reclaim_in_flight env0 (2 ∷ []) db0)))
unfolding reclaim_in_flight count
reclaim_in_flight-takes_example =
    reclaim_in_flight-takes env0 (2 ∷ []) db0 (left_by (reclaim_in_flight env0 (2 ∷ []) db0)) 1 2 7
      none "e" none refl refl
