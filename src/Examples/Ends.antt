-- ===== src/Examples/Ends.antt =====
-- The theorems on the ends of jobs, at the databases of Data.
use eddyq.Prelude.{
  List, ◌++◌, ◌<◌, ◌≤◌, ◌+◌, ◌≡◌, ◌⊎◌, refl, min, length, true, false, none, some, [], ◌∷◌, Memᴰ,
  pos,
}
use eddyq.Sql.{count, find}
use eddyq.Sql.Keyed.{at_some}
use eddyq.Store.{Json, database, Db, ok, err, invalid_argument, i64_max}
use eddyq.NamedQueue.{running_on, validate_queue_name, all_name_chars, is_name_char}
use eddyq.Enqueue.{enqueue_dyn_in_tx}
use eddyq.Batch.Callback.{build_callback_dyn}
use eddyq.Batch.{
  TerminalOutcome, settle_terminal, bump, has_id, can_claim, close, settled, is_unclaimed,
  summary_of, fire, try_claim_and_fire,
}
use eddyq.Fetch.Finish.{
  is_held, complete, mark_completed, mark_failed, push_error, max_error_entries,
}
use eddyq.Fetch.Sweep.{is_spent, running_in, is_stale, sweep_stale, reconcile_counters}
use eddyq.Fetch.Retention.{Retention, cleanup}
use eddyq.Invariant.{IsCounted, group_counter, queue_counter}
use eddyq.Invariant.Repair.{reconcile_counters_lem}
use eddyq.Settlement.Once.{try_claim_and_fire-once}
use eddyq.Settlement.Last.{settle_terminal_lem}
use eddyq.Settlement.Gate.{lost_worker, mark_completed-once}
use eddyq.Settlement.Swept.{sweep_stale_lem, push_error-keeps}
use eddyq.Settlement.Kept.{is_live_job, cleanup-keeps}
use eddyq.Settlement.Stuck.{invalid_callback-blocks}
use eddyq.Settlement.Success.{mark_completed-ok, sweep_stale-ok}
use eddyq.Sql.{update}
use eddyq.Examples.Data.{
  misnamed, env_of, env0, at_work, open_batch, db0, db_batch, db_done, db_drifted, left, left_by,
  db0-IsCounted,
}

settle_terminal_lem_example :
    (settled open_batch + 1 ≤ 1
      → (settled open_batch + 1 < 1) ⊎ (is_unclaimed open_batch ≡ false)
      → settle_terminal env0 1 TerminalOutcome.completed db0
        ≡ ok (record db0 {
          batches = update (has_id 1) (bump TerminalOutcome.completed) db0.batches;
        }))
    × (settled open_batch + 1 ≡ 1
        → is_unclaimed open_batch ≡ true
        → settle_terminal env0 1 TerminalOutcome.completed db0
          ≡ fire env0
              (some "spec")
              1
              (summary_of 1000000 (bump TerminalOutcome.completed open_batch))
              (record db0 {
                batches =
                    update
                      (can_claim 1)
                      (close 1000000)
                      (update (has_id 1) (bump TerminalOutcome.completed) db0.batches);
              }))
    × (1 < settled open_batch + 1
        → settle_terminal env0 1 TerminalOutcome.completed db0 ≡ err database)
unfolding find
settle_terminal_lem_example =
    settle_terminal_lem env0 1 TerminalOutcome.completed db0 open_batch refl

-- The jobs go meanwhile.
try_claim_and_fire-once_example :
    try_claim_and_fire env0 1 (record (left (try_claim_and_fire env0 1 db_done)) { jobs = [] })
    ≡ ok (record (left (try_claim_and_fire env0 1 db_done)) { jobs = [] })
unfolding try_claim_and_fire find enqueue_dyn_in_tx validate_queue_name build_callback_dyn
    all_name_chars is_name_char
try_claim_and_fire-once_example =
    try_claim_and_fire-once env0 env0 1 db_done (left (try_claim_and_fire env0 1 db_done))
      (record (left (try_claim_and_fire env0 1 db_done)) { jobs = [] }) refl refl

mark_completed-once_example :
    (mark_completed env0 2 7 none (left (mark_completed env0 2 7 none db0))
      ≡ ok (left (mark_completed env0 2 7 none db0)))
    × (mark_failed env0 2 7 "e" none (left (mark_completed env0 2 7 none db0))
        ≡ ok (left (mark_completed env0 2 7 none db0)))
unfolding mark_completed find
mark_completed-once_example =
    mark_completed-once env0 env0 2 7 none none "e" none db0
      (left (mark_completed env0 2 7 none db0)) refl

lost_worker_example :
    (mark_completed env0 2 8 none db0 ≡ ok db0) × (mark_failed env0 2 8 "e" (some 9) db0 ≡ ok db0)
unfolding find is_held
lost_worker_example = lost_worker env0 2 8 none "e" (some 9) db0 refl

mark_completed-ok_example :
    (after : Db) × (mark_completed env0 2 7 (some "r") db0 ≡ ok after)
    × Memᴰ (complete 1000000 (some "r") at_work) after.jobs
    × IsCounted after
unfolding find is_held
mark_completed-ok_example =
    mark_completed-ok env0 2 7 (some "r") db0 at_work db0-IsCounted refl refl

sweep_stale_lem_example :
    (count (is_stale 1000000 (min 60 i64_max)) (left_by (sweep_stale env0 60 db0)).jobs ≡ 0)
    × (1 ≡ count (is_stale 1000000 (min 60 i64_max)) db0.jobs)
unfolding sweep_stale count
sweep_stale_lem_example = sweep_stale_lem env0 60 1 db0 (left_by (sweep_stale env0 60 db0)) refl

sweep_stale-ok_example :
    (after : Db) × (sweep_stale env0 60 db0
      ≡ ok (count (is_stale 1000000 (min 60 i64_max)) db0.jobs, after))
    × IsCounted after
unfolding count is_stale is_spent
sweep_stale-ok_example = sweep_stale-ok env0 60 db0 db0-IsCounted refl

abbrev all_now : Retention
all_now = record {
  completed_secs = some 0;
  failed_secs = some 0;
  cancelled_secs = some 0;
  batch_secs = some 0;
  completed_count = some (pos 0);
  failed_count = some (pos 0);
  cancelled_count = some (pos 0);
  batch_count = some (pos 0);
}

cleanup-keeps_example :
    count (is_live_job 1) (cleanup 1000000 all_now db0).1.jobs ≡ count (is_live_job 1) db0.jobs
cleanup-keeps_example = cleanup-keeps 1000000 all_now db0 1 db0-IsCounted

reconcile_counters_lem_example :
    (group_counter "g" (reconcile_counters db_drifted).1
      ≡ at_some
          (λ v. min v (count (running_in "g") db_drifted.jobs))
          (group_counter "g" db_drifted))
    × (queue_counter "g" (reconcile_counters db_drifted).1
        ≡ at_some
            (λ v. min v (count (running_on "g") db_drifted.jobs))
            (queue_counter "g" db_drifted))
    × ((reconcile_counters db_drifted).1.jobs ≡ db_drifted.jobs)
reconcile_counters_lem_example = reconcile_counters_lem db_drifted "g"

push_error-keeps_example :
    ((dropped : List Json) × (dropped ++ push_error ("a" ∷ "b" ∷ []) "c" ≡ "a" ∷ "b" ∷ "c" ∷ []))
    × (length (push_error ("a" ∷ "b" ∷ []) "c") ≡ min 3 max_error_entries)
push_error-keeps_example = push_error-keeps ("a" ∷ "b" ∷ []) "c"

invalid_callback-blocks_example :
    mark_completed (env_of misnamed) 2 7 none db_batch ≡ err invalid_argument
unfolding find is_held validate_queue_name
invalid_callback-blocks_example =
    invalid_callback-blocks (env_of misnamed) 2 7 none db_batch
      (record at_work { batch_id = some 1 }) 1 open_batch "spec" misnamed invalid_argument refl refl
      refl refl refl refl refl refl
