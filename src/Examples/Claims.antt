-- ===== src/Examples/Claims.antt =====
-- The theorems on histories and claims, at the database of Data.
use eddyq.Prelude.{ℕ, ◌+◌, ◌/◌, ◌≤◌, ◌<◌, ◌≡◌, refl, arith, max, length, All, true, some, pos}
use eddyq.Sql.{count, find, select}
use eddyq.Fetch.Claim.Budgets.{budget_for, queue_budget, spend}
use eddyq.Fetch.Claim.Lanes.{fits}
use eddyq.Fetch.Claim.Write.{claimed_jobs}
use eddyq.Store.{Db, empty_db}
use eddyq.NamedQueue
use eddyq.NamedQueue.{running_on, validate_queue_name, is_named}
use eddyq.Fetch.Sweep.{running_in}
use eddyq.Enqueue.{enqueue_dyn, inserted}
use eddyq.Fetch.Claim.{claim_batch}
use eddyq.Fetch.Claim.Groups.{refill, state_of}
use eddyq.Invariant.{IsCounted}
use eddyq.Claiming.Caps.{queue_cap, group_cap}
use eddyq.Claiming.Counted.{claim_batch-IsCounted}
use eddyq.Claiming.Rows.{IsClaim, claim_batch-IsClaim}
use eddyq.Enqueue.Insert.{holds_key}
use eddyq.Unique.History.{Reachable-IsUnique}
use eddyq.Traces.{Step, Reachable, Reachable-IsCounted}
use eddyq.Examples.Data.{mail, env0, group_g, default_queue, db0, poll0, left_by, db0-IsCounted}

abbrev enqueued : Db
enqueued = left_by (enqueue_dyn env0 mail (NamedQueue.set_concurrency "default" (pos 2) empty_db))

history : Reachable (claim_batch poll0 enqueued).1
unfolding enqueue_dyn validate_queue_name NamedQueue.all_name_chars NamedQueue.is_name_char
    NamedQueue.set_concurrency
history =
    Reachable.step
      (Reachable.step (Reachable.step Reachable.start (Step.caps_queue "default" (pos 2)))
        (Step.enqueues env0 mail (inserted 1) enqueued refl))
      (Step.claims poll0)

Reachable-IsCounted_example : IsCounted (claim_batch poll0 enqueued).1
Reachable-IsCounted_example = Reachable-IsCounted history

Reachable-IsUnique_example : count (holds_key "mail" "m") (claim_batch poll0 enqueued).1.jobs ≤ 1
Reachable-IsUnique_example = Reachable-IsUnique history "mail" "m"

queue_cap_example :
    (count (running_on "default") (claim_batch poll0 db0).1.jobs
      ≤ max (count (running_on "default") db0.jobs) 2)
    × (default_queue.paused ≡ true
        → count (running_on "default") (claim_batch poll0 db0).1.jobs
          ≤ count (running_on "default") db0.jobs)
unfolding find
queue_cap_example =
    queue_cap poll0 db0 "default" default_queue default_queue db0-IsCounted refl refl (omega arith)
      refl

group_cap_example :
    (count (running_in "g") (claim_batch poll0 db0).1.jobs
      ≤ max (count (running_in "g") db0.jobs) 2)
    × (group_g.paused ≡ true
        → count (running_in "g") (claim_batch poll0 db0).1.jobs ≤ count (running_in "g") db0.jobs)
    × ((c t : ℕ)
        → group_g.rate_count ≡ some c
        → group_g.rate_period_ms ≡ some t
        → 0 < c
        → 0 < t
        → count (running_in "g") (claim_batch poll0 db0).1.jobs
          ≤ count (running_in "g") db0.jobs
            + refill 1000000 group_g.tokens c group_g.tokens_refilled_at t / t)
unfolding find
group_cap_example = group_cap poll0 db0 "g" group_g db0-IsCounted refl

claim_batch-IsClaim_example :
    All (IsClaim poll0 db0 (claim_batch poll0 db0).1.jobs) (claim_batch poll0 db0).0
    × (length (claim_batch poll0 db0).0 ≤ 10)
claim_batch-IsClaim_example = claim_batch-IsClaim poll0 db0 db0-IsCounted

claim_batch-IsCounted_example : IsCounted (claim_batch poll0 db0).1
claim_batch-IsCounted_example = claim_batch-IsCounted poll0 db0 db0-IsCounted

-- The waiting job is claimed.
claim_batch_test : length (claim_batch poll0 db0).0 ≡ 1
unfolding claim_batch select budget_for queue_budget state_of spend fits claimed_jobs
claim_batch_test = refl
