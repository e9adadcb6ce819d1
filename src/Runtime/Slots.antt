-- ===== src/Runtime/Slots.antt =====
-- The worker slots of a process: the semaphore of idle workers, the channel, the workers and the set
-- of jobs in flight, of `fetch_loop` and `worker_loop` in crates/eddyq-core/src/runtime.rs. A move is
-- what one of the tasks does between two points at which others may run: the fetcher's claim is
-- awaited between the reading of the permits and the first delivery, and each job is delivered by a
-- move of its own. Shutdown is left out.
use eddyq.Prelude.{
  ℕ, ◌+◌, ◌-◌, ◌<◌, ◌≡◌, List, [], ◌∷◌, ◌++◌, length, any_num, leb, ◌==◌, max, min, if◌then◌else◌,
}
use eddyq.Sql.{delete}
use eddyq.Store.{Db}
use eddyq.Fetch.Claim.{Poll, claim_batch}
use eddyq.Fetch.Claim.Write.{ClaimedJob}
use eddyq.Traces.{Reachable}

-- Where the fetcher is: it awaits a claim of so many jobs, or has these claimed jobs to deliver and
-- then waits for its next round.
pub data Fetcher : Type 0 where
  claiming : (batch_size : ℕ) → Fetcher
  sending : (jobs : List ClaimedJob) → Fetcher

pub record WorkerSlots : Type 0 where
  -- the permits of `idle`
  pub idle : ℕ
  pub channel : List ClaimedJob
  -- the jobs whose handler runs, and those whose report is being made
  pub running : List ClaimedJob
  pub reporting : List ClaimedJob
  pub in_flight : List ℕ
  pub fetcher : Fetcher

abbrev pub at_start : ℕ → WorkerSlots
at_start worker_concurrency = record {
  idle = worker_concurrency;
  channel = [];
  running = [];
  reporting = [];
  in_flight = [];
  fetcher = sending [];
}

-- HashSet::insert and HashSet::remove
abbrev pub insert_id : ℕ → List ℕ → List ℕ
insert_id id ids = if any_num id ids then ids else id ∷ ids

abbrev pub remove_id : ℕ → List ℕ → List ℕ
remove_id id ids = delete (λ i. i == id) ids

-- `expect` panics without a permit; `send` waits while the channel is full.
pub data Delivery : Type 0 where
  delivered : WorkerSlots → Delivery
  panics : Delivery
  waits : Delivery

abbrev pub with_job : ClaimedJob → WorkerSlots → WorkerSlots
with_job job s = record s {
  idle = s.idle - 1;
  channel = s.channel ++ (job ∷ []);
  in_flight = insert_id job.id s.in_flight;
}

module _ (worker_concurrency : ℕ) where
  -- The loop's body for one claimed job.
  unfoldable pub deliver : ClaimedJob → WorkerSlots → Delivery
  deliver job s =
      if s.idle == 0
      then panics
      else if leb (max worker_concurrency 1) (length s.channel)
      then waits
      else delivered (with_job job s)

  -- One move of the fetcher.
  pub data FetcherMove (s : WorkerSlots) : WorkerSlots → Type 0 where
    asks :
        (fetch_batch_size : ℕ)
        → s.fetcher ≡ sending []
        → 0 < s.idle
        → FetcherMove s (record s { fetcher = claiming (min fetch_batch_size s.idle) })
    claims :
        (p : Poll) (db : Db)
        → Reachable db
        → s.fetcher ≡ claiming p.batch_size
        → FetcherMove s (record s { fetcher = sending (claim_batch p db).0 })
    claim_fails :
        (n : ℕ) → s.fetcher ≡ claiming n → FetcherMove s (record s { fetcher = sending [] })
    sends :
        (job : ClaimedJob) (rest : List ClaimedJob) (t : WorkerSlots)
        → s.fetcher ≡ sending (job ∷ rest)
        → deliver job s ≡ delivered t
        → FetcherMove s (record t { fetcher = sending rest })

  -- One move of a worker: it takes a job, its handler ends, or its report is made.
  pub data WorkerMove (s : WorkerSlots) : WorkerSlots → Type 0 where
    takes :
        (job : ClaimedJob) (rest : List ClaimedJob)
        → s.channel ≡ job ∷ rest
        → length s.running + length s.reporting < worker_concurrency
        → WorkerMove s (record s { channel = rest; running = job ∷ s.running })
    ends :
        (xs ys : List ClaimedJob) (job : ClaimedJob)
        → s.running ≡ xs ++ (job ∷ ys)
        → WorkerMove s (record s {
          running = xs ++ ys;
          reporting = job ∷ s.reporting;
          in_flight = remove_id job.id s.in_flight;
        })
    reports :
        (xs ys : List ClaimedJob) (job : ClaimedJob)
        → s.reporting ≡ xs ++ (job ∷ ys)
        → WorkerMove s (record s { reporting = xs ++ ys; idle = s.idle + 1 })

  pub data Runs : WorkerSlots → Type 0 where
    boots : Runs (at_start worker_concurrency)
    fetches : {s t : WorkerSlots} → Runs s → FetcherMove s t → Runs t
    works : {s t : WorkerSlots} → Runs s → WorkerMove s t → Runs t
