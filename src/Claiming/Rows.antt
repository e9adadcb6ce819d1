-- ===== src/Claiming/Rows.antt =====
-- The rows that claim_batch returns.
use eddyq.Prelude.{
  ℕ, ◌+◌, ◌≤◌, ◌≡◌, refl, Bool, true, false, ◌||◌, String, List, [], ◌∷◌, map, arith, All, Memᴰ,
  any_text, length, ◌==◌, if◌then◌else◌, subst,
}
use eddyq.Sql.{select, update}
use eddyq.Sql.Count.{length-select}
use eddyq.Sql.Order.{All-map, All-select}
use eddyq.Store.{Db, Job, NamedQueue}
use eddyq.Fetch.Claim.{Poll, choose, claim_batch, is_empty, open_queues}
use eddyq.Fetch.Claim.Budgets.{queue_budget}
use eddyq.Fetch.Claim.Groups.{GroupSlots}
use eddyq.Fetch.Claim.Lanes.{Accepted, is_ready}
use eddyq.Fetch.Claim.Write.{ClaimedJob, claimed_jobs, claim_rows, is_accepted, start}
use eddyq.Invariant.{IsCounted, job_id}
use eddyq.Claiming.Chosen.{IsChosen, All-mem, choose-IsChosen}
use eddyq.Claiming.Identity.{count-any_num, ids_of}
use eddyq.Claiming.Counted.{accepted_row}
use eddyq.Claiming.Limits.Size.{choose-fits, length-map}

-- The row behind a claimed job: it was pending and due, of a kind that the worker runs, on a queue
-- that it subscribes to, and locked by nobody; and it runs now, held by the worker.
pub record IsClaim (p : Poll) (db : Db) (after : List Job) (c : ClaimedJob) : Type 0 where
  pub row : Job
  pub there : Memᴰ row db.jobs
  pub id : c.id ≡ row.id
  pub kind : c.kind ≡ row.kind
  pub payload : c.payload ≡ row.payload
  pub worker : c.worker_id ≡ p.worker_id
  pub attempt : c.attempt ≡ row.attempt + 1
  pub ready : is_ready p.env p.kinds row ≡ true
  pub subscribed : any_text row.queue p.queues ≡ true
  pub free : p.held.job_row row.id ≡ false
  pub runs : Memᴰ (start p.env p.worker_id row) after

pub updated :
    (q : Job → Bool) (f : Job → Job) (j : Job) (jobs : List Job)
    → Memᴰ j jobs
    → q j ≡ true
    → Memᴰ (f j) (update q f jobs)
unfolding update
updated q f j [] m e = elim m [ ]
updated q f j (x ∷ xs) (Memᴰ.head h) e = rw (← h, e) (Memᴰ.head refl)
updated q f j (x ∷ xs) (Memᴰ.tail m) e = Memᴰ.tail (updated q f j xs m e)

All-mapped {ℓ κ ι} :
    {A : Type ℓ} {B : Type κ} (P : B → Type ι) (f : A → B) (xs : List A)
    → All (λ a. P (f a)) xs
    → All P (map f xs)
All-mapped P f [] h = tt
All-mapped P f (x ∷ xs) h = (h.0, All-mapped P f xs h.1)

length-claimed_jobs :
    (worker : ℕ) (seen : List NamedQueue) (queues : List String) (acc : List Accepted) (db : Db)
    → length (claimed_jobs worker seen queues acc db) ≡ length (select (is_accepted acc) db.jobs)
unfolding claimed_jobs
length-claimed_jobs worker seen queues acc db = length-map _ (select (is_accepted acc) db.jobs)

module _ (p : Poll) (db : Db) (v : IsCounted db) (slots : GroupSlots) (acc : List Accepted)
    (good : All (IsChosen p.env p.held p.kinds p.queues db.jobs) acc) where
  claimed-IsClaim :
      All
        (IsClaim p db (claim_rows p.env p.worker_id slots acc db).jobs)
        (claimed_jobs p.worker_id p.seen p.queues acc db)
  unfolding claimed_jobs claim_rows
  claimed-IsClaim = All-mapped _ _ (select (is_accepted acc) db.jobs) (
      All-select _ (is_accepted acc) db.jobs (
        All-map (λ j. Memᴰ j db.jobs) _
          (λ j m e.
            let (a, am, x, same) =
              accepted_row p.env p.held p.kinds p.queues db.jobs db.next_job v.serial acc good j m
                e in
            record {
              row = j;
              there = m;
              id = refl;
              kind = refl;
              payload = refl;
              worker = refl;
              attempt = refl;
              ready = subst (λ (r : Job). is_ready p.env p.kinds r ≡ true) same x.ready;
              subscribed = subst (λ (r : Job). any_text r.queue p.queues ≡ true) same x.subscribed;
              free = subst (λ (r : Job). p.held.job_row r.id ≡ false) same x.free;
              runs = updated (is_accepted acc) (start p.env p.worker_id) j db.jobs m e;
            })
          db.jobs (All-mem db.jobs)))

  length-claimed : length (claimed_jobs p.worker_id p.seen p.queues acc db) ≤ length acc
  length-claimed = omega (
    arith,
    length-claimed_jobs p.worker_id p.seen p.queues acc db,
    length-select (is_accepted acc) db.jobs,
    count-any_num job_id db.next_job db.jobs (ids_of acc) v.serial,
    length-map (λ (a : Accepted). a.id) acc,
  )

-- Both branches of an early return.
either_claim :
    (P : List ClaimedJob × Db → Type 0) (b : Bool) (x y : List ClaimedJob × Db)
    → P x
    → P y
    → P (if b then x else y)
either_claim P true x y h k = h
either_claim P false x y h k = k

-- Every job that a claim returns was a pending, due row of one of the worker's kinds, on a queue
-- that it subscribes to, that no peer had locked; the row now runs, held by the worker. And at most
-- `batch_size` jobs are returned.
pub claim_batch-IsClaim :
    (p : Poll) (db : Db)
    → IsCounted db
    → All (IsClaim p db (claim_batch p db).1.jobs) (claim_batch p db).0
      × (length (claim_batch p db).0 ≤ p.batch_size)
unfolding claim_batch
claim_batch-IsClaim p db v =
    let P =
      λ (x : List ClaimedJob × Db). All (IsClaim p db x.1.jobs) x.0 × (length x.0 ≤ p.batch_size) in
    let idle : P ([], db) = (tt, omega arith) in
    let b = queue_budget p.held p.seen p.queues db.queues in
    let good = choose-IsChosen p b db in
    either_claim P (p.batch_size == 0 || is_empty p.kinds || is_empty p.queues) _ _ idle (
      either_claim P (is_empty (open_queues p b)) _ _ idle (
        either_claim P (is_empty (choose p b db).0.accepted) _ _ idle (
          claimed-IsClaim p db v (choose p b db).1 (choose p b db).0.accepted good,
          omega (
            arith,
            length-claimed p db v (choose p b db).1 (choose p b db).0.accepted good,
            choose-fits p b db,
          ),
        )))
