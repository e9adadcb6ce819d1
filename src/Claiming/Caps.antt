-- ===== src/Claiming/Caps.antt =====
-- The caps of queues and groups through a whole claim.
use eddyq.Prelude.{
  ℕ, ◌+◌, ◌/◌, ◌≤◌, ◌<◌, ◌≡◌, Bool, true, false, ◌||◌, String, Option, some, List, [], ◌∷◌, arith,
  str_eq, is_text, any_text, max, if◌then◌else◌, Bool-cases, inl, inr, ◌==◌,
}
use eddyq.Sql.{count, find}
use eddyq.Sql.Keyed.{counter, or_zero}
use eddyq.Store.{Db, Job, Group, NamedQueue, i32_max}
use eddyq.Group.{is_keyed}
use eddyq.NamedQueue.{running_on, is_named}
use eddyq.Fetch.Sweep.{running_in, on_group, on_queue}
use eddyq.Fetch.Claim.{Poll, choose, claim_batch, is_empty, open_queues}
use eddyq.Fetch.Claim.Budgets.{Budget, queue_budget}
use eddyq.Fetch.Claim.Groups.{conc_slots, refill, group_state}
use eddyq.Fetch.Claim.Lanes.{Accepted}
use eddyq.Fetch.Claim.Write.{ClaimedJob, claim_rows}
use eddyq.Invariant.{IsCounted, Agrees}
use eddyq.Claiming.Chosen.{choose-IsChosen}
use eddyq.Claiming.Counted.{count-started, not_running_in, not_running_on, start_in, start_on}
use eddyq.Claiming.Limits.{of_queue, of_group, count-claimed-le}
use eddyq.Claiming.Limits.Queue.{choose-queue}
use eddyq.Claiming.Limits.Budgeted.{queue_budget-le}
use eddyq.Claiming.Limits.Slots.{choose-group, group_state-conc, group_state-rate}

of_row_queue : (q a : String) (j : Job) → a ≡ j.queue → on_queue q j ≡ true → str_eq a q ≡ true
unfolding on_queue
of_row_queue q a j e h = rw e h

of_row_group :
    (k : String) (a : Option String) (j : Job)
    → a ≡ j.group_key
    → on_group k j ≡ true
    → is_text a k ≡ true
unfolding on_group
of_row_group k a j e h = rw e h

-- The first row with the name holds the counter.
row_counts :
    (q : String) (rows : List NamedQueue) (r : NamedQueue) (n : ℕ)
    → find (is_named q) rows ≡ some r
    → Agrees (counter (λ (x : NamedQueue). x.name) (λ x. x.running_count) q rows) n
    → r.running_count ≡ n
unfolding find counter
row_counts q [] r n f a = cc
row_counts q (x ∷ xs) r n f a = elim (Bool-cases (str_eq x.name q)) [
  | inl e ↦ ground (arith, rw e at a, rw e at f)
  | inr e ↦ row_counts q xs r n (rw e at f) (rw e at a)
]

group_counts :
    (k : String) (rows : List Group) (g : Group) (n : ℕ)
    → find (is_keyed k) rows ≡ some g
    → or_zero (counter (λ (x : Group). x.key) (λ x. x.running_count) k rows) ≡ n
    → g.running_count ≡ n
unfolding find counter
group_counts k [] g n f a = cc
group_counts k (x ∷ xs) g n f a = elim (Bool-cases (str_eq x.key k)) [
  | inl e ↦ ground (arith, rw e at a, rw e at f)
  | inr e ↦ group_counts k xs g n (rw e at f) (rw e at a)
]

-- A bound on every branch of the claim.
either_le :
    (c : Job → Bool) (n : ℕ) (b : Bool) (x y : List ClaimedJob × Db)
    → count c x.1.jobs ≤ n
    → count c y.1.jobs ≤ n
    → count c (if b then x else y).1.jobs ≤ n
either_le c n true x y h k = h
either_le c n false x y h k = k

module _ (p : Poll) (db : Db) (v : IsCounted db) where
  abbrev chosen : Budget → List Accepted
  chosen b = (choose p b db).0.accepted

  -- With a bound on what is accepted, the claim raises the count by at most that.
  claim-le :
      (c : Job → Bool) (m : ℕ)
      → count c
          (claim_rows p.env p.worker_id
            (choose p (queue_budget p.held p.seen p.queues db.queues) db).1
            (chosen (queue_budget p.held p.seen p.queues db.queues))
            db).jobs
        ≤ count c db.jobs + m
      → count c (claim_batch p db).1.jobs ≤ count c db.jobs + m
  unfolding claim_batch
  claim-le c m h =
      let b = queue_budget p.held p.seen p.queues db.queues in
      let same : count c db.jobs ≤ count c db.jobs + m = omega arith in
      either_le c _ (p.batch_size == 0 || is_empty p.kinds || is_empty p.queues) _ _ same (
        either_le c _ (is_empty (open_queues p b)) _ _ same
          (either_le c _ (is_empty (chosen b)) _ _ same h))

  started_on :
      (q : String) (b : Budget) (m : ℕ)
      → count (of_queue q) (chosen b) ≤ m
      → count (running_on q) (claim_rows p.env p.worker_id (choose p b db).1 (chosen b) db).jobs
        ≤ count (running_on q) db.jobs + m
  unfolding claim_rows
  started_on q b m h =
      let good = choose-IsChosen p b db in
      omega (
        arith,
        count-started p.env p.held p.kinds p.queues db.jobs db.next_job v.serial (chosen b) good
            p.worker_id (running_on q) (on_queue q)
            (not_running_on p.env p.held p.kinds p.queues db.jobs db.next_job v.serial (chosen b)
              good q)
            (start_on p.env p.held p.kinds p.queues db.jobs db.next_job v.serial (chosen b) good
              p.worker_id q),
        count-claimed-le p.env p.held p.kinds p.queues db.jobs db.next_job (chosen b) (of_queue q)
            (on_queue q) v.serial good (λ a x e. of_row_queue q a.queue x.job x.queue e),
        h,
      )

  started_in :
      (k : String) (b : Budget) (m : ℕ)
      → count (of_group k) (chosen b) ≤ m
      → count (running_in k) (claim_rows p.env p.worker_id (choose p b db).1 (chosen b) db).jobs
        ≤ count (running_in k) db.jobs + m
  unfolding claim_rows
  started_in k b m h =
      let good = choose-IsChosen p b db in
      omega (
        arith,
        count-started p.env p.held p.kinds p.queues db.jobs db.next_job v.serial (chosen b) good
            p.worker_id (running_in k) (on_group k)
            (not_running_in p.env p.held p.kinds p.queues db.jobs db.next_job v.serial (chosen b)
              good k)
            (start_in p.env p.held p.kinds p.queues db.jobs db.next_job v.serial (chosen b) good
              p.worker_id k),
        count-claimed-le p.env p.held p.kinds p.queues db.jobs db.next_job (chosen b) (of_group k)
            (on_group k) v.serial good (λ a x e. of_row_group k a.group_key x.job x.group_key e),
        h,
      )

-- A subscribed queue whose cap the unlocked read saw: after a claim it runs at most as many jobs as
-- its cap allows, or as it ran before; and a paused queue starts none.
pub queue_cap :
    (p : Poll) (db : Db) (q : String) (s r : NamedQueue)
    → IsCounted db
    → any_text q p.queues ≡ true
    → find (is_named q) p.seen ≡ some s
    → s.max_concurrency < i32_max
    → find (is_named q) db.queues ≡ some r
    → (count (running_on q) (claim_batch p db).1.jobs
        ≤ max (count (running_on q) db.jobs) r.max_concurrency)
      × (r.paused ≡ true
          → count (running_on q) (claim_batch p db).1.jobs ≤ count (running_on q) db.jobs)
queue_cap p db q s r v sub fs cap fr =
    let b = queue_budget p.held p.seen p.queues db.queues in
    let (m, known, le) = queue_budget-le p.held p.seen p.queues db.queues q s r sub fs cap fr in
    let bound =
      claim-le p db v (running_on q) m (started_on p db v q b m (choose-queue p b db q m known)) in
    let counted = row_counts q db.queues r _ fr (v.queues q) in
    (ground (arith, bound, le, counted), λ paused. ground (arith, bound, le))

-- A group with a row: after a claim it runs at most as many jobs as its cap allows, or as it ran
-- before; a paused group starts none; and a rate-limited group starts at most as many jobs as its
-- refilled bucket has whole tokens.
pub group_cap :
    (p : Poll) (db : Db) (k : String) (g : Group)
    → IsCounted db
    → find (is_keyed k) db.groups ≡ some g
    → (count (running_in k) (claim_batch p db).1.jobs
        ≤ max (count (running_in k) db.jobs) g.max_concurrency)
      × (g.paused ≡ true
          → count (running_in k) (claim_batch p db).1.jobs ≤ count (running_in k) db.jobs)
      × ((c t : ℕ)
          → g.rate_count ≡ some c
          → g.rate_period_ms ≡ some t
          → 0 < c
          → 0 < t
          → count (running_in k) (claim_batch p db).1.jobs
            ≤ count (running_in k) db.jobs + refill p.env.now g.tokens c g.tokens_refilled_at t / t)
unfolding conc_slots
group_cap p db k g v f =
    let b = queue_budget p.held p.seen p.queues db.queues in
    let m = (group_state p.env.now g).slots in
    let bound =
      claim-le p db v (running_in k) m (started_in p db v k b m (choose-group p b db k g f)) in
    let counted = group_counts k db.groups g _ f (v.groups k) in
    (
      ground (arith, bound, group_state-conc p.env.now g, counted),
      λ paused. ground (arith, bound, group_state-conc p.env.now g),
      λ c t hc ht pc pt. omega (arith, bound, group_state-rate p.env.now g c t hc ht pc pt),
    )
