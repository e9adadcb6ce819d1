-- ===== src/Claiming/Counted.antt =====
-- The counters of groups and queues through a claim.
use eddyq.Prelude.{
  ℕ, ◌+◌, ◌≡◌, refl, sym, ◌∙◌, ap, subst, Bool, true, false, ◌&&◌, ◌||◌, String, Option, none, some,
  List, arith, All, Memᴰ, Bool-cases, inl, inr, if◌then◌else◌, ◌==◌,
}
use mathlib.Core.Path.{fun_ext}
use eddyq.Sql.{select, count, update}
use eddyq.Sql.Count.{count-update, count_none, count-select}
use eddyq.Sql.Order.{All-map}
use eddyq.Sql.Keyed.{at_some}
use eddyq.Store.{Db, Job, Env, state_eq, pending}
use eddyq.Store.Serial.{Below, Below-update}
use eddyq.NamedQueue.{running_on}
use eddyq.Fetch.Sweep.{running_in, on_group, on_queue}
use eddyq.Fetch.Claim.{Poll, choose, claim_batch, is_empty, open_queues}
use eddyq.Fetch.Claim.Budgets.{Held, queue_budget}
use eddyq.Fetch.Claim.Groups.{GroupSlots}
use eddyq.Fetch.Claim.Lanes.{Accepted, is_ready}
use eddyq.Fetch.Claim.Write.{ClaimedJob, is_accepted, start, claim_rows}
use eddyq.Invariant.{IsCounted, queue_counter, Agrees, job_id}
use eddyq.Invariant.Raised.{bump_groups-counts, bump_queues-counts}
use eddyq.Claiming.Chosen.{IsChosen, All-mem, choose-IsChosen}
use eddyq.Claiming.Identity.{same_row, accepted_for}

module _ (env : Env) (held : Held) (kinds queues : List String) (jobs : List Job) (n : ℕ)
    (w : Below job_id n jobs) (acc : List Accepted)
    (h : All (IsChosen env held kinds queues jobs) acc) where
  -- The row of an acceptance is the row that is updated.
  pub accepted_row :
      (j : Job)
      → Memᴰ j jobs
      → is_accepted acc j ≡ true
      → (a : Accepted) × Memᴰ a acc × (c : IsChosen env held kinds queues jobs a) × (c.job ≡ j)
  accepted_row j m e =
      let (a, am, s, c) = accepted_for (IsChosen env held kinds queues jobs) j.id acc e h in
      (a, am, c, same_row job_id n jobs c.job j w c.there m (sym c.id ∙ s))

  ready_pending : (j : Job) → is_ready env kinds j ≡ true → state_eq j.state pending ≡ true
  unfolding is_ready
  ready_pending j e = ground arith

  pub accepted_pending :
      (j : Job) → Memᴰ j jobs → is_accepted acc j ≡ true → state_eq j.state pending ≡ true
  accepted_pending j m e =
      let (a, am, c, same) = accepted_row j m e in
      subst (λ (r : Job). state_eq r.state pending ≡ true) same (ready_pending c.job c.ready)

  pub not_running_in :
      (k : String) (j : Job) → state_eq j.state pending ≡ true → running_in k j ≡ false
  unfolding running_in state_eq
  not_running_in k j e = ground arith

  pub not_running_on :
      (k : String) (j : Job) → state_eq j.state pending ≡ true → running_on k j ≡ false
  unfolding running_on state_eq
  not_running_on k j e = ground arith

  idle :
      (c : Job → Bool)
      → ((j : Job) → state_eq j.state pending ≡ true → c j ≡ false)
      → All (λ j. (is_accepted acc j && c j) ≡ false) jobs
  idle c out =
      All-map (λ j. Memᴰ j jobs) (λ j. (is_accepted acc j && c j) ≡ false)
        (λ j m. elim (Bool-cases (is_accepted acc j)) [
          | inl e ↦ rw e (out j (accepted_pending j m e))
          | inr e ↦ rw e refl
        ])
        jobs (All-mem jobs)

  pub start_in :
      (worker : ℕ) (k : String) (j : Job)
      → (is_accepted acc j && running_in k (start env worker j))
        ≡ (is_accepted acc j && on_group k j)
  unfolding running_in state_eq
  start_in worker k j = ground arith

  pub start_on :
      (worker : ℕ) (k : String) (j : Job)
      → (is_accepted acc j && running_on k (start env worker j))
        ≡ (is_accepted acc j && on_queue k j)
  unfolding running_on state_eq on_queue
  start_on worker k j = ground arith

  -- The jobs that run after the claim are those that ran, and those that were claimed.
  pub count-started :
      (worker : ℕ) (c d : Job → Bool)
      → ((j : Job) → state_eq j.state pending ≡ true → c j ≡ false)
      → ((j : Job) → (is_accepted acc j && c (start env worker j)) ≡ (is_accepted acc j && d j))
      → count c (update (is_accepted acc) (start env worker) jobs)
        ≡ count c jobs + count d (select (is_accepted acc) jobs)
  count-started worker c d out same = omega (
    arith,
    count-update c (is_accepted acc) (start env worker) jobs,
    count_none (λ j. is_accepted acc j && c j) jobs (idle c out),
    ap (λ q. count q jobs) (fun_ext same),
    count-select d (is_accepted acc) jobs,
  )

raised_row : (o : Option ℕ) (n m d : ℕ) → n ≡ m + d → Agrees o m → Agrees (at_some (λ v. v + d) o) n
raised_row none n m d e h = tt
raised_row (some v) n m d e h = omega arith

claim_rows-IsCounted :
    (p : Poll) (slots : GroupSlots) (acc : List Accepted) (db : Db)
    → All (IsChosen p.env p.held p.kinds p.queues db.jobs) acc
    → IsCounted db
    → IsCounted (claim_rows p.env p.worker_id slots acc db)
unfolding claim_rows
claim_rows-IsCounted p slots acc db h v = record {
  groups = λ k.
      rw (bump_groups-counts p.env.now slots (select (is_accepted acc) db.jobs) k db.groups) (
        omega (
          arith,
          v.groups k,
          count-started p.env p.held p.kinds p.queues db.jobs db.next_job v.serial acc h p.worker_id
              (running_in k) (on_group k)
              (not_running_in p.env p.held p.kinds p.queues db.jobs db.next_job v.serial acc h k)
              (start_in p.env p.held p.kinds p.queues db.jobs db.next_job v.serial acc h p.worker_id
                k),
        ));
  queues = λ k. rw (bump_queues-counts (select (is_accepted acc) db.jobs) k db.queues) (
      raised_row (queue_counter k db) _ _ _
        (count-started p.env p.held p.kinds p.queues db.jobs db.next_job v.serial acc h p.worker_id
          (running_on k) (on_queue k)
          (not_running_on p.env p.held p.kinds p.queues db.jobs db.next_job v.serial acc h k)
          (start_on p.env p.held p.kinds p.queues db.jobs db.next_job v.serial acc h p.worker_id k))
        (v.queues k));
  serial =
      Below-update job_id (is_accepted acc) (start p.env p.worker_id) (λ a. refl) db.next_job
        db.jobs v.serial;
}

either :
    (b : Bool) (x y : List ClaimedJob × Db)
    → IsCounted x.1
    → IsCounted y.1
    → IsCounted (if b then x else y).1
either true x y h k = h
either false x y h k = k

-- A claim keeps the counters, whatever peers hold and whatever the first read saw.
pub claim_batch-IsCounted : (p : Poll) (db : Db) → IsCounted db → IsCounted (claim_batch p db).1
unfolding claim_batch
claim_batch-IsCounted p db v =
    let tbl = queue_budget p.held p.seen p.queues db.queues in
    either (p.batch_size == 0 || is_empty p.kinds || is_empty p.queues) _ _ v (
      either (is_empty (open_queues p tbl)) _ _ v (
        either (is_empty (choose p tbl db).0.accepted) _ _ v (
          claim_rows-IsCounted p (choose p tbl db).1 (choose p tbl db).0.accepted db
            (choose-IsChosen p tbl db) v)))
