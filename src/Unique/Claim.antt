-- ===== src/Unique/Claim.antt =====
-- A claim keeps the unique index: a row that starts was pending, so it held its key before.
use eddyq.Prelude.{
  ℕ, ◌≡◌, arith, String, Bool, true, false, ◌&&◌, ◌||◌, ◌==◌, List, All, Memᴰ, if◌then◌else◌,
  Bool-cases, inl, inr,
}
use eddyq.Sql.Order.{All-map}
use eddyq.Store.{Db, Job, Env, state_eq, pending}
use eddyq.Enqueue.Insert.{holds_key, is_live}
use eddyq.Fetch.Claim.{Poll, choose, claim_batch, is_empty, open_queues}
use eddyq.Fetch.Claim.Budgets.{queue_budget}
use eddyq.Fetch.Claim.Groups.{GroupSlots}
use eddyq.Fetch.Claim.Lanes.{Accepted}
use eddyq.Fetch.Claim.Write.{ClaimedJob, claim_rows, is_accepted, start}
use eddyq.Invariant.{IsCounted}
use eddyq.Claiming.Chosen.{IsChosen, All-mem, choose-IsChosen}
use eddyq.Claiming.Counted.{accepted_pending}
use eddyq.Unique.Rows.{update-IsUnique}
use eddyq.Unique.Steps.{Kept}

started :
    (env : Env) (w : ℕ) (b : Bool) (kind key : String) (a : Job)
    → state_eq a.state pending ≡ true
    → (b && holds_key kind key (start env w a)) ≡ true
    → (b && holds_key kind key a) ≡ true
unfolding holds_key is_live state_eq
started env w b kind key a p h = ground arith

claim_rows-Kept :
    (p : Poll) (slots : GroupSlots) (acc : List Accepted) (db : Db)
    → IsCounted db
    → All (IsChosen p.env p.held p.kinds p.queues db.jobs) acc
    → Kept db
    → Kept (claim_rows p.env p.worker_id slots acc db)
unfolding claim_rows
claim_rows-Kept p slots acc db v good u =
    update-IsUnique (is_accepted acc) (start p.env p.worker_id) db.jobs
      (λ kind key.
        All-map (λ a. Memᴰ a db.jobs) _
          (λ a m h. elim (Bool-cases (is_accepted acc a)) [
            | inl e ↦
                started p.env p.worker_id (is_accepted acc a) kind key a
                  (accepted_pending p.env p.held p.kinds p.queues db.jobs db.next_job v.serial acc
                    good a m e)
                  h
            | inr e ↦ absurd (let q : false ≡ true = rw e at h in cc)
          ])
          db.jobs (All-mem db.jobs))
      u

either_Kept :
    (b : Bool) (x y : List ClaimedJob × Db) → Kept x.1 → Kept y.1 → Kept (if b then x else y).1
either_Kept true x y h k = h
either_Kept false x y h k = k

pub claim_batch-Kept : (p : Poll) (db : Db) → IsCounted db → Kept db → Kept (claim_batch p db).1
unfolding claim_batch
claim_batch-Kept p db v u =
    let b = queue_budget p.held p.seen p.queues db.queues in
    either_Kept (p.batch_size == 0 || is_empty p.kinds || is_empty p.queues) _ _ u (
      either_Kept (is_empty (open_queues p b)) _ _ u (
        either_Kept (is_empty (choose p b db).0.accepted) _ _ u (
          claim_rows-Kept p (choose p b db).1 (choose p b db).0.accepted db v
            (choose-IsChosen p b db) u)))
