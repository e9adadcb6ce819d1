-- ===== src/Fetch/Claim.antt =====
-- claim_batch of crates/eddyq-core/src/fetch.rs, phase by phase. What other transactions do to it
-- is an argument: the rows that they hold when SKIP LOCKED asks, and what the unlocked first read
-- of eddyq_queues saw. So is the order in which a HashMap of groups is iterated.
pub mod Budgets
pub mod Lanes
pub mod Groups
pub mod Write
use eddyq.Prelude.{
  ℕ, ◌-◌, Bool, true, false, String, Option, none, some, List, [], ◌∷◌, ◌==◌, length, any, leb,
  ◌||◌, if◌then◌else◌,
}
use eddyq.Sql.{select}
use eddyq.Store.{Db, Env, NamedQueue}
use Budgets.{Budget, Held, queue_budget, budget_for}
use Lanes.{Accepted, Progress, fast_lane, slow_lane}
use Groups.{GroupSlots, active_group_keys, group_slots}
use Write.{ClaimedJob, claim_rows, claimed_jobs}

abbrev pub is_empty {ℓ} : {A : Type ℓ} → List A → Bool
is_empty [] = true
is_empty (x ∷ xs) = false

-- What one claim depends on besides the database that it locks rows in.
pub record Poll : Type 0 where
  pub env : Env
  pub held : Held
  -- eddyq_queues as the unlocked read of phase 0 saw it
  pub seen : List NamedQueue
  -- the order in which phase 3 visits the groups
  pub order : List String
  pub worker_id : ℕ
  pub batch_size : ℕ
  pub kinds : List String
  pub queues : List String

-- The queues that still have budget.
unfoldable pub open_queues : Poll → Budget → List String
open_queues p tbl = select (λ q. leb 1 (budget_for q tbl)) p.queues

-- Phases 1 to 3, from the budgets of phase 0.
unfoldable pub choose : Poll → Budget → Db → Progress × GroupSlots
unfolding fast_lane slow_lane open_queues active_group_keys group_slots
choose p tbl db =
    let s =
      fast_lane p.env p.held p.kinds p.batch_size p.queues db.jobs
        (record { accepted = []; budget = tbl }) in
    let open_names = open_queues p s.budget in
    let keys =
      (if p.batch_size - length s.accepted == 0
        then []
        else active_group_keys p.env p.kinds open_names db.jobs) in
    let slots = group_slots p.env p.held keys db.groups in
    slow_lane p.env p.held p.kinds p.batch_size open_names db.jobs p.order (s, slots)

abbrev pub write : Poll → Progress × GroupSlots → Db → List ClaimedJob × Db
write p (s, slots) db = if is_empty s.accepted then ([], db) else (
  claimed_jobs p.worker_id p.seen p.queues s.accepted db,
  claim_rows p.env p.worker_id slots s.accepted db,
)

unfoldable pub claim_batch : Poll → Db → List ClaimedJob × Db
unfolding choose
claim_batch p db =
    let tbl = queue_budget p.held p.seen p.queues db.queues in
    if p.batch_size == 0 || is_empty p.kinds || is_empty p.queues
    then ([], db)
    else if is_empty (open_queues p tbl)
    then ([], db)
    else write p (choose p tbl db) db
