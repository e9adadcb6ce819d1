-- ===== src/Fetch/Claim/Lanes.antt =====
-- Phases 1 and 3 of claim_batch: the jobs of no group, queue by queue, and those of each group.
use eddyq.Prelude.{
  ℕ, ◌-◌, Bool, ◌&&◌, ◌||◌, not, String, Option, none, some, List, [], ◌∷◌, ◌++◌, map, min, ltb,
  leb, ◌==◌, any_text, str_eq, is_text, length, take, gtb, if◌then◌else◌,
}
use eddyq.Sql.{select, sort}
use eddyq.Store.{Job, pending, state_eq, Env}
use eddyq.Group.{is_none}
use eddyq.Fetch.Claim.Budgets.{Budget, Held, budget_for, spend}
use eddyq.Fetch.Claim.Groups.{GroupState, GroupSlots, state_of, take_slots}

-- ORDER BY priority DESC, scheduled_at ASC, id ASC
unfoldable pub claim_before : Job → Job → Bool
claim_before a b =
    gtb a.priority b.priority
    || not (gtb b.priority a.priority)
      && (ltb a.scheduled_at b.scheduled_at || a.scheduled_at == b.scheduled_at && leb a.id b.id)

-- state = 'pending' AND scheduled_at <= NOW() AND kind = ANY(kinds)
unfoldable pub is_ready : Env → List String → Job → Bool
unfolding state_eq
is_ready env kinds j =
    state_eq j.state pending && leb j.scheduled_at env.now && any_text j.kind kinds

unfoldable pub is_fast : Env → Held → List String → String → Job → Bool
unfolding is_ready
is_fast env held kinds queue j =
    is_ready env kinds j && is_none j.group_key && str_eq j.queue queue && not (held.job_row j.id)

unfoldable pub is_slow : Env → Held → List String → List String → String → Job → Bool
unfolding is_ready
is_slow env held kinds queues key j =
    is_ready env kinds j
    && is_text j.group_key key
    && any_text j.queue queues
    && not (held.job_row j.id)

pub record Accepted : Type 0 where
  pub id : ℕ
  pub group_key : Option String
  pub queue : String

pub record Progress : Type 0 where
  pub accepted : List Accepted
  pub budget : Budget

abbrev pub accept_fast : String → Job → Accepted
accept_fast queue j = record { id = j.id; group_key = none; queue = queue }

-- SELECT … ORDER BY … LIMIT n FOR UPDATE SKIP LOCKED
unfoldable pub first_jobs : (Job → Bool) → ℕ → List Job → List Job
unfolding claim_before sort
first_jobs p n jobs = take n (sort claim_before (select p jobs))

-- The LIMIT of one queue, which is 0 once the batch is full or without budget.
abbrev pub fast_room : ℕ → String → Progress → ℕ
fast_room batch_size queue s = min (budget_for queue s.budget) (batch_size - length s.accepted)

-- One queue of phase 1. Once the batch is full, or without budget, nothing is taken.
unfoldable pub fast_step : Env → Held → List String → ℕ → List Job → String → Progress → Progress
unfolding is_fast first_jobs
fast_step env held kinds batch_size jobs queue s =
    let n = fast_room batch_size queue s in
    let rows = first_jobs (is_fast env held kinds queue) n jobs in
    if n == 0 then s else record {
      accepted = s.accepted ++ map (accept_fast queue) rows;
      budget = spend queue (length rows) s.budget;
    }

unfoldable pub fast_lane :
    Env → Held → List String → ℕ → List String → List Job → Progress → Progress
unfolding fast_step
fast_lane env held kinds batch_size [] jobs s = s
fast_lane env held kinds batch_size (q ∷ qs) jobs s =
    fast_lane env held kinds batch_size qs jobs (fast_step env held kinds batch_size jobs q s)

abbrev pub slow_room : ℕ → GroupState → Progress → ℕ
slow_room batch_size st s = min st.slots (batch_size - length s.accepted)

-- Room for one more row.
unfoldable pub fits : ℕ → ℕ → Job → Progress → Bool
fits batch_size slots j s =
    ltb (length s.accepted) batch_size && ltb 0 slots && ltb 0 (budget_for j.queue s.budget)

abbrev pub accept_one : String → Job → Progress → Progress
accept_one key j s = record {
  accepted = s.accepted ++ record { id = j.id; group_key = some key; queue = j.queue } ∷ [];
  budget = spend j.queue 1 s.budget;
}

-- The rows found for a group, accepted while the batch, the group and the row's queue have room.
-- Returns the slots that are left.
unfoldable pub accept_slow : ℕ → String → List Job → ℕ → Progress → ℕ × Progress
accept_slow batch_size key [] slots s = (slots, s)
accept_slow batch_size key (j ∷ js) slots s =
    accept_slow batch_size key js (if fits batch_size slots j s then slots - 1 else slots)
      (if fits batch_size slots j s then accept_one key j s else s)

-- One group of phase 3. A group with no slots, or when the batch is full, is left alone.
unfoldable pub slow_step :
    Env
    → Held
    → List String
    → ℕ
    → List String
    → List Job
    → String
    → GroupState
    → Progress × GroupSlots
    → Progress × GroupSlots
unfolding is_slow first_jobs accept_slow
slow_step env held kinds batch_size queues jobs key st x =
    let n = slow_room batch_size st x.0 in
    let rows = first_jobs (is_slow env held kinds queues key) n jobs in
    let (left, s) = accept_slow batch_size key rows st.slots x.0 in
    if n == 0 then x else (s, take_slots key left x.1)

unfoldable pub slow_visit :
    Env
    → Held
    → List String
    → ℕ
    → List String
    → List Job
    → String
    → Option GroupState
    → Progress × GroupSlots
    → Progress × GroupSlots
unfolding slow_step
slow_visit env held kinds batch_size queues jobs key none x = x
slow_visit env held kinds batch_size queues jobs key (some st) x =
    slow_step env held kinds batch_size queues jobs key st x

unfoldable pub slow_lane :
    Env
    → Held
    → List String
    → ℕ
    → List String
    → List Job
    → List String
    → Progress × GroupSlots
    → Progress × GroupSlots
unfolding slow_visit
slow_lane env held kinds batch_size queues jobs [] x = x
slow_lane env held kinds batch_size queues jobs (key ∷ keys) x =
    slow_lane env held kinds batch_size queues jobs keys
      (slow_visit env held kinds batch_size queues jobs key (state_of key x.1) x)
