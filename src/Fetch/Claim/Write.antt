-- ===== src/Fetch/Claim/Write.antt =====
-- Step 4 of claim_batch: the accepted rows run, and the counters of their groups and queues are
-- raised by the number of rows that the UPDATE returned.
use eddyq.Prelude.{
  ℕ, ◌+◌, ◌-◌, ◌*◌, Bool, String, Option, none, some, List, [], ◌∷◌, map, ltb, any_num, str_eq,
  any_text, ◌&&◌, if◌then◌else◌,
}
use eddyq.Sql.{select, update, count, find}
use eddyq.Store.{Db, Job, Json, Group, NamedQueue, running, Env}
use eddyq.Group.{upsert_row}
use eddyq.NamedQueue.{is_named}
use eddyq.Fetch.Sweep.{on_group, on_queue}
use eddyq.Fetch.Claim.Groups.{GroupState, GroupSlots, state_of, distinct, keys_of}
use eddyq.Fetch.Claim.Lanes.{Accepted}

abbrev pub is_accepted : List Accepted → Job → Bool
is_accepted accepted j = any_num j.id (map (λ (a : Accepted). a.id) accepted)

abbrev pub start : Env → ℕ → Job → Job
start env worker j = record j {
  state = running;
  attempt = j.attempt + 1;
  heartbeat_at = some env.now;
  worker_id = some worker;
}

-- Raises a group's counter by `delta`; a rate-limited group pays a token for each job.
abbrev pub charge : ℕ → ℕ → Option GroupState → Group → Group
charge now delta none g = record g { running_count = g.running_count + delta }
charge now delta (some st) g =
    if st.rate_limited
    then record g {
      running_count = g.running_count + delta;
      tokens = st.refilled_tokens - delta * st.period_ms;
      tokens_refilled_at = some now;
    }
    else record g { running_count = g.running_count + delta }

unfoldable pub bump_groups : ℕ → GroupSlots → List Job → List String → List Group → List Group
unfolding on_group upsert_row
bump_groups now slots claimed [] groups = groups
bump_groups now slots claimed (k ∷ ks) groups =
    bump_groups now slots claimed ks
      (upsert_row k (charge now (count (on_group k) claimed) (state_of k slots)) groups)

unfoldable pub queues_of : List Job → List String
queues_of [] = []
queues_of (j ∷ js) = j.queue ∷ queues_of js

-- Only rows that exist are raised.
unfoldable pub bump_queues : List Job → List String → List NamedQueue → List NamedQueue
unfolding on_queue
bump_queues claimed [] queues = queues
bump_queues claimed (q ∷ qs) queues = bump_queues claimed qs (
    update (is_named q)
      (λ r. record r { running_count = r.running_count + count (on_queue q) claimed }) queues)

unfoldable pub claim_rows : Env → ℕ → GroupSlots → List Accepted → Db → Db
unfolding bump_groups bump_queues distinct keys_of queues_of
claim_rows env worker slots accepted db =
    let claimed = select (is_accepted accepted) db.jobs in
    record db {
      jobs = update (is_accepted accepted) (start env worker) db.jobs;
      groups = bump_groups env.now slots claimed (distinct (keys_of claimed)) db.groups;
      queues = bump_queues claimed (distinct (queues_of claimed)) db.queues;
    }

pub record ClaimedJob : Type 0 where
  pub id : ℕ
  pub kind : String
  pub payload : Json
  pub attempt : ℕ
  pub max_attempts : ℕ
  pub stalled_count : ℕ
  pub max_stalled_count : ℕ
  pub group_key : Option String
  pub queue : String
  pub worker_id : ℕ
  pub timeout : Option ℕ

abbrev timeout_column : Option NamedQueue → Option ℕ
timeout_column none = none
timeout_column (some q) = elim q.default_timeout_ms [
  | none ↦ none
  | some ms ↦ if ltb 0 ms then some ms else none
]

-- The timeout of the queue, as phase 0 read it.
abbrev timeout_for : List NamedQueue → List String → String → Option ℕ
timeout_for seen queues name =
    timeout_column (find (λ (q : NamedQueue). str_eq q.name name && any_text q.name queues) seen)

unfoldable pub claimed_jobs :
    ℕ → List NamedQueue → List String → List Accepted → Db → List ClaimedJob
claimed_jobs worker seen queues accepted db =
    map
      (λ (j : Job). record {
        id = j.id;
        kind = j.kind;
        payload = j.payload;
        attempt = j.attempt + 1;
        max_attempts = j.max_attempts;
        stalled_count = j.stalled_count;
        max_stalled_count = j.max_stalled_count;
        group_key = j.group_key;
        queue = j.queue;
        worker_id = worker;
        timeout = timeout_for seen queues j.queue;
      })
      (select (is_accepted accepted) db.jobs)
