-- ===== src/Examples/Data.antt =====
-- A small database: one job of a group that runs, one that waits, and a batch of one job.
use eddyq.Prelude.{◌+◌, if◌then◌else◌, str_eq, arith, true, false, none, some, [], ◌∷◌, pos}
use eddyq.Sql.{count}
use eddyq.Sql.Keyed.{counter}
use eddyq.Store.{
  Db, Job, Group, NamedQueue, Batch, DynEnqueue, Env, Result, ok, err, pending, running, state_eq,
  empty_db,
}
use eddyq.NamedQueue.{running_on}
use eddyq.Fetch.Sweep.{running_in, on_group}
use eddyq.Fetch.Claim.{Poll}
use eddyq.Invariant.{IsCounted}

abbrev pub mail : DynEnqueue
mail = record {
  kind = "mail";
  payload = "{}";
  max_attempts = 3;
  max_stalled_count = 1;
  priority = pos 0;
  queue = "default";
  scheduled_at = none;
  unique_key = some "m";
  group_key = some "g";
  tags = [];
  metadata = "{}";
  batch_id = none;
  remove_on_complete = none;
  remove_on_fail = none;
}

abbrev pub misnamed : DynEnqueue
misnamed = record mail { queue = "" }

abbrev pub env_of : DynEnqueue → Env
env_of callback = record {
  now = 1000000;
  like = λ a b. true;
  number = λ n. "0";
  text = λ s. s;
  timestamp = λ t. "now";
  object = λ members. "{}";
  insert = λ k v o. none;
  to_value = λ r. "spec";
  from_value = λ v. some callback;
  cron = λ expr. if str_eq expr "daily" then some (λ t. some (t + 86400000)) else none;
}

abbrev pub env0 : Env
env0 = env_of mail

abbrev pub waiting : Job
waiting = record {
  id = 1;
  queue = "default";
  kind = "mail";
  payload = "{}";
  state = pending;
  priority = pos 0;
  attempt = 0;
  max_attempts = 3;
  stalled_count = 0;
  max_stalled_count = 1;
  scheduled_at = 5;
  heartbeat_at = none;
  worker_id = none;
  errors = [];
  result = none;
  unique_key = none;
  group_key = some "g";
  tags = [];
  metadata = "{}";
  batch_id = none;
  created_at = 5;
  finalized_at = none;
}

abbrev pub at_work : Job
at_work = record waiting { id = 2; state = running; attempt = 1; worker_id = some 7 }

abbrev pub group_g : Group
group_g = record {
  key = "g";
  running_count = 1;
  max_concurrency = 2;
  paused = false;
  rate_count = none;
  rate_period_ms = none;
  tokens = 0;
  tokens_refilled_at = none;
}

abbrev pub default_queue : NamedQueue
default_queue = record {
  name = "default";
  running_count = 1;
  max_concurrency = 2;
  paused = false;
  default_timeout_ms = none;
}

abbrev pub open_batch : Batch
open_batch = record {
  id = 1;
  is_complete = false;
  total = 1;
  completed = 0;
  failed = 0;
  cancelled = 0;
  on_complete = some "spec";
  callback_enqueued_at = none;
  metadata = "{}";
  created_at = 5;
  finalized_at = none;
}

abbrev pub db0 : Db
db0 = record {
  jobs = at_work ∷ waiting ∷ [];
  next_job = 3;
  groups = group_g ∷ [];
  rules = [];
  queues = default_queue ∷ [];
  batches = open_batch ∷ [];
  next_batch = 2;
  schedules = [];
  leases = [];
  notices = 0;
}

-- The job that runs is the batch's.
abbrev pub db_batch : Db
db_batch = record db0 { jobs = record at_work { batch_id = some 1 } ∷ waiting ∷ [] }

-- The batch's jobs have ended, but its callback is not claimed.
abbrev pub db_done : Db
db_done = record db0 { batches = record open_batch { completed = 1 } ∷ [] }

-- A counter that is too high.
abbrev pub db_drifted : Db
db_drifted = record db0 { groups = record group_g { running_count = 5 } ∷ [] }

abbrev pub poll0 : Poll
poll0 = record {
  env = env0;
  held = record { queue_row = λ q. false; group_row = λ k. false; job_row = λ i. false };
  seen = default_queue ∷ [];
  order = "g" ∷ [];
  worker_id = 9;
  batch_size = 10;
  kinds = "mail" ∷ [];
  queues = "default" ∷ [];
}

-- What a transaction left.
abbrev pub left : Result Db → Db
left (ok d) = d
left (err e) = empty_db

abbrev pub left_by {ℓ} : {A : Type ℓ} → Result (A × Db) → Db
left_by (ok r) = r.1
left_by (err e) = empty_db

pub db0-IsCounted : IsCounted db0
unfolding count counter running_in running_on on_group state_eq
db0-IsCounted = record {
  groups = λ k. ground arith;
  queues = λ k. ground arith;
  serial = (omega arith, (omega arith, tt));
}
