-- ===== src/Fetch/Finish.antt =====
-- The end of a run and the cancelling of a job: mark_completed, mark_failed, cancel and
-- update_heartbeat_batch of crates/eddyq-core/src/fetch.rs.
use eddyq.Prelude.{
  ℕ, ◌-◌, Bool, true, false, ◌&&◌, String, Option, none, some, List, [], ◌∷◌, ◌++◌, length, drop,
  any_num, ◌==◌, is_num,
}
use eddyq.Sql.{update, find, count}
use eddyq.Store.{Db, Job, Group, JobState, pending, running, state_eq, Json, Env, Result, ok, ◌>>=◌}
use eddyq.Batch.{TerminalOutcome, settle_terminal}
use eddyq.Group.{is_keyed}
use eddyq.NamedQueue.{is_named}

abbrev pub max_error_entries : ℕ
max_error_entries = 10

-- jsonb_path_query_array(errors || entry, '$[last - 9 to last]')
unfoldable pub push_error : List Json → Json → List Json
push_error errors entry =
    let all = errors ++ entry ∷ [] in drop (length all - max_error_entries) all

-- SET running_count = GREATEST(running_count - delta, 0): subtraction on ℕ stops at 0.
abbrev free_group : ℕ → Option String → List Group → List Group
free_group delta none groups = groups
free_group delta (some key) groups =
    update (is_keyed key) (λ g. record g { running_count = g.running_count - delta }) groups

unfoldable pub release_group : ℕ → Option String → Db → Db
release_group delta key db = record db { groups = free_group delta key db.groups }

unfoldable pub release_queue : ℕ → String → Db → Db
release_queue delta name db = record db {
  queues =
      update (is_named name) (λ q. record q { running_count = q.running_count - delta }) db.queues;
}

-- WHERE id = $1 AND state = 'running' AND worker_id = $2
unfoldable pub is_held : ℕ → ℕ → Job → Bool
unfolding state_eq
is_held id worker j = j.id == id && state_eq j.state running && is_num j.worker_id worker

abbrev pub complete : ℕ → Option Json → Job → Job
complete now result j = record j {
  state = JobState.completed;
  heartbeat_at = none;
  worker_id = none;
  finalized_at = some now;
  result = result;
}

abbrev pub settle : Env → Option ℕ → TerminalOutcome → Db → Result Db
settle env none outcome db = ok db
settle env (some b) outcome db = settle_terminal env b outcome db

-- The slots of a job that ran, given back.
unfoldable pub release : Job → Db → Db
unfolding release_group release_queue
release j db = release_queue 1 j.queue (release_group 1 j.group_key db)

-- What follows the UPDATE of a row that ran to its end.
abbrev pub settle_released : Env → TerminalOutcome → Option Job → Db → Result Db
settle_released env outcome none db = ok db
settle_released env outcome (some j) db = settle env j.batch_id outcome (release j db)

unfoldable pub mark_completed : Env → ℕ → ℕ → Option Json → Db → Result Db
unfolding is_held release
mark_completed env id worker result db =
    settle_released env TerminalOutcome.completed (find (is_held id worker) db.jobs)
      (record db { jobs = update (is_held id worker) (complete env.now result) db.jobs })

abbrev pub retry : ℕ → Json → Job → Job
retry at entry j = record j {
  state = pending;
  heartbeat_at = none;
  worker_id = none;
  scheduled_at = at;
  errors = push_error j.errors entry;
}

abbrev pub fail : ℕ → Json → Job → Job
fail now entry j = record j {
  state = JobState.failed;
  heartbeat_at = none;
  worker_id = none;
  errors = push_error j.errors entry;
  finalized_at = some now;
}

abbrev pub release_found : Option Job → Db → Db
release_found none db = db
release_found (some j) db = release j db

-- With `retry_at` the job is pending again and its batch is not settled.
unfoldable pub mark_failed : Env → ℕ → ℕ → Json → Option ℕ → Db → Result Db
unfolding is_held release
mark_failed env id worker entry (some at) db = ok (
    release_found (find (is_held id worker) db.jobs)
      (record db { jobs = update (is_held id worker) (retry at entry) db.jobs }))
mark_failed env id worker entry none db =
    settle_released env TerminalOutcome.failed (find (is_held id worker) db.jobs)
      (record db { jobs = update (is_held id worker) (fail env.now entry) db.jobs })

unfoldable pub is_cancellable : ℕ → Job → Bool
unfolding state_eq
is_cancellable id j = j.id == id && state_eq j.state pending

abbrev pub cancel_row : ℕ → Job → Job
cancel_row now j = record j { state = JobState.cancelled; finalized_at = some now }

abbrev pub settle_cancelled : Env → Option Job → Db → Result (Bool × Db)
settle_cancelled env none db = ok (false, db)
settle_cancelled env (some j) db =
    settle env j.batch_id TerminalOutcome.cancelled db >>= λ d. ok (true, d)

-- Whether the job was cancelled, and the database.
unfoldable pub cancel : Env → ℕ → Db → Result (Bool × Db)
unfolding is_cancellable
cancel env id db =
    settle_cancelled env (find (is_cancellable id) db.jobs)
      (record db { jobs = update (is_cancellable id) (cancel_row env.now) db.jobs })

unfoldable pub is_beating : List ℕ → Job → Bool
unfolding state_eq
is_beating ids j = any_num j.id ids && state_eq j.state running

-- The number of rows that were touched, and the database.
unfoldable pub update_heartbeat_batch : Env → List ℕ → Db → ℕ × Db
unfolding is_beating
update_heartbeat_batch env [] db = (0, db)
update_heartbeat_batch env (i ∷ is) db = (
  count (is_beating (i ∷ is)) db.jobs,
  record db {
    jobs = update (is_beating (i ∷ is)) (λ j. record j { heartbeat_at = some env.now }) db.jobs;
  },
)
