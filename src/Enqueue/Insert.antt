-- ===== src/Enqueue/Insert.antt =====
-- The INSERT INTO eddyq_jobs … ON CONFLICT DO NOTHING of crates/eddyq-core/src/enqueue.rs, for one
-- row. The conflict is that of the unique index on (kind, unique_key) over live jobs.
use eddyq.Prelude.{
  ℕ, ◌+◌, Bool, true, false, ◌&&◌, String, Option, none, some, List, [], ◌∷◌, any, str_eq, is_text,
  ◌==◌, if◌then◌else◌,
}
use eddyq.Store.{Db, Job, JobState, pending, running, scheduled, DynEnqueue}

abbrev pub or_now : ℕ → Option ℕ → ℕ
or_now now none = now
or_now now (some t) = t

-- state IN ('pending', 'running', 'scheduled')
unfoldable pub is_live : JobState → Bool
is_live pending = true
is_live running = true
is_live scheduled = true
is_live _ = false

-- The row is in the unique index under this key.
unfoldable pub holds_key : String → String → Job → Bool
unfolding is_live
holds_key kind key j = is_live j.state && str_eq j.kind kind && is_text j.unique_key key

unfoldable pub conflicts : String → Option String → List Job → Bool
unfolding holds_key
conflicts kind none jobs = false
conflicts kind (some key) jobs = any (holds_key kind key) jobs

-- The foreign key on batch_id.
unfoldable pub has_batch : Option ℕ → Db → Bool
has_batch none db = true
has_batch (some b) db = any (λ r. r.id == b) db.batches

abbrev pub new_job : ℕ → ℕ → DynEnqueue → Job
new_job id now req = record {
  id = id;
  queue = req.queue;
  kind = req.kind;
  payload = req.payload;
  state = pending;
  priority = req.priority;
  attempt = 0;
  max_attempts = req.max_attempts;
  stalled_count = 0;
  max_stalled_count = req.max_stalled_count;
  scheduled_at = or_now now req.scheduled_at;
  heartbeat_at = none;
  worker_id = none;
  errors = [];
  result = none;
  unique_key = req.unique_key;
  group_key = req.group_key;
  tags = req.tags;
  metadata = req.metadata;
  batch_id = req.batch_id;
  created_at = now;
  finalized_at = none;
}

-- The id that was inserted, if any. The sequence advances on a conflict too.
unfoldable pub insert_row : ℕ → DynEnqueue → Db → Option ℕ × Db
unfolding conflicts
insert_row now req db =
    if conflicts req.kind req.unique_key db.jobs
    then (none, record db { next_job = db.next_job + 1 })
    else (
      some db.next_job,
      record db { jobs = new_job db.next_job now req ∷ db.jobs; next_job = db.next_job + 1 },
    )
