-- ===== src/Enqueue/Typed.antt =====
-- crates/eddyq-core/src/enqueue.rs: the insertion of jobs of a Rust type that implements the trait
-- `Job` of job.rs. The trait is a record of functions on the type.
use eddyq.Prelude.{
  ℕ, ◌-◌, Bool, true, ◌&&◌, String, Option, none, some, List, [], ◌∷◌, leb, ltb, length, ℤ, pos,
}
use eddyq.Store.{Db, Json, RetentionRule, DynEnqueue, Env, Result, ok, err, serde, ◌>>=◌}
use eddyq.NamedQueue.{validate_queue_name}
use eddyq.Enqueue.{
  EnqueueResult, is_inserted, to_result, materialize_for, notify, BulkEnqueueResult, insert_rows,
  enqueue_dyn, distinct_groups, materialize_all,
}
use eddyq.Enqueue.Insert.{insert_row, or_now}

-- `to_value` is serde_json's, which can fail.
pub record JobTrait (J : Type 0) : Type 0 where
  pub kind : String
  pub to_value : J → Option Json
  pub max_attempts : J → ℕ
  pub max_stalled_count : J → ℕ
  pub priority : J → ℤ
  pub unique_key : J → Option String
  pub queue : J → String
  pub group_key : J → Option String
  pub tags : J → List String
  pub metadata : J → Option Json

-- The methods that the trait gives a body.
abbrev pub default_trait : {J : Type 0} → String → (J → Option Json) → JobTrait J
default_trait kind to_value = record {
  kind = kind;
  to_value = to_value;
  max_attempts = λ j. 3;
  max_stalled_count = λ j. 1;
  priority = λ j. pos 0;
  unique_key = λ j. none;
  queue = λ j. "default";
  group_key = λ j. none;
  tags = λ j. [];
  metadata = λ j. none;
}

pub record EnqueueOptions : Type 0 where
  pub scheduled_at : Option ℕ
  pub max_attempts : Option ℕ
  pub max_stalled_count : Option ℕ
  pub priority : Option ℤ
  pub unique_key : Option String
  pub group_key : Option String
  pub tags : Option (List String)
  pub metadata : Option Json
  pub queue : Option String
  pub remove_on_complete : Option RetentionRule
  pub remove_on_fail : Option RetentionRule

-- EnqueueOptions::default()
abbrev pub no_options : EnqueueOptions
no_options = record {
  scheduled_at = none;
  max_attempts = none;
  max_stalled_count = none;
  priority = none;
  unique_key = none;
  group_key = none;
  tags = none;
  metadata = none;
  queue = none;
  remove_on_complete = none;
  remove_on_fail = none;
}

-- DynEnqueue::new
unfoldable pub new_request : String → Json → DynEnqueue
new_request kind payload = record {
  kind = kind;
  payload = payload;
  max_attempts = 3;
  max_stalled_count = 1;
  priority = pos 0;
  queue = "default";
  scheduled_at = none;
  unique_key = none;
  group_key = none;
  tags = [];
  metadata = "{}";
  batch_id = none;
  remove_on_complete = none;
  remove_on_fail = none;
}

abbrev pub unwrap_or {ℓ} : {A : Type ℓ} → Option A → A → A
unwrap_or none a = a
unwrap_or (some b) a = b

abbrev pub or_else {ℓ} : {A : Type ℓ} → Option A → Option A → Option A
or_else none b = b
or_else (some a) b = some a

abbrev pub or_serde {ℓ} : {A : Type ℓ} → Option A → Result A
or_serde none = err serde
or_serde (some a) = ok a

abbrev pub notified : EnqueueResult × Bool × Db → EnqueueResult × Db
notified (result, due_now, db) = (result, notify (is_inserted result && due_now) db)

abbrev pub completed_many :
    Env → BulkEnqueueResult × Bool × List String × Db → BulkEnqueueResult × Db
completed_many env (res, due, keys, db) =
    (res, notify (due && ltb 0 res.inserted) (materialize_all env keys db))

module _ {J : Type 0} (T : JobTrait J) where
  -- What the INSERT binds, with the table's defaults elsewhere: an option that is not given is
  -- asked of the job.
  unfoldable pub columns : J → EnqueueOptions → Json → DynEnqueue
  columns job opts payload = record {
    kind = T.kind;
    payload = payload;
    max_attempts = unwrap_or opts.max_attempts (T.max_attempts job);
    max_stalled_count = unwrap_or opts.max_stalled_count (T.max_stalled_count job);
    priority = unwrap_or opts.priority (T.priority job);
    queue = unwrap_or opts.queue (T.queue job);
    scheduled_at = opts.scheduled_at;
    unique_key = or_else opts.unique_key (T.unique_key job);
    group_key = or_else opts.group_key (T.group_key job);
    tags = unwrap_or opts.tags (T.tags job);
    metadata = unwrap_or (or_else opts.metadata (T.metadata job)) "{}";
    batch_id = none;
    remove_on_complete = none;
    remove_on_fail = none;
  }

  -- The result, whether the job is due now, and the database.
  unfoldable pub insert_job : Env → J → EnqueueOptions → Db → Result (EnqueueResult × Bool × Db)
  unfolding columns insert_row materialize_for
  insert_job env job opts db = or_serde (T.to_value job) >>= λ payload.
      let req = columns job opts payload in
      validate_queue_name req.queue >>= λ _.
      let due_now = leb (or_now env.now req.scheduled_at) env.now in
      let (id, db') = insert_row env.now req db in
      ok (to_result id, due_now, materialize_for env (to_result id) req.group_key db')

  unfoldable pub enqueue : Env → J → EnqueueOptions → Db → Result (EnqueueResult × Db)
  unfolding insert_job notify
  enqueue env job opts db = insert_job env job opts db >>= λ r. ok (notified r)

  unfoldable pub enqueue_in_tx : Env → J → EnqueueOptions → Db → Result (EnqueueResult × Db)
  unfolding insert_job notify
  enqueue_in_tx env job opts db = insert_job env job opts db >>= λ r. ok (notified r)

  -- One element of each array that the bulk INSERT binds: no options, and due now.
  unfoldable pub bulk_columns : ℕ → J → Json → DynEnqueue
  bulk_columns now job payload = record {
    kind = T.kind;
    payload = payload;
    max_attempts = T.max_attempts job;
    max_stalled_count = T.max_stalled_count job;
    priority = T.priority job;
    queue = T.queue job;
    scheduled_at = some now;
    unique_key = T.unique_key job;
    group_key = T.group_key job;
    tags = T.tags job;
    metadata = unwrap_or (T.metadata job) "{}";
    batch_id = none;
    remove_on_complete = none;
    remove_on_fail = none;
  }

  -- The loop over the jobs stops at the first that does not serialise or has a wrong queue name.
  unfoldable pub collect : ℕ → List J → Result (List DynEnqueue)
  unfolding bulk_columns
  collect now [] = ok []
  collect now (job ∷ jobs) = or_serde (T.to_value job) >>= λ payload.
      validate_queue_name (T.queue job) >>= λ _.
      collect now jobs >>= λ rest. ok (bulk_columns now job payload ∷ rest)

  unfoldable pub insert_many :
      Env → List J → Db → Result (BulkEnqueueResult × Bool × List String × Db)
  unfolding collect insert_rows distinct_groups
  insert_many env jobs db = collect env.now jobs >>= λ reqs. insert_rows env.now reqs db >>= λ x.
      ok (record { inserted = x.0; skipped = length jobs - x.0 }, true, distinct_groups reqs, x.1)

  unfoldable pub enqueue_many_in_tx : Env → List J → Db → Result (BulkEnqueueResult × Db)
  unfolding insert_many notify materialize_all
  enqueue_many_in_tx env [] db = ok (record { inserted = 0; skipped = 0 }, db)
  enqueue_many_in_tx env (j ∷ js) db =
      insert_many env (j ∷ js) db >>= λ x. ok (completed_many env x)

  -- A transaction of its own.
  unfoldable pub enqueue_many : Env → List J → Db → Result (BulkEnqueueResult × Db)
  unfolding enqueue_many_in_tx
  enqueue_many env jobs db = enqueue_many_in_tx env jobs db

  -- The request that `Queue` of crates/eddyq-core/src/queue.rs sends to its backend.
  unfoldable pub build_dyn_enqueue : J → EnqueueOptions → Result DynEnqueue
  unfolding new_request
  build_dyn_enqueue job opts = or_serde (T.to_value job) >>= λ payload.
      ok (record (new_request T.kind payload) {
        max_attempts = unwrap_or opts.max_attempts (T.max_attempts job);
        max_stalled_count = unwrap_or opts.max_stalled_count (T.max_stalled_count job);
        priority = unwrap_or opts.priority (T.priority job);
        scheduled_at = opts.scheduled_at;
        unique_key = or_else opts.unique_key (T.unique_key job);
        group_key = or_else opts.group_key (T.group_key job);
        tags = unwrap_or opts.tags (T.tags job);
        metadata = unwrap_or (or_else opts.metadata (T.metadata job)) "{}";
        queue = unwrap_or opts.queue (T.queue job);
        remove_on_complete = opts.remove_on_complete;
        remove_on_fail = opts.remove_on_fail;
      })

  unfoldable pub enqueue_with : Env → J → EnqueueOptions → Db → Result (EnqueueResult × Db)
  unfolding build_dyn_enqueue enqueue_dyn
  enqueue_with env job opts db = build_dyn_enqueue job opts >>= λ req. enqueue_dyn env req db
