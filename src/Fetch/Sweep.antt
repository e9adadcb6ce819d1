-- ===== src/Fetch/Sweep.antt =====
-- The recovery of lost jobs and the repair of counters: sweep_stale, reclaim_in_flight and
-- reconcile_counters of crates/eddyq-core/src/fetch.rs.
use eddyq.Prelude.{
  ◌||◌, false, ℕ, ◌+◌, ◌-◌, ◌*◌, Bool, true, ◌&&◌, String, Option, none, some, List, [], ◌∷◌, map,
  ltb, min, any_num, is_num, is_text, str_eq, if◌then◌else◌,
}
use eddyq.Sql.{update, count}
use eddyq.Store.{
  err, database, Db, Job, Group, NamedQueue, Batch, JobState, pending, running, state_eq, Json, Env,
  Result, ok, ◌>>=◌, i64_max,
}
use eddyq.Batch.{over_full, try_claim_and_fire}
use eddyq.NamedQueue.{running_on}
use eddyq.Fetch.Finish.{push_error}

-- stalled_count + 1 > max_stalled_count
unfoldable pub is_spent : Job → Bool
is_spent j = ltb j.max_stalled_count (j.stalled_count + 1)

-- The row of a job whose worker is lost: failed if its recoveries are spent, else pending again
-- without counting the attempt.
unfoldable pub recover : ℕ → Json → Job → Job
unfolding is_spent
recover now entry j = record j {
  stalled_count = j.stalled_count + 1;
  state = if is_spent j then JobState.failed else pending;
  attempt = if is_spent j then j.attempt else j.attempt - 1;
  heartbeat_at = none;
  worker_id = none;
  errors = push_error j.errors entry;
  finalized_at = if is_spent j then some now else none;
}

unfoldable pub on_group : String → Job → Bool
on_group key j = is_text j.group_key key

unfoldable pub on_queue : String → Job → Bool
on_queue name j = str_eq j.queue name

unfoldable pub fails_in : ℕ → Job → Bool
unfolding is_spent
fails_in id j = is_num j.batch_id id && is_spent j

-- One statement: the rows that `lost` selects are recovered, and the counters of their groups and
-- queues and the failure counts of their batches are corrected by the number of such rows. All of
-- its parts read the database as it was before.
unfoldable pub recover_where : (Job → Bool) → ℕ → Json → Db → Db
unfolding on_group on_queue fails_in recover
recover_where lost now entry db = record db {
  jobs = update lost (recover now entry) db.jobs;
  groups =
      map
        (λ (g : Group). record g {
          running_count = g.running_count - count (λ j. lost j && on_group g.key j) db.jobs;
        })
        db.groups;
  queues =
      map
        (λ (q : NamedQueue). record q {
          running_count = q.running_count - count (λ j. lost j && on_queue q.name j) db.jobs;
        })
        db.queues;
  batches =
      map
        (λ (b : Batch). record b {
          failed = b.failed + count (λ j. lost j && fails_in b.id j) db.jobs;
        })
        db.batches;
}

-- The batches whose failure count was raised: ARRAY_AGG(id ORDER BY id), oldest first.
unfoldable pub bumped : (Job → Bool) → Db → List Batch → List ℕ
unfolding fails_in
bumped lost db [] = []
bumped lost db (b ∷ bs) =
    let rest = bumped lost db bs in
    if ltb 0 (count (λ j. lost j && fails_in b.id j) db.jobs) then b.id ∷ rest else rest

unfoldable pub fire_all : Env → List ℕ → Db → Result Db
fire_all env [] db = ok db
fire_all env (b ∷ bs) db = fire_all env bs db >>= try_claim_and_fire env b

-- A raised count that breaks the CHECK on the batch's counts fails the statement.
abbrev pub breaks_check : List ℕ → List Batch → Bool
breaks_check ids [] = false
breaks_check ids (b ∷ bs) = any_num b.id ids && over_full b || breaks_check ids bs

abbrev pub recover_and_fire : Env → (Job → Bool) → Json → Db → Result (ℕ × Db)
recover_and_fire env lost entry db =
    let ids = bumped lost db db.batches in
    let db' = recover_where lost env.now entry db in
    if breaks_check ids db'.batches
    then err database
    else (fire_all env ids db' >>= λ d. ok (count lost db.jobs, d))

-- heartbeat_at IS NULL OR heartbeat_at < NOW() - secs
abbrev pub is_silent : ℕ → ℕ → Option ℕ → Bool
is_silent now secs none = true
is_silent now secs (some t) = ltb (t + secs * 1000) now

unfoldable pub is_stale : ℕ → ℕ → Job → Bool
unfolding state_eq
is_stale now secs j = state_eq j.state running && is_silent now secs j.heartbeat_at

abbrev pub lost_contact : Env → Json
lost_contact env = env.object (
    ("at", env.timestamp env.now)
    ∷ ("message", env.text "worker lost contact — job recovered")
    ∷ [])

-- `secs` is `stale_after` in whole seconds.
unfoldable pub sweep_stale : Env → ℕ → Db → Result (ℕ × Db)
unfolding recover_where bumped fire_all is_stale
sweep_stale env secs db =
    recover_and_fire env (is_stale env.now (min secs i64_max)) (lost_contact env) db

unfoldable pub is_in_flight : List ℕ → Job → Bool
unfolding state_eq
is_in_flight ids j = state_eq j.state running && any_num j.id ids

abbrev pub shutting_down : Env → Json
shutting_down env = env.object (
    ("at", env.timestamp env.now)
    ∷ ("message", env.text "worker shutting down — job recovered")
    ∷ [])

unfoldable pub reclaim_in_flight : Env → List ℕ → Db → Result (ℕ × Db)
unfolding recover_where bumped fire_all is_in_flight
reclaim_in_flight env [] db = ok (0, db)
reclaim_in_flight env (i ∷ is) db =
    recover_and_fire env (is_in_flight (i ∷ is)) (shutting_down env) db

-- The jobs that a group's counter counts.
unfoldable pub running_in : String → Job → Bool
unfolding on_group state_eq
running_in key j = on_group key j && state_eq j.state running

abbrev pub group_drifted : List Job → Group → Bool
group_drifted jobs g = ltb 0 g.running_count && ltb (count (running_in g.key) jobs) g.running_count

abbrev pub queue_drifted : List Job → NamedQueue → Bool
queue_drifted jobs q = ltb 0 q.running_count && ltb (count (running_on q.name) jobs) q.running_count

-- The numbers of counters that were lowered, and the database.
unfoldable pub reconcile_counters : Db → (ℕ × ℕ) × Db
unfolding running_in
reconcile_counters db = (
  (count (group_drifted db.jobs) db.groups, count (queue_drifted db.jobs) db.queues),
  record db {
    groups =
        update (group_drifted db.jobs)
          (λ g. record g { running_count = min g.running_count (count (running_in g.key) db.jobs) })
          db.groups;
    queues =
        update (queue_drifted db.jobs)
          (λ q. record q {
            running_count = min q.running_count (count (running_on q.name) db.jobs);
          })
          db.queues;
  },
)
