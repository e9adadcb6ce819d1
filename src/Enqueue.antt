-- ===== src/Enqueue.antt =====
-- crates/eddyq-core/src/enqueue.rs: the insertion of jobs given as DynEnqueue, one by one and in
-- bulk. A function named `…_in_tx` runs inside its caller's transaction.
pub mod Insert
pub mod Typed
pub mod Agreement
use Prim.Native.String.{compare}
use text.Mathlib.Text.{is_lt}
use eddyq.Prelude.{
  ℕ, ◌+◌, ◌-◌, Bool, true, false, ◌&&◌, ◌||◌, String, Option, none, some, List, [], ◌∷◌, leb, ltb,
  length, str_eq, if◌then◌else◌,
}
use eddyq.Sql.{insert_sorted, sort}
use eddyq.Store.{Db, DynEnqueue, Env, Result, ok, err, database, ◌>>=◌}
use eddyq.NamedQueue.{validate_queue_name}
use eddyq.Group.{materialize_from_rule, is_none}
use Insert.{insert_row, or_now, has_batch}

pub data EnqueueResult : Type 0 where
  inserted : ℕ → EnqueueResult
  skipped : EnqueueResult

abbrev pub to_result : Option ℕ → EnqueueResult
to_result none = skipped
to_result (some id) = inserted id

abbrev pub is_inserted : EnqueueResult → Bool
is_inserted (inserted id) = true
is_inserted skipped = false

-- The group's row, if the job was inserted and has a group.
unfoldable pub materialize_for : Env → EnqueueResult → Option String → Db → Db
materialize_for env (inserted id) (some key) db = materialize_from_rule env key db
materialize_for env _ _ db = db

-- The result, whether the job is due now, and the database.
unfoldable pub insert_dyn : Env → DynEnqueue → Db → Result (EnqueueResult × Bool × Db)
unfolding insert_row materialize_for has_batch
insert_dyn env req db = validate_queue_name req.queue >>= λ _.
    let due_now = leb (or_now env.now req.scheduled_at) env.now in
    let (id, db') = insert_row env.now req db in
    if is_none id || has_batch req.batch_id db
    then ok (to_result id, due_now, materialize_for env (to_result id) req.group_key db')
    else err database

-- SELECT pg_notify('eddyq_job', '')
unfoldable pub notify : Bool → Db → Db
notify due db = if due then record db { notices = db.notices + 1 } else db

abbrev pub finish : EnqueueResult × Bool × Db → EnqueueResult × Db
finish (res, due_now, db) = (res, notify (is_inserted res && due_now) db)

unfoldable pub enqueue_dyn_in_tx : Env → DynEnqueue → Db → Result (EnqueueResult × Db)
unfolding insert_dyn notify
enqueue_dyn_in_tx env req db = insert_dyn env req db >>= λ r. ok (finish r)

-- On a connection of its own each statement commits by itself; the NOTIFY is best effort, and is
-- taken to succeed.
unfoldable pub enqueue_dyn : Env → DynEnqueue → Db → Result (EnqueueResult × Db)
unfolding insert_dyn notify
enqueue_dyn env req db = insert_dyn env req db >>= λ r. ok (finish r)

pub record BulkEnqueueResult : Type 0 where
  pub inserted : ℕ
  pub skipped : ℕ

-- Every item's queue name is checked before any is inserted.
unfoldable pub validate_all : List DynEnqueue → Result (Unit {0})
validate_all [] = ok tt
validate_all (r ∷ rs) = validate_queue_name r.queue >>= λ _. validate_all rs

abbrev count_some : Option ℕ → ℕ
count_some none = 0
count_some (some id) = 1

-- The rows of one INSERT … ON CONFLICT DO NOTHING: a row can conflict with an earlier one. A row
-- that is inserted must name a batch that exists, or none.
unfoldable pub insert_rows : ℕ → List DynEnqueue → Db → Result (ℕ × Db)
unfolding insert_row has_batch
insert_rows now [] db = ok (0, db)
insert_rows now (r ∷ rs) db =
    let (id, db') = insert_row now r db in
    let rest = insert_rows now rs db' in
    if is_none id || has_batch r.batch_id db
    then (rest >>= λ x. ok (count_some id + x.0, x.1))
    else err database

unfoldable pub any_due : ℕ → List DynEnqueue → Bool
any_due now [] = false
any_due now (r ∷ rs) = leb (or_now now r.scheduled_at) now || any_due now rs

unfoldable pub group_keys : List DynEnqueue → List String
group_keys [] = []
group_keys (r ∷ rs) =
    let rest = group_keys rs in elim r.group_key [ none ↦ rest | some k ↦ k ∷ rest ]

-- Vec::dedup on a sorted list.
unfoldable pub dedup : List String → List String
dedup [] = []
dedup (x ∷ []) = x ∷ []
dedup (x ∷ y ∷ ys) = let rest = dedup (y ∷ ys) in if str_eq x y then rest else x ∷ rest

unfoldable pub distinct_groups : List DynEnqueue → List String
unfolding group_keys dedup sort
distinct_groups rs = dedup (sort (λ a b. is_lt (compare a b)) (group_keys rs))

unfoldable pub materialize_all : Env → List String → Db → Db
materialize_all env [] db = db
materialize_all env (k ∷ ks) db = materialize_all env ks (materialize_from_rule env k db)

unfoldable pub insert_many_dyn :
    Env → List DynEnqueue → Db → Result (BulkEnqueueResult × Bool × List String × Db)
unfolding insert_rows any_due distinct_groups
insert_many_dyn env reqs db = validate_all reqs >>= λ _. insert_rows env.now reqs db >>= λ x. ok (
  record { inserted = x.0; skipped = length reqs - x.0 },
  any_due env.now reqs,
  distinct_groups reqs,
  x.1,
)

abbrev finish_many : Env → BulkEnqueueResult × Bool × List String × Db → BulkEnqueueResult × Db
finish_many env (res, due, keys, db) =
    (res, notify (due && ltb 0 res.inserted) (materialize_all env keys db))

unfoldable pub enqueue_many_dyn_in_tx : Env → List DynEnqueue → Db → Result (BulkEnqueueResult × Db)
unfolding insert_many_dyn notify materialize_all
enqueue_many_dyn_in_tx env [] db = ok (record { inserted = 0; skipped = 0 }, db)
enqueue_many_dyn_in_tx env (r ∷ rs) db =
    insert_many_dyn env (r ∷ rs) db >>= λ x. ok (finish_many env x)

-- A transaction of its own.
unfoldable pub enqueue_many_dyn : Env → List DynEnqueue → Db → Result (BulkEnqueueResult × Db)
unfolding enqueue_many_dyn_in_tx
enqueue_many_dyn env reqs db = enqueue_many_dyn_in_tx env reqs db
