-- ===== src/Invariant/Insertion.antt =====
-- Insertions keep the counters: a new job does not run, and a new group row counts nothing.
use eddyq.Prelude.{
  ◌||◌, ℕ, ◌+◌, ◌≡◌, refl, Bool, true, false, String, Option, none, some, List, [], ◌∷◌, arith,
  str_eq, any, eq_iff, if◌then◌else◌, Bool-cases, inl, inr,
}
use native.Mathlib.Nat.{zero-add}
use eddyq.Sql.{count}
use eddyq.Sql.Keyed.{counter, counter-none, or_zero}
use eddyq.Store.{Db, Group, StoredRule, DynEnqueue, Env}
use eddyq.Store.Serial.{Below-mono}
use eddyq.NamedQueue.{running_on, validate_queue_name}
use eddyq.Group.{is_none, is_keyed, add_from_rule, best_rule, materialize_from_rule}
use eddyq.Fetch.Sweep.{running_in}
use eddyq.Enqueue.{
  EnqueueResult, inserted, materialize_for, insert_dyn, notify, enqueue_dyn_in_tx, insert_rows,
  materialize_all, insert_many_dyn, enqueue_many_dyn_in_tx, validate_all,
}
use eddyq.Enqueue.Insert.{conflicts, insert_row, has_batch}
use eddyq.Invariant.{IsCounted, group_counter, job_id, OnOk, OnOk-bind, OnOk-then}

add_group :
    (k j : String) (v n : ℕ) (rest : Option ℕ)
    → v ≡ 0
    → (str_eq j k ≡ true → rest ≡ none)
    → or_zero rest ≡ n
    → or_zero (if str_eq j k then some v else rest) ≡ n
add_group k j v n rest z none_there h = ground arith

add_from_rule-IsCounted :
    (now : ℕ) (key : String) (r : Option StoredRule) (db : Db)
    → any (is_keyed key) db.groups ≡ false
    → IsCounted db
    → IsCounted (add_from_rule now key r db)
add_from_rule-IsCounted now key none db fresh v = v
add_from_rule-IsCounted now key (some r) db fresh v = record {
  groups = λ k.
      unfold counter in
      add_group k key 0 (count (running_in k) db.jobs) (group_counter k db) refl
        (λ e.
          rw (← (eq_iff key k).0 e)
            (counter-none (λ (g : Group). g.key) (λ g. g.running_count) key db.groups fresh))
        (v.groups k);
  queues = v.queues;
  serial = v.serial;
}

pub materialize_from_rule-IsCounted :
    (env : Env) (key : String) (db : Db)
    → IsCounted db
    → IsCounted (materialize_from_rule env key db)
unfolding materialize_from_rule
materialize_from_rule-IsCounted env key db v = elim (Bool-cases (any (is_keyed key) db.groups)) [
  | inl e ↦ rw e v
  | inr e ↦ rw e (add_from_rule-IsCounted env.now key (best_rule env key db.rules) db e v)
]

pub insert_row-IsCounted :
    (now : ℕ) (req : DynEnqueue) (db : Db) → IsCounted db → IsCounted (insert_row now req db).1
unfolding insert_row count running_in running_on
insert_row-IsCounted now req db v = elim (Bool-cases (conflicts req.kind req.unique_key db.jobs)) [
  | inl e ↦ rw e (record {
    groups = v.groups;
    queues = v.queues;
    serial = Below-mono job_id db.next_job (db.next_job + 1) db.jobs (omega arith) v.serial;
  })
  | inr e ↦ rw e (record {
    groups = λ k. ground (arith, v.groups k);
    queues = λ k. rw zero-add (v.queues k);
    serial = (omega arith, v.serial);
  })
]

pub materialize_for-IsCounted :
    (env : Env) (res : EnqueueResult) (key : Option String) (db : Db)
    → IsCounted db
    → IsCounted (materialize_for env res key db)
unfolding materialize_for
materialize_for-IsCounted env (inserted id) (some key) db v =
    materialize_from_rule-IsCounted env key db v
materialize_for-IsCounted env _ _ db v = v

pub notify-IsCounted : (due : Bool) (db : Db) → IsCounted db → IsCounted (notify due db)
unfolding notify
notify-IsCounted true db v = record { groups = v.groups; queues = v.queues; serial = v.serial }
notify-IsCounted false db v = v

pub insert_dyn-IsCounted :
    (env : Env) (req : DynEnqueue) (db : Db)
    → IsCounted db
    → OnOk (λ r. IsCounted r.2) (insert_dyn env req db)
unfolding insert_dyn
insert_dyn-IsCounted env req db v =
    OnOk-then (λ (r : EnqueueResult × Bool × Db). IsCounted r.2) (validate_queue_name req.queue) _
      (λ _. elim (Bool-cases (is_none (insert_row env.now req db).0 || has_batch req.batch_id db)) [
        | inl e ↦ rw e (
            materialize_for-IsCounted env _ req.group_key _ (insert_row-IsCounted env.now req db v))
        | inr e ↦ rw e tt
      ])

pub enqueue_dyn_in_tx-IsCounted :
    (env : Env) (req : DynEnqueue) (db : Db)
    → IsCounted db
    → OnOk (λ r. IsCounted r.1) (enqueue_dyn_in_tx env req db)
unfolding enqueue_dyn_in_tx
enqueue_dyn_in_tx-IsCounted env req db v =
    OnOk-bind (λ r. IsCounted r.2) (λ r. IsCounted r.1) (insert_dyn env req db) _
      (insert_dyn-IsCounted env req db v) (λ r h. notify-IsCounted _ r.2 h)

pub insert_rows-IsCounted :
    (now : ℕ) (reqs : List DynEnqueue) (db : Db)
    → IsCounted db
    → OnOk (λ x. IsCounted x.1) (insert_rows now reqs db)
unfolding insert_rows
insert_rows-IsCounted now [] db v = v
insert_rows-IsCounted now (r ∷ rs) db v =
    elim (Bool-cases (is_none (insert_row now r db).0 || has_batch r.batch_id db)) [
      | inl e ↦ rw e (
          OnOk-bind (λ x. IsCounted x.1) (λ x. IsCounted x.1)
            (insert_rows now rs (insert_row now r db).1) _
            (insert_rows-IsCounted now rs (insert_row now r db).1 (insert_row-IsCounted now r db v))
            (λ x h. h))
      | inr e ↦ rw e tt
    ]

pub materialize_all-IsCounted :
    (env : Env) (keys : List String) (db : Db)
    → IsCounted db
    → IsCounted (materialize_all env keys db)
unfolding materialize_all
materialize_all-IsCounted env [] db v = v
materialize_all-IsCounted env (k ∷ ks) db v =
    materialize_all-IsCounted env ks (materialize_from_rule env k db)
      (materialize_from_rule-IsCounted env k db v)

pub enqueue_many_dyn_in_tx-IsCounted :
    (env : Env) (reqs : List DynEnqueue) (db : Db)
    → IsCounted db
    → OnOk (λ r. IsCounted r.1) (enqueue_many_dyn_in_tx env reqs db)
unfolding enqueue_many_dyn_in_tx insert_many_dyn
enqueue_many_dyn_in_tx-IsCounted env [] db v = v
enqueue_many_dyn_in_tx-IsCounted env (r ∷ rs) db v =
    OnOk-bind (λ x. IsCounted x.3) (λ x. IsCounted x.1) (insert_many_dyn env (r ∷ rs) db) _
      (OnOk-then (λ x. IsCounted x.3) (validate_all (r ∷ rs)) _
        (λ _.
          OnOk-bind (λ x. IsCounted x.1) (λ x. IsCounted x.3) (insert_rows env.now (r ∷ rs) db) _
            (insert_rows-IsCounted env.now (r ∷ rs) db v) (λ x h. h)))
      (λ x h. notify-IsCounted _ _ (materialize_all-IsCounted env x.2 x.3 h))
