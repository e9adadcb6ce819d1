-- ===== src/Enqueue/Agreement.antt =====
-- The insertion of typed jobs against that of requests built by hand:
-- crates/eddyq-core/src/enqueue.rs.
use eddyq.Prelude.{
  ℕ, suc, ◌-◌, ◌≡◌, refl, ◌∙◌, ap, arith, Bool, true, String, none, some, List, [], ◌∷◌, leb,
  length, Bool-cases, inl, inr, Option-cases,
}
use eddyq.Store.{Db, Json, DynEnqueue, Env, Result, ok, err, ◌>>=◌}
use eddyq.NamedQueue.{validate_queue_name}
use eddyq.Enqueue.{
  to_result, materialize_for, BulkEnqueueResult, insert_rows, distinct_groups, insert_dyn,
  enqueue_dyn, validate_all, any_due, insert_many_dyn, enqueue_many_dyn, enqueue_many_dyn_in_tx,
}
use eddyq.Enqueue.Insert.{insert_row, or_now, has_batch, conflicts}
use eddyq.Invariant.{OnOk, OnOk-then, OnOk-bind}
use eddyq.Enqueue.Typed.{
  JobTrait, EnqueueOptions, or_serde, columns, insert_job, enqueue, bulk_columns, collect,
  insert_many, enqueue_many, enqueue_with, build_dyn_enqueue, new_request, enqueue_many_in_tx,
  completed_many,
}

insert_checked :
    (env : Env) (req : DynEnqueue) (db : Db)
    → req.batch_id ≡ none
    → insert_dyn env req db ≡ (
        validate_queue_name req.queue >>= λ _. ok (
          to_result (insert_row env.now req db).0,
          leb (or_now env.now req.scheduled_at) env.now,
          materialize_for env
              (to_result (insert_row env.now req db).0)
              req.group_key
              (insert_row env.now req db).1,
        ))
unfolding insert_dyn insert_row has_batch
insert_checked env req db e = elim (Bool-cases (conflicts req.kind req.unique_key db.jobs)) [
  | inl c ↦ rw c refl
  | inr c ↦ rw (c, e) refl
]

leb_self : (n : ℕ) → leb n n ≡ true
leb_self n = ground arith

abbrev bulk_result :
    ℕ → List DynEnqueue → ℕ × Db → Result (BulkEnqueueResult × Bool × List String × Db)
bulk_result n reqs x =
    ok (record { inserted = x.0; skipped = n - x.0 }, true, distinct_groups reqs, x.1)

-- The request that the bulk INSERT is made of, once they are valid.
bulk_checked :
    (env : Env) (r : DynEnqueue) (rs : List DynEnqueue) (n : ℕ) (db : Db)
    → validate_all (r ∷ rs) ≡ ok tt
    → suc (length rs) ≡ n
    → r.scheduled_at ≡ some env.now
    → ((insert_rows env.now (r ∷ rs) db >>= bulk_result n (r ∷ rs)) >>= λ x.
        ok (completed_many env x))
      ≡ enqueue_many_dyn env (r ∷ rs) db
unfolding enqueue_many_dyn enqueue_many_dyn_in_tx insert_many_dyn any_due
bulk_checked env r rs n db valid len at = rw (valid, ← len, at, leb_self env.now) refl

module _ {J : Type 0} (T : JobTrait J) where
  -- A typed job is enqueued as the request that has its columns.
  enqueue-enqueue_dyn :
      (env : Env) (job : J) (opts : EnqueueOptions) (db : Db)
      → enqueue T env job opts db
        ≡ (or_serde (T.to_value job) >>= λ payload. enqueue_dyn env (columns T job opts payload) db)
  unfolding enqueue insert_job enqueue_dyn columns
  enqueue-enqueue_dyn env job opts db = elim (Option-cases (T.to_value job)) [
    | inl e ↦ rw e refl
    | inr (payload, e) ↦ rw (e, insert_checked env (columns T job opts payload) db refl) refl
  ]

  -- The two ways to enqueue a typed job, with the crate's function on a pool and through a `Queue`,
  -- do the same to the database and return the same, errors included. Rules of retention that the
  -- options give are not stored either way.
  pub enqueue-enqueue_with :
      (env : Env) (job : J) (opts : EnqueueOptions) (db : Db)
      → enqueue T env job opts db ≡ enqueue_with T env job opts db
  unfolding enqueue_with build_dyn_enqueue new_request enqueue_dyn insert_dyn insert_row columns
  enqueue-enqueue_with env job opts db = enqueue-enqueue_dyn env job opts db ∙ same
    where
      same :
          (or_serde (T.to_value job) >>= λ payload. enqueue_dyn env (columns T job opts payload) db)
          ≡ enqueue_with T env job opts db
      same = elim (Option-cases (T.to_value job)) [
        | inl e ↦ rw e refl
        | inr (payload, e) ↦ rw e refl
      ]

  -- The requests that the loop collects are valid, one for each job.
  abbrev Collected : List J → List DynEnqueue → Type 0
  Collected jobs reqs = (validate_all reqs ≡ ok tt) × (length reqs ≡ length jobs)

  Collected-cons :
      (now : ℕ) (j : J) (js : List J) (payload : Json) (m : Result (Unit {0}))
      → validate_queue_name (T.queue j) ≡ m
      → OnOk (Collected js) (collect T now js)
      → OnOk
          (Collected (j ∷ js))
          (m >>= λ _. collect T now js >>= λ rest. ok (bulk_columns T now j payload ∷ rest))
  unfolding bulk_columns validate_all
  Collected-cons now j js payload (ok u) e h =
      OnOk-bind (Collected js) (Collected (j ∷ js)) (collect T now js) _ h
        (λ rest k. (rw e k.0, ap suc k.1))
  Collected-cons now j js payload (err x) e h = tt

  collect-Collected : (now : ℕ) (jobs : List J) → OnOk (Collected jobs) (collect T now jobs)
  unfolding collect validate_all
  collect-Collected now [] = (refl, refl)
  collect-Collected now (j ∷ js) =
      OnOk-then (Collected (j ∷ js)) (or_serde (T.to_value j)) _
        (λ payload. Collected-cons now j js payload _ refl (collect-Collected now js))

  bulk-Collected :
      (env : Env) (j : J) (js : List J) (payload : Json) (m : Result (List DynEnqueue)) (db : Db)
      → validate_queue_name (T.queue j) ≡ ok tt
      → OnOk (Collected js) m
      → (((m >>= λ rest. ok (bulk_columns T env.now j payload ∷ rest)) >>= λ reqs.
            insert_rows env.now reqs db >>= bulk_result (length (j ∷ js)) reqs)
          >>= λ x. ok (completed_many env x))
        ≡ ((m >>= λ rest. ok (bulk_columns T env.now j payload ∷ rest)) >>= λ reqs.
            enqueue_many_dyn env reqs db)
  unfolding bulk_columns validate_all
  bulk-Collected env j js payload (ok rest) db v h =
      bulk_checked env (bulk_columns T env.now j payload) rest (length (j ∷ js)) db (rw v h.0)
        (ap suc h.1) refl
  bulk-Collected env j js payload (err x) db v h = refl

  bulk_valid :
      (env : Env) (j : J) (js : List J) (payload : Json) (v : Result (Unit {0})) (db : Db)
      → validate_queue_name (T.queue j) ≡ v
      → (((v >>= λ _. collect T env.now js >>= λ rest. ok (bulk_columns T env.now j payload ∷ rest))
            >>= λ reqs. insert_rows env.now reqs db >>= bulk_result (length (j ∷ js)) reqs)
          >>= λ x. ok (completed_many env x))
        ≡ ((v >>= λ _.
              collect T env.now js >>= λ rest. ok (bulk_columns T env.now j payload ∷ rest))
            >>= λ reqs. enqueue_many_dyn env reqs db)
  bulk_valid env j js payload (ok u) db e =
      bulk-Collected env j js payload (collect T env.now js) db e (collect-Collected env.now js)
  bulk_valid env j js payload (err x) db e = refl

  -- The two bulk enqueues agree: typed jobs are enqueued as the requests that the loop collects are,
  -- and if one does not serialise or has a wrong queue name, none is.
  pub enqueue_many-enqueue_many_dyn :
      (env : Env) (jobs : List J) (db : Db)
      → enqueue_many T env jobs db
        ≡ (collect T env.now jobs >>= λ reqs. enqueue_many_dyn env reqs db)
  unfolding enqueue_many enqueue_many_in_tx insert_many collect enqueue_many_dyn
      enqueue_many_dyn_in_tx
  enqueue_many-enqueue_many_dyn env [] db = refl
  enqueue_many-enqueue_many_dyn env (j ∷ js) db = elim (Option-cases (T.to_value j)) [
    | inl e ↦ rw e refl
    | inr (payload, e) ↦
        rw e (bulk_valid env j js payload (validate_queue_name (T.queue j)) db refl)
  ]
