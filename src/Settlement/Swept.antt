-- ===== src/Settlement/Swept.antt =====
-- The rows that sweep_stale and reclaim_in_flight of crates/eddyq-core/src/fetch.rs are for, and
-- their error entries.
use eddyq.Prelude.{
  ℕ, ◌+◌, ◌-◌, ◌≡◌, refl, arith, min, Bool, true, false, List, [], ◌∷◌, ◌++◌, length, drop, take,
  suc, ap, zero, length-append,
}
use eddyq.Sql.{update, count}
use eddyq.Store.{err, database, Db, Job, Json, DynEnqueue, Env, ok, state_eq, running, i64_max}
use eddyq.Enqueue.Insert.{conflicts, new_job}
use eddyq.Fetch.Finish.{push_error, max_error_entries}
use eddyq.Fetch.Sweep.{
  breaks_check, recover, recover_where, recover_and_fire, bumped, fire_all, is_stale, sweep_stale,
}
use eddyq.Invariant.{OnOk-if, OnOk, OnOk-apply, OnOk-bind}
use eddyq.Invariant.Recovery.{stale_running}
use eddyq.Settlement.Grown.{fire_all-grown}

module _ (lost : Job → Bool)
    (only : (a : Job) → lost a ≡ true → state_eq a.state running ≡ true) where
  none_left : (now : ℕ) (entry : Json) (a : Job) → lost (recover now entry a) ≡ false
  unfolding recover state_eq
  none_left now entry a = ground (arith, only (recover now entry a))

  gone :
      (now : ℕ) (entry : Json) (jobs : List Job)
      → count lost (update lost (recover now entry) jobs) ≡ 0
  unfolding count update
  gone now entry [] = refl
  gone now entry (x ∷ xs) = ground (arith, none_left now entry x, gone now entry xs)

  grow-gone :
      (i now : ℕ) (req : DynEnqueue) (jobs : List Job)
      → conflicts req.kind req.unique_key jobs ≡ false
      → count lost jobs ≡ 0
      → count lost (new_job i now req ∷ jobs) ≡ 0
  unfolding count state_eq
  grow-gone i now req jobs fresh h = ground (arith, only (new_job i now req))

  pub recover_and_fire-gone :
      (env : Env) (entry : Json) (db : Db)
      → OnOk
          (λ r. (count lost r.1.jobs ≡ 0) × (r.0 ≡ count lost db.jobs))
          (recover_and_fire env lost entry db)
  unfolding recover_where
  recover_and_fire-gone env entry db =
      let Q = λ (r : ℕ × Db). (count lost r.1.jobs ≡ 0) × (r.0 ≡ count lost db.jobs) in
      OnOk-if Q
        (breaks_check (bumped lost db db.batches) (recover_where lost env.now entry db).batches)
        (err database) _ tt
        (OnOk-bind (λ d. count lost d.jobs ≡ 0) Q
          (fire_all env (bumped lost db db.batches) (recover_where lost env.now entry db)) _
          (fire_all-grown (λ jobs. count lost jobs ≡ 0) grow-gone env (bumped lost db db.batches)
            (recover_where lost env.now entry db) (gone env.now entry db.jobs))
          (λ d h. (h, refl)))

-- After a sweep that committed no running row is stale; the sweep's result is the number of rows
-- that were.
pub sweep_stale_lem :
    (env : Env) (secs n : ℕ) (db after : Db)
    → sweep_stale env secs db ≡ ok (n, after)
    → (count (is_stale env.now (min secs i64_max)) after.jobs ≡ 0)
      × (n ≡ count (is_stale env.now (min secs i64_max)) db.jobs)
unfolding sweep_stale
sweep_stale_lem env secs n db after e =
    let lost = is_stale env.now (min secs i64_max) in
    OnOk-apply (λ r. (count lost r.1.jobs ≡ 0) × (r.0 ≡ count lost db.jobs))
      (sweep_stale env secs db)
      (recover_and_fire-gone lost (stale_running env.now (min secs i64_max)) env _ db) e

take-drop : {A : Type 0} (n : ℕ) (xs : List A) → take n xs ++ drop n xs ≡ xs
take-drop zero xs = refl
take-drop (suc n) [] = refl
take-drop (suc n) (x ∷ xs) = ap (λ ys. x ∷ ys) (take-drop n xs)

length-drop : {A : Type 0} (n : ℕ) (xs : List A) → length (drop n xs) ≡ length xs - n
length-drop zero xs = omega arith
length-drop (suc n) [] = omega arith
length-drop (suc n) (x ∷ xs) = omega (arith, length-drop n xs)

-- A row keeps the last ten error entries: with the new one as the last, the entries are the end of
-- the old ones and the new one, ten of them or all if there are fewer.
pub push_error-keeps :
    (errors : List Json) (entry : Json)
    → ((dropped : List Json) × (dropped ++ push_error errors entry ≡ errors ++ (entry ∷ [])))
      × (length (push_error errors entry) ≡ min (length errors + 1) max_error_entries)
unfolding push_error
push_error-keeps errors entry =
    let all = errors ++ (entry ∷ []) in
    let n = length all - max_error_entries in
    (
      (take n all, take-drop n all),
      omega (arith, length-drop n all, length-append errors (entry ∷ [])),
    )
