-- ===== src/Invariant/Deletion.antt =====
-- cleanup and clean_jobs of crates/eddyq-core/src/fetch.rs delete finished rows only.
use eddyq.Prelude.{
  ℕ, ◌≡◌, refl, Bool, true, false, ◌&&◌, Option, none, some, List, [], ◌∷◌, arith, any_num, map,
  All, Memᴰ, Bool-cases, inl, inr, ◌==◌, String, drop, ℤ, clamp, zero, suc,
}
use mathlib.Core.Path.{subst}
use eddyq.Sql.{delete, select, count}
use eddyq.Sql.Count.{count-delete, count_none}
use eddyq.Sql.Order.{All-map, All-sort, All-select, All-take}
use eddyq.Store.{Db, Job, JobState, Batch, state_eq, running, completed, failed, cancelled}
use eddyq.Store.Serial.{Below, Below-delete, Below-map}
use eddyq.NamedQueue.{running_on}
use eddyq.Fetch.Sweep.{running_in}
use eddyq.Fetch.Retention.{
  Retention, is_final, is_older, beyond, reaps, later, cleanup_jobs_state, cleanup_batches,
  reaps_batch, forget_batch, cleanup, victims, clean_jobs,
}
use eddyq.Invariant.{IsCounted, job_id}
use eddyq.Invariant.Slots.{with_jobs}
use eddyq.Claiming.Chosen.{All-mem}
use eddyq.Claiming.Identity.{same_row}

All-drop {ℓ κ} : {A : Type ℓ} (P : A → Type κ) (n : ℕ) (xs : List A) → All P xs → All P (drop n xs)
All-drop P zero xs h = h
All-drop P (suc n) [] h = tt
All-drop P (suc n) (x ∷ xs) h = All-drop P n xs h.1

-- A job of the list that has the id.
named_by :
    (P : Job → Type 0) (i : ℕ) (js : List Job)
    → any_num i (map (λ (j : Job). j.id) js) ≡ true
    → All P js
    → (j : Job) × (j.id ≡ i) × P j
named_by P i [] e h = cc
named_by P i (j ∷ js) e h = elim (Bool-cases (j.id == i)) [
  | inl t ↦ (j, ground arith, h.0)
  | inr t ↦ named_by P i js (ground arith) h.1
]

same_state : (a b c : JobState) → state_eq a b ≡ true → state_eq b c ≡ false → state_eq a c ≡ false
unfolding state_eq
same_state a b c h k = ground arith

module _ (state : JobState) (now : ℕ) where
  final_rows :
      (p : Job → Bool) (jobs : List Job)
      → ((j : Job) → p j ≡ true → is_final state j ≡ true)
      → All (λ j. Memᴰ j jobs × (is_final state j ≡ true)) (select p jobs)
  final_rows p jobs h = All-select _ p jobs (
      All-map (λ j. Memᴰ j jobs) (λ j. p j ≡ true → Memᴰ j jobs × (is_final state j ≡ true))
        (λ j m e. (m, h j e)) jobs (All-mem jobs))

  -- The row that an id of the list names is final, if the list comes from final rows.
  of_ids :
      (n : ℕ) (jobs js : List Job) (j : Job)
      → Below job_id n jobs
      → All (λ j. Memᴰ j jobs × (is_final state j ≡ true)) js
      → Memᴰ j jobs
      → any_num j.id (map (λ (j : Job). j.id) js) ≡ true
      → is_final state j ≡ true
  of_ids n jobs js j b h m e =
      let (r, same, there_final) = named_by _ j.id js e h in
      subst (λ (x : Job). is_final state x ≡ true)
        (same_row job_id n jobs r j b there_final.0 m same) there_final.1

  beyond_final :
      (c : ℤ) (n : ℕ) (jobs : List Job) (j : Job)
      → Below job_id n jobs
      → Memᴰ j jobs
      → any_num j.id (beyond c state jobs) ≡ true
      → is_final state j ≡ true
  unfolding beyond
  beyond_final c n jobs j b m e =
      of_ids n jobs _ j b
        (All-drop _ (clamp c) _ (
          All-sort _ (λ (x y : Job). later x.finalized_at y.finalized_at)
            (select (is_final state) jobs) (final_rows (is_final state) jobs (λ j h. h))))
        m e

  victims_final :
      (grace limit n : ℕ) (jobs : List Job) (j : Job)
      → Below job_id n jobs
      → Memᴰ j jobs
      → any_num j.id (victims now state grace limit jobs) ≡ true
      → is_final state j ≡ true
  unfolding victims
  victims_final grace limit n jobs j b m e =
      of_ids n jobs _ j b
        (All-take _ limit _ (
          All-sort _ (λ (x y : Job). later y.finalized_at x.finalized_at)
            (select (λ j. is_final state j && is_older now grace j.finalized_at) jobs)
            (final_rows (λ j. is_final state j && is_older now grace j.finalized_at) jobs
              (λ j h. ground arith))))
        m e

  pub reaps_final :
      (secs : Option ℕ) (c : Option ℤ) (n : ℕ) (jobs : List Job) (j : Job)
      → Below job_id n jobs
      → Memᴰ j jobs
      → reaps now state secs c jobs j ≡ true
      → is_final state j ≡ true
  unfolding reaps
  reaps_final none none n jobs j b m e = ground arith
  reaps_final (some s) none n jobs j b m e = ground arith
  reaps_final none (some c) n jobs j b m e = beyond_final c n jobs j b m e
  reaps_final (some s) (some c) n jobs j b m e = ground (arith, beyond_final c n jobs j b m)

  -- A DELETE of rows that have ended keeps the counters.
  module _ (ended : state_eq state running ≡ false) where
    final-in : (k : String) (j : Job) → is_final state j ≡ true → running_in k j ≡ false
    unfolding running_in is_final
    final-in k j h = ground (arith, same_state j.state state running)

    final-on : (k : String) (j : Job) → is_final state j ≡ true → running_on k j ≡ false
    unfolding running_on is_final
    final-on k j h = ground (arith, same_state j.state state running)

    pub gone :
        (p : Job → Bool) (db : Db)
        → ((j : Job) → Memᴰ j db.jobs → p j ≡ true → is_final state j ≡ true)
        → (c : Job → Bool) → ((j : Job) → is_final state j ≡ true → c j ≡ false)
        → count c db.jobs ≡ count c (delete p db.jobs)
    gone p db final c out = omega (
      arith,
      count-delete c p db.jobs,
      count_none (λ j. p j && c j) db.jobs
          (All-map (λ j. Memᴰ j db.jobs) (λ j. (p j && c j) ≡ false)
            (λ j m. elim (Bool-cases (p j)) [
              | inl e ↦ rw e (out j (final j m e))
              | inr e ↦ rw e refl
            ])
            db.jobs (All-mem db.jobs)),
    )

    pub delete-IsCounted :
        (p : Job → Bool) (db : Db)
        → ((j : Job) → Memᴰ j db.jobs → p j ≡ true → is_final state j ≡ true)
        → IsCounted db
        → IsCounted (with_jobs db (delete p db.jobs))
    delete-IsCounted p db final v = record {
      groups = λ k. omega (arith, v.groups k, gone p db final (running_in k) (final-in k));
      queues = λ k. rw (← gone p db final (running_on k) (final-on k)) (v.queues k);
      serial = Below-delete job_id p db.next_job db.jobs v.serial;
    }

pub forget_none :
    (c : Job → Bool) (f : Job → Job) (jobs : List Job)
    → ((j : Job) → c (f j) ≡ c j)
    → count c (map f jobs) ≡ count c jobs
unfolding count
forget_none c f [] same = refl
forget_none c f (x ∷ xs) same = rw (same x, forget_none c f xs same) refl

forget_in :
    (k : String) (gone : List Batch) (j : Job) → running_in k (forget_batch gone j) ≡ running_in k j
unfolding running_in
forget_in k gone j = refl

forget_on :
    (k : String) (gone : List Batch) (j : Job) → running_on k (forget_batch gone j) ≡ running_on k j
unfolding running_on
forget_on k gone j = refl

pub cleanup_jobs_state-IsCounted :
    (state : JobState) (now : ℕ) (secs : Option ℕ) (c : Option ℤ) (db : Db)
    → state_eq state running ≡ false
    → IsCounted db
    → IsCounted (cleanup_jobs_state now state secs c db).1
unfolding cleanup_jobs_state
cleanup_jobs_state-IsCounted state now secs c db ended v =
    delete-IsCounted state now ended (reaps now state secs c db.jobs) db
      (λ j m e. reaps_final state now secs c db.next_job db.jobs j v.serial m e) v

abbrev pub reaped : ℕ → Option ℕ → Option ℤ → Db → List Batch
reaped now secs c db = select (reaps_batch now secs c db.batches) db.batches

pub cleanup_batches-IsCounted :
    (now : ℕ) (secs : Option ℕ) (c : Option ℤ) (db : Db)
    → IsCounted db
    → IsCounted (cleanup_batches now secs c db).1
unfolding cleanup_batches
cleanup_batches-IsCounted now secs c db v = record {
  groups = λ k.
      rw (forget_none (running_in k) _ db.jobs (forget_in k (reaped now secs c db))) (v.groups k);
  queues = λ k.
      rw (forget_none (running_on k) _ db.jobs (forget_on k (reaped now secs c db))) (v.queues k);
  serial = Below-map job_id _ (λ a. refl) db.next_job db.jobs v.serial;
}

pub cleanup-IsCounted :
    (now : ℕ) (r : Retention) (db : Db) → IsCounted db → IsCounted (cleanup now r db).1
unfolding cleanup state_eq
cleanup-IsCounted now r db v = cleanup_batches-IsCounted now r.batch_secs r.batch_count _ (
    cleanup_jobs_state-IsCounted cancelled now r.cancelled_secs r.cancelled_count _ refl (
      cleanup_jobs_state-IsCounted failed now r.failed_secs r.failed_count _ refl
        (cleanup_jobs_state-IsCounted completed now r.completed_secs r.completed_count db refl v)))

pub clean_jobs-IsCounted :
    (now : ℕ) (state : JobState) (grace limit : ℕ) (db : Db)
    → state_eq state running ≡ false
    → IsCounted db
    → IsCounted (clean_jobs now state grace limit db).1
unfolding clean_jobs
clean_jobs-IsCounted now state grace limit db ended v = elim (Bool-cases (limit == 0)) [
  | inl e ↦ rw e v
  | inr e ↦ rw e (
      delete-IsCounted state now ended (λ j. any_num j.id (victims now state grace limit db.jobs))
        db (λ j m h. victims_final state now grace limit db.next_job db.jobs j v.serial m h) v)
]
