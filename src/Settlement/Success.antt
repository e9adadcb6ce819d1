-- ===== src/Settlement/Success.antt =====
-- Reports and sweeps that commit.
use eddyq.Prelude.{
  if◌then◌else◌, false, ℕ, ◌≡◌, refl, ◌∙◌, ap, arith, min, Bool, true, ◌&&◌, Option, none, some,
  List, [], ◌∷◌, Memᴰ, Bool-cases, inl, inr,
}
use eddyq.Sql.{find, update, count}
use eddyq.Sql.Count.{count_mono}
use eddyq.Sql.Order.{All-intro}
use eddyq.Store.{Result, err, database, Db, Job, Batch, Json, Env, ok, ◌>>=◌, i64_max}
use eddyq.Batch.{TerminalOutcome}
use eddyq.Fetch.Finish.{
  is_held, complete, settle, settle_released, release, release_group, release_queue, mark_completed,
}
use eddyq.Fetch.Sweep.{
  breaks_check, is_stale, is_spent, fails_in, bumped, recover_where, fire_all, lost_contact,
  sweep_stale,
}
use eddyq.Invariant.{IsCounted, OnOk-apply}
use eddyq.Invariant.Runs.{mark_completed-IsCounted}
use eddyq.Invariant.Recovery.{sweep_stale-IsCounted}
use eddyq.Claiming.Rows.{updated}

pub find_mem :
    (p : Job → Bool) (jobs : List Job) (j : Job) → find p jobs ≡ some j → Memᴰ j jobs × (p j ≡ true)
unfolding find
find_mem p [] j e = cc
find_mem p (x ∷ xs) j e = elim (Bool-cases (p x)) [
  | inl t ↦
      let q : some x ≡ some j = rw t at e in let r : x ≡ j = cc in rw (← r) (Memᴰ.head refl, t)
  | inr t ↦ let (m, h) = find_mem p xs j (rw t at e) in (Memᴰ.tail m, h)
]

-- The success of a job of no batch, reported by the worker that holds it, commits: the row is
-- completed with the result, and the counters are right again.
pub mark_completed-ok :
    (env : Env) (id worker : ℕ) (result : Option Json) (db : Db) (j : Job)
    → IsCounted db
    → find (is_held id worker) db.jobs ≡ some j
    → j.batch_id ≡ none
    → (after : Db) × (mark_completed env id worker result db ≡ ok after)
      × Memᴰ (complete env.now result j) after.jobs
      × IsCounted after
unfolding mark_completed release release_group release_queue
mark_completed-ok env id worker result db j v held alone =
    let ended : Db = record db {
      jobs = update (is_held id worker) (complete env.now result) db.jobs;
    } in
    let commits : mark_completed env id worker result db ≡ ok (release j ended) =
      ap (λ o. settle_released env TerminalOutcome.completed o ended) held
      ∙ ap (λ o. settle env o TerminalOutcome.completed (release j ended)) alone in
    let (m, h) = find_mem (is_held id worker) db.jobs j held in
    (
      release j ended,
      commits,
      updated (is_held id worker) (complete env.now result) j db.jobs m h,
      OnOk-apply IsCounted (mark_completed env id worker result db)
          (mark_completed-IsCounted env id worker result db v) commits,
    )

fails_in-spent :
    (lost : Job → Bool) (id : ℕ) (j : Job)
    → (lost j && fails_in id j) ≡ true
    → (lost j && is_spent j) ≡ true
unfolding fails_in
fails_in-spent lost id j h = ground arith

bumped_none :
    (lost : Job → Bool) (db : Db) (bs : List Batch)
    → count (λ j. lost j && is_spent j) db.jobs ≡ 0
    → bumped lost db bs ≡ []
unfolding bumped
bumped_none lost db [] h = refl
bumped_none lost db (b ∷ bs) h = ground (
  arith,
  bumped_none lost db bs h,
  count_mono (λ j. lost j && fails_in b.id j) (λ j. lost j && is_spent j) db.jobs
      (All-intro _ (fails_in-spent lost b.id) db.jobs),
)

unbroken : (bs : List Batch) → breaks_check [] bs ≡ false
unbroken [] = refl
unbroken (b ∷ bs) = unbroken bs

-- A sweep in which no job has spent its recoveries commits, and the counters are right after it.
pub sweep_stale-ok :
    (env : Env) (secs : ℕ) (db : Db)
    → IsCounted db
    → count (λ j. is_stale env.now (min secs i64_max) j && is_spent j) db.jobs ≡ 0
    → (after : Db) × (sweep_stale env secs db
        ≡ ok (count (is_stale env.now (min secs i64_max)) db.jobs, after))
      × IsCounted after
unfolding sweep_stale fire_all
sweep_stale-ok env secs db v unspent =
    let lost = is_stale env.now (min secs i64_max) in
    let after = recover_where lost env.now (lost_contact env) db in
    let finish : List ℕ → Result (ℕ × Db) = λ ids.
      if breaks_check ids after.batches
      then err database
      else (fire_all env ids after >>= λ d. ok (count lost db.jobs, d)) in
    let commits : sweep_stale env secs db ≡ ok (count lost db.jobs, after) =
      ap finish (bumped_none lost db db.batches unspent) ∙ rw (unbroken after.batches) refl in
    (
      after,
      commits,
      OnOk-apply (λ r. IsCounted r.1) (sweep_stale env secs db)
          (sweep_stale-IsCounted env secs db v) commits,
    )
