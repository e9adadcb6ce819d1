-- ===== src/Runtime/Reclaim.antt =====
-- What a shutdown gives back.
use eddyq.Prelude.{
  ℕ, ◌≡◌, refl, sym, ap, ◌∙◌, arith, true, false, Option, none, List, [], ◌∷◌, any_num, ◌==◌,
  Bool-cases, inl, inr,
}
use eddyq.Sql.{find, count}
use eddyq.Store.{Db, Job, Json, Env, ok, state_eq, running}
use eddyq.Fetch.Finish.{is_held, mark_completed, mark_failed}
use eddyq.Fetch.Sweep.{is_in_flight, reclaim_in_flight}
use eddyq.Invariant.{OnOk, OnOk-apply}
use eddyq.Invariant.Recovery.{in_flight_running}
use eddyq.Settlement.Gate.{lost_worker}
use eddyq.Settlement.Swept.{recover_and_fire-gone}

abbrev Reclaimed : List ℕ → Db → ℕ × Db → Type 0
Reclaimed ids db r =
    (count (is_in_flight ids) r.1.jobs ≡ 0) × (r.0 ≡ count (is_in_flight ids) db.jobs)

no_ids : (jobs : List Job) → count (is_in_flight []) jobs ≡ 0
unfolding count is_in_flight
no_ids [] = refl
no_ids (j ∷ jobs) = ground (arith, no_ids jobs)

reclaim-Reclaimed :
    (env : Env) (ids : List ℕ) (db : Db) → OnOk (Reclaimed ids db) (reclaim_in_flight env ids db)
unfolding reclaim_in_flight
reclaim-Reclaimed env [] db = (no_ids db.jobs, sym (no_ids db.jobs))
reclaim-Reclaimed env (i ∷ is) db =
    recover_and_fire-gone (is_in_flight (i ∷ is)) (in_flight_running (i ∷ is)) env _ db

unheld :
    (ids : List ℕ) (i worker : ℕ) (jobs : List Job)
    → any_num i ids ≡ true
    → count (is_in_flight ids) jobs ≡ 0
    → find (is_held i worker) jobs ≡ none
unfolding count find is_held is_in_flight
unheld ids i worker [] m h = refl
unheld ids i worker (j ∷ jobs) m h = elim (Bool-cases (j.id == i)) [
  | inl e ↦
      let same : j.id ≡ i = ground arith in
      let there : any_num j.id ids ≡ true = ap (λ n. any_num n ids) same ∙ m in
      let stopped : state_eq j.state running ≡ false = ground (arith, there) in
      let rest : count (is_in_flight ids) jobs ≡ 0 = ground (arith, there, stopped) in
      rw (e, stopped) (unheld ids i worker jobs m rest)
  | inr e ↦
      let rest : count (is_in_flight ids) jobs ≡ 0 = ground arith in
      rw e (unheld ids i worker jobs m rest)
]

-- A reclaim that commits takes every running row whose id is given, whichever process holds it: a
-- worker of another process, which claimed the job after this process had given it up for a retry,
-- holds it no more, and its report changes nothing.
pub reclaim_in_flight-takes :
    (env : Env) (ids : List ℕ) (db after : Db) (n i worker : ℕ) (result : Option Json)
    (entry : Json) (retry_at : Option ℕ)
    → reclaim_in_flight env ids db ≡ ok (n, after)
    → any_num i ids ≡ true
    → (n ≡ count (is_in_flight ids) db.jobs)
      × (find (is_held i worker) after.jobs ≡ none)
      × (mark_completed env i worker result after ≡ ok after)
      × (mark_failed env i worker entry retry_at after ≡ ok after)
reclaim_in_flight-takes env ids db after n i worker result entry retry_at e m =
    let taken : Reclaimed ids db (n, after) =
      OnOk-apply (Reclaimed ids db) (reclaim_in_flight env ids db) (reclaim-Reclaimed env ids db)
        e in
    let free : find (is_held i worker) after.jobs ≡ none =
      unheld ids i worker after.jobs m taken.0 in
    let (completes, fails) = lost_worker env i worker result entry retry_at after free in
    (taken.1, free, completes, fails)
