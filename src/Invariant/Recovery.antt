-- ===== src/Invariant/Recovery.antt =====
-- sweep_stale and reclaim_in_flight keep the counters.
use eddyq.Prelude.{
  ℕ, ◌+◌, ◌-◌, ◌≡◌, refl, ap, String, Bool, true, false, ◌&&◌, Option, none, some, List, [], ◌∷◌,
  arith,
}
use mathlib.Core.Path.{fun_ext}
use eddyq.Sql.{update, count}
use eddyq.Sql.Count.{count-update, count_none}
use eddyq.Sql.Order.{All-intro}
use eddyq.Sql.Keyed.{counter-map, or_zero, at_some}
use eddyq.Store.{err, database, Db, Job, Group, NamedQueue, Json, Env, state_eq, running}
use eddyq.Store.Serial.{Below-update}
use eddyq.NamedQueue.{running_on}
use eddyq.Fetch.Sweep.{
  breaks_check, recover, recover_where, recover_and_fire, bumped, fire_all, on_group, on_queue,
  is_stale, is_in_flight, sweep_stale, reclaim_in_flight, running_in, lost_contact, shutting_down,
}
use eddyq.Invariant.{
  OnOk-if, IsCounted, group_counter, queue_counter, Agrees, OnOk, OnOk-bind, job_id,
}
use eddyq.Invariant.Settling.{fire_all-IsCounted}

lowered :
    (o : Option ℕ) (n d : ℕ) {m : ℕ}
    → n + d ≡ m
    → or_zero o ≡ m
    → or_zero (at_some (λ v. v - d) o) ≡ n
lowered o n d h e = ground arith

lowered_row :
    (o : Option ℕ) (n d m : ℕ) → n + d ≡ m → Agrees o m → Agrees (at_some (λ v. v - d) o) n
lowered_row none n d m h e = tt
lowered_row (some v) n d m h e = omega arith

recover-id : (now : ℕ) (entry : Json) (a : Job) → job_id (recover now entry a) ≡ job_id a
unfolding recover
recover-id now entry a = refl

pub stale_running :
    (now secs : ℕ) (a : Job) → is_stale now secs a ≡ true → state_eq a.state running ≡ true
unfolding is_stale
stale_running now secs a h = ground arith

pub in_flight_running :
    (ids : List ℕ) (a : Job) → is_in_flight ids a ≡ true → state_eq a.state running ≡ true
unfolding is_in_flight
in_flight_running ids a h = ground arith

module _ (lost : Job → Bool)
    (only : (a : Job) → lost a ≡ true → state_eq a.state running ≡ true) where
  recovered_in :
      (now : ℕ) (entry : Json) (k : String) (a : Job)
      → (lost a && running_in k (recover now entry a)) ≡ false
  unfolding running_in recover state_eq
  recovered_in now entry k a = ground arith

  recovered_on :
      (now : ℕ) (entry : Json) (k : String) (a : Job)
      → (lost a && running_on k (recover now entry a)) ≡ false
  unfolding running_on recover state_eq
  recovered_on now entry k a = ground arith

  lost_in : (k : String) (a : Job) → (lost a && running_in k a) ≡ (lost a && on_group k a)
  unfolding running_in
  lost_in k a = ground (arith, only a)

  lost_on : (k : String) (a : Job) → (lost a && running_on k a) ≡ (lost a && on_queue k a)
  unfolding running_on on_queue
  lost_on k a = ground (arith, only a)

  count-recovered :
      (c d : Job → Bool) (now : ℕ) (entry : Json) (jobs : List Job)
      → ((a : Job) → (lost a && c (recover now entry a)) ≡ false)
      → ((a : Job) → (lost a && c a) ≡ (lost a && d a))
      → count c (update lost (recover now entry) jobs) + count (λ a. lost a && d a) jobs
        ≡ count c jobs
  count-recovered c d now entry jobs out same = omega (
    arith,
    count-update c lost (recover now entry) jobs,
    count_none (λ a. lost a && c (recover now entry a)) jobs
        (All-intro (λ a. (lost a && c (recover now entry a)) ≡ false) out jobs),
    ap (λ q. count q jobs) (fun_ext same),
  )

  recover_where-IsCounted :
      (now : ℕ) (entry : Json) (db : Db)
      → IsCounted db
      → IsCounted (recover_where lost now entry db)
  unfolding recover_where
  recover_where-IsCounted now entry db v = record {
    groups = λ k.
        let d = λ (g : String). count (λ j. lost j && on_group g j) db.jobs in
        rw
          (counter-map (λ (g : Group). g.key) (λ g. g.running_count) d
            (λ g. record g { running_count = g.running_count - d g.key }) (λ g. refl) (λ g. refl) k
            db.groups)
          (lowered (group_counter k db) _ (d k)
            (count-recovered (running_in k) (on_group k) now entry db.jobs
              (recovered_in now entry k) (lost_in k))
            (v.groups k));
    queues = λ k.
        let d = λ (g : String). count (λ j. lost j && on_queue g j) db.jobs in
        rw
          (counter-map (λ (g : NamedQueue). g.name) (λ g. g.running_count) d
            (λ g. record g { running_count = g.running_count - d g.name }) (λ g. refl) (λ g. refl) k
            db.queues)
          (lowered_row (queue_counter k db) _ (d k) _
            (count-recovered (running_on k) (on_queue k) now entry db.jobs
              (recovered_on now entry k) (lost_on k))
            (v.queues k));
    serial =
        Below-update job_id lost (recover now entry) (recover-id now entry) db.next_job db.jobs
          v.serial;
  }

  pub recover_and_fire-IsCounted :
      (env : Env) (entry : Json) (db : Db)
      → IsCounted db
      → OnOk (λ r. IsCounted r.1) (recover_and_fire env lost entry db)
  recover_and_fire-IsCounted env entry db v =
      OnOk-if (λ r. IsCounted r.1)
        (breaks_check (bumped lost db db.batches) (recover_where lost env.now entry db).batches)
        (err database) _ tt
        (OnOk-bind IsCounted (λ r. IsCounted r.1) (fire_all env (bumped lost db db.batches) _) _
          (fire_all-IsCounted env (bumped lost db db.batches) _
            (recover_where-IsCounted env.now entry db v))
          (λ d h. h))

pub sweep_stale-IsCounted :
    (env : Env) (secs : ℕ) (db : Db)
    → IsCounted db
    → OnOk (λ r. IsCounted r.1) (sweep_stale env secs db)
unfolding sweep_stale
sweep_stale-IsCounted env secs db v =
    recover_and_fire-IsCounted (is_stale env.now _) (stale_running env.now _) env (lost_contact env)
      db v

pub reclaim_in_flight-IsCounted :
    (env : Env) (ids : List ℕ) (db : Db)
    → IsCounted db
    → OnOk (λ r. IsCounted r.1) (reclaim_in_flight env ids db)
unfolding reclaim_in_flight
reclaim_in_flight-IsCounted env [] db v = v
reclaim_in_flight-IsCounted env (i ∷ is) db v =
    recover_and_fire-IsCounted (is_in_flight (i ∷ is)) (in_flight_running (i ∷ is)) env
      (shutting_down env) db v
