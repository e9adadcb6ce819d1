-- ===== src/Invariant/Repair.antt =====
-- The counters that reconcile_counters of crates/eddyq-core/src/fetch.rs leaves.
use eddyq.Prelude.{
  ℕ, ◌≡◌, refl, String, Bool, ◌&&◌, Option, none, some, List, [], ◌∷◌, arith, min, eq_iff, ltb,
}
use eddyq.Sql.{update, count}
use eddyq.Sql.Keyed.{counter, or_zero, at_some}
use eddyq.Store.{Db, Group, NamedQueue}
use eddyq.NamedQueue.{running_on}
use eddyq.Fetch.Sweep.{running_in, reconcile_counters}
use eddyq.Invariant.{IsCounted, group_counter, queue_counter, Agrees}

module _ {A : Type 0} (key : A → String) (val : A → ℕ) (d : String → ℕ) where
  abbrev drifted : A → Bool
  drifted a = ltb 0 (val a) && ltb (d (key a)) (val a)

  counter-lowered :
      (f : A → A)
      → ((a : A) → key (f a) ≡ key a)
      → ((a : A) → val (f a) ≡ min (val a) (d (key a)))
      → (k : String) (xs : List A)
      → counter key val k (update (λ a. ltb 0 (val a) && ltb (d (key a)) (val a)) f xs)
        ≡ at_some (λ v. min v (d k)) (counter key val k xs)
  unfolding counter update
  counter-lowered f same new k [] = refl
  counter-lowered f same new k (x ∷ xs) =
      ground (arith, same x, new x, eq_iff (key x) k, counter-lowered f same new k xs)

-- Each counter becomes the smaller of its value and the number of jobs that run; nothing else of
-- the jobs changes.
pub reconcile_counters_lem :
    (db : Db) (k : String)
    → (group_counter k (reconcile_counters db).1
        ≡ at_some (λ v. min v (count (running_in k) db.jobs)) (group_counter k db))
      × (queue_counter k (reconcile_counters db).1
          ≡ at_some (λ v. min v (count (running_on k) db.jobs)) (queue_counter k db))
      × ((reconcile_counters db).1.jobs ≡ db.jobs)
unfolding reconcile_counters
reconcile_counters_lem db k = (
  counter-lowered (λ (g : Group). g.key) (λ g. g.running_count) (λ j. count (running_in j) db.jobs)
      _ (λ g. refl) (λ g. refl) k db.groups,
  counter-lowered (λ (q : NamedQueue). q.name) (λ q. q.running_count)
      (λ j. count (running_on j) db.jobs) _ (λ q. refl) (λ q. refl) k db.queues,
  refl,
)

steady_group : (o : Option ℕ) (n : ℕ) → or_zero o ≡ n → or_zero (at_some (λ v. min v n) o) ≡ n
steady_group o n h = ground arith

steady_queue : (o : Option ℕ) (n : ℕ) → Agrees o n → Agrees (at_some (λ v. min v n) o) n
steady_queue none n h = tt
steady_queue (some v) n h = omega arith

pub reconcile_counters-IsCounted : (db : Db) → IsCounted db → IsCounted (reconcile_counters db).1
reconcile_counters-IsCounted db v = record {
  groups = λ k.
      unfold reconcile_counters in
      rw (reconcile_counters_lem db k).0 (steady_group (group_counter k db) _ (v.groups k));
  queues = λ k.
      unfold reconcile_counters in
      rw (reconcile_counters_lem db k).1 (steady_queue (queue_counter k db) _ (v.queues k));
  serial = unfold reconcile_counters in v.serial;
}
