-- ===== src/Invariant/Slots.antt =====
-- The end of a run gives back exactly one slot of the job's group and of its queue.
use eddyq.Prelude.{
  ℕ, ◌+◌, ◌-◌, ◌≡◌, refl, Bool, true, false, ◌&&◌, String, Option, none, some, List, arith, str_eq,
  is_text, if◌then◌else◌,
}
use eddyq.Sql.{update, count, find}
use eddyq.Sql.Count.{count-update, count_none}
use eddyq.Sql.Order.{All-intro}
use eddyq.Sql.Keyed.{counter-update, or_zero, at_some}
use eddyq.Store.{Db, Job, Group, NamedQueue, running, state_eq}
use eddyq.Store.Serial.{Below, Below-update, count-find, find-holds, one_if}
use eddyq.NamedQueue.{running_on}
use eddyq.Fetch.Sweep.{running_in}
use eddyq.Fetch.Finish.{release_group, release_queue, release}
use eddyq.Invariant.{IsCounted, group_counter, queue_counter, Agrees, job_id}

abbrev pub with_jobs : Db → List Job → Db
with_jobs db jobs = record db { jobs = jobs }

pub counter-release_group :
    (key : Option String) (db : Db) (k : String)
    → group_counter k (release_group 1 key db)
      ≡ (if is_text key k then at_some (λ v. v - 1) (group_counter k db) else group_counter k db)
unfolding release_group
counter-release_group none db k = refl
counter-release_group (some g) db k =
    counter-update (λ (r : Group). r.key) (λ r. r.running_count) (λ v. v - 1)
      (λ r. record r { running_count = r.running_count - 1 }) (λ r. refl) (λ r. refl) g k db.groups

pub counter-release_queue :
    (name : String) (db : Db) (k : String)
    → queue_counter k (release_queue 1 name db)
      ≡ (if str_eq name k then at_some (λ v. v - 1) (queue_counter k db) else queue_counter k db)
unfolding release_queue
counter-release_queue name db k =
    counter-update (λ (r : NamedQueue). r.name) (λ r. r.running_count) (λ v. v - 1)
      (λ r. record r { running_count = r.running_count - 1 }) (λ r. refl) (λ r. refl) name k
      db.queues

-- A counter that agreed with a count still does when both fall by one job, or neither.
released :
    (b : Bool) (o : Option ℕ) (n : ℕ)
    → n + (if b then 1 else 0) ≡ or_zero o
    → or_zero (if b then at_some (λ v. v - 1) o else o) ≡ n
released b o n h = ground arith

released_row :
    (b : Bool) (o : Option ℕ) (n m : ℕ)
    → n + (if b then 1 else 0) ≡ m
    → Agrees o m
    → Agrees (if b then at_some (λ v. v - 1) o else o) n
released_row b none n m h a = ground arith
released_row b (some v) n m h a = ground arith

-- One UPDATE of the row with id `i`, if it satisfies `p`.
module _ (p : Job → Bool) (f : Job → Job) (i : ℕ) (only : (a : Job) → p a ≡ true → job_id a ≡ i)
    (same : (a : Job) → job_id (f a) ≡ job_id a) where
  -- A test that the new row fails loses the row that `find` returns.
  pub count-update-find :
      (c : Job → Bool) (n : ℕ) (jobs : List Job)
      → ((a : Job) → (p a && c (f a)) ≡ false)
      → Below job_id n jobs
      → count c (update p f jobs) + one_if c (find p jobs) ≡ count c jobs
  count-update-find c n jobs out b = omega (
    arith,
    count-update c p f jobs,
    count-find job_id p c i only n jobs b,
    count_none (λ a. p a && c (f a)) jobs (All-intro (λ a. (p a && c (f a)) ≡ false) out jobs),
  )

  pub count-update-found :
      (c : Job → Bool) (n : ℕ) (jobs : List Job) (j : Job)
      → find p jobs ≡ some j
      → ((a : Job) → (p a && c (f a)) ≡ false)
      → Below job_id n jobs
      → count c (update p f jobs) + (if c j then 1 else 0) ≡ count c jobs
  count-update-found c n jobs j e out b = rw e at (count-update-find c n jobs out b)

  pub count-update-unfound :
      (c : Job → Bool) (n : ℕ) (jobs : List Job)
      → find p jobs ≡ none
      → ((a : Job) → (p a && c (f a)) ≡ false)
      → Below job_id n jobs
      → count c (update p f jobs) ≡ count c jobs
  count-update-unfound c n jobs e out b = omega (arith, rw e at (count-update-find c n jobs out b))

  module _ (was : (a : Job) → p a ≡ true → state_eq a.state running ≡ true)
      (ends : (a : Job) → state_eq (f a).state running ≡ false) where
    ends_in : (k : String) (a : Job) → (p a && running_in k (f a)) ≡ false
    unfolding running_in
    ends_in k a = ground (arith, ends a)

    ends_on : (k : String) (a : Job) → (p a && running_on k (f a)) ≡ false
    unfolding running_on
    ends_on k a = ground (arith, ends a)

    in_of_found :
        (k : String) (db : Db) (j : Job)
        → find p db.jobs ≡ some j
        → running_in k j ≡ is_text j.group_key k
    unfolding running_in
    in_of_found k db j e = ground (arith, was j, find-holds job_id p (λ _. true) i only db.jobs j e)

    on_of_found :
        (k : String) (db : Db) (j : Job)
        → find p db.jobs ≡ some j
        → running_on k j ≡ str_eq j.queue k
    unfolding running_on
    on_of_found k db j e = ground (arith, was j, find-holds job_id p (λ _. true) i only db.jobs j e)

    pub release-IsCounted :
        (db : Db) (j : Job)
        → find p db.jobs ≡ some j
        → IsCounted db
        → IsCounted (release j (with_jobs db (update p f db.jobs)))
    unfolding release release_group release_queue
    release-IsCounted db j e v =
        let db' = with_jobs db (update p f db.jobs) in
        record {
          groups = λ k. rw (counter-release_group j.group_key db' k) (
              released (is_text j.group_key k) (group_counter k db) (count (running_in k) db'.jobs)
                (rw (← in_of_found k db j e, v.groups k)
                  (count-update-found (running_in k) db.next_job db.jobs j e (ends_in k)
                    v.serial)));
          queues = λ k. rw (counter-release_queue j.queue db' k) (
              released_row (str_eq j.queue k) (queue_counter k db) (count (running_on k) db'.jobs)
                (count (running_on k) db.jobs)
                (rw (← on_of_found k db j e)
                  (count-update-found (running_on k) db.next_job db.jobs j e (ends_on k) v.serial))
                (v.queues k));
          serial = Below-update job_id p f same db.next_job db.jobs v.serial;
        }

    pub unfound-IsCounted :
        (db : Db)
        → find p db.jobs ≡ none
        → IsCounted db
        → IsCounted (with_jobs db (update p f db.jobs))
    unfound-IsCounted db e v = record {
      groups = λ k.
          rw (count-update-unfound (running_in k) db.next_job db.jobs e (ends_in k) v.serial)
            (v.groups k);
      queues = λ k.
          rw (count-update-unfound (running_on k) db.next_job db.jobs e (ends_on k) v.serial)
            (v.queues k);
      serial = Below-update job_id p f same db.next_job db.jobs v.serial;
    }
