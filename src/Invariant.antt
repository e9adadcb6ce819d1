-- ===== src/Invariant.antt =====
-- What holds of the database between transactions: a group's and a queue's `running_count` is the
-- number of its jobs that run, and ids come from the sequence.
pub mod Slots
pub mod Insertion
pub mod Settling
pub mod Runs
pub mod Recovery
pub mod Raised
pub mod Tables
pub mod Deletion
pub mod Repair
pub mod Batches
pub mod Scheduled
use eddyq.Prelude.{ℕ, Bool, true, false, if◌then◌else◌, String, ◌≡◌, Option, none, some}
use mathlib.Core.Path.{subst}
use eddyq.Sql.{count}
use eddyq.Sql.Keyed.{counter, or_zero}
use eddyq.Store.{Db, Job, Group, NamedQueue, Result, ok, err, ◌>>=◌}
use eddyq.Store.Serial.{Below}
use eddyq.NamedQueue.{running_on}
use eddyq.Fetch.Sweep.{running_in}

-- The counter of a group, or none without a row.
abbrev pub group_counter : String → Db → Option ℕ
group_counter k db = counter (λ (g : Group). g.key) (λ g. g.running_count) k db.groups

abbrev pub queue_counter : String → Db → Option ℕ
queue_counter k db = counter (λ (q : NamedQueue). q.name) (λ q. q.running_count) k db.queues

-- A row, if there is one, counts `n`.
abbrev pub Agrees : Option ℕ → ℕ → Type 0
Agrees none n = Unit
Agrees (some m) n = m ≡ n

abbrev pub job_id : Job → ℕ
job_id j = j.id

-- A group without a row has no job that runs; a queue without a row is not counted.
pub record IsCounted (db : Db) : Type 0 where
  pub groups : (k : String) → or_zero (group_counter k db) ≡ count (running_in k) db.jobs
  pub queues : (k : String) → Agrees (queue_counter k db) (count (running_on k) db.jobs)
  pub serial : Below job_id db.next_job db.jobs

-- What an operation that may fail leaves, if it succeeds, satisfies `P`.
abbrev pub OnOk {ℓ κ} : {A : Type ℓ} → (A → Type κ) → Result A → Type κ
OnOk P (ok a) = P a
OnOk P (err e) = Unit

pub OnOk-then {ℓ κ ι} :
    {A : Type ℓ} {B : Type κ} (Q : B → Type ι) (m : Result A) (f : A → Result B)
    → ((a : A) → OnOk Q (f a))
    → OnOk Q (m >>= f)
OnOk-then Q (ok a) f k = k a
OnOk-then Q (err e) f k = tt

pub OnOk-if {ℓ κ} :
    {A : Type ℓ} (P : A → Type κ) (b : Bool) (m n : Result A)
    → OnOk P m
    → OnOk P n
    → OnOk P (if b then m else n)
OnOk-if P true m n h k = h
OnOk-if P false m n h k = k

pub OnOk-bind {ℓ κ ι} :
    {A : Type ℓ} {B : Type κ} (P : A → Type ι) (Q : B → Type ι) (m : Result A) (f : A → Result B)
    → OnOk P m
    → ((a : A) → P a → OnOk Q (f a))
    → OnOk Q (m >>= f)
OnOk-bind P Q (ok a) f h k = k a h
OnOk-bind P Q (err e) f h k = tt

pub OnOk-weaken {ℓ κ ι} :
    {A : Type ℓ} (P : A → Type κ) (Q : A → Type ι) (m : Result A)
    → ((a : A) → P a → Q a)
    → OnOk P m
    → OnOk Q m
OnOk-weaken P Q (ok a) f h = f a h
OnOk-weaken P Q (err e) f h = tt

-- The success of an operation, as an equation.
pub OnOk-apply {ℓ κ} :
    {A : Type ℓ} (P : A → Type κ) (m : Result A) {a : A} → OnOk P m → m ≡ ok a → P a
OnOk-apply P m h e = subst (OnOk P) e h
