-- ===== src/Examples/Plans.antt =====
-- The theorems on schedules and on leadership, at small tables.
use mathlib.Core.Option.{some-injective}
use eddyq.Prelude.{
  ◌≤◌, ◌==◌, ℕ, ◌+◌, ◌*◌, ◌≡◌, refl, ap, ◌∙◌, arith, true, false, String, none, some, [], ◌∷◌, map,
  pos, any, str_eq, Bool-cases, inl, inr, ◌⊎◌,
}
use eddyq.Sql.{select, update, count, find}
use eddyq.Store.{Db, Schedule, ok, err, cron as cron_error}
use eddyq.NamedQueue.{validate_queue_name, all_name_chars, is_name_char}
use eddyq.Enqueue.{insert_rows}
use eddyq.Schedule.{
  ScheduleDeclaration, cron_row, is_called, upsert_schedule_raw, sync_schedules, prepare,
}
use eddyq.Schedule.Tick.{tick, is_due, fired}
use eddyq.Schedule.Table.{IsScheduled}
use eddyq.Schedule.Once.{FiresLater, tick-once}
use eddyq.Schedule.Bulk.{SameJobs, tick-bulk}
use eddyq.Schedule.Blocked.{exhausted_due, tick-decides}
use eddyq.Schedule.History.{Change, Changed, Changed-IsScheduled}
use eddyq.Schedule.Lookup.{IsDeclared, Keeps, upsert_schedule-find}
use eddyq.Schedule.Sync.{upsert_schedule-again, sync_schedules-names}
use eddyq.Leader.{try_elect, maintenance_role}
use eddyq.Leader.Refinement.{slot, claim_slot, try_elect-claim_slot}
use eddyq.Runtime.Maintenance.{booted, leads, refresh_interval, Wake, leader_wake}
use eddyq.Runtime.Maintenance.Handover.{Fleet-hand_over}
use eddyq.Runtime.Maintenance.Elected.{set_at, Fleet, Fleet-one_leader}
use eddyq.Examples.Data.{env0, db0, left, left_by}

abbrev nightly : ScheduleDeclaration
nightly = record {
  name = "nightly";
  cron_expr = "daily";
  kind = "mail";
  payload = "{}";
  priority = pos 0;
  max_attempts = 3;
  queue = "default";
}

-- A schedule that is due.
abbrev db_due : Db
db_due = record db0 { schedules = cron_row nightly 500000 ∷ [] }

-- A second one, whose expression no longer fires.
abbrev db_spent : Db
db_spent = record db0 {
  schedules =
      record (cron_row nightly 500000) { name = "once"; cron_expr = some "past" }
      ∷ cron_row nightly 500000
      ∷ [];
}

fires_later : FiresLater env0
fires_later expr upcoming t next e f = elim (Bool-cases (str_eq expr "daily")) [
  | inl d ↦
      let found : some (λ s. some (s + 86400000)) ≡ some upcoming = rw d at e in
      let fires : some (t + 86400000) ≡ some next =
        ap (λ g. g t) (some-injective (λ s. some (s + 86400000)) upcoming found) ∙ f in
      omega (arith, some-injective (t + 86400000) next fires)
  | inr d ↦ absurd (let q : none ≡ some upcoming = rw d at e in cc)
]

scheduled : IsScheduled db_due.schedules
unfolding count
scheduled = record { names = λ k. ground arith; triggers = (refl, tt) }

tick-once_example :
    tick env0 true (left_by (tick env0 true db_due)) ≡ ok (0, left_by (tick env0 true db_due))
unfolding tick select
tick-once_example =
    tick-once env0 db_due (left_by (tick env0 true db_due)) 1 fires_later scheduled refl

tick-bulk_example :
    (1 ≡ count (is_due 1000000) db_due.schedules)
    × (b : Db) × (insert_rows 1000000 (map fired (select (is_due 1000000) db_due.schedules)) db_due
        ≡ ok (1, b))
    × SameJobs (left_by (tick env0 true db_due)) b
unfolding tick select
tick-bulk_example = tick-bulk env0 db_due (left_by (tick env0 true db_due)) 1 refl

tick-decides_example :
    ((any (exhausted_due env0) db_spent.schedules ≡ true)
      × (tick env0 true db_spent ≡ err cron_error))
    ⊎ ((any (exhausted_due env0) db_spent.schedules ≡ false)
        × (r : ℕ × Db) × (tick env0 true db_spent ≡ ok r))
tick-decides_example = tick-decides env0 db_spent

Changed-IsScheduled_example :
    IsScheduled (left_by (tick env0 true (left (upsert_schedule_raw env0 nightly db0)))).schedules
unfolding upsert_schedule_raw tick validate_queue_name all_name_chars is_name_char select
Changed-IsScheduled_example = Changed-IsScheduled (
    Changed.step
      (Changed.step (Changed.start db0 refl)
        (Change.upserts env0 nightly (left (upsert_schedule_raw env0 nightly db0)) refl))
      (Change.ticks env0 true 0
        (left_by (tick env0 true (left (upsert_schedule_raw env0 nightly db0)))) refl))

upsert_schedule-find_example :
    (next : ℕ) × (prepare env0 nightly ≡ ok next)
    × ((r : Schedule) × (find
            (is_called "nightly")
            (left (upsert_schedule_raw env0 nightly db_due)).schedules
          ≡ some r)
        × IsDeclared nightly r
        × Keeps nightly next (find (is_called "nightly") db_due.schedules) r)
    × ((k : String)
        → str_eq "nightly" k ≡ false
        → find (is_called k) (left (upsert_schedule_raw env0 nightly db_due)).schedules
          ≡ find (is_called k) db_due.schedules)
unfolding upsert_schedule_raw validate_queue_name all_name_chars is_name_char
upsert_schedule-find_example =
    upsert_schedule-find env0 nightly db_due (left (upsert_schedule_raw env0 nightly db_due)) refl

upsert_schedule-again_example :
    upsert_schedule_raw
      (record env0 { now = 2000000 })
      nightly
      (left (upsert_schedule_raw env0 nightly db_due))
    ≡ ok (left (upsert_schedule_raw env0 nightly db_due))
unfolding upsert_schedule_raw prepare validate_queue_name all_name_chars is_name_char
upsert_schedule-again_example =
    upsert_schedule-again env0 (record env0 { now = 2000000 }) nightly db_due
      (left (upsert_schedule_raw env0 nightly db_due)) 88400000 refl refl

sync_schedules-names_example :
    any (is_called "once") (left_by (sync_schedules env0 (nightly ∷ []) db_spent)).schedules ≡ false
unfolding sync_schedules validate_queue_name all_name_chars is_name_char select update
sync_schedules-names_example =
    sync_schedules-names env0 (nightly ∷ []) db_spent
      (left_by (sync_schedules env0 (nightly ∷ []) db_spent))
      (record { upserted = 1; deleted = "once" ∷ [] }) refl "once"

abbrev leader : ℕ
leader = 1

-- Process 1 leads, and process 2 asks in vain.
abbrev elections :
    Fleet 30 2000
      (try_elect 2000 2 maintenance_role 30 (try_elect 1000 1 maintenance_role 30 db0).1).1
      (set_at 2 booted (set_at 1 (record booted { is_leader = true }) (λ w. booted)))
      (set_at 2 2000 (set_at 1 1000 (λ w. 0)))
unfolding leader_wake try_elect find update
elections =
    Fleet.wakes 2000 2 true Wake.interval
      (Fleet.wakes 1000 1 true Wake.interval (Fleet.boots 0 db0) (omega arith)) (omega arith)

elections-timely :
    (w : ℕ)
    → leads (set_at 2 booted (set_at 1 (record booted { is_leader = true }) (λ w. booted)) w) ≡ true
    → 2000 ≤ set_at 2 2000 (set_at 1 1000 (λ w. 0)) w + refresh_interval 30
unfolding refresh_interval
elections-timely w h = elim (Bool-cases (w == 2)) [
  | inl e ↦ rw e (omega arith)
  | inr e ↦ elim (Bool-cases (w == 1)) [
    | inl f ↦ rw (e, f) (omega arith)
    | inr f ↦ absurd (let q : false ≡ true = rw (e, f) at h in cc)
  ]
]

Fleet-one_leader_example : leader ≡ 1
Fleet-one_leader_example = Fleet-one_leader elections (omega arith) elections-timely 1 1 refl refl

try_elect-claim_slot_example :
    (
      (try_elect 1000 1 maintenance_role 30 db0).0,
      slot maintenance_role (try_elect 1000 1 maintenance_role 30 db0).1,
    )
    ≡ claim_slot 1000 1 (1000 + 30 * 1000) (slot maintenance_role db0)
try_elect-claim_slot_example = try_elect-claim_slot 1000 1 30 maintenance_role db0

-- Process 1 shuts down at 2.5 s, a job is enqueued, and process 2 is woken at 3 s.
abbrev shut_down : Db
shut_down =
    (leader_wake 2500 30 true 1 Wake.shutdown (record booted { is_leader = true })
      (try_elect 2000 2 maintenance_role 30 (try_elect 1000 1 maintenance_role 30 db0).1).1).1

Fleet-hand_over_example :
    leads
      (leader_wake 3000 30 true 2 Wake.peer_resigned booted
        (record shut_down { jobs = db_due.jobs })).0
    ≡ true
Fleet-hand_over_example =
    Fleet-hand_over elections 1 2 2500 3000 booted (record shut_down { jobs = db_due.jobs }) refl
      (omega arith) refl refl refl (omega arith)
