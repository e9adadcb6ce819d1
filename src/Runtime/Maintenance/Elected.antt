-- ===== src/Runtime/Maintenance/Elected.antt =====
-- Which processes take themselves for the leader: the flags of leader_loop
-- (crates/eddyq-core/src/runtime.rs) against the lease.
use eddyq.Prelude.{
  ℕ, ◌+◌, ◌*◌, ◌≤◌, ◌≡◌, refl, sym, ap, ◌∙◌, arith, Bool, true, false, ◌&&◌, not, Option, none,
  some, ◌==◌, Bool-cases, inl, inr, if◌then◌else◌,
}
use eddyq.Store.{Db, Env}
use eddyq.Fetch.Retention.{Retention}
use eddyq.Leader.{try_elect, resign, maintenance_role}
use eddyq.Leader.Refinement.{slot}
use eddyq.Leader.Exclusive.{
  Terms, set_term, term_won, History, History-HoldsSlot, History-one_leader,
}
use eddyq.Runtime.Maintenance.{
  Process, booted, leads, refresh_interval, Wake, asks, try_elect_once, leader_wake, sweeper_wake,
  scheduler_wake, cleanup_wake,
}
use eddyq.Runtime.Maintenance.Lease.{
  sweeper_wake-leases, scheduler_wake-leases, cleanup_wake-leases,
}

abbrev pub set_at {ℓ} : {A : Type ℓ} → ℕ → A → (ℕ → A) → ℕ → A
set_at worker a f v = if v == worker then a else f v

-- When each process was last answered.
abbrev pub answered : ℕ → ℕ → Bool → Wake → Process → (ℕ → ℕ) → ℕ → ℕ
answered now worker answers wake p at = if asks wake p && answers then set_at worker now at else at

-- The wakes of the loops of any processes, in the order of time, between transactions that leave
-- the lease's slot.
pub data Fleet (lease_secs : ℕ) : ℕ → Db → (ℕ → Process) → (ℕ → ℕ) → Type 0 where
  boots : (now : ℕ) (db : Db) → Fleet lease_secs now db (λ w. booted) (λ w. now)
  wakes :
      {t : ℕ} {db : Db} {ps : ℕ → Process} {at : ℕ → ℕ} (now worker : ℕ) (answers : Bool)
      (wake : Wake)
      → Fleet lease_secs t db ps at
      → t ≤ now
      → Fleet lease_secs now
          (leader_wake now lease_secs answers worker wake (ps worker) db).1
          (set_at worker (leader_wake now lease_secs answers worker wake (ps worker) db).0 ps)
          (answered now worker answers wake (ps worker) at)
  sweeps :
      {t : ℕ} {db : Db} {ps : ℕ → Process} {at : ℕ → ℕ} (env : Env) (worker stale_secs : ℕ)
      (last : Option ℕ)
      → Fleet lease_secs t db ps at
      → t ≤ env.now
      → Fleet lease_secs env.now (sweeper_wake env stale_secs (ps worker) last db).1 ps at
  ticks :
      {t : ℕ} {db : Db} {ps : ℕ → Process} {at : ℕ → ℕ} (env : Env) (worker : ℕ) (locked : Bool)
      → Fleet lease_secs t db ps at
      → t ≤ env.now
      → Fleet lease_secs env.now (scheduler_wake env locked (ps worker) db) ps at
  cleans :
      {t : ℕ} {db : Db} {ps : ℕ → Process} {at : ℕ → ℕ} (now worker : ℕ) (r : Retention)
      → Fleet lease_secs t db ps at
      → t ≤ now
      → Fleet lease_secs now (cleanup_wake now r (ps worker) db) ps at
  others :
      {t : ℕ} {a : Db} {ps : ℕ → Process} {at : ℕ → ℕ} (now : ℕ) (b : Db)
      → Fleet lease_secs t a ps at
      → t ≤ now
      → slot maintenance_role b ≡ slot maintenance_role a
      → Fleet lease_secs now b ps at

slot-leases : (a b : Db) → a.leases ≡ b.leases → slot maintenance_role a ≡ slot maintenance_role b
slot-leases a b e = ap (λ ls. slot maintenance_role (record a { leases = ls })) e

-- The terms that the flags stand for.
record Backed (secs now : ℕ) (db : Db) (ps : ℕ → Process) (at : ℕ → ℕ) : Type 0 where
  terms : Terms
  history : History maintenance_role now db terms
  flags : (v : ℕ) → leads (ps v) ≡ true → terms v ≡ some (at v + secs * 1000)

elected :
    (secs t now worker : ℕ) (db : Db) (ps : ℕ → Process) (at : ℕ → ℕ)
    → t ≤ now
    → Backed secs t db ps at
    → Backed secs now
        (try_elect_once now secs true worker (ps worker) db).1
        (set_at worker (try_elect_once now secs true worker (ps worker) db).0 ps)
        (set_at worker now at)
unfolding try_elect_once
elected secs t now worker db ps at le b = record {
  terms =
      set_term worker
        (term_won (try_elect now worker maintenance_role secs db).0 (now + secs * 1000)) b.terms;
  history = History.elects now worker secs b.history le;
  flags = λ v. elim (Bool-cases (v == worker)) [
    | inl e ↦ rw e (won_flag (try_elect now worker maintenance_role secs db).0)
    | inr e ↦ rw e (b.flags v)
  ];
}
  where
    won_flag :
        (won : Bool)
        → (not (ps worker).is_shutdown && won) ≡ true
        → term_won won (now + secs * 1000) ≡ some (now + secs * 1000)
    won_flag true h = refl
    won_flag false h = absurd (ground arith)

waited :
    (secs t now : ℕ) (d : Db) (db : Db) (ps : ℕ → Process) (at : ℕ → ℕ)
    → t ≤ now
    → slot maintenance_role d ≡ slot maintenance_role db
    → Backed secs t db ps at
    → Backed secs now d ps at
waited secs t now d db ps at le e b = record {
  terms = b.terms;
  history = History.others now d b.history le e;
  flags = b.flags;
}

-- A process that keeps its flag, or stops, between two elections.
same_flag :
    (secs t now worker : ℕ) (p : Process) (d db : Db) (ps : ℕ → Process) (at : ℕ → ℕ)
    → t ≤ now
    → slot maintenance_role d ≡ slot maintenance_role db
    → (leads p ≡ true → leads (ps worker) ≡ true)
    → Backed secs t db ps at
    → Backed secs now d (set_at worker p ps) at
same_flag secs t now worker p d db ps at le e k b = record {
  terms = b.terms;
  history = History.others now d b.history le e;
  flags = λ v. elim (Bool-cases (v == worker)) [
    | inl f ↦
        let same : worker ≡ v = ground arith in
        rw f (λ h. b.flags v (ap (λ w. leads (ps w)) (sym same) ∙ k h))
    | inr f ↦ rw f (b.flags v)
  ];
}

resigned :
    (secs t now worker : ℕ) (db : Db) (ps : ℕ → Process) (at : ℕ → ℕ)
    → t ≤ now
    → Backed secs t db ps at
    → Backed secs now
        (resign now worker maintenance_role db)
        (set_at worker (record (ps worker) { is_shutdown = true }) ps)
        at
resigned secs t now worker db ps at le b = record {
  terms = set_term worker none b.terms;
  history = History.resigns now worker b.history le;
  flags =
      λ v. elim (Bool-cases (v == worker)) [ inl f ↦ rw f (λ h. cc) | inr f ↦ rw f (b.flags v) ];
}

woken :
    (secs t now worker : ℕ) (answers : Bool) (wake : Wake) (db : Db) (ps : ℕ → Process) (at : ℕ → ℕ)
    → t ≤ now
    → Backed secs t db ps at
    → Backed secs now
        (leader_wake now secs answers worker wake (ps worker) db).1
        (set_at worker (leader_wake now secs answers worker wake (ps worker) db).0 ps)
        (answered now worker answers wake (ps worker) at)
unfolding leader_wake try_elect_once
woken secs t now worker true Wake.interval db ps at le b = elected secs t now worker db ps at le b
woken secs t now worker false Wake.interval db ps at le b =
    same_flag secs t now worker (ps worker) db db ps at le refl (λ h. h) b
woken secs t now worker answers Wake.peer_resigned db ps at le b = go (ps worker).is_leader answers
  where
    still : Backed secs now db (set_at worker (ps worker) ps) at
    still = same_flag secs t now worker (ps worker) db db ps at le refl (λ h. h) b

    go :
        (flag replies : Bool)
        → Backed secs now
            (if flag
              then (ps worker, db)
              else try_elect_once now secs replies worker (ps worker) db).1
            (set_at worker
              (if flag
                then (ps worker, db)
                else try_elect_once now secs replies worker (ps worker) db).0
              ps)
            (if not flag && replies then set_at worker now at else at)
    go true replies = still
    go false false = still
    go false true = elected secs t now worker db ps at le b
woken secs t now worker answers Wake.shutdown db ps at le b =
    elim (Bool-cases ((ps worker).is_leader && answers)) [
      | inl f ↦ rw f (resigned secs t now worker db ps at le b)
      | inr f ↦ rw f (
          same_flag secs t now worker (record (ps worker) { is_shutdown = true }) db db ps at le
            refl (λ h. cc) b)
    ]

Fleet-Backed :
    {secs now : ℕ} {db : Db} {ps : ℕ → Process} {at : ℕ → ℕ}
    → Fleet secs now db ps at
    → Backed secs now db ps at
Fleet-Backed (Fleet.boots now db) = record {
  terms = λ w. none;
  history = History.boots now db;
  flags = λ v h. cc;
}
Fleet-Backed {secs = secs} (Fleet.wakes {t} {db} {ps} {at} now worker answers wake past le) =
    woken secs t now worker answers wake db ps at le (Fleet-Backed past)
Fleet-Backed {secs = secs} (Fleet.sweeps {t} {db} {ps} {at} env worker stale last past le) =
    let d = (sweeper_wake env stale (ps worker) last db).1 in
    waited secs t env.now d db ps at le
      (slot-leases d db (sweeper_wake-leases env stale (ps worker) last db)) (Fleet-Backed past)
Fleet-Backed {secs = secs} (Fleet.ticks {t} {db} {ps} {at} env worker locked past le) =
    let d = scheduler_wake env locked (ps worker) db in
    waited secs t env.now d db ps at le
      (slot-leases d db (scheduler_wake-leases env locked (ps worker) db)) (Fleet-Backed past)
Fleet-Backed {secs = secs} (Fleet.cleans {t} {db} {ps} {at} now worker r past le) =
    let d = cleanup_wake now r (ps worker) db in
    waited secs t now d db ps at le (slot-leases d db (cleanup_wake-leases now r (ps worker) db))
      (Fleet-Backed past)
Fleet-Backed {secs = secs} (Fleet.others {t} {a} {ps} {at} now b past le e) =
    waited secs t now b a ps at le e (Fleet-Backed past)

-- A process that leads, and whose lease has not lapsed, has the lease's slot.
pub Fleet-slot :
    {secs now : ℕ} {db : Db} {ps : ℕ → Process} {at : ℕ → ℕ}
    → Fleet secs now db ps at
    → (v : ℕ) → leads (ps v) ≡ true
    → now ≤ at v + secs * 1000
    → slot maintenance_role db ≡ some (v, at v + secs * 1000)
Fleet-slot {secs} {at = at} h v e in_time =
    let b = Fleet-Backed h in
    History-HoldsSlot b.history v (at v + secs * 1000) (b.flags v e) in_time

-- From 5 s on, a lease outlasts the time between two refreshes.
refresh_interval-le :
    (lease_secs : ℕ) → 5 ≤ lease_secs → refresh_interval lease_secs ≤ lease_secs * 1000
unfolding refresh_interval
refresh_interval-le n h = omega arith

-- With leases of 5 seconds or more, if each process that leads was answered by an election no
-- longer than a refresh interval ago, then in every run of the leader loops at most one process's
-- loops may do maintenance.
pub Fleet-one_leader :
    {lease_secs now : ℕ} {db : Db} {ps : ℕ → Process} {at : ℕ → ℕ}
    → Fleet lease_secs now db ps at
    → 5 ≤ lease_secs
    → ((w : ℕ) → leads (ps w) ≡ true → now ≤ at w + refresh_interval lease_secs)
    → (v w : ℕ) → leads (ps v) ≡ true
    → leads (ps w) ≡ true
    → v ≡ w
Fleet-one_leader {lease_secs} {at = at} h big on_time v w e f =
    let b = Fleet-Backed h in
    let spans = refresh_interval-le lease_secs big in
    let v_time = on_time v e in
    let w_time = on_time w f in
    History-one_leader b.history v w (at v + lease_secs * 1000) (at w + lease_secs * 1000)
      (b.flags v e) (b.flags w f) (omega arith) (omega arith)
