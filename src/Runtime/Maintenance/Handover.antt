-- ===== src/Runtime/Maintenance/Handover.antt =====
-- The hand-over of the maintenance by a process that shuts down: the end of leader_loop and its
-- wake by a peer's resignation, in crates/eddyq-core/src/runtime.rs.
use mathlib.Core.Option.{some-injective}
use eddyq.Prelude.{ℕ, ◌+◌, ◌*◌, ◌≤◌, ◌<◌, ◌≡◌, sym, ap, subst, ◌∙◌, arith, true, false, some}
use eddyq.Store.{Db}
use eddyq.Leader.{maintenance_role, resign}
use eddyq.Leader.Refinement.{slot}
use eddyq.Leader.Exclusive.{try_elect-lapsed, resign-slot}
use eddyq.Runtime.Maintenance.{Process, leads, Wake, try_elect_once, leader_wake}
use eddyq.Runtime.Maintenance.Elected.{Fleet, Fleet-slot}

freed :
    (t v ends now holder until : ℕ) (d db : Db)
    → slot maintenance_role db ≡ some (v, ends)
    → slot maintenance_role d ≡ slot maintenance_role (resign t v maintenance_role db)
    → t < now
    → slot maintenance_role d ≡ some (holder, until)
    → until < now
freed t v ends now holder until d db held same lt e =
    let given : some (v, t) ≡ some (holder, until) =
      sym (resign-slot t v ends maintenance_role db held) ∙ sym same ∙ e in
    subst (λ u. u < now) (ap (λ (p : ℕ × ℕ). p.1) (some-injective (v, t) (holder, until) given)) lt

taken :
    (secs t later v w ends : ℕ) (p q : Process) (d db : Db)
    → slot maintenance_role db ≡ some (v, ends)
    → p.is_leader ≡ true
    → q.is_leader ≡ false
    → q.is_shutdown ≡ false
    → slot maintenance_role d
      ≡ slot maintenance_role (leader_wake t secs true v Wake.shutdown p db).1
    → t < later
    → leads (leader_wake later secs true w Wake.peer_resigned q d).0 ≡ true
unfolding leader_wake try_elect_once
taken secs t later v w ends p q d db held e f up same lt =
    rw (f, up)
      (try_elect-lapsed later w secs maintenance_role d
        (λ holder until k. freed t v ends later holder until d db held (rw e at same) lt k))

-- If a process that leads, and whose lease has not lapsed at the last transaction, shuts down and
-- its resignation is answered, then the first running process without the flag that is woken by it
-- at a later time, its election being answered, leads, with no wait for the lease to lapse; other
-- transactions between the two may do anything that leaves the lease.
pub Fleet-hand_over :
    {secs now : ℕ} {db : Db} {ps : ℕ → Process} {at : ℕ → ℕ}
    → Fleet secs now db ps at
    → (v w t later : ℕ) (q : Process) (d : Db) → leads (ps v) ≡ true
    → now ≤ at v + secs * 1000
    → q.is_leader ≡ false
    → q.is_shutdown ≡ false
    → slot maintenance_role d
      ≡ slot maintenance_role (leader_wake t secs true v Wake.shutdown (ps v) db).1
    → t < later
    → leads (leader_wake later secs true w Wake.peer_resigned q d).0 ≡ true
Fleet-hand_over {secs} {db = db} {ps} {at} h v w t later q d e in_time f up same lt =
    taken secs t later v w (at v + secs * 1000) (ps v) q d db (Fleet-slot h v e in_time)
      (ground arith) f up same lt
