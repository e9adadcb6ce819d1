-- ===== src/Leader/Refinement.antt =====
-- The election and the resignation of crates/eddyq-core/src/leader.rs against a lease on one slot.
use eddyq.Prelude.{
  ℕ, ◌+◌, ◌*◌, ◌≡◌, refl, ap, arith, Bool, true, false, ◌&&◌, String, Option, none, some, List, [],
  ◌∷◌, ltb, ◌==◌, str_eq, Bool-cases, inl, inr, if◌then◌else◌, &&-left,
}
use eddyq.Sql.{find, update}
use eddyq.Sql.Upsert.{merged, find-upsert_at, find-upsert_other, find-update_other}
use eddyq.Store.{Db, Lease}
use eddyq.Leader.{has_role, new_lease, contest, put_lease, try_elect, resign}

-- Who holds the slot, and until when.
abbrev pub Slot : Type 0
Slot = Option (ℕ × ℕ)

-- A free or lapsed slot, and the caller's own, go to the caller; another's is left.
unfoldable pub claim_slot : ℕ → ℕ → ℕ → Slot → Bool × Slot
claim_slot now worker until none = (true, some (worker, until))
claim_slot now worker until (some (holder, ends)) =
    if ltb ends now
    then (true, some (worker, until))
    else if holder == worker
    then (true, some (worker, until))
    else (false, some (holder, ends))

unfoldable pub give_up_slot : ℕ → ℕ → Slot → Slot
give_up_slot now worker none = none
give_up_slot now worker (some (holder, ends)) =
    if holder == worker then some (holder, now) else some (holder, ends)

abbrev pub slot_of : Option Lease → Slot
slot_of none = none
slot_of (some l) = some (l.worker_id, l.expires_at)

-- The slot that a role's row stands for.
abbrev pub slot : String → Db → Slot
slot role db = slot_of (find (has_role role) db.leases)

abbrev pub lease_role : Lease → String
lease_role l = l.role

abbrev won_by : ℕ → Option Lease → Bool
won_by worker none = false
won_by worker (some l) = l.worker_id == worker

self : (w : ℕ) → (w == w) ≡ true
self w = ground arith

contest-claims :
    (now worker secs : ℕ) (role : String) (o : Option Lease)
    → (
      won_by worker (
          some (
            merged
              (contest now (new_lease now worker role secs))
              (new_lease now worker role secs)
              o)),
      slot_of (
          some (
            merged
              (contest now (new_lease now worker role secs))
              (new_lease now worker role secs)
              o)),
    )
      ≡ claim_slot now worker (now + secs * 1000) (slot_of o)
unfolding contest claim_slot
contest-claims now worker secs role none = rw (self worker) refl
contest-claims now worker secs role (some l) = elim (Bool-cases (ltb l.expires_at now)) [
  | inl e ↦ rw (e, self worker) refl
  | inr e ↦ elim (Bool-cases (l.worker_id == worker)) [
    | inl f ↦
        let same : l.worker_id ≡ worker = ground arith in
        rw (e, f) (λ i. (true, some (same i, now + secs * 1000)))
    | inr f ↦ rw (e, f) refl
  ]
]

-- An election claims the slot of its role: it reports and leaves what `claim_slot` does, with a
-- lease of the given seconds from now.
pub try_elect-claim_slot :
    (now worker secs : ℕ) (role : String) (db : Db)
    → ((try_elect now worker role secs db).0, slot role (try_elect now worker role secs db).1)
      ≡ claim_slot now worker (now + secs * 1000) (slot role db)
unfolding try_elect put_lease
try_elect-claim_slot now worker secs role db =
    let new = new_lease now worker role secs in
    rw (find-upsert_at lease_role (contest now new) (λ l. refl) new db.leases)
      (contest-claims now worker secs role (find (has_role role) db.leases))

resign_rows :
    (now worker : ℕ) (role : String) (rows : List Lease)
    → slot_of (
        find (has_role role) (
          update
            (λ l. has_role role l && l.worker_id == worker)
            (λ l. record l { expires_at = now })
            rows))
      ≡ give_up_slot now worker (slot_of (find (has_role role) rows))
unfolding find update give_up_slot
resign_rows now worker role [] = refl
resign_rows now worker role (l ∷ rows) = elim (Bool-cases (str_eq l.role role)) [
  | inl e ↦ elim (Bool-cases (l.worker_id == worker)) [
    | inl f ↦ rw (e, f, e) refl
    | inr f ↦ rw (e, f, e) refl
  ]
  | inr e ↦ rw (e, e) (resign_rows now worker role rows)
]

-- A resignation ends the caller's own lease now, and leaves another's.
pub resign-give_up_slot :
    (now worker : ℕ) (role : String) (db : Db)
    → slot role (resign now worker role db) ≡ give_up_slot now worker (slot role db)
unfolding resign
resign-give_up_slot now worker role db = resign_rows now worker role db.leases

-- Elections and resignations of one role leave the slots of the others.
pub try_elect-other :
    (now worker secs : ℕ) (role other : String) (db : Db)
    → str_eq role other ≡ false
    → slot other (try_elect now worker role secs db).1 ≡ slot other db
unfolding try_elect put_lease
try_elect-other now worker secs role other db h =
    let new = new_lease now worker role secs in
    ap slot_of (find-upsert_other lease_role (contest now new) (λ l. refl) new other db.leases h)

pub resign-other :
    (now worker : ℕ) (role other : String) (db : Db)
    → str_eq role other ≡ false
    → slot other (resign now worker role db) ≡ slot other db
unfolding resign
resign-other now worker role other db h = ap slot_of (
    find-update_other lease_role (λ l. record l { expires_at = now }) (λ l. refl) _ role other
      (λ l q. &&-left (has_role role l) (l.worker_id == worker) q) h db.leases)
