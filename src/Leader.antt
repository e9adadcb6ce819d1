-- ===== src/Leader.antt =====
-- crates/eddyq-core/src/leader.rs: the election of the process that does the maintenance, by a row
-- of eddyq_leader with an expiry. Worker ids stand for UUIDs.
pub mod Exclusive
pub mod Refinement
use eddyq.Prelude.{
  ℕ, ◌+◌, ◌*◌, Bool, true, false, ◌||◌, String, Option, none, some, List, [], ◌∷◌, any, ltb, ◌==◌,
  str_eq, if◌then◌else◌, ◌&&◌,
}
use eddyq.Sql.{find, update}
use eddyq.Store.{Db, Lease}

abbrev pub maintenance_role : String
maintenance_role = "maintenance"

abbrev pub has_role : String → Lease → Bool
has_role role l = str_eq l.role role

-- EXCLUDED
abbrev pub new_lease : ℕ → ℕ → String → ℕ → Lease
new_lease now worker role lease_secs = record {
  role = role;
  worker_id = worker;
  expires_at = now + lease_secs * 1000;
  elected_at = now;
}

-- DO UPDATE SET …: each CASE reads the row as it was.
unfoldable pub contest : ℕ → Lease → Lease → Lease
contest now new l = record l {
  worker_id = if ltb l.expires_at now then new.worker_id else l.worker_id;
  expires_at =
      if ltb l.expires_at now
      then new.expires_at
      else if l.worker_id == new.worker_id
      then new.expires_at
      else l.expires_at;
  elected_at = if ltb l.expires_at now then new.elected_at else l.elected_at;
}

abbrev won : ℕ → Option Lease → Bool
won worker none = false
won worker (some l) = l.worker_id == worker

-- INSERT … ON CONFLICT (role) DO UPDATE
unfoldable pub put_lease : ℕ → Lease → List Lease → List Lease
unfolding contest
put_lease now new rows =
    if any (has_role new.role) rows
    then update (has_role new.role) (contest now new) rows
    else new ∷ rows

-- RETURNING worker_id: the caller has won if the row is its own.
unfoldable pub try_elect : ℕ → ℕ → String → ℕ → Db → Bool × Db
unfolding put_lease
try_elect now worker role lease_secs db =
    let rows = put_lease now (new_lease now worker role lease_secs) db.leases in
    (won worker (find (has_role role) rows), record db { leases = rows })

unfoldable pub resign : ℕ → ℕ → String → Db → Db
resign now worker role db = record db {
  leases =
      update (λ l. has_role role l && l.worker_id == worker) (λ l. record l { expires_at = now })
        db.leases;
}
