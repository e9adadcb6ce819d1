-- ===== src/Leader/Exclusive.antt =====
-- Histories of elections and resignations by any processes: crates/eddyq-core/src/leader.rs.
use eddyq.Prelude.{
  ℕ, ◌+◌, ◌*◌, ◌≤◌, ◌<◌, ◌≡◌, refl, sym, ap, ◌∙◌, subst, arith, Bool, true, false, String, Option,
  none, some, ltb, ◌==◌, Bool-cases, inl, inr, if◌then◌else◌,
}
use mathlib.Core.Option.{some-injective}
use eddyq.Store.{Db}
use eddyq.Leader.{try_elect, resign}
use eddyq.Leader.Refinement.{
  slot, Slot, claim_slot, give_up_slot, try_elect-claim_slot, resign-give_up_slot,
}

-- Until when each process takes itself for the leader: from its last election, if it has won that
-- one and has not resigned since.
abbrev pub Terms : Type 0
Terms = ℕ → Option ℕ

abbrev pub set_term : ℕ → Option ℕ → Terms → Terms
set_term worker term terms v = if v == worker then term else terms v

abbrev pub term_won : Bool → ℕ → Option ℕ
term_won true until = some until
term_won false until = none

-- The database and the terms at a time, in the order of the transactions. A transaction of another
-- kind, or on another role, leaves the role's slot.
pub data History (role : String) : ℕ → Db → Terms → Type 0 where
  boots : (now : ℕ) (db : Db) → History role now db (λ w. none)
  elects :
      {t : ℕ} {db : Db} {terms : Terms} (now worker secs : ℕ)
      → History role t db terms
      → t ≤ now
      → History role now (try_elect now worker role secs db).1 (
          set_term worker
            (term_won (try_elect now worker role secs db).0 (now + secs * 1000))
            terms)
  resigns :
      {t : ℕ} {db : Db} {terms : Terms} (now worker : ℕ)
      → History role t db terms
      → t ≤ now
      → History role now (resign now worker role db) (set_term worker none terms)
  others :
      {t : ℕ} {a : Db} {terms : Terms} (now : ℕ) (b : Db)
      → History role t a terms
      → t ≤ now
      → slot role b ≡ slot role a
      → History role now b terms

-- A process whose term runs holds the slot until its end.
abbrev pub HoldsSlot : ℕ → Slot → Terms → Type 0
HoldsSlot now s terms = (v u : ℕ) → terms v ≡ some u → now ≤ u → s ≡ some (v, u)

-- The caller has won: its own term is the slot's, and nobody else's term runs.
won-HoldsSlot :
    (t now worker until : ℕ) (s : Slot) (terms : Terms)
    → ((v u : ℕ) → s ≡ some (v, u) → t ≤ u → now ≤ u → v ≡ worker)
    → t ≤ now
    → HoldsSlot t s terms
    → HoldsSlot now (some (worker, until)) (set_term worker (some until) terms)
won-HoldsSlot t now worker until s terms own le h v u e k = elim (Bool-cases (v == worker)) [
  | inl f ↦
      let same : v ≡ worker = ground arith in
      let ends : some until ≡ some u = rw f at e in
      ap (λ n. some (worker, n)) (some-injective until u ends) ∙ ap (λ n. some (n, u)) (sym same)
  | inr f ↦
      let old : terms v ≡ some u = rw f at e in
      let same : v ≡ worker = own v u (h v u old (omega arith)) (omega arith) k in
      absurd (ground (arith, same))
]

lost-HoldsSlot :
    (t now worker : ℕ) (s : Slot) (terms : Terms)
    → t ≤ now
    → HoldsSlot t s terms
    → HoldsSlot now s (set_term worker none terms)
lost-HoldsSlot t now worker s terms le h v u e k = elim (Bool-cases (v == worker)) [
  | inl f ↦ absurd (let q : none ≡ some u = rw f at e in cc)
  | inr f ↦ h v u (rw f at e) (omega arith)
]

claim_slot-HoldsSlot :
    (t now worker until : ℕ) (s : Slot) (terms : Terms)
    → t ≤ now
    → HoldsSlot t s terms
    → HoldsSlot now
        (claim_slot now worker until s).1
        (set_term worker (term_won (claim_slot now worker until s).0 until) terms)
unfolding claim_slot
claim_slot-HoldsSlot t now worker until none terms le h =
    won-HoldsSlot t now worker until none terms
      (λ v u e _ _. absurd (let q : none ≡ some (v, u) = e in cc)) le h
claim_slot-HoldsSlot t now worker until (some (holder, ends)) terms le h =
    elim (Bool-cases (ltb ends now)) [
      | inl e ↦ rw e (
          won-HoldsSlot t now worker until (some (holder, ends)) terms
            (λ v u q _ k.
              let late : ends ≡ u = ap (λ p. p.1) (some-injective (holder, ends) (v, u) q) in
              absurd (ground (arith, late)))
            le h)
      | inr e ↦ elim (Bool-cases (holder == worker)) [
        | inl f ↦
            rw (e, f)
              (won-HoldsSlot t now worker until (some (holder, ends)) terms
                (λ v u q _ _.
                  let same : holder ≡ v = ap (λ p. p.0) (some-injective (holder, ends) (v, u) q) in
                  ground (arith, same))
                le h)
        | inr f ↦ rw (e, f) (lost-HoldsSlot t now worker (some (holder, ends)) terms le h)
      ]
    ]

give_up_slot-HoldsSlot :
    (t now worker : ℕ) (s : Slot) (terms : Terms)
    → t ≤ now
    → HoldsSlot t s terms
    → HoldsSlot now (give_up_slot now worker s) (set_term worker none terms)
unfolding give_up_slot
give_up_slot-HoldsSlot t now worker s terms le h v u e k = elim (Bool-cases (v == worker)) [
  | inl f ↦ absurd (let q : none ≡ some u = rw f at e in cc)
  | inr f ↦ let mine : s ≡ some (v, u) = h v u (rw f at e) (omega arith) in rw (mine, f) refl
]

pub History-HoldsSlot :
    {role : String} {now : ℕ} {db : Db} {terms : Terms}
    → History role now db terms
    → HoldsSlot now (slot role db) terms
History-HoldsSlot (History.boots now db) = λ v u e k. absurd (let q : none ≡ some u = e in cc)
History-HoldsSlot {role = role} (History.elects {t} {db} {terms} now worker secs past le) =
    subst
      (λ (r : Bool × Slot).
        HoldsSlot now r.1 (set_term worker (term_won r.0 (now + secs * 1000)) terms))
      (sym (try_elect-claim_slot now worker secs role db))
      (claim_slot-HoldsSlot t now worker (now + secs * 1000) (slot role db) terms le
        (History-HoldsSlot past))
History-HoldsSlot {role = role} (History.resigns {t} {db} {terms} now worker past le) =
    subst (λ s. HoldsSlot now s (set_term worker none terms))
      (sym (resign-give_up_slot now worker role db))
      (give_up_slot-HoldsSlot t now worker (slot role db) terms le (History-HoldsSlot past))
History-HoldsSlot {role = role} (History.others {t} {a} {terms} now b past le e) =
    λ v u k l. e ∙ History-HoldsSlot past v u k (omega arith)

-- In every history of elections and resignations by any processes, in the order of their
-- transactions' times, two processes whose terms both run are one: a role has at most one leader.
pub History-one_leader :
    {role : String} {now : ℕ} {db : Db} {terms : Terms}
    → History role now db terms
    → (v w x y : ℕ) → terms v ≡ some x
    → terms w ≡ some y
    → now ≤ x
    → now ≤ y
    → v ≡ w
History-one_leader h v w x y e f k l =
    ap (λ p. p.0)
      (some-injective (v, x) (w, y)
        (sym (History-HoldsSlot h v x e k) ∙ History-HoldsSlot h w y f l))

lapsed_slot :
    (now worker until : ℕ) (s : Slot)
    → ((holder ends : ℕ) → s ≡ some (holder, ends) → ends < now)
    → (claim_slot now worker until s).0 ≡ true
unfolding claim_slot
lapsed_slot now worker until none k = refl
lapsed_slot now worker until (some (holder, ends)) k =
    let late : ends < now = k holder ends refl in ground arith

-- A role without a lease, or whose lease has lapsed, goes to the process that asks.
pub try_elect-lapsed :
    (now worker secs : ℕ) (role : String) (db : Db)
    → ((holder ends : ℕ) → slot role db ≡ some (holder, ends) → ends < now)
    → (try_elect now worker role secs db).0 ≡ true
try_elect-lapsed now worker secs role db h =
    ap (λ (r : Bool × Slot). r.0) (try_elect-claim_slot now worker secs role db)
    ∙ lapsed_slot now worker (now + secs * 1000) (slot role db) h

-- The resignation of a slot's holder ends its lease at that time.
pub resign-slot :
    (t holder ends : ℕ) (role : String) (db : Db)
    → slot role db ≡ some (holder, ends)
    → slot role (resign t holder role db) ≡ some (holder, t)
unfolding give_up_slot
resign-slot t holder ends role db e =
    let self : (holder == holder) ≡ true = ground arith in
    resign-give_up_slot t holder role db ∙ rw (e, self) refl
