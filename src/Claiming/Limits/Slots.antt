-- ===== src/Claiming/Limits/Slots.antt =====
-- The slots that phase 2 gives a group with a row: its cap, and the tokens of its refilled bucket.
use eddyq.Prelude.{
  ℕ, ◌-◌, ◌/◌, ◌≤◌, ◌<◌, ◌≡◌, refl, Bool, true, ◌&&◌, not, String, Option, none, some, List, [],
  ◌∷◌, ◌++◌, map, arith, str_eq, eq_iff, any, any_text, is_text, length, ◌==◌, if◌then◌else◌,
  Bool-cases, inl, inr,
}
use eddyq.Sql.{select, find, count}
use eddyq.Store.{Db, Group, Env, i32_max}
use eddyq.Fetch.Claim.{Poll, choose, open_queues}
use eddyq.Fetch.Claim.Lanes.{Accepted, Progress, fast_lane}
use eddyq.Group.{is_keyed}
use eddyq.Fetch.Claim.Budgets.{Budget, Held}
use eddyq.Fetch.Claim.Groups.{
  GroupState, GroupSlots, state_of, group_state, group_slots, conc_slots, refill, unrated,
  active_group_keys,
}
use eddyq.Claiming.Limits.Group.{slots_at, slow_lane-group, fast_lane-group}

abbrev slots_found : ℕ → Option Group → ℕ → ℕ
slots_found now none rest = rest
slots_found now (some g) rest = (group_state now g).slots

slots-rows :
    (now : ℕ) (sel : String → Bool) (k : String) (gs : List Group) (rest : GroupSlots)
    → slots_at k
        (map (λ (g : Group). (g.key, group_state now g)) (select (λ g. sel g.key) gs) ++ rest)
      ≡ (if sel k
          then slots_found now (find (is_keyed k) gs) (slots_at k rest)
          else slots_at k rest)
unfolding state_of select find
slots-rows now sel k [] rest = ground arith
slots-rows now sel k (g ∷ gs) rest = elim (Bool-cases (str_eq g.key k)) [
  | inl e ↦ rw ((eq_iff g.key k).0 e) (ground (arith, slots-rows now sel k gs rest, eq_iff k k))
  | inr e ↦ rw e (ground (arith, slots-rows now sel k gs rest))
]

-- A group with a row is not among the uncapped.
slots-unrowed :
    (k : String) (keys : List String) (gs : List Group) (st : GroupState)
    → any (is_keyed k) gs ≡ true
    → slots_at k (map (λ (n : String). (n, st)) (select (λ n. not (any (is_keyed n) gs)) keys)) ≡ 0
unfolding state_of select
slots-unrowed k [] gs st h = refl
slots-unrowed k (n ∷ ns) gs st h = elim (Bool-cases (str_eq n k)) [
  | inl e ↦ rw ((eq_iff n k).0 e) (ground (arith, slots-unrowed k ns gs st h))
  | inr e ↦ ground (arith, slots-unrowed k ns gs st h)
]

pub any_of_find :
    (k : String) (gs : List Group) (g : Group)
    → find (is_keyed k) gs ≡ some g
    → any (is_keyed k) gs ≡ true
unfolding find
any_of_find k [] g h = cc
any_of_find k (x ∷ xs) g h = ground (arith, any_of_find k xs g)

pub group_slots-le :
    (env : Env) (held : Held) (keys : List String) (gs : List Group) (k : String) (g : Group)
    → find (is_keyed k) gs ≡ some g
    → slots_at k (group_slots env held keys gs) ≤ (group_state env.now g).slots
unfolding group_slots
group_slots-le env held keys gs k g f =
    let sel = λ (n : String). any_text n keys && not (held.group_row n) in
    rw
      (
        slots-rows env.now sel k gs _,
        slots-unrowed k keys gs (unrated i32_max) (any_of_find k gs g f),
        f,
      )
      (elim (Bool-cases (sel k)) [ inl e ↦ rw e (omega arith) | inr e ↦ rw e (omega arith) ])

pub group_state-conc : (now : ℕ) (g : Group) → (group_state now g).slots ≤ conc_slots g
unfolding group_state
group_state-conc now g = ground arith

-- Each slot of a rate-limited group is a whole token of its bucket.
pub group_state-rate :
    (now : ℕ) (g : Group) (count period : ℕ)
    → g.rate_count ≡ some count
    → g.rate_period_ms ≡ some period
    → 0 < count
    → 0 < period
    → (group_state now g).slots ≤ refill now g.tokens count g.tokens_refilled_at period / period
unfolding group_state
group_state-rate now g count period c p hc hp = ground arith

none_accepted : (c : Accepted → Bool) → count c [] ≡ 0
unfolding count
none_accepted c = refl

-- A group with a row gives at most the slots of its row.
pub choose-group :
    (p : Poll) (tbl : Budget) (db : Db) (k : String) (g : Group)
    → find (is_keyed k) db.groups ≡ some g
    → count (λ (a : Accepted). is_text a.group_key k) (choose p tbl db).0.accepted
      ≤ (group_state p.env.now g).slots
unfolding choose
choose-group p tbl db k g f =
    let s : Progress = record { accepted = []; budget = tbl } in
    let s' = fast_lane p.env p.held p.kinds p.batch_size p.queues db.jobs s in
    let names = open_queues p s'.budget in
    let keys =
      (if p.batch_size - length s'.accepted == 0
        then []
        else active_group_keys p.env p.kinds names db.jobs) in
    let slots = group_slots p.env p.held keys db.groups in
    omega (
      arith,
      group_slots-le p.env p.held keys db.groups k g f,
      slow_lane-group k p.env p.held p.kinds p.batch_size names db.jobs p.order (s', slots),
      fast_lane-group k p.env p.held p.kinds p.batch_size p.queues db.jobs s,
      none_accepted (λ a. is_text a.group_key k),
    )
