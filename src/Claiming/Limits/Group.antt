-- ===== src/Claiming/Limits/Group.antt =====
-- The slots of a group through the phases of a claim.
use eddyq.Prelude.{
  ℕ, ap, ◌∙◌, ◌+◌, ◌-◌, ◌≤◌, ◌<◌, ◌≡◌, refl, Bool, true, false, String, Option, none, some, List,
  [], ◌∷◌, map, arith, str_eq, eq_iff, is_text, ◌==◌, if◌then◌else◌, Bool-cases, inl, inr,
}
use native.Mathlib.Nat.{le_trans}
use eddyq.Sql.{count}
use eddyq.Sql.Count.{count-append}
use eddyq.Store.{Job, Env}
use eddyq.Fetch.Claim.Budgets.{Held}
use eddyq.Fetch.Claim.Groups.{GroupState, GroupSlots, state_of, take_slots}
use eddyq.Fetch.Claim.Lanes.{
  Accepted, Progress, first_jobs, accept_fast, fast_room, fast_step, fast_lane, fits, accept_one,
  accept_slow, slow_room, slow_step, slow_visit, slow_lane, is_fast, is_slow,
}

abbrev pub in_g : String → Accepted → Bool
in_g k a = is_text a.group_key k

abbrev pub slots_or : Option GroupState → ℕ
slots_or none = 0
slots_or (some st) = st.slots

-- The slots of a group that phase 2 found and could lock.
abbrev pub slots_at : String → GroupSlots → ℕ
slots_at k gs = slots_or (state_of k gs)

slots-take_slots :
    (k j : String) (left : ℕ) (gs : GroupSlots)
    → slots_at k (take_slots j left gs) ≤ (if str_eq j k then left else slots_at k gs)
unfolding state_of take_slots
slots-take_slots k j left [] = ground arith
slots-take_slots k j left ((m, st) ∷ rest) =
    ground (arith, slots-take_slots k j left rest, eq_iff m j, eq_iff m k, eq_iff j k)

module _ (k : String) where
  fast_ungrouped : (q : String) (js : List Job) → count (in_g k) (map (accept_fast q) js) ≡ 0
  unfolding count
  fast_ungrouped q [] = refl
  fast_ungrouped q (j ∷ js) = omega (arith, fast_ungrouped q js)

  fast_step-group :
      (env : Env) (held : Held) (kinds : List String) (size : ℕ) (jobs : List Job) (j : String)
      (s : Progress)
      → count (in_g k) (fast_step env held kinds size jobs j s).accepted ≡ count (in_g k) s.accepted
  unfolding fast_step
  fast_step-group env held kinds size jobs j s = elim (Bool-cases (fast_room size j s == 0)) [
    | inl e ↦ rw e refl
    | inr e ↦
        rw (e, count-append (in_g k) s.accepted _)
          (omega (
            arith,
            fast_ungrouped j (first_jobs (is_fast env held kinds j) (fast_room size j s) jobs),
          ))
  ]

  pub fast_lane-group :
      (env : Env) (held : Held) (kinds : List String) (size : ℕ) (js : List String)
      (jobs : List Job) (s : Progress)
      → count (in_g k) (fast_lane env held kinds size js jobs s).accepted
        ≡ count (in_g k) s.accepted
  unfolding fast_lane
  fast_lane-group env held kinds size [] jobs s = refl
  fast_lane-group env held kinds size (j ∷ js) jobs s =
      fast_lane-group env held kinds size js jobs _ ∙ fast_step-group env held kinds size jobs j s

  fits_slots : (size slots : ℕ) (j : Job) (s : Progress) → fits size slots j s ≡ true → 0 < slots
  unfolding fits
  fits_slots size slots j s e = ground arith

  one-group :
      (key : String) (j : Job) (s : Progress)
      → count (in_g k) (accept_one key j s).accepted
        ≡ count (in_g k) s.accepted + (if str_eq key k then 1 else 0)
  unfolding count
  one-group key j s = rw (count-append (in_g k) s.accepted _) (omega arith)

  one_turn :
      (b : Bool) (key : String) (j : Job) (slots : ℕ) (s : Progress)
      → (b ≡ true → 0 < slots)
      → count (in_g k) (if b then accept_one key j s else s).accepted
          + (if str_eq key k then (if b then slots - 1 else slots) else 0)
        ≤ count (in_g k) s.accepted + (if str_eq key k then slots else 0)
  one_turn true key j slots s h = rw one-group (ground (arith, h refl))
  one_turn false key j slots s h = omega arith

  -- What was accepted of the group, and what is left of its slots while it is visited.
  accept_slow-group :
      (size : ℕ) (key : String) (js : List Job) (slots : ℕ) (s : Progress)
      → let r = accept_slow size key js slots s in
        count (in_g k) r.1.accepted + (if str_eq key k then r.0 else 0)
        ≤ count (in_g k) s.accepted + (if str_eq key k then slots else 0)
  unfolding accept_slow
  accept_slow-group size key [] slots s = omega arith
  accept_slow-group size key (j ∷ js) slots s =
      le_trans
        (accept_slow-group size key js (if fits size slots j s then slots - 1 else slots)
          (if fits size slots j s then accept_one key j s else s))
        (one_turn (fits size slots j s) key j slots s (fits_slots size slots j s))

  slow_visit-group :
      (env : Env) (held : Held) (kinds : List String) (size : ℕ) (qs : List String)
      (jobs : List Job) (key : String) (o : Option GroupState) (x : Progress × GroupSlots)
      → state_of key x.1 ≡ o
      → let y = slow_visit env held kinds size qs jobs key o x in
        count (in_g k) y.0.accepted + slots_at k y.1 ≤ count (in_g k) x.0.accepted + slots_at k x.1
  unfolding slow_visit slow_step
  slow_visit-group env held kinds size qs jobs key none x h = omega arith
  slow_visit-group env held kinds size qs jobs key (some st) x h =
      let rows = first_jobs (is_slow env held kinds qs key) (slow_room size st x.0) jobs in
      let left = (accept_slow size key rows st.slots x.0).0 in
      elim (Bool-cases (slow_room size st x.0 == 0)) [
        | inl e ↦ rw e (omega arith)
        | inr e ↦ rw e (elim (Bool-cases (str_eq key k)) [
          | inl t ↦ omega (
            arith,
            rw t at (accept_slow-group size key rows st.slots x.0),
            rw t at (slots-take_slots k key left x.1),
            ap slots_or (rw ((eq_iff key k).0 t) at h),
          )
          | inr t ↦ omega (
            arith,
            rw t at (accept_slow-group size key rows st.slots x.0),
            rw t at (slots-take_slots k key left x.1),
          )
        ])
      ]

  pub slow_lane-group :
      (env : Env) (held : Held) (kinds : List String) (size : ℕ) (qs : List String)
      (jobs : List Job) (keys : List String) (x : Progress × GroupSlots)
      → let y = slow_lane env held kinds size qs jobs keys x in
        count (in_g k) y.0.accepted + slots_at k y.1 ≤ count (in_g k) x.0.accepted + slots_at k x.1
  unfolding slow_lane
  slow_lane-group env held kinds size qs jobs [] x = omega arith
  slow_lane-group env held kinds size qs jobs (key ∷ keys) x =
      le_trans
        (slow_lane-group env held kinds size qs jobs keys
          (slow_visit env held kinds size qs jobs key (state_of key x.1) x))
        (slow_visit-group env held kinds size qs jobs key (state_of key x.1) x refl)
