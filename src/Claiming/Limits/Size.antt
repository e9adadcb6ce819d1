-- ===== src/Claiming/Limits/Size.antt =====
-- The number of rows that a claim accepts.
use eddyq.Prelude.{
  ℕ, suc, ap, ◌≤◌, ◌≡◌, refl, String, Option, none, some, List, [], ◌∷◌, map, arith, length, ◌==◌,
  if◌then◌else◌, Bool-cases, inl, inr, length-append,
}
use eddyq.Store.{Db, Job, Env}
use eddyq.Fetch.Claim.{Poll, choose, open_queues}
use eddyq.Fetch.Claim.Budgets.{Budget, Held}
use eddyq.Fetch.Claim.Groups.{GroupState, GroupSlots, state_of}
use eddyq.Fetch.Claim.Lanes.{
  Progress, first_jobs, accept_fast, fast_room, fast_step, fast_lane, fits, accept_one, accept_slow,
  slow_room, slow_step, slow_visit, slow_lane, is_fast, is_slow,
}
use eddyq.Claiming.Limits.Queue.{length-first_jobs-le}

pub length-map {ℓ κ} :
    {A : Type ℓ} {B : Type κ} (f : A → B) (xs : List A) → length (map f xs) ≡ length xs
length-map f [] = refl
length-map f (x ∷ xs) = ap suc (length-map f xs)

module _ (env : Env) (held : Held) (kinds : List String) (size : ℕ) (jobs : List Job) where
  fast_step-fits :
      (q : String) (s : Progress)
      → length s.accepted ≤ size
      → length (fast_step env held kinds size jobs q s).accepted ≤ size
  unfolding fast_step
  fast_step-fits q s h = elim (Bool-cases (fast_room size q s == 0)) [
    | inl e ↦ rw e h
    | inr e ↦
        let rows = first_jobs (is_fast env held kinds q) (fast_room size q s) jobs in
        rw (e, length-append s.accepted (map (accept_fast q) rows), length-map (accept_fast q) rows)
          (omega
            (arith, h, length-first_jobs-le (is_fast env held kinds q) (fast_room size q s) jobs))
  ]

  fast_lane-fits :
      (qs : List String) (s : Progress)
      → length s.accepted ≤ size
      → length (fast_lane env held kinds size qs jobs s).accepted ≤ size
  unfolding fast_lane
  fast_lane-fits [] s h = h
  fast_lane-fits (q ∷ qs) s h = fast_lane-fits qs _ (fast_step-fits q s h)

  one_more :
      (key : String) (j : Job) (slots : ℕ) (s : Progress)
      → length s.accepted ≤ size
      → length (if fits size slots j s then accept_one key j s else s).accepted ≤ size
  unfolding fits
  one_more key j slots s h = elim (Bool-cases (fits size slots j s)) [
    | inl e ↦
        rw
          (
            e,
            length-append s.accepted
                (record { id = j.id; group_key = some key; queue = j.queue } ∷ []),
          )
          (ground arith)
    | inr e ↦ rw e h
  ]

  accept_slow-fits :
      (key : String) (js : List Job) (slots : ℕ) (s : Progress)
      → length s.accepted ≤ size
      → length (accept_slow size key js slots s).1.accepted ≤ size
  unfolding accept_slow
  accept_slow-fits key [] slots s h = h
  accept_slow-fits key (j ∷ js) slots s h = accept_slow-fits key js _ _ (one_more key j slots s h)

  slow_visit-fits :
      (open_names : List String) (key : String) (o : Option GroupState) (x : Progress × GroupSlots)
      → length x.0.accepted ≤ size
      → length (slow_visit env held kinds size open_names jobs key o x).0.accepted ≤ size
  unfolding slow_visit slow_step
  slow_visit-fits open_names key none x h = h
  slow_visit-fits open_names key (some st) x h = elim (Bool-cases (slow_room size st x.0 == 0)) [
    | inl e ↦ rw e h
    | inr e ↦ rw e (
        accept_slow-fits key
          (first_jobs (is_slow env held kinds open_names key) (slow_room size st x.0) jobs) st.slots
          x.0 h)
  ]

  slow_lane-fits :
      (open_names keys : List String) (x : Progress × GroupSlots)
      → length x.0.accepted ≤ size
      → length (slow_lane env held kinds size open_names jobs keys x).0.accepted ≤ size
  unfolding slow_lane
  slow_lane-fits open_names [] x h = h
  slow_lane-fits open_names (k ∷ ks) x h =
      slow_lane-fits open_names ks _ (slow_visit-fits open_names k (state_of k x.1) x h)

pub choose-fits :
    (p : Poll) (tbl : Budget) (db : Db) → length (choose p tbl db).0.accepted ≤ p.batch_size
unfolding choose
choose-fits p tbl db =
    slow_lane-fits p.env p.held p.kinds p.batch_size db.jobs (open_queues p _) p.order _ (
      fast_lane-fits p.env p.held p.kinds p.batch_size db.jobs p.queues
        (record { accepted = []; budget = tbl }) (omega arith))
