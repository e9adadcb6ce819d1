-- ===== src/Claiming/Limits/Queue.antt =====
-- The budget of a queue through the phases of a claim.
use eddyq.Prelude.{
  ℕ, ap, ◌+◌, ◌-◌, ◌≤◌, ◌<◌, ◌≡◌, refl, Bool, true, false, String, Option, none, some, List, [],
  ◌∷◌, map, arith, str_eq, eq_iff, length, ◌==◌, if◌then◌else◌, Bool-cases, inl, inr,
  length-take-le,
}
use eddyq.Sql.{count}
use eddyq.Sql.Count.{count-append}
use eddyq.Sql.Keyed.{at_some}
use eddyq.Store.{Db, Job, Env}
use eddyq.Fetch.Claim.{Poll, choose, open_queues}
use eddyq.Fetch.Claim.Budgets.{Budget, Held, lookup_budget, budget_for, spend}
use eddyq.Fetch.Claim.Groups.{GroupState, GroupSlots, state_of}
use eddyq.Fetch.Claim.Lanes.{
  Accepted, Progress, first_jobs, accept_fast, fast_room, fast_step, fast_lane, fits, accept_one,
  accept_slow, slow_room, slow_step, slow_visit, slow_lane, is_fast, is_slow,
}

abbrev on_q : String → Accepted → Bool
on_q q a = str_eq a.queue q

lookup-spend :
    (k j : String) (n : ℕ) (tbl : Budget)
    → lookup_budget k (spend j n tbl)
      ≡ (if str_eq j k then at_some (λ b. b - n) (lookup_budget k tbl) else lookup_budget k tbl)
unfolding lookup_budget spend
lookup-spend k j n [] = ground arith
lookup-spend k j n ((m, b) ∷ rest) =
    ground (arith, lookup-spend k j n rest, eq_iff m j, eq_iff m k, eq_iff j k)

pub length-first_jobs-le :
    (p : Job → Bool) (n : ℕ) (jobs : List Job) → length (first_jobs p n jobs) ≤ n
unfolding first_jobs
length-first_jobs-le p n jobs = length-take-le n _

count-accept_fast :
    (q k : String) (js : List Job)
    → count (on_q k) (map (accept_fast q) js) ≡ (if str_eq q k then length js else 0)
unfolding count
count-accept_fast q k [] = ground arith
count-accept_fast q k (j ∷ js) = ground (arith, count-accept_fast q k js)

-- What was accepted of queue `q` and what is left of its budget are at most `b`.
pub record Keeps (q : String) (b : ℕ) (s : Progress) : Type 0 where
  pub left : ℕ
  pub known : lookup_budget q s.budget ≡ some left
  pub within : count (on_q q) s.accepted + left ≤ b

module _ (q : String) (b : ℕ) where
  budget_known : (s : Progress) (k : Keeps q b s) → budget_for q s.budget ≡ k.left
  unfolding budget_for
  budget_known s k = rw k.known refl

  fast_step-Keeps :
      (env : Env) (held : Held) (kinds : List String) (size : ℕ) (jobs : List Job) (j : String)
      (s : Progress)
      → Keeps q b s
      → Keeps q b (fast_step env held kinds size jobs j s)
  unfolding fast_step
  fast_step-Keeps env held kinds size jobs j s k = elim (Bool-cases (fast_room size j s == 0)) [
    | inl e ↦ rw e k
    | inr e ↦
        let rows = first_jobs (is_fast env held kinds j) (fast_room size j s) jobs in
        rw e (elim (Bool-cases (str_eq j q)) [
          | inl t ↦ record {
            left = k.left - length rows;
            known = rw (lookup-spend q j (length rows) s.budget, t, k.known) refl;
            within =
                rw
                  (
                    count-append (on_q q) s.accepted (map (accept_fast j) rows),
                    count-accept_fast j q rows,
                    t,
                  )
                  (omega (
                    arith,
                    k.within,
                    length-first_jobs-le (is_fast env held kinds j) (fast_room size j s) jobs,
                    budget_known s k,
                    ap (λ x. budget_for x s.budget) ((eq_iff j q).0 t),
                  ));
          }
          | inr t ↦ record {
            left = k.left;
            known = rw (lookup-spend q j (length rows) s.budget, t) k.known;
            within =
                rw
                  (
                    count-append (on_q q) s.accepted (map (accept_fast j) rows),
                    count-accept_fast j q rows,
                    t,
                  )
                  (omega (arith, k.within));
          }
        ])
  ]

  fast_lane-Keeps :
      (env : Env) (held : Held) (kinds : List String) (size : ℕ) (js : List String)
      (jobs : List Job) (s : Progress)
      → Keeps q b s
      → Keeps q b (fast_lane env held kinds size js jobs s)
  unfolding fast_lane
  fast_lane-Keeps env held kinds size [] jobs s k = k
  fast_lane-Keeps env held kinds size (j ∷ js) jobs s k =
      fast_lane-Keeps env held kinds size js jobs _ (fast_step-Keeps env held kinds size jobs j s k)

  fits_budget :
      (size slots : ℕ) (j : Job) (s : Progress)
      → fits size slots j s ≡ true
      → 0 < budget_for j.queue s.budget
  unfolding fits
  fits_budget size slots j s e = ground arith

  accept_one-Keeps :
      (key : String) (size slots : ℕ) (j : Job) (s : Progress)
      → fits size slots j s ≡ true
      → Keeps q b s
      → Keeps q b (accept_one key j s)
  unfolding count
  accept_one-Keeps key size slots j s e k = elim (Bool-cases (str_eq j.queue q)) [
    | inl t ↦ record {
      left = k.left - 1;
      known = rw (lookup-spend q j.queue 1 s.budget, t, k.known) refl;
      within =
          rw (count-append (on_q q) s.accepted _, t)
            (omega (
              arith,
              k.within,
              fits_budget size slots j s e,
              budget_known s k,
              ap (λ x. budget_for x s.budget) ((eq_iff j.queue q).0 t),
            ));
    }
    | inr t ↦ record {
      left = k.left;
      known = rw (lookup-spend q j.queue 1 s.budget, t) k.known;
      within = rw (count-append (on_q q) s.accepted _, t) (omega (arith, k.within));
    }
  ]

  Keeps-if :
      (c : Bool) (s t : Progress)
      → (c ≡ true → Keeps q b s)
      → Keeps q b t
      → Keeps q b (if c then s else t)
  Keeps-if true s t h k = h refl
  Keeps-if false s t h k = k

  accept_slow-Keeps :
      (size : ℕ) (key : String) (js : List Job) (slots : ℕ) (s : Progress)
      → Keeps q b s
      → Keeps q b (accept_slow size key js slots s).1
  unfolding accept_slow
  accept_slow-Keeps size key [] slots s k = k
  accept_slow-Keeps size key (j ∷ js) slots s k = accept_slow-Keeps size key js _ _ (
      Keeps-if (fits size slots j s) (accept_one key j s) s
        (λ e. accept_one-Keeps key size slots j s e k) k)

  slow_visit-Keeps :
      (env : Env) (held : Held) (kinds : List String) (size : ℕ) (qs : List String)
      (jobs : List Job) (key : String) (o : Option GroupState) (x : Progress × GroupSlots)
      → Keeps q b x.0
      → Keeps q b (slow_visit env held kinds size qs jobs key o x).0
  unfolding slow_visit slow_step
  slow_visit-Keeps env held kinds size qs jobs key none x k = k
  slow_visit-Keeps env held kinds size qs jobs key (some st) x k =
      elim (Bool-cases (slow_room size st x.0 == 0)) [
        | inl e ↦ rw e k
        | inr e ↦ rw e (
            accept_slow-Keeps size key
              (first_jobs (is_slow env held kinds qs key) (slow_room size st x.0) jobs) st.slots x.0
              k)
      ]

  slow_lane-Keeps :
      (env : Env) (held : Held) (kinds : List String) (size : ℕ) (qs : List String)
      (jobs : List Job) (keys : List String) (x : Progress × GroupSlots)
      → Keeps q b x.0
      → Keeps q b (slow_lane env held kinds size qs jobs keys x).0
  unfolding slow_lane
  slow_lane-Keeps env held kinds size qs jobs [] x k = k
  slow_lane-Keeps env held kinds size qs jobs (key ∷ keys) x k =
      slow_lane-Keeps env held kinds size qs jobs keys _
        (slow_visit-Keeps env held kinds size qs jobs key (state_of key x.1) x k)

-- A queue with a budget gives at most that.
pub choose-queue :
    (p : Poll) (tbl : Budget) (db : Db) (q : String) (b : ℕ)
    → lookup_budget q tbl ≡ some b
    → count (λ (a : Accepted). str_eq a.queue q) (choose p tbl db).0.accepted ≤ b
unfolding choose
choose-queue p tbl db q b h =
    let s : Progress = record { accepted = []; budget = tbl } in
    let start : Keeps q b s = record {
      left = b;
      known = h;
      within = unfold count in omega arith;
    } in
    omega (
      arith,
      (slow_lane-Keeps q b p.env p.held p.kinds p.batch_size (open_queues p _) db.jobs p.order _
          (fast_lane-Keeps q b p.env p.held p.kinds p.batch_size p.queues db.jobs s start)).within,
    )
