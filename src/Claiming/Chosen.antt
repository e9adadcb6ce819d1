-- ===== src/Claiming/Chosen.antt =====
-- The rows that the phases of a claim accept, one by one.
use eddyq.Prelude.{
  ℕ, ◌≡◌, refl, sym, ap, Bool, true, false, String, Option, none, some, List, [], ◌∷◌, ◌++◌, map,
  arith, eq_iff, is_text, any_text, All, Memᴰ, ◌==◌, Bool-cases, inl, inr, if◌then◌else◌,
}
use eddyq.Sql.{select}
use eddyq.Sql.Order.{All-take, All-sort, All-select, All-map}
use eddyq.Store.{Db, Job, Env}
use eddyq.Fetch.Claim.Budgets.{Budget, Held}
use eddyq.Fetch.Claim.Groups.{GroupState, GroupSlots, state_of}
use eddyq.Fetch.Claim.Lanes.{
  Accepted, Progress, is_ready, is_fast, is_slow, first_jobs, accept_fast, fast_step, fast_lane,
  accept_slow, fast_room, slow_room, fits, accept_one, slow_step, slow_lane, slow_visit,
}
use eddyq.Fetch.Claim.{Poll, open_queues, choose}

pub All-append {ℓ κ} :
    {A : Type ℓ} (P : A → Type κ) (xs ys : List A) → All P xs → All P ys → All P (xs ++ ys)
All-append P [] ys h k = k
All-append P (x ∷ xs) ys h k = (h.0, All-append P xs ys h.1 k)

pub All-mem {ℓ} : {A : Type ℓ} (xs : List A) → All (λ x. Memᴰ x xs) xs
All-mem [] = tt
All-mem (x ∷ xs) = (
  Memᴰ.head refl,
  All-map (λ y. Memᴰ y xs) (λ y. Memᴰ y (x ∷ xs)) (λ y m. Memᴰ.tail m) xs (All-mem xs),
)

-- The rows of a statement with LIMIT are rows of the table that satisfy its WHERE.
pub All-first_jobs :
    (p : Job → Bool) (n : ℕ) (jobs : List Job)
    → All (λ j. Memᴰ j jobs × (p j ≡ true)) (first_jobs p n jobs)
unfolding first_jobs
All-first_jobs p n jobs =
    let P = λ (j : Job). Memᴰ j jobs × (p j ≡ true) in
    All-take P n _ (
      All-sort P _ (select p jobs) (
        All-select P p jobs (
          All-map (λ j. Memᴰ j jobs) (λ j. p j ≡ true → P j) (λ j m e. (m, e)) jobs
            (All-mem jobs))))

module _ (env : Env) (held : Held) (kinds queues : List String) (jobs : List Job) where
  pub record IsChosen (a : Accepted) : Type 0 where
    pub job : Job
    pub there : Memᴰ job jobs
    pub id : a.id ≡ job.id
    pub group_key : a.group_key ≡ job.group_key
    pub queue : a.queue ≡ job.queue
    pub ready : is_ready env kinds job ≡ true
    pub subscribed : any_text job.queue queues ≡ true
    pub free : held.job_row job.id ≡ false

  is_fast-ready :
      (q : String) (j : Job) → is_fast env held kinds q j ≡ true → is_ready env kinds j ≡ true
  unfolding is_fast
  is_fast-ready q j h = ground arith

  is_fast-group : (q : String) (j : Job) → is_fast env held kinds q j ≡ true → none ≡ j.group_key
  unfolding is_fast
  is_fast-group q j h = ground arith

  is_fast-queue : (q : String) (j : Job) → is_fast env held kinds q j ≡ true → q ≡ j.queue
  unfolding is_fast
  is_fast-queue q j h = ground (arith, eq_iff j.queue q)

  is_fast-free :
      (q : String) (j : Job) → is_fast env held kinds q j ≡ true → held.job_row j.id ≡ false
  unfolding is_fast
  is_fast-free q j h = ground arith

  accept_fast-IsChosen :
      (q : String) (j : Job)
      → any_text q queues ≡ true
      → Memᴰ j jobs × (is_fast env held kinds q j ≡ true)
      → IsChosen (accept_fast q j)
  accept_fast-IsChosen q j sub h = record {
    job = j;
    there = h.0;
    id = refl;
    group_key = is_fast-group q j h.1;
    queue = is_fast-queue q j h.1;
    ready = is_fast-ready q j h.1;
    subscribed = rw (← is_fast-queue q j h.1) sub;
    free = is_fast-free q j h.1;
  }

  accept-All :
      (q : String) (js : List Job)
      → any_text q queues ≡ true
      → All (λ j. Memᴰ j jobs × (is_fast env held kinds q j ≡ true)) js
      → All IsChosen (map (accept_fast q) js)
  accept-All q [] sub h = tt
  accept-All q (j ∷ js) sub h = (accept_fast-IsChosen q j sub h.0, accept-All q js sub h.1)

  fast_step-All :
      (batch_size : ℕ) (q : String) (s : Progress)
      → any_text q queues ≡ true
      → All IsChosen s.accepted
      → All IsChosen (fast_step env held kinds batch_size jobs q s).accepted
  unfolding fast_step
  fast_step-All batch_size q s sub h = elim (Bool-cases (fast_room batch_size q s == 0)) [
    | inl e ↦ rw e h
    | inr e ↦ rw e (
        All-append IsChosen s.accepted _ h (
          accept-All q _ sub
            (All-first_jobs (is_fast env held kinds q) (fast_room batch_size q s) jobs)))
  ]

  fast_lane-All :
      (batch_size : ℕ) (qs : List String) (s : Progress)
      → All (λ q. any_text q queues ≡ true) qs
      → All IsChosen s.accepted
      → All IsChosen (fast_lane env held kinds batch_size qs jobs s).accepted
  unfolding fast_lane
  fast_lane-All batch_size [] s sub h = h
  fast_lane-All batch_size (q ∷ qs) s sub h =
      fast_lane-All batch_size qs (fast_step env held kinds batch_size jobs q s) sub.1
        (fast_step-All batch_size q s sub.0 h)

  is_slow-ready :
      (open_names : List String) (key : String) (j : Job)
      → is_slow env held kinds open_names key j ≡ true
      → is_ready env kinds j ≡ true
  unfolding is_slow
  is_slow-ready open_names key j h = ground arith

  is_slow-queue :
      (open_names : List String) (key : String) (j : Job)
      → is_slow env held kinds open_names key j ≡ true
      → any_text j.queue open_names ≡ true
  unfolding is_slow
  is_slow-queue open_names key j h = ground arith

  is_slow-free :
      (open_names : List String) (key : String) (j : Job)
      → is_slow env held kinds open_names key j ≡ true
      → held.job_row j.id ≡ false
  unfolding is_slow
  is_slow-free open_names key j h = ground arith

  of_is_text : (o : Option String) (k : String) → is_text o k ≡ true → some k ≡ o
  of_is_text none k h = cc
  of_is_text (some t) k h = ap some (sym ((eq_iff t k).0 h))

  is_slow-text :
      (open_names : List String) (key : String) (j : Job)
      → is_slow env held kinds open_names key j ≡ true
      → is_text j.group_key key ≡ true
  unfolding is_slow
  is_slow-text open_names key j h = ground arith

  All-if :
      (b : Bool) (s t : Progress)
      → All IsChosen s.accepted
      → All IsChosen t.accepted
      → All IsChosen (if b then s else t).accepted
  All-if true s t h k = h
  All-if false s t h k = k

  module _ (open_names : List String)
      (sub : (q : String) → any_text q open_names ≡ true → any_text q queues ≡ true) where
    accept_one-IsChosen :
        (key : String) (j : Job)
        → Memᴰ j jobs × (is_slow env held kinds open_names key j ≡ true)
        → IsChosen (record { id = j.id; group_key = some key; queue = j.queue })
    accept_one-IsChosen key j h = record {
      job = j;
      there = h.0;
      id = refl;
      group_key = of_is_text j.group_key key (is_slow-text open_names key j h.1);
      queue = refl;
      ready = is_slow-ready open_names key j h.1;
      subscribed = sub j.queue (is_slow-queue open_names key j h.1);
      free = is_slow-free open_names key j h.1;
    }

    accept_slow-All :
        (batch_size : ℕ) (key : String) (js : List Job) (slots : ℕ) (s : Progress)
        → All (λ j. Memᴰ j jobs × (is_slow env held kinds open_names key j ≡ true)) js
        → All IsChosen s.accepted
        → All IsChosen (accept_slow batch_size key js slots s).1.accepted
    unfolding accept_slow
    accept_slow-All batch_size key [] slots s r h = h
    accept_slow-All batch_size key (j ∷ js) slots s r h =
        accept_slow-All batch_size key js _ _ r.1 (
          All-if (fits batch_size slots j s) (accept_one key j s) s
            (All-append IsChosen s.accepted _ h (accept_one-IsChosen key j r.0, tt)) h)

    slow_step-All :
        (batch_size : ℕ) (key : String) (st : GroupState) (x : Progress × GroupSlots)
        → All IsChosen x.0.accepted
        → All IsChosen (slow_step env held kinds batch_size open_names jobs key st x).0.accepted
    unfolding slow_step
    slow_step-All batch_size key st x h = elim (Bool-cases (slow_room batch_size st x.0 == 0)) [
      | inl e ↦ rw e h
      | inr e ↦ rw e (
          accept_slow-All batch_size key _ st.slots x.0
            (All-first_jobs (is_slow env held kinds open_names key) (slow_room batch_size st x.0)
              jobs)
            h)
    ]

    slow_visit-All :
        (batch_size : ℕ) (key : String) (o : Option GroupState) (x : Progress × GroupSlots)
        → All IsChosen x.0.accepted
        → All IsChosen (slow_visit env held kinds batch_size open_names jobs key o x).0.accepted
    unfolding slow_visit
    slow_visit-All batch_size key none x h = h
    slow_visit-All batch_size key (some st) x h = slow_step-All batch_size key st x h

    slow_lane-All :
        (batch_size : ℕ) (keys : List String) (x : Progress × GroupSlots)
        → All IsChosen x.0.accepted
        → All IsChosen (slow_lane env held kinds batch_size open_names jobs keys x).0.accepted
    unfolding slow_lane
    slow_lane-All batch_size [] x h = h
    slow_lane-All batch_size (k ∷ ks) x h =
        slow_lane-All batch_size ks _ (slow_visit-All batch_size k (state_of k x.1) x h)

any_text_self : (q : String) (qs : List String) → Memᴰ q qs → any_text q qs ≡ true
any_text_self q [] m = elim m [ ]
any_text_self q (x ∷ xs) (Memᴰ.head e) = ground (arith, eq_iff x q)
any_text_self q (x ∷ xs) (Memᴰ.tail m) = ground (arith, any_text_self q xs m)

any_text-select :
    (p : String → Bool) (q : String) (qs : List String)
    → any_text q (select p qs) ≡ true
    → any_text q qs ≡ true
unfolding select
any_text-select p q [] h = h
any_text-select p q (x ∷ xs) h = ground (arith, any_text-select p q xs)

-- The rows that phases 1 to 3 accept.
pub choose-IsChosen :
    (p : Poll) (tbl : Budget) (db : Db)
    → All (IsChosen p.env p.held p.kinds p.queues db.jobs) (choose p tbl db).0.accepted
unfolding choose
choose-IsChosen p tbl db =
    slow_lane-All p.env p.held p.kinds p.queues db.jobs (open_queues p _)
      (λ q. any_text-select _ q p.queues) p.batch_size p.order _
      (fast_lane-All p.env p.held p.kinds p.queues db.jobs p.batch_size p.queues
        (record { accepted = []; budget = tbl })
        (All-map (λ q. Memᴰ q p.queues) (λ q. any_text q p.queues ≡ true)
          (λ q m. any_text_self q p.queues m) p.queues (All-mem p.queues))
        tt)
