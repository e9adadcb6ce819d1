-- ===== src/Runtime/InFlight.antt =====
-- The set of jobs in flight, which the heartbeat sends and a forced shutdown gives back.
use eddyq.Prelude.{
  ℕ, ◌≡◌, ◌⊎◌, refl, sym, ap, ◌∙◌, subst, arith, Bool, true, false, ◌||◌, List, [], ◌∷◌, ◌++◌, any,
  any_num, All, ◌==◌, leb, max, length, Bool-cases, inl, inr,
}
use eddyq.Sql.{delete}
use eddyq.Fetch.Claim.Write.{ClaimedJob}
use eddyq.Runtime.Capacity.{delivered-injective}
use eddyq.Runtime.Slots.{
  WorkerSlots, Delivery, delivered, deliver, FetcherMove, WorkerMove, Runs, insert_id, remove_id,
  with_job,
}

abbrev pub is_job : ℕ → ClaimedJob → Bool
is_job i j = j.id == i

-- A worker has the job, or is about to take it.
abbrev pub has_job : ℕ → WorkerSlots → Bool
has_job i s = any (is_job i) s.channel || any (is_job i) s.running

abbrev Owned : WorkerSlots → Type 0
Owned s = (i : ℕ) → any_num i s.in_flight ≡ true → has_job i s ≡ true

any-append :
    (p : ClaimedJob → Bool) (xs ys : List ClaimedJob) → any p (xs ++ ys) ≡ (any p xs || any p ys)
any-append p [] ys = refl
any-append p (x ∷ xs) ys = ground (arith, any-append p xs ys)

any-insert_id :
    (i id : ℕ) (ids : List ℕ)
    → any_num i (insert_id id ids) ≡ true
    → ((id == i) || any_num i ids) ≡ true
any-insert_id i id ids h = ground arith

any-remove_id :
    (i id : ℕ) (ids : List ℕ)
    → any_num i (remove_id id ids) ≡ true
    → (any_num i ids ≡ true) × ((id == i) ≡ false)
unfolding delete
any-remove_id i id [] h = cc
any-remove_id i id (x ∷ xs) h = elim (Bool-cases (x == id)) [
  | inl e ↦ let (a, b) = any-remove_id i id xs (rw e at h) in (ground arith, b)
  | inr e ↦ elim (Bool-cases (x == i)) [
    | inl f ↦ (ground arith, ground arith)
    | inr f ↦ let (a, b) = any-remove_id i id xs (ground arith) in (ground arith, b)
  ]
]

abbrev Stops : Delivery → Type 0
Stops (delivered s) = ⊥
Stops Delivery.panics = Unit
Stops Delivery.waits = Unit

not_delivered : (d : Delivery) (t : WorkerSlots) → Stops d → d ≡ delivered t → ⊥
not_delivered d t h e = subst Stops e h

with_job-Owned : (job : ClaimedJob) (s : WorkerSlots) → Owned s → Owned (with_job job s)
with_job-Owned job s h i k =
    let known : (job.id == i || any_num i s.in_flight) ≡ true =
      any-insert_id i job.id s.in_flight k in
    rw (any-append (is_job i) s.channel (job ∷ [])) (elim (Bool-cases (job.id == i)) [
      | inl e ↦ ground arith
      | inr e ↦
          let old : any_num i s.in_flight ≡ true = ground arith in
          let there : (any (is_job i) s.channel || any (is_job i) s.running) ≡ true = h i old in
          ground arith
    ])

deliver-cases :
    (c : ℕ) (job : ClaimedJob) (s : WorkerSlots)
    → (deliver c job s ≡ delivered (with_job job s)) ⊎ Stops (deliver c job s)
unfolding deliver
deliver-cases c job s = elim (Bool-cases (s.idle == 0)) [
  | inl f ↦ rw f (inr tt)
  | inr f ↦ elim (Bool-cases (leb (max c 1) (length s.channel))) [
    | inl g ↦ rw (f, g) (inr tt)
    | inr g ↦ rw (f, g) (inl refl)
  ]
]

deliver-Owned :
    (c : ℕ) (job : ClaimedJob) (s t : WorkerSlots)
    → deliver c job s ≡ delivered t
    → Owned s
    → Owned t
deliver-Owned c job s t e h = elim (deliver-cases c job s) [
  | inl d ↦
      subst Owned (delivered-injective (with_job job s) t (sym d ∙ e)) (with_job-Owned job s h)
  | inr stops ↦ absurd (not_delivered (deliver c job s) t stops e)
]

-- A job taken out of the middle of a list leaves the jobs of other ids.
any-middle :
    (i : ℕ) (xs ys : List ClaimedJob) (job : ClaimedJob)
    → (job.id == i) ≡ false
    → any (is_job i) (xs ++ (job ∷ ys)) ≡ any (is_job i) (xs ++ ys)
any-middle i xs ys job h =
    any-append (is_job i) xs (job ∷ ys)
    ∙ ap (λ b. any (is_job i) xs || (b || any (is_job i) ys)) h
    ∙ sym (any-append (is_job i) xs ys)

FetcherMove-Owned : {c : ℕ} {s t : WorkerSlots} → FetcherMove c s t → Owned s → Owned t
FetcherMove-Owned (FetcherMove.asks n e free) h = h
FetcherMove-Owned (FetcherMove.claims p db r e) h = h
FetcherMove-Owned (FetcherMove.claim_fails n e) h = h
FetcherMove-Owned {c = c} {s = s} (FetcherMove.sends job rest t e d) h = deliver-Owned c job s t d h

WorkerMove-Owned : {c : ℕ} {s t : WorkerSlots} → WorkerMove c s t → Owned s → Owned t
WorkerMove-Owned {s = s} (WorkerMove.takes job rest e free) h = λ i k.
    let there : (any (is_job i) s.channel || any (is_job i) s.running) ≡ true = h i k in
    let split : any (is_job i) s.channel ≡ (job.id == i || any (is_job i) rest) =
      ap (any (is_job i)) e in
    ground (arith, split)
WorkerMove-Owned {s = s} (WorkerMove.ends xs ys job e) h = λ i k.
    let (old, other) = any-remove_id i job.id s.in_flight k in
    let there : (any (is_job i) s.channel || any (is_job i) s.running) ≡ true = h i old in
    let split : any (is_job i) s.running ≡ any (is_job i) (xs ++ ys) =
      ap (any (is_job i)) e ∙ any-middle i xs ys job other in
    rw (← split) there
WorkerMove-Owned {s = s} (WorkerMove.reports xs ys job e) h = h

Runs-Owned : {c : ℕ} {s : WorkerSlots} → Runs c s → Owned s
Runs-Owned Runs.boots = λ i k. cc
Runs-Owned (Runs.fetches h m) = FetcherMove-Owned m (Runs-Owned h)
Runs-Owned (Runs.works h m) = WorkerMove-Owned m (Runs-Owned h)

All-any_num : (P : ℕ → Type 0) (ids : List ℕ) → ((i : ℕ) → any_num i ids ≡ true → P i) → All P ids
All-any_num P [] f = tt
All-any_num P (x ∷ xs) f = (f x (ground arith), All-any_num P xs (λ i h. f i (ground arith)))

-- In every run of the fetcher and the workers, an id in flight is that of a job that waits in the
-- channel or runs: the process sends no heartbeat for a job that none of its workers has or is about
-- to take.
pub Runs-in_flight :
    {c : ℕ} {s : WorkerSlots} → Runs c s → All (λ i. has_job i s ≡ true) s.in_flight
Runs-in_flight {s = s} h = All-any_num _ s.in_flight (Runs-Owned h)
