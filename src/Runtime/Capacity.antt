-- ===== src/Runtime/Capacity.antt =====
-- The accounting of the worker slots over the runs of Runtime/Slots.
use eddyq.Prelude.{
  ℕ, suc, ◌+◌, ◌≤◌, ◌<◌, ◌≡◌, refl, sym, ap, ◌∙◌, subst, arith, false, List, [], ◌∷◌, ◌++◌, length,
  length-append, leb, ◌==◌, max,
}
use eddyq.Fetch.Claim.Write.{ClaimedJob}
use eddyq.Traces.{Reachable-IsCounted}
use eddyq.Claiming.Rows.{claim_batch-IsClaim}
use eddyq.Runtime.Slots.{
  WorkerSlots, Fetcher, claiming, sending, Delivery, delivered, deliver, FetcherMove, WorkerMove,
  Runs, with_job,
}

slots_of_delivery : WorkerSlots → Delivery → WorkerSlots
slots_of_delivery s (delivered t) = t
slots_of_delivery s Delivery.panics = s
slots_of_delivery s Delivery.waits = s

pub delivered-injective : (s t : WorkerSlots) → delivered s ≡ delivered t → s ≡ t
unfolding slots_of_delivery
delivered-injective s t e = ap (slots_of_delivery s) e

module _ (concurrency : ℕ) where
  -- Each slot is idle, or holds a job that waits, runs or is reported.
  abbrev pub Accounted : WorkerSlots → Type 0
  Accounted s = s.idle + length s.channel + length s.running + length s.reporting ≡ concurrency

  -- What the fetcher may still deliver.
  abbrev pub pending_jobs : Fetcher → ℕ
  pending_jobs (claiming n) = n
  pending_jobs (sending jobs) = length jobs

  abbrev Sound : WorkerSlots → Type 0
  Sound s = Accounted s × (pending_jobs s.fetcher ≤ s.idle)

  deliver-with_job :
      (job : ClaimedJob) (s : WorkerSlots)
      → 0 < s.idle
      → Accounted s
      → deliver concurrency job s ≡ delivered (with_job job s)
  unfolding deliver
  deliver-with_job job s h a =
      let some_idle : (s.idle == 0) ≡ false = ground arith in
      let room : leb (max concurrency 1) (length s.channel) ≡ false = ground arith in
      rw (some_idle, room) refl

  with_job-Accounted :
      (job : ClaimedJob) (s : WorkerSlots) → 0 < s.idle → Accounted s → Accounted (with_job job s)
  with_job-Accounted job s h a = omega (arith, length-append s.channel (job ∷ []))

  -- What is taken out of the middle of a list.
  length-middle :
      (xs ys : List ClaimedJob) (job : ClaimedJob) (zs : List ClaimedJob)
      → zs ≡ xs ++ (job ∷ ys)
      → length zs ≡ suc (length (xs ++ ys))
  length-middle xs ys job zs e =
      ap length e ∙ omega (arith, length-append xs (job ∷ ys), length-append xs ys)

  sends-Sound :
      (job : ClaimedJob) (rest : List ClaimedJob) (s t : WorkerSlots)
      → s.fetcher ≡ sending (job ∷ rest)
      → deliver concurrency job s ≡ delivered t
      → Sound s
      → Sound (record t { fetcher = sending rest })
  sends-Sound job rest s t e d (a, fits) =
      let some_idle : suc (length rest) ≤ s.idle = subst (λ f. pending_jobs f ≤ s.idle) e fits in
      let same : with_job job s ≡ t =
        delivered-injective (with_job job s) t
          (sym (deliver-with_job job s (omega (arith, some_idle)) a) ∙ d) in
      subst (λ (x : WorkerSlots). Sound (record x { fetcher = sending rest })) same
        (with_job-Accounted job s (omega (arith, some_idle)) a, omega (arith, some_idle))

  FetcherMove-Sound : {s t : WorkerSlots} → FetcherMove concurrency s t → Sound s → Sound t
  FetcherMove-Sound (FetcherMove.asks n e free) (a, fits) = (a, omega arith)
  FetcherMove-Sound {s = s} (FetcherMove.claims p db r e) (a, fits) =
      let room : p.batch_size ≤ s.idle = subst (λ f. pending_jobs f ≤ s.idle) e fits in
      (a, omega (arith, room, (claim_batch-IsClaim p db (Reachable-IsCounted r)).1))
  FetcherMove-Sound (FetcherMove.claim_fails n e) (a, fits) = (a, omega arith)
  FetcherMove-Sound {s = s} (FetcherMove.sends job rest t e d) h = sends-Sound job rest s t e d h

  WorkerMove-Sound : {s t : WorkerSlots} → WorkerMove concurrency s t → Sound s → Sound t
  WorkerMove-Sound {s = s} (WorkerMove.takes job rest e free) (a, fits) =
      (omega (arith, ap length e), fits)
  WorkerMove-Sound {s = s} (WorkerMove.ends xs ys job e) (a, fits) =
      (omega (arith, length-middle xs ys job s.running e), fits)
  WorkerMove-Sound {s = s} (WorkerMove.reports xs ys job e) (a, fits) =
      (omega (arith, length-middle xs ys job s.reporting e), omega (arith, fits))

  Runs-Sound : {s : WorkerSlots} → Runs concurrency s → Sound s
  Runs-Sound Runs.boots = (omega arith, omega arith)
  Runs-Sound (Runs.fetches h m) = FetcherMove-Sound m (Runs-Sound h)
  Runs-Sound (Runs.works h m) = WorkerMove-Sound m (Runs-Sound h)

  -- In every run of the fetcher and the workers, whose moves may come between the fetcher's reading
  -- of the permits, its claim and each delivery, each slot is idle, or holds one job that waits in
  -- the channel, runs or is reported. A claimed job whose turn it is to be delivered finds a permit,
  -- so the `expect` does not panic, and room in the channel, so the fetcher does not wait.
  pub Runs-Delivers :
      {s : WorkerSlots} (job : ClaimedJob) (rest : List ClaimedJob)
      → Runs concurrency s
      → s.fetcher ≡ sending (job ∷ rest)
      → Accounted s × (deliver concurrency job s ≡ delivered (with_job job s))
  Runs-Delivers {s = s} job rest h e =
      let (a, fits) = Runs-Sound h in
      let some_idle : suc (length rest) ≤ s.idle = subst (λ f. pending_jobs f ≤ s.idle) e fits in
      (a, deliver-with_job job s (omega (arith, some_idle)) a)

  -- A job in the channel always has a worker that is free to take it.
  pub Runs-free_worker :
      {s : WorkerSlots} (job : ClaimedJob) (rest : List ClaimedJob)
      → Runs concurrency s
      → s.channel ≡ job ∷ rest
      → length s.running + length s.reporting < concurrency
  Runs-free_worker {s = s} job rest h e = omega (arith, (Runs-Sound h).0, ap length e)
