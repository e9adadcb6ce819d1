-- ===== src/Runtime/Idle.antt =====
-- How long an idle fetcher waits: crates/eddyq-core/src/runtime.rs. Durations are nanoseconds.
use eddyq.Prelude.{
  ℕ, ◌+◌, ◌*◌, ◌/◌, ◌≤◌, ◌<◌, ◌≡◌, refl, ap, ◌∙◌, arith, min, max, ◌==◌, ◌&&◌, ltb, Bool, false,
  List, [], ◌∷◌, if◌then◌else◌, Bool-cases, inl, inr,
}
use eddyq.Runtime.Backoff.{saturating_mul, u64_max, Random, InRange}

abbrev pub idle_backoff_max_factor : ℕ
idle_backoff_max_factor = 8

-- 30 seconds
abbrev pub idle_backoff_absolute_max : ℕ
idle_backoff_absolute_max = 30000000000

unfoldable pub idle_ceiling : ℕ → ℕ
idle_ceiling poll_interval =
    min (saturating_mul poll_interval idle_backoff_max_factor) idle_backoff_absolute_max

unfoldable pub escalate_idle : ℕ → ℕ → ℕ
escalate_idle current ceiling = min (saturating_mul current 2) ceiling

-- A tenth more at random, and 10 ms at least.
unfoldable pub jitter : Random → ℕ → ℕ
jitter random base =
    let tenth = min base u64_max / 10 in
    let extra = if tenth == 0 then 0 else random tenth in base + max extra 10000000

-- What a round's claim gave: an error, or some jobs where so many were asked for.
pub data Claimed : Type 0 where
  claim_failed : Claimed
  claimed : (got batch_size : ℕ) → Claimed

-- The backoff after a round of the loop, in whose wait a wakeup was notified or not. After an error
-- and after a full batch the loop continues without touching it, and does not wait for a wakeup.
unfoldable pub after_round : ℕ → Claimed × Bool → ℕ → ℕ
unfolding escalate_idle idle_ceiling
after_round poll_interval (claim_failed, notified) idle_backoff = idle_backoff
after_round poll_interval (claimed got batch_size, notified) idle_backoff =
    if got == batch_size && ltb 0 got
    then idle_backoff
    else if notified
    then poll_interval
    else if got == 0
    then escalate_idle idle_backoff (idle_ceiling poll_interval)
    else poll_interval

-- The backoff after the rounds of a run, the first round first.
unfoldable pub after_rounds : ℕ → List (Claimed × Bool) → ℕ → ℕ
unfolding after_round
after_rounds poll_interval [] idle_backoff = idle_backoff
after_rounds poll_interval (r ∷ rs) idle_backoff =
    after_rounds poll_interval rs (after_round poll_interval r idle_backoff)

-- Polls in a row that ask for so many jobs each and find none, with no wakeup.
abbrev pub quiet_rounds : List ℕ → List (Claimed × Bool)
quiet_rounds [] = []
quiet_rounds (n ∷ ns) = (claimed 0 n, false) ∷ quiet_rounds ns

-- A backoff is never below the interval or the ceiling, whichever is less.
abbrev IsBackoff : ℕ → ℕ → Type 0
IsBackoff poll_interval b =
    (min poll_interval (idle_ceiling poll_interval) ≤ b)
    × (b ≤ max poll_interval (idle_ceiling poll_interval))

escalate_idle-IsBackoff :
    (poll_interval b : ℕ)
    → IsBackoff poll_interval b
    → IsBackoff poll_interval (escalate_idle b (idle_ceiling poll_interval))
unfolding escalate_idle idle_ceiling
escalate_idle-IsBackoff poll_interval b (low, high) = (omega (arith, low), omega (arith, high))

interval-IsBackoff : (poll_interval : ℕ) → IsBackoff poll_interval poll_interval
interval-IsBackoff poll_interval = (omega arith, omega arith)

after_round-IsBackoff :
    (poll_interval : ℕ) (r : Claimed × Bool) (b : ℕ)
    → IsBackoff poll_interval b
    → IsBackoff poll_interval (after_round poll_interval r b)
unfolding after_round
after_round-IsBackoff poll_interval (claim_failed, notified) b h = h
after_round-IsBackoff poll_interval (claimed got size, notified) b h =
    elim (Bool-cases (got == size && ltb 0 got)) [
      | inl e ↦ rw e h
      | inr e ↦ elim (Bool-cases notified) [
        | inl f ↦ rw (e, f) (interval-IsBackoff poll_interval)
        | inr f ↦ elim (Bool-cases (got == 0)) [
          | inl g ↦ rw (e, f, g) (escalate_idle-IsBackoff poll_interval b h)
          | inr g ↦ rw (e, f, g) (interval-IsBackoff poll_interval)
        ]
      ]
    ]

after_rounds-IsBackoff :
    (poll_interval : ℕ) (rs : List (Claimed × Bool)) (b : ℕ)
    → IsBackoff poll_interval b
    → IsBackoff poll_interval (after_rounds poll_interval rs b)
unfolding after_rounds
after_rounds-IsBackoff poll_interval [] b h = h
after_rounds-IsBackoff poll_interval (r ∷ rs) b h =
    after_rounds-IsBackoff poll_interval rs (after_round poll_interval r b)
      (after_round-IsBackoff poll_interval r b h)

quiet_round :
    (poll_interval n b : ℕ)
    → after_round poll_interval (claimed 0 n, false) b
      ≡ escalate_idle b (idle_ceiling poll_interval)
unfolding after_round
quiet_round poll_interval n b = elim (Bool-cases (0 == n)) [ inl e ↦ rw e refl | inr e ↦ rw e refl ]

-- At the ceiling it stays there.
escalate_idle-ceiling :
    (poll_interval : ℕ)
    → escalate_idle (idle_ceiling poll_interval) (idle_ceiling poll_interval)
      ≡ idle_ceiling poll_interval
unfolding escalate_idle idle_ceiling
escalate_idle-ceiling poll_interval = omega arith

quiet-ceiling :
    (poll_interval : ℕ) (ns : List ℕ)
    → after_rounds poll_interval (quiet_rounds ns) (idle_ceiling poll_interval)
      ≡ idle_ceiling poll_interval
unfolding after_rounds
quiet-ceiling poll_interval [] = refl
quiet-ceiling poll_interval (n ∷ ns) =
    ap (after_rounds poll_interval (quiet_rounds ns)) (
      quiet_round poll_interval n (idle_ceiling poll_interval)
      ∙ escalate_idle-ceiling poll_interval)
    ∙ quiet-ceiling poll_interval ns

third_poll :
    (poll_interval b : ℕ)
    → IsBackoff poll_interval b
    → escalate_idle
        (escalate_idle (escalate_idle b (idle_ceiling poll_interval)) (idle_ceiling poll_interval))
        (idle_ceiling poll_interval)
      ≡ idle_ceiling poll_interval
unfolding escalate_idle idle_ceiling
third_poll poll_interval b (low, high) = omega (arith, low)

quiet-third :
    (poll_interval b k m n : ℕ) (ns : List ℕ)
    → IsBackoff poll_interval b
    → after_rounds poll_interval (quiet_rounds (k ∷ m ∷ n ∷ ns)) b ≡ idle_ceiling poll_interval
unfolding after_rounds
quiet-third poll_interval b k m n ns h =
    let wait : ℕ → ℕ = λ x. escalate_idle x (idle_ceiling poll_interval) in
    let round : ℕ → ℕ → ℕ = λ size. after_round poll_interval (claimed 0 size, false) in
    let two : round m (round k b) ≡ wait (wait b) =
      ap (round m) (quiet_round poll_interval k b) ∙ quiet_round poll_interval m (wait b) in
    let three : round n (round m (round k b)) ≡ wait (wait (wait b)) =
      ap (round n) two ∙ quiet_round poll_interval n (wait (wait b)) in
    ap (after_rounds poll_interval (quiet_rounds ns)) (three ∙ third_poll poll_interval b h)
    ∙ quiet-ceiling poll_interval ns

-- After any rounds of the fetcher's loop, the backoff lies between the lesser and the greater of the
-- poll interval and the ceiling; and three or more polls in a row that then find nothing, with no
-- wakeup notified, take it to the ceiling: eight times the interval, or 30 seconds if that is less.
pub after_rounds-ceiling :
    (poll_interval k m n : ℕ) (ns : List ℕ) (rs : List (Claimed × Bool))
    → IsBackoff poll_interval (after_rounds poll_interval rs poll_interval)
      × (after_rounds poll_interval
            (quiet_rounds (k ∷ m ∷ n ∷ ns))
            (after_rounds poll_interval rs poll_interval)
          ≡ min (8 * poll_interval) 30000000000)
unfolding idle_ceiling
after_rounds-ceiling poll_interval k m n ns rs =
    let h =
      after_rounds-IsBackoff poll_interval rs poll_interval (interval-IsBackoff poll_interval) in
    (h, quiet-third poll_interval _ k m n ns h ∙ omega arith)

-- A wait is longer than its backoff, by 10 ms at least and by 10 ms or a tenth at most.
pub jitter_lem :
    (random : Random) (base : ℕ)
    → InRange random
    → (base + 10000000 ≤ jitter random base)
      × (jitter random base ≤ base + max (base / 10) 10000000)
unfolding jitter
jitter_lem random base range = elim (Bool-cases (min base u64_max / 10 == 0)) [
  | inl e ↦ rw e (omega arith, omega arith)
  | inr e ↦
      let some_range : 0 < min base u64_max / 10 = ground arith in
      rw e (omega arith, omega (arith, range (min base u64_max / 10) some_range))
]
