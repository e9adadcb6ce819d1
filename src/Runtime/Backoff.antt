-- ===== src/Runtime/Backoff.antt =====
-- The retry delay of crates/eddyq-core/src/retry.rs. Durations are nanoseconds; a random number is
-- an argument.
use eddyq.Prelude.{
  ℕ, ◌+◌, ◌-◌, ◌*◌, ◌/◌, ◌^◌, ◌≤◌, ◌<◌, arith, min, Option, none, some, leb, ◌==◌, if◌then◌else◌, ℤ,
  pos, negsuc, Bool-cases, inl, inr,
}
use eddyq.Store.{Env, i64_max}

-- Duration::MAX
abbrev pub duration_max : ℕ
duration_max = 2 ^ 64 * 1000000000 - 1

abbrev pub u64_max : ℕ
u64_max = 2 ^ 64 - 1

abbrev pub u32_max : ℕ
u32_max = 2 ^ 32 - 1

abbrev pub saturating_mul : ℕ → ℕ → ℕ
saturating_mul d n = min (d * n) duration_max

abbrev pub millis : ℕ
millis = 1000000

-- attempt.max(1) - 1, at most 20
abbrev pub exponent : ℤ → ℕ
exponent (pos n) = min (n - 1) 20
exponent (negsuc n) = 0

-- The delay without its jitter.
unfoldable pub capped_delay : ℤ → ℕ → ℕ → ℕ
capped_delay attempt base limit =
    let multiplier = 2 ^ min (exponent attempt) 32 in
    min (saturating_mul base (min multiplier u32_max)) limit

-- `gen_range(0..n)` for n > 0
abbrev pub Random : Type 0
Random = ℕ → ℕ

unfoldable pub backoff_delay : Random → ℤ → ℕ → ℕ → ℕ
unfolding capped_delay
backoff_delay random attempt base limit =
    let capped = capped_delay attempt base limit in
    let jitter_range = capped / millis / 4 in
    let jitter_ms = if jitter_range == 0 then 0 else random (min jitter_range u64_max) in
    capped + jitter_ms * millis

-- chrono::Duration::from_std fails past i64::MAX milliseconds.
unfoldable pub backoff_until : Random → Env → ℤ → ℕ → ℕ → ℕ
unfolding backoff_delay
backoff_until random env attempt base limit =
    let delay = backoff_delay random attempt base limit / millis in
    env.now + (if leb delay i64_max then delay else 0)

-- None after the last attempt. `max_attempts` is an i32 too.
unfoldable pub retry_schedule : Random → Env → ℕ → ℕ → ℕ → ℕ → Option ℕ
unfolding backoff_until
retry_schedule random env attempt max_attempts base limit =
    if leb max_attempts attempt
    then none
    else some (backoff_until random env (pos attempt) base limit)

-- What rand documents.
abbrev pub InRange : Random → Type 0
InRange random = (n : ℕ) → 0 < n → random n < n

-- The jitter is at most a quarter of what it is added to.
jittered :
    (random : Random) (capped : ℕ)
    → InRange random
    → 4
        * ((if capped / millis / 4 == 0 then 0 else random (min (capped / millis / 4) u64_max))
            * millis)
      ≤ capped
jittered random capped range = elim (Bool-cases (capped / millis / 4 == 0)) [
  | inl e ↦ rw e (omega arith)
  | inr e ↦
      let some_range : 0 < min (capped / millis / 4) u64_max = ground arith in
      rw e (omega (arith, range (min (capped / millis / 4) u64_max) some_range))
]

-- For every attempt and base the delay is at most five quarters of the cap: with a cap of no more
-- than half of the longest Duration, the addition does not overflow.
pub backoff_delay-le :
    (random : Random) (attempt : ℤ) (base limit : ℕ)
    → InRange random
    → 2 * limit ≤ duration_max
    → (4 * backoff_delay random attempt base limit ≤ 5 * limit)
      × (backoff_delay random attempt base limit ≤ duration_max)
unfolding backoff_delay capped_delay
backoff_delay-le random attempt base limit range small =
    let capped = capped_delay attempt base limit in
    let le : capped ≤ limit = capped_delay-le attempt base limit in
    let j = jittered random capped range in (omega (arith, le, j), omega (arith, le, j))
  where
    capped_delay-le : (attempt : ℤ) (base limit : ℕ) → capped_delay attempt base limit ≤ limit
    capped_delay-le attempt base limit = omega arith
