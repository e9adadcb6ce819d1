-- ===== src/Fetch/Claim/Groups.antt =====
-- Phase 2 of claim_batch: the groups that have work now, and the slots of each: what its
-- concurrency cap leaves, and the whole tokens in its refilled bucket.
use eddyq.Prelude.{
  ℕ, ◌+◌, ◌-◌, ◌*◌, ◌/◌, Bool, true, false, ◌&&◌, not, String, Option, none, some, List, [], ◌∷◌,
  ◌++◌, map, min, ltb, leb, any, any_text, str_eq, if◌then◌else◌,
}
use eddyq.Sql.{select, delete}
use eddyq.Store.{Job, Group, Env, pending, state_eq, i32_max}
use eddyq.Group.{is_keyed}
use eddyq.Fetch.Claim.Budgets.{Held}

-- Tokens are in units of 1 / period_ms.
pub record GroupState : Type 0 where
  pub slots : ℕ
  pub refilled_tokens : ℕ
  pub rate_limited : Bool
  pub period_ms : ℕ

abbrev pub GroupSlots : Type 0
GroupSlots = List (String × GroupState)

unfoldable pub state_of : String → GroupSlots → Option GroupState
state_of key [] = none
state_of key ((k, st) ∷ rest) = if str_eq k key then some st else state_of key rest

-- state.slots = left, through iter_mut
unfoldable pub take_slots : String → ℕ → GroupSlots → GroupSlots
take_slots key left [] = []
take_slots key left ((k, st) ∷ rest) =
    (k, if str_eq k key then record st { slots = left } else st) ∷ take_slots key left rest

-- SELECT DISTINCT
unfoldable pub distinct : List String → List String
distinct [] = []
distinct (x ∷ xs) = x ∷ delete (str_eq x) (distinct xs)

unfoldable pub keys_of : List Job → List String
keys_of [] = []
keys_of (j ∷ js) = let rest = keys_of js in elim j.group_key [ none ↦ rest | some k ↦ k ∷ rest ]

-- The keys that both walks find: those of the pending, due jobs of the kinds, on the queues.
unfoldable pub has_work : Env → List String → List String → Job → Bool
unfolding state_eq
has_work env kinds queues j =
    state_eq j.state pending
    && leb j.scheduled_at env.now
    && any_text j.kind kinds
    && any_text j.queue queues

unfoldable pub active_group_keys : Env → List String → List String → List Job → List String
unfolding distinct keys_of has_work
active_group_keys env kinds queues jobs =
    distinct (keys_of (select (has_work env kinds queues) jobs))

abbrev pub elapsed : ℕ → Option ℕ → ℕ
elapsed now none = 0
elapsed now (some t) = now - t

-- min(tokens + elapsed * count / period, count)
unfoldable pub refill : ℕ → ℕ → ℕ → Option ℕ → ℕ → ℕ
refill now tokens count at period = min (tokens + elapsed now at * count) (count * period)

unfoldable pub conc_slots : Group → ℕ
conc_slots g = if g.paused then 0 else g.max_concurrency - g.running_count

abbrev pub unrated : ℕ → GroupState
unrated slots = record { slots = slots; refilled_tokens = 0; rate_limited = false; period_ms = 0 }

abbrev rated : ℕ → Group → ℕ → ℕ → GroupState
rated now g count period =
    let tokens = refill now g.tokens count g.tokens_refilled_at period in
    record {
      slots = min (conc_slots g) (min (tokens / period) i32_max);
      refilled_tokens = tokens;
      rate_limited = true;
      period_ms = period;
    }

abbrev with_rate : ℕ → Group → Option ℕ → Option ℕ → GroupState
with_rate now g none period = unrated (min (conc_slots g) i32_max)
with_rate now g (some count) none = unrated (min (conc_slots g) i32_max)
with_rate now g (some count) (some period) =
    if ltb 0 count && ltb 0 period
    then rated now g count period
    else unrated (min (conc_slots g) i32_max)

unfoldable pub group_state : ℕ → Group → GroupState
unfolding refill conc_slots
group_state now g = with_rate now g g.rate_count g.rate_period_ms

-- A key with no row is uncapped; a key whose row a peer holds is left out.
unfoldable pub group_slots : Env → Held → List String → List Group → GroupSlots
unfolding group_state
group_slots env held keys groups =
    map (λ (g : Group). (g.key, group_state env.now g))
      (select (λ (g : Group). any_text g.key keys && not (held.group_row g.key)) groups)
    ++ map (λ k. (k, unrated i32_max)) (select (λ k. not (any (is_keyed k) groups)) keys)
