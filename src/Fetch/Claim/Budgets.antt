-- ===== src/Fetch/Claim/Budgets.antt =====
-- Phase 0 of claim_batch: the free slots of each subscribed queue.
use eddyq.Prelude.{
  ℕ, ◌-◌, Bool, ◌&&◌, not, String, Option, none, some, List, [], ◌∷◌, ◌++◌, map, ltb, any_text,
  str_eq, if◌then◌else◌,
}
use eddyq.Sql.{select}
use eddyq.Store.{NamedQueue, i32_max}

-- The rows that a peer transaction holds.
pub record Held : Type 0 where
  pub queue_row : String → Bool
  pub group_row : String → Bool
  pub job_row : ℕ → Bool

-- A HashMap from queue names: the first entry of a name is the one that was inserted last.
abbrev pub Budget : Type 0
Budget = List (String × ℕ)

unfoldable pub lookup_budget : String → Budget → Option ℕ
lookup_budget name [] = none
lookup_budget name ((n, b) ∷ rest) = if str_eq n name then some b else lookup_budget name rest

abbrev pub or_unlimited : Option ℕ → ℕ
or_unlimited none = i32_max
or_unlimited (some b) = b

unfoldable pub budget_for : String → Budget → ℕ
unfolding lookup_budget
budget_for name tbl = or_unlimited (lookup_budget name tbl)

-- entry(name).and_modify(|b| *b = (*b - n).max(0))
unfoldable pub spend : String → ℕ → Budget → Budget
spend name n [] = []
spend name n ((m, b) ∷ rest) = (m, if str_eq m name then b - n else b) ∷ spend name n rest

unfoldable pub queue_row_needs_lock : ℕ → ℕ → Bool → Bool
queue_row_needs_lock running max paused = not paused && ltb max i32_max && ltb running max

abbrev pub slots_of : NamedQueue → ℕ
slots_of q = if q.paused then 0 else q.max_concurrency - q.running_count

abbrev pub needs_lock : NamedQueue → Bool
needs_lock q = queue_row_needs_lock q.running_count q.max_concurrency q.paused

abbrev pub is_subscribed : List String → NamedQueue → Bool
is_subscribed queues q = any_text q.name queues

-- The rows that bind, by the unlocked read.
unfoldable pub binding : List String → List NamedQueue → List String
unfolding queue_row_needs_lock
binding queues seen =
    map (λ (q : NamedQueue). q.name) (select (λ q. is_subscribed queues q && needs_lock q) seen)

-- Budgets from the unlocked read, then 0 for every row that binds, then those of the binding rows
-- that were locked, as they are now.
unfoldable pub queue_budget : Held → List NamedQueue → List String → List NamedQueue → Budget
unfolding binding
queue_budget held seen queues rows =
    let names = binding queues seen in
    map (λ (q : NamedQueue). (q.name, slots_of q))
      (select (λ q. any_text q.name names && not (held.queue_row q.name)) rows)
    ++ (map (λ n. (n, 0)) names
        ++ map (λ (q : NamedQueue). (q.name, slots_of q)) (select (is_subscribed queues) seen))
