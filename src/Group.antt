-- ===== src/Group.antt =====
-- crates/eddyq-core/src/group.rs: the rows of eddyq_groups, and the rules that make new ones.
use Prim.Native.Char.{Char, code}
use Prim.Native.String
use eddyq.Prelude.{
  ℕ, ◌*◌, Bool, true, false, ◌&&◌, ◌||◌, String, Option, none, some, List, [], ◌∷◌, ltb, leb, ◌==◌,
  any, min, str_eq, not, if◌then◌else◌, ℤ, clamp, gtb,
}
use eddyq.Sql.{select, delete, update, find, sort}
use eddyq.Store.{Db, Group, StoredRule, Env, Result, ok, err, invalid_argument, database, i32_max}

abbrev pub unlimited : ℕ
unlimited = i32_max

abbrev pub is_keyed : String → Group → Bool
is_keyed key g = str_eq g.key key

-- A row with the table's defaults.
unfoldable pub default_group : String → Group
default_group key = record {
  key = key;
  running_count = 0;
  max_concurrency = i32_max;
  paused = false;
  rate_count = none;
  rate_period_ms = none;
  tokens = 0;
  tokens_refilled_at = none;
}

-- INSERT … ON CONFLICT (key) DO UPDATE: `f` sets the columns that the statement gives.
unfoldable pub upsert_row : String → (Group → Group) → List Group → List Group
unfolding default_group
upsert_row key f groups =
    if any (is_keyed key) groups
    then update (is_keyed key) f groups
    else f (default_group key) ∷ groups

unfoldable pub upsert_group : String → (Group → Group) → Db → Db
unfolding upsert_row
upsert_group key f db = record db { groups = upsert_row key f db.groups }

unfoldable pub set_concurrency : String → ℤ → Db → Db
unfolding upsert_group
set_concurrency key max = upsert_group key (λ g. record g { max_concurrency = clamp max })

unfoldable pub set_paused : String → Bool → Db → Db
unfolding upsert_group
set_paused key paused = upsert_group key (λ g. record g { paused = paused })

unfoldable pub get : String → Db → Option Group
get key db = find (is_keyed key) db.groups

pub record GroupRule : Type 0 where
  pub max_concurrency : Option ℕ
  pub rate_count : Option ℕ
  pub rate_period : Option ℕ
  pub priority : ℤ

unfoldable pub to_i32 : Option ℕ → Option ℕ
to_i32 none = none
to_i32 (some n) = some (min n i32_max)

abbrev pub is_none {ℓ} : {A : Type ℓ} → Option A → Bool
is_none none = true
is_none (some a) = false

-- The CHECK on rates: both columns null, or both positive.
unfoldable pub rate_check : Option ℕ → Option ℕ → Bool
rate_check none none = true
rate_check (some count) (some period) = ltb 0 count && ltb 0 period
rate_check _ _ = false

abbrev pub is_pattern : String → StoredRule → Bool
is_pattern pattern r = str_eq r.pattern pattern

unfoldable pub set_rule : String → GroupRule → Db → Result Db
unfolding to_i32 rate_check
set_rule pattern rule db =
    let period_ms = to_i32 rule.rate_period in
    let rate_count = to_i32 rule.rate_count in
    let row : StoredRule = record {
      pattern = pattern;
      max_concurrency = rule.max_concurrency;
      rate_count = rate_count;
      rate_period_ms = period_ms;
      priority = rule.priority;
    } in
    if is_none rule.max_concurrency && is_none rate_count
    then err invalid_argument
    else if not (rate_check rate_count period_ms)
    then err database
    else if any (is_pattern pattern) db.rules
    then ok (record db { rules = update (is_pattern pattern) (λ _. row) db.rules })
    else ok (record db { rules = row ∷ db.rules })

unfoldable pub remove_rule : String → Db → Bool × Db
remove_rule pattern db =
    (any (is_pattern pattern) db.rules, record db { rules = delete (is_pattern pattern) db.rules })

-- REPLACE(REPLACE(pattern, '*', '%'), '?', '_')
unfoldable pub like_pattern : String → String
like_pattern String.[] = String.[]
like_pattern (String.◌∷◌ c s) =
    let c' : Char = (if code c == b'*' then "%" else if code c == b'?' then "_" else c) in
    String.◌∷◌ c' (like_pattern s)

-- ORDER BY priority DESC, LENGTH(pattern) DESC
unfoldable pub rule_before : StoredRule → StoredRule → Bool
rule_before a b =
    gtb a.priority b.priority
    || not (gtb b.priority a.priority) && leb (String.count b.pattern) (String.count a.pattern)

-- ORDER BY … LIMIT 1 over the rules that match.
unfoldable pub best_rule : Env → String → List StoredRule → Option StoredRule
unfolding like_pattern rule_before sort
best_rule env key rules =
    elim (sort rule_before (select (λ r. env.like key (like_pattern r.pattern)) rules)) [
      | [] ↦ none
      | r ∷ rest ↦ some r
    ]

abbrev pub or_default : Option ℕ → ℕ → ℕ
or_default none d = d
or_default (some n) d = n

-- A full bucket of `count` tokens, in units of 1 / period.
abbrev pub bucket : Option ℕ → Option ℕ → ℕ
bucket (some count) (some period) = count * period
bucket _ _ = 0

abbrev pub stamp : ℕ → Option ℕ → Option ℕ
stamp now none = none
stamp now (some _) = some now

abbrev pub add_from_rule : ℕ → String → Option StoredRule → Db → Db
add_from_rule now key none db = db
add_from_rule now key (some r) db = record db {
  groups =
      record {
        key = key;
        running_count = 0;
        max_concurrency = or_default r.max_concurrency i32_max;
        paused = false;
        rate_count = r.rate_count;
        rate_period_ms = r.rate_period_ms;
        tokens = bucket r.rate_count r.rate_period_ms;
        tokens_refilled_at = stamp now r.rate_count;
      }
      ∷ db.groups;
}

-- A row from the best rule, unless the group has one (ON CONFLICT DO NOTHING).
unfoldable pub materialize_from_rule : Env → String → Db → Db
unfolding best_rule
materialize_from_rule env key db =
    if any (is_keyed key) db.groups
    then db
    else add_from_rule env.now key (best_rule env key db.rules) db

unfoldable pub set_rate : Env → String → ℕ → ℕ → Db → Result Db
unfolding upsert_group
set_rate env key count period db =
    let count' = min count i32_max in
    let period_ms = min period i32_max in
    if count' == 0 || period_ms == 0
    then err invalid_argument
    else ok (
        upsert_group key
          (λ g. record g {
            rate_count = some count';
            rate_period_ms = some period_ms;
            tokens = count' * period_ms;
            tokens_refilled_at = some env.now;
          })
          db)

unfoldable pub clear_rate : String → Db → Db
clear_rate key db = record db {
  groups =
      update (is_keyed key)
        (λ g. record g {
          rate_count = none;
          rate_period_ms = none;
          tokens = 0;
          tokens_refilled_at = none;
        })
        db.groups;
}
