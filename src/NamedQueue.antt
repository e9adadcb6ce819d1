-- ===== src/NamedQueue.antt =====
-- crates/eddyq-core/src/named_queue.rs: queue names, and the rows of eddyq_queues.
use Prim.Native.Char.{code}
use Prim.Native.String.{len}
use eddyq.Prelude.{
  ℕ, Bool, true, false, ◌&&◌, ◌||◌, String, Option, none, some, ◌∷◌, ltb, leb, ◌==◌, any, min,
  str_eq, if◌then◌else◌, ℤ, clamp,
}
use eddyq.Sql.{update, count, find}
use eddyq.Store.{Db, Job, NamedQueue, state_eq, running, Result, ok, err, invalid_argument, i32_max}

abbrev pub max_queue_name_len : ℕ
max_queue_name_len = 64

-- The characters that a queue name may have, by code point.
unfoldable pub is_name_char : ℕ → Bool
is_name_char c =
    leb b'0' c && leb c b'9'
    || leb b'A' c && leb c b'Z'
    || leb b'a' c && leb c b'z'
    || c == b'.'
    || c == b'_'
    || c == b'-'

unfoldable pub all_name_chars : String → Bool
all_name_chars String.[] = true
all_name_chars (String.◌∷◌ c s) = is_name_char (code c) && all_name_chars s

-- `len` counts bytes.
unfoldable pub validate_queue_name : String → Result (Unit {0})
validate_queue_name name =
    if len name == 0
    then err invalid_argument
    else if ltb max_queue_name_len (len name)
    then err invalid_argument
    else if all_name_chars name
    then ok tt
    else err invalid_argument

-- The jobs that a queue's counter counts.
unfoldable pub running_on : String → Job → Bool
unfolding state_eq
running_on name j = state_eq j.state running && str_eq j.queue name

abbrev pub is_named : String → NamedQueue → Bool
is_named name q = str_eq q.name name

-- A row with the table's defaults, which counts the jobs that run on the queue now.
abbrev pub new_queue : String → Db → NamedQueue
new_queue name db = record {
  name = name;
  running_count = count (running_on name) db.jobs;
  max_concurrency = i32_max;
  paused = false;
  default_timeout_ms = none;
}

-- INSERT … ON CONFLICT (name) DO UPDATE: `f` sets the columns that the statement gives.
unfoldable pub upsert_queue : String → (NamedQueue → NamedQueue) → Db → Db
unfolding running_on
upsert_queue name f db = record db {
  queues =
      if any (is_named name) db.queues
      then update (is_named name) f db.queues
      else f (new_queue name db) ∷ db.queues;
}

unfoldable pub set_concurrency : String → ℤ → Db → Db
unfolding upsert_queue
set_concurrency name max = upsert_queue name (λ q. record q { max_concurrency = clamp max })

unfoldable pub set_paused : String → Bool → Db → Db
unfolding upsert_queue
set_paused name paused = upsert_queue name (λ q. record q { paused = paused })

-- A duration in milliseconds as a positive INTEGER; 0 is no timeout.
unfoldable pub timeout_ms : Option ℕ → Option ℕ
timeout_ms none = none
timeout_ms (some d) = let m = min d i32_max in if ltb 0 m then some m else none

unfoldable pub set_timeout : String → Option ℕ → Db → Db
unfolding upsert_queue timeout_ms
set_timeout name timeout =
    upsert_queue name (λ q. record q { default_timeout_ms = timeout_ms timeout })

unfoldable pub get : String → Db → Option NamedQueue
get name db = find (is_named name) db.queues
