-- ===== src/Unique/Rows.antt =====
-- What the statements do to the number of live jobs that hold a key.
use eddyq.Prelude.{
  ℕ, ◌≤◌, ◌≡◌, refl, arith, String, Bool, true, false, ◌&&◌, Option, none, some, List, [], ◌∷◌, All,
  any, str_eq, is_text, eq_iff,
}
use eddyq.Sql.{update, delete, count}
use eddyq.Sql.Count.{count-update, count-delete, count_mono}
use eddyq.Sql.Order.{All-intro}
use eddyq.Store.{Job, DynEnqueue}
use eddyq.Enqueue.Insert.{holds_key, conflicts, new_job, is_live}

-- At most one live job holds each key.
abbrev pub IsUnique : List Job → Type 0
IsUnique jobs = (kind key : String) → count (holds_key kind key) jobs ≤ 1

count_of_none : (p : Job → Bool) (jobs : List Job) → any p jobs ≡ false → count p jobs ≡ 0
unfolding count
count_of_none p [] h = refl
count_of_none p (x ∷ xs) h = ground (arith, count_of_none p xs)

fresh_key :
    (k : Option String) (kind key own : String) (jobs : List Job)
    → conflicts own k jobs ≡ false
    → (str_eq own kind && is_text k key) ≡ true
    → count (holds_key kind key) jobs ≡ 0
unfolding conflicts
fresh_key none kind key own jobs c e = ground arith
fresh_key (some k) kind key own jobs c e =
    let kinds : own ≡ kind = (eq_iff own kind).0 (ground arith) in
    let keys : k ≡ key = (eq_iff k key).0 (ground arith) in
    rw (← kinds, ← keys) (count_of_none (holds_key own k) jobs c)

pub grow-IsUnique :
    (id now : ℕ) (req : DynEnqueue) (jobs : List Job)
    → conflicts req.kind req.unique_key jobs ≡ false
    → IsUnique jobs
    → IsUnique (new_job id now req ∷ jobs)
unfolding count holds_key is_live
grow-IsUnique id now req jobs fresh u kind key =
    ground (arith, u kind key, fresh_key req.unique_key kind key req.kind jobs fresh)

-- An UPDATE after which no row holds a key that it did not hold.
pub update-IsUnique :
    (p : Job → Bool) (f : Job → Job) (jobs : List Job)
    → ((kind key : String)
        → All
            (λ a. (p a && holds_key kind key (f a)) ≡ true → (p a && holds_key kind key a) ≡ true)
            jobs)
    → IsUnique jobs
    → IsUnique (update p f jobs)
update-IsUnique p f jobs h u kind key = omega (
  arith,
  u kind key,
  count-update (holds_key kind key) p f jobs,
  count_mono (λ a. p a && holds_key kind key (f a)) (λ a. p a && holds_key kind key a) jobs
      (h kind key),
)

pub update_any-IsUnique :
    (p : Job → Bool) (f : Job → Job) (jobs : List Job)
    → ((kind key : String) (a : Job)
        → (p a && holds_key kind key (f a)) ≡ true
        → (p a && holds_key kind key a) ≡ true)
    → IsUnique jobs
    → IsUnique (update p f jobs)
update_any-IsUnique p f jobs h u =
    update-IsUnique p f jobs (λ kind key. All-intro _ (h kind key) jobs) u

pub delete-IsUnique : (p : Job → Bool) (jobs : List Job) → IsUnique jobs → IsUnique (delete p jobs)
delete-IsUnique p jobs u kind key =
    omega (arith, u kind key, count-delete (holds_key kind key) p jobs)
