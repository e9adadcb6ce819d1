-- ===== src/Claiming/Limits.antt =====
-- How much a claim accepts of each queue, of each group and in all.
pub mod Queue
pub mod Group
pub mod Budgeted
pub mod Slots
pub mod Size
use eddyq.Prelude.{
  ℕ, suc, ◌+◌, ◌≤◌, ◌≡◌, refl, Bool, true, false, ◌&&◌, &&-left, &&-right, String, Option, none,
  some, List, [], ◌∷◌, ap, map, arith, str_eq, eq_iff, is_text, any_num, All, Memᴰ, length, ◌==◌,
  Bool-cases, inl, inr, if◌then◌else◌, sym, ◌∙◌,
}
use eddyq.Sql.{select, count}
use eddyq.Sql.Count.{count_mono, count-select, length-select}
use eddyq.Sql.Order.{All-map}
use eddyq.Store.{Job, Env}
use eddyq.Store.Serial.{Below}
use eddyq.Fetch.Claim.Budgets.{Held}
use eddyq.Fetch.Claim.Lanes.{Accepted}
use eddyq.Fetch.Claim.Write.{is_accepted}
use eddyq.Invariant.{job_id}
use eddyq.Claiming.Chosen.{IsChosen, All-mem}
use eddyq.Claiming.Identity.{count-any_num, ids_of}
use eddyq.Claiming.Counted.{accepted_row}

abbrev pub of_queue : String → Accepted → Bool
of_queue q a = str_eq a.queue q

abbrev pub of_group : String → Accepted → Bool
of_group k a = is_text a.group_key k

length-map_id : (acc : List Accepted) → length (ids_of acc) ≡ length acc
length-map_id [] = refl
length-map_id (a ∷ bs) = ap suc (length-map_id bs)

any_num-select :
    (c : Accepted → Bool) (a : Accepted) (acc : List Accepted)
    → Memᴰ a acc
    → c a ≡ true
    → any_num a.id (ids_of (select c acc)) ≡ true
unfolding select
any_num-select c a [] m e = elim m [ ]
any_num-select c a (b ∷ bs) (Memᴰ.head q) e = rw (← q, e) (ground arith)
any_num-select c a (b ∷ bs) (Memᴰ.tail m) e = ground (arith, any_num-select c a bs m e)

-- The rows that an UPDATE of the accepted ids touches are no more than the acceptances: counted by
-- any test `d` on rows that `c` shows of acceptances.
pub count-claimed-le :
    (env : Env) (held : Held) (kinds queues : List String) (jobs : List Job) (n : ℕ)
    (acc : List Accepted) (c : Accepted → Bool) (d : Job → Bool)
    → Below job_id n jobs
    → All (IsChosen env held kinds queues jobs) acc
    → ((a : Accepted) (x : IsChosen env held kinds queues jobs a) → d x.job ≡ true → c a ≡ true)
    → count d (select (is_accepted acc) jobs) ≤ count c acc
count-claimed-le env held kinds queues jobs n acc c d w h shows = omega (
  arith,
  count-select d (is_accepted acc) jobs,
  length-select c acc,
  length-map_id (select c acc),
  count-any_num job_id n jobs (ids_of (select c acc)) w,
  count_mono (λ j. is_accepted acc j && d j) (λ j. any_num j.id (ids_of (select c acc))) jobs
      (All-map (λ j. Memᴰ j jobs)
        (λ j. (is_accepted acc j && d j) ≡ true → any_num j.id (ids_of (select c acc)) ≡ true)
        (λ j m e.
          let (a, am, x, same) =
            accepted_row env held kinds queues jobs n w acc h j m
              (&&-left (is_accepted acc j) (d j) e) in
          rw (← (x.id ∙ ap job_id same)) (
            any_num-select c a acc am (shows a x (rw same (&&-right (is_accepted acc j) (d j) e)))))
        jobs (All-mem jobs)),
)
