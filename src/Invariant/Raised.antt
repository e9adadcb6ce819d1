-- ===== src/Invariant/Raised.antt =====
-- Step 4 of a claim raises every counter by the number of the jobs that were claimed under it.
use eddyq.Prelude.{
  ℕ, ◌+◌, ◌≡◌, refl, false, String, Option, none, some, List, [], ◌∷◌, arith, str_eq, eq_iff, any,
  any_text, str_eq_self, if◌then◌else◌, Bool-cases, inl, inr,
}
use eddyq.Sql.{count, delete}
use eddyq.Sql.Keyed.{counter, counter-update, counter-none, counter-some, or_zero, at_some}
use eddyq.Store.{Job, Group, NamedQueue}
use eddyq.Group.{is_keyed, upsert_row}
use eddyq.Fetch.Sweep.{on_group, on_queue}
use eddyq.Fetch.Claim.Groups.{GroupState, GroupSlots, state_of, distinct, keys_of}
use eddyq.Fetch.Claim.Write.{charge, bump_groups, bump_queues, queues_of}

charge-running :
    (now d : ℕ) (st : Option GroupState) (g : Group)
    → (charge now d st g).running_count ≡ g.running_count + d
charge-running now d none g = refl
charge-running now d (some st) g = ground arith

charge-key : (now d : ℕ) (st : Option GroupState) (g : Group) → (charge now d st g).key ≡ g.key
charge-key now d none g = refl
charge-key now d (some st) g = ground arith

abbrev group_at : String → List Group → Option ℕ
group_at = counter (λ (g : Group). g.key) (λ g. g.running_count)

abbrev queue_at : String → List NamedQueue → Option ℕ
queue_at = counter (λ (g : NamedQueue). g.name) (λ g. g.running_count)

-- An upsert that adds `d` to the counter of `j`.
upsert_row-adds :
    (j k : String) (d : ℕ) (f : Group → Group) (gs : List Group)
    → ((g : Group) → (f g).key ≡ g.key)
    → ((g : Group) → (f g).running_count ≡ g.running_count + d)
    → or_zero (group_at k (upsert_row j f gs))
      ≡ or_zero (group_at k gs) + (if str_eq j k then d else 0)
unfolding upsert_row counter
upsert_row-adds j k d f gs same adds = elim (Bool-cases (any (is_keyed j) gs)) [
  | inl e ↦
      let (v, there) = counter-some (λ (g : Group). g.key) (λ g. g.running_count) j gs e in
      rw
        (
          e,
          counter-update (λ (g : Group). g.key) (λ g. g.running_count) (λ v. v + d) f same adds j k
              gs,
        )
        (elim (Bool-cases (str_eq j k)) [
          | inl t ↦ rw (t, ← (eq_iff j k).0 t, there) refl
          | inr t ↦ rw t (omega arith)
        ])
  | inr e ↦
      rw (e, same, adds)
        (elim (Bool-cases (str_eq j k)) [
          | inl t ↦
              rw
                (
                  t,
                  ← (eq_iff j k).0 t,
                  counter-none (λ (g : Group). g.key) (λ g. g.running_count) j gs e,
                )
                refl
          | inr t ↦ rw t (omega arith)
        ])
]

-- Keys without repetition, as `distinct` gives them.
abbrev NoRepeat : List String → Type 0
NoRepeat [] = Unit
NoRepeat (x ∷ xs) = (any_text x xs ≡ false) × NoRepeat xs

any_text-delete :
    (k x : String) (xs : List String)
    → any_text k (delete (str_eq x) xs) ≡ (if str_eq x k then false else any_text k xs)
unfolding delete
any_text-delete k x [] = ground arith
any_text-delete k x (y ∷ ys) =
    ground (arith, eq_iff x y, eq_iff x k, eq_iff y k, any_text-delete k x ys)

NoRepeat-delete : (x : String) (xs : List String) → NoRepeat xs → NoRepeat (delete (str_eq x) xs)
unfolding delete
NoRepeat-delete x [] h = tt
NoRepeat-delete x (y ∷ ys) h = elim (Bool-cases (str_eq x y)) [
  | inl e ↦ rw e (NoRepeat-delete x ys h.1)
  | inr e ↦ rw e (rw (any_text-delete y x ys, e) h.0, NoRepeat-delete x ys h.1)
]

distinct-NoRepeat : (xs : List String) → NoRepeat (distinct xs)
unfolding distinct
distinct-NoRepeat [] = tt
distinct-NoRepeat (x ∷ xs) = (
  rw (any_text-delete x x (distinct xs), str_eq_self x) refl,
  NoRepeat-delete x (distinct xs) (distinct-NoRepeat xs),
)

any_text-distinct : (k : String) (xs : List String) → any_text k (distinct xs) ≡ any_text k xs
unfolding distinct
any_text-distinct k [] = refl
any_text-distinct k (x ∷ xs) =
    rw (any_text-delete k x (distinct xs), any_text-distinct k xs) (ground arith)

bump_groups-adds :
    (now : ℕ) (slots : GroupSlots) (claimed : List Job) (k : String) (ks : List String)
    (gs : List Group)
    → NoRepeat ks
    → or_zero (group_at k (bump_groups now slots claimed ks gs))
      ≡ or_zero (group_at k gs) + (if any_text k ks then count (on_group k) claimed else 0)
unfolding bump_groups
bump_groups-adds now slots claimed k [] gs h = omega arith
bump_groups-adds now slots claimed k (x ∷ xs) gs h =
    let d = count (on_group x) claimed in
    let st = state_of x slots in
    let gs' = upsert_row x (charge now d st) gs in
    rw
      (
        bump_groups-adds now slots claimed k xs gs' h.1,
        upsert_row-adds x k d (charge now d st) gs (charge-key now d st) (charge-running now d st),
      )
      (elim (Bool-cases (str_eq x k)) [
        | inl e ↦ rw (e, ← (eq_iff x k).0 e, h.0) (omega arith)
        | inr e ↦ rw e (omega arith)
      ])

at_some-zero : (o : Option ℕ) → o ≡ at_some (λ v. v + 0) o
at_some-zero o = ground arith

at_some-once :
    (d : ℕ) (o : Option ℕ) → at_some (λ v. v + 0) (at_some (λ v. v + d) o) ≡ at_some (λ v. v + d) o
at_some-once d o = ground arith

bump_queues-adds :
    (claimed : List Job) (k : String) (ks : List String) (qs : List NamedQueue)
    → NoRepeat ks
    → queue_at k (bump_queues claimed ks qs)
      ≡ at_some (λ v. v + (if any_text k ks then count (on_queue k) claimed else 0)) (queue_at k qs)
unfolding bump_queues
bump_queues-adds claimed k [] qs h = at_some-zero (queue_at k qs)
bump_queues-adds claimed k (x ∷ xs) qs h =
    let d = count (on_queue x) claimed in
    rw
      (
        bump_queues-adds claimed k xs _ h.1,
        counter-update (λ (g : NamedQueue). g.name) (λ g. g.running_count) (λ v. v + d)
            (λ r. record r { running_count = r.running_count + d }) (λ r. refl) (λ r. refl) x k qs,
      )
      (elim (Bool-cases (str_eq x k)) [
        | inl e ↦ rw (e, ← (eq_iff x k).0 e, h.0) (at_some-once d (queue_at x qs))
        | inr e ↦ rw e refl
      ])

uncounted_group :
    (k : String) (jobs : List Job) → any_text k (keys_of jobs) ≡ false → count (on_group k) jobs ≡ 0
unfolding keys_of on_group count
uncounted_group k [] h = refl
uncounted_group k (j ∷ js) h = ground (arith, uncounted_group k js)

uncounted_queue :
    (k : String) (jobs : List Job)
    → any_text k (queues_of jobs) ≡ false
    → count (on_queue k) jobs ≡ 0
unfolding queues_of on_queue count
uncounted_queue k [] h = refl
uncounted_queue k (j ∷ js) h = ground (arith, uncounted_queue k js)

-- A group's counter rises by the number of the jobs that were claimed in it.
pub bump_groups-counts :
    (now : ℕ) (slots : GroupSlots) (claimed : List Job) (k : String) (gs : List Group)
    → or_zero (group_at k (bump_groups now slots claimed (distinct (keys_of claimed)) gs))
      ≡ or_zero (group_at k gs) + count (on_group k) claimed
bump_groups-counts now slots claimed k gs =
    rw
      (
        bump_groups-adds now slots claimed k (distinct (keys_of claimed)) gs
            (distinct-NoRepeat (keys_of claimed)),
        any_text-distinct k (keys_of claimed),
      )
      (ground (arith, uncounted_group k claimed))

pub bump_queues-counts :
    (claimed : List Job) (k : String) (qs : List NamedQueue)
    → queue_at k (bump_queues claimed (distinct (queues_of claimed)) qs)
      ≡ at_some (λ v. v + count (on_queue k) claimed) (queue_at k qs)
bump_queues-counts claimed k qs =
    rw
      (
        bump_queues-adds claimed k (distinct (queues_of claimed)) qs
            (distinct-NoRepeat (queues_of claimed)),
        any_text-distinct k (queues_of claimed),
      )
      (ground (arith, uncounted_queue k claimed))
