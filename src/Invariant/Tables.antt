-- ===== src/Invariant/Tables.antt =====
-- Writes to the tables of queues, groups and rules: named_queue.rs and group.rs of
-- crates/eddyq-core/src, and the repair of counters.
use eddyq.Prelude.{
  ℕ, ◌≡◌, refl, String, Bool, true, false, ◌&&◌, Option, none, some, List, arith, any, min, str_eq,
  eq_iff, if◌then◌else◌, Bool-cases, inl, inr, ◌==◌, ◌||◌,
}
use eddyq.Sql.{count}
use eddyq.Sql.Keyed.{counter, counter-update, counter-none, or_zero, at_some}
use eddyq.Store.{Db, Group, NamedQueue, StoredRule, Env}
use eddyq.NamedQueue
use eddyq.NamedQueue.{running_on, is_named, upsert_queue}
use eddyq.Group
use eddyq.Group.{is_keyed, default_group, upsert_row, upsert_group}
use eddyq.Fetch.Sweep.{running_in}
use eddyq.Invariant.{IsCounted, group_counter, queue_counter, Agrees, OnOk}

kept : (b : Bool) (o : Option ℕ) → (if b then at_some (λ v. v) o else o) ≡ o
kept true none = refl
kept true (some v) = refl
kept false o = refl

added_row :
    (k j : String) (o : Option ℕ) (n m : ℕ)
    → (str_eq j k ≡ true → n ≡ m)
    → Agrees o m
    → Agrees (if str_eq j k then some n else o) m
added_row k j o n m e h = elim (Bool-cases (str_eq j k)) [ inl b ↦ rw b (e b) | inr b ↦ rw b h ]

pub upsert_queue-IsCounted :
    (name : String) (f : NamedQueue → NamedQueue) (db : Db)
    → ((q : NamedQueue) → (f q).name ≡ q.name)
    → ((q : NamedQueue) → (f q).running_count ≡ q.running_count)
    → IsCounted db
    → IsCounted (upsert_queue name f db)
unfolding upsert_queue
upsert_queue-IsCounted name f db same steady v = record {
  groups = v.groups;
  queues = λ k. elim (Bool-cases (any (is_named name) db.queues)) [
    | inl e ↦
        rw
          (
            e,
            counter-update (λ (q : NamedQueue). q.name) (λ q. q.running_count) (λ n. n) f same
                steady name k db.queues,
            kept (str_eq name k) (queue_counter k db),
          )
          (v.queues k)
    | inr e ↦
        unfold counter in
        rw (e, same (NamedQueue.new_queue name db), steady (NamedQueue.new_queue name db))
          (added_row k name (queue_counter k db) _ _ (λ b. rw ((eq_iff name k).0 b) refl)
            (v.queues k))
  ];
  serial = v.serial;
}

fresh_group :
    (k j : String) (o : Option ℕ) (n : ℕ)
    → (str_eq j k ≡ true → o ≡ none)
    → or_zero o ≡ n
    → or_zero (if str_eq j k then some 0 else o) ≡ n
fresh_group k j o n e h = ground arith

pub upsert_group-IsCounted :
    (key : String) (f : Group → Group) (db : Db)
    → ((g : Group) → (f g).key ≡ g.key)
    → ((g : Group) → (f g).running_count ≡ g.running_count)
    → IsCounted db
    → IsCounted (upsert_group key f db)
unfolding upsert_group upsert_row
upsert_group-IsCounted key f db same steady v = record {
  groups = λ k. elim (Bool-cases (any (is_keyed key) db.groups)) [
    | inl e ↦
        rw
          (
            e,
            counter-update (λ (g : Group). g.key) (λ g. g.running_count) (λ n. n) f same steady key
                k db.groups,
            kept (str_eq key k) (group_counter k db),
          )
          (v.groups k)
    | inr e ↦
        unfold counter default_group in
        rw (e, same _, steady _)
          (fresh_group k key (group_counter k db) (count (running_in k) db.jobs)
            (λ b.
              rw (← (eq_iff key k).0 b)
                (counter-none (λ (g : Group). g.key) (λ g. g.running_count) key db.groups e))
            (v.groups k))
  ];
  queues = v.queues;
  serial = v.serial;
}

pub set_rate-IsCounted :
    (env : Env) (key : String) (count period : ℕ) (db : Db)
    → IsCounted db
    → OnOk IsCounted (Group.set_rate env key count period db)
unfolding Group.set_rate
set_rate-IsCounted env key count period db v =
    elim (Bool-cases (min count Group.unlimited == 0 || min period Group.unlimited == 0)) [
      | inl e ↦ rw e tt
      | inr e ↦ rw e (upsert_group-IsCounted key _ db (λ g. refl) (λ g. refl) v)
    ]

abbrev clear_columns : Group → Group
clear_columns g = record g {
  rate_count = none;
  rate_period_ms = none;
  tokens = 0;
  tokens_refilled_at = none;
}

pub clear_rate-IsCounted :
    (key : String) (db : Db) → IsCounted db → IsCounted (Group.clear_rate key db)
unfolding Group.clear_rate
clear_rate-IsCounted key db v = record {
  groups = λ k.
      rw
        (
          counter-update (λ (g : Group). g.key) (λ g. g.running_count) (λ n. n) (clear_columns)
              (λ g. refl) (λ g. refl) key k db.groups,
          kept (str_eq key k) (group_counter k db),
        )
        (v.groups k);
  queues = v.queues;
  serial = v.serial;
}

pub rules-IsCounted :
    (rules : List StoredRule) (db : Db) → IsCounted db → IsCounted (record db { rules = rules })
rules-IsCounted rules db v = record { groups = v.groups; queues = v.queues; serial = v.serial }

pub set_rule-IsCounted :
    (pattern : String) (rule : Group.GroupRule) (db : Db)
    → IsCounted db
    → OnOk IsCounted (Group.set_rule pattern rule db)
unfolding Group.set_rule
set_rule-IsCounted pattern rule db v =
    elim (Bool-cases
      (Group.is_none rule.max_concurrency && Group.is_none (Group.to_i32 rule.rate_count))) [
        | inl e ↦ rw e tt
        | inr e ↦
            elim (Bool-cases
              (Group.rate_check (Group.to_i32 rule.rate_count) (Group.to_i32 rule.rate_period))) [
                | inl c ↦ elim (Bool-cases (any (Group.is_pattern pattern) db.rules)) [
                  | inl k ↦ rw (e, c, k) (rules-IsCounted _ db v)
                  | inr k ↦ rw (e, c, k) (rules-IsCounted _ db v)
                ]
                | inr c ↦ rw (e, c) tt
              ]
      ]
