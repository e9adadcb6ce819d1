-- ===== src/Claiming/Limits/Budgeted.antt =====
-- The budget that phase 0 gives a subscribed queue, whose row a peer may hold.
use eddyq.Prelude.{
  ℕ, ap, sym, ◌∙◌, ◌≤◌, ◌<◌, ◌≡◌, refl, Bool, true, false, ◌&&◌, not, String, Option, none, some,
  List, [], ◌∷◌, ◌++◌, map, arith, str_eq, eq_iff, any_text, if◌then◌else◌, Bool-cases, inl, inr,
}
use mathlib.Core.List.{append-nil}
use eddyq.Sql.{select, find}
use eddyq.Store.{NamedQueue, i32_max}
use eddyq.NamedQueue.{is_named}
use eddyq.Fetch.Claim.Budgets.{
  Budget, Held, lookup_budget, queue_row_needs_lock, slots_of, needs_lock, binding, queue_budget,
}

abbrev slots_in : Option NamedQueue → Option ℕ → Option ℕ
slots_in none rest = rest
slots_in (some q) rest = some (slots_of q)

-- Entries of the rows that a test on the name selects.
lookup-rows :
    (sel : String → Bool) (k : String) (rows : List NamedQueue) (rest : Budget)
    → lookup_budget k
        (map (λ (q : NamedQueue). (q.name, slots_of q)) (select (λ q. sel q.name) rows) ++ rest)
      ≡ (if sel k
          then slots_in (find (is_named k) rows) (lookup_budget k rest)
          else lookup_budget k rest)
unfolding lookup_budget select find
lookup-rows sel k [] rest = ground arith
lookup-rows sel k (q ∷ qs) rest = elim (Bool-cases (str_eq q.name k)) [
  | inl e ↦ rw ((eq_iff q.name k).0 e) (ground (arith, lookup-rows sel k qs rest, eq_iff k k))
  | inr e ↦ rw e (ground (arith, lookup-rows sel k qs rest))
]

lookup-zeros :
    (k : String) (names : List String) (rest : Budget)
    → lookup_budget k (map (λ (n : String). (n, 0)) names ++ rest)
      ≡ (if any_text k names then some 0 else lookup_budget k rest)
unfolding lookup_budget
lookup-zeros k [] rest = refl
lookup-zeros k (n ∷ ns) rest = ground (arith, lookup-zeros k ns rest)

lookup-last :
    (sel : String → Bool) (k : String) (rows : List NamedQueue)
    → lookup_budget k
        (map (λ (q : NamedQueue). (q.name, slots_of q)) (select (λ q. sel q.name) rows))
      ≡ (if sel k then slots_in (find (is_named k) rows) none else none)
unfolding lookup_budget
lookup-last sel k rows =
    let entries = map (λ (q : NamedQueue). (q.name, slots_of q)) (select (λ q. sel q.name) rows) in
    ap (lookup_budget k) (sym (append-nil entries)) ∙ lookup-rows sel k rows []

-- A row that binds has its name in `binding`.
in_binding :
    (k : String) (queues : List String) (seen : List NamedQueue) (s : NamedQueue)
    → find (is_named k) seen ≡ some s
    → any_text k queues ≡ true
    → any_text k (binding queues seen) ≡ false
    → needs_lock s ≡ false
unfolding find binding select
in_binding k queues [] s f sub h = cc
in_binding k queues (q ∷ qs) s f sub h = elim (Bool-cases (str_eq q.name k)) [
  | inl e ↦ ground (arith, (eq_iff q.name k).0 e)
  | inr e ↦ ground (arith, in_binding k queues qs s)
]

unbound_slots :
    (s : NamedQueue) → needs_lock s ≡ false → s.max_concurrency < i32_max → slots_of s ≡ 0
unfolding queue_row_needs_lock
unbound_slots s h c = ground arith

-- The budget of the queue, of which `r` is the row and `s` what the unlocked read saw of it.
pub queue_budget-le :
    (held : Held) (seen : List NamedQueue) (queues : List String) (rows : List NamedQueue)
    (k : String) (s r : NamedQueue)
    → any_text k queues ≡ true
    → find (is_named k) seen ≡ some s
    → s.max_concurrency < i32_max
    → find (is_named k) rows ≡ some r
    → (b : ℕ) × (lookup_budget k (queue_budget held seen queues rows) ≡ some b) × (b ≤ slots_of r)
unfolding queue_budget
queue_budget-le held seen queues rows k s r sub f c g =
    let names = binding queues seen in
    rw
      (
        lookup-rows (λ n. any_text n names && not (held.queue_row n)) k rows _,
        lookup-zeros k names _,
        lookup-last (λ n. any_text n queues) k seen,
        f,
        g,
        sub,
      )
      (elim (Bool-cases (any_text k names)) [
        | inl e ↦ rw e (elim (Bool-cases (held.queue_row k)) [
          | inl t ↦ rw t (0, refl, omega arith)
          | inr t ↦ rw t (slots_of r, refl, omega arith)
        ])
        | inr e ↦ rw e (
          slots_of s,
          refl,
          omega (arith, unbound_slots s (in_binding k queues seen s f sub e) c),
        )
      ])
