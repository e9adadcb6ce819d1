-- ===== src/Settlement/Last.antt =====
-- settle_terminal of crates/eddyq-core/src/batch.rs: what the end of one job does to its batch.
use eddyq.Prelude.{
  ltb, ◌<◌, ◌≤◌, ℕ, ap, ◌∙◌, ◌+◌, ◌≡◌, ◌≢◌, refl, arith, Bool, true, false, some, List, [], ◌∷◌,
  ◌==◌, Bool-cases, inl, inr, ◌⊎◌,
}
use eddyq.Sql.{find, update}
use eddyq.Store.{err, database, Db, Batch, Env, ok}
use eddyq.Batch.{
  TerminalOutcome, has_id, settled, is_unclaimed, can_claim, close, summary_of, try_claim_and_fire,
  settle_terminal, fire, bump, settle_found,
}

bump-id : (outcome : TerminalOutcome) (b : Batch) → (bump outcome b).id ≡ b.id
unfolding bump
bump-id TerminalOutcome.completed b = refl
bump-id TerminalOutcome.failed b = refl
bump-id TerminalOutcome.cancelled b = refl

bump-settled : (outcome : TerminalOutcome) (b : Batch) → settled (bump outcome b) ≡ settled b + 1
unfolding bump
bump-settled TerminalOutcome.completed b = omega arith
bump-settled TerminalOutcome.failed b = omega arith
bump-settled TerminalOutcome.cancelled b = omega arith

bump-total : (outcome : TerminalOutcome) (b : Batch) → (bump outcome b).total ≡ b.total
unfolding bump
bump-total TerminalOutcome.completed b = refl
bump-total TerminalOutcome.failed b = refl
bump-total TerminalOutcome.cancelled b = refl

bump-unclaimed :
    (outcome : TerminalOutcome) (b : Batch) → is_unclaimed (bump outcome b) ≡ is_unclaimed b
unfolding bump
bump-unclaimed TerminalOutcome.completed b = refl
bump-unclaimed TerminalOutcome.failed b = refl
bump-unclaimed TerminalOutcome.cancelled b = refl

bump-callback :
    (outcome : TerminalOutcome) (b : Batch) → (bump outcome b).on_complete ≡ b.on_complete
unfolding bump
bump-callback TerminalOutcome.completed b = refl
bump-callback TerminalOutcome.failed b = refl
bump-callback TerminalOutcome.cancelled b = refl

found_updated :
    {A : Type 0} (p : A → Bool) (f : A → A) (b : A) (bs : List A)
    → ((a : A) → p (f a) ≡ p a)
    → find p bs ≡ some b
    → find p (update p f bs) ≡ some (f b)
unfolding find update
found_updated p f b [] same e = cc
found_updated p f b (x ∷ xs) same e = elim (Bool-cases (p x)) [
  | inl t ↦ rw (t, same x, t) (let q : some x ≡ some b = rw t at e in cc)
  | inr t ↦ rw (t, t) (found_updated p f b xs same (rw t at e))
]

claimable :
    (id : ℕ) (b : Batch) (bs : List Batch)
    → find (has_id id) bs ≡ some b
    → can_claim id b ≡ true
    → find (can_claim id) bs ≡ some b
unfolding find
claimable id b [] e h = cc
claimable id b (x ∷ xs) e h = elim (Bool-cases (x.id == id)) [
  | inl t ↦ let q : some x ≡ some b = rw t at e in let r : x ≡ b = cc in rw (r, h) refl
  | inr t ↦ rw t (claimable id b xs (rw t at e) h)
]

holds_id : (id : ℕ) (b : Batch) (bs : List Batch) → find (has_id id) bs ≡ some b → b.id ≡ id
unfolding find
holds_id id b [] e = cc
holds_id id b (x ∷ xs) e = elim (Bool-cases (x.id == id)) [
  | inl t ↦ let q : some x ≡ some b = rw t at e in let r : x ≡ b = cc in rw (← r) (ground arith)
  | inr t ↦ holds_id id b xs (rw t at e)
]

has_id-bump :
    (id : ℕ) (outcome : TerminalOutcome) (a : Batch) → has_id id (bump outcome a) ≡ has_id id a
has_id-bump id outcome a = rw (bump-id outcome a) refl

differ : (m n : ℕ) → m ≢ n → (m == n) ≡ false
differ m n h = ground arith

agree : (m n : ℕ) → m ≡ n → (m == n) ≡ true
agree m n h = ground arith

fits_total : (m n : ℕ) → m ≤ n → ltb n m ≡ false
fits_total m n h = ground arith

breaks_total : (m n : ℕ) → n < m → ltb n m ≡ true
breaks_total m n h = ground arith

settle_found-early :
    (env : Env) (id : ℕ) (c : Batch) (db : Db)
    → settled c ≤ c.total
    → (settled c < c.total) ⊎ (is_unclaimed c ≡ false)
    → settle_found env id (some c) db ≡ ok db
settle_found-early env id c db le (inl h) = elim (Bool-cases (is_unclaimed c)) [
  | inl e ↦
      rw (fits_total (settled c) c.total le, e, differ (settled c) c.total (λ q. omega arith)) refl
  | inr e ↦ rw (fits_total (settled c) c.total le, e) refl
]
settle_found-early env id c db le (inr h) = rw (fits_total (settled c) c.total le, h) refl

settle_found-broken :
    (env : Env) (id : ℕ) (c : Batch) (db : Db)
    → c.total < settled c
    → settle_found env id (some c) db ≡ err database
settle_found-broken env id c db h = rw (breaks_total (settled c) c.total h) refl

still_open :
    (outcome : TerminalOutcome) (b : Batch)
    → (settled b + 1 < b.total) ⊎ (is_unclaimed b ≡ false)
    → (settled (bump outcome b) < (bump outcome b).total) ⊎ (is_unclaimed (bump outcome b) ≡ false)
still_open outcome b (inl h) = inl (omega (arith, bump-settled outcome b, bump-total outcome b))
still_open outcome b (inr h) = inr (rw (bump-unclaimed outcome b) h)

can_claim_intro :
    (id : ℕ) (c : Batch)
    → c.id ≡ id
    → is_unclaimed c ≡ true
    → settled c ≡ c.total
    → can_claim id c ≡ true
can_claim_intro id c i u t = rw (agree c.id id i, u, agree (settled c) c.total t) refl

settle_found-last :
    (env : Env) (id : ℕ) (c : Batch) (db : Db)
    → settled c ≡ c.total
    → is_unclaimed c ≡ true
    → find (can_claim id) db.batches ≡ some c
    → settle_found env id (some c) db
      ≡ fire env c.on_complete id
          (summary_of env.now c)
          (record db { batches = update (can_claim id) (close env.now) db.batches })
unfolding try_claim_and_fire
settle_found-last env id c db done free found =
    rw (fits_total (settled c) c.total (omega arith), free, agree (settled c) c.total done, found)
      refl

-- The end of one job of batch `b`. While other jobs of the batch are left, or once its callback was
-- claimed, only the counter of the outcome is raised. The last job closes the batch and enqueues its
-- callback. With more ended jobs than the batch has, the transaction fails.
pub settle_terminal_lem :
    (env : Env) (id : ℕ) (outcome : TerminalOutcome) (db : Db) (b : Batch)
    → find (has_id id) db.batches ≡ some b
    → (settled b + 1 ≤ b.total
        → ((settled b + 1 < b.total) ⊎ (is_unclaimed b ≡ false))
        → settle_terminal env id outcome db
          ≡ ok (record db { batches = update (has_id id) (bump outcome) db.batches }))
      × (settled b + 1 ≡ b.total
          → is_unclaimed b ≡ true
          → settle_terminal env id outcome db
            ≡ fire env b.on_complete id (summary_of env.now (bump outcome b)) (record db {
              batches =
                  update
                    (can_claim id)
                    (close env.now)
                    (update (has_id id) (bump outcome) db.batches);
            }))
      × (b.total < settled b + 1 → settle_terminal env id outcome db ≡ err database)
unfolding settle_terminal try_claim_and_fire
settle_terminal_lem env id outcome db b e =
    let found = found_updated (has_id id) (bump outcome) b db.batches (has_id-bump id outcome) e in
    let raised : Db = record db { batches = update (has_id id) (bump outcome) db.batches } in
    let closed : Db = record raised {
      batches = update (can_claim id) (close env.now) raised.batches;
    } in
    (
      λ le h. rw found (
          settle_found-early env id (bump outcome b) raised
            (omega (arith, bump-settled outcome b, bump-total outcome b)) (still_open outcome b h)),
      λ done free.
          let last : settled (bump outcome b) ≡ (bump outcome b).total =
            omega (arith, done, bump-settled outcome b, bump-total outcome b) in
          let open_still : is_unclaimed (bump outcome b) ≡ true =
            rw (bump-unclaimed outcome b) free in
          let can =
            can_claim_intro id (bump outcome b)
              (rw (bump-id outcome b) (holds_id id b db.batches e)) open_still last in
          rw found (
            settle_found-last env id (bump outcome b) raised last open_still
              (claimable id (bump outcome b) raised.batches found can)
            ∙ ap (λ v. fire env v id (summary_of env.now (bump outcome b)) closed)
                (bump-callback outcome b)),
      λ h. rw found (
          settle_found-broken env id (bump outcome b) raised
            (omega (arith, bump-settled outcome b, bump-total outcome b))),
    )
