-- ===== src/Settlement/Once.antt =====
-- The callback of a batch, and what a further call does with it: try_claim_and_fire of
-- crates/eddyq-core/src/batch.rs.
use eddyq.Prelude.{
  ℕ, ◌≡◌, refl, ap, ◌∙◌, arith, Bool, false, Option, none, some, List, [], ◌∷◌, Bool-cases, inl,
  inr,
}
use eddyq.Sql.{find, update}
use eddyq.Store.{Db, Batch, Env, ok}
use eddyq.Batch.{can_claim, close, summary_of, try_claim_and_fire, fire, claim_found}
use eddyq.Invariant.{OnOk, OnOk-apply, OnOk-weaken}
use eddyq.Settlement.Grown.{fire-grown}

pub find-update-none {ℓ} :
    {A : Type ℓ} (p : A → Bool) (f : A → A) (xs : List A)
    → ((a : A) → p (f a) ≡ false)
    → find p (update p f xs) ≡ none
unfolding find update
find-update-none p f [] out = refl
find-update-none p f (x ∷ xs) out = elim (Bool-cases (p x)) [
  | inl e ↦ rw (e, out x) (find-update-none p f xs out)
  | inr e ↦ rw (e, e) (find-update-none p f xs out)
]

closed_out : (now id : ℕ) (b : Batch) → can_claim id (close now b) ≡ false
closed_out now id b = ground arith

claim_found-closed :
    (env : Env) (id : ℕ) (db : Db) (o : Option Batch)
    → find (can_claim id) db.batches ≡ o
    → OnOk (λ d. find (can_claim id) d.batches ≡ none) (claim_found env id o db)
claim_found-closed env id db none e = e
claim_found-closed env id db (some b) e =
    let Q = λ (bs : List Batch). find (can_claim id) bs ≡ none in
    OnOk-weaken (λ d. Unit {0} × Q d.batches) (λ d. Q d.batches)
      (fire env b.on_complete id (summary_of env.now b) _) (λ d h. h.1)
      (fire-grown (λ jobs. Unit) Q (λ i now req jobs fresh h. tt) env b.on_complete id
        (summary_of env.now b)
        (record db { batches = update (can_claim id) (close env.now) db.batches })
        (tt, find-update-none (can_claim id) (close env.now) db.batches (closed_out env.now id)))

claim_none :
    (env : Env) (id : ℕ) (db : Db)
    → find (can_claim id) db.batches ≡ none
    → try_claim_and_fire env id db ≡ ok db
unfolding try_claim_and_fire
claim_none env id db e = rw e refl

-- A batch's callback is not claimed again from the batches that a call left: after a call of
-- try_claim_and_fire that committed, for as long as eddyq_batches is as the call left it, whatever
-- becomes of the other tables, any further call for the batch changes nothing.
pub try_claim_and_fire-once :
    (env later : Env) (id : ℕ) (db after d : Db)
    → try_claim_and_fire env id db ≡ ok after
    → d.batches ≡ after.batches
    → try_claim_and_fire later id d ≡ ok d
unfolding try_claim_and_fire
try_claim_and_fire-once env later id db after d e same = claim_none later id d (
    ap (find (can_claim id)) same
    ∙ OnOk-apply (λ d. find (can_claim id) d.batches ≡ none) (try_claim_and_fire env id db)
        (claim_found-closed env id db (find (can_claim id) db.batches) refl) e)
