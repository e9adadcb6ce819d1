-- ===== src/Sql/Upsert.antt =====
-- INSERT … ON CONFLICT (key) DO UPDATE, on a table with a text key: what a lookup finds after it.
use eddyq.Prelude.{
  ◌≡◌, refl, arith, Bool, true, false, String, Option, none, some, List, [], ◌∷◌, any, str_eq,
  eq_iff, str_eq_self, Bool-cases, inl, inr, if◌then◌else◌,
}
use eddyq.Sql.{find, update}

-- The row that is inserted, or what DO UPDATE makes of the row that is there.
abbrev pub merged {ℓ} : {A : Type ℓ} → (A → A) → A → Option A → A
merged f new none = new
merged f new (some a) = f a

module _ {ℓ} {A : Type ℓ} (key : A → String) where
  abbrev pub at_key : String → A → Bool
  at_key j a = str_eq (key a) j

  pub find-none :
      (j : String) (rows : List A) → any (at_key j) rows ≡ false → find (at_key j) rows ≡ none
  unfolding find
  find-none j [] h = refl
  find-none j (r ∷ rows) h = ground (arith, find-none j rows)

  abbrev pub upsert : (A → A) → A → List A → List A
  upsert f new rows =
      if any (at_key (key new)) rows then update (at_key (key new)) f rows else new ∷ rows

module _ {ℓ} {A : Type ℓ} (key : A → String) (f : A → A) (same : (a : A) → key (f a) ≡ key a) where
  -- UPDATE … WHERE key = j, at the key.
  pub find-update_at :
      (new : A) (j : String) (rows : List A)
      → any (at_key key j) rows ≡ true
      → find (at_key key j) (update (at_key key j) f rows)
        ≡ some (merged f new (find (at_key key j) rows))
  unfolding find update
  find-update_at new j [] h = cc
  find-update_at new j (r ∷ rows) h = elim (Bool-cases (str_eq (key r) j)) [
    | inl e ↦ rw (e, same r, e) refl
    | inr e ↦ rw (e, e) (find-update_at new j rows (rw e at h))
  ]

  -- Rows of other keys, if the updated rows all have the key.
  pub find-update_other :
      (p : A → Bool) (j k : String)
      → ((a : A) → p a ≡ true → str_eq (key a) j ≡ true)
      → str_eq j k ≡ false
      → (rows : List A) → find (at_key key k) (update p f rows) ≡ find (at_key key k) rows
  unfolding find update
  find-update_other p j k within h [] = refl
  find-update_other p j k within h (r ∷ rows) = elim (Bool-cases (p r)) [
    | inl e ↦
        let other : str_eq (key r) k ≡ false = rw ((eq_iff (key r) j).0 (within r e)) h in
        rw (e, same r, other) (find-update_other p j k within h rows)
    | inr e ↦ rw (e, find-update_other p j k within h rows) refl
  ]

  pub any-update :
      (j : String) (p : A → Bool) (rows : List A)
      → any (at_key key j) (update p f rows) ≡ any (at_key key j) rows
  unfolding update
  any-update j p [] = refl
  any-update j p (r ∷ rows) = elim (Bool-cases (p r)) [
    | inl e ↦ rw (e, same r, any-update j p rows) refl
    | inr e ↦ rw (e, any-update j p rows) refl
  ]

  pub find-upsert_at :
      (new : A) (rows : List A)
      → find (at_key key (key new)) (upsert key f new rows)
        ≡ some (merged f new (find (at_key key (key new)) rows))
  unfolding find
  find-upsert_at new rows = elim (Bool-cases (any (at_key key (key new)) rows)) [
    | inl e ↦ rw e (find-update_at new (key new) rows e)
    | inr e ↦ rw (e, str_eq_self (key new), find-none key (key new) rows e) refl
  ]

  pub find-upsert_other :
      (new : A) (k : String) (rows : List A)
      → str_eq (key new) k ≡ false
      → find (at_key key k) (upsert key f new rows) ≡ find (at_key key k) rows
  unfolding find
  find-upsert_other new k rows h = elim (Bool-cases (any (at_key key (key new)) rows)) [
    | inl e ↦ rw e (find-update_other (at_key key (key new)) (key new) k (λ a q. q) h rows)
    | inr e ↦ rw (e, h) refl
  ]
