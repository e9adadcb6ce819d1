-- ===== src/Sql/Members.antt =====
-- What holds of every row, after an UPDATE or a DELETE.
use eddyq.Prelude.{◌≡◌, Bool, true, List, [], ◌∷◌, All, Bool-cases, inl, inr}
use eddyq.Sql.{delete, update}

module _ {ℓ κ} {A : Type ℓ} (P : A → Type κ) where
  pub All-update :
      (p : A → Bool) (f : A → A)
      → ((a : A) → p a ≡ true → P a → P (f a))
      → (xs : List A) → All P xs
      → All P (update p f xs)
  unfolding update
  All-update p f k [] h = tt
  All-update p f k (x ∷ xs) h = elim (Bool-cases (p x)) [
    | inl e ↦ rw e (k x e h.0, All-update p f k xs h.1)
    | inr e ↦ rw e (h.0, All-update p f k xs h.1)
  ]

  pub All-delete : (p : A → Bool) (xs : List A) → All P xs → All P (delete p xs)
  unfolding delete
  All-delete p [] h = tt
  All-delete p (x ∷ xs) h = elim (Bool-cases (p x)) [
    | inl e ↦ rw e (All-delete p xs h.1)
    | inr e ↦ rw e (h.0, All-delete p xs h.1)
  ]
