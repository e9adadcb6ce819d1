-- ===== src/Store/Serial.antt =====
-- Ids come from a sequence: a table lists its rows newest first, with ids that fall from below the
-- sequence's next value. So an id names at most one row.
use eddyq.Prelude.{
  ℕ, ◌≤◌, ◌<◌, ◌≡◌, refl, Bool, true, ◌&&◌, Option, none, some, List, [], ◌∷◌, arith, Bool-cases,
  inl, inr, if◌then◌else◌, All, map,
}
use eddyq.Sql.{update, delete, count, find}

module _ {ℓ} {A : Type ℓ} where
  abbrev pub Below : (A → ℕ) → ℕ → List A → Type 0
  Below id n [] = Unit
  Below id n (x ∷ xs) = (id x < n) × Below id (id x) xs

  pub Below-mono : (id : A → ℕ) (m n : ℕ) (xs : List A) → m ≤ n → Below id m xs → Below id n xs
  Below-mono id m n [] h b = tt
  Below-mono id m n (x ∷ xs) h b = (omega arith, b.1)

  pub Below-update :
      (id : A → ℕ) (p : A → Bool) (f : A → A)
      → ((a : A) → id (f a) ≡ id a)
      → (n : ℕ) (xs : List A) → Below id n xs
      → Below id n (update p f xs)
  unfolding update
  Below-update id p f same n [] b = tt
  Below-update id p f same n (x ∷ xs) b = elim (Bool-cases (p x)) [
    | inl e ↦ rw (e, same x) (b.0, Below-update id p f same (id x) xs b.1)
    | inr e ↦ rw e (b.0, Below-update id p f same (id x) xs b.1)
  ]

  pub Below-map :
      (id : A → ℕ) (f : A → A)
      → ((a : A) → id (f a) ≡ id a)
      → (n : ℕ) (xs : List A) → Below id n xs
      → Below id n (map f xs)
  Below-map id f same n [] b = tt
  Below-map id f same n (x ∷ xs) b = rw (same x) (b.0, Below-map id f same (id x) xs b.1)

  pub Below-delete :
      (id : A → ℕ) (p : A → Bool) (n : ℕ) (xs : List A) → Below id n xs → Below id n (delete p xs)
  unfolding delete
  Below-delete id p n [] b = tt
  Below-delete id p n (x ∷ xs) b = elim (Bool-cases (p x)) [
    | inl e ↦
        rw e (Below-mono id (id x) n (delete p xs) (omega arith) (Below-delete id p (id x) xs b.1))
    | inr e ↦ rw e (b.0, Below-delete id p (id x) xs b.1)
  ]

  pub Below-All : (id : A → ℕ) (n : ℕ) (xs : List A) → Below id n xs → All (λ a. id a < n) xs
  Below-All id n [] b = tt
  Below-All id n (x ∷ xs) b = (b.0, Below-All id n xs (Below-mono id (id x) n xs (omega arith) b.1))

abbrev pub one_if {ℓ} : {A : Type ℓ} → (A → Bool) → Option A → ℕ
one_if d none = 0
one_if d (some a) = if d a then 1 else 0

module _ {ℓ} {A : Type ℓ} (id : A → ℕ) (p c : A → Bool) (i : ℕ)
    (only : (a : A) → p a ≡ true → id a ≡ i) where
  absent : (n : ℕ) (xs : List A) → n ≤ i → Below id n xs → count (λ a. p a && c a) xs ≡ 0
  unfolding count
  absent n [] h b = refl
  absent n (x ∷ xs) h b = ground (arith, only x, absent (id x) xs)

  -- A test that holds of one id alone counts the row that `find` returns.
  pub count-find :
      (n : ℕ) (xs : List A) → Below id n xs → count (λ a. p a && c a) xs ≡ one_if c (find p xs)
  unfolding count find
  count-find n [] b = refl
  count-find n (x ∷ xs) b = elim (Bool-cases (p x)) [
    | inl e ↦ rw e (ground (arith, only x e, absent (id x) xs))
    | inr e ↦ rw e (omega (arith, count-find (id x) xs b.1))
  ]

  -- What `find` returns satisfies the test.
  pub find-holds : (xs : List A) (a : A) → find p xs ≡ some a → p a ≡ true
  unfolding find
  find-holds [] a h = cc
  find-holds (x ∷ xs) a h = ground (arith, find-holds xs a)
