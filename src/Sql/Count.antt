-- ===== src/Sql/Count.antt =====
-- How the statements change a COUNT(*).
use eddyq.Prelude.{
  ◌+◌, ◌≤◌, ◌≡◌, refl, Bool, true, false, ◌&&◌, List, [], ◌∷◌, ◌++◌, arith, All, length, any,
  Bool-cases, inl, inr,
}
use eddyq.Sql.{select, delete, update, count}

module _ {ℓ} {A : Type ℓ} where
  -- An UPDATE takes the rows that it touches out of a count, and puts back those that fit after it.
  pub count-update :
      (c p : A → Bool) (f : A → A) (xs : List A)
      → count c (update p f xs) + count (λ a. p a && c a) xs
        ≡ count c xs + count (λ a. p a && c (f a)) xs
  unfolding count update
  count-update c p f [] = refl
  count-update c p f (x ∷ xs) = ground (arith, count-update c p f xs)

  pub count-delete :
      (c p : A → Bool) (xs : List A)
      → count c (delete p xs) + count (λ a. p a && c a) xs ≡ count c xs
  unfolding count delete
  count-delete c p [] = refl
  count-delete c p (x ∷ xs) = ground (arith, count-delete c p xs)

  pub count-append : (c : A → Bool) (xs ys : List A) → count c (xs ++ ys) ≡ count c xs + count c ys
  unfolding count
  count-append c [] ys = omega arith
  count-append c (x ∷ xs) ys = omega (arith, count-append c xs ys)

  -- Counts agree where the tests agree on every row.
  pub count_congr :
      (c d : A → Bool) (xs : List A) → All (λ a. c a ≡ d a) xs → count c xs ≡ count d xs
  unfolding count
  count_congr c d [] h = refl
  count_congr c d (x ∷ xs) h = ground (arith, h.0, count_congr c d xs h.1)

  pub count_none : (c : A → Bool) (xs : List A) → All (λ a. c a ≡ false) xs → count c xs ≡ 0
  unfolding count
  count_none c [] h = refl
  count_none c (x ∷ xs) h = ground (arith, h.0, count_none c xs h.1)

  pub count-false : (xs : List A) → count (λ a. false) xs ≡ 0
  unfolding count
  count-false [] = refl
  count-false (x ∷ xs) = omega (arith, count-false xs)

  pub count_mono :
      (c d : A → Bool) (xs : List A)
      → All (λ a. c a ≡ true → d a ≡ true) xs
      → count c xs ≤ count d xs
  unfolding count
  count_mono c d [] h = omega arith
  count_mono c d (x ∷ xs) h = elim (Bool-cases (c x)) [
    | inl e ↦ rw (e, h.0 e) (omega (arith, count_mono c d xs h.1))
    | inr e ↦ rw e (omega (arith, count_mono c d xs h.1))
  ]

  -- A count of a selection is a count by both tests.
  pub count-select :
      (c p : A → Bool) (xs : List A) → count c (select p xs) ≡ count (λ a. p a && c a) xs
  unfolding count select
  count-select c p [] = refl
  count-select c p (x ∷ xs) = ground (arith, count-select c p xs)

  pub length-select : (p : A → Bool) (xs : List A) → length (select p xs) ≡ count p xs
  unfolding count select
  length-select p [] = refl
  length-select p (x ∷ xs) = ground (arith, length-select p xs)

  -- An UPDATE that keeps what a count tests.
  pub count-update_same :
      (c p : A → Bool) (f : A → A)
      → ((a : A) → c (f a) ≡ c a)
      → (xs : List A) → count c (update p f xs) ≡ count c xs
  unfolding count update
  count-update_same c p f same [] = refl
  count-update_same c p f same (x ∷ xs) = elim (Bool-cases (p x)) [
    | inl e ↦ rw (e, same x, count-update_same c p f same xs) refl
    | inr e ↦ rw (e, count-update_same c p f same xs) refl
  ]

  pub count-any : (c : A → Bool) (xs : List A) → any c xs ≡ false → count c xs ≡ 0
  unfolding count
  count-any c [] h = refl
  count-any c (x ∷ xs) h = ground (arith, count-any c xs)

  pub count-delete-le : (c p : A → Bool) (xs : List A) → count c (delete p xs) ≤ count c xs
  count-delete-le c p xs = omega (arith, count-delete c p xs)
