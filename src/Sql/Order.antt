-- ===== src/Sql/Order.antt =====
-- ORDER BY, LIMIT and the members of a result.
use eddyq.Prelude.{
  ℕ, zero, suc, ◌+◌, ◌≤◌, ◌≡◌, refl, Bool, true, List, [], ◌∷◌, arith, All, take, Bool-cases, inl,
  inr, if◌then◌else◌, length,
}
use eddyq.Sql.{select, count, insert_sorted, sort}

module _ {ℓ κ} {A : Type ℓ} (P : A → Type κ) where
  pub All-take : (n : ℕ) (xs : List A) → All P xs → All P (take n xs)
  All-take zero xs h = tt
  All-take (suc n) [] h = tt
  All-take (suc n) (x ∷ xs) h = (h.0, All-take n xs h.1)

  pub All-insert_sorted :
      (before : A → A → Bool) (x : A) (xs : List A)
      → P x
      → All P xs
      → All P (insert_sorted before x xs)
  unfolding insert_sorted
  All-insert_sorted before x [] p h = (p, tt)
  All-insert_sorted before x (y ∷ ys) p h = elim (Bool-cases (before y x)) [
    | inl e ↦ rw e (h.0, All-insert_sorted before x ys p h.1)
    | inr e ↦ rw e (p, (h.0, h.1))
  ]

  pub All-sort : (before : A → A → Bool) (xs : List A) → All P xs → All P (sort before xs)
  unfolding sort
  All-sort before [] h = tt
  All-sort before (x ∷ xs) h =
      All-insert_sorted before x (sort before xs) h.0 (All-sort before xs h.1)

  pub All-select :
      (p : A → Bool) (xs : List A) → All (λ a. p a ≡ true → P a) xs → All P (select p xs)
  unfolding select
  All-select p [] h = tt
  All-select p (x ∷ xs) h = elim (Bool-cases (p x)) [
    | inl e ↦ rw e (h.0 e, All-select p xs h.1)
    | inr e ↦ rw e (All-select p xs h.1)
  ]

  pub All-intro : ((a : A) → P a) → (xs : List A) → All P xs
  All-intro f [] = tt
  All-intro f (x ∷ xs) = (f x, All-intro f xs)

module _ {ℓ κ ι} {A : Type ℓ} (P : A → Type κ) (Q : A → Type ι) where
  pub All-map : ((a : A) → P a → Q a) → (xs : List A) → All P xs → All Q xs
  All-map f [] h = tt
  All-map f (x ∷ xs) h = (f x h.0, All-map f xs h.1)

module _ {ℓ} {A : Type ℓ} where
  pub count-insert_sorted :
      (c : A → Bool) (before : A → A → Bool) (x : A) (xs : List A)
      → count c (insert_sorted before x xs) ≡ (if c x then 1 else 0) + count c xs
  unfolding count insert_sorted
  count-insert_sorted c before x [] = refl
  count-insert_sorted c before x (y ∷ ys) = ground (arith, count-insert_sorted c before x ys)

  -- Sorting neither loses nor makes rows.
  pub count-sort :
      (c : A → Bool) (before : A → A → Bool) (xs : List A) → count c (sort before xs) ≡ count c xs
  unfolding count sort
  count-sort c before [] = refl
  count-sort c before (x ∷ xs) = rw count-insert_sorted (omega (arith, count-sort c before xs))

  pub count-take-le : (c : A → Bool) (n : ℕ) (xs : List A) → count c (take n xs) ≤ count c xs
  unfolding count
  count-take-le c zero xs = omega arith
  count-take-le c (suc n) [] = omega arith
  count-take-le c (suc n) (x ∷ xs) = omega (arith, count-take-le c n xs)

  pub count-le-length : (c : A → Bool) (xs : List A) → count c xs ≤ length xs
  unfolding count
  count-le-length c [] = omega arith
  count-le-length c (x ∷ xs) = ground (arith, count-le-length c xs)
