-- ===== src/Claiming/Identity.antt =====
-- The rows that a claim updates are those that it accepted: an id names one row.
use eddyq.Prelude.{
  ℕ, ◌+◌, ◌≤◌, ◌<◌, ◌≡◌, refl, sym, ◌∙◌, ap, Bool, true, ◌||◌, List, [], ◌∷◌, map, arith, any_num,
  All, Memᴰ, length, ◌==◌, Bool-cases, inl, inr,
}
use eddyq.Sql.{count}
use eddyq.Sql.Count.{count-false}
use eddyq.Store.Serial.{Below}
use eddyq.Fetch.Claim.Lanes.{Accepted}

module _ {ℓ} {A : Type ℓ} (id : A → ℕ) where
  pub id-lt : (n : ℕ) (xs : List A) (a : A) → Below id n xs → Memᴰ a xs → id a < n
  id-lt n [] a b m = elim m [ ]
  id-lt n (x ∷ xs) a b (Memᴰ.head e) = rw e b.0
  id-lt n (x ∷ xs) a b (Memᴰ.tail m) = omega (arith, b.0, id-lt (id x) xs a b.1 m)

  -- Two rows with one id are one row.
  pub same_row :
      (n : ℕ) (xs : List A) (a b : A) → Below id n xs → Memᴰ a xs → Memᴰ b xs → id a ≡ id b → a ≡ b
  same_row n [] a b w m k e = elim m [ ]
  same_row n (x ∷ xs) a b w (Memᴰ.head p) (Memᴰ.head q) e = p ∙ sym q
  same_row n (x ∷ xs) a b w (Memᴰ.head p) (Memᴰ.tail k) e =
      absurd (omega (arith, ap id p, id-lt (id x) xs b w.1 k))
  same_row n (x ∷ xs) a b w (Memᴰ.tail m) (Memᴰ.head q) e =
      absurd (omega (arith, ap id q, id-lt (id x) xs a w.1 m))
  same_row n (x ∷ xs) a b w (Memᴰ.tail m) (Memᴰ.tail k) e = same_row (id x) xs a b w.1 m k e

  above_none : (i n : ℕ) (xs : List A) → n ≤ i → Below id n xs → count (λ a. i == id a) xs ≡ 0
  unfolding count
  above_none i n [] h b = refl
  above_none i n (x ∷ xs) h b = ground (arith, above_none i (id x) xs)

  one_row : (i n : ℕ) (xs : List A) → Below id n xs → count (λ a. i == id a) xs ≤ 1
  unfolding count
  one_row i n [] b = omega arith
  one_row i n (x ∷ xs) b = ground (arith, above_none i (id x) xs, one_row i (id x) xs)

  count-or : (c d : A → Bool) (xs : List A) → count (λ a. c a || d a) xs ≤ count c xs + count d xs
  unfolding count
  count-or c d [] = omega arith
  count-or c d (x ∷ xs) = ground (arith, count-or c d xs)

  -- No more rows have an id of the list than the list is long.
  pub count-any_num :
      (n : ℕ) (xs : List A) (ids : List ℕ)
      → Below id n xs
      → count (λ a. any_num (id a) ids) xs ≤ length ids
  count-any_num n xs [] b = omega (arith, count-false xs)
  count-any_num n xs (i ∷ is) b = omega (
    arith,
    count-or (λ a. i == id a) (λ a. any_num (id a) is) xs,
    one_row i n xs b,
    count-any_num n xs is b,
  )

abbrev pub ids_of : List Accepted → List ℕ
ids_of acc = map (λ (a : Accepted). a.id) acc

-- The acceptance that names a row.
pub accepted_for :
    (P : Accepted → Type 0) (i : ℕ) (acc : List Accepted)
    → any_num i (ids_of acc) ≡ true
    → All P acc
    → (a : Accepted) × Memᴰ a acc × (a.id ≡ i) × P a
accepted_for P i [] e h = cc
accepted_for P i (a ∷ acc) e h = elim (Bool-cases (a.id == i)) [
  | inl t ↦ (a, Memᴰ.head refl, ground arith, h.0)
  | inr t ↦ let (b, m, s, q) = accepted_for P i acc (ground arith) h.1 in (b, Memᴰ.tail m, s, q)
]
