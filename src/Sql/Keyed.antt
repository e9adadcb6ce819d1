-- ===== src/Sql/Keyed.antt =====
-- Tables with a text key and a counter column: what the statements do to the counter at a key.
use eddyq.Prelude.{
  ℕ, ◌-◌, ◌≡◌, refl, true, false, String, Option, none, some, List, [], ◌∷◌, map, arith, any,
  str_eq, eq_iff, Bool-cases, inl, inr, if◌then◌else◌,
}
use eddyq.Sql.{update}

abbrev pub or_zero : Option ℕ → ℕ
or_zero none = 0
or_zero (some n) = n

abbrev pub at_some : (ℕ → ℕ) → Option ℕ → Option ℕ
at_some h none = none
at_some h (some n) = some (h n)

module _ {ℓ} {A : Type ℓ} where
  -- The counter of the row with key `k`.
  unfoldable pub counter : (A → String) → (A → ℕ) → String → List A → Option ℕ
  counter key val k [] = none
  counter key val k (x ∷ xs) =
      let rest = counter key val k xs in if str_eq (key x) k then some (val x) else rest

  -- UPDATE … WHERE key = j
  pub counter-update :
      (key : A → String) (val : A → ℕ) (h : ℕ → ℕ) (f : A → A)
      → ((a : A) → key (f a) ≡ key a)
      → ((a : A) → val (f a) ≡ h (val a))
      → (j k : String) (xs : List A)
      → counter key val k (update (λ a. str_eq (key a) j) f xs)
        ≡ (if str_eq j k then at_some h (counter key val k xs) else counter key val k xs)
  unfolding counter update
  counter-update key val h f same new j k [] = ground arith
  counter-update key val h f same new j k (x ∷ xs) = ground (
    arith,
    same x,
    new x,
    eq_iff (key x) j,
    eq_iff (key x) k,
    eq_iff j k,
    counter-update key val h f same new j k xs,
  )

  -- An UPDATE of every row by an amount that its key gives.
  pub counter-map :
      (key : A → String) (val : A → ℕ) (d : String → ℕ) (f : A → A)
      → ((a : A) → key (f a) ≡ key a)
      → ((a : A) → val (f a) ≡ val a - d (key a))
      → (k : String) (xs : List A)
      → counter key val k (map f xs) ≡ at_some (λ v. v - d k) (counter key val k xs)
  unfolding counter
  counter-map key val d f same new k [] = refl
  counter-map key val d f same new k (x ∷ xs) =
      ground (arith, same x, new x, eq_iff (key x) k, counter-map key val d f same new k xs)

  -- No row has the key, as `any` tests it.
  pub counter-none :
      (key : A → String) (val : A → ℕ) (k : String) (xs : List A)
      → any (λ a. str_eq (key a) k) xs ≡ false
      → counter key val k xs ≡ none
  unfolding counter
  counter-none key val k [] h = refl
  counter-none key val k (x ∷ xs) h = ground (arith, counter-none key val k xs)

  -- A row has the key.
  pub counter-some :
      (key : A → String) (val : A → ℕ) (k : String) (xs : List A)
      → any (λ a. str_eq (key a) k) xs ≡ true
      → (v : ℕ) × (counter key val k xs ≡ some v)
  unfolding counter
  counter-some key val k [] h = cc
  counter-some key val k (x ∷ xs) h = elim (Bool-cases (str_eq (key x) k)) [
    | inl e ↦ rw e (val x, refl)
    | inr e ↦ rw e (counter-some key val k xs (rw e at h))
  ]
