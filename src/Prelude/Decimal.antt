-- ===== src/Prelude/Decimal.antt =====
-- Numbers in decimal, as format! writes them.
use Prim.Native.String.{◌++◌ as append, len}
use text.Mathlib.TextPositions.{len-append}
use Prim.Native.Nat.{ℕ, zero, suc, ◌/◌, ◌%◌, ◌≤◌}
use Prim.Native.String.{String}
use mathlib.Core.Path.{◌≡◌, refl}
use mathlib.Core.Logic.{inl, inr}
use mathlib.Core.Bool.{true}
use native.Mathlib.Omega.{arith}
use eddyq.Prelude.Tests.{ltb, if◌then◌else◌, Bool-cases}

-- One decimal digit.
unfoldable pub digit : ℕ → String
digit zero = "0"
digit (suc zero) = "1"
digit (suc (suc zero)) = "2"
digit (suc (suc (suc zero))) = "3"
digit (suc (suc (suc (suc zero)))) = "4"
digit (suc (suc (suc (suc (suc zero))))) = "5"
digit (suc (suc (suc (suc (suc (suc zero)))))) = "6"
digit (suc (suc (suc (suc (suc (suc (suc zero))))))) = "7"
digit (suc (suc (suc (suc (suc (suc (suc (suc zero)))))))) = "8"
digit (suc (suc (suc (suc (suc (suc (suc (suc (suc n))))))))) = "9"

-- `{}` of a number, with the number of digits as fuel: each round divides by ten.
unfoldable pub digits : ℕ → ℕ → String
unfolding digit
digits zero n = ""
digits (suc fuel) n =
    let rest = digits fuel (n / 10) in if ltb n 10 then digit n else append rest (digit (n % 10))

len-digit : (n : ℕ) → len (digit n) ≡ 1
unfolding digit
len-digit zero = refl
len-digit (suc zero) = refl
len-digit (suc (suc zero)) = refl
len-digit (suc (suc (suc zero))) = refl
len-digit (suc (suc (suc (suc zero)))) = refl
len-digit (suc (suc (suc (suc (suc zero))))) = refl
len-digit (suc (suc (suc (suc (suc (suc zero)))))) = refl
len-digit (suc (suc (suc (suc (suc (suc (suc zero))))))) = refl
len-digit (suc (suc (suc (suc (suc (suc (suc (suc zero)))))))) = refl
len-digit (suc (suc (suc (suc (suc (suc (suc (suc (suc n))))))))) = refl

-- A number of fewer digits is no longer.
pub len-digits_mono : (fuel m n : ℕ) → m ≤ n → len (digits fuel m) ≤ len (digits fuel n)
unfolding digits
len-digits_mono zero m n h = omega arith
len-digits_mono (suc fuel) m n h = elim (Bool-cases (ltb n 10)) [
  | inl e ↦
      let less : ltb m 10 ≡ true = ground arith in
      rw (e, less, len-digit m, len-digit n) (omega arith)
  | inr e ↦ elim (Bool-cases (ltb m 10)) [
    | inl f ↦ rw (e, f, len-append, len-digit m, len-digit (n % 10)) (omega arith)
    | inr f ↦
        rw
          (
            e,
            f,
            len-append (digits fuel (m / 10)) (digit (m % 10)),
            len-append (digits fuel (n / 10)) (digit (n % 10)),
            len-digit (m % 10),
            len-digit (n % 10),
          )
          (omega (arith, len-digits_mono fuel (m / 10) (n / 10) (omega arith)))
  ]
]

pub len-digits-le : (fuel n : ℕ) → len (digits fuel n) ≤ fuel
unfolding digits
len-digits-le zero n = omega arith
len-digits-le (suc fuel) n = elim (Bool-cases (ltb n 10)) [
  | inl e ↦ rw (e, len-digit n) (omega arith)
  | inr e ↦ rw (e, len-append, len-digit (n % 10)) (omega (arith, len-digits-le fuel (n / 10)))
]
