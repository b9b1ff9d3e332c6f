-- ===== src/Common/Decimal.antt =====
-- Numbers as decimal text, as `<<` writes them and `std::stoll` reads them.
use Prim.Native.Nat.{ℕ, zero, suc, ◌+◌, ◌-◌, ◌*◌, ◌/◌, ◌%◌, ◌<◌}
use mathlib.Core.Path.{◌≡◌, refl, ◌∙◌, ap}
use mathlib.Core.Bool.{Bool, true, ◌&&◌}
use mathlib.Core.List.{[], ◌∷◌}
use native.Mathlib.Omega.{arith}
use ctask.Common.Tests.{ltb, leb, if◌then◌else◌, Bool-cases}
use mathlib.Core.Logic.{inl, inr}
use ctask.Common.Lists.{All}
use ctask.Common.ByteText.{Bytes}

-- The number that a text of decimal digits stands for.
unfoldable pub read_decimal : ℕ → Bytes → ℕ
read_decimal n [] = n
read_decimal n (c ∷ s) = read_decimal (n * 10 + (c - b'0')) s

decimal_loop : ℕ → ℕ → Bytes → Bytes
decimal_loop zero n s = s
decimal_loop (suc fuel) n s =
    let more = decimal_loop fuel (n / 10) ((b'0' + n % 10) ∷ s) in
    if ltb n 10 then (b'0' + n) ∷ s else more

-- The decimal text of a number.
unfoldable pub decimal : ℕ → Bytes
unfolding decimal_loop
decimal n = decimal_loop (suc n) n []

read_decimal-decimal_loop :
    (fuel n : ℕ) (s : Bytes) → n < fuel → read_decimal 0 (decimal_loop fuel n s) ≡ read_decimal n s
unfolding decimal_loop
read_decimal-decimal_loop zero n s h = elim h [ ]
read_decimal-decimal_loop (suc fuel) n s h = elim (Bool-cases (ltb n 10)) [
  | inl small ↦ rw small (unfold read_decimal in ap (λ k. read_decimal k s) (omega arith))
  | inr large ↦ rw large (
      read_decimal-decimal_loop fuel (n / 10) ((b'0' + n % 10) ∷ s) (ground arith)
      ∙ (unfold read_decimal in ap (λ k. read_decimal k s) (omega arith)))
]

pub read_decimal-decimal : (n : ℕ) → read_decimal 0 (decimal n) ≡ n
unfolding decimal
read_decimal-decimal n =
    read_decimal-decimal_loop (suc n) n [] (omega arith) ∙ (unfold read_decimal in refl)

unfoldable pub is_digit : ℕ → Bool
is_digit c = leb b'0' c && leb c b'9'

decimal_loop-digits :
    (fuel n : ℕ) (s : Bytes)
    → n < fuel
    → All (λ c. is_digit c ≡ true) s
    → All (λ c. is_digit c ≡ true) (decimal_loop fuel n s)
unfolding decimal_loop
decimal_loop-digits zero n s h d = d
decimal_loop-digits (suc fuel) n s h d = elim (Bool-cases (ltb n 10)) [
  | inl small ↦ rw small (unfold is_digit in ground arith, d)
  | inr large ↦ rw large (
      decimal_loop-digits fuel (n / 10) ((b'0' + n % 10) ∷ s) (ground arith)
        (unfold is_digit in ground arith, d))
]

pub decimal-digits : (n : ℕ) → All (λ c. is_digit c ≡ true) (decimal n)
unfolding decimal
decimal-digits n = decimal_loop-digits (suc n) n [] (omega arith) tt

decimal_loop-cons :
    (fuel n x : ℕ) (s : Bytes) → (c : ℕ) × (r : Bytes) × (decimal_loop fuel n (x ∷ s) ≡ c ∷ r)
unfolding decimal_loop
decimal_loop-cons zero n x s = (x, s, refl)
decimal_loop-cons (suc fuel) n x s = elim (Bool-cases (ltb n 10)) [
  | inl small ↦ (b'0' + n, x ∷ s, rw small)
  | inr large ↦
      let (c, r, e) = decimal_loop-cons fuel (n / 10) (b'0' + n % 10) (x ∷ s) in (c, r, rw large e)
]

-- The text of a number is not empty.
pub decimal-cons : (n : ℕ) → (c : ℕ) × (s : Bytes) × (decimal n ≡ c ∷ s)
unfolding decimal decimal_loop
decimal-cons n = elim (Bool-cases (ltb n 10)) [
  | inl small ↦ (b'0' + n, [], rw small)
  | inr large ↦
      let (c, r, e) = decimal_loop-cons n (n / 10) (b'0' + n % 10) [] in (c, r, rw large e)
]
