-- ===== src/Parser/Stoll.antt =====
-- `std::stoll` in base 10.
use ctask.Common.{
  ℕ, ◌-◌, ◌<◌, ◌^◌, ◌≡◌, refl, Bytes, Bool, true, false, ◌&&◌, ◌||◌, ◌==◌, [], ◌∷◌, All, arith, leb,
  if◌then◌else◌, is_empty,
}
use ctask.Common.Int.{ℤ, pos, sub_ℕ}
use ctask.Common.Decimal.{
  read_decimal, decimal, is_digit, decimal-digits, decimal-cons, read_decimal-decimal,
}
use ctask.Common.Result.{Result, ok, thrown, invalid_argument, out_of_range}

-- What the implementation of the language leaves open: the text that a string holds after it was
-- moved from, and the texts of the exceptions of `std::stoll`.
pub record Platform : Type 0 where
  pub moved_from : Bytes → Bytes
  pub stoll_invalid : Bytes
  pub stoll_out_of_range : Bytes

unfoldable pub is_space : ℕ → Bool
is_space c = (c == 32) || (leb 9 c && leb c 13)

unfoldable pub skip_spaces : Bytes → Bytes
unfolding is_space
skip_spaces [] = []
skip_spaces (c ∷ s) = if is_space c then skip_spaces s else c ∷ s

-- The digits that a text begins with.
unfoldable pub leading_digits : Bytes → Bytes
unfolding is_digit
leading_digits [] = []
leading_digits (c ∷ s) = if is_digit c then c ∷ leading_digits s else []

module _ (platform : Platform) where
  unfoldable pub read_signed : Bool → Bytes → Result ℤ
  unfolding leading_digits read_decimal is_empty
  read_signed negative s =
      let n = read_decimal 0 (leading_digits s) in
      if is_empty (leading_digits s)
      then thrown (invalid_argument platform.stoll_invalid)
      else if leb n (if negative then 2 ^ 63 else 2 ^ 63 - 1)
      then ok (if negative then sub_ℕ 0 n else pos n)
      else thrown (out_of_range platform.stoll_out_of_range)

  abbrev read_sign : Bytes → Result ℤ
  read_sign [] = read_signed false []
  read_sign (c ∷ s) =
      if c == b'-'
      then read_signed true s
      else if c == b'+'
      then read_signed false s
      else read_signed false (c ∷ s)

  unfoldable pub stoll : Bytes → Result ℤ
  unfolding read_signed skip_spaces
  stoll text = read_sign (skip_spaces text)

leading_digits-All : (s rest : Bytes) → All (λ c. is_digit c ≡ true) s → leading_digits s ≡ s
unfolding leading_digits
leading_digits-All [] rest h = refl
leading_digits-All (c ∷ s) rest h = rw (h.0, leading_digits-All s rest h.1) refl

read_signed-decimal :
    (platform : Platform) (n : ℕ) → n < 2 ^ 63 → read_signed platform false (decimal n) ≡ ok (pos n)
unfolding read_signed
read_signed-decimal platform n h =
    let (c, s, e) = decimal-cons n in
    rw (leading_digits-All (decimal n) [] (decimal-digits n), read_decimal-decimal n)
      (rw e (ground arith))

stoll_digit :
    (platform : Platform) (c : ℕ) (s : Bytes)
    → is_digit c ≡ true
    → stoll platform (c ∷ s) ≡ read_signed platform false (c ∷ s)
unfolding stoll is_digit
stoll_digit platform c s d =
    let plain : ((c == 32) || (leb 9 c && leb c 13)) ≡ false = ground arith in
    let minus : (c == b'-') ≡ false = ground arith in
    let plus : (c == b'+') ≡ false = ground arith in rw (plain, minus, plus) refl

-- The decimal text of a number below 2 ^ 63 is read as the number.
pub stoll-decimal :
    (platform : Platform) (n : ℕ) → n < 2 ^ 63 → stoll platform (decimal n) ≡ ok (pos n)
stoll-decimal platform n h =
    let (c, s, e) = decimal-cons n in
    let digits : All (λ c. is_digit c ≡ true) (c ∷ s) = rw e at (decimal-digits n) in
    rw (e, stoll_digit platform c s digits.0) (rw e at (read_signed-decimal platform n h))
