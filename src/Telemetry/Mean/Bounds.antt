-- ===== src/Telemetry/Mean/Bounds.antt =====
-- When the total is defined, and what it is.
use ctask.Common.{
  ℕ, ◌+◌, ◌*◌, ◌%◌, ◌^◌, ◌<◌, ◌≤◌, ◌≡◌, refl, true, List, [], ◌∷◌, All, length, some, arith, inl,
  inr, Bool-cases, Option-cases,
}
use ctask.Common.Int.{ℤ, pos, pos_part, neg_part, ◌+ℤ◌, to_u64, u64_mod}
use ctask.Telemetry.Types.{InteractionTimesCollection, TimeUnit, interaction_times_len}
use ctask.Telemetry.Mean.{
  Doubles, fits_int, accumulate, total_time, in_unit, calculate_mean_path_length,
}

-- The sums of the positive and of the negative parts.
unfoldable pub gains : List ℤ → ℕ
gains [] = 0
gains (v ∷ vs) = pos_part v + gains vs

unfoldable pub losses : List ℤ → ℕ
losses [] = 0
losses (v ∷ vs) = neg_part v + losses vs

unfoldable pub total_gains : List InteractionTimesCollection → ℕ
total_gains [] = 0
total_gains (i ∷ is) = gains i + total_gains is

unfoldable pub total_losses : List InteractionTimesCollection → ℕ
total_losses [] = 0
total_losses (i ∷ is) = losses i + total_losses is

-- A defined sum is the sum.
accumulate_parts :
    (acc : ℤ) (vs : List ℤ) (s : ℤ)
    → accumulate acc vs ≡ some s
    → pos_part s + neg_part acc + losses vs ≡ neg_part s + pos_part acc + gains vs
unfolding accumulate gains losses
accumulate_parts acc [] s h = ground arith
accumulate_parts acc (v ∷ vs) s h = elim (Bool-cases (fits_int (acc +ℤ v))) [
  | inl fits ↦ ground (arith, accumulate_parts (acc +ℤ v) vs s)
  | inr over ↦ ground arith
]

accumulate_fits :
    (acc : ℤ) (vs : List ℤ) (s : ℤ)
    → fits_int acc ≡ true
    → accumulate acc vs ≡ some s
    → fits_int s ≡ true
unfolding accumulate
accumulate_fits acc [] s f h = ground arith
accumulate_fits acc (v ∷ vs) s f h = elim (Bool-cases (fits_int (acc +ℤ v))) [
  | inl fits ↦ ground (arith, accumulate_fits (acc +ℤ v) vs s)
  | inr over ↦ ground arith
]

-- One collection adds its sum modulo 2 ^ 64.
to_u64_congr :
    (i : List ℤ) (s : ℤ) (t : ℕ)
    → accumulate (pos 0) i ≡ some s
    → ((t + to_u64 s) % u64_mod + losses i) % u64_mod ≡ (t + gains i) % u64_mod
unfolding to_u64 fits_int
to_u64_congr i s t h =
    ground (arith, accumulate_parts (pos 0) i s h, accumulate_fits (pos 0) i s refl h)

-- Whatever the signs, a defined total agrees modulo 2 ^ 64 with the sum of all values and the total
-- before them, so that a negative sum comes out raised by 2 ^ 64.
pub total_time_congr :
    (is : List InteractionTimesCollection) (t r : ℕ)
    → total_time t is ≡ some r
    → (r + total_losses is) % u64_mod ≡ (t + total_gains is) % u64_mod
unfolding total_time total_gains total_losses
total_time_congr [] t r h = ground arith
total_time_congr (i ∷ is) t r h = elim (Option-cases (accumulate (pos 0) i)) [
  | inl over ↦ ground arith
  | inr (s, sum) ↦ omega (
    arith,
    to_u64_congr i s t sum,
    total_time_congr is ((t + to_u64 s) % u64_mod) r (ground arith),
  )
]

-- At most this far from zero, ten values sum up without overflow.
abbrev pub small_value : ℕ
small_value = 214748364

abbrev pub IsSmall : ℤ → Type 0
IsSmall v = (pos_part v ≤ small_value) × (neg_part v ≤ small_value)

abbrev pub IsSmallCollection : InteractionTimesCollection → Type 0
IsSmallCollection i = (length i ≤ interaction_times_len) × All IsSmall i

accumulate_defined :
    (acc : ℤ) (vs : List ℤ)
    → All IsSmall vs
    → pos_part acc + length vs * small_value ≤ 2147483640
    → neg_part acc + length vs * small_value ≤ 2147483640
    → (s : ℤ) × (accumulate acc vs ≡ some s)
unfolding accumulate fits_int
accumulate_defined acc [] small up down = (acc, refl)
accumulate_defined acc (v ∷ vs) small up down =
    let (s, e) =
      accumulate_defined (acc +ℤ v) vs small.1 (unfold ◌+ℤ◌ in ground arith)
        (unfold ◌+ℤ◌ in ground arith) in
    (s, unfold ◌+ℤ◌ in ground arith)

-- Collections of at most ten small values have a defined total.
total_time_defined :
    (is : List InteractionTimesCollection) (t : ℕ)
    → All IsSmallCollection is
    → (r : ℕ) × (total_time t is ≡ some r)
unfolding total_time
total_time_defined [] t h = (t, refl)
total_time_defined (i ∷ is) t h =
    let (s, sum) = accumulate_defined (pos 0) i h.0.1 (omega arith) (omega arith) in
    let (r, e) = total_time_defined is ((t + to_u64 s) % u64_mod) h.1 in (r, rw (sum, total_time) e)

total_time_bounded :
    (is : List InteractionTimesCollection) (t r : ℕ)
    → t < u64_mod
    → total_time t is ≡ some r
    → r < u64_mod
unfolding total_time
total_time_bounded [] t r b h = ground arith
total_time_bounded (i ∷ is) t r b h = elim (Option-cases (accumulate (pos 0) i)) [
  | inl over ↦ ground arith
  | inr (s, sum) ↦ total_time_bounded is ((t + to_u64 s) % u64_mod) r (omega arith) (ground arith)
]

-- For at least one collection, and collections of at most ten values, none of them negative or above
-- 214748364, with a total below 2 ^ 64, the mean is defined: the sum of all values, divided by the
-- number of collections, in the unit.
pub calculate_mean_path_length_lem :
    (d : Doubles) (i : InteractionTimesCollection) (is : List InteractionTimesCollection)
    (unit : TimeUnit)
    → All IsSmallCollection (i ∷ is)
    → total_losses (i ∷ is) ≡ 0
    → total_gains (i ∷ is) < 2 ^ 64
    → calculate_mean_path_length d (i ∷ is) unit
      ≡ some
          (in_unit d unit (d.divide (d.of_u64 (total_gains (i ∷ is))) (d.of_u64 (length (i ∷ is)))))
unfolding calculate_mean_path_length
calculate_mean_path_length_lem d i is unit small nonneg bound =
    let (r, e) = total_time_defined (i ∷ is) 0 small in
    let exact : r ≡ total_gains (i ∷ is) =
      omega
        (arith, total_time_congr (i ∷ is) 0 r e, total_time_bounded (i ∷ is) 0 r (omega arith) e) in
    rw (e, exact) refl
