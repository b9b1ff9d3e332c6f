-- ===== src/Telemetry/Mean.antt =====
-- `calculateMeanPathLength` of ctask_lib/telemetry/core/misc.h. The arithmetic of `double` is a
-- parameter; that of `int` and `uint64_t` is written out.
pub mod Bounds
use ctask.Common.{
  ℕ, ◌+◌, ◌-◌, ◌%◌, ◌^◌, Bool, ◌&&◌, List, [], ◌∷◌, length, Option, none, some, leb, if◌then◌else◌,
  is_empty,
}
use ctask.Common.Int.{ℤ, pos, pos_part, neg_part, ◌+ℤ◌, to_u64, u64_mod}
use ctask.Telemetry.Types.{InteractionTimesCollection, TimeUnit, seconds, milliseconds}
use mathlib.Core.Option

-- The operations on `double` that the program uses.
pub record Doubles : Type 1 where
  pub Double : Type 0
  pub zero_double : Double
  pub of_u64 : ℕ → Double
  pub divide : Double → Double → Double
  pub times_thousand : Double → Double

-- The value fits `int`, of 32 bits.
unfoldable pub fits_int : ℤ → Bool
fits_int z = leb (pos_part z) (2 ^ 31 - 1) && leb (neg_part z) (2 ^ 31)

-- `std::accumulate` with an `int`; `none` stands for signed overflow, which is undefined.
unfoldable pub accumulate : ℤ → List ℤ → Option ℤ
unfolding fits_int ◌+ℤ◌
accumulate acc [] = some acc
accumulate acc (v ∷ vs) =
    let rest = accumulate (acc +ℤ v) vs in if fits_int (acc +ℤ v) then rest else none

-- The loop over the collections, from a total.
unfoldable pub total_time : ℕ → List InteractionTimesCollection → Option ℕ
unfolding accumulate to_u64
total_time total [] = some total
total_time total (i ∷ is) = elim (accumulate (pos 0) i) [
  | none ↦ none
  | some sum ↦ total_time ((total + to_u64 sum) % u64_mod) is
]

module _ (d : Doubles) where
  open d use {Double, zero_double, of_u64, divide, times_thousand}

  unfoldable pub in_unit : TimeUnit → Double → Double
  in_unit seconds mean = mean
  in_unit milliseconds mean = times_thousand mean

  unfoldable pub calculate_mean_path_length :
      List InteractionTimesCollection → TimeUnit → Option Double
  unfolding total_time in_unit is_empty
  calculate_mean_path_length interactions unit =
      if is_empty interactions
      then some zero_double
      else Option.map (λ total. in_unit unit (divide (of_u64 total) (of_u64 (length interactions))))
          (total_time 0 interactions)
