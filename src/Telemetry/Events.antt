-- ===== src/Telemetry/Events.antt =====
-- The `std::map` from timestamps to values in ctask_lib/telemetry/core/telemetry_storage.cpp:
-- a list of entries, and iterators as positions in it.
pub mod Laws
pub mod Range
use ctask.Common.{
  ℕ, suc, ◌<◌, Bool, false, ◌&&◌, ◌||◌, List, [], ◌∷◌, Option, none, some, ltb, leb, ◌==◌,
  if◌then◌else◌, drop,
}
use mathlib.Core.Option

module _ {ℓ} {V : Type ℓ} where
  -- data.emplace(date, values): an entry that is there stays as it is.
  unfoldable pub emplace : ℕ → V → List (ℕ × V) → List (ℕ × V)
  emplace d v [] = (d, v) ∷ []
  emplace d v ((e, w) ∷ m) =
      if ltb d e then (d, v) ∷ (e, w) ∷ m else if d == e then (e, w) ∷ m else (e, w) ∷ emplace d v m

  -- The position of the first entry whose date is at least `from`.
  unfoldable pub lower_bound : ℕ → List (ℕ × V) → ℕ
  lower_bound from [] = 0
  lower_bound from ((e, w) ∷ m) = if ltb e from then suc (lower_bound from m) else 0

  -- The position of the first entry whose date is above `to`.
  unfoldable pub upper_bound : ℕ → List (ℕ × V) → ℕ
  upper_bound to [] = 0
  upper_bound to ((e, w) ∷ m) = if leb e to then suc (upper_bound to m) else 0

  -- The loop from one iterator to another, over the entries that begin at the first one. `none`
  -- stands for undefined behaviour: the loop reads the past-the-end iterator.
  unfoldable pub collect : List (ℕ × V) → ℕ → ℕ → Option (List V)
  collect [] lower upper = if lower == upper then some [] else none
  collect ((e, w) ∷ m) lower upper =
      if lower == upper then some [] else Option.map (λ r. w ∷ r) (collect m (suc lower) upper)

  -- The part of `getEventInteractions` that reads one entry map.
  unfoldable pub interactions : ℕ → ℕ → List (ℕ × V) → Option (List V)
  unfolding lower_bound upper_bound collect
  interactions from to m =
      let lower = lower_bound from m in collect (drop lower m) lower (upper_bound to m)

  -- All dates are above `n` and ascend.
  abbrev pub Above : ℕ → List (ℕ × V) → Type 0
  Above n [] = Unit
  Above n ((e, w) ∷ m) = (n < e) × Above e m

  abbrev pub IsSorted : List (ℕ × V) → Type 0
  IsSorted [] = Unit
  IsSorted ((e, w) ∷ m) = Above e m

  -- The value of a date.
  unfoldable pub at : ℕ → List (ℕ × V) → Option V
  at d [] = none
  at d ((e, w) ∷ m) = if d == e then some w else at d m

  -- The values of the dates from `from` to `to`, both included, in the order of the map.
  unfoldable pub within : ℕ → ℕ → List (ℕ × V) → List V
  within from to [] = []
  within from to ((e, w) ∷ m) =
      let rest = within from to m in if leb from e && leb e to then w ∷ rest else rest

  -- Some date lies strictly between `to` and `from`.
  unfoldable pub between : ℕ → ℕ → List (ℕ × V) → Bool
  between to from [] = false
  between to from ((e, w) ∷ m) = (ltb to e && ltb e from) || between to from m
