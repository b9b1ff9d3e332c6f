-- ===== src/Telemetry/Api/Means.antt =====
-- The number that a query is answered by, after any history of plain events.
pub mod Tests
use ctask.Common.{
  ℕ, zero, suc, ◌+◌, ◌-◌, ◌^◌, ◌≤◌, ◌<◌, ◌≡◌, refl, ap, ◌∙◌, Bytes, List, [], ◌∷◌, length, All,
  Option, none, some, arith, Option-cases, Bool-cases, inl, inr, bytes_eq, ◌&&◌, ◌==◌,
}
use mathlib.Core.Path.{subst}
use ctask.Common.Result.{ok, ◌>>=◌}
use ctask.Utils.{HttpRequest}
use ctask.Telemetry.Types.{InteractionTimesCollection, InteractionTimesEventModel}
use ctask.Telemetry.Events.Range.{values_from}
use ctask.Telemetry.Storage.{new_storage}
use ctask.Telemetry.Storage.History.{History, store_all, first_values}
use ctask.Telemetry.Mean.{Doubles, in_unit}
use ctask.Telemetry.Mean.Bounds.{
  losses, total_gains, total_losses, IsSmallCollection, calculate_mean_path_length_lem,
}
use ctask.Telemetry.Api.{Json, handle_mean_length}
use ctask.Telemetry.Api.Handlers.{Queries, start, end}
use ctask.Telemetry.Api.Flow.{mean_answer, answer_of, handle_mean_length_history}

-- At most ten values, none of them negative or above 214748364.
abbrev pub IsPlainCollection : InteractionTimesCollection → Type 0
IsPlainCollection values = IsSmallCollection values × (losses values ≡ 0)

abbrev pub IsPlainEvent : Bytes × InteractionTimesEventModel → Type 0
IsPlainEvent x = IsPlainCollection x.1.values

first_values-All :
    (h : History) (k : Bytes) (date : ℕ) (values : InteractionTimesCollection)
    → All IsPlainEvent h
    → first_values k date h ≡ some values
    → IsPlainCollection values
unfolding first_values
first_values-All [] k date values all e = cc
first_values-All ((n, x) ∷ h) k date values all e =
    elim (Bool-cases (bytes_eq n k && (x.date == date))) [
      | inl t ↦ let same : x.values ≡ values = ground arith in subst IsPlainCollection same all.0
      | inr f ↦ first_values-All h k date values all.1 (ground arith)
    ]

values_from-All :
    {V : Type 0} (P : V → Type 0) (f : ℕ → Option V)
    → ((date : ℕ) (v : V) → f date ≡ some v → P v)
    → (from n : ℕ) → All P (values_from f from n)
unfolding values_from
values_from-All P f all from zero = tt
values_from-All P f all from (suc n) = elim (Option-cases (f from)) [
  | inl e ↦ rw (e, values_from) (values_from-All P f all (suc from) n)
  | inr (v, e) ↦ rw (e, values_from) (all from v e, values_from-All P f all (suc from) n)
]

plain_small :
    (vs : List InteractionTimesCollection) → All IsPlainCollection vs → All IsSmallCollection vs
plain_small [] all = tt
plain_small (v ∷ vs) all = (all.0.0, plain_small vs all.1)

plain_losses :
    (vs : List InteractionTimesCollection) → All IsPlainCollection vs → total_losses vs ≡ 0
unfolding total_losses
plain_losses [] all = refl
plain_losses (v ∷ vs) all = omega (arith, all.0.1, plain_losses vs all.1)

module _ (d : Doubles) (json : Json d) where
  -- After any history of events of at most ten values, none negative or above 214748364, a query with
  -- its bounds in order that finds at least one collection, with a total below 2 ^ 64, is answered by
  -- the sum of all values that it finds, divided by the number of their collections, in its unit.
  pub mean_of_history :
      (h : History) (request : HttpRequest) (q : Queries d json request)
      (first : InteractionTimesCollection) (others : List InteractionTimesCollection)
      → All IsPlainEvent h
      → start d json q ≤ end d json q
      → values_from
          (λ date. first_values q.name date h)
          (start d json q)
          (suc (end d json q) - start d json q)
        ≡ first ∷ others
      → total_gains (first ∷ others) < 2 ^ 64
      → (handle_mean_length d json request (store_all h new_storage)).0
        ≡ mean_answer d json (
            in_unit d q.unit (
              d.divide
                (d.of_u64 (total_gains (first ∷ others)))
                (d.of_u64 (length (first ∷ others)))))
  mean_of_history h request q first others plain ordered found bounded =
      let all : All IsPlainCollection (first ∷ others) = subst (All IsPlainCollection) found (
        values_from-All IsPlainCollection _ (λ date v. first_values-All h q.name date v plain) _
          _) in
      handle_mean_length_history d json h request q ordered
      ∙ ap (answer_of d json q.unit) found
      ∙ rw
          (calculate_mean_path_length_lem d first others q.unit (plain_small (first ∷ others) all)
            (plain_losses (first ∷ others) all) bounded)
          refl
