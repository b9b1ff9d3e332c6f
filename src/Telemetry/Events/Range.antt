-- ===== src/Telemetry/Events/Range.antt =====
-- The range query over the map of one event, for every pair of bounds.
use ctask.Common.{
  ℕ, zero, suc, ◌+◌, ◌<◌, ◌≤◌, ◌≡◌, ◌≢◌, refl, ap, inl, inr, false, true, ◌&&◌, ltb, Bool-cases,
  List, [], ◌∷◌, Option, none, some, arith, if◌then◌else◌, drop,
}
use mathlib.Core.Bool.{false≢true}
use mathlib.Core.Path.{fun_ext}
use ctask.Telemetry.Events.Laws.{Above-IsSorted, at-Above}
use ctask.Telemetry.Events.{
  lower_bound, upper_bound, collect, interactions, Above, IsSorted, at, within, between,
}

module _ {V : Type 0} where
  lower_bound-Above :
      (from n : ℕ) (m : List (ℕ × V)) → from ≤ n → Above n m → lower_bound from m ≡ 0
  unfolding lower_bound
  lower_bound-Above from n [] h a = refl
  lower_bound-Above from n ((e, w) ∷ m) h a = ground arith

  within-Above : (from to n : ℕ) (m : List (ℕ × V)) → to ≤ n → Above n m → within from to m ≡ []
  unfolding within
  within-Above from to n [] h a = refl
  within-Above from to n ((e, w) ∷ m) h a = ground (arith, within-Above from to e m)

  between-Above :
      (to from n : ℕ) (m : List (ℕ × V)) → from ≤ n → Above n m → between to from m ≡ false
  unfolding between
  between-Above to from n [] h a = refl
  between-Above to from n ((e, w) ∷ m) h a = ground (arith, between-Above to from e m)

  collect_shift :
      (m : List (ℕ × V)) (lower upper : ℕ)
      → collect m (suc lower) (suc upper) ≡ collect m lower upper
  unfolding collect
  collect_shift [] lower upper = ground arith
  collect_shift ((e, w) ∷ m) lower upper = ground (arith, collect_shift m (suc lower) upper)

  -- An iterator beyond the end of the range never meets it.
  collect_beyond : (m : List (ℕ × V)) (lower : ℕ) → collect m (suc lower) 0 ≡ none
  unfolding collect
  collect_beyond [] lower = ground arith
  collect_beyond ((e, w) ∷ m) lower = ground (arith, collect_beyond m (suc lower))

  -- The query gives the values of the range, except that it runs past the end exactly when some
  -- date lies strictly between the end of the range and its beginning.
  pub interactions_lem :
      (from to : ℕ) (m : List (ℕ × V))
      → IsSorted m
      → interactions from to m ≡ (if between to from m then none else some (within from to m))
  unfolding interactions collect lower_bound upper_bound within between
  interactions_lem from to [] s = refl
  interactions_lem from to ((e, w) ∷ m) s = ground (
    arith,
    interactions_lem from to m (Above-IsSorted e m s),
    lower_bound-Above from e m,
    within-Above from to e m,
    between-Above to from e m,
    collect_shift (drop (lower_bound from m) m) (lower_bound from m) (upper_bound to m),
    collect_beyond (drop (lower_bound from m) m) (lower_bound from m),
    collect_shift m 0 (upper_bound to m),
  )

  -- Bounds in order never run past the end.
  pub between_ordered : (to from : ℕ) (m : List (ℕ × V)) → from ≤ to → between to from m ≡ false
  unfolding between
  between_ordered to from [] h = refl
  between_ordered to from ((e, w) ∷ m) h = ground (arith, between_ordered to from m)

  -- Some date lies strictly between exactly when some date there has a value.
  pub between_sound :
      (to from : ℕ) (m : List (ℕ × V))
      → IsSorted m
      → between to from m ≡ true
      → (d : ℕ) × (to < d) × (d < from) × (at d m ≢ none)
  unfolding between at
  between_sound to from [] s h = absurd (false≢true h)
  between_sound to from ((e, w) ∷ m) s h = elim (Bool-cases (ltb to e && ltb e from)) [
    | inl here ↦ (e, ground arith, ground arith, ground arith)
    | inr later ↦
        let (d, low, high, found) = between_sound to from m (Above-IsSorted e m s) (ground arith) in
        (d, low, high, ground arith)
  ]

  pub between_complete :
      (to from d : ℕ) (m : List (ℕ × V))
      → to < d
      → d < from
      → at d m ≢ none
      → between to from m ≡ true
  unfolding between at
  between_complete to from d [] low high h = absurd (h refl)
  between_complete to from d ((e, w) ∷ m) low high h =
      ground (arith, between_complete to from d m low high)

  pub within_empty : (from to : ℕ) (m : List (ℕ × V)) → to < from → within from to m ≡ []
  unfolding within
  within_empty from to [] h = refl
  within_empty from to ((e, w) ∷ m) h = ground (arith, within_empty from to m)

  -- The values that a function has at `n` timestamps from `start` on, in order.
  unfoldable pub values_from : (ℕ → Option V) → ℕ → ℕ → List V
  values_from f start zero = []
  values_from f start (suc n) = elim (f start) [
    | none ↦ values_from f (suc start) n
    | some v ↦ v ∷ values_from f (suc start) n
  ]

  abbrev cons_option : Option V → List V → List V
  cons_option none vs = vs
  cons_option (some v) vs = v ∷ vs

  within_skip :
      (from to n : ℕ) (m : List (ℕ × V))
      → from ≤ n
      → Above n m
      → within from to m ≡ within (suc from) to m
  unfolding within
  within_skip from to n [] h a = refl
  within_skip from to n ((e, w) ∷ m) h a = ground (arith, within_skip from to e m)

  within_peel :
      (from to : ℕ) (m : List (ℕ × V))
      → IsSorted m
      → from ≤ to
      → within from to m ≡ cons_option (at from m) (within (suc from) to m)
  unfolding within at
  within_peel from to [] s h = refl
  within_peel from to ((e, w) ∷ m) s h = ground (
    arith,
    within_peel from to m (Above-IsSorted e m s),
    within_skip from to e m,
    at-Above from e m,
  )

  -- The range of a sorted map, timestamp by timestamp.
  pub within-eq-values_from :
      (n from to : ℕ) (m : List (ℕ × V))
      → IsSorted m
      → from + n ≡ suc to
      → within from to m ≡ values_from (λ d. at d m) from n
  unfolding values_from
  within-eq-values_from zero from to m s h = within_empty from to m (omega arith)
  within-eq-values_from (suc n) from to m s h =
      ground (arith, within_peel from to m s, within-eq-values_from n (suc from) to m s)

  pub values_from_congr :
      (f g : ℕ → Option V) (start n : ℕ)
      → ((d : ℕ) → f d ≡ g d)
      → values_from f start n ≡ values_from g start n
  values_from_congr f g start n h = ap (λ k. values_from k start n) (fun_ext h)
