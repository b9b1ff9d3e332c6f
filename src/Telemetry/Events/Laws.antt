-- ===== src/Telemetry/Events/Laws.antt =====
-- What an insertion into the map of one event does.
use ctask.Common.{ℕ, ◌<◌, ◌≤◌, ◌≡◌, refl, List, [], ◌∷◌, none, some, arith, ◌==◌, if◌then◌else◌}
use ctask.Common.Assoc.{or_else}
use ctask.Telemetry.Events.{emplace, Above, IsSorted, at}

module _ {V : Type 0} where
  pub Above-IsSorted : (n : ℕ) (m : List (ℕ × V)) → Above n m → IsSorted m
  Above-IsSorted n [] a = tt
  Above-IsSorted n ((e, w) ∷ m) a = a.1

  pub Above-mono : {m n : ℕ} (xs : List (ℕ × V)) → m ≤ n → Above n xs → Above m xs
  Above-mono [] h a = tt
  Above-mono ((e, w) ∷ xs) h a = (omega arith, a.1)

  Above-emplace : (n d : ℕ) (v : V) (m : List (ℕ × V)) → n < d → Above n m → Above n (emplace d v m)
  unfolding emplace
  Above-emplace n d v [] h a = (h, tt)
  Above-emplace n d v ((e, w) ∷ m) h a = ground (arith, Above-emplace e d v m)

  pub emplace-IsSorted : (d : ℕ) (v : V) (m : List (ℕ × V)) → IsSorted m → IsSorted (emplace d v m)
  unfolding emplace
  emplace-IsSorted d v [] s = tt
  emplace-IsSorted d v ((e, w) ∷ m) s = ground (arith, Above-emplace e d v m)

  pub at-Above : (d : ℕ) (n : ℕ) (m : List (ℕ × V)) → d ≤ n → Above n m → at d m ≡ none
  unfolding at
  at-Above d n [] h a = refl
  at-Above d n ((e, w) ∷ m) h a = ground (arith, at-Above d e m)

  -- The first value of a date stays; every other date is as it was.
  pub at-emplace :
      (d c : ℕ) (v : V) (m : List (ℕ × V))
      → IsSorted m
      → at c (emplace d v m) ≡ (if d == c then some (or_else (at c m) v) else at c m)
  unfolding at emplace
  at-emplace d c v [] s = ground arith
  at-emplace d c v ((e, w) ∷ m) s =
      ground (arith, at-emplace d c v m (Above-IsSorted e m s), at-Above d e m)
