-- ===== src/Common/Assoc.antt =====
-- `std::unordered_map` with text keys: an association list in the order of iteration.
use mathlib.Core.Path.{◌≡◌, refl, subst}
use mathlib.Core.Logic.{◌≢◌, inl, inr}
use mathlib.Core.Option.{Option, none, some}
use mathlib.Core.List.{List, [], ◌∷◌}
use native.Mathlib.Omega.{arith}
use ctask.Common.Tests.{if◌then◌else◌, Bool-cases}
use ctask.Common.ByteText.{Bytes, bytes_eq, bytes_eq_iff}

module _ {ℓ} {V : Type ℓ} where
  -- m.find(k), with the value that the iterator points to.
  unfoldable pub lookup : Bytes → List (Bytes × V) → Option V
  lookup k [] = none
  lookup k ((j, v) ∷ m) = if bytes_eq j k then some v else lookup k m

  -- m.emplace(k, v): an entry that is there stays.
  unfoldable pub emplace : Bytes → V → List (Bytes × V) → List (Bytes × V)
  emplace k v [] = (k, v) ∷ []
  emplace k v ((j, w) ∷ m) = if bytes_eq j k then (j, w) ∷ m else (j, w) ∷ emplace k v m

  -- m[k] = v: an entry that is there is overwritten.
  unfoldable pub assign : Bytes → V → List (Bytes × V) → List (Bytes × V)
  assign k v [] = (k, v) ∷ []
  assign k v ((j, w) ∷ m) = if bytes_eq j k then (j, v) ∷ m else (j, w) ∷ assign k v m

  -- A write through a pointer to the value of the key.
  unfoldable pub modify : Bytes → (V → V) → List (Bytes × V) → List (Bytes × V)
  modify k f [] = []
  modify k f ((j, w) ∷ m) = if bytes_eq j k then (j, f w) ∷ m else (j, w) ∷ modify k f m

  abbrev pub or_else : Option V → V → V
  or_else none d = d
  or_else (some v) d = v

  abbrev pub map_option : (V → V) → Option V → Option V
  map_option f none = none
  map_option f (some v) = some (f v)

  pub lookup-emplace :
      (k j : Bytes) (v : V) (m : List (Bytes × V))
      → lookup j (emplace k v m)
        ≡ (if bytes_eq k j then some (or_else (lookup j m) v) else lookup j m)
  unfolding lookup emplace
  lookup-emplace k j v [] = ground arith
  lookup-emplace k j v ((i, w) ∷ m) =
      ground (arith, bytes_eq_iff k j, bytes_eq_iff i k, bytes_eq_iff i j, lookup-emplace k j v m)

  pub lookup-assign :
      (k j : Bytes) (v : V) (m : List (Bytes × V))
      → lookup j (assign k v m) ≡ (if bytes_eq k j then some v else lookup j m)
  unfolding lookup assign
  lookup-assign k j v [] = ground arith
  lookup-assign k j v ((i, w) ∷ m) =
      ground (arith, bytes_eq_iff k j, bytes_eq_iff i k, bytes_eq_iff i j, lookup-assign k j v m)

  pub lookup-modify :
      (k j : Bytes) (f : V → V) (m : List (Bytes × V))
      → lookup j (modify k f m) ≡ (if bytes_eq k j then map_option f (lookup j m) else lookup j m)
  unfolding lookup modify
  lookup-modify k j f [] = ground arith
  lookup-modify k j f ((i, w) ∷ m) =
      ground (arith, bytes_eq_iff k j, bytes_eq_iff i k, bytes_eq_iff i j, lookup-modify k j f m)

  -- An insertion of a key that is there changes nothing.
  pub emplace_present :
      (k : Bytes) (v : V) (m : List (Bytes × V)) → lookup k m ≢ none → emplace k v m ≡ m
  unfolding lookup emplace
  emplace_present k v [] h = absurd (h refl)
  emplace_present k v ((i, w) ∷ m) h = ground (arith, emplace_present k v m)

  pub map_option-ne-none : (f : V → V) (o : Option V) → o ≢ none → map_option f o ≢ none
  map_option-ne-none f none h e = h e
  map_option-ne-none f (some v) h e = cc

  -- A map with an entry is not empty.
  pub lookup-ne_nil : (k : Bytes) (m : List (Bytes × V)) {v : V} → lookup k m ≡ some v → m ≢ []
  unfolding lookup
  lookup-ne_nil k [] e p = cc
  lookup-ne_nil k (x ∷ m) e p = cc

-- What holds of the only value of a map holds of whatever is found in it.
pub lookup_one :
    {V : Type 0} (P : V → Type 0) (k key : Bytes) (v w : V)
    → P w
    → lookup k ((key, w) ∷ []) ≡ some v
    → P v
unfolding lookup
lookup_one P k key v w p e = elim (Bool-cases (bytes_eq key k)) [
  | inl t ↦ let same : w ≡ v = ground arith in subst P same p
  | inr f ↦ ground arith
]
