-- ===== src/Router/Paths/Split.antt =====
-- A path as the list of its parts, and what one round of each loop over a path sees of it.
use ctask.Common.{
  ℕ, suc, ◌+◌, ◌-◌, ◌<◌, ◌≤◌, ◌≡◌, refl, Bytes, List, [], ◌∷◌, length, take, drop, drop-drop,
  length-drop, drop_all, take_all, length-take_of_le, none, some, Option-cases, Bool-cases, All,
  false, ◌⊎◌, inl, inr, ◌==◌, arith, if◌then◌else◌,
}
use ctask.Router.Paths.{index_of, part_end, substr}

abbrev pub add_to_first : ℕ → List Bytes → List Bytes
add_to_first c [] = (c ∷ []) ∷ []
add_to_first c (part ∷ parts) = (c ∷ part) ∷ parts

-- The parts between the slashes, empty ones included.
unfoldable pub split_slash : Bytes → List Bytes
split_slash [] = [] ∷ []
split_slash (c ∷ s) = if c == b'/' then [] ∷ split_slash s else add_to_first c (split_slash s)

unfoldable pub nonempty : List Bytes → List Bytes
nonempty [] = []
nonempty ([] ∷ parts) = nonempty parts
nonempty ((c ∷ s) ∷ parts) = (c ∷ s) ∷ nonempty parts

pub split_slash-cons :
    (s : Bytes) → (part : Bytes) × (parts : List Bytes) × (split_slash s ≡ part ∷ parts)
unfolding split_slash
split_slash-cons [] = ([], [], refl)
split_slash-cons (c ∷ s) =
    let (part, parts, e) = split_slash-cons s in
    elim (Bool-cases (c == b'/')) [
      | inl slash ↦ ([], split_slash s, rw slash)
      | inr other ↦ (c ∷ part, parts, rw (other, e))
    ]

abbrev pub NoSlash : Bytes → Type 0
NoSlash s = All (λ c. (c == b'/') ≡ false) s

add_to_first-NoSlash :
    (c : ℕ) (parts : List Bytes)
    → (c == b'/') ≡ false
    → All NoSlash parts
    → All NoSlash (add_to_first c parts)
add_to_first-NoSlash c [] p h = ((p, tt), tt)
add_to_first-NoSlash c (part ∷ parts) p h = ((p, h.0), h.1)

pub split_slash-NoSlash : (s : Bytes) → All NoSlash (split_slash s)
unfolding split_slash
split_slash-NoSlash [] = (tt, tt)
split_slash-NoSlash (c ∷ s) = elim (Bool-cases (c == b'/')) [
  | inl slash ↦ rw slash (tt, split_slash-NoSlash s)
  | inr other ↦ rw other (add_to_first-NoSlash c (split_slash s) other (split_slash-NoSlash s))
]

-- The parts of a path that are not empty.
unfoldable pub segments : Bytes → List Bytes
unfolding split_slash nonempty
segments path = nonempty (split_slash path)

split_none : (s : Bytes) → index_of b'/' s ≡ none → split_slash s ≡ s ∷ []
unfolding split_slash index_of
split_none [] h = refl
split_none (c ∷ s) h = ground (arith, split_none s)

index_of-lt : (s : Bytes) (k : ℕ) → index_of b'/' s ≡ some k → k < length s
unfolding index_of
index_of-lt [] k h = cc
index_of-lt (c ∷ s) k h = elim (Option-cases (index_of b'/' s)) [
  | inl e ↦ ground arith
  | inr (j, e) ↦ ground (arith, index_of-lt s j e)
]

split_some :
    (s : Bytes) (k : ℕ)
    → index_of b'/' s ≡ some k
    → split_slash s ≡ take k s ∷ split_slash (drop (suc k) s)
unfolding split_slash index_of
split_some [] k h = cc
split_some (c ∷ s) k h = elim (Option-cases (index_of b'/' s)) [
  | inl e ↦ ground arith
  | inr (j, e) ↦ ground (arith, split_some s j e)
]

-- What a round from `start` that finds the end `end` reads, and where the next round starts.
pub record Round (path : Bytes) (start end : ℕ) : Type 0 where
  pub forward : start ≤ end
  pub read : length (substr path start (end - start)) ≡ end - start
  pub split :
      ((end ≡ length path)
        × (split_slash (drop start path) ≡ substr path start (end - start) ∷ [])
        × (split_slash (drop (end + 1) path) ≡ [] ∷ []))
      ⊎ ((end < length path)
          × (split_slash (drop start path)
              ≡ substr path start (end - start) ∷ split_slash (drop (end + 1) path)))

module _ (path : Bytes) (start : ℕ) (more : start < length path) where
  last-Round : index_of b'/' (drop start path) ≡ none → Round path start (length path)
  last-Round e =
      let len = length-drop start path in
      let whole = take_all (length path - start) (drop start path) (omega (arith, len)) in
      record {
        forward = omega arith;
        read = rw whole len;
        split = inl (
          refl,
          rw whole (split_none (drop start path) e),
          rw (drop_all (length path + 1) path (omega arith)) (unfold split_slash in refl),
        );
      }

  inner-Round : (k : ℕ) → index_of b'/' (drop start path) ≡ some k → Round path start (start + k)
  inner-Round k e =
      let len = length-drop start path in
      let small = index_of-lt (drop start path) k e in
      let size : start + k - start ≡ k = omega arith in
      let there : start + k + 1 ≡ start + suc k = omega arith in
      record {
        forward = omega arith;
        read = rw size (length-take_of_le k (drop start path) (omega arith));
        split = inr (
          omega (arith, len, small),
          rw (size, there, ← drop-drop (suc k) start path) (split_some (drop start path) k e),
        );
      }

  pub round : Round path start (part_end path start)
  unfolding part_end
  round = elim (Option-cases (index_of b'/' (drop start path))) [
    | inl e ↦ rw (e, part_end) (last-Round e)
    | inr (k, e) ↦ rw (e, part_end) (inner-Round k e)
  ]
