-- ===== src/Router/Paths/Template.antt =====
-- The template of a path: its parts, with `{}` in place of each part in braces.
use ctask.Common.{
  ℕ, zero, suc, ◌+◌, ◌-◌, ◌<◌, ◌≡◌, refl, sym, ap, ◌∙◌, Bytes, codes, List, [], ◌∷◌, ◌++◌, map,
  length, drop, drop_all, some, Bool-cases, inl, inr, ◌==◌, arith, ltb, ltb→lt, All, ◌↔◌,
}
use mathlib.Core.List.{append-nil, append_assoc}
use ctask.Router.Paths.{
  part_end, substr, front, is_parameter, generalized, template_loop,
  build_parameterized_path_template,
}
use ctask.Router.Paths.Split.{
  split_slash, split_slash-cons, split_slash-NoSlash, NoSlash, add_to_first, round,
}

-- The parts with a slash between each two.
unfoldable pub join : List Bytes → Bytes
join [] = []
join (part ∷ []) = part
join (part ∷ next ∷ parts) = part ++ b'/' ∷ join (next ∷ parts)

-- The template of a path, part by part.
unfoldable pub template_of : Bytes → Bytes
unfolding join
template_of path = join (map generalized (split_slash path))

join-add_to_first : (c : ℕ) (parts : List Bytes) → join (add_to_first c parts) ≡ c ∷ join parts
unfolding join
join-add_to_first c [] = refl
join-add_to_first c (part ∷ []) = refl
join-add_to_first c (part ∷ next ∷ parts) = refl

join_slash :
    (f : Bytes → Bytes) (part path : Bytes)
    → join (part ∷ map f (split_slash path)) ≡ part ++ b'/' ∷ join (map f (split_slash path))
unfolding join
join_slash f part path = let (p, ps, e) = split_slash-cons path in rw e refl

join_empty : (path : Bytes) → join ([] ∷ split_slash path) ≡ b'/' ∷ join (split_slash path)
unfolding join
join_empty path = let (p, ps, e) = split_slash-cons path in rw e refl

join-split_slash : (path : Bytes) → join (split_slash path) ≡ path
unfolding split_slash
join-split_slash [] = unfold join in refl
join-split_slash (c ∷ s) = elim (Bool-cases (c == b'/')) [
  | inl slash ↦ rw (slash, join_empty s, join-split_slash s) (ap (λ x. x ∷ s) (ground arith))
  | inr other ↦ rw (other, join-add_to_first c (split_slash s), join-split_slash s) refl
]

split_slash_prefix :
    (part rest : Bytes) → NoSlash part → split_slash (part ++ b'/' ∷ rest) ≡ part ∷ split_slash rest
unfolding split_slash
split_slash_prefix [] rest h = refl
split_slash_prefix (c ∷ part) rest h = rw (h.0, split_slash_prefix part rest h.1) refl

split_slash_one : (part : Bytes) → NoSlash part → split_slash part ≡ part ∷ []
unfolding split_slash
split_slash_one [] h = refl
split_slash_one (c ∷ part) h = rw (h.0, split_slash_one part h.1) refl

split_slash-join :
    (part : Bytes) (parts : List Bytes)
    → All NoSlash (part ∷ parts)
    → split_slash (join (part ∷ parts)) ≡ part ∷ parts
unfolding join
split_slash-join part [] h = split_slash_one part h.0
split_slash-join part (next ∷ parts) h =
    rw (split_slash_prefix part (join (next ∷ parts)) h.0, split_slash-join next parts h.1) refl

generalized-NoSlash : (part : Bytes) → NoSlash part → NoSlash (generalized part)
unfolding generalized
generalized-NoSlash part h = elim (Bool-cases (is_parameter part)) [
  | inl p ↦ rw p (refl, (refl, tt))
  | inr p ↦ rw p h
]

generalized_idem : (part : Bytes) → generalized (generalized part) ≡ generalized part
unfolding generalized
generalized_idem part = ground arith

map-generalized-NoSlash :
    (parts : List Bytes) → All NoSlash parts → All NoSlash (map generalized parts)
map-generalized-NoSlash [] h = tt
map-generalized-NoSlash (p ∷ ps) h = (generalized-NoSlash p h.0, map-generalized-NoSlash ps h.1)

map-generalized_idem :
    (parts : List Bytes) → map generalized (map generalized parts) ≡ map generalized parts
map-generalized_idem [] = refl
map-generalized_idem (p ∷ ps) = cc (generalized_idem p, map-generalized_idem ps)

split_slash-template_of :
    (path : Bytes) → split_slash (template_of path) ≡ map generalized (split_slash path)
unfolding template_of
split_slash-template_of path =
    let (p, ps, e) = split_slash-cons path in
    let plain : All NoSlash (p ∷ ps) = rw e at (split_slash-NoSlash path) in
    rw e (
      split_slash-join (generalized p) (map generalized ps)
        (map-generalized-NoSlash (p ∷ ps) plain))

template_last :
    (path : Bytes) (start end : ℕ)
    → split_slash (drop start path) ≡ substr path start (end - start) ∷ []
    → template_of (drop start path) ≡ generalized (substr path start (end - start))
unfolding template_of join
template_last path start end e = rw e refl

template_inner :
    (path : Bytes) (start end : ℕ)
    → split_slash (drop start path)
      ≡ substr path start (end - start) ∷ split_slash (drop (end + 1) path)
    → template_of (drop start path)
      ≡ generalized (substr path start (end - start)) ++ b'/' ∷ template_of (drop (end + 1) path)
unfolding template_of
template_inner path start end e =
    rw e (join_slash generalized (generalized (substr path start (end - start))) _)

generalized_empty : (part : Bytes) → length part ≡ 0 → generalized part ≡ []
unfolding generalized is_parameter front
generalized_empty [] h = refl
generalized_empty (c ∷ s) h = absurd (omega arith)

template_loop_lem :
    (fuel : ℕ) (path : Bytes) (start : ℕ) (out : Bytes)
    → length path - start < fuel
    → template_loop fuel path start out ≡ some (out ++ template_of (drop start path))
unfolding template_loop
template_loop_lem zero path start out h = absurd (omega arith)
template_loop_lem (suc fuel) path start out h = elim (Bool-cases (ltb start (length path))) [
  | inl more ↦
      let r = round path start (ltb→lt _ _ more) in
      let end = part_end path start in
      let part = generalized (substr path start (end - start)) in
      let rest = template_of (drop (end + 1) path) in
      elim r.split [
        | inl (last, one, _) ↦ ground (arith, r.forward, template_last path start end one)
        | inr (inner, split) ↦ ground (
          arith,
          r.forward,
          r.read,
          template_inner path start end split,
          generalized_empty (substr path start (end - start)),
          template_loop_lem fuel path (end + 1) (out ++ codes "/"),
          template_loop_lem fuel path (end + 1) ((out ++ part) ++ codes "/"),
          append_assoc out (codes "/") rest,
          append_assoc (out ++ part) (codes "/") rest,
          append_assoc out part (b'/' ∷ rest),
        )
      ]
  | inr done ↦
      let past : drop start path ≡ [] = drop_all start path (ground arith) in
      let empty : template_of [] ≡ [] =
        unfold template_of split_slash join in generalized_empty [] refl in
      rw (past, empty, append-nil out) (ground arith)
]

-- The template of a path is the path with `{}` in place of each part in braces; its slashes stay.
pub build_parameterized_path_template-eq-template_of :
    (path : Bytes) → build_parameterized_path_template path ≡ template_of path
unfolding build_parameterized_path_template
build_parameterized_path_template-eq-template_of path =
    rw
      (
        template_loop_lem (suc (length path)) path 0 [] (omega arith),
        build_parameterized_path_template,
      )
      refl

template_of_idem : (path : Bytes) → template_of (template_of path) ≡ template_of path
template_of_idem path =
    let e = split_slash-template_of path in
    unfold template_of in
    (ap (λ ps. join (map generalized ps)) e ∙ ap join (map-generalized_idem (split_slash path)))

template_of_iff :
    (path other : Bytes)
    → (template_of path ≡ template_of other)
      ↔ (map generalized (split_slash path) ≡ map generalized (split_slash other))
template_of_iff path other = (
  λ e. sym (split_slash-template_of path) ∙ ap split_slash e ∙ split_slash-template_of other,
  λ e. unfold template_of in ap join e,
)

-- Two paths have one template exactly when their parts agree one by one, where all parts in braces
-- count as `{}`; a template is its own template.
pub build_parameterized_path_template_iff :
    (path other : Bytes)
    → ((build_parameterized_path_template path ≡ build_parameterized_path_template other)
        ↔ (map generalized (split_slash path) ≡ map generalized (split_slash other)))
      × (build_parameterized_path_template (build_parameterized_path_template path)
          ≡ build_parameterized_path_template path)
build_parameterized_path_template_iff path other =
    simp build_parameterized_path_template-eq-template_of
      (template_of_iff path other, template_of_idem path)
