-- ===== src/Router/Paths/Names.antt =====
-- The loops over a path read its segments: the names and positions of the parameters, and the parts.
use ctask.Common.{
  ℕ, zero, suc, ◌+◌, ◌-◌, ◌<◌, ◌≤◌, ◌≡◌, refl, ap, Bytes, List, [], ◌∷◌, ◌++◌, length, drop,
  drop_all, get_elem?, get_elem?_past, length-drop, none, some, Bool-cases, inl, inr, ◌⊎◌, ◌==◌,
  arith, ltb, ltb→lt, if◌then◌else◌,
}
use mathlib.Core.List.{append-nil, append_assoc}
use ctask.Common.Assoc.{assign}
use ctask.Router.Paths.{
  part_end, substr, is_parameter, ParameterMetaData, name_data, names_loop, parse_parameter_names,
  parts_loop, path_parts, assign_parameters, parse_parameters,
}
use ctask.Router.Paths.Split.{nonempty, segments, Round, round}

nonempty-cons :
    (part : Bytes) (parts : List Bytes)
    → nonempty (part ∷ parts) ≡ (if length part == 0 then nonempty parts else part ∷ nonempty parts)
unfolding nonempty
nonempty-cons [] parts = refl
nonempty-cons (c ∷ s) parts = ground arith

-- The segments from a round on: the part that the round reads, unless it is empty, and the rest.
segments-Round :
    (path : Bytes) (start end : ℕ)
    → Round path start end
    → segments (drop start path) ≡ (
        if end == start
        then segments (drop (end + 1) path)
        else substr path start (end - start) ∷ segments (drop (end + 1) path))
unfolding segments
segments-Round path start end r = elim r.split [
  | inl (_, one, past) ↦
      rw (one, past, nonempty-cons, r.read) (unfold nonempty in ground (arith, r.forward))
  | inr (_, more) ↦ rw (more, nonempty-cons, r.read) (ground (arith, r.forward))
]

segments_past : (path : Bytes) (start : ℕ) → length path ≤ start → segments (drop start path) ≡ []
unfolding segments
segments_past path start h = rw (drop_all start path h) refl

parts_loop_lem :
    (fuel : ℕ) (path : Bytes) (start : ℕ) (parts : List Bytes)
    → length path - start < fuel
    → parts_loop fuel path start parts ≡ some (parts ++ segments (drop start path))
unfolding parts_loop
parts_loop_lem zero path start parts h = absurd (omega arith)
parts_loop_lem (suc fuel) path start parts h = elim (Bool-cases (ltb start (length path))) [
  | inl more ↦
      let r = round path start (ltb→lt _ _ more) in
      let end = part_end path start in
      let part = substr path start (end - start) in
      ground (
        arith,
        r.forward,
        segments-Round path start end r,
        parts_loop_lem fuel path (end + 1) parts,
        parts_loop_lem fuel path (end + 1) (parts ++ part ∷ []),
        append_assoc parts (part ∷ []) (segments (drop (end + 1) path)),
      )
  | inr done ↦ ground (arith, segments_past path start, append-nil parts)
]

-- The names of the parameters among the segments, with their places, counted from `position`.
unfoldable pub names_of : ℕ → List Bytes → List ParameterMetaData
names_of position [] = []
names_of position (part ∷ parts) =
    if is_parameter part
    then name_data part position ∷ names_of (position + 1) parts
    else names_of (position + 1) parts

names_loop_lem :
    (fuel : ℕ) (path : Bytes) (start position : ℕ) (result : List ParameterMetaData)
    → length path - start < fuel
    → names_loop fuel path start position result
      ≡ some (result ++ names_of position (segments (drop start path)))
unfolding names_loop names_of is_parameter
names_loop_lem zero path start position result h = absurd (omega arith)
names_loop_lem (suc fuel) path start position result h =
    elim (Bool-cases (ltb start (length path))) [
      | inl more ↦
          let r = round path start (ltb→lt _ _ more) in
          let end = part_end path start in
          let part = substr path start (end - start) in
          let rest = segments (drop (end + 1) path) in
          ground (
            arith,
            r.forward,
            segments-Round path start end r,
            names_loop_lem fuel path (end + 1) position result,
            names_loop_lem fuel path (end + 1) (position + 1) result,
            names_loop_lem fuel path (end + 1) (position + 1)
                (result ++ name_data part position ∷ []),
            append_assoc result (name_data part position ∷ []) (names_of (position + 1) rest),
          )
      | inr done ↦ ground (arith, segments_past path start, append-nil result)
    ]

-- The parts of a path are its segments.
pub path_parts-eq-segments : (path : Bytes) → path_parts path ≡ segments path
unfolding path_parts
path_parts-eq-segments path =
    rw (parts_loop_lem (suc (length path)) path 0 [] (omega arith), path_parts) refl

-- The names that are read from a registered path are those of its segments in braces, without the
-- braces, each with the place of its segment among all segments.
parse_parameter_names-eq-names_of :
    (path : Bytes) → parse_parameter_names path ≡ names_of 0 (segments path)
unfolding parse_parameter_names
parse_parameter_names-eq-names_of path =
    rw (names_loop_lem (suc (length path)) path 0 0 [] (omega arith), parse_parameter_names) refl

-- The parameters of a registered path, segment by segment, with the segments of a request.
unfoldable pub bound : List Bytes → List Bytes → List (Bytes × Bytes)
bound [] parts = []
bound (p ∷ ps) [] = []
bound (p ∷ ps) (part ∷ parts) =
    if is_parameter p then (substr p 1 (length p - 2), part) ∷ bound ps parts else bound ps parts

unfoldable pub assign_all : List (Bytes × Bytes) → List (Bytes × Bytes) → List (Bytes × Bytes)
assign_all [] m = m
assign_all ((k, v) ∷ bs) m = assign_all bs (assign k v m)

get_elem?-drop :
    (position : ℕ) (parts : List Bytes)
    → ((drop position parts ≡ []) × (get_elem? parts position ≡ none))
      ⊎ ((part : Bytes) × (get_elem? parts position ≡ some part)
          × (drop position parts ≡ part ∷ drop (position + 1) parts))
get_elem?-drop zero [] = inl (refl, refl)
get_elem?-drop zero (part ∷ parts) = inr (part, refl, refl)
get_elem?-drop (suc n) [] = inl (refl, refl)
get_elem?-drop (suc n) (p ∷ parts) = elim (get_elem?-drop n parts) [
  | inl e ↦ inl e
  | inr (part, e, d) ↦ inr (part, e, let same : suc n + 1 ≡ suc (n + 1) = omega arith in rw same d)
]

-- Beyond the parts of the request nothing is assigned.
assign_parameters_past :
    (ps parts : List Bytes) (position : ℕ) (m : List (Bytes × Bytes))
    → length parts ≤ position
    → assign_parameters (names_of position ps) parts m ≡ m
unfolding names_of assign_parameters
assign_parameters_past [] parts position m h = refl
assign_parameters_past (p ∷ ps) parts position m h =
    ground
      (arith, get_elem?_past parts position h, assign_parameters_past ps parts (position + 1) m)

assign_parameters_lem :
    (ps parts : List Bytes) (position : ℕ) (m : List (Bytes × Bytes))
    → assign_parameters (names_of position ps) parts m
      ≡ assign_all (bound ps (drop position parts)) m
unfolding names_of assign_parameters bound assign_all
assign_parameters_lem [] parts position m = refl
assign_parameters_lem (p ∷ ps) parts position m = elim (get_elem?-drop position parts) [
  | inl (e, missing) ↦
      let short = length-drop position parts in
      rw e (
        ground (
          arith,
          missing,
          assign_parameters_past ps parts (position + 1) m,
          ap (λ (x : List Bytes). length x) e,
          short,
        ))
  | inr (part, found, e) ↦ rw e (
      ground (
        arith,
        found,
        assign_parameters_lem ps parts (position + 1) m,
        assign_parameters_lem ps parts (position + 1) (assign (substr p 1 (length p - 2)) part m),
      ))
]

-- The parameters of a request are the segments that stand where the registered path has its
-- segments in braces, in order; a name that comes twice keeps its last segment.
pub parse_parameters-eq-assign_all :
    (registered path : Bytes)
    → parse_parameters path (parse_parameter_names registered)
      ≡ assign_all (bound (segments registered) (segments path)) []
unfolding parse_parameters
parse_parameters-eq-assign_all registered path =
    rw (parse_parameter_names-eq-names_of registered, path_parts-eq-segments path)
      (assign_parameters_lem (segments registered) (segments path) 0 [])
