-- ===== src/Router/Paths.antt =====
-- The loops over a path in ctask_lib/network/http/router/custom/router.cpp. Positions are kept as
-- the source keeps them. A round moves the start position forward, so that one round more than the
-- path has bytes is enough fuel; `none` stands for fuel that ran out.
pub mod Split
pub mod Names
pub mod Template
use mathlib.Core.Option
use ctask.Common.{
  ℕ, zero, suc, ◌+◌, ◌-◌, Bytes, codes, Bool, ◌&&◌, List, [], ◌∷◌, ◌++◌, length, take, drop,
  get_elem?, Option, none, some, ltb, leb, ◌==◌, if◌then◌else◌,
}
use ctask.Common.Assoc.{assign, or_else}

-- s.find(c)
unfoldable pub index_of : ℕ → Bytes → Option ℕ
index_of c [] = none
index_of c (x ∷ s) = if x == c then some 0 else Option.map suc (index_of c s)

-- path.find('/', start), or the size of the path where there is none.
unfoldable pub part_end : Bytes → ℕ → ℕ
unfolding index_of
part_end path start = elim (index_of b'/' (drop start path)) [
  | none ↦ length path
  | some k ↦ start + k
]

abbrev pub substr : Bytes → ℕ → ℕ → Bytes
substr s position count = take count (drop position s)

-- The first and the last byte; the source asks for those of nonempty texts alone.
unfoldable pub front : Bytes → ℕ
front [] = 0
front (c ∷ s) = c

unfoldable pub back : Bytes → ℕ
back [] = 0
back (c ∷ []) = c
back (c ∷ d ∷ s) = back (d ∷ s)

unfoldable pub is_parameter : Bytes → Bool
unfolding front back
is_parameter part = (front part == b'{') && (back part == b'}')

pub record ParameterMetaData : Type 0 where
  pub name : Bytes
  pub position_in_path : ℕ

-- A name is the part without its braces.
abbrev pub name_data : Bytes → ℕ → ParameterMetaData
name_data part position = record {
  name = substr part 1 (length part - 2);
  position_in_path = position;
}

unfoldable pub names_loop :
    ℕ → Bytes → ℕ → ℕ → List ParameterMetaData → Option (List ParameterMetaData)
unfolding part_end is_parameter
names_loop zero path start position result = none
names_loop (suc fuel) path start position result =
    let end = part_end path start in
    let part = substr path start (end - start) in
    let skipped = names_loop fuel path (end + 1) position result in
    let named =
      names_loop fuel path (end + 1) (position + 1) (result ++ name_data part position ∷ []) in
    let plain = names_loop fuel path (end + 1) (position + 1) result in
    if ltb start (length path)
    then (if end == start then skipped else if is_parameter part then named else plain)
    else some result

unfoldable pub parse_parameter_names : Bytes → List ParameterMetaData
unfolding names_loop
parse_parameter_names path = elim (names_loop (suc (length path)) path 0 0 []) [
  | none ↦ []
  | some result ↦ result
]

unfoldable pub generalized : Bytes → Bytes
unfolding is_parameter
generalized part = if is_parameter part then codes "{}" else part

unfoldable pub template_loop : ℕ → Bytes → ℕ → Bytes → Option Bytes
unfolding part_end generalized
template_loop zero path start out = none
template_loop (suc fuel) path start out =
    let end = part_end path start in
    let part = substr path start (end - start) in
    let skipped = template_loop fuel path (end + 1) (out ++ codes "/") in
    let written = out ++ generalized part in
    let more = template_loop fuel path (end + 1) (written ++ codes "/") in
    if ltb start (length path)
    then (if end == start then skipped else if end == length path then some written else more)
    else some out

unfoldable pub build_parameterized_path_template : Bytes → Bytes
unfolding template_loop
build_parameterized_path_template path = elim (template_loop (suc (length path)) path 0 []) [
  | none ↦ []
  | some out ↦ out
]

unfoldable pub parts_loop : ℕ → Bytes → ℕ → List Bytes → Option (List Bytes)
unfolding part_end
parts_loop zero path start parts = none
parts_loop (suc fuel) path start parts =
    let end = part_end path start in
    let part = substr path start (end - start) in
    let skipped = parts_loop fuel path (end + 1) parts in
    let more = parts_loop fuel path (end + 1) (parts ++ part ∷ []) in
    if ltb start (length path) then (if end == start then skipped else more) else some parts

unfoldable pub path_parts : Bytes → List Bytes
unfolding parts_loop
path_parts path = elim (parts_loop (suc (length path)) path 0 []) [ none ↦ [] | some parts ↦ parts ]

-- The loop over the metadata; it ends at the first position that the path does not have.
unfoldable pub assign_parameters :
    List ParameterMetaData → List Bytes → List (Bytes × Bytes) → List (Bytes × Bytes)
assign_parameters [] parts result = result
assign_parameters (m ∷ metas) parts result = elim (get_elem? parts m.position_in_path) [
  | none ↦ result
  | some part ↦ assign_parameters metas parts (assign m.name part result)
]

unfoldable pub parse_parameters : Bytes → List ParameterMetaData → List (Bytes × Bytes)
unfolding path_parts assign_parameters assign
parse_parameters path metas = assign_parameters metas (path_parts path) []
