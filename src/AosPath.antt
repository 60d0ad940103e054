-- ===== src/AosPath.antt =====
-- src/hdf5/aos_path_helpers.h: the names of the open AoS levels, and the paths of nodes in them.
pub mod Names
pub mod Fuel
use imas_core.Prelude.{
  ℕ, zero, suc, ◌+◌, ◌-◌, Bool, true, false, not, ◌&&◌, ◌||◌, List, [], ◌∷◌, ◌++◌, Option, none,
  some, Text, codes, text_eq, is_empty, starts_with, length, get_or, take, drop, map, min, ltb,
  ◌==◌, if◌then◌else◌,
}
use imas_core.Prelude.Int.{ℤ}

-- An ArraystructContext: `getPath`, `getIndex`, `getTimed`. A chain is a list of them, deepest first; it
-- ends where the parent is none.
pub record AosContext : Type 0 where
  pub path : Text
  pub index : ℤ
  pub timed : Bool

-- `std::replace` of '/' by '&'.
abbrev pub flatten : Text → Text
flatten path = map (λ c. if c == b'/' then b'&' else c) path

-- The path without that of the parent in front.
abbrev pub relative : Text → List AosContext → Text
relative full_path [] = full_path
relative full_path (parent ∷ above) =
    if ltb (length parent.path) (length full_path)
      && starts_with (parent.path ++ (b'/' ∷ [])) full_path
    then drop (suc (length parent.path)) full_path
    else full_path

-- localAosName.
unfoldable pub local_aos_name : AosContext → List AosContext → Text
local_aos_name context above = flatten (relative context.path above)

-- collectAosChain: each round inserts at the front of what the deeper ones gave.
unfoldable pub collect_aos_chain :
    List AosContext → List Text × List ℤ × List Bool → List Text × List ℤ × List Bool
unfolding local_aos_name
collect_aos_chain [] found = found
collect_aos_chain (context ∷ above) (names, indices, timed) =
    collect_aos_chain above
      (local_aos_name context above ∷ names, context.index ∷ indices, context.timed ∷ timed)

-- The test of one context path.
abbrev pub matched : Text → Text → Bool
matched ctx_path remaining =
    (length remaining == length ctx_path)
    || (ltb (length ctx_path) (length remaining)
        && (get_or remaining (length ctx_path) 0 == b'/')
        && starts_with ctx_path remaining)

-- The segments that a context path that matches gives, from the end to the start.
abbrev pub context_segments : Text → Text → List Text
context_segments ctx_path remaining =
    let suffix = flatten (drop (min (suc (length ctx_path)) (length remaining)) remaining) in
    if not (is_empty suffix) then suffix ∷ flatten ctx_path ∷ [] else flatten ctx_path ∷ []

-- The position of the last slash.
last_slash : Text → Option ℕ
last_slash [] = none
last_slash (c ∷ text) = elim (last_slash text) [
  | none ↦ if c == b'/' then some 0 else none
  | some i ↦ some (suc i)
]

abbrev push_part : List Text → Text → List Text
push_part segments part = if not (is_empty part) then segments ++ (part ∷ []) else segments

-- The loop over `rfind('/')`, on fuel for every byte.
split_levels : ℕ → List Text → Text → List Text
unfolding last_slash
split_levels zero segments remaining = push_part segments remaining
split_levels (suc fuel) segments remaining = elim (last_slash remaining) [
  | none ↦ push_part segments remaining
  | some pos ↦
      split_levels fuel (push_part segments (drop (suc pos) remaining)) (take pos remaining)
]

-- The segments of the first context path that matches, or those between the slashes.
unfoldable pub path_segments : List Text → Text → List Text
unfolding split_levels
path_segments [] remaining = split_levels (length remaining) [] remaining
path_segments (ctx_path ∷ ctx_paths) remaining =
    if not (is_empty ctx_path) && matched ctx_path remaining
    then context_segments ctx_path remaining
    else path_segments ctx_paths remaining

-- `for (i = size; i-- > 0;) result += "/" + segments[i]`.
unfoldable pub join_segments : List Text → Text
join_segments [] = []
join_segments (segment ∷ segments) = join_segments segments ++ (b'/' ∷ segment)

abbrev drop_first : Text → Text
drop_first [] = []
drop_first (c ∷ text) = text

-- The path with its slash in front, or without it.
sanitized : List Text → Text → Text
unfolding path_segments join_segments
sanitized ctx_paths [] = []
sanitized ctx_paths (c ∷ path) =
    if c == b'/'
    then join_segments (path_segments ctx_paths path)
    else drop_first (join_segments (path_segments ctx_paths (c ∷ path)))

-- sanitizeAosPath; `ctx_paths` is the open chain, deepest first.
unfoldable pub sanitize_aos_path : List Text → Text → Text
unfolding sanitized
sanitize_aos_path ctx_paths path =
    if text_eq path (codes "/time")
    then codes "time"
    else if text_eq path (codes "time")
    then path
    else sanitized ctx_paths path
