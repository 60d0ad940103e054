-- ===== src/Panzer/Path.antt =====
-- src/hdf5/panzerdb.cpp: buildPathFromStack, parsePath, stripIndices.
pub mod Build
pub mod Segments
use mathlib.Core.List.{reverse}
use imas_core.Prelude.{
  ℕ, suc, Bool, true, false, not, ◌&&◌, List, [], ◌∷◌, ◌++◌, Option, none, some, Text, codes, find,
  starts_with, to_string, length, take, drop, leb, ◌==◌, is_empty, if◌then◌else◌,
}
use imas_core.Panzer.Types.{ArrayLevel}

-- The loop of buildPathFromStack behind its first round: `prev` is `stack_vector[i-1]`.
build_loop : Text → ArrayLevel → List ArrayLevel → Text
build_loop result prev [] = result
build_loop result prev (level ∷ levels) =
    let indexed = result ++ (b'/' ∷ to_string prev.current_index) in
    let slashed = if not (is_empty indexed) then indexed ++ (b'/' ∷ []) else indexed in
    build_loop (slashed ++ level.name) level levels

-- `root_first` is the vector in its order.
build_vector : List ArrayLevel → Text
build_vector [] = []
build_vector (level ∷ levels) = build_loop level.name level levels

unfoldable pub build_path_from_stack : List ArrayLevel → Text
unfolding build_vector build_loop
build_path_from_stack stack = build_vector (reverse stack)

pub record PathComponents : Type 0 where
  pub prefix : Text
  pub index_str : Text
  pub suffix : Text
  pub has_index : Bool

abbrev pub no_components : PathComponents
no_components = record { prefix = []; index_str = []; suffix = []; has_index = false }

split_remainder : Text → Text → Option ℕ → PathComponents
split_remainder aos_path remainder none = record {
  prefix = aos_path;
  index_str = remainder;
  suffix = [];
  has_index = true;
}
split_remainder aos_path remainder (some first_slash) = record {
  prefix = aos_path;
  index_str = take first_slash remainder;
  suffix = drop first_slash remainder;
  has_index = true;
}

unfoldable pub parse_path : Text → Text → PathComponents
unfolding split_remainder
parse_path path aos_path =
    let expected_prefix = aos_path ++ (b'/' ∷ []) in
    let remainder = drop (length expected_prefix) path in
    if leb (length path) (length aos_path)
    then no_components
    else if not (starts_with expected_prefix path)
    then no_components
    else split_remainder aos_path remainder (find b'/' remainder)

unfoldable pub is_digit : ℕ → Bool
is_digit c = leb b'0' c && leb c b'9'

-- All of the segment are digits, and there is one: `is_index`.
unfoldable pub all_digits : Text → Bool
unfolding is_digit
all_digits [] = true
all_digits (c ∷ cs) = is_digit c && all_digits cs

-- What one segment `[i, end)` adds to `result`.
unfoldable pub add_segment : Text → Text → Text
unfolding all_digits
add_segment result segment =
    let is_index = not (is_empty segment) && all_digits segment in
    if not (is_empty segment) && not is_index
    then (if not (is_empty result) then result ++ (b'/' ∷ []) else result) ++ segment
    else result

-- The outer loop: `segment` holds the bytes of the segment that was begun.
unfoldable pub strip_loop : Text → Text → Text → Text
unfolding add_segment
strip_loop result segment [] = add_segment result segment
strip_loop result segment (c ∷ path) =
    strip_loop (if c == b'/' then add_segment result segment else result)
      (if c == b'/' then [] else segment ++ (c ∷ [])) path

unfoldable pub strip_indices : Text → Text
unfolding strip_loop
strip_indices path = strip_loop [] [] path
