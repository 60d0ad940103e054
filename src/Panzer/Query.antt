-- ===== src/Panzer/Query.antt =====
-- src/hdf5/panzerdb.cpp: what the decoded index answers. getAOSShape, getDynamicAOSSize, isDynamicAOS,
-- isDynamicSignal, getLeafType, restoreTimeContext and the lookup half of readMetadata.
pub mod Counters
use imas_core.Prelude.{
  ℕ, suc, ◌+◌, ◌-◌, ◌*◌, ◌/◌, ◌^◌, Bool, true, false, not, ◌&&◌, ◌||◌, List, [], ◌∷◌, Option, none,
  some, Text, Dict, Result, ok, throw, Exception, lookup, assign, text_eq, find, take, drop, get_or,
  length, starts_with, leb, ltb, max, ◌==◌, if◌then◌else◌, get_or_else,
}
use imas_core.Prelude.Bits.{low_bits, shr}
use imas_core.Panzer.Types.{Leaf, Index, OpenMode, DataType, PanzerDb}
use imas_core.Panzer.Lookup.{leaf_at, slice_volume, is_data}
use imas_core.Panzer.Path.{is_digit}

-- The first row of a path.
abbrev pub first_row : Index → Text → Option Leaf
first_row index path = elim (lookup path index.leaf_lookup) [
  | none ↦ none
  | some rows ↦ elim rows [ [] ↦ none | row ∷ more ↦ some (leaf_at index.cached_leaves row) ]
]

-- The number that a run of digits spells, on top of `n`: `std::stoll` stops at the first other character.
unfoldable pub parse_digits : ℕ → Text → ℕ
parse_digits n [] = n
parse_digits n (c ∷ text) =
    let rest = parse_digits (n * 10 + (c - b'0')) text in if is_digit c then rest else n

-- The index that a child's path carries behind the level's name; out of `long long` it is ignored.
unfoldable pub child_index : Text → Text → Option ℕ
unfolding parse_digits
child_index level_name path = digits (drop (suc (length level_name)) path)
  where
    digits : Text → Option ℕ
    digits [] = none
    digits (c ∷ text) =
        if is_digit c && ltb (parse_digits 0 (c ∷ text)) (2 ^ 63)
        then some (parse_digits 0 (c ∷ text))
        else none

-- `max_index + 1`, where 0 stands for `max_index == -1`.
unfoldable pub instances : List Leaf → Text → ℕ → List ℕ → ℕ
unfolding child_index
instances leaves level_name found [] = found
instances leaves level_name found (row ∷ rows) =
    instances leaves level_name
      (elim (child_index level_name (leaf_at leaves row).path) [
        | none ↦ found
        | some i ↦ max found (suc i)
      ])
      rows

-- The size of a static AoS: its instances, or else the size that it was declared with.
abbrev static_size : Index → Text → Leaf → ℕ
static_size index level_name root =
    let found =
      instances index.cached_leaves level_name 0
        (get_or_else (lookup level_name index.parent_lookup) []) in
    if ltb 0 found then found else get_or root.shape 0 0

shape_at : Index → Text → Option Leaf → List ℕ
unfolding instances
shape_at index level_name none = []
shape_at index level_name (some root) =
    (if root.flags == 3
      then get_or_else (lookup level_name index.max_time_at_dynamic_root) 0
      else static_size index level_name root)
    ∷ []

-- getAOSShape.
unfoldable pub get_aos_shape : Index → Text → List ℕ
unfolding shape_at
get_aos_shape index level_name = shape_at index level_name (first_row index level_name)

-- getDynamicAOSSize.
unfoldable pub get_dynamic_aos_size : PanzerDb → Text → ℕ
get_dynamic_aos_size p aos_path = get_or_else (lookup aos_path p.aos_time_counters) 0

-- isDynamicAOS.
unfoldable pub is_dynamic_aos : Index → Text → Bool
is_dynamic_aos index aos_path = elim (first_row index aos_path) [
  | none ↦ false
  | some leaf ↦ leaf.flags == 3
]

-- The path is the root's or goes through it.
abbrev pub is_under : Text → Text → Bool
is_under signal_path root =
    starts_with root signal_path
    && (length signal_path == length root || get_or signal_path (length root) 0 == b'/')

unfoldable pub any_root : Text → List Text → Bool
any_root signal_path [] = false
any_root signal_path (root ∷ roots) = is_under signal_path root || any_root signal_path roots

-- A signal with rows of its own: several of them, or one that holds more than one slice.
abbrev pub owns_time_axis : List Leaf → List ℕ → Bool
owns_time_axis leaves [] = false
owns_time_axis leaves (row ∷ more ∷ rows) = true
owns_time_axis leaves (row ∷ []) =
    let leaf = leaf_at leaves row in is_data leaf && ltb (slice_volume leaf.shape) leaf.count

-- isDynamicSignal. The volume of a slice is never 0 (slice_volume_from skips the factors 0), so the
-- source's test for it is left out.
unfoldable pub is_dynamic_signal : Index → Text → Bool
unfolding any_root
is_dynamic_signal index signal_path =
    any_root signal_path index.cached_dynamic_aos_roots
    || owns_time_axis index.cached_leaves (get_or_else (lookup signal_path index.leaf_lookup) [])

-- getLeafType: the type of the first row. A chunked scalar is a string to the reader.
unfoldable pub get_leaf_type : Index → Text → Result DataType
get_leaf_type index path = elim (first_row index path) [
  | none ↦ throw Exception.runtime_error
  | some leaf ↦ of_code (shr leaf.flags 4)
]
  where
    of_code : ℕ → Result DataType
    of_code code =
        if code == 0
        then ok DataType.float64
        else if code == 1
        then ok DataType.int32
        else if code == 2
        then ok DataType.complex128
        else if code == 3 || code == 5
        then ok DataType.string
        else if code == 4
        then ok DataType.list_of_strings
        else throw Exception.runtime_error

-- Step 1 of restoreTimeContext: each dynamic AoS starts at 0.
zero_roots : List Leaf → Dict ℕ → Dict ℕ
zero_roots [] counters = counters
zero_roots (leaf ∷ leaves) counters =
    zero_roots leaves (if leaf.flags == 3 then assign leaf.path 0 counters else counters)

-- The longest of the roots that the path goes through; the first of equally long ones.
pub longest_root : Text → Option Text → List Text → Option Text
longest_root path best [] = best
longest_root path best (root ∷ roots) =
    longest_root path
      (if ltb (length root) (length path)
          && (get_or path (length root) 0 == b'/')
          && starts_with root path
          && ltb (elim best [ none ↦ 0 | some b ↦ suc (length b) ]) (suc (length root))
        then some root
        else best)
      roots

-- The step behind the last one that a leaf holds; an empty row holds none.
unfoldable pub next_step : Leaf → ℕ
next_step leaf =
    let n_steps = leaf.count / slice_volume leaf.shape in
    leaf.time_index + (if (n_steps == 0) && ltb 0 leaf.count then 1 else n_steps)

-- `if (next > counters[key]) counters[key] = next`.
unfoldable pub raise : Text → ℕ → Dict ℕ → Dict ℕ
raise key next counters = assign key (max (get_or_else (lookup key counters) 0) next) counters

-- The update of the parent AoS, if any.
unfoldable pub raise_root : Option Text → ℕ → Dict ℕ → Dict ℕ
unfolding raise
raise_root none next counters = counters
raise_root (some root) next counters = raise root next counters

unfoldable pub raise_leaf : List Text → Leaf → Dict ℕ → Dict ℕ
unfolding longest_root next_step raise raise_root
raise_leaf roots leaf counters =
    raise_root (longest_root leaf.path none roots) (next_step leaf)
      (raise leaf.path (next_step leaf) counters)

-- Step 2: the data leaves.
unfoldable pub raise_leaves : List Text → List Leaf → Dict ℕ → Dict ℕ
unfolding raise_leaf
raise_leaves roots [] counters = counters
raise_leaves roots (leaf ∷ leaves) counters =
    raise_leaves roots leaves
      (if (leaf.flags == 2) || (leaf.flags == 3) then counters else raise_leaf roots leaf counters)

unfoldable pub restore_time_context : PanzerDb → PanzerDb
unfolding zero_roots raise_leaves
restore_time_context p =
    let counters =
      raise_leaves p.index.cached_dynamic_aos_roots p.index.cached_leaves
        (zero_roots p.index.cached_leaves p.aos_time_counters) in
    restored p.mode counters
  where
    restored : OpenMode → Dict ℕ → PanzerDb
    restored OpenMode.write counters = p
    restored OpenMode.read counters = record p { aos_time_counters = counters }
    restored OpenMode.append counters = record p {
      aos_time_counters = counters;
      file_time_base = counters;
    }
