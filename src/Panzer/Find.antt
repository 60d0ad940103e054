-- ===== src/Panzer/Find.antt =====
-- src/hdf5/panzerdb.cpp: the row from which readDataByIndex, readComplexDataByIndex and readIntDataByIndex
-- read a time step.
use imas_core.Prelude.{
  ℕ, suc, ◌/◌, Bool, not, ◌&&◌, ◌||◌, List, [], ◌∷◌, ◌++◌, Option, none, some, Text, is_empty,
  length, drop, ltb, ◌==◌, if◌then◌else◌,
}
use imas_core.Prelude.Int.{ℤ}
use imas_core.Panzer.Types.{Leaf, Index}
use imas_core.Panzer.Lookup.{is_time_in_leaf, rows_for_time, leaf_at}
use imas_core.Panzer.Nearest.{Target, find_target, int_to_string}

-- `static_cast<DataType>(leaf.flags >> 4)`.
abbrev pub type_of : Leaf → ℕ
type_of leaf = leaf.flags / 16

-- The first row that holds the time step.
unfoldable pub first_in_leaf : List Leaf → ℤ → List ℕ → Option Leaf
first_in_leaf leaves t [] = none
first_in_leaf leaves t (row ∷ rows) =
    let later = first_in_leaf leaves t rows in
    if is_time_in_leaf (leaf_at leaves row) t then some (leaf_at leaves row) else later

unfoldable pub leaf_for_time : Index → Text → ℤ → Option Leaf
unfolding first_in_leaf
leaf_for_time index path t = first_in_leaf index.cached_leaves t (rows_for_time index path t)

abbrev pub or_leaf : Option Leaf → Option Leaf → Option Leaf
or_leaf (some leaf) other = some leaf
or_leaf none other = other

-- The paths tried for a signal in a dynamic AoS: without the element's index, and with the time step for it.
unfoldable pub substituted_leaf : Index → Target → Bool → ℤ → Option Leaf
unfolding leaf_for_time
substituted_leaf index target has_remainder t =
    if is_empty target.dynamic_aos || not has_remainder
    then none
    else or_leaf (leaf_for_time index (target.dynamic_aos ++ target.remainder_suffix) t) (
        leaf_for_time index
          (target.dynamic_aos ++ (b'/' ∷ (int_to_string t ++ target.remainder_suffix))) t)

unfoldable pub find_leaf : Index → Text → ℤ → Option Leaf
unfolding substituted_leaf find_target leaf_for_time
find_leaf index path t =
    let target = find_target path index.cached_dynamic_aos_roots in
    or_leaf (leaf_for_time index path t)
      (substituted_leaf index target (ltb (suc (length target.dynamic_aos)) (length path)) t)

-- The search of readComplexDataByIndex, which keeps an element's index that nothing follows.
unfoldable pub find_complex_leaf : Index → Text → ℤ → Option Leaf
unfolding find_target leaf_for_time
find_complex_leaf index path t =
    let target = find_target path index.cached_dynamic_aos_roots in
    let remainder = drop (suc (length target.dynamic_aos)) path in
    let suffix =
      if is_empty target.remainder_suffix then b'/' ∷ remainder else target.remainder_suffix in
    or_leaf (leaf_for_time index path t) (
      if is_empty target.dynamic_aos
      then none
      else or_leaf (leaf_for_time index (target.dynamic_aos ++ suffix) t) (
          leaf_for_time index
            (target.dynamic_aos ++ (b'/' ∷ (int_to_string t ++ target.remainder_suffix))) t))

-- The rows of int32 of readIntDataByIndex, and the first of them that holds the step.
unfoldable pub int_leaves : List Leaf → List Leaf
int_leaves [] = []
int_leaves (leaf ∷ leaves) =
    let rest = int_leaves leaves in if type_of leaf == 1 then leaf ∷ rest else rest

unfoldable pub first_int_in_leaf : List Leaf → ℤ → List ℕ → Option Leaf
first_int_in_leaf leaves t [] = none
first_int_in_leaf leaves t (row ∷ rows) =
    let later = first_int_in_leaf leaves t rows in
    if type_of (leaf_at leaves row) == 1 && is_time_in_leaf (leaf_at leaves row) t
    then some (leaf_at leaves row)
    else later
