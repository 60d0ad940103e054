-- ===== src/Panzer/Read.antt =====
-- src/hdf5/panzerdb.cpp: the reads of numeric data. readSliceDirect, readTensor, readLeavesUnion,
-- readDataByIndex, readIntDataByIndex, readComplexDataByIndex and getWholeDynamicSignal behind its cache.
-- `h5_read` is the selection of a hyperslab and its read from a dataset of one dimension, an HDF5 call;
-- `none` stands for a negative status.
pub mod Union
pub mod Slices
pub mod Back
use imas_core.Prelude.{
  ℕ, zero, suc, ◌+◌, ◌-◌, ◌*◌, ◌/◌, ◌^◌, min, max, Bool, true, false, not, ◌&&◌, ◌||◌, List, [],
  ◌∷◌, ◌++◌, Option, none, some, Text, lookup, is_empty, length, take, drop, map, leb, ltb, ◌==◌,
  if◌then◌else◌, Exception, Result, ok, throw, ◌>>=◌,
}
use imas_core.Prelude.Int.{ℤ, pos, negsuc}
use imas_core.Panzer.Types.{DataType, Leaf, Index}
use imas_core.Panzer.Lookup.{slice_volume, to_u64, is_time_in_leaf, rows_for_time, leaf_at}
use imas_core.Panzer.Find.{type_of, find_leaf, find_complex_leaf, int_leaves, first_int_in_leaf}

-- The datasets of the numeric columns.
pub record Columns : Type 0 where
  pub data_f64 : List ℕ
  pub data_i32 : List ℕ
  pub data_c128 : List ℕ

-- The dataset of a type, for the numeric ones.
abbrev pub column_of : Columns → ℕ → Option (List ℕ)
column_of columns zero = some columns.data_f64
column_of columns (suc zero) = some columns.data_i32
column_of columns (suc (suc zero)) = some columns.data_c128
column_of columns (suc (suc (suc code))) = none

-- The bytes of an element on disk.
abbrev pub stored_size : ℕ → ℕ
stored_size code = if code == 2 then 16 else if code == 0 then 8 else 4

-- `a - b` on uint64_t.
abbrev pub sub_u64 : ℕ → ℕ → ℕ
sub_u64 a b = if leb b a then a - b else 2 ^ 64 - (b - a)

-- What a read stores behind its pointers; the sizes are as many as `ndim_out` says.
pub record Read : Type 0 where
  pub shape : List ℕ
  pub values : List ℕ

unfoldable pub total_count : List Leaf → ℕ
total_count [] = 0
total_count (leaf ∷ leaves) = leaf.count + total_count leaves

unfoldable pub lowest : ℕ → List Leaf → ℕ
lowest lo [] = lo
lowest lo (leaf ∷ leaves) = lowest (min lo leaf.offset) leaves

unfoldable pub highest : ℕ → List Leaf → ℕ
highest hi [] = hi
highest hi (leaf ∷ leaves) = highest (max hi (leaf.offset + leaf.count)) leaves

-- The copies out of the block that was read.
unfoldable pub scatter : ℕ → List ℕ → List Leaf → List ℕ
scatter lo tmp [] = []
scatter lo tmp (leaf ∷ leaves) =
    take leaf.count (drop (leaf.offset - lo) tmp) ++ scatter lo tmp leaves

-- std::sort by time_index; rows of one time keep their order here.
unfoldable pub insert_by_time : Leaf → List Leaf → List Leaf
insert_by_time leaf [] = leaf ∷ []
insert_by_time leaf (l ∷ leaves) =
    let rest = insert_by_time leaf leaves in
    if ltb leaf.time_index l.time_index then leaf ∷ l ∷ leaves else l ∷ rest

unfoldable pub sort_by_time : List Leaf → List Leaf → List Leaf
unfolding insert_by_time
sort_by_time sorted [] = sorted
sort_by_time sorted (leaf ∷ leaves) = sort_by_time (insert_by_time leaf sorted) leaves

abbrev pub leaves_of : Index → Option (List ℕ) → List Leaf
leaves_of index none = []
leaves_of index (some rows) = map (leaf_at index.cached_leaves) rows

-- The shape that a single row is given back in: several slices add a dimension.
unfoldable pub single_shape : Leaf → List ℕ
single_shape leaf =
    let slice_vol = slice_volume leaf.shape in
    if ltb slice_vol leaf.count then leaf.shape ++ (leaf.count / slice_vol ∷ []) else leaf.shape

module _ (h5_read : List ℕ → ℕ → ℕ → Option (List ℕ)) (columns : Columns) where
  abbrev pub read_from : Option (List ℕ) → ℕ → ℕ → Option (List ℕ)
  read_from none start count = none
  read_from (some column) start count = h5_read column start count

  -- readSliceDirect.
  unfoldable pub read_slice_direct : Leaf → ℤ → Option (List ℕ)
  read_slice_direct leaf t =
      read_from (column_of columns (type_of leaf))
        (leaf.offset + sub_u64 (to_u64 t) leaf.time_index * slice_volume leaf.shape)
        (slice_volume leaf.shape)

  -- readTensor into a buffer of elements of `size` bytes.
  unfoldable pub read_tensor : ℕ → Leaf → Result (List ℕ)
  read_tensor size leaf =
      if leaf.flags == 1 || ltb 2 (type_of leaf)
      then throw Exception.runtime_error
      else if ltb size (stored_size (type_of leaf))
      then throw Exception.al_backend
      else got (read_from (column_of columns (type_of leaf)) leaf.offset leaf.count)
    where
      got : Option (List ℕ) → Result (List ℕ)
      got none = throw Exception.al_backend
      got (some values) = ok values

  -- readLeavesUnion, for the type whose dataset is read, whatever the rows hold.
  unfoldable pub read_leaves_union : ℕ → List Leaf → Option (List ℕ)
  unfolding lowest highest scatter
  read_leaves_union code [] = some []
  read_leaves_union code (leaf ∷ leaves) =
      let lo = lowest (2 ^ 64 - 1) (leaf ∷ leaves) in
      let hi = highest 0 (leaf ∷ leaves) in
      scattered lo (leaf ∷ leaves) (read_from (column_of columns code) lo (hi - lo))
    where
      scattered : ℕ → List Leaf → Option (List ℕ) → Option (List ℕ)
      scattered lo leaves none = none
      scattered lo leaves (some tmp) = some (scatter lo tmp leaves)

  -- The sequential reads that stand in for it.
  unfoldable pub read_each : ℕ → List Leaf → Result (List ℕ)
  unfolding read_tensor
  read_each size [] = ok []
  read_each size (leaf ∷ leaves) = do
    values ← read_tensor size leaf
    rest ← read_each size leaves
    ok (values ++ rest)

  unfoldable pub read_sorted : ℕ → ℕ → List Leaf → Result (List ℕ)
  unfolding read_leaves_union read_each
  read_sorted code size leaves = or_each (read_leaves_union code leaves)
    where
      or_each : Option (List ℕ) → Result (List ℕ)
      or_each none = read_each size leaves
      or_each (some values) = ok values

  -- The static branch of the reads by index: all rows of a path, in time order. `none` is -1.
  unfoldable pub read_rows : ℕ → ℕ → List Leaf → Result (Option Read)
  unfolding read_sorted sort_by_time total_count single_shape read_tensor
  read_rows code size matches =
      if is_empty matches
      then ok none
      else if total_count matches == 0
      then ok (some (record { shape = []; values = [] }))
      else by_number matches
    where
      sorted : List Leaf → Result (Option Read)
      sorted [] = ok none
      sorted (first ∷ leaves) = do
        values ← read_sorted code size (first ∷ leaves)
        ok (
            some (record {
              shape = first.shape ++ (total_count matches / slice_volume first.shape ∷ []);
              values = values;
            }))

      by_number : List Leaf → Result (Option Read)
      by_number (leaf ∷ []) = do
        values ← read_tensor size leaf
        ok (some (record { shape = single_shape leaf; values = values }))
      by_number _ = sorted (sort_by_time [] matches)

  -- One slice of the row that was found.
  abbrev pub read_slice : Option Leaf → ℤ → Option Read
  read_slice none t = none
  read_slice (some leaf) t = sliced (read_slice_direct leaf t)
    where
      sliced : Option (List ℕ) → Option Read
      sliced none = none
      sliced (some values) = some (record { shape = leaf.shape; values = values })

  abbrev pub is_all : ℤ → Bool
  is_all (pos t) = false
  is_all (negsuc t) = t == 0

  -- readDataByIndex; the time index -1 asks for all rows of the path.
  unfoldable pub read_data_by_index : Index → Text → ℤ → Result (Option Read)
  unfolding read_rows find_leaf read_slice_direct
  read_data_by_index index path t =
      if is_empty index.cached_leaves
      then ok none
      else if is_all t
      then read_rows 0 8 (leaves_of index (lookup path index.leaf_lookup))
      else ok (read_slice (find_leaf index path t) t)

  unfoldable pub read_complex_data_by_index : Index → Text → ℤ → Result (Option Read)
  unfolding read_rows find_complex_leaf read_slice_direct
  read_complex_data_by_index index path t =
      if is_empty index.cached_leaves
      then ok none
      else if is_all t
      then read_rows 2 16 (leaves_of index (lookup path index.leaf_lookup))
      else ok (read_slice (find_complex_leaf index path t) t)

  -- readIntDataByIndex: only rows of int32, and no search in the dynamic AoS.
  unfoldable pub read_int_data_by_index : Index → Text → ℤ → Result (Option Read)
  unfolding read_rows int_leaves first_int_in_leaf read_slice_direct
  read_int_data_by_index index path t =
      if is_empty index.cached_leaves
      then ok none
      else if is_all t
      then read_rows 1 4 (int_leaves (leaves_of index (lookup path index.leaf_lookup)))
      else ok (read_slice (first_int_in_leaf index.cached_leaves t (rows_for_time index path t)) t)

  -- getWholeDynamicSignal behind its cache.
  unfoldable pub get_whole_dynamic_signal : Index → Text → Result (List ℕ)
  unfolding sort_by_time read_sorted
  get_whole_dynamic_signal index dataset_name =
      whole (leaves_of index (lookup dataset_name index.leaf_lookup))
    where
      whole : List Leaf → Result (List ℕ)
      whole [] = ok []
      whole (leaf ∷ leaves) = read_sorted 0 8 (sort_by_time [] (leaf ∷ leaves))
