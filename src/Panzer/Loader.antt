-- ===== src/Panzer/Loader.antt =====
-- src/hdf5/panzerdb.cpp: getLeaves behind the HDF5 reads. The rows read are decoded, checked against
-- the extents, and entered into the lookup tables. What HDF5 returns is an argument: the rows, the
-- path texts and the extents of the raw datasets.
pub mod Ordered
pub mod Resume
pub mod Appended
pub mod Ends
use imas_core.Prelude.{
  ℕ, zero, suc, ◌+◌, ◌/◌, ◌^◌, Bool, true, false, not, ◌&&◌, ◌||◌, List, [], ◌∷◌, ◌++◌, Option,
  none, some, Text, Dict, lookup, assign, find, take, drop, starts_with, length, get_elem?,
  get_or_else, leb, ltb, max, ◌==◌, if◌then◌else◌, replicate,
}
use imas_core.Prelude.Bits.{low_bits, shr}
use imas_core.Panzer.Types.{Leaf, Index, empty_index, panzer_no_parent_row, panzer_no_parent_row_v3}
use imas_core.Panzer.Row.{RowFields, unpack_row_v3, unpack_row_v2}
use imas_core.Panzer.Lookup.{row_time_steps, is_data, leaf_at, slice_volume, contains}

-- The extents of the raw datasets.
pub record Extents : Type 0 where
  pub ext_f64 : ℕ
  pub ext_i32 : ℕ
  pub ext_c128 : ℕ
  pub ext_str : ℕ

-- The extent that a data row of this type code is held to.
extent_of : Extents → ℕ → ℕ
extent_of e dtype =
    if dtype == 0
    then e.ext_f64
    else if dtype == 1
    then e.ext_i32
    else if dtype == 2
    then e.ext_c128
    else if dtype == 3
    then e.ext_str
    else if dtype == 5
    then e.ext_str
    else 0

-- The guardrail: a data row whose payload lies past the extent.
unfoldable pub is_dangling : Extents → RowFields → Bool
unfolding extent_of
is_dangling e row =
    low_bits row.flags 4 == 0 && ltb (extent_of e (shr row.flags 4)) (row.offset + row.count)

has_slash : Text → Bool
has_slash [] = false
has_slash (c ∷ path) = c == b'/' || has_slash path

-- `path.substr(0, path.rfind('/'))`, or nothing where there is no slash.
before_last_slash : Text → Text
before_last_slash [] = []
before_last_slash (c ∷ path) = if has_slash path then c ∷ before_last_slash path else []

strip_segments : ℕ → Text → Text
strip_segments zero path = path
strip_segments (suc n) path = strip_segments n (before_last_slash path)

-- The path without its last segment, or without its last two for an AoS meta-node.
unfoldable pub parent_path_of : Bool → ℕ → Text → Text
unfolding strip_segments before_last_slash has_slash
parent_path_of is_root leaf_kind path =
    if is_root then [] else strip_segments (if leaf_kind == 2 || leaf_kind == 3 then 2 else 1) path

unfoldable pub make_leaf : Bool → ℕ → Text → RowFields → Leaf
unfolding parent_path_of
make_leaf is_root row_number path row = record {
  shape = row.shape;
  time_index = row.time_index;
  path = path;
  parent_path = parent_path_of is_root (low_bits row.flags 4) path;
  offset = row.offset;
  count = row.count;
  flags = row.flags;
  row_id = row_number;
}

-- `table[key].push_back(n)`.
abbrev pub push_number : Text → ℕ → Dict (List ℕ) → Dict (List ℕ)
push_number key n table = assign key (get_or_else (lookup key table) [] ++ (n ∷ [])) table

-- note_row_order, for the row that was last of the path.
breaks_order : Leaf → Leaf → Bool
breaks_order prev cur =
    not (is_data prev)
    || not (is_data cur)
    || ltb cur.time_index (prev.time_index + row_time_steps prev)

last_number : List ℕ → ℕ → ℕ
last_number [] d = d
last_number (r ∷ rows) d = last_number rows r

-- The unsafe paths once `leaf` follows the rows of its path.
note_row_order : List Leaf → Leaf → List ℕ → List Text → List Text
unfolding breaks_order last_number
note_row_order leaves leaf [] unsafe_paths = unsafe_paths
note_row_order leaves leaf (r ∷ rows) unsafe_paths =
    if breaks_order (leaf_at leaves (last_number rows r)) leaf
    then leaf.path ∷ unsafe_paths
    else unsafe_paths

-- A metadata row is entered under the text before its '@'.
note_metadata : Leaf → ℕ → Option ℕ → Dict (List ℕ) → Dict (List ℕ)
note_metadata leaf n none table = table
note_metadata leaf n (some at_pos) table =
    if leaf.flags == 1 then table else push_number (take at_pos leaf.path) n table

-- One leaf enters the cache and the tables.
unfoldable pub add_leaf : Leaf → Index → Index
unfolding note_row_order note_metadata
add_leaf leaf index =
    let n = length index.cached_leaves in
    record index {
      cached_leaves = index.cached_leaves ++ (leaf ∷ []);
      leaf_lookup = push_number leaf.path n index.leaf_lookup;
      parent_lookup = push_number leaf.parent_path n index.parent_lookup;
      metadata_by_schema = note_metadata leaf n (find b'@' leaf.path) index.metadata_by_schema;
      cached_dynamic_aos_roots =
          (if leaf.flags == 3
            then index.cached_dynamic_aos_roots ++ (leaf.path ∷ [])
            else index.cached_dynamic_aos_roots);
      time_lookup_unsafe_paths =
          note_row_order index.cached_leaves leaf
            (get_or_else (lookup leaf.path index.leaf_lookup) []) index.time_lookup_unsafe_paths;
    }

-- A row whose id has no text is skipped.
add_row_at : Bool → ℕ → RowFields → Option Text → Index → Index
add_row_at is_root row_number row none index = index
add_row_at is_root row_number row (some path) index =
    add_leaf (make_leaf is_root row_number path row) index

-- One round of the loop over the rows.
unfoldable pub add_row : Extents → List Text → Bool → ℕ → RowFields → Index → Index
unfolding add_row_at is_dangling
add_row e path_table is_root row_number row index =
    if is_dangling e row
    then index
    else add_row_at is_root row_number row (get_elem? path_table row.path_id) index

-- The loop of the v3 branch, from row number `i` on.
unfoldable pub add_rows_v3 : Extents → List Text → ℕ → List (List ℕ) → Index → Index
unfolding add_row
add_rows_v3 e path_table i [] index = index
add_rows_v3 e path_table i (row ∷ rows) index =
    let fields = unpack_row_v3 row in
    add_rows_v3 e path_table (i + 1) rows
      (add_row e path_table (fields.parent_id == panzer_no_parent_row_v3) i fields index)

-- The loop of the v2 branch; `path_table` is aligned with the rows of the file.
unfoldable pub add_rows_v2 : Extents → List Text → ℕ → ℕ → List (List ℕ) → Index → Index
unfolding add_row
add_rows_v2 e path_table ncols i [] index = index
add_rows_v2 e path_table ncols i (row ∷ rows) index =
    let fields = unpack_row_v2 ncols i row in
    add_rows_v2 e path_table ncols (i + 1) rows
      (add_row e path_table (fields.parent_id == panzer_no_parent_row) i fields index)

-- The steps that rebuildDynamicRootTimeIndex counts in a leaf.
unfoldable pub root_steps : Leaf → ℕ
root_steps leaf =
    let volume = slice_volume leaf.shape in
    if shr leaf.flags 4 == 5
    then 1
    else if ltb 0 volume && ltb volume leaf.count
    then leaf.count / volume
    else 1

-- The end of the time range of a root's data leaves; `none` is `!found`.
root_end : Text → List Leaf → Option ℕ → Option ℕ
unfolding root_steps
root_end prefix [] max_end = max_end
root_end prefix (leaf ∷ leaves) max_end = root_end prefix leaves (
    if is_data leaf && starts_with prefix leaf.path
    then some (max (get_or_else max_end 0) (leaf.time_index + root_steps leaf))
    else max_end)

root_entry : Text → Option ℕ → Dict ℕ → Dict ℕ
root_entry root none table = table
root_entry root (some max_end) table = assign root max_end table

root_table : List Leaf → List Text → Dict ℕ → Dict ℕ
unfolding root_end root_entry
root_table leaves [] table = table
root_table leaves (root ∷ roots) table =
    root_table leaves roots (root_entry root (root_end (root ++ (b'/' ∷ [])) leaves none) table)

unfoldable pub rebuild_dynamic_root_time_index : Index → Index
unfolding root_table
rebuild_dynamic_root_time_index index = record index {
  max_time_at_dynamic_root = root_table index.cached_leaves index.cached_dynamic_aos_roots [];
}

-- getLeaves of a v3 file read from its first row.
unfoldable pub load_v3 : Extents → List Text → List (List ℕ) → Index
unfolding add_rows_v3 rebuild_dynamic_root_time_index
load_v3 e path_table rows =
    rebuild_dynamic_root_time_index (add_rows_v3 e path_table 0 rows empty_index)

-- getLeaves of a v2 or legacy file read from its first row.
unfoldable pub load_v2 : Extents → List Text → ℕ → List (List ℕ) → Index
unfolding add_rows_v2 rebuild_dynamic_root_time_index
load_v2 e path_table ncols rows =
    rebuild_dynamic_root_time_index (add_rows_v2 e path_table ncols 0 rows empty_index)

-- getLeaves after a handoff: the rows from `start_row` on are added to what is decoded.
unfoldable pub resume_v3 : Extents → List Text → ℕ → List (List ℕ) → Index → Index
unfolding add_rows_v3 rebuild_dynamic_root_time_index
resume_v3 e path_table start_row rows index =
    rebuild_dynamic_root_time_index (add_rows_v3 e path_table start_row rows index)
