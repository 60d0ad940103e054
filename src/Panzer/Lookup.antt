-- ===== src/Panzer/Lookup.antt =====
-- src/hdf5/panzerdb.cpp: which rows of /index hold a time step. row_time_steps, isTimeInLeaf,
-- rowsForTime.
pub mod Search
pub mod Narrow
use imas_core.Prelude.{
  ℕ, zero, suc, ◌+◌, ◌-◌, ◌*◌, ◌/◌, ◌^◌, Bool, true, false, not, ◌&&◌, ◌||◌, List, [], ◌∷◌, Option,
  none, some, Text, lookup, text_eq, get_or, length, leb, ltb, ◌==◌, if◌then◌else◌, max,
}
use imas_core.Prelude.Bits.{low_bits}
use imas_core.Prelude.Int.{ℤ, pos, negsuc}
use imas_core.Panzer.Types.{Leaf, Index}

-- `for (auto s : shape) if (s > 0) volume *= s;`
unfoldable pub slice_volume_from : ℕ → List ℕ → ℕ
slice_volume_from volume [] = volume
slice_volume_from volume (s ∷ shape) =
    slice_volume_from (if ltb 0 s then volume * s else volume) shape

abbrev pub slice_volume : List ℕ → ℕ
slice_volume shape = slice_volume_from 1 shape

-- The steps that `count` elements of such slices make, at least one.
unfoldable pub time_steps : ℕ → ℕ → ℕ
time_steps volume count =
    let n_steps = if ltb 0 volume then count / volume else 1 in if n_steps == 0 then 1 else n_steps

abbrev pub row_time_steps : Leaf → ℕ
row_time_steps leaf = time_steps (slice_volume leaf.shape) leaf.count

-- `(flags & 0xF) == 0`.
abbrev pub is_data : Leaf → Bool
is_data leaf = low_bits leaf.flags 4 == 0

-- `static_cast<uint64_t>` of an int64_t.
abbrev pub to_u64 : ℤ → ℕ
to_u64 (pos n) = n
to_u64 (negsuc n) = 2 ^ 64 - 1 - n

unfoldable pub is_time_in_leaf : Leaf → ℤ → Bool
is_time_in_leaf leaf time_index =
    if not (is_data leaf)
    then false
    else leb leaf.time_index (to_u64 time_index)
      && ltb (to_u64 time_index) (leaf.time_index + row_time_steps leaf)

abbrev no_leaf : Leaf
no_leaf = record {
  shape = [];
  time_index = 0;
  path = [];
  parent_path = [];
  offset = 0;
  count = 0;
  flags = 0;
  row_id = 0;
}

abbrev pub leaf_at : List Leaf → ℕ → Leaf
leaf_at leaves r = get_or leaves r no_leaf

-- `(int64_t)start <= time_index`, for a start below 2^63.
abbrev pub starts_by : ℕ → ℤ → Bool
starts_by start (pos t) = leb start t
starts_by start (negsuc t) = false

-- The binary search, on fuel: `starts` is the start of the row at a position of `rows`.
unfoldable pub search_rows : (ℕ → ℕ) → ℤ → ℕ → ℕ → ℕ → ℕ
search_rows starts time_index zero lo hi = lo
search_rows starts time_index (suc fuel) lo hi =
    let mid = lo + (hi - lo) / 2 in
    let above = search_rows starts time_index fuel (mid + 1) hi in
    let below = search_rows starts time_index fuel lo mid in
    let round = if starts_by (starts mid) time_index then above else below in
    if ltb lo hi then round else lo

abbrev pub start_of : List Leaf → List ℕ → ℕ → ℕ
start_of leaves rows i = (leaf_at leaves (get_or rows i 0)).time_index

unfoldable pub contains : Text → List Text → Bool
contains path [] = false
contains path (p ∷ ps) = text_eq p path || contains path ps

narrow_rows : List Leaf → List ℕ → ℤ → List ℕ
unfolding search_rows
narrow_rows leaves rows time_index =
    let lo = search_rows (start_of leaves rows) time_index (suc (length rows)) 0 (length rows) in
    if lo == 0 then [] else get_or rows (lo - 1) 0 ∷ []

rows_at : Index → Text → Option (List ℕ) → ℤ → List ℕ
unfolding narrow_rows
rows_at index path none time_index = []
rows_at index path (some []) time_index = []
rows_at index path (some (row ∷ rows)) time_index =
    if contains path index.time_lookup_unsafe_paths
    then row ∷ rows
    else narrow_rows index.cached_leaves (row ∷ rows) time_index

unfoldable pub rows_for_time : Index → Text → ℤ → List ℕ
unfolding rows_at contains
rows_for_time index path time_index = rows_at index path (lookup path index.leaf_lookup) time_index
