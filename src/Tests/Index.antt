-- ===== src/Tests/Index.antt =====
-- Decoding and queries on two rows of a signal and on a dynamic AoS.
use imas_core.Prelude.{
  ℕ, List, [], ◌∷◌, some, ◌≡◌, refl, subst, arith, codes, Text, lookup, assign, find, text_eq, All,
  starts_with,
}
use imas_core.Prelude.Int.{pos}
use imas_core.Panzer.Types.{Leaf, Index, empty_index, OpenMode, PanzerDb}
use imas_core.Panzer.Row.{unpack_row_v3}
use imas_core.Panzer.Lookup.{rows_for_time, time_steps, slice_volume_from, is_time_in_leaf}
use imas_core.Panzer.Lookup.Narrow.{sweep, EndsBelow, Adjacent, rows_for_time-sweep}
use imas_core.Panzer.Loader.{Extents, load_v3, make_leaf, add_leaf, rebuild_dynamic_root_time_index}
use imas_core.Panzer.Loader.Ordered.{IndexInv, load_v3-IndexInv, rows_for_time-loaded}
use imas_core.Panzer.Query.{get_aos_shape, restore_time_context}
use imas_core.Tests.{empty_db, ip_rows}

abbrev extents : Extents
extents = record { ext_f64 = 10; ext_i32 = 0; ext_c128 = 0; ext_str = 0 }

abbrev path_table : List Text
path_table = codes "ip" ∷ []

abbrev first_packed : List ℕ
first_packed = 0 ∷ 2 ∷ 18446744069414584320 ∷ 0 ∷ 0 ∷ 0 ∷ 0 ∷ []

abbrev second_packed : List ℕ
second_packed = 2 ∷ 1 ∷ 18446744069414584320 ∷ 4 ∷ 0 ∷ 0 ∷ 0 ∷ []

-- The index of the two rows.
abbrev pub ip_index : Index
ip_index = record empty_index {
  cached_leaves = ip_rows;
  leaf_lookup = (codes "ip", 0 ∷ 1 ∷ []) ∷ [];
  parent_lookup = ([], 0 ∷ 1 ∷ []) ∷ [];
}

ip_index_loaded : load_v3 extents path_table (first_packed ∷ second_packed ∷ []) ≡ ip_index
unfolding load_v3 unpack_row_v3 add_leaf make_leaf assign find lookup text_eq time_steps
    slice_volume_from
ip_index_loaded = refl

pub ip_index-IndexInv : IndexInv ip_index
ip_index-IndexInv =
    subst IndexInv ip_index_loaded
      (load_v3-IndexInv extents path_table (first_packed ∷ second_packed ∷ []))

pub ip_found : lookup (codes "ip") ip_index.leaf_lookup ≡ some (0 ∷ 1 ∷ [])
unfolding lookup text_eq
ip_found = refl

pub ip_ends : All (EndsBelow ip_rows) (0 ∷ 1 ∷ [])
unfolding time_steps slice_volume_from
ip_ends = (omega arith, (omega arith, tt))

ip-Adjacent : Adjacent ip_rows (0 ∷ 1 ∷ [])
unfolding time_steps slice_volume_from
ip-Adjacent = (omega arith, tt)

rows_for_time-sweep_example :
    sweep ip_rows (pos 4) (rows_for_time ip_index (codes "ip") (pos 4))
    ≡ sweep ip_rows (pos 4) (0 ∷ 1 ∷ [])
rows_for_time-sweep_example =
    rows_for_time-sweep ip_index (codes "ip") (0 ∷ 1 ∷ []) (pos 4) (omega arith) ip_found ip_ends
      (λ h. ip-Adjacent)

rows_for_time-loaded_example :
    sweep ip_rows (pos 4) (rows_for_time ip_index (codes "ip") (pos 4))
    ≡ sweep ip_rows (pos 4) (0 ∷ 1 ∷ [])
rows_for_time-loaded_example =
    rows_for_time-loaded ip_index (codes "ip") (0 ∷ 1 ∷ []) (pos 4) ip_index-IndexInv (omega arith)
      ip_found ip_ends

-- The step 2 lies in the gap; the step 4 is the second row's.
gap_test : sweep ip_rows (pos 2) (0 ∷ 1 ∷ []) ≡ []
unfolding sweep is_time_in_leaf time_steps slice_volume_from
gap_test = refl

step_test : rows_for_time ip_index (codes "ip") (pos 4) ≡ 1 ∷ []
unfolding rows_for_time lookup text_eq
step_test = refl

-- A dynamic AoS `a` with a signal that holds the steps 0 to 2 of its element 0.
abbrev a_node : Leaf
a_node = record {
  shape = 0 ∷ [];
  time_index = 0;
  path = codes "a";
  parent_path = [];
  offset = 0;
  count = 0;
  flags = 3;
  row_id = 0;
}

abbrev a_signal : Leaf
a_signal = record {
  shape = [];
  time_index = 0;
  path = codes "a/x";
  parent_path = codes "a";
  offset = 0;
  count = 3;
  flags = 0;
  row_id = 1;
}

abbrev pub a_index : Index
a_index = record empty_index {
  cached_leaves = a_node ∷ a_signal ∷ [];
  leaf_lookup = (codes "a", 0 ∷ []) ∷ (codes "a/x", 1 ∷ []) ∷ [];
  cached_dynamic_aos_roots = codes "a" ∷ [];
}

shape_test : get_aos_shape (rebuild_dynamic_root_time_index a_index) (codes "a") ≡ 3 ∷ []
unfolding get_aos_shape rebuild_dynamic_root_time_index lookup text_eq starts_with assign
    slice_volume_from
shape_test = refl

abbrev pub a_db : PanzerDb
a_db = record empty_db { mode = OpenMode.append; index = a_index }

counters_test :
    (restore_time_context a_db).aos_time_counters ≡ (codes "a", 3) ∷ (codes "a/x", 3) ∷ []
unfolding restore_time_context lookup assign starts_with text_eq slice_volume_from
counters_test = refl
