-- ===== src/Panzer/Write.antt =====
-- src/hdf5/panzerdb.cpp: the numeric writes. writeDataImpl and writeDataSlicesImpl, the time counters.
pub mod Layout
pub mod Times
pub mod Behind
use imas_core.Prelude.{
  ℕ, ◌+◌, ◌-◌, ◌*◌, Bool, true, false, not, ◌&&◌, List, [], ◌∷◌, ◌++◌, Option, none, some, Text,
  Dict, Exception, Result, ok, throw, lookup, assign, to_string, is_empty, length, max, leb, ltb,
  ◌==◌, if◌then◌else◌, get_or_else,
}
use imas_core.Panzer.Types.{
  DataType, data_type_code, ArrayLevel, PanzerDb, M, ◌>>=◌, ◌>>◌, return, raise, raise_if, get, put,
  continue,
}
use imas_core.Panzer.Append.{append_index_row}
use imas_core.Panzer.Lookup.{slice_volume}
use imas_core.Panzer.Stack.{parent_row, counter, start_counter, get_dynamic_aos_path, add_slash}

-- The size on disk and the buffer that go with a numeric type; the other types have no numeric one.
unfoldable pub column_end : PanzerDb → DataType → ℕ
column_end p DataType.float64 = p.disk_size_f64 + length p.data_buffer_f64
column_end p DataType.int32 = p.disk_size_i32 + length p.data_buffer_i32
column_end p DataType.complex128 = p.disk_size_c128 + length p.data_buffer_c128
column_end p _ = 0

unfoldable pub push_values : DataType → List ℕ → PanzerDb → PanzerDb
push_values DataType.float64 values p = record p { data_buffer_f64 = p.data_buffer_f64 ++ values }
push_values DataType.int32 values p = record p { data_buffer_i32 = p.data_buffer_i32 ++ values }
push_values DataType.complex128 values p = record p {
  data_buffer_c128 = p.data_buffer_c128 ++ values;
}
push_values _ values p = p

abbrev mark_write : List ArrayLevel → List ArrayLevel
mark_write [] = []
mark_write (back ∷ levels) =
    record back { had_write = true; actual_count = back.actual_count + 1 } ∷ levels

-- The path of the element that the stack points at.
abbrev pub element_path : Text → List ArrayLevel → Text
element_path path_prefix [] = path_prefix
element_path path_prefix (back ∷ levels) = path_prefix ++ (b'/' ∷ to_string back.current_index)

-- `static_cast<uint64_t>(dtype) << 4`.
abbrev pub type_flags : DataType → ℕ
type_flags dtype = data_type_code dtype * 16

write_static : Text → List ℕ → List ℕ → DataType → PanzerDb → M ℕ
unfolding column_end push_values
write_static name shape values dtype p = do
  put (
      push_values dtype values
        (record p { last_level_had_write = true; array_stack = mark_write p.array_stack }))
  append_index_row (add_slash (element_path p.path_prefix p.array_stack) ++ name) shape 0
      (column_end p dtype) (length values) (type_flags dtype) (parent_row p.array_stack)

-- writeDataImpl; `count` is the length of the values. The row id that is returned is not used.
unfoldable pub write_data_impl : Text → List ℕ → List ℕ → Text → DataType → M ℕ
unfolding write_static
write_data_impl name shape values timebase dtype p =
    (raise_if (not (is_empty timebase)) Exception.al_backend
        >> write_static name shape values dtype p)
      p

-- hasFileData: the counter that the file had when it was opened.
unfoldable pub has_file_data : PanzerDb → Text → Bool
has_file_data p path = elim (lookup path p.file_time_base) [ none ↦ false | some n ↦ ltb 0 n ]

-- The nearest dynamic level's element and time base.
unfoldable pub dynamic_iteration : List ArrayLevel → ℕ × Text
dynamic_iteration [] = (0, [])
dynamic_iteration (level ∷ levels) =
    if level.is_dynamic then (level.current_index, level.timebase) else dynamic_iteration levels

-- The path of a signal: the element's index counts only under a static level.
unfoldable pub signal_path : PanzerDb → Text → Text
signal_path p name = add_slash (parent p.array_stack) ++ name
  where
    parent : List ArrayLevel → Text
    parent [] = p.path_prefix
    parent (back ∷ levels) =
        if not back.is_dynamic
        then p.path_prefix ++ (b'/' ∷ to_string back.current_index)
        else p.path_prefix

-- The catch-up with the time base, for a signal that continues one of the file.
catch_up : Bool → ℕ → Option ℕ → ℕ → ℕ
catch_up continuing n_slices none base_time = base_time
catch_up continuing n_slices (some time_next) base_time =
    if continuing && leb n_slices time_next then max base_time (time_next - n_slices) else base_time

-- CASE 1 of writeDataSlicesImpl: the first step of the write.
unfoldable pub base_time_dynamic : PanzerDb → Text → Text → ℕ → ℕ
unfolding catch_up dynamic_iteration has_file_data
base_time_dynamic p dynamic_aos_path full_path n_slices =
    let (iteration, aos_timebase) = dynamic_iteration p.array_stack in
    catch_up (has_file_data p full_path && not (is_empty aos_timebase)) n_slices
      (lookup (dynamic_aos_path ++ (b'/' ∷ aos_timebase)) p.aos_time_counters)
      (max iteration (counter p full_path))

-- CASE 2.
unfoldable pub base_time_standalone : PanzerDb → Text → Text → ℕ → ℕ
unfolding catch_up has_file_data
base_time_standalone p timebase full_path n_slices =
    catch_up (has_file_data p full_path && not (is_empty timebase)) n_slices
      (lookup timebase p.aos_time_counters) (counter p full_path)

-- `if (next > counters[path]) counters[path] = next`, where `path` is not empty.
abbrev pub raise_counter : Text → ℕ → PanzerDb → PanzerDb
raise_counter path next p = if is_empty path then p else record p {
  aos_time_counters = assign path (max (counter p path) next) p.aos_time_counters;
}

abbrev set_counter : Text → ℕ → PanzerDb → PanzerDb
set_counter path next p = record p { aos_time_counters = assign path next p.aos_time_counters }

abbrev finish_slices : Text → Text → ℕ → M (Unit {0})
finish_slices dynamic_aos_path full_path next_time p = (
  ok tt,
  raise_counter dynamic_aos_path next_time
      (set_counter full_path next_time (record p { last_level_had_write = true })),
)

-- writeDataSlicesImpl once the first step is known.
pub write_at : Text → Text → List ℕ → List ℕ → ℕ → DataType → ℕ → M (Unit {0})
unfolding column_end push_values
write_at dynamic_aos_path full_path base_shape values n_slices dtype base_time = do
  p ← get
  put (push_values dtype values p)
  _ ←
      append_index_row full_path base_shape base_time (column_end p dtype)
        (slice_volume base_shape * n_slices) (type_flags dtype) (parent_row p.array_stack)
  finish_slices dynamic_aos_path full_path (base_time + n_slices)

-- writeDataSlicesImpl. `values` are the `slice_size * n_slices` elements that the code reads from
-- `data`. The subscripts of the counter map enter a missing key with 0.
unfoldable pub write_data_slices_impl : Text → List ℕ → List ℕ → ℕ → Text → DataType → M (Unit {0})
unfolding write_at
write_data_slices_impl name base_shape values n_slices timebase dtype p =
    let (dynamic_aos_path, q) = get_dynamic_aos_path p in
    let full_path = signal_path q name in
    let started = start_counter full_path q in
    let base_time =
      if not (is_empty dynamic_aos_path)
      then base_time_dynamic started dynamic_aos_path full_path n_slices
      else base_time_standalone started timebase full_path n_slices in
    write_at dynamic_aos_path full_path base_shape values n_slices dtype base_time started

-- getCurrentTimeForAOS.
unfoldable pub get_current_time_for_aos : PanzerDb → Text → ℕ
get_current_time_for_aos p aos_path = if is_empty aos_path then 0 else counter p aos_path

-- advanceTimeForAOS.
unfoldable pub advance_time_for_aos : Text → ℕ → PanzerDb → PanzerDb
advance_time_for_aos aos_path delta p =
    if not (is_empty aos_path) then set_counter aos_path (counter p aos_path + delta) p else p

-- advanceTimebase; the name of the time base is not read.
unfoldable pub advance_timebase : ℕ → M (Unit {0})
unfolding advance_time_for_aos
advance_timebase n_steps p =
    let (dynamic_aos_path, q) = get_dynamic_aos_path p in
    (raise_if (is_empty dynamic_aos_path) Exception.runtime_error
        >> put (advance_time_for_aos dynamic_aos_path n_steps q))
      q
