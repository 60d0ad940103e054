-- ===== src/Panzer/Stack.antt =====
-- src/hdf5/panzerdb.cpp: the stack of open AoS levels. beginArray and endArray, the element index,
-- synchronizeArrayStack, the dynamic level and its cached path.
pub mod Cursors
pub mod Invariant
pub mod Opened
pub mod Closed
pub mod Synced
pub mod Reach
use mathlib.Core.List.{reverse}
use imas_core.Prelude.{
  ℕ, suc, ◌+◌, ◌-◌, ◌^◌, Bool, true, false, not, ◌&&◌, ◌||◌, List, [], ◌∷◌, ◌++◌, Option, none,
  some, Text, Exception, Result, ok, throw, lookup, assign, text_eq, to_string, is_empty, length,
  ◌==◌, if◌then◌else◌, get_or_else,
}
use imas_core.Prelude.Int.{ℤ, pos, negsuc}
use imas_core.Panzer.Types.{
  OpenMode, ArrayLevel, new_level, PanzerDb, M, ◌>>=◌, ◌>>◌, return, raise, raise_if, get, put,
  panzer_no_parent_row,
}
use imas_core.Panzer.Path.{build_path_from_stack}
use imas_core.Panzer.Append.{append_index_row}

abbrev invalidate_dynamic_aos_cache : M (Unit {0})
invalidate_dynamic_aos_cache p = (ok tt, record p { dynamic_aos_path_valid = false })

-- `if (!path.empty()) path += "/"`.
abbrev pub add_slash : Text → Text
add_slash path = if not (is_empty path) then path ++ (b'/' ∷ []) else path

-- The path of a level that is opened on this stack.
abbrev pub level_path : Text → List ArrayLevel → Text → Text
level_path path_prefix [] name = add_slash path_prefix ++ name
level_path path_prefix (back ∷ levels) name =
    add_slash (add_slash path_prefix ++ to_string back.current_index) ++ name

-- The row id of the enclosing level.
abbrev pub parent_row : List ArrayLevel → ℕ
parent_row [] = panzer_no_parent_row
parent_row (back ∷ levels) = back.container_row_id

abbrev is_write : OpenMode → Bool
is_write OpenMode.write = true
is_write OpenMode.read = false
is_write OpenMode.append = false

abbrev is_append : OpenMode → Bool
is_append OpenMode.write = false
is_append OpenMode.read = false
is_append OpenMode.append = true

-- The rows that `leaf_lookup` has for the path, in the modes that look it up.
existing_rows : PanzerDb → Text → Option (List ℕ)
existing_rows p new_node_path =
    if is_write p.mode then none else lookup new_node_path p.index.leaf_lookup

-- The row id that the level gets: of a new meta-node, or of the one that exists.
container_row : PanzerDb → ArrayLevel → Text → Option (List ℕ) → M ℕ
container_row p level new_node_path none =
    append_index_row new_node_path (level.declared_size ∷ []) 0 0 0
      (if level.is_dynamic then 3 else 2) (parent_row p.array_stack)
container_row p level new_node_path (some []) = return level.container_row_id
container_row p level new_node_path (some (row ∷ rows)) = return row

push_level : ArrayLevel → Text → ℕ → M (Unit {0})
push_level level new_node_path row p = (
  ok tt,
  record p {
    path_prefix = new_node_path;
    current_path = level.name ∷ p.current_path;
    array_stack = record level { container_row_id = row } ∷ p.array_stack;
  },
)

-- beginArray(ArrayLevel&) behind its check; `p` is the engine on entry.
open_level : ArrayLevel → PanzerDb → M (Unit {0})
unfolding existing_rows container_row push_level
open_level level p = do
  put (if level.is_dynamic then record p { dynamic_level = level.name } else p)
  let new_node_path = level_path p.path_prefix p.array_stack level.name
  row ← container_row p level new_node_path (existing_rows p new_node_path)
  push_level level new_node_path row

-- beginArray(ArrayLevel&).
unfoldable pub begin_array_level : ArrayLevel → M (Unit {0})
unfolding open_level
begin_array_level level p =
    (raise_if
          (level.is_dynamic
            && not (is_empty p.dynamic_level)
            && not (text_eq p.dynamic_level level.name))
          Exception.runtime_error
        >> open_level level p)
      p

abbrev pub sized_level : PanzerDb → Text → ℕ → ArrayLevel
sized_level p name size = record new_level {
  name = name;
  saved_path_prefix = p.path_prefix;
  declared_size = size;
}

abbrev pub untimed_level : PanzerDb → Text → Text → ArrayLevel
untimed_level p name timebase = record new_level {
  name = name;
  saved_path_prefix = p.path_prefix;
  timebase = timebase;
}

-- beginArray(name, size).
unfoldable pub begin_array_sized : Text → ℕ → M (Unit {0})
unfolding begin_array_level
begin_array_sized name size = do
  p ← get
  begin_array_level (sized_level p name size)
  invalidate_dynamic_aos_cache

-- `if (counters.find(path) == counters.end()) counters[path] = 0`.
abbrev pub start_counter : Text → PanzerDb → PanzerDb
start_counter path p = elim (lookup path p.aos_time_counters) [
  | none ↦ record p { aos_time_counters = assign path 0 p.aos_time_counters }
  | some n ↦ p
]

-- `counters[path]` behind such a start.
abbrev pub counter : PanzerDb → Text → ℕ
counter p path = get_or_else (lookup path p.aos_time_counters) 0

abbrev pub timed_level : PanzerDb → Text → Text → Text → ArrayLevel
timed_level p name timebase new_aos_path = record new_level {
  name = name;
  saved_path_prefix = p.path_prefix;
  timebase = timebase;
  is_dynamic = true;
  aos_full_path = new_aos_path;
  current_index = (if is_append p.mode then counter p new_aos_path else 0);
}

-- The dynamic level behind its check; `p` is the engine on entry.
open_dynamic : Text → Text → Text → PanzerDb → M (Unit {0})
unfolding begin_array_level
open_dynamic name timebase new_aos_path p = do
  put (start_counter new_aos_path (record p { dynamic_level = name }))
  begin_array_level (timed_level p name timebase new_aos_path)

begin_dynamic : Text → Text → Text → M (Unit {0})
unfolding open_dynamic
begin_dynamic name timebase new_aos_path p =
    (raise_if (not (is_empty p.dynamic_level)) Exception.runtime_error
        >> open_dynamic name timebase new_aos_path p)
      p

-- beginArray(name, timebase).
unfoldable pub begin_array_timed : Text → Text → M (Unit {0})
unfolding begin_dynamic begin_array_level
begin_array_timed name timebase = do
  p ← get
  if not (is_empty timebase)
      then begin_dynamic name timebase (level_path p.path_prefix p.array_stack name)
      else begin_array_level (untimed_level p name timebase)
  invalidate_dynamic_aos_cache

-- What the level that closes adds to the level under it.
abbrev add_to_back : ArrayLevel → List ArrayLevel → List ArrayLevel
add_to_back level [] = []
add_to_back level (back ∷ levels) =
    record back {
      actual_count =
          back.actual_count + (if level.actual_count == 0 then 1 else level.actual_count);
    }
    ∷ levels

end_level : PanzerDb → List Text → List ArrayLevel → PanzerDb
end_level p [] levels = p
end_level p (name ∷ names) [] = p
end_level p (name ∷ names) (level ∷ levels) = record p {
  array_stack = add_to_back level levels;
  current_path = names;
  path_prefix = level.saved_path_prefix;
  dynamic_level =
      (if level.is_dynamic && text_eq level.name p.dynamic_level then [] else p.dynamic_level);
  dynamic_aos_path_valid = false;
}

-- endArray.
unfoldable pub end_array : PanzerDb → PanzerDb
unfolding end_level
end_array p = end_level p p.current_path p.array_stack

abbrev set_back_index : ℕ → List ArrayLevel → List ArrayLevel
set_back_index i [] = []
set_back_index i (back ∷ levels) = record back { current_index = i } ∷ levels

abbrev bump_back : List ArrayLevel → List ArrayLevel
bump_back [] = []
bump_back (back ∷ levels) = record back { current_index = back.current_index + 1 } ∷ levels

unfoldable pub increment_array_index : PanzerDb → PanzerDb
increment_array_index p = record p { array_stack = bump_back p.array_stack }

unfoldable pub set_current_array_index : ℕ → PanzerDb → PanzerDb
set_current_array_index new_index p = record p {
  array_stack = set_back_index new_index p.array_stack;
}

-- `static_cast<size_t>` of an int.
abbrev pub to_size : ℤ → ℕ
to_size (pos n) = n
to_size (negsuc n) = 2 ^ 64 - 1 - n

-- One round of the loop: the level afterwards.
sync_level : OpenMode → ArrayLevel → Text → ℤ → ArrayLevel
sync_level mode level name index =
    if not (text_eq level.name name)
    then level
    else if is_append mode && level.is_dynamic
    then level
    else record level { current_index = to_size index }

-- The rounds below `sync_depth`, on the vector in its order.
sync_levels : OpenMode → List ArrayLevel → List Text → List ℤ → List ArrayLevel
sync_levels mode (level ∷ levels) (name ∷ names) (index ∷ indices) =
    sync_level mode level name index ∷ sync_levels mode levels names indices
sync_levels mode levels names indices = levels

-- `modified`: some round changed an index.
indices_differ : List ArrayLevel → List ArrayLevel → Bool
indices_differ (a ∷ old) (b ∷ new) =
    not (a.current_index == b.current_index) || indices_differ old new
indices_differ old new = false

unfoldable pub synchronize_array_stack : List Text → List ℤ → M (Unit {0})
unfolding sync_levels sync_level indices_differ
synchronize_array_stack aos_names indices = do
  p ← get
  raise_if (not (length aos_names == length indices)) Exception.runtime_error
  let new_stack = reverse (sync_levels p.mode (reverse p.array_stack) aos_names indices)
  put (
      if indices_differ p.array_stack new_stack
      then record p { array_stack = new_stack; path_prefix = build_path_from_stack new_stack }
      else p)

-- isInsideDynamicAOS: the time base of the nearest dynamic level.
unfoldable pub is_inside_dynamic_aos : List ArrayLevel → Option Text
is_inside_dynamic_aos [] = none
is_inside_dynamic_aos (level ∷ levels) =
    if level.is_dynamic then some level.timebase else is_inside_dynamic_aos levels

-- The search of getDynamicAOSPath, from the back of the stack.
unfoldable pub find_dynamic_aos_path : List ArrayLevel → Text
find_dynamic_aos_path [] = []
find_dynamic_aos_path (level ∷ levels) =
    if level.is_dynamic then level.aos_full_path else find_dynamic_aos_path levels

unfoldable pub get_dynamic_aos_path : PanzerDb → Text × PanzerDb
unfolding find_dynamic_aos_path
get_dynamic_aos_path p = if p.dynamic_aos_path_valid then (p.cached_dynamic_aos_path, p) else (
  find_dynamic_aos_path p.array_stack,
  record p {
    cached_dynamic_aos_path = find_dynamic_aos_path p.array_stack;
    dynamic_aos_path_valid = true;
  },
)
