-- ===== src/Panzer/Write/Times.antt =====
-- src/hdf5/panzerdb.cpp: where writeDataSlicesImpl puts its slices, in time and in the column.
use imas_core.Prelude.{
  ℕ, ◌+◌, ◌*◌, ◌≤◌, not, List, ◌++◌, Text, ok, is_empty, length, if◌then◌else◌, ◌≡◌, ap, ◌∙◌, subst,
  arith, lookup-assign, text_eq_iff,
}
use imas_core.Panzer.Types.{DataType, PanzerDb}
use imas_core.Panzer.Append.Rows.{PathIds, RowOf}
use imas_core.Panzer.Lookup.{slice_volume}
use imas_core.Panzer.Stack.{counter, start_counter, get_dynamic_aos_path, parent_row}
use imas_core.Panzer.Write.{
  column_end, base_time_dynamic, base_time_standalone, write_data_slices_impl, signal_path,
  type_flags,
}
use imas_core.Panzer.Write.Layout.{IsNumeric, Written, write_at-Written, PathIds-same}

-- The first step of a write.
abbrev base_time_of : PanzerDb → Text → Text → Text → ℕ → ℕ
base_time_of p dynamic_aos_path timebase full_path n_slices =
    if not (is_empty dynamic_aos_path)
    then base_time_dynamic p dynamic_aos_path full_path n_slices
    else base_time_standalone p timebase full_path n_slices

counter-base_time_of :
    (p : PanzerDb) (dynamic_aos_path timebase full_path : Text) (n_slices : ℕ)
    → counter p full_path ≤ base_time_of p dynamic_aos_path timebase full_path n_slices
unfolding base_time_dynamic base_time_standalone
counter-base_time_of p dynamic_aos_path timebase full_path n_slices = ground arith

-- What the search for the dynamic AoS leaves alone.
record Same (p q : PanzerDb) : Type 0 where
  rows : q.index_buffer ≡ p.index_buffer
  stack : q.array_stack ≡ p.array_stack
  version : q.index_version ≡ p.index_version
  paths : q.path_id_map ≡ p.path_id_map
  next : q.next_path_id ≡ p.next_path_id
  column : (dtype : DataType) → column_end q dtype ≡ column_end p dtype
  counters : (path : Text) → counter q path ≡ counter p path

get_dynamic_aos_path-Same : (p : PanzerDb) → Same p (get_dynamic_aos_path p).1
unfolding get_dynamic_aos_path column_end
get_dynamic_aos_path-Same p = record {
  rows = ground arith;
  stack = ground arith;
  version = ground arith;
  paths = ground arith;
  next = ground arith;
  column = λ dtype. ground arith;
  counters = λ path. ground arith;
}

start_counter-Same : (full_path : Text) (p : PanzerDb) → Same p (start_counter full_path p)
unfolding column_end
start_counter-Same full_path p = record {
  rows = ground arith;
  stack = ground arith;
  version = ground arith;
  paths = ground arith;
  next = ground arith;
  column = λ dtype. ground arith;
  counters = λ path.
      ground
        (arith, lookup-assign full_path path 0 p.aos_time_counters, text_eq_iff full_path path);
}

signal_path-get_dynamic_aos_path :
    (p : PanzerDb) (name : Text) → signal_path (get_dynamic_aos_path p).1 name ≡ signal_path p name
unfolding get_dynamic_aos_path signal_path
signal_path-get_dynamic_aos_path p name = ground arith

Written-Same :
    (p q r : PanzerDb) (dynamic_aos_path full_path : Text) (base_shape values : List ℕ)
    (n_slices : ℕ) (dtype : DataType) (base_time : ℕ)
    → Same p q
    → Written q r dynamic_aos_path full_path base_shape values n_slices dtype base_time
    → Written p r dynamic_aos_path full_path base_shape values n_slices dtype base_time
Written-Same p q r dynamic_aos_path full_path base_shape values n_slices dtype base_time s
      ((row, path_id, hb, hp, hr), hc, hd, he) =
    (
      (
        row,
        path_id,
        hb ∙ ap (λ b. b ++ row) s.rows,
        hp,
        subst
            (λ column.
              RowOf row path_id (parent_row p.array_stack) base_time column
                (slice_volume base_shape * n_slices) (type_flags dtype) base_shape)
            (s.column dtype)
            (subst
              (λ stack.
                RowOf row path_id (parent_row stack) base_time (column_end q dtype)
                  (slice_volume base_shape * n_slices) (type_flags dtype) base_shape)
              s.stack hr),
      ),
      hc,
      hd,
      he ∙ ap (λ n. n + length values) (s.column dtype),
    )

Same-Same : (p q r : PanzerDb) → Same p q → Same q r → Same p r
Same-Same p q r s t = record {
  rows = t.rows ∙ s.rows;
  stack = t.stack ∙ s.stack;
  version = t.version ∙ s.version;
  paths = t.paths ∙ s.paths;
  next = t.next ∙ s.next;
  column = λ dtype. t.column dtype ∙ s.column dtype;
  counters = λ path. t.counters path ∙ s.counters path;
}

-- The engine as the write finds it, once the dynamic AoS is known and the signal has a counter.
abbrev started : PanzerDb → Text → PanzerDb
started p name =
    start_counter (signal_path (get_dynamic_aos_path p).1 name) (get_dynamic_aos_path p).1

-- In the v3 layout, with path ids that are distinct and below the limit, a numeric type and at
-- most six dimensions, a writeDataSlicesImpl that returns adds one row to /index, from which
-- getLeaves reads the shape, the volume of all slices, the first step and the end of the type's
-- column as it was; the column grows by the values, the signal's counter stands behind the last
-- step, and so does the counter of the dynamic AoS, if there is one. The first step is not below
-- the counter that the signal had, so that the writes of a signal never overlap in time.
pub write_data_slices_impl-Written :
    (p r : PanzerDb) (name timebase : Text) (base_shape values : List ℕ) (n_slices : ℕ)
    (dtype : DataType)
    → p.index_version ≡ 3
    → PathIds p
    → IsNumeric dtype
    → length base_shape ≤ 6
    → write_data_slices_impl name base_shape values n_slices timebase dtype p ≡ (ok tt, r)
    → (base_time : ℕ) × (counter p (signal_path p name) ≤ base_time)
      × Written p r
          (get_dynamic_aos_path p).0
          (signal_path p name)
          base_shape
          values
          n_slices
          dtype
          base_time
unfolding write_data_slices_impl
write_data_slices_impl-Written p r name timebase base_shape values n_slices dtype hv ids hd hn h =
    let dynamic_aos_path = (get_dynamic_aos_path p).0 in
    let path = signal_path (get_dynamic_aos_path p).1 name in
    let s =
      Same-Same p (get_dynamic_aos_path p).1 (started p name) (get_dynamic_aos_path-Same p)
        (start_counter-Same path (get_dynamic_aos_path p).1) in
    let base_time = base_time_of (started p name) dynamic_aos_path timebase path n_slices in
    let written =
      Written-Same p (started p name) r dynamic_aos_path path base_shape values n_slices dtype
        base_time s
        (write_at-Written dynamic_aos_path path base_shape values n_slices dtype base_time
          (started p name) (s.version ∙ hv) (PathIds-same p (started p name) s.paths s.next ids) hd
          hn r h) in
    (
      base_time,
      subst (λ full_path. counter p full_path ≤ base_time) (signal_path-get_dynamic_aos_path p name)
          (subst (λ n. n ≤ base_time) (s.counters path)
            (counter-base_time_of (started p name) dynamic_aos_path timebase path n_slices)),
      subst
          (λ full_path.
            Written p r dynamic_aos_path full_path base_shape values n_slices dtype base_time)
          (signal_path-get_dynamic_aos_path p name) written,
    )
