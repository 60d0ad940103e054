-- ===== src/Panzer/Write/Layout.antt =====
-- src/hdf5/panzerdb.cpp: the row, the counters and the column behind a write of slices whose first
-- step is known.
use imas_core.Prelude.{
  ℕ, ◌+◌, ◌*◌, ◌^◌, ◌≤◌, ◌<◌, false, List, ◌++◌, some, Text, Dict, Result, ok, lookup, assign,
  lookup-assign, text_eq_iff, is_empty, length, length-append, max, ◌≡◌, refl, sym, ap, ◌∙◌, subst,
  arith, ◌⊎◌,
}
use imas_core.Panzer.Types.{DataType, PanzerDb, continue-eq-ok}
use imas_core.Panzer.Append.{append_index_row, intern_path}
use imas_core.Panzer.Append.Rows.{PathIds, RowOf, Appended, append_index_row-Appended}
use imas_core.Panzer.Lookup.{slice_volume}
use imas_core.Panzer.Stack.{counter, parent_row}
use imas_core.Panzer.Write.{
  type_flags, column_end, push_values, write_at, finish_slices, set_counter,
}

-- The members that the writes change, and those that append_index_row leaves as they are.
pub record Ledger : Type 0 where
  pub aos_time_counters : Dict ℕ
  pub disk_size_f64 : ℕ
  pub disk_size_i32 : ℕ
  pub disk_size_c128 : ℕ
  pub data_buffer_f64 : List ℕ
  pub data_buffer_i32 : List ℕ
  pub data_buffer_c128 : List ℕ

abbrev pub ledger : PanzerDb → Ledger
ledger p = record {
  aos_time_counters = p.aos_time_counters;
  disk_size_f64 = p.disk_size_f64;
  disk_size_i32 = p.disk_size_i32;
  disk_size_c128 = p.disk_size_c128;
  data_buffer_f64 = p.data_buffer_f64;
  data_buffer_i32 = p.data_buffer_i32;
  data_buffer_c128 = p.data_buffer_c128;
}

pub append_index_row-ledger :
    (full_path : Text) (shape : List ℕ) (time_idx offset count flags parent_id : ℕ) (p : PanzerDb)
    → ledger (append_index_row full_path shape time_idx offset count flags parent_id p).1 ≡ ledger p
unfolding append_index_row intern_path
append_index_row-ledger full_path shape time_idx offset count flags parent_id p = ground arith

counter-finish_slices :
    (dynamic_aos_path full_path : Text) (next : ℕ) (p : PanzerDb)
    → (counter (finish_slices dynamic_aos_path full_path next p).1 full_path ≡ next)
      × ((is_empty dynamic_aos_path ≡ false)
          → next ≤ counter (finish_slices dynamic_aos_path full_path next p).1 dynamic_aos_path)
counter-finish_slices dynamic_aos_path full_path next p = ground (
  arith,
  lookup-assign full_path full_path next p.aos_time_counters,
  text_eq_iff full_path full_path,
  lookup-assign dynamic_aos_path full_path
      (max (counter (set_counter full_path next p) dynamic_aos_path) next)
      (assign full_path next p.aos_time_counters),
  lookup-assign dynamic_aos_path dynamic_aos_path
      (max (counter (set_counter full_path next p) dynamic_aos_path) next)
      (assign full_path next p.aos_time_counters),
  lookup-assign full_path dynamic_aos_path next p.aos_time_counters,
  text_eq_iff dynamic_aos_path full_path,
  text_eq_iff full_path dynamic_aos_path,
  text_eq_iff dynamic_aos_path dynamic_aos_path,
)

-- The types that have a column of their own.
abbrev pub IsNumeric : DataType → Type 0
IsNumeric dtype =
    (dtype ≡ DataType.float64) ⊎ (dtype ≡ DataType.int32) ⊎ (dtype ≡ DataType.complex128)

type_flags-bound : (dtype : DataType) → IsNumeric dtype → type_flags dtype < 2 ^ 8
type_flags-bound dtype h = ground arith

-- What a write of `n_slices` slices of a signal leaves behind, where `base_time` is its first step.
abbrev pub Written : PanzerDb → PanzerDb → Text → Text → List ℕ → List ℕ → ℕ → DataType → ℕ → Type 0
Written p r dynamic_aos_path full_path base_shape values n_slices dtype base_time =
    ((row : List ℕ) × (path_id : ℕ) × (r.index_buffer ≡ p.index_buffer ++ row)
      × (lookup full_path r.path_id_map ≡ some path_id)
      × RowOf row path_id (parent_row p.array_stack) base_time (column_end p dtype)
          (slice_volume base_shape * n_slices) (type_flags dtype) base_shape)
    × (counter r full_path ≡ base_time + n_slices)
    × (is_empty dynamic_aos_path ≡ false → base_time + n_slices ≤ counter r dynamic_aos_path)
    × (column_end r dtype ≡ column_end p dtype + length values)

push_values-column_end :
    (dtype : DataType) (values : List ℕ) (p : PanzerDb)
    → IsNumeric dtype
    → column_end (push_values dtype values p) dtype ≡ column_end p dtype + length values
unfolding column_end push_values
push_values-column_end dtype values p h = ground (
  arith,
  length-append p.data_buffer_f64 values,
  length-append p.data_buffer_i32 values,
  length-append p.data_buffer_c128 values,
)

column_end-ledger :
    (p q : PanzerDb) (dtype : DataType)
    → ledger p ≡ ledger q
    → column_end p dtype ≡ column_end q dtype
unfolding column_end
column_end-ledger p q DataType.float64 h =
    ap (λ (l : Ledger). l.disk_size_f64 + length l.data_buffer_f64) h
column_end-ledger p q DataType.int32 h =
    ap (λ (l : Ledger). l.disk_size_i32 + length l.data_buffer_i32) h
column_end-ledger p q DataType.complex128 h =
    ap (λ (l : Ledger). l.disk_size_c128 + length l.data_buffer_c128) h
column_end-ledger p q DataType.string h = refl
column_end-ledger p q DataType.list_of_strings h = refl
column_end-ledger p q DataType.string_chunked h = refl
column_end-ledger p q DataType.unknown h = refl

column_end-finish_slices :
    (dynamic_aos_path full_path : Text) (next : ℕ) (p : PanzerDb) (dtype : DataType)
    → column_end (finish_slices dynamic_aos_path full_path next p).1 dtype ≡ column_end p dtype
unfolding column_end
column_end-finish_slices dynamic_aos_path full_path next p dtype = ground arith

finish_slices-rows :
    (dynamic_aos_path full_path : Text) (next : ℕ) (p : PanzerDb)
    → ((finish_slices dynamic_aos_path full_path next p).1.index_buffer ≡ p.index_buffer)
      × ((finish_slices dynamic_aos_path full_path next p).1.path_id_map ≡ p.path_id_map)
finish_slices-rows dynamic_aos_path full_path next p = ground arith

push_values-rows :
    (dtype : DataType) (values : List ℕ) (p : PanzerDb)
    → ((push_values dtype values p).index_buffer ≡ p.index_buffer)
      × ((push_values dtype values p).index_version ≡ p.index_version)
      × ((push_values dtype values p).path_id_map ≡ p.path_id_map)
      × ((push_values dtype values p).next_path_id ≡ p.next_path_id)
unfolding push_values
push_values-rows dtype values p = ground arith

pub PathIds-same :
    (p q : PanzerDb)
    → q.path_id_map ≡ p.path_id_map
    → q.next_path_id ≡ p.next_path_id
    → PathIds p
    → PathIds q
PathIds-same p q e f v = record {
  given = λ path id h. ground (arith, v.given path id, ap (lookup path) e);
  distinct =
      λ a b id h k. v.distinct a b id (ap (lookup a) (sym e) ∙ h) (ap (lookup b) (sym e) ∙ k);
  bounded = ground (arith, v.bounded);
}

module _ (dynamic_aos_path full_path : Text) (base_shape values : List ℕ) (n_slices : ℕ)
    (dtype : DataType) (base_time : ℕ) (p : PanzerDb) (hv : p.index_version ≡ 3) (ids : PathIds p)
    (hd : IsNumeric dtype) (hn : length base_shape ≤ 6) where
  abbrev finished : PanzerDb → PanzerDb
  finished r = (finish_slices dynamic_aos_path full_path (base_time + n_slices) r).1

  finished-Written :
      (r : PanzerDb) (id : ℕ)
      → Appended
          (push_values dtype values p)
          full_path
          base_shape
          base_time
          (column_end p dtype)
          (slice_volume base_shape * n_slices)
          (type_flags dtype)
          (parent_row p.array_stack)
          (ok id, r)
      → ledger r ≡ ledger (push_values dtype values p)
      → Written p (finished r) dynamic_aos_path full_path base_shape values n_slices dtype base_time
  finished-Written r id a hl =
      let (e1, e2, e3, row, path_id, hb, hp, hr) = a in
      let rows = finish_slices-rows dynamic_aos_path full_path (base_time + n_slices) r in
      let pushed = push_values-rows dtype values p in
      let counters = counter-finish_slices dynamic_aos_path full_path (base_time + n_slices) r in
      (
        (
          row,
          path_id,
          rows.0 ∙ hb ∙ ap (λ b. b ++ row) pushed.0,
          ap (lookup full_path) rows.1 ∙ hp,
          hr,
        ),
        counters.0,
        counters.1,
        column_end-finish_slices dynamic_aos_path full_path (base_time + n_slices) r dtype
            ∙ column_end-ledger r (push_values dtype values p) dtype hl
            ∙ push_values-column_end dtype values p hd,
      )

  pushed-PathIds : PathIds (push_values dtype values p)
  pushed-PathIds =
      PathIds-same p (push_values dtype values p) (push_values-rows dtype values p).2
        (push_values-rows dtype values p).3 ids

  abbrev appended : Result ℕ × PanzerDb
  appended =
      append_index_row full_path base_shape base_time (column_end p dtype)
        (slice_volume base_shape * n_slices) (type_flags dtype) (parent_row p.array_stack)
        (push_values dtype values p)

  appended-Appended :
      Appended
        (push_values dtype values p)
        full_path
        base_shape
        base_time
        (column_end p dtype)
        (slice_volume base_shape * n_slices)
        (type_flags dtype)
        (parent_row p.array_stack)
        appended
  appended-Appended =
      append_index_row-Appended full_path base_shape base_time (column_end p dtype)
        (slice_volume base_shape * n_slices) (type_flags dtype) (parent_row p.array_stack)
        (push_values dtype values p) ((push_values-rows dtype values p).1 ∙ hv) pushed-PathIds
        (type_flags-bound dtype hd) hn

  pub write_at-Written :
      (r : PanzerDb)
      → write_at dynamic_aos_path full_path base_shape values n_slices dtype base_time p
        ≡ (ok tt, r)
      → Written p r dynamic_aos_path full_path base_shape values n_slices dtype base_time
  unfolding write_at
  write_at-Written r h =
      let (id, r', e, h') =
        continue-eq-ok appended
          (λ id. finish_slices dynamic_aos_path full_path (base_time + n_slices)) h in
      let written =
        finished-Written r' id
          (subst
            (Appended (push_values dtype values p) full_path base_shape base_time
              (column_end p dtype) (slice_volume base_shape * n_slices) (type_flags dtype)
              (parent_row p.array_stack))
            e appended-Appended)
          (ap (λ (m : Result ℕ × PanzerDb). ledger m.1) (sym e)
            ∙ append_index_row-ledger full_path base_shape base_time (column_end p dtype)
                (slice_volume base_shape * n_slices) (type_flags dtype) (parent_row p.array_stack)
                (push_values dtype values p)) in
      subst (λ q. Written p q dynamic_aos_path full_path base_shape values n_slices dtype base_time)
        (ap (λ (m : Result (Unit {0}) × PanzerDb). m.1) h') written
