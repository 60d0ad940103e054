-- ===== src/Tests/Write.antt =====
-- A write of three slices into a dynamic AoS.
use imas_core.Prelude.{
  All, starts_with, ℕ, ◌+◌, ◌≤◌, List, [], ◌∷◌, Text, ok, ◌≡◌, refl, arith, inl, codes, lookup,
  assign, none, text_eq,
}
use imas_core.Panzer.Types.{PanzerDb, DataType}
use imas_core.Panzer.Stack.{get_dynamic_aos_path, counter}
use imas_core.Panzer.Write.{
  write_data_slices_impl, signal_path, column_end, push_values, base_time_dynamic,
  base_time_standalone, has_file_data,
}
use imas_core.Panzer.Append.{append_index_row, intern_path}
use imas_core.Panzer.Row.{pack_row_v3}
use imas_core.Panzer.Lookup.{slice_volume_from}
use imas_core.Panzer.Write.Layout.{Written}
use imas_core.Panzer.Write.Times.{write_data_slices_impl-Written}
use imas_core.Tests.Rows.{empty_db-PathIds}
use imas_core.Panzer.Append.Rows.{PathIds}
use imas_core.Panzer.Query.{restore_time_context}
use imas_core.Panzer.Write.Behind.{EndsBy, write_data_slices_impl-EndsBy}
use imas_core.Tests.Index.{a_db, a_index}
use imas_core.Tests.{empty_db}

abbrev written_db : PanzerDb
written_db =
    (write_data_slices_impl (codes "te") (2 ∷ []) (1 ∷ 2 ∷ 3 ∷ 4 ∷ 5 ∷ 6 ∷ []) 3 [] DataType.float64
      empty_db).1

write_run :
    write_data_slices_impl
      (codes "te")
      (2 ∷ [])
      (1 ∷ 2 ∷ 3 ∷ 4 ∷ 5 ∷ 6 ∷ [])
      3
      []
      DataType.float64
      empty_db
    ≡ (ok tt, written_db)
unfolding write_data_slices_impl get_dynamic_aos_path signal_path base_time_dynamic
    base_time_standalone has_file_data append_index_row intern_path pack_row_v3 lookup assign
    text_eq slice_volume_from push_values column_end
write_run = refl

write_data_slices_impl-Written_example :
    (base_time : ℕ) × (counter empty_db (signal_path empty_db (codes "te")) ≤ base_time)
    × Written empty_db written_db
        (get_dynamic_aos_path empty_db).0
        (signal_path empty_db (codes "te"))
        (2 ∷ [])
        (1 ∷ 2 ∷ 3 ∷ 4 ∷ 5 ∷ 6 ∷ [])
        3
        DataType.float64
        base_time
write_data_slices_impl-Written_example =
    write_data_slices_impl-Written empty_db written_db (codes "te") [] (2 ∷ [])
      (1 ∷ 2 ∷ 3 ∷ 4 ∷ 5 ∷ 6 ∷ []) 3 DataType.float64 refl empty_db-PathIds (inl refl) (omega arith)
      write_run

counter_test : counter written_db (codes "te") ≡ 3
unfolding write_data_slices_impl get_dynamic_aos_path signal_path base_time_dynamic
    base_time_standalone has_file_data append_index_row intern_path pack_row_v3 lookup assign
    text_eq slice_volume_from push_values column_end
counter_test = refl

column_test : column_end written_db DataType.float64 ≡ 6
unfolding write_data_slices_impl column_end imas_core.Panzer.Append.append_index_row lookup
    get_dynamic_aos_path imas_core.Panzer.Append.intern_path imas_core.Panzer.Row.pack_row_v3
    imas_core.Panzer.Write.base_time_standalone assign imas_core.Prelude.text_eq signal_path
column_test = refl

-- The file of a_db holds the steps 0 to 2 of `a/x`; two more are written behind them.
abbrev reopened : PanzerDb
reopened = restore_time_context a_db

abbrev appended_db : PanzerDb
appended_db =
    (write_data_slices_impl (codes "a/x") [] (7 ∷ 8 ∷ []) 2 [] DataType.float64 reopened).1

reopened_version : reopened.index_version ≡ 3
unfolding restore_time_context
reopened_version = refl

reopened-PathIds : PathIds reopened
unfolding restore_time_context lookup
reopened-PathIds = record {
  given = λ path id h. cc;
  distinct = λ a b id h k. cc;
  bounded = omega arith;
}

append_run :
    write_data_slices_impl (codes "a/x") [] (7 ∷ 8 ∷ []) 2 [] DataType.float64 reopened
    ≡ (ok tt, appended_db)
unfolding write_data_slices_impl restore_time_context append_index_row lookup get_dynamic_aos_path
    starts_with assign text_eq signal_path intern_path pack_row_v3 base_time_standalone
    slice_volume_from
append_run = refl

write_data_slices_impl-EndsBy_example :
    (base_time : ℕ) × All
      (EndsBy (signal_path reopened (codes "a/x")) base_time)
      a_index.cached_leaves
    × Written reopened appended_db
        (get_dynamic_aos_path reopened).0
        (signal_path reopened (codes "a/x"))
        []
        (7 ∷ 8 ∷ [])
        2
        DataType.float64
        base_time
write_data_slices_impl-EndsBy_example =
    write_data_slices_impl-EndsBy a_db appended_db (codes "a/x") [] [] (7 ∷ 8 ∷ []) 2
      DataType.float64 (λ h. cc) reopened_version reopened-PathIds (inl refl) (omega arith)
      append_run

append_test : counter appended_db (codes "a/x") ≡ 5
unfolding write_data_slices_impl restore_time_context lookup append_index_row get_dynamic_aos_path
    starts_with assign text_eq signal_path intern_path pack_row_v3 base_time_standalone
    slice_volume_from
append_test = refl
