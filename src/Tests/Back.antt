-- ===== src/Tests/Back.antt =====
-- Two slices are appended to the file of `ip`, and read back.
use imas_core.Prelude.{[], ◌∷◌, codes}
use imas_core.Panzer.Types.{PanzerDb, OpenMode, DataType}
use imas_core.Panzer.Write.{write_data_slices_impl}
use imas_core.Panzer.Query.{restore_time_context}
use imas_core.Panzer.Loader.{Extents}
use imas_core.Panzer.Read.{Columns}
use imas_core.Tests.{empty_db}
use imas_core.Tests.Index.{ip_index}

abbrev ip_db : PanzerDb
ip_db = record empty_db { mode = OpenMode.append; index = ip_index; disk_size_f64 = 3 }

abbrev resumed : PanzerDb
resumed = restore_time_context ip_db

abbrev longer_db : PanzerDb
longer_db = (write_data_slices_impl (codes "ip") [] (75 ∷ 76 ∷ []) 2 [] DataType.float64 resumed).1

abbrev columns_after : Columns
columns_after = record { data_f64 = 70 ∷ 71 ∷ 74 ∷ 75 ∷ 76 ∷ []; data_i32 = []; data_c128 = [] }

abbrev extents_after : Extents
extents_after = record { ext_f64 = 5; ext_i32 = 0; ext_c128 = 0; ext_str = 0 }
