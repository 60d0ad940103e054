-- ===== src/Tests.antt =====
-- The theorems applied at concrete inputs, by component.
mod Rows
mod Stack
mod Index
mod Write
mod Times
mod Reads
mod Back
mod Nearest
mod Uris
mod Contexts
mod Lowlevel
mod Plugins
mod AosPaths
use imas_core.Prelude.{ℕ, List, [], ◌∷◌, false, codes}
use imas_core.Panzer.Types.{OpenMode, PanzerDb, Leaf, ArrayLevel, new_level, empty_index}

-- An engine that has just created its file.
abbrev pub empty_db : PanzerDb
empty_db = record {
  mode = OpenMode.write;
  index_version = 3;
  index_cols = 7;
  path_id_map = [];
  path_text_buffer = [];
  next_path_id = 0;
  disk_size_f64 = 0;
  disk_size_i32 = 0;
  disk_size_c128 = 0;
  data_buffer_f64 = [];
  data_buffer_i32 = [];
  data_buffer_c128 = [];
  aos_time_counters = [];
  file_time_base = [];
  dynamic_level = [];
  current_path = [];
  path_prefix = [];
  array_stack = [];
  last_level_had_write = false;
  next_row_id = 0;
  index_buffer = [];
  paths_buffer = [];
  cached_dynamic_aos_path = [];
  dynamic_aos_path_valid = false;
  index = empty_index;
}

-- Two rows of `ip`: the steps 0 and 1, and the step 4.
abbrev pub ip_rows : List Leaf
ip_rows =
    record {
      shape = [];
      time_index = 0;
      path = codes "ip";
      parent_path = [];
      offset = 0;
      count = 2;
      flags = 0;
      row_id = 0;
    }
    ∷ record {
      shape = [];
      time_index = 4;
      path = codes "ip";
      parent_path = [];
      offset = 2;
      count = 1;
      flags = 0;
      row_id = 1;
    }
    ∷ []
