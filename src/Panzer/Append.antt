-- ===== src/Panzer/Append.antt =====
-- src/hdf5/panzerdb.cpp: intern_path and append_index_row.
pub mod Rows
use imas_core.Prelude.{
  ℕ, ◌+◌, List, [], ◌∷◌, ◌++◌, Option, none, some, Text, Exception, Result, ok, throw, lookup,
  assign, take, leb, ◌==◌, if◌then◌else◌,
}
use imas_core.Panzer.Types.{
  PanzerDb, M, ◌>>=◌, ◌>>◌, return, raise, get, put, panzer_no_path_row_v3,
}
use imas_core.Panzer.Row.{pack_row_v3, pack_row_v2}

-- `strncpy` into a zeroed slot of PATH_MAX_LEN bytes, the last of which stays zero.
abbrev pub path_slot : Text → Text
path_slot = take 255

new_path : Text → M ℕ
new_path full_path = do
  p ← get
  if leb panzer_no_path_row_v3 p.next_path_id then raise Exception.al_backend else (do
    put (record p {
      next_path_id = p.next_path_id + 1;
      path_id_map = assign full_path p.next_path_id p.path_id_map;
      path_text_buffer = p.path_text_buffer ++ (path_slot full_path ∷ []);
    })
    return p.next_path_id)

unfoldable pub intern_path : Text → M ℕ
unfolding new_path
intern_path full_path = do
  p ← get
  elim (lookup full_path p.path_id_map) [ some id ↦ return id | none ↦ new_path full_path ]

-- A packed row goes to the buffer; an exception leaves the buffer as it is.
abbrev push_row : ℕ → Result (List ℕ) → M ℕ
push_row assigned_row_id (ok row) p =
    (ok assigned_row_id, record p { index_buffer = p.index_buffer ++ row })
push_row assigned_row_id (throw e) p = (throw e, p)

append_v3 : ℕ → Text → List ℕ → ℕ → ℕ → ℕ → ℕ → ℕ → M ℕ
append_v3 assigned_row_id full_path shape time_idx offset count flags parent_id = do
  path_id ← intern_path full_path
  push_row assigned_row_id (pack_row_v3 path_id parent_id time_idx offset count flags shape)

append_v2 : ℕ → Text → List ℕ → ℕ → ℕ → ℕ → ℕ → ℕ → M ℕ
append_v2 assigned_row_id full_path shape time_idx offset count flags parent_id = do
  p ← get
  put (record p {
    paths_buffer = p.paths_buffer ++ (path_slot full_path ∷ []);
    index_buffer =
        p.index_buffer ++ pack_row_v2 p.index_cols parent_id time_idx offset count flags shape;
  })
  return assigned_row_id

-- The arguments `parent_path`, `type` and `index_value` of the source are not read there.
unfoldable pub append_index_row : Text → List ℕ → ℕ → ℕ → ℕ → ℕ → ℕ → M ℕ
unfolding append_v3 append_v2
append_index_row full_path shape time_idx offset count flags parent_id = do
  p ← get
  put (record p { next_row_id = p.next_row_id + 1 })
  if p.index_version == 3
      then append_v3 p.next_row_id full_path shape time_idx offset count flags parent_id
      else append_v2 p.next_row_id full_path shape time_idx offset count flags parent_id
