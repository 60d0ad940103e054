-- ===== src/Panzer/Loader/Appended.antt =====
-- A row that is appended to the file enters the index behind the rows of its path.
use imas_core.Prelude.{
  ℕ, ◌==◌, List, [], ◌∷◌, ◌++◌, some, Text, lookup, lookup-assign, text_eq_self, get_elem?,
  get_or_else, false, length, ◌≡◌, refl, ◌∙◌,
}
use imas_core.Panzer.Types.{Leaf, Index, panzer_no_parent_row_v3}
use imas_core.Panzer.Row.{RowFields, unpack_row_v3}
use imas_core.Panzer.Loader.{
  Extents, is_dangling, make_leaf, add_leaf, add_row_at, add_row, add_rows_v3,
  rebuild_dynamic_root_time_index, resume_v3,
}

-- The positions of the rows of a path.
abbrev pub rows_of : Index → Text → List ℕ
rows_of index path = get_or_else (lookup path index.leaf_lookup) []

-- The leaf that getLeaves makes of a row.
abbrev pub leaf_of : ℕ → Text → RowFields → Leaf
leaf_of row_number path fields =
    make_leaf (fields.parent_id == panzer_no_parent_row_v3) row_number path fields

pub resume_v3-appended :
    (e : Extents) (path_table : List Text) (start_row : ℕ) (row : List ℕ) (index : Index)
    (path : Text)
    → is_dangling e (unpack_row_v3 row) ≡ false
    → get_elem? path_table (unpack_row_v3 row).path_id ≡ some path
    → ((resume_v3 e path_table start_row (row ∷ []) index).cached_leaves
        ≡ index.cached_leaves ++ (leaf_of start_row path (unpack_row_v3 row) ∷ []))
      × (lookup path (resume_v3 e path_table start_row (row ∷ []) index).leaf_lookup
          ≡ some (rows_of index path ++ (length index.cached_leaves ∷ [])))
unfolding resume_v3 add_rows_v3 add_row add_row_at add_leaf make_leaf
    rebuild_dynamic_root_time_index
resume_v3-appended e path_table start_row row index path inside text =
    rw (inside, text)
      (
        refl,
        lookup-assign path path (rows_of index path ++ (length index.cached_leaves ∷ []))
              index.leaf_lookup
            ∙ rw (text_eq_self path) refl,
      )
