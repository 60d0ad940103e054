-- ===== src/Panzer/Read/Slices.antt =====
-- readDataByIndex at a time step finds the row that holds the step, and in it the step's slice.
use imas_core.Prelude.{
  ℕ, ◌+◌, ◌-◌, ◌*◌, ◌^◌, ◌≤◌, ◌<◌, true, false, List, [], ◌∷◌, Option, none, some, Text, lookup,
  length, take, drop, is_empty, ok, ◌≡◌, refl, ap, sym, ◌∙◌, arith, All, Bool-cases, inl, inr,
}
use imas_core.Prelude.Int.{ℤ, pos}
use imas_core.Panzer.Types.{Leaf, Index}
use imas_core.Panzer.Lookup.{slice_volume, is_time_in_leaf, rows_for_time, leaf_at}
use imas_core.Panzer.Lookup.Narrow.{sweep, IsInt64, EndsBelow}
use imas_core.Panzer.Loader.Ordered.{IndexInv, rows_for_time-loaded}
use imas_core.Panzer.Find.{type_of, first_in_leaf, leaf_for_time, find_leaf}
use imas_core.Panzer.Read.{Columns, column_of, sub_u64, read_slice_direct, read_data_by_index}
use imas_core.Panzer.Read.Union.{ReadsBlocks, block, take-drop-take, drop-drop}

first_of : List Leaf → List ℕ → Option Leaf
first_of leaves [] = none
first_of leaves (row ∷ rows) = some (leaf_at leaves row)

first_in_leaf-sweep :
    (leaves : List Leaf) (t : ℤ) (rows : List ℕ)
    → first_in_leaf leaves t rows ≡ first_of leaves (sweep leaves t rows)
unfolding first_in_leaf sweep first_of
first_in_leaf-sweep leaves t [] = refl
first_in_leaf-sweep leaves t (row ∷ rows) =
    elim (Bool-cases (is_time_in_leaf (leaf_at leaves row) t)) [
      | inl e ↦ rw e refl
      | inr e ↦ rw e (first_in_leaf-sweep leaves t rows)
    ]

sweep-is_time_in_leaf :
    (leaves : List Leaf) (t : ℤ) (rows : List ℕ) (r : ℕ) (more : List ℕ)
    → sweep leaves t rows ≡ r ∷ more
    → is_time_in_leaf (leaf_at leaves r) t ≡ true
unfolding sweep
sweep-is_time_in_leaf leaves t [] r more h = ground (arith, h)
sweep-is_time_in_leaf leaves t (row ∷ rows) r more h =
    elim (Bool-cases (is_time_in_leaf (leaf_at leaves row) t)) [
      | inl e ↦
          let same : r ≡ row = ground (arith, h, e) in
          ap (λ n. is_time_in_leaf (leaf_at leaves n) t) same ∙ e
      | inr e ↦ sweep-is_time_in_leaf leaves t rows r more (ground (arith, h, e))
    ]

is_time_in_leaf-after :
    (leaf : Leaf) (t : ℕ) → is_time_in_leaf leaf (pos t) ≡ true → leaf.time_index ≤ t
unfolding is_time_in_leaf
is_time_in_leaf-after leaf t h = ground (arith, h)

leaf_for_time-first :
    (index : Index) (path : Text) (rows : List ℕ) (t : ℤ) (r : ℕ) (more : List ℕ)
    → IndexInv index
    → IsInt64 t
    → lookup path index.leaf_lookup ≡ some rows
    → All (EndsBelow index.cached_leaves) rows
    → sweep index.cached_leaves t rows ≡ r ∷ more
    → leaf_for_time index path t ≡ some (leaf_at index.cached_leaves r)
unfolding leaf_for_time first_of
leaf_for_time-first index path rows t r more v int e below h =
    first_in_leaf-sweep index.cached_leaves t (rows_for_time index path t)
    ∙ ap (first_of index.cached_leaves) (rows_for_time-loaded index path rows t v int e below ∙ h)

-- The slice number `step` of a row's elements.
abbrev pub slice : List ℕ → Leaf → ℕ → List ℕ
slice column leaf step =
    take (slice_volume leaf.shape) (drop (step * slice_volume leaf.shape) (block column leaf))

module _ (h5_read : List ℕ → ℕ → ℕ → Option (List ℕ)) (reads : ReadsBlocks h5_read)
    (columns : Columns) where
  read_slice_direct-slice :
      (column : List ℕ) (leaf : Leaf) (t : ℕ)
      → column_of columns (type_of leaf) ≡ some column
      → leaf.time_index ≤ t
      → leaf.offset + leaf.count ≤ length column
      → (t - leaf.time_index) * slice_volume leaf.shape + slice_volume leaf.shape ≤ leaf.count
      → read_slice_direct h5_read columns leaf (pos t)
        ≡ some (slice column leaf (t - leaf.time_index))
  unfolding read_slice_direct
  read_slice_direct-slice column leaf t e from inside full =
      let vol : ℕ = slice_volume leaf.shape in
      let step : ℕ = t - leaf.time_index in
      let sub : sub_u64 t leaf.time_index ≡ step = ground (arith, from) in
      rw (e, sub, reads column (leaf.offset + step * vol) vol (omega (arith, inside, full)))
        (ap (λ xs. some (take vol xs)) (sym (drop-drop (step * vol) leaf.offset column))
          ∙ ap (λ xs. some xs)
              (sym (take-drop-take vol (step * vol) leaf.count (drop leaf.offset column) full)))

  pub read_data_by_index-slice :
      (index : Index) (path : Text) (rows : List ℕ) (t : ℕ) (r : ℕ) (more : List ℕ)
      → (column : List ℕ) → IndexInv index
      → t < 2 ^ 63
      → lookup path index.leaf_lookup ≡ some rows
      → All (EndsBelow index.cached_leaves) rows
      → sweep index.cached_leaves (pos t) rows ≡ r ∷ more
      → is_empty index.cached_leaves ≡ false
      → (let leaf = leaf_at index.cached_leaves r in
          (column_of columns (type_of leaf) ≡ some column)
          × (leaf.offset + leaf.count ≤ length column)
          × ((t - leaf.time_index) * slice_volume leaf.shape + slice_volume leaf.shape
              ≤ leaf.count))
      → read_data_by_index h5_read columns index path (pos t)
        ≡ ok (
            some (record {
              shape = (leaf_at index.cached_leaves r).shape;
              values =
                  slice column
                    (leaf_at index.cached_leaves r)
                    (t - (leaf_at index.cached_leaves r).time_index);
            }))
  unfolding read_data_by_index find_leaf
  read_data_by_index-slice index path rows t r more column v int e below h nonempty fits =
      let leaf : Leaf = leaf_at index.cached_leaves r in
      let from : leaf.time_index ≤ t =
        is_time_in_leaf-after leaf t
          (sweep-is_time_in_leaf index.cached_leaves (pos t) rows r more h) in
      rw
        (
          nonempty,
          leaf_for_time-first index path rows (pos t) r more v int e below h,
          read_slice_direct-slice column leaf t fits.0 from fits.1 fits.2,
        )
        refl
