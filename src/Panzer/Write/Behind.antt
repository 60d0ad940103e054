-- ===== src/Panzer/Write/Behind.antt =====
-- A write behind restoreTimeContext: it starts behind all rows that the file holds of its signal.
use imas_core.Prelude.{
  ℕ, ◌+◌, ◌≤◌, ◌<◌, List, [], ◌∷◌, Text, ok, length, ◌≡◌, ◌≢◌, subst, arith, All,
}
use imas_core.Panzer.Types.{Leaf, OpenMode, DataType, PanzerDb}
use imas_core.Panzer.Append.Rows.{PathIds}
use imas_core.Panzer.Lookup.{row_time_steps}
use imas_core.Panzer.Stack.{counter, get_dynamic_aos_path}
use imas_core.Panzer.Query.{restore_time_context}
use imas_core.Panzer.Query.Counters.{IsSignal, Covers, restore_time_context-Covers}
use imas_core.Panzer.Write.{write_data_slices_impl, signal_path}
use imas_core.Panzer.Write.Layout.{IsNumeric, Written}
use imas_core.Panzer.Write.Times.{write_data_slices_impl-Written}

-- A row of the signal that holds data ends by `base_time`.
abbrev pub EndsBy : Text → ℕ → Leaf → Type 0
EndsBy full_path base_time leaf =
    IsSignal leaf
    → 0 < leaf.count
    → leaf.path ≡ full_path
    → leaf.time_index + row_time_steps leaf ≤ base_time

Covers-EndsBy :
    (p q : PanzerDb) (full_path : Text) (base_time : ℕ) (leaves : List Leaf)
    → counter q full_path ≤ base_time
    → All (Covers p q) leaves
    → All (EndsBy full_path base_time) leaves
Covers-EndsBy p q full_path base_time [] h c = tt
Covers-EndsBy p q full_path base_time (leaf ∷ leaves) h c = (
  λ signal count same.
      let behind =
        subst (λ path. leaf.time_index + row_time_steps leaf ≤ counter q path) same
          (c.0 signal count).0 in
      omega (arith, behind, h),
  Covers-EndsBy p q full_path base_time leaves h c.1,
)

-- Behind restoreTimeContext in a mode that reads the index, a write of slices as in
-- write_data_slices_impl-Written starts at a step at or behind the end of every row with data that
-- the decoded index holds of the signal, so that appending never writes a time step that is there.
pub write_data_slices_impl-EndsBy :
    (p r : PanzerDb) (name timebase : Text) (base_shape values : List ℕ) (n_slices : ℕ)
    (dtype : DataType)
    → p.mode ≢ OpenMode.write
    → (restore_time_context p).index_version ≡ 3
    → PathIds (restore_time_context p)
    → IsNumeric dtype
    → length base_shape ≤ 6
    → write_data_slices_impl name base_shape values n_slices timebase dtype (restore_time_context p)
      ≡ (ok tt, r)
    → (base_time : ℕ) × All
        (EndsBy (signal_path (restore_time_context p) name) base_time)
        p.index.cached_leaves
      × Written
          (restore_time_context p)
          r
          (get_dynamic_aos_path (restore_time_context p)).0
          (signal_path (restore_time_context p) name)
          base_shape
          values
          n_slices
          dtype
          base_time
write_data_slices_impl-EndsBy p r name timebase base_shape values n_slices dtype mode hv ids hd hn
      h =
    let q = restore_time_context p in
    let (base_time, lower, written) =
      write_data_slices_impl-Written q r name timebase base_shape values n_slices dtype hv ids hd hn
        h in
    (
      base_time,
      Covers-EndsBy p q (signal_path q name) base_time p.index.cached_leaves lower
          (restore_time_context-Covers p mode),
      written,
    )
