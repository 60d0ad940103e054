-- ===== src/Panzer/Read/Back.antt =====
-- A row that was appended to the file is read by index: the slices of a row that was appended to the file.
pub mod Written
use imas_core.Prelude.{
  ℕ, zero, suc, ◌+◌, ◌-◌, ◌*◌, ◌/◌, ◌^◌, ◌≤◌, ◌<◌, ltb, ◌==◌, true, false, List, [], ◌∷◌, ◌++◌,
  Option, none, some, Text, lookup, length, length-append, take, drop, is_empty, get_elem?, ok, ◌≡◌,
  refl, ap, sym, subst, ◌∙◌, arith, All, All-append, Bool-cases, inl, inr, if◌then◌else◌,
}
use imas_core.Prelude.Int.{ℤ, pos}
use native.Mathlib.Nat.{mul-div_cancel_left, mul-suc, suc-mul}
use imas_core.Panzer.Types.{Leaf, Index}
use imas_core.Panzer.Row.{unpack_row_v3}
use imas_core.Panzer.Row.RoundTrip.{parent_column}
use imas_core.Panzer.Append.Rows.{RowOf}
use imas_core.Prelude.Bits.{low_bits}
use imas_core.Panzer.Lookup.{
  slice_volume, slice_volume_from, time_steps, row_time_steps, is_data, is_time_in_leaf, leaf_at,
}
use imas_core.Panzer.Lookup.Narrow.{end_of, sweep, EndsBelow}
use imas_core.Panzer.Loader.{Extents, is_dangling, make_leaf, resume_v3}
use imas_core.Panzer.Loader.Appended.{rows_of, leaf_of, resume_v3-appended}
use imas_core.Panzer.Loader.Ordered.{
  Below, IndexInv, leaf_at-append, leaf_at-last, own_so_far, resume_v3-IndexInv,
}
use imas_core.Panzer.Query.Counters.{slice_volume_from-positive}
use imas_core.Panzer.Find.{type_of}
use imas_core.Panzer.Read.{Columns, column_of, read_data_by_index}
use imas_core.Panzer.Read.Union.{ReadsBlocks, block, take-drop-take, drop-drop}
use imas_core.Panzer.Read.Slices.{slice, read_data_by_index-slice}

abbrev pub EndsAt : List Leaf → ℕ → ℕ → Type 0
EndsAt leaves n r = end_of leaves r ≤ n

EndsAt-append :
    (leaves more : List Leaf) (n m : ℕ) (rows : List ℕ)
    → n ≤ m
    → Below (length leaves) rows
    → All (EndsAt leaves n) rows
    → All (EndsAt (leaves ++ more) m) rows
EndsAt-append leaves more n m [] h b a = tt
EndsAt-append leaves more n m (r ∷ rows) h b a = (
  rw (leaf_at-append leaves more r b.0) (omega (arith, h, a.0)),
  EndsAt-append leaves more n m rows h b.1 a.1,
)

over :
    (leaf : Leaf) (n t : ℕ)
    → leaf.time_index + row_time_steps leaf ≤ n
    → n ≤ t
    → is_time_in_leaf leaf (pos t) ≡ false
unfolding is_time_in_leaf
over leaf n t h e = ground (arith, h, e)

-- Of rows that are over, only the one behind them holds the step.
sweep-last :
    (leaves : List Leaf) (n t : ℕ) (rows : List ℕ) (last : ℕ)
    → n ≤ t
    → All (EndsAt leaves n) rows
    → is_time_in_leaf (leaf_at leaves last) (pos t) ≡ true
    → sweep leaves (pos t) (rows ++ (last ∷ [])) ≡ last ∷ []
unfolding sweep
sweep-last leaves n t [] last h a e = rw e refl
sweep-last leaves n t (r ∷ rows) last h a e =
    rw (over (leaf_at leaves r) n t a.0 h) (sweep-last leaves n t rows last h a.1 e)

row_steps :
    (shape : List ℕ) (n : ℕ) → 0 < n → time_steps (slice_volume shape) (slice_volume shape * n) ≡ n
unfolding time_steps
row_steps shape n h =
    let volume = slice_volume shape in
    let positive : 0 < volume = slice_volume_from-positive 1 shape (omega arith) in
    let exact : volume * n / volume ≡ n = mul-div_cancel_left n positive in
    ground (arith, positive, exact, h)

-- A slice of the row lies in the row.
slice_inside : (volume n k : ℕ) → k < n → k * volume + volume ≤ volume * n
slice_inside volume zero k h = absurd (omega arith)
slice_inside volume (suc n) zero h = omega (arith, mul-suc volume n)
slice_inside volume (suc n) (suc k) h =
    omega (arith, slice_inside volume n k (omega arith), mul-suc volume n, suc-mul k volume)

drop-length : (before rest : List ℕ) → drop (length before) (before ++ rest) ≡ rest
drop-length [] rest = refl
drop-length (x ∷ before) rest = drop-length before rest

take-length : (values after : List ℕ) → take (length values) (values ++ after) ≡ values
take-length [] after = refl
take-length (x ∷ values) after = ap (λ xs. x ∷ xs) (take-length values after)

-- The row's block, where the values stand in the column.
block-between :
    (before values after : List ℕ) (leaf : Leaf)
    → leaf.offset ≡ length before
    → leaf.count ≡ length values
    → block (before ++ (values ++ after)) leaf ≡ values
block-between before values after leaf e f =
    rw (e, f, drop-length before (values ++ after)) (take-length values after)

is_empty-append : (leaves : List Leaf) (leaf : Leaf) → is_empty (leaves ++ (leaf ∷ [])) ≡ false
is_empty-append [] leaf = refl
is_empty-append (x ∷ leaves) leaf = refl

-- The leaf of a row with these fields.
abbrev leaf_with : ℕ → Text → ℕ → ℕ → ℕ → ℕ → ℕ → ℕ → List ℕ → Leaf
leaf_with start_row path path_id parent_id time_idx offset count flags shape =
    leaf_of start_row path (record {
      offset = offset;
      count = count;
      path_id = path_id;
      parent_id = parent_column parent_id;
      time_index = time_idx;
      flags = flags;
      shape = shape;
    })

module _ (h5_read : List ℕ → ℕ → ℕ → Option (List ℕ)) (reads : ReadsBlocks h5_read)
    (columns : Columns) where
  -- The last row of the index, where the rows of the path before it are over.
  read_last :
      (index : Index) (leaves : List Leaf) (leaf : Leaf) (path : Text) (own column : List ℕ)
      (base_time t : ℕ)
      → IndexInv index
      → index.cached_leaves ≡ leaves ++ (leaf ∷ [])
      → lookup path index.leaf_lookup ≡ some (own ++ (length leaves ∷ []))
      → Below (length leaves) own
      → All (EndsAt leaves base_time) own
      → base_time ≤ t
      → t < 2 ^ 63
      → base_time ≤ 2 ^ 63
      → leaf.time_index + row_time_steps leaf ≤ 2 ^ 63
      → is_time_in_leaf leaf (pos t) ≡ true
      → column_of columns (type_of leaf) ≡ some column
      → leaf.offset + leaf.count ≤ length column
      → (t - leaf.time_index) * slice_volume leaf.shape + slice_volume leaf.shape ≤ leaf.count
      → read_data_by_index h5_read columns index path (pos t)
        ≡ ok
            (some (record { shape = leaf.shape; values = slice column leaf (t - leaf.time_index) }))
  read_last index leaves leaf path own column base_time t v el ek below ends late small base by
        holds e inside full =
      let here : leaf_at index.cached_leaves (length leaves) ≡ leaf =
        ap (λ ls. leaf_at ls (length leaves)) el ∙ leaf_at-last leaves leaf in
      let over_by : (n : ℕ) → base_time ≤ n → All (EndsAt index.cached_leaves n) own = λ n h.
        subst (λ ls. All (EndsAt ls n) own) (sym el)
          (EndsAt-append leaves (leaf ∷ []) base_time n own h below ends) in
      read_data_by_index-slice h5_read reads columns index path (own ++ (length leaves ∷ [])) t
        (length leaves) [] column v small ek
        (All-append (EndsBelow index.cached_leaves) own (length leaves ∷ []) (over_by (2 ^ 63) base)
          (subst (λ l. l.time_index + row_time_steps l ≤ 2 ^ 63) (sym here) by, tt))
        (sweep-last index.cached_leaves base_time t own (length leaves) late
          (over_by base_time (omega arith)) (ap (λ l. is_time_in_leaf l (pos t)) here ∙ holds))
        (ap is_empty el ∙ is_empty-append leaves leaf)
        (subst
          (λ (l : Leaf).
            (column_of columns (type_of l) ≡ some column)
            × (l.offset + l.count ≤ length column)
            × ((t - l.time_index) * slice_volume l.shape + slice_volume l.shape ≤ l.count))
          (sym here) (e, inside, full))
      ∙ ap
          (λ (l : Leaf).
            ok (some (record { shape = l.shape; values = slice column l (t - l.time_index) })))
          here

  -- The index to which the appended row is added.
  pub resume_v3-slice :
      (e : Extents) (path_table : List Text) (start_row : ℕ) (row : List ℕ) (index : Index)
      (path : Text) (path_id parent_id base_time offset flags n_slices k : ℕ) (shape : List ℕ)
      (before values after : List ℕ)
      → RowOf row path_id parent_id base_time offset (slice_volume shape * n_slices) flags shape
      → low_bits flags 4 == 0 ≡ true
      → column_of columns (flags / 16) ≡ some (before ++ (values ++ after))
      → length before ≡ offset
      → length values ≡ slice_volume shape * n_slices
      → k < n_slices
      → base_time + n_slices ≤ 2 ^ 63
      → is_dangling e (unpack_row_v3 row) ≡ false
      → get_elem? path_table path_id ≡ some path
      → IndexInv index
      → All (EndsAt index.cached_leaves base_time) (rows_of index path)
      → read_data_by_index h5_read columns
          (resume_v3 e path_table start_row (row ∷ []) index)
          path
          (pos (base_time + k))
        ≡ ok (
            some (record {
              shape = shape;
              values = take (slice_volume shape) (drop (k * slice_volume shape) values);
            }))
  unfolding make_leaf is_time_in_leaf
  resume_v3-slice e path_table start_row row index path path_id parent_id base_time offset flags
        n_slices k shape before values after hrow hd hc hb hv hk hbound inside text v ends =
      let volume = slice_volume shape in
      let leaf : Leaf =
        leaf_with start_row path path_id parent_id base_time offset (volume * n_slices) flags
          shape in
      let positive : 0 < volume = slice_volume_from-positive 1 shape (omega arith) in
      let steps : row_time_steps leaf ≡ n_slices = row_steps shape n_slices (omega (arith, hk)) in
      let appended =
        resume_v3-appended e path_table start_row row index path inside
          (ap (λ f. get_elem? path_table f.path_id) hrow ∙ text) in
      let leaves_are =
        appended.0 ∙ ap (λ f. index.cached_leaves ++ (leaf_of start_row path f ∷ [])) hrow in
      let fits : k * volume + volume ≤ volume * n_slices = slice_inside volume n_slices k hk in
      let inside_column : offset + volume * n_slices ≤ length (before ++ (values ++ after)) =
        omega (arith, hb, hv, length-append before (values ++ after), length-append values after) in
      let step : base_time + k - base_time ≡ k = omega arith in
      read_last (resume_v3 e path_table start_row (row ∷ []) index) index.cached_leaves leaf path
        (rows_of index path) (before ++ (values ++ after)) base_time (base_time + k)
        (resume_v3-IndexInv e path_table start_row (row ∷ []) index v) leaves_are appended.1
        (own_so_far index path v).0 ends (omega arith) (omega (arith, hk, hbound))
        (omega (arith, hbound)) (omega (arith, steps, hbound)) (ground (arith, hd, steps, hk)) hc
        inside_column (rw step fits)
      ∙ rw (step, block-between before values after leaf (sym hb) (sym hv)) refl
