-- ===== src/Panzer/Loader/Ordered.antt =====
-- The order that getLeaves records is the order that rowsForTime relies on.
use imas_core.Prelude.{
  ℕ, zero, suc, ◌+◌, ◌≤◌, ◌<◌, Bool, true, false, List, [], ◌∷◌, ◌++◌, Option, none, some, Text,
  ◌≡◌, refl, sym, ◌∙◌, subst, arith, lookup, lookup-assign, length, length-append, get_elem?,
  get_or_else, if◌then◌else◌, text_eq, text_eq_iff, Bool-cases, Option-cases, inl, inr, All,
  All-append,
}
use imas_core.Prelude.Int.{ℤ}
use imas_core.Panzer.Types.{Leaf, Index, empty_index}
use imas_core.Panzer.Row.{RowFields, unpack_row_v3}
use imas_core.Panzer.Lookup.{leaf_at, contains, rows_for_time}
use imas_core.Panzer.Lookup.Narrow.{
  Adjacent, end_of, EndsBelow, IsInt64, sweep, rows_for_time-sweep,
}
use imas_core.Panzer.Loader.{
  Extents, breaks_order, last_number, note_row_order, add_leaf, add_row_at, add_row, add_rows_v3,
  rebuild_dynamic_root_time_index, load_v3, resume_v3, make_leaf, is_dangling,
}

abbrev pub Below : ℕ → List ℕ → Type 0
Below n = All (λ r. r < n)

-- The rows of a path are leaves, and lie in time order unless the path is recorded as unsafe.
abbrev pub RowsInv : List Leaf → List Text → Text → List ℕ → Type 0
RowsInv leaves unsafe_paths path rows =
    Below (length leaves) rows × (contains path unsafe_paths ≡ false → Adjacent leaves rows)

abbrev pub IndexInv : Index → Type 0
IndexInv index =
    (path : Text) (rows : List ℕ)
    → lookup path index.leaf_lookup ≡ some rows
    → RowsInv index.cached_leaves index.time_lookup_unsafe_paths path rows

pub leaf_at-append :
    (leaves more : List Leaf) (r : ℕ)
    → r < length leaves
    → leaf_at (leaves ++ more) r ≡ leaf_at leaves r
leaf_at-append [] more r h = absurd (omega arith)
leaf_at-append (x ∷ leaves) more zero h = refl
leaf_at-append (x ∷ leaves) more (suc r) h = leaf_at-append leaves more r (omega arith)

pub leaf_at-last :
    (leaves : List Leaf) (leaf : Leaf) → leaf_at (leaves ++ (leaf ∷ [])) (length leaves) ≡ leaf
leaf_at-last [] leaf = refl
leaf_at-last (x ∷ leaves) leaf = leaf_at-last leaves leaf

Below-mono : (n m : ℕ) (rows : List ℕ) → n ≤ m → Below n rows → Below m rows
Below-mono n m [] h b = tt
Below-mono n m (r ∷ rows) h b = (omega arith, Below-mono n m rows h b.1)

Adjacent-append :
    (leaves more : List Leaf) (rows : List ℕ)
    → Below (length leaves) rows
    → Adjacent leaves rows
    → Adjacent (leaves ++ more) rows
Adjacent-append leaves more [] b a = tt
Adjacent-append leaves more (r ∷ []) b a = tt
Adjacent-append leaves more (r ∷ s ∷ rows) b a = (
  rw (leaf_at-append leaves more r b.0, leaf_at-append leaves more s b.1.0) a.0,
  Adjacent-append leaves more (s ∷ rows) b.1 a.1,
)

Adjacent-snoc :
    (leaves : List Leaf) (r : ℕ) (rows : List ℕ) (n : ℕ)
    → Adjacent leaves (r ∷ rows)
    → end_of leaves (last_number rows r) ≤ (leaf_at leaves n).time_index
    → Adjacent leaves (r ∷ (rows ++ (n ∷ [])))
unfolding last_number
Adjacent-snoc leaves r [] n a h = (h, tt)
Adjacent-snoc leaves r (s ∷ rows) n a h = (a.0, Adjacent-snoc leaves s rows n a.1 h)

last_number-Below : (n : ℕ) (r : ℕ) (rows : List ℕ) → Below n (r ∷ rows) → last_number rows r < n
unfolding last_number
last_number-Below n r [] b = b.0
last_number-Below n r (s ∷ rows) b = last_number-Below n s rows b.1

-- The rows of the leaf's own path, once the leaf is entered.
own_rows :
    (leaves : List Leaf) (leaf : Leaf) (unsafe_paths : List Text) (rows : List ℕ)
    → RowsInv leaves unsafe_paths leaf.path rows
    → RowsInv
        (leaves ++ (leaf ∷ []))
        (note_row_order leaves leaf rows unsafe_paths)
        leaf.path
        (rows ++ (length leaves ∷ []))
unfolding note_row_order contains breaks_order
own_rows leaves leaf unsafe_paths [] v =
    ((omega (arith, length-append leaves (leaf ∷ [])), tt), λ h. tt)
own_rows leaves leaf unsafe_paths (r ∷ rows) v = (
  All-append (λ k. k < length (leaves ++ (leaf ∷ []))) (r ∷ rows) (length leaves ∷ [])
      (Below-mono (length leaves) _ (r ∷ rows) (omega (arith, length-append leaves (leaf ∷ [])))
        v.0)
      (omega (arith, length-append leaves (leaf ∷ [])), tt),
  λ safe.
      Adjacent-snoc (leaves ++ (leaf ∷ [])) r rows (length leaves)
        (Adjacent-append leaves (leaf ∷ []) (r ∷ rows) v.0
          (v.1 (ground (arith, safe, text_eq_iff leaf.path leaf.path))))
        (rw
          (
            leaf_at-append leaves (leaf ∷ []) (last_number rows r)
                (last_number-Below (length leaves) r rows v.0),
            leaf_at-last leaves leaf,
          )
          (ground (arith, safe, text_eq_iff leaf.path leaf.path))),
)

unsafe_grows :
    (leaves : List Leaf) (leaf : Leaf) (unsafe_paths : List Text) (path : Text) (own : List ℕ)
    → contains path (note_row_order leaves leaf own unsafe_paths) ≡ false
    → contains path unsafe_paths ≡ false
unfolding note_row_order contains
unsafe_grows leaves leaf unsafe_paths path [] h = h
unsafe_grows leaves leaf unsafe_paths path (r ∷ rows) h = ground arith

-- The rows of any other path.
other_rows :
    (leaves : List Leaf) (leaf : Leaf) (unsafe_paths : List Text) (path : Text) (own rows : List ℕ)
    → RowsInv leaves unsafe_paths path rows
    → RowsInv (leaves ++ (leaf ∷ [])) (note_row_order leaves leaf own unsafe_paths) path rows
other_rows leaves leaf unsafe_paths path own rows v = (
  Below-mono (length leaves) _ rows (omega (arith, length-append leaves (leaf ∷ []))) v.0,
  λ safe.
      Adjacent-append leaves (leaf ∷ []) rows v.0
        (v.1 (unsafe_grows leaves leaf unsafe_paths path own safe)),
)

-- The rows that the leaf's own path has so far.
pub own_so_far :
    (index : Index) (path : Text)
    → IndexInv index
    → RowsInv index.cached_leaves index.time_lookup_unsafe_paths path
        (get_or_else (lookup path index.leaf_lookup) [])
own_so_far index path v = elim (Option-cases (lookup path index.leaf_lookup)) [
  | inl missing ↦ rw missing (tt, λ h. tt)
  | inr (rows, found) ↦ rw found (v path rows found)
]

pub add_leaf-IndexInv :
    (leaf : Leaf) (index : Index) → IndexInv index → IndexInv (add_leaf leaf index)
unfolding add_leaf
add_leaf-IndexInv leaf index v path rows e =
    let n = length index.cached_leaves in
    let own = get_or_else (lookup leaf.path index.leaf_lookup) [] in
    let e' = sym (lookup-assign leaf.path path (own ++ (n ∷ [])) index.leaf_lookup) ∙ e in
    elim (Bool-cases (text_eq leaf.path path)) [
      | inl mine ↦
          let same : leaf.path ≡ path = (text_eq_iff leaf.path path).0 mine in
          let rows_are : own ++ (n ∷ []) ≡ rows = ground arith in
          subst
            (λ r.
              RowsInv (index.cached_leaves ++ (leaf ∷ []))
                (note_row_order index.cached_leaves leaf own index.time_lookup_unsafe_paths) path r)
            rows_are
            (subst
              (λ k.
                RowsInv (index.cached_leaves ++ (leaf ∷ []))
                  (note_row_order index.cached_leaves leaf own index.time_lookup_unsafe_paths) k
                  (own ++ (n ∷ [])))
              same
              (own_rows index.cached_leaves leaf index.time_lookup_unsafe_paths own
                (own_so_far index leaf.path v)))
      | inr other ↦
          other_rows index.cached_leaves leaf index.time_lookup_unsafe_paths path own rows
            (v path rows (rw other at e'))
    ]

add_row_at-IndexInv :
    (is_root : Bool) (i : ℕ) (row : RowFields) (path : Option Text) (index : Index)
    → IndexInv index
    → IndexInv (add_row_at is_root i row path index)
unfolding add_row_at
add_row_at-IndexInv is_root i row none index v = v
add_row_at-IndexInv is_root i row (some path) index v =
    add_leaf-IndexInv (make_leaf is_root i path row) index v

add_row-IndexInv :
    (e : Extents) (path_table : List Text) (is_root : Bool) (i : ℕ) (row : RowFields)
    (index : Index)
    → IndexInv index
    → IndexInv (add_row e path_table is_root i row index)
unfolding add_row
add_row-IndexInv e path_table is_root i row index v =
    elim (is_dangling e row)
      as (λ b.
        IndexInv (
          if b then index else add_row_at is_root i row (get_elem? path_table row.path_id) index)) [
            | true ↦ v
            | false ↦ add_row_at-IndexInv is_root i row (get_elem? path_table row.path_id) index v
          ]

add_rows_v3-IndexInv :
    (e : Extents) (path_table : List Text) (i : ℕ) (rows : List (List ℕ)) (index : Index)
    → IndexInv index
    → IndexInv (add_rows_v3 e path_table i rows index)
unfolding add_rows_v3
add_rows_v3-IndexInv e path_table i [] index v = v
add_rows_v3-IndexInv e path_table i (row ∷ rows) index v =
    add_rows_v3-IndexInv e path_table (i + 1) rows _
      (add_row-IndexInv e path_table _ i (unpack_row_v3 row) index v)

empty_index-IndexInv : IndexInv empty_index
unfolding lookup
empty_index-IndexInv path rows e = cc

rebuild-IndexInv :
    (index : Index) → IndexInv index → IndexInv (rebuild_dynamic_root_time_index index)
unfolding rebuild_dynamic_root_time_index
rebuild-IndexInv index v = v

pub load_v3-IndexInv :
    (e : Extents) (path_table : List Text) (rows : List (List ℕ))
    → IndexInv (load_v3 e path_table rows)
unfolding load_v3
load_v3-IndexInv e path_table rows =
    rebuild-IndexInv (add_rows_v3 e path_table 0 rows empty_index)
      (add_rows_v3-IndexInv e path_table 0 rows empty_index empty_index-IndexInv)

pub resume_v3-IndexInv :
    (e : Extents) (path_table : List Text) (start_row : ℕ) (rows : List (List ℕ)) (index : Index)
    → IndexInv index
    → IndexInv (resume_v3 e path_table start_row rows index)
unfolding resume_v3
resume_v3-IndexInv e path_table start_row rows index v =
    rebuild-IndexInv (add_rows_v3 e path_table start_row rows index)
      (add_rows_v3-IndexInv e path_table start_row rows index v)

-- On an index with the order invariant of getLeaves, for a time step in int64_t and rows that end
-- by 2^63, the binary search of rowsForTime loses no row of the path that holds the step and finds
-- no other: among the rows it returns those that isTimeInLeaf accepts are those that a sweep over
-- all rows of the path accepts.
pub rows_for_time-loaded :
    (index : Index) (path : Text) (rows : List ℕ) (t : ℤ)
    → IndexInv index
    → IsInt64 t
    → lookup path index.leaf_lookup ≡ some rows
    → All (EndsBelow index.cached_leaves) rows
    → sweep index.cached_leaves t (rows_for_time index path t) ≡ sweep index.cached_leaves t rows
rows_for_time-loaded index path rows t v int e ends =
    rows_for_time-sweep index path rows t int e ends (v path rows e).1
