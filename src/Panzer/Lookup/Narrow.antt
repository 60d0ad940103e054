-- ===== src/Panzer/Lookup/Narrow.antt =====
-- rowsForTime narrows the rows of a path and loses none that holds the time step.
use imas_core.Prelude.{
  ℕ, zero, suc, ◌+◌, ◌-◌, ◌^◌, ◌≤◌, ◌<◌, ◌≢◌, true, false, List, [], ◌∷◌, some, Text, ◌≡◌, refl,
  sym, ◌∙◌, arith, lookup, length, get_or, if◌then◌else◌, ltb, ◌==◌, Bool-cases, inl, inr, All,
}
use imas_core.Prelude.Int.{ℤ, pos, negsuc}
use imas_core.Panzer.Types.{Leaf, Index}
use imas_core.Panzer.Lookup.Search.{Rising, SplitsAt, search_rows-SplitsAt}
use imas_core.Panzer.Lookup.{
  row_time_steps, is_time_in_leaf, leaf_at, starts_by, search_rows, start_of, contains, narrow_rows,
  rows_for_time,
}

abbrev pub end_of : List Leaf → ℕ → ℕ
end_of leaves r = (leaf_at leaves r).time_index + row_time_steps (leaf_at leaves r)

-- Each row is a data row, and starts at or behind the end of the row before it.
abbrev pub Adjacent : List Leaf → List ℕ → Type 0
Adjacent leaves [] = Unit {0}
Adjacent leaves (r ∷ []) = Unit {0}
Adjacent leaves (r ∷ s ∷ rows) =
    (end_of leaves r ≤ (leaf_at leaves s).time_index) × Adjacent leaves (s ∷ rows)

-- The rows, in order, that hold the time step: the sweep that the narrowing replaces.
unfoldable pub sweep : List Leaf → ℤ → List ℕ → List ℕ
sweep leaves t [] = []
sweep leaves t (r ∷ rows) =
    let rest = sweep leaves t rows in
    if is_time_in_leaf (leaf_at leaves r) t then r ∷ rest else rest

-- An int64_t.
abbrev pub IsInt64 : ℤ → Type 0
IsInt64 (pos n) = n < 2 ^ 63
IsInt64 (negsuc n) = n < 2 ^ 63

abbrev pub EndsBelow : List Leaf → ℕ → Type 0
EndsBelow leaves r = end_of leaves r ≤ 2 ^ 63

Adjacent-end :
    (leaves : List Leaf) (rows : List ℕ) (i j : ℕ)
    → Adjacent leaves rows
    → i < j
    → j < length rows
    → end_of leaves (get_or rows i 0) ≤ start_of leaves rows j
Adjacent-end leaves [] i j a h k = absurd (omega arith)
Adjacent-end leaves (r ∷ []) i j a h k = absurd (omega arith)
Adjacent-end leaves (r ∷ s ∷ rows) zero zero a h k = absurd (omega arith)
Adjacent-end leaves (r ∷ s ∷ rows) zero (suc zero) a h k = a.0
Adjacent-end leaves (r ∷ s ∷ rows) zero (suc (suc j)) a h k =
    omega (arith, a.0, Adjacent-end leaves (s ∷ rows) zero (suc j) a.1 (omega arith) (omega arith))
Adjacent-end leaves (r ∷ s ∷ rows) (suc i) zero a h k = absurd (omega arith)
Adjacent-end leaves (r ∷ s ∷ rows) (suc i) (suc j) a h k =
    Adjacent-end leaves (s ∷ rows) i j a.1 (omega arith) (omega arith)

Adjacent-Rising :
    (leaves : List Leaf) (rows : List ℕ)
    → Adjacent leaves rows
    → Rising (start_of leaves rows) (length rows)
Adjacent-Rising leaves rows a i j h k = elim (Bool-cases (i == j)) [
  | inl same ↦ let e : i ≡ j = ground arith in rw e (omega arith)
  | inr other ↦ omega (arith, Adjacent-end leaves rows i j a (ground arith) k)
]

not_yet :
    (leaf : Leaf) (t : ℤ)
    → IsInt64 t
    → leaf.time_index + row_time_steps leaf ≤ 2 ^ 63
    → starts_by leaf.time_index t ≡ false
    → is_time_in_leaf leaf t ≡ false
unfolding is_time_in_leaf
not_yet leaf (pos n) i e h = ground arith
not_yet leaf (negsuc n) i e h = ground arith

passed :
    (leaf : Leaf) (start : ℕ) (t : ℤ)
    → leaf.time_index + row_time_steps leaf ≤ start
    → starts_by start t ≡ true
    → is_time_in_leaf leaf t ≡ false
unfolding is_time_in_leaf
passed leaf start (pos n) e h = ground arith
passed leaf start (negsuc n) e h = cc

sweep-nil : (leaves : List Leaf) (t : ℤ) → sweep leaves t [] ≡ []
unfolding sweep
sweep-nil leaves t = refl

sweep-none :
    (leaves : List Leaf) (t : ℤ) (rows : List ℕ)
    → ((i : ℕ) → i < length rows → is_time_in_leaf (leaf_at leaves (get_or rows i 0)) t ≡ false)
    → sweep leaves t rows ≡ []
unfolding sweep
sweep-none leaves t [] h = refl
sweep-none leaves t (r ∷ rows) h =
    rw (h 0 (omega arith)) (sweep-none leaves t rows (λ i k. h (suc i) (omega arith)))

-- Where one position alone can hold the step, the sweep looks at that one.
sweep-one :
    (leaves : List Leaf) (t : ℤ) (rows : List ℕ) (m : ℕ)
    → m < length rows
    → ((i : ℕ)
        → i < length rows
        → i ≢ m
        → is_time_in_leaf (leaf_at leaves (get_or rows i 0)) t ≡ false)
    → sweep leaves t rows ≡ sweep leaves t (get_or rows m 0 ∷ [])
unfolding sweep
sweep-one leaves t [] m k h = absurd (omega arith)
sweep-one leaves t (r ∷ rows) zero k h =
    rw (sweep-none leaves t rows (λ i q. h (suc i) (omega arith) (omega arith)))
sweep-one leaves t (r ∷ rows) (suc m) k h =
    rw (h 0 (omega arith) (omega arith))
      (sweep-one leaves t rows m (omega arith) (λ i q n. h (suc i) (omega arith) (omega arith)))

All-at :
    (leaves : List Leaf) (rows : List ℕ) (i : ℕ)
    → All (EndsBelow leaves) rows
    → i < length rows
    → end_of leaves (get_or rows i 0) ≤ 2 ^ 63
All-at leaves [] i a k = absurd (omega arith)
All-at leaves (r ∷ rows) zero a k = a.0
All-at leaves (r ∷ rows) (suc i) a k = All-at leaves rows i a.1 (omega arith)

module _ (leaves : List Leaf) (rows : List ℕ) (t : ℤ) (int : IsInt64 t)
    (ends : All (EndsBelow leaves) rows) (adjacent : Adjacent leaves rows) where
  abbrev split_point : ℕ
  split_point = search_rows (start_of leaves rows) t (suc (length rows)) 0 (length rows)

  splits : SplitsAt (start_of leaves rows) t (length rows) split_point
  splits =
      search_rows-SplitsAt (start_of leaves rows) t (length rows)
        (Adjacent-Rising leaves rows adjacent)

  elsewhere :
      (i m : ℕ)
      → split_point ≡ suc m
      → i < length rows
      → i ≢ m
      → is_time_in_leaf (leaf_at leaves (get_or rows i 0)) t ≡ false
  elsewhere i m e k n = elim (Bool-cases (ltb i m)) [
    | inl before ↦
        passed _ (start_of leaves rows m) t
          (Adjacent-end leaves rows i m adjacent (ground arith) (omega (arith, splits.inside)))
          (splits.before m (omega arith))
    | inr behind ↦ not_yet _ t int (All-at leaves rows i ends k) (splits.behind i (ground arith) k)
  ]

  narrowed :
      (m : ℕ)
      → split_point ≡ m
      → sweep leaves t (if m == 0 then [] else get_or rows (m - 1) 0 ∷ []) ≡ sweep leaves t rows
  narrowed zero e =
      sweep-nil leaves t
      ∙ sym (
          sweep-none leaves t rows (λ i k.
            not_yet _ t int (All-at leaves rows i ends k) (splits.behind i (omega arith) k)))
  narrowed (suc m) e =
      let back : suc m - 1 ≡ m = omega arith in
      let positive : (suc m == 0) ≡ false = ground arith in
      rw (back, positive)
        (sym (sweep-one leaves t rows m (omega (arith, splits.inside)) (λ i. elsewhere i m e)))

  narrow_rows-sweep : sweep leaves t (narrow_rows leaves rows t) ≡ sweep leaves t rows
  unfolding narrow_rows
  narrow_rows-sweep = narrowed split_point refl

-- The rows that rowsForTime returns for a path hold the time step exactly where the sweep over all
-- rows of the path finds it, where the paths outside `time_lookup_unsafe_paths` have their rows in
-- the order of their time spans.
pub rows_for_time-sweep :
    (index : Index) (path : Text) (rows : List ℕ) (t : ℤ)
    → IsInt64 t
    → lookup path index.leaf_lookup ≡ some rows
    → All (EndsBelow index.cached_leaves) rows
    → (contains path index.time_lookup_unsafe_paths ≡ false → Adjacent index.cached_leaves rows)
    → sweep index.cached_leaves t (rows_for_time index path t) ≡ sweep index.cached_leaves t rows
unfolding rows_for_time
rows_for_time-sweep index path [] t int e ends adjacent = rw e
rows_for_time-sweep index path (r ∷ rows) t int e ends adjacent =
    rw e (elim (Bool-cases (contains path index.time_lookup_unsafe_paths)) [
      | inl unsafe ↦ rw unsafe
      | inr safe ↦
          rw safe (narrow_rows-sweep index.cached_leaves (r ∷ rows) t int ends (adjacent safe))
    ])
