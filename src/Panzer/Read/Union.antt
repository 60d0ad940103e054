-- ===== src/Panzer/Read/Union.antt =====
-- readLeavesUnion reads one block and copies the rows out of it: what the reads of each row would give.
use imas_core.Prelude.{
  ℕ, zero, suc, ◌+◌, ◌-◌, ◌≤◌, ◌^◌, min, max, false, List, [], ◌∷◌, ◌++◌, Option, some, length,
  take, drop, ltb, ◌==◌, ok, ◌≡◌, ◌≢◌, refl, ap, sym, ◌∙◌, arith, All,
}
use imas_core.Panzer.Types.{Leaf}
use imas_core.Panzer.Find.{type_of}
use imas_core.Panzer.Read.{
  Columns, column_of, stored_size, lowest, highest, scatter, read_tensor, read_each,
  read_leaves_union,
}

-- What HDF5 documents of a read within the extent of a dataset.
abbrev pub ReadsBlocks : (List ℕ → ℕ → ℕ → Option (List ℕ)) → Type 0
ReadsBlocks h5_read =
    (column : List ℕ) (start count : ℕ)
    → start + count ≤ length column
    → h5_read column start count ≡ some (take count (drop start column))

abbrev pub block : List ℕ → Leaf → List ℕ
block column leaf = take leaf.count (drop leaf.offset column)

abbrev pub blocks : List ℕ → List Leaf → List ℕ
blocks column [] = []
blocks column (leaf ∷ leaves) = block column leaf ++ blocks column leaves

-- A row of the type `code` whose elements lie in the column.
abbrev pub InColumn : ℕ → List ℕ → Leaf → Type 0
InColumn code column leaf =
    (type_of leaf ≡ code) × (leaf.flags ≢ 1) × (leaf.offset + leaf.count ≤ length column)

pub take-drop-take :
    (c a r : ℕ) (xs : List ℕ) → a + c ≤ r → take c (drop a (take r xs)) ≡ take c (drop a xs)
take-drop-take zero a r xs h = refl
take-drop-take (suc c) zero zero xs h = ground (arith, h)
take-drop-take (suc c) zero (suc r) [] h = refl
take-drop-take (suc c) zero (suc r) (x ∷ xs) h =
    ap (λ t. x ∷ t) (take-drop-take c 0 r xs (ground (arith, h)))
take-drop-take (suc c) (suc a) zero xs h = ground (arith, h)
take-drop-take (suc c) (suc a) (suc r) [] h = refl
take-drop-take (suc c) (suc a) (suc r) (x ∷ xs) h =
    take-drop-take (suc c) a r xs (ground (arith, h))

drop-nil : (n : ℕ) → drop {A = ℕ} n [] ≡ []
drop-nil zero = refl
drop-nil (suc n) = refl

pub drop-drop : (a b : ℕ) (xs : List ℕ) → drop a (drop b xs) ≡ drop (b + a) xs
drop-drop a zero xs = ap (λ n. drop n xs) {x = a} {y = 0 + a} (omega arith)
drop-drop a (suc b) [] = drop-nil a ∙ sym (drop-nil (suc b + a))
drop-drop a (suc b) (x ∷ xs) =
    drop-drop a b xs ∙ ap (λ n. drop n (x ∷ xs)) {x = suc (b + a)} {y = suc b + a} (omega arith)

lowest-lower : (lo : ℕ) (leaves : List Leaf) → lowest lo leaves ≤ lo
unfolding lowest
lowest-lower lo [] = ground arith
lowest-lower lo (leaf ∷ leaves) = ground (arith, lowest-lower (min lo leaf.offset) leaves)

highest-higher : (hi : ℕ) (leaves : List Leaf) → hi ≤ highest hi leaves
unfolding highest
highest-higher hi [] = ground arith
highest-higher hi (leaf ∷ leaves) =
    ground (arith, highest-higher (max hi (leaf.offset + leaf.count)) leaves)

highest-bounded :
    (bound : ℕ) (leaves : List Leaf) (hi : ℕ)
    → hi ≤ bound
    → All (λ leaf. leaf.offset + leaf.count ≤ bound) leaves
    → highest hi leaves ≤ bound
unfolding highest
highest-bounded bound [] hi h k = h
highest-bounded bound (leaf ∷ leaves) hi h k =
    highest-bounded bound leaves (max hi (leaf.offset + leaf.count)) (ground (arith, h, k.0)) k.1

-- Every row lies between the two ends.
abbrev Between : ℕ → ℕ → Leaf → Type 0
Between lo hi leaf = (lo ≤ leaf.offset) × (leaf.offset + leaf.count ≤ hi)

between :
    (leaves : List Leaf) (lo hi : ℕ) → All (Between (lowest lo leaves) (highest hi leaves)) leaves
unfolding lowest highest
between [] lo hi = tt
between (leaf ∷ leaves) lo hi =
    let low : lowest (min lo leaf.offset) leaves ≤ leaf.offset =
      omega (arith, lowest-lower (min lo leaf.offset) leaves) in
    let high : leaf.offset + leaf.count ≤ highest (max hi (leaf.offset + leaf.count)) leaves =
      omega (arith, highest-higher (max hi (leaf.offset + leaf.count)) leaves) in
    ((low, high), between leaves (min lo leaf.offset) (max hi (leaf.offset + leaf.count)))

copied :
    (column : List ℕ) (lo hi : ℕ) (leaf : Leaf)
    → Between lo hi leaf
    → take leaf.count (drop (leaf.offset - lo) (take (hi - lo) (drop lo column)))
      ≡ block column leaf
copied column lo hi leaf b =
    take-drop-take leaf.count (leaf.offset - lo) (hi - lo) (drop lo column)
      (omega (arith, b.0, b.1))
    ∙ ap (take leaf.count) (drop-drop (leaf.offset - lo) lo column)
    ∙ ap (λ n. take leaf.count (drop n column)) {x = lo + (leaf.offset - lo)} {y = leaf.offset}
        (omega (arith, b.0))

scatter-blocks :
    (column : List ℕ) (lo hi : ℕ) (leaves : List Leaf)
    → All (Between lo hi) leaves
    → scatter lo (take (hi - lo) (drop lo column)) leaves ≡ blocks column leaves
unfolding scatter
scatter-blocks column lo hi [] b = refl
scatter-blocks column lo hi (leaf ∷ leaves) b =
    rw (copied column lo hi leaf b.0)
      (ap (λ t. block column leaf ++ t) (scatter-blocks column lo hi leaves b.1))

module _ (h5_read : List ℕ → ℕ → ℕ → Option (List ℕ)) (reads : ReadsBlocks h5_read)
    (columns : Columns) where
  read_tensor-block :
      (code size : ℕ) (column : List ℕ) (leaf : Leaf)
      → code ≤ 2
      → stored_size code ≤ size
      → column_of columns code ≡ some column
      → InColumn code column leaf
      → read_tensor h5_read columns size leaf ≡ ok (block column leaf)
  unfolding read_tensor
  read_tensor-block code size column leaf c s e i =
      let plain : (leaf.flags == 1) ≡ false = ground (arith, i.1) in
      let numeric : ltb 2 code ≡ false = ground (arith, c) in
      let fits : ltb size (stored_size code) ≡ false = ground (arith, s) in
      rw (plain, i.0, numeric, fits, e, reads column leaf.offset leaf.count i.2) refl

  read_each-blocks :
      (code size : ℕ) (column : List ℕ) (leaves : List Leaf)
      → code ≤ 2
      → stored_size code ≤ size
      → column_of columns code ≡ some column
      → All (InColumn code column) leaves
      → read_each h5_read columns size leaves ≡ ok (blocks column leaves)
  unfolding read_each
  read_each-blocks code size column [] c s e i = refl
  read_each-blocks code size column (leaf ∷ leaves) c s e i =
      rw
        (
          read_tensor-block code size column leaf c s e i.0,
          read_each-blocks code size column leaves c s e i.1,
        )
        refl

  ends :
      (code : ℕ) (column : List ℕ) (leaves : List Leaf)
      → All (InColumn code column) leaves
      → All (λ leaf. leaf.offset + leaf.count ≤ length column) leaves
  ends code column [] i = tt
  ends code column (leaf ∷ leaves) i = (i.0.2, ends code column leaves i.1)

  read_leaves_union-blocks :
      (code : ℕ) (column : List ℕ) (leaves : List Leaf)
      → column_of columns code ≡ some column
      → All (InColumn code column) leaves
      → read_leaves_union h5_read columns code leaves ≡ some (blocks column leaves)
  unfolding read_leaves_union
  read_leaves_union-blocks code column [] e i = refl
  read_leaves_union-blocks code column (leaf ∷ leaves) e i =
      let all : List Leaf = leaf ∷ leaves in
      let lo : ℕ = lowest (2 ^ 64 - 1) all in
      let hi : ℕ = highest 0 all in
      let b : All (Between lo hi) all = between all (2 ^ 64 - 1) 0 in
      let high : hi ≤ length column =
        highest-bounded (length column) all 0 (omega arith) (ends code column all i) in
      let inside : lo + (hi - lo) ≤ length column = omega (arith, b.0.0, b.0.1, high) in
      rw (e, reads column lo (hi - lo) inside)
        (ap (λ t. some t) (scatter-blocks column lo hi all b))

  -- Where a read within the extent of a dataset returns the elements that stand there: for rows of
  -- one numeric type, none of them the marker of an empty node, whose elements lie in its column,
  -- readLeavesUnion, which reads one block and copies out of it, gives what the sequential reads of
  -- readTensor give, for a buffer whose elements are wide enough: the elements of each row, in the
  -- order of the rows.
  pub read_leaves_union-read_each :
      (code size : ℕ) (column : List ℕ) (leaves : List Leaf)
      → code ≤ 2
      → stored_size code ≤ size
      → column_of columns code ≡ some column
      → All (InColumn code column) leaves
      → (read_leaves_union h5_read columns code leaves ≡ some (blocks column leaves))
        × (read_each h5_read columns size leaves ≡ ok (blocks column leaves))
  read_leaves_union-read_each code size column leaves c s e i = (
    read_leaves_union-blocks code column leaves e i,
    read_each-blocks code size column leaves c s e i,
  )
