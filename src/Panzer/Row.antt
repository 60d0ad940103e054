-- ===== src/Panzer/Row.antt =====
-- src/hdf5/panzerdb.cpp: the rows of /index. append_index_row packs them, getLeaves unpacks them.
pub mod RoundTrip
use Prim.Native.Nat.{bit_or}
use imas_core.Prelude.{
  ℕ, zero, suc, ◌+◌, ◌-◌, ◌*◌, ◌/◌, ◌%◌, ◌^◌, List, [], ◌∷◌, ◌++◌, Result, ok, throw, Exception,
  ◌>>=◌, ◌>>◌, throw_if, Bool, true, false, length, get_or, set, take, replicate, ltb, leb, ◌==◌,
  if◌then◌else◌, min,
}
use imas_core.Prelude.Bits.{shl64, shr, low_bits}
use imas_core.Panzer.Types.{panzer_no_parent_row, panzer_no_parent_row_v3}

-- The loop over the dimensions: `i` is the dimension's number, `row` the row so far.
pack_shape : ℕ → List ℕ → List ℕ → Result (List ℕ)
pack_shape i [] row = ok row
pack_shape i (s ∷ shape) row =
    let field = shl64 (low_bits s 32) ((i % 2) * 32) in
    let rest =
      pack_shape (i + 1) shape (set row (4 + i / 2) (bit_or (get_or row (4 + i / 2) 0) field)) in
    if leb 6 i then ok row else if ltb (2 ^ 32 - 1) s then throw Exception.al_backend else rest

-- The v3 parent column of a row id.
pack_parent : ℕ → Result ℕ
pack_parent parent_id =
    if parent_id == panzer_no_parent_row
    then ok panzer_no_parent_row_v3
    else if ltb (2 ^ 32 - 2) parent_id
    then throw Exception.al_backend
    else ok parent_id

-- The v3 branch behind intern_path: seven columns.
unfoldable pub pack_row_v3 : ℕ → ℕ → ℕ → ℕ → ℕ → ℕ → List ℕ → Result (List ℕ)
unfolding pack_shape pack_parent
pack_row_v3 path_id parent_id time_idx offset count flags shape = do
  throw_if (ltb (2 ^ 32 - 1) time_idx) Exception.al_backend
  parent32 ← pack_parent parent_id
  let row2 = bit_or path_id (shl64 parent32 32)
  let row3 = bit_or time_idx (shl64 (bit_or flags (shl64 (length shape) 8)) 32)
  pack_shape 0 shape (offset ∷ count ∷ row2 ∷ row3 ∷ 0 ∷ 0 ∷ 0 ∷ [])

-- The six shape columns of a v2 row.
pub pad_shape : List ℕ → List ℕ
pad_shape shape = take 6 (shape ++ replicate 6 0)

-- The v2 branch: 12 columns, or the 14 of the legacy layout.
unfoldable pub pack_row_v2 : ℕ → ℕ → ℕ → ℕ → ℕ → ℕ → List ℕ → List ℕ
unfolding pad_shape
pack_row_v2 index_cols parent_id time_idx offset count flags shape =
    let columns =
      length shape ∷ (pad_shape shape ++ (time_idx ∷ offset ∷ count ∷ flags ∷ parent_id ∷ [])) in
    take index_cols
      (if index_cols == 14 then 0 ∷ (columns ++ (0 ∷ [])) else columns ++ (0 ∷ 0 ∷ []))

-- The fields that getLeaves takes out of a row, before it resolves the path.
pub record RowFields : Type 0 where
  pub offset : ℕ
  pub count : ℕ
  pub path_id : ℕ
  pub parent_id : ℕ
  pub time_index : ℕ
  pub flags : ℕ
  pub shape : List ℕ

-- `rounds` dimensions from number `d` on.
unpack_shape_v3 : List ℕ → ℕ → ℕ → List ℕ
unpack_shape_v3 row zero d = []
unpack_shape_v3 row (suc rounds) d =
    low_bits (shr (get_or row (4 + d / 2) 0) ((d % 2) * 32)) 32 ∷ unpack_shape_v3 row rounds (d + 1)

-- The v3 branch of getLeaves; the parent column is its 32-bit value.
unfoldable pub unpack_row_v3 : List ℕ → RowFields
unfolding unpack_shape_v3
unpack_row_v3 row =
    let sflags = shr (get_or row 3 0) 32 in
    let ndim = low_bits (shr sflags 8) 4 in
    record {
      offset = get_or row 0 0;
      count = get_or row 1 0;
      path_id = low_bits (get_or row 2 0) 32;
      parent_id = shr (get_or row 2 0) 32;
      time_index = low_bits (get_or row 3 0) 32;
      flags = low_bits sflags 8;
      shape = unpack_shape_v3 row (if ltb 6 ndim then 6 else ndim) 0;
    }

unpack_shape_v2 : List ℕ → ℕ → ℕ → List ℕ
unpack_shape_v2 row zero column = []
unpack_shape_v2 row (suc rounds) column =
    get_or row column 0 ∷ unpack_shape_v2 row rounds (column + 1)

-- The v2 branch of getLeaves; /paths is aligned with the rows, so the path id is the row's number.
unfoldable pub unpack_row_v2 : ℕ → ℕ → List ℕ → RowFields
unfolding unpack_shape_v2
unpack_row_v2 ncols row_number row =
    let base : ℕ = if ncols == 12 then 0 else 1 in
    let ndim = get_or row base 0 in
    record {
      offset = get_or row (base + 8) 0;
      count = get_or row (base + 9) 0;
      path_id = row_number;
      parent_id = get_or row (base + 11) 0;
      time_index = get_or row (base + 7) 0;
      flags = get_or row (base + 10) 0;
      shape = unpack_shape_v2 row (if ltb 6 ndim then 6 else ndim) (base + 1);
    }
