-- ===== src/Panzer/Row/RoundTrip.antt =====
-- What is packed into a row of /index is what getLeaves unpacks.
use Prim.Native.Nat.{bit_or}
use imas_core.Prelude.{
  ℕ, suc, ◌+◌, ◌-◌, ◌*◌, ◌/◌, ◌%◌, ◌^◌, ◌≤◌, ◌<◌, List, [], ◌∷◌, ok, ◌>>=◌, ◌≡◌, ◌⊎◌, inl, inr,
  refl, ap, arith, All, length, get_or, set, ◌==◌, if◌then◌else◌,
}
use imas_core.Prelude.Bits.{shl64, low_bits, bit_or_fields}
use imas_core.Panzer.Types.{panzer_no_parent_row, panzer_no_parent_row_v3}
use imas_core.Panzer.Row.{
  pack_shape, pack_row_v3, pack_row_v2, RowFields, unpack_row_v3, unpack_row_v2, unpack_shape_v3,
}

single_word : (a : ℕ) → a < 2 ^ 32 → bit_or 0 (shl64 (low_bits a 32) 0) ≡ a
single_word a h = ground (arith, bit_or_fields 0 0 a)

-- Two 32-bit fields in a 64-bit word.
double_word : (a b : ℕ) → a < 2 ^ 32 → b < 2 ^ 32 → bit_or a (shl64 b 32) ≡ a + b * 2 ^ 32
double_word a b ha hb = ground (arith, bit_or_fields 32 a b)

pair_word :
    (a b : ℕ)
    → a < 2 ^ 32
    → b < 2 ^ 32
    → bit_or (bit_or 0 (shl64 (low_bits a 32) 0)) (shl64 (low_bits b 32) 32) ≡ a + b * 2 ^ 32
pair_word a b ha hb = ground (arith, single_word a ha, double_word a b ha hb)

abbrev pub Fits : ℕ → Type 0
Fits d = d < 2 ^ 32

-- The word that holds two dimensions.
abbrev shape_word : List ℕ → ℕ → ℕ
shape_word shape i = get_or shape i 0 + get_or shape (suc i) 0 * 2 ^ 32

-- The row once the loop over the dimensions is done.
abbrev packed_row : ℕ → ℕ → ℕ → ℕ → List ℕ → List ℕ
packed_row w0 w1 w2 w3 shape =
    w0 ∷ w1 ∷ w2 ∷ w3 ∷ shape_word shape 0 ∷ shape_word shape 2 ∷ shape_word shape 4 ∷ []

pack_shape-packed_row :
    (w0 w1 w2 w3 : ℕ) (shape : List ℕ)
    → length shape ≤ 6
    → All Fits shape
    → pack_shape 0 shape (w0 ∷ w1 ∷ w2 ∷ w3 ∷ 0 ∷ 0 ∷ 0 ∷ []) ≡ ok (packed_row w0 w1 w2 w3 shape)
unfolding pack_shape
pack_shape-packed_row w0 w1 w2 w3 [] n h = refl
pack_shape-packed_row w0 w1 w2 w3 (a ∷ []) n h = ground (arith, single_word a h.0)
pack_shape-packed_row w0 w1 w2 w3 (a ∷ b ∷ []) n h = ground (arith, pair_word a b h.0 h.1.0)
pack_shape-packed_row w0 w1 w2 w3 (a ∷ b ∷ c ∷ []) n h =
    ground (arith, pair_word a b h.0 h.1.0, single_word c h.1.1.0)
pack_shape-packed_row w0 w1 w2 w3 (a ∷ b ∷ c ∷ d ∷ []) n h =
    ground (arith, pair_word a b h.0 h.1.0, pair_word c d h.1.1.0 h.1.1.1.0)
pack_shape-packed_row w0 w1 w2 w3 (a ∷ b ∷ c ∷ d ∷ e ∷ []) n h =
    ground
      (arith, pair_word a b h.0 h.1.0, pair_word c d h.1.1.0 h.1.1.1.0, single_word e h.1.1.1.1.0)
pack_shape-packed_row w0 w1 w2 w3 (a ∷ b ∷ c ∷ d ∷ e ∷ f ∷ []) n h = ground (
  arith,
  pair_word a b h.0 h.1.0,
  pair_word c d h.1.1.0 h.1.1.1.0,
  pair_word e f h.1.1.1.1.0 h.1.1.1.1.1.0,
)
pack_shape-packed_row w0 w1 w2 w3 (a ∷ b ∷ c ∷ d ∷ e ∷ f ∷ g ∷ shape) n h = absurd (omega arith)

unpack_shape_v3-packed_row :
    (w0 w1 w2 w3 : ℕ) (shape : List ℕ)
    → length shape ≤ 6
    → All Fits shape
    → unpack_shape_v3 (packed_row w0 w1 w2 w3 shape) (length shape) 0 ≡ shape
unfolding unpack_shape_v3
unpack_shape_v3-packed_row w0 w1 w2 w3 [] n h = refl
unpack_shape_v3-packed_row w0 w1 w2 w3 (a ∷ []) n h = ground arith
unpack_shape_v3-packed_row w0 w1 w2 w3 (a ∷ b ∷ []) n h = ground arith
unpack_shape_v3-packed_row w0 w1 w2 w3 (a ∷ b ∷ c ∷ []) n h = ground arith
unpack_shape_v3-packed_row w0 w1 w2 w3 (a ∷ b ∷ c ∷ d ∷ []) n h = ground arith
unpack_shape_v3-packed_row w0 w1 w2 w3 (a ∷ b ∷ c ∷ d ∷ e ∷ []) n h = ground arith
unpack_shape_v3-packed_row w0 w1 w2 w3 (a ∷ b ∷ c ∷ d ∷ e ∷ f ∷ []) n h = ground arith
unpack_shape_v3-packed_row w0 w1 w2 w3 (a ∷ b ∷ c ∷ d ∷ e ∷ f ∷ g ∷ shape) n h =
    absurd (omega arith)

-- The flags word: time index, flags and number of dimensions.
flags_word :
    (time_idx flags ndim : ℕ)
    → time_idx < 2 ^ 32
    → flags < 2 ^ 8
    → ndim ≤ 6
    → bit_or time_idx (shl64 (bit_or flags (shl64 ndim 8)) 32)
      ≡ time_idx + (flags + ndim * 2 ^ 8) * 2 ^ 32
flags_word time_idx flags ndim ht hf hn =
    ground (arith, bit_or_fields 8 flags ndim hf, double_word time_idx (flags + ndim * 2 ^ 8) ht)

-- The parent column of a v3 row.
abbrev pub parent_column : ℕ → ℕ
parent_column parent_id =
    if parent_id == panzer_no_parent_row then panzer_no_parent_row_v3 else parent_id

-- A parent that v3 can store: none, or a row id below the marker.
abbrev pub FitsParent : ℕ → Type 0
FitsParent parent_id = (parent_id ≡ panzer_no_parent_row) ⊎ (parent_id < 2 ^ 32 - 1)

module _ (path_id parent_id time_idx offset count flags : ℕ) (shape : List ℕ)
    (hp : path_id < 2 ^ 32) (hq : FitsParent parent_id) (ht : time_idx < 2 ^ 32)
    (hf : flags < 2 ^ 8) (hn : length shape ≤ 6) (hs : All Fits shape) where
  abbrev path_word : ℕ
  path_word = path_id + parent_column parent_id * 2 ^ 32

  abbrev time_word : ℕ
  time_word = time_idx + (flags + length shape * 2 ^ 8) * 2 ^ 32

  pack_row_v3-packed_row :
      pack_row_v3 path_id parent_id time_idx offset count flags shape
      ≡ ok (packed_row offset count path_word time_word shape)
  unfolding pack_row_v3
  pack_row_v3-packed_row = ground (
    arith,
    double_word path_id (parent_column parent_id) hp,
    flags_word time_idx flags (length shape) ht hf hn,
    pack_shape-packed_row offset count path_word time_word shape hn hs,
  )

  abbrev fields : RowFields
  fields = record {
    offset = offset;
    count = count;
    path_id = path_id;
    parent_id = parent_column parent_id;
    time_index = time_idx;
    flags = flags;
    shape = shape;
  }

  unpack_row_v3-packed_row :
      unpack_row_v3 (packed_row offset count path_word time_word shape) ≡ fields
  unfolding unpack_row_v3
  unpack_row_v3-packed_row =
      ground (arith, unpack_shape_v3-packed_row offset count path_word time_word shape hn hs)

-- Fields that fit the widths of a v3 row (u32 path id, time index and dimensions, a parent below
-- 2^32 - 1 or none, flags below 2^8, at most six dimensions) are packed without an exception, and
-- unpacked unchanged.
pub pack_row_v3-unpack_row_v3 :
    (path_id parent_id time_idx offset count flags : ℕ) (shape : List ℕ)
    → path_id < 2 ^ 32
    → FitsParent parent_id
    → time_idx < 2 ^ 32
    → flags < 2 ^ 8
    → length shape ≤ 6
    → All Fits shape
    → (do
      row ← pack_row_v3 path_id parent_id time_idx offset count flags shape
      ok (unpack_row_v3 row))
      ≡ ok (record {
        offset = offset;
        count = count;
        path_id = path_id;
        parent_id = parent_column parent_id;
        time_index = time_idx;
        flags = flags;
        shape = shape;
      })
pack_row_v3-unpack_row_v3 path_id parent_id time_idx offset count flags shape hp hq ht hf hn hs =
    rw
      (pack_row_v3-packed_row path_id parent_id time_idx offset count flags shape hp hq ht hf hn hs)
      (ap ok (
        unpack_row_v3-packed_row path_id parent_id time_idx offset count flags shape hp hq ht hf hn
          hs))

pack_shape-Fits :
    (i : ℕ) (shape row out : List ℕ)
    → i + length shape ≤ 6
    → pack_shape i shape row ≡ ok out
    → All Fits shape
unfolding pack_shape
pack_shape-Fits i [] row out n h = tt
pack_shape-Fits i (s ∷ shape) row out n h = ground (
  arith,
  pack_shape-Fits (i + 1) shape
      (set row (4 + i / 2)
        (bit_or (get_or row (4 + i / 2) 0) (shl64 (low_bits s 32) ((i % 2) * 32))))
      out,
)

pub pack_row_v3-Fits :
    (path_id parent_id time_idx offset count flags : ℕ) (shape row : List ℕ)
    → length shape ≤ 6
    → pack_row_v3 path_id parent_id time_idx offset count flags shape ≡ ok row
    → (time_idx < 2 ^ 32) × FitsParent parent_id × All Fits shape
unfolding pack_row_v3
pack_row_v3-Fits path_id parent_id time_idx offset count flags shape row hn h = ground (
  arith,
  pack_shape-Fits 0 shape
      (offset
        ∷ count
        ∷ bit_or path_id (shl64 (parent_column parent_id) 32)
        ∷ bit_or time_idx (shl64 (bit_or flags (shl64 (length shape) 8)) 32)
        ∷ 0
        ∷ 0
        ∷ 0
        ∷ [])
      row,
)

module _ (row_number parent_id time_idx offset count flags : ℕ) where
  abbrev V2Trip : ℕ → List ℕ → Type 0
  V2Trip cols shape =
      unpack_row_v2 cols row_number (pack_row_v2 cols parent_id time_idx offset count flags shape)
      ≡ record {
        offset = offset;
        count = count;
        path_id = row_number;
        parent_id = parent_id;
        time_index = time_idx;
        flags = flags;
        shape = shape;
      }

  v2_trips : (shape : List ℕ) → length shape ≤ 6 → V2Trip 12 shape × V2Trip 14 shape
  unfolding pack_row_v2 unpack_row_v2
  v2_trips [] n = (refl, refl)
  v2_trips (a ∷ []) n = (refl, refl)
  v2_trips (a ∷ b ∷ []) n = (refl, refl)
  v2_trips (a ∷ b ∷ c ∷ []) n = (refl, refl)
  v2_trips (a ∷ b ∷ c ∷ d ∷ []) n = (refl, refl)
  v2_trips (a ∷ b ∷ c ∷ d ∷ e ∷ []) n = (refl, refl)
  v2_trips (a ∷ b ∷ c ∷ d ∷ e ∷ f ∷ []) n = (refl, refl)
  v2_trips (a ∷ b ∷ c ∷ d ∷ e ∷ f ∷ g ∷ shape) n = absurd (omega arith)

-- A v2 row of 12 columns, or of the 14 of the legacy layout, with at most six dimensions is
-- unpacked unchanged.
pub pack_row_v2-unpack_row_v2 :
    (index_cols row_number parent_id time_idx offset count flags : ℕ) (shape : List ℕ)
    → (index_cols ≡ 12) ⊎ (index_cols ≡ 14)
    → length shape ≤ 6
    → unpack_row_v2 index_cols row_number
        (pack_row_v2 index_cols parent_id time_idx offset count flags shape)
      ≡ record {
        offset = offset;
        count = count;
        path_id = row_number;
        parent_id = parent_id;
        time_index = time_idx;
        flags = flags;
        shape = shape;
      }
pack_row_v2-unpack_row_v2 index_cols row_number parent_id time_idx offset count flags shape (inl hc)
      hn =
    rw hc (v2_trips row_number parent_id time_idx offset count flags shape hn).0
pack_row_v2-unpack_row_v2 index_cols row_number parent_id time_idx offset count flags shape (inr hc)
      hn =
    rw hc (v2_trips row_number parent_id time_idx offset count flags shape hn).1
