-- ===== src/Panzer/Types.antt =====
-- src/hdf5/panzerdb.h: the constants, the leaf record, the AoS level and the engine's state.
-- An element of a numeric column is its bit pattern, a number: the engine only moves it. HDF5
-- handles are left out; `disk_size_*` are the extents that the HDF5 calls report. `size_t` and
-- `uint64_t` counters are unbounded numbers, except where the code packs or tests their width.
use imas_core.Prelude.{
  ℕ, ◌-◌, ◌^◌, Bool, true, false, List, [], Text, Dict, Result, ok, throw, Exception, ◌≡◌, refl,
}

pub data OpenMode : Type 0 where
  write read append : OpenMode

pub data DataType : Type 0 where
  float64 int32 complex128 string list_of_strings string_chunked unknown : DataType

-- `static_cast<uint64_t>(dtype)`.
abbrev pub data_type_code : DataType → ℕ
data_type_code DataType.float64 = 0
data_type_code DataType.int32 = 1
data_type_code DataType.complex128 = 2
data_type_code DataType.string = 3
data_type_code DataType.list_of_strings = 4
data_type_code DataType.string_chunked = 5
data_type_code DataType.unknown = 99

abbrev pub panzer_no_parent_row : ℕ
panzer_no_parent_row = 2 ^ 64 - 1

abbrev pub panzer_no_parent_row_v3 : ℕ
panzer_no_parent_row_v3 = 2 ^ 32 - 1

abbrev pub panzer_no_path_row_v3 : ℕ
panzer_no_path_row_v3 = 2 ^ 32 - 1

abbrev pub path_max_len : ℕ
path_max_len = 256

pub record ArrayLevel : Type 0 where
  pub name : Text
  pub saved_path_prefix : Text
  pub timebase : Text
  pub is_dynamic : Bool
  pub declared_size : ℕ
  pub current_index : ℕ
  pub actual_count : ℕ
  pub had_write : Bool
  pub aos_full_path : Text
  pub container_row_id : ℕ

-- The initialisers of the struct.
abbrev pub new_level : ArrayLevel
new_level = record {
  name = [];
  saved_path_prefix = [];
  timebase = [];
  is_dynamic = false;
  declared_size = 0;
  current_index = 0;
  actual_count = 0;
  had_write = false;
  aos_full_path = [];
  container_row_id = 0;
}

-- `shape` is `shape_span()`, the meaningful prefix of the inline array.
pub record Leaf : Type 0 where
  pub shape : List ℕ
  pub time_index : ℕ
  pub path : Text
  pub parent_path : Text
  pub offset : ℕ
  pub count : ℕ
  pub flags : ℕ
  pub row_id : ℕ

-- What `getLeaves` caches of /index. Row numbers are positions in `cached_leaves`.
pub record Index : Type 0 where
  pub cached_leaves : List Leaf
  pub leaf_lookup : Dict (List ℕ)
  pub parent_lookup : Dict (List ℕ)
  pub metadata_by_schema : Dict (List ℕ)
  pub cached_dynamic_aos_roots : List Text
  pub time_lookup_unsafe_paths : List Text
  pub max_time_at_dynamic_root : Dict ℕ

abbrev pub empty_index : Index
empty_index = record {
  cached_leaves = [];
  leaf_lookup = [];
  parent_lookup = [];
  metadata_by_schema = [];
  cached_dynamic_aos_roots = [];
  time_lookup_unsafe_paths = [];
  max_time_at_dynamic_root = [];
}

-- The head of `array_stack` and of `current_path` is the back of the vector. `index_buffer` is
-- flat; a slot of `path_text_buffer` and of `paths_buffer` stands without its zero padding.
pub record PanzerDb : Type 0 where
  pub mode : OpenMode
  pub index_version : ℕ
  pub index_cols : ℕ
  pub path_id_map : Dict ℕ
  pub path_text_buffer : List Text
  pub next_path_id : ℕ
  pub disk_size_f64 : ℕ
  pub disk_size_i32 : ℕ
  pub disk_size_c128 : ℕ
  pub data_buffer_f64 : List ℕ
  pub data_buffer_i32 : List ℕ
  pub data_buffer_c128 : List ℕ
  pub aos_time_counters : Dict ℕ
  pub file_time_base : Dict ℕ
  pub dynamic_level : Text
  pub current_path : List Text
  pub path_prefix : Text
  pub array_stack : List ArrayLevel
  pub last_level_had_write : Bool
  pub next_row_id : ℕ
  pub index_buffer : List ℕ
  pub paths_buffer : List Text
  pub cached_dynamic_aos_path : Text
  pub dynamic_aos_path_valid : Bool
  pub index : Index

-- A method may change the engine before it throws, so the engine is kept on both ways out.
abbrev pub M {ℓ} : Type ℓ → Type ℓ
M A = PanzerDb → Result A × PanzerDb

abbrev pub continue {ℓ κ} :
    {A : Type ℓ} {B : Type κ} → Result A × PanzerDb → (A → M B) → Result B × PanzerDb
continue (ok a, p) f = f a p
continue (throw e, p) f = (throw e, p)

infixl 5 ◌>>=◌ ◌>>◌
-- A call, and what follows it.
abbrev pub ◌>>=◌ {κ ℓ} : {A : Type κ} {B : Type ℓ} (call : M A) (next : A → M B) → M B
◌>>=◌ call next p = continue (call p) next

abbrev pub ◌>>◌ {κ} : {B : Type κ} (call : M (Unit {0})) (next : M B) → M B
◌>>◌ call next p = continue (call p) (λ done. next)

abbrev pub return {ℓ} : {A : Type ℓ} → A → M A
return a p = (ok a, p)

abbrev pub raise {ℓ} : {A : Type ℓ} → Exception → M A
raise e p = (throw e, p)

abbrev pub raise_if : Bool → Exception → M (Unit {0})
raise_if true e p = (throw e, p)
raise_if false e p = (ok tt, p)

abbrev pub get : M PanzerDb
get p = (ok p, p)

abbrev pub put : PanzerDb → M (Unit {0})
put q p = (ok tt, q)

-- Inversion of a step that did not throw.
pub continue-eq-ok {ℓ κ} :
    {A : Type ℓ} {B : Type κ} (m : Result A × PanzerDb) (f : A → M B) {b : B} {q : PanzerDb}
    → continue m f ≡ (ok b, q)
    → (a : A) × (r : PanzerDb) × (m ≡ (ok a, r)) × (f a r ≡ (ok b, q))
continue-eq-ok (ok a, p) f h = (a, p, refl, h)
continue-eq-ok (throw e, p) f h = cc

pub raise_if-eq-ok {ℓ} :
    {B : Type ℓ} (test : Bool) (e : Exception) (k : M B) (p : PanzerDb) {b : B} {q : PanzerDb}
    → (raise_if test e >> k) p ≡ (ok b, q)
    → (test ≡ false) × (k p ≡ (ok b, q))
raise_if-eq-ok true e k p h = cc
raise_if-eq-ok false e k p h = (refl, h)
