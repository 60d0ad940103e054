-- ===== src/Context/Const.antt =====
-- include/al_const.h, include/al_defs.h.in and src/al_const.cpp: the constants, and their names.
use imas_core.Prelude.{ℕ, Bool, false, List, [], ◌∷◌, Text, codes, length, ltb, ◌==◌, if◌then◌else◌}
use imas_core.Prelude.Int.{ℤ, pos, negsuc}

abbrev pub backend_id_0 : ℕ
backend_id_0 = 10

abbrev pub op_interp_0 : ℕ
op_interp_0 = 0

abbrev pub op_range_0 : ℕ
op_range_0 = 20

abbrev pub op_access_0 : ℕ
op_access_0 = 30

abbrev pub no_backend : ℕ
no_backend = 10

abbrev pub ascii_backend : ℕ
ascii_backend = 11

abbrev pub mdsplus_backend : ℕ
mdsplus_backend = 12

abbrev pub hdf5_backend : ℕ
hdf5_backend = 13

abbrev pub memory_backend : ℕ
memory_backend = 14

abbrev pub uda_backend : ℕ
uda_backend = 15

abbrev pub flexbuffers_backend : ℕ
flexbuffers_backend = 16

abbrev pub global_op : ℤ
global_op = pos 20

abbrev pub slice_op : ℤ
slice_op = pos 21

abbrev pub timerange_op : ℤ
timerange_op = pos 22

abbrev pub read_op : ℤ
read_op = pos 30

abbrev pub write_op : ℤ
write_op = pos 31

abbrev pub undefined_interp : ℤ
undefined_interp = pos 0

abbrev pub linear_interp : ℤ
linear_interp = pos 3

abbrev pub open_pulse : ℤ
open_pulse = pos 40

abbrev pub force_open_pulse : ℤ
force_open_pulse = pos 41

abbrev pub char_data : ℤ
char_data = pos 50

abbrev pub integer_data : ℤ
integer_data = pos 51

abbrev pub double_data : ℤ
double_data = pos 52

abbrev pub complex_data : ℤ
complex_data = pos 53

abbrev pub op_range_list : List ℤ
op_range_list = global_op ∷ slice_op ∷ timerange_op ∷ []

-- An array of three with two initialisers: the last element is zero.
abbrev pub op_access_list : List ℤ
op_access_list = read_op ∷ write_op ∷ pos 0 ∷ []

abbrev pub op_interp_list : List ℤ
op_interp_list = undefined_interp ∷ pos 1 ∷ pos 2 ∷ linear_interp ∷ []

-- Whether `at(i)` finds an element: a negative `int` is a `size_t` behind every list.
abbrev pub has_at {ℓ} : {A : Type ℓ} → List A → ℤ → Bool
has_at xs (negsuc i) = false
has_at xs (pos i) = ltb i (length xs)

abbrev pub same_int : ℤ → ℤ → Bool
same_int (pos m) (pos n) = m == n
same_int (negsuc m) (negsuc n) = m == n
same_int _ _ = false

abbrev pub constmap : List (ℤ × Text)
constmap =
    (pos 10, codes "NO_BACKEND")
    ∷ (pos 11, codes "ASCII_BACKEND")
    ∷ (pos 12, codes "MDSPLUS_BACKEND")
    ∷ (pos 13, codes "HDF5_BACKEND")
    ∷ (pos 14, codes "MEMORY_BACKEND")
    ∷ (pos 15, codes "UDA_BACKEND")
    ∷ (pos 20, codes "GLOBAL_OP")
    ∷ (pos 21, codes "SLICE_OP")
    ∷ (pos 30, codes "READ_OP")
    ∷ (pos 31, codes "WRITE_OP")
    ∷ (pos 32, codes "REPLACE_OP")
    ∷ (pos 0, codes "UNDEFINED_INTERP")
    ∷ (pos 1, codes "CLOSEST_INTERP")
    ∷ (pos 2, codes "PREVIOUS_INTERP")
    ∷ (pos 3, codes "LINEAR_INTERP")
    ∷ (negsuc 998, codes "UNDEFINED_TIME")
    ∷ (pos 40, codes "OPEN_PULSE")
    ∷ (pos 41, codes "FORCE_OPEN_PULSE")
    ∷ (pos 42, codes "CREATE_PULSE")
    ∷ (pos 43, codes "FORCE_CREATE_PULSE")
    ∷ (pos 44, codes "CLOSE_PULSE")
    ∷ (pos 45, codes "ERASE_PULSE")
    ∷ (pos 50, codes "CHAR_DATA")
    ∷ (pos 51, codes "INTEGER_DATA")
    ∷ (pos 52, codes "DOUBLE_DATA")
    ∷ (pos 53, codes "COMPLEX_DATA")
    ∷ (pos 60, codes "ASCII_SERIALIZER_PROTOCOL")
    ∷ (pos 61, codes "FLEXBUFFERS_SERIALIZER_PROTOCOL")
    ∷ []

abbrev pub errmap : List (ℤ × Text)
errmap =
    (negsuc 0, codes "UNKNOWN_ERR")
    ∷ (negsuc 1, codes "CONTEXT_ERR")
    ∷ (negsuc 2, codes "BACKEND_ERR")
    ∷ (negsuc 3, codes "LOWLEVEL_ERR")
    ∷ []

unfoldable pub name_of : List (ℤ × Text) → ℤ → Text
name_of [] id = []
name_of ((key, name) ∷ names) id = if same_int key id then name else name_of names id

-- const2str and err2str.
unfoldable pub const2str : ℤ → Text
unfolding name_of
const2str = name_of constmap

unfoldable pub err2str : ℤ → Text
unfolding name_of
err2str = name_of errmap
