-- ===== src/Tests/Reads.antt =====
-- Reads of the two rows of `ip`: the steps 0 and 1, and the step 4.
use imas_core.Prelude.{
  ℕ, ◌+◌, List, [], ◌∷◌, Option, none, some, codes, length, take, drop, leb, lookup, text_eq,
  if◌then◌else◌, ok, ◌≡◌, refl, arith, All,
}
use imas_core.Prelude.Int.{pos, negsuc}
use imas_core.Panzer.Lookup.{slice_volume_from, time_steps, is_time_in_leaf, rows_for_time}
use imas_core.Panzer.Read.{
  Columns, read_leaves_union, read_each, read_data_by_index, read_int_data_by_index,
}
use imas_core.Panzer.Read.Union.{ReadsBlocks, blocks, InColumn, read_leaves_union-read_each}
use imas_core.Tests.{ip_rows}
use imas_core.Tests.Index.{ip_index}

-- A dataset of one dimension that is read within its extent.
pub within : List ℕ → ℕ → ℕ → Option (List ℕ)
within column start count =
    if leb (start + count) (length column) then some (take count (drop start column)) else none

pub within-ReadsBlocks : ReadsBlocks within
unfolding within
within-ReadsBlocks column start count h = ground (arith, h)

abbrev columns : Columns
columns = record { data_f64 = 70 ∷ 71 ∷ 74 ∷ []; data_i32 = []; data_c128 = [] }

ip-InColumn : All (InColumn 0 (70 ∷ 71 ∷ 74 ∷ [])) ip_rows
ip-InColumn = (
  (refl, (λ h. ground (arith, h)), omega arith),
  ((refl, (λ h. ground (arith, h)), omega arith), tt),
)

read_leaves_union-read_each_example :
    (read_leaves_union within columns 0 ip_rows ≡ some (blocks (70 ∷ 71 ∷ 74 ∷ []) ip_rows))
    × (read_each within columns 8 ip_rows ≡ ok (blocks (70 ∷ 71 ∷ 74 ∷ []) ip_rows))
read_leaves_union-read_each_example =
    read_leaves_union-read_each within within-ReadsBlocks columns 0 8 (70 ∷ 71 ∷ 74 ∷ []) ip_rows
      (omega arith) (omega arith) refl ip-InColumn

-- The slice is the second value; all rows of the path give all values and their number.
slice_test :
    read_data_by_index within columns ip_index (codes "ip") (pos 1)
    ≡ ok (some (record { shape = []; values = 71 ∷ [] }))
unfolding read_data_by_index rows_for_time lookup text_eq is_time_in_leaf time_steps
    slice_volume_from within
slice_test = refl

all_test :
    read_data_by_index within columns ip_index (codes "ip") (negsuc 0)
    ≡ ok (some (record { shape = 3 ∷ []; values = 70 ∷ 71 ∷ 74 ∷ [] }))
unfolding read_data_by_index lookup text_eq within slice_volume_from
all_test = refl

-- No row of int32.
int_test : read_int_data_by_index within columns ip_index (codes "ip") (pos 1) ≡ ok none
unfolding read_int_data_by_index rows_for_time lookup text_eq
int_test = refl
