-- ===== src/Panzer/Nearest.antt =====
-- src/hdf5/panzerdb.cpp: nearestAvailableSliceIndex, the slice that stands in for one that a signal does
-- not have. Distances in time are doubles, a parameter: `closer` is `d_below < d_above`.
pub mod Choice
use imas_core.Prelude.{
  ℕ, zero, suc, ◌+◌, ◌-◌, Bool, true, false, not, ◌&&◌, ◌||◌, List, [], ◌∷◌, ◌++◌, Option, none,
  some, Text, Dict, lookup, assign, find, drop, length, get_or, starts_with, to_string, is_empty,
  leb, ltb, ◌==◌, if◌then◌else◌,
}
use imas_core.Prelude.Int.{ℤ, pos, negsuc}
use imas_core.Panzer.Types.{Leaf, Index}
use imas_core.Panzer.Lookup.{rows_for_time, is_time_in_leaf, leaf_at}

-- The paths that a signal's rows may stand at: its own, and those in and under the dynamic AoS.
pub record Target : Type 0 where
  pub target_path : Text
  pub dynamic_aos : Text
  pub remainder_suffix : Text

abbrev pub is_below : Text → Text → Bool
is_below path root =
    ltb (length root) (length path)
    && (get_or path (length root) 0 == b'/')
    && starts_with root path

suffix_from : Text → Option ℕ → Text
suffix_from remainder none = []
suffix_from remainder (some first_slash) = drop first_slash remainder

-- The search for the first root that the path goes through.
unfoldable pub find_target : Text → List Text → Target
unfolding suffix_from
find_target target_path [] = record {
  target_path = target_path;
  dynamic_aos = [];
  remainder_suffix = [];
}
find_target target_path (root ∷ roots) =
    let remainder = drop (suc (length root)) target_path in
    let later = find_target target_path roots in
    if is_below target_path root
    then record {
      target_path = target_path;
      dynamic_aos = root;
      remainder_suffix = suffix_from remainder (find b'/' remainder);
    }
    else later

any_in_leaf : List Leaf → ℤ → List ℕ → Bool
any_in_leaf leaves idx [] = false
any_in_leaf leaves idx (row ∷ rows) =
    is_time_in_leaf (leaf_at leaves row) idx || any_in_leaf leaves idx rows

unfoldable pub path_covers : Index → Text → ℤ → Bool
unfolding any_in_leaf
path_covers index path idx = any_in_leaf index.cached_leaves idx (rows_for_time index path idx)

unfoldable pub path_has_rows : Index → Text → Bool
path_has_rows index path = elim (lookup path index.leaf_lookup) [
  | none ↦ false
  | some rows ↦ elim rows [ [] ↦ false | row ∷ more ↦ true ]
]

-- `std::to_string` of an int64_t.
abbrev pub int_to_string : ℤ → Text
int_to_string (pos n) = to_string n
int_to_string (negsuc n) = b'-' ∷ to_string (suc n)

abbrev pub target_live : Index → Target → Bool
target_live index t = path_has_rows index t.target_path

abbrev pub generic_live : Index → Target → Bool
generic_live index t =
    let generic_path =
      (if is_empty t.dynamic_aos then [] else t.dynamic_aos ++ t.remainder_suffix) in
    not (is_empty generic_path) && path_has_rows index generic_path

unfoldable pub available : Index → Target → ℤ → Bool
unfolding path_covers
available index t idx =
    if target_live index t && path_covers index t.target_path idx
    then true
    else if is_empty t.dynamic_aos
    then false
    else if generic_live index t && path_covers index (t.dynamic_aos ++ t.remainder_suffix) idx
    then true
    else path_covers index (t.dynamic_aos ++ (b'/' ∷ (int_to_string idx ++ t.remainder_suffix))) idx

-- The loop down from `i` to 0; `none` stands for -1.
unfoldable pub scan_down : (ℕ → Bool) → ℕ → Option ℕ
scan_down at zero = if at zero then some zero else none
scan_down at (suc i) = let below = scan_down at i in if at (suc i) then some (suc i) else below

-- The loop up from `i`, for `rounds` rounds.
unfoldable pub scan_up : (ℕ → Bool) → ℕ → ℕ → Option ℕ
scan_up at i zero = none
scan_up at i (suc rounds) = let above = scan_up at (suc i) rounds in if at i then some i else above

or_else : Option ℕ → Option ℕ → Option ℕ
or_else none b = b
or_else (some a) b = some a

-- The side that is preferred, or the nearer in time, and the smaller index where neither is nearer.
unfoldable pub prefer : (ℕ → ℕ → Bool) → ℤ → Option ℕ → Option ℕ → Option ℕ
unfolding or_else
prefer closer (negsuc direction) highest_below lowest_above = or_else highest_below lowest_above
prefer closer (pos (suc direction)) highest_below lowest_above = or_else lowest_above highest_below
prefer closer (pos zero) none lowest_above = lowest_above
prefer closer (pos zero) (some below) none = some below
prefer closer (pos zero) (some below) (some above) =
    if closer above below then some above else some below

is_dead : ℕ → Option ℕ → Bool
is_dead nb none = false
is_dead nb (some n) = n == nb

-- What the two scans come to; where both found nothing, the signal is entered as one without slices.
answer : (ℕ → ℕ → Bool) → Dict ℕ → Text → ℕ → ℤ → ℕ → Option ℕ → Option ℕ → Option ℕ × Dict ℕ
unfolding prefer
answer closer no_slice full_path requested_idx prefer_direction nb none none = (
  none,
  if ltb 0 nb && leb requested_idx (nb - 1) then assign full_path nb no_slice else no_slice,
)
answer closer no_slice full_path requested_idx prefer_direction nb (some below) lowest_above =
    (prefer closer prefer_direction (some below) lowest_above, no_slice)
answer closer no_slice full_path requested_idx prefer_direction nb none (some above) =
    (prefer closer prefer_direction none (some above), no_slice)

-- nearestAvailableSliceIndex of a request that is not negative, on a time base of `nb` samples.
-- `closer a b` says that the sample `a` is nearer in time to the request than `b`.
-- The answer -1 is `none`. The table of signals without any slice is an argument and a result: it has been
-- emptied where the decode it was made for is not the one in the index.
unfoldable pub nearest_available_slice_index :
    (ℕ → ℕ → Bool) → Index → Dict ℕ → Text → ℕ → ℤ → ℕ → Option ℕ × Dict ℕ
unfolding scan_down scan_up is_dead answer available find_target
nearest_available_slice_index closer index no_slice full_path requested_idx prefer_direction nb =
    let t = find_target full_path index.cached_dynamic_aos_roots in
    let hi = nb - 1 in
    let at : ℕ → Bool = λ i. available index t (pos i) in
    let highest_below = scan_down at requested_idx in
    let lowest_above =
      (if leb requested_idx hi then scan_up at requested_idx (hi + 1 - requested_idx) else none) in
    if is_dead nb (lookup full_path no_slice)
    then (none, no_slice)
    else if not (target_live index t) && not (generic_live index t) && is_empty t.dynamic_aos
    then (none, no_slice)
    else if at requested_idx
    then (some requested_idx, no_slice)
    else answer closer no_slice full_path requested_idx prefer_direction nb highest_below
        lowest_above
