-- ===== src/Tests/Nearest.antt =====
-- The slice that stands in for one that a signal does not have.
use imas_core.Prelude.{
  ℕ, ◌-◌, ◌+◌, Bool, List, [], ◌∷◌, some, Option, Dict, ◌≡◌, refl, arith, ltb, codes, lookup, none,
}
use imas_core.Prelude.Int.{pos, negsuc}
use imas_core.Panzer.Nearest.{nearest_available_slice_index, available, find_target}
use imas_core.Panzer.Nearest.Choice.{Answers, Sound, nearest_available_slice_index-Answers}
use imas_core.Tests.Index.{ip_index}

-- Steps as times, for a request of the step 2.
abbrev closer : ℕ → ℕ → Bool
closer a b = ltb ((a - 2) + (2 - a)) ((b - 2) + (2 - b))

empty_table-Sound : Sound ip_index []
unfolding lookup
empty_table-Sound path n j e h = cc

nearest_available_slice_index-Answers_example :
    Answers closer
      (λ i. available ip_index (find_target (codes "ip") []) (pos i))
      2
      6
      (pos 0)
      (nearest_available_slice_index closer ip_index [] (codes "ip") 2 (pos 0) 6).0
    × Sound ip_index (nearest_available_slice_index closer ip_index [] (codes "ip") 2 (pos 0) 6).1
nearest_available_slice_index-Answers_example =
    nearest_available_slice_index-Answers closer ip_index [] empty_table-Sound (codes "ip") 2 6
      (pos 0)

nearest_test :
    (nearest_available_slice_index closer ip_index [] (codes "ip") 2 (pos 0) 6).0 ≡ some 1
unfolding nearest_available_slice_index lookup imas_core.Panzer.Nearest.path_has_rows
    imas_core.Prelude.text_eq imas_core.Panzer.Lookup.rows_for_time
    imas_core.Panzer.Lookup.is_time_in_leaf imas_core.Panzer.Lookup.time_steps
    imas_core.Panzer.Lookup.slice_volume_from
nearest_test = refl

above_test : (nearest_available_slice_index closer ip_index [] (codes "ip") 2 (pos 1) 6).0 ≡ some 4
unfolding nearest_available_slice_index lookup imas_core.Panzer.Nearest.path_has_rows
    imas_core.Prelude.text_eq imas_core.Panzer.Lookup.rows_for_time
    imas_core.Panzer.Lookup.is_time_in_leaf imas_core.Panzer.Lookup.time_steps
    imas_core.Panzer.Lookup.slice_volume_from
above_test = refl

absent_test :
    nearest_available_slice_index closer ip_index [] (codes "none") 2 (negsuc 0) 6 ≡ (none, [])
unfolding nearest_available_slice_index lookup imas_core.Panzer.Nearest.path_has_rows
    imas_core.Prelude.text_eq
absent_test = refl
