-- ===== src/Tests/Stack.antt =====
-- The stack of AoS levels at a concrete engine.
use imas_core.Prelude.{
  [], ◌∷◌, ◌++◌, true, ok, ◌≡◌, refl, codes, lookup, assign, map, none, to_string, find,
  starts_with, text_eq,
}
use imas_core.Prelude.Int.{pos}
use imas_core.Panzer.Types.{PanzerDb}
use imas_core.Panzer.Append.{append_index_row, intern_path}
use imas_core.Panzer.Row.{pack_row_v3}
use imas_core.Panzer.Path.{build_path_from_stack, parse_path, strip_indices}
use imas_core.Panzer.Path.Build.{stack_path, build_path_from_stack-stack_path}
use imas_core.Panzer.Path.Segments.{
  components, parse_path-element, parse_path-rebuild, join_onto, keep_names, split_from,
  strip_indices-join,
}
use imas_core.Panzer.Stack.{
  begin_array_sized, begin_array_level, begin_array_timed, end_array, set_current_array_index,
  get_dynamic_aos_path, find_dynamic_aos_path, synchronize_array_stack,
}
use imas_core.Panzer.Stack.Cursors.{cursor}
use imas_core.Panzer.Stack.Reach.{StackStep, Reach, closed-Reach-StackInv}
use imas_core.Panzer.Stack.Invariant.{StackInv}
use imas_core.Panzer.Stack.Synced.{frame, synchronize_array_stack-prefix}
use imas_core.Tests.{empty_db}

-- `profiles_1d`, dynamic, is opened, then `ion` in its first element.
abbrev one_open : PanzerDb
one_open = (begin_array_timed (codes "profiles_1d") (codes "time") empty_db).1

abbrev two_open : PanzerDb
two_open = (begin_array_sized (codes "ion") 2 one_open).1

one_open_run : begin_array_timed (codes "profiles_1d") (codes "time") empty_db ≡ (ok tt, one_open)
unfolding begin_array_timed begin_array_level append_index_row intern_path pack_row_v3 lookup assign
    text_eq
one_open_run = refl

two_open_run : begin_array_sized (codes "ion") 2 one_open ≡ (ok tt, two_open)
unfolding begin_array_timed begin_array_sized begin_array_level append_index_row intern_path
    pack_row_v3 lookup assign to_string text_eq
two_open_run = refl

three_steps : Reach empty_db (set_current_array_index 3 (end_array two_open))
three_steps =
    Reach.next
      (Reach.next
        (Reach.next
          (Reach.next Reach.here
            (StackStep.opens_timed (codes "profiles_1d") (codes "time") (λ h. cc) one_open_run))
          (StackStep.opens_sized (codes "ion") 2 (λ h. cc) two_open_run))
        StackStep.closes)
      (StackStep.moves 3)

closed-Reach-StackInv_example :
    StackInv (cursor (set_current_array_index 3 (end_array two_open)))
    × ((get_dynamic_aos_path (set_current_array_index 3 (end_array two_open))).0
        ≡ find_dynamic_aos_path (set_current_array_index 3 (end_array two_open)).array_stack)
closed-Reach-StackInv_example =
    closed-Reach-StackInv empty_db (set_current_array_index 3 (end_array two_open)) refl three_steps

-- What the search finds there.
dynamic_path_test : (get_dynamic_aos_path two_open).0 ≡ codes "profiles_1d"
unfolding get_dynamic_aos_path find_dynamic_aos_path begin_array_timed begin_array_sized
    begin_array_level append_index_row intern_path pack_row_v3 lookup assign to_string text_eq
dynamic_path_test = refl

prefix_test : two_open.path_prefix ≡ codes "profiles_1d/0/ion"
unfolding begin_array_timed begin_array_sized begin_array_level append_index_row intern_path
    pack_row_v3 lookup assign to_string text_eq
prefix_test = refl

no_slash : find b'/' (codes "12") ≡ none
unfolding find
no_slash = refl

parse_path-element_example :
    parse_path (codes "ion" ++ (b'/' ∷ (codes "12" ++ (b'/' ∷ codes "z")))) (codes "ion")
    ≡ components (codes "ion") (codes "12") (b'/' ∷ codes "z")
parse_path-element_example = parse_path-element (codes "ion") (codes "12") (codes "z") no_slash

accepted : (parse_path (codes "ion/12") (codes "ion")).has_index ≡ true
unfolding parse_path starts_with find
accepted = refl

parse_path-rebuild_example :
    codes "ion/12"
    ≡ codes "ion"
      ++ (b'/'
          ∷ ((parse_path (codes "ion/12") (codes "ion")).index_str
              ++ (parse_path (codes "ion/12") (codes "ion")).suffix))
parse_path-rebuild_example = parse_path-rebuild (codes "ion/12") (codes "ion") accepted

build_path_from_stack-stack_path_example :
    build_path_from_stack two_open.array_stack ≡ stack_path two_open.array_stack
build_path_from_stack-stack_path_example = build_path_from_stack-stack_path two_open.array_stack

strip_indices-join_example :
    strip_indices (codes "ion/0//z/12")
    ≡ join_onto [] (keep_names (split_from [] (codes "ion/0//z/12")))
strip_indices-join_example = strip_indices-join (codes "ion/0//z/12")

strip_test : strip_indices (codes "ion/0//z/12") ≡ codes "ion/z"
unfolding strip_indices
strip_test = refl

two_open_prefix : two_open.path_prefix ≡ stack_path two_open.array_stack
unfolding begin_array_timed begin_array_sized begin_array_level append_index_row intern_path
    pack_row_v3 lookup assign to_string text_eq
two_open_prefix = refl

synchronize_array_stack-prefix_example :
    ((synchronize_array_stack (codes "profiles_1d" ∷ []) (pos 3 ∷ []) two_open).1.path_prefix
      ≡ stack_path
          (synchronize_array_stack (codes "profiles_1d" ∷ []) (pos 3 ∷ []) two_open).1.array_stack)
    × (map frame
          (synchronize_array_stack (codes "profiles_1d" ∷ []) (pos 3 ∷ []) two_open).1.array_stack
        ≡ map frame two_open.array_stack)
synchronize_array_stack-prefix_example =
    synchronize_array_stack-prefix (codes "profiles_1d" ∷ []) (pos 3 ∷ []) two_open two_open_prefix

-- The prefix moves with the index.
synced_test :
    (synchronize_array_stack (codes "profiles_1d" ∷ []) (pos 3 ∷ []) two_open).1.path_prefix
    ≡ codes "profiles_1d/3/ion"
unfolding synchronize_array_stack begin_array_sized begin_array_timed lookup text_eq
    append_index_row intern_path pack_row_v3 assign build_path_from_stack to_string
synced_test = refl

abbrev three_open : PanzerDb
three_open = (begin_array_sized (codes "charge") 1 two_open).1

-- The element of `profiles_1d` is moved, and `charge` closed: the prefix that endArray restores is the
-- one from before the move.
stale_test :
    (end_array
      (synchronize_array_stack (codes "profiles_1d" ∷ []) (pos 3 ∷ []) three_open).1).path_prefix
    ≡ codes "profiles_1d/0/ion"
unfolding synchronize_array_stack end_array begin_array_sized begin_array_timed lookup text_eq
    append_index_row intern_path pack_row_v3 assign to_string
stale_test = refl
