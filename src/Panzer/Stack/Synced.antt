-- ===== src/Panzer/Stack/Synced.antt =====
-- synchronizeArrayStack moves the element indices and keeps the prefix with them.
use mathlib.Core.List.{reverse, reverse_aux, reverse-reverse}
use imas_core.Prelude.{Bool, List, [], ◌∷◌, Text, ◌≡◌, refl, sym, ap, ◌∙◌, arith, map}
use imas_core.Prelude.Int.{ℤ}
use imas_core.Panzer.Types.{OpenMode, ArrayLevel, PanzerDb}
use imas_core.Panzer.Path.Build.{stack_path, build_path_from_stack-stack_path}
use imas_core.Panzer.Stack.{sync_level, sync_levels, synchronize_array_stack}

-- What the rounds leave alone in a level.
abbrev pub frame : ArrayLevel → Text × Text × Bool × Text
frame level = (level.name, level.saved_path_prefix, level.is_dynamic, level.aos_full_path)

sync_level-frame :
    (mode : OpenMode) (level : ArrayLevel) (name : Text) (index : ℤ)
    → frame (sync_level mode level name index) ≡ frame level
unfolding sync_level
sync_level-frame mode level name index = ground arith

sync_levels-frame :
    (mode : OpenMode) (levels : List ArrayLevel) (names : List Text) (indices : List ℤ)
    → map frame (sync_levels mode levels names indices) ≡ map frame levels
unfolding sync_levels
sync_levels-frame mode [] names indices = refl
sync_levels-frame mode (level ∷ levels) [] indices = refl
sync_levels-frame mode (level ∷ levels) (name ∷ names) [] = refl
sync_levels-frame mode (level ∷ levels) (name ∷ names) (index ∷ indices) =
    ground
      (arith, sync_level-frame mode level name index, sync_levels-frame mode levels names indices)

map-reverse_aux :
    (levels behind : List ArrayLevel)
    → map frame (reverse_aux levels behind) ≡ reverse_aux (map frame levels) (map frame behind)
map-reverse_aux [] behind = refl
map-reverse_aux (level ∷ levels) behind = map-reverse_aux levels (level ∷ behind)

synced-frame :
    (mode : OpenMode) (stack : List ArrayLevel) (names : List Text) (indices : List ℤ)
    → map frame (reverse (sync_levels mode (reverse stack) names indices)) ≡ map frame stack
synced-frame mode stack names indices =
    map-reverse_aux (sync_levels mode (reverse stack) names indices) []
    ∙ ap reverse (sync_levels-frame mode (reverse stack) names indices)
    ∙ sym (map-reverse_aux (reverse stack) [])
    ∙ ap (map frame) (reverse-reverse stack)

-- Where path_prefix is the path of the stack, it is so behind synchronizeArrayStack too, whether
-- it changes an index, changes none or throws, and the levels keep their names, saved prefixes,
-- kinds and full paths.
pub synchronize_array_stack-prefix :
    (names : List Text) (indices : List ℤ) (p : PanzerDb)
    → p.path_prefix ≡ stack_path p.array_stack
    → ((synchronize_array_stack names indices p).1.path_prefix
        ≡ stack_path (synchronize_array_stack names indices p).1.array_stack)
      × (map frame (synchronize_array_stack names indices p).1.array_stack
          ≡ map frame p.array_stack)
unfolding synchronize_array_stack
synchronize_array_stack-prefix names indices p h = ground (
  arith,
  build_path_from_stack-stack_path
      (reverse (sync_levels p.mode (reverse p.array_stack) names indices)),
  synced-frame p.mode p.array_stack names indices,
)
