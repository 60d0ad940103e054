-- ===== src/Panzer/Stack/Invariant.antt =====
-- The stack's invariant: what the prefixes, the names and the dynamic level have to do with it.
use imas_core.Prelude.{true, List, [], ◌∷◌, map, Text, ◌≡◌, ◌≢◌, All, if◌then◌else◌}
use imas_core.Panzer.Types.{ArrayLevel}
use imas_core.Panzer.Path.Build.{stack_path}
use imas_core.Panzer.Stack.Cursors.{Cursor}
use imas_core.Panzer.Stack.{find_dynamic_aos_path}

-- The name of the dynamic level nearest to the top.
abbrev pub dynamic_name : List ArrayLevel → Text
dynamic_name [] = []
dynamic_name (level ∷ levels) = if level.is_dynamic then level.name else dynamic_name levels

-- Every level remembers the path of the levels under it.
abbrev pub SavedPrefixes : List ArrayLevel → Type 0
SavedPrefixes [] = Unit {0}
SavedPrefixes (level ∷ levels) =
    (level.saved_path_prefix ≡ stack_path levels) × SavedPrefixes levels

-- No dynamic level is open under a dynamic level.
abbrev pub SingleDynamic : List ArrayLevel → Type 0
SingleDynamic [] = Unit {0}
SingleDynamic (level ∷ levels) =
    (level.is_dynamic ≡ true → dynamic_name levels ≡ []) × SingleDynamic levels

-- A dynamic level remembers its own path.
abbrev pub FullPaths : List ArrayLevel → Type 0
FullPaths [] = Unit {0}
FullPaths (level ∷ levels) =
    (level.is_dynamic ≡ true → level.aos_full_path ≡ stack_path (level ∷ levels)) × FullPaths levels

pub record StackInv (c : Cursor) : Type 0 where
  pub named : All (λ (level : ArrayLevel). level.name ≢ []) c.array_stack
  pub prefix : c.path_prefix ≡ stack_path c.array_stack
  pub names : c.current_path ≡ map (λ (level : ArrayLevel). level.name) c.array_stack
  pub saved : SavedPrefixes c.array_stack
  pub dynamic : c.dynamic_level ≡ dynamic_name c.array_stack
  pub single : SingleDynamic c.array_stack
  pub full : FullPaths c.array_stack
  pub cached :
      c.dynamic_aos_path_valid ≡ true
      → c.cached_dynamic_aos_path ≡ find_dynamic_aos_path c.array_stack
