-- ===== src/Panzer/Path/Build.antt =====
-- The path of a stack described from its top down, and the loop that agrees with it.
use mathlib.Core.List.{reverse, reverse-cons}
use imas_core.Prelude.{
  List, [], ◌∷◌, ◌++◌, ◌≡◌, refl, sym, ap, ◌∙◌, Text, to_string, append_assoc, is_empty, false,
}
use imas_core.Panzer.Types.{ArrayLevel}
use imas_core.Panzer.Path.{build_loop, build_vector, build_path_from_stack}

-- What a level adds: the index of the level under it, and its own name.
abbrev pub level_suffix : ArrayLevel → ArrayLevel → Text
level_suffix under level = b'/' ∷ (to_string under.current_index ++ (b'/' ∷ level.name))

abbrev pub stack_path : List ArrayLevel → Text
stack_path [] = []
stack_path (level ∷ []) = level.name
stack_path (level ∷ under ∷ levels) = stack_path (under ∷ levels) ++ level_suffix under level

is_empty-append-cons : (xs : Text) (c : _) (ys : Text) → is_empty (xs ++ (c ∷ ys)) ≡ false
is_empty-append-cons [] c ys = refl
is_empty-append-cons (x ∷ xs) c ys = refl

build_loop-cons :
    (result : Text) (prev level : ArrayLevel) (levels : List ArrayLevel)
    → build_loop result prev (level ∷ levels)
      ≡ build_loop (result ++ level_suffix prev level) level levels
unfolding build_loop
build_loop-cons result prev level levels =
    rw (is_empty-append-cons result b'/' (to_string prev.current_index)) (simp append_assoc)

build_loop-nil : (result : Text) (prev : ArrayLevel) → build_loop result prev [] ≡ result
unfolding build_loop
build_loop-nil result prev = refl

build_loop-append :
    (result : Text) (prev : ArrayLevel) (levels : List ArrayLevel) (under top : ArrayLevel)
    → build_loop result prev ((levels ++ (under ∷ [])) ++ (top ∷ []))
      ≡ build_loop result prev (levels ++ (under ∷ [])) ++ level_suffix under top
build_loop-append result prev [] under top = simp (build_loop-cons, build_loop-nil)
build_loop-append result prev (level ∷ levels) under top =
    simp (build_loop-cons)
      (build_loop-append (result ++ level_suffix prev level) level levels under top)

build_vector-append :
    (levels : List ArrayLevel) (under top : ArrayLevel)
    → build_vector ((levels ++ (under ∷ [])) ++ (top ∷ []))
      ≡ build_vector (levels ++ (under ∷ [])) ++ level_suffix under top
unfolding build_vector
build_vector-append [] under top = simp (build_loop-cons, build_loop-nil)
build_vector-append (level ∷ levels) under top = build_loop-append level.name level levels under top

-- The loop of buildPathFromStack gives the names of the levels from the root up, each behind the
-- index of the level under it.
pub build_path_from_stack-stack_path :
    (stack : List ArrayLevel) → build_path_from_stack stack ≡ stack_path stack
unfolding build_path_from_stack
build_path_from_stack-stack_path [] = refl
build_path_from_stack-stack_path (level ∷ []) = refl
build_path_from_stack-stack_path (level ∷ under ∷ levels) =
    ap build_vector (
      reverse-cons level (under ∷ levels) ∙ ap (λ t. t ++ (level ∷ [])) (reverse-cons under levels))
    ∙ build_vector-append (reverse levels) under level
    ∙ ap (λ t. build_vector t ++ level_suffix under level) (sym (reverse-cons under levels))
    ∙ ap (λ t. t ++ level_suffix under level) (build_path_from_stack-stack_path (under ∷ levels))
