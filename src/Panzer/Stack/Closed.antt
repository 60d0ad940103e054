-- ===== src/Panzer/Stack/Closed.antt =====
-- endArray, the element index and the cached path keep the stack's invariant.
use imas_core.Prelude.{
  ℕ, true, false, List, [], ◌∷◌, Text, ◌≡◌, refl, sym, ◌∙◌, subst, arith, ◌+◌, ◌&&◌, text_eq_self,
  text_eq, if◌then◌else◌,
}
use imas_core.Panzer.Types.{ArrayLevel, PanzerDb}
use imas_core.Panzer.Path.Build.{stack_path}
use imas_core.Panzer.Stack.Cursors.{Cursor, cursor}
use imas_core.Panzer.Stack.Invariant.{StackInv}
use imas_core.Panzer.Stack.{
  find_dynamic_aos_path, end_array, end_level, increment_array_index, set_current_array_index,
  get_dynamic_aos_path, bump_back, set_back_index,
}

-- The counts and the index of a level have no part in its path.
abbrev retop : ArrayLevel → ℕ → ℕ → ArrayLevel
retop top index count = record top { current_index = index; actual_count = count }

stack_path-retop :
    (top : ArrayLevel) (levels : List ArrayLevel) (index count : ℕ)
    → stack_path (retop top index count ∷ levels) ≡ stack_path (top ∷ levels)
stack_path-retop top [] index count = refl
stack_path-retop top (under ∷ levels) index count = refl

abbrev restacked : Cursor → List ArrayLevel → Cursor
restacked c stack = record c { array_stack = stack }

retop-StackInv :
    (c : Cursor) (top : ArrayLevel) (levels : List ArrayLevel) (index count : ℕ)
    → StackInv (restacked c (top ∷ levels))
    → StackInv (restacked c (retop top index count ∷ levels))
retop-StackInv c top levels index count v = record {
  named = v.named;
  prefix = v.prefix ∙ sym (stack_path-retop top levels index count);
  names = v.names;
  saved = v.saved;
  dynamic = v.dynamic;
  single = v.single;
  full = ((λ d. v.full.0 d ∙ sym (stack_path-retop top levels index count)), v.full.1);
  cached = λ h. v.cached h ∙ (unfold find_dynamic_aos_path in refl);
}

abbrev popped : Cursor → ArrayLevel → List Text → List ArrayLevel → Cursor
popped c level names levels = record c {
  array_stack = levels;
  current_path = names;
  path_prefix = level.saved_path_prefix;
  dynamic_level =
      (if level.is_dynamic && text_eq level.name c.dynamic_level then [] else c.dynamic_level);
  dynamic_aos_path_valid = false;
}

popped-StackInv :
    (c : Cursor) (level : ArrayLevel) (name : Text) (names : List Text) (levels : List ArrayLevel)
    → c.current_path ≡ name ∷ names
    → StackInv (restacked c (level ∷ levels))
    → StackInv (popped c level names levels)
popped-StackInv c level name names levels e v = record {
  named = v.named.1;
  prefix = v.saved.0;
  names = cc (e, v.names);
  saved = v.saved.1;
  dynamic = ground (arith, v.dynamic, v.single.0, text_eq_self level.name);
  single = v.single.1;
  full = v.full.1;
  cached = λ h. cc;
}

end_level-StackInv :
    (p : PanzerDb) (names : List Text) (levels : List ArrayLevel)
    → p.current_path ≡ names
    → StackInv (restacked (cursor p) levels)
    → p.array_stack ≡ levels
    → StackInv (cursor (end_level p names levels))
unfolding end_level
end_level-StackInv p [] levels e v f = subst (λ s. StackInv (restacked (cursor p) s)) (sym f) v
end_level-StackInv p (name ∷ names) [] e v f =
    subst (λ s. StackInv (restacked (cursor p) s)) (sym f) v
end_level-StackInv p (name ∷ names) (level ∷ []) e v f =
    popped-StackInv (cursor p) level name names [] e v
end_level-StackInv p (name ∷ names) (level ∷ under ∷ levels) e v f =
    retop-StackInv (popped (cursor p) level names []) under levels under.current_index _
      (popped-StackInv (cursor p) level name names (under ∷ levels) e v)

-- endArray keeps the stack's invariant: it closes the level on top, restores the prefix, frees the
-- dynamic level, and changes nothing where no level is open.
pub end_array-StackInv : (p : PanzerDb) → StackInv (cursor p) → StackInv (cursor (end_array p))
unfolding end_array
end_array-StackInv p v = end_level-StackInv p p.current_path p.array_stack refl v refl

bump_back-StackInv :
    (c : Cursor) (levels : List ArrayLevel)
    → StackInv (restacked c levels)
    → StackInv (restacked c (bump_back levels))
bump_back-StackInv c [] v = v
bump_back-StackInv c (top ∷ levels) v =
    retop-StackInv c top levels (top.current_index + 1) top.actual_count v

-- incrementArrayIndex keeps the stack's invariant.
pub increment_array_index-StackInv :
    (p : PanzerDb) → StackInv (cursor p) → StackInv (cursor (increment_array_index p))
unfolding increment_array_index
increment_array_index-StackInv p v = bump_back-StackInv (cursor p) p.array_stack v

set_back_index-StackInv :
    (c : Cursor) (i : ℕ) (levels : List ArrayLevel)
    → StackInv (restacked c levels)
    → StackInv (restacked c (set_back_index i levels))
set_back_index-StackInv c i [] v = v
set_back_index-StackInv c i (top ∷ levels) v = retop-StackInv c top levels i top.actual_count v

-- setCurrentArrayIndex keeps the stack's invariant.
pub set_current_array_index-StackInv :
    (i : ℕ) (p : PanzerDb) → StackInv (cursor p) → StackInv (cursor (set_current_array_index i p))
unfolding set_current_array_index
set_current_array_index-StackInv i p v = set_back_index-StackInv (cursor p) i p.array_stack v

-- Where the stack's invariant holds, getDynamicAOSPath with its cache returns what the search of
-- the stack returns, and keeps the invariant.
pub get_dynamic_aos_path-find :
    (p : PanzerDb)
    → StackInv (cursor p)
    → ((get_dynamic_aos_path p).0 ≡ find_dynamic_aos_path p.array_stack)
      × StackInv (cursor (get_dynamic_aos_path p).1)
unfolding get_dynamic_aos_path
get_dynamic_aos_path-find p v = (
  ground (arith, v.cached),
  elim p.dynamic_aos_path_valid
      as (λ b. StackInv (
        cursor
          (if◌then◌else◌ {A = Text × PanzerDb} b (p.cached_dynamic_aos_path, p)
            (
              find_dynamic_aos_path p.array_stack,
              record p {
                cached_dynamic_aos_path = find_dynamic_aos_path p.array_stack;
                dynamic_aos_path_valid = true;
              },
            )).1)) [
              | true ↦ v
              | false ↦ record {
                named = v.named;
                prefix = v.prefix;
                names = v.names;
                saved = v.saved;
                dynamic = v.dynamic;
                single = v.single;
                full = v.full;
                cached = λ h. refl;
              }
            ],
)
