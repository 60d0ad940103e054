-- ===== src/Panzer/Stack/Opened.antt =====
-- Both beginArray calls keep the stack's invariant.
use imas_core.Prelude.{
  ℕ, true, false, List, [], ◌∷◌, ◌++◌, Text, ok, ◌≡◌, ◌≢◌, refl, ap, sym, ◌∙◌, subst, arith, All,
  Result, not, is_empty, to_string, append_assoc,
}
use imas_core.Panzer.Types.{ArrayLevel, PanzerDb, ◌>>◌, continue, continue-eq-ok, raise_if-eq-ok}
use imas_core.Panzer.Path.Build.{stack_path}
use imas_core.Panzer.Stack.Cursors.{Cursor, cursor, pushed, begin_array_level-cursor}
use imas_core.Panzer.Stack.Invariant.{StackInv}
use imas_core.Panzer.Stack.{
  level_path, begin_array_level, begin_array_sized, begin_array_timed, invalidate_dynamic_aos_cache,
  start_counter, sized_level, untimed_level, timed_level, begin_dynamic, open_dynamic,
}

is_empty_cons : (xs : Text) → xs ≢ [] → is_empty xs ≡ false
is_empty_cons [] h = absurd (h refl)
is_empty_cons (x ∷ xs) h = refl

is_empty-append : (xs : Text) (c : ℕ) (ys : Text) → is_empty (xs ++ (c ∷ ys)) ≡ false
is_empty-append [] c ys = refl
is_empty-append (x ∷ xs) c ys = refl

is_empty-append_left : (xs ys : Text) → is_empty xs ≡ false → is_empty (xs ++ ys) ≡ false
is_empty-append_left [] ys h = cc
is_empty-append_left (x ∷ xs) ys h = refl

stack_path-not-empty :
    (level : ArrayLevel) (levels : List ArrayLevel)
    → level.name ≢ []
    → is_empty (stack_path (level ∷ levels)) ≡ false
stack_path-not-empty level [] h = is_empty_cons level.name h
stack_path-not-empty level (under ∷ levels) h = is_empty-append (stack_path (under ∷ levels)) _ _

-- The path that beginArray computes is the path of the stack with the new level.
level_path-stack_path :
    (level : ArrayLevel) (levels : List ArrayLevel)
    → All (λ (l : ArrayLevel). l.name ≢ []) levels
    → level_path (stack_path levels) levels level.name ≡ stack_path (level ∷ levels)
level_path-stack_path level [] h = refl
level_path-stack_path level (under ∷ levels) h =
    let path = stack_path (under ∷ levels) in
    rw (stack_path-not-empty under levels h.0) (
      rw
        (is_empty-append_left (path ++ (b'/' ∷ [])) (to_string under.current_index)
          (is_empty-append path b'/' []))
        (simp append_assoc))

abbrev closed_cache : Cursor → Cursor
closed_cache c = record c { dynamic_aos_path_valid = false }

pushed-StackInv :
    (level : ArrayLevel) (p : PanzerDb) (row : ℕ)
    → StackInv (cursor p)
    → level.name ≢ []
    → level.saved_path_prefix ≡ p.path_prefix
    → (level.is_dynamic ≡ true
        → (p.dynamic_level ≡ [])
          × (level.aos_full_path ≡ level_path p.path_prefix p.array_stack level.name))
    → StackInv (closed_cache (pushed level p row))
pushed-StackInv level p row v n s d = record {
  named = (n, v.named);
  prefix = path_of;
  names = ap (λ t. level.name ∷ t) v.names;
  saved = (s ∙ v.prefix, v.saved);
  dynamic = ground (arith, v.dynamic);
  single = ((λ h. sym v.dynamic ∙ (d h).0), v.single);
  full = ((λ h. (d h).1 ∙ path_of), v.full);
  cached = λ h. cc;
}
  where
    path_of :
        level_path p.path_prefix p.array_stack level.name
        ≡ stack_path (record level { container_row_id = row } ∷ p.array_stack)
    path_of =
        rw v.prefix
          (level_path-stack_path (record level { container_row_id = row }) p.array_stack v.named)

-- Either beginArray ends like this; `p` is the engine on entry, `p'` the one that is passed on.
opened-StackInv :
    (level : ArrayLevel) (p p' q : PanzerDb)
    → ((row : ℕ) → pushed level p' row ≡ pushed level p row)
    → StackInv (cursor p)
    → level.name ≢ []
    → level.saved_path_prefix ≡ p.path_prefix
    → (level.is_dynamic ≡ true
        → (p.dynamic_level ≡ [])
          × (level.aos_full_path ≡ level_path p.path_prefix p.array_stack level.name))
    → (begin_array_level level >> invalidate_dynamic_aos_cache) p' ≡ (ok tt, q)
    → StackInv (cursor q)
opened-StackInv level p p' q same v n s d h =
    let (_, r, e, h') =
      continue-eq-ok (begin_array_level level p') (λ _. invalidate_dynamic_aos_cache) h in
    let (row, e') = begin_array_level-cursor level p' r e in
    let closed : closed_cache (pushed level p row) ≡ cursor q =
      ap closed_cache (sym (same row) ∙ sym e')
      ∙ ap (λ (t : Result (Unit {0}) × PanzerDb). cursor t.1) h' in
    subst StackInv closed (pushed-StackInv level p row v n s d)

-- A beginArray(name, size) that returns keeps the stack's invariant, where the name is not empty.
pub begin_array_sized-StackInv :
    (name : Text) (size : ℕ) (p q : PanzerDb)
    → StackInv (cursor p)
    → name ≢ []
    → begin_array_sized name size p ≡ (ok tt, q)
    → StackInv (cursor q)
unfolding begin_array_sized
begin_array_sized-StackInv name size p q v n h =
    opened-StackInv (sized_level p name size) p p q (λ row. refl) v n refl (λ d. cc) h

pushed_same :
    (level : ArrayLevel) (name path : Text) (p : PanzerDb) (row : ℕ)
    → level.is_dynamic ≡ true
    → pushed level (start_counter path (record p { dynamic_level = name })) row ≡ pushed level p row
pushed_same level name path p row d = ground arith

dynamic_level-empty : (d : Text) → not (is_empty d) ≡ false → d ≡ []
dynamic_level-empty [] h = refl
dynamic_level-empty (x ∷ d) h = cc

begin_dynamic-StackInv :
    (name timebase : Text) (p q : PanzerDb)
    → StackInv (cursor p)
    → name ≢ []
    → (begin_dynamic name timebase (level_path p.path_prefix p.array_stack name)
          >> invalidate_dynamic_aos_cache)
        p
      ≡ (ok tt, q)
    → StackInv (cursor q)
unfolding begin_dynamic open_dynamic
begin_dynamic-StackInv name timebase p q v n h =
    let path = level_path p.path_prefix p.array_stack name in
    let level = timed_level p name timebase path in
    let p' = start_counter path (record p { dynamic_level = name }) in
    let (_, r, e, h') =
      continue-eq-ok (begin_dynamic name timebase path p) (λ _. invalidate_dynamic_aos_cache) h in
    let (free, opened) = raise_if-eq-ok _ _ (open_dynamic name timebase path p) p e in
    opened-StackInv level p p' q (λ row. pushed_same level name path p row refl) v n refl
      (λ d. (dynamic_level-empty p.dynamic_level free, refl))
      (ap (λ t. continue t (λ _. invalidate_dynamic_aos_cache)) opened ∙ h')

-- A beginArray(name, timebase) that returns keeps the stack's invariant, where the name is not
-- empty: path_prefix is the path of the stack, every level remembers the path under it, at most
-- one level is dynamic, and a valid cache holds the path of the nearest dynamic AoS.
pub begin_array_timed-StackInv :
    (name timebase : Text) (p q : PanzerDb)
    → StackInv (cursor p)
    → name ≢ []
    → begin_array_timed name timebase p ≡ (ok tt, q)
    → StackInv (cursor q)
unfolding begin_array_timed
begin_array_timed-StackInv name [] p q v n h =
    opened-StackInv (untimed_level p name []) p p q (λ row. refl) v n refl (λ d. cc) h
begin_array_timed-StackInv name (c ∷ timebase) p q v n h =
    begin_dynamic-StackInv name (c ∷ timebase) p q v n h
