-- ===== src/Panzer/Stack/Cursors.antt =====
-- The members that say where the engine stands, and what opening a level does to them.
use imas_core.Prelude.{
  ℕ, Bool, List, [], ◌∷◌, Option, none, some, Text, Result, ok, ◌≡◌, refl, ap, sym, ◌∙◌, arith,
  if◌then◌else◌,
}
use imas_core.Panzer.Types.{ArrayLevel, PanzerDb, continue-eq-ok, raise_if-eq-ok}
use imas_core.Panzer.Append.{append_index_row, intern_path}
use imas_core.Panzer.Stack.{
  container_row, existing_rows, push_level, begin_array_level, open_level, level_path,
}

-- The members of the engine that describe where it stands.
pub record Cursor : Type 0 where
  pub dynamic_level : Text
  pub current_path : List Text
  pub path_prefix : Text
  pub array_stack : List ArrayLevel
  pub cached_dynamic_aos_path : Text
  pub dynamic_aos_path_valid : Bool

abbrev pub cursor : PanzerDb → Cursor
cursor p = record {
  dynamic_level = p.dynamic_level;
  current_path = p.current_path;
  path_prefix = p.path_prefix;
  array_stack = p.array_stack;
  cached_dynamic_aos_path = p.cached_dynamic_aos_path;
  dynamic_aos_path_valid = p.dynamic_aos_path_valid;
}

pub append_index_row-cursor :
    (full_path : Text) (shape : List ℕ) (time_idx offset count flags parent_id : ℕ) (p : PanzerDb)
    → cursor (append_index_row full_path shape time_idx offset count flags parent_id p).1 ≡ cursor p
unfolding append_index_row intern_path
append_index_row-cursor full_path shape time_idx offset count flags parent_id p = ground arith

container_row-cursor :
    (p : PanzerDb) (level : ArrayLevel) (path : Text) (rows : Option (List ℕ)) (q : PanzerDb)
    → cursor (container_row p level path rows q).1 ≡ cursor q
unfolding container_row
container_row-cursor p level path none q = append_index_row-cursor _ _ _ _ _ _ _ q
container_row-cursor p level path (some []) q = refl
container_row-cursor p level path (some (row ∷ rows)) q = refl

-- The cursor behind a level that was opened.
abbrev pub pushed : ArrayLevel → PanzerDb → ℕ → Cursor
pushed level p row = record {
  dynamic_level = (if level.is_dynamic then level.name else p.dynamic_level);
  current_path = level.name ∷ p.current_path;
  path_prefix = level_path p.path_prefix p.array_stack level.name;
  array_stack = record level { container_row_id = row } ∷ p.array_stack;
  cached_dynamic_aos_path = p.cached_dynamic_aos_path;
  dynamic_aos_path_valid = p.dynamic_aos_path_valid;
}

abbrev with_dynamic_level : ArrayLevel → PanzerDb → PanzerDb
with_dynamic_level level p = if level.is_dynamic then record p { dynamic_level = level.name } else p

push_level-cursor :
    (level : ArrayLevel) (p r q : PanzerDb) (row : ℕ)
    → cursor r ≡ cursor (with_dynamic_level level p)
    → push_level level (level_path p.path_prefix p.array_stack level.name) row r ≡ (ok tt, q)
    → cursor q ≡ pushed level p row
unfolding push_level
push_level-cursor level p r q row e h = ground arith

open_level-cursor :
    (level : ArrayLevel) (p q : PanzerDb)
    → open_level level p p ≡ (ok tt, q)
    → (row : ℕ) × (cursor q ≡ pushed level p row)
unfolding open_level
open_level-cursor level p q h =
    let path = level_path p.path_prefix p.array_stack level.name in
    let p' = with_dynamic_level level p in
    let m = container_row p level path (existing_rows p path) p' in
    let (row, r, e, h') = continue-eq-ok m (λ row. push_level level path row) h in
    let kept : cursor r ≡ cursor p' =
      ap (λ (t : Result ℕ × PanzerDb). cursor t.1) (sym e)
      ∙ container_row-cursor p level path _ p' in
    (row, push_level-cursor level p r q row kept h')

pub begin_array_level-cursor :
    (level : ArrayLevel) (p q : PanzerDb)
    → begin_array_level level p ≡ (ok tt, q)
    → (row : ℕ) × (cursor q ≡ pushed level p row)
unfolding begin_array_level
begin_array_level-cursor level p q h =
    open_level-cursor level p q (raise_if-eq-ok _ _ (open_level level p) p h).1
