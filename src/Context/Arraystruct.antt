-- ===== src/Context/Arraystruct.antt =====
-- ArraystructContext of src/al_context.cpp. Pointers are uids; the parent of a top-most array of
-- structures is `none`.
use imas_core.Prelude.{ℕ, suc, Bool, not, Option, none, some, Text, is_empty}
use imas_core.Prelude.Int.{ℤ, pos, ◌+ℤ◌}

pub record ArraystructContext : Type 0 where
  pub path : Text
  pub timebase : Text
  pub parent : Option ℕ
  pub index : ℤ
  pub opctx : ℕ
  pub uid : ℕ

-- The constructor below an operation.
unfoldable pub topmost_arraystruct : ℕ → ℕ → Text → Text → ArraystructContext
topmost_arraystruct sid ctx p tb = record {
  path = p;
  timebase = tb;
  parent = none;
  index = pos 0;
  opctx = ctx;
  uid = suc sid;
}

-- The constructors below an array of structures, which is never NULL: its operation is read before the
-- test. The index is given, or 0.
unfoldable pub nested_arraystruct : ℕ → ArraystructContext → Text → Text → ℤ → ArraystructContext
nested_arraystruct sid cont p tb idx = record {
  path = p;
  timebase = tb;
  parent = some cont.uid;
  index = idx;
  opctx = cont.opctx;
  uid = suc sid;
}

-- ArraystructContext::getTimed.
unfoldable pub get_timed : ArraystructContext → Bool
get_timed c = not (is_empty c.timebase)

-- ArraystructContext::nextIndex.
unfoldable pub next_index : ℤ → ArraystructContext → ArraystructContext
unfolding ◌+ℤ◌
next_index step c = record c { index = c.index +ℤ step }
