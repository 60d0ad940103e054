-- ===== src/Panzer/Stack/Reach.antt =====
-- The stack over any sequence of calls, from an engine on which no array is open.
use imas_core.Prelude.{ℕ, false, [], Text, ok, ◌≡◌, ◌≢◌, refl, subst, sym}
use imas_core.Panzer.Types.{PanzerDb}
use imas_core.Panzer.Stack.Cursors.{Cursor, cursor}
use imas_core.Panzer.Stack.Invariant.{StackInv}
use imas_core.Panzer.Stack.Opened.{begin_array_sized-StackInv, begin_array_timed-StackInv}
use imas_core.Panzer.Stack.Closed.{
  end_array-StackInv, increment_array_index-StackInv, set_current_array_index-StackInv,
  get_dynamic_aos_path-find,
}
use imas_core.Panzer.Stack.{
  begin_array_sized, begin_array_timed, end_array, increment_array_index, set_current_array_index,
  get_dynamic_aos_path, find_dynamic_aos_path,
}

-- A call that returns. Whatever leaves the members of the stack alone is one step too.
pub data StackStep : PanzerDb → PanzerDb → Type 0 where
  opens_sized :
      {p q : PanzerDb} (name : Text) (size : ℕ)
      → name ≢ []
      → begin_array_sized name size p ≡ (ok tt, q)
      → StackStep p q
  opens_timed :
      {p q : PanzerDb} (name timebase : Text)
      → name ≢ []
      → begin_array_timed name timebase p ≡ (ok tt, q)
      → StackStep p q
  closes : {p : PanzerDb} → StackStep p (end_array p)
  increments : {p : PanzerDb} → StackStep p (increment_array_index p)
  moves : {p : PanzerDb} (i : ℕ) → StackStep p (set_current_array_index i p)
  looks_up : {p : PanzerDb} → StackStep p (get_dynamic_aos_path p).1
  elsewhere : {p q : PanzerDb} → cursor q ≡ cursor p → StackStep p q

pub data Reach (p : PanzerDb) : PanzerDb → Type 0 where
  here : Reach p p
  next : {q r : PanzerDb} → Reach p q → StackStep q r → Reach p r

-- No array is open, and nothing is cached.
abbrev pub closed : Cursor
closed = record {
  dynamic_level = [];
  current_path = [];
  path_prefix = [];
  array_stack = [];
  cached_dynamic_aos_path = [];
  dynamic_aos_path_valid = false;
}

closed-StackInv : StackInv closed
unfolding find_dynamic_aos_path
closed-StackInv = record {
  named = tt;
  prefix = refl;
  names = refl;
  saved = tt;
  dynamic = refl;
  single = tt;
  full = tt;
  cached = λ valid. refl;
}

step-StackInv : {p q : PanzerDb} → StackStep p q → StackInv (cursor p) → StackInv (cursor q)
step-StackInv (StackStep.opens_sized name size n h) v =
    begin_array_sized-StackInv name size _ _ v n h
step-StackInv (StackStep.opens_timed name timebase n h) v =
    begin_array_timed-StackInv name timebase _ _ v n h
step-StackInv StackStep.closes v = end_array-StackInv _ v
step-StackInv StackStep.increments v = increment_array_index-StackInv _ v
step-StackInv (StackStep.moves i) v = set_current_array_index-StackInv i _ v
step-StackInv StackStep.looks_up v = (get_dynamic_aos_path-find _ v).1
step-StackInv (StackStep.elsewhere e) v = subst StackInv (sym e) v

Reach-StackInv : {p q : PanzerDb} → Reach p q → StackInv (cursor p) → StackInv (cursor q)
Reach-StackInv Reach.here v = v
Reach-StackInv (Reach.next r s) v = step-StackInv s (Reach-StackInv r v)

-- From an engine on which no array is open, any sequence of calls that return, beginArray(name,
-- size) and beginArray(name, timebase) with a name that is not empty, endArray,
-- incrementArrayIndex, setCurrentArrayIndex and getDynamicAOSPath, and of steps that leave the
-- members of the stack alone, keeps the stack's invariant: path_prefix is the path of the stack,
-- every level remembers the path under it, at most one level is dynamic, and a valid cache holds
-- the path of the nearest dynamic AoS; so getDynamicAOSPath returns what a search of the stack
-- finds.
pub closed-Reach-StackInv :
    (p q : PanzerDb)
    → cursor p ≡ closed
    → Reach p q
    → StackInv (cursor q) × ((get_dynamic_aos_path q).0 ≡ find_dynamic_aos_path q.array_stack)
closed-Reach-StackInv p q c r =
    let v : StackInv (cursor q) = Reach-StackInv r (subst StackInv (sym c) closed-StackInv) in
    (v, (get_dynamic_aos_path-find q v).0)
