-- ===== src/Lowlevel/Transfer.antt =====
-- The entry points of src/al_lowlevel.cpp that move data and walk arrays of structures, as they run where no
-- plugin is bound.
use imas_core.Prelude.{
  ℕ, zero, suc, not, List, ◌∷◌, Option, none, some, Text, ◌==◌, if◌then◌else◌, Exception,
}
use imas_core.Prelude.Int.{ℤ, pos, negsuc}
use imas_core.Context.Const.{same_int}
use imas_core.Context.Operation.{OperationContext}
use imas_core.Context.Arraystruct.{
  ArraystructContext, topmost_arraystruct, nested_arraystruct, next_index,
}
use imas_core.Lowlevel.Outcome.{Outcome}
use imas_core.Lowlevel.Values.{
  Numbers, Element, Variable, set_default_value, set_value, set_converted_value,
  data_has_non_zero_shape,
}
use imas_core.Lowlevel.Types.{Context, Data, Backend, M, ◌>>=◌, ◌>>◌, return, lift, raise, in_world}
use imas_core.Lowlevel.Actions.{
  begin_status, status, catching, fetch, store_llenv, context_at, backend_at, allocate,
}
use imas_core.Lowlevel.Operations.{delete_context}

module _ {N : Numbers} where
  -- The operation of a new array of structures: NULL below a data entry.
  abbrev pub operation_of : Context N → ℕ
  operation_of (Context.operation c) = c.uid
  operation_of _ = 0

  -- LLenv::create on the counter of uids.
  abbrev pub create_in : ℕ → Context N → Text → Text → ArraystructContext
  create_in sid (Context.arraystruct parent) path timebase =
      nested_arraystruct sid parent path timebase (pos 0)
  create_in sid c path timebase = topmost_arraystruct sid (operation_of c) path timebase

module _ {ω} {N : Numbers} {W : Type ω} where
  abbrev pub create : Context N → Text → Text → M N W ArraystructContext
  create c path timebase s =
      let actx = create_in s.sid c path timebase in
      (
        Outcome.returns actx,
        record s { sid = actx.uid; contexts = (actx.uid, Context.arraystruct actx) ∷ s.contexts },
      )

  abbrev pub as_operation : Context N → M N W (OperationContext N.Double)
  as_operation (Context.operation c) = return c
  as_operation _ = raise Exception.al_lowlevel

  -- static_cast<ArraystructContext *>: nothing is defined for another context.
  abbrev pub as_arraystruct : Context N → M N W ArraystructContext
  as_arraystruct (Context.arraystruct c) = return c
  as_arraystruct _ = lift Outcome.crashes

module _ {ω} (N : Numbers) (W : Type ω) (backend : ℕ → Backend N W) where
  -- The end of al_plugin_begin_arraystruct_action, by the size that the backend gave: an array without
  -- elements is ended and deleted, and the client gets the id 0; its slot in the store is kept.
  abbrev pub sized : ℕ → ℤ → ℕ → ArraystructContext → M N W (ℕ × ℤ)
  sized be (pos zero) id actx = do
    in_world ((backend be).end_action (Context.arraystruct actx))
    delete_context actx.uid
    return (0, pos 0)
  sized be (pos (suc n)) id actx = return (id, pos (suc n))
  sized be (negsuc n) id actx = raise Exception.al_lowlevel

  unfoldable pub begin_arraystruct : ℤ → Text → Text → M N W (ℕ × ℤ)
  begin_arraystruct ctxID path timebase = do
    lle ← fetch ctxID
    c ← context_at lle.context
    actx ← create c path timebase
    be ← backend_at lle.backend
    size ← in_world ((backend be).begin_arraystruct_action actx)
    id ← store_llenv (record { backend = lle.backend; context = actx.uid })
    sized be size id actx

  -- al_plugin_begin_arraystruct_action, and al_begin_arraystruct_action where no plugin is bound: the id
  -- and the size.
  unfoldable pub al_plugin_begin_arraystruct_action : ℤ → Text → Text → M N W (ℤ × Option (ℕ × ℤ))
  unfolding begin_arraystruct
  al_plugin_begin_arraystruct_action ctxID path timebase =
      catching begin_status (begin_arraystruct ctxID path timebase)

  -- al_iterate_over_arraystruct.
  unfoldable pub al_iterate_over_arraystruct : ℤ → ℤ → M N W (ℤ × Option (Unit {0}))
  al_iterate_over_arraystruct aosctxID step = catching begin_status (do
    lle ← fetch aosctxID
    c ← context_at lle.context
    actx ← as_arraystruct c
    allocate lle.context (Context.arraystruct (next_index step actx)))

  -- al_plugin_write_data.
  unfoldable pub al_plugin_write_data :
      ℤ
      → Text
      → Text
      → Option (List (Element N))
      → ℤ
      → ℕ
      → Option (List ℕ)
      → M N W (ℤ × Option (Unit {0}))
  al_plugin_write_data ctxID field timebase data_ datatype dim size = catching status (do
    lle ← fetch ctxID
    be ← backend_at lle.backend
    c ← context_at lle.context
    in_world ((backend be).write_data c field timebase data_ datatype dim size))

  -- al_write_data: data without a value or an element are not written.
  unfoldable pub al_write_data :
      ℤ
      → Text
      → Text
      → Option (List (Element N))
      → ℤ
      → ℕ
      → Option (List ℕ)
      → M N W (ℤ × Option (Unit {0}))
  unfolding al_plugin_write_data
  al_write_data ctxID field timebase data_ datatype dim size =
      if data_has_non_zero_shape datatype data_ dim size
      then al_plugin_write_data ctxID field timebase data_ datatype dim size
      else return (pos 0, some tt)

  -- What al_plugin_read_data makes of the backend's answer.
  abbrev pub hand_over : ℤ → ℕ → List ℕ → Option (Data N) → Outcome (Variable N × List ℕ)
  hand_over datatype dim size none = set_default_value datatype dim size
  hand_over datatype dim size (some data_) =
      if not (data_.dim == dim)
      then Outcome.throws Exception.al_lowlevel
      else if not (same_int data_.datatype datatype)
      then set_converted_value data_.elements data_.datatype data_.dim data_.size datatype
      else sized_value data_.size (set_value data_.elements datatype dim)
    where
      sized_value : List ℕ → Outcome (Variable N) → Outcome (Variable N × List ℕ)
      sized_value size (Outcome.returns v) = Outcome.returns (v, size)
      sized_value size (Outcome.throws e) = Outcome.throws e
      sized_value size Outcome.crashes = Outcome.crashes

  -- al_plugin_read_data, and al_read_data where no plugin is bound.
  unfoldable pub al_plugin_read_data :
      ℤ → Text → Text → ℤ → ℕ → List ℕ → M N W (ℤ × Option (Variable N × List ℕ))
  al_plugin_read_data ctxID field timebase datatype dim size = catching status (do
    lle ← fetch ctxID
    be ← backend_at lle.backend
    c ← context_at lle.context
    answer ← in_world ((backend be).read_data c field timebase datatype dim)
    lift (hand_over datatype dim size answer))

  unfoldable pub al_delete_data : ℤ → Text → M N W (ℤ × Option (Unit {0}))
  al_delete_data octxID field = catching status (do
    lle ← fetch octxID
    c ← context_at lle.context
    octx ← as_operation c
    be ← backend_at lle.backend
    in_world ((backend be).delete_data octx field))
