-- ===== src/Lowlevel/Operations.antt =====
-- The actions on an operation of src/al_lowlevel.cpp: the three that begin one, and al_plugin_end_action.
pub mod Begun
use imas_core.Prelude.{
  ℕ, zero, suc, Bool, true, false, not, ◌&&◌, ◌||◌, List, [], ◌∷◌, Option, none, some, Text, leb,
  ltb, ◌==◌, if◌then◌else◌, Exception, Result, ok, throw,
}
use imas_core.Prelude.Int.{ℤ, pos, negsuc}
use imas_core.Context.Const.{
  no_backend, memory_backend, flexbuffers_backend, open_pulse, force_open_pulse, write_op, slice_op,
  timerange_op, same_int,
}
use imas_core.Context.Entry.{Machine, DataEntryContext, data_entry_context}
use imas_core.Context.Operation.{
  OperationContext, global_operation, slice_operation, timerange_operation,
}
use imas_core.Lowlevel.Outcome.{Outcome, outcome}
use imas_core.Lowlevel.Store.{LLenv, Store, add_llenv, get_llenv, del_llenv}
use imas_core.Lowlevel.Values.{Numbers}
use imas_core.Lowlevel.Types.{
  Context, Backend, Api, M, ◌>>=◌, ◌>>◌, return, lift, raise, get, put, in_world, deref, at_address,
  free,
}
use imas_core.Lowlevel.Actions.{
  begin_status, status, caught, catching, fetch, store_llenv, context_at, backend_at, counted,
  construct, raise_unless, allocate, as_entry,
}

module _ {ω} {N : Numbers} {W : Type ω} where
  abbrev pub write_versions : Bool → Backend N W → DataEntryContext → M N W (Unit {0})
  write_versions false be pctx = return tt
  write_versions true be pctx = do
    ver ← in_world (be.get_version none)
    sver ← in_world (be.get_version (some pctx))
    raise_unless (same_int ver.1 sver.1) Exception.al_lowlevel

  abbrev pub erase_llenv : ℤ → M N W (Option LLenv)
  erase_llenv idx s = let (lle, after) = del_llenv idx s.store in (lle, record s { store = after })

  abbrev pub delete_context : ℕ → M N W (Unit {0})
  delete_context a s = (Outcome.returns tt, record s { contexts = free a s.contexts })

  -- The backend goes with its data entry.
  abbrev pub delete_backend : Context N → ℕ → M N W (Unit {0})
  delete_backend (Context.pulse c) a s =
      (Outcome.returns tt, record s { backends = free a s.backends })
  delete_backend _ a s = (Outcome.returns tt, s)

module _ {ω} (N : Numbers) (W : Type ω) (backend : ℕ → Backend N W) where
  -- What the three begin actions do behind getLLenv, with the constructor of their operation.
  unfoldable pub begin_operation :
      (ℕ → ℕ → Result (OperationContext N.Double × ℕ)) → ℤ → LLenv → M N W ℕ
  begin_operation make rwmode lle = do
    c ← context_at lle.context
    pctx ← as_entry c
    octx ← construct (λ sid. make sid pctx.uid)
    allocate octx.uid (Context.operation octx)
    id ← backend_at lle.backend
    in_world ((backend id).begin_action octx)
    write_versions (same_int rwmode write_op) (backend id) pctx
    store_llenv (record { backend = lle.backend; context = octx.uid })

  unfoldable pub al_plugin_begin_global_action :
      N.Double → ℤ → Text → Text → ℤ → M N W (ℤ × Option ℕ)
  unfolding begin_operation
  al_plugin_begin_global_action undefined_time pctxID dataobjectname datapath rwmode =
      catching begin_status (do
        lle ← fetch pctxID
        begin_operation
            (λ sid pctx. global_operation sid undefined_time pctx dataobjectname datapath rwmode)
            rwmode lle)

  unfoldable pub al_plugin_begin_slice_action : ℤ → Text → ℤ → N.Double → ℤ → M N W (ℤ × Option ℕ)
  unfolding begin_operation
  al_plugin_begin_slice_action pctxID dataobjectname rwmode time interpmode =
      catching begin_status (do
        lle ← fetch pctxID
        begin_operation
            (λ sid pctx. slice_operation sid pctx dataobjectname rwmode slice_op time interpmode)
            rwmode lle)

  unfoldable pub al_plugin_begin_timerange_action :
      ℤ → Text → ℤ → N.Double → N.Double → List N.Double → ℤ → M N W (ℤ × Option ℕ)
  unfolding begin_operation
  al_plugin_begin_timerange_action pctxID dataobjectname rwmode tmin tmax dtime interpmode =
      catching begin_status (do
        lle ← fetch pctxID
        id ← backend_at lle.backend
        raise_unless (backend id).supports_time_range_operation Exception.al_lowlevel
        begin_operation
            (λ sid pctx.
              timerange_operation sid pctx dataobjectname rwmode timerange_op tmin tmax dtime
                interpmode)
            rwmode lle)

  unfoldable pub end_action : ℤ → M N W (Unit {0})
  end_action ctxID = do
    slot ← erase_llenv ctxID
    lle ← deref slot
    id ← backend_at lle.backend
    c ← context_at lle.context
    in_world ((backend id).end_action c)
    delete_backend c lle.backend
    delete_context lle.context

  -- al_plugin_end_action, and al_end_action where no plugins are in use.
  unfoldable pub al_plugin_end_action : ℤ → M N W (ℤ × Option (Unit {0}))
  unfolding end_action
  al_plugin_end_action (pos zero) = return (pos 0, some tt)
  al_plugin_end_action ctxID = catching status (end_action ctxID)
