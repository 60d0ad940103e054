-- ===== src/Lowlevel/Operations/Begun.antt =====
-- What the three entry points that begin an action on an operation leave behind, whichever way they end.
use imas_core.Prelude.{
  ℕ, Bool, true, false, List, ◌∷◌, Option, none, some, Text, Exception, Result, ok, throw, ◌≡◌, ◌≢◌,
  refl, ap, ◌∙◌, arith,
}
use imas_core.Prelude.Int.{ℤ, pos}
use imas_core.Context.Const.{write_op, slice_op, timerange_op, same_int}
use imas_core.Context.Entry.{DataEntryContext}
use imas_core.Context.Operation.{OperationContext}
use imas_core.Context.Operation.Modes.{
  HasModes, Made, global_operation-Made, slice_operation-Made, timerange_operation-Made,
}
use imas_core.Lowlevel.Outcome.{Outcome}
use imas_core.Lowlevel.Store.{LLenv, Store, add_llenv}
use imas_core.Lowlevel.Values.{Numbers}
use imas_core.Lowlevel.Types.{Context, Backend, Api, M, continue, in_world, deref, at_address}
use imas_core.Lowlevel.Actions.{
  begin_status, caught, counted, raise_unless, fetch, store_llenv, as_entry, context_at, backend_at,
}
use imas_core.Lowlevel.Operations.{
  write_versions, begin_operation, al_plugin_begin_global_action, al_plugin_begin_slice_action,
  al_plugin_begin_timerange_action,
}

begin_status-nonzero : (e : Exception) → begin_status e ≢ pos 0
begin_status-nonzero e = ground arith

module _ {N : Numbers} {W : Type 0} where
  -- An operation with valid modes is live at the address that is stored last.
  pub record Stored (s after : Api N W) : Type 0 where
    pub lle : LLenv
    pub operation : OperationContext N.Double
    pub store : after.store ≡ (add_llenv lle s.store).1
    pub live : at_address lle.context after.contexts ≡ some (Context.operation operation)
    pub modes : HasModes operation

  -- How a body ends that begins an action: only where it returns, the store has changed.
  abbrev EndsAs : Api N W → Outcome ℕ × Api N W → Type 0
  EndsAs s (Outcome.returns id, after) = (id ≡ s.store.cur_store_elt) × Stored s after
  EndsAs s (Outcome.throws e, after) = after.store ≡ s.store
  EndsAs s (Outcome.crashes, after) = after.store ≡ s.store

  record Ends (s : Api N W) (r : Outcome ℕ × Api N W) : Type 0 where
    ends : EndsAs s r

  -- The same for the entry point around it: a status other than 0 tells that nothing was stored.
  abbrev pub Begun : Api N W → Outcome (ℤ × Option ℕ) × Api N W → Type 0
  Begun s (Outcome.returns (code, some id), after) =
      (code ≡ pos 0) × (id ≡ s.store.cur_store_elt) × Stored s after
  Begun s (Outcome.returns (code, none), after) = (code ≢ pos 0) × (after.store ≡ s.store)
  Begun s (Outcome.throws e, after) = ⊥
  Begun s (Outcome.crashes, after) = after.store ≡ s.store

  caught-Begun :
      (s : Api N W) (r : Outcome ℕ × Api N W) → Ends s r → Begun s (caught begin_status r)
  caught-Begun s (Outcome.returns id, after) h = (refl, h.ends.0, h.ends.1)
  caught-Begun s (Outcome.throws e, after) h = (begin_status-nonzero e, h.ends)
  caught-Begun s (Outcome.crashes, after) h = h.ends

  -- A step that leaves the store and the contexts alone.
  record Same (t u : Api N W) : Type 0 where
    store : u.store ≡ t.store
    contexts : u.contexts ≡ t.contexts

  same : {t : Api N W} → Same t t
  same = record { store = refl; contexts = refl }

  continue-Ends {ℓ} :
      {A : Type ℓ} {f : A → M N W ℕ} (s t : Api N W) (r : Outcome A × Api N W)
      → t.store ≡ s.store
      → Same t r.1
      → ((a : A) (u : Api N W) → u.store ≡ s.store → u.contexts ≡ t.contexts → Ends s (f a u))
      → Ends s (continue r f)
  continue-Ends s t (Outcome.returns a, u) h k next = next a u (k.store ∙ h) k.contexts
  continue-Ends s t (Outcome.throws e, u) h k next = record { ends = k.store ∙ h }
  continue-Ends s t (Outcome.crashes, u) h k next = record { ends = k.store ∙ h }

  continue-Same {ℓ κ} :
      {A : Type ℓ} {B : Type κ} (f : A → M N W B) (t : Api N W) (r : Outcome A × Api N W)
      → Same t r.1
      → ((a : A) (u : Api N W) → Same t u → Same t (f a u).1)
      → Same t (continue r f).1
  continue-Same f t (Outcome.returns a, u) k next = next a u k
  continue-Same f t (Outcome.throws e, u) k next = k
  continue-Same f t (Outcome.crashes, u) k next = k

  deref-Same {ℓ} : {A : Type ℓ} (o : Option A) (t : Api N W) → Same t (deref o t).1
  deref-Same none t = same
  deref-Same (some a) t = same

  as_entry-Same : (c : Context N) (t : Api N W) → Same t (as_entry c t).1
  as_entry-Same (Context.pulse c) t = same
  as_entry-Same (Context.operation c) t = same
  as_entry-Same (Context.arraystruct c) t = same

  elsewhere : {t u : Api N W} {w : W} → Same t u → Same t (record u { world = w })
  elsewhere k = record { store = k.store; contexts = k.contexts }

  raise_unless-Same :
      (b : Bool) (e : Exception) (t u : Api N W) → Same t u → Same t (raise_unless b e u).1
  raise_unless-Same true e t u k = k
  raise_unless-Same false e t u k = k

  write_versions-Same :
      (b : Bool) (be : Backend N W) (pctx : DataEntryContext) (t : Api N W)
      → Same t (write_versions b be pctx t).1
  write_versions-Same false be pctx t = same
  write_versions-Same true be pctx t =
      continue-Same _ t (in_world (be.get_version none) t) (elsewhere same) (λ ver u k.
        continue-Same _ t (in_world (be.get_version (some pctx)) u) (elsewhere k)
          (λ sver v l. raise_unless-Same _ _ t v l))

  counted-Ends :
      {f : OperationContext N.Double → M N W ℕ} (s t : Api N W) (ctx : ℕ)
      → (r : Result (OperationContext N.Double × ℕ)) → t.store ≡ s.store
      → Made t.sid ctx r
      → ((c : OperationContext N.Double) (u : Api N W)
          → u.store ≡ s.store
          → HasModes c
          → Ends s (f c u))
      → Ends s (continue (counted r t) f)
  counted-Ends s t ctx (ok (c, sid)) h made next = next c (record t { sid = sid }) h made.3
  counted-Ends s t ctx (throw e) h made next = record { ends = h }

  -- The last step, behind the allocation of the operation.
  store_llenv-Ends :
      (lle : LLenv) (octx : OperationContext N.Double) (s t u : Api N W)
      → lle.context ≡ octx.uid
      → u.store ≡ s.store
      → u.contexts ≡ (octx.uid, Context.operation octx) ∷ t.contexts
      → HasModes octx
      → Ends s (store_llenv lle u)
  unfolding at_address add_llenv
  store_llenv-Ends lle octx s t u a h k modes = record {
    ends = (
      ap (λ (st : Store). st.cur_store_elt) h,
      record {
        lle = lle;
        operation = octx;
        store = ap (λ st. (add_llenv lle st).1) h;
        live = ap (at_address lle.context) k ∙ ground (arith, a);
        modes = modes;
      },
    );
  }

  begin_operation-Ends :
      (backend : ℕ → Backend N W) (make : ℕ → ℕ → Result (OperationContext N.Double × ℕ))
      → (rwmode : ℤ) (lle : LLenv) (s t : Api N W) → ((sid ctx : ℕ) → Made sid ctx (make sid ctx))
      → t.store ≡ s.store
      → Ends s (begin_operation N W backend make rwmode lle t)
  unfolding begin_operation at_address
  begin_operation-Ends backend make rwmode lle s t makes h =
      continue-Ends s t (context_at lle.context t) h (deref-Same _ t) (λ c t1 h1 k1.
        continue-Ends s t1 (as_entry c t1) h1 (as_entry-Same c t1) (λ pctx t2 h2 k2.
          counted-Ends s t2 pctx.uid (make t2.sid pctx.uid) h2 (makes t2.sid pctx.uid)
            (λ octx t3 h3 modes.
              let made : Api N W = record t3 {
                contexts = (octx.uid, Context.operation octx) ∷ t3.contexts;
              } in
              continue-Ends s made (backend_at lle.backend made) h3 (deref-Same _ made)
                (λ id t5 h5 k5.
                  continue-Ends s t5 (in_world ((backend id).begin_action octx) t5) h5
                    (elsewhere same)
                    (λ begun t6 h6 k6.
                      continue-Ends s t6
                        (write_versions (same_int rwmode write_op) (backend id) pctx t6) h6
                        (write_versions-Same (same_int rwmode write_op) (backend id) pctx t6)
                        (λ checked t7 h7 k7.
                          store_llenv-Ends (record { backend = lle.backend; context = octx.uid })
                            octx s t3 t7 refl h7 (k7 ∙ k6 ∙ k5) modes))))))

  -- An entry point that looks up the data entry and begins an operation on it.
  begin-Begun :
      (backend : ℕ → Backend N W) (make : ℕ → ℕ → Result (OperationContext N.Double × ℕ))
      → (pctxID rwmode : ℤ) (s : Api N W) → ((sid ctx : ℕ) → Made sid ctx (make sid ctx))
      → Begun s (
          caught begin_status
            (continue (fetch pctxID s) (λ lle. begin_operation N W backend make rwmode lle)))
  begin-Begun backend make pctxID rwmode s makes = caught-Begun s _ (
      continue-Ends s s (fetch pctxID s) refl same
        (λ lle t h k. begin_operation-Ends backend make rwmode lle s t makes h))

  -- Whatever backend is called, an al_plugin_begin_global_action, slice action or time range action
  -- that answers with status 0 has stored one more entry, under the next id, which it gives the
  -- client, and at the entry's address an operation is live whose range and access modes are among
  -- the three of each, a slice that is read having an interpolation mode that is not the undefined
  -- one; any other status, and any end behind a NULL or freed pointer, leaves the store as it was.
  pub begin_actions-Begun :
      (backend : ℕ → Backend N W) (undefined_time time tmin tmax : N.Double) (dtime : List N.Double)
      → (pctxID rwmode interpmode : ℤ) (dataobjectname datapath : Text) (s : Api N W)
      → Begun s (
          al_plugin_begin_global_action N W backend undefined_time pctxID dataobjectname datapath
            rwmode s)
        × Begun s (
            al_plugin_begin_slice_action N W backend pctxID dataobjectname rwmode time interpmode s)
        × Begun s (
            al_plugin_begin_timerange_action N W backend pctxID dataobjectname rwmode tmin tmax
              dtime interpmode s)
  unfolding al_plugin_begin_global_action al_plugin_begin_slice_action
      al_plugin_begin_timerange_action
  begin_actions-Begun backend undefined_time time tmin tmax dtime pctxID rwmode interpmode
        dataobjectname datapath s =
      (
        begin-Begun backend _ pctxID rwmode s (λ sid ctx.
            global_operation-Made sid ctx undefined_time dataobjectname datapath rwmode),
        begin-Begun backend _ pctxID rwmode s (λ sid ctx.
            slice_operation-Made sid ctx dataobjectname rwmode slice_op interpmode time),
        caught-Begun s _ (
            continue-Ends s s (fetch pctxID s) refl same (λ lle t h k.
              continue-Ends s t (backend_at lle.backend t) h (deref-Same _ t) (λ id u h' k'.
                continue-Ends s u
                  (raise_unless (backend id).supports_time_range_operation Exception.al_lowlevel u)
                  h' (raise_unless-Same (backend id).supports_time_range_operation _ u u same)
                  (λ supported v h'' k''.
                    begin_operation-Ends backend _ rwmode lle s v
                      (λ sid ctx.
                        timerange_operation-Made sid ctx dataobjectname rwmode timerange_op
                          interpmode tmin tmax dtime)
                      h'')))),
      )
