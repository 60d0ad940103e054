-- ===== src/Lowlevel/Actions.antt =====
-- al_begin_dataentry_action and al_close_pulse of src/al_lowlevel.cpp, with Backend::initBackend of
-- src/al_backend.cpp and the steps that the entry points share. An entry point answers with its status code,
-- and with the id that it stores behind the client's pointer, if it does.
use imas_core.Prelude.{
  ℕ, Bool, true, false, not, ◌&&◌, ◌||◌, ◌∷◌, Option, none, some, Text, leb, ltb, ◌==◌,
  if◌then◌else◌, Exception, Result, ok, throw,
}
use imas_core.Prelude.Int.{ℤ, pos, negsuc}
use imas_core.Context.Const.{
  no_backend, memory_backend, flexbuffers_backend, open_pulse, force_open_pulse, same_int,
}
use imas_core.Context.Entry.{Machine, DataEntryContext, data_entry_context}
use imas_core.Lowlevel.Outcome.{Outcome}
use imas_core.Lowlevel.Store.{LLenv, add_llenv, get_llenv}
use imas_core.Lowlevel.Values.{Numbers}
use imas_core.Lowlevel.Types.{
  Context, Backend, Api, M, ◌>>=◌, ◌>>◌, return, raise, in_world, deref, at_address,
}

abbrev pub context_err : ℤ
context_err = negsuc 1

abbrev pub backend_err : ℤ
backend_err = negsuc 2

abbrev pub lowlevel_err : ℤ
lowlevel_err = negsuc 3

abbrev pub unknown_err : ℤ
unknown_err = negsuc 0

-- The catch clauses of the entry points that begin an action.
abbrev pub begin_status : Exception → ℤ
begin_status Exception.al_context = context_err
begin_status Exception.al_backend = backend_err
begin_status Exception.al_lowlevel = lowlevel_err
begin_status _ = unknown_err

-- The catch clauses of those that name no ALContextException.
abbrev pub status : Exception → ℤ
status Exception.al_backend = backend_err
status Exception.al_lowlevel = lowlevel_err
status _ = unknown_err

-- Whether `initBackend` knows the id, and its backend is compiled in.
abbrev pub has_backend : (ℕ → Bool) → ℕ → Bool
has_backend compiled id =
    leb no_backend id
    && leb id flexbuffers_backend
    && ((id == no_backend) || (id == memory_backend) || (id == flexbuffers_backend) || compiled id)

abbrev pub is_open : ℤ → Bool
is_open mode = same_int mode open_pulse || same_int mode force_open_pulse

abbrev pub ltb_int : ℤ → ℤ → Bool
ltb_int (pos a) (pos b) = ltb a b
ltb_int (pos a) (negsuc b) = false
ltb_int (negsuc a) (pos b) = true
ltb_int (negsuc a) (negsuc b) = ltb b a

module _ {ω} {N : Numbers} {W : Type ω} where
  -- A body between `try` and `catch`, whose value is stored where it returns.
  abbrev pub caught {ℓ} :
      {A : Type ℓ} → (Exception → ℤ) → Outcome A × Api N W → Outcome (ℤ × Option A) × Api N W
  caught code (Outcome.returns a, s) = (Outcome.returns (pos 0, some a), s)
  caught code (Outcome.throws e, s) = (Outcome.returns (code e, none), s)
  caught code (Outcome.crashes, s) = (Outcome.crashes, s)

  abbrev pub catching {ℓ} : {A : Type ℓ} → (Exception → ℤ) → M N W A → M N W (ℤ × Option A)
  catching code m s = caught code (m s)

  -- Lowlevel::getLLenv.
  abbrev pub fetch : ℤ → M N W LLenv
  fetch idx s = (get_llenv idx s.store, s)

  -- Lowlevel::addLLenv.
  abbrev pub store_llenv : LLenv → M N W ℕ
  store_llenv lle s =
      let (id, after) = add_llenv lle s.store in (Outcome.returns id, record s { store = after })

  abbrev pub context_at : ℕ → M N W (Context N)
  context_at a s = deref (at_address a s.contexts) s

  abbrev pub backend_at : ℕ → M N W ℕ
  backend_at a s = deref (at_address a s.backends) s

  -- A constructor that counts SID, whose new value is the address of the context.
  abbrev pub counted {ℓ} : {A : Type ℓ} → Result (A × ℕ) → M N W A
  counted (ok (a, sid)) s = (Outcome.returns a, record s { sid = sid })
  counted (throw e) s = (Outcome.throws e, s)

  abbrev pub construct {ℓ} : {A : Type ℓ} → (ℕ → Result (A × ℕ)) → M N W A
  construct make s = counted (make s.sid) s

  abbrev pub raise_unless : Bool → Exception → M N W (Unit {0})
  raise_unless true e = return tt
  raise_unless false e = raise e

  abbrev pub allocate : ℕ → Context N → M N W (Unit {0})
  allocate a c s = (Outcome.returns tt, record s { contexts = (a, c) ∷ s.contexts })

  -- dynamic_cast<DataEntryContext *>, with the exception where it gives NULL.
  abbrev pub as_entry : Context N → M N W DataEntryContext
  as_entry (Context.pulse c) = return c
  as_entry _ = raise Exception.al_lowlevel

  -- Backend::initBackend, at the address of the data entry.
  abbrev pub init_backend : (ℕ → Bool) → DataEntryContext → M N W (Unit {0})
  init_backend compiled ctx s =
      if has_backend compiled ctx.backend_id
      then (Outcome.returns tt, record s { backends = (ctx.uid, ctx.backend_id) ∷ s.backends })
      else (Outcome.throws Exception.al_backend, s)

module _ {ω} (N : Numbers) (W : Type ω) (backend : ℕ → Backend N W) (machine : Machine)
    (compiled : ℕ → Bool) where
  -- Lowlevel::beginUriAction.
  unfoldable pub begin_uri_action : Text → M N W ℕ
  begin_uri_action uri = do
    pctx ← construct (λ sid. data_entry_context machine sid uri)
    allocate pctx.uid (Context.pulse pctx)
    init_backend compiled pctx
    store_llenv (record { backend = pctx.uid; context = pctx.uid })

  -- The comparison of the versions of an opened file and of its backend.
  abbrev pub check_versions : ℤ × ℤ → ℤ × ℤ → M N W (Unit {0})
  check_versions ver sver =
      raise_unless (same_int ver.0 sver.0 && not (ltb_int ver.1 sver.1)) Exception.al_lowlevel

  abbrev pub open_versions : Bool → Backend N W → DataEntryContext → M N W (Unit {0})
  open_versions false be pctx = return tt
  open_versions true be pctx = do
    ver ← in_world (be.get_version none)
    sver ← in_world (be.get_version (some pctx))
    check_versions ver sver

  -- What al_begin_dataentry_action does behind beginUriAction.
  unfoldable pub open_entry : ℤ → ℤ → M N W (Unit {0})
  open_entry mode dectxID = do
    lle ← fetch dectxID
    c ← context_at lle.context
    pctx ← as_entry c
    id ← backend_at lle.backend
    in_world ((backend id).open_pulse pctx mode)
    open_versions (is_open mode) (backend id) pctx

  -- al_begin_dataentry_action: the id is stored before the entry is opened.
  abbrev pub keep_id : ℤ → Outcome (ℤ × Option ℕ) × Api N W → Outcome (ℤ × Option ℕ) × Api N W
  keep_id mode (Outcome.returns (code, some id), s) =
      opened id (catching status (open_entry mode (pos id)) s)
    where
      opened : ℕ → Outcome (ℤ × Option (Unit {0})) × Api N W → Outcome (ℤ × Option ℕ) × Api N W
      opened id (Outcome.returns (code, _), s) = (Outcome.returns (code, some id), s)
      opened id (Outcome.throws e, s) = (Outcome.throws e, s)
      opened id (Outcome.crashes, s) = (Outcome.crashes, s)
  keep_id mode r = r

  unfoldable pub al_begin_dataentry_action : Text → ℤ → M N W (ℤ × Option ℕ)
  unfolding begin_uri_action open_entry
  al_begin_dataentry_action uri mode s = keep_id mode (catching status (begin_uri_action uri) s)

  unfoldable pub al_close_pulse : ℤ → ℤ → M N W (ℤ × Option (Unit {0}))
  al_close_pulse pctxID mode = catching status (do
    lle ← fetch pctxID
    c ← context_at lle.context
    pctx ← as_entry c
    id ← backend_at lle.backend
    in_world ((backend id).close_pulse pctx mode))
