-- ===== src/Lowlevel/Store/Trace.antt =====
-- Any sequence of calls on the store is served as a map from ids to contexts would serve it.
use mathlib.Core.Path.{fun_ext}
use imas_core.Prelude.{
  ℕ, zero, suc, ◌≤◌, List, [], ◌∷◌, Option, none, some, get_elem?, ◌==◌, ◌≡◌, ◌⊎◌, inl, inr, refl,
  sym, ap, ◌∙◌, subst, true, false, Bool-cases, arith, Exception,
}
use imas_core.Prelude.Int.{ℤ, pos, negsuc}
use imas_core.Lowlevel.Outcome.{Outcome}
use imas_core.Lowlevel.Store.{
  LLenv, Store, new_store, clear_at, clear_slot, found, add_llenv, get_llenv, del_llenv, end_llenv,
  Call, Answer, serve, run,
}
use imas_core.Lowlevel.Store.Refinement.{
  Contexts, slot, view, update, StoreInv, view-add_llenv, add_llenv-StoreInv, clear_slot-StoreInv,
  new_store-StoreInv, slot-set, in_store,
}

abbrev pub at_id : Contexts → ℤ → Option LLenv
at_id F (pos i) = F i
at_id F (negsuc i) = none

abbrev pub without : Contexts → ℤ → Contexts
without F (pos i) = update F i none
without F (negsuc i) = F

-- What a call may do to a map from ids to contexts, and answer. A new id is free and not 0. An id without
-- a context is refused, or answered with NULL pointers.
pub data Serves : Contexts → Call → Answer → Contexts → Type 0 where
  adds :
      {F : Contexts} {lle : LLenv} {i : ℕ}
      → F i ≡ none
      → 1 ≤ i
      → Serves F (Call.add lle) (Answer.given i) (update F i (some lle))
  finds :
      {F : Contexts} {lle : LLenv} {idx : ℤ}
      → at_id F idx ≡ some lle
      → Serves F (Call.look_up idx) (Answer.fetched (Outcome.returns lle)) F
  misses :
      {F : Contexts} {idx : ℤ}
      → at_id F idx ≡ none
      → Serves F (Call.look_up idx) (Answer.fetched (Outcome.throws Exception.al_lowlevel)) F
  ends :
      {F : Contexts} {lle : LLenv} {idx : ℤ}
      → at_id F idx ≡ some lle
      → Serves F (Call.end idx) (Answer.ended (Outcome.returns (some lle))) (without F idx)
  refuses :
      {F : Contexts} {idx : ℤ} {o : Outcome (Option LLenv)}
      → at_id F idx ≡ none
      → (o ≡ Outcome.throws Exception.out_of_range) ⊎ (o ≡ Outcome.returns none)
      → Serves F (Call.end idx) (Answer.ended o) F

pub data Trace : Contexts → List (Call × Answer) → Contexts → Type 0 where
  done : {F : Contexts} → Trace F [] F
  next :
      {F G H : Contexts} {call : Call} {answer : Answer} {rest : List (Call × Answer)}
      → Serves F call answer G
      → Trace G rest H
      → Trace F ((call, answer) ∷ rest) H

new_store-view : view new_store ≡ (λ i. none)
unfolding new_store
new_store-view = fun_ext (λ i. beyond_null i)
  where
    beyond_null : (i : ℕ) → slot (get_elem? (none ∷ []) i) ≡ none
    beyond_null zero = refl
    beyond_null (suc i) = refl

abbrev Served : Store → Call → Type 0
Served s call =
    StoreInv (serve call s).1 × Serves (view s) call (serve call s).0 (view (serve call s).1)

serve-add : (lle : LLenv) (s : Store) → StoreInv s → Served s (Call.add lle)
unfolding serve add_llenv
serve-add lle s v = (
  add_llenv-StoreInv lle s v,
  subst (λ G. Serves (view s) (Call.add lle) (Answer.given (add_llenv lle s).0) G)
      (sym (fun_ext (view-add_llenv lle s v)))
      (Serves.adds (v.vacant s.cur_store_elt (omega arith)) v.cur_pos),
)

serve-found :
    (F : Contexts) (i : ℕ) (o : Option (Option LLenv))
    → F i ≡ slot o
    → Serves F (Call.look_up (pos i)) (Answer.fetched (found o)) F
serve-found F i none h = Serves.misses h
serve-found F i (some none) h = Serves.misses h
serve-found F i (some (some lle)) h = Serves.finds h

serve-fetch : (idx : ℤ) (s : Store) → StoreInv s → Served s (Call.look_up idx)
unfolding serve get_llenv
serve-fetch (negsuc i) s v = (v, Serves.misses refl)
serve-fetch (pos i) s v = (v, serve-found (view s) i (get_elem? s.llenv_store i) refl)

clear_slot-without :
    (i : ℕ) (lle : Option LLenv) (s : Store)
    → get_elem? s.llenv_store i ≡ some lle
    → view (clear_slot i s) ≡ without (view s) (pos i)
clear_slot-without i lle s g =
    fun_ext (λ j. slot-set s.llenv_store i none j (in_store s.llenv_store i lle g))

without-none : (F : Contexts) (i : ℕ) → F i ≡ none → without F (pos i) ≡ F
without-none F i h = fun_ext (λ j. same j (Bool-cases (j == i)))
  where
    same : (j : ℕ) → ((j == i) ≡ true) ⊎ ((j == i) ≡ false) → without F (pos i) j ≡ F j
    same j (inl e) = rw e (sym h ∙ ap F {x = i} {y = j} (ground (arith, e)))
    same j (inr e) = rw e refl

serve-cleared :
    (i : ℕ) (s : Store) (o : Option (Option LLenv))
    → get_elem? s.llenv_store (suc i) ≡ o
    → StoreInv s
    → StoreInv (clear_at (pos (suc i)) o s).1
      × Serves
          (view s)
          (Call.end (pos (suc i)))
          (Answer.ended (clear_at (pos (suc i)) o s).0)
          (view (clear_at (pos (suc i)) o s).1)
serve-cleared i s none g v = (v, Serves.refuses (ap slot g) (inl refl))
serve-cleared i s (some none) g v = (
  clear_slot-StoreInv (suc i) none s g (omega arith) v,
  subst (λ G. Serves (view s) (Call.end (pos (suc i))) (Answer.ended (Outcome.returns none)) G)
      (sym (clear_slot-without (suc i) none s g ∙ without-none (view s) (suc i) (ap slot g)))
      (Serves.refuses (ap slot g) (inr refl)),
)
serve-cleared i s (some (some lle)) g v = (
  clear_slot-StoreInv (suc i) (some lle) s g (omega arith) v,
  subst
      (λ G. Serves (view s) (Call.end (pos (suc i))) (Answer.ended (Outcome.returns (some lle))) G)
      (sym (clear_slot-without (suc i) (some lle) s g)) (Serves.ends (ap slot g)),
)

serve-end : (idx : ℤ) (s : Store) → StoreInv s → Served s (Call.end idx)
unfolding serve end_llenv del_llenv
serve-end (negsuc i) s v = (v, Serves.refuses refl (inl refl))
serve-end (pos zero) s v = (v, Serves.refuses v.null (inr refl))
serve-end (pos (suc i)) s v = serve-cleared i s (get_elem? s.llenv_store (suc i)) refl v

served : (call : Call) (s : Store) → StoreInv s → Served s call
served (Call.add lle) s v = serve-add lle s v
served (Call.look_up idx) s v = serve-fetch idx s v
served (Call.end idx) s v = serve-end idx s v

pub run-Trace :
    (calls : List Call) (s : Store)
    → StoreInv s
    → StoreInv (run calls s).1 × Trace (view s) (run calls s).0 (view (run calls s).1)
unfolding run
run-Trace [] s v = (v, Trace.done)
run-Trace (call ∷ calls) s v =
    let (w, step) = served call s v in
    let (last, rest) = run-Trace calls (serve call s).1 w in (last, Trace.next step rest)

-- Whatever ids a client looks up and ends, and whatever contexts are added, the store behind the
-- context ids serves every sequence of calls as a map from ids to contexts would that starts
-- empty: a new context gets an id above 0 that is free, a look-up finds what the map holds at the
-- id or throws, ending an id takes away that entry and no other, and an id without an entry is
-- refused or answered with NULL pointers; and the store ends well-formed, what stands at and
-- behind the next id being free.
pub run-new_store_refines :
    (calls : List Call)
    → StoreInv (run calls new_store).1
      × Trace (λ i. none) (run calls new_store).0 (view (run calls new_store).1)
run-new_store_refines calls =
    let (inv, trace) = run-Trace calls new_store new_store-StoreInv in
    (
      inv,
      subst (λ F. Trace F (run calls new_store).0 (view (run calls new_store).1)) new_store-view
          trace,
    )
