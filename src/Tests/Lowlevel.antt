-- ===== src/Tests/Lowlevel.antt =====
-- The store of contexts, default values and actions, run.
use imas_core.Prelude.{List, [], ◌∷◌, none, some, true, codes, ◌≡◌, refl, ok}
use imas_core.Prelude.Int.{ℤ, pos, negsuc}
use imas_core.Context.Const.{same_int}
use imas_core.Lowlevel.Outcome.{Outcome}
use imas_core.Lowlevel.Store.{
  LLenv, new_store, Call, run, add_llenv, get_llenv, del_llenv, end_llenv,
}
use imas_core.Lowlevel.Store.Refinement.{StoreInv, view}
use imas_core.Lowlevel.Store.Trace.{Trace, run-new_store_refines}
use imas_core.Lowlevel.Values.{Numbers, Element, Variable}
use imas_core.Lowlevel.Types.{Backend, Api, at_address, Context}
use imas_core.Lowlevel.Operations.{
  al_plugin_begin_global_action, al_plugin_begin_slice_action, al_plugin_begin_timerange_action,
  al_plugin_end_action,
}
use imas_core.Lowlevel.Transfer.{al_plugin_begin_arraystruct_action}
use imas_core.Uri.{Error, error_uri}
use imas_core.Lowlevel.Operations.Begun.{Begun, begin_actions-Begun}

abbrev first : LLenv
first = record { backend = 1; context = 1 }

abbrev second : LLenv
second = record { backend = 1; context = 2 }

-- The slot of the first id is lost where a later id is in use, that of the last one is given again.
abbrev calls : List Call
calls =
    Call.add first
    ∷ Call.add second
    ∷ Call.end (pos 1)
    ∷ Call.look_up (pos 1)
    ∷ Call.end (pos 2)
    ∷ Call.add first
    ∷ Call.look_up (pos 2)
    ∷ []

run-new_store_refines_example :
    StoreInv (run calls new_store).1
    × Trace (λ i. none) (run calls new_store).0 (view (run calls new_store).1)
run-new_store_refines_example = run-new_store_refines calls

store_test :
    (run calls new_store).1
    ≡ record { llenv_store = none ∷ none ∷ some first ∷ []; cur_store_elt = 3; max_store_elt = 3 }
unfolding run add_llenv end_llenv new_store
store_test = refl

abbrev numbers : Numbers
numbers = record {
  Double = ℤ;
  empty_double = negsuc 0;
  same_double = same_int;
  int_to_double = λ i. i;
  int_to_char = λ i. i;
  double_to_int = λ i. i;
  double_to_char = λ i. i;
  zero_double = pos 0;
}

abbrev empty_integer : Variable numbers
empty_integer = Variable.scalar (Element.integer (negsuc 999999998))

-- A backend that does nothing.
abbrev idle : Backend numbers (Unit {0})
idle = record {
  supports_time_range_operation = true;
  open_pulse = λ c mode w. (ok tt, w);
  close_pulse = λ c mode w. (ok tt, w);
  begin_action = λ c w. (ok tt, w);
  end_action = λ c w. (ok tt, w);
  begin_arraystruct_action = λ c w. (ok (pos 0), w);
  write_data = λ c field timebase data_ datatype dim size w. (ok tt, w);
  read_data = λ c field timebase datatype dim w. (ok none, w);
  delete_data = λ c field w. (ok tt, w);
  get_version = λ c w. (ok (pos 2, pos 0), w);
}

-- One data entry, under the id 1.
abbrev entry_state : Api numbers (Unit {0})
entry_state = record {
  sid = 1;
  store = record { llenv_store = none ∷ some first ∷ []; cur_store_elt = 2; max_store_elt = 2 };
  contexts =
      (1, Context.pulse (record { uri = error_uri Error.none_set; backend_id = 14; uid = 1 })) ∷ [];
  backends = (1, 14) ∷ [];
  world = tt;
}

begin_actions-Begun_example :
    Begun entry_state (
      al_plugin_begin_global_action numbers
        (Unit {0})
        (λ id. idle)
        (pos 0)
        (pos 1)
        (codes "a")
        []
        (pos 31)
        entry_state)
    × Begun entry_state (
        al_plugin_begin_slice_action numbers
          (Unit {0})
          (λ id. idle)
          (pos 1)
          (codes "a")
          (pos 31)
          (pos 0)
          (pos 1)
          entry_state)
    × Begun entry_state (
        al_plugin_begin_timerange_action numbers
          (Unit {0})
          (λ id. idle)
          (pos 1)
          (codes "a")
          (pos 31)
          (pos 0)
          (pos 9)
          []
          (pos 1)
          entry_state)
begin_actions-Begun_example =
    begin_actions-Begun (λ id. idle) (pos 0) (pos 0) (pos 0) (pos 9) [] (pos 1) (pos 31) (pos 1)
      (codes "a") [] entry_state

-- The write begins under the id 2.
begin_test :
    (al_plugin_begin_slice_action numbers
      (Unit {0})
      (λ id. idle)
      (pos 1)
      (codes "a")
      (pos 31)
      (pos 0)
      (pos 1)
      entry_state).0
    ≡ Outcome.returns (pos 0, some 2)
unfolding al_plugin_begin_slice_action get_llenv at_address
    imas_core.Context.Operation.slice_operation add_llenv
begin_test = refl

-- An array without elements: the client gets the id 0, and the store keeps a context that is freed.
freed_test :
    let after =
      (al_plugin_begin_arraystruct_action numbers
        (Unit {0})
        (λ id. idle)
        (pos 1)
        (codes "a")
        []
        entry_state).1 in
    (after.store.llenv_store ≡ none ∷ some first ∷ some second ∷ [])
    × (at_address 2 after.contexts ≡ none)
unfolding al_plugin_begin_arraystruct_action get_llenv at_address add_llenv
    imas_core.Context.Arraystruct.topmost_arraystruct imas_core.Lowlevel.Types.free
freed_test = (refl, refl)

-- The entry is ended, and its backend deleted.
end_test :
    (al_plugin_end_action numbers (Unit {0}) (λ id. idle) (pos 1) entry_state).1.backends ≡ []
unfolding al_plugin_end_action del_llenv at_address imas_core.Lowlevel.Types.free
end_test = refl
