-- ===== src/Lowlevel/Store.antt =====
-- Lowlevel::addLLenv, getLLenv and delLLenv of src/al_lowlevel.cpp, and the store that they keep.
pub mod Refinement
pub mod Trace
use imas_core.Prelude.{
  ℕ, zero, suc, ◌+◌, List, [], ◌∷◌, ◌++◌, Option, none, some, length, get_elem?, set, ◌==◌,
  if◌then◌else◌, Exception,
}
use imas_core.Prelude.Int.{ℤ, pos, negsuc}
use imas_core.Lowlevel.Outcome.{Outcome}

-- The addresses of a backend and of a context.
pub record LLenv : Type 0 where
  pub backend : ℕ
  pub context : ℕ

-- A slot whose pointers are NULL is `none`.
pub record Store : Type 0 where
  pub llenv_store : List (Option LLenv)
  pub cur_store_elt : ℕ
  pub max_store_elt : ℕ

unfoldable pub new_store : Store
new_store = record { llenv_store = none ∷ []; cur_store_elt = 1; max_store_elt = 1 }

-- Lowlevel::addLLenv.
unfoldable pub add_llenv : LLenv → Store → ℕ × Store
add_llenv lle s = (
  s.cur_store_elt,
  if s.cur_store_elt == s.max_store_elt
      then record s {
        llenv_store = s.llenv_store ++ (some lle ∷ []);
        max_store_elt = s.max_store_elt + 1;
        cur_store_elt = s.cur_store_elt + 1;
      }
      else record s {
        llenv_store = set s.llenv_store s.cur_store_elt (some lle);
        cur_store_elt = s.cur_store_elt + 1;
      },
)

-- `llenvStore.at(idx)`; a negative index is out of range.
abbrev pub slot_at : ℤ → Store → Option (Option LLenv)
slot_at (pos i) s = get_elem? s.llenv_store i
slot_at (negsuc i) s = none

abbrev pub found : Option (Option LLenv) → Outcome LLenv
found none = Outcome.throws Exception.al_lowlevel
found (some none) = Outcome.throws Exception.al_lowlevel
found (some (some lle)) = Outcome.returns lle

-- Lowlevel::getLLenv.
unfoldable pub get_llenv : ℤ → Store → Outcome LLenv
get_llenv idx s = found (slot_at idx s)

abbrev pub clear_slot : ℕ → Store → Store
clear_slot i s = record s {
  llenv_store = set s.llenv_store i none;
  cur_store_elt = if i + 1 == s.cur_store_elt then i else s.cur_store_elt;
}

abbrev pub clear_at : ℤ → Option (Option LLenv) → Store → Outcome (Option LLenv) × Store
clear_at idx none s = (Outcome.throws Exception.out_of_range, s)
clear_at (pos i) (some lle) s = (Outcome.returns lle, clear_slot i s)
clear_at (negsuc i) (some lle) s = (Outcome.throws Exception.out_of_range, s)

-- Lowlevel::delLLenv: the pointers that the slot held, which may be NULL.
unfoldable pub del_llenv : ℤ → Store → Outcome (Option LLenv) × Store
del_llenv idx s = clear_at idx (slot_at idx s) s

-- The guard `ctxID != 0` of al_end_action and al_plugin_end_action, which otherwise erase the slot.
unfoldable pub end_llenv : ℤ → Store → Outcome (Option LLenv) × Store
unfolding del_llenv
end_llenv (pos zero) s = (Outcome.returns none, s)
end_llenv (pos (suc i)) s = del_llenv (pos (suc i)) s
end_llenv (negsuc i) s = del_llenv (negsuc i) s

-- Calls on the store, and what they answer.
pub data Call : Type 0 where
  add : LLenv → Call
  look_up : ℤ → Call
  end : ℤ → Call

pub data Answer : Type 0 where
  given : ℕ → Answer
  fetched : Outcome LLenv → Answer
  ended : Outcome (Option LLenv) → Answer

unfoldable pub serve : Call → Store → Answer × Store
serve (add lle) s = let (id, after) = add_llenv lle s in (Answer.given id, after)
serve (look_up idx) s = (Answer.fetched (get_llenv idx s), s)
serve (end idx) s = let (lle, after) = end_llenv idx s in (Answer.ended lle, after)

unfoldable pub run : List Call → Store → List (Call × Answer) × Store
unfolding serve
run [] s = ([], s)
run (call ∷ calls) s =
    let (answer, after) = serve call s in
    let (answers, last) = run calls after in ((call, answer) ∷ answers, last)
