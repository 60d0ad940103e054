-- ===== src/Lowlevel/Store/Refinement.antt =====
-- The store behind the context ids, as a map from ids to contexts.
use imas_core.Prelude.{
  ℕ, zero, suc, ◌≤◌, ◌<◌, List, [], ◌∷◌, ◌++◌, Option, none, some, length, get_elem?, set, ◌==◌,
  if◌then◌else◌, ◌≡◌, refl, arith, length-append, length-set, Bool-cases, inl, inr,
}
use imas_core.Lowlevel.Store.{LLenv, Store, new_store, add_llenv, clear_slot}

abbrev pub Contexts : Type 0
Contexts = ℕ → Option LLenv

-- What getLLenv finds.
abbrev pub slot : Option (Option LLenv) → Option LLenv
slot none = none
slot (some lle) = lle

abbrev pub view : Store → Contexts
view s i = slot (get_elem? s.llenv_store i)

abbrev pub update : Contexts → ℕ → Option LLenv → Contexts
update F i lle j = if j == i then lle else F j

-- The next id is in the vector or just behind it, and what stands there and behind is free; the NULL
-- context's slot is free.
pub record StoreInv (s : Store) : Type 0 where
  pub max_length : s.max_store_elt ≡ length s.llenv_store
  pub cur_max : s.cur_store_elt ≤ s.max_store_elt
  pub cur_pos : 1 ≤ s.cur_store_elt
  pub vacant : (i : ℕ) → s.cur_store_elt ≤ i → view s i ≡ none
  pub null : view s 0 ≡ none

pub beyond : (xs : List (Option LLenv)) (j : ℕ) → length xs ≤ j → slot (get_elem? xs j) ≡ none
beyond [] j h = refl
beyond (x ∷ xs) zero h = ground (arith, h)
beyond (x ∷ xs) (suc j) h = beyond xs j (ground (arith, h))

slot-append :
    (xs : List (Option LLenv)) (lle : Option LLenv) (j : ℕ)
    → slot (get_elem? (xs ++ (lle ∷ [])) j)
      ≡ (if j == length xs then lle else slot (get_elem? xs j))
slot-append [] lle zero = refl
slot-append [] lle (suc j) = ground arith
slot-append (x ∷ xs) lle zero = ground arith
slot-append (x ∷ xs) lle (suc j) = ground (arith, slot-append xs lle j)

pub slot-set :
    (xs : List (Option LLenv)) (i : ℕ) (lle : Option LLenv) (j : ℕ)
    → i < length xs
    → slot (get_elem? (set xs i lle) j) ≡ (if j == i then lle else slot (get_elem? xs j))
slot-set [] i lle j h = ground (arith, h)
slot-set (x ∷ xs) zero lle zero h = refl
slot-set (x ∷ xs) zero lle (suc j) h = ground arith
slot-set (x ∷ xs) (suc i) lle zero h = ground arith
slot-set (x ∷ xs) (suc i) lle (suc j) h = ground (arith, slot-set xs i lle j)

pub new_store-StoreInv : StoreInv new_store
unfolding new_store
new_store-StoreInv = record {
  max_length = refl;
  cur_max = ground arith;
  cur_pos = ground arith;
  vacant = λ i h. beyond (none ∷ []) i h;
  null = refl;
}

pub view-add_llenv :
    (lle : LLenv) (s : Store)
    → StoreInv s
    → (j : ℕ) → view (add_llenv lle s).1 j ≡ update (view s) s.cur_store_elt (some lle) j
unfolding add_llenv
view-add_llenv lle s v j = elim (Bool-cases (s.cur_store_elt == s.max_store_elt)) [
  | inl e ↦ rw e (ground (arith, slot-append s.llenv_store (some lle) j, v.max_length, e))
  | inr e ↦ rw e (
      ground
        (arith, slot-set s.llenv_store s.cur_store_elt (some lle) j, v.max_length, v.cur_max, e))
]

pub add_llenv-StoreInv : (lle : LLenv) (s : Store) → StoreInv s → StoreInv (add_llenv lle s).1
unfolding add_llenv
add_llenv-StoreInv lle s v = elim (Bool-cases (s.cur_store_elt == s.max_store_elt)) [
  | inl e ↦ rw e (record {
    max_length = ground (arith, length-append s.llenv_store (some lle ∷ []), v.max_length);
    cur_max = ground (arith, v.cur_max);
    cur_pos = ground arith;
    vacant =
        λ i h. ground (arith, slot-append s.llenv_store (some lle) i, v.max_length, v.vacant i, e);
    null =
        ground (arith, slot-append s.llenv_store (some lle) 0, v.max_length, v.null, v.cur_pos, e);
  })
  | inr e ↦ rw e (record {
    max_length = ground (arith, length-set s.llenv_store s.cur_store_elt (some lle), v.max_length);
    cur_max = ground (arith, v.cur_max, e);
    cur_pos = ground arith;
    vacant = λ i h. ground (
      arith,
      slot-set s.llenv_store s.cur_store_elt (some lle) i,
      v.max_length,
      v.cur_max,
      v.vacant i,
      e,
    );
    null = ground (
      arith,
      slot-set s.llenv_store s.cur_store_elt (some lle) 0,
      v.max_length,
      v.cur_max,
      v.null,
      v.cur_pos,
      e,
    );
  })
]

pub in_store :
    (xs : List (Option LLenv)) (i : ℕ) (lle : Option LLenv)
    → get_elem? xs i ≡ some lle
    → i < length xs
in_store [] i lle h = ground (arith, h)
in_store (x ∷ xs) zero lle h = ground arith
in_store (x ∷ xs) (suc i) lle h = ground (arith, in_store xs i lle h)

pub clear_slot-StoreInv :
    (i : ℕ) (lle : Option LLenv) (s : Store)
    → get_elem? s.llenv_store i ≡ some lle
    → 1 ≤ i
    → StoreInv s
    → StoreInv (clear_slot i s)
clear_slot-StoreInv i lle s g p v =
    let r : i < length s.llenv_store = in_store s.llenv_store i lle g in
    record {
      max_length = ground (arith, length-set s.llenv_store i none, v.max_length);
      cur_max = ground (arith, v.cur_max);
      cur_pos = ground (arith, v.cur_pos, p);
      vacant = λ j h. ground (arith, slot-set s.llenv_store i none j r, v.vacant j, h);
      null = ground (arith, slot-set s.llenv_store i none 0 r, v.null);
    }
