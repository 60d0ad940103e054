-- ===== src/Panzer/Lookup/Search.antt =====
-- The binary search of rowsForTime ends behind the last row that starts by the time step.
use imas_core.Prelude.{
  ℕ, zero, suc, ◌+◌, ◌-◌, ◌/◌, ◌≤◌, ◌<◌, true, false, ◌≡◌, refl, arith, ltb, Bool-cases, inl, inr,
}
use imas_core.Prelude.Int.{ℤ, pos, negsuc}
use imas_core.Panzer.Lookup.{search_rows, starts_by}

-- The starts below `n` do not fall.
abbrev pub Rising : (ℕ → ℕ) → ℕ → Type 0
Rising starts n = (i j : ℕ) → i ≤ j → j < n → starts i ≤ starts j

-- `m` splits the positions below `n` into those that start by `t` and those that start later.
pub record SplitsAt (starts : ℕ → ℕ) (t : ℤ) (n m : ℕ) : Type 0 where
  pub inside : m ≤ n
  pub before : (i : ℕ) → i < m → starts_by (starts i) t ≡ true
  pub behind : (i : ℕ) → m ≤ i → i < n → starts_by (starts i) t ≡ false

starts_by_mono : (a b : ℕ) (t : ℤ) → a ≤ b → starts_by b t ≡ true → starts_by a t ≡ true
starts_by_mono a b (pos t) h e = ground arith
starts_by_mono a b (negsuc t) h e = e

starts_by_anti : (a b : ℕ) (t : ℤ) → a ≤ b → starts_by a t ≡ false → starts_by b t ≡ false
starts_by_anti a b (pos t) h e = ground arith
starts_by_anti a b (negsuc t) h e = refl

module _ (starts : ℕ → ℕ) (t : ℤ) (n : ℕ) (rising : Rising starts n) where
  search_loop :
      (fuel lo hi : ℕ)
      → hi - lo < fuel
      → lo ≤ hi
      → hi ≤ n
      → ((i : ℕ) → i < lo → starts_by (starts i) t ≡ true)
      → ((i : ℕ) → hi ≤ i → i < n → starts_by (starts i) t ≡ false)
      → SplitsAt starts t n (search_rows starts t fuel lo hi)
  unfolding search_rows
  search_loop zero lo hi f a b before behind = absurd (omega arith)
  search_loop (suc fuel) lo hi f a b before behind = elim (Bool-cases (ltb lo hi)) [
    | inr done ↦ rw done (record {
      inside = omega arith;
      before = before;
      behind = λ i h k. behind i (ground arith) k;
    })
    | inl more ↦ rw more (elim (Bool-cases (starts_by (starts (lo + (hi - lo) / 2)) t)) [
      | inl by ↦ rw by (
          search_loop fuel (lo + (hi - lo) / 2 + 1) hi (ground arith) (ground arith) b
            (λ i h.
              starts_by_mono (starts i) (starts (lo + (hi - lo) / 2)) t
                (rising i _ (omega arith) (ground arith)) by)
            behind)
      | inr later ↦ rw later (
          search_loop fuel lo (lo + (hi - lo) / 2) (ground arith) (ground arith) (ground arith)
            before
            (λ i h k.
              starts_by_anti (starts (lo + (hi - lo) / 2)) (starts i) t (rising _ i h k) later))
    ])
  ]

  -- With fuel for every row the search splits the rows at the time step.
  pub search_rows-SplitsAt : SplitsAt starts t n (search_rows starts t (suc n) 0 n)
  search_rows-SplitsAt =
      search_loop (suc n) 0 n (omega arith) (omega arith) (omega arith)
        (λ i h. absurd (omega arith)) (λ i h k. absurd (omega arith))
