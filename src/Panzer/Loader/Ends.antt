-- ===== src/Panzer/Loader/Ends.antt =====
-- The size of a dynamic AoS is the end of the last time step that a row under it holds.
use imas_core.Prelude.{
  ℕ, ◌+◌, ◌≤◌, Bool, true, ◌&&◌, List, [], ◌∷◌, ◌++◌, some, Text, get_elem?, starts_with, ◌≡◌, All,
  ◌⊎◌,
}
use imas_core.Panzer.Types.{Leaf}
use imas_core.Panzer.Lookup.{is_data}
use imas_core.Panzer.Loader.{root_steps, root_end}

-- A data row under the root, and the step behind its last one.
abbrev pub under : Text → Leaf → Bool
under prefix leaf = is_data leaf && starts_with prefix leaf.path

abbrev pub row_end : Leaf → ℕ
row_end leaf = leaf.time_index + root_steps leaf

-- Some row under the root ends at `n`.
abbrev pub Attained : Text → List Leaf → ℕ → Type 0
Attained prefix leaves n =
    (i : ℕ) × (leaf : Leaf) × (get_elem? leaves i ≡ some leaf)
    × (under prefix leaf ≡ true)
    × (row_end leaf ≡ n)

-- Rows under the root end by `n`.
abbrev pub Covered : Text → List Leaf → ℕ → Type 0
Covered prefix leaves n = All (λ leaf. under prefix leaf ≡ true → row_end leaf ≤ n) leaves

-- The maximum on top of `best`.
record Maximum (prefix : Text) (leaves : List Leaf) (best n : ℕ) : Type 0 where
  result : root_end prefix leaves (some best) ≡ some n
  above : best ≤ n
  covered : Covered prefix leaves n
  attained : (best ≡ n) ⊎ Attained prefix leaves n

abbrev slashed : Text → Text
slashed root = root ++ (b'/' ∷ [])
